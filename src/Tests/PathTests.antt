-- ===== src/Tests/PathTests.antt =====
-- Paths and ranges: the cases of the source's tests, and the theorems at concrete inputs.
use hdfs_s3_gateway.Prelude.{
  ◌≡◌, ◌≢◌, ◌⊎◌, refl, Bytes, lit, ◌=?◌, starts_with, strip_prefix, none, some, List, [], ◌∷◌, ◌++◌,
  ◌<◌, ◌≤◌, ◌↔◌, ℕ, All, true,
}
use hdfs_s3_gateway.Config.{Config, config_default}
use hdfs_s3_gateway.Path.{
  PathMapper, mapper_new, key_to_hdfs_path, hdfs_path_to_key, list_start, normalize_abs, render,
  join,
}
use hdfs_s3_gateway.Path.Segments.{is_name, IsName}
use hdfs_s3_gateway.Path.Containment
use hdfs_s3_gateway.Path.Containment.{IsRooted}
use hdfs_s3_gateway.Path.RoundTrip
use hdfs_s3_gateway.Path.ListStart
use hdfs_s3_gateway.Range.{
  resolve_range, resolve_range_window, resolve_range_refused, inclusive, Requested,
}

abbrev data_config : Config
data_config = record config_default { hdfs_root = lit "/data" }

abbrev data_mapper : PathMapper
data_mapper = record { root = lit "/data"; bucket = lit "hdfs" }

mapper_new_run : mapper_new data_config ≡ data_mapper
unfolding mapper_new starts_with ◌=?◌
mapper_new_run = refl

key_to_hdfs_path_runs :
    (key_to_hdfs_path data_mapper (lit "/a//./b/") ≡ some (lit "/data/a/b"))
    × (key_to_hdfs_path data_mapper (lit "a/../../etc/passwd") ≡ none)
    × (key_to_hdfs_path data_mapper (lit "/") ≡ none)
unfolding key_to_hdfs_path starts_with ◌=?◌
key_to_hdfs_path_runs = (refl, refl, refl)

hdfs_path_to_key_runs :
    (hdfs_path_to_key data_mapper (lit "/data") ≡ some [])
    × (hdfs_path_to_key data_mapper (lit "/data/x.txt") ≡ some (lit "x.txt"))
    × (hdfs_path_to_key data_mapper (lit "/etc/passwd") ≡ none)
unfolding hdfs_path_to_key starts_with strip_prefix ◌=?◌
hdfs_path_to_key_runs = (refl, refl, refl)

list_start_runs :
    (list_start data_mapper (lit "a/b/c.txt") ≡ some (lit "/data/a/b"))
    × (list_start data_mapper (lit "ab") ≡ some (lit "/data"))
    × (list_start data_mapper (lit "../") ≡ none)
unfolding list_start starts_with ◌=?◌
list_start_runs = (refl, refl, refl)

data_mapper-IsRooted : IsRooted data_mapper (lit "data" ∷ [])
unfolding render join is_name ◌=?◌
data_mapper-IsRooted = record { root_path = refl; root_names = (refl, tt) }

abbrev parts : List Bytes
parts = lit "a" ∷ lit "b.txt" ∷ []

parts-IsName : All IsName parts
unfolding is_name ◌=?◌
parts-IsName = (refl, (refl, tt))

key_to_hdfs_path-contained_example :
    (segs : List Bytes) × (lit "/data/a" ≡ render true (lit "data" ∷ [] ++ segs)) × All IsName segs
unfolding key_to_hdfs_path starts_with ◌=?◌
key_to_hdfs_path-contained_example =
    Containment.key_to_hdfs_path-contained data_mapper (lit "data" ∷ []) (lit "../data/./a")
      (lit "/data/a") data_mapper-IsRooted refl

mapper_new-IsRooted_example : (rs : List Bytes) × IsRooted (mapper_new data_config) rs
mapper_new-IsRooted_example = Containment.mapper_new-IsRooted data_config

key-round_trip_example :
    (p : Bytes) × (key_to_hdfs_path data_mapper (join parts) ≡ some p)
    × (hdfs_path_to_key data_mapper p ≡ some (join parts))
key-round_trip_example =
    RoundTrip.key-round_trip data_mapper (lit "data" ∷ []) data_mapper-IsRooted (lit "a")
      (lit "b.txt" ∷ []) parts-IsName

path-round_trip_example :
    (segs : List Bytes) × (lit "x/y" ≡ join segs)
    × All IsName segs
    × (normalize_abs (lit "/data/x/./y") ≡ some (render true (lit "data" ∷ [] ++ segs)))
    × ((segs ≡ [])
        ⊎ (key_to_hdfs_path data_mapper (lit "x/y") ≡ some (render true (lit "data" ∷ [] ++ segs))))
unfolding hdfs_path_to_key starts_with strip_prefix ◌=?◌
path-round_trip_example =
    RoundTrip.path-round_trip data_mapper (lit "data" ∷ []) data_mapper-IsRooted (lit "/data/x/./y")
      (lit "x/y") refl refl

list_start_complete_example :
    (front back : List Bytes) × (list_start data_mapper (lit "a/b")
      ≡ some (render true (lit "data" ∷ [] ++ front)))
    × (parts ≡ front ++ back)
    × (back ≢ [])
unfolding starts_with join
list_start_complete_example =
    ListStart.list_start_complete data_mapper (lit "data" ∷ []) data_mapper-IsRooted (lit "a/b")
      (lit "a") (lit "b.txt" ∷ []) parts-IsName refl (λ e. cc) (λ e. cc)

list_start_dot_example :
    (list_start data_mapper (lit ".") ≡ none)
    × (starts_with (join (lit ".hidden" ∷ [])) (lit ".") ≡ true)
    × (key_to_hdfs_path data_mapper (join (lit ".hidden" ∷ []))
        ≡ some (render true (lit "data" ∷ [] ++ lit ".hidden" ∷ [])))
unfolding is_name ◌=?◌
list_start_dot_example =
    ListStart.list_start_dot data_mapper (lit "data" ∷ []) data_mapper-IsRooted (lit "hidden") []
      (refl, tt)

resolve_range_window_example :
    (50 < 100)
    × (100 ≤ 100)
    × ((i : ℕ) → ((50 ≤ i) × (i < 100)) ↔ Requested 100 (inclusive 50 999) i)
unfolding resolve_range
resolve_range_window_example = resolve_range_window 100 (inclusive 50 999) 50 100 refl

resolve_range_refused_example : ¬ Requested 100 (inclusive 90 80) 85
unfolding resolve_range
resolve_range_refused_example = resolve_range_refused 100 (inclusive 90 80) refl 85
