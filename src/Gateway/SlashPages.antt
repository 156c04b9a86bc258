-- ===== src/Gateway/SlashPages.antt =====
-- ListObjectsV2 with the delimiter `/` (src/s3/mod.rs) over the listing of a directory.
use hdfs_s3_gateway.Prelude.{
  ℕ, ◌≡◌, ◌≢◌, refl, sym, ap, ◌∙◌, true, Bytes, lit, ◌=?◌, Option, some, List, [], ◌∷◌, ◌++◌, map,
  All, arith,
}
use hdfs_s3_gateway.Listing.{DirListing}
use hdfs_s3_gateway.Listing.Paginate.{paginate}
use hdfs_s3_gateway.Listing.Sorting.{Distinct}
use hdfs_s3_gateway.Listing.Slash.{paginate_slash}
use hdfs_s3_gateway.Listing.Slash.Children.{IsChild}
use hdfs_s3_gateway.Listing.Slash.Directory.{
  status_key, IsDirectory, listing_from_statuses-paginate,
}
use hdfs_s3_gateway.Path.{PathMapper, render, join_root, hdfs_path_to_key, list_start}
use hdfs_s3_gateway.Path.Segments.{IsName, NoSlash}
use hdfs_s3_gateway.Path.Containment.{IsRooted}
use hdfs_s3_gateway.Path.Children.{
  base_of, child_path, child_path-join_root, child_key, list_start-base_of,
}
use hdfs_s3_gateway.SortedListing.{FileStatus, Listed, listed, listing_from_statuses}
use hdfs_s3_gateway.Gateway.Listings.{paged, slash_page, slash_listed, choose}

module _ (m : PathMapper) (rs : List Bytes) (r : IsRooted m rs) where
  -- The client's answer for a directory: its children, each name once.
  pub record IsFullAnswer (ns : List Bytes) (statuses : List FileStatus) : Type 0 where
    pub children :
        All (λ s. (name : Bytes) × IsName name × (s.path ≡ child_path rs ns name)) statuses
    pub distinct : Distinct (map (λ s. s.path) statuses)

  slash_page-listed :
      (list_dir : Bytes → Listed) (prefix : Bytes) (marker : Option Bytes) (max_keys : ℕ)
      (dir : Bytes)
      → list_start m prefix ≡ some dir
      → slash_page list_dir m prefix marker max_keys
        ≡ slash_listed prefix marker max_keys (list_dir dir)
  unfolding slash_page
  slash_page-listed list_dir prefix marker max_keys dir e = ground (arith, e)

  paged_listing :
      (prefix : Bytes) (marker : Option Bytes) (max_keys : ℕ) (l : DirListing)
      → slash_listed prefix marker max_keys (listed l)
        ≡ paged (paginate_slash l.files l.dirs prefix marker max_keys)
  unfolding slash_listed
  paged_listing prefix marker max_keys l = refl

  keys_of_children :
      (ns : List Bytes)
      → All IsName ns
      → (statuses : List FileStatus)
      → All (λ s. (name : Bytes) × IsName name × (s.path ≡ child_path rs ns name)) statuses
      → All
          (λ s. (k : Bytes) × (hdfs_path_to_key m s.path ≡ some k) × IsChild (base_of ns) k)
          statuses
  keys_of_children ns h [] all = tt
  keys_of_children ns h (s ∷ statuses) ((name, is_name_of, path), all) = (
    (
      base_of ns ++ name,
      (ap (hdfs_path_to_key m) path ∙ child_key m rs r ns name h is_name_of),
      (name, refl, is_name_of),
    ),
    keys_of_children ns h statuses all,
  )

  path_of_key :
      (ns : List Bytes) (s : FileStatus)
      → All IsName ns
      → (name : Bytes) × IsName name × (s.path ≡ child_path rs ns name)
      → s.path ≡ join_root (render true rs) (status_key m s)
  path_of_key ns s h (name, is_name_of, path) =
      let key = ap (hdfs_path_to_key m) path ∙ child_key m rs r ns name h is_name_of in
      let same : status_key m s ≡ base_of ns ++ name = ground (arith, key) in
      path
      ∙ child_path-join_root rs ns name r.root_names
      ∙ ap (join_root (render true rs)) (sym same)

  keys_apart :
      (ns : List Bytes) (s : FileStatus)
      → All IsName ns
      → (name : Bytes) × IsName name × (s.path ≡ child_path rs ns name)
      → (statuses : List FileStatus)
      → All (λ t. (name : Bytes) × IsName name × (t.path ≡ child_path rs ns name)) statuses
      → All (λ p. s.path ≢ p) (map (λ t. t.path) statuses)
      → All (λ k. status_key m s ≢ k) (map (status_key m) statuses)
  keys_apart ns s h child [] all apart = tt
  keys_apart ns s h child (t ∷ statuses) all apart = (
    (λ e. apart.0 (
        path_of_key ns s h child
        ∙ ap (join_root (render true rs)) e
        ∙ sym (path_of_key ns t h all.0))),
    keys_apart ns s h child statuses all.1 apart.1,
  )

  keys_Distinct :
      (ns : List Bytes)
      → All IsName ns
      → (statuses : List FileStatus)
      → All (λ s. (name : Bytes) × IsName name × (s.path ≡ child_path rs ns name)) statuses
      → Distinct (map (λ s. s.path) statuses)
      → Distinct (map (status_key m) statuses)
  keys_Distinct ns h [] all distinct = tt
  keys_Distinct ns h (s ∷ statuses) all distinct = (
    keys_apart ns s h all.0 statuses all.1 distinct.0,
    keys_Distinct ns h statuses all.1 distinct.1,
  )

  -- Under the delimiter `/`, a prefix that names a directory below the root and a part of a name, other
  -- than `.` and `..`, is answered with the page that `paginate` cuts from the listing of that
  -- directory, for every marker and every maximum, when the client answers for the directory with its
  -- children, each once.
  pub choose-eq-paginate :
      (list_dir : Bytes → Listed) (fuel : ℕ) (ns : List Bytes) (part : Bytes)
      (statuses : List FileStatus) (marker : Option Bytes) (max_keys : ℕ)
      → All IsName ns
      → NoSlash part
      → part ≢ lit "."
      → part ≢ lit ".."
      → IsFullAnswer ns statuses
      → list_dir (render true (rs ++ ns)) ≡ listed (listing_from_statuses statuses m)
      → choose list_dir fuel m (base_of ns ++ part) (some (lit "/")) marker max_keys
        ≡ paged (
            paginate
              (listing_from_statuses statuses m).files
              (listing_from_statuses statuses m).dirs
              (base_of ns ++ part)
              (some (lit "/"))
              marker
              max_keys)
  unfolding choose ◌=?◌
  choose-eq-paginate list_dir fuel ns part statuses marker max_keys h clean d1 d2 answer shown =
      let prefix = base_of ns ++ part in
      let directory : IsDirectory m (base_of ns) statuses = record {
        children = keys_of_children ns h statuses answer.children;
        distinct = keys_Distinct ns h statuses answer.children answer.distinct;
      } in
      slash_page-listed list_dir prefix marker max_keys (render true (rs ++ ns))
        (list_start-base_of m rs r ns part h clean d1 d2)
      ∙ ap (slash_listed prefix marker max_keys) shown
      ∙ paged_listing prefix marker max_keys (listing_from_statuses statuses m)
      ∙ ap paged (
          listing_from_statuses-paginate m (base_of ns) part statuses marker max_keys clean
            directory)
