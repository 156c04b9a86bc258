-- ===== src/Listing/Whole.antt =====
-- The whole listing, sorted and without repetitions (what paginate of src/core/listing.rs cuts its
-- pages from).
use hdfs_s3_gateway.Prelude.{
  ◌≡◌, ◌≢◌, refl, ap, subst, ◌∙◌, sym, Bool, false, Bytes, if◌then◌else◌, Option, List, [], ◌∷◌,
  ◌++◌, map, select, All, All-append, arith,
}
use hdfs_s3_gateway.Listing.{ListEntry}
use hdfs_s3_gateway.Listing.Contents.{list_to_contents, nonempty_delimiter}
use hdfs_s3_gateway.Listing.Paginate.{
  insert_sorted, sort_by, sort, common_vec, is_slash, dir_prefixes,
}
use hdfs_s3_gateway.Listing.Sorting.{
  if-elim, if-cases, All-sort, sort-Distinct, Ascending, Distinct, All-map_to, sort-Ascending,
  Ascending-Distinct, dedup-Ascending, sort-Sorted,
}
use hdfs_s3_gateway.Listing.Collapse.{list_to_contents_listed, has_delimiter-common_vec}
use hdfs_s3_gateway.Listing.Finding.{has_delimiter, is_listed}

-- The whole listing: Contents and CommonPrefixes in one order, with no marker and no limit.
unfoldable pub listing_keys : List ListEntry → List Bytes → Bytes → Option Bytes → List Bytes
listing_keys files dirs prefix delimiter =
    let contents = sort_by (λ e. e.key) (list_to_contents files prefix delimiter).0 in
    sort (map (λ e. e.key) contents ++ common_vec files dirs prefix delimiter)

map-insert_sorted :
    (x : ListEntry) (l : List ListEntry)
    → map (λ e. e.key) (insert_sorted (λ e. e.key) x l)
      ≡ insert_sorted (λ k. k) x.key (map (λ e. e.key) l)
unfolding insert_sorted
map-insert_sorted x [] = refl
map-insert_sorted x (y ∷ l) = ground (arith, map-insert_sorted x l)

pub map-sort_by :
    (l : List ListEntry) → map (λ e. e.key) (sort_by (λ e. e.key) l) ≡ sort (map (λ e. e.key) l)
unfolding sort_by
map-sort_by [] = refl
map-sort_by (x ∷ l) =
    map-insert_sorted x (sort_by (λ e. e.key) l) ∙ ap (insert_sorted (λ k. k) x.key) (map-sort_by l)

-- The whole listing repeats no key when the files' keys are distinct.
Distinct-append :
    (a b : List Bytes)
    → Distinct a
    → Distinct b
    → All (λ x. All (λ y. x ≢ y) b) a
    → Distinct (a ++ b)
Distinct-append [] b da db h = db
Distinct-append (x ∷ a) b da db h =
    (All-append (λ y. x ≢ y) a b da.0 h.0, Distinct-append a b da.1 db h.1)

All-map-select :
    (P : Bytes → Type 0) (p : ListEntry → Bool) (l : List ListEntry)
    → All P (map (λ e. e.key) l)
    → All P (map (λ e. e.key) (select p l))
All-map-select P p [] h = tt
All-map-select P p (x ∷ l) h =
    let rest = All-map-select P p l h.1 in
    if-elim (λ r. All P (map (λ e. e.key) r)) (p x) (x ∷ select p l) (select p l) (h.0, rest) rest

Distinct-map-select :
    (p : ListEntry → Bool) (l : List ListEntry)
    → Distinct (map (λ e. e.key) l)
    → Distinct (map (λ e. e.key) (select p l))
Distinct-map-select p [] d = tt
Distinct-map-select p (x ∷ l) d =
    let rest = Distinct-map-select p l d.1 in
    if-elim (λ r. Distinct (map (λ e. e.key) r)) (p x) (x ∷ select p l) (select p l)
      (All-map-select (λ y. x.key ≢ y) p l d.0, rest) rest

listed_no_delimiter :
    (prefix : Bytes) (d : Option Bytes) (l : List ListEntry)
    → All (λ k. has_delimiter prefix d k ≡ false) (map (λ e. e.key) (select (is_listed prefix d) l))
listed_no_delimiter prefix d [] = tt
listed_no_delimiter prefix d (x ∷ l) =
    let rest = listed_no_delimiter prefix d l in
    if-cases (λ r. All (λ k. has_delimiter prefix d k ≡ false) (map (λ e. e.key) r))
      (is_listed prefix d x) (x ∷ select (is_listed prefix d) l) (select (is_listed prefix d) l)
      (λ e. (ground (arith, e), rest)) (λ e. rest)

pub common_vec-Ascending :
    (files : List ListEntry) (dirs : List Bytes) (prefix : Bytes) (delimiter : Option Bytes)
    → Ascending (common_vec files dirs prefix delimiter)
unfolding common_vec
common_vec-Ascending files dirs prefix delimiter =
    let common = (list_to_contents files prefix delimiter).1.prefixes in
    let found = common ++ (if is_slash delimiter then dir_prefixes prefix dirs else []) in
    dedup-Ascending (sort found) (sort-Sorted found)

module _ (files : List ListEntry) (dirs : List Bytes) (prefix : Bytes)
    (delimiter : Option Bytes) where
  abbrev pub contents_keys : List Bytes
  contents_keys =
      map (λ e. e.key) (sort_by (λ e. e.key) (list_to_contents files prefix delimiter).0)

  abbrev pub common_keys : List Bytes
  common_keys = common_vec files dirs prefix delimiter

  abbrev delim : Option Bytes
  delim = nonempty_delimiter delimiter

  contents_keys-sort :
      contents_keys ≡ sort (map (λ e. e.key) (select (is_listed prefix delim) files))
  contents_keys-sort =
      map-sort_by (list_to_contents files prefix delimiter).0
      ∙ ap (λ c. sort (map (λ e. e.key) c)) (list_to_contents_listed files prefix delimiter)

  pub keys_Distinct : Distinct (map (λ e. e.key) files) → Distinct (contents_keys ++ common_keys)
  keys_Distinct d =
      let listed = map (λ e. e.key) (select (is_listed prefix delim) files) in
      let unmarked =
        All-sort (λ k. has_delimiter prefix delim k ≡ false) listed
          (listed_no_delimiter prefix delim files) in
      let marked = has_delimiter-common_vec files dirs prefix delimiter in
      let apart =
        All-map_to
          (λ x u.
            All-map_to (λ y m e. ground (arith, u, m, ap (has_delimiter prefix delim) e))
              common_keys marked)
          (sort listed) unmarked in
      let common_d =
        Ascending-Distinct common_keys (common_vec-Ascending files dirs prefix delimiter) in
      subst (λ c. Distinct (c ++ common_keys)) (sym contents_keys-sort)
        (Distinct-append (sort listed) common_keys
          (sort-Distinct listed (Distinct-map-select (is_listed prefix delim) files d)) common_d
          apart)

  -- Contents and CommonPrefixes of a listing together are in strict key order, so no key is both, when
  -- the files' keys are distinct.
  pub listing_keys-Ascending :
      Distinct (map (λ e. e.key) files) → Ascending (listing_keys files dirs prefix delimiter)
  unfolding listing_keys
  listing_keys-Ascending d = sort-Ascending (contents_keys ++ common_keys) (keys_Distinct d)
