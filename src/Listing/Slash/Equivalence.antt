-- ===== src/Listing/Slash/Equivalence.antt =====
-- paginate_slash against paginate (src/core/listing.rs).
use hdfs_s3_gateway.Prelude.{
  ℕ, zero, suc, ◌≡◌, refl, ap, ap₂, sym, subst, ◌∙◌, Bytes, lit, min, ltb, Option, none, some, List,
  [], ◌∷◌, ◌++◌, map, take, drop, ◌=?◌, length, last?, All, arith,
}
use hdfs_s3_gateway.Listing.{ListEntry}
use hdfs_s3_gateway.Listing.Contents.{list_to_contents}
use hdfs_s3_gateway.Listing.Compare.{min-suc, min-zero_left, min-zero_right}
use hdfs_s3_gateway.Listing.Cutting.{map-select}
use hdfs_s3_gateway.Listing.Paginate.{
  sort_by, sort, dedup, is_slash, retain_after, common_vec, cut_page, paginate,
}
use hdfs_s3_gateway.Listing.Sorting.{Ascending, All-map_to}
use hdfs_s3_gateway.Listing.Slash.{Taken, file_start, dir_start, slash_loop, paginate_slash}
use hdfs_s3_gateway.Listing.Slash.Merging.{
  output, file_key, IsPlain, keys_left, last_or, last_or-eq-last, page_from, page_of,
}
use hdfs_s3_gateway.Listing.Slash.Turns.{files_in, dirs_in}
use hdfs_s3_gateway.Listing.Slash.Range.{Ascending-map-select, slash_loop-eq-page_of}
use hdfs_s3_gateway.Listing.Slash.Children.{
  IsListing, output-ne-child, list_entries-children, dir_prefixes-children, sort_by-Ascending,
  dedup_sorted,
}

abbrev empty : Taken
empty = record { contents = []; common_prefixes = []; last_key = none }

last_or_nothing : (l : List Bytes) → last_or none l ≡ last? l
unfolding last_or
last_or_nothing [] = refl
last_or_nothing (x ∷ l) = last_or-eq-last x l

take-min : {A : Type 0} (n : ℕ) (l : List A) → take (min n (length l)) l ≡ take n l
take-min zero l = ap (λ k. take k l) (min-zero_left (length l))
take-min (suc n) [] = ap (λ k. take k []) (min-zero_right (suc n))
take-min (suc n) (x ∷ l) =
    ap (λ k. take k (x ∷ l)) (min-suc n (length l)) ∙ ap (◌∷◌ x) (take-min n l)

ltb-min : (n m : ℕ) → ltb (min n m) m ≡ ltb n m
ltb-min n m = ground arith

-- The page that `paginate` cuts is that of all keys.
cut_page-eq-page_of :
    (n : ℕ) (files : List ListEntry) (dirs : List Bytes)
    → cut_page files (map output dirs) n ≡ page_of n files dirs empty
unfolding cut_page page_from keys_left
cut_page-eq-page_of n files dirs =
    let keys = sort (map file_key files ++ map output dirs) in
    ground (arith, take-min n keys, ltb-min n (length keys), last_or_nothing (take n keys))

map_same : (l : List Bytes) → map (λ k. k) l ≡ l
map_same [] = refl
map_same (x ∷ l) = ap (◌∷◌ x) (map_same l)

sort_sorted : (l : List Bytes) → Ascending l → sort l ≡ l
sort_sorted l h = sort_by-Ascending (λ k. k) l (subst Ascending (sym (map_same l)) h)

retain-map_output :
    (marker : Option Bytes) (dirs : List Bytes)
    → retain_after (λ k. k) marker (map output dirs) ≡ map output (retain_after output marker dirs)
unfolding retain_after
retain-map_output none dirs = refl
retain-map_output (some marker) dirs = sym (map-select output _ dirs)

module _ (base part : Bytes) (files : List ListEntry) (dirs : List Bytes)
    (listing : IsListing base part files dirs) where
  abbrev prefix : Bytes
  prefix = base ++ part

  contents_in :
      sort_by file_key (list_to_contents files prefix (some (lit "/"))).0 ≡ files_in prefix files
  unfolding list_to_contents
  contents_in =
      ap (λ s. sort_by file_key s.0)
        (list_entries-children base part files [] (record { prefixes = [] }) listing.file_children)
      ∙ sort_by-Ascending file_key (files_in prefix files)
          (Ascending-map-select file_key _ files listing.files_ascending)

  common_in : common_vec files dirs prefix (some (lit "/")) ≡ map output (dirs_in prefix dirs)
  unfolding common_vec list_to_contents is_slash ◌=?◌
  common_in =
      let ascending = Ascending-map-select output _ dirs listing.dirs_ascending in
      ap₂ (λ s ds. dedup (sort (s.1.prefixes ++ ds)))
        (list_entries-children base part files [] (record { prefixes = [] }) listing.file_children)
        (dir_prefixes-children base part dirs listing.part_of_name listing.dir_children)
      ∙ ap dedup (sort_sorted (map output (dirs_in prefix dirs)) ascending)
      ∙ dedup_sorted (map output (dirs_in prefix dirs)) ascending

  files-IsPlain : All IsPlain files
  files-IsPlain =
      All-map_to (λ f child. λ d e. output-ne-child base child.0 d child.2 (e ∙ child.1)) files
        listing.file_children

  slash_some :
      (marker : Option Bytes) (n : ℕ)
      → paginate_slash files dirs prefix marker (suc n)
        ≡ slash_loop prefix
            (suc n)
            (drop (file_start files prefix marker) files)
            (drop (dir_start dirs prefix marker) dirs)
            empty
  unfolding paginate_slash
  slash_some marker n = ground arith

  paginate-some :
      (marker : Option Bytes) (n : ℕ)
      → paginate files dirs prefix (some (lit "/")) marker (suc n)
        ≡ cut_page
            (retain_after file_key marker
              (sort_by file_key (list_to_contents files prefix (some (lit "/"))).0))
            (retain_after (λ k. k) marker (common_vec files dirs prefix (some (lit "/"))))
            (suc n)
  unfolding paginate
  paginate-some marker n = ground arith

  -- For the files and directories of one directory, each in the order of its output keys, and a prefix
  -- that names the directory and a part of a name, `paginate_slash` gives the page that `paginate` gives
  -- with the delimiter `/`, for every marker and every maximum.
  pub paginate_slash-eq-paginate :
      (marker : Option Bytes) (max_keys : ℕ)
      → paginate_slash files dirs prefix marker max_keys
        ≡ paginate files dirs prefix (some (lit "/")) marker max_keys
  unfolding paginate_slash paginate
  paginate_slash-eq-paginate marker zero = refl
  paginate_slash-eq-paginate marker (suc n) =
      slash_some marker n
      ∙ slash_loop-eq-page_of prefix marker (suc n) files dirs empty listing.files_ascending
          listing.dirs_ascending files-IsPlain
      ∙ sym (
          cut_page-eq-page_of (suc n) (retain_after file_key marker (files_in prefix files))
            (retain_after output marker (dirs_in prefix dirs)))
      ∙ sym (
          ap₂ (λ c p. cut_page c p (suc n)) (ap (retain_after file_key marker) contents_in)
            (ap (retain_after (λ k. k) marker) common_in
              ∙ retain-map_output marker (dirs_in prefix dirs)))
      ∙ sym (paginate-some marker n)
