-- ===== src/Listing/Slash/Directory.antt =====
-- The listing of a directory's statuses (listing_from_statuses of src/s3/sorted_listing.rs) and its pages
-- (paginate_slash and paginate of src/core/listing.rs).
use hdfs_s3_gateway.Prelude.{
  ℕ, ◌≡◌, ◌≢◌, refl, ap, ap₂, sym, subst, ◌∙◌, not, Bool-cases, inl, inr, Bytes, lit, if◌then◌else◌,
  Option, none, some, List, [], ◌∷◌, ◌++◌, append_assoc, append-nil, map, select, All, arith,
}
use hdfs_s3_gateway.Listing.{ListEntry}
use hdfs_s3_gateway.Listing.Paginate.{sort_by, paginate}
use hdfs_s3_gateway.Listing.Sorting.{Ascending, Distinct, sort-Ascending, All-select}
use hdfs_s3_gateway.Listing.Whole.{map-sort_by}
use hdfs_s3_gateway.Listing.Slash.{paginate_slash}
use hdfs_s3_gateway.Listing.Slash.Merging.{output, file_key}
use hdfs_s3_gateway.Listing.Slash.Children.{IsChild, IsListing, child_nonempty}
use hdfs_s3_gateway.Listing.Slash.Equivalence.{paginate_slash-eq-paginate}
use hdfs_s3_gateway.Path.{PathMapper, hdfs_path_to_key}
use hdfs_s3_gateway.Path.Segments.{NoSlash}
use hdfs_s3_gateway.SortedListing.Counting.{All-sort_by}
use hdfs_s3_gateway.SortedListing.{
  FileStatus, sort_dirs, add_status, add_statuses, listing_from_statuses,
}
use hdfs_s3_gateway.Listing.Slash.Outputs.{
  map-sort_dirs, All-sort_dirs, Distinct-map-select, All-mapped, Distinct-outputs,
}

-- The key of a status.
abbrev pub status_key : PathMapper → FileStatus → Bytes
status_key mapper s = elim (hdfs_path_to_key mapper s.path) [ none ↦ [] | some k ↦ k ]

abbrev entry_of : PathMapper → FileStatus → ListEntry
entry_of mapper s = record {
  key = status_key mapper s;
  size = s.length;
  modification_time = s.modification_time;
}

-- The statuses of the children of the directory with the keys' start `base`, each name once.
pub record IsDirectory (mapper : PathMapper) (base : Bytes) (statuses : List FileStatus)
    : Type 0 where
  pub children :
      All (λ s. (k : Bytes) × (hdfs_path_to_key mapper s.path ≡ some k) × IsChild base k) statuses
  pub distinct : Distinct (map (status_key mapper) statuses)

module _ (mapper : PathMapper) (base : Bytes) where
  abbrev files_of : List FileStatus → List ListEntry
  files_of statuses = map (entry_of mapper) (select (λ s. not s.isdir) statuses)

  abbrev dirs_of : List FileStatus → List Bytes
  dirs_of statuses = map (status_key mapper) (select (λ s. s.isdir) statuses)

  IsKnown : FileStatus → Type 0
  IsKnown s = (k : Bytes) × (hdfs_path_to_key mapper s.path ≡ some k) × IsChild base k

  abbrev added : FileStatus → List ListEntry × List Bytes → List ListEntry × List Bytes
  added s (files, dirs) =
      if s.isdir
      then (files, dirs ++ (status_key mapper s ∷ []))
      else (files ++ (entry_of mapper s ∷ []), dirs)

  add_status-found :
      (s : FileStatus) (files : List ListEntry) (dirs : List Bytes) (k : Bytes)
      → hdfs_path_to_key mapper s.path ≡ some k
      → [] ≢ k
      → add_status mapper s (files, dirs) ≡ added s (files, dirs)
  unfolding add_status
  add_status-found s files dirs [] e ne = absurd (ne refl)
  add_status-found s files dirs (c ∷ k) e ne = ground (arith, e)

  add_status-child :
      (s : FileStatus) (files : List ListEntry) (dirs : List Bytes)
      → IsKnown s
      → add_status mapper s (files, dirs) ≡ added s (files, dirs)
  unfolding IsKnown
  add_status-child s files dirs (k, e, (name, path, is_name_of)) =
      add_status-found s files dirs k e (λ h. child_nonempty base name is_name_of (h ∙ path))

  -- The loop keeps every child, in its order.
  add_statuses-children :
      (statuses : List FileStatus) (files : List ListEntry) (dirs : List Bytes)
      → All IsKnown statuses
      → add_statuses mapper statuses (files, dirs)
        ≡ (files ++ files_of statuses, dirs ++ dirs_of statuses)
  unfolding add_statuses
  add_statuses-children [] files dirs h =
      ap₂ (λ f d. (f, d)) (sym (append-nil files)) (sym (append-nil dirs))
  add_statuses-children (s ∷ statuses) files dirs h =
      let first = add_status-child s files dirs h.0 in
      let entry = entry_of mapper s in
      let key = status_key mapper s in
      elim (Bool-cases s.isdir) [
        | inl e ↦
            let rest = add_statuses-children statuses files (dirs ++ (key ∷ [])) h.1 in
            ground (arith, e, first, rest, append_assoc dirs (key ∷ []) (dirs_of statuses))
        | inr e ↦
            let rest = add_statuses-children statuses (files ++ (entry ∷ [])) dirs h.1 in
            ground (arith, e, first, rest, append_assoc files (entry ∷ []) (files_of statuses))
      ]

  map-entry_of :
      (l : List FileStatus) → map file_key (map (entry_of mapper) l) ≡ map (status_key mapper) l
  map-entry_of [] = refl
  map-entry_of (s ∷ l) = ap (◌∷◌ (status_key mapper s)) (map-entry_of l)

  All-entries :
      (statuses : List FileStatus)
      → All IsKnown statuses
      → All (λ s. IsChild base (status_key mapper s)) statuses
  unfolding IsKnown
  All-entries [] h = tt
  All-entries (s ∷ statuses) h =
      let (k, e, (name, path, is_name_of)) = h.0 in
      ((name, ground (arith, e) ∙ path, is_name_of), All-entries statuses h.1)

  -- The listing of a directory is one.
  pub listing_from_statuses-IsListing :
      (part : Bytes) (statuses : List FileStatus)
      → NoSlash part
      → IsDirectory mapper base statuses
      → IsListing base part
          (listing_from_statuses statuses mapper).files
          (listing_from_statuses statuses mapper).dirs
  unfolding listing_from_statuses IsKnown
  listing_from_statuses-IsListing part statuses clean dir =
      let known = All-entries statuses dir.children in
      let files = select (λ s. not s.isdir) statuses in
      let dirs = select (λ s. s.isdir) statuses in
      subst (λ p. IsListing base part (sort_by file_key p.0) (sort_dirs p.1))
        (sym (add_statuses-children statuses [] [] dir.children))
        (record {
          file_children =
              All-sort_by file_key (λ f. IsChild base f.key) (files_of statuses)
                (All-mapped (λ f. IsChild base f.key) (entry_of mapper) files
                  (All-select _ _ statuses known));
          dir_children =
              All-sort_dirs (IsChild base) (dirs_of statuses) (
                All-mapped (IsChild base) (status_key mapper) dirs (All-select _ _ statuses known));
          part_of_name = clean;
          files_ascending = subst Ascending (sym (map-sort_by (files_of statuses))) (
              sort-Ascending (map file_key (files_of statuses)) (
                subst Distinct (sym (map-entry_of files))
                  (Distinct-map-select (status_key mapper) _ statuses dir.distinct)));
          dirs_ascending = subst Ascending (sym (map-sort_dirs (dirs_of statuses))) (
              sort-Ascending (map output (dirs_of statuses)) (
                Distinct-outputs (dirs_of statuses)
                  (Distinct-map-select (status_key mapper) _ statuses dir.distinct)));
        })

  -- For the statuses of the children of one directory, each name once, and a prefix that names the
  -- directory and a part of a name, the listing that is made of them is paged by `paginate_slash` as
  -- by `paginate` with the delimiter `/`, for every marker and every maximum.
  pub listing_from_statuses-paginate :
      (part : Bytes) (statuses : List FileStatus) (marker : Option Bytes) (max_keys : ℕ)
      → NoSlash part
      → IsDirectory mapper base statuses
      → paginate_slash
          (listing_from_statuses statuses mapper).files
          (listing_from_statuses statuses mapper).dirs
          (base ++ part)
          marker
          max_keys
        ≡ paginate
            (listing_from_statuses statuses mapper).files
            (listing_from_statuses statuses mapper).dirs
            (base ++ part)
            (some (lit "/"))
            marker
            max_keys
  listing_from_statuses-paginate part statuses marker max_keys clean dir =
      paginate_slash-eq-paginate base part (listing_from_statuses statuses mapper).files
        (listing_from_statuses statuses mapper).dirs
        (listing_from_statuses-IsListing part statuses clean dir) marker max_keys
