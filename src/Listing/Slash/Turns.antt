-- ===== src/Listing/Slash/Turns.antt =====
-- The turns of the outer loop of paginate_slash (src/core/listing.rs).
use hdfs_s3_gateway.Prelude.{
  ℕ, zero, suc, ◌≡◌, ◌⊎◌, ◌<◌, ap, ap₂, sym, ◌∙◌, subst, Bool, true, false, Bool-cases, inl, inr,
  Bytes, starts_with, Ordering, cmp_bytes, cmp_swap, eq_of_cmp, ◌≺◌, ≺_trans, List, [], ◌∷◌, ◌++◌,
  append-nil, map, length, select, All, arith,
}
use hdfs_s3_gateway.Listing.{ListEntry, cmp_dir_output}
use hdfs_s3_gateway.Listing.Compare.{cmp_dir_output-eq-cmp_bytes}
use hdfs_s3_gateway.Listing.Paginate.{Page, insert_sorted, sort_by, sort}
use hdfs_s3_gateway.Listing.Sorting.{Ascending, All-map_to, All-select, if-elim}
use hdfs_s3_gateway.Listing.Slash.{
  is_greater, skip_files, skip_dirs, Taken, push_file, push_dir, whole_page, truncated_page,
  slash_turn,
}
use hdfs_s3_gateway.Listing.Slash.Seek.{
  skip, in_range, IsHeaded, skip-IsHeaded, skip-Ascending, select-skip,
}
use hdfs_s3_gateway.Listing.Slash.Merging.{
  output, file_key, IsPlain, skip_files-eq-skip, skip_dirs-eq-skip, keys_left, last_or, page_from,
  page_of, contains_nothing, All-of_map, keys_left-file, keys_left-dir, page_from-file,
  page_from-dir,
}

pub All-map-select :
    {A : Type 0} (P : Bytes → Type 0) (key : A → Bytes) (p : A → Bool) (l : List A)
    → All P (map key l)
    → All P (map key (select p l))
All-map-select P key p [] h = tt
All-map-select P key p (x ∷ l) h =
    let rest = All-map-select P key p l h.1 in
    if-elim (λ r. All P (map key r)) (p x) (x ∷ select p l) (select p l) (h.0, rest) rest

All-skip :
    {A : Type 0} (P : A → Type 0) (key : A → Bytes) (prefix : Bytes) (l : List A)
    → All P l
    → All P (skip key prefix l)
unfolding skip
All-skip P key prefix [] h = tt
All-skip P key prefix (x ∷ l) h =
    if-elim (All P) (starts_with (key x) prefix) (x ∷ l) _ h
      (if-elim (All P) _ [] (skip key prefix l) tt (All-skip P key prefix l h.1))

length-insert : (x : Bytes) (l : List Bytes) → 0 < length (insert_sorted (λ k. k) x l)
unfolding insert_sorted
length-insert x [] = omega arith
length-insert x (y ∷ l) = ground (arith, length-insert x l)

length-sort-cons : (x : Bytes) (l : List Bytes) → 0 < length (sort (x ∷ l))
unfolding sort_by insert_sorted
length-sort-cons x l = length-insert x (sort l)

module _ (prefix : Bytes) where
  abbrev pub files_in : List ListEntry → List ListEntry
  files_in files = select (in_range file_key prefix) files

  abbrev pub dirs_in : List Bytes → List Bytes
  dirs_in dirs = select (in_range output prefix) dirs

  -- A turn with so many keys to go takes the first of the keys in the range.
  abbrev Turns : ℕ → Type 0
  Turns left =
      (files : List ListEntry) (dirs : List Bytes) (t : Taken)
      → IsHeaded file_key prefix files
      → IsHeaded output prefix dirs
      → Ascending (map file_key files)
      → Ascending (map output dirs)
      → All IsPlain files
      → slash_turn prefix left files dirs t ≡ page_of left (files_in files) (dirs_in dirs) t

  -- The same behind the inner loops.
  pub turn_rest :
      (left : ℕ)
      → Turns left
      → (files : List ListEntry) (dirs : List Bytes) (t : Taken) → Ascending (map file_key files)
      → Ascending (map output dirs)
      → All IsPlain files
      → slash_turn prefix left (skip_files prefix files) (skip_dirs prefix dirs) t
        ≡ page_of left (files_in files) (dirs_in dirs) t
  turn_rest left turns files dirs t hf hd plain =
      ap₂ (λ fs ds. slash_turn prefix left fs ds t) (skip_files-eq-skip prefix files)
        (skip_dirs-eq-skip prefix dirs)
      ∙ turns (skip file_key prefix files) (skip output prefix dirs) t
          (skip-IsHeaded file_key prefix files) (skip-IsHeaded output prefix dirs)
          (skip-Ascending file_key prefix files hf) (skip-Ascending output prefix dirs hd)
          (All-skip IsPlain file_key prefix files plain)
      ∙ ap₂ (λ fs ds. page_of left fs ds t) (select-skip file_key prefix files hf)
          (select-skip output prefix dirs hd)

  page_from-zero :
      (keys : List Bytes) (files : List ListEntry) (outputs : List Bytes) (t : Taken)
      → 0 < length keys
      → page_from zero keys files outputs t ≡ truncated_page t
  unfolding page_from truncated_page last_or
  page_from-zero keys files outputs t h = ground (
    arith,
    h,
    contains_nothing file_key files,
    contains_nothing (λ k. k) outputs,
    append-nil t.contents,
    append-nil t.common_prefixes,
  )

  page_of-none : (left : ℕ) (t : Taken) → page_of left [] [] t ≡ whole_page t
  unfolding page_from keys_left whole_page
  page_of-none left t = ground (arith, append-nil t.contents, append-nil t.common_prefixes)

  take_file :
      (left : ℕ)
      → Turns left
      → (f : ListEntry) (files : List ListEntry) (dirs : List Bytes) (t : Taken)
      → in_range file_key prefix f ≡ true
      → Ascending (map file_key (f ∷ files))
      → Ascending (map output dirs)
      → All IsPlain files
      → All (λ y. f.key ≺ y) (map output dirs)
      → slash_turn prefix left (skip_files prefix files) (skip_dirs prefix dirs) (push_file t f)
        ≡ page_of (suc left) (files_in (f ∷ files)) (dirs_in dirs) t
  take_file left turns f files dirs t here hf hd plain before =
      let above = All-of_map (λ y. f.key ≺ y) file_key files hf.0 in
      let kept = All-select (λ y. f.key ≺ y.key) (in_range file_key prefix) files above in
      let outs = All-map-select (λ y. f.key ≺ y) output (in_range output prefix) dirs before in
      let keys =
        keys_left-file f (files_in files) (dirs_in dirs)
          (All-map-select (λ y. f.key ≺ y) file_key (in_range file_key prefix) files hf.0) outs in
      let selected : files_in (f ∷ files) ≡ f ∷ files_in files = ground (arith, here) in
      turn_rest left turns files dirs (push_file t f) hf.1 hd plain
      ∙ sym (
          page_from-file left (keys_left (files_in files) (dirs_in dirs)) f (files_in files)
            (map output (dirs_in dirs)) t kept outs)
      ∙ ap (λ ks. page_from (suc left) ks (f ∷ files_in files) (map output (dirs_in dirs)) t)
          (sym keys)
      ∙ ap (λ fs. page_of (suc left) fs (dirs_in dirs) t) (sym selected)

  take_dir :
      (left : ℕ)
      → Turns left
      → (d : Bytes) (files : List ListEntry) (dirs : List Bytes) (t : Taken)
      → in_range output prefix d ≡ true
      → Ascending (map file_key files)
      → Ascending (map output (d ∷ dirs))
      → All IsPlain files
      → All (λ y. output d ≺ y) (map file_key files)
      → slash_turn prefix left (skip_files prefix files) (skip_dirs prefix dirs) (push_dir t d)
        ≡ page_of (suc left) (files_in files) (dirs_in (d ∷ dirs)) t
  take_dir left turns d files dirs t here hf hd plain before =
      let above = All-of_map (λ y. output d ≺ y) file_key files before in
      let kept = All-select (λ y. output d ≺ y.key) (in_range file_key prefix) files above in
      let outs = All-map-select (λ y. output d ≺ y) output (in_range output prefix) dirs hd.0 in
      let keys =
        keys_left-dir (files_in files) d (dirs_in dirs)
          (All-map-select (λ y. output d ≺ y) file_key (in_range file_key prefix) files before)
          outs in
      let selected : dirs_in (d ∷ dirs) ≡ d ∷ dirs_in dirs = ground (arith, here) in
      turn_rest left turns files dirs (push_dir t d) hf hd.1 plain
      ∙ sym (
          page_from-dir left (keys_left (files_in files) (dirs_in dirs)) d (files_in files)
            (map output (dirs_in dirs)) t kept outs)
      ∙ ap (λ ks. page_from (suc left) ks (files_in files) (output d ∷ map output (dirs_in dirs)) t)
          (sym keys)
      ∙ ap (λ ds. page_of (suc left) (files_in files) ds t) (sym selected)

  some_file :
      (f : ListEntry) (files : List ListEntry) (dirs : List Bytes)
      → in_range file_key prefix f ≡ true
      → 0 < length (keys_left (files_in (f ∷ files)) (dirs_in dirs))
  unfolding keys_left
  some_file f files dirs here =
      let selected : f ∷ files_in files ≡ files_in (f ∷ files) = ground (arith, here) in
      subst (λ fs. 0 < length (sort (map file_key fs ++ map output (dirs_in dirs)))) selected
        (length-sort-cons f.key (map file_key (files_in files) ++ map output (dirs_in dirs)))

  some_dir :
      (d : Bytes) (dirs : List Bytes)
      → in_range output prefix d ≡ true
      → 0 < length (keys_left [] (dirs_in (d ∷ dirs)))
  unfolding keys_left
  some_dir d dirs here =
      let selected : d ∷ dirs_in dirs ≡ dirs_in (d ∷ dirs) = ground (arith, here) in
      subst (λ ds. 0 < length (sort (map output ds))) selected
        (length-sort-cons (output d) (map output (dirs_in dirs)))

  not_greater :
      (f : ListEntry) (d : Bytes)
      → IsPlain f
      → is_greater (cmp_dir_output d f.key) ≡ false
      → output d ≺ f.key
  not_greater f d plain e =
      let differ : ¬ (cmp_bytes (output d) f.key ≡ Ordering.eq) =
        λ h. plain d (eq_of_cmp (output d) f.key h) in
      ground (arith, e, cmp_dir_output-eq-cmp_bytes d f.key, differ)

  -- Which of the two heads comes first; they are never equal.
  first_head :
      (f : ListEntry) (d : Bytes)
      → IsPlain f
      → (is_greater (cmp_dir_output d f.key) ≡ true × f.key ≺ output d)
        ⊎ (is_greater (cmp_dir_output d f.key) ≡ false × output d ≺ f.key)
  first_head f d plain = elim (Bool-cases (is_greater (cmp_dir_output d f.key))) [
    | inl e ↦
        inl (e, ground (arith, e, cmp_dir_output-eq-cmp_bytes d f.key, cmp_swap (output d) f.key))
    | inr e ↦ inr (e, not_greater f d plain e)
  ]

  -- A turn on two heads, by their comparison.
  abbrev chosen : ℕ → ListEntry → List ListEntry → Bytes → List Bytes → Taken → Bool → Page
  chosen left f files d dirs t is_file_first = elim is_file_first [
    | true ↦
        slash_turn prefix left (skip_files prefix files) (skip_dirs prefix (d ∷ dirs))
          (push_file t f)
    | false ↦
        slash_turn prefix left (skip_files prefix (f ∷ files)) (skip_dirs prefix dirs)
          (push_dir t d)
  ]

  pub turns : (left : ℕ) → Turns left
  unfolding slash_turn skip_files skip_dirs
  turns zero [] [] t hh dh hf hd plain = sym (page_of-none zero t)
  turns (suc left) [] [] t hh dh hf hd plain = sym (page_of-none (suc left) t)
  turns zero (f ∷ files) dirs t hh dh hf hd plain = sym (
      page_from-zero _ (files_in (f ∷ files)) (map output (dirs_in dirs)) t
        (some_file f files dirs hh))
  turns zero [] (d ∷ dirs) t hh dh hf hd plain =
      sym (page_from-zero _ [] (map output (dirs_in (d ∷ dirs))) t (some_dir d dirs dh))
  turns (suc left) (f ∷ files) [] t hh dh hf hd plain =
      take_file left (turns left) f files [] t hh hf tt plain.1 tt
  turns (suc left) [] (d ∷ dirs) t hh dh hf hd plain =
      take_dir left (turns left) d [] dirs t dh tt hd tt tt
  turns (suc left) (f ∷ files) (d ∷ dirs) t hh dh hf hd plain = elim (first_head f d plain.0) [
    | inl (greater, before) ↦
        let step =
          take_file left (turns left) f files (d ∷ dirs) t hh hf hd plain.1
            (before, All-map_to (λ y. ≺_trans f.key (output d) y before) (map output dirs) hd.0) in
        ap (chosen left f files d dirs t) greater ∙ step
    | inr (smaller, before) ↦
        let step =
          take_dir left (turns left) d (f ∷ files) dirs t dh hf hd plain (
            before,
            All-map_to (λ y. ≺_trans (output d) f.key y before) (map file_key files) hf.0,
          ) in
        ap (chosen left f files d dirs t) smaller ∙ step
  ]
