-- ===== src/Listing/Slash/Children.antt =====
-- A page of a directory's direct children by paginate_slash and by paginate (src/core/listing.rs).
use hdfs_s3_gateway.Prelude.{
  ℕ, zero, suc, ◌≡◌, ◌≢◌, refl, ap, sym, ◌∙◌, subst, true, Bool-cases, inl, inr, Bytes, lit, slash,
  starts_with, ◌=?◌, =?_false, ◌≺◌, none, some, List, [], ◌∷◌, ◌++◌, append_assoc, append-nil, map,
  drop, length, All, arith,
}
use hdfs_s3_gateway.Listing.{ListEntry}
use hdfs_s3_gateway.Listing.Contents.{find, CommonPrefixSet, collapsed, list_entries}
use hdfs_s3_gateway.Listing.Paginate.{
  insert_sorted, sort_by, dedup_after, dedup, dir_prefix, dir_prefixes,
}
use hdfs_s3_gateway.Listing.Sorting.{Ascending, ne_of_lt}
use hdfs_s3_gateway.Listing.Slash.Merging.{output, file_key}
use hdfs_s3_gateway.Listing.Slash.Turns.{files_in, dirs_in}
use hdfs_s3_gateway.Path.Segments.{has, is_name, IsName, NoSlash, IsName-NoSlash}

-- The path of a name in a directory whose children's keys start with `base`.
abbrev pub IsChild : Bytes → Bytes → Type 0
IsChild base k = (name : Bytes) × (k ≡ base ++ name) × IsName name

-- The files and directories of one directory, each in the order of its output keys, and a prefix that
-- ends in a part of a name.
pub record IsListing (base part : Bytes) (files : List ListEntry) (dirs : List Bytes) : Type 0 where
  pub file_children : All (λ f. IsChild base f.key) files
  pub dir_children : All (λ d. IsChild base d) dirs
  pub part_of_name : NoSlash part
  pub files_ascending : Ascending (map file_key files)
  pub dirs_ascending : Ascending (map output dirs)

has-output : (d : Bytes) → has slash (output d) ≡ true
unfolding has
has-output [] = refl
has-output (c ∷ d) = ground (arith, has-output d)

pub child_nonempty : (base name : Bytes) → IsName name → [] ≢ base ++ name
unfolding is_name ◌=?◌
child_nonempty [] [] h e = absurd (ground (arith, h))
child_nonempty [] (c ∷ name) h e = absurd (ground (arith, e))
child_nonempty (b ∷ base) name h e = absurd (ground (arith, e))

-- No output key of a directory is the path of a name.
pub output-ne-child : (base name d : Bytes) → IsName name → output d ≢ base ++ name
output-ne-child [] name d h e =
    ground (arith, has-output d, ap (has slash) e, IsName-NoSlash name h)
output-ne-child (b ∷ base) name [] h e = child_nonempty base name h (ground (arith, e))
output-ne-child (b ∷ base) name (c ∷ d) h e = output-ne-child base name d h (ground (arith, e))

find-NoSlash : (s : Bytes) → NoSlash s → find s (lit "/") ≡ none
unfolding find starts_with has
find-NoSlash [] h = refl
find-NoSlash (c ∷ s) h = ground (arith, find-NoSlash s, h)

NoSlash-drop : (n : ℕ) (s : Bytes) → NoSlash s → NoSlash (drop n s)
unfolding has
NoSlash-drop zero s h = h
NoSlash-drop (suc n) [] h = refl
NoSlash-drop (suc n) (c ∷ s) h = NoSlash-drop n s (ground (arith, h))

drop-base :
    (base part name : Bytes) → drop (length (base ++ part)) (base ++ name) ≡ drop (length part) name
drop-base [] part name = refl
drop-base (b ∷ base) part name = drop-base base part name

-- The rest of a child's path behind the prefix has no slash.
child_rest :
    (base part k : Bytes) → IsChild base k → find (drop (length (base ++ part)) k) (lit "/") ≡ none
child_rest base part k (name, e, is_name_of) =
    ap (λ p. find (drop (length (base ++ part)) p) (lit "/")) e
    ∙ ap (λ r. find r (lit "/")) (drop-base base part name)
    ∙ find-NoSlash _ (NoSlash-drop (length part) name (IsName-NoSlash name is_name_of))

starts_with-output_name :
    (name part : Bytes) → NoSlash part → starts_with (output name) part ≡ starts_with name part
unfolding starts_with has
starts_with-output_name [] [] h = refl
starts_with-output_name (c ∷ name) [] h = refl
starts_with-output_name [] (a ∷ part) h = ground (arith, h)
starts_with-output_name (c ∷ name) (a ∷ part) h =
    ground (arith, starts_with-output_name name part, h)

starts_with-base :
    (base s part : Bytes) → starts_with (base ++ s) (base ++ part) ≡ starts_with s part
unfolding starts_with
starts_with-base [] s part = refl
starts_with-base (b ∷ base) s part = ground (arith, starts_with-base base s part)

-- A directory is in the prefix range exactly when its key starts with the prefix.
child_in_range :
    (base part d : Bytes)
    → IsChild base d
    → NoSlash part
    → starts_with (output d) (base ++ part) ≡ starts_with d (base ++ part)
child_in_range base part d (name, e, is_name_of) h =
    subst (λ k. starts_with (output k) (base ++ part) ≡ starts_with k (base ++ part)) (sym e)
      (ap (λ k. starts_with k (base ++ part)) (append_assoc base name (lit "/"))
        ∙ starts_with-base base (output name) part
        ∙ starts_with-output_name name part h
        ∙ sym (starts_with-base base name part))

module _ (base part : Bytes) where
  abbrev pub prefix : Bytes
  prefix = base ++ part

  -- `list_to_contents` lists every file in the prefix range, and none collapses.
  pub list_entries-children :
      (files contents : List ListEntry) (common : CommonPrefixSet)
      → All (λ f. IsChild base f.key) files
      → list_entries prefix (some (lit "/")) files (contents, common)
        ≡ (contents ++ files_in prefix files, common)
  unfolding list_entries collapsed
  list_entries-children [] contents common h = ap (λ l. (l, common)) (sym (append-nil contents))
  list_entries-children (f ∷ files) contents common h =
      let none_left = child_rest base part f.key h.0 in
      elim (Bool-cases (starts_with f.key prefix)) [
        | inl e ↦
            let rest = list_entries-children files (contents ++ (f ∷ [])) common h.1 in
            ground
              (arith, e, none_left, rest, append_assoc contents (f ∷ []) (files_in prefix files))
        | inr e ↦ ground (arith, e, list_entries-children files contents common h.1)
      ]

  pub dir_prefixes-children :
      (dirs : List Bytes)
      → NoSlash part
      → All (λ d. IsChild base d) dirs
      → dir_prefixes prefix dirs ≡ map output (dirs_in prefix dirs)
  unfolding dir_prefixes dir_prefix
  dir_prefixes-children [] clean h = refl
  dir_prefixes-children (d ∷ dirs) clean h = ground (
    arith,
    child_rest base part d h.0,
    child_in_range base part d h.0 clean,
    dir_prefixes-children dirs clean h.1,
  )

module _ {A : Type 0} (key : A → Bytes) where
  insert_sorted_before :
      (x : A) (l : List A) → All (λ y. key x ≺ y) (map key l) → insert_sorted key x l ≡ x ∷ l
  unfolding insert_sorted
  insert_sorted_before x [] h = refl
  insert_sorted_before x (y ∷ l) h = ground (arith, h.0)

  -- What ascends is sorted as it is.
  pub sort_by-Ascending : (l : List A) → Ascending (map key l) → sort_by key l ≡ l
  unfolding sort_by
  sort_by-Ascending [] h = refl
  sort_by-Ascending (x ∷ l) h =
      ap (insert_sorted key x) (sort_by-Ascending l h.1) ∙ insert_sorted_before x l h.0

dedup_after-Ascending : (x : Bytes) (l : List Bytes) → Ascending (x ∷ l) → dedup_after x l ≡ l
unfolding dedup_after
dedup_after-Ascending x [] h = refl
dedup_after-Ascending x (y ∷ l) h =
    ground (arith, =?_false x y (ne_of_lt x y h.0.0), dedup_after-Ascending y l h.1)

pub dedup_sorted : (l : List Bytes) → Ascending l → dedup l ≡ l
unfolding dedup
dedup_sorted [] h = refl
dedup_sorted (x ∷ l) h = ap (◌∷◌ x) (dedup_after-Ascending x l h)
