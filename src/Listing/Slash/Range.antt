-- ===== src/Listing/Slash/Range.antt =====
-- What paginate_slash (src/core/listing.rs) leaves of a listing: the keys of the prefix range after the marker.
use hdfs_s3_gateway.Prelude.{
  ℕ, ◌≡◌, refl, ap, ap₂, sym, ◌∙◌, Bool, not, ◌||◌, Bytes, cmp_swap, ◌≺◌, key_lt, key_le, max,
  Option, none, some, List, [], ◌∷◌, map, drop, select, All, arith,
}
use hdfs_s3_gateway.Listing.{ListEntry}
use hdfs_s3_gateway.Listing.Compare.{cmp_dir_output-eq-cmp_bytes}
use hdfs_s3_gateway.Listing.Paginate.{retain_after}
use hdfs_s3_gateway.Listing.Sorting.{Ascending, All-select, if-elim}
use hdfs_s3_gateway.Listing.Slash.{file_start, dir_start, slash_loop, Taken}
use hdfs_s3_gateway.Listing.Slash.Seek.{
  in_range, starts_with-not_before, select_ext, select-select, key_lt-IsDownward, key_le-IsDownward,
  IsDownward, drop-partition_point, max-partition_point,
}
use hdfs_s3_gateway.Listing.Slash.Merging.{output, file_key, IsPlain, page_of}
use hdfs_s3_gateway.Listing.Slash.Turns.{All-map-select, files_in, dirs_in, turn_rest, turns}
use hdfs_s3_gateway.SortedListing.{partition_point, is_not_greater}

partition_point-ext :
    {A : Type 0} (p q : A → Bool)
    → ((x : A) → p x ≡ q x)
    → (l : List A) → partition_point p l ≡ partition_point q l
unfolding partition_point
partition_point-ext p q h [] = refl
partition_point-ext p q h (x ∷ l) = ground (arith, h x, partition_point-ext p q h l)

-- Before the range, or not after the marker.
abbrev is_passed : Bytes → Option Bytes → Bytes → Bool
is_passed prefix none k = key_lt k prefix
is_passed prefix (some marker) k = key_lt k prefix || key_le k marker

module _ {A : Type 0} (key : A → Bytes) where
  pub Ascending-map-select :
      (p : A → Bool) (l : List A) → Ascending (map key l) → Ascending (map key (select p l))
  Ascending-map-select p [] h = tt
  Ascending-map-select p (x ∷ l) h =
      let rest = Ascending-map-select p l h.1 in
      if-elim (λ r. Ascending (map key r)) (p x) (x ∷ select p l) (select p l)
        (All-map-select (λ y. key x ≺ y) key p l h.0, rest) rest

  -- Where the loop starts in a list with these keys.
  unfoldable start : Bytes → Option Bytes → List A → ℕ
  start prefix none l = partition_point (λ x. key_lt (key x) prefix) l
  start prefix (some marker) l =
      max (partition_point (λ x. key_lt (key x) prefix) l)
        (partition_point (λ x. key_le (key x) marker) l)

  abbrev left_of : Bytes → Option Bytes → List A → List A
  left_of prefix marker l = select (λ x. not (is_passed prefix marker (key x))) l

  either-IsDownward : (prefix marker : Bytes) → IsDownward (λ k. key_lt k prefix || key_le k marker)
  either-IsDownward prefix marker x y h e =
      ground (arith, e, key_lt-IsDownward prefix x y h, key_le-IsDownward marker x y h)

  drop-start :
      (prefix : Bytes) (marker : Option Bytes) (l : List A)
      → Ascending (map key l)
      → drop (start prefix marker l) l ≡ left_of prefix marker l
  unfolding start
  drop-start prefix none l h =
      drop-partition_point key (λ k. key_lt k prefix) (key_lt-IsDownward prefix) l h
  drop-start prefix (some marker) l h =
      ap (λ n. drop n l)
        (max-partition_point key (λ k. key_lt k prefix) (λ k. key_le k marker)
          (key_lt-IsDownward prefix) (key_le-IsDownward marker) l h)
      ∙ drop-partition_point key (λ k. key_lt k prefix || key_le k marker)
          (either-IsDownward prefix marker) l h

  -- The range of what is left is the range after the marker.
  left_in_range :
      (prefix : Bytes) (marker : Option Bytes) (l : List A)
      → select (in_range key prefix) (left_of prefix marker l)
        ≡ retain_after key marker (select (in_range key prefix) l)
  unfolding retain_after
  left_in_range prefix none l =
      select-select (in_range key prefix) (λ x. not (key_lt (key x) prefix)) l
      ∙ select_ext _ (in_range key prefix)
          (λ x. ground (arith, starts_with-not_before (key x) prefix)) l
  left_in_range prefix (some marker) l =
      select-select (in_range key prefix)
        (λ x. not (key_lt (key x) prefix || key_le (key x) marker)) l
      ∙ select_ext _ _
          (λ x. ground (arith, starts_with-not_before (key x) prefix, cmp_swap (key x) marker)) l
      ∙ sym (select-select (λ x. key_lt marker (key x)) (in_range key prefix) l)

file_start-eq-start :
    (files : List ListEntry) (prefix : Bytes) (marker : Option Bytes)
    → file_start files prefix marker ≡ start file_key prefix marker files
unfolding file_start start
file_start-eq-start files prefix none = refl
file_start-eq-start files prefix (some marker) = refl

dir_start-eq-start :
    (dirs : List Bytes) (prefix : Bytes) (marker : Option Bytes)
    → dir_start dirs prefix marker ≡ start output prefix marker dirs
unfolding dir_start start is_not_greater
dir_start-eq-start dirs prefix none =
    partition_point-ext _ _ (λ d. ground (arith, cmp_dir_output-eq-cmp_bytes d prefix)) dirs
dir_start-eq-start dirs prefix (some marker) =
    ap₂ max
      (partition_point-ext _ _ (λ d. ground (arith, cmp_dir_output-eq-cmp_bytes d prefix)) dirs)
      (partition_point-ext _ _ (λ d. ground (arith, cmp_dir_output-eq-cmp_bytes d marker)) dirs)

-- The loop takes the first keys of the range after the marker.
pub slash_loop-eq-page_of :
    (prefix : Bytes) (marker : Option Bytes) (left : ℕ) (files : List ListEntry) (dirs : List Bytes)
    (t : Taken)
    → Ascending (map file_key files)
    → Ascending (map output dirs)
    → All IsPlain files
    → slash_loop prefix left
        (drop (file_start files prefix marker) files)
        (drop (dir_start dirs prefix marker) dirs)
        t
      ≡ page_of left
          (retain_after file_key marker (files_in prefix files))
          (retain_after output marker (dirs_in prefix dirs))
          t
unfolding slash_loop
slash_loop-eq-page_of prefix marker left files dirs t hf hd plain =
    let fs =
      ap (λ n. drop n files) (file_start-eq-start files prefix marker)
      ∙ drop-start file_key prefix marker files hf in
    let ds =
      ap (λ n. drop n dirs) (dir_start-eq-start dirs prefix marker)
      ∙ drop-start output prefix marker dirs hd in
    ap₂ (λ a b. slash_loop prefix left a b t) fs ds
    ∙ turn_rest prefix left (turns prefix left) (left_of file_key prefix marker files)
        (left_of output prefix marker dirs) t (Ascending-map-select file_key _ files hf)
        (Ascending-map-select output _ dirs hd) (All-select IsPlain _ files plain)
    ∙ ap₂ (λ a b. page_of left a b t) (left_in_range file_key prefix marker files)
        (left_in_range output prefix marker dirs)
