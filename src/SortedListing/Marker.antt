-- ===== src/SortedListing/Marker.antt =====
-- Which directories a marker or a prefix rules out (dir_children_all_before, dirs_start_after and
-- the prefix test of src/s3/sorted_listing.rs).
use hdfs_s3_gateway.Prelude.{
  ℕ, suc, ◌≡◌, refl, sym, ap, ◌∙◌, Bool, true, false, not, ◌&&◌, Bytes, lit, slash, starts_with,
  starts_with_split, cmp_bytes, ◌≺◌, key_lt, key_le, compare, Ordering, ltb, ◌==◌, if◌then◌else◌,
  [], ◌∷◌, ◌++◌, append_assoc, length, take, arith,
}
use hdfs_s3_gateway.Listing.{byte_at}
use hdfs_s3_gateway.Listing.Compare.{min-suc, min-zero_left, min-zero_right}
use hdfs_s3_gateway.SortedListing.{dir_children_all_before, straddles}
use hdfs_s3_gateway.SortedListing.Tree.{HasNoSlash}

-- `dir_children_all_before`, cutting at a given length.
abbrev before_to : ℕ → Bytes → Bytes → Bool
before_to n key marker = elim (cmp_bytes (take n key) (take n marker)) [
  | Ordering.lt ↦ true
  | Ordering.gt ↦ false
  | Ordering.eq ↦
      if length key == length marker
      then false
      else if ltb (length key) (length marker)
      then ltb slash (byte_at marker (length key))
      else false
]

before-cons :
    (x y : ℕ) (d m : Bytes)
    → dir_children_all_before (x ∷ d) (y ∷ m) ≡ (elim (compare x y) [
      | Ordering.lt ↦ true
      | Ordering.eq ↦ dir_children_all_before d m
      | Ordering.gt ↦ false
    ])
unfolding dir_children_all_before cmp_bytes byte_at
before-cons x y d m =
    ap (λ n. before_to n (x ∷ d) (y ∷ m)) (min-suc (length d) (length m)) ∙ ground arith

-- The test is that the directory's output key is before the marker and the marker not below it.
pub before_lem :
    (d m : Bytes)
    → dir_children_all_before d m ≡ (key_lt (d ++ lit "/") m && not (starts_with m (d ++ lit "/")))
unfolding cmp_bytes starts_with
before_lem [] [] = unfold dir_children_all_before in refl
before_lem [] (y ∷ m) =
    unfold dir_children_all_before byte_at in
    ap (λ n. before_to n [] (y ∷ m)) (min-zero_left (suc (length m))) ∙ ground arith
before_lem (x ∷ d) [] =
    unfold dir_children_all_before byte_at in
    ap (λ n. before_to n (x ∷ d) []) (min-zero_right (suc (length d))) ∙ ground arith
before_lem (x ∷ d) (y ∷ m) = before-cons x y d m ∙ ground (arith, before_lem d m)

pub straddles_lem : (d m : Bytes) → straddles d m ≡ starts_with m (d ++ lit "/")
unfolding straddles starts_with byte_at
straddles_lem [] [] = refl
straddles_lem [] (y ∷ m) = ground arith
straddles_lem (x ∷ d) [] = ground arith
straddles_lem (x ∷ d) (y ∷ m) = ground (arith, straddles_lem d m)

-- What starts with a key is not before it.
pub key_le_of_prefix : (p k : Bytes) → starts_with k p ≡ true → key_le p k ≡ true
unfolding starts_with cmp_bytes
key_le_of_prefix [] [] h = refl
key_le_of_prefix [] (x ∷ k) h = refl
key_le_of_prefix (y ∷ p) [] h = ground (arith, h)
key_le_of_prefix (y ∷ p) (x ∷ k) h = ground (arith, key_le_of_prefix p k)

-- What starts with a key that is before the marker, while the marker does not, is before it too.
pub key_le_of_before :
    (p m k : Bytes) → p ≺ m → starts_with m p ≡ false → starts_with k p ≡ true → key_le k m ≡ true
unfolding starts_with cmp_bytes
key_le_of_before [] m k h n s = ground (arith, n)
key_le_of_before (x ∷ p) [] k h n s = ground (arith, h)
key_le_of_before (x ∷ p) (y ∷ m) [] h n s = ground (arith, s)
key_le_of_before (x ∷ p) (y ∷ m) (z ∷ k) h n s = ground (arith, key_le_of_before p m k)

-- Between a key and what starts with it everything starts with it.
pub starts_with_between :
    (p q m : Bytes)
    → key_le p q ≡ true
    → key_le q m ≡ true
    → starts_with m p ≡ true
    → starts_with q p ≡ true
unfolding starts_with cmp_bytes
starts_with_between [] q m h k s = refl
starts_with_between (x ∷ p) [] m h k s = ground (arith, h)
starts_with_between (x ∷ p) (y ∷ q) [] h k s = ground (arith, s)
starts_with_between (x ∷ p) (y ∷ q) (z ∷ m) h k s = ground (arith, starts_with_between p q m)

pub starts_with-cancel : (a x y : Bytes) → starts_with (a ++ x) (a ++ y) ≡ starts_with x y
unfolding starts_with
starts_with-cancel [] x y = refl
starts_with-cancel (c ∷ a) x y = ground (arith, starts_with-cancel a x y)

-- A part without a slash that starts before a slash also ends before it.
starts_with_name :
    (n r stem : Bytes)
    → HasNoSlash stem
    → starts_with (n ++ (slash ∷ r)) stem ≡ true
    → starts_with n stem ≡ true
unfolding starts_with
starts_with_name n r [] h s = refl
starts_with_name [] r (y ∷ stem) h s = absurd (ground (arith, s, h.0))
starts_with_name (x ∷ n) r (y ∷ stem) h s = ground (arith, s, starts_with_name n r stem h.1)

-- A key below a directory matches a prefix of the listing's base only if the directory does.
pub starts_with_dir :
    (base stem name k : Bytes)
    → HasNoSlash stem
    → starts_with k ((base ++ name) ++ lit "/") ≡ true
    → starts_with k (base ++ stem) ≡ true
    → starts_with (base ++ name) (base ++ stem) ≡ true
starts_with_dir base stem name k h below match =
    let (r, e) = starts_with_split k ((base ++ name) ++ lit "/") below in
    let split : k ≡ base ++ (name ++ (slash ∷ r)) =
      e ∙ append_assoc (base ++ name) (lit "/") r ∙ append_assoc base name (slash ∷ r) in
    let inner =
      sym (starts_with-cancel base (name ++ (slash ∷ r)) stem)
      ∙ ap (λ s. starts_with s (base ++ stem)) (sym split)
      ∙ match in
    starts_with-cancel base name stem ∙ starts_with_name name r stem h inner
