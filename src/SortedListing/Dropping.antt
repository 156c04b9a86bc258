-- ===== src/SortedListing/Dropping.antt =====
-- What is left of a directory behind a marker (partition_point and dirs_start_after of
-- src/s3/sorted_listing.rs).
use hdfs_s3_gateway.Prelude.{
  ℕ, zero, suc, ◌-◌, ◌≡◌, refl, sym, ap, ap₂, subst, ◌∙◌, inl, inr, ◌⊎◌, Bool, true, false, ◌&&◌,
  Bytes, lit, starts_with, cmp_bytes, eq_of_cmp, Ordering, ltb, if◌then◌else◌, List, [], ◌∷◌, ◌++◌,
  append_assoc, drop, All, arith,
}
use hdfs_s3_gateway.Path.{PathMapper}
use hdfs_s3_gateway.Listing.{cmp_dir_output}
use hdfs_s3_gateway.Listing.Compare.{cmp_dir_output-eq-cmp_bytes}
use hdfs_s3_gateway.SortedListing.{
  Listed, get_or, partition_point, is_not_greater, straddles, dir_children_all_before,
}
use hdfs_s3_gateway.SortedListing.Counting.{count, Ordered}
use hdfs_s3_gateway.SortedListing.Tree.{
  Branches, leaf, branch, dir_keys, IsBranches, IsChild, HasNoSlash, ShowsAll,
}
use hdfs_s3_gateway.SortedListing.Marker.{before_lem, straddles_lem, starts_with-cancel}

-- A count over entries of which none passes.
pub count_none {ℓ} :
    {A : Type ℓ} (p : A → Bool) (l : List A) → All (λ x. p x ≡ false) l → count p l ≡ 0
count_none p [] h = refl
count_none p (x ∷ l) h = ground (arith, count_none p l h.1, h.0)

-- Dropping what the search passes over loses nothing that is wanted.
pub count-drop-partition_point {ℓ} :
    {A : Type ℓ} (p q : A → Bool)
    → ((x : A) → q x ≡ true → p x ≡ false)
    → (l : List A) → count p (drop (partition_point q l) l) ≡ count p l
unfolding partition_point
count-drop-partition_point p q h [] = refl
count-drop-partition_point p q h (x ∷ l) = ground (arith, h x, count-drop-partition_point p q h l)

pub drop-Ordered {ℓ} :
    {A : Type ℓ} (key_of : A → Bytes) (n : ℕ) (l : List A)
    → Ordered key_of l
    → Ordered key_of (drop n l)
drop-Ordered key_of zero l h = h
drop-Ordered key_of (suc n) [] h = h
drop-Ordered key_of (suc n) (x ∷ l) h = drop-Ordered key_of n l h.1

abbrev pub drop_branches : ℕ → Branches → Branches
drop_branches zero bs = bs
drop_branches (suc n) leaf = leaf
drop_branches (suc n) (branch k t bs) = drop_branches n bs

pub dir_keys-drop_branches :
    (n : ℕ) (bs : Branches) → drop n (dir_keys bs) ≡ dir_keys (drop_branches n bs)
dir_keys-drop_branches zero bs = refl
dir_keys-drop_branches (suc n) leaf = refl
dir_keys-drop_branches (suc n) (branch k t bs) = dir_keys-drop_branches n bs

pub IsBranches-drop_branches :
    (base : Bytes) (n : ℕ) (bs : Branches)
    → IsBranches base bs
    → IsBranches base (drop_branches n bs)
unfolding IsBranches
IsBranches-drop_branches base zero bs h = h
IsBranches-drop_branches base (suc n) leaf h = h
IsBranches-drop_branches base (suc n) (branch k t bs) h = IsBranches-drop_branches base n bs h.3

pub ShowsAll-drop_branches :
    (mapper : PathMapper) (list_dir : Bytes → Listed) (n : ℕ) (bs : Branches)
    → ShowsAll mapper list_dir bs
    → ShowsAll mapper list_dir (drop_branches n bs)
unfolding ShowsAll
ShowsAll-drop_branches mapper list_dir zero bs h = h
ShowsAll-drop_branches mapper list_dir (suc n) leaf h = h
ShowsAll-drop_branches mapper list_dir (suc n) (branch k t bs) h =
    ShowsAll-drop_branches mapper list_dir n bs h.1

-- Names do not extend one another across a slash.
same_name :
    (n k : Bytes)
    → HasNoSlash n
    → HasNoSlash k
    → starts_with (n ++ lit "/") (k ++ lit "/") ≡ true
    → n ≡ k
unfolding starts_with
same_name [] [] h g s = refl
same_name [] (y ∷ k) h g s = absurd (ground (arith, s, g.0))
same_name (x ∷ n) [] h g s = absurd (ground (arith, s, h.0))
same_name (x ∷ n) (y ∷ k) h g s = ground (arith, s, same_name n k h.1 g.1)

pub siblings_apart :
    (base d k : Bytes)
    → IsChild base d
    → IsChild base k
    → starts_with (d ++ lit "/") (k ++ lit "/") ≡ true
    → d ≡ k
siblings_apart base d k (n, dn, hn) (j, kj, hj) s =
    let inner =
      sym (starts_with-cancel base (n ++ lit "/") (j ++ lit "/"))
      ∙ ap₂ starts_with (sym (ap (◌++ lit "/") dn ∙ append_assoc base n (lit "/")))
          (sym (ap (◌++ lit "/") kj ∙ append_assoc base j (lit "/")))
      ∙ s in
    dn ∙ ap (base ++◌) (same_name n j hn hj inner) ∙ sym kj

-- The adjustment of `dirs_start_after`.
abbrev pub adjusted : List Bytes → ℕ → Bytes → ℕ
adjusted dirs start marker =
    if ltb 0 start && straddles (get_or dirs (start - 1) []) marker then start - 1 else start

abbrev pub searched : List Bytes → Bytes → ℕ
searched dirs marker = partition_point (λ d. is_not_greater (cmp_dir_output d marker)) dirs

pred_suc : (n : ℕ) → suc n - 1 ≡ n
pred_suc n = omega arith

adjusted-one :
    (d : Bytes) (ds : List Bytes) (m : Bytes)
    → adjusted (d ∷ ds) 1 m ≡ (if straddles d m then 0 else 1)
adjusted-one d ds m = refl

pub adjusted-suc :
    (d : Bytes) (ds : List Bytes) (n : ℕ) (m : Bytes)
    → adjusted (d ∷ ds) (suc (suc n)) m ≡ suc (adjusted ds (suc n) m)
adjusted-suc d ds n m = ground (arith, pred_suc n, pred_suc (suc n))

Ordering-cases : (o : Ordering) → (o ≡ Ordering.lt) ⊎ (o ≡ Ordering.eq) ⊎ (o ≡ Ordering.gt)
Ordering-cases Ordering.lt = inl refl
Ordering-cases Ordering.eq = inr (inl refl)
Ordering-cases Ordering.gt = inr (inr refl)

starts_with_self : (p : Bytes) → starts_with p p ≡ true
unfolding starts_with
starts_with_self [] = refl
starts_with_self (x ∷ p) = ground (arith, starts_with_self p)

-- A directory at or before the marker, with the marker not below it, is before the marker with all
-- its children.
pub is_before :
    (d m : Bytes)
    → is_not_greater (cmp_dir_output d m) ≡ true
    → straddles d m ≡ false
    → dir_children_all_before d m ≡ true
is_before d m h s =
    let compared = cmp_dir_output-eq-cmp_bytes d m in
    let apart = sym (straddles_lem d m) ∙ s in
    let self = λ (e : cmp_bytes (d ++ lit "/") m ≡ Ordering.eq).
      subst (λ k. starts_with k (d ++ lit "/") ≡ true) (eq_of_cmp (d ++ lit "/") m e)
        (starts_with_self (d ++ lit "/")) in
    before_lem d m ∙ elim (Ordering-cases (cmp_bytes (d ++ lit "/") m)) [
      | inl e ↦ ground (arith, e, apart)
      | inr (inl e) ↦ absurd (ground (arith, self e, apart))
      | inr (inr e) ↦ absurd (ground (arith, compared, e, h))
    ]
