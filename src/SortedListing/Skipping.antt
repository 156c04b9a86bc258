-- ===== src/SortedListing/Skipping.antt =====
-- What the marker's binary searches leave out cannot be listed (push_listing and dirs_start_after of
-- src/s3/sorted_listing.rs).
use hdfs_s3_gateway.Prelude.{
  ℕ, zero, suc, ◌≡◌, refl, sym, ap, subst, ◌∙◌, inl, inr, Bool, true, false, Bytes, lit, cmp_bytes,
  cmp_refl, key_le, Bool-cases, List, [], ◌∷◌, ◌++◌, take, All, arith,
}
use hdfs_s3_gateway.Listing.{ListEntry, cmp_dir_output}
use hdfs_s3_gateway.Listing.Compare.{cmp_dir_output-eq-cmp_bytes}
use hdfs_s3_gateway.Listing.Sorting.{All-map_to}
use hdfs_s3_gateway.SortedListing.{
  partition_point, is_not_greater, straddles, dirs_start_after, dir_children_all_before,
}
use hdfs_s3_gateway.SortedListing.Counting.{count, count-append}
use hdfs_s3_gateway.SortedListing.Tree.{
  Tree, Branches, leaf, branch, dir_keys, branch_files, tree_files, IsTree, IsBranches,
  tree_files_below,
}
use hdfs_s3_gateway.SortedListing.Marker.{
  before_lem, straddles_lem, key_le_of_before, starts_with_between,
}
use hdfs_s3_gateway.SortedListing.Dropping.{
  count_none, drop_branches, siblings_apart, adjusted, searched, adjusted-suc, is_before,
}

-- Only the last directory at or before the marker can have the marker below it.
next_after_straddler :
    (base k : Bytes) (t : Tree) (bs : Branches) (m : Bytes)
    → IsBranches base (branch k t bs)
    → straddles k m ≡ true
    → searched (dir_keys bs) m ≡ 0
unfolding IsBranches partition_point
next_after_straddler base k t leaf m h s = refl
next_after_straddler base k t (branch d u bs) m h s =
    elim (Bool-cases (is_not_greater (cmp_dir_output d m))) [
      | inr e ↦ ground (arith, e)
      | inl e ↦
          let order = h.1.0 in
          let under = sym (straddles_lem k m) ∙ s in
          let at_most : key_le (d ++ lit "/") m ≡ true =
            ground (arith, e, cmp_dir_output-eq-cmp_bytes d m) in
          let inside =
            starts_with_between (k ++ lit "/") (d ++ lit "/") m (ground (arith, order)) at_most
              under in
          let same = siblings_apart base d k h.3.0 h.0 inside in
          absurd (
            ground (
              arith,
              order,
              ap (λ x. cmp_bytes (k ++ lit "/") (x ++ lit "/")) same,
              cmp_refl (k ++ lit "/"),
            ))
    ]

adjusted_nil : (m : Bytes) → adjusted [] (searched [] m) m ≡ 0
unfolding partition_point
adjusted_nil m = refl

AllBefore : List Bytes → Bytes → ℕ → Type 0
AllBefore ds m n = All (λ d. dir_children_all_before d m ≡ true) (take (adjusted ds n m) ds)

-- The first directory, by how many are at or before the marker.
straddler_first :
    (d : Bytes) (ds : List Bytes) (m : Bytes) → straddles d m ≡ true → adjusted (d ∷ ds) 1 m ≡ 0
straddler_first d ds m s = ground (arith, s)

straddler_not_first :
    (d : Bytes) (ds : List Bytes) (m : Bytes) → straddles d m ≡ false → adjusted (d ∷ ds) 1 m ≡ 1
straddler_not_first d ds m s = ground (arith, s)

before_cons :
    (d : Bytes) (ds : List Bytes) (m : Bytes) (n : ℕ)
    → dir_children_all_before d m ≡ true
    → straddles d m ≡ false
    → AllBefore ds m n
    → AllBefore (d ∷ ds) m (suc n)
unfolding AllBefore
before_cons d ds m zero h s r =
    subst (λ n. All (λ d. dir_children_all_before d m ≡ true) (take n (d ∷ ds)))
      (sym (straddler_not_first d ds m s)) (h, tt)
before_cons d ds m (suc n) h s r =
    subst (λ n. All (λ d. dir_children_all_before d m ≡ true) (take n (d ∷ ds)))
      (sym (adjusted-suc d ds n m)) (h, r)

before_straddler :
    (d : Bytes) (ds : List Bytes) (m : Bytes) → straddles d m ≡ true → AllBefore (d ∷ ds) m 1
unfolding AllBefore
before_straddler d ds m s =
    subst (λ n. All (λ d. dir_children_all_before d m ≡ true) (take n (d ∷ ds)))
      (sym (straddler_first d ds m s)) tt

-- Every directory in front of the start is before the marker with all its children.
take_before :
    (base : Bytes) (bs : Branches) (m : Bytes)
    → IsBranches base bs
    → AllBefore (dir_keys bs) m (searched (dir_keys bs) m)
unfolding IsBranches partition_point
take_before base leaf m h = unfold AllBefore in tt
take_before base (branch k t bs) m h = elim (Bool-cases (is_not_greater (cmp_dir_output k m))) [
  | inr e ↦
      let stop : searched (k ∷ dir_keys bs) m ≡ 0 = ground (arith, e) in
      subst (AllBefore (k ∷ dir_keys bs) m) (sym stop) (unfold AllBefore in tt)
  | inl e ↦
      let more : searched (k ∷ dir_keys bs) m ≡ suc (searched (dir_keys bs) m) =
        ground (arith, e) in
      elim (Bool-cases (straddles k m)) [
        | inl s ↦
            let one = more ∙ ap (λ n. suc n) (next_after_straddler base k t bs m h s) in
            subst (AllBefore (k ∷ dir_keys bs) m) (sym one) (before_straddler k (dir_keys bs) m s)
        | inr s ↦ subst (AllBefore (k ∷ dir_keys bs) m) (sym more) (
            before_cons k (dir_keys bs) m (searched (dir_keys bs) m) (is_before k m e s) s
              (take_before base bs m h.3))
      ]
]

-- What the marker's search over the directories leaves out has nothing that is wanted.
module _ (w : ListEntry → Bool) (m : Bytes)
    (passed : (e : ListEntry) → key_le e.key m ≡ true → w e ≡ false) where
  pub count_before :
      (k : Bytes) (t : Tree)
      → IsTree (k ++ lit "/") t
      → dir_children_all_before k m ≡ true
      → count w (tree_files t) ≡ 0
  count_before k t h b =
      let below = tree_files_below (k ++ lit "/") t h in
      let test = sym (before_lem k m) ∙ b in
      count_none w (tree_files t) (
        All-map_to
          (λ e s. passed e (
            key_le_of_before (k ++ lit "/") m e.key (ground (arith, test)) (ground (arith, test))
              s))
          (tree_files t) below)

  count-drop_branches :
      (base : Bytes) (n : ℕ) (bs : Branches)
      → IsBranches base bs
      → All (λ d. dir_children_all_before d m ≡ true) (take n (dir_keys bs))
      → count w (branch_files (drop_branches n bs)) ≡ count w (branch_files bs)
  unfolding branch_files IsBranches
  count-drop_branches base zero bs h b = refl
  count-drop_branches base (suc n) leaf h b = refl
  count-drop_branches base (suc n) (branch k t bs) h b = omega (
    arith,
    count-append w (tree_files t) (branch_files bs),
    count_before k t h.2 b.0,
    count-drop_branches base n bs h.3 b.1,
  )

  pub count-dirs_start_after :
      (base : Bytes) (bs : Branches)
      → IsBranches base bs
      → count w (branch_files (drop_branches (dirs_start_after (dir_keys bs) m) bs))
        ≡ count w (branch_files bs)
  unfolding dirs_start_after AllBefore
  count-dirs_start_after base bs h =
      count-drop_branches base (dirs_start_after (dir_keys bs) m) bs h (take_before base bs m h)
