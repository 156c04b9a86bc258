-- ===== src/SortedListing/Above.antt =====
-- What lies above the least output key of a frontier, and the directories that hold nothing wanted
-- (next_entry of src/s3/sorted_listing.rs).
use hdfs_s3_gateway.Prelude.{
  ◌≡◌, sym, ap, ◌∙◌, inl, inr, Bool, true, false, not, ◌&&◌, Bytes, lit, starts_with,
  starts_with_split, append_assoc, key_le, Bool-cases, Option, none, some, List, [], ◌∷◌, ◌++◌, All,
  All-append, arith,
}
use hdfs_s3_gateway.Listing.{ListEntry}
use hdfs_s3_gateway.Listing.Sorting.{All-map_to, key_le_trans}
use hdfs_s3_gateway.SortedListing.{dir_children_all_before}
use hdfs_s3_gateway.SortedListing.Counting.{count}
use hdfs_s3_gateway.SortedListing.Tree.{
  Tree, Branches, leaf, branch, dir_keys, tree_files, branch_files, IsTree, IsBranches, IsChild,
  HasNoSlash, tree_files_below,
}
use hdfs_s3_gateway.SortedListing.Marker.{key_le_of_prefix, starts_with_dir}
use hdfs_s3_gateway.SortedListing.Frontier.{
  Source, file_source, dir_source, source_files, source_key, frontier_files, IsSource,
}
use hdfs_s3_gateway.SortedListing.Skipping.{count_before}
use hdfs_s3_gateway.SortedListing.Dropping.{count_none}
use hdfs_s3_gateway.SortedListing.Opening.{wanted}

branches_above :
    (base k : Bytes) (bs : Branches)
    → IsBranches base bs
    → All (λ d. key_le k (d ++ lit "/") ≡ true) (dir_keys bs)
    → All (λ e. key_le k e.key ≡ true) (branch_files bs)
unfolding branch_files IsBranches
branches_above base k leaf h e = tt
branches_above base k (branch d t bs) h e =
    All-append (λ e. key_le k e.key ≡ true) (tree_files t) (branch_files bs)
      (All-map_to
        (λ x s. key_le_trans k (d ++ lit "/") x.key e.0 (key_le_of_prefix (d ++ lit "/") x.key s))
        (tree_files t) (tree_files_below (d ++ lit "/") t h.2))
      (branches_above base k bs h.3 e.1)

-- What is in front of a frontier is not above anything in it.
IsSource-above :
    (root : Bytes) (k : Bytes) (s : Source)
    → IsSource root s
    → key_le k (source_key s) ≡ true
    → All (λ e. key_le k e.key ≡ true) (source_files s)
unfolding branch_files IsBranches
IsSource-above root k (file_source []) h e = tt
IsSource-above root k (file_source (x ∷ fs)) h e =
    (e, All-map_to (λ y. key_le_trans k x.key y.key e) fs h.0)
IsSource-above root k (dir_source base leaf) h e = tt
IsSource-above root k (dir_source base (branch d t bs)) h e =
    branches_above base k (branch d t bs) h.1 (
      e,
      All-map_to (λ y l. key_le_trans k (d ++ lit "/") (y ++ lit "/") e (ground (arith, l)))
          (dir_keys bs) h.1.1,
    )

pub frontier_above :
    (root : Bytes) (k : Bytes) (gs : List Source)
    → All (IsSource root) gs
    → All (λ s. key_le k (source_key s) ≡ true) gs
    → All (λ e. key_le k e.key ≡ true) (frontier_files gs)
frontier_above root k [] h e = tt
frontier_above root k (s ∷ gs) h e =
    All-append (λ e. key_le k e.key ≡ true) (source_files s) (frontier_files gs)
      (IsSource-above root k s h.0 e.0) (frontier_above root k gs h.1 e.1)

-- Below a directory that does not match the prefix no file matches it.
unmatched_below :
    (root stem base k : Bytes) (t : Tree)
    → HasNoSlash stem
    → starts_with base root ≡ true
    → IsChild base k
    → IsTree (k ++ lit "/") t
    → starts_with k (root ++ stem) ≡ false
    → All (λ e. starts_with e.key (root ++ stem) ≡ false) (tree_files t)
unmatched_below root stem base k t slashless low (name, e, h) tree closed =
    let (r, b) = starts_with_split base root low in
    let split = e ∙ ap (◌++ name) b ∙ append_assoc root r name in
    All-map_to
      (λ x s. elim (Bool-cases (starts_with x.key (root ++ stem))) [
        | inr f ↦ f
        | inl f ↦
            let dir =
              starts_with_dir root stem (r ++ name) x.key slashless
                (ap (λ d. starts_with x.key (d ++ lit "/")) (sym split) ∙ s) f in
            absurd (ground (arith, ap (λ d. starts_with d (root ++ stem)) split, dir, closed))
      ])
      (tree_files t) (tree_files_below (k ++ lit "/") t tree)

-- The checks on a directory, by the marker.
abbrev pub opens : Bytes → Option Bytes → Bytes → Bool
opens prefix after key =
    starts_with key prefix
    && (elim after [ none ↦ true | some marker ↦ not (dir_children_all_before key marker) ])

-- A directory that is not opened has nothing wanted.
pub unopened_count :
    (root stem base k : Bytes) (t : Tree) (after : Option Bytes) (p : ListEntry → Bool)
    → HasNoSlash stem
    → starts_with base root ≡ true
    → IsChild base k
    → IsTree (k ++ lit "/") t
    → opens (root ++ stem) after k ≡ false
    → count (λ e. wanted (root ++ stem) after e && p e) (tree_files t) ≡ 0
unopened_count root stem base k t none p slashless low child tree closed =
    let missed =
      unmatched_below root stem base k t slashless low child tree (ground (arith, closed)) in
    count_none (λ e. wanted (root ++ stem) none e && p e) (tree_files t)
      (All-map_to (λ x s. ground (arith, s)) (tree_files t) missed)
unopened_count root stem base k t (some m) p slashless low child tree closed =
    elim (Bool-cases (starts_with k (root ++ stem))) [
      | inr f ↦
          let missed = unmatched_below root stem base k t slashless low child tree f in
          count_none (λ e. wanted (root ++ stem) (some m) e && p e) (tree_files t)
            (All-map_to (λ x s. ground (arith, s)) (tree_files t) missed)
      | inl f ↦
          count_before (λ e. wanted (root ++ stem) (some m) e && p e) m (λ e h. ground (arith, h)) k
            t tree (ground (arith, closed, f))
    ]
