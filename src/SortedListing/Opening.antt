-- ===== src/SortedListing/Opening.antt =====
-- A directory's listing goes to the frontier (push_listing of src/s3/sorted_listing.rs).
use hdfs_s3_gateway.Prelude.{
  ℕ, zero, suc, ◌+◌, ◌≤◌, ◌≡◌, refl, sym, ap, ◌∙◌, Bool, true, false, not, ◌&&◌, Bytes, starts_with,
  key_le, Option, none, some, List, [], ◌∷◌, ◌++◌, length, drop, arith,
}
use hdfs_s3_gateway.Path.{PathMapper}
use hdfs_s3_gateway.Listing.{ListEntry, DirListing}
use hdfs_s3_gateway.SortedListing.{
  Listed, Cursor, starts_after, push_from, push_listing, dirs_start_after,
}
use hdfs_s3_gateway.SortedListing.Counting.{count, count-append}
use hdfs_s3_gateway.SortedListing.Tree.{
  Tree, node, Branches, leaf, branch, dir_keys, tree_files, branch_files, tree_size, branch_size,
  IsTree, IsBranches, Shows,
}
use hdfs_s3_gateway.SortedListing.Frontier.{
  Source, file_source, dir_source, frontier_files, frontier_size, push_source, push_source-count,
  push_source-size, push_source-IsFrontier, IsFrontier,
}
use hdfs_s3_gateway.SortedListing.Tracking.{TracksAll, push_from-TracksAll}
use hdfs_s3_gateway.SortedListing.Skipping.{count-dirs_start_after}
use hdfs_s3_gateway.SortedListing.Dropping.{
  count-drop-partition_point, drop-Ordered, drop_branches, dir_keys-drop_branches,
  IsBranches-drop_branches, ShowsAll-drop_branches,
}

-- The files that a listing is to give: under the prefix and after the marker.
abbrev pub wanted : Bytes → Option Bytes → ListEntry → Bool
wanted prefix after e =
    starts_with e.key prefix
    && (elim after [ none ↦ true | some marker ↦ not (key_le e.key marker) ])

wanted_after :
    (prefix : Bytes) (m : Bytes) (p : ListEntry → Bool) (e : ListEntry)
    → key_le e.key m ≡ true
    → (wanted prefix (some m) e && p e) ≡ false
wanted_after prefix m p e h = ground (arith, h)

length-drop : {A : Type 0} (n : ℕ) (l : List A) → length (drop n l) ≤ length l
length-drop zero l = omega arith
length-drop (suc n) [] = omega arith
length-drop (suc n) (x ∷ l) = omega (arith, length-drop n l)

branch_size-drop : (n : ℕ) (bs : Branches) → branch_size (drop_branches n bs) ≤ branch_size bs
unfolding branch_size
branch_size-drop zero bs = omega arith
branch_size-drop (suc n) leaf = omega arith
branch_size-drop (suc n) (branch k t bs) = omega (arith, branch_size-drop n bs)

module _ (prefix : Bytes) (p : ListEntry → Bool) where
  files_kept :
      (after : Option Bytes) (l : DirListing)
      → count (λ e. wanted prefix after e && p e) (drop (starts_after after l).0 l.files)
        ≡ count (λ e. wanted prefix after e && p e) l.files
  unfolding starts_after
  files_kept none l = refl
  files_kept (some m) l =
      count-drop-partition_point (λ e. wanted prefix (some m) e && p e) (λ f. key_le f.key m)
        (wanted_after prefix m p) l.files

  dirs_kept :
      (after : Option Bytes) (l : DirListing) (base : Bytes) (bs : Branches)
      → l.dirs ≡ dir_keys bs
      → IsBranches base bs
      → count
          (λ e. wanted prefix after e && p e)
          (branch_files (drop_branches (starts_after after l).1 bs))
        ≡ count (λ e. wanted prefix after e && p e) (branch_files bs)
  unfolding starts_after
  dirs_kept none l base bs e h = refl
  dirs_kept (some m) l base bs e h =
      ap
        (λ ds.
          count (λ e. wanted prefix (some m) e && p e)
            (branch_files (drop_branches (dirs_start_after ds m) bs)))
        e
      ∙ count-dirs_start_after (λ e. wanted prefix (some m) e && p e) m (wanted_after prefix m p)
          base bs h

-- The heap tracks a frontier of the tree.
abbrev pub Frontier : PathMapper → (Bytes → Listed) → Bytes → List Cursor → List Source → Type 0
Frontier mapper list_dir root cs gs = TracksAll mapper list_dir cs gs × IsFrontier root gs

-- A heap that stands for some files, within a size.
abbrev pub Opened :
    PathMapper
    → (Bytes → Listed)
    → Bytes
    → Bytes
    → Option Bytes
    → List Cursor
    → List ListEntry
    → ℕ
    → Type 0
Opened mapper list_dir root prefix after cs fs n =
    (gs : List Source) × Frontier mapper list_dir root cs gs
    × ((p : ListEntry → Bool)
        → count (λ e. wanted prefix after e && p e) (frontier_files gs)
          ≡ count (λ e. wanted prefix after e && p e) fs)
    × (frontier_size gs ≤ n)

module _ (mapper : PathMapper) (list_dir : Bytes → Listed) (root prefix : Bytes)
    (after : Option Bytes) where
  opened_count :
      (l : DirListing) (base : Bytes) (fs : List ListEntry) (bs : Branches) (gs : List Source)
      → l.files ≡ fs
      → l.dirs ≡ dir_keys bs
      → IsBranches base bs
      → (p : ListEntry → Bool)
      → count
          (λ e. wanted prefix after e && p e)
          (frontier_files (
            push_source
              (dir_source base (drop_branches (starts_after after l).1 bs))
              (push_source (file_source (drop (starts_after after l).0 fs)) gs)))
        ≡ count (λ e. wanted prefix after e && p e) ((fs ++ branch_files bs) ++ frontier_files gs)
  opened_count l base fs bs gs files dirs branches p =
      let q : ListEntry → Bool = λ e. wanted prefix after e && p e in
      let fstart = (starts_after after l).0 in
      let fsrc = file_source (drop fstart fs) in
      let dsrc = dir_source base (drop_branches (starts_after after l).1 bs) in
      let kept =
        ap (λ f. count q (drop fstart f)) (sym files)
        ∙ files_kept prefix p after l
        ∙ ap (count q) files in
      omega (
        arith,
        push_source-count q dsrc (push_source fsrc gs),
        push_source-count q fsrc gs,
        kept,
        dirs_kept prefix p after l base bs dirs branches,
        count-append q (fs ++ branch_files bs) (frontier_files gs),
        count-append q fs (branch_files bs),
      )

  -- A listing adds everything wanted below its directory.
  pub push_listing-Opened :
      (l : DirListing) (base : Bytes) (t : Tree) (cs : List Cursor) (gs : List Source)
      → starts_with base root ≡ true
      → IsTree base t
      → Shows mapper list_dir l t
      → Frontier mapper list_dir root cs gs
      → Opened mapper list_dir root prefix after
          (push_listing after l cs)
          (tree_files t ++ frontier_files gs)
          (tree_size t + frontier_size gs)
  unfolding push_listing IsTree Shows tree_files tree_size
  push_listing-Opened l base (node fs bs) cs gs low (below, ordered, branches) (files, dirs, shown)
        (tracked, valid) =
      let fstart = (starts_after after l).0 in
      let dstart = (starts_after after l).1 in
      let fsrc = file_source (drop fstart fs) in
      let dsrc = dir_source base (drop_branches dstart bs) in
      let ford = drop-Ordered (λ e. e.key) fstart fs ordered in
      let dbr = IsBranches-drop_branches base dstart bs branches in
      let valid1 = push_source-IsFrontier root fsrc gs ford valid in
      let tracked1 =
        push_from-TracksAll mapper list_dir root
          (record { listing = l; files = true; idx = fstart }) fsrc cs gs
          (refl, ap (drop fstart) files) ford tracked valid.0 in
      let tracked2 =
        push_from-TracksAll mapper list_dir root
          (record { listing = l; files = false; idx = dstart }) dsrc
          (push_from (record { listing = l; files = true; idx = fstart }) cs) (push_source fsrc gs)
          (
            refl,
            ap (drop dstart) dirs ∙ dir_keys-drop_branches dstart bs,
            ShowsAll-drop_branches mapper list_dir dstart bs shown,
          )
          (low, dbr) tracked1 valid1.0 in
      (
        push_source dsrc (push_source fsrc gs),
        (tracked2, push_source-IsFrontier root dsrc (push_source fsrc gs) (low, dbr) valid1),
        opened_count l base fs bs gs files dirs branches,
        omega (
          arith,
          push_source-size dsrc (push_source fsrc gs),
          push_source-size fsrc gs,
          length-drop fstart fs,
          branch_size-drop dstart bs,
        ),
      )
