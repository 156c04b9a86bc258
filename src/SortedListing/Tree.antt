-- ===== src/SortedListing/Tree.antt =====
-- What a lister shows below a directory, as a finite tree: the reference that the merge of
-- src/s3/sorted_listing.rs is measured against.
use hdfs_s3_gateway.Prelude.{
  ℕ, suc, ◌+◌, ◌≡◌, ◌≢◌, sym, ap, subst, ◌∙◌, true, Bytes, lit, slash, starts_with,
  starts_with-append, starts_with_split, ◌≺◌, none, some, List, [], ◌∷◌, ◌++◌, append_assoc, length,
  All, All-append, ◌||◌,
}
use hdfs_s3_gateway.Path.{PathMapper, key_to_hdfs_path}
use hdfs_s3_gateway.Listing.{ListEntry, DirListing}
use hdfs_s3_gateway.Listing.Sorting.{All-map_to}
use hdfs_s3_gateway.SortedListing.{Listed, listed, failed, is_dir_denied, is_file_not_found}
use hdfs_s3_gateway.SortedListing.Counting.{Ordered}

mutual
  -- A directory: its files, and its directories with what is below them.
  pub data Tree : Type 0 where
    node : List ListEntry → Branches → Tree

  pub data Branches : Type 0 where
    leaf : Branches
    branch : Bytes → Tree → Branches → Branches

abbrev pub dir_keys : Branches → List Bytes
dir_keys leaf = []
dir_keys (branch k t bs) = k ∷ dir_keys bs

unfoldable mutual
  -- Every file of the tree.
  pub tree_files : Tree → List ListEntry
  tree_files (node fs bs) = fs ++ branch_files bs

  pub branch_files : Branches → List ListEntry
  branch_files leaf = []
  branch_files (branch k t bs) = tree_files t ++ branch_files bs

unfoldable mutual
  -- Its files and directories, counted.
  pub tree_size : Tree → ℕ
  tree_size (node fs bs) = length fs + branch_size bs

  pub branch_size : Branches → ℕ
  branch_size leaf = 0
  branch_size (branch k t bs) = suc (tree_size t + branch_size bs)

-- A name: what stands between two slashes.
abbrev pub HasNoSlash : Bytes → Type 0
HasNoSlash = All (λ c. c ≢ slash)

-- The key of a directory directly below a directory whose keys start with `base`.
abbrev pub IsChild : Bytes → Bytes → Type 0
IsChild base k = (name : Bytes) × (k ≡ base ++ name) × HasNoSlash name

unfoldable mutual
  -- Keys lie below their directory, and both kinds are in the order of their output keys.
  pub IsTree : Bytes → Tree → Type 0
  IsTree base (node fs bs) =
      All (λ e. starts_with e.key base ≡ true) fs × Ordered (λ e. e.key) fs × IsBranches base bs

  pub IsBranches : Bytes → Branches → Type 0
  IsBranches base leaf = Unit
  IsBranches base (branch k t bs) =
      IsChild base k
      × All (λ d. (k ++ lit "/") ≺ (d ++ lit "/")) (dir_keys bs)
      × IsTree (k ++ lit "/") t
      × IsBranches base bs

module _ (mapper : PathMapper) (list_dir : Bytes → Listed) where
  unfoldable mutual
    -- The lister answers with the tree: a directory that is denied, that has vanished or whose key
    -- resolves to no path has nothing below it.
    pub Shows : DirListing → Tree → Type 0
    Shows l (node fs bs) = (l.files ≡ fs) × (l.dirs ≡ dir_keys bs) × ShowsAll bs

    pub ShowsAll : Branches → Type 0
    ShowsAll leaf = Unit
    ShowsAll (branch k t bs) =
        (elim (key_to_hdfs_path mapper k) [
          | none ↦ t ≡ node [] leaf
          | some path ↦ elim (list_dir path) [
            | listed l ↦ Shows l t
            | failed e ↦ ((is_dir_denied e || is_file_not_found e) ≡ true) × (t ≡ node [] leaf)
          ]
        ])
        × ShowsAll bs

starts_with_trans : (k a b : Bytes) → starts_with k (a ++ b) ≡ true → starts_with k a ≡ true
starts_with_trans k a b h =
    let (r, e) = starts_with_split k (a ++ b) h in
    subst (λ s. starts_with s a ≡ true) (sym (e ∙ append_assoc a b r))
      (starts_with-append a (b ++ r))

All-starts_with :
    (base k : Bytes) (l : List ListEntry)
    → IsChild base k
    → All (λ e. starts_with e.key (k ++ lit "/") ≡ true) l
    → All (λ e. starts_with e.key base ≡ true) l
All-starts_with base k l (name, e, slashless) h =
    All-map_to
      (λ x s. starts_with_trans x.key base (name ++ lit "/") (
        subst (λ d. starts_with x.key d ≡ true)
          (ap (◌++ lit "/") e ∙ append_assoc base name (lit "/")) s))
      l h

mutual
  unfolding tree_files IsTree

  -- Every file of a tree lies below its directory.
  pub tree_files_below :
      (base : Bytes) (t : Tree)
      → IsTree base t
      → All (λ e. starts_with e.key base ≡ true) (tree_files t)
  tree_files_below base (node fs bs) h =
      All-append (λ e. starts_with e.key base ≡ true) fs (branch_files bs) h.0
        (branch_files_below base bs h.2)

  pub branch_files_below :
      (base : Bytes) (bs : Branches)
      → IsBranches base bs
      → All (λ e. starts_with e.key base ≡ true) (branch_files bs)
  branch_files_below base leaf h = tt
  branch_files_below base (branch k t bs) h =
      All-append (λ e. starts_with e.key base ≡ true) (tree_files t) (branch_files bs)
        (All-starts_with base k (tree_files t) h.0 (tree_files_below (k ++ lit "/") t h.2))
        (branch_files_below base bs h.3)
