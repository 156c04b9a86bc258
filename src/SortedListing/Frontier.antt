-- ===== src/SortedListing/Frontier.antt =====
-- The heap of cursors as a frontier of the tree: each cursor stands at the files or at the
-- directories of one listing that are left (Cursor and push of src/s3/sorted_listing.rs).
use hdfs_s3_gateway.Prelude.{
  ℕ, ◌+◌, ◌≡◌, refl, Bool, true, Bytes, lit, key_le, List, [], ◌∷◌, ◌++◌, length, All, All-append,
  All-append_left, All-append_right, arith, starts_with,
}
use hdfs_s3_gateway.Listing.{ListEntry}
use hdfs_s3_gateway.Listing.Sorting.{if-elim}
use hdfs_s3_gateway.Listing.Paginate.{insert_sorted}
use hdfs_s3_gateway.SortedListing.Counting.{
  count, count-append, Ordered, insert_sorted-Ordered, All-insert_key,
}
use hdfs_s3_gateway.SortedListing.Tree.{
  Branches, leaf, branch, branch_files, branch_size, IsBranches,
}

-- What is left of one kind of a listing, directories with the part of their keys they share.
pub data Source : Type 0 where
  file_source : List ListEntry → Source
  dir_source : Bytes → Branches → Source

abbrev pub source_files : Source → List ListEntry
source_files (file_source fs) = fs
source_files (dir_source base bs) = branch_files bs

abbrev pub source_size : Source → ℕ
source_size (file_source fs) = length fs
source_size (dir_source base bs) = branch_size bs

-- The output key in front.
abbrev pub source_key : Source → Bytes
source_key (file_source []) = []
source_key (file_source (e ∷ fs)) = e.key
source_key (dir_source base leaf) = []
source_key (dir_source base (branch k t bs)) = k ++ lit "/"

abbrev pub frontier_files : List Source → List ListEntry
frontier_files [] = []
frontier_files (s ∷ gs) = source_files s ++ frontier_files gs

abbrev pub frontier_size : List Source → ℕ
frontier_size [] = 0
frontier_size (s ∷ gs) = source_size s + frontier_size gs

-- A source that is used up leaves the frontier.
abbrev pub push_source : Source → List Source → List Source
push_source (file_source []) gs = gs
push_source (file_source (e ∷ fs)) gs = insert_sorted source_key (file_source (e ∷ fs)) gs
push_source (dir_source base leaf) gs = gs
push_source (dir_source base (branch k t bs)) gs =
    insert_sorted source_key (dir_source base (branch k t bs)) gs

-- Something is left, in order, below the listing's root.
abbrev pub IsSource : Bytes → Source → Type 0
IsSource root (file_source []) = ⊥
IsSource root (file_source (e ∷ fs)) = Ordered (λ e. e.key) (e ∷ fs)
IsSource root (dir_source base leaf) = ⊥
IsSource root (dir_source base (branch k t bs)) =
    (starts_with base root ≡ true) × IsBranches base (branch k t bs)

insert-frontier_count :
    (p : ListEntry → Bool) (s : Source) (gs : List Source)
    → count p (frontier_files (insert_sorted source_key s gs))
      ≡ count p (source_files s) + count p (frontier_files gs)
unfolding insert_sorted
insert-frontier_count p s [] = count-append p (source_files s) []
insert-frontier_count p s (g ∷ gs) =
    if-elim
      (λ r.
        count p (frontier_files r) ≡ count p (source_files s) + count p (frontier_files (g ∷ gs)))
      (key_le (source_key s) (source_key g)) (s ∷ g ∷ gs) (g ∷ insert_sorted source_key s gs)
      (count-append p (source_files s) (frontier_files (g ∷ gs)))
      (omega (
        arith,
        count-append p (source_files g) (frontier_files (insert_sorted source_key s gs)),
        count-append p (source_files g) (frontier_files gs),
        insert-frontier_count p s gs,
      ))

pub push_source-count :
    (p : ListEntry → Bool) (s : Source) (gs : List Source)
    → count p (frontier_files (push_source s gs))
      ≡ count p (source_files s) + count p (frontier_files gs)
unfolding branch_files
push_source-count p (file_source []) gs = omega arith
push_source-count p (file_source (e ∷ fs)) gs = insert-frontier_count p (file_source (e ∷ fs)) gs
push_source-count p (dir_source base leaf) gs = omega arith
push_source-count p (dir_source base (branch k t bs)) gs =
    insert-frontier_count p (dir_source base (branch k t bs)) gs

insert-frontier_size :
    (s : Source) (gs : List Source)
    → frontier_size (insert_sorted source_key s gs) ≡ source_size s + frontier_size gs
unfolding insert_sorted
insert-frontier_size s [] = refl
insert-frontier_size s (g ∷ gs) = ground (arith, insert-frontier_size s gs)

pub push_source-size :
    (s : Source) (gs : List Source)
    → frontier_size (push_source s gs) ≡ source_size s + frontier_size gs
unfolding branch_size
push_source-size (file_source []) gs = omega arith
push_source-size (file_source (e ∷ fs)) gs = insert-frontier_size (file_source (e ∷ fs)) gs
push_source-size (dir_source base leaf) gs = omega arith
push_source-size (dir_source base (branch k t bs)) gs =
    insert-frontier_size (dir_source base (branch k t bs)) gs

module _ (P : ListEntry → Type 0) where
  insert-frontier_All :
      (s : Source) (gs : List Source)
      → All P (source_files s)
      → All P (frontier_files gs)
      → All P (frontier_files (insert_sorted source_key s gs))
  unfolding insert_sorted
  insert-frontier_All s [] h k = All-append P (source_files s) [] h tt
  insert-frontier_All s (g ∷ gs) h k =
      if-elim (λ r. All P (frontier_files r)) (key_le (source_key s) (source_key g)) (s ∷ g ∷ gs)
        (g ∷ insert_sorted source_key s gs)
        (All-append P (source_files s) (frontier_files (g ∷ gs)) h k)
        (All-append P (source_files g) (frontier_files (insert_sorted source_key s gs))
          (All-append_left P (source_files g) (frontier_files gs) k)
          (insert-frontier_All s gs h (All-append_right P (source_files g) (frontier_files gs) k)))

  pub push_source-All :
      (s : Source) (gs : List Source)
      → All P (source_files s)
      → All P (frontier_files gs)
      → All P (frontier_files (push_source s gs))
  push_source-All (file_source []) gs h k = k
  push_source-All (file_source (e ∷ fs)) gs h k = insert-frontier_All (file_source (e ∷ fs)) gs h k
  push_source-All (dir_source base leaf) gs h k = k
  push_source-All (dir_source base (branch d t bs)) gs h k =
      insert-frontier_All (dir_source base (branch d t bs)) gs h k

-- The frontier's own invariant.
abbrev pub IsFrontier : Bytes → List Source → Type 0
IsFrontier root gs = All (IsSource root) gs × Ordered source_key gs

pub insert-IsFrontier :
    (root : Bytes) (s : Source) (gs : List Source)
    → IsSource root s
    → IsFrontier root gs
    → IsFrontier root (insert_sorted source_key s gs)
insert-IsFrontier root s gs h k = (
  All-insert_key source_key (IsSource root) s gs h k.0,
  insert_sorted-Ordered source_key s gs k.1,
)

-- The same of a source of which nothing may be left.
abbrev pub IsRest : Bytes → Source → Type 0
IsRest root (file_source fs) = Ordered (λ e. e.key) fs
IsRest root (dir_source base bs) = (starts_with base root ≡ true) × IsBranches base bs

pub push_source-IsFrontier :
    (root : Bytes) (s : Source) (gs : List Source)
    → IsRest root s
    → IsFrontier root gs
    → IsFrontier root (push_source s gs)
push_source-IsFrontier root (file_source []) gs h k = k
push_source-IsFrontier root (file_source (e ∷ fs)) gs h k =
    insert-IsFrontier root (file_source (e ∷ fs)) gs h k
push_source-IsFrontier root (dir_source base leaf) gs h k = k
push_source-IsFrontier root (dir_source base (branch d t bs)) gs h k =
    insert-IsFrontier root (dir_source base (branch d t bs)) gs h k
