-- ===== src/SortedListing/Pulls.antt =====
-- One pull gives the least wanted file of the frontier (next_entry of src/s3/sorted_listing.rs).
use hdfs_s3_gateway.Prelude.{
  ℕ, zero, suc, ◌+◌, ◌<◌, ◌≡◌, refl, sym, ap, subst, ◌∙◌, Bool, true, ◌&&◌, ◌||◌, Bytes, lit,
  starts_with, starts_with_split, starts_with-append, append_assoc, if◌then◌else◌, Option, none,
  some, List, [], ◌∷◌, ◌++◌, arith,
}
use hdfs_s3_gateway.Path.{PathMapper, key_to_hdfs_path}
use hdfs_s3_gateway.Listing.{ListEntry}
use hdfs_s3_gateway.Listing.Sorting.{if-cases}
use hdfs_s3_gateway.SortedListing.{
  Listed, listed, failed, Cursor, SortedListing, is_dir_denied, is_file_not_found, push_advanced,
  push_listing,
}
use hdfs_s3_gateway.SortedListing.Merge.{
  Turn, continued, broken, Pulled, is_opened, open_listed, open_dir, turn, next_loop,
}
use hdfs_s3_gateway.SortedListing.Counting.{count-append}
use hdfs_s3_gateway.SortedListing.Tree.{
  Tree, node, Branches, leaf, branch, dir_keys, tree_files, branch_files, tree_size, branch_size,
  IsTree, IsBranches, IsChild, HasNoSlash, Shows, ShowsAll,
}
use hdfs_s3_gateway.SortedListing.Frontier.{
  Source, file_source, dir_source, frontier_files, frontier_size, push_source, push_source-count,
  push_source-size, push_source-IsFrontier, IsFrontier,
}
use hdfs_s3_gateway.SortedListing.Tracking.{TracksAll, drop-next, push_advanced-TracksAll}
use hdfs_s3_gateway.SortedListing.Opening.{Frontier, push_listing-Opened}
use hdfs_s3_gateway.SortedListing.Above.{unopened_count, opens}
use hdfs_s3_gateway.SortedListing.FilePulls.{
  running, is_wanted, wanted_count, Delivers, weaken, resume, next_loop-suc, turn_file, turn_dir,
  file_Frontier, file_turn,
}

module _ (mapper : PathMapper) (list_dir : Bytes → Listed) (root stem : Bytes)
    (after : Option Bytes) (start : Bytes) (slashless : HasNoSlash stem) where
  abbrev prefix : Bytes
  prefix = root ++ stem

  abbrev at : List Cursor → SortedListing
  at = running mapper list_dir root stem after start slashless

  abbrev counted : (ListEntry → Bool) → List ListEntry → ℕ
  counted = wanted_count mapper list_dir root stem after start slashless

  abbrev Gives : List Source → Pulled → Type 0
  Gives = Delivers mapper list_dir root stem after start slashless

  abbrev resumed : ℕ → Turn → Pulled
  resumed = resume mapper list_dir root stem after start slashless

  -- A directory in front of the heap.
  module _ (c : Cursor) (cs : List Cursor) (base k : Bytes) (t : Tree) (bs : Branches)
      (gs : List Source)
      (tracked : TracksAll mapper list_dir (c ∷ cs) (dir_source base (branch k t bs) ∷ gs))
      (valid : IsFrontier root (dir_source base (branch k t bs) ∷ gs)) (fuel : ℕ)
      (next : (cs' : List Cursor) (gs' : List Source)
        → Frontier mapper list_dir root cs' gs'
        → frontier_size gs' < frontier_size (dir_source base (branch k t bs) ∷ gs)
        → Gives gs' (next_loop list_dir fuel (at cs'))) where
    abbrev rest : List Source
    rest = push_source (dir_source base bs) gs

    abbrev here : List Source
    here = dir_source base (branch k t bs) ∷ gs

    abbrev heap1 : List Cursor
    heap1 = push_advanced c cs

    dir_facts :
        (starts_with base root ≡ true)
        × IsChild base k
        × IsTree (k ++ lit "/") t
        × IsBranches base bs
    unfolding IsBranches
    dir_facts = (valid.0.0.0, valid.0.0.1.0, valid.0.0.1.2, valid.0.0.1.3)

    dir_Frontier : Frontier mapper list_dir root heap1 rest
    unfolding ShowsAll
    dir_Frontier = (
      push_advanced-TracksAll mapper list_dir root c (dir_source base bs) cs gs
          (tracked.0.0, drop-next c.listing.dirs c.idx k (dir_keys bs) tracked.0.1, tracked.0.2.1)
          (dir_facts.0, dir_facts.3) tracked.1 valid.0.1,
      push_source-IsFrontier root (dir_source base bs) gs (dir_facts.0, dir_facts.3)
          (valid.0.1, valid.1.1),
    )

    rest_count :
        (p : ListEntry → Bool)
        → counted p (frontier_files here)
          ≡ counted p (tree_files t) + counted p (frontier_files rest)
    unfolding branch_files
    rest_count p =
        let q : ListEntry → Bool =
          λ e. is_wanted mapper list_dir root stem after start slashless e && p e in
        omega (
          arith,
          count-append q (tree_files t ++ branch_files bs) (frontier_files gs),
          count-append q (tree_files t) (branch_files bs),
          push_source-count q (dir_source base bs) gs,
        )

    rest_size : frontier_size here ≡ suc (tree_size t + frontier_size rest)
    unfolding branch_size
    rest_size = omega (arith, push_source-size (dir_source base bs) gs)

    -- The directory is left out, and has nothing wanted.
    left_out :
        ((p : ListEntry → Bool) → counted p (tree_files t) ≡ 0)
        → Gives here (next_loop list_dir fuel (at heap1))
    left_out none_there =
        weaken mapper list_dir root stem after start slashless here rest
          (next_loop list_dir fuel (at heap1)) (λ p. omega (arith, rest_count p, none_there p))
          (omega (arith, rest_size)) (next heap1 rest dir_Frontier (omega (arith, rest_size)))

    empty_count : t ≡ node [] leaf → (p : ListEntry → Bool) → counted p (tree_files t) ≡ 0
    unfolding tree_files branch_files
    empty_count e p = ap (λ u. counted p (tree_files u)) e

    below_root : starts_with (k ++ lit "/") root ≡ true
    below_root =
        let (name, e, h) = dir_facts.1 in
        let (r, b) = starts_with_split base root dir_facts.0 in
        ap (λ d. starts_with (d ++ lit "/") root) (e ∙ ap (◌++ name) b ∙ append_assoc root r name)
        ∙ ap (λ d. starts_with d root) (append_assoc root (r ++ name) (lit "/"))
        ∙ starts_with-append root ((r ++ name) ++ lit "/")

    listed_arm :
        (l : Listed)
        → (elim l as (λ x. Type 0) [
          | listed d ↦ Shows mapper list_dir d t
          | failed e ↦ ((is_dir_denied e || is_file_not_found e) ≡ true) × (t ≡ node [] leaf)
        ])
        → Gives here (resumed fuel (open_listed list_dir (at heap1) l))
    unfolding open_listed
    listed_arm (listed d) h =
        let (gs', valid', counts, small) =
          push_listing-Opened mapper list_dir root prefix after d (k ++ lit "/") t heap1 rest
            below_root dir_facts.2 h dir_Frontier in
        weaken mapper list_dir root stem after start slashless here gs'
          (next_loop list_dir fuel (at (push_listing after d heap1)))
          (λ p. omega (
            arith,
            rest_count p,
            counts p,
            count-append (λ e. is_wanted mapper list_dir root stem after start slashless e && p e)
                (tree_files t) (frontier_files rest),
          ))
          (omega (arith, small, rest_size))
          (next (push_listing after d heap1) gs' valid' (omega (arith, small, rest_size)))
    listed_arm (failed e) h =
        let skip = left_out (empty_count h.1) in
        let or_skip = if is_file_not_found e then continued (at heap1) else broken e (at heap1) in
        if-cases (λ u. Gives here (resumed fuel u)) (is_dir_denied e) (continued (at heap1)) or_skip
          (λ d. skip)
          (λ d.
            if-cases (λ u. Gives here (resumed fuel u)) (is_file_not_found e) (continued (at heap1))
              (broken e (at heap1)) (λ f. skip) (λ f. absurd (ground (arith, h.0, d, f))))

    path_arm :
        (o : Option Bytes)
        → (elim o as (λ x. Type 0) [
          | none ↦ t ≡ node [] leaf
          | some path ↦ elim (list_dir path) as (λ x. Type 0) [
            | listed d ↦ Shows mapper list_dir d t
            | failed e ↦ ((is_dir_denied e || is_file_not_found e) ≡ true) × (t ≡ node [] leaf)
          ]
        ])
        → Gives here (
            resumed fuel (elim o [
              | none ↦ continued (at heap1)
              | some path ↦ open_listed list_dir (at heap1) (list_dir path)
            ]))
    path_arm none h = left_out (empty_count h)
    path_arm (some path) h = listed_arm (list_dir path) h

    dir_turn : Gives here (resumed fuel (open_dir list_dir (at heap1) k))
    unfolding open_dir is_opened ShowsAll
    dir_turn =
        if-cases (λ u. Gives here (resumed fuel u)) (opens prefix after k)
          (elim (key_to_hdfs_path mapper k) [
            | none ↦ continued (at heap1)
            | some path ↦ open_listed list_dir (at heap1) (list_dir path)
          ])
          (continued (at heap1)) (λ o. path_arm (key_to_hdfs_path mapper k) tracked.0.2.0)
          (λ o. left_out (λ p.
            unopened_count root stem base k t after p slashless dir_facts.0 dir_facts.1 dir_facts.2
              o))

  -- With more fuel than the frontier has files and directories a pull ends, and delivers.
  pub next_loop-Delivers :
      (fuel : ℕ) (cs : List Cursor) (gs : List Source)
      → Frontier mapper list_dir root cs gs
      → frontier_size gs < fuel
      → Delivers mapper list_dir root stem after start slashless gs
          (next_loop list_dir fuel (running mapper list_dir root stem after start slashless cs))
  next_loop-Delivers zero cs gs valid enough = absurd (omega arith)
  next_loop-Delivers (suc fuel) [] [] valid enough = unfold next_loop turn in (λ p. refl)
  next_loop-Delivers (suc fuel) [] (s ∷ gs) valid enough = absurd valid.0
  next_loop-Delivers (suc fuel) (c ∷ cs) [] valid enough = absurd valid.0
  next_loop-Delivers (suc fuel) (c ∷ cs) (file_source [] ∷ gs) valid enough = absurd valid.1.0.0
  next_loop-Delivers (suc fuel) (c ∷ cs) (dir_source base leaf ∷ gs) valid enough =
      absurd valid.1.0.0
  next_loop-Delivers (suc fuel) (c ∷ cs) (file_source (e ∷ fs) ∷ gs) (tracked, valid) enough =
      let ih =
        next_loop-Delivers fuel (push_advanced c cs) (push_source (file_source fs) gs)
          (file_Frontier mapper list_dir root stem after start slashless c cs e fs gs tracked valid)
          (omega (arith, push_source-size (file_source fs) gs, enough)) in
      subst (Gives (file_source (e ∷ fs) ∷ gs))
        (sym (
          next_loop-suc mapper list_dir root stem after start slashless fuel (at (c ∷ cs))
          ∙ ap (resumed fuel)
              (turn_file mapper list_dir root stem after start slashless c cs e fs tracked.0)))
        (file_turn mapper list_dir root stem after start slashless c cs e fs gs tracked valid fuel
          ih)
  next_loop-Delivers (suc fuel) (c ∷ cs) (dir_source base (branch k t bs) ∷ gs) (tracked, valid)
        enough =
      subst (Gives (dir_source base (branch k t bs) ∷ gs))
        (sym (
          next_loop-suc mapper list_dir root stem after start slashless fuel (at (c ∷ cs))
          ∙ ap (resumed fuel) (
              turn_dir mapper list_dir root stem after start slashless c cs base k t bs tracked.0)))
        (dir_turn c cs base k t bs gs tracked valid fuel
          (λ cs' gs' v less. next_loop-Delivers fuel cs' gs' v (omega (arith, less, enough))))
