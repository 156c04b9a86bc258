-- ===== src/SortedListing/FilePulls.antt =====
-- What a pull gives, and a turn that takes a file (next_entry of src/s3/sorted_listing.rs).
use hdfs_s3_gateway.Prelude.{
  ℕ, suc, ◌+◌, ◌≤◌, ◌<◌, ◌≡◌, refl, ap₂, ◌∙◌, Bool, true, false, ◌&&◌, Bytes, key_le, if◌then◌else◌,
  Option, List, [], ◌∷◌, ◌++◌, All, arith,
}
use hdfs_s3_gateway.Path.{PathMapper}
use hdfs_s3_gateway.Listing.{ListEntry}
use hdfs_s3_gateway.Listing.Sorting.{if-cases}
use hdfs_s3_gateway.SortedListing.{Listed, Cursor, SortedListing, get_or, no_entry, push_advanced}
use hdfs_s3_gateway.SortedListing.Merge.{
  Turn, returned, continued, broken, finished, Pulled, entry, none_left, error, out_of_fuel,
  is_emitted, open_dir, take_file, turn_on, turn, next_loop,
}
use hdfs_s3_gateway.SortedListing.Counting.{count, count-append}
use hdfs_s3_gateway.SortedListing.Tree.{Tree, Branches, branch, dir_keys, HasNoSlash}
use hdfs_s3_gateway.SortedListing.Frontier.{
  Source, file_source, dir_source, frontier_files, frontier_size, push_source, push_source-count,
  push_source-size, push_source-All, push_source-IsFrontier, IsFrontier,
}
use hdfs_s3_gateway.SortedListing.Tracking.{
  Tracks, TracksAll, get_or-drop, drop-next, push_advanced-TracksAll,
}
use hdfs_s3_gateway.SortedListing.Opening.{wanted, Frontier}
use hdfs_s3_gateway.SortedListing.Above.{frontier_above}

module _ (mapper : PathMapper) (list_dir : Bytes → Listed) (root stem : Bytes)
    (after : Option Bytes) (start : Bytes) (slashless : HasNoSlash stem) where
  abbrev prefix : Bytes
  prefix = root ++ stem

  -- The listing between two pulls.
  abbrev pub running : List Cursor → SortedListing
  running heap = record {
    mapper = mapper;
    prefix = prefix;
    after = after;
    start = start;
    heap = heap;
    start_seeded = true;
    exhausted = false;
  }

  abbrev pub is_wanted : ListEntry → Bool
  is_wanted = wanted prefix after

  -- How many wanted files pass a test.
  abbrev pub wanted_count : (ListEntry → Bool) → List ListEntry → ℕ
  wanted_count p l = count (λ e. is_wanted e && p e) l

  -- What a pull from a frontier gives: the least wanted file, and a frontier with all the others;
  -- or nothing, and then the frontier has nothing wanted.
  abbrev pub Delivers : List Source → Pulled → Type 0
  Delivers gs (entry e s) =
      (cs' : List Cursor) × (gs' : List Source) × (s ≡ running cs')
      × Frontier mapper list_dir root cs' gs'
      × (is_wanted e ≡ true)
      × ((p : ListEntry → Bool)
          → wanted_count p (frontier_files gs)
            ≡ (if p e then 1 else 0) + wanted_count p (frontier_files gs'))
      × All (λ x. key_le e.key x.key ≡ true) (frontier_files gs')
      × (frontier_size gs' < frontier_size gs)
  Delivers gs (none_left s) = (p : ListEntry → Bool) → wanted_count p (frontier_files gs) ≡ 0
  Delivers gs (error e s) = ⊥
  Delivers gs out_of_fuel = ⊥

  -- A smaller frontier with the same wanted files delivers the same.
  pub weaken :
      (gs gs' : List Source) (r : Pulled)
      → ((p : ListEntry → Bool)
          → wanted_count p (frontier_files gs) ≡ wanted_count p (frontier_files gs'))
      → frontier_size gs' ≤ frontier_size gs
      → Delivers gs' r
      → Delivers gs r
  weaken gs gs' (entry e s) same small (cs'', gs'', running_on, valid, is, counts, above, less) =
      (cs'', gs'', running_on, valid, is, λ p. same p ∙ counts p, above, omega (arith, small, less))
  weaken gs gs' (none_left s) same small h = λ p. same p ∙ h p
  weaken gs gs' (error e s) same small h = h
  weaken gs gs' out_of_fuel same small h = h

  -- The rest of the loop after a turn.
  abbrev pub resume : ℕ → Turn → Pulled
  resume fuel t = elim t [
    | returned e s ↦ entry e s
    | continued s ↦ next_loop list_dir fuel s
    | broken e s ↦ error e s
    | finished s ↦ none_left s
  ]

  pub next_loop-suc :
      (fuel : ℕ) (s : SortedListing)
      → next_loop list_dir (suc fuel) s ≡ resume fuel (turn list_dir s)
  unfolding next_loop
  next_loop-suc fuel s = refl

  pub turn_file :
      (c : Cursor) (cs : List Cursor) (e : ListEntry) (fs : List ListEntry)
      → Tracks mapper list_dir c (file_source (e ∷ fs))
      → turn list_dir (running (c ∷ cs)) ≡ take_file list_dir (running (push_advanced c cs)) e
  unfolding turn turn_on
  turn_file c cs e fs t =
      ap₂
        (λ b x.
          if b
          then take_file list_dir (running (push_advanced c cs)) x
          else open_dir list_dir (running (push_advanced c cs)) (get_or c.listing.dirs c.idx []))
        t.0 (get_or-drop c.listing.files c.idx e fs no_entry t.1)

  pub turn_dir :
      (c : Cursor) (cs : List Cursor) (base k : Bytes) (t : Tree) (bs : Branches)
      → Tracks mapper list_dir c (dir_source base (branch k t bs))
      → turn list_dir (running (c ∷ cs)) ≡ open_dir list_dir (running (push_advanced c cs)) k
  unfolding turn turn_on
  turn_dir c cs base k t bs h =
      ap₂
        (λ b x.
          if b
          then take_file list_dir (running (push_advanced c cs))
              (get_or c.listing.files c.idx no_entry)
          else open_dir list_dir (running (push_advanced c cs)) x)
        h.0 (get_or-drop c.listing.dirs c.idx k (dir_keys bs) [] h.1)

  -- A file in front of the heap.
  module _ (c : Cursor) (cs : List Cursor) (e : ListEntry) (fs : List ListEntry) (gs : List Source)
      (tracked : TracksAll mapper list_dir (c ∷ cs) (file_source (e ∷ fs) ∷ gs))
      (valid : IsFrontier root (file_source (e ∷ fs) ∷ gs)) where
    pub file_Frontier :
        Frontier mapper list_dir root (push_advanced c cs) (push_source (file_source fs) gs)
    file_Frontier = (
      push_advanced-TracksAll mapper list_dir root c (file_source fs) cs gs
          (tracked.0.0, drop-next c.listing.files c.idx e fs tracked.0.1) valid.0.0.1 tracked.1
          valid.0.1,
      push_source-IsFrontier root (file_source fs) gs valid.0.0.1 (valid.0.1, valid.1.1),
    )

    pub file_above :
        All (λ x. key_le e.key x.key ≡ true) (frontier_files (push_source (file_source fs) gs))
    file_above =
        push_source-All (λ x. key_le e.key x.key ≡ true) (file_source fs) gs valid.0.0.0
          (frontier_above root e.key gs valid.0.1 valid.1.0)

    pub file_turn :
        (fuel : ℕ)
        → Delivers
            (push_source (file_source fs) gs)
            (next_loop list_dir fuel (running (push_advanced c cs)))
        → Delivers
            (file_source (e ∷ fs) ∷ gs)
            (resume fuel (take_file list_dir (running (push_advanced c cs)) e))
    unfolding take_file is_emitted
    file_turn fuel next =
        let gs1 = push_source (file_source fs) gs in
        let counted = λ (p : ListEntry → Bool).
          push_source-count (λ x. is_wanted x && p x) (file_source fs) gs in
        let both =
          λ (p : ListEntry → Bool). count-append (λ x. is_wanted x && p x) fs (frontier_files gs) in
        let smaller : frontier_size gs1 < frontier_size (file_source (e ∷ fs) ∷ gs) =
          omega (arith, push_source-size (file_source fs) gs) in
        if-cases (λ t. Delivers (file_source (e ∷ fs) ∷ gs) (resume fuel t)) (is_wanted e)
          (returned e (running (push_advanced c cs))) (continued (running (push_advanced c cs)))
          (λ is. (
            push_advanced c cs,
            gs1,
            refl,
            file_Frontier,
            is,
            λ p. ground (arith, counted p, both p, is),
            file_above,
            smaller,
          ))
          (λ is.
            weaken (file_source (e ∷ fs) ∷ gs) gs1
              (next_loop list_dir fuel (running (push_advanced c cs)))
              (λ p. ground (arith, counted p, both p, is)) (omega (arith, smaller)) next)
