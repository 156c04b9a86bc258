-- ===== src/SortedListing/Merge.antt =====
-- The loop of `next_entry` and the page that `collect_page` fills (src/s3/sorted_listing.rs).
use hdfs_s3_gateway.Prelude.{
  ℕ, zero, suc, Bool, true, false, not, ◌&&◌, Bytes, starts_with, key_le, ◌==◌, if◌then◌else◌, none,
  some, List, [], ◌∷◌, ◌++◌,
}
use hdfs_s3_gateway.Error.{HdfsError}
use hdfs_s3_gateway.Path.{key_to_hdfs_path}
use hdfs_s3_gateway.Listing.{ListEntry}
use hdfs_s3_gateway.SortedListing.{
  Listed, listed, failed, Cursor, SortedListing, get_or, no_entry, is_dir_denied, is_file_not_found,
  dir_children_all_before, push_advanced, push_listing,
}

-- How one turn of the loop of `next_entry` ends.
pub data Turn : Type 0 where
  returned : ListEntry → SortedListing → Turn
  continued : SortedListing → Turn
  broken : HdfsError → SortedListing → Turn
  finished : SortedListing → Turn

-- The checks on a file's entry.
unfoldable pub is_emitted : SortedListing → Bytes → Bool
is_emitted s key =
    starts_with key s.prefix && (elim s.after [ none ↦ true | some after ↦ not (key_le key after) ])

-- The checks on a directory before it is opened.
unfoldable pub is_opened : SortedListing → Bytes → Bool
unfolding dir_children_all_before
is_opened s key =
    starts_with key s.prefix
    && (elim s.after [ none ↦ true | some after ↦ not (dir_children_all_before key after) ])

-- `Result<Option<ListEntry>, HdfsError>`, and the listing afterwards.
pub data Pulled : Type 0 where
  entry : ListEntry → SortedListing → Pulled
  none_left : SortedListing → Pulled
  error : HdfsError → SortedListing → Pulled
  out_of_fuel : Pulled

-- `Result<(Vec<ListEntry>, bool), HdfsError>`
pub data Paged : Type 0 where
  page : List ListEntry → Bool → Paged
  page_error : HdfsError → Paged
  page_out_of_fuel : Paged

module _ (list_dir : Bytes → Listed) where
  -- The arms of the match on a directory's listing.
  unfoldable pub open_listed : SortedListing → Listed → Turn
  unfolding push_listing is_dir_denied is_file_not_found
  open_listed s (listed listing) =
      continued (record s { heap = push_listing s.after listing s.heap })
  open_listed s (failed e) =
      if is_dir_denied e
      then continued s
      else if is_file_not_found e
      then continued s
      else broken e s

  unfoldable pub open_dir : SortedListing → Bytes → Turn
  unfolding is_opened open_listed
  open_dir s key =
      if is_opened s key
      then elim (key_to_hdfs_path s.mapper key) [
        | none ↦ continued s
        | some hdfs_path ↦ open_listed s (list_dir hdfs_path)
      ]
      else continued s

  unfoldable pub take_file : SortedListing → ListEntry → Turn
  unfolding is_emitted
  take_file s e = if is_emitted s e.key then returned e s else continued s

  -- One turn, on the popped cursor and the rest of the heap.
  unfoldable pub turn_on : SortedListing → Cursor → List Cursor → Turn
  unfolding push_advanced take_file open_dir
  turn_on s cursor rest =
      let s' = record s { heap = push_advanced cursor rest } in
      if cursor.files
      then take_file s' (get_or cursor.listing.files cursor.idx no_entry)
      else open_dir s' (get_or cursor.listing.dirs cursor.idx [])

  unfoldable pub turn : SortedListing → Turn
  unfolding turn_on
  turn s = elim s.heap [
    | [] ↦ finished (record s { exhausted = true })
    | cursor ∷ rest ↦ turn_on s cursor rest
  ]

  -- The loop of `next_entry`.
  unfoldable pub next_loop : ℕ → SortedListing → Pulled
  unfolding turn
  next_loop zero s = out_of_fuel
  next_loop (suc fuel) s = elim (turn s) [
    | returned e s' ↦ entry e s'
    | continued s' ↦ next_loop fuel s'
    | broken e s' ↦ error e s'
    | finished s' ↦ none_left s'
  ]

  -- The arms of the match on the start directory's listing.
  unfoldable pub seed_listed : SortedListing → Listed → Turn
  unfolding push_listing is_file_not_found
  seed_listed s (listed listing) =
      continued (record s { heap = push_listing s.after listing s.heap })
  seed_listed s (failed e) =
      if is_file_not_found e then finished (record s { exhausted = true }) else broken e s

  -- The first pull lists the start directory.
  unfoldable pub seed : SortedListing → Turn
  unfolding seed_listed
  seed s = seed_listed (record s { start_seeded = true }) (list_dir s.start)

  -- `next_entry`
  unfoldable pub next_entry : ℕ → SortedListing → Pulled
  unfolding next_loop seed
  next_entry fuel s =
      if s.exhausted
      then none_left s
      else if s.start_seeded
      then next_loop fuel s
      else elim (seed s) [
        | returned e s' ↦ entry e s'
        | continued s' ↦ next_loop fuel s'
        | broken e s' ↦ error e s'
        | finished s' ↦ none_left s'
      ]

  -- The last pull of `collect_page`, which only asks whether there is one more entry.
  unfoldable pub probe : ℕ → SortedListing → List ListEntry → Paged
  unfolding next_entry
  probe fuel s entries = elim (next_entry fuel s) [
    | entry e s' ↦ page entries true
    | none_left s' ↦ page entries false
    | error e s' ↦ page_error e
    | out_of_fuel ↦ page_out_of_fuel
  ]

  -- The loop of `collect_page`, over the entries still wanted.
  unfoldable pub fill_page : ℕ → ℕ → SortedListing → List ListEntry → Paged
  unfolding next_entry probe
  fill_page fuel zero s entries = probe fuel s entries
  fill_page fuel (suc left) s entries = elim (next_entry fuel s) [
    | entry e s' ↦ fill_page fuel left s' (entries ++ (e ∷ []))
    | none_left s' ↦ page entries false
    | error e s' ↦ page_error e
    | out_of_fuel ↦ page_out_of_fuel
  ]

  -- `collect_page`
  unfoldable pub collect_page : ℕ → SortedListing → ℕ → Paged
  unfolding fill_page
  collect_page fuel s max_keys =
      if max_keys == 0 then page [] false else fill_page fuel max_keys s []
