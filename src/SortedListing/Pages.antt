-- ===== src/SortedListing/Pages.antt =====
-- A page of the merge is a slice of the sorted listing of the tree (collect_page of
-- src/s3/sorted_listing.rs).
use hdfs_s3_gateway.Prelude.{
  ℕ, zero, suc, ◌+◌, ◌≤◌, ◌<◌, ◌≡◌, refl, sym, ap, ap₂, ◌∙◌, Bool, true, false, ◌&&◌, Bytes, key_le,
  ltb, if◌then◌else◌, Option, List, [], ◌∷◌, ◌++◌, append_assoc, append-nil, length, take, select,
  All, arith,
}
use hdfs_s3_gateway.Path.{PathMapper}
use hdfs_s3_gateway.Listing.{ListEntry, DirListing}
use hdfs_s3_gateway.Listing.Paginate.{sort_by}
use hdfs_s3_gateway.Listing.Sorting.{All-select}
use hdfs_s3_gateway.SortedListing.{Listed, listed, Cursor, SortedListing, new, push_listing}
use hdfs_s3_gateway.SortedListing.Merge.{
  returned, continued, broken, finished, Pulled, entry, none_left, error, out_of_fuel, Paged, page,
  page_error, page_out_of_fuel, next_loop, next_entry, seed_listed, probe, fill_page,
}
use hdfs_s3_gateway.SortedListing.Counting.{
  count, count-select, count-sort_by, Ordered, sort_by-Ordered, All-sort_by, has_key, Ordered-ext,
  nil_of_count,
}
use hdfs_s3_gateway.SortedListing.Tree.{HasNoSlash}
use hdfs_s3_gateway.SortedListing.Frontier.{Source, frontier_files, frontier_size}
use hdfs_s3_gateway.SortedListing.Opening.{wanted, Frontier}
use hdfs_s3_gateway.SortedListing.FilePulls.{running, Delivers}
use hdfs_s3_gateway.SortedListing.Pulls.{next_loop-Delivers}

-- The flat listing of some files: those under the prefix and after the marker, in key order.
unfoldable pub flat_listing : Bytes → Option Bytes → List ListEntry → List ListEntry
flat_listing prefix after files = sort_by (λ e. e.key) (select (wanted prefix after) files)

-- No key is there twice.
abbrev pub HasUniqueKeys : List ListEntry → Type 0
HasUniqueKeys l = (k : Bytes) → count (has_key k) l ≤ 1

module _ (prefix : Bytes) (after : Option Bytes) where
  pub count-flat_listing :
      (p : ListEntry → Bool) (files : List ListEntry)
      → count p (flat_listing prefix after files) ≡ count (λ e. wanted prefix after e && p e) files
  unfolding flat_listing
  count-flat_listing p files =
      count-sort_by (λ e. e.key) p (select (wanted prefix after) files)
      ∙ count-select p (wanted prefix after) files

  pub flat_listing-Ordered :
      (files : List ListEntry) → Ordered (λ e. e.key) (flat_listing prefix after files)
  unfolding flat_listing
  flat_listing-Ordered files = sort_by-Ordered (λ e. e.key) (select (wanted prefix after) files)

  flat_listing-All :
      (P : ListEntry → Type 0) (files : List ListEntry)
      → All P files
      → All P (flat_listing prefix after files)
  unfolding flat_listing
  flat_listing-All P files h =
      All-sort_by (λ e. e.key) P (select (wanted prefix after) files)
        (All-select P (wanted prefix after) files h)

  -- What is wanted determines the listing, if no key is wanted twice.
  pub flat_listing_ext :
      (l files : List ListEntry)
      → Ordered (λ e. e.key) l
      → ((p : ListEntry → Bool) → count p l ≡ count (λ e. wanted prefix after e && p e) files)
      → ((k : Bytes) → count (λ e. wanted prefix after e && has_key k e) files ≤ 1)
      → l ≡ flat_listing prefix after files
  flat_listing_ext l files ordered same once =
      Ordered-ext l (flat_listing prefix after files) ordered (flat_listing-Ordered files)
        (λ p. same p ∙ sym (count-flat_listing p files))
        (λ k. omega (arith, same (has_key k), once k))

fewer : (b : Bool) {n m : ℕ} → n ≤ 1 → n ≡ (if b then 1 else 0) + m → m ≤ 1
fewer true h e = omega (arith, h, e)
fewer false h e = omega (arith, h, e)

ltb_zero : (n : ℕ) → ltb n 0 ≡ false
ltb_zero n = ground arith

module _ (mapper : PathMapper) (list_dir : Bytes → Listed) (root stem : Bytes)
    (after : Option Bytes) (start : Bytes) (slashless : HasNoSlash stem) where
  abbrev prefix : Bytes
  prefix = root ++ stem

  abbrev at : List Cursor → SortedListing
  at = running mapper list_dir root stem after start slashless

  abbrev left_of : List Source → List ListEntry
  left_of gs = flat_listing prefix after (frontier_files gs)

  abbrev IsOnce : List Source → Type 0
  IsOnce gs =
      (k : Bytes) → count (λ e. wanted prefix after e && has_key k e) (frontier_files gs) ≤ 1

  -- A delivered entry is the head of what is left.
  left_of_entry :
      (gs gs' : List Source) (e : ListEntry)
      → IsOnce gs
      → ((p : ListEntry → Bool)
          → count (λ x. wanted prefix after x && p x) (frontier_files gs)
            ≡ (if p e then 1 else 0)
              + count (λ x. wanted prefix after x && p x) (frontier_files gs'))
      → All (λ x. key_le e.key x.key ≡ true) (frontier_files gs')
      → e ∷ left_of gs' ≡ left_of gs
  left_of_entry gs gs' e once counts above =
      flat_listing_ext prefix after (e ∷ left_of gs') (frontier_files gs)
        (
          flat_listing-All prefix after (λ x. key_le e.key x.key ≡ true) (frontier_files gs') above,
          flat_listing-Ordered prefix after (frontier_files gs'),
        )
        (λ p. ground (arith, counts p, count-flat_listing prefix after p (frontier_files gs'))) once

  left_of_none :
      (gs : List Source)
      → ((p : ListEntry → Bool) → count (λ x. wanted prefix after x && p x) (frontier_files gs) ≡ 0)
      → left_of gs ≡ []
  left_of_none gs none_there =
      nil_of_count (left_of gs)
        (count-flat_listing prefix after (λ e. true) (frontier_files gs) ∙ none_there (λ e. true))

  pulled :
      (fuel : ℕ) (cs : List Cursor)
      → next_entry list_dir fuel (at cs) ≡ next_loop list_dir fuel (at cs)
  unfolding next_entry
  pulled fuel cs = refl

  -- The last pull.
  probe_lem :
      (gs : List Source) (r : Pulled) (acc : List ListEntry)
      → IsOnce gs
      → Delivers mapper list_dir root stem after start slashless gs r
      → (elim r as (λ x. Paged) [
        | entry e s ↦ page acc true
        | none_left s ↦ page acc false
        | error e s ↦ page_error e
        | out_of_fuel ↦ page_out_of_fuel
      ])
        ≡ page acc (ltb 0 (length (left_of gs)))
  probe_lem gs (entry e s) acc once (cs', gs', at_cs, valid, is, counts, above, less) =
      let more : ltb 0 (suc (length (left_of gs'))) ≡ true = ground arith in
      ap (page acc) (sym more)
      ∙ ap (λ l. page acc (ltb 0 (length l))) (left_of_entry gs gs' e once counts above)
  probe_lem gs (none_left s) acc once h =
      ap (λ l. page acc (ltb 0 (length {A = ListEntry} l))) (sym (left_of_none gs h))
  probe_lem gs (error e s) acc once h = absurd h
  probe_lem gs out_of_fuel acc once h = absurd h

  -- The page after a pull, from the page that the rest of the frontier gives.
  filled :
      (fuel left : ℕ) (gs : List Source) (acc : List ListEntry) (r : Pulled)
      → IsOnce gs
      → frontier_size gs < fuel
      → ((cs' : List Cursor) (gs' : List Source) (acc' : List ListEntry)
          → Frontier mapper list_dir root cs' gs'
          → IsOnce gs'
          → frontier_size gs' < fuel
          → fill_page list_dir fuel left (at cs') acc'
            ≡ page (acc' ++ take left (left_of gs')) (ltb left (length (left_of gs'))))
      → Delivers mapper list_dir root stem after start slashless gs r
      → (elim r as (λ x. Paged) [
        | entry e s ↦ fill_page list_dir fuel left s (acc ++ (e ∷ []))
        | none_left s ↦ page acc false
        | error e s ↦ page_error e
        | out_of_fuel ↦ page_out_of_fuel
      ])
        ≡ page (acc ++ take (suc left) (left_of gs)) (ltb (suc left) (length (left_of gs)))
  filled fuel left gs acc (entry e s) once enough ih
        (cs', gs', at_cs, valid, is, counts, above, less) =
      let once' = λ (k : Bytes). fewer (has_key k e) (once k) (counts (has_key k)) in
      let rest = left_of gs' in
      let shorter : ltb left (length rest) ≡ ltb (suc left) (suc (length rest)) = ground arith in
      ap (λ t. fill_page list_dir fuel left t (acc ++ (e ∷ []))) at_cs
      ∙ ih cs' gs' (acc ++ (e ∷ [])) valid once' (omega (arith, less, enough))
      ∙ ap₂ page (append_assoc acc (e ∷ []) (take left rest)) shorter
      ∙ ap (λ l. page (acc ++ take (suc left) l) (ltb (suc left) (length l)))
          (left_of_entry gs gs' e once counts above)
  filled fuel left gs acc (none_left s) once enough ih h =
      let none_there = left_of_none gs h in
      ap₂ page (sym (append-nil acc)) (sym (ltb_zero (suc left)))
      ∙ ap (λ l. page (acc ++ take (suc left) l) (ltb (suc left) (length {A = ListEntry} l)))
          (sym none_there)
  filled fuel left gs acc (error e s) once enough ih h = absurd h
  filled fuel left gs acc out_of_fuel once enough ih h = absurd h

  -- A page from a frontier takes what is left, up to the number of entries still wanted.
  pub fill_page_lem :
      (fuel left : ℕ) (cs : List Cursor) (gs : List Source) (acc : List ListEntry)
      → Frontier mapper list_dir root cs gs
      → IsOnce gs
      → frontier_size gs < fuel
      → fill_page list_dir fuel left (at cs) acc
        ≡ page (acc ++ take left (left_of gs)) (ltb left (length (left_of gs)))
  unfolding fill_page probe
  fill_page_lem fuel zero cs gs acc valid once enough =
      ap
        (λ r. elim r as (λ x. Paged) [
          | entry e s ↦ page acc true
          | none_left s ↦ page acc false
          | error e s ↦ page_error e
          | out_of_fuel ↦ page_out_of_fuel
        ])
        (pulled fuel cs)
      ∙ probe_lem gs (next_loop list_dir fuel (at cs)) acc once (
          next_loop-Delivers mapper list_dir root stem after start slashless fuel cs gs valid
            enough)
      ∙ ap (λ l. page l (ltb 0 (length (left_of gs)))) (sym (append-nil acc))
  fill_page_lem fuel (suc left) cs gs acc valid once enough =
      ap
        (λ r. elim r as (λ x. Paged) [
          | entry e s ↦ fill_page list_dir fuel left s (acc ++ (e ∷ []))
          | none_left s ↦ page acc false
          | error e s ↦ page_error e
          | out_of_fuel ↦ page_out_of_fuel
        ])
        (pulled fuel cs)
      ∙ filled fuel left gs acc (next_loop list_dir fuel (at cs)) once enough
          (λ cs' gs' acc' v o f. fill_page_lem fuel left cs' gs' acc' v o f)
          (next_loop-Delivers mapper list_dir root stem after start slashless fuel cs gs valid
            enough)

  -- The listing after its first pull.
  seeded :
      (fuel : ℕ) (l : DirListing)
      → list_dir start ≡ listed l
      → next_entry list_dir fuel (new start prefix after mapper)
        ≡ next_entry list_dir fuel (at (push_listing after l []))
  unfolding next_entry new
  seeded fuel l e =
      ap
        (λ x.
          elim (seed_listed list_dir
              (record (new start prefix after mapper) { start_seeded = true }) x)
            as (λ t. Pulled) [
              | returned e s ↦ entry e s
              | continued s ↦ next_loop list_dir fuel s
              | broken e s ↦ error e s
              | finished s ↦ none_left s
            ])
        e

  pub collect_seeded :
      (fuel n : ℕ) (l : DirListing)
      → list_dir start ≡ listed l
      → fill_page list_dir fuel (suc n) (new start prefix after mapper) []
        ≡ fill_page list_dir fuel (suc n) (at (push_listing after l [])) []
  unfolding fill_page
  collect_seeded fuel n l e =
      ap
        (λ r. elim r as (λ x. Paged) [
          | entry e s ↦ fill_page list_dir fuel n s (e ∷ [])
          | none_left s ↦ page [] false
          | error e s ↦ page_error e
          | out_of_fuel ↦ page_out_of_fuel
        ])
        (seeded fuel l e)
