-- ===== src/SortedListing/Tracking.antt =====
-- Cursors of the heap and sources of the frontier, one for one (Cursor, push and advance of
-- src/s3/sorted_listing.rs).
use hdfs_s3_gateway.Prelude.{
  ℕ, zero, suc, ◌+◌, ◌≡◌, refl, sym, ap, ap₂, subst, ◌∙◌, Bool, true, false, Bytes, lit, cmp_bytes,
  cmp_swap, Ordering, ltb, if◌then◌else◌, List, [], ◌∷◌, ◌++◌, length, drop, All, arith,
}
use hdfs_s3_gateway.Path.{PathMapper}
use hdfs_s3_gateway.Listing.Compare.{cmp_dir_keys-eq-cmp_bytes, cmp_file_dir-eq-cmp_bytes}
use hdfs_s3_gateway.Listing.Paginate.{insert_sorted}
use hdfs_s3_gateway.SortedListing.{
  Listed, Cursor, get_or, no_entry, len, front, advance, cmp_cursor, push, push_advanced, push_from,
}
use hdfs_s3_gateway.SortedListing.Tree.{leaf, branch, dir_keys, ShowsAll}
use hdfs_s3_gateway.SortedListing.Frontier.{
  Source, file_source, dir_source, source_key, push_source, IsSource, IsRest,
}

pub get_or-drop {ℓ} :
    {A : Type ℓ} (l : List A) (i : ℕ) (x : A) (xs : List A) (d : A)
    → drop i l ≡ x ∷ xs
    → get_or l i d ≡ x
get_or-drop [] zero x xs d h = absurd (ground (arith, h))
get_or-drop [] (suc i) x xs d h = absurd (ground (arith, h))
get_or-drop (y ∷ l) zero x xs d h = ground (arith, h)
get_or-drop (y ∷ l) (suc i) x xs d h = get_or-drop l i x xs d h

plus_one : (n : ℕ) → n + 1 ≡ suc n
plus_one n = omega arith

drop-suc {ℓ} :
    {A : Type ℓ} (l : List A) (i : ℕ) (x : A) (xs : List A)
    → drop i l ≡ x ∷ xs
    → drop (suc i) l ≡ xs
drop-suc [] zero x xs h = absurd (ground (arith, h))
drop-suc [] (suc i) x xs h = absurd (ground (arith, h))
drop-suc (y ∷ l) zero x xs h = ground (arith, h)
drop-suc (y ∷ l) (suc i) x xs h = drop-suc l i x xs h

pub drop-next {ℓ} :
    {A : Type ℓ} (l : List A) (i : ℕ) (x : A) (xs : List A)
    → drop i l ≡ x ∷ xs
    → drop (i + 1) l ≡ xs
drop-next l i x xs h = ap (λ n. drop n l) (plus_one i) ∙ drop-suc l i x xs h

abbrev is_cons {ℓ} : {A : Type ℓ} → List A → Bool
is_cons [] = false
is_cons (x ∷ xs) = true

ltb-length {ℓ} : {A : Type ℓ} (l : List A) (i : ℕ) → ltb i (length l) ≡ is_cons (drop i l)
ltb-length [] zero = refl
ltb-length [] (suc i) = ground arith
ltb-length (x ∷ l) zero = ground arith
ltb-length (x ∷ l) (suc i) = ground (arith, ltb-length l i)

-- The output key in front of a cursor.
abbrev output_key : Cursor → Bytes
output_key c = if c.files then front c else front c ++ lit "/"

cmp_cursor_lem : (c d : Cursor) → cmp_cursor c d ≡ cmp_bytes (output_key c) (output_key d)
unfolding cmp_cursor
cmp_cursor_lem c d = ground (
  arith,
  cmp_dir_keys-eq-cmp_bytes (front c) (front d),
  cmp_file_dir-eq-cmp_bytes (front c) (front d),
  cmp_file_dir-eq-cmp_bytes (front d) (front c),
  cmp_swap (front d) (front c ++ lit "/"),
)

module _ (mapper : PathMapper) (list_dir : Bytes → Listed) where
  -- The cursor stands at what the source holds.
  abbrev pub Tracks : Cursor → Source → Type 0
  Tracks c (file_source fs) = (c.files ≡ true) × (drop c.idx c.listing.files ≡ fs)
  Tracks c (dir_source base bs) =
      (c.files ≡ false) × (drop c.idx c.listing.dirs ≡ dir_keys bs) × ShowsAll mapper list_dir bs

  abbrev pub TracksAll : List Cursor → List Source → Type 0
  TracksAll [] [] = Unit
  TracksAll [] (s ∷ gs) = ⊥
  TracksAll (c ∷ cs) [] = ⊥
  TracksAll (c ∷ cs) (s ∷ gs) = Tracks c s × TracksAll cs gs

  -- Both branches of an insertion, by the comparison that it makes.
  inserted :
      (o : Ordering) (cs cs' : List Cursor) (gs gs' : List Source)
      → TracksAll cs gs
      → TracksAll cs' gs'
      → TracksAll
          (elim o [ Ordering.gt ↦ cs' | Ordering.lt ↦ cs | Ordering.eq ↦ cs ])
          (if (elim o [ Ordering.gt ↦ false | _ ↦ true ]) then gs else gs')
  inserted Ordering.lt cs cs' gs gs' h k = h
  inserted Ordering.eq cs cs' gs gs' h k = h
  inserted Ordering.gt cs cs' gs gs' h k = k

  module _ (root : Bytes) where
    output_key_lem :
        (c : Cursor) (s : Source) → Tracks c s → IsSource root s → output_key c ≡ source_key s
    unfolding front
    output_key_lem c (file_source []) t h = absurd h
    output_key_lem c (file_source (e ∷ fs)) t h =
        ground (arith, t.0, get_or-drop c.listing.files c.idx e fs no_entry t.1)
    output_key_lem c (dir_source base leaf) t h = absurd h
    output_key_lem c (dir_source base (branch k u bs)) t h =
        ground (arith, t.0, get_or-drop c.listing.dirs c.idx k (dir_keys bs) [] t.1)

    -- The heap and the frontier insert at the same place.
    push-TracksAll :
        (c : Cursor) (s : Source) (cs : List Cursor) (gs : List Source)
        → Tracks c s
        → IsSource root s
        → TracksAll cs gs
        → All (IsSource root) gs
        → TracksAll (push c cs) (insert_sorted source_key s gs)
    unfolding push insert_sorted
    push-TracksAll c s [] [] t h ts hs = (t, tt)
    push-TracksAll c s [] (g ∷ gs) t h ts hs = absurd ts
    push-TracksAll c s (d ∷ cs) [] t h ts hs = absurd ts
    push-TracksAll c s (d ∷ cs) (g ∷ gs) t h ts hs =
        let compared =
          cmp_cursor_lem c d
          ∙ ap₂ cmp_bytes (output_key_lem c s t h) (output_key_lem d g ts.0 hs.0) in
        let rest = push-TracksAll c s cs gs t h ts.1 hs.1 in
        subst
          (λ o.
            TracksAll
              (elim o [
                | Ordering.gt ↦ d ∷ push c cs
                | Ordering.lt ↦ c ∷ d ∷ cs
                | Ordering.eq ↦ c ∷ d ∷ cs
              ])
              (insert_sorted source_key s (g ∷ gs)))
          (sym compared)
          (inserted (cmp_bytes (source_key s) (source_key g)) (c ∷ d ∷ cs) (d ∷ push c cs)
            (s ∷ g ∷ gs) (g ∷ insert_sorted source_key s gs) (t, ts) (ts.0, rest))

  -- Whether something is left.
  abbrev is_left : Source → Bool
  is_left (file_source fs) = is_cons fs
  is_left (dir_source base bs) = is_cons (dir_keys bs)

  left_lem : (c : Cursor) (s : Source) → Tracks c s → ltb c.idx (len c) ≡ is_left s
  unfolding len
  left_lem c (file_source fs) t =
      ground (arith, t.0, ltb-length c.listing.files c.idx, ap is_cons t.1)
  left_lem c (dir_source base bs) t =
      ground (arith, t.0, ltb-length c.listing.dirs c.idx, ap is_cons t.1)

  module _ (root : Bytes) where
    push_left :
        (b : Bool) (c : Cursor) (s : Source) (cs : List Cursor) (gs : List Source)
        → b ≡ is_left s
        → Tracks c s
        → IsRest root s
        → TracksAll cs gs
        → All (IsSource root) gs
        → TracksAll (if b then push c cs else cs) (push_source s gs)
    push_left true c (file_source []) cs gs e t h ts hs = absurd (ground (arith, e))
    push_left false c (file_source []) cs gs e t h ts hs = ts
    push_left true c (file_source (x ∷ fs)) cs gs e t h ts hs =
        push-TracksAll root c (file_source (x ∷ fs)) cs gs t h ts hs
    push_left false c (file_source (x ∷ fs)) cs gs e t h ts hs = absurd (ground (arith, e))
    push_left true c (dir_source base leaf) cs gs e t h ts hs = absurd (ground (arith, e))
    push_left false c (dir_source base leaf) cs gs e t h ts hs = ts
    push_left true c (dir_source base (branch k u bs)) cs gs e t h ts hs =
        push-TracksAll root c (dir_source base (branch k u bs)) cs gs t h ts hs
    push_left false c (dir_source base (branch k u bs)) cs gs e t h ts hs =
        absurd (ground (arith, e))

    -- A cursor that has anything left is pushed.
    pub push_from-TracksAll :
        (c : Cursor) (s : Source) (cs : List Cursor) (gs : List Source)
        → Tracks c s
        → IsRest root s
        → TracksAll cs gs
        → All (IsSource root) gs
        → TracksAll (push_from c cs) (push_source s gs)
    unfolding push_from
    push_from-TracksAll c s cs gs t h ts hs =
        push_left (ltb c.idx (len c)) c s cs gs (left_lem c s t) t h ts hs

    -- After an advance the cursor stands at the rest, if there is one.
    pub push_advanced-TracksAll :
        (c : Cursor) (s : Source) (cs : List Cursor) (gs : List Source)
        → Tracks (record c { idx = c.idx + 1 }) s
        → IsRest root s
        → TracksAll cs gs
        → All (IsSource root) gs
        → TracksAll (push_advanced c cs) (push_source s gs)
    unfolding push_advanced advance
    push_advanced-TracksAll c s cs gs t h ts hs =
        let next : Cursor = record c { idx = c.idx + 1 } in
        push_left (ltb (c.idx + 1) (len c)) next s cs gs (left_lem next s t) t h ts hs
