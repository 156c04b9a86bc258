-- ===== src/Listing/Walk.antt =====
-- A client that follows the continuation tokens of a listing (paginate of src/core/listing.rs, as
-- list_objects_v2 of src/s3/mod.rs answers one request after another).
use hdfs_s3_gateway.Prelude.{
  ℕ, zero, suc, ◌-◌, ◌≤◌, ◌<◌, ◌≡◌, refl, ap, ap₂, subst, ◌∙◌, sym, inl, inr, Bool, true, false,
  Bytes, ≺_trans, key_lt, ltb, Bool-cases, if◌then◌else◌, Option, none, some, List, [], ◌∷◌, ◌++◌,
  map, length, take, drop, last?, take-append-drop, take_all, select, All, arith,
}
use hdfs_s3_gateway.Listing.{ListEntry}
use hdfs_s3_gateway.Listing.Paginate.{Page, paginate}
use hdfs_s3_gateway.Listing.Sorting.{Ascending, Distinct, All-last, All-take, if-cases}
use hdfs_s3_gateway.Listing.Cutting.{select_after_last, select_absorb, select-Ascending}
use hdfs_s3_gateway.Listing.Whole.{listing_keys, listing_keys-Ascending}
use hdfs_s3_gateway.Listing.Pages.{
  page_keys, is_after, keys_after, select_everything, page_keys-paginate, paginate-IsToken,
}

-- The keys that a client collects: it asks for a page, and again with the page's token if it has
-- one, at most `fuel` times.
unfoldable pub collect :
    ℕ → List ListEntry → List Bytes → Bytes → Option Bytes → ℕ → Option Bytes → List Bytes
unfolding paginate page_keys
collect zero files dirs prefix delimiter max_keys marker = []
collect (suc fuel) files dirs prefix delimiter max_keys marker =
    let page = paginate files dirs prefix delimiter marker max_keys in
    elim page.next_token [
      | none ↦ page_keys page
      | some token ↦
          page_keys page ++ collect fuel files dirs prefix delimiter max_keys (some token)
    ]

selected : (p : Bytes → Bool) (l : List Bytes) → All (λ k. p k ≡ true) (select p l)
selected p [] = tt
selected p (x ∷ l) =
    let rest = selected p l in
    if-cases (All (λ k. p k ≡ true)) (p x) (x ∷ select p l) (select p l) (λ e. (e, rest))
      (λ e. rest)

is_after_trans :
    (marker : Option Bytes) (t k : Bytes)
    → is_after marker t ≡ true
    → key_lt t k ≡ true
    → is_after marker k ≡ true
is_after_trans none t k h e = refl
is_after_trans (some m) t k h e = ground (arith, ≺_trans m t k, h, e)

-- After a page's last key comes what the page left.
pub keys_after_token :
    (keys : List Bytes) (marker : Option Bytes) (n : ℕ) (t : Bytes)
    → Ascending keys
    → last? (take n (keys_after marker keys)) ≡ some t
    → keys_after (some t) keys ≡ drop n (keys_after marker keys)
keys_after_token keys marker n t h e =
    let after = keys_after marker keys in
    let t_after =
      All-last (λ k. is_after marker k ≡ true) (take n after) t
        (All-take (λ k. is_after marker k ≡ true) n after (selected (is_after marker) keys)) e in
    sym (select_absorb (is_after marker) (key_lt t) (λ k. is_after_trans marker t k t_after) keys)
    ∙ select_after_last n after t (select-Ascending (is_after marker) keys h) e

nil_of_length : (l : List Bytes) → length l ≤ 0 → l ≡ []
nil_of_length [] h = refl
nil_of_length (x ∷ l) h = absurd (omega arith)

lt_of_ltb : (a b : ℕ) → ltb a b ≡ true → a < b
lt_of_ltb a b h = ground (arith, h)

le_of_ltb : (a b : ℕ) → ltb a b ≡ false → b ≤ a
le_of_ltb a b h = ground (arith, h)

length-drop : (n : ℕ) (l : List Bytes) → length (drop n l) ≡ length l - n
length-drop zero l = omega arith
length-drop (suc n) [] = omega arith
length-drop (suc n) (x ∷ l) = omega (arith, length-drop n l)

last_some : (x : Bytes) (l : List Bytes) → (t : Bytes) × (last? (x ∷ l) ≡ some t)
last_some x [] = (x, refl)
last_some x (y ∷ l) = last_some y l

last_of_some :
    (n : ℕ) (l : List Bytes) → 1 ≤ n → 1 ≤ length l → (t : Bytes) × (last? (take n l) ≡ some t)
last_of_some zero l h k = absurd (omega arith)
last_of_some (suc n) [] h k = absurd (omega arith)
last_of_some (suc n) (x ∷ l) h k = last_some x (take n l)

module _ (files : List ListEntry) (dirs : List Bytes) (prefix : Bytes) (delimiter : Option Bytes)
    (distinct : Distinct (map (λ e. e.key) files)) (max_keys : ℕ) (nonzero : 1 ≤ max_keys) where
  abbrev keys : List Bytes
  keys = listing_keys files dirs prefix delimiter

  abbrev page_at : Option Bytes → Page
  page_at marker = paginate files dirs prefix delimiter marker max_keys

  abbrev continue : ℕ → Option Bytes → Option Bytes → List Bytes
  continue fuel marker next = elim next [
    | none ↦ page_keys (page_at marker)
    | some token ↦
        page_keys (page_at marker) ++ collect fuel files dirs prefix delimiter max_keys (some token)
  ]

  collect-suc :
      (fuel : ℕ) (marker next : Option Bytes)
      → (page_at marker).next_token ≡ next
      → collect (suc fuel) files dirs prefix delimiter max_keys marker ≡ continue fuel marker next
  unfolding collect
  collect-suc fuel marker next e = ap (continue fuel marker) e

  next_page :
      (marker : Option Bytes)
      → ltb max_keys (length (keys_after marker keys)) ≡ true
      → (t : Bytes) × ((page_at marker).next_token ≡ some t)
        × (last? (take max_keys (keys_after marker keys)) ≡ some t)
  next_page marker more =
      let after = keys_after marker keys in
      let (t, last) =
        last_of_some max_keys after nonzero
          (omega (arith, lt_of_ltb max_keys (length after) more)) in
      let next = (paginate-IsToken files dirs prefix delimiter marker max_keys nonzero).1 in
      (t, next ∙ ap (λ b. if b then last? (take max_keys after) else none) more ∙ last, last)

  -- With enough turns for the keys left, the client gets exactly these, in order and once each.
  collect-keys_after :
      (fuel : ℕ) (marker : Option Bytes)
      → length (keys_after marker keys) ≤ fuel
      → collect fuel files dirs prefix delimiter max_keys marker ≡ keys_after marker keys
  collect-keys_after zero marker h =
      unfold collect in sym (nil_of_length (keys_after marker keys) h)
  collect-keys_after (suc fuel) marker h =
      let after = keys_after marker keys in
      let page = page_keys-paginate files dirs prefix delimiter distinct marker max_keys in
      let next = (paginate-IsToken files dirs prefix delimiter marker max_keys nonzero).1 in
      elim (Bool-cases (ltb max_keys (length after))) [
        | inl more ↦
            let (t, token, last) = next_page marker more in
            let rest =
              keys_after_token keys marker max_keys t
                (listing_keys-Ascending files dirs prefix delimiter distinct) last in
            let left = ap length rest ∙ length-drop max_keys after in
            collect-suc fuel marker (some t) token
            ∙ ap₂ (λ a b. a ++ b) page
                (collect-keys_after fuel (some t) (omega (arith, left, h, nonzero)) ∙ rest)
            ∙ take-append-drop max_keys after
        | inr done ↦
            collect-suc fuel marker none
              (next ∙ ap (λ b. if b then last? (take max_keys after) else none) done)
            ∙ page
            ∙ take_all max_keys after (le_of_ltb max_keys (length after) done)
      ]

-- A client that follows the continuation tokens gets the whole listing, every key once and in
-- order, when the files' keys are distinct, a page may hold at least one key and the client asks at
-- least as often as there are keys.
pub collect_complete :
    (files : List ListEntry) (dirs : List Bytes) (prefix : Bytes) (delimiter : Option Bytes)
    (max_keys fuel : ℕ)
    → Distinct (map (λ e. e.key) files)
    → 1 ≤ max_keys
    → length (listing_keys files dirs prefix delimiter) ≤ fuel
    → collect fuel files dirs prefix delimiter max_keys none
      ≡ listing_keys files dirs prefix delimiter
collect_complete files dirs prefix delimiter max_keys fuel distinct nonzero enough =
    let all = select_everything (listing_keys files dirs prefix delimiter) in
    collect-keys_after files dirs prefix delimiter distinct max_keys nonzero fuel none
      (subst (λ l. length l ≤ fuel) (sym all) enough)
    ∙ all
