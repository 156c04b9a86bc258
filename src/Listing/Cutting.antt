-- ===== src/Listing/Cutting.antt =====
-- Cutting a page off an ascending list, and resuming after its last key (the page set, the marker
-- and the next token of paginate in src/core/listing.rs).
use hdfs_s3_gateway.Prelude.{
  ℕ, zero, suc, ◌≡◌, refl, subst, ap, ◌∙◌, Bool, true, false, Bytes, =?_refl, =?_false, cmp_refl,
  cmp_swap, ◌≺◌, key_lt, if◌then◌else◌, some, List, [], ◌∷◌, ◌++◌, map, take, drop, last?, select,
  All, arith,
}
use hdfs_s3_gateway.Listing.Paginate.{contains}
use hdfs_s3_gateway.Listing.Sorting.{
  if-elim, Ascending, All-map_to, All-select, All-last, All-take, select_kept, ne_of_lt,
}

select-contains_skip :
    (x : Bytes) (page l : List Bytes)
    → All (λ y. x ≺ y) l
    → select (contains (x ∷ page)) l ≡ select (contains page) l
unfolding contains
select-contains_skip x page [] h = refl
select-contains_skip x page (y ∷ l) h =
    ground (arith, select-contains_skip x page l h.1, =?_false x y (ne_of_lt x y h.0))

contains_nothing : (l : List Bytes) → select (contains []) l ≡ []
unfolding contains
contains_nothing [] = refl
contains_nothing (x ∷ l) = contains_nothing l

-- The keys of an ascending list that are in its first `n` are its first `n`.
pub select-contains-take :
    (n : ℕ) (l : List Bytes) → Ascending l → select (contains (take n l)) l ≡ take n l
unfolding contains
select-contains-take zero l h = contains_nothing l
select-contains-take (suc n) [] h = refl
select-contains-take (suc n) (x ∷ l) h =
    ground (arith, select-contains-take n l h.1, select-contains_skip x (take n l) l h.0, =?_refl x)

pub select-Ascending : (p : Bytes → Bool) (l : List Bytes) → Ascending l → Ascending (select p l)
select-Ascending p [] h = tt
select-Ascending p (x ∷ l) h =
    let rest = select-Ascending p l h.1 in
    if-elim Ascending (p x) (x ∷ select p l) (select p l) (All-select (λ y. x ≺ y) p l h.0, rest)
      rest

key_lt_asym : (x y : Bytes) → x ≺ y → key_lt y x ≡ false
key_lt_asym x y h = ground (arith, cmp_swap x y)

after_first : (x : Bytes) (l : List Bytes) → All (λ y. x ≺ y) l → select (key_lt x) (x ∷ l) ≡ l
after_first x l h =
    let above = All-map_to {Q = λ y. key_lt x y ≡ true} (λ y e. ground (arith, e)) l h in
    ground (arith, cmp_refl x, select_kept (key_lt x) l above)

-- The keys after the last of the first `n` are the rest.
pub select_after_last :
    (n : ℕ) (l : List Bytes) (t : Bytes)
    → Ascending l
    → last? (take n l) ≡ some t
    → select (key_lt t) l ≡ drop n l
select_after_last zero l t h e = absurd (ground arith)
select_after_last (suc n) [] t h e = absurd (ground arith)
select_after_last (suc zero) (x ∷ l) t h e =
    subst (λ k. select (key_lt k) (x ∷ l) ≡ l) (ground arith) (after_first x l h.0)
select_after_last (suc (suc n)) (x ∷ []) t h e =
    subst (λ k. select (key_lt k) (x ∷ []) ≡ []) (ground arith) (after_first x [] h.0)
select_after_last (suc (suc n)) (x ∷ y ∷ l) t h e =
    let below =
      All-last (λ k. x ≺ k) (y ∷ take n l) t (All-take (λ k. x ≺ k) (suc n) (y ∷ l) h.0) e in
    let before = key_lt_asym x t below in
    let rest = select_after_last (suc n) (y ∷ l) t h.1 e in
    ap (λ b. if b then x ∷ select (key_lt t) (y ∷ l) else select (key_lt t) (y ∷ l)) before ∙ rest

-- A filter that implies another one absorbs it.
pub select_absorb :
    (p q : Bytes → Bool)
    → ((k : Bytes) → q k ≡ true → p k ≡ true)
    → (l : List Bytes) → select q (select p l) ≡ select q l
select_absorb p q h [] = refl
select_absorb p q h (x ∷ l) = ground (arith, select_absorb p q h l, h x)

pub select-append :
    (p : Bytes → Bool) (a b : List Bytes) → select p (a ++ b) ≡ select p a ++ select p b
select-append p [] b = refl
select-append p (x ∷ a) b = ground (arith, select-append p a b)

pub map-select {ℓ} :
    {A : Type ℓ} (f : A → Bytes) (p : Bytes → Bool) (l : List A)
    → map f (select (λ e. p (f e)) l) ≡ select p (map f l)
map-select f p [] = refl
map-select f p (x ∷ l) = ground (arith, map-select f p l)
