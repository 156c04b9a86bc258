-- ===== src/Listing/Sorting.antt =====
-- Sorted and distinct lists of keys, and what sorting, filtering and cutting do to them
-- (the list operations of paginate in src/core/listing.rs).
use hdfs_s3_gateway.Prelude.{
  ℕ, zero, suc, ◌≡◌, refl, sym, subst, ◌≢◌, inl, inr, Bool, true, false, Bytes, ◌=?◌, =?_refl,
  cmp_refl, eq_of_cmp, cmp_swap, ◌≺◌, ≺_trans, key_le, Bool-cases, if◌then◌else◌, some, List, [],
  ◌∷◌, take, last?, select, All, arith,
}
use hdfs_s3_gateway.Listing.Paginate.{insert_sorted, sort_by, sort, dedup_after, dedup}

-- Strictly ascending.
abbrev pub Ascending : List Bytes → Type 0
Ascending [] = Unit
Ascending (x ∷ xs) = All (λ y. x ≺ y) xs × Ascending xs

-- Without repetition.
abbrev pub Distinct : List Bytes → Type 0
Distinct [] = Unit
Distinct (x ∷ xs) = All (λ y. x ≢ y) xs × Distinct xs

-- Ascending, with repetitions allowed.
abbrev pub Sorted : List Bytes → Type 0
Sorted [] = Unit
Sorted (x ∷ xs) = All (λ y. key_le x y ≡ true) xs × Sorted xs

-- A property of a conditional, from both branches.
pub if-elim {ℓ κ} :
    {A : Type ℓ} (C : A → Type κ) (b : Bool) (x y : A) → C x → C y → C (if b then x else y)
if-elim C true x y h k = h
if-elim C false x y h k = k

-- The same, where each branch knows its test.
pub if-cases {ℓ κ} :
    {A : Type ℓ} (C : A → Type κ) (b : Bool) (x y : A)
    → (b ≡ true → C x)
    → (b ≡ false → C y)
    → C (if b then x else y)
if-cases C true x y h k = h refl
if-cases C false x y h k = k refl

module _ {ℓ κ μ} {A : Type ℓ} {P : A → Type κ} {Q : A → Type μ} where
  pub All-map_to : ((x : A) → P x → Q x) → (xs : List A) → All P xs → All Q xs
  All-map_to f [] h = tt
  All-map_to f (x ∷ xs) h = (f x h.0, All-map_to f xs h.1)

module _ {ℓ κ} {A : Type ℓ} (P : A → Type κ) (p : A → Bool) where
  pub All-select : (xs : List A) → All P xs → All P (select p xs)
  All-select [] h = tt
  All-select (x ∷ xs) h =
      let rest = All-select xs h.1 in
      if-elim (All P) (p x) (x ∷ select p xs) (select p xs) (h.0, rest) rest

module _ {ℓ} (P : Bytes → Type ℓ) where
  pub All-insert_sorted :
      (x : Bytes) (l : List Bytes) → P x → All P l → All P (insert_sorted (λ k. k) x l)
  unfolding insert_sorted
  All-insert_sorted x [] h hl = (h, tt)
  All-insert_sorted x (y ∷ l) h hl =
      if-elim (All P) (key_le x y) (x ∷ y ∷ l) (y ∷ insert_sorted (λ k. k) x l) (h, hl)
        (hl.0, All-insert_sorted x l h hl.1)

  pub All-sort : (l : List Bytes) → All P l → All P (sort l)
  unfolding sort_by
  All-sort [] h = tt
  All-sort (x ∷ l) h = All-insert_sorted x (sort l) h.0 (All-sort l h.1)

  All-dedup_after : (x : Bytes) (l : List Bytes) → All P l → All P (dedup_after x l)
  unfolding dedup_after
  All-dedup_after x [] h = tt
  All-dedup_after x (y ∷ l) h =
      if-elim (All P) (x =? y) (dedup_after x l) (y ∷ dedup_after y l) (All-dedup_after x l h.1)
        (h.0, All-dedup_after y l h.1)

  pub All-dedup : (l : List Bytes) → All P l → All P (dedup l)
  unfolding dedup
  All-dedup [] h = tt
  All-dedup (x ∷ l) h = (h.0, All-dedup_after x l h.1)

  pub All-last : (l : List Bytes) (t : Bytes) → All P l → last? l ≡ some t → P t
  All-last [] t h e = absurd (ground arith)
  All-last (x ∷ []) t h e = subst P (ground arith) h.0
  All-last (x ∷ y ∷ l) t h e = All-last (y ∷ l) t h.1 e

  pub All-take : (n : ℕ) (l : List Bytes) → All P l → All P (take n l)
  All-take zero l h = tt
  All-take (suc n) [] h = tt
  All-take (suc n) (x ∷ l) h = (h.0, All-take n l h.1)

-- Order: totality, and what transitivity gives for `<=`.
pub key_le_of_lt : (x y : Bytes) → x ≺ y → key_le x y ≡ true
key_le_of_lt x y h = ground arith

pub key_le_trans : (x y z : Bytes) → key_le x y ≡ true → key_le y z ≡ true → key_le x z ≡ true
key_le_trans x y z h k = ground (arith, eq_of_cmp x y, eq_of_cmp y z, ≺_trans x y z)

pub key_le_total : (x y : Bytes) → key_le x y ≡ false → key_le y x ≡ true
key_le_total x y h = ground (arith, cmp_swap x y)

pub lt_of_key_le : (x y : Bytes) → x ≢ y → key_le x y ≡ true → x ≺ y
lt_of_key_le x y ne h = ground (arith, eq_of_cmp x y)

insert_sorted-Sorted : (x : Bytes) (l : List Bytes) → Sorted l → Sorted (insert_sorted (λ k. k) x l)
unfolding insert_sorted
insert_sorted-Sorted x [] h = (tt, tt)
insert_sorted-Sorted x (y ∷ l) h =
    if-cases Sorted (key_le x y) (x ∷ y ∷ l) (y ∷ insert_sorted (λ k. k) x l)
      (λ e. ((e, All-map_to (λ z. key_le_trans x y z e) l h.0), h))
      (λ e. (
        All-insert_sorted (λ z. key_le y z ≡ true) x l (key_le_total x y e) h.0,
        insert_sorted-Sorted x l h.1,
      ))

pub sort-Sorted : (l : List Bytes) → Sorted (sort l)
unfolding sort_by
sort-Sorted [] = tt
sort-Sorted (x ∷ l) = insert_sorted-Sorted x (sort l) (sort-Sorted l)

zip_lt :
    (x : Bytes) (l : List Bytes)
    → All (λ y. key_le x y ≡ true) l
    → All (λ y. x ≢ y) l
    → All (λ y. x ≺ y) l
zip_lt x [] h d = tt
zip_lt x (y ∷ l) h d = (lt_of_key_le x y d.0 h.0, zip_lt x l h.1 d.1)

-- A sorted list without repetitions is ascending, and conversely.
pub Sorted-Ascending : (l : List Bytes) → Sorted l → Distinct l → Ascending l
Sorted-Ascending [] h d = tt
Sorted-Ascending (x ∷ l) h d = (zip_lt x l h.0 d.0, Sorted-Ascending l h.1 d.1)

pub ne_of_lt : (x y : Bytes) → x ≺ y → x ≢ y
ne_of_lt x y h e = ground (arith, cmp_refl y, h, e)

pub Ascending-Distinct : (l : List Bytes) → Ascending l → Distinct l
Ascending-Distinct [] h = tt
Ascending-Distinct (x ∷ l) h = (All-map_to (ne_of_lt x) l h.0, Ascending-Distinct l h.1)

insert_sorted-Distinct :
    (x : Bytes) (l : List Bytes)
    → All (λ y. x ≢ y) l
    → Distinct l
    → Distinct (insert_sorted (λ k. k) x l)
unfolding insert_sorted
insert_sorted-Distinct x [] h d = (tt, tt)
insert_sorted-Distinct x (y ∷ l) h d =
    if-elim Distinct (key_le x y) (x ∷ y ∷ l) (y ∷ insert_sorted (λ k. k) x l) (h, d)
      (
        All-insert_sorted (λ z. y ≢ z) x l (λ e. h.0 (sym e)) d.0,
        insert_sorted-Distinct x l h.1 d.1,
      )

pub sort-Distinct : (l : List Bytes) → Distinct l → Distinct (sort l)
unfolding sort_by
sort-Distinct [] d = tt
sort-Distinct (x ∷ l) d =
    insert_sorted-Distinct x (sort l) (All-sort (λ y. x ≢ y) l d.0) (sort-Distinct l d.1)

pub sort-Ascending : (l : List Bytes) → Distinct l → Ascending (sort l)
sort-Ascending l d = Sorted-Ascending (sort l) (sort-Sorted l) (sort-Distinct l d)

-- `dedup` of a sorted list is ascending.
dedup_after-Ascending :
    (x : Bytes) (l : List Bytes)
    → All (λ y. key_le x y ≡ true) l
    → Sorted l
    → All (λ y. x ≺ y) (dedup_after x l) × Ascending (dedup_after x l)
unfolding dedup_after
dedup_after-Ascending x [] h s = (tt, tt)
dedup_after-Ascending x (y ∷ l) h s =
    if-cases (λ r. All (λ y. x ≺ y) r × Ascending r) (x =? y) (dedup_after x l)
      (y ∷ dedup_after y l) (λ e. dedup_after-Ascending x l h.1 s.1)
      (λ e.
        let below = lt_of_key_le x y (λ q. ground (arith, =?_refl y, q, e)) h.0 in
        let (above, ascending) = dedup_after-Ascending y l s.0 s.1 in
        (
          (below, All-map_to (λ z. ≺_trans x y z below) (dedup_after y l) above),
          (above, ascending),
        ))

pub dedup-Ascending : (l : List Bytes) → Sorted l → Ascending (dedup l)
unfolding dedup
dedup-Ascending [] h = tt
dedup-Ascending (x ∷ l) h = dedup_after-Ascending x l h.0 h.1

-- Sorting and filtering commute.
pub select_kept : (p : Bytes → Bool) (l : List Bytes) → All (λ k. p k ≡ true) l → select p l ≡ l
select_kept p [] h = refl
select_kept p (x ∷ l) h = ground (arith, select_kept p l h.1, h.0)

pub select_dropped :
    (p : Bytes → Bool) (l : List Bytes) → All (λ k. p k ≡ false) l → select p l ≡ []
select_dropped p [] h = refl
select_dropped p (x ∷ l) h = ground (arith, select_dropped p l h.1, h.0)

insert_sorted_first :
    (x : Bytes) (l : List Bytes)
    → All (λ y. key_le x y ≡ true) l
    → insert_sorted (λ k. k) x l ≡ x ∷ l
unfolding insert_sorted
insert_sorted_first x [] h = refl
insert_sorted_first x (y ∷ l) h = ground (arith, h.0)

select-insert_sorted :
    (p : Bytes → Bool) (x : Bytes) (l : List Bytes)
    → Sorted l
    → select p (insert_sorted (λ k. k) x l)
      ≡ (if p x then insert_sorted (λ k. k) x (select p l) else select p l)
unfolding insert_sorted
select-insert_sorted p x [] h = refl
select-insert_sorted p x (y ∷ l) h = elim (Bool-cases (key_le x y)) [
  | inl e ↦
      let le = All-map_to (λ z. key_le_trans x y z e) l h.0 in
      let first =
        insert_sorted_first x (select p (y ∷ l))
          (All-select (λ z. key_le x z ≡ true) p (y ∷ l) (e, le)) in
      ground (arith, first, e)
  | inr e ↦ ground (arith, select-insert_sorted p x l h.1, e)
]

pub sort-select : (p : Bytes → Bool) (l : List Bytes) → sort (select p l) ≡ select p (sort l)
unfolding sort_by
sort-select p [] = refl
sort-select p (x ∷ l) =
    ground (arith, sort-select p l, select-insert_sorted p x (sort l) (sort-Sorted l))
