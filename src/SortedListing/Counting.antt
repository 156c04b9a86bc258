-- ===== src/SortedListing/Counting.antt =====
-- Lists of entries up to their order: counts of the entries that pass a test, and lists ordered by
-- key, which their counts determine.
use hdfs_s3_gateway.Prelude.{
  ℕ, suc, ◌+◌, ◌≤◌, ◌≡◌, refl, sym, ap, ap₂, subst, ◌∙◌, inl, inr, Bool, true, ◌&&◌, Bytes, ◌=?◌,
  =?_iff, =?_refl, key_le, eq_of_cmp, cmp_swap, Bool-cases, ◌==◌, if◌then◌else◌, List, [], ◌∷◌,
  ◌++◌, select, All, arith,
}
use hdfs_s3_gateway.Listing.{ListEntry}
use hdfs_s3_gateway.Listing.Paginate.{insert_sorted, sort_by}
use hdfs_s3_gateway.Listing.Sorting.{if-elim, if-cases, All-map_to, key_le_trans, key_le_total}

module _ {ℓ} {A : Type ℓ} where
  abbrev pub count : (A → Bool) → List A → ℕ
  count p [] = 0
  count p (x ∷ xs) = let rest = count p xs in if p x then suc rest else rest

  pub count-append : (p : A → Bool) (a b : List A) → count p (a ++ b) ≡ count p a + count p b
  count-append p [] b = omega arith
  count-append p (x ∷ a) b = ground (arith, count-append p a b)

  pub count-select :
      (p q : A → Bool) (l : List A) → count p (select q l) ≡ count (λ x. q x && p x) l
  count-select p q [] = refl
  count-select p q (x ∷ l) = ground (arith, count-select p q l)

  pub count_mono :
      (p q : A → Bool) → ((x : A) → p x ≡ true → q x ≡ true) → (l : List A) → count p l ≤ count q l
  count_mono p q h [] = omega arith
  count_mono p q h (x ∷ l) = ground (arith, count_mono p q h l, h x)

  -- The list is ordered by key.
  module _ (key_of : A → Bytes) where
    abbrev pub Ordered : List A → Type 0
    Ordered [] = Unit
    Ordered (x ∷ xs) = All (λ y. key_le (key_of x) (key_of y) ≡ true) xs × Ordered xs

    pub count-insert_sorted :
        (p : A → Bool) (x : A) (l : List A) → count p (insert_sorted key_of x l) ≡ count p (x ∷ l)
    unfolding insert_sorted
    count-insert_sorted p x [] = refl
    count-insert_sorted p x (y ∷ l) = ground (arith, count-insert_sorted p x l)

    pub count-sort_by : (p : A → Bool) (l : List A) → count p (sort_by key_of l) ≡ count p l
    unfolding sort_by
    count-sort_by p [] = refl
    count-sort_by p (x ∷ l) =
        ground (arith, count-insert_sorted p x (sort_by key_of l), count-sort_by p l)

    pub All-insert_key {κ} :
        (P : A → Type κ) (x : A) (l : List A) → P x → All P l → All P (insert_sorted key_of x l)
    unfolding insert_sorted
    All-insert_key P x [] h hl = (h, tt)
    All-insert_key P x (y ∷ l) h hl =
        if-elim (All P) (key_le (key_of x) (key_of y)) (x ∷ y ∷ l) (y ∷ insert_sorted key_of x l)
          (h, hl) (hl.0, All-insert_key P x l h hl.1)

    pub insert_sorted-Ordered :
        (x : A) (l : List A) → Ordered l → Ordered (insert_sorted key_of x l)
    unfolding insert_sorted
    insert_sorted-Ordered x [] h = (tt, tt)
    insert_sorted-Ordered x (y ∷ l) h =
        if-cases Ordered (key_le (key_of x) (key_of y)) (x ∷ y ∷ l) (y ∷ insert_sorted key_of x l)
          (λ e. ((e, All-map_to (λ z. key_le_trans (key_of x) (key_of y) (key_of z) e) l h.0), h))
          (λ e. (
            All-insert_key (λ z. key_le (key_of y) (key_of z) ≡ true) x l
                (key_le_total (key_of x) (key_of y) e) h.0,
            insert_sorted-Ordered x l h.1,
          ))

    pub sort_by-Ordered : (l : List A) → Ordered (sort_by key_of l)
    unfolding sort_by
    sort_by-Ordered [] = tt
    sort_by-Ordered (x ∷ l) = insert_sorted-Ordered x (sort_by key_of l) (sort_by-Ordered l)

abbrev same_entry : ListEntry → ListEntry → Bool
same_entry x y = x.key =? y.key && (x.size == y.size && x.modification_time == y.modification_time)

same_entry_refl : (x : ListEntry) → same_entry x x ≡ true
same_entry_refl x = ground (arith, =?_refl x.key)

same_entry_eq : (x y : ListEntry) → same_entry x y ≡ true → x ≡ y
same_entry_eq x y h = ground (arith, =?_iff x.key y.key)

abbrev pub has_key : Bytes → ListEntry → Bool
has_key k e = e.key =? k

-- An entry that is counted is above what all are above.
count_above :
    (k : Bytes) (x : ListEntry) (l : List ListEntry)
    → All (λ y. key_le k y.key ≡ true) l
    → 1 ≤ count (same_entry x) l
    → key_le k x.key ≡ true
count_above k x [] h c = absurd (omega arith)
count_above k x (y ∷ l) h c = elim (Bool-cases (same_entry x y)) [
  | inl e ↦ subst (λ z. key_le k z.key ≡ true) (sym (same_entry_eq x y e)) h.0
  | inr e ↦ count_above k x l h.1 (ground (arith, c, e))
]

has_key_of_same : (x y : ListEntry) → same_entry x y ≡ true → has_key x.key y ≡ true
has_key_of_same x y h = ground (arith, =?_iff x.key y.key, =?_refl x.key)

key_le_antisym : (x y : Bytes) → key_le x y ≡ true → key_le y x ≡ true → x ≡ y
key_le_antisym x y h k = eq_of_cmp x y (ground (arith, cmp_swap x y))

-- Two ordered lists with the same counts, in which no key repeats.
abbrev ByKey : List ListEntry → Type 0
ByKey = Ordered (λ e. e.key)

heads_agree :
    (x y : ListEntry) (a b : List ListEntry)
    → ByKey (x ∷ a)
    → ByKey (y ∷ b)
    → ((p : ListEntry → Bool) → count p (x ∷ a) ≡ count p (y ∷ b))
    → count (has_key x.key) (x ∷ a) ≤ 1
    → x ≡ y
heads_agree x y a b oa ob same once = elim (Bool-cases (same_entry x y)) [
  | inl e ↦ same_entry_eq x y e
  | inr e ↦ elim (Bool-cases (same_entry y x)) [
    | inl f ↦ sym (same_entry_eq y x f)
    | inr f ↦
        let x_in : 1 ≤ count (same_entry x) b =
          ground (arith, e, same (same_entry x), same_entry_refl x) in
        let y_in : 1 ≤ count (same_entry y) a =
          ground (arith, f, same (same_entry y), same_entry_refl y) in
        let keys =
          key_le_antisym x.key y.key (count_above x.key y a oa.0 y_in)
            (count_above y.key x b ob.0 x_in) in
        let twice = count_mono (same_entry x) (has_key x.key) (has_key_of_same x) b in
        let first = ap (◌=? x.key) (sym keys) ∙ =?_refl x.key in
        absurd (ground (arith, x_in, twice, same (has_key x.key), once, first))
  ]
]

pub Ordered-ext :
    (a b : List ListEntry)
    → Ordered (λ e. e.key) a
    → Ordered (λ e. e.key) b
    → ((p : ListEntry → Bool) → count p a ≡ count p b)
    → ((k : Bytes) → count (has_key k) a ≤ 1)
    → a ≡ b
Ordered-ext [] [] oa ob same once = refl
Ordered-ext [] (y ∷ b) oa ob same once = absurd (omega (arith, same (λ e. true)))
Ordered-ext (x ∷ a) [] oa ob same once = absurd (omega (arith, same (λ e. true)))
Ordered-ext (x ∷ a) (y ∷ b) oa ob same once =
    let heads = heads_agree x y a b oa ob same (once x.key) in
    ap₂ ◌∷◌ heads (
      Ordered-ext a b oa.1 ob.1 (λ p. ground (arith, same p, ap p heads))
        (λ k. ground (arith, once k)))

pub All-sort_by {ℓ κ} :
    {A : Type ℓ} (key_of : A → Bytes) (P : A → Type κ) (l : List A)
    → All P l
    → All P (sort_by key_of l)
unfolding sort_by
All-sort_by key_of P [] h = tt
All-sort_by key_of P (x ∷ l) h =
    All-insert_key key_of P x (sort_by key_of l) h.0 (All-sort_by key_of P l h.1)

pub nil_of_count {ℓ} : {A : Type ℓ} (l : List A) → count (λ x. true) l ≡ 0 → l ≡ []
nil_of_count [] h = refl
nil_of_count (x ∷ l) h = absurd (omega arith)
