-- ===== src/Listing/Slash/Seek.antt =====
-- Finding the prefix range and the marker's place in a list that ascends by its output keys
-- (partition_point and the two inner loops of paginate_slash in src/core/listing.rs).
use hdfs_s3_gateway.Prelude.{
  ◌≡◌, refl, Bool, true, false, not, ◌&&◌, ◌||◌, Bool-cases, inl, inr, Bytes, starts_with,
  cmp_bytes, cmp_swap, ◌≺◌, ≺_trans, key_lt, key_le, max, if◌then◌else◌, List, [], ◌∷◌, map, drop,
  select, All, arith,
}
use hdfs_s3_gateway.Listing.Sorting.{Ascending, if-elim, if-cases}
use hdfs_s3_gateway.SortedListing.{partition_point}

-- The keys that start with a prefix are those between two others that do.
pub starts_with_between :
    (p x y : Bytes) → p ≺ x → x ≺ y → starts_with y p ≡ true → starts_with x p ≡ true
unfolding cmp_bytes starts_with
starts_with_between [] x y h k e = refl
starts_with_between (a ∷ p) [] y h k e = absurd (ground (arith, h))
starts_with_between (a ∷ p) (b ∷ x) [] h k e = absurd (ground (arith, k))
starts_with_between (a ∷ p) (b ∷ x) (c ∷ y) h k e =
    ground (arith, starts_with_between p x y, h, k, e)

pub starts_with-not_before : (k p : Bytes) → starts_with k p ≡ true → key_lt k p ≡ false
unfolding cmp_bytes starts_with
starts_with-not_before [] [] h = refl
starts_with-not_before (a ∷ k) [] h = refl
starts_with-not_before [] (b ∷ p) h = absurd (ground (arith, h))
starts_with-not_before (a ∷ k) (b ∷ p) h = ground (arith, starts_with-not_before k p, h)

module _ {A : Type 0} where
  pub select_ext : (p q : A → Bool) → ((x : A) → p x ≡ q x) → (l : List A) → select p l ≡ select q l
  select_ext p q h [] = refl
  select_ext p q h (x ∷ l) = ground (arith, h x, select_ext p q h l)

  pub select-select :
      (p q : A → Bool) (l : List A) → select p (select q l) ≡ select (λ x. q x && p x) l
  select-select p q [] = refl
  select-select p q (x ∷ l) = ground (arith, select-select p q l)

-- A test on keys that holds up to some key and not from there on.
abbrev pub IsDownward : (Bytes → Bool) → Type 0
IsDownward r = (x y : Bytes) → x ≺ y → r x ≡ false → r y ≡ false

pub key_lt-IsDownward : (m : Bytes) → IsDownward (λ k. key_lt k m)
key_lt-IsDownward m x y h e = ground (arith, ≺_trans x y m, h, e)

pub key_le-IsDownward : (m : Bytes) → IsDownward (λ k. key_le k m)
key_le-IsDownward m x y h e = ground (arith, cmp_swap x m, cmp_swap y m, ≺_trans m x y, h, e)

module _ {A : Type 0} (key : A → Bytes) where
  All-above :
      (r : Bytes → Bool)
      → IsDownward r
      → (x : Bytes) → r x ≡ false
      → (l : List A) → All (λ y. x ≺ y) (map key l)
      → (select (λ y. not (r (key y))) l ≡ l) × (partition_point (λ y. r (key y)) l ≡ 0)
  unfolding partition_point
  All-above r down x e [] h = (refl, refl)
  All-above r down x e (y ∷ l) h =
      let off = down x (key y) h.0 e in
      let (kept, first) = All-above r down x e l h.1 in
      (ground (arith, off, kept), ground (arith, off))

  -- What is left behind the partition point is what the test does not hold of.
  pub drop-partition_point :
      (r : Bytes → Bool)
      → IsDownward r
      → (l : List A) → Ascending (map key l)
      → drop (partition_point (λ y. r (key y)) l) l ≡ select (λ y. not (r (key y))) l
  unfolding partition_point
  drop-partition_point r down [] h = refl
  drop-partition_point r down (x ∷ l) h = elim (Bool-cases (r (key x))) [
    | inl e ↦ ground (arith, e, drop-partition_point r down l h.1)
    | inr e ↦ ground (arith, e, All-above r down (key x) e l h.0)
  ]

  -- The later of two partition points is that of both tests.
  pub max-partition_point :
      (r s : Bytes → Bool)
      → IsDownward r
      → IsDownward s
      → (l : List A) → Ascending (map key l)
      → max (partition_point (λ y. r (key y)) l) (partition_point (λ y. s (key y)) l)
        ≡ partition_point (λ y. r (key y) || s (key y)) l
  unfolding partition_point
  max-partition_point r s dr ds [] h = omega arith
  max-partition_point r s dr ds (x ∷ l) h =
      let rest = max-partition_point r s dr ds l h.1 in
      elim (Bool-cases (r (key x))) [
        | inl e ↦ elim (Bool-cases (s (key x))) [
          | inl f ↦ ground (arith, e, f, rest)
          | inr f ↦ ground (arith, e, f, rest, All-above s ds (key x) f l h.0)
        ]
        | inr e ↦ elim (Bool-cases (s (key x))) [
          | inl f ↦ ground (arith, e, f, rest, All-above r dr (key x) e l h.0)
          | inr f ↦ ground (arith, e, f)
        ]
      ]

  -- The inner loop: up to the first key of the prefix range, or to the end where there is none.
  unfoldable pub skip : Bytes → List A → List A
  skip prefix [] = []
  skip prefix (x ∷ l) =
      let rest = skip prefix l in
      if starts_with (key x) prefix then x ∷ l else if key_lt prefix (key x) then [] else rest

  abbrev pub in_range : Bytes → A → Bool
  in_range prefix x = starts_with (key x) prefix

  -- Nothing is left, or the first key is in the range.
  abbrev pub IsHeaded : Bytes → List A → Type 0
  IsHeaded prefix [] = Unit
  IsHeaded prefix (x ∷ l) = in_range prefix x ≡ true

  pub skip-IsHeaded : (prefix : Bytes) (l : List A) → IsHeaded prefix (skip prefix l)
  unfolding skip
  skip-IsHeaded prefix [] = tt
  skip-IsHeaded prefix (x ∷ l) =
      if-cases (IsHeaded prefix) (starts_with (key x) prefix) (x ∷ l)
        (if key_lt prefix (key x) then [] else skip prefix l) (λ e. e)
        (λ e.
          if-elim (IsHeaded prefix) (key_lt prefix (key x)) [] (skip prefix l) tt
            (skip-IsHeaded prefix l))

  pub skip-Ascending :
      (prefix : Bytes) (l : List A) → Ascending (map key l) → Ascending (map key (skip prefix l))
  unfolding skip
  skip-Ascending prefix [] h = tt
  skip-Ascending prefix (x ∷ l) h =
      if-elim (λ r. Ascending (map key r)) (starts_with (key x) prefix) (x ∷ l)
        (if key_lt prefix (key x) then [] else skip prefix l) h
        (if-elim (λ r. Ascending (map key r)) (key_lt prefix (key x)) [] (skip prefix l) tt
          (skip-Ascending prefix l h.1))

  beyond :
      (prefix x : Bytes)
      → prefix ≺ x
      → starts_with x prefix ≡ false
      → (l : List A) → All (λ y. x ≺ y) (map key l)
      → select (in_range prefix) l ≡ []
  beyond prefix x above out [] h = refl
  beyond prefix x above out (y ∷ l) h =
      ground (
        arith,
        starts_with_between prefix x (key y) above h.0,
        out,
        beyond prefix x above out l h.1,
      )

  -- It loses nothing of the range.
  pub select-skip :
      (prefix : Bytes) (l : List A)
      → Ascending (map key l)
      → select (in_range prefix) (skip prefix l) ≡ select (in_range prefix) l
  unfolding skip
  select-skip prefix [] h = refl
  select-skip prefix (x ∷ l) h = elim (Bool-cases (starts_with (key x) prefix)) [
    | inl e ↦ ground (arith, e)
    | inr e ↦ elim (Bool-cases (key_lt prefix (key x))) [
      | inl f ↦
          let above : prefix ≺ key x = ground (arith, f) in
          ground (arith, e, f, beyond prefix (key x) above e l h.0)
      | inr f ↦ ground (arith, e, f, select-skip prefix l h.1)
    ]
  ]
