-- ===== src/Cache/Entries.antt =====
-- The entries of the cache as a list: their keys are distinct, and their weights add up.
use mathlib.Core.List.{lookup}
use hdfs_s3_gateway.Prelude.{
  ℕ, suc, ◌+◌, ◌-◌, ◌≡◌, ◌≢◌, refl, none, some, List, [], ◌∷◌, length, last?, arith,
}
use hdfs_s3_gateway.Cache.{Entry}
use hdfs_s3_gateway.Cache.LruCache.{drop_last, without}

abbrev pub total : {K V : Type 0} → List (K × Entry V) → ℕ
total [] = 0
total ((k, e) ∷ l) = e.weight + total l

module _ {K V : Type 0} where
  pub total-drop_last :
      (l : List (K × Entry V)) (k : K) (e : Entry V)
      → last? l ≡ some (k, e)
      → total (drop_last l) + e.weight ≡ total l
  unfolding drop_last
  total-drop_last [] k e h = ground arith
  total-drop_last ((j, d) ∷ []) k e h = ground arith
  total-drop_last ((j, d) ∷ (i, f) ∷ l) k e h = ground (arith, total-drop_last ((i, f) ∷ l) k e)

  pub last?-none : (l : List (K × Entry V)) → last? l ≡ none → l ≡ []
  last?-none [] h = refl
  last?-none ((j, d) ∷ []) h = ground arith
  last?-none ((j, d) ∷ (i, f) ∷ l) h = ground (arith, last?-none ((i, f) ∷ l))

  pub length-drop_last : (l : List (K × Entry V)) → length (drop_last l) ≡ length l - 1
  unfolding drop_last
  length-drop_last [] = omega arith
  length-drop_last (x ∷ []) = omega arith
  length-drop_last (x ∷ y ∷ l) = omega (arith, length-drop_last (y ∷ l))

module _ {K V : Type 0} (dec : Discrete K) where
  abbrev pub Distinct : List (K × Entry V) → Type 0
  Distinct [] = Unit
  Distinct ((k, e) ∷ l) = (lookup dec k l ≡ none) × Distinct l

  module _ (k : K) where
    pub total-without :
        (l : List (K × Entry V)) (e : Entry V)
        → lookup dec k l ≡ some e
        → total (without dec k l) + e.weight ≡ total l
    unfolding lookup without
    total-without [] e h = ground arith
    total-without ((j, d) ∷ l) e h = ground (arith, total-without l e)

    pub length-without :
        (l : List (K × Entry V)) (e : Entry V)
        → lookup dec k l ≡ some e
        → suc (length (without dec k l)) ≡ length l
    unfolding lookup without
    length-without [] e h = ground arith
    length-without ((j, d) ∷ l) e h = ground (arith, length-without l e)

    pub without_absent : (l : List (K × Entry V)) → lookup dec k l ≡ none → without dec k l ≡ l
    unfolding lookup without
    without_absent [] h = refl
    without_absent ((j, d) ∷ l) h = ground (arith, without_absent l)

    pub lookup-without_ne :
        (l : List (K × Entry V)) (j : K) → j ≢ k → lookup dec j (without dec k l) ≡ lookup dec j l
    unfolding lookup without
    lookup-without_ne [] j h = refl
    lookup-without_ne ((i, d) ∷ l) j h = ground (arith, lookup-without_ne l j h)

    pub lookup-without_self :
        (l : List (K × Entry V)) → Distinct l → lookup dec k (without dec k l) ≡ none
    unfolding lookup without
    lookup-without_self [] h = refl
    lookup-without_self ((i, d) ∷ l) h = ground (arith, lookup-without_self l h.1)

    lookup-without-none :
        (l : List (K × Entry V)) (j : K)
        → lookup dec j l ≡ none
        → lookup dec j (without dec k l) ≡ none
    unfolding lookup without
    lookup-without-none [] j h = refl
    lookup-without-none ((i, d) ∷ l) j h = ground (arith, lookup-without-none l j)

    pub Distinct-without : (l : List (K × Entry V)) → Distinct l → Distinct (without dec k l)
    unfolding without
    Distinct-without [] h = tt
    Distinct-without ((i, d) ∷ l) h =
        ground (arith, Distinct-without l h.1, lookup-without-none l i)

  pub lookup-drop_last-none :
      (l : List (K × Entry V)) (j : K) → lookup dec j l ≡ none → lookup dec j (drop_last l) ≡ none
  unfolding lookup drop_last
  lookup-drop_last-none [] j h = refl
  lookup-drop_last-none (x ∷ []) j h = refl
  lookup-drop_last-none (x ∷ y ∷ l) j h = ground (arith, lookup-drop_last-none (y ∷ l) j)

  pub lookup-drop_last :
      (l : List (K × Entry V)) (j : K) (e : Entry V)
      → lookup dec j (drop_last l) ≡ some e
      → lookup dec j l ≡ some e
  unfolding lookup drop_last
  lookup-drop_last [] j e h = h
  lookup-drop_last (x ∷ []) j e h = ground arith
  lookup-drop_last (x ∷ y ∷ l) j e h = ground (arith, lookup-drop_last (y ∷ l) j e)

  pub Distinct-drop_last : (l : List (K × Entry V)) → Distinct l → Distinct (drop_last l)
  unfolding drop_last
  Distinct-drop_last [] h = tt
  Distinct-drop_last (x ∷ []) h = tt
  Distinct-drop_last (x ∷ y ∷ l) h =
      (lookup-drop_last-none (y ∷ l) x.0 h.0, Distinct-drop_last (y ∷ l) h.1)
