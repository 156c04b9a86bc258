-- ===== src/Prelude/Order.antt =====
-- The byte order of keys, `a.as_bytes().cmp(b.as_bytes())`, and its laws.
use Prim.Native.Nat.{compare, Ordering}
use mathlib.Core.Path.{◌≡◌, refl}
use mathlib.Core.Bool.{Bool, true, false}
use mathlib.Core.List.{[], ◌∷◌}
use native.Mathlib.Omega.{arith}
use hdfs_s3_gateway.Prelude.Text.{Bytes}

unfoldable pub cmp_bytes : Bytes → Bytes → Ordering
cmp_bytes [] [] = Ordering.eq
cmp_bytes [] (y ∷ ys) = Ordering.lt
cmp_bytes (x ∷ xs) [] = Ordering.gt
cmp_bytes (x ∷ xs) (y ∷ ys) = elim (compare x y) [
  | Ordering.lt ↦ Ordering.lt
  | Ordering.eq ↦ cmp_bytes xs ys
  | Ordering.gt ↦ Ordering.gt
]

-- `Ordering::reverse`
abbrev pub reverse_ordering : Ordering → Ordering
reverse_ordering Ordering.lt = Ordering.gt
reverse_ordering Ordering.eq = Ordering.eq
reverse_ordering Ordering.gt = Ordering.lt

-- `a < b` and `a <= b` on strings
abbrev pub key_lt : Bytes → Bytes → Bool
key_lt a b = elim (cmp_bytes a b) [ Ordering.lt ↦ true | _ ↦ false ]

abbrev pub key_le : Bytes → Bytes → Bool
key_le a b = elim (cmp_bytes a b) [ Ordering.gt ↦ false | _ ↦ true ]

infix 50 ◌≺◌
abbrev pub ◌≺◌ : Bytes → Bytes → Type 0
a ≺ b = cmp_bytes a b ≡ Ordering.lt

pub cmp_refl : (a : Bytes) → cmp_bytes a a ≡ Ordering.eq
unfolding cmp_bytes
cmp_refl [] = refl
cmp_refl (x ∷ xs) = ground (arith, cmp_refl xs)

pub eq_of_cmp : (a b : Bytes) → cmp_bytes a b ≡ Ordering.eq → a ≡ b
unfolding cmp_bytes
eq_of_cmp [] [] h = refl
eq_of_cmp [] (y ∷ ys) h = ground arith
eq_of_cmp (x ∷ xs) [] h = ground arith
eq_of_cmp (x ∷ xs) (y ∷ ys) h = ground (arith, eq_of_cmp xs ys)

pub cmp_swap : (a b : Bytes) → cmp_bytes b a ≡ reverse_ordering (cmp_bytes a b)
unfolding cmp_bytes
cmp_swap [] [] = refl
cmp_swap [] (y ∷ ys) = refl
cmp_swap (x ∷ xs) [] = refl
cmp_swap (x ∷ xs) (y ∷ ys) = ground (arith, cmp_swap xs ys)

pub ≺_trans : (a b c : Bytes) → a ≺ b → b ≺ c → a ≺ c
unfolding cmp_bytes
≺_trans [] [] c h k = ground arith
≺_trans [] (y ∷ ys) [] h k = ground arith
≺_trans [] (y ∷ ys) (z ∷ zs) h k = refl
≺_trans (x ∷ xs) [] c h k = ground arith
≺_trans (x ∷ xs) (y ∷ ys) [] h k = ground arith
≺_trans (x ∷ xs) (y ∷ ys) (z ∷ zs) h k = ground (arith, ≺_trans xs ys zs)
