-- ===== src/Listing/Finding.antt =====
-- Where the delimiter is found, and which keys collapse (list_to_contents of src/core/listing.rs).
use hdfs_s3_gateway.Prelude.{
  ℕ, zero, suc, ◌+◌, ◌≡◌, refl, ap, subst, sym, inl, inr, Bool, true, false, not, ◌&&◌, Bytes,
  starts_with, starts_with-append, cmp_bytes, Ordering, Option-cases, Option, none, some, List, [],
  ◌∷◌, ◌++◌, append-nil, length, take, drop, All, arith,
}
use hdfs_s3_gateway.Listing.{ListEntry}
use hdfs_s3_gateway.Listing.Contents.{find, set_insert, collapsed}

abbrev is_some : {A : Type 0} → Option A → Bool
is_some none = false
is_some (some a) = true

-- The key has the delimiter after the prefix.
abbrev pub has_delimiter : Bytes → Option Bytes → Bytes → Bool
has_delimiter prefix delimiter key = is_some (collapsed prefix delimiter (drop (length prefix) key))

-- The key is one of the listing's Contents.
abbrev pub is_listed : Bytes → Option Bytes → ListEntry → Bool
is_listed prefix delimiter e =
    starts_with e.key prefix && not (has_delimiter prefix delimiter e.key)

drop-append : (a b : Bytes) → drop (length a) (a ++ b) ≡ b
drop-append [] b = refl
drop-append (x ∷ a) b = drop-append a b

pub take-starts_with : (s d : Bytes) → starts_with s d ≡ true → take (length d) s ≡ d
unfolding starts_with
take-starts_with s [] h = refl
take-starts_with [] (y ∷ d) h = absurd (ground arith)
take-starts_with (x ∷ s) (y ∷ d) h = ground (arith, take-starts_with s d)

find_here : (s d : Bytes) → starts_with s d ≡ true → find s d ≡ some 0
unfolding find
find_here [] d h = ground (arith, h)
find_here (x ∷ s) d h = ground (arith, h)

here_find : (s d : Bytes) → find s d ≡ some 0 → starts_with s d ≡ true
unfolding find
here_find [] d h = ground (arith, h)
here_find (x ∷ s) d h = ground (arith, h)

find_self : (d : Bytes) → find d d ≡ some 0
find_self d =
    find_here d d (subst (λ k. starts_with k d ≡ true) (append-nil d) (starts_with-append d []))

find-cons : (x : ℕ) (s d : Bytes) → is_some (find s d) ≡ true → is_some (find (x ∷ s) d) ≡ true
unfolding find
find-cons x s d h = ground (arith, h)

pub find-append : (s d : Bytes) → is_some (find (s ++ d) d) ≡ true
find-append [] d = ap is_some (find_self d)
find-append (x ∷ s) d = find-cons x (s ++ d) d (find-append s d)

pub zero_plus : (n : ℕ) → n ≡ 0 + n
zero_plus n = omega arith

pub suc_plus : (i n : ℕ) → suc (i + n) ≡ suc i + n
suc_plus i n = omega arith

-- What is cut off after the first delimiter has the delimiter.
pub find-take :
    (s d : Bytes) (i : ℕ) → find s d ≡ some i → is_some (find (take (i + length d) s) d) ≡ true
unfolding find
find-take s d zero h =
    let cut = take-starts_with s d (here_find s d h) in
    subst (λ n. is_some (find (take n s) d) ≡ true) (zero_plus (length d))
      (subst (λ k. is_some (find k d) ≡ true) (sym cut) (ap is_some (find_self d)))
find-take [] d (suc i) h = absurd (ground (arith, h))
find-take (x ∷ s) d (suc i) h =
    subst (λ n. is_some (find (take n (x ∷ s)) d) ≡ true) (suc_plus i (length d))
      (find-cons x (take (i + length d) s) d (find-take s d i (ground (arith, h))))

pub collapsed_some :
    (prefix d rest : Bytes)
    → is_some (find rest d) ≡ true
    → has_delimiter prefix (some d) (prefix ++ rest) ≡ true
unfolding collapsed
collapsed_some prefix d rest h = ground (arith, h, drop-append prefix rest)

pub has_delimiter-collapsed :
    (prefix : Bytes) (delimiter : Option Bytes) (rest k : Bytes)
    → collapsed prefix delimiter rest ≡ some k
    → has_delimiter prefix delimiter k ≡ true
unfolding collapsed
has_delimiter-collapsed prefix none rest k h = absurd (ground (arith, h))
has_delimiter-collapsed prefix (some d) rest k h = elim (Option-cases (find rest d)) [
  | inl e ↦ absurd (ground (arith, e, h))
  | inr (i, e) ↦
      subst (λ k. has_delimiter prefix (some d) k ≡ true) (ground (arith, e, h))
        (collapsed_some prefix d (take (i + length d) rest) (find-take rest d i e))
]

module _ {ℓ} (P : Bytes → Type ℓ) where
  pub All-set_insert : (k : Bytes) (l : List Bytes) → P k → All P l → All P (set_insert k l)
  unfolding set_insert
  All-set_insert k [] h hl = (h, tt)
  All-set_insert k (x ∷ l) h hl =
      elim (cmp_bytes k x)
        as (λ o. All P (elim o [
          | Ordering.lt ↦ k ∷ x ∷ l
          | Ordering.eq ↦ x ∷ l
          | Ordering.gt ↦ x ∷ set_insert k l
        ])) [
          | Ordering.lt ↦ (h, hl)
          | Ordering.eq ↦ hl
          | Ordering.gt ↦ (hl.0, All-set_insert k l h hl.1)
        ]
