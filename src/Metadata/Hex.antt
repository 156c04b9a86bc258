-- ===== src/Metadata/Hex.antt =====
-- Reading hexadecimal digits back (hex_encode and the `{:x}` of src/core/metadata.rs).
use hdfs_s3_gateway.Prelude.{
  ℕ, zero, suc, ◌+◌, ◌-◌, ◌*◌, ◌/◌, ◌%◌, ◌<◌, ◌≡◌, refl, ap₂, ◌∙◌, true, false, Bytes, ltb, ◌==◌,
  if◌then◌else◌, [], ◌∷◌, ◌++◌, All, All-append, arith,
}
use hdfs_s3_gateway.Listing.Sorting.{if-cases}
use hdfs_s3_gateway.Metadata.{from_digit, hex_encode, lower_hex}

-- `char::to_digit(16)`
unfoldable pub to_digit : ℕ → ℕ
to_digit c = if ltb c 58 then c - 48 else c - 87

to_digit-from_digit : (d : ℕ) → d < 16 → to_digit (from_digit d) ≡ d
unfolding to_digit from_digit
to_digit-from_digit d h = ground (arith, h)

unfoldable pub hex_decode : Bytes → Bytes
unfolding to_digit
hex_decode [] = []
hex_decode (c ∷ []) = []
hex_decode (c ∷ d ∷ s) = (16 * to_digit c + to_digit d) ∷ hex_decode s

pub hex_decode-hex_encode :
    (bytes : Bytes) → All (λ b. b < 256) bytes → hex_decode (hex_encode bytes) ≡ bytes
unfolding hex_decode hex_encode
hex_decode-hex_encode [] h = refl
hex_decode-hex_encode (b ∷ bytes) h =
    let high = to_digit-from_digit (b / 16) (omega (arith, h.0)) in
    let low = to_digit-from_digit (b % 16) (omega arith) in
    ap₂ ◌∷◌ (omega (arith, high, low)) (hex_decode-hex_encode bytes h.1)

-- The number that a string of digits reads as, after the digits already read.
unfoldable pub hex_value : ℕ → Bytes → ℕ
unfolding to_digit
hex_value n [] = n
hex_value n (c ∷ s) = hex_value (16 * n + to_digit c) s

hex_value-append :
    (n : ℕ) (s : Bytes) (c : ℕ) → hex_value n (s ++ (c ∷ [])) ≡ 16 * hex_value n s + to_digit c
unfolding hex_value
hex_value-append n [] c = refl
hex_value-append n (d ∷ s) c = hex_value-append (16 * n + to_digit d) s c

short_digit : (n : ℕ) → ltb n 16 ≡ true → hex_value 0 (from_digit n ∷ []) ≡ n
unfolding hex_value
short_digit n e = omega (arith, to_digit-from_digit n (ground (arith, e)))

-- `16 ^ fuel`
abbrev pub hex_bound : ℕ → ℕ
hex_bound zero = 1
hex_bound (suc fuel) = 16 * hex_bound fuel

pub hex_value-lower_hex : (fuel n : ℕ) → n < hex_bound fuel → hex_value 0 (lower_hex fuel n) ≡ n
unfolding lower_hex hex_value
hex_value-lower_hex zero n h = omega (arith, h)
hex_value-lower_hex (suc fuel) n h =
    let rest = lower_hex fuel (n / 16) in
    let high = hex_value-lower_hex fuel (n / 16) (omega (arith, h)) in
    let low = to_digit-from_digit (n % 16) (omega arith) in
    if-cases (λ s. hex_value 0 s ≡ n) (ltb n 16) (from_digit n ∷ [])
      (rest ++ (from_digit (n % 16) ∷ [])) (λ e. short_digit n e)
      (λ e. hex_value-append 0 rest (from_digit (n % 16)) ∙ omega (arith, high, low))

-- A digit is no dash.
abbrev pub IsNoDash : ℕ → Type 0
IsNoDash c = (c == 45) ≡ false

from_digit-IsNoDash : (d : ℕ) → IsNoDash (from_digit d)
unfolding from_digit
from_digit-IsNoDash d = ground arith

pub lower_hex-IsNoDash : (fuel n : ℕ) → All IsNoDash (lower_hex fuel n)
unfolding lower_hex
lower_hex-IsNoDash zero n = tt
lower_hex-IsNoDash (suc fuel) n =
    let rest = lower_hex fuel (n / 16) in
    if-cases (All IsNoDash) (ltb n 16) (from_digit n ∷ []) (rest ++ (from_digit (n % 16) ∷ []))
      (λ e. (from_digit-IsNoDash n, tt))
      (λ e.
        All-append IsNoDash rest (from_digit (n % 16) ∷ []) (lower_hex-IsNoDash fuel (n / 16))
          (from_digit-IsNoDash (n % 16), tt))
