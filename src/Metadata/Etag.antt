-- ===== src/Metadata/Etag.antt =====
-- What an ETag tells of the object (etag and fallback_etag of src/core/metadata.rs).
use hdfs_s3_gateway.Prelude.{
  ℕ, ◌+◌, ◌*◌, ◌<◌, ◌≡◌, refl, ap, ap₂, ◌∙◌, sym, ◌⊎◌, inl, inr, Bytes, lit, ◌==◌, if◌then◌else◌,
  Option, none, some, [], ◌∷◌, ◌++◌, All, arith, strip_prefix, strip_prefix-append,
}
use hdfs_s3_gateway.Metadata.{
  ObjectMetadata, from_digit, hex_encode, lower_hex, fallback_etag, etag,
}
use hdfs_s3_gateway.Metadata.Hex.{
  to_digit, hex_decode, hex_decode-hex_encode, hex_value, hex_bound, hex_value-lower_hex, IsNoDash,
  lower_hex-IsNoDash,
}

abbrev HasBytes : Option Bytes → Type 0
HasBytes none = Unit
HasBytes (some bytes) = All (λ b. b < 256) bytes

-- Bytes are below 256, and lengths and times are 64-bit numbers.
abbrev pub IsValid : ObjectMetadata → Type 0
IsValid m = (m.length < hex_bound 16) × (m.modification_time < hex_bound 16) × HasBytes m.checksum

-- What an ETag is made from: the checksum, or the length and the time when there is none.
abbrev pub etag_source : ObjectMetadata → Bytes ⊎ (ℕ × ℕ)
etag_source m = elim m.checksum [
  | some bytes ↦ inl bytes
  | none ↦ inr (m.length, m.modification_time)
]

-- The number before a dash, and what follows the dash.
unfoldable pub read_to_dash : ℕ → Bytes → ℕ × Bytes
read_to_dash n [] = (n, [])
read_to_dash n (c ∷ s) =
    let next = read_to_dash (16 * n + to_digit c) s in if c == 45 then (n, s) else next

pub read_to_dash-append :
    (n : ℕ) (s rest : Bytes)
    → All IsNoDash s
    → read_to_dash n (s ++ (lit "-" ++ rest)) ≡ (hex_value n s, rest)
unfolding read_to_dash hex_value
read_to_dash-append n [] rest h = refl
read_to_dash-append n (c ∷ s) rest h =
    ap
      (λ b.
        if b
        then (n, s ++ (lit "-" ++ rest))
        else read_to_dash (16 * n + to_digit c) (s ++ (lit "-" ++ rest)))
      h.0
    ∙ read_to_dash-append (16 * n + to_digit c) s rest h.1

-- Reads an ETag back.
decode_etag : Bytes → Bytes ⊎ (ℕ × ℕ)
unfolding strip_prefix hex_decode read_to_dash hex_value
decode_etag s = elim (strip_prefix s (lit "hdfs-")) [
  | none ↦ inl (hex_decode s)
  | some r ↦ inr ((read_to_dash 0 r).0, hex_value 0 (read_to_dash 0 r).1)
]

no_prefix :
    (bytes : Bytes)
    → All (λ b. b < 256) bytes
    → strip_prefix (hex_encode bytes) (lit "hdfs-") ≡ none
unfolding strip_prefix hex_encode from_digit
no_prefix [] h = refl
no_prefix (b ∷ bytes) h = ground (arith, h.0)

decode_etag-hex_encode :
    (bytes : Bytes) → All (λ b. b < 256) bytes → decode_etag (hex_encode bytes) ≡ inl bytes
unfolding decode_etag
decode_etag-hex_encode bytes h =
    ap
      (λ o. elim o as (λ q. Bytes ⊎ (ℕ × ℕ)) [
        | none ↦ inl (hex_decode (hex_encode bytes))
        | some r ↦ inr ((read_to_dash 0 r).0, hex_value 0 (read_to_dash 0 r).1)
      ])
      (no_prefix bytes h)
    ∙ ap inl (hex_decode-hex_encode bytes h)

decode_etag-fallback_etag :
    (n t : ℕ) → n < hex_bound 16 → t < hex_bound 16 → decode_etag (fallback_etag n t) ≡ inr (n, t)
unfolding decode_etag fallback_etag
decode_etag-fallback_etag n t h k =
    let rest = lower_hex 16 n ++ (lit "-" ++ lower_hex 16 t) in
    let read = read_to_dash-append 0 (lower_hex 16 n) (lower_hex 16 t) (lower_hex-IsNoDash 16 n) in
    ap
      (λ o. elim o as (λ q. Bytes ⊎ (ℕ × ℕ)) [
        | none ↦ inl (hex_decode (fallback_etag n t))
        | some r ↦ inr ((read_to_dash 0 r).0, hex_value 0 (read_to_dash 0 r).1)
      ])
      (strip_prefix-append (lit "hdfs-") rest)
    ∙ ap (λ p. inr (p.0, hex_value 0 p.1)) read
    ∙ ap₂ (λ a b. inr (a, b)) (hex_value-lower_hex 16 n h) (hex_value-lower_hex 16 t k)

-- By whether there is a checksum.
decode_etag_of :
    (o : Option Bytes) (n t : ℕ)
    → n < hex_bound 16
    → t < hex_bound 16
    → HasBytes o
    → decode_etag (elim o [ some bytes ↦ hex_encode bytes | none ↦ fallback_etag n t ])
      ≡ (elim o as (λ q. Bytes ⊎ (ℕ × ℕ)) [ some bytes ↦ inl bytes | none ↦ inr (n, t) ])
decode_etag_of none n t h k u = decode_etag-fallback_etag n t h k
decode_etag_of (some bytes) n t h k u = decode_etag-hex_encode bytes u

-- An ETag of a valid object reads back as what it is made from.
decode_etag-etag : (m : ObjectMetadata) → IsValid m → decode_etag (etag m) ≡ etag_source m
unfolding etag
decode_etag-etag m h = decode_etag_of m.checksum m.length m.modification_time h.0 h.1 h.2

-- Two valid objects with one ETag have the same checksum, or none and the same length and time: no
-- checksum's ETag is the fallback of an object without one.
pub etag_injective :
    (m n : ObjectMetadata) → IsValid m → IsValid n → etag m ≡ etag n → etag_source m ≡ etag_source n
etag_injective m n hm hn e = sym (decode_etag-etag m hm) ∙ ap decode_etag e ∙ decode_etag-etag n hn
