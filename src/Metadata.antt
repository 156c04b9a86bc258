-- ===== src/Metadata.antt =====
-- Object metadata and the ETag made from it (src/core/metadata.rs).
pub mod Hex
pub mod Etag
use hdfs_s3_gateway.Prelude.{
  ℕ, zero, suc, ◌+◌, ◌-◌, ◌/◌, ◌%◌, Bool, Bytes, lit, ltb, if◌then◌else◌, Option, none, some, List,
  [], ◌∷◌, ◌++◌,
}

-- `ObjectMetadata`
pub record ObjectMetadata : Type 0 where
  pub path : Bytes
  pub length : ℕ
  pub is_dir : Bool
  pub modification_time : ℕ
  pub checksum : Option Bytes

-- `char::from_digit(d, 16)`
unfoldable pub from_digit : ℕ → ℕ
from_digit d = if ltb d 10 then b'0' + d else b'a' + d - 10

-- `hex_encode`
unfoldable pub hex_encode : Bytes → Bytes
unfolding from_digit
hex_encode [] = []
hex_encode (b ∷ bytes) = from_digit (b / 16) ∷ from_digit (b % 16) ∷ hex_encode bytes

-- `{:x}` of a number with at most as many hexadecimal digits as there is fuel.
unfoldable pub lower_hex : ℕ → ℕ → Bytes
unfolding from_digit
lower_hex zero n = []
lower_hex (suc fuel) n =
    let rest = lower_hex fuel (n / 16) in
    if ltb n 16 then from_digit n ∷ [] else rest ++ (from_digit (n % 16) ∷ [])

-- `fallback_etag`
unfoldable pub fallback_etag : ℕ → ℕ → Bytes
unfolding lower_hex
fallback_etag length modification_time =
    lit "hdfs-" ++ (lower_hex 16 length ++ (lit "-" ++ lower_hex 16 modification_time))

-- `ObjectMetadata::etag`
unfoldable pub etag : ObjectMetadata → Bytes
unfolding hex_encode fallback_etag
etag m = elim m.checksum [
  | some bytes ↦ hex_encode bytes
  | none ↦ fallback_etag m.length m.modification_time
]
