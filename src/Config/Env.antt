-- ===== src/Config/Env.antt =====
-- The environment that the configuration reads (env_bool of src/config/mod.rs).
use mathlib.Core.List.{reverse}
use hdfs_s3_gateway.Prelude.{
  ℕ, zero, suc, ◌+◌, Bool, true, false, ◌&&◌, ◌||◌, Bytes, lit, ◌=?◌, strip_prefix, leb,
  if◌then◌else◌, Option, none, some, List, [], ◌∷◌, map, length, to_string_lossy, Result, ok, err,
}
use hdfs_s3_gateway.Config.{ConfigError, invalid, not_a_bool}

-- `char::is_whitespace`, as UTF-8: up to U+0085, then up to U+3000.
abbrev spaces : List Bytes
spaces =
    (0x09 ∷ [])
    ∷ (0x0A ∷ [])
    ∷ (0x0B ∷ [])
    ∷ (0x0C ∷ [])
    ∷ (0x0D ∷ [])
    ∷ (0x20 ∷ [])
    ∷ (0xC2 ∷ 0x85 ∷ [])
    ∷ (0xC2 ∷ 0xA0 ∷ [])
    ∷ (0xE1 ∷ 0x9A ∷ 0x80 ∷ [])
    ∷ (0xE2 ∷ 0x80 ∷ 0x80 ∷ [])
    ∷ (0xE2 ∷ 0x80 ∷ 0x81 ∷ [])
    ∷ (0xE2 ∷ 0x80 ∷ 0x82 ∷ [])
    ∷ (0xE2 ∷ 0x80 ∷ 0x83 ∷ [])
    ∷ (0xE2 ∷ 0x80 ∷ 0x84 ∷ [])
    ∷ (0xE2 ∷ 0x80 ∷ 0x85 ∷ [])
    ∷ (0xE2 ∷ 0x80 ∷ 0x86 ∷ [])
    ∷ (0xE2 ∷ 0x80 ∷ 0x87 ∷ [])
    ∷ (0xE2 ∷ 0x80 ∷ 0x88 ∷ [])
    ∷ (0xE2 ∷ 0x80 ∷ 0x89 ∷ [])
    ∷ (0xE2 ∷ 0x80 ∷ 0x8A ∷ [])
    ∷ (0xE2 ∷ 0x80 ∷ 0xA8 ∷ [])
    ∷ (0xE2 ∷ 0x80 ∷ 0xA9 ∷ [])
    ∷ (0xE2 ∷ 0x80 ∷ 0xAF ∷ [])
    ∷ (0xE2 ∷ 0x81 ∷ 0x9F ∷ [])
    ∷ (0xE3 ∷ 0x80 ∷ 0x80 ∷ [])
    ∷ []

-- The text behind the first of the prefixes that it starts with.
unfoldable pub strip_any : List Bytes → Bytes → Option Bytes
unfolding strip_prefix
strip_any [] s = none
strip_any (p ∷ ps) s = elim (strip_prefix s p) [ some rest ↦ some rest | none ↦ strip_any ps s ]

-- With fuel for the characters that are taken away.
unfoldable pub strip_all : ℕ → List Bytes → Bytes → Bytes
unfolding strip_any
strip_all zero ps s = s
strip_all (suc fuel) ps s = elim (strip_any ps s) [ none ↦ s | some rest ↦ strip_all fuel ps rest ]

-- `str::trim`
unfoldable pub trim : Bytes → Bytes
unfolding strip_all
trim s =
    let front = strip_all (length s) spaces s in
    reverse (strip_all (length front) (map reverse spaces) (reverse front))

unfoldable pub lower_byte : ℕ → ℕ
lower_byte c = if leb b'A' c && leb c b'Z' then c + 32 else c

-- `str::to_ascii_lowercase`
unfoldable pub to_ascii_lowercase : Bytes → Bytes
unfolding lower_byte
to_ascii_lowercase s = map lower_byte s

-- The words of the match of `env_bool`.
unfoldable pub is_yes : Bytes → Bool
is_yes s = s =? lit "1" || (s =? lit "true" || (s =? lit "yes" || s =? lit "on"))

unfoldable pub is_no : Bytes → Bool
is_no s = s =? lit "0" || (s =? lit "false" || (s =? lit "no" || s =? lit "off"))

unfoldable pub parse_bool : Bytes → Bytes → Result (Option Bool) ConfigError
unfolding is_yes is_no
parse_bool name value =
    if is_yes value
    then ok (some true)
    else if is_no value
    then ok (some false)
    else err (invalid (not_a_bool name value))

-- `env_bool`, of an environment that answers with raw bytes.
unfoldable pub env_bool : (Bytes → Option Bytes) → Bytes → Result (Option Bool) ConfigError
unfolding to_string_lossy trim to_ascii_lowercase parse_bool
env_bool var_os name = elim (var_os name) [
  | none ↦ ok none
  | some raw ↦ parse_bool name (to_ascii_lowercase (trim (to_string_lossy raw)))
]
