-- ===== src/Config/Words.antt =====
-- What a Boolean variable of the environment says (env_bool of src/config/mod.rs).
use hdfs_s3_gateway.Prelude.{
  ◌≡◌, inl, inr, sym, subst, Bool, true, false, ◌||◌, Bytes, lit, ◌=?◌, Option, none, some,
  Option-cases, Bool-cases, List, [], ◌∷◌, to_string_lossy, ok, arith,
}
use hdfs_s3_gateway.Config.Env.{env_bool, parse_bool, is_yes, is_no, trim, to_ascii_lowercase}

-- The words for a Boolean.
abbrev pub words : Bool → List Bytes
words true = lit "1" ∷ lit "true" ∷ lit "yes" ∷ lit "on" ∷ []
words false = lit "0" ∷ lit "false" ∷ lit "no" ∷ lit "off" ∷ []

abbrev pub is_one_of : List Bytes → Bytes → Bool
is_one_of [] s = false
is_one_of (w ∷ ws) s = s =? w || is_one_of ws s

-- What a variable says: nothing if it is not set, else what its word means, whatever its case and the
-- white space around it.
abbrev pub Says : Option Bytes → Option Bool → Type 0
Says variable none = variable ≡ none
Says variable (some b) =
    (raw : Bytes) × (variable ≡ some raw)
    × (is_one_of (words b) (to_ascii_lowercase (trim (to_string_lossy raw))) ≡ true)

parse_bool-is_one_of :
    (name value : Bytes) (switch : Option Bool)
    → parse_bool name value ≡ ok switch
    → (b : Bool) × (switch ≡ some b) × (is_one_of (words b) value ≡ true)
unfolding parse_bool is_yes is_no
parse_bool-is_one_of name value switch h = elim (Bool-cases (is_one_of (words true) value)) [
  | inl is_on ↦ (true, ground (arith, h, is_on), is_on)
  | inr other ↦ elim (Bool-cases (is_one_of (words false) value)) [
    | inl is_off ↦ (false, ground (arith, h, other, is_off), is_off)
    | inr neither ↦ absurd (ground (arith, h, other, neither))
  ]
]

pub env_bool-Says :
    (var_os : Bytes → Option Bytes) (name : Bytes) (switch : Option Bool)
    → env_bool var_os name ≡ ok switch
    → Says (var_os name) switch
unfolding env_bool
env_bool-Says var_os name switch h = elim (Option-cases (var_os name)) [
  | inl unset ↦
      let is_none : none ≡ switch = ground (arith, h, unset) in
      subst (Says (var_os name)) is_none unset
  | inr (raw, set) ↦
      let said : parse_bool name (to_ascii_lowercase (trim (to_string_lossy raw))) ≡ ok switch =
        ground (arith, h, set) in
      let (b, e, word) =
        parse_bool-is_one_of name (to_ascii_lowercase (trim (to_string_lossy raw))) switch said in
      subst (Says (var_os name)) (sym e) (raw, set, word)
]
