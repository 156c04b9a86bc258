-- ===== src/Listing/Slash.antt =====
-- One page of a directory's listing under the delimiter `/`, and continuation tokens (paginate_slash,
-- encode_token and decode_token of src/core/listing.rs).
pub mod Seek
pub mod Merging
pub mod Turns
pub mod Range
pub mod Children
pub mod Equivalence
pub mod Outputs
pub mod Directory
use hdfs_s3_gateway.Prelude.{
  from_utf8, ℕ, zero, suc, Bool, true, false, Bytes, lit, starts_with, key_lt, key_le, Ordering,
  max, ◌==◌, if◌then◌else◌, Option, none, some, List, [], ◌∷◌, ◌++◌, drop,
}
use hdfs_s3_gateway.Listing.{ListEntry, cmp_dir_output, dir_output_starts_with}
use hdfs_s3_gateway.Listing.Paginate.{Page}
use hdfs_s3_gateway.SortedListing.{partition_point, is_not_greater}

-- `== Ordering::Less` and `== Ordering::Greater`
abbrev pub is_less : Ordering → Bool
is_less Ordering.lt = true
is_less Ordering.eq = false
is_less Ordering.gt = false

abbrev pub is_greater : Ordering → Bool
is_greater Ordering.gt = true
is_greater Ordering.eq = false
is_greater Ordering.lt = false

-- `fi` and `di` before the loop.
unfoldable pub file_start : List ListEntry → Bytes → Option Bytes → ℕ
unfolding partition_point
file_start files prefix none = partition_point (λ f. key_lt f.key prefix) files
file_start files prefix (some marker) =
    max (partition_point (λ f. key_lt f.key prefix) files)
      (partition_point (λ f. key_le f.key marker) files)

unfoldable pub dir_start : List Bytes → Bytes → Option Bytes → ℕ
unfolding partition_point cmp_dir_output
dir_start dirs prefix none = partition_point (λ d. is_less (cmp_dir_output d prefix)) dirs
dir_start dirs prefix (some marker) =
    max (partition_point (λ d. is_less (cmp_dir_output d prefix)) dirs)
      (partition_point (λ d. is_not_greater (cmp_dir_output d marker)) dirs)

-- The two inner loops, on what is left of the slices.
unfoldable pub skip_files : Bytes → List ListEntry → List ListEntry
skip_files prefix [] = []
skip_files prefix (f ∷ files) =
    let rest = skip_files prefix files in
    if starts_with f.key prefix then f ∷ files else if key_lt prefix f.key then [] else rest

unfoldable pub skip_dirs : Bytes → List Bytes → List Bytes
unfolding cmp_dir_output dir_output_starts_with
skip_dirs prefix [] = []
skip_dirs prefix (d ∷ dirs) =
    let rest = skip_dirs prefix dirs in
    if dir_output_starts_with d prefix
    then d ∷ dirs
    else if is_greater (cmp_dir_output d prefix)
    then []
    else rest

-- `contents`, `common_prefixes` and `last_key`
pub record Taken : Type 0 where
  pub contents : List ListEntry
  pub common_prefixes : List Bytes
  pub last_key : Option Bytes

unfoldable pub push_file : Taken → ListEntry → Taken
push_file t f = record t { contents = t.contents ++ (f ∷ []); last_key = some f.key }

unfoldable pub push_dir : Taken → Bytes → Taken
push_dir t d = record t {
  common_prefixes = t.common_prefixes ++ ((d ++ lit "/") ∷ []);
  last_key = some (d ++ lit "/");
}

-- The page of what is taken, when nothing is left, or when a key is.
unfoldable pub whole_page : Taken → Page
whole_page t = record {
  contents = t.contents;
  common_prefixes = t.common_prefixes;
  is_truncated = false;
  next_token = none;
}

unfoldable pub truncated_page : Taken → Page
truncated_page t = record {
  contents = t.contents;
  common_prefixes = t.common_prefixes;
  is_truncated = true;
  next_token = t.last_key;
}

-- The outer loop behind the inner ones, with the number of keys that still fit.
unfoldable pub slash_turn : Bytes → ℕ → List ListEntry → List Bytes → Taken → Page
unfolding skip_files skip_dirs whole_page truncated_page push_file push_dir cmp_dir_output
slash_turn prefix left [] [] t = whole_page t
slash_turn prefix zero (f ∷ files) dirs t = truncated_page t
slash_turn prefix zero [] (d ∷ dirs) t = truncated_page t
slash_turn prefix (suc left) (f ∷ files) [] t =
    slash_turn prefix left (skip_files prefix files) [] (push_file t f)
slash_turn prefix (suc left) [] (d ∷ dirs) t =
    slash_turn prefix left [] (skip_dirs prefix dirs) (push_dir t d)
slash_turn prefix (suc left) (f ∷ files) (d ∷ dirs) t = elim (is_greater (cmp_dir_output d f.key)) [
  | true ↦
      slash_turn prefix left (skip_files prefix files) (skip_dirs prefix (d ∷ dirs)) (push_file t f)
  | false ↦
      slash_turn prefix left (skip_files prefix (f ∷ files)) (skip_dirs prefix dirs) (push_dir t d)
]

-- The outer loop.
unfoldable pub slash_loop : Bytes → ℕ → List ListEntry → List Bytes → Taken → Page
unfolding slash_turn
slash_loop prefix left files dirs t =
    slash_turn prefix left (skip_files prefix files) (skip_dirs prefix dirs) t

-- `paginate_slash`
unfoldable pub paginate_slash : List ListEntry → List Bytes → Bytes → Option Bytes → ℕ → Page
unfolding file_start dir_start slash_loop
paginate_slash files dirs prefix marker max_keys =
    if max_keys == 0
    then record { contents = []; common_prefixes = []; is_truncated = false; next_token = none }
    else slash_loop prefix max_keys (drop (file_start files prefix marker) files)
        (drop (dir_start dirs prefix marker) dirs)
        (record { contents = []; common_prefixes = []; last_key = none })

-- What the tokens use of the `base64` crate: the URL-safe engine without padding, and the standard one.
pub record Base64Api : Type 0 where
  pub encode_url : Bytes → Bytes
  pub decode_url : Bytes → Option Bytes
  pub decode_standard : Bytes → Option Bytes

module _ (base64 : Base64Api) where
  -- `encode_token`
  unfoldable pub encode_token : Bytes → Bytes
  encode_token last_key = base64.encode_url last_key

  -- `decode_token`
  unfoldable pub decode_token : Bytes → Option Bytes
  unfolding from_utf8
  decode_token token = elim (base64.decode_url token) [
    | some bytes ↦ from_utf8 bytes
    | none ↦ elim (base64.decode_standard token) [ none ↦ none | some bytes ↦ from_utf8 bytes ]
  ]
