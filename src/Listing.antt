-- ===== src/Listing.antt =====
-- Listing: keys to Contents and CommonPrefixes, the order of directories' output keys, and pages
-- (src/core/listing.rs).
pub mod Slash
pub mod Compare
pub mod Contents
pub mod Paginate
pub mod Sorting
pub mod Cutting
pub mod Finding
pub mod Collapse
pub mod Whole
pub mod Pages
pub mod Walk
pub mod Shown
pub mod Members
use hdfs_s3_gateway.Prelude.{
  ℕ, zero, suc, ◌+◌, Bool, true, false, ◌&&◌, ◌||◌, Bytes, lit, slash, ◌=?◌, starts_with, cmp_bytes,
  key_lt, key_le, reverse_ordering, compare, Ordering, min, leb, ltb, ◌==◌, if◌then◌else◌, Option,
  none, some, List, [], ◌∷◌, ◌++◌, map, length, take, drop, last?, select,
}

-- `ListEntry`
pub record ListEntry : Type 0 where
  pub key : Bytes
  pub size : ℕ
  pub modification_time : ℕ

-- `DirListing`
pub record DirListing : Type 0 where
  pub files : List ListEntry
  pub dirs : List Bytes

-- `s[i]`; the program reads only positions inside the string.
unfoldable pub byte_at : Bytes → ℕ → ℕ
byte_at [] i = 0
byte_at (x ∷ xs) zero = x
byte_at (x ∷ xs) (suc i) = byte_at xs i

-- The byte of `other` where `dir` ends, against the `/` that is appended.
output_boundary : Bytes → Bytes → Ordering
unfolding byte_at
output_boundary dir other = elim (compare slash (byte_at other (length dir))) [
  | Ordering.eq ↦ if length other == length dir + 1 then Ordering.eq else Ordering.lt
  | Ordering.lt ↦ Ordering.lt
  | Ordering.gt ↦ Ordering.gt
]

-- `cmp_dir_output`
unfoldable pub cmp_dir_output : Bytes → Bytes → Ordering
unfolding output_boundary
cmp_dir_output dir other =
    let common = min (length dir) (length other) in
    elim (cmp_bytes (take common dir) (take common other)) [
      | Ordering.eq ↦
          if leb (length other) (length dir) then Ordering.gt else output_boundary dir other
      | Ordering.lt ↦ Ordering.lt
      | Ordering.gt ↦ Ordering.gt
    ]

shorter_first : Bytes → Bytes → Ordering
unfolding byte_at
shorter_first a b = elim (compare slash (byte_at b (length a))) [
  | Ordering.eq ↦ Ordering.lt
  | Ordering.lt ↦ Ordering.lt
  | Ordering.gt ↦ Ordering.gt
]

longer_first : Bytes → Bytes → Ordering
unfolding byte_at
longer_first a b = elim (compare (byte_at a (length b)) slash) [
  | Ordering.eq ↦ Ordering.gt
  | Ordering.lt ↦ Ordering.lt
  | Ordering.gt ↦ Ordering.gt
]

-- `cmp_dir_keys`
unfoldable pub cmp_dir_keys : Bytes → Bytes → Ordering
unfolding shorter_first longer_first
cmp_dir_keys a b =
    let common = min (length a) (length b) in
    elim (cmp_bytes (take common a) (take common b)) [
      | Ordering.eq ↦
          if length a == length b
          then Ordering.eq
          else if ltb (length a) (length b)
          then shorter_first a b
          else longer_first a b
      | Ordering.lt ↦ Ordering.lt
      | Ordering.gt ↦ Ordering.gt
    ]

-- `cmp_file_dir`
unfoldable pub cmp_file_dir : Bytes → Bytes → Ordering
unfolding cmp_dir_output
cmp_file_dir file dir = reverse_ordering (cmp_dir_output dir file)

-- `dir_output_starts_with`
unfoldable pub dir_output_starts_with : Bytes → Bytes → Bool
unfolding byte_at
dir_output_starts_with dir prefix =
    if leb (length prefix) (length dir)
    then starts_with dir prefix
    else (length prefix == length dir + 1
        && starts_with prefix dir
        && byte_at prefix (length dir) == slash)
