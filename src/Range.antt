-- ===== src/Range.antt =====
-- Byte ranges: `ByteRange` and `resolve_range` (src/core/range.rs). An offset is a `u64`.
use hdfs_s3_gateway.Prelude.{
  ℕ, ◌+◌, ◌-◌, ◌≤◌, ◌<◌, ◌≡◌, ◌↔◌, Option, none, some, leb, ltb, ◌==◌, min, if◌then◌else◌, arith,
}

pub data ByteRange : Type 0 where
  from : ℕ → ByteRange
  inclusive : ℕ → ℕ → ByteRange
  suffix : ℕ → ByteRange

-- `last.min(file_len - 1)`, under the guard `first < file_len`.
resolve_inclusive : ℕ → ℕ → ℕ → Option (ℕ × ℕ)
resolve_inclusive file_len first last =
    let last' = min last (file_len - 1) in if ltb last' first then none else some (first, last' + 1)

resolve_suffix : ℕ → ℕ → Option (ℕ × ℕ)
resolve_suffix file_len length =
    let length' = min length file_len in
    if length' == 0 then none else some (file_len - length', file_len)

-- `resolve_range`: the window `(start, end_exclusive)`.
unfoldable pub resolve_range : ℕ → ByteRange → Option (ℕ × ℕ)
unfolding resolve_inclusive resolve_suffix
resolve_range file_len (from first) = if leb file_len first then none else some (first, file_len)
resolve_range file_len (inclusive first last) =
    if leb file_len first then none else resolve_inclusive file_len first last
resolve_range file_len (suffix length) =
    if length == 0 then none else resolve_suffix file_len length

-- The bytes that a range asks for, of a file of `file_len` bytes (RFC 9110).
abbrev pub Requested : ℕ → ByteRange → ℕ → Type 0
Requested file_len (from first) i = (first ≤ i) × (i < file_len)
Requested file_len (inclusive first last) i = (first ≤ i) × (i ≤ last) × (i < file_len)
Requested file_len (suffix length) i = (file_len ≤ i + length) × (i < file_len)

-- A window that is returned is not empty, ends inside the file, and holds exactly the bytes of
-- the file that the range asks for.
pub resolve_range_window :
    (file_len : ℕ) (r : ByteRange) (start end_exclusive : ℕ)
    → resolve_range file_len r ≡ some (start, end_exclusive)
    → (start < end_exclusive)
      × (end_exclusive ≤ file_len)
      × ((i : ℕ) → ((start ≤ i) × (i < end_exclusive)) ↔ Requested file_len r i)
unfolding resolve_range
resolve_range_window file_len (from first) s e h =
    (ground arith, ground arith, λ i. (ground arith, ground arith))
resolve_range_window file_len (inclusive first last) s e h =
    (ground arith, ground arith, λ i. (ground arith, ground arith))
resolve_range_window file_len (suffix length) s e h =
    (ground arith, ground arith, λ i. (ground arith, ground arith))

-- A range is refused only if it asks for no byte of the file.
pub resolve_range_refused :
    (file_len : ℕ) (r : ByteRange)
    → resolve_range file_len r ≡ none
    → (i : ℕ) → ¬ Requested file_len r i
unfolding resolve_range
resolve_range_refused file_len (from first) h i = ground arith
resolve_range_refused file_len (inclusive first last) h i = ground arith
resolve_range_refused file_len (suffix length) h i = ground arith
