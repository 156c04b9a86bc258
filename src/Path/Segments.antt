-- ===== src/Path/Segments.antt =====
-- Splitting a path at `/`, joining segments, and walking over `.` and `..`.
use hdfs_s3_gateway.Prelude.{
  ℕ, Bool, true, false, not, ◌||◌, Bytes, lit, slash, ◌=?◌, ◌≡◌, refl, ap, inl, inr, List, [], ◌∷◌,
  ◌++◌, ◌==◌, All, append_assoc, append-nil, arith, Bool-cases,
}
use hdfs_s3_gateway.Path.{split, join_tail, join}

-- `s.contains(c)` for one byte.
unfoldable pub has : ℕ → Bytes → Bool
has c [] = false
has c (x ∷ xs) = x == c || has c xs

-- A file name as HDFS has it: not empty, not `.` or `..`, and without `/`.
unfoldable pub is_name : Bytes → Bool
unfolding has
is_name s = not (s =? lit "" || s =? lit "." || s =? lit ".." || has slash s)

abbrev pub IsName : Bytes → Type 0
IsName s = is_name s ≡ true

abbrev pub NoSlash : Bytes → Type 0
NoSlash s = has slash s ≡ false

pub IsName-NoSlash : (s : Bytes) → IsName s → NoSlash s
unfolding is_name
IsName-NoSlash s h = ground arith

pub All-IsName-NoSlash : (ss : List Bytes) → All IsName ss → All NoSlash ss
All-IsName-NoSlash [] h = tt
All-IsName-NoSlash (s ∷ ss) h = (IsName-NoSlash s h.0, All-IsName-NoSlash ss h.1)

pub split_nonempty : (s : Bytes) → (x : Bytes) × (xs : List Bytes) × (split s ≡ x ∷ xs)
unfolding split
split_nonempty [] = ([], [], refl)
split_nonempty (c ∷ s) =
    let (x, xs, e) = split_nonempty s in
    elim (Bool-cases (c == slash)) [
      | inl h ↦ ([], split s, ground arith)
      | inr h ↦ (c ∷ x, xs, rw (h, e))
    ]

-- Every segment of a split is free of `/`.
pub split-NoSlash : (s : Bytes) → All NoSlash (split s)
unfolding split has
split-NoSlash [] = (refl, tt)
split-NoSlash (c ∷ s) =
    let (x, xs, e) = split_nonempty s in
    let ih : All NoSlash (x ∷ xs) = rw e at (split-NoSlash s) in
    elim (Bool-cases (c == slash)) [
      | inl h ↦ rw h (refl, split-NoSlash s)
      | inr h ↦ rw (h, e) (rw (h, ih.0) refl, ih.1)
    ]

-- A run without `/` in front of text that starts a fresh segment.
pub split_run :
    (x t : Bytes) (u : List Bytes) → NoSlash x → split t ≡ [] ∷ u → split (x ++ t) ≡ x ∷ u
unfolding split has
split_run [] t u n e = e
split_run (c ∷ x) t u n e = ground (arith, split_run x t u)

pub split-join_tail :
    (rs : List Bytes) (t : Bytes) (u : List Bytes)
    → All NoSlash rs
    → split t ≡ [] ∷ u
    → split (join_tail rs ++ t) ≡ [] ∷ (rs ++ u)
unfolding split join_tail
split-join_tail [] t u n e = e
split-join_tail (r ∷ rs) t u n e =
    rw append_assoc (ap (◌∷◌ []) (split_run r _ (rs ++ u) n.0 (split-join_tail rs t u n.1 e)))

-- Splitting undoes joining.
pub split-join :
    (x : Bytes) (xs : List Bytes) → All NoSlash (x ∷ xs) → split (join (x ∷ xs)) ≡ x ∷ xs
unfolding join split
split-join x xs n =
    split_run x (join_tail xs) xs n.0
      (rw append-nil at (rw append-nil at (split-join_tail xs [] [] n.1 refl)))

-- Joining undoes splitting.
pub join-split : (s : Bytes) → join (split s) ≡ s
unfolding split join
join-split [] = refl
join-split (c ∷ s) =
    let (x, xs, e) = split_nonempty s in
    let ih : x ++ join_tail xs ≡ s = rw e at (join-split s) in
    elim (Bool-cases (c == slash)) [
      | inl h ↦ let q : c ≡ slash = ground arith in rw (h, e) (rw q (ap (◌∷◌ slash) ih))
      | inr h ↦ rw (h, e) (ap (◌∷◌ c) ih)
    ]
