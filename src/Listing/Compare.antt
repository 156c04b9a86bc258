-- ===== src/Listing/Compare.antt =====
-- The comparisons that avoid an allocation are the byte order of the output keys `dir + "/"`.
use hdfs_s3_gateway.Prelude.{
  ℕ, suc, ◌≡◌, refl, ap, sym, ◌∙◌, Bytes, lit, starts_with, cmp_bytes, reverse_ordering, cmp_swap,
  compare, Ordering, min, leb, ltb, ◌==◌, if◌then◌else◌, [], ◌∷◌, ◌++◌, length, take, arith,
}
use hdfs_s3_gateway.Listing.{
  byte_at, output_boundary, cmp_dir_output, shorter_first, longer_first, cmp_dir_keys, cmp_file_dir,
  dir_output_starts_with,
}

abbrev then_by : Ordering → Ordering → Ordering
then_by Ordering.lt o = Ordering.lt
then_by Ordering.eq o = o
then_by Ordering.gt o = Ordering.gt

pub min-suc : (a b : ℕ) → min (suc a) (suc b) ≡ suc (min a b)
min-suc a b = omega arith

pub min-zero_left : (a : ℕ) → min 0 a ≡ 0
min-zero_left a = omega arith

pub min-zero_right : (a : ℕ) → min a 0 ≡ 0
min-zero_right a = omega arith

abbrev cmp_dir_output_to : ℕ → Bytes → Bytes → Ordering
cmp_dir_output_to n dir other = elim (cmp_bytes (take n dir) (take n other)) [
  | Ordering.eq ↦ if leb (length other) (length dir) then Ordering.gt else output_boundary dir other
  | Ordering.lt ↦ Ordering.lt
  | Ordering.gt ↦ Ordering.gt
]

cmp_dir_output-cons :
    (x y : ℕ) (d o : Bytes)
    → cmp_dir_output (x ∷ d) (y ∷ o) ≡ then_by (compare x y) (cmp_dir_output d o)
unfolding cmp_dir_output cmp_bytes output_boundary byte_at
cmp_dir_output-cons x y d o =
    ap (λ n. cmp_dir_output_to n (x ∷ d) (y ∷ o)) (min-suc (length d) (length o)) ∙ ground arith

-- `cmp_dir_output` compares the output key of the directory with the other key.
pub cmp_dir_output-eq-cmp_bytes :
    (dir other : Bytes) → cmp_dir_output dir other ≡ cmp_bytes (dir ++ lit "/") other
unfolding cmp_bytes
cmp_dir_output-eq-cmp_bytes [] [] = unfold cmp_dir_output in refl
cmp_dir_output-eq-cmp_bytes [] (y ∷ []) =
    unfold cmp_dir_output output_boundary byte_at in ground arith
cmp_dir_output-eq-cmp_bytes [] (y ∷ z ∷ o) =
    unfold cmp_dir_output output_boundary byte_at in ground arith
cmp_dir_output-eq-cmp_bytes (x ∷ d) [] = unfold cmp_dir_output in ground arith
cmp_dir_output-eq-cmp_bytes (x ∷ d) (y ∷ o) =
    cmp_dir_output-cons x y d o ∙ ground (arith, cmp_dir_output-eq-cmp_bytes d o)

abbrev cmp_dir_keys_to : ℕ → Bytes → Bytes → Ordering
cmp_dir_keys_to n a b = elim (cmp_bytes (take n a) (take n b)) [
  | Ordering.eq ↦
      if length a == length b
      then Ordering.eq
      else if ltb (length a) (length b)
      then shorter_first a b
      else longer_first a b
  | Ordering.lt ↦ Ordering.lt
  | Ordering.gt ↦ Ordering.gt
]

cmp_dir_keys-cons :
    (x y : ℕ) (a b : Bytes)
    → cmp_dir_keys (x ∷ a) (y ∷ b) ≡ then_by (compare x y) (cmp_dir_keys a b)
unfolding cmp_dir_keys cmp_bytes shorter_first longer_first byte_at
cmp_dir_keys-cons x y a b =
    ap (λ n. cmp_dir_keys_to n (x ∷ a) (y ∷ b)) (min-suc (length a) (length b)) ∙ ground arith

cmp_bytes_nil_append : (b : Bytes) → cmp_bytes [] (b ++ lit "/") ≡ Ordering.lt
unfolding cmp_bytes
cmp_bytes_nil_append [] = refl
cmp_bytes_nil_append (x ∷ b) = refl

cmp_bytes_append_nil : (a : Bytes) → cmp_bytes (a ++ lit "/") [] ≡ Ordering.gt
unfolding cmp_bytes
cmp_bytes_append_nil [] = refl
cmp_bytes_append_nil (x ∷ a) = refl

-- `cmp_dir_keys` compares the output keys of two directories.
pub cmp_dir_keys-eq-cmp_bytes :
    (a b : Bytes) → cmp_dir_keys a b ≡ cmp_bytes (a ++ lit "/") (b ++ lit "/")
unfolding cmp_bytes
cmp_dir_keys-eq-cmp_bytes [] [] = unfold cmp_dir_keys in refl
cmp_dir_keys-eq-cmp_bytes [] (y ∷ b) =
    unfold cmp_dir_keys shorter_first byte_at in
    ap (λ n. cmp_dir_keys_to n [] (y ∷ b)) (min-zero_left (suc (length b)))
    ∙ ground (arith, cmp_bytes_nil_append b)
cmp_dir_keys-eq-cmp_bytes (x ∷ a) [] =
    unfold cmp_dir_keys longer_first byte_at in
    ap (λ n. cmp_dir_keys_to n (x ∷ a) []) (min-zero_right (suc (length a)))
    ∙ ground (arith, cmp_bytes_append_nil a)
cmp_dir_keys-eq-cmp_bytes (x ∷ a) (y ∷ b) =
    cmp_dir_keys-cons x y a b ∙ ground (arith, cmp_dir_keys-eq-cmp_bytes a b)

-- `cmp_file_dir` compares a file's key with the output key of the directory.
pub cmp_file_dir-eq-cmp_bytes :
    (file dir : Bytes) → cmp_file_dir file dir ≡ cmp_bytes file (dir ++ lit "/")
unfolding cmp_file_dir
cmp_file_dir-eq-cmp_bytes file dir =
    ap reverse_ordering (cmp_dir_output-eq-cmp_bytes dir file)
    ∙ sym (cmp_swap (dir ++ lit "/") file)

-- `dir_output_starts_with` tests the output key of the directory.
pub dir_output_starts_with-eq-starts_with :
    (dir prefix : Bytes) → dir_output_starts_with dir prefix ≡ starts_with (dir ++ lit "/") prefix
unfolding dir_output_starts_with starts_with byte_at
dir_output_starts_with-eq-starts_with [] [] = refl
dir_output_starts_with-eq-starts_with [] (y ∷ []) = ground arith
dir_output_starts_with-eq-starts_with [] (y ∷ z ∷ p) = ground arith
dir_output_starts_with-eq-starts_with (x ∷ d) [] = ground arith
dir_output_starts_with-eq-starts_with (x ∷ d) (y ∷ p) =
    ground (arith, dir_output_starts_with-eq-starts_with d p)
