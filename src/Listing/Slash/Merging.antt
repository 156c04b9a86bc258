-- ===== src/Listing/Slash/Merging.antt =====
-- What the merge of the files and the directories takes (the outer loop of paginate_slash in
-- src/core/listing.rs).
use hdfs_s3_gateway.Prelude.{
  ℕ, suc, ◌≡◌, ◌≢◌, refl, ap, ◌∙◌, true, Bytes, lit, cmp_swap, ◌≺◌, key_le, ltb, =?_false, =?_refl,
  if◌then◌else◌, Option, none, some, List, [], ◌∷◌, ◌++◌, append_assoc, map, take, length, last?,
  select, All, All-append, arith,
}
use hdfs_s3_gateway.Listing.{ListEntry}
use hdfs_s3_gateway.Listing.Compare.{
  cmp_dir_output-eq-cmp_bytes, dir_output_starts_with-eq-starts_with,
}
use hdfs_s3_gateway.Listing.Paginate.{Page, insert_sorted, sort_by, sort, contains}
use hdfs_s3_gateway.Listing.Sorting.{All-map_to, ne_of_lt, key_le_of_lt, All-sort}
use hdfs_s3_gateway.Listing.Slash.{is_greater, skip_files, skip_dirs, Taken, push_file, push_dir}
use hdfs_s3_gateway.Listing.Slash.Seek.{skip}

-- The output key of a directory, and a key that is none.
abbrev pub output : Bytes → Bytes
output d = d ++ lit "/"

abbrev pub file_key : ListEntry → Bytes
file_key f = f.key

abbrev pub IsPlain : ListEntry → Type 0
IsPlain f = (d : Bytes) → output d ≢ f.key

pub skip_files-eq-skip :
    (prefix : Bytes) (files : List ListEntry) → skip_files prefix files ≡ skip file_key prefix files
unfolding skip_files skip
skip_files-eq-skip prefix [] = refl
skip_files-eq-skip prefix (f ∷ files) = ground (arith, skip_files-eq-skip prefix files)

pub skip_dirs-eq-skip :
    (prefix : Bytes) (dirs : List Bytes) → skip_dirs prefix dirs ≡ skip output prefix dirs
unfolding skip_dirs skip is_greater
skip_dirs-eq-skip prefix [] = refl
skip_dirs-eq-skip prefix (d ∷ dirs) = ground (
  arith,
  skip_dirs-eq-skip prefix dirs,
  dir_output_starts_with-eq-starts_with d prefix,
  cmp_dir_output-eq-cmp_bytes d prefix,
  cmp_swap (output d) prefix,
)

-- All keys that are left, in order.
unfoldable pub keys_left : List ListEntry → List Bytes → List Bytes
unfolding sort_by
keys_left files dirs = sort (map file_key files ++ map output dirs)

-- The last of some keys, or another one when there are none.
unfoldable pub last_or : Option Bytes → List Bytes → Option Bytes
last_or k [] = k
last_or k (x ∷ l) = last_or (some x) l

pub last_or-eq-last : (x : Bytes) (l : List Bytes) → last_or (some x) l ≡ last? (x ∷ l)
unfolding last_or
last_or-eq-last x [] = refl
last_or-eq-last x (y ∷ l) = last_or-eq-last y l

-- The page of the first of the keys that are left, behind what is taken.
unfoldable pub page_from : ℕ → List Bytes → List ListEntry → List Bytes → Taken → Page
unfolding last_or contains
page_from left keys files outputs t = record {
  contents = t.contents ++ select (λ f. contains (take left keys) f.key) files;
  common_prefixes = t.common_prefixes ++ select (λ k. contains (take left keys) k) outputs;
  is_truncated = ltb left (length keys);
  next_token = if ltb left (length keys) then last_or t.last_key (take left keys) else none;
}

abbrev pub page_of : ℕ → List ListEntry → List Bytes → Taken → Page
page_of left files dirs t = page_from left (keys_left files dirs) files (map output dirs) t

insert_sorted_least :
    (x : Bytes) (l : List Bytes)
    → All (λ y. key_le x y ≡ true) l
    → insert_sorted (λ k. k) x l ≡ x ∷ l
unfolding insert_sorted
insert_sorted_least x [] h = refl
insert_sorted_least x (y ∷ l) h = ground (arith, h.0)

insert_above :
    (x y : Bytes) (l : List Bytes)
    → x ≺ y
    → insert_sorted (λ k. k) y (x ∷ l) ≡ x ∷ insert_sorted (λ k. k) y l
unfolding insert_sorted
insert_above x y l h = ground (arith, cmp_swap x y, h)

-- The least key is the first.
sort_least :
    (x : Bytes) (a b : List Bytes)
    → All (λ y. x ≺ y) a
    → All (λ y. x ≺ y) b
    → sort (a ++ (x ∷ b)) ≡ x ∷ sort (a ++ b)
unfolding sort_by
sort_least x [] b ha hb =
    insert_sorted_least x (sort b)
      (All-sort (λ y. key_le x y ≡ true) b (All-map_to (key_le_of_lt x) b hb))
sort_least x (y ∷ a) b ha hb =
    ap (insert_sorted (λ k. k) y) (sort_least x a b ha.1 hb) ∙ insert_above x y (sort (a ++ b)) ha.0

pub contains_nothing :
    {A : Type 0} (key : A → Bytes) (l : List A) → select (λ y. contains [] (key y)) l ≡ []
unfolding contains
contains_nothing key [] = refl
contains_nothing key (x ∷ l) = contains_nothing key l

pub contains_later :
    {A : Type 0} (key : A → Bytes) (x : Bytes) (page : List Bytes) (l : List A)
    → All (λ y. x ≺ key y) l
    → select (λ y. contains (x ∷ page) (key y)) l ≡ select (λ y. contains page (key y)) l
unfolding contains
contains_later key x page [] h = refl
contains_later key x page (y ∷ l) h =
    ground (arith, contains_later key x page l h.1, =?_false x (key y) (ne_of_lt x (key y) h.0))

pub keys_left-file :
    (f : ListEntry) (files : List ListEntry) (dirs : List Bytes)
    → All (λ y. f.key ≺ y) (map file_key files)
    → All (λ y. f.key ≺ y) (map output dirs)
    → keys_left (f ∷ files) dirs ≡ f.key ∷ keys_left files dirs
unfolding keys_left
keys_left-file f files dirs hf hd =
    sort_least f.key [] (map file_key files ++ map output dirs) tt
      (All-append (λ y. f.key ≺ y) (map file_key files) (map output dirs) hf hd)

pub keys_left-dir :
    (files : List ListEntry) (d : Bytes) (dirs : List Bytes)
    → All (λ y. output d ≺ y) (map file_key files)
    → All (λ y. output d ≺ y) (map output dirs)
    → keys_left files (d ∷ dirs) ≡ output d ∷ keys_left files dirs
unfolding keys_left
keys_left-dir files d dirs hf hd =
    sort_least (output d) (map file_key files) (map output dirs) hf hd

pub All-of_map {κ} :
    {A : Type 0} (P : Bytes → Type κ) (key : A → Bytes) (l : List A)
    → All P (map key l)
    → All (λ y. P (key y)) l
All-of_map P key [] h = tt
All-of_map P key (x ∷ l) h = (h.0, All-of_map P key l h.1)

pub page_from-file :
    (left : ℕ) (keys : List Bytes) (f : ListEntry) (files : List ListEntry) (outputs : List Bytes)
    (t : Taken)
    → All (λ y. f.key ≺ y.key) files
    → All (λ y. f.key ≺ y) outputs
    → page_from (suc left) (f.key ∷ keys) (f ∷ files) outputs t
      ≡ page_from left keys files outputs (push_file t f)
unfolding page_from push_file last_or
page_from-file left keys f files outputs t hf hd =
    let page = take left keys in
    let here = contains_later file_key f.key page files hf in
    let there = contains_later (λ k. k) f.key page outputs hd in
    let self : contains (f.key ∷ page) f.key ≡ true =
      unfold contains in ground (arith, =?_refl f.key) in
    ground (
      arith,
      here,
      there,
      self,
      append_assoc t.contents (f ∷ []) (select (λ y. contains page y.key) files),
    )

pub page_from-dir :
    (left : ℕ) (keys : List Bytes) (d : Bytes) (files : List ListEntry) (outputs : List Bytes)
    (t : Taken)
    → All (λ y. output d ≺ y.key) files
    → All (λ y. output d ≺ y) outputs
    → page_from (suc left) (output d ∷ keys) files (output d ∷ outputs) t
      ≡ page_from left keys files outputs (push_dir t d)
unfolding page_from push_dir last_or
page_from-dir left keys d files outputs t hf hd =
    let page = take left keys in
    let here = contains_later file_key (output d) page files hf in
    let there = contains_later (λ k. k) (output d) page outputs hd in
    let self : contains (output d ∷ page) (output d) ≡ true =
      unfold contains in ground (arith, =?_refl (output d)) in
    ground (
      arith,
      here,
      there,
      self,
      append_assoc t.common_prefixes (output d ∷ []) (select (λ y. contains page y) outputs),
    )
