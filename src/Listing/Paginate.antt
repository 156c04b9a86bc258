-- ===== src/Listing/Paginate.antt =====
-- One page of a listing (Page and paginate of src/core/listing.rs).
use hdfs_s3_gateway.Prelude.{
  ℕ, ◌+◌, Bool, false, Bytes, lit, ◌=?◌, starts_with, key_lt, key_le, min, ltb, ◌==◌, if◌then◌else◌,
  Option, none, some, List, [], ◌∷◌, ◌++◌, map, length, take, drop, last?, select, ◌||◌,
}
use hdfs_s3_gateway.Listing.{ListEntry}
use hdfs_s3_gateway.Listing.Contents.{find, list_to_contents, into_vec}

-- `Page`
pub record Page : Type 0 where
  pub contents : List ListEntry
  pub common_prefixes : List Bytes
  pub is_truncated : Bool
  pub next_token : Option Bytes

module _ {ℓ} {A : Type ℓ} (key_of : A → Bytes) where
  unfoldable pub insert_sorted : A → List A → List A
  insert_sorted x [] = x ∷ []
  insert_sorted x (y ∷ ys) =
      let rest = insert_sorted x ys in if key_le (key_of x) (key_of y) then x ∷ y ∷ ys else y ∷ rest

  -- `slice::sort_by` on the keys' bytes: stable.
  unfoldable pub sort_by : List A → List A
  unfolding insert_sorted
  sort_by [] = []
  sort_by (x ∷ xs) = insert_sorted x (sort_by xs)

-- `slice::sort`
abbrev pub sort : List Bytes → List Bytes
sort = sort_by (λ k. k)

unfoldable pub dedup_after : Bytes → List Bytes → List Bytes
dedup_after x [] = []
dedup_after x (y ∷ ys) =
    let same = dedup_after x ys in
    let other = dedup_after y ys in if x =? y then same else y ∷ other

-- `Vec::dedup`
unfoldable pub dedup : List Bytes → List Bytes
unfolding dedup_after
dedup [] = []
dedup (x ∷ xs) = x ∷ dedup_after x xs

-- `page_set.contains(k)`
unfoldable pub contains : List Bytes → Bytes → Bool
contains [] k = false
contains (x ∷ xs) k = x =? k || contains xs k

-- The common prefix that a directory collapses to.
unfoldable pub dir_prefix : Bytes → Bytes → Bytes
unfolding find
dir_prefix prefix dir =
    let rest = drop (length prefix) dir in
    elim (find rest (lit "/")) [ some i ↦ prefix ++ take (i + 1) rest | none ↦ dir ++ lit "/" ]

-- The loop over `dirs`.
unfoldable pub dir_prefixes : Bytes → List Bytes → List Bytes
unfolding dir_prefix
dir_prefixes prefix [] = []
dir_prefixes prefix (dir ∷ dirs) =
    let rest = dir_prefixes prefix dirs in
    if starts_with dir prefix then dir_prefix prefix dir ∷ rest else rest

-- `delimiter == Some("/")`
unfoldable pub is_slash : Option Bytes → Bool
is_slash none = false
is_slash (some d) = d =? lit "/"

-- `retain(|e| e > marker)`, when there is a marker
unfoldable pub retain_after {ℓ} : {A : Type ℓ} → (A → Bytes) → Option Bytes → List A → List A
retain_after key_of none l = l
retain_after key_of (some marker) l = select (λ e. key_lt marker (key_of e)) l

-- The sorted common prefixes of the files and of the directories.
unfoldable pub common_vec : List ListEntry → List Bytes → Bytes → Option Bytes → List Bytes
unfolding list_to_contents sort_by dedup dir_prefixes is_slash
common_vec files dirs prefix delimiter =
    let common = into_vec (list_to_contents files prefix delimiter).1 in
    dedup (sort (common ++ (if is_slash delimiter then dir_prefixes prefix dirs else [])))

-- The page that is cut from the sorted contents and common prefixes after the marker.
unfoldable pub cut_page : List ListEntry → List Bytes → ℕ → Page
unfolding sort_by contains
cut_page contents common max_keys =
    let all_keys = sort (map (λ e. e.key) contents ++ common) in
    let n = min max_keys (length all_keys) in
    let page = take n all_keys in
    let is_truncated = ltb n (length all_keys) in
    record {
      contents = select (λ e. contains page e.key) contents;
      common_prefixes = select (contains page) common;
      is_truncated = is_truncated;
      next_token = if is_truncated then last? page else none;
    }

-- `paginate`
unfoldable pub paginate :
    List ListEntry → List Bytes → Bytes → Option Bytes → Option Bytes → ℕ → Page
unfolding list_to_contents sort_by common_vec retain_after cut_page
paginate files dirs prefix delimiter marker max_keys =
    if max_keys == 0
    then record { contents = []; common_prefixes = []; is_truncated = false; next_token = none }
    else (let contents = sort_by (λ e. e.key) (list_to_contents files prefix delimiter).0 in
        let common = common_vec files dirs prefix delimiter in
        cut_page (retain_after (λ e. e.key) marker contents) (retain_after (λ k. k) marker common)
          max_keys)
