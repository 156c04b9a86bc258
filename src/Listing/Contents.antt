-- ===== src/Listing/Contents.antt =====
-- Which keys are listed and which collapse to a common prefix (list_to_contents and
-- CommonPrefixSet of src/core/listing.rs).
use hdfs_s3_gateway.Prelude.{
  ℕ, suc, ◌+◌, Bytes, starts_with, cmp_bytes, Ordering, if◌then◌else◌, Option, none, some, List, [],
  ◌∷◌, ◌++◌, length, take, drop,
}
use hdfs_s3_gateway.Listing.{ListEntry}

-- `s.find(d)`
unfoldable pub find : Bytes → Bytes → Option ℕ
unfolding starts_with
find [] d = if starts_with [] d then some 0 else none
find (x ∷ xs) d =
    let rest = find xs d in
    if starts_with (x ∷ xs) d then some 0 else elim rest [ none ↦ none | some i ↦ some (suc i) ]

-- `BTreeSet::insert`
unfoldable pub set_insert : Bytes → List Bytes → List Bytes
set_insert k [] = k ∷ []
set_insert k (x ∷ xs) =
    let rest = set_insert k xs in
    elim (cmp_bytes k x) [
      | Ordering.lt ↦ k ∷ x ∷ xs
      | Ordering.eq ↦ x ∷ xs
      | Ordering.gt ↦ x ∷ rest
    ]

-- `CommonPrefixSet`
pub record CommonPrefixSet : Type 0 where
  pub prefixes : List Bytes

-- `CommonPrefixSet::insert`
unfoldable pub insert : CommonPrefixSet → Bytes → CommonPrefixSet
unfolding set_insert
insert s prefix = record { prefixes = set_insert prefix s.prefixes }

-- `CommonPrefixSet::into_vec`
abbrev pub into_vec : CommonPrefixSet → List Bytes
into_vec s = s.prefixes

-- `delimiter.filter(|d| !d.is_empty())`
abbrev pub nonempty_delimiter : Option Bytes → Option Bytes
nonempty_delimiter none = none
nonempty_delimiter (some []) = none
nonempty_delimiter (some (x ∷ d)) = some (x ∷ d)

-- The common prefix that a key collapses to, if its rest has the delimiter.
unfoldable pub collapsed : Bytes → Option Bytes → Bytes → Option Bytes
unfolding find
collapsed prefix none rest = none
collapsed prefix (some delim) rest = elim (find rest delim) [
  | none ↦ none
  | some idx ↦ some (prefix ++ take (idx + length delim) rest)
]

-- One turn of the loop.
unfoldable pub list_entry :
    Bytes
    → Option Bytes
    → ListEntry
    → List ListEntry × CommonPrefixSet
    → List ListEntry × CommonPrefixSet
unfolding collapsed insert
list_entry prefix delimiter entry (contents, common) =
    if starts_with entry.key prefix
    then elim (collapsed prefix delimiter (drop (length prefix) entry.key)) [
      | none ↦ (contents ++ (entry ∷ []), common)
      | some common_prefix ↦ (contents, insert common common_prefix)
    ]
    else (contents, common)

unfoldable pub list_entries :
    Bytes
    → Option Bytes
    → List ListEntry
    → List ListEntry × CommonPrefixSet
    → List ListEntry × CommonPrefixSet
unfolding list_entry
list_entries prefix delimiter [] s = s
list_entries prefix delimiter (entry ∷ entries) s =
    list_entries prefix delimiter entries (list_entry prefix delimiter entry s)

-- `list_to_contents`
unfoldable pub list_to_contents :
    List ListEntry → Bytes → Option Bytes → List ListEntry × CommonPrefixSet
unfolding list_entries
list_to_contents entries prefix delimiter =
    list_entries prefix (nonempty_delimiter delimiter) entries ([], record { prefixes = [] })
