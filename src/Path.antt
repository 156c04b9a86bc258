-- ===== src/Path.antt =====
-- S3 keys to HDFS paths and back: `PathMapper` (src/core/path.rs).
pub mod Segments
pub mod Walk
pub mod Containment
pub mod Rendering
pub mod RoundTrip
pub mod ListStart
pub mod Children
use hdfs_s3_gateway.Prelude.{
  ℕ, zero, suc, ◌+◌, Bool, true, false, ◌||◌, Bytes, lit, slash, ◌=?◌, starts_with, strip_prefix,
  Option, none, some, List, [], ◌∷◌, ◌++◌, ◌==◌, take, if◌then◌else◌,
}
use hdfs_s3_gateway.Config.{Config}

push_head : ℕ → List Bytes → List Bytes
push_head c [] = (c ∷ []) ∷ []
push_head c (seg ∷ rest) = (c ∷ seg) ∷ rest

-- `path.split('/')`
unfoldable pub split : Bytes → List Bytes
unfolding push_head
split [] = [] ∷ []
split (c ∷ s) = let rest = split s in if c == slash then [] ∷ rest else push_head c rest

-- Each segment behind a `/`.
pub join_tail : List Bytes → Bytes
join_tail [] = []
join_tail (y ∷ ys) = slash ∷ y ++ join_tail ys

-- `parts.join("/")`
unfoldable pub join : List Bytes → Bytes
unfolding join_tail
join [] = []
join (x ∷ xs) = x ++ join_tail xs

-- `Vec::pop`: the vector without its last element, `none` if it is empty.
pop : List Bytes → Option (List Bytes)
pop [] = none
pop (x ∷ []) = some []
pop (x ∷ y ∷ xs) = elim (pop (y ∷ xs)) [ none ↦ none | some rest ↦ some (x ∷ rest) ]

pop_parent : Bool → List Bytes → Option (List Bytes) → Option (List Bytes)
pop_parent absolute parts (some rest) = some rest
pop_parent true parts none = none
pop_parent false parts none = some parts

-- One round of the loop of `normalize_abs`.
normalize_step : Bool → Bytes → List Bytes → Option (List Bytes)
unfolding pop pop_parent
normalize_step absolute segment parts =
    if segment =? lit "" || segment =? lit "."
    then some parts
    else if segment =? lit ".."
    then pop_parent absolute parts (pop parts)
    else some (parts ++ segment ∷ [])

pub normalize_segments : Bool → List Bytes → List Bytes → Option (List Bytes)
unfolding normalize_step
normalize_segments absolute [] parts = some parts
normalize_segments absolute (segment ∷ rest) parts = elim (normalize_step absolute segment parts) [
  | none ↦ none
  | some parts' ↦ normalize_segments absolute rest parts'
]

unfoldable pub render : Bool → List Bytes → Bytes
unfolding join
render true parts = slash ∷ join parts
render false parts = join parts

-- The body of `normalize_abs` once the path is split.
pub collapse : Bool → List Bytes → Option Bytes
unfolding normalize_segments render
collapse absolute segments = elim (normalize_segments absolute segments []) [
  | none ↦ none
  | some parts ↦ some (render absolute parts)
]

-- `normalize_abs`
pub normalize_abs : Bytes → Option Bytes
unfolding collapse split
normalize_abs path = collapse (starts_with path (lit "/")) (split path)

-- `rooted` in `normalize_root`.
rooted : Bytes → Bytes
rooted root = if starts_with root (lit "/") then root else slash ∷ root

or_slash : Option Bytes → Bytes
or_slash none = lit "/"
or_slash (some path) = path

-- `normalize_root`
normalize_root : Bytes → Bytes
unfolding normalize_abs rooted or_slash
normalize_root root = or_slash (normalize_abs (rooted root))

pub record PathMapper : Type 0 where
  pub root : Bytes
  pub bucket : Bytes

-- `PathMapper::new`
unfoldable pub mapper_new : Config → PathMapper
unfolding normalize_root
mapper_new config = record { root = normalize_root config.hdfs_root; bucket = config.bucket_name }

-- `join_root`
pub join_root : Bytes → Bytes → Bytes
join_root root key = if root =? lit "/" then slash ∷ key else root ++ slash ∷ key

-- `key.trim_start_matches('/')`
pub trim_slashes : Bytes → Bytes
trim_slashes [] = []
trim_slashes (c ∷ s) = if c == slash then trim_slashes s else c ∷ s

pub under_root : Bytes → Bytes → Bool
under_root root path =
    if root =? lit "/"
    then starts_with path (lit "/")
    else path =? root || starts_with path (root ++ lit "/")

-- `PathMapper::key_to_hdfs_path`
unfoldable pub key_to_hdfs_path : PathMapper → Bytes → Option Bytes
unfolding normalize_abs join_root trim_slashes under_root
key_to_hdfs_path m key =
    let key' = trim_slashes key in
    if key' =? [] then none else elim (normalize_abs (join_root m.root key')) [
      | none ↦ none
      | some path ↦ if under_root m.root path then some path else none
    ]

pub first_segment : List Bytes → Bytes
first_segment [] = []
first_segment (x ∷ xs) = x

-- `prefix.rfind('/')`
pub rfind_slash : Bytes → Option ℕ
rfind_slash [] = none
rfind_slash (c ∷ s) = elim (rfind_slash s) [
  | some i ↦ some (suc i)
  | none ↦ if c == slash then some 0 else none
]

-- `PathMapper::list_start`
unfoldable pub list_start : PathMapper → Bytes → Option Bytes
unfolding split first_segment rfind_slash key_to_hdfs_path
list_start m prefix =
    let first = first_segment (split prefix) in
    if first =? lit "." || first =? lit ".." then none else elim (rfind_slash prefix) [
      | none ↦ some m.root
      | some i ↦ key_to_hdfs_path m (take (i + 1) prefix)
    ]

pub strip_root : Bytes → Bytes → Option Bytes
strip_root root path =
    if root =? lit "/" then strip_prefix path (lit "/") else strip_prefix path (root ++ lit "/")

-- `PathMapper::hdfs_path_to_key`
unfoldable pub hdfs_path_to_key : PathMapper → Bytes → Option Bytes
unfolding normalize_abs strip_root
hdfs_path_to_key m path = elim (normalize_abs path) [
  | none ↦ none
  | some normalized ↦ if normalized =? m.root then some [] else strip_root m.root normalized
]
