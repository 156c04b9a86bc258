-- ===== src/SortedListing.antt =====
-- The lazy merge of directory listings in key order (src/s3/sorted_listing.rs).
pub mod Merge
pub mod Tree
pub mod Marker
pub mod Counting
pub mod Frontier
pub mod Tracking
pub mod Dropping
pub mod Skipping
pub mod Opening
pub mod Above
pub mod FilePulls
pub mod Pulls
pub mod Pages
pub mod Collect
use hdfs_s3_gateway.Prelude.{
  ℕ, zero, suc, ◌+◌, ◌-◌, Bool, true, false, not, ◌&&◌, Bytes, lit, slash, starts_with, cmp_bytes,
  key_le, reverse_ordering, compare, Ordering, min, ltb, ◌==◌, if◌then◌else◌, Option, none, some,
  List, [], ◌∷◌, ◌++◌, length, take, drop,
}
use hdfs_s3_gateway.Error.{HdfsError, is_access_denied}
use hdfs_s3_gateway.Path.{PathMapper, key_to_hdfs_path, hdfs_path_to_key}
use hdfs_s3_gateway.Listing.{
  ListEntry, DirListing, byte_at, cmp_dir_output, cmp_dir_keys, cmp_file_dir,
}
use hdfs_s3_gateway.Listing.Paginate.{sort_by}

-- `is_dir_denied`
unfoldable pub is_dir_denied : HdfsError → Bool
unfolding is_access_denied
is_dir_denied (HdfsError.rpc_error exception m) = is_access_denied exception
is_dir_denied (HdfsError.fatal_rpc_error exception m) = is_access_denied exception
is_dir_denied _ = false

unfoldable pub is_file_not_found : HdfsError → Bool
is_file_not_found (HdfsError.file_not_found p) = true
is_file_not_found _ = false

-- `Result<DirListing, HdfsError>`
pub data Listed : Type 0 where
  listed : DirListing → Listed
  failed : HdfsError → Listed

-- `FileStatus` of the client, what the program reads of it.
pub record FileStatus : Type 0 where
  pub path : Bytes
  pub length : ℕ
  pub isdir : Bool
  pub modification_time : ℕ

unfoldable pub insert_dir : Bytes → List Bytes → List Bytes
unfolding cmp_dir_keys
insert_dir d [] = d ∷ []
insert_dir d (e ∷ es) =
    let rest = insert_dir d es in
    elim (cmp_dir_keys d e) [
      | Ordering.gt ↦ e ∷ rest
      | Ordering.lt ↦ d ∷ e ∷ es
      | Ordering.eq ↦ d ∷ e ∷ es
    ]

-- `dirs.sort_by(cmp_dir_keys)`: stable.
unfoldable pub sort_dirs : List Bytes → List Bytes
unfolding insert_dir
sort_dirs [] = []
sort_dirs (d ∷ ds) = insert_dir d (sort_dirs ds)

-- One turn of the loop of `listing_from_statuses`.
unfoldable pub add_status :
    PathMapper → FileStatus → List ListEntry × List Bytes → List ListEntry × List Bytes
unfolding hdfs_path_to_key
add_status mapper status (files, dirs) = elim (hdfs_path_to_key mapper status.path) [
  | none ↦ (files, dirs)
  | some [] ↦ (files, dirs)
  | some (c ∷ cs) ↦ if status.isdir then (files, dirs ++ ((c ∷ cs) ∷ [])) else (
    files
        ++ (record {
          key = c ∷ cs;
          size = status.length;
          modification_time = status.modification_time;
        }
            ∷ []),
    dirs,
  )
]

unfoldable pub add_statuses :
    PathMapper → List FileStatus → List ListEntry × List Bytes → List ListEntry × List Bytes
unfolding add_status
add_statuses mapper [] s = s
add_statuses mapper (status ∷ statuses) s =
    add_statuses mapper statuses (add_status mapper status s)

-- `listing_from_statuses`
unfoldable pub listing_from_statuses : List FileStatus → PathMapper → DirListing
unfolding add_statuses sort_by sort_dirs
listing_from_statuses statuses mapper =
    let (files, dirs) = add_statuses mapper statuses ([], []) in
    record { files = sort_by (λ e. e.key) files; dirs = sort_dirs dirs }

-- `Cursor`
pub record Cursor : Type 0 where
  pub listing : DirListing
  pub files : Bool
  pub idx : ℕ

-- `v[i]`, with a value for a position out of bounds, which the program never reads.
abbrev pub get_or {ℓ} : {A : Type ℓ} → List A → ℕ → A → A
get_or [] i d = d
get_or (x ∷ xs) zero d = x
get_or (x ∷ xs) (suc i) d = get_or xs i d

abbrev pub no_entry : ListEntry
no_entry = record { key = []; size = 0; modification_time = 0 }

-- `Cursor::len`
unfoldable pub len : Cursor → ℕ
len c = if c.files then length c.listing.files else length c.listing.dirs

-- `Cursor::front`
unfoldable pub front : Cursor → Bytes
front c =
    if c.files then (get_or c.listing.files c.idx no_entry).key else get_or c.listing.dirs c.idx []

-- `Cursor::advance`
unfoldable pub advance : Cursor → Cursor × Bool
unfolding len
advance c = (record c { idx = c.idx + 1 }, ltb (c.idx + 1) (len c))

-- `Cursor::cmp`
unfoldable pub cmp_cursor : Cursor → Cursor → Ordering
unfolding front cmp_dir_keys cmp_file_dir
cmp_cursor c d =
    if c.files
    then (if d.files then cmp_bytes (front c) (front d) else cmp_file_dir (front c) (front d))
    else (if d.files
        then reverse_ordering (cmp_file_dir (front d) (front c))
        else cmp_dir_keys (front c) (front d))

-- `dir_children_all_before`
unfoldable pub dir_children_all_before : Bytes → Bytes → Bool
unfolding byte_at
dir_children_all_before key marker =
    let common = min (length key) (length marker) in
    elim (cmp_bytes (take common key) (take common marker)) [
      | Ordering.lt ↦ true
      | Ordering.gt ↦ false
      | Ordering.eq ↦
          if length key == length marker
          then false
          else if ltb (length key) (length marker)
          then ltb slash (byte_at marker (length key))
          else false
    ]

-- `slice::partition_point`
unfoldable pub partition_point {ℓ} : {A : Type ℓ} → (A → Bool) → List A → ℕ
partition_point p [] = 0
partition_point p (x ∷ xs) = let rest = partition_point p xs in if p x then suc rest else 0

-- `cmp_dir_output(d, marker) != Greater`
abbrev pub is_not_greater : Ordering → Bool
is_not_greater Ordering.gt = false
is_not_greater Ordering.lt = true
is_not_greater Ordering.eq = true

-- The test of `dirs_start_after`: the marker lies under the directory.
unfoldable pub straddles : Bytes → Bytes → Bool
unfolding byte_at
straddles candidate marker =
    ltb (length candidate) (length marker)
    && (starts_with marker candidate && byte_at marker (length candidate) == slash)

-- `dirs_start_after`
unfoldable pub dirs_start_after : List Bytes → Bytes → ℕ
unfolding partition_point cmp_dir_output straddles
dirs_start_after dirs marker =
    let start = partition_point (λ d. is_not_greater (cmp_dir_output d marker)) dirs in
    if ltb 0 start && straddles (get_or dirs (start - 1) []) marker then start - 1 else start

-- `SortedListing`; the heap is ascending, its first cursor the least.
pub record SortedListing : Type 0 where
  pub mapper : PathMapper
  pub prefix : Bytes
  pub after : Option Bytes
  pub start : Bytes
  pub heap : List Cursor
  pub start_seeded : Bool
  pub exhausted : Bool

-- `SortedListing::new`
unfoldable pub new : Bytes → Bytes → Option Bytes → PathMapper → SortedListing
new start prefix after mapper = record {
  mapper = mapper;
  prefix = prefix;
  after = after;
  start = start;
  heap = [];
  start_seeded = false;
  exhausted = false;
}

-- `heap.push(Reverse(cursor))`
unfoldable pub push : Cursor → List Cursor → List Cursor
unfolding cmp_cursor
push c [] = c ∷ []
push c (d ∷ ds) =
    let rest = push c ds in
    elim (cmp_cursor c d) [
      | Ordering.gt ↦ d ∷ rest
      | Ordering.lt ↦ c ∷ d ∷ ds
      | Ordering.eq ↦ c ∷ d ∷ ds
    ]

-- `if cursor.advance() { self.heap.push(Reverse(cursor)) }`
unfoldable pub push_advanced : Cursor → List Cursor → List Cursor
unfolding advance push
push_advanced c heap = if (advance c).1 then push (advance c).0 heap else heap

-- `if start < len { self.heap.push(..) }` of `push_listing`
unfoldable pub push_from : Cursor → List Cursor → List Cursor
unfolding len push
push_from c heap = if ltb c.idx (len c) then push c heap else heap

-- `files_start` and `dirs_start`
unfoldable pub starts_after : Option Bytes → DirListing → ℕ × ℕ
unfolding partition_point dirs_start_after
starts_after none listing = (0, 0)
starts_after (some marker) listing =
    (partition_point (λ f. key_le f.key marker) listing.files, dirs_start_after listing.dirs marker)

-- `push_listing`
unfoldable pub push_listing : Option Bytes → DirListing → List Cursor → List Cursor
unfolding starts_after push_from
push_listing after listing heap =
    let (files_start, dirs_start) = starts_after after listing in
    push_from (record { listing = listing; files = false; idx = dirs_start })
      (push_from (record { listing = listing; files = true; idx = files_start }) heap)
