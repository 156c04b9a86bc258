-- ===== src/Listing/Members.antt =====
-- Which keys a listing holds (list_to_contents and paginate of src/core/listing.rs).
use hdfs_s3_gateway.Prelude.{
  ◌≡◌, refl, sym, ap, ap₂, ◌∙◌, Bool, true, false, ◌&&◌, ◌||◌, Bytes, ◌=?◌, =?_iff, starts_with,
  eq_of_cmp, if◌then◌else◌, Option, none, some, List, [], ◌∷◌, ◌++◌, map, length, drop, arith,
}
use hdfs_s3_gateway.Listing.{ListEntry}
use hdfs_s3_gateway.Listing.Contents.{
  set_insert, insert, CommonPrefixSet, nonempty_delimiter, collapsed, list_entry, list_entries,
  list_to_contents,
}
use hdfs_s3_gateway.Listing.Paginate.{
  insert_sorted, sort_by, sort, dedup_after, dedup, contains, dir_prefixes, is_slash, common_vec,
}
use hdfs_s3_gateway.Listing.Shown.{
  any, group_of, shows_file, shows_dir, collapsed-group_of, contains-dir_prefixes,
}
use hdfs_s3_gateway.Listing.Whole.{listing_keys, map-sort_by}

-- The key under which a listing shows a file: its own, or the common prefix it collapses to.
abbrev output_key : Bytes → Option Bytes → Bytes → Bytes
output_key prefix delimiter key = elim (collapsed prefix delimiter (drop (length prefix) key)) [
  | none ↦ key
  | some common_prefix ↦ common_prefix
]

-- The file matches the prefix and is shown under this key.
abbrev is_shown_as : Bytes → Option Bytes → Bytes → ListEntry → Bool
is_shown_as prefix delimiter k e =
    starts_with e.key prefix && output_key prefix delimiter e.key =? k

contains-append :
    (a b : List Bytes) (k : Bytes) → contains (a ++ b) k ≡ (contains a k || contains b k)
unfolding contains
contains-append [] b k = refl
contains-append (x ∷ a) b k = ground (arith, contains-append a b k)

contains-insert_sorted :
    (x : Bytes) (l : List Bytes) (k : Bytes)
    → contains (insert_sorted (λ k. k) x l) k ≡ (x =? k || contains l k)
unfolding insert_sorted contains
contains-insert_sorted x [] k = refl
contains-insert_sorted x (y ∷ l) k = ground (arith, contains-insert_sorted x l k)

contains-sort : (l : List Bytes) (k : Bytes) → contains (sort l) k ≡ contains l k
unfolding sort_by contains
contains-sort [] k = refl
contains-sort (x ∷ l) k = ground (arith, contains-insert_sorted x (sort l) k, contains-sort l k)

contains-dedup_after :
    (x : Bytes) (l : List Bytes) (k : Bytes)
    → (x =? k || contains (dedup_after x l) k) ≡ (x =? k || contains l k)
unfolding dedup_after contains
contains-dedup_after x [] k = refl
contains-dedup_after x (y ∷ l) k =
    ground (arith, contains-dedup_after x l k, contains-dedup_after y l k, =?_iff x y)

contains-dedup : (l : List Bytes) (k : Bytes) → contains (dedup l) k ≡ contains l k
unfolding dedup contains
contains-dedup [] k = refl
contains-dedup (x ∷ l) k = contains-dedup_after x l k

contains-set_insert :
    (g : Bytes) (l : List Bytes) (k : Bytes)
    → contains (set_insert g l) k ≡ (g =? k || contains l k)
unfolding set_insert contains
contains-set_insert g [] k = refl
contains-set_insert g (x ∷ l) k = ground (arith, contains-set_insert g l k, eq_of_cmp g x)

-- The keys that the loop has shown so far.
abbrev is_shown : List ListEntry × CommonPrefixSet → Bytes → Bool
is_shown (c, s) k = contains (map (λ e. e.key) c) k || contains s.prefixes k

is_shown-push :
    (e : ListEntry) (c : List ListEntry) (k : Bytes)
    → contains (map (λ e. e.key) (c ++ (e ∷ []))) k
      ≡ (e.key =? k || contains (map (λ e. e.key) c) k)
unfolding contains
is_shown-push e [] k = refl
is_shown-push e (x ∷ c) k = ground (arith, is_shown-push e c k)

-- One turn, by whether the key matches and what it collapses to.
is_shown_turn :
    (b : Bool) (o : Option Bytes) (e : ListEntry) (c : List ListEntry) (s : CommonPrefixSet)
    (k : Bytes)
    → is_shown
        (if b
          then (elim o as (λ r. List ListEntry × CommonPrefixSet) [
            | none ↦ (c ++ (e ∷ []), s)
            | some g ↦ (c, insert s g)
          ])
          else (c, s))
        k
      ≡ (b && (elim o [ none ↦ e.key | some g ↦ g ]) =? k || is_shown (c, s) k)
unfolding insert
is_shown_turn false o e c s k = refl
is_shown_turn true none e c s k = ground (arith, is_shown-push e c k)
is_shown_turn true (some g) e c s k = ground (arith, contains-set_insert g s.prefixes k)

is_shown-list_entry :
    (prefix : Bytes) (d : Option Bytes) (e : ListEntry) (c : List ListEntry) (s : CommonPrefixSet)
    (k : Bytes)
    → is_shown (list_entry prefix d e (c, s)) k ≡ (is_shown_as prefix d k e || is_shown (c, s) k)
unfolding list_entry
is_shown-list_entry prefix d e c s k =
    is_shown_turn (starts_with e.key prefix) (collapsed prefix d (drop (length prefix) e.key)) e c s
      k

is_shown-list_entries :
    (prefix : Bytes) (d : Option Bytes) (es c : List ListEntry) (s : CommonPrefixSet) (k : Bytes)
    → is_shown (list_entries prefix d es (c, s)) k
      ≡ (any (is_shown_as prefix d k) es || is_shown (c, s) k)
unfolding list_entries
is_shown-list_entries prefix d [] c s k = refl
is_shown-list_entries prefix d (e ∷ es) c s k =
    let (c1, s1) = list_entry prefix d e (c, s) in
    is_shown-list_entries prefix d es c1 s1 k ∙ ground (arith, is_shown-list_entry prefix d e c s k)

or_regroup : (a b c q : Bool) → (a || b) ≡ (q || (false || false)) → (a || (b || c)) ≡ (q || c)
or_regroup a b c q h = ground (arith, h)

contains-if :
    (b : Bool) (l : List Bytes) (k : Bytes) → contains (if b then l else []) k ≡ (b && contains l k)
unfolding contains
contains-if true l k = refl
contains-if false l k = refl

shown_elim :
    (key prefix : Bytes) (group common : Option Bytes)
    → common ≡ elim group [ none ↦ none | some part ↦ some (prefix ++ part) ]
    → (elim common [ none ↦ key | some common_prefix ↦ common_prefix ])
      ≡ (elim group [ none ↦ key | some part ↦ prefix ++ part ])
shown_elim key prefix none common h = ground (arith, h)
shown_elim key prefix (some part) common h = ground (arith, h)

any_none : (dirs : List Bytes) → any (λ dir. false) dirs ≡ false
any_none [] = refl
any_none (dir ∷ dirs) = any_none dirs

module _ (files : List ListEntry) (dirs : List Bytes) (prefix : Bytes)
    (delimiter : Option Bytes) where
  contains-contents :
      (k : Bytes)
      → contains
          (map (λ e. e.key) (sort_by (λ e. e.key) (list_to_contents files prefix delimiter).0))
          k
        ≡ contains (map (λ e. e.key) (list_to_contents files prefix delimiter).0) k
  contains-contents k =
      let contents = (list_to_contents files prefix delimiter).0 in
      ap (λ l. contains l k) (map-sort_by contents) ∙ contains-sort (map (λ e. e.key) contents) k

  contains-common_vec :
      (k : Bytes)
      → contains (common_vec files dirs prefix delimiter) k ≡ (
          contains (list_to_contents files prefix delimiter).1.prefixes k
          || (is_slash delimiter && contains (dir_prefixes prefix dirs) k))
  unfolding common_vec
  contains-common_vec k =
      let common = (list_to_contents files prefix delimiter).1.prefixes in
      let from_dirs = if is_slash delimiter then dir_prefixes prefix dirs else [] in
      contains-dedup (sort (common ++ from_dirs)) k
      ∙ contains-sort (common ++ from_dirs) k
      ∙ contains-append common from_dirs k
      ∙ ap (contains common k ||◌) (contains-if (is_slash delimiter) (dir_prefixes prefix dirs) k)

  is_shown_as-shows_file :
      (k : Bytes) (es : List ListEntry)
      → any (is_shown_as prefix (nonempty_delimiter delimiter) k) es
        ≡ any (shows_file prefix delimiter k) es
  is_shown_as-shows_file k [] = refl
  is_shown_as-shows_file k (e ∷ es) =
      let rest = drop (length prefix) e.key in
      ap₂ (λ shown others. (starts_with e.key prefix && shown =? k) || others)
        (shown_elim e.key prefix (group_of delimiter rest)
          (collapsed prefix (nonempty_delimiter delimiter) rest)
          (collapsed-group_of prefix delimiter rest))
        (is_shown_as-shows_file k es)

  dirs-shows_dir :
      (d : Option Bytes) (k : Bytes)
      → (is_slash d && contains (dir_prefixes prefix dirs) k) ≡ any (shows_dir prefix d k) dirs
  unfolding is_slash
  dirs-shows_dir none k = sym (any_none dirs)
  dirs-shows_dir (some d) k = contains-dir_prefixes prefix d k dirs

  -- A listing holds a key exactly when a file with the prefix is shown under it, or a directory with
  -- the prefix is and the delimiter is a slash. A file is shown under its own key if there is no
  -- delimiter, or an empty one, or the key has none after the prefix, and else under its key up to
  -- the end of the first delimiter after the prefix; a directory is shown up to the first slash after
  -- the prefix, with it, or with a slash at its end if it has none there.
  pub contains-listing_keys :
      (k : Bytes)
      → contains (listing_keys files dirs prefix delimiter) k
        ≡ (any (shows_file prefix delimiter k) files || any (shows_dir prefix delimiter k) dirs)
  unfolding listing_keys list_to_contents contains
  contains-listing_keys k =
      let contents = (list_to_contents files prefix delimiter).0 in
      let common = common_vec files dirs prefix delimiter in
      let sorted = map (λ e. e.key) (sort_by (λ e. e.key) contents) in
      let shown =
        is_shown-list_entries prefix (nonempty_delimiter delimiter) files []
          (record { prefixes = [] }) k in
      contains-sort (sorted ++ common) k
      ∙ contains-append sorted common k
      ∙ ap₂ ◌||◌ (contains-contents k) (contains-common_vec k)
      ∙ or_regroup _ _ _ _ shown
      ∙ ap₂ ◌||◌ (is_shown_as-shows_file k files) (dirs-shows_dir delimiter k)
