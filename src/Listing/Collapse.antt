-- ===== src/Listing/Collapse.antt =====
-- Contents and common prefixes never meet: a listed key has no delimiter after the prefix, a common
-- prefix has one (list_to_contents and the loop over `dirs` of src/core/listing.rs).
use hdfs_s3_gateway.Prelude.{
  ◌+◌, ◌≡◌, refl, ap, subst, ◌∙◌, sym, inl, inr, Bool, true, Bytes, lit, =?_iff, starts_with,
  starts_with_split, Option-cases, if◌then◌else◌, Option, none, some, List, [], ◌∷◌, ◌++◌,
  append_assoc, append-nil, length, take, drop, select, All, All-append, arith,
}
use hdfs_s3_gateway.Listing.{ListEntry}
use hdfs_s3_gateway.Listing.Contents.{
  find, insert, CommonPrefixSet, nonempty_delimiter, collapsed, list_entry, list_entries,
  list_to_contents,
}
use hdfs_s3_gateway.Listing.Paginate.{dir_prefix, dir_prefixes, is_slash, common_vec, sort}
use hdfs_s3_gateway.Listing.Sorting.{if-elim, if-cases, All-sort, All-dedup}
use hdfs_s3_gateway.Listing.Finding.{
  has_delimiter, is_listed, find-append, find-take, collapsed_some, has_delimiter-collapsed,
  All-set_insert,
}

-- One turn of the loop.
list_entry_contents :
    (prefix : Bytes) (d : Option Bytes) (e : ListEntry) (c : List ListEntry) (s : CommonPrefixSet)
    → (list_entry prefix d e (c, s)).0 ≡ c ++ select (is_listed prefix d) (e ∷ [])
unfolding list_entry
list_entry_contents prefix d e c s = ground (arith, append-nil c)

All-insert-collapsed :
    (prefix : Bytes) (d : Option Bytes) (e : ListEntry) (c : List ListEntry) (s : CommonPrefixSet)
    (o : Option Bytes)
    → ((k : Bytes) → o ≡ some k → has_delimiter prefix d k ≡ true)
    → All (λ k. has_delimiter prefix d k ≡ true) s.prefixes
    → All
        (λ k. has_delimiter prefix d k ≡ true)
        (elim o as (λ r. List ListEntry × CommonPrefixSet) [
          | none ↦ (c ++ (e ∷ []), s)
          | some k ↦ (c, insert s k)
        ]).1.prefixes
unfolding insert
All-insert-collapsed prefix d e c s none f h = h
All-insert-collapsed prefix d e c s (some k) f h =
    All-set_insert (λ k. has_delimiter prefix d k ≡ true) k s.prefixes (f k refl) h

list_entry_common :
    (prefix : Bytes) (d : Option Bytes) (e : ListEntry) (c : List ListEntry) (s : CommonPrefixSet)
    → All (λ k. has_delimiter prefix d k ≡ true) s.prefixes
    → All (λ k. has_delimiter prefix d k ≡ true) (list_entry prefix d e (c, s)).1.prefixes
unfolding list_entry
list_entry_common prefix d e c s h =
    let rest = drop (length prefix) e.key in
    if-elim {A = List ListEntry × CommonPrefixSet}
      (λ r. All (λ k. has_delimiter prefix d k ≡ true) r.1.prefixes) (starts_with e.key prefix)
      (elim (collapsed prefix d rest) [ none ↦ (c ++ (e ∷ []), s) | some k ↦ (c, insert s k) ])
      (c, s)
      (All-insert-collapsed prefix d e c s (collapsed prefix d rest)
        (λ k. has_delimiter-collapsed prefix d rest k) h)
      h

select-cons :
    {A : Type 0} (p : A → Bool) (x : A) (l : List A)
    → select p (x ∷ l) ≡ select p (x ∷ []) ++ select p l
select-cons p x l = ground arith

-- The loop keeps the entries that are listed, in their order.
list_entries_contents :
    (prefix : Bytes) (d : Option Bytes) (es c : List ListEntry) (s : CommonPrefixSet)
    → (list_entries prefix d es (c, s)).0 ≡ c ++ select (is_listed prefix d) es
unfolding list_entries
list_entries_contents prefix d [] c s = sym (append-nil c)
list_entries_contents prefix d (e ∷ es) c s =
    let (c1, s1) = list_entry prefix d e (c, s) in
    list_entries_contents prefix d es c1 s1
    ∙ ap (λ k. k ++ select (is_listed prefix d) es) (list_entry_contents prefix d e c s)
    ∙ append_assoc c (select (is_listed prefix d) (e ∷ [])) (select (is_listed prefix d) es)
    ∙ ap (c ++◌) (sym (select-cons (is_listed prefix d) e es))

list_entries_common :
    (prefix : Bytes) (d : Option Bytes) (es c : List ListEntry) (s : CommonPrefixSet)
    → All (λ k. has_delimiter prefix d k ≡ true) s.prefixes
    → All (λ k. has_delimiter prefix d k ≡ true) (list_entries prefix d es (c, s)).1.prefixes
unfolding list_entries
list_entries_common prefix d [] c s h = h
list_entries_common prefix d (e ∷ es) c s h =
    let (c1, s1) = list_entry prefix d e (c, s) in
    list_entries_common prefix d es c1 s1 (list_entry_common prefix d e c s h)

pub list_to_contents_listed :
    (files : List ListEntry) (prefix : Bytes) (delimiter : Option Bytes)
    → (list_to_contents files prefix delimiter).0
      ≡ select (is_listed prefix (nonempty_delimiter delimiter)) files
unfolding list_to_contents
list_to_contents_listed files prefix delimiter =
    list_entries_contents prefix (nonempty_delimiter delimiter) files [] (record { prefixes = [] })

-- The directories' common prefixes.
has_delimiter-dir_prefix :
    (prefix dir : Bytes)
    → starts_with dir prefix ≡ true
    → has_delimiter prefix (some (lit "/")) (dir_prefix prefix dir) ≡ true
unfolding dir_prefix
has_delimiter-dir_prefix prefix dir h =
    let rest = drop (length prefix) dir in
    let (r, split) = starts_with_split dir prefix h in
    elim (Option-cases (find rest (lit "/"))) [
      | inl e ↦
          let joined = ap (λ k. k ++ lit "/") split ∙ append_assoc prefix r (lit "/") in
          subst (λ k. has_delimiter prefix (some (lit "/")) k ≡ true)
            (sym joined ∙ ground (arith, e))
            (collapsed_some prefix (lit "/") (r ++ lit "/") (find-append r (lit "/")))
      | inr (i, e) ↦
          subst (λ k. has_delimiter prefix (some (lit "/")) k ≡ true) (ground (arith, e))
            (collapsed_some prefix (lit "/") (take (i + 1) rest) (find-take rest (lit "/") i e))
    ]

dir_prefixes_have_delimiter :
    (prefix : Bytes) (dirs : List Bytes)
    → All (λ k. has_delimiter prefix (some (lit "/")) k ≡ true) (dir_prefixes prefix dirs)
unfolding dir_prefixes
dir_prefixes_have_delimiter prefix [] = tt
dir_prefixes_have_delimiter prefix (dir ∷ dirs) =
    let rest = dir_prefixes_have_delimiter prefix dirs in
    if-cases (All (λ k. has_delimiter prefix (some (lit "/")) k ≡ true)) (starts_with dir prefix)
      (dir_prefix prefix dir ∷ dir_prefixes prefix dirs) (dir_prefixes prefix dirs)
      (λ e. (has_delimiter-dir_prefix prefix dir e, rest)) (λ e. rest)

is_slash-some :
    (delimiter : Option Bytes)
    → is_slash delimiter ≡ true
    → nonempty_delimiter delimiter ≡ some (lit "/")
unfolding is_slash
is_slash-some none h = absurd (ground (arith, h))
is_slash-some (some d) h = ap nonempty_delimiter (ap some ((=?_iff d (lit "/")).0 h))

-- Every common prefix has the delimiter after the listing's prefix.
pub has_delimiter-common_vec :
    (files : List ListEntry) (dirs : List Bytes) (prefix : Bytes) (delimiter : Option Bytes)
    → All
        (λ k. has_delimiter prefix (nonempty_delimiter delimiter) k ≡ true)
        (common_vec files dirs prefix delimiter)
unfolding common_vec list_to_contents
has_delimiter-common_vec files dirs prefix delimiter =
    let P = λ (k : Bytes). has_delimiter prefix (nonempty_delimiter delimiter) k ≡ true in
    let common = (list_to_contents files prefix delimiter).1.prefixes in
    let from_dirs = if is_slash delimiter then dir_prefixes prefix dirs else [] in
    let files_fact =
      list_entries_common prefix (nonempty_delimiter delimiter) files [] (record { prefixes = [] })
        tt in
    let dirs_fact =
      if-cases (All P) (is_slash delimiter) (dir_prefixes prefix dirs) []
        (λ e.
          subst (λ d. All (λ k. has_delimiter prefix d k ≡ true) (dir_prefixes prefix dirs))
            (sym (is_slash-some delimiter e)) (dir_prefixes_have_delimiter prefix dirs))
        (λ e. tt) in
    All-dedup P (sort (common ++ from_dirs))
      (All-sort P (common ++ from_dirs) (All-append P common from_dirs files_fact dirs_fact))
