-- ===== src/Listing/Shown.antt =====
-- Under which key a listing shows a file or a directory (list_to_contents and paginate of
-- src/core/listing.rs), told without the code's search.
use hdfs_s3_gateway.Prelude.{
  ℕ, ◌+◌, suc, ◌≡◌, refl, sym, ap, ◌∙◌, Bool, true, false, inl, inr, ◌&&◌, ◌||◌, Bytes, lit, ◌=?◌,
  starts_with, Option, none, some, Option-cases, List, [], ◌∷◌, ◌++◌, length, take, drop,
  if◌then◌else◌, arith,
}
use hdfs_s3_gateway.Listing.{ListEntry}
use hdfs_s3_gateway.Listing.Contents.{find, collapsed, nonempty_delimiter}
use hdfs_s3_gateway.Listing.Paginate.{contains, dir_prefix, dir_prefixes}
use hdfs_s3_gateway.Listing.Finding.{take-starts_with, zero_plus, suc_plus}

abbrev pub any {ℓ} : {A : Type ℓ} → (A → Bool) → List A → Bool
any p [] = false
any p (x ∷ xs) = p x || any p xs

-- A text up to the end of the first place where it has another one that is not empty, if it has it.
abbrev pub through : Bytes → Bytes → Option Bytes
through d [] = none
through d (c ∷ s) =
    if starts_with (c ∷ s) d
    then some d
    else elim (through d s) [ none ↦ none | some t ↦ some (c ∷ t) ]

-- The part of a key after the prefix that is shown, where keys are grouped by this delimiter.
abbrev pub group_of : Option Bytes → Bytes → Option Bytes
group_of none rest = none
group_of (some []) rest = none
group_of (some (x ∷ d)) rest = through (x ∷ d) rest

-- A file with the prefix is shown under its key, or, with the delimiter after the prefix, under the
-- key up to the first one and with it.
abbrev pub shows_file : Bytes → Option Bytes → Bytes → ListEntry → Bool
shows_file prefix delimiter k e =
    starts_with e.key prefix
    && (elim (group_of delimiter (drop (length prefix) e.key)) [
      | none ↦ e.key
      | some part ↦ prefix ++ part
    ])
      =? k

-- A directory with the prefix is shown, under the delimiter "/" only, up to the first slash after the
-- prefix and with it, or with a slash at its end if there is none.
abbrev pub shows_dir : Bytes → Option Bytes → Bytes → Bytes → Bool
shows_dir prefix none k dir = false
shows_dir prefix (some d) k dir =
    d =? lit "/"
    && (starts_with dir prefix
        && (elim (through (lit "/") (drop (length prefix) dir)) [
          | none ↦ dir ++ lit "/"
          | some part ↦ prefix ++ part
        ])
          =? k)

through_step :
    (b : Bool) (d : Bytes) (c : ℕ) (s : Bytes) (o : Option ℕ)
    → (b ≡ true → take (length d) (c ∷ s) ≡ d)
    → (if b
        then some d
        else elim (elim o as (λ x. Option Bytes) [
          | none ↦ none
          | some i ↦ some (take (i + length d) s)
        ])
            as (λ x. Option Bytes) [ none ↦ none | some t ↦ some (c ∷ t) ])
      ≡ elim (if b
            then some 0
            else elim o as (λ x. Option ℕ) [ none ↦ none | some i ↦ some (suc i) ])
          as (λ x. Option Bytes) [ none ↦ none | some i ↦ some (take (i + length d) (c ∷ s)) ]
through_step true d c s o h =
    ap some (sym (h refl) ∙ ap (λ n. take n (c ∷ s)) (zero_plus (length d)))
through_step false d c s none h = refl
through_step false d c s (some i) h = ap (λ n. some (take n (c ∷ s))) (suc_plus i (length d))

through_lem :
    (x : ℕ) (d s : Bytes)
    → through (x ∷ d) s ≡ elim (find s (x ∷ d)) as (λ o. Option Bytes) [
      | none ↦ none
      | some i ↦ some (take (i + length (x ∷ d)) s)
    ]
unfolding find
through_lem x d [] = unfold starts_with in refl
through_lem x d (c ∷ s) =
    ap
      (λ o.
        if starts_with (c ∷ s) (x ∷ d)
        then some (x ∷ d)
        else elim o as (λ o. Option Bytes) [ none ↦ none | some t ↦ some (c ∷ t) ])
      (through_lem x d s)
    ∙ through_step (starts_with (c ∷ s) (x ∷ d)) (x ∷ d) c s (find s (x ∷ d))
        (take-starts_with (c ∷ s) (x ∷ d))

pub collapsed-group_of :
    (prefix : Bytes) (delimiter : Option Bytes) (rest : Bytes)
    → collapsed prefix (nonempty_delimiter delimiter) rest
      ≡ elim (group_of delimiter rest) [ none ↦ none | some part ↦ some (prefix ++ part) ]
unfolding collapsed
collapsed-group_of prefix none rest = refl
collapsed-group_of prefix (some []) rest = refl
collapsed-group_of prefix (some (x ∷ d)) rest = elim (Option-cases (find rest (x ∷ d))) [
  | inl e ↦ ground (arith, through_lem x d rest, e)
  | inr (i, e) ↦ ground (arith, through_lem x d rest, e)
]

dir_prefix-through :
    (prefix dir : Bytes)
    → dir_prefix prefix dir ≡ elim (through (lit "/") (drop (length prefix) dir)) [
      | none ↦ dir ++ lit "/"
      | some part ↦ prefix ++ part
    ]
unfolding dir_prefix
dir_prefix-through prefix dir =
    let rest = drop (length prefix) dir in
    elim (Option-cases (find rest (lit "/"))) [
      | inl e ↦ ground (arith, through_lem b'/' [] rest, e)
      | inr (i, e) ↦ ground (arith, through_lem b'/' [] rest, e)
    ]

pub contains-dir_prefixes :
    (prefix d k : Bytes) (dirs : List Bytes)
    → (d =? lit "/" && contains (dir_prefixes prefix dirs) k)
      ≡ any (shows_dir prefix (some d) k) dirs
unfolding dir_prefixes contains
contains-dir_prefixes prefix d k [] = ground arith
contains-dir_prefixes prefix d k (dir ∷ dirs) =
    ground (arith, contains-dir_prefixes prefix d k dirs, dir_prefix-through prefix dir)
