-- ===== src/Path/Walk.antt =====
-- The loop of `normalize_abs`: which segments it keeps, and what it does on names.
use hdfs_s3_gateway.Prelude.{
  Bool, true, Bytes, lit, slash, ◌=?◌, starts_with, ◌≡◌, refl, ap, ap₂, ◌∙◌, inl, inr, Option, none,
  some, List, [], ◌∷◌, ◌++◌, All, All-append, append_assoc, append-nil, arith, Option-cases,
}
use hdfs_s3_gateway.Path.{
  split, join, pop, pop_parent, normalize_step, normalize_segments, render, normalize_abs,
  join_root, collapse,
}
use hdfs_s3_gateway.Path.Segments.{is_name, IsName, NoSlash, All-IsName-NoSlash, split-join_tail}

abbrev pub render? : Option (List Bytes) → Option Bytes
render? none = none
render? (some parts) = some (render true parts)

pub blank_step :
    (parts segments : List Bytes)
    → normalize_segments true ([] ∷ segments) parts ≡ normalize_segments true segments parts
unfolding normalize_segments normalize_step ◌=?◌
blank_step parts segments = refl

normalize_step_name :
    (b : Bool) (s : Bytes) (parts : List Bytes)
    → IsName s
    → normalize_step b s parts ≡ some (parts ++ s ∷ [])
unfolding normalize_step is_name
normalize_step_name b s parts h = ground arith

-- Names are pushed one after the other.
pub normalize_segments-append :
    (b : Bool) (rs us parts : List Bytes)
    → All IsName rs
    → normalize_segments b (rs ++ us) parts ≡ normalize_segments b us (parts ++ rs)
unfolding normalize_segments
normalize_segments-append b [] us parts h = rw append-nil
normalize_segments-append b (r ∷ rs) us parts h =
    rw (normalize_step_name b r parts h.0, normalize_segments)
      (normalize_segments-append b rs us (parts ++ r ∷ []) h.1 ∙ rw append_assoc refl)

pub normalize_segments_names :
    (b : Bool) (rs parts : List Bytes)
    → All IsName rs
    → normalize_segments b rs parts ≡ some (parts ++ rs)
unfolding normalize_segments
normalize_segments_names b rs parts h = rw append-nil at (normalize_segments-append b rs [] parts h)

pop-IsName : (parts out : List Bytes) → All IsName parts → pop parts ≡ some out → All IsName out
unfolding pop
pop-IsName [] out h e = ground arith
pop-IsName (x ∷ []) out h e = let q : [] ≡ out = ground arith in rw (← q) tt
pop-IsName (x ∷ y ∷ xs) out h e = elim (Option-cases (pop (y ∷ xs))) [
  | inl n ↦ absurd (ground arith)
  | inr (rest, r) ↦
      let q : x ∷ rest ≡ out = ground arith in rw (← q) (h.0, pop-IsName (y ∷ xs) rest h.1 r)
]

normalize_step-IsName :
    (b : Bool) (s : Bytes) (parts out : List Bytes)
    → NoSlash s
    → All IsName parts
    → normalize_step b s parts ≡ some out
    → All IsName out
unfolding normalize_step pop_parent is_name
normalize_step-IsName b s parts out n h e = elim (Option-cases (pop parts)) [
  | inl p ↦ ground (arith, All-append IsName parts (s ∷ []) h)
  | inr (rest, p) ↦ ground (arith, pop-IsName parts rest h p, All-append IsName parts (s ∷ []) h)
]

-- Whatever the path, what the loop keeps are names.
pub normalize_segments-IsName :
    (b : Bool) (ss parts out : List Bytes)
    → All NoSlash ss
    → All IsName parts
    → normalize_segments b ss parts ≡ some out
    → All IsName out
unfolding normalize_segments
normalize_segments-IsName b [] parts out n h e = let q : parts ≡ out = ground arith in rw (← q) h
normalize_segments-IsName b (s ∷ ss) parts out n h e =
    elim (Option-cases (normalize_step b s parts)) [
      | inl r ↦ absurd (ground arith)
      | inr (mid, r) ↦
          normalize_segments-IsName b ss mid out n.1 (normalize_step-IsName b s parts mid n.0 h r)
            (ground arith)
    ]

pub split-join_root :
    (rs : List Bytes) (key : Bytes)
    → All IsName rs
    → split (join_root (render true rs) key) ≡ [] ∷ (rs ++ split key)
unfolding split join_root render join ◌=?◌ is_name
split-join_root [] key h = refl
split-join_root ([] ∷ rs) key h = absurd (ground arith)
split-join_root ((c ∷ r) ∷ rs) key h =
    split-join_tail ((c ∷ r) ∷ rs) (slash ∷ key) (split key) (All-IsName-NoSlash ((c ∷ r) ∷ rs) h)
      refl

pub join_root_absolute :
    (rs : List Bytes) (key : Bytes)
    → All IsName rs
    → starts_with (join_root (render true rs) key) (lit "/") ≡ true
unfolding starts_with join_root render join ◌=?◌ is_name
join_root_absolute [] key h = refl
join_root_absolute ([] ∷ rs) key h = absurd (ground arith)
join_root_absolute ((c ∷ r) ∷ rs) key h = refl

pub collapse_lem :
    (segments : List Bytes) → collapse true segments ≡ render? (normalize_segments true segments [])
unfolding collapse
collapse_lem segments = go (normalize_segments true segments [])
  where
    go :
        (o : Option (List Bytes))
        → elim o [ none ↦ none | some parts ↦ some (render true parts) ] ≡ render? o
    go none = refl
    go (some parts) = refl

-- A key is walked from the root's own segments.
pub normalize_abs-join_root :
    (rs : List Bytes) (key : Bytes)
    → All IsName rs
    → normalize_abs (join_root (render true rs) key)
      ≡ render? (normalize_segments true (split key) rs)
unfolding normalize_abs
normalize_abs-join_root rs key h =
    ap₂ collapse (join_root_absolute rs key h) (split-join_root rs key h)
    ∙ collapse_lem ([] ∷ (rs ++ split key))
    ∙ ap render?
        (blank_step [] (rs ++ split key) ∙ normalize_segments-append true rs (split key) [] h)
