-- ===== src/Path/ListStart.antt =====
-- `list_start` bounds a listing to the directory in which every matching key lies.
use hdfs_s3_gateway.Prelude.{
  ℕ, suc, ◌+◌, Bool, true, false, ◌||◌, Bytes, lit, slash, ◌=?◌, =?_false, starts_with,
  starts_with_split, ◌≡◌, refl, subst, sym, ap, ◌∙◌, ◌≢◌, inl, inr, none, some, List, [], ◌∷◌, ◌++◌,
  ◌==◌, All, length, take, All-append, All-append_left, append_assoc, append-nil, arith, Bool-cases,
}
use hdfs_s3_gateway.Path.{
  PathMapper, push_head, split, join, normalize_segments, render, trim_slashes, first_segment,
  rfind_slash, key_to_hdfs_path, list_start,
}
use hdfs_s3_gateway.Path.Segments.{
  has, is_name, IsName, NoSlash, All-IsName-NoSlash, split_nonempty, split-join, join-split,
}
use hdfs_s3_gateway.Path.Walk.{
  render?, blank_step, normalize_segments-append, normalize_abs-join_root,
}
use hdfs_s3_gateway.Path.Containment.{IsRooted, empty_not-IsName}
use hdfs_s3_gateway.Path.RoundTrip.{key_to_hdfs_path_names}
use hdfs_s3_gateway.Path.Rendering.{key_to_hdfs_path_intro, under_root-join_root, render-append}

-- The last `/` of a text cuts it into a directory part and a part without `/`.
data Cut (p : Bytes) : Type 0 where
  whole : NoSlash p → rfind_slash p ≡ none → Cut p
  cut : (d t : Bytes) → p ≡ d ++ slash ∷ t → NoSlash t → rfind_slash p ≡ some (length d) → Cut p

last-Cut : (p : Bytes) → Cut p
unfolding rfind_slash has
last-Cut [] = whole refl refl
last-Cut (c ∷ s) = elim (last-Cut s) [
  | whole n e ↦ elim (Bool-cases (c == slash)) [
    | inl h ↦ cut [] s (ground arith) n (rw (e, h))
    | inr h ↦ whole (rw h n) (rw (e, h))
  ]
  | cut d t q n e ↦ cut (c ∷ d) t (ap (◌∷◌ c) q) n (rw e)
]

pub take_cut : (d t : Bytes) → take (length d + 1) (d ++ slash ∷ t) ≡ d ++ slash ∷ []
take_cut [] t = refl
take_cut (c ∷ d) t =
    let e : suc (length d) + 1 ≡ suc (length d + 1) = omega arith in
    rw e (ap (◌∷◌ c) (take_cut d t))

pub split_run_only : (s : Bytes) → NoSlash s → split s ≡ s ∷ []
unfolding split has push_head
split_run_only [] n = refl
split_run_only (c ∷ s) n = ground (arith, split_run_only s)

pub split-append_slash : (d u : Bytes) → split (d ++ slash ∷ u) ≡ split d ++ split u
unfolding split
split-append_slash [] u = refl
split-append_slash (c ∷ d) u = elim (Bool-cases (c == slash)) [
  | inl h ↦ rw h (ap (◌∷◌ []) (split-append_slash d u))
  | inr h ↦ let (x, xs, e) = split_nonempty d in rw (h, split-append_slash d u, e)
]

first_of_names :
    (us vs : List Bytes) (n : Bytes) (ns : List Bytes)
    → All IsName (n ∷ ns)
    → us ++ vs ≡ n ∷ ns
    → us ≢ []
    → (fs : List Bytes) × (us ≡ n ∷ fs)
first_of_names [] vs n ns h e k = absurd (k refl)
first_of_names (u ∷ us) vs n ns h e k = (us, ground arith)

pub not_dots : (n : Bytes) → IsName n → (n =? lit "." || n =? lit "..") ≡ false
unfolding is_name
not_dots n h = ground arith

split-ne_nil : (s : Bytes) → split s ≢ []
split-ne_nil s e = let (x, xs, f) = split_nonempty s in absurd (cc)

trim_slashes_behind :
    (n : Bytes) (ns : List Bytes)
    → IsName n
    → trim_slashes (join (n ∷ ns) ++ slash ∷ []) ≡ join (n ∷ ns) ++ slash ∷ []
unfolding trim_slashes join is_name has
trim_slashes_behind [] ns h = absurd (empty_not-IsName h)
trim_slashes_behind (c ∷ n) ns h = ground arith

nonempty_behind :
    (n : Bytes) (ns : List Bytes) → IsName n → (join (n ∷ ns) ++ slash ∷ [] =? []) ≡ false
unfolding join ◌=?◌
nonempty_behind [] ns h = absurd (empty_not-IsName h)
nonempty_behind (c ∷ n) ns h = refl

normalize_segments_nil : (parts : List Bytes) → normalize_segments true [] parts ≡ some parts
unfolding normalize_segments
normalize_segments_nil parts = refl

abbrev pub is_dots : Bytes → Bool
is_dots s = s =? lit "." || s =? lit ".."

pub list_start_whole :
    (m : PathMapper) (prefix : Bytes)
    → is_dots (first_segment (split prefix)) ≡ false
    → rfind_slash prefix ≡ none
    → list_start m prefix ≡ some m.root
unfolding list_start
list_start_whole m prefix d e = ground arith

pub list_start_cut :
    (m : PathMapper) (prefix : Bytes) (i : ℕ)
    → is_dots (first_segment (split prefix)) ≡ false
    → rfind_slash prefix ≡ some i
    → list_start m prefix ≡ key_to_hdfs_path m (take (i + 1) prefix)
unfolding list_start
list_start_cut m prefix i d e = ground arith

module _ (m : PathMapper) (rs : List Bytes) (r : IsRooted m rs) where
  -- A directory's key with its trailing slash resolves like the directory's own key.
  pub trailing_slash :
      (n : Bytes) (ns : List Bytes)
      → All IsName (n ∷ ns)
      → key_to_hdfs_path m (join (n ∷ ns) ++ slash ∷ []) ≡ some (render true (rs ++ n ∷ ns))
  unfolding split
  trailing_slash n ns h =
      let key = join (n ∷ ns) ++ slash ∷ [] in
      let names : All IsName (rs ++ n ∷ ns) = All-append IsName rs (n ∷ ns) r.root_names h in
      let trimmed : trim_slashes key ≡ key = trim_slashes_behind n ns h.0 in
      let parts : split key ≡ (n ∷ ns) ++ [] ∷ [] =
        split-append_slash (join (n ∷ ns)) []
        ∙ ap (λ us. us ++ [] ∷ []) (split-join n ns (All-IsName-NoSlash (n ∷ ns) h)) in
      let walked : normalize_segments true (split key) rs ≡ some (rs ++ n ∷ ns) =
        ap (λ us. normalize_segments true us rs) parts
        ∙ normalize_segments-append true (n ∷ ns) ([] ∷ []) rs h
        ∙ blank_step (rs ++ n ∷ ns) []
        ∙ normalize_segments_nil (rs ++ n ∷ ns) in
      key_to_hdfs_path_intro m key (render true (rs ++ n ∷ ns))
        (rw trimmed (nonempty_behind n ns h.0))
        (rw (trimmed, r.root_path)
          (normalize_abs-join_root rs key r.root_names ∙ ap render? walked))
        (rw (r.root_path, render-append rs n ns r.root_names)
          (under_root-join_root rs (join (n ∷ ns)) r.root_names))

  cut_start :
      (n : Bytes) (ns : List Bytes) (d t u : Bytes)
      → All IsName (n ∷ ns)
      → join (n ∷ ns) ≡ d ++ slash ∷ u
      → (fs : List Bytes) × (split d ≡ n ∷ fs) × (n ∷ ns ≡ n ∷ fs ++ split u) × All IsName (n ∷ fs)
  cut_start n ns d t u h e =
      let parts : split d ++ split u ≡ n ∷ ns =
        sym (split-append_slash d u)
        ∙ ap split (sym e)
        ∙ split-join n ns (All-IsName-NoSlash (n ∷ ns) h) in
      let (fs, front) = first_of_names (split d) (split u) n ns h parts (split-ne_nil d) in
      let whole : n ∷ ns ≡ n ∷ fs ++ split u = sym parts ∙ ap (λ us. us ++ split u) front in
      (fs, front, whole, All-append_left IsName (n ∷ fs) (split u) (subst (All IsName) whole h))

  start_of_Cut :
      (prefix : Bytes) (n : Bytes) (ns : List Bytes)
      → All IsName (n ∷ ns)
      → starts_with (join (n ∷ ns)) prefix ≡ true
      → prefix ≢ lit "."
      → prefix ≢ lit ".."
      → Cut prefix
      → (front back : List Bytes) × (list_start m prefix ≡ some (render true (rs ++ front)))
        × (n ∷ ns ≡ front ++ back)
        × (back ≢ [])
  unfolding first_segment
  start_of_Cut prefix n ns h s d1 d2 (whole f e) =
      let only : split prefix ≡ prefix ∷ [] = split_run_only prefix f in
      let plain : is_dots prefix ≡ false =
        rw (=?_false prefix (lit ".") d1, =?_false prefix (lit "..") d2) in
      (
        [],
        n ∷ ns,
        list_start_whole m prefix (rw only plain) e
            ∙ ap some (r.root_path ∙ ap (render true) (sym (append-nil rs))),
        refl,
        λ b. cc,
      )
  start_of_Cut prefix n ns h s d1 d2 (cut d t q f e) =
      let (rest, key) = starts_with_split (join (n ∷ ns)) prefix s in
      let key' : join (n ∷ ns) ≡ d ++ slash ∷ (t ++ rest) =
        key ∙ ap (λ p. p ++ rest) q ∙ append_assoc d (slash ∷ t) rest in
      let (fs, front, parts, names) = cut_start n ns d t (t ++ rest) h key' in
      let first : split prefix ≡ (n ∷ fs) ++ split t =
        ap split q ∙ split-append_slash d t ∙ ap (λ us. us ++ split t) front in
      let dir : take (length d + 1) prefix ≡ join (n ∷ fs) ++ slash ∷ [] =
        ap (take (length d + 1)) q
        ∙ take_cut d t
        ∙ ap (λ p. p ++ slash ∷ []) (sym (join-split d) ∙ ap join front) in
      (
        n ∷ fs,
        split (t ++ rest),
        list_start_cut m prefix (length d) (rw first (not_dots n h.0)) e
            ∙ ap (key_to_hdfs_path m) dir
            ∙ trailing_slash n fs names,
        parts,
        split-ne_nil (t ++ rest),
      )

  -- Every key made of names that starts with the prefix lies strictly below the directory from
  -- which the listing of that prefix starts, unless the prefix is just `.` or `..`.
  pub list_start_complete :
      (prefix : Bytes) (n : Bytes) (ns : List Bytes)
      → All IsName (n ∷ ns)
      → starts_with (join (n ∷ ns)) prefix ≡ true
      → prefix ≢ lit "."
      → prefix ≢ lit ".."
      → (front back : List Bytes) × (list_start m prefix ≡ some (render true (rs ++ front)))
        × (n ∷ ns ≡ front ++ back)
        × (back ≢ [])
  list_start_complete prefix n ns h s d1 d2 = start_of_Cut prefix n ns h s d1 d2 (last-Cut prefix)

  -- A prefix that is just `.` starts nowhere, though keys whose first name begins with a dot
  -- start with it and resolve to files below the root.
  pub list_start_dot :
      (name : Bytes) (ns : List Bytes)
      → All IsName ((b'.' ∷ name) ∷ ns)
      → (list_start m (lit ".") ≡ none)
        × (starts_with (join ((b'.' ∷ name) ∷ ns)) (lit ".") ≡ true)
        × (key_to_hdfs_path m (join ((b'.' ∷ name) ∷ ns))
            ≡ some (render true (rs ++ (b'.' ∷ name) ∷ ns)))
  unfolding list_start split push_head first_segment ◌=?◌ starts_with join
  list_start_dot name ns h = (refl, refl, key_to_hdfs_path_names m rs r (b'.' ∷ name) ns h)
