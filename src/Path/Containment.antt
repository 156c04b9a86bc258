-- ===== src/Path/Containment.antt =====
-- Containment: what `key_to_hdfs_path` accepts lies in the configured root.
use hdfs_s3_gateway.Prelude.{
  true, false, Bytes, lit, ◌=?◌, =?_iff, starts_with, starts_with_split, ◌≡◌, refl, sym, ap, ◌∙◌,
  ◌⊎◌, inl, inr, Option, none, some, List, [], ◌∷◌, ◌++◌, All, All-append_right, append_assoc,
  append-nil, arith, Bool-cases,
}
use hdfs_s3_gateway.Config.{Config}
use hdfs_s3_gateway.Path.{
  PathMapper, mapper_new, split, join, render, normalize_abs, normalize_root, rooted, or_slash,
  join_root, trim_slashes, under_root, collapse, key_to_hdfs_path,
}
use hdfs_s3_gateway.Path.Segments.{is_name, IsName, All-IsName-NoSlash, split-NoSlash, split-join}
use hdfs_s3_gateway.Path.Walk.{
  render?, split-join_root, join_root_absolute, normalize_segments-IsName, collapse_lem,
}

-- The mapper's root is an absolute path whose segments are the names `rs`.
pub record IsRooted (m : PathMapper) (rs : List Bytes) : Type 0 where
  pub root_path : m.root ≡ render true rs
  pub root_names : All IsName rs

render?-some :
    (o : Option (List Bytes)) (p : Bytes)
    → render? o ≡ some p
    → (out : List Bytes) × (o ≡ some out) × (p ≡ render true out)
render?-some none p e = absurd (ground arith)
render?-some (some out) p e = (out, refl, ground arith)

-- An absolute path normalizes to names only.
pub normalize_abs-names :
    (path p : Bytes)
    → starts_with path (lit "/") ≡ true
    → normalize_abs path ≡ some p
    → (out : List Bytes) × (p ≡ render true out) × All IsName out
unfolding normalize_abs
normalize_abs-names path p h e =
    let f : collapse true (split path) ≡ some p = rw h at e in
    let (out, walked, shown) = render?-some _ p (sym (collapse_lem (split path)) ∙ f) in
    (out, shown, normalize_segments-IsName true (split path) [] out (split-NoSlash path) tt walked)

rooted_absolute : (root : Bytes) → starts_with (rooted root) (lit "/") ≡ true
unfolding rooted starts_with
rooted_absolute root = elim (Bool-cases (starts_with root (lit "/"))) [
  | inl h ↦ rw (h, h)
  | inr h ↦ rw h
]

or_slash-names :
    (path : Bytes) (o : Option Bytes)
    → starts_with path (lit "/") ≡ true
    → normalize_abs path ≡ o
    → (rs : List Bytes) × (or_slash o ≡ render true rs) × All IsName rs
unfolding or_slash render join
or_slash-names path none h e = ([], refl, tt)
or_slash-names path (some p) h e = normalize_abs-names path p h e

-- The constructor's root is such a path, whatever the configuration says.
pub mapper_new-IsRooted : (config : Config) → (rs : List Bytes) × IsRooted (mapper_new config) rs
unfolding mapper_new normalize_root
mapper_new-IsRooted config =
    let path = rooted config.hdfs_root in
    let (rs, shown, names) =
      or_slash-names path (normalize_abs path) (rooted_absolute config.hdfs_root) refl in
    (rs, record { root_path = shown; root_names = names })

pub split-render :
    (x : Bytes) (xs : List Bytes) → All IsName (x ∷ xs) → split (render true (x ∷ xs)) ≡ [] ∷ x ∷ xs
unfolding split render
split-render x xs n = ap (◌∷◌ []) (split-join x xs (All-IsName-NoSlash (x ∷ xs) n))

pub empty_not-IsName : ¬ IsName []
unfolding is_name ◌=?◌
empty_not-IsName h = ground arith

tail_eq : {x y : Bytes} {xs ys : List Bytes} → x ∷ xs ≡ y ∷ ys → xs ≡ ys
tail_eq e = cc

head_eq : {x y : Bytes} {xs ys : List Bytes} → x ∷ xs ≡ y ∷ ys → x ≡ y
head_eq e = cc

-- Of two absolute paths over names, one that continues the other behind a `/` extends its segments.
pub render_extends :
    (rs out : List Bytes) (rest : Bytes)
    → All IsName rs
    → All IsName out
    → render true out ≡ join_root (render true rs) rest
    → (segs : List Bytes) × (out ≡ rs ++ segs)
render_extends [] out rest n k e = (out, refl)
render_extends (x ∷ xs) [] rest n k e =
    let both : split (render true []) ≡ [] ∷ x ∷ (xs ++ split rest) =
      ap split e ∙ split-join_root (x ∷ xs) rest n in
    let blank : split (render true []) ≡ [] ∷ [] ∷ [] = unfold split render join in refl in
    absurd (empty_not-IsName (rw (head_eq (tail_eq (sym blank ∙ both))) n.0))
render_extends (x ∷ xs) (y ∷ ys) rest n k e =
    (split rest, tail_eq (sym (split-render y ys k) ∙ ap split e ∙ split-join_root (x ∷ xs) rest n))

pub render-injective :
    (rs out : List Bytes)
    → All IsName rs
    → All IsName out
    → render true out ≡ render true rs
    → out ≡ rs
unfolding render join
render-injective [] [] n k e = refl
render-injective [] ([] ∷ ys) n k e = absurd (empty_not-IsName k.0)
render-injective [] ((c ∷ y) ∷ ys) n k e = absurd (cc)
render-injective ([] ∷ xs) [] n k e = absurd (empty_not-IsName n.0)
render-injective ((c ∷ x) ∷ xs) [] n k e = absurd (cc)
render-injective (x ∷ xs) (y ∷ ys) n k e =
    tail_eq (sym (split-render y ys k) ∙ ap split e ∙ split-render x xs n)

under_root_split :
    (root path : Bytes)
    → (root =? lit "/") ≡ false
    → under_root root path ≡ true
    → (path ≡ root) ⊎ ((rest : Bytes) × (path ≡ join_root root rest))
unfolding under_root join_root
under_root_split root path b h = elim (Bool-cases (path =? root)) [
  | inl same ↦ inl ((=?_iff path root).0 same)
  | inr other ↦
      let (rest, e) = starts_with_split path (root ++ lit "/") (ground arith) in
      inr (rest, rw b (e ∙ append_assoc root (lit "/") rest))
]

under_root-extends :
    (rs out : List Bytes)
    → All IsName rs
    → All IsName out
    → under_root (render true rs) (render true out) ≡ true
    → (segs : List Bytes) × (out ≡ rs ++ segs)
under_root-extends [] out n k h = (out, refl)
under_root-extends ([] ∷ xs) out n k h = absurd (empty_not-IsName n.0)
under_root-extends ((c ∷ x) ∷ xs) out n k h =
    let root = render true ((c ∷ x) ∷ xs) in
    elim (under_root_split root (render true out) (unfold render join ◌=?◌ in refl) h) [
      | inl same ↦ ([], render-injective ((c ∷ x) ∷ xs) out n k same ∙ sym (append-nil _))
      | inr (rest, e) ↦ render_extends ((c ∷ x) ∷ xs) out rest n k e
    ]

-- What a key that is accepted went through.
pub key_to_hdfs_path_inv :
    (m : PathMapper) (key p : Bytes)
    → key_to_hdfs_path m key ≡ some p
    → (normalize_abs (join_root m.root (trim_slashes key)) ≡ some p) × (under_root m.root p ≡ true)
unfolding key_to_hdfs_path
key_to_hdfs_path_inv m key p e = ground arith

-- Every path that a key resolves to is the root followed by names: no `.` and no `..` is left in
-- it, so it lies in the root's subtree whatever dots and slashes the key has.
pub key_to_hdfs_path-contained :
    (m : PathMapper) (rs : List Bytes) (key p : Bytes)
    → IsRooted m rs
    → key_to_hdfs_path m key ≡ some p
    → (segs : List Bytes) × (p ≡ render true (rs ++ segs)) × All IsName segs
key_to_hdfs_path-contained m rs key p r e =
    let (found, under) = key_to_hdfs_path_inv m key p e in
    let root : m.root ≡ render true rs = r.root_path in
    let found' : normalize_abs (join_root (render true rs) (trim_slashes key)) ≡ some p =
      rw root at found in
    let (out, shown, names) =
      normalize_abs-names _ p (join_root_absolute rs (trim_slashes key) r.root_names) found' in
    let (segs, split) = under_root-extends rs out r.root_names names (rw (← root, ← shown) under) in
    (segs, rw (← split) shown, All-append_right IsName rs segs (rw (← split) names))
