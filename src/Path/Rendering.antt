-- ===== src/Path/Rendering.antt =====
-- How a path of names is shown, and what the mapper makes of it (normalize_abs and key_to_hdfs_path of
-- src/core/path.rs).
use hdfs_s3_gateway.Prelude.{
  ℕ, true, false, Bytes, lit, slash, ◌=?◌, starts_with, starts_with-append, strip_prefix,
  strip_prefix-append, strip_prefix_eq_some, ◌≡◌, refl, sym, ap, ◌∙◌, ◌⊎◌, inl, inr, some, List, [],
  ◌∷◌, ◌++◌, All, length, length-append, append_assoc, append-nil, arith, Bool-cases,
}
use hdfs_s3_gateway.Path.{
  PathMapper, split, join_tail, join, normalize_step, normalize_segments, render, normalize_abs,
  join_root, trim_slashes, under_root, strip_root, collapse, key_to_hdfs_path, hdfs_path_to_key,
}
use hdfs_s3_gateway.Path.Segments.{has, is_name, IsName, All-IsName-NoSlash, split-join}
use hdfs_s3_gateway.Path.Walk.{render?, normalize_segments_names, normalize_abs-join_root}
use hdfs_s3_gateway.Path.Containment.{empty_not-IsName}

pub join_tail-append : (xs ys : List Bytes) → join_tail (xs ++ ys) ≡ join_tail xs ++ join_tail ys
unfolding join_tail
join_tail-append [] ys = refl
join_tail-append (x ∷ xs) ys = rw (join_tail-append xs ys, append_assoc)

-- Names below the root, as the program joins them.
pub render-append :
    (rs : List Bytes) (n : Bytes) (ns : List Bytes)
    → All IsName rs
    → render true (rs ++ n ∷ ns) ≡ join_root (render true rs) (join (n ∷ ns))
unfolding render join join_root join_tail ◌=?◌
render-append [] n ns h = refl
render-append ([] ∷ rs) n ns h = absurd (empty_not-IsName h.0)
render-append ((c ∷ r) ∷ rs) n ns h = rw (join_tail-append rs (n ∷ ns), append_assoc)

root_is_slash :
    (rs : List Bytes)
    → All IsName rs
    → (render true rs ≡ lit "/") ⊎ ((render true rs =? lit "/") ≡ false)
unfolding render join ◌=?◌
root_is_slash [] h = inl refl
root_is_slash ([] ∷ rs) h = absurd (empty_not-IsName h.0)
root_is_slash ((c ∷ r) ∷ rs) h = inr refl

module _ (root rest : Bytes) (b : (root =? lit "/") ≡ false) where
  join_root_deep : join_root root rest ≡ (root ++ lit "/") ++ rest
  unfolding join_root
  join_root_deep = rw b (sym (append_assoc root (lit "/") rest))

  under_root_deep : under_root root (join_root root rest) ≡ true
  unfolding under_root
  under_root_deep =
      rw (b, join_root_deep) (ground (arith, starts_with-append (root ++ lit "/") rest))

  strip_root_deep : strip_root root (join_root root rest) ≡ some rest
  unfolding strip_root
  strip_root_deep = rw (b, join_root_deep) (strip_prefix-append (root ++ lit "/") rest)

module _ (rs : List Bytes) (rest : Bytes) (h : All IsName rs) where
  pub under_root-join_root : under_root (render true rs) (join_root (render true rs) rest) ≡ true
  unfolding under_root join_root ◌=?◌ starts_with
  under_root-join_root = elim (root_is_slash rs h) [
    | inl e ↦ rw e refl
    | inr b ↦ under_root_deep (render true rs) rest b
  ]

  pub strip_root-join_root :
      strip_root (render true rs) (join_root (render true rs) rest) ≡ some rest
  unfolding strip_root join_root ◌=?◌ strip_prefix
  strip_root-join_root = elim (root_is_slash rs h) [
    | inl e ↦ rw e refl
    | inr b ↦ strip_root_deep (render true rs) rest b
  ]

pub strip_root_inv :
    (root path key : Bytes) → strip_root root path ≡ some key → path ≡ join_root root key
unfolding strip_root join_root
strip_root_inv root path key h = elim (Bool-cases (root =? lit "/")) [
  | inl b ↦ rw b (strip_prefix_eq_some path (lit "/") key (ground arith))
  | inr b ↦ rw b (
      strip_prefix_eq_some path (root ++ lit "/") key (ground arith)
      ∙ append_assoc root (lit "/") key)
]

pub trim_slashes_name :
    (n : Bytes) (ns : List Bytes) → IsName n → trim_slashes (join (n ∷ ns)) ≡ join (n ∷ ns)
unfolding trim_slashes join is_name has
trim_slashes_name [] ns h = absurd (empty_not-IsName h)
trim_slashes_name (c ∷ n) ns h = ground arith

pub join_nonempty : (n : Bytes) (ns : List Bytes) → IsName n → (join (n ∷ ns) =? []) ≡ false
unfolding join ◌=?◌
join_nonempty [] ns h = absurd (empty_not-IsName h)
join_nonempty (c ∷ n) ns h = refl

pub key_to_hdfs_path_intro :
    (m : PathMapper) (key p : Bytes)
    → (trim_slashes key =? []) ≡ false
    → normalize_abs (join_root m.root (trim_slashes key)) ≡ some p
    → under_root m.root p ≡ true
    → key_to_hdfs_path m key ≡ some p
unfolding key_to_hdfs_path
key_to_hdfs_path_intro m key p b e u = ground arith

pub hdfs_path_to_key_intro :
    (m : PathMapper) (path p key : Bytes)
    → normalize_abs path ≡ some p
    → (p =? m.root) ≡ false
    → strip_root m.root p ≡ some key
    → hdfs_path_to_key m path ≡ some key
unfolding hdfs_path_to_key
hdfs_path_to_key_intro m path p key e b u = ground arith

-- A normal path is left as it is.
pub normalize_abs-render :
    (out : List Bytes) → All IsName out → normalize_abs (render true out) ≡ some (render true out)
normalize_abs-render [] h =
    unfold normalize_abs collapse normalize_segments normalize_step render join split starts_with
      ◌=?◌ in
    refl
normalize_abs-render (n ∷ ns) h =
    let root_key : join_root (render true []) (join (n ∷ ns)) ≡ render true (n ∷ ns) =
      sym (render-append [] n ns tt) in
    rw root_key at (normalize_abs-join_root [] (join (n ∷ ns)) tt)
    ∙ ap render? (
        ap (λ us. normalize_segments true us []) (split-join n ns (All-IsName-NoSlash (n ∷ ns) h))
        ∙ normalize_segments_names true (n ∷ ns) [] h)

join_root_root :
    (root key : Bytes)
    → (root ≡ lit "/") ⊎ ((root =? lit "/") ≡ false)
    → root ≡ join_root root key
    → key ≡ []
unfolding join_root ◌=?◌
join_root_root root [] b e = refl
join_root_root root (c ∷ key) (inl b) e =
    let f : ◌≡◌ {A = Bytes} (lit "/") (slash ∷ c ∷ key) = rw b at e in absurd (cc)
join_root_root root (c ∷ key) (inr b) e =
    let f : root ≡ root ++ slash ∷ c ∷ key = rw b at e in
    absurd (omega (arith, ap length f, length-append {0} {A = ℕ} root (slash ∷ c ∷ key)))

-- What stands behind the root is determined by the segments below it.
pub join_root_names :
    (rs segs : List Bytes) (key : Bytes)
    → All IsName rs
    → render true (rs ++ segs) ≡ join_root (render true rs) key
    → key ≡ join segs
unfolding join
join_root_names rs [] key h e =
    join_root_root (render true rs) key (root_is_slash rs h) (rw append-nil at e)
join_root_names rs (n ∷ ns) key h e =
    let found : some key ≡ some (join (n ∷ ns)) =
      sym (strip_root-join_root rs key h)
      ∙ ap (strip_root (render true rs)) (sym e ∙ render-append rs n ns h)
      ∙ strip_root-join_root rs (join (n ∷ ns)) h in
    cc found
