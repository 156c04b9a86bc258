-- ===== src/Path/RoundTrip.antt =====
-- Keys and paths correspond: `key_to_hdfs_path` and `hdfs_path_to_key` undo one another.
use hdfs_s3_gateway.Prelude.{
  true, Bytes, lit, ◌=?◌, =?_iff, =?_false, starts_with, ◌≡◌, refl, sym, ap, ◌∙◌, ◌≢◌, ◌⊎◌, inl,
  inr, some, List, [], ◌∷◌, ◌++◌, All, length, length-append, All-append, All-append_right,
  append-nil, arith, Bool-cases, Option-cases,
}
use hdfs_s3_gateway.Path.{
  PathMapper, split, join, normalize_segments, render, normalize_abs, join_root, trim_slashes,
  key_to_hdfs_path, hdfs_path_to_key,
}
use hdfs_s3_gateway.Path.Segments.{IsName, All-IsName-NoSlash, split-join}
use hdfs_s3_gateway.Path.Walk.{render?, normalize_segments_names, normalize_abs-join_root}
use hdfs_s3_gateway.Path.Containment.{
  IsRooted, normalize_abs-names, render-injective, render_extends,
}
use hdfs_s3_gateway.Path.Rendering.{
  render-append, under_root-join_root, strip_root-join_root, strip_root_inv, trim_slashes_name,
  join_nonempty, key_to_hdfs_path_intro, hdfs_path_to_key_intro, normalize_abs-render,
  join_root_names,
}

below_not_root : (rs : List Bytes) (n : Bytes) (ns : List Bytes) → rs ++ n ∷ ns ≢ rs
below_not_root rs n ns e =
    absurd (omega (arith, ap length e, length-append {0} {A = Bytes} rs (n ∷ ns)))

module _ (m : PathMapper) (rs : List Bytes) (r : IsRooted m rs) where
  -- A key made of names resolves to those names below the root.
  pub key_to_hdfs_path_names :
      (n : Bytes) (ns : List Bytes)
      → All IsName (n ∷ ns)
      → key_to_hdfs_path m (join (n ∷ ns)) ≡ some (render true (rs ++ n ∷ ns))
  key_to_hdfs_path_names n ns h =
      let key = join (n ∷ ns) in
      let trimmed : trim_slashes key ≡ key = trim_slashes_name n ns h.0 in
      let walked : normalize_abs (join_root (render true rs) key)
          ≡ some (render true (rs ++ n ∷ ns)) =
        normalize_abs-join_root rs key r.root_names
        ∙ ap render? (
            ap (λ us. normalize_segments true us rs)
              (split-join n ns (All-IsName-NoSlash (n ∷ ns) h))
            ∙ normalize_segments_names true (n ∷ ns) rs h) in
      key_to_hdfs_path_intro m key (render true (rs ++ n ∷ ns))
        (rw trimmed (join_nonempty n ns h.0)) (rw (trimmed, r.root_path) walked)
        (rw (r.root_path, render-append rs n ns r.root_names)
          (under_root-join_root rs key r.root_names))

  pub hdfs_path_to_key_names :
      (n : Bytes) (ns : List Bytes)
      → All IsName (n ∷ ns)
      → hdfs_path_to_key m (render true (rs ++ n ∷ ns)) ≡ some (join (n ∷ ns))
  hdfs_path_to_key_names n ns h =
      let out = rs ++ n ∷ ns in
      let names : All IsName out = All-append IsName rs (n ∷ ns) r.root_names h in
      hdfs_path_to_key_intro m (render true out) (render true out) (join (n ∷ ns))
        (normalize_abs-render out names)
        (=?_false (render true out) m.root (λ e.
          below_not_root rs n ns (render-injective rs out r.root_names names (e ∙ r.root_path))))
        (rw (r.root_path, render-append rs n ns r.root_names)
          (strip_root-join_root rs (join (n ∷ ns)) r.root_names))

  -- A key made of names, as every key of a listing is, resolves to a path from which
  -- `hdfs_path_to_key` gives the same key back.
  pub key-round_trip :
      (n : Bytes) (ns : List Bytes)
      → All IsName (n ∷ ns)
      → (p : Bytes) × (key_to_hdfs_path m (join (n ∷ ns)) ≡ some p)
        × (hdfs_path_to_key m p ≡ some (join (n ∷ ns)))
  key-round_trip n ns h =
      (render true (rs ++ n ∷ ns), key_to_hdfs_path_names n ns h, hdfs_path_to_key_names n ns h)

  stripped_names :
      (out : List Bytes) (key : Bytes)
      → All IsName out
      → render true out ≡ join_root (render true rs) key
      → (segs : List Bytes) × (out ≡ rs ++ segs) × (key ≡ join segs)
  stripped_names out key k e =
      let (segs, split) = render_extends rs out key r.root_names k e in
      (segs, split, join_root_names rs segs key r.root_names (sym (ap (render true) split) ∙ e))

  hdfs_path_to_key_inv :
      (path key : Bytes)
      → hdfs_path_to_key m path ≡ some key
      → (p : Bytes) × (normalize_abs path ≡ some p)
        × (((p ≡ m.root) × (key ≡ [])) ⊎ (p ≡ join_root m.root key))
  unfolding hdfs_path_to_key
  hdfs_path_to_key_inv path key e = elim (Option-cases (normalize_abs path)) [
    | inl n ↦ absurd (ground arith)
    | inr (p, n) ↦ elim (Bool-cases (p =? m.root)) [
      | inl b ↦ (p, n, inl ((=?_iff p m.root).0 b, ground arith))
      | inr b ↦ (p, n, inr (strip_root_inv m.root p key (ground arith)))
    ]
  ]

  found_names :
      (out : List Bytes) (p key : Bytes)
      → All IsName out
      → p ≡ render true out
      → ((p ≡ m.root) × (key ≡ [])) ⊎ (p ≡ join_root m.root key)
      → (segs : List Bytes) × (out ≡ rs ++ segs) × (key ≡ join segs)
  unfolding join
  found_names out p key k shown (inl (same, blank)) = (
    [],
    render-injective rs out r.root_names k (sym shown ∙ same ∙ r.root_path) ∙ sym (append-nil rs),
    blank,
  )
  found_names out p key k shown (inr below) =
      stripped_names out key k (sym shown ∙ below ∙ ap (λ root. join_root root key) r.root_path)

  resolves_back :
      (segs : List Bytes) (key : Bytes)
      → key ≡ join segs
      → All IsName segs
      → (segs ≡ []) ⊎ (key_to_hdfs_path m key ≡ some (render true (rs ++ segs)))
  resolves_back [] key e h = inl refl
  resolves_back (n ∷ ns) key e h = inr (rw e (key_to_hdfs_path_names n ns h))

  -- The key of an absolute HDFS path is the names below the root; the path it came from is the
  -- root followed by those names, and, unless the path is the root itself, the key resolves to it.
  pub path-round_trip :
      (path key : Bytes)
      → starts_with path (lit "/") ≡ true
      → hdfs_path_to_key m path ≡ some key
      → (segs : List Bytes) × (key ≡ join segs)
        × All IsName segs
        × (normalize_abs path ≡ some (render true (rs ++ segs)))
        × ((segs ≡ []) ⊎ (key_to_hdfs_path m key ≡ some (render true (rs ++ segs))))
  path-round_trip path key a e =
      let (p, n, found) = hdfs_path_to_key_inv path key e in
      let (out, shown, names) = normalize_abs-names path p a n in
      let (segs, split, joined) = found_names out p key names shown found in
      let below : All IsName segs = All-append_right IsName rs segs (rw split at names) in
      (
        segs,
        joined,
        below,
        n ∙ ap some shown ∙ ap (λ ss. some (render true ss)) split,
        resolves_back segs key joined below,
      )
