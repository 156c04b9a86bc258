-- ===== src/Path/Children.antt =====
-- A directory's children: their paths, their keys, and where a listing of them starts (list_start and
-- hdfs_path_to_key of src/core/path.rs).
use hdfs_s3_gateway.Prelude.{
  ◌≡◌, ◌≢◌, refl, sym, ap, ◌∙◌, true, false, Bytes, lit, slash, =?_false, none, some, List, [], ◌∷◌,
  ◌++◌, append_assoc, append-nil, length, All, All-append, arith,
}
use hdfs_s3_gateway.Path.{
  PathMapper, split, join_tail, join, render, join_root, rfind_slash, first_segment,
  key_to_hdfs_path, hdfs_path_to_key, list_start,
}
use hdfs_s3_gateway.Path.Segments.{has, IsName, NoSlash, All-IsName-NoSlash, split-join}
use hdfs_s3_gateway.Path.Containment.{IsRooted}
use hdfs_s3_gateway.Path.Rendering.{join_tail-append, render-append}
use hdfs_s3_gateway.Path.RoundTrip.{hdfs_path_to_key_names}
use hdfs_s3_gateway.Path.ListStart.{
  is_dots, take_cut, split_run_only, split-append_slash, not_dots, list_start_whole, list_start_cut,
  trailing_slash,
}

-- What the keys of a directory's children start with.
unfoldable pub base_of : List Bytes → Bytes
unfolding join
base_of [] = []
base_of (n ∷ ns) = join (n ∷ ns) ++ (slash ∷ [])

rfind_slash-none : (t : Bytes) → NoSlash t → rfind_slash t ≡ none
unfolding rfind_slash has
rfind_slash-none [] h = refl
rfind_slash-none (c ∷ t) h = ground (arith, h, rfind_slash-none t)

rfind_slash-append : (d t : Bytes) → NoSlash t → rfind_slash (d ++ slash ∷ t) ≡ some (length d)
unfolding rfind_slash
rfind_slash-append [] t h = ground (arith, rfind_slash-none t h)
rfind_slash-append (c ∷ d) t h = ground (arith, rfind_slash-append d t h)

join-child : (ns : List Bytes) (name : Bytes) → join (ns ++ (name ∷ [])) ≡ base_of ns ++ name
unfolding base_of join join_tail
join-child [] name = append-nil name
join-child (n ∷ ns) name =
    ap (λ s. n ++ s)
      (join_tail-append ns (name ∷ []) ∙ ap (λ s. join_tail ns ++ (slash ∷ s)) (append-nil name))
    ∙ sym (append_assoc n (join_tail ns) (slash ∷ name))
    ∙ sym (append_assoc (n ++ join_tail ns) (slash ∷ []) name)

-- The path of a child of the directory with the names `ns` below the root.
abbrev pub child_path : List Bytes → List Bytes → Bytes → Bytes
child_path rs ns name = render true (rs ++ (ns ++ (name ∷ [])))

pub child_path-join_root :
    (rs ns : List Bytes) (name : Bytes)
    → All IsName rs
    → child_path rs ns name ≡ join_root (render true rs) (base_of ns ++ name)
unfolding base_of
child_path-join_root rs [] name h =
    render-append rs name [] h ∙ ap (join_root (render true rs)) (join-child [] name)
child_path-join_root rs (n ∷ ns) name h =
    render-append rs n (ns ++ (name ∷ [])) h
    ∙ ap (join_root (render true rs)) (join-child (n ∷ ns) name)

module _ (m : PathMapper) (rs : List Bytes) (r : IsRooted m rs) where
  pub child_key :
      (ns : List Bytes) (name : Bytes)
      → All IsName ns
      → IsName name
      → hdfs_path_to_key m (child_path rs ns name) ≡ some (base_of ns ++ name)
  unfolding base_of
  child_key [] name h k =
      hdfs_path_to_key_names m rs r name [] (k, tt) ∙ ap some (join-child [] name)
  child_key (n ∷ ns) name h k =
      hdfs_path_to_key_names m rs r n (ns ++ (name ∷ []))
        (All-append IsName (n ∷ ns) (name ∷ []) h (k, tt))
      ∙ ap some (join-child (n ∷ ns) name)

  -- The directory in which a prefix of this form starts.
  pub list_start-base_of :
      (ns : List Bytes) (part : Bytes)
      → All IsName ns
      → NoSlash part
      → part ≢ lit "."
      → part ≢ lit ".."
      → list_start m (base_of ns ++ part) ≡ some (render true (rs ++ ns))
  unfolding base_of first_segment
  list_start-base_of [] part h clean d1 d2 =
      let plain : is_dots part ≡ false =
        rw (=?_false part (lit ".") d1, =?_false part (lit "..") d2) in
      list_start_whole m part (rw (split_run_only part clean) plain) (rfind_slash-none part clean)
      ∙ ap some (r.root_path ∙ ap (render true) (sym (append-nil rs)))
  list_start-base_of (n ∷ ns) part h clean d1 d2 =
      let d = join (n ∷ ns) in
      let whole : base_of (n ∷ ns) ++ part ≡ d ++ slash ∷ part = append_assoc d (slash ∷ []) part in
      let first : split (d ++ slash ∷ part) ≡ (n ∷ ns) ++ split part =
        split-append_slash d part
        ∙ ap (λ us. us ++ split part) (split-join n ns (All-IsName-NoSlash (n ∷ ns) h)) in
      ap (list_start m) whole
      ∙ list_start_cut m (d ++ slash ∷ part) (length d) (rw first (not_dots n h.0))
          (rfind_slash-append d part clean)
      ∙ ap (key_to_hdfs_path m) (take_cut d part)
      ∙ trailing_slash m rs r n ns h
