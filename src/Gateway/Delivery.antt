-- ===== src/Gateway/Delivery.antt =====
-- What a GetObject body delivers (get_object and bytes_stream of src/s3/mod.rs).
use hdfs_s3_gateway.Prelude.{
  ok, err, ℕ, zero, suc, ◌+◌, ◌-◌, ◌≤◌, leb, as_i64, ◌≡◌, refl, sym, ap, ap₂, ◌∙◌, subst, true, inl,
  inr, Bytes, ◌=?◌, starts_with, starts_with_split, Option, none, some, Option-cases, List, [], ◌∷◌,
  ◌++◌, length, take, drop, length-take, length-append, take_all, arith,
}
use hdfs_s3_gateway.Path.{key_to_hdfs_path}
use hdfs_s3_gateway.Range.{resolve_range, resolve_range_window}
use hdfs_s3_gateway.Gateway.{
  LruCrate, ReaderApi, Request, FileMeta, HdfsGateway, file_meta, open_reader,
}
use hdfs_s3_gateway.Gateway.Opening.{IsReaderOf, open_reader-IsReaderOf}
use hdfs_s3_gateway.Gateway.Objects.{HttpApi, Answer}
use hdfs_s3_gateway.Gateway.GetObject.{
  Range, to_byte_range, StreamingBody, GetObjectInput, GetObjectOutput, window, get_object,
  get_window, get_opened, get_body, try_usize,
}
use hdfs_s3_gateway.Gateway.Body.{
  Chunk, BodyItem, bytes_stream, bytes_stream_lem, contents, delivered, is_clean,
}
use hdfs_s3_gateway.Gateway.Agreement.{get_object-IsFound}

-- A reader has a file of which a range stream yields a part: the whole range, or what comes before a
-- failure.
pub record ReaderLaws (readers : ReaderApi) : Type 0 where
  pub file : readers.Reader → Bytes
  pub file_length_lem : (x : readers.Reader) → readers.file_length x ≡ length (file x)
  pub range_lem :
      (x : readers.Reader) (s n : ℕ)
      → s + n ≤ length (file x)
      → starts_with (take n (drop s (file x))) (contents (readers.read_range_stream x s n)) ≡ true

abbrev pub items : StreamingBody → List BodyItem
items body = bytes_stream body.stream body.limit

-- The part of a file from one offset to another.
abbrev pub slice : Bytes → ℕ → ℕ → Bytes
slice file start end_exclusive = take (end_exclusive - start) (drop start file)

length-drop : (n : ℕ) (l : Bytes) → length (drop n l) ≡ length l - n
length-drop zero l = omega arith
length-drop (suc n) [] = omega arith
length-drop (suc n) (x ∷ l) = omega (arith, length-drop n l)

full_prefix : (c rest : Bytes) → leb (length (c ++ rest)) (length c) ≡ (c =? (c ++ rest))
unfolding ◌=?◌
full_prefix [] [] = refl
full_prefix [] (x ∷ rest) = ground arith
full_prefix (x ∷ c) rest = ground (arith, full_prefix c rest)

-- A body of a stream that yields a part of the window.
body_of_prefix :
    (stream : List Chunk) (win : Bytes)
    → starts_with win (contents stream) ≡ true
    → (starts_with win (delivered (bytes_stream stream (length win))) ≡ true)
      × (is_clean (bytes_stream stream (length win))
          ≡ (delivered (bytes_stream stream (length win)) =? win))
body_of_prefix stream win h =
    let c = contents stream in
    let (rest, e) = starts_with_split win c h in
    let b = bytes_stream_lem stream (length win) in
    let short = ap length e ∙ length-append c rest in
    let all = b.0 ∙ take_all (length win) c (omega (arith, short)) in
    (
      ap (starts_with win) all ∙ h,
      b.1
          ∙ ap (λ w. leb (length w) (length c)) e
          ∙ full_prefix c rest
          ∙ ap (c =?◌) (sym e)
          ∙ ap (◌=? win) (sym all),
    )

module _ (http : HttpApi) (readers : ReaderApi) (lru : LruCrate) where
  window_ordered :
      (n : ℕ) (range : Option Range) (s t : ℕ) (cr : Option Bytes)
      → window http readers lru n range ≡ some (s, t, cr)
      → s ≤ t
  unfolding window
  window_ordered n none s t cr h = ground (arith, h)
  window_ordered n (some range) s t cr h =
      elim (Option-cases (resolve_range n (to_byte_range range))) [
        | inl e ↦ absurd (ground (arith, h, e))
        | inr ((a, b), e) ↦
            let inside = resolve_range_window n (to_byte_range range) a b e in
            let le : a ≤ b = omega (arith, inside.0) in ground (arith, h, e, le)
      ]

  -- An opened reader's body.
  abbrev pub IsServed : GetObjectOutput → readers.Reader → ℕ → ℕ → Type 0
  IsServed out reader s t =
      (t ≤ readers.file_length reader)
      × (out.content_length ≡ as_i64 (t - s))
      × (out.body.limit ≡ t - s)
      × (out.body.stream ≡ readers.read_range_stream reader s (t - s))

  opened-IsServed :
      (r : Request readers) (path : Bytes) (status : FileMeta) (s t : ℕ) (cr : Option Bytes)
      (a : Answer http readers lru readers.Reader) (out : GetObjectOutput)
      → (get_opened http readers lru r path status s t cr a).1 ≡ ok out
      → (reader : readers.Reader) × (a.1 ≡ ok reader) × IsServed out reader s t
  unfolding get_opened get_body
  opened-IsServed r path status s t cr (g, ok reader) out h =
      (reader, refl, (ground (arith, h), ground (arith, h), ground (arith, h), ground (arith, h)))
  opened-IsServed r path status s t cr (g, err e) out h = absurd (ground (arith, h))

  window-IsServed :
      (g : HdfsGateway readers lru) (r : Request readers) (path : Bytes) (status : FileMeta)
      (w : Option (ℕ × ℕ × Option Bytes)) (out : GetObjectOutput)
      → (get_window http readers lru g r path status w).1 ≡ ok out
      → (s : ℕ) × (t : ℕ) × (cr : Option Bytes) × (reader : readers.Reader) × (w ≡ some (s, t, cr))
        × ((open_reader readers lru g r path status).1 ≡ ok reader)
        × IsServed out reader s t
  unfolding get_window try_usize
  window-IsServed g r path status none out h = absurd (ground (arith, h))
  window-IsServed g r path status (some (s, t, cr)) out h =
      let o : (get_opened http readers lru r path status s t cr
            (open_reader readers lru g r path status)).1
          ≡ ok out =
        ground (arith, h) in
      let (reader, e, served) =
        opened-IsServed r path status s t cr (open_reader readers lru g r path status) out o in
      (s, t, cr, reader, refl, e, served)

  length-slice :
      (file : Bytes) (s t : ℕ) → s ≤ t → t ≤ length file → length (slice file s t) ≡ t - s
  length-slice file s t le inside =
      length-take (t - s) (drop s file) ∙ omega (arith, length-drop s file)

  module _ (laws : ReaderLaws readers) where
    -- The answer is of the stat of the key's path, of its window and of a reader of that path: the
    -- window ends inside the reader's file, its length is declared, the body delivers its bytes in order, and has no error
    -- exactly when it delivers all of them.
    pub record Delivers (g : HdfsGateway readers lru) (r : Request readers) (input : GetObjectInput)
        (out : GetObjectOutput) : Type 0 where
      pub path : Bytes
      pub status : FileMeta
      pub start : ℕ
      pub end_exclusive : ℕ
      pub content_range : Option Bytes
      pub reader : readers.Reader
      pub is_path : key_to_hdfs_path g.mapper input.key ≡ some path
      pub is_stat : (file_meta readers lru g r path).1 ≡ ok status
      pub is_window :
          window http readers lru status.length input.range
          ≡ some (start, end_exclusive, content_range)
      pub is_reader : IsReaderOf readers lru (file_meta readers lru g r path).0 r path status reader
      pub is_inside : end_exclusive ≤ readers.file_length reader
      pub is_declared : out.content_length ≡ as_i64 (end_exclusive - start)
      pub in_order :
          starts_with (slice (laws.file reader) start end_exclusive) (delivered (items out.body))
          ≡ true
      pub is_complete :
          is_clean (items out.body)
          ≡ (delivered (items out.body) =? slice (laws.file reader) start end_exclusive)

    served_body :
        (reader : readers.Reader) (s t : ℕ)
        → s ≤ t
        → t ≤ readers.file_length reader
        → (starts_with
              (slice (laws.file reader) s t)
              (delivered (bytes_stream (readers.read_range_stream reader s (t - s)) (t - s)))
            ≡ true)
          × (is_clean (bytes_stream (readers.read_range_stream reader s (t - s)) (t - s)) ≡ (
              delivered (bytes_stream (readers.read_range_stream reader s (t - s)) (t - s))
              =? slice (laws.file reader) s t))
    served_body reader s t le inside =
        let win = slice (laws.file reader) s t in
        let stream = readers.read_range_stream reader s (t - s) in
        let fits = laws.file_length_lem reader in
        let long = length-slice (laws.file reader) s t le (omega (arith, inside, fits)) in
        let prefix = laws.range_lem reader s (t - s) (omega (arith, le, inside, fits)) in
        subst
          (λ n.
            (starts_with win (delivered (bytes_stream stream n)) ≡ true)
            × (is_clean (bytes_stream stream n) ≡ (delivered (bytes_stream stream n) =? win)))
          long (body_of_prefix stream win prefix)

    -- GetObject delivers, of the file of a reader of the key's path, the bytes of the window that its
    -- range resolves to: the reader is the one with which the client answers for the path, or one
    -- that is cached for it with the length and the time of the path's status; the declared length is
    -- the window's, it lies inside the reader's file, and the body has no error exactly when it
    -- delivers the whole window; otherwise it delivers the window's first bytes.
    pub get_object-Delivers :
        (g : HdfsGateway readers lru) (r : Request readers) (input : GetObjectInput)
        (out : GetObjectOutput)
        → (get_object http readers lru g r input).1 ≡ ok out
        → Delivers g r input out
    get_object-Delivers g r input out h =
        let (path, status, (k, e, head, win)) =
          get_object-IsFound http readers lru g r input out h in
        let w = window http readers lru status.length input.range in
        let (s, t, cr, reader, we, opened, (inside, declared, limit, stream)) =
          window-IsServed (file_meta readers lru g r path).0 r path status w out win in
        let le = window_ordered status.length input.range s t cr we in
        let body = served_body reader s t le inside in
        let same = ap₂ bytes_stream stream limit in
        record {
          path = path;
          status = status;
          start = s;
          end_exclusive = t;
          content_range = cr;
          reader = reader;
          is_path = k;
          is_stat = e;
          is_window = we;
          is_reader =
              open_reader-IsReaderOf readers lru (file_meta readers lru g r path).0 r path status
                reader opened;
          is_inside = inside;
          is_declared = declared;
          in_order =
              ap (λ x. starts_with (slice (laws.file reader) s t) (delivered x)) same ∙ body.0;
          is_complete =
              ap is_clean same
              ∙ body.1
              ∙ ap (λ x. delivered x =? slice (laws.file reader) s t) (sym same);
        }
