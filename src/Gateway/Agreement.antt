-- ===== src/Gateway/Agreement.antt =====
-- HeadObject and GetObject of one object (src/s3/mod.rs).
use hdfs_s3_gateway.Prelude.{
  ok, err, ℕ, ◌-◌, as_i64, ◌≡◌, refl, Bool-cases, inl, inr, Bytes, ◌=?◌, Option, none, some,
  Option-cases, arith,
}
use hdfs_s3_gateway.Error.{S3Error}
use hdfs_s3_gateway.Path.{key_to_hdfs_path}
use hdfs_s3_gateway.Metadata.{etag}
use hdfs_s3_gateway.Gateway.{
  LruCrate, ReaderApi, Request, FileMeta, HdfsGateway, file_meta, open_reader,
}
use hdfs_s3_gateway.Gateway.Objects.{
  HttpApi, strong, HeadObjectInput, HeadObjectOutput, Answer, preconditions, millis_to_timestamp,
  metadata_of, head_object, head_stat, head_found, head_output,
}
use hdfs_s3_gateway.Gateway.GetObject.{
  GetObjectInput, GetObjectOutput, window, get_object, get_stat, get_found, get_window, get_opened,
  get_body, try_usize,
}

-- The HeadObject request for the object that a GetObject request asks for.
abbrev pub head_of : GetObjectInput → HeadObjectInput
head_of input = record { bucket = input.bucket; key = input.key; conditions = input.conditions }

module _ (http : HttpApi) (readers : ReaderApi) (lru : LruCrate) where
  found_refused :
      (g : HdfsGateway readers lru) (r : Request readers) (input : GetObjectInput) (path : Bytes)
      (status : FileMeta) (e : S3Error)
      → (head_found http readers lru g r (head_of input) path status).1 ≡ err e
      → get_found http readers lru g r input path status
        ≡ ((head_found http readers lru g r (head_of input) path status).0, err e)
  unfolding head_found get_found
  found_refused g r input path status e h = elim (Bool-cases status.isdir) [
    | inl d ↦ ground (arith, h, d)
    | inr d ↦
        elim (Option-cases (
          preconditions http input.conditions
            (strong (etag (metadata_of http readers lru path status)))
            (millis_to_timestamp status.modification_time))) [
              | inl p ↦ ground (arith, h, d, p)
              | inr (c, p) ↦ ground (arith, h, d, p)
            ]
  ]

  stat_refused :
      (r : Request readers) (input : GetObjectInput) (path : Bytes)
      (a : Answer http readers lru FileMeta) (e : S3Error)
      → (head_stat http readers lru r (head_of input) path a).1 ≡ err e
      → get_stat http readers lru r input path a
        ≡ ((head_stat http readers lru r (head_of input) path a).0, err e)
  unfolding head_stat get_stat
  stat_refused r input path (g, ok status) e h = found_refused g r input path status e h
  stat_refused r input path (g, err f) e h = ground (arith, h)

  -- Where HeadObject is refused, GetObject of the same object is refused with the same error, without
  -- opening a reader.
  pub head_object_refused :
      (g : HdfsGateway readers lru) (r : Request readers) (input : GetObjectInput) (e : S3Error)
      → (head_object http readers lru g r (head_of input)).1 ≡ err e
      → get_object http readers lru g r input
        ≡ ((head_object http readers lru g r (head_of input)).0, err e)
  unfolding head_object get_object
  head_object_refused g r input e h = elim (Bool-cases (input.bucket =? g.mapper.bucket)) [
    | inr b ↦ ground (arith, h, b)
    | inl b ↦ elim (Option-cases (key_to_hdfs_path g.mapper input.key)) [
      | inl k ↦ ground (arith, h, b, k)
      | inr (path, k) ↦
          ground (arith, h, b, k, stat_refused r input path (file_meta readers lru g r path) e)
    ]
  ]

  -- One content type, time and ETag.
  abbrev pub Agrees : GetObjectOutput → HeadObjectOutput → Type 0
  Agrees out h =
      (out.content_type ≡ h.content_type)
      × (out.last_modified ≡ h.last_modified)
      × (out.e_tag ≡ h.e_tag)

  opened-Agrees :
      (r : Request readers) (path : Bytes) (status : FileMeta) (s t : ℕ) (cr : Option Bytes)
      (a : Answer http readers lru readers.Reader) (out : GetObjectOutput)
      → (get_opened http readers lru r path status s t cr a).1 ≡ ok out
      → Agrees out (head_output http readers lru path status)
        × (out.content_length ≡ as_i64 (t - s))
  unfolding get_opened get_body head_output
  opened-Agrees r path status s t cr (g, ok reader) out h = ground (arith, h)
  opened-Agrees r path status s t cr (g, err e) out h = ground (arith, h)

  window-Agrees :
      (g : HdfsGateway readers lru) (r : Request readers) (path : Bytes) (status : FileMeta)
      (s t : ℕ) (cr : Option Bytes) (out : GetObjectOutput)
      → (get_window http readers lru g r path status (some (s, t, cr))).1 ≡ ok out
      → Agrees out (head_output http readers lru path status)
        × (out.content_length ≡ as_i64 (t - s))
  unfolding get_window try_usize
  window-Agrees g r path status s t cr out h =
      ground
        (arith, h, opened-Agrees r path status s t cr (open_reader readers lru g r path status) out)

  found_agrees :
      (g : HdfsGateway readers lru) (r : Request readers) (input : GetObjectInput) (path : Bytes)
      (status : FileMeta) (out : GetObjectOutput)
      → (get_found http readers lru g r input path status).1 ≡ ok out
      → ((head_found http readers lru g r (head_of input) path status).1
          ≡ ok (head_output http readers lru path status))
        × ((get_window http readers lru g r path status
              (window http readers lru status.length input.range)).1
            ≡ ok out)
  unfolding get_found head_found
  found_agrees g r input path status out h = elim (Bool-cases status.isdir) [
    | inl d ↦ ground (arith, h, d)
    | inr d ↦
        elim (Option-cases (
          preconditions http input.conditions
            (strong (etag (metadata_of http readers lru path status)))
            (millis_to_timestamp status.modification_time))) [
              | inl p ↦ ground (arith, h, d, p)
              | inr (c, p) ↦ ground (arith, h, d, p)
            ]
  ]

  -- An answer is of a file that was found: its path and metadata, and the window that was opened.
  abbrev pub IsFound :
      HdfsGateway readers lru
      → Request readers
      → GetObjectInput
      → GetObjectOutput
      → Bytes
      → FileMeta
      → Type 0
  IsFound g r input out path status =
      (key_to_hdfs_path g.mapper input.key ≡ some path)
      × ((file_meta readers lru g r path).1 ≡ ok status)
      × ((head_object http readers lru g r (head_of input)).1
          ≡ ok (head_output http readers lru path status))
      × ((get_window http readers lru (file_meta readers lru g r path).0 r path status
            (window http readers lru status.length input.range)).1
          ≡ ok out)

  stat_found :
      (r : Request readers) (input : GetObjectInput) (path : Bytes)
      (a : Answer http readers lru FileMeta) (out : GetObjectOutput)
      → (get_stat http readers lru r input path a).1 ≡ ok out
      → (status : FileMeta) × (a.1 ≡ ok status)
        × ((head_stat http readers lru r (head_of input) path a).1
            ≡ ok (head_output http readers lru path status))
        × ((get_window http readers lru a.0 r path status
              (window http readers lru status.length input.range)).1
            ≡ ok out)
  unfolding get_stat head_stat
  stat_found r input path (g, ok status) out h =
      let found = found_agrees g r input path status out h in (status, refl, found.0, found.1)
  stat_found r input path (g, err e) out h = absurd (ground (arith, h))

  -- A file that GetObject answers with was found below the root, and HeadObject answers too.
  pub get_object-IsFound :
      (g : HdfsGateway readers lru) (r : Request readers) (input : GetObjectInput)
      (out : GetObjectOutput)
      → (get_object http readers lru g r input).1 ≡ ok out
      → (path : Bytes) × (status : FileMeta) × IsFound g r input out path status
  unfolding head_object get_object
  get_object-IsFound g r input out h = elim (Bool-cases (input.bucket =? g.mapper.bucket)) [
    | inr b ↦ absurd (ground (arith, h, b))
    | inl b ↦ elim (Option-cases (key_to_hdfs_path g.mapper input.key)) [
      | inl k ↦ absurd (ground (arith, h, b, k))
      | inr (path, k) ↦
          let a = file_meta readers lru g r path in
          let there : (get_stat http readers lru r input path a).1 ≡ ok out =
            ground (arith, h, b, k) in
          let (status, e, head, win) = stat_found r input path a out there in
          (path, status, (k, e, ground (arith, head, b, k), win))
    ]
  ]

  window_some :
      (g : HdfsGateway readers lru) (r : Request readers) (path : Bytes) (status : FileMeta)
      (w : Option (ℕ × ℕ × Option Bytes)) (out : GetObjectOutput)
      → (get_window http readers lru g r path status w).1 ≡ ok out
      → Agrees out (head_output http readers lru path status)
  window_some g r path status none out h = absurd (unfold get_window in ground (arith, h))
  window_some g r path status (some (s, t, cr)) out h =
      (window-Agrees g r path status s t cr out h).0

  -- Where GetObject succeeds, HeadObject of the same object does too, with the same content type, time
  -- and ETag.
  pub get_object-Agrees :
      (g : HdfsGateway readers lru) (r : Request readers) (input : GetObjectInput)
      (out : GetObjectOutput)
      → (get_object http readers lru g r input).1 ≡ ok out
      → (h : HeadObjectOutput) × ((head_object http readers lru g r (head_of input)).1 ≡ ok h)
        × Agrees out h
  get_object-Agrees g r input out h =
      let (path, status, (k, e, head, win)) = get_object-IsFound g r input out h in
      (
        head_output http readers lru path status,
        head,
        window_some (file_meta readers lru g r path).0 r path status
            (window http readers lru status.length input.range) out win,
      )
