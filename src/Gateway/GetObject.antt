-- ===== src/Gateway/GetObject.antt =====
-- GetObject (src/s3/mod.rs).
use hdfs_s3_gateway.Prelude.{
  ok, err, ℕ, zero, suc, ◌+◌, ◌-◌, ◌/◌, ◌%◌, Bytes, lit, ◌=?◌, ltb, if◌then◌else◌, Option, none,
  some, List, [], ◌∷◌, ◌++◌, length, ℤ, as_i64,
}
use hdfs_s3_gateway.Cache.{usize_mod, remove}
use hdfs_s3_gateway.Error.{no_such_bucket, no_such_key, invalid_range, internal_error, s3_error}
use hdfs_s3_gateway.Path.{key_to_hdfs_path}
use hdfs_s3_gateway.Range.{ByteRange, from, inclusive, suffix, resolve_range}
use hdfs_s3_gateway.Metadata.{etag}
use hdfs_s3_gateway.Gateway.{
  LruCrate, ReaderApi, Request, FileMeta, CachedReader, HdfsGateway, attach, file_meta, open_reader,
}
use hdfs_s3_gateway.Gateway.Body.{Chunk, read, failure, truncate}
use hdfs_s3_gateway.Gateway.Objects.{
  HttpApi, ETag, strong, Conditions, Answer, preconditions, millis_to_timestamp, metadata_of,
  content_type,
}

-- `s3s::dto::Range`
pub data Range : Type 0 where
  int : ℕ → Option ℕ → Range
  suffix_of : ℕ → Range

-- `GetObjectInput`
pub record GetObjectInput : Type 0 where
  pub bucket : Bytes
  pub key : Bytes
  pub conditions : Conditions
  pub range : Option Range

-- The response's body: the range stream behind `bytes_stream` with its limit, and the path whose
-- cached entries a failure drops.
pub record StreamingBody : Type 0 where
  pub path : Bytes
  pub stream : List Chunk
  pub limit : ℕ

-- `GetObjectOutput`
pub record GetObjectOutput : Type 0 where
  pub body : StreamingBody
  pub content_length : ℤ
  pub content_range : Option Bytes
  pub content_type : Bytes
  pub last_modified : ℕ
  pub e_tag : ETag

-- `usize::try_from` of a `u64`
unfoldable pub try_usize : ℕ → Option ℕ
try_usize n = if ltb n usize_mod then some n else none

-- The range as `core` has it.
unfoldable pub to_byte_range : Range → ByteRange
to_byte_range (int first (some last)) = inclusive first last
to_byte_range (int first none) = from first
to_byte_range (suffix_of length) = suffix length

-- `{}` of a number with at most as many digits as there is fuel.
unfoldable pub decimal_digits : ℕ → ℕ → Bytes
decimal_digits zero n = []
decimal_digits (suc fuel) n =
    let rest = decimal_digits fuel (n / 10) in
    if ltb n 10 then (b'0' + n) ∷ [] else rest ++ ((b'0' + n % 10) ∷ [])

-- `{}` of a `u64`, which has at most twenty digits.
unfoldable pub decimal : ℕ → Bytes
unfolding decimal_digits
decimal n = decimal_digits 20 n

module _ (http : HttpApi) (readers : ReaderApi) (lru : LruCrate) where
  -- `fmt_content_range`
  unfoldable pub fmt_content_range : ℕ → ℕ → ℕ → Bytes
  unfolding decimal
  fmt_content_range start end_inclusive size =
      lit "bytes "
      ++ (decimal start ++ (lit "-" ++ (decimal end_inclusive ++ (lit "/" ++ decimal size))))

  -- The window of a request, with the `Content-Range` of a ranged one.
  unfoldable pub window : ℕ → Option Range → Option (ℕ × ℕ × Option Bytes)
  unfolding resolve_range to_byte_range fmt_content_range
  window file_len none = some (0, file_len, none)
  window file_len (some range) = elim (resolve_range file_len (to_byte_range range)) [
    | none ↦ none
    | some (s, e) ↦ some (s, e, some (fmt_content_range s (e - 1) file_len))
  ]

  -- GetObject on an open reader.
  unfoldable pub get_body :
      HdfsGateway readers lru
      → Request readers
      → Bytes
      → FileMeta
      → ℕ
      → ℕ
      → Option Bytes
      → readers.Reader
      → Answer http readers lru GetObjectOutput
  unfolding attach metadata_of etag content_type millis_to_timestamp
  get_body g r path status start end_exclusive content_range reader =
      if ltb (readers.file_length reader) end_exclusive
      then (
        record g {
          cache = record g.cache {
            blocks = remove (lru.api (CachedReader readers)) g.cache.blocks path;
            metadata = remove (lru.api FileMeta) g.cache.metadata path;
          };
        },
        err (attach r.request_id (s3_error internal_error)),
      )
      else (
        g,
        ok (record {
          body = record {
            path = path;
            stream = readers.read_range_stream reader start (end_exclusive - start);
            limit = end_exclusive - start;
          };
          content_length = as_i64 (end_exclusive - start);
          content_range = content_range;
          content_type = content_type http (metadata_of http readers lru path status);
          last_modified = millis_to_timestamp status.modification_time;
          e_tag = strong (etag (metadata_of http readers lru path status));
        }),
      )

  unfoldable pub get_opened :
      Request readers
      → Bytes
      → FileMeta
      → ℕ
      → ℕ
      → Option Bytes
      → Answer http readers lru readers.Reader
      → Answer http readers lru GetObjectOutput
  unfolding get_body
  get_opened r path status start end_exclusive content_range (g, ok reader) =
      get_body g r path status start end_exclusive content_range reader
  get_opened r path status start end_exclusive content_range (g, err e) = (g, err e)

  -- GetObject behind its conditional headers: the window, its addresses, and the read.
  unfoldable pub get_window :
      HdfsGateway readers lru
      → Request readers
      → Bytes
      → FileMeta
      → Option (ℕ × ℕ × Option Bytes)
      → Answer http readers lru GetObjectOutput
  unfolding attach try_usize open_reader get_opened
  get_window g r path status none = (g, err (attach r.request_id (s3_error invalid_range)))
  get_window g r path status (some (start, end_exclusive, content_range)) = elim (try_usize start) [
    | none ↦ (g, err (attach r.request_id (s3_error invalid_range)))
    | some window_start ↦ elim (try_usize end_exclusive) [
      | none ↦ (g, err (attach r.request_id (s3_error invalid_range)))
      | some window_end ↦
          get_opened r path status window_start window_end content_range
            (open_reader readers lru g r path status)
    ]
  ]

  -- GetObject on the file's metadata.
  unfoldable pub get_found :
      HdfsGateway readers lru
      → Request readers
      → GetObjectInput
      → Bytes
      → FileMeta
      → Answer http readers lru GetObjectOutput
  unfolding attach preconditions window get_window
  get_found g r input path status =
      if status.isdir
      then (g, err (attach r.request_id (s3_error no_such_key)))
      else elim (preconditions http input.conditions
          (strong (etag (metadata_of http readers lru path status)))
          (millis_to_timestamp status.modification_time)) [
            | some code ↦ (g, err (attach r.request_id (s3_error code)))
            | none ↦ get_window g r path status (window status.length input.range)
          ]

  unfoldable pub get_stat :
      Request readers
      → GetObjectInput
      → Bytes
      → Answer http readers lru FileMeta
      → Answer http readers lru GetObjectOutput
  unfolding get_found
  get_stat r input path (g, ok status) = get_found g r input path status
  get_stat r input path (g, err e) = (g, err e)

  -- `GetObject`
  unfoldable pub get_object :
      HdfsGateway readers lru
      → Request readers
      → GetObjectInput
      → Answer http readers lru GetObjectOutput
  unfolding attach key_to_hdfs_path file_meta get_stat
  get_object g r input =
      if input.bucket =? g.mapper.bucket
      then elim (key_to_hdfs_path g.mapper input.key) [
        | none ↦ (g, err (attach r.request_id (s3_error no_such_key)))
        | some path ↦ get_stat r input path (file_meta readers lru g r path)
      ]
      else (g, err (attach r.request_id (s3_error no_such_bucket)))

  -- The gateway after the body's stream is polled to its end: each failure drops both entries.
  unfoldable pub poll_body :
      HdfsGateway readers lru → Bytes → List Chunk → ℕ → HdfsGateway readers lru
  unfolding truncate
  poll_body g path [] remaining = g
  poll_body g path (c ∷ stream) zero = g
  poll_body g path (read b ∷ stream) (suc remaining) =
      poll_body g path stream (suc remaining - length (truncate b (suc remaining)))
  poll_body g path (failure e ∷ stream) (suc remaining) =
      poll_body
        (record g {
          cache = record g.cache {
            blocks = remove (lru.api (CachedReader readers)) g.cache.blocks path;
            metadata = remove (lru.api FileMeta) g.cache.metadata path;
          };
        })
        path stream (suc remaining)
