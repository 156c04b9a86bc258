-- ===== src/Gateway/Refusals.antt =====
-- The errors of the object handlers (src/s3/mod.rs): each carries the id of its request, and no text of
-- the upstream error unless the configuration exposes it.
use hdfs_s3_gateway.Prelude.{ok, err, ℕ, ltb, ◌≡◌, refl, subst, Bytes, ◌=?◌, Option, none, some}
use hdfs_s3_gateway.Cache.{remove}
use hdfs_s3_gateway.Error.{S3Error, S3ErrorCode, s3_error}
use hdfs_s3_gateway.Path.{key_to_hdfs_path}
use hdfs_s3_gateway.Metadata.{etag}
use hdfs_s3_gateway.Gateway.{
  LruCrate, ReaderApi, Request, FileMeta, CachedReader, HdfsGateway, attach, file_meta, open_reader,
}
use hdfs_s3_gateway.Gateway.Objects.{
  HttpApi, strong, Answer, preconditions, millis_to_timestamp, metadata_of,
}
use hdfs_s3_gateway.Gateway.GetObject.{
  GetObjectInput, GetObjectOutput, window, get_object, get_stat, get_found, get_window, get_opened,
  get_body, try_usize,
}
use hdfs_s3_gateway.Gateway.Lookups.{
  IsRefusal, IsTagged, attach-s3_error, IsAnswer, option-IsAnswer, if-IsAnswer, file_meta-IsAnswer,
  open_reader-IsAnswer, refused-IsAnswer, next-IsAnswer,
}

module _ (http : HttpApi) (readers : ReaderApi) (lru : LruCrate) where
  get_body-IsAnswer :
      (g : HdfsGateway readers lru) (r : Request readers) (path : Bytes) (status : FileMeta)
      (s t : ℕ) (cr : Option Bytes) (reader : readers.Reader)
      → IsAnswer readers lru g r (get_body http readers lru g r path status s t cr reader)
  unfolding get_body
  get_body-IsAnswer g r path status s t cr reader =
      if-IsAnswer readers lru g r (ltb (readers.file_length reader) t)
        (
          record g {
            cache = record g.cache {
              blocks = remove (lru.api (CachedReader readers)) g.cache.blocks path;
              metadata = remove (lru.api FileMeta) g.cache.metadata path;
            };
          },
          err (attach r.request_id (s3_error S3ErrorCode.internal_error)),
        )
        (g, ok _)
        (
          refl,
          attach-s3_error r.request_id g.config.expose_upstream_errors S3ErrorCode.internal_error,
        )
        (refl, tt)

  opened-IsAnswer :
      (g : HdfsGateway readers lru) (r : Request readers) (path : Bytes) (status : FileMeta)
      (s t : ℕ) (cr : Option Bytes)
      → IsAnswer readers lru g r (
          get_opened http readers lru r path status s t cr
            (open_reader readers lru g r path status))
  unfolding get_opened
  opened-IsAnswer g r path status s t cr =
      next-IsAnswer readers lru g r (open_reader readers lru g r path status)
        (get_opened http readers lru r path status s t cr)
        (λ g' reader. get_body-IsAnswer g' r path status s t cr reader) (λ g' e. refl)
        (open_reader-IsAnswer readers lru g r path status)

  end-IsAnswer :
      (g : HdfsGateway readers lru) (r : Request readers) (path : Bytes) (status : FileMeta) (u : ℕ)
      (cr : Option Bytes) (end_exclusive : Option ℕ)
      → IsAnswer readers lru g r
          (elim end_exclusive as (λ x. Answer http readers lru GetObjectOutput) [
            | none ↦ (g, err (attach r.request_id (s3_error S3ErrorCode.invalid_range)))
            | some v ↦
                get_opened http readers lru r path status u v cr
                  (open_reader readers lru g r path status)
          ])
  end-IsAnswer g r path status u cr none =
      refused-IsAnswer readers lru GetObjectOutput g r S3ErrorCode.invalid_range
  end-IsAnswer g r path status u cr (some v) = opened-IsAnswer g r path status u v cr

  get_window-IsAnswer :
      (g : HdfsGateway readers lru) (r : Request readers) (path : Bytes) (status : FileMeta)
      (w : Option (ℕ × ℕ × Option Bytes))
      → IsAnswer readers lru g r (get_window http readers lru g r path status w)
  unfolding get_window
  get_window-IsAnswer g r path status none =
      refused-IsAnswer readers lru GetObjectOutput g r S3ErrorCode.invalid_range
  get_window-IsAnswer g r path status (some (s, t, cr)) =
      let invalid = refused-IsAnswer readers lru GetObjectOutput g r S3ErrorCode.invalid_range in
      option-IsAnswer readers lru g r (try_usize s)
        (g, err (attach r.request_id (s3_error S3ErrorCode.invalid_range))) _ invalid
        (λ u. end-IsAnswer g r path status u cr (try_usize t))

  found-IsAnswer :
      (g : HdfsGateway readers lru) (r : Request readers) (input : GetObjectInput) (path : Bytes)
      (status : FileMeta)
      → IsAnswer readers lru g r (get_found http readers lru g r input path status)
  unfolding get_found
  found-IsAnswer g r input path status =
      let e = strong (etag (metadata_of http readers lru path status)) in
      if-IsAnswer readers lru g r status.isdir
        (g, err (attach r.request_id (s3_error S3ErrorCode.no_such_key))) _
        (refused-IsAnswer readers lru GetObjectOutput g r S3ErrorCode.no_such_key)
        (option-IsAnswer readers lru g r
          (preconditions http input.conditions e (millis_to_timestamp status.modification_time)) _ _
          (get_window-IsAnswer g r path status (window http readers lru status.length input.range))
          (λ code. refused-IsAnswer readers lru GetObjectOutput g r code))

  get_object-IsAnswer :
      (g : HdfsGateway readers lru) (r : Request readers) (input : GetObjectInput)
      → IsAnswer readers lru g r (get_object http readers lru g r input)
  unfolding get_object get_stat
  get_object-IsAnswer g r input =
      if-IsAnswer readers lru g r (input.bucket =? g.mapper.bucket) _
        (g, err (attach r.request_id (s3_error S3ErrorCode.no_such_bucket)))
        (option-IsAnswer readers lru g r (key_to_hdfs_path g.mapper input.key)
          (g, err (attach r.request_id (s3_error S3ErrorCode.no_such_key))) _
          (refused-IsAnswer readers lru GetObjectOutput g r S3ErrorCode.no_such_key)
          (λ path.
            next-IsAnswer readers lru g r (file_meta readers lru g r path)
              (get_stat http readers lru r input path)
              (λ g' status. found-IsAnswer g' r input path status) (λ g' e. refl)
              (file_meta-IsAnswer readers lru g r path)))
        (refused-IsAnswer readers lru GetObjectOutput g r S3ErrorCode.no_such_bucket)

  -- An error of GetObject carries the id of its request, and no message when upstream errors are not
  -- exposed.
  pub get_object-IsRefusal :
      (g : HdfsGateway readers lru) (r : Request readers) (input : GetObjectInput) (e : S3Error)
      → (get_object http readers lru g r input).1 ≡ err e
      → IsRefusal r.request_id g.config.expose_upstream_errors e
  get_object-IsRefusal g r input e h =
      subst (IsTagged r.request_id g.config.expose_upstream_errors) h
        (get_object-IsAnswer g r input).1
