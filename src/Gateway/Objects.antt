-- ===== src/Gateway/Objects.antt =====
-- HeadBucket and HeadObject, and what GetObject shares with it (src/s3/mod.rs).
use hdfs_s3_gateway.Prelude.{
  Result, ok, err, ℕ, ◌+◌, ◌*◌, ◌/◌, ◌%◌, Bool, Bytes, lit, ◌=?◌, ltb, leb, if◌then◌else◌, Option,
  none, some, last?, ℤ, as_i64,
}
use hdfs_s3_gateway.Error.{
  S3Error, S3ErrorCode, no_such_bucket, no_such_key, precondition_failed, not_modified, s3_error,
}
use hdfs_s3_gateway.Path.{split, key_to_hdfs_path}
use hdfs_s3_gateway.Metadata.{ObjectMetadata, etag}
use hdfs_s3_gateway.Gateway.{LruCrate, ReaderApi, Request, FileMeta, HdfsGateway, attach, file_meta}

-- `s3s::dto::ETag`
pub data ETag : Type 0 where
  strong : Bytes → ETag
  weak : Bytes → ETag

-- `ETagCondition`
pub data ETagCondition : Type 0 where
  any : ETagCondition
  one : ETag → ETagCondition

-- What the handlers use of `s3s` and `mime_guess`: the comparisons of ETags, and the media type
-- of a file name.
pub record HttpApi : Type 0 where
  pub strong_cmp : ETag → ETag → Bool
  pub weak_cmp : ETag → ETag → Bool
  pub from_path : Bytes → Option Bytes

-- The conditional headers of a request; a time is in nanoseconds since the epoch.
pub record Conditions : Type 0 where
  pub if_match : Option ETagCondition
  pub if_unmodified_since : Option ℕ
  pub if_none_match : Option ETagCondition
  pub if_modified_since : Option ℕ

-- `HeadObjectInput`
pub record HeadObjectInput : Type 0 where
  pub bucket : Bytes
  pub key : Bytes
  pub conditions : Conditions

-- `HeadObjectOutput`
pub record HeadObjectOutput : Type 0 where
  pub content_length : ℤ
  pub content_type : Bytes
  pub last_modified : ℕ
  pub e_tag : ETag

-- `millis_to_timestamp`: seconds and the nanoseconds within one, since the epoch.
unfoldable pub millis_to_timestamp : ℕ → ℕ
millis_to_timestamp millis = millis / 1000 * 1_000_000_000 + millis % 1000 * 1_000_000

-- `or` of two checks: the first that fails is the answer.
infixl 20 ◌orelse◌
abbrev ◌orelse◌ : Option S3ErrorCode → Option S3ErrorCode → Option S3ErrorCode
none orelse b = b
some c orelse b = some c

-- `rsplit('/').next()`
unfoldable pub file_name : Bytes → Bytes
unfolding split
file_name path = elim (last? (split path)) [ none ↦ path | some name ↦ name ]

module _ (http : HttpApi) where
  -- `ObjectMetadata::content_type`
  unfoldable pub content_type : ObjectMetadata → Bytes
  unfolding file_name
  content_type m = elim (http.from_path (file_name m.path)) [
    | some mime ↦ mime
    | none ↦ lit "application/octet-stream"
  ]

  unfoldable pub check_match : Option ETagCondition → ETag → Option S3ErrorCode
  check_match none e = none
  check_match (some any) e = none
  check_match (some (one other)) e =
      if http.strong_cmp e other then none else some precondition_failed

  unfoldable pub check_unmodified : Option ℕ → ℕ → Option S3ErrorCode
  check_unmodified none last_modified = none
  check_unmodified (some since) last_modified =
      if ltb since last_modified then some precondition_failed else none

  unfoldable pub check_none_match : Option ETagCondition → ETag → Option S3ErrorCode
  check_none_match none e = none
  check_none_match (some any) e = some not_modified
  check_none_match (some (one other)) e = if http.weak_cmp e other then some not_modified else none

  unfoldable pub check_modified : Option ℕ → ℕ → Option S3ErrorCode
  check_modified none last_modified = none
  check_modified (some since) last_modified =
      if leb last_modified since then some not_modified else none

  -- The conditional headers, in the order of both handlers.
  unfoldable pub preconditions : Conditions → ETag → ℕ → Option S3ErrorCode
  unfolding check_match check_unmodified check_none_match check_modified
  preconditions c e last_modified =
      check_match c.if_match e
      orelse check_unmodified c.if_unmodified_since last_modified
      orelse check_none_match c.if_none_match e
      orelse check_modified c.if_modified_since last_modified

  module _ (readers : ReaderApi) (lru : LruCrate) where
    abbrev pub Answer : Type 0 → Type 0
    Answer A = HdfsGateway readers lru × Result A S3Error

    -- `HeadBucket`
    unfoldable pub head_bucket : HdfsGateway readers lru → Request readers → Bytes → Answer Unit
    unfolding attach
    head_bucket g r bucket =
        if bucket =? g.mapper.bucket
        then (g, ok tt)
        else (g, err (attach r.request_id (s3_error no_such_bucket)))

    -- `ObjectMetadata::from_hdfs` of a stat, without a checksum
    unfoldable pub metadata_of : Bytes → FileMeta → ObjectMetadata
    metadata_of path status = record {
      path = path;
      length = status.length;
      is_dir = status.isdir;
      modification_time = status.modification_time;
      checksum = none;
    }

    -- HeadObject behind its conditional headers.
    unfoldable pub head_output : Bytes → FileMeta → HeadObjectOutput
    unfolding metadata_of etag content_type millis_to_timestamp
    head_output path status = record {
      content_length = as_i64 status.length;
      content_type = content_type (metadata_of path status);
      last_modified = millis_to_timestamp status.modification_time;
      e_tag = strong (etag (metadata_of path status));
    }

    -- HeadObject on the file's metadata.
    unfoldable pub head_found :
        HdfsGateway readers lru
        → Request readers
        → HeadObjectInput
        → Bytes
        → FileMeta
        → Answer HeadObjectOutput
    unfolding attach preconditions head_output
    head_found g r input path status =
        if status.isdir
        then (g, err (attach r.request_id (s3_error no_such_key)))
        else elim (preconditions input.conditions (strong (etag (metadata_of path status)))
            (millis_to_timestamp status.modification_time)) [
              | some code ↦ (g, err (attach r.request_id (s3_error code)))
              | none ↦ (g, ok (head_output path status))
            ]

    unfoldable pub head_stat :
        Request readers → HeadObjectInput → Bytes → Answer FileMeta → Answer HeadObjectOutput
    unfolding head_found
    head_stat r input path (g, ok status) = head_found g r input path status
    head_stat r input path (g, err e) = (g, err e)

    -- `HeadObject`
    unfoldable pub head_object :
        HdfsGateway readers lru → Request readers → HeadObjectInput → Answer HeadObjectOutput
    unfolding attach key_to_hdfs_path file_meta head_stat
    head_object g r input =
        if input.bucket =? g.mapper.bucket
        then elim (key_to_hdfs_path g.mapper input.key) [
          | none ↦ (g, err (attach r.request_id (s3_error no_such_key)))
          | some path ↦ head_stat r input path (file_meta readers lru g r path)
        ]
        else (g, err (attach r.request_id (s3_error no_such_bucket)))
