-- ===== src/Gateway/ReadOnly.antt =====
-- The operations that need no HDFS: ListBuckets, the refused writes and the probes of a bucket's
-- configuration (src/s3/write_policy.rs, src/s3/mod.rs), with what they log.
use hdfs_s3_gateway.Prelude.{
  ℕ, ◌+◌, ◌%◌, ◌++◌, Bool, true, false, Bytes, lit, Option, none, some, List, [], ◌∷◌, Result, ok,
  err,
}
use hdfs_s3_gateway.Error.{S3Error, access_denied}
use hdfs_s3_gateway.Cache.{usize_mod}
use hdfs_s3_gateway.Metadata.{lower_hex}
use hdfs_s3_gateway.Path.{PathMapper}
use hdfs_s3_gateway.Gateway.{attach}

-- `new_request_id`: the id of the instant and of the counter's value, which is then increased.
unfoldable pub new_request_id : ℕ → ℕ → Bytes × ℕ
unfolding lower_hex
new_request_id micros seq =
    (lower_hex 32 micros ++ (lit "-" ++ lower_hex 16 seq), (seq + 1) % usize_mod)

-- `RequestLog`, less the clock and the span.
pub record RequestLog : Type 0 where
  pub op : Bytes
  pub request_id : Bytes
  pub hdfs_path : Option Bytes
  pub bytes_served : ℕ
  pub is_ok : Bool

-- `RequestLog::new`, of the id that is minted.
unfoldable pub log_new : Bytes → Bytes → RequestLog
log_new op request_id = record {
  op = op;
  request_id = request_id;
  hdfs_path = none;
  bytes_served = 0;
  is_ok = false;
}

-- `RequestLog::set_path`, `set_bytes` and `mark_ok`
unfoldable pub set_path : RequestLog → Bytes → RequestLog
set_path log path = record log { hdfs_path = some path }

unfoldable pub set_bytes : RequestLog → ℕ → RequestLog
set_bytes log n = record log { bytes_served = n }

unfoldable pub mark_ok : RequestLog → RequestLog
mark_ok log = record log { is_ok = true }

-- The completion line, without the latency.
pub record Completed : Type 0 where
  pub request_id : Bytes
  pub op : Bytes
  pub hdfs_path : Bytes
  pub bytes_served : ℕ
  pub is_ok : Bool

-- `Drop for RequestLog`
unfoldable pub completed : RequestLog → Completed
completed log = record {
  request_id = log.request_id;
  op = log.op;
  hdfs_path = elim log.hdfs_path [ none ↦ [] | some path ↦ path ];
  bytes_served = log.bytes_served;
  is_ok = log.is_ok;
}

-- `RequestLog::finish`, with the line that it leaves.
unfoldable pub finish : {A : Type 0} → RequestLog → Result A S3Error → Completed × Result A S3Error
unfolding completed attach
finish log (ok a) = (completed log, ok a)
finish log (err e) = (completed log, err (attach log.request_id e))

-- `S3Response`: the output, and the header `x-amz-request-id` where the id can be a header.
pub record Response (A : Type 0) : Type 0 where
  pub output : A
  pub request_id_header : Option Bytes

module _ (is_header_value : Bytes → Bool) where
  -- `with_request_id`, with the log's line after it.
  unfoldable pub with_request_id : {A : Type 0} → A → RequestLog → Completed × Response A
  unfolding mark_ok completed
  with_request_id output log = (
    completed (mark_ok log),
    record {
      output = output;
      request_id_header = elim (is_header_value log.request_id) [
        | true ↦ some log.request_id
        | false ↦ none
      ];
    },
  )

-- `write_denied`
abbrev pub write_denied : S3Error
write_denied = record {
  code = access_denied;
  message = some (lit "this gateway is read-only; write operations are not supported");
  source = none;
  request_id = none;
}

-- The write-shaped operations that have a handler.
pub data WriteOperation : Type 0 where
  put_object : WriteOperation
  delete_object : WriteOperation
  delete_objects : WriteOperation
  create_bucket : WriteOperation
  delete_bucket : WriteOperation
  copy_object : WriteOperation
  create_multipart_upload : WriteOperation
  upload_part : WriteOperation
  complete_multipart_upload : WriteOperation
  abort_multipart_upload : WriteOperation
  list_multipart_uploads : WriteOperation
  list_parts : WriteOperation
  restore_object : WriteOperation

-- The name that a handler logs.
unfoldable pub op_name : WriteOperation → Bytes
op_name put_object = lit "PutObject"
op_name delete_object = lit "DeleteObject"
op_name delete_objects = lit "DeleteObjects"
op_name create_bucket = lit "CreateBucket"
op_name delete_bucket = lit "DeleteBucket"
op_name copy_object = lit "CopyObject"
op_name create_multipart_upload = lit "CreateMultipartUpload"
op_name upload_part = lit "UploadPart"
op_name complete_multipart_upload = lit "CompleteMultipartUpload"
op_name abort_multipart_upload = lit "AbortMultipartUpload"
op_name list_multipart_uploads = lit "ListMultipartUploads"
op_name list_parts = lit "ListParts"
op_name restore_object = lit "RestoreObject"

-- Their handlers, `put_object` to `restore_object`; there is no output.
unfoldable pub refuse_write : {A : Type 0} → WriteOperation → Bytes → Completed × Result A S3Error
unfolding log_new finish op_name
refuse_write operation request_id =
    finish (log_new (op_name operation) request_id) (err write_denied)

-- What a fresh bucket answers to the probes: no status, no tags, no owner and no grants, no rules.
pub data Probe : Type 0 where
  get_bucket_versioning : Probe
  get_bucket_tagging : Probe
  get_bucket_acl : Probe
  get_bucket_cors : Probe

pub data ProbeOutput : Type 0 where
  versioning : Option Bytes → ProbeOutput
  tagging : List (Bytes × Bytes) → ProbeOutput
  acl : Option Bytes → Option (List Bytes) → ProbeOutput
  cors : Option (List Bytes) → ProbeOutput

-- `bucket_versioning_not_configured` and the others
unfoldable pub not_configured : Probe → ProbeOutput
not_configured get_bucket_versioning = versioning none
not_configured get_bucket_tagging = tagging []
not_configured get_bucket_acl = acl none none
not_configured get_bucket_cors = cors none

unfoldable pub probe_name : Probe → Bytes
probe_name get_bucket_versioning = lit "GetBucketVersioning"
probe_name get_bucket_tagging = lit "GetBucketTagging"
probe_name get_bucket_acl = lit "GetBucketAcl"
probe_name get_bucket_cors = lit "GetBucketCors"

-- `Bucket`, with its creation date.
pub record Bucket : Type 0 where
  pub name : Bytes
  pub creation_date : ℕ

module _ (is_header_value : Bytes → Bool) where
  -- The handlers of the probes.
  unfoldable pub answer_probe : Probe → Bytes → Completed × Response ProbeOutput
  unfolding log_new with_request_id not_configured probe_name
  answer_probe probe request_id =
      with_request_id is_header_value (not_configured probe) (log_new (probe_name probe) request_id)

  -- `list_buckets`, at an instant.
  unfoldable pub list_buckets : PathMapper → ℕ → Bytes → Completed × Response (List Bucket)
  unfolding log_new with_request_id
  list_buckets mapper now request_id =
      with_request_id is_header_value (record { name = mapper.bucket; creation_date = now } ∷ [])
        (log_new (lit "ListBuckets") request_id)
