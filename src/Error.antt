-- ===== src/Error.antt =====
-- Errors of the HDFS client and the S3 errors they become (src/s3/error.rs).
pub mod Exposure
use hdfs_s3_gateway.Prelude.{
  Bool, true, false, ◌||◌, Bytes, lit, ◌=?◌, if◌then◌else◌, Option, none, some, List, [], ◌∷◌,
}

-- The variants of `hdfs_native::HdfsError` that the program names, and one for all the others. The
-- first text of an RPC error is the class of the upstream exception.
pub data HdfsError : Type 0 where
  file_not_found : Bytes → HdfsError
  is_a_directory_error : Bytes → HdfsError
  invalid_path : Bytes → HdfsError
  invalid_argument : Bytes → HdfsError
  unsupported_feature : Bytes → HdfsError
  unsupported_erasure_coding_policy : Bytes → HdfsError
  sasl_error : Bytes → HdfsError
  gssapi_error : HdfsError
  no_sasl_mechanism : HdfsError
  rpc_error : Bytes → Bytes → HdfsError
  fatal_rpc_error : Bytes → Bytes → HdfsError
  other_error : Bytes → HdfsError

-- The variants of `S3ErrorCode` that the program answers with.
pub data S3ErrorCode : Type 0 where
  no_such_key : S3ErrorCode
  no_such_bucket : S3ErrorCode
  invalid_argument_code : S3ErrorCode
  not_implemented : S3ErrorCode
  access_denied : S3ErrorCode
  service_unavailable : S3ErrorCode
  internal_error : S3ErrorCode
  precondition_failed : S3ErrorCode
  not_modified : S3ErrorCode
  invalid_token : S3ErrorCode
  invalid_range : S3ErrorCode
  slow_down : S3ErrorCode

-- `S3Error`: its code, the message if one is set, and the source kept for the log.
pub record S3Error : Type 0 where
  pub code : S3ErrorCode
  pub message : Option Bytes
  pub source : Option HdfsError
  pub request_id : Option Bytes

-- `s3_error!(code)`
abbrev pub s3_error : S3ErrorCode → S3Error
s3_error code = record { code = code; message = none; source = none; request_id = none }

-- `s.ends_with(t)`
unfoldable pub ends_with : Bytes → Bytes → Bool
ends_with [] t = [] =? t
ends_with (x ∷ s) t = (x ∷ s) =? t || ends_with s t

-- `is_access_denied`
unfoldable pub is_access_denied : Bytes → Bool
unfolding ends_with
is_access_denied exception =
    ends_with exception (lit "AccessControlException")
    || (ends_with exception (lit "AuthorizationException")
        || (ends_with exception (lit "AccessDeniedException")
            || (ends_with exception (lit "PermissionDeniedException")
                || ends_with exception (lit "PermissionDenied"))))

-- `is_unavailable`
unfoldable pub is_unavailable : Bytes → Bool
unfolding ends_with
is_unavailable exception =
    ends_with exception (lit "StandbyException") || ends_with exception (lit "SafeModeException")

-- The arm of `map_hdfs_error` for RPC errors.
unfoldable pub rpc_code : Bytes → S3ErrorCode
unfolding is_access_denied is_unavailable
rpc_code exception =
    if is_access_denied exception
    then access_denied
    else if is_unavailable exception
    then service_unavailable
    else internal_error

-- The code of `map_hdfs_error`, behind its early return.
unfoldable pub error_code : HdfsError → S3ErrorCode
unfolding rpc_code
error_code (invalid_argument a) = invalid_argument_code
error_code (unsupported_feature f) = not_implemented
error_code (unsupported_erasure_coding_policy p) = not_implemented
error_code (sasl_error e) = access_denied
error_code gssapi_error = access_denied
error_code no_sasl_mechanism = access_denied
error_code (rpc_error exception m) = rpc_code exception
error_code (fatal_rpc_error exception m) = rpc_code exception
error_code _ = internal_error

-- The early return for the not-found family.
unfoldable pub is_missing : HdfsError → Bool
is_missing (file_not_found p) = true
is_missing (is_a_directory_error p) = true
is_missing (invalid_path p) = true
is_missing (invalid_argument a) = false
is_missing (unsupported_feature f) = false
is_missing (unsupported_erasure_coding_policy p) = false
is_missing (sasl_error e) = false
is_missing gssapi_error = false
is_missing no_sasl_mechanism = false
is_missing (rpc_error exception m) = false
is_missing (fatal_rpc_error exception m) = false
is_missing (other_error e) = false

-- `map_hdfs_error`; the text of an error is the client's, `err.to_string()`.
unfoldable pub map_hdfs_error : (HdfsError → Bytes) → HdfsError → Bool → S3Error
unfolding error_code is_missing
map_hdfs_error to_string err expose = if is_missing err then s3_error no_such_key else record {
  code = error_code err;
  message = if expose then some (to_string err) else none;
  source = some err;
  request_id = none;
}
