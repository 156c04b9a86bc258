-- ===== src/Error/Exposure.antt =====
-- What a client learns of an upstream error (src/s3/error.rs, and the skipping of directories in
-- src/s3/sorted_listing.rs).
use hdfs_s3_gateway.Prelude.{
  ◌≡◌, refl, sym, ◌∙◌, ap, inl, inr, Bool, true, false, ◌||◌, Bool-cases, Bytes, Option, none, some,
  if◌then◌else◌, arith,
}
use hdfs_s3_gateway.Error.{
  HdfsError, S3ErrorCode, no_such_key, access_denied, S3Error, s3_error, map_hdfs_error, error_code,
  rpc_code, is_missing,
}
use hdfs_s3_gateway.SortedListing.{is_dir_denied, is_file_not_found}

-- What is sent of an error: all but the source, which only the log shows.
abbrev pub sent : S3Error → S3ErrorCode × Option Bytes × Option Bytes
sent e = (e.code, e.message, e.request_id)

-- The answer to an unexposed error, with the test for the early return given.
abbrev missing_or : Bool → HdfsError → S3Error
missing_or b e =
    if b
    then s3_error no_such_key
    else record { code = error_code e; message = none; source = some e; request_id = none }

unexposed :
    (text : HdfsError → Bytes) (e : HdfsError)
    → sent (map_hdfs_error text e false) ≡ ((map_hdfs_error text e false).code, none, none)
unfolding map_hdfs_error
unexposed text e = elim (Bool-cases (is_missing e)) [
  | inl h ↦
      ap (λ b. sent (missing_or b e)) h ∙ ap (λ b. ((missing_or b e).code, none, none)) (sym h)
  | inr h ↦
      ap (λ b. sent (missing_or b e)) h ∙ ap (λ b. ((missing_or b e).code, none, none)) (sym h)
]

-- With exposure off, two upstream errors that are answered with one code have one answer, whatever
-- their texts say.
pub map_hdfs_error_hides :
    (text text' : HdfsError → Bytes) (e e' : HdfsError)
    → (map_hdfs_error text e false).code ≡ (map_hdfs_error text' e' false).code
    → sent (map_hdfs_error text e false) ≡ sent (map_hdfs_error text' e' false)
map_hdfs_error_hides text text' e e' h =
    unexposed text e ∙ ap (λ c. (c, none, none)) h ∙ sym (unexposed text' e')

-- An error for which a flat listing skips a directory would itself be answered with AccessDenied
-- or, when the path does not exist, NoSuchKey.
pub skipped_code :
    (text : HdfsError → Bytes) (e : HdfsError) (expose : Bool)
    → (is_dir_denied e || is_file_not_found e) ≡ true
    → (map_hdfs_error text e expose).code
      ≡ (if is_file_not_found e then no_such_key else access_denied)
unfolding is_dir_denied is_file_not_found map_hdfs_error error_code rpc_code
skipped_code text (HdfsError.file_not_found p) expose h = refl
skipped_code text (HdfsError.rpc_error x m) expose h = ground (arith, h)
skipped_code text (HdfsError.fatal_rpc_error x m) expose h = ground (arith, h)
skipped_code text _ expose h = ground (arith, h)
