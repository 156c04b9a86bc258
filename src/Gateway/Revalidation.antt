-- ===== src/Gateway/Revalidation.antt =====
-- Revalidation by the time that the client was sent (the conditional headers of src/s3/mod.rs).
use hdfs_s3_gateway.Prelude.{ℕ, ◌*◌, ◌/◌, ◌%◌, ◌≡◌, none, some, ◌==◌, if◌then◌else◌, arith}
use hdfs_s3_gateway.Error.{precondition_failed, not_modified}
use hdfs_s3_gateway.Gateway.Objects.{
  HttpApi, ETag, Conditions, preconditions, check_match, check_unmodified, check_none_match,
  check_modified, millis_to_timestamp,
}

-- The time of an HTTP date for a file's time: `Last-Modified` has whole seconds.
abbrev pub http_date : ℕ → ℕ
http_date millis = millis / 1000 * 1_000_000_000

abbrev pub unmodified_since : ℕ → Conditions
unmodified_since t = record {
  if_match = none;
  if_unmodified_since = some t;
  if_none_match = none;
  if_modified_since = none;
}

abbrev pub modified_since : ℕ → Conditions
modified_since t = record {
  if_match = none;
  if_unmodified_since = none;
  if_none_match = none;
  if_modified_since = some t;
}

-- A client that sends back the `Last-Modified` date of a file that has not changed, as
-- If-Unmodified-Since or as If-Modified-Since, is answered as for an unchanged file only when the
-- file's time is a whole number of seconds; otherwise the first is refused with PreconditionFailed
-- and the second does not yield NotModified.
pub preconditions_date :
    (http : HttpApi) (e : ETag) (millis : ℕ)
    → (preconditions http (unmodified_since (http_date millis)) e (millis_to_timestamp millis)
        ≡ (if millis % 1000 == 0 then none else some precondition_failed))
      × (preconditions http (modified_since (http_date millis)) e (millis_to_timestamp millis)
          ≡ (if millis % 1000 == 0 then some not_modified else none))
unfolding preconditions check_match check_unmodified check_none_match check_modified
    millis_to_timestamp
preconditions_date http e millis = (ground arith, ground arith)
