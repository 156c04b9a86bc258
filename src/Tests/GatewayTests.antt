-- ===== src/Tests/GatewayTests.antt =====
-- The handlers on a concrete object.
use mathlib.Core.List.{List-discrete}
use native.Mathlib.Decide.{ℕ_discrete}
use hdfs_s3_gateway.Tests.ListLru.{list_lru}
use hdfs_s3_gateway.Prelude.{
  Result, ok, err, ◌≡◌, refl, Bool, true, false, Bytes, lit, ◌=?◌, starts_with, length, as_i64,
  if◌then◌else◌, none, some, [], ◌∷◌, ◌++◌, take, drop, ◌%◌, ◌==◌, arith,
}
use hdfs_s3_gateway.Config.{config_default}
use hdfs_s3_gateway.Cache.{Entry}
use hdfs_s3_gateway.Error.{
  HdfsError, S3Error, map_hdfs_error, ends_with, access_denied, precondition_failed, not_modified,
  no_such_key, s3_error,
}
use hdfs_s3_gateway.SortedListing.{FileStatus}
use hdfs_s3_gateway.Gateway.{LruCrate, ReaderApi, Request, HdfsGateway, gateway_new, attach}
use hdfs_s3_gateway.Gateway.Objects.{
  HttpApi, ETag, strong, weak, Conditions, HeadObjectOutput, head_object, preconditions,
  millis_to_timestamp,
}
use hdfs_s3_gateway.Gateway.GetObject.{int, GetObjectInput, GetObjectOutput, get_object}
use hdfs_s3_gateway.Gateway.Revalidation.{
  http_date, unmodified_since, modified_since, preconditions_date,
}
use hdfs_s3_gateway.Gateway.Body.{read, delivered, bytes_stream}
use hdfs_s3_gateway.Gateway.Agreement.{head_of, head_object_refused, get_object-Agrees, Agrees}
use hdfs_s3_gateway.Gateway.Delivery.{ReaderLaws, Delivers, get_object-Delivers}
use hdfs_s3_gateway.Gateway.Refusals.{get_object-IsRefusal}
use hdfs_s3_gateway.Gateway.Lookups.{IsRefusal}

abbrev dec : Discrete Bytes
dec = List-discrete ℕ_discrete

abbrev crate : LruCrate
crate = record { api = λ V. list_lru dec }

-- A reader is its file, and a stream yields its range at once.
abbrev readers : ReaderApi
readers = record {
  Reader = Bytes;
  file_length = length;
  read_range_stream = λ file s n. read (take n (drop s file)) ∷ [];
}

append_nothing : (l : Bytes) → starts_with l (l ++ []) ≡ true
unfolding starts_with
append_nothing [] = refl
append_nothing (x ∷ l) = ground (arith, append_nothing l)

reader_laws : ReaderLaws readers
reader_laws = record {
  file = λ file. file;
  file_length_lem = λ file. refl;
  range_lem = λ file s n h. append_nothing (take n (drop s file));
}

abbrev status : FileStatus
status = record { path = lit "/a"; length = 5; isdir = false; modification_time = 1500 }

get_file_info : Bytes → Result FileStatus HdfsError
get_file_info path =
    if path =? lit "/a"
    then ok status
    else if path =? lit "/c"
    then err (HdfsError.rpc_error (lit "AccessControlException") (lit "inode /c"))
    else err (HdfsError.file_not_found path)

abbrev request : Request readers
request = record {
  client = record {
    get_file_info = get_file_info;
    list_status = λ path. ok [];
    read = λ path. ok (lit "hello");
    to_string = λ e. lit "upstream";
  };
  clock = λ i. i;
  request_id = lit "r1";
}

etag_cmp : ETag → ETag → Bool
etag_cmp (strong a) (strong b) = a =? b
etag_cmp (strong a) (weak b) = false
etag_cmp (weak a) b = false

abbrev http : HttpApi
http = record { strong_cmp = etag_cmp; weak_cmp = etag_cmp; from_path = λ name. none }

abbrev gateway : HdfsGateway readers crate
gateway = gateway_new readers crate config_default

abbrev unconditional : Conditions
unconditional = record {
  if_match = none;
  if_unmodified_since = none;
  if_none_match = none;
  if_modified_since = none;
}

abbrev get_a : GetObjectInput
get_a = record {
  bucket = lit "hdfs";
  key = lit "a";
  conditions = unconditional;
  range = some (int 1 (some 3));
}

abbrev get_b : GetObjectInput
get_b = record { bucket = lit "hdfs"; key = lit "b"; conditions = unconditional; range = none }

-- The answer of GetObject, or an empty one.
abbrev or_empty : Result GetObjectOutput S3Error → GetObjectOutput
or_empty (ok out) = out
or_empty (err e) = record {
  body = record { path = []; stream = []; limit = 0 };
  content_length = as_i64 0;
  content_range = none;
  content_type = [];
  last_modified = 0;
  e_tag = strong [];
}

abbrev answer_a : GetObjectOutput
answer_a = or_empty (get_object http readers crate gateway request get_a).1

range_served :
    (answer_a.content_range ≡ some (lit "bytes 1-3/5"))
    × (delivered (bytes_stream answer_a.body.stream answer_a.body.limit) ≡ lit "ell")
unfolding get_object gateway_new get_file_info ◌=?◌ starts_with hdfs_s3_gateway.Cache.get
    hdfs_s3_gateway.Cache.new bytes_stream
range_served = (refl, refl)

answered_a : (get_object http readers crate gateway request get_a).1 ≡ ok answer_a
unfolding get_object gateway_new get_file_info ◌=?◌ starts_with hdfs_s3_gateway.Cache.get
    hdfs_s3_gateway.Cache.new
answered_a = refl

abbrev missing_b : S3Error
missing_b = attach (lit "r1") (s3_error no_such_key)

head_b : (head_object http readers crate gateway request (head_of get_b)).1 ≡ err missing_b
unfolding head_object gateway_new get_file_info ◌=?◌ starts_with hdfs_s3_gateway.Cache.get
    hdfs_s3_gateway.Cache.new
head_b = refl

get_object-Agrees_example :
    (h : HeadObjectOutput) × ((head_object http readers crate gateway request (head_of get_a)).1
      ≡ ok h)
    × Agrees http readers crate answer_a h
get_object-Agrees_example =
    get_object-Agrees http readers crate gateway request get_a answer_a answered_a

head_object_refused_example :
    get_object http readers crate gateway request get_b
    ≡ ((head_object http readers crate gateway request (head_of get_b)).0, err missing_b)
head_object_refused_example =
    head_object_refused http readers crate gateway request get_b missing_b head_b

get_object-Delivers_example : Delivers http readers crate reader_laws gateway request get_a answer_a
get_object-Delivers_example =
    get_object-Delivers http readers crate reader_laws gateway request get_a answer_a answered_a

abbrev closed : HdfsGateway readers crate
closed = gateway_new readers crate (record config_default { expose_upstream_errors = false })

abbrev get_c : GetObjectInput
get_c = record { bucket = lit "hdfs"; key = lit "c"; conditions = unconditional; range = none }

abbrev denied_c : S3Error
denied_c = record {
  code = access_denied;
  message = none;
  source = some (HdfsError.rpc_error (lit "AccessControlException") (lit "inode /c"));
  request_id = some (lit "r1");
}

get_c_denied : (get_object http readers crate closed request get_c).1 ≡ err denied_c
unfolding get_object gateway_new get_file_info map_hdfs_error ends_with ◌=?◌ starts_with
    hdfs_s3_gateway.Cache.get hdfs_s3_gateway.Cache.new
get_c_denied = refl

get_object-IsRefusal_example : IsRefusal (lit "r1") false denied_c
unfolding gateway_new
get_object-IsRefusal_example =
    get_object-IsRefusal http readers crate closed request get_c denied_c get_c_denied

preconditions_date_example :
    (preconditions http (unmodified_since (http_date 1500)) (strong []) (millis_to_timestamp 1500)
      ≡ (if 1500 % 1000 == 0 then none else some precondition_failed))
    × (preconditions http (modified_since (http_date 1500)) (strong []) (millis_to_timestamp 1500)
        ≡ (if 1500 % 1000 == 0 then some not_modified else none))
preconditions_date_example = preconditions_date http (strong []) 1500
