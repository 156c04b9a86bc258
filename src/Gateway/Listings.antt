-- ===== src/Gateway/Listings.antt =====
-- ListObjectsV2 (src/s3/mod.rs), over a lister that answers the same throughout the request.
use hdfs_s3_gateway.Prelude.{
  ℕ, ◌+◌, ◌-◌, Bool, true, false, ◌&&◌, Bytes, lit, ◌=?◌, ◌==◌, if◌then◌else◌, Option, none, some,
  List, [], ◌∷◌, map, length, last?, ℤ, pos, negsuc, as_i64, as_i32,
}
use hdfs_s3_gateway.Cache.{usize_mod}
use hdfs_s3_gateway.Error.{
  HdfsError, S3Error, no_such_bucket, invalid_argument_code, invalid_token, s3_error,
  map_hdfs_error,
}
use hdfs_s3_gateway.Path.{PathMapper, list_start}
use hdfs_s3_gateway.Metadata.{fallback_etag}
use hdfs_s3_gateway.Listing.{ListEntry}
use hdfs_s3_gateway.Listing.Paginate.{Page, paginate}
use hdfs_s3_gateway.Listing.Slash.{paginate_slash, Base64Api, encode_token, decode_token}
use hdfs_s3_gateway.SortedListing.{Listed, listed, failed, is_file_not_found}
use hdfs_s3_gateway.SortedListing.Merge.{Paged, page, page_error, page_out_of_fuel, collect_page}
use hdfs_s3_gateway.Gateway.{ReaderApi, LruCrate, Request, HdfsGateway, attach}
use hdfs_s3_gateway.Gateway.Objects.{ETag, strong, millis_to_timestamp}

-- `ListObjectsV2Input`
pub record ListObjectsV2Input : Type 0 where
  pub bucket : Bytes
  pub prefix : Option Bytes
  pub delimiter : Option Bytes
  pub max_keys : Option ℤ
  pub start_after : Option Bytes
  pub continuation_token : Option Bytes

-- `s3s::dto::Object`
pub record Object : Type 0 where
  pub key : Bytes
  pub size : ℤ
  pub last_modified : ℕ
  pub e_tag : ETag

-- `ListObjectsV2Output`
pub record ListObjectsV2Output : Type 0 where
  pub name : Bytes
  pub prefix : Option Bytes
  pub delimiter : Option Bytes
  pub max_keys : ℤ
  pub is_truncated : Bool
  pub contents : Option (List Object)
  pub common_prefixes : Option (List Bytes)
  pub continuation_token : Option Bytes
  pub next_continuation_token : Option Bytes
  pub key_count : ℤ

-- A page of one of the three strategies, or why there is none.
pub data Strategy : Type 0 where
  paged : Page → Strategy
  not_listed : HdfsError → Strategy
  stuck : Strategy

-- `unwrap_or("")`
abbrev pub unwrap_or_empty : Option Bytes → Bytes
unwrap_or_empty none = []
unwrap_or_empty (some s) = s

-- `delimiter.filter(|d| !d.is_empty())`
unfoldable pub filter_empty : Option Bytes → Option Bytes
filter_empty none = none
filter_empty (some []) = none
filter_empty (some (c ∷ d)) = some (c ∷ d)

-- The bound on the keys of a page; a negative one is refused.
unfoldable pub max_keys_of : Option ℤ → Option ℕ
max_keys_of none = some 1000
max_keys_of (some (negsuc n)) = none
max_keys_of (some (pos n)) = some n

-- What an empty vector is sent as.
abbrev pub non_empty {ℓ} : {A : Type ℓ} → List A → Option (List A)
non_empty [] = none
non_empty (x ∷ xs) = some (x ∷ xs)

abbrev pub is_some {ℓ} : {A : Type ℓ} → Option A → Bool
is_some none = false
is_some (some x) = true

-- The delimiter `/`: one directory's listing.
unfoldable pub slash_listed : Bytes → Option Bytes → ℕ → Listed → Strategy
unfolding paginate_slash
slash_listed prefix start_after max_keys (listed l) =
    paged (paginate_slash l.files l.dirs prefix start_after max_keys)
slash_listed prefix start_after max_keys (failed e) =
    if is_file_not_found e
    then paged (paginate_slash [] [] prefix start_after max_keys)
    else not_listed e

unfoldable pub slash_page : (Bytes → Listed) → PathMapper → Bytes → Option Bytes → ℕ → Strategy
unfolding list_start slash_listed
slash_page list_dir mapper prefix start_after max_keys = elim (list_start mapper prefix) [
  | none ↦ paged (paginate_slash [] [] prefix start_after max_keys)
  | some hdfs_start ↦ slash_listed prefix start_after max_keys (list_dir hdfs_start)
]

-- Another delimiter: every key of the subtree after the marker is collected first.
unfoldable pub subtree : (Bytes → Listed) → ℕ → PathMapper → Bytes → Option Bytes → ℕ → Paged
unfolding list_start collect_page
subtree list_dir fuel mapper prefix start_after max_keys =
    if max_keys == 0 then page [] false else elim (list_start mapper prefix) [
      | none ↦ page [] false
      | some hdfs_start ↦
          collect_page list_dir fuel
            (hdfs_s3_gateway.SortedListing.new hdfs_start prefix start_after mapper) (usize_mod - 1)
    ]

unfoldable pub delimiter_page : Bytes → Option Bytes → Option Bytes → ℕ → Paged → Strategy
unfolding paginate
delimiter_page prefix delimiter start_after max_keys (page entries b) =
    paged (paginate entries [] prefix delimiter start_after max_keys)
delimiter_page prefix delimiter start_after max_keys (page_error e) = not_listed e
delimiter_page prefix delimiter start_after max_keys page_out_of_fuel = stuck

-- No delimiter: a page of the merge.
unfoldable pub flat_entries : (Bytes → Listed) → ℕ → PathMapper → Bytes → Option Bytes → ℕ → Paged
unfolding list_start collect_page
flat_entries list_dir fuel mapper prefix start_after max_keys = elim (list_start mapper prefix) [
  | none ↦ page [] false
  | some hdfs_start ↦
      collect_page list_dir fuel
        (hdfs_s3_gateway.SortedListing.new hdfs_start prefix start_after mapper) max_keys
]

unfoldable pub flat_page : Paged → Strategy
flat_page (page entries is_truncated) = paged (record {
  contents = entries;
  common_prefixes = [];
  is_truncated = is_truncated;
  next_token = if is_truncated then last? (map (λ e. e.key) entries) else none;
})
flat_page (page_error e) = not_listed e
flat_page page_out_of_fuel = stuck

-- The choice of the strategy by the delimiter.
unfoldable pub choose :
    (Bytes → Listed) → ℕ → PathMapper → Bytes → Option Bytes → Option Bytes → ℕ → Strategy
unfolding slash_page delimiter_page subtree flat_page flat_entries
choose list_dir fuel mapper prefix none start_after max_keys =
    flat_page (flat_entries list_dir fuel mapper prefix start_after max_keys)
choose list_dir fuel mapper prefix (some d) start_after max_keys =
    if d =? lit "/"
    then slash_page list_dir mapper prefix start_after max_keys
    else delimiter_page prefix (some d) start_after max_keys
        (subtree list_dir fuel mapper prefix start_after max_keys)

-- An entry of `Contents`
unfoldable pub object_of : ListEntry → Object
unfolding millis_to_timestamp fallback_etag
object_of e = record {
  key = e.key;
  size = as_i64 e.size;
  last_modified = millis_to_timestamp e.modification_time;
  e_tag = strong (fallback_etag e.size e.modification_time);
}

-- `Result<ListObjectsV2Output, S3Error>`, or no answer for want of fuel.
pub data ListAnswer : Type 0 where
  answered : ListObjectsV2Output → ListAnswer
  refused : S3Error → ListAnswer
  not_answered : ListAnswer

module _ (base64 : Base64Api) where
  -- Where the page starts: behind the token if there is one, which must decode.
  unfoldable pub resume_after : Option Bytes → Option Bytes → Option (Option Bytes)
  unfolding decode_token
  resume_after none start_after = some start_after
  resume_after (some token) start_after = elim (decode_token base64 token) [
    | none ↦ none
    | some k ↦ some (some k)
  ]

  -- The response for a page.
  unfoldable pub list_output : Bytes → ListObjectsV2Input → ℕ → Page → ListObjectsV2Output
  unfolding object_of encode_token
  list_output bucket input max_keys p = record {
    name = bucket;
    prefix = input.prefix;
    delimiter = input.delimiter;
    max_keys = as_i32 max_keys;
    is_truncated = p.is_truncated && is_some p.next_token;
    contents = non_empty (map object_of p.contents);
    common_prefixes = non_empty p.common_prefixes;
    continuation_token = input.continuation_token;
    next_continuation_token = elim p.next_token [
      | none ↦ none
      | some k ↦ some (encode_token base64 k)
    ];
    key_count = as_i32 (length p.contents + length p.common_prefixes);
  }

  module _ (readers : ReaderApi) (lru : LruCrate) (list_dir : Bytes → Listed) (fuel : ℕ) where
    unfoldable pub list_answer :
        HdfsGateway readers lru → Request readers → ListObjectsV2Input → ℕ → Strategy → ListAnswer
    unfolding attach map_hdfs_error list_output
    list_answer g r input max_keys (paged p) =
        answered (list_output g.mapper.bucket input max_keys p)
    list_answer g r input max_keys (not_listed e) =
        refused (
          attach r.request_id (map_hdfs_error r.client.to_string e g.config.expose_upstream_errors))
    list_answer g r input max_keys stuck = not_answered

    -- ListObjectsV2 with its bound on keys.
    unfoldable pub list_bounded :
        HdfsGateway readers lru → Request readers → ListObjectsV2Input → ℕ → ListAnswer
    unfolding attach resume_after choose filter_empty list_answer
    list_bounded g r input max_keys =
        elim (resume_after input.continuation_token input.start_after) [
          | none ↦ refused (attach r.request_id (s3_error invalid_token))
          | some start_after ↦ list_answer g r input max_keys (
              choose list_dir fuel g.mapper (unwrap_or_empty input.prefix)
                (filter_empty input.delimiter) start_after max_keys)
        ]

    -- `ListObjectsV2`
    unfoldable pub list_objects_v2 :
        HdfsGateway readers lru → Request readers → ListObjectsV2Input → ListAnswer
    unfolding attach max_keys_of list_bounded
    list_objects_v2 g r input =
        if input.bucket =? g.mapper.bucket
        then elim (max_keys_of input.max_keys) [
          | none ↦ refused (
              attach r.request_id (record (s3_error invalid_argument_code) {
                message = some (lit "max-keys must not be negative");
              }))
          | some max_keys ↦ list_bounded g r input max_keys
        ]
        else refused (attach r.request_id (s3_error no_such_bucket))
