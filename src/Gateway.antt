-- ===== src/Gateway.antt =====
-- The gateway's caches (src/s3/cache.rs), its lookups through them and the directory lister
-- (src/s3/mod.rs, src/s3/sorted_listing.rs). `lru` and the HDFS client are parameters.
pub mod Body
pub mod Objects
pub mod Opening
pub mod GetObject
pub mod Agreement
pub mod Delivery
pub mod Listings
pub mod SlashTokens
pub mod Tokens
pub mod FlatPages
pub mod Revalidation
pub mod Freshness
pub mod Lookups
pub mod Refusals
pub mod ReadOnly
pub mod RequestIds
pub mod SlashPages
use hdfs_s3_gateway.Prelude.{
  Result, ok, err, ℕ, ◌+◌, Bool, ◌&&◌, Bytes, max, leb, ◌==◌, if◌then◌else◌, Option, none, some,
  List, length,
}
use hdfs_s3_gateway.Config.{Config, CacheConfig}
use hdfs_s3_gateway.Cache.{Entry, TtlCache, get, insert, remove}
use hdfs_s3_gateway.Cache.LruCache.{LruApi}
use hdfs_s3_gateway.Error.{HdfsError, S3Error, no_such_key, s3_error, map_hdfs_error}
use hdfs_s3_gateway.Path.{PathMapper, mapper_new}
use hdfs_s3_gateway.Listing.{DirListing}
use hdfs_s3_gateway.SortedListing.{FileStatus, Listed, listed, failed, listing_from_statuses}
use Body.{Chunk}

-- `lru::LruCache` for keys that are paths, generic in the values.
pub record LruCrate : Type 1 where
  pub api : (V : Type 0) → LruApi Bytes (Entry V)

-- What the gateway uses of `hdfs_native`: a reader's length and range stream.
pub record ReaderApi : Type 1 where
  pub Reader : Type 0
  pub file_length : Reader → ℕ
  pub read_range_stream : Reader → ℕ → ℕ → List Chunk

-- What the client answers at the time of a request.
pub record Client (readers : ReaderApi) : Type 0 where
  pub get_file_info : Bytes → Result FileStatus HdfsError
  pub list_status : Bytes → Result (List FileStatus) HdfsError
  pub read : Bytes → Result readers.Reader HdfsError
  -- `HdfsError::to_string`
  pub to_string : HdfsError → Bytes

-- What a request brings besides its input: the client's answers, the instants of its successive
-- cache calls, and the id that is minted for it.
pub record Request (readers : ReaderApi) : Type 0 where
  pub client : Client readers
  pub clock : ℕ → ℕ
  pub request_id : Bytes

-- `FileMeta`
pub record FileMeta : Type 0 where
  pub length : ℕ
  pub isdir : Bool
  pub modification_time : ℕ

-- `CachedReader`
pub record CachedReader (readers : ReaderApi) : Type 0 where
  pub reader : readers.Reader
  pub length : ℕ
  pub modification_time : ℕ

-- `capacity`
unfoldable pub capacity : ℕ → ℕ
capacity n = max n 1

-- `ttl`, in milliseconds
unfoldable pub ttl : CacheConfig → ℕ → ℕ
ttl config millis = if config.enabled then millis else 0

-- `RequestLog::attach`: the request's id goes into the error.
unfoldable pub attach : Bytes → S3Error → S3Error
attach request_id e = record e { request_id = some request_id }

module _ (readers : ReaderApi) (lru : LruCrate) where
  -- `Caches`
  pub record Caches : Type 0 where
    pub metadata : TtlCache (lru.api FileMeta)
    pub negative : TtlCache (lru.api Unit)
    pub blocks : TtlCache (lru.api (CachedReader readers))
    pub dirs : TtlCache (lru.api DirListing)
    pub max_dir_entries : ℕ

  -- `Caches::new`
  unfoldable pub caches_new : CacheConfig → Caches
  unfolding capacity ttl
  caches_new config = record {
    metadata =
        hdfs_s3_gateway.Cache.new (lru.api FileMeta) (capacity config.metadata_capacity)
          (ttl config config.metadata_ttl_ms) config.metadata_capacity;
    negative =
        hdfs_s3_gateway.Cache.new (lru.api Unit) (capacity config.metadata_capacity)
          (ttl config config.negative_ttl_ms) config.metadata_capacity;
    blocks =
        hdfs_s3_gateway.Cache.new (lru.api (CachedReader readers)) (capacity config.blocks_capacity)
          (ttl config config.blocks_ttl_ms) config.blocks_capacity;
    dirs =
        hdfs_s3_gateway.Cache.new (lru.api DirListing) (capacity config.listing_capacity_entries)
          (ttl config config.listing_ttl_ms) config.listing_capacity_entries;
    max_dir_entries = config.listing_max_dir_entries;
  }

  -- `HdfsGateway`
  pub record HdfsGateway : Type 0 where
    pub mapper : PathMapper
    pub config : Config
    pub cache : Caches

  -- `HdfsGateway::new`
  unfoldable pub gateway_new : Config → HdfsGateway
  unfolding mapper_new caches_new
  gateway_new config = record {
    mapper = mapper_new config;
    config = config;
    cache = caches_new config.cache;
  }

  -- The match of `file_meta` on the client's answer.
  unfoldable pub stat_answer :
      HdfsGateway
      → Request readers
      → Bytes
      → Result FileStatus HdfsError
      → HdfsGateway × Result FileMeta S3Error
  unfolding attach map_hdfs_error
  stat_answer g r hdfs_path (ok status) =
      let meta : FileMeta = record {
        length = status.length;
        isdir = status.isdir;
        modification_time = status.modification_time;
      } in
      (
        record g {
          cache = record g.cache {
            metadata = insert (lru.api FileMeta) g.cache.metadata (r.clock 2) hdfs_path meta 1;
          };
        },
        ok meta,
      )
  stat_answer g r hdfs_path (err (HdfsError.file_not_found p)) = (
    record g {
      cache = record g.cache {
        negative = insert (lru.api Unit) g.cache.negative (r.clock 2) hdfs_path tt 1;
      };
    },
    err (attach r.request_id (s3_error no_such_key)),
  )
  stat_answer g r hdfs_path (err e) = (
    g,
    err (attach r.request_id (map_hdfs_error r.client.to_string e g.config.expose_upstream_errors)),
  )

  -- `file_meta` behind a miss in the metadata cache.
  unfoldable pub stat_missed :
      HdfsGateway → Request readers → Bytes → HdfsGateway × Result FileMeta S3Error
  unfolding stat_answer
  stat_missed g r hdfs_path =
      let (negative, known_missing) = get (lru.api Unit) g.cache.negative (r.clock 1) hdfs_path in
      let g' : HdfsGateway = record g { cache = record g.cache { negative = negative } } in
      elim known_missing [
        | some u ↦ (g', err (attach r.request_id (s3_error no_such_key)))
        | none ↦ stat_answer g' r hdfs_path (r.client.get_file_info hdfs_path)
      ]

  -- `file_meta`
  unfoldable pub file_meta :
      HdfsGateway → Request readers → Bytes → HdfsGateway × Result FileMeta S3Error
  unfolding stat_missed
  file_meta g r hdfs_path =
      let (metadata, hit) = get (lru.api FileMeta) g.cache.metadata (r.clock 0) hdfs_path in
      let g' : HdfsGateway = record g { cache = record g.cache { metadata = metadata } } in
      elim hit [ some meta ↦ (g', ok meta) | none ↦ stat_missed g' r hdfs_path ]

  -- The part of `open_reader` that asks the client.
  unfoldable pub open_fresh :
      HdfsGateway
      → Request readers
      → Bytes
      → FileMeta
      → Result readers.Reader HdfsError
      → HdfsGateway × Result readers.Reader S3Error
  unfolding attach map_hdfs_error
  open_fresh g r hdfs_path meta (ok reader) =
      let cached : CachedReader readers = record {
        reader = reader;
        length = meta.length;
        modification_time = meta.modification_time;
      } in
      (
        record g {
          cache = record g.cache {
            blocks =
                insert (lru.api (CachedReader readers)) g.cache.blocks (r.clock 4) hdfs_path cached
                  1;
          };
        },
        ok reader,
      )
  open_fresh g r hdfs_path meta (err e) = (
    record g {
      cache = record g.cache { metadata = remove (lru.api FileMeta) g.cache.metadata hdfs_path };
    },
    err (attach r.request_id (map_hdfs_error r.client.to_string e g.config.expose_upstream_errors)),
  )

  -- The identity check of `open_reader`.
  unfoldable pub is_same_file : CachedReader readers → FileMeta → Bool
  is_same_file cached meta =
      cached.length == meta.length && cached.modification_time == meta.modification_time

  -- `open_reader`
  unfoldable pub open_reader :
      HdfsGateway → Request readers → Bytes → FileMeta → HdfsGateway × Result readers.Reader S3Error
  unfolding is_same_file open_fresh
  open_reader g r hdfs_path meta =
      let (blocks, hit) =
        get (lru.api (CachedReader readers)) g.cache.blocks (r.clock 3) hdfs_path in
      let g' : HdfsGateway = record g { cache = record g.cache { blocks = blocks } } in
      let dropped : HdfsGateway = record g {
        cache = record g.cache {
          blocks = remove (lru.api (CachedReader readers)) blocks hdfs_path;
        };
      } in
      elim hit [
        | none ↦ open_fresh g' r hdfs_path meta (r.client.read hdfs_path)
        | some cached ↦
            if is_same_file cached meta
            then (g', ok cached.reader)
            else open_fresh dropped r hdfs_path meta (r.client.read hdfs_path)
      ]

  -- The listing that is remembered unless the directory is too large.
  unfoldable pub remember : Caches → ℕ → Bytes → DirListing → Caches
  remember cache now dir listing =
      let weight = length listing.files + length listing.dirs in
      if leb weight cache.max_dir_entries
      then record cache { dirs = insert (lru.api DirListing) cache.dirs now dir listing weight }
      else cache

  -- `HdfsDirLister::list_dir`
  unfoldable pub list_dir : HdfsGateway → Client readers → ℕ → ℕ → Bytes → HdfsGateway × Listed
  unfolding remember listing_from_statuses
  list_dir g client now later dir =
      let (dirs, hit) = get (lru.api DirListing) g.cache.dirs now dir in
      let cache : Caches = record g.cache { dirs = dirs } in
      elim hit [
        | some listing ↦ (record g { cache = cache }, listed listing)
        | none ↦ elim (client.list_status dir) [
          | err e ↦ (record g { cache = cache }, failed e)
          | ok statuses ↦ (
            record g { cache = remember cache later dir (listing_from_statuses statuses g.mapper) },
            listed (listing_from_statuses statuses g.mapper),
          )
        ]
      ]
