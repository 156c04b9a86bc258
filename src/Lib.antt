-- ===== src/Lib.antt =====
-- HDFS to S3 gateway: a verification library for the Rust crate in src/.
--
-- The gateway serves a directory tree of HDFS as one S3 bucket, read-only. A request's key is mapped
-- to an HDFS path below a configured root, listings are paged in key order, ranges are resolved
-- against a file's length, and metadata, block maps and listings go through bounded caches.
--
-- Which file models which part:
--   Prelude      byte strings (a Rust `str` as its bytes), their order, UTF-8, lists and results; shared by
--                all.
--   Backpressure `BackpressureService` and `PermitBody` of src/s3/backpressure.rs as a step relation over
--                the requests in flight; the semaphore is the parameter `SemaphoreApi`, with its
--                documented behaviour as `SemaphoreLaws`.
--   Config       `Config`, `CacheConfig` and `ConfigError` of src/config/mod.rs. Env has `env_bool`, Load
--                `Config::load` and `validate`; Validity (with Options and
--                Words) the theorem. The environment, the file system,
--                `toml` and the check of bucket names of `s3s` are the parameter `Host`.
--   Path         `PathMapper` of src/core/path.rs: `normalize_abs`, `key_to_hdfs_path`, `list_start`,
--                `hdfs_path_to_key`. Path/Segments and Path/Walk have the laws of splitting and of the
--                loop over segments, Rendering shows paths of names, Children those of a directory's
--                children; Containment, RoundTrip and ListStart have the theorems.
--   Range        `ByteRange` and `resolve_range` of src/core/range.rs.
--   Cache        `TtlCache` of src/core/cache.rs. The `lru` crate is the parameter `LruApi`, with its
--                documented behaviour as `LruLaws` (Cache/LruCache); the time of a call is an argument.
--   Listing      src/core/listing.rs: the comparisons of directories' output keys. Listing/Contents has
--                `list_to_contents`, Listing/Paginate `paginate`, Listing/Slash `paginate_slash` and the
--                tokens; Compare, Finding, Collapse, Whole, Shown, Members, Pages and Walk lead to the theorems on
--                `paginate`, Sorting and Cutting have the laws of sorted lists they use. The children of
--                Listing/Slash go from the loops of `paginate_slash` (Seek, Range, Merging, Turns) and from
--                `paginate` (Children) to Equivalence, and with the order of a listing (Outputs) to
--                Directory. A file's entry is its key, size and time; a `BTreeSet` is an ascending list;
--                `sort` is a stable insertion sort, and `HashSet` membership a search of the page.
--   Metadata     `ObjectMetadata::etag` and `fallback_etag` of src/core/metadata.rs; `{:x}` has 16 digits
--                of fuel, which is what a u64 needs. Metadata/Hex reads digits back.
--   Error        `map_hdfs_error` of src/s3/error.rs; `HdfsError` has the client's variants that the
--                program names. Error/Exposure says what of an error is sent.
--   SortedListing `Cursor`, `SortedListing` and `listing_from_statuses` of src/s3/sorted_listing.rs; Merge has
--                the loop of `next_entry` and `collect_page`. The `BinaryHeap` is an ascending list and
--                `partition_point` a search from the front, which agree where the program uses them.
--                Tree is what a lister shows; Counting, Marker, Frontier, Tracking, Dropping, Skipping,
--                Opening, FilePulls, Pulls, Pages and Above lead to Collect, which has the theorems.
--   Gateway      the handlers of src/s3/mod.rs as functions from the gateway's state and a request to the next
--                state and a result, the caches of src/s3/cache.rs, and `HdfsDirLister`. The HDFS client's
--                answers, its readers, `lru`, the comparisons of ETags, `mime_guess` and `base64` are
--                parameters. Body is `bytes_stream`; Objects has HeadBucket, HeadObject and the conditional
--                headers; GetObject and Listings are the handlers of GetObject and ListObjectsV2. Agreement,
--                Delivery (with Opening), Refusals (with Lookups), Revalidation, Freshness, Tokens (with SlashTokens),
--                FlatPages and SlashPages have the theorems. A time is in nanoseconds since the epoch. ReadOnly has
--                ListBuckets, the refused writes and the probes (src/s3/write_policy.rs), with the request
--                log; RequestIds is about the ids.
--   Server       `build_service` and `serve` of src/s3/server.rs, src/s3/auth.rs, `HdfsGateway::from_config`
--                and src/main.rs. The accept loop runs over the outcomes of its select; hyper_util's
--                `GracefulShutdown` and tokio's `sleep` and `select!` are the parameter `ServeApi`, with
--                their documented behaviour as `ServeLaws`. Drain and Startup have the theorems.
--   Python       the `Gateway` class of python/src/lib.rs, with the state of its thread; tokio's `Notify` is
--                the parameter `NotifyApi`, with its documented behaviour as `NotifyLaws`. Logging has the
--                bridge of log lines; Lifecycle and Logging/Delivery have the theorems.
--   Tests        runs of the definitions, and the theorems at concrete inputs.
--
-- Numbers are natural numbers; `usize` sums and differences of the cache wrap at 2 ^ 64 as written
-- there. The eviction loop of `insert` has as much fuel as the cache has entries, which is enough, as
-- each round takes one entry away.
--
-- The merge's lister is a parameter that answers the same throughout a page. Its loop has fuel for the
-- turns between two entries; a page needs no more of it than there are files and directories, which
-- `tree_size` counts.
--
-- Not modelled: async plumbing, the mutex of the cache (each call is one step), the HTTP server, the XML
-- and signature handling of `s3s`, the parsing of the command line, the set-up of tracing in the binary,
-- and the test hook of the Python bindings. ListObjectsV2 takes a lister that answers
-- the same throughout the request; what its calls leave in the cache of directories is modelled by
-- `list_dir` alone.
pub mod Backpressure
pub mod Cache
pub mod Config
pub mod Error
pub mod Gateway
pub mod Listing
pub mod Metadata
pub mod Path
pub mod Prelude
pub mod Python
pub mod Range
pub mod Server
pub mod SortedListing
pub mod Tests
