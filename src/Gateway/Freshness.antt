-- ===== src/Gateway/Freshness.antt =====
-- What the lookups through the caches answer within an entry's lifetime (list_dir of
-- src/s3/sorted_listing.rs, file_meta of src/s3/mod.rs).
use mathlib.Core.List.{lookup}
use hdfs_s3_gateway.Prelude.{
  ok, err, ℕ, ◌+◌, ◌-◌, ◌≤◌, ◌<◌, ◌≡◌, sym, ap, ◌∙◌, subst, Bytes, Option, none, some, List, length,
  arith,
}
use hdfs_s3_gateway.Cache.{Entry, TtlCache, get, insert, remove}
use hdfs_s3_gateway.Cache.LruCache.{LruApi, LruLaws}
use hdfs_s3_gateway.Cache.Bounded.{IsValid, limits-remove, iter-remove}
use hdfs_s3_gateway.Cache.Entries.{lookup-without_self}
use hdfs_s3_gateway.Cache.Calls.{get-IsValid}
use hdfs_s3_gateway.Cache.Contract.{get-insert, get-eq-live_value, live_value}
use hdfs_s3_gateway.Error.{s3_error, internal_error}
use hdfs_s3_gateway.Gateway.Objects.{HttpApi}
use hdfs_s3_gateway.Gateway.GetObject.{get_body}
use hdfs_s3_gateway.Listing.{DirListing}
use hdfs_s3_gateway.SortedListing.{FileStatus, listed, listing_from_statuses}
use hdfs_s3_gateway.Gateway.{
  LruCrate, ReaderApi, Client, Request, FileMeta, Caches, HdfsGateway, CachedReader, attach,
  list_dir, remember,
}

limits-get :
    {K V : Type 0} (dec : Discrete K) (lru : LruApi K (Entry V)) (laws : LruLaws dec lru)
    (c : TtlCache lru) (now : ℕ) (k : K)
    → ((get lru c now k).0.ttl ≡ c.ttl) × ((get lru c now k).0.max_weight ≡ c.max_weight)
unfolding get
limits-get dec lru laws c now k = ground (arith, limits-remove dec lru laws c k)

-- The number of entries that the cache of directories counts for a listing.
abbrev pub weight : DirListing → ℕ
weight l = length l.files + length l.dirs

module _ (dec : Discrete Bytes) (readers : ReaderApi) (lru : LruCrate)
    (laws : (V : Type 0) → LruLaws dec (lru.api V)) where
  list_dir_hit :
      (g : HdfsGateway readers lru) (client : Client readers) (now later : ℕ) (dir : Bytes)
      (l : DirListing)
      → (get (lru.api DirListing) g.cache.dirs now dir).1 ≡ some l
      → (list_dir readers lru g client now later dir).1 ≡ listed l
  unfolding list_dir
  list_dir_hit g client now later dir l h = ground (arith, h)

  list_dir_missed :
      (g : HdfsGateway readers lru) (client : Client readers) (now later : ℕ) (dir : Bytes)
      (statuses : List FileStatus)
      → (get (lru.api DirListing) g.cache.dirs now dir).1 ≡ none
      → client.list_status dir ≡ ok statuses
      → (list_dir readers lru g client now later dir).0.cache.dirs
        ≡ (remember readers lru
            (record g.cache { dirs = (get (lru.api DirListing) g.cache.dirs now dir).0 })
            later
            dir
            (listing_from_statuses statuses g.mapper)).dirs
  unfolding list_dir
  list_dir_missed g client now later dir statuses miss answer = ground (arith, miss, answer)

  remembered :
      (cache : Caches readers lru) (now : ℕ) (dir : Bytes) (l : DirListing)
      → weight l ≤ cache.max_dir_entries
      → (remember readers lru cache now dir l).dirs
        ≡ insert (lru.api DirListing) cache.dirs now dir l (weight l)
  unfolding remember
  remembered cache now dir l h = ground arith

  -- A directory that was just listed is listed again as it was, whatever the client would answer by
  -- then, until the listing's lifetime is over, when its weight is within both limits.
  pub list_dir_again :
      (g : HdfsGateway readers lru) (client client' : Client readers) (now later now' later' : ℕ)
      (dir : Bytes) (statuses : List FileStatus)
      → IsValid dec (lru.api DirListing) g.cache.dirs
      → (get (lru.api DirListing) g.cache.dirs now dir).1 ≡ none
      → client.list_status dir ≡ ok statuses
      → weight (listing_from_statuses statuses g.mapper) ≤ g.cache.max_dir_entries
      → weight (listing_from_statuses statuses g.mapper) ≤ g.cache.dirs.max_weight
      → now' - later < g.cache.dirs.ttl
      → (list_dir readers lru
          (list_dir readers lru g client now later dir).0
          client'
          now'
          later'
          dir).1
        ≡ listed (listing_from_statuses statuses g.mapper)
  list_dir_again g client client' now later now' later' dir statuses valid miss answer small fits
        young =
      let api = lru.api DirListing in
      let l = listing_from_statuses statuses g.mapper in
      let c = (get api g.cache.dirs now dir).0 in
      let limits = limits-get dec api (laws DirListing) g.cache.dirs now dir in
      let hit =
        get-insert dec api (laws DirListing) c
          (get-IsValid dec api (laws DirListing) g.cache.dirs now dir valid) later dir l (weight l)
          now' (omega (arith, limits, fits)) (omega (arith, limits, young)) in
      let kept =
        list_dir_missed g client now later dir statuses miss answer
        ∙ remembered (record g.cache { dirs = c }) later dir l small in
      list_dir_hit (list_dir readers lru g client now later dir).0 client' now' later' dir l
        (subst (λ d. (get api d now' dir).1 ≡ some l) (sym kept) hit)

absent_after_remove :
    {K V : Type 0} (dec : Discrete K) (lru : LruApi K (Entry V)) (laws : LruLaws dec lru)
    (c : TtlCache lru) (now : ℕ) (k : K)
    → IsValid dec lru c
    → (get lru (remove lru c k) now k).1 ≡ none
absent_after_remove dec lru laws c now k valid =
    let gone =
      ap (lookup dec k) (iter-remove dec lru laws c k)
      ∙ lookup-without_self dec k (lru.iter c.entries) valid.counted.distinct in
    get-eq-live_value dec lru laws (remove lru c k) now k
    ∙ ap (live_value (remove lru c k).ttl now) gone

module _ (dec : Discrete Bytes) (http : HttpApi) (readers : ReaderApi) (lru : LruCrate)
    (laws : (V : Type 0) → LruLaws dec (lru.api V)) where
  -- When the window ends behind the reader's file, GetObject answers InternalError and drops what is
  -- cached of the path: at no later time are its metadata or its block map found again, so the next
  -- request asks the client.
  pub shrunk_forgotten :
      (g : HdfsGateway readers lru) (r : Request readers) (path : Bytes) (status : FileMeta)
      (start end_exclusive : ℕ) (content_range : Option Bytes) (reader : readers.Reader) (now : ℕ)
      → IsValid dec (lru.api FileMeta) g.cache.metadata
      → IsValid dec (lru.api (CachedReader readers)) g.cache.blocks
      → readers.file_length reader < end_exclusive
      → (let answer =
            get_body http readers lru g r path status start end_exclusive content_range reader in
          (answer.1 ≡ err (attach r.request_id (s3_error internal_error)))
          × ((get (lru.api FileMeta) answer.0.cache.metadata now path).1 ≡ none)
          × ((get (lru.api (CachedReader readers)) answer.0.cache.blocks now path).1 ≡ none))
  unfolding get_body
  shrunk_forgotten g r path status start end_exclusive content_range reader now meta_valid
        blocks_valid h =
      let gone =
        absent_after_remove dec (lru.api FileMeta) (laws FileMeta) g.cache.metadata now path
          meta_valid in
      let closed =
        absent_after_remove dec (lru.api (CachedReader readers)) (laws (CachedReader readers))
          g.cache.blocks now path blocks_valid in
      ground (arith, gone, closed)
