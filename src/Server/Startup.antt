-- ===== src/Server/Startup.antt =====
-- What holds once the binary serves: main of src/main.rs through Config::load, HdfsGateway::from_config
-- and build_service.
use hdfs_s3_gateway.Prelude.{
  ℕ, ◌*◌, ◌<◌, ◌≡◌, refl, sym, ap, ◌∙◌, subst, true, Bytes, none, some, List, Result, ok, >>=-eq-ok,
  arith,
}
use hdfs_s3_gateway.Config.{Config, CacheConfig}
use hdfs_s3_gateway.Config.Load.{CliArgs, Host, map_err, load}
use hdfs_s3_gateway.Config.Validity.{IsLoaded, load-IsLoaded, map_err-eq-ok}
use hdfs_s3_gateway.Cache.{usize_mod}
use hdfs_s3_gateway.Cache.LruCache.{LruLaws}
use hdfs_s3_gateway.Cache.Bounded.{IsValid, new-IsValid}
use hdfs_s3_gateway.Path.{mapper_new}
use hdfs_s3_gateway.Path.Containment.{IsRooted, mapper_new-IsRooted}
use hdfs_s3_gateway.Listing.{DirListing}
use hdfs_s3_gateway.Backpressure.{SemaphoreApi, SemaphoreLaws, Reach, new, call}
use hdfs_s3_gateway.Backpressure.InFlight.{call_admits}
use hdfs_s3_gateway.Gateway.{
  LruCrate, ReaderApi, FileMeta, CachedReader, Caches, caches_new, capacity, HdfsGateway,
  gateway_new,
}
use hdfs_s3_gateway.Server.{
  SharedSecretAuth, get_secret_key, ClientBuilder, Service, not_loaded, no_client, bad_address,
  not_bound, client_builder, from_config, build_service, main,
}

-- The budgets leave the counters of a cache room to add one entry.
pub record IsModest (config : CacheConfig) : Type 0 where
  pub metadata : 2 * config.metadata_capacity < usize_mod
  pub blocks : 2 * config.blocks_capacity < usize_mod
  pub listings : 2 * config.listing_capacity_entries < usize_mod

-- Every cache of a gateway keeps its invariant.
pub record IsCaching (dec : Discrete Bytes) (readers : ReaderApi) (lru : LruCrate)
    (caches : Caches readers lru) : Type 0 where
  pub metadata : IsValid dec (lru.api FileMeta) caches.metadata
  pub negative : IsValid dec (lru.api Unit) caches.negative
  pub blocks : IsValid dec (lru.api (CachedReader readers)) caches.blocks
  pub dirs : IsValid dec (lru.api DirListing) caches.dirs

caches_new-IsCaching :
    (dec : Discrete Bytes) (readers : ReaderApi) (lru : LruCrate)
    (laws : (V : Type 0) → LruLaws dec (lru.api V)) (config : CacheConfig)
    → IsModest config
    → IsCaching dec readers lru (caches_new readers lru config)
unfolding caches_new capacity
caches_new-IsCaching dec readers lru laws config modest = record {
  metadata =
      new-IsValid dec (lru.api FileMeta) (laws FileMeta) _ _ config.metadata_capacity (omega arith)
        modest.metadata;
  negative =
      new-IsValid dec (lru.api Unit) (laws Unit) _ _ config.metadata_capacity (omega arith)
        modest.metadata;
  blocks =
      new-IsValid dec (lru.api (CachedReader readers)) (laws (CachedReader readers)) _ _
        config.blocks_capacity (omega arith) modest.blocks;
  dirs =
      new-IsValid dec (lru.api DirListing) (laws DirListing) _ _ config.listing_capacity_entries
        (omega arith) modest.listings;
}

module _ (client : ClientBuilder) (readers : ReaderApi) (lru : LruCrate) (api : SemaphoreApi) where
  -- What the binary has built of a configuration when it starts to serve.
  pub record IsBuilt (config : Config) (service : Service client readers lru api) : Type 0 where
    pub is_gateway : service.gateway ≡ gateway_new readers lru config
    pub is_in_flight : service.in_flight ≡ new api config.max_concurrent_requests
    pub is_auth :
        service.auth
        ≡ elim config.auth_secret [ none ↦ none | some secret ↦ some (record { secret = secret }) ]

  build_service-IsBuilt :
      (config : Config) (gateway : client.Connection × HdfsGateway readers lru)
      → from_config client readers lru config ≡ ok gateway
      → IsBuilt config (build_service client readers lru api gateway config)
  unfolding build_service from_config
  build_service-IsBuilt config (connection, gateway) built =
      let (opened, is_opened, h) =
        >>=-eq-ok (map_err _ (client.build (client_builder client config))) _ built in
      let same : gateway_new readers lru config ≡ gateway = ground (arith, h) in
      record { is_gateway = sym same; is_in_flight = refl; is_auth = refl }

  main-IsBuilt :
      (host : Host) (parse_addr : Bytes → Result Bytes Bytes)
      (bind : Bytes → Result (Unit {0}) Bytes) (args : CliArgs)
      (service : Service client readers lru api) (addr : Bytes)
      → main client readers lru api host parse_addr bind args ≡ ok (service, addr)
      → (config : Config) × (load host args ≡ ok config)
        × (parse_addr config.listen_addr ≡ ok addr)
        × (bind addr ≡ ok tt)
        × IsBuilt config service
  unfolding main
  main-IsBuilt host parse_addr bind args service addr h =
      let (config, loaded, h1) = >>=-eq-ok (map_err not_loaded (load host args)) _ h in
      let (gateway, built, h2) =
        >>=-eq-ok (map_err no_client (from_config client readers lru config)) _ h1 in
      let (parsed, is_parsed, h3) =
        >>=-eq-ok (map_err bad_address (parse_addr config.listen_addr)) _ h2 in
      let (bound, is_bound, h4) = >>=-eq-ok (map_err not_bound (bind parsed)) _ h3 in
      let same : build_service client readers lru api gateway config ≡ service =
        ground (arith, h4) in
      let same_addr : parsed ≡ addr = ground (arith, h4) in
      (
        config,
        map_err-eq-ok not_loaded (load host args) loaded,
        map_err-eq-ok bad_address (parse_addr config.listen_addr) is_parsed ∙ ap ok same_addr,
        ap bind (sym same_addr) ∙ map_err-eq-ok not_bound (bind parsed) is_bound,
        subst (IsBuilt config) same
            (build_service-IsBuilt config gateway (map_err-eq-ok no_client _ built)),
      )

  module _ (dec : Discrete Bytes) (laws : (V : Type 0) → LruLaws dec (lru.api V))
      (permits : SemaphoreLaws api) where
    -- What holds of the service with which the binary starts to serve.
    pub record IsStarted (host : Host) (args : CliArgs) (service : Service client readers lru api)
        (config : Config) : Type 0 where
      pub is_loaded : IsLoaded host args config
      pub is_configured : service.gateway.config ≡ config
      pub root_names : List Bytes
      pub is_rooted : IsRooted service.gateway.mapper root_names
      pub is_bucket : host.check_bucket_name service.gateway.mapper.bucket ≡ true
      pub is_caching : IsCaching dec readers lru service.gateway.cache
      pub is_reached : Reach api config.max_concurrent_requests service.in_flight
      pub is_admitting : (call api service.in_flight).1 ≡ true
      pub is_open : config.auth_secret ≡ none → service.auth ≡ none
      pub is_secret :
          (secret : Bytes)
          → config.auth_secret ≡ some secret
          → (auth : SharedSecretAuth) × (service.auth ≡ some auth)
            × ((access_key : Bytes) → get_secret_key auth access_key ≡ ok secret)

    new-admits : (n : ℕ) → (call api (new api n)).1 ≡ true
    unfolding new
    new-admits n = (call_admits api permits n (new api n) Reach.start).1 (omega arith)

    -- When the binary comes to serve, its configuration was loaded and is valid, the gateway has it, the
    -- gateway's root is an absolute path of names and its bucket has a valid name, its caches keep their
    -- invariant where the budgets are less than half of 2^64, the first request is admitted, and
    -- signatures are checked exactly when a secret is configured, against it for any access key.
    pub main-IsStarted :
        (host : Host) (parse_addr : Bytes → Result Bytes Bytes)
        (bind : Bytes → Result (Unit {0}) Bytes) (args : CliArgs)
        (service : Service client readers lru api) (addr : Bytes)
        → main client readers lru api host parse_addr bind args ≡ ok (service, addr)
        → IsModest service.gateway.config.cache
        → (config : Config) × IsStarted host args service config
    unfolding gateway_new get_secret_key mapper_new
    main-IsStarted host parse_addr bind args service addr h modest =
        let (config, loaded, parsed, bound, built) =
          main-IsBuilt host parse_addr bind args service addr h in
        let from = load-IsLoaded host args config loaded in
        let of_config = sym built.is_gateway in
        let (rs, rooted) = mapper_new-IsRooted config in
        let caching =
          caches_new-IsCaching dec readers lru laws config.cache
            (subst (λ g. IsModest g.config.cache) built.is_gateway modest) in
        (
          config,
          record {
            is_loaded = from;
            is_configured = ap (λ g. g.config) built.is_gateway;
            root_names = rs;
            is_rooted = subst (λ g. IsRooted g.mapper rs) of_config rooted;
            is_bucket =
                ap (λ g. host.check_bucket_name g.mapper.bucket) built.is_gateway
                ∙ from.is_servable.is_bucket;
            is_caching = subst (λ g. IsCaching dec readers lru g.cache) of_config caching;
            is_reached =
                subst (λ s. Reach api config.max_concurrent_requests s) (sym built.is_in_flight)
                  Reach.start;
            is_admitting =
                ap (λ s. (call api s).1) built.is_in_flight
                ∙ new-admits config.max_concurrent_requests;
            is_open = λ none_set. ground (arith, built.is_auth, none_set);
            is_secret = λ secret set. (
              record { secret = secret },
              ground (arith, built.is_auth, set),
              λ access_key. refl,
            );
          },
        )
