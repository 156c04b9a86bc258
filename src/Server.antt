-- ===== src/Server.antt =====
-- The server: its service, the accept loop with the drain after it, and the binary's start
-- (src/s3/server.rs, src/s3/auth.rs, src/main.rs, and HdfsGateway::from_config of src/s3/mod.rs).
pub mod Drain
pub mod Startup
use hdfs_s3_gateway.Prelude.{
  ℕ, ◌+◌, ◌*◌, ◌≤◌, ◌≡◌, ◌⊎◌, All, min, max, Bool, true, false, Bytes, lit, ◌=?◌, if◌then◌else◌,
  Option, none, some, List, [], ◌∷◌, ◌++◌, Result, ok, err, ◌>>=◌,
}
use hdfs_s3_gateway.Config.{Config, ConfigError}
use hdfs_s3_gateway.Config.Load.{CliArgs, Host, map_err, load}
use hdfs_s3_gateway.Gateway.{ReaderApi, LruCrate, HdfsGateway, gateway_new}
use hdfs_s3_gateway.Backpressure.{SemaphoreApi, State}
use hdfs_s3_gateway.Backpressure

-- `SharedSecretAuth`
pub record SharedSecretAuth : Type 0 where
  pub secret : Bytes

-- `S3Auth::get_secret_key`
unfoldable pub get_secret_key : SharedSecretAuth → Bytes → Result Bytes Bytes
get_secret_key auth access_key = ok auth.secret

-- What `build_service` sets of `S3Config`.
pub record S3Config : Type 0 where
  pub xml_max_body_size : ℕ
  pub post_object_max_file_size : ℕ
  pub form_max_field_size : ℕ
  pub form_max_fields_size : ℕ
  pub form_max_parts : ℕ

unfoldable pub s3_config : S3Config
s3_config = record {
  xml_max_body_size = 20 * 1024 * 1024;
  post_object_max_file_size = 5 * 1024 * 1024 * 1024;
  form_max_field_size = 1024 * 1024;
  form_max_fields_size = 20 * 1024 * 1024;
  form_max_parts = 1000;
}

-- The client's builder of `hdfs_native`; the error of `build` is its text.
pub record ClientBuilder : Type 1 where
  pub Builder : Type 0
  pub Connection : Type 0
  pub create : Builder
  pub with_url : Builder → Bytes → Builder
  pub with_config : Builder → List (Bytes × Bytes) → Builder
  pub with_config_dir : Builder → Bytes → Builder
  pub with_user : Builder → Bytes → Builder
  pub build : Builder → Result Connection Bytes

module _ (client : ClientBuilder) where
  abbrev with_some :
      {A : Type 0}
      → (client.Builder → A → client.Builder)
      → Option A
      → client.Builder
      → client.Builder
  with_some set none b = b
  with_some set (some a) b = set b a

  -- The options go to the builder when there are any.
  unfoldable pub with_options : List (Bytes × Bytes) → client.Builder → client.Builder
  with_options [] b = b
  with_options (option ∷ options) b = client.with_config b (option ∷ options)

  -- The builder of `from_config`.
  unfoldable pub client_builder : Config → client.Builder
  unfolding with_options
  client_builder config = with_some client.with_user config.hdfs_user (
      with_some client.with_config_dir config.hdfs_config_dir
        (with_options config.hdfs_options (client.with_url client.create config.namenode_uri)))

module _ (client : ClientBuilder) (readers : ReaderApi) (lru : LruCrate) where
  -- `HdfsGateway::from_config`, with the client that the gateway holds.
  unfoldable pub from_config : Config → Result (client.Connection × HdfsGateway readers lru) Bytes
  unfolding client_builder gateway_new
  from_config config = do
    connection ←
        map_err (λ e. lit "failed to build HDFS client: " ++ e)
          (client.build (client_builder client config))
    ok (connection, gateway_new readers lru config)

module _ (client : ClientBuilder) (readers : ReaderApi) (lru : LruCrate) (api : SemaphoreApi) where
  -- The service: what `s3s` is given, behind the cap on requests in flight.
  pub record Service : Type 0 where
    pub connection : client.Connection
    pub gateway : HdfsGateway readers lru
    pub limits : S3Config
    pub auth : Option SharedSecretAuth
    pub in_flight : State api

  -- `build_service`
  unfoldable pub build_service : client.Connection × HdfsGateway readers lru → Config → Service
  unfolding s3_config Backpressure.new
  build_service (connection, gateway) config = record {
    connection = connection;
    gateway = gateway;
    limits = s3_config;
    auth = elim config.auth_secret [
      | none ↦ none
      | some secret ↦ some (record { secret = secret })
    ];
    in_flight = Backpressure.new api config.max_concurrent_requests;
  }

  -- The errors that the binary ends with.
  pub data Failure : Type 0 where
    not_loaded : ConfigError → Failure
    no_client : Bytes → Failure
    bad_address : Bytes → Failure
    not_bound : Bytes → Failure

  -- `main` up to the server's loop: the service and the address that it listens on.
  unfoldable pub main :
      Host
      → (Bytes → Result Bytes Bytes)
      → (Bytes → Result (Unit {0}) Bytes)
      → CliArgs
      → Result (Service × Bytes) Failure
  main host parse_addr bind args = do
    config ← map_err not_loaded (load host args)
    gateway ← map_err no_client (from_config client readers lru config)
    addr ← map_err bad_address (parse_addr config.listen_addr)
    bound ← map_err not_bound (bind addr)
    ok (build_service gateway config, addr)

-- What the select of the accept loop comes to: a connection, an error of `accept`, or the signal.
pub data Event (Conn : Type 0) : Type 0 where
  accepted : Conn → Event Conn
  accept_failed : Event Conn
  shutdown : Event Conn

-- What `serve` uses of hyper_util and tokio. Times are milliseconds after the call; a future that is
-- never ready has none.
pub record ServeApi : Type 1 where
  pub Conn : Type 0
  -- hyper_util's `GracefulShutdown`
  pub GracefulShutdown : Type 0
  pub create : GracefulShutdown
  pub watch : GracefulShutdown → Conn → GracefulShutdown
  -- When `graceful.shutdown()` is ready.
  pub graceful_shutdown : GracefulShutdown → Option ℕ
  -- When `tokio::time::sleep` is ready, for a duration in milliseconds.
  pub sleep : ℕ → ℕ
  -- When a `tokio::select!` of two futures is ready.
  pub select : Option ℕ → Option ℕ → Option ℕ

module _ (api : ServeApi) where
  -- `graceful` after it watches these connections, in this order.
  abbrev pub watch_all : api.GracefulShutdown → List api.Conn → api.GracefulShutdown
  watch_all graceful [] = graceful
  watch_all graceful (c ∷ conns) = watch_all (api.watch graceful c) conns

  -- `serve`: still in its loop, or returned, with the connections whose tasks were spawned; and in the
  -- loop with `graceful`, after it with the time that the drain takes, none if it does not end.
  pub data Serving : Type 0 where
    accepting : List api.Conn → api.GracefulShutdown → Serving
    returned : List api.Conn → Option ℕ → Serving

  -- The loop of `serve` over the events so far, and the select after it.
  unfoldable pub serve_loop : List api.Conn → api.GracefulShutdown → List (Event api.Conn) → Serving
  serve_loop spawned graceful [] = accepting spawned graceful
  serve_loop spawned graceful (accepted c ∷ events) =
      serve_loop (spawned ++ (c ∷ [])) (api.watch graceful c) events
  serve_loop spawned graceful (accept_failed ∷ events) = serve_loop spawned graceful events
  serve_loop spawned graceful (shutdown ∷ events) =
      returned spawned (api.select (api.graceful_shutdown graceful) (some (api.sleep 10_000)))

  -- `serve`
  unfoldable pub serve : List (Event api.Conn) → Serving
  unfolding serve_loop
  serve events = serve_loop [] api.create events

-- The connection is done by this time after the start of the shutdown.
abbrev pub IsDoneBy : {Conn : Type 0} → (Conn → Option ℕ) → ℕ → Conn → Type 0
IsDoneBy done_at limit c = (t : ℕ) × (done_at c ≡ some t) × (t ≤ limit)

-- The documented behaviour: a graceful shutdown is ready once all watched connections are done, a sleep
-- is ready and not before its time, and a select is ready with the first of its futures.
pub record ServeLaws (api : ServeApi) : Type 0 where
  pub done_at : api.Conn → Option ℕ
  pub shutdown_waits :
      (conns : List api.Conn) (t : ℕ)
      → api.graceful_shutdown (watch_all api api.create conns) ≡ some t
      → All (IsDoneBy done_at t) conns
  pub shutdown_ends :
      (conns : List api.Conn) (limit : ℕ)
      → All (IsDoneBy done_at limit) conns
      → (t : ℕ) × (api.graceful_shutdown (watch_all api api.create conns) ≡ some t) × (t ≤ limit)
  pub sleep_lasts : (millis : ℕ) → millis ≤ api.sleep millis
  pub select_either :
      (a b : Option ℕ) (t : ℕ) → api.select a b ≡ some t → (a ≡ some t) ⊎ (b ≡ some t)
  pub select_left : (b : Option ℕ) (s : ℕ) → (t : ℕ) × (api.select (some s) b ≡ some t) × (t ≤ s)
  pub select_right : (a : Option ℕ) (s : ℕ) → (t : ℕ) × (api.select a (some s) ≡ some t) × (t ≤ s)
