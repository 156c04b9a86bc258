-- ===== src/Python.antt =====
-- The Python bindings: the `Gateway` class and its background server (python/src/lib.rs).
pub mod Logging
pub mod Lifecycle
use mathlib.Core.Option
use hdfs_s3_gateway.Prelude.{
  ℕ, ◌≡◌, Bool, true, false, not, ◌&&◌, Bytes, lit, if◌then◌else◌, Option, none, some, List, [],
  ◌∷◌, ◌++◌, Result, ok, err, ◌>>=◌,
}
use hdfs_s3_gateway.Config.{Config, ConfigError}
use hdfs_s3_gateway.Config.Load.{CliArgs, Host, unwrap_or, map_err, load, set_cache_enabled}

-- What the bindings use of `tokio::sync::Notify`: `notified` is the notification after a wait that
-- completes at once, or nothing for one that has to wait.
pub record NotifyApi : Type 1 where
  pub Notify : Type 0
  pub create : Notify
  pub notify_one : Notify → Notify
  pub notified : Notify → Option Notify

-- Its documented behaviour: a notification that nobody waits for is kept, and serves the next wait.
pub record NotifyLaws (notify : NotifyApi) : Type 0 where
  pub served : notify.Notify → notify.Notify
  pub create_waits : notify.notified notify.create ≡ none
  pub keeps_permit : (n : notify.Notify) → notify.notified (notify.notify_one n) ≡ some (served n)

-- What a call that may panic comes to.
pub data Outcome (A : Type 0) : Type 0 where
  done : A → Outcome A
  failed : Bytes → Outcome A
  panicked : Bytes → Outcome A

-- A panic's payload.
pub data Payload : Type 0 where
  str : Bytes → Payload
  string : Bytes → Payload
  other : Payload

-- `panic_message`
unfoldable pub panic_message : Payload → Bytes
panic_message (str s) = s
panic_message (string s) = s
panic_message other = lit "unknown panic"

-- `install_panic_hook`: the hook is installed once, whether it was there before or not.
unfoldable pub install_panic_hook : Bool → Bool
install_panic_hook installed = true

-- Whether a panic is printed, in a thread that has set `SUPPRESS_PANIC_PRINT` or not.
unfoldable pub prints_panic : Bool → Bool → Bool
prints_panic installed suppressed = not (installed && suppressed)

-- What the server's thread takes from outside: the runtime, the HDFS client behind
-- `HdfsGateway::from_config`, the parsing of addresses and the network. An address is its text.
pub record ServerHost : Type 0 where
  pub build_runtime : Result (Unit {0}) Bytes
  pub init_tracing : Outcome (Unit {0})
  pub from_config : Config → Outcome (Unit {0})
  pub parse_addr : Bytes → Result Bytes Bytes
  pub bind : Bytes → Result (Option Bytes) Bytes

-- `build_runtime`
unfoldable pub build_runtime : ServerHost → Result (Unit {0}) Bytes
build_runtime host = map_err (λ e. lit "failed to build async runtime: " ++ e) host.build_runtime

-- From the client to the bound address; the first failure is the message.
unfoldable pub bind_listener : ServerHost → Config → Result Bytes Bytes
bind_listener host config = do
  addr ← map_err (λ e. lit "invalid listen_addr: " ++ e) (host.parse_addr config.listen_addr)
  local ← map_err (λ e. lit "failed to bind " ++ (addr ++ (lit ": " ++ e))) (host.bind addr)
  ok (unwrap_or local addr)

unfoldable pub start_server : ServerHost → Config → Result Bytes Bytes
unfolding bind_listener
start_server host config = elim (host.from_config config) [
  | done u ↦ bind_listener host config
  | failed e ↦ err e
  | panicked m ↦ err (lit "gateway panicked: " ++ m)
]

-- The first message of the server's thread; without one its channel is closed.
unfoldable pub first_message : ServerHost → Config → Option (Result Bytes Bytes)
unfolding build_runtime start_server
first_message host config = elim (build_runtime host) [
  | err e ↦ some (err e)
  | ok u ↦ elim host.init_tracing [
    | done v ↦ some (start_server host config)
    | failed e ↦ some (start_server host config)
    | panicked m ↦ none
  ]
]

-- `serve_blocking` up to the server's loop.
unfoldable pub serve_blocking : ServerHost → Config → Outcome Bytes
unfolding build_runtime bind_listener
serve_blocking host config = elim (build_runtime host) [
  | err e ↦ failed e
  | ok u ↦ elim host.init_tracing [
    | panicked m ↦ panicked m
    | failed e ↦ failed e
    | done v ↦ elim (host.from_config config) [
      | failed e ↦ failed e
      | panicked m ↦ panicked m
      | done w ↦ elim (bind_listener host config) [ ok addr ↦ done addr | err e ↦ failed e ]
    ]
  ]
]

-- A `JoinHandle`, by whether its thread is finished.
pub data Thread : Type 0 where
  running : Thread
  finished : Thread

-- `GatewayError` and `PyValueError`
pub data PyError : Type 0 where
  gateway_error : Bytes → PyError
  value_error : ConfigError → PyError

module _ (notify : NotifyApi) where
  -- `Gateway`
  pub record PyGateway : Type 0 where
    pub config : Config
    pub shutdown : notify.Notify
    pub thread : Option Thread
    pub address : Option Bytes
    pub log_level : Option Bytes
    pub log_target : Bytes

  -- `Gateway::new`: the constructor's arguments, and `cache_enabled` on what was loaded.
  unfoldable pub py_new :
      Host → CliArgs → Option Bool → Option Bytes → Option Bytes → Result PyGateway PyError
  unfolding load set_cache_enabled
  py_new host args cache_enabled log_level log_to = do
    config ← map_err value_error (load host (record args { no_cache = false; cache = false }))
    ok (record {
      config = elim cache_enabled [
        | none ↦ config
        | some enabled ↦ set_cache_enabled config enabled
      ];
      shutdown = notify.create;
      thread = none;
      address = none;
      log_level = log_level;
      log_target = unwrap_or log_to (lit "stderr");
    })

  -- `Gateway::is_running`
  unfoldable pub is_running : PyGateway → Bool
  is_running g = elim g.thread [ none ↦ false | some running ↦ true | some finished ↦ false ]

  -- What `start` makes of the thread's first message.
  unfoldable pub started :
      PyGateway → Option (Result Bytes Bytes) → PyGateway × Result (Unit {0}) PyError
  started g (some (ok addr)) = (record g { address = some addr; thread = some running }, ok tt)
  started g (some (err e)) = (g, err (gateway_error e))
  started g none =
      (g, err (gateway_error (lit "gateway thread terminated before binding (likely a panic)")))

  -- `Gateway::start`
  unfoldable pub start : ServerHost → PyGateway → PyGateway × Result (Unit {0}) PyError
  unfolding first_message started
  start host g = elim g.thread [
    | some t ↦ (g, err (gateway_error (lit "gateway is already running")))
    | none ↦ started g (first_message host g.config)
  ]

  -- A wait of the running server for the shutdown signal: with the signal there it drains and ends.
  unfoldable pub poll_shutdown : PyGateway → PyGateway
  poll_shutdown g = elim g.thread [
    | none ↦ g
    | some finished ↦ g
    | some running ↦ elim (notify.notified g.shutdown) [
      | none ↦ g
      | some n ↦ record g { shutdown = n; thread = some finished }
    ]
  ]

  -- The server's thread panics.
  unfoldable pub panic : PyGateway → PyGateway
  panic g = elim g.thread [ none ↦ g | some t ↦ record g { thread = some finished } ]

  -- `Gateway::stop`; joining a running thread waits until it has taken the signal.
  unfoldable pub stop : PyGateway → PyGateway × Result (Unit {0}) PyError
  unfolding poll_shutdown
  stop g =
      let signalled : PyGateway = record g { shutdown = notify.notify_one g.shutdown } in
      elim g.thread [
        | none ↦ (signalled, ok tt)
        | some running ↦ (record (poll_shutdown signalled) { thread = none }, ok tt)
        | some finished ↦ (
          record g { thread = none },
          err (
              gateway_error
                (lit "gateway background thread had already terminated (likely a panic)")),
        )
      ]
