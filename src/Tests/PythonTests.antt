-- ===== src/Tests/PythonTests.antt =====
-- The Python bindings at concrete inputs.
use hdfs_s3_gateway.Prelude.{
  ℕ, ◌+◌, ◌%◌, ◌*◌, from_utf8, ◌≡◌, refl, Bool, true, false, Bytes, lit, ◌=?◌, ◌==◌, if◌then◌else◌,
  none, some, List, [], ◌∷◌, ok, err, arith,
}
use hdfs_s3_gateway.Config.{
  Config, config_default, cache_config_default, invalid, zero_listing_capacity,
}
use hdfs_s3_gateway.Config.Load.{CliArgs, Host, load, validate}
use hdfs_s3_gateway.Python.{
  install_panic_hook, prints_panic, NotifyApi, NotifyLaws, done, str, panic_message, ServerHost,
  running, PyError, PyGateway, py_new, is_running, start, poll_shutdown, panic, stop,
  serve_blocking,
}
use hdfs_s3_gateway.Python.Lifecycle.{stop-start-Ends, py_new-Unchecked}
use hdfs_s3_gateway.Python.Logging.{write, spawn_log_consumer, init_tracing, to_python}
use hdfs_s3_gateway.Python.Logging.Delivery.{
  lines, messages, concat, IsPatient, spawn_log_consumer-eq-messages,
}

-- A notification is kept as a flag.
abbrev flag : NotifyApi
flag = record {
  Notify = Bool;
  create = false;
  notify_one = λ n. true;
  notified = λ n. if n then some false else none;
}

flag_laws : NotifyLaws flag
flag_laws = record { served = λ n. false; create_waits = refl; keeps_permit = λ n. refl }

abbrev network : ServerHost
network = record {
  build_runtime = ok tt;
  init_tracing = done tt;
  from_config = λ config. done tt;
  parse_addr = λ a. ok a;
  bind = λ a. ok (some (lit "127.0.0.1:43210"));
}

abbrev idle : PyGateway flag
idle = record {
  config = config_default;
  shutdown = false;
  thread = none;
  address = none;
  log_level = none;
  log_target = lit "stderr";
}

abbrev up : PyGateway flag
up = record idle { thread = some running; address = some (lit "127.0.0.1:43210") }

abbrev signalled : PyGateway flag
signalled = record up { shutdown = true }

start_idle : start flag network idle ≡ (up, ok tt)
unfolding start
start_idle = refl

stop-up : stop flag up ≡ (record up { thread = none; shutdown = false }, ok tt)
unfolding stop
stop-up = refl

panic-up : is_running flag (panic flag up) ≡ false
unfolding panic is_running
panic-up = refl

serve_idle : serve_blocking network config_default ≡ done (lit "127.0.0.1:43210")
unfolding serve_blocking
serve_idle = refl

panic_kept_quiet : prints_panic (install_panic_hook false) true ≡ false
unfolding prints_panic install_panic_hook
panic_kept_quiet = refl

message_str : panic_message (str (lit "x")) ≡ lit "x"
unfolding panic_message
message_str = refl

started_signalled : start flag network (stop flag idle).0 ≡ (signalled, ok tt)
unfolding start stop
started_signalled = refl

stop-start-Ends_example :
    ((stop flag idle).1 ≡ ok tt)
    × (is_running flag signalled ≡ true)
    × (is_running flag (poll_shutdown flag signalled) ≡ false)
    × ((e : PyError) × ((stop flag (poll_shutdown flag signalled)).1 ≡ err e))
stop-start-Ends_example =
    stop-start-Ends flag flag_laws network idle signalled refl started_signalled

-- A file whose listing cache has no room, with the caches off.
abbrev roomless : Config
roomless = record config_default {
  cache = record cache_config_default { listing_capacity_entries = 0 };
}

abbrev host : Host
host = record {
  var_os = λ name. none;
  read_to_string = λ path. ok (lit "[cache]");
  from_toml = λ text. ok roomless;
  check_bucket_name = λ name. true;
}

abbrev args : CliArgs
args = record {
  config = some (lit "gateway.toml");
  listen_addr = none;
  namenode_uri = none;
  hdfs_root = none;
  bucket_name = none;
  auth_secret = none;
  hdfs_user = none;
  hdfs_config_dir = none;
  hdfs_options = none;
  no_cache = false;
  cache = false;
}

load-roomless : load host args ≡ ok roomless
unfolding load ◌=?◌
load-roomless = refl

load_refused : load host (record args { cache = true }) ≡ err (invalid zero_listing_capacity)
unfolding load ◌=?◌
load_refused = refl

py_new-Unchecked_example :
    (g : PyGateway flag) × (py_new flag host args (some true) none none ≡ ok g)
    × (validate host.check_bucket_name g.config ≡ err (invalid zero_listing_capacity))
py_new-Unchecked_example =
    py_new-Unchecked flag host args roomless none none load-roomless (omega arith) refl

-- Every third attempt to attach succeeds.
abbrev third : ℕ → Bool
third tick = tick % 3 == 0

third-IsPatient : IsPatient third
third-IsPatient tick =
    let h : (tick + 2 * (tick % 3)) % 3 ≡ 0 = omega arith in
    (2 * (tick % 3), omega arith, ground (arith, h))

abbrev chunks : List Bytes
chunks = (b'a' ∷ b'\r' ∷ []) ∷ (b'\n' ∷ b'\n' ∷ b'b' ∷ []) ∷ (b'c' ∷ []) ∷ []

consumed : spawn_log_consumer third true chunks ≡ lit "a" ∷ lit "bc" ∷ []
unfolding spawn_log_consumer ◌=?◌
consumed = refl

dropped : spawn_log_consumer (λ tick. false) true chunks ≡ []
unfolding spawn_log_consumer ◌=?◌
dropped = refl

written : write (0xFF ∷ []) [] ≡ ([], 1)
unfolding write from_utf8
written = refl

quiet : init_tracing none false none none (lit "python") ≡ none
unfolding init_tracing
quiet = refl

bridged :
    init_tracing none false none (some (lit "debug")) (lit "python")
    ≡ some (to_python (lit "debug"))
unfolding init_tracing ◌=?◌
bridged = refl

spawn_log_consumer-eq-messages_example :
    spawn_log_consumer third true chunks ≡ messages (lines (concat chunks))
spawn_log_consumer-eq-messages_example = spawn_log_consumer-eq-messages third third-IsPatient chunks
