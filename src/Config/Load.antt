-- ===== src/Config/Load.antt =====
-- Loading and validating the configuration (Config::load of src/config/mod.rs).
use mathlib.Core.Option
use hdfs_s3_gateway.Prelude.{
  ℕ, Bool, true, false, not, ◌&&◌, Bytes, lit, ◌=?◌, ltb, ◌==◌, if◌then◌else◌, Option, none, some,
  List, [], ◌∷◌, from_utf8, to_string_lossy, Result, ok, err, ◌>>=◌,
}
use hdfs_s3_gateway.Config.{
  Config, config_default, cache_config_default, default_listen_addr,
  default_max_concurrent_requests, ConfigError, read_file, parse_toml, missing, invalid,
  zero_requests, zero_listing_capacity, bad_bucket_name,
}
use hdfs_s3_gateway.Config.Env.{env_bool}

-- `CliArgs`
pub record CliArgs : Type 0 where
  pub config : Option Bytes
  pub listen_addr : Option Bytes
  pub namenode_uri : Option Bytes
  pub hdfs_root : Option Bytes
  pub bucket_name : Option Bytes
  pub auth_secret : Option Bytes
  pub hdfs_user : Option Bytes
  pub hdfs_config_dir : Option Bytes
  pub hdfs_options : Option (List (Bytes × Bytes))
  pub no_cache : Bool
  pub cache : Bool

-- What loading takes from outside: the environment, the file system, the `toml` crate and the check of
-- bucket names of `s3s`. An error of the first two is its text.
pub record Host : Type 0 where
  pub var_os : Bytes → Option Bytes
  pub read_to_string : Bytes → Result Bytes Bytes
  pub from_toml : Bytes → Result Config Bytes
  pub check_bucket_name : Bytes → Bool

-- `raw.split_once('=')`
unfoldable pub split_once : ℕ → Bytes → Option (Bytes × Bytes)
split_once sep [] = none
split_once sep (c ∷ s) =
    let rest = split_once sep s in
    if c == sep
    then some ([], s)
    else elim rest [ none ↦ none | some (key, value) ↦ some (c ∷ key, value) ]

-- `parse_hdfs_option`; `none` is its error.
unfoldable pub parse_hdfs_option : Bytes → Option (Bytes × Bytes)
unfolding split_once
parse_hdfs_option raw = elim (split_once b'=' raw) [
  | none ↦ none
  | some ([], value) ↦ none
  | some (c ∷ key, value) ↦ some (c ∷ key, value)
]

-- `HashMap::insert` and `extend`
unfoldable pub insert_option : Bytes × Bytes → List (Bytes × Bytes) → List (Bytes × Bytes)
insert_option (k, v) [] = (k, v) ∷ []
insert_option (k, v) ((j, w) ∷ m) =
    let rest = insert_option (k, v) m in if k =? j then (k, v) ∷ m else (j, w) ∷ rest

unfoldable pub extend_options : List (Bytes × Bytes) → List (Bytes × Bytes) → List (Bytes × Bytes)
unfolding insert_option
extend_options m [] = m
extend_options m (p ∷ pairs) = extend_options (insert_option p m) pairs

-- `if let Some(v) = option { field = v }`
abbrev pub unwrap_or {ℓ} : {A : Type ℓ} → Option A → A → A
unwrap_or none d = d
unwrap_or (some v) d = v

-- `if let Some(v) = option { field = Some(v) }`
abbrev pub or_else {ℓ} : {A : Type ℓ} → Option A → Option A → Option A
or_else none d = d
or_else (some v) d = some v

-- `std::env::var(name).ok()`
unfoldable pub var : Host → Bytes → Option Bytes
var host name = elim (host.var_os name) [ none ↦ none | some raw ↦ from_utf8 raw ]

-- The configuration of three variables.
unfoldable pub env_config : Bytes → Bytes → Bytes → Config
env_config namenode_uri hdfs_root bucket_name = record {
  namenode_uri = namenode_uri;
  hdfs_root = hdfs_root;
  bucket_name = bucket_name;
  listen_addr = default_listen_addr;
  max_concurrent_requests = default_max_concurrent_requests;
  expose_upstream_errors = true;
  hdfs_options = [];
  hdfs_config_dir = none;
  hdfs_user = none;
  cache = cache_config_default;
  auth_secret = none;
}

-- `from_env`
unfoldable pub from_env : Host → Option Config
unfolding var env_config
from_env host = elim (var host (lit "HDFS_NN_URI")) [
  | none ↦ none
  | some namenode_uri ↦ elim (var host (lit "HDFS_ROOT")) [
    | none ↦ none
    | some hdfs_root ↦ elim (var host (lit "BUCKET_NAME")) [
      | none ↦ none
      | some bucket_name ↦ some (env_config namenode_uri hdfs_root bucket_name)
    ]
  ]
]

-- `map_err`
abbrev pub map_err : {A E F : Type 0} → (E → F) → Result A E → Result A F
map_err f (ok a) = ok a
map_err f (err e) = err (f e)

-- The configuration before the arguments: the file's if there is one, else that of the environment.
unfoldable pub base_config : Host → Option Bytes → Result Config ConfigError
unfolding from_env
base_config host none = ok (unwrap_or (from_env host) config_default)
base_config host (some path) = do
  text ← map_err (read_file path) (host.read_to_string path)
  map_err parse_toml (host.from_toml text)

-- The overrides by arguments.
unfoldable pub override : CliArgs → Config → Config
unfolding extend_options to_string_lossy
override args config = record config {
  listen_addr = unwrap_or args.listen_addr config.listen_addr;
  namenode_uri = unwrap_or args.namenode_uri config.namenode_uri;
  hdfs_root = unwrap_or args.hdfs_root config.hdfs_root;
  bucket_name = unwrap_or args.bucket_name config.bucket_name;
  auth_secret = or_else args.auth_secret config.auth_secret;
  hdfs_user = or_else args.hdfs_user config.hdfs_user;
  hdfs_config_dir =
      or_else (Option.map to_string_lossy args.hdfs_config_dir) config.hdfs_config_dir;
  hdfs_options = extend_options config.hdfs_options (unwrap_or args.hdfs_options []);
}

-- The switch of the caches, by the environment and by the arguments.
unfoldable pub cache_switch : CliArgs → Option Bool → Bool → Bool
cache_switch args env enabled =
    let env_enabled = unwrap_or env enabled in
    let unless_off = if args.no_cache then false else env_enabled in
    if args.cache then true else unless_off

unfoldable pub set_cache_enabled : Config → Bool → Config
set_cache_enabled config enabled = record config {
  cache = record config.cache { enabled = enabled };
}

-- `Config::validate`
unfoldable pub validate : (Bytes → Bool) → Config → Result (Unit {0}) ConfigError
validate check_bucket_name config =
    if config.namenode_uri =? []
    then err (missing (lit "namenode_uri"))
    else if config.hdfs_root =? []
    then err (missing (lit "hdfs_root"))
    else if config.bucket_name =? []
    then err (missing (lit "bucket_name"))
    else if config.max_concurrent_requests == 0
    then err (invalid zero_requests)
    else if config.cache.enabled
        && (ltb 0 config.cache.listing_ttl_ms && config.cache.listing_capacity_entries == 0)
    then err (invalid zero_listing_capacity)
    else if not (check_bucket_name config.bucket_name)
    then err (invalid (bad_bucket_name config.bucket_name))
    else ok tt

-- `Config::load`
unfoldable pub load : Host → CliArgs → Result Config ConfigError
unfolding base_config override env_bool cache_switch set_cache_enabled validate
load host args = do
  base ← base_config host args.config
  switch ← env_bool host.var_os (lit "HDFS_S3_CACHE_ENABLED")
  let config = override args base
  let switched = set_cache_enabled config (cache_switch args switch config.cache.enabled)
  checked ← validate host.check_bucket_name switched
  ok switched
