-- ===== src/Config/Validity.antt =====
-- What a configuration that was loaded keeps (Config::load and Config::validate of src/config/mod.rs).
use hdfs_s3_gateway.Prelude.{
  ◌<◌, ◌≡◌, ◌≢◌, refl, subst, inl, inr, Bool, true, false, not, ◌&&◌, ◌||◌, ◌⊎◌, Result, Bytes, lit,
  ◌=?◌, =?_iff, ltb, ◌==◌, Option, none, some, [], ok, err, >>=-eq-ok, Option-cases,
  to_string_lossy, arith,
}
use mathlib.Core.Option
use hdfs_s3_gateway.Config.{Config, config_default, read_file, parse_toml}
use hdfs_s3_gateway.Config.Options.{last_value, first_value, options_elim}
use hdfs_s3_gateway.Config.Env.{env_bool}
use hdfs_s3_gateway.Config.Words.{Says, env_bool-Says}
use hdfs_s3_gateway.Config.Load.{
  CliArgs, Host, base_config, override, cache_switch, set_cache_enabled, validate, load, unwrap_or,
  or_else, var, from_env, env_config, map_err,
}

-- What `validate` asks of a configuration.
pub record IsServable (check_bucket_name : Bytes → Bool) (config : Config) : Type 0 where
  pub has_namenode : config.namenode_uri ≢ []
  pub has_root : config.hdfs_root ≢ []
  pub has_bucket : config.bucket_name ≢ []
  pub is_bucket : check_bucket_name config.bucket_name ≡ true
  pub has_permits : 0 < config.max_concurrent_requests
  pub has_room :
      (config.cache.enabled
        && (ltb 0 config.cache.listing_ttl_ms && config.cache.listing_capacity_entries == 0))
      ≡ false

filled : (s : Bytes) → (s =? []) ≡ false → s ≢ []
filled s h e = absurd (ground (arith, h, (=?_iff s []).1 e))

validate-IsServable :
    (check_bucket_name : Bytes → Bool) (config : Config)
    → validate check_bucket_name config ≡ ok tt
    → IsServable check_bucket_name config
unfolding validate
validate-IsServable check config h = record {
  has_namenode = filled config.namenode_uri (ground (arith, h));
  has_root = filled config.hdfs_root (ground (arith, h));
  has_bucket = filled config.bucket_name (ground (arith, h));
  is_bucket = ground (arith, h);
  has_permits = ground (arith, h);
  has_room = ground (arith, h);
}

-- What a configuration is read from: the file that the arguments name, or the environment, with the
-- defaults where one of its three variables is not a text.
abbrev pub IsSource : Host → Option Bytes → Config → Type 0
IsSource host (some path) base =
    (text : Bytes) × (host.read_to_string path ≡ ok text) × (host.from_toml text ≡ ok base)
IsSource host none base =
    ((uri : Bytes) × (root : Bytes) × (bucket : Bytes) × (var host (lit "HDFS_NN_URI") ≡ some uri)
      × (var host (lit "HDFS_ROOT") ≡ some root)
      × (var host (lit "BUCKET_NAME") ≡ some bucket)
      × (base
          ≡ record config_default { namenode_uri = uri; hdfs_root = root; bucket_name = bucket }))
    ⊎ (((var host (lit "HDFS_NN_URI") ≡ none)
          ⊎ ((var host (lit "HDFS_ROOT") ≡ none) ⊎ (var host (lit "BUCKET_NAME") ≡ none)))
        × (base ≡ config_default))

-- Where a loaded configuration comes from.
pub record IsLoaded (host : Host) (args : CliArgs) (config : Config) : Type 0 where
  pub base : Config
  pub switch : Option Bool
  pub is_source : IsSource host args.config base
  pub is_switch : env_bool host.var_os (lit "HDFS_S3_CACHE_ENABLED") ≡ ok switch
  pub says_switch : Says (host.var_os (lit "HDFS_S3_CACHE_ENABLED")) switch
  pub has_address :
      config.listen_addr ≡ elim args.listen_addr [ some v ↦ v | none ↦ base.listen_addr ]
  pub is_namenode :
      config.namenode_uri ≡ elim args.namenode_uri [ some v ↦ v | none ↦ base.namenode_uri ]
  pub is_root : config.hdfs_root ≡ elim args.hdfs_root [ some v ↦ v | none ↦ base.hdfs_root ]
  pub has_name : config.bucket_name ≡ elim args.bucket_name [ some v ↦ v | none ↦ base.bucket_name ]
  pub has_secret :
      config.auth_secret ≡ elim args.auth_secret [ some v ↦ some v | none ↦ base.auth_secret ]
  pub has_user : config.hdfs_user ≡ elim args.hdfs_user [ some v ↦ some v | none ↦ base.hdfs_user ]
  pub has_config_dir : config.hdfs_config_dir ≡ elim args.hdfs_config_dir [
    | some v ↦ some (to_string_lossy v)
    | none ↦ base.hdfs_config_dir
  ]
  pub has_options :
      (k : Bytes)
      → first_value k config.hdfs_options
        ≡ elim (last_value k (elim args.hdfs_options [ some pairs ↦ pairs | none ↦ [] ])) [
          | some v ↦ some v
          | none ↦ first_value k base.hdfs_options
        ]
  pub has_limit : config.max_concurrent_requests ≡ base.max_concurrent_requests
  pub has_exposure : config.expose_upstream_errors ≡ base.expose_upstream_errors
  pub is_enabled : config.cache.enabled ≡ (
      args.cache || (not args.no_cache && elim switch [ some b ↦ b | none ↦ base.cache.enabled ]))
  pub has_cache : config.cache ≡ record base.cache { enabled = config.cache.enabled }
  pub is_servable : IsServable host.check_bucket_name config

pub map_err-eq-ok :
    {A E F : Type 0} (f : E → F) (m : Result A E) {a : A} → map_err f m ≡ ok a → m ≡ ok a
map_err-eq-ok f (ok b) h = ground (arith, h)
map_err-eq-ok f (err e) h = absurd (ground (arith, h))

base_config-IsSource :
    (host : Host) (path : Option Bytes) (base : Config)
    → base_config host path ≡ ok base
    → IsSource host path base
unfolding base_config from_env env_config
base_config-IsSource host (some path) base h =
    let (text, is_read, is_parsed) =
      >>=-eq-ok (map_err (read_file path) (host.read_to_string path)) _ h in
    (
      text,
      map_err-eq-ok (read_file path) (host.read_to_string path) is_read,
      map_err-eq-ok parse_toml (host.from_toml text) is_parsed,
    )
base_config-IsSource host none base h = elim (Option-cases (var host (lit "HDFS_NN_URI"))) [
  | inl e ↦ inr (inl e, ground (arith, h, e))
  | inr (uri, e) ↦ elim (Option-cases (var host (lit "HDFS_ROOT"))) [
    | inl f ↦ inr (inr (inl f), ground (arith, h, e, f))
    | inr (root, f) ↦ elim (Option-cases (var host (lit "BUCKET_NAME"))) [
      | inl g ↦ inr (inr (inr g), ground (arith, h, e, f, g))
      | inr (bucket, g) ↦ inl (uri, root, bucket, e, f, g, ground (arith, h, e, f, g))
    ]
  ]
]

option_elim : (o : Option Bytes) (d : Bytes) → unwrap_or o d ≡ elim o [ some v ↦ v | none ↦ d ]
option_elim none d = refl
option_elim (some v) d = refl

option_elim_some : (o d : Option Bytes) → or_else o d ≡ elim o [ some v ↦ some v | none ↦ d ]
option_elim_some none d = refl
option_elim_some (some v) d = refl

config_dir_elim :
    (o d : Option Bytes)
    → or_else (Option.map to_string_lossy o) d
      ≡ elim o [ some v ↦ some (to_string_lossy v) | none ↦ d ]
config_dir_elim none d = refl
config_dir_elim (some v) d = refl

switch_enabled :
    (args : CliArgs) (switch : Option Bool) (b : Bool)
    → cache_switch args switch b
      ≡ (args.cache || (not args.no_cache && elim switch [ some c ↦ c | none ↦ b ]))
unfolding cache_switch
switch_enabled args none b = ground arith
switch_enabled args (some c) b = ground arith

switched-IsLoaded :
    (host : Host) (args : CliArgs) (base : Config) (switch : Option Bool)
    → IsSource host args.config base
    → env_bool host.var_os (lit "HDFS_S3_CACHE_ENABLED") ≡ ok switch
    → IsServable host.check_bucket_name (
        set_cache_enabled
          (override args base)
          (cache_switch args switch (override args base).cache.enabled))
    → IsLoaded host args (
        set_cache_enabled
          (override args base)
          (cache_switch args switch (override args base).cache.enabled))
unfolding set_cache_enabled override
switched-IsLoaded host args base switch source is_switch servable = record {
  base = base;
  switch = switch;
  is_source = source;
  is_switch = is_switch;
  says_switch = env_bool-Says host.var_os (lit "HDFS_S3_CACHE_ENABLED") switch is_switch;
  has_address = option_elim args.listen_addr base.listen_addr;
  is_namenode = option_elim args.namenode_uri base.namenode_uri;
  is_root = option_elim args.hdfs_root base.hdfs_root;
  has_name = option_elim args.bucket_name base.bucket_name;
  has_secret = option_elim_some args.auth_secret base.auth_secret;
  has_user = option_elim_some args.hdfs_user base.hdfs_user;
  has_config_dir = config_dir_elim args.hdfs_config_dir base.hdfs_config_dir;
  has_options = λ k. options_elim k args.hdfs_options base.hdfs_options;
  has_limit = refl;
  has_exposure = refl;
  is_enabled = switch_enabled args switch base.cache.enabled;
  has_cache = refl;
  is_servable = servable;
}

pub load-IsLoaded :
    (host : Host) (args : CliArgs) (config : Config)
    → load host args ≡ ok config
    → IsLoaded host args config
unfolding load
load-IsLoaded host args config h =
    let (base, is_base, h1) = >>=-eq-ok (base_config host args.config) _ h in
    let (switch, is_switch, h2) =
      >>=-eq-ok (env_bool host.var_os (lit "HDFS_S3_CACHE_ENABLED")) _ h1 in
    let c = override args base in
    let switched = set_cache_enabled c (cache_switch args switch c.cache.enabled) in
    let (u, is_valid, h3) = >>=-eq-ok (validate host.check_bucket_name switched) _ h2 in
    let same : switched ≡ config = ground (arith, h3) in
    subst (IsLoaded host args) same (
      switched-IsLoaded host args base switch (base_config-IsSource host args.config base is_base)
        is_switch (validate-IsServable host.check_bucket_name switched is_valid))
