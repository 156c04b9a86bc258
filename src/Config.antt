-- ===== src/Config.antt =====
-- The configuration: `Config`, `CacheConfig` and `ConfigError` (src/config/mod.rs).
pub mod Options
pub mod Env
pub mod Words
pub mod Load
pub mod Validity
use hdfs_s3_gateway.Prelude.{ℕ, Bool, true, false, Bytes, lit, Option, none, List, []}

-- `CacheConfig`
pub record CacheConfig : Type 0 where
  pub enabled : Bool
  pub metadata_ttl_ms : ℕ
  pub blocks_ttl_ms : ℕ
  pub listing_ttl_ms : ℕ
  pub negative_ttl_ms : ℕ
  pub metadata_capacity : ℕ
  pub blocks_capacity : ℕ
  pub listing_capacity_entries : ℕ
  pub listing_max_dir_entries : ℕ

-- `CacheConfig::default`
abbrev pub cache_config_default : CacheConfig
cache_config_default = record {
  enabled = false;
  metadata_ttl_ms = 1_000;
  blocks_ttl_ms = 10_000;
  listing_ttl_ms = 5_000;
  negative_ttl_ms = 1_000;
  metadata_capacity = 100_000;
  blocks_capacity = 512;
  listing_capacity_entries = 200_000;
  listing_max_dir_entries = 50_000;
}

-- `Config`; the options map is a list of pairs.
pub record Config : Type 0 where
  pub namenode_uri : Bytes
  pub hdfs_root : Bytes
  pub bucket_name : Bytes
  pub listen_addr : Bytes
  pub max_concurrent_requests : ℕ
  pub expose_upstream_errors : Bool
  pub hdfs_options : List (Bytes × Bytes)
  pub hdfs_config_dir : Option Bytes
  pub hdfs_user : Option Bytes
  pub cache : CacheConfig
  pub auth_secret : Option Bytes

-- `default_listen_addr`
abbrev pub default_listen_addr : Bytes
default_listen_addr = lit "0.0.0.0:8080"

-- `default_max_concurrent_requests`
abbrev pub default_max_concurrent_requests : ℕ
default_max_concurrent_requests = 2048

-- `Config::default`
abbrev pub config_default : Config
config_default = record {
  namenode_uri = lit "hdfs://localhost:8020";
  hdfs_root = lit "/";
  bucket_name = lit "hdfs";
  listen_addr = default_listen_addr;
  max_concurrent_requests = default_max_concurrent_requests;
  expose_upstream_errors = true;
  hdfs_options = [];
  hdfs_config_dir = none;
  hdfs_user = none;
  cache = cache_config_default;
  auth_secret = none;
}

-- What is said of an invalid value.
pub data Reason : Type 0 where
  not_a_bool : Bytes → Bytes → Reason
  zero_requests : Reason
  zero_listing_capacity : Reason
  bad_bucket_name : Bytes → Reason

-- `ConfigError`; an error of the file system or of the parser is its text.
pub data ConfigError : Type 0 where
  read_file : Bytes → Bytes → ConfigError
  parse_toml : Bytes → ConfigError
  missing : Bytes → ConfigError
  invalid : Reason → ConfigError
