-- ===== src/Tests/ServerTests.antt =====
-- Loading, starting and serving at concrete inputs.
use mathlib.Core.List.{List-discrete}
use native.Mathlib.Decide.{ℕ_discrete}
use hdfs_s3_gateway.Prelude.{
  ◌≡◌, refl, true, false, Bytes, lit, ◌=?◌, if◌then◌else◌, length, take, drop, Option, none, some,
  [], ◌∷◌, ok, err, arith,
}
use hdfs_s3_gateway.Config.{Config, config_default, missing}
use hdfs_s3_gateway.Config.Env.{env_bool}
use hdfs_s3_gateway.Config.Load.{
  CliArgs, Host, load, override, parse_hdfs_option, set_cache_enabled,
}
use hdfs_s3_gateway.Gateway.{LruCrate, ReaderApi, gateway_new}
use hdfs_s3_gateway.Gateway.Body.{read}
use hdfs_s3_gateway.Gateway.ReadOnly.{put_object, refuse_write, get_bucket_acl, acl, answer_probe}
use hdfs_s3_gateway.Server.{ClientBuilder, Service, from_config, build_service, main}
use hdfs_s3_gateway.Server.Startup.{IsModest, IsStarted, main-IsStarted}
use hdfs_s3_gateway.Tests.BackpressureTests.{counter, counter_laws}
use hdfs_s3_gateway.Tests.ListLru.{list_lru, list_laws}

-- An environment that switches the caches on, a file system without files, and any name for a bucket.
abbrev environment : Bytes → Option Bytes
environment name = if name =? lit "HDFS_S3_CACHE_ENABLED" then some (lit " On ") else none

abbrev host : Host
host = record {
  var_os = environment;
  read_to_string = λ path. err (lit "no such file");
  from_toml = λ text. ok config_default;
  check_bucket_name = λ name. true;
}

abbrev args : CliArgs
args = record {
  config = none;
  listen_addr = none;
  namenode_uri = none;
  hdfs_root = some (lit "/data");
  bucket_name = none;
  auth_secret = some (lit "secret");
  hdfs_user = none;
  hdfs_config_dir = none;
  hdfs_options = none;
  no_cache = false;
  cache = false;
}

abbrev loaded : Config
loaded = set_cache_enabled (override args config_default) true

switch_on : env_bool environment (lit "HDFS_S3_CACHE_ENABLED") ≡ ok (some true)
unfolding env_bool ◌=?◌
switch_on = refl

load_no_root : load host (record args { hdfs_root = some [] }) ≡ err (missing (lit "hdfs_root"))
unfolding load ◌=?◌
load_no_root = refl

parse_option : parse_hdfs_option (lit "a=b=c") ≡ some (lit "a", lit "b=c")
unfolding parse_hdfs_option
parse_option = refl

parse_option_empty : parse_hdfs_option (lit "=b") ≡ none
unfolding parse_hdfs_option
parse_option_empty = refl

abbrev dec : Discrete Bytes
dec = List-discrete ℕ_discrete

abbrev crate : LruCrate
crate = record { api = λ V. list_lru dec }

abbrev readers : ReaderApi
readers = record {
  Reader = Bytes;
  file_length = length;
  read_range_stream = λ file s n. read (take n (drop s file)) ∷ [];
}

-- A builder that keeps its URL, and connects to it.
abbrev builder : ClientBuilder
builder = record {
  Builder = Bytes;
  Connection = Bytes;
  create = [];
  with_url = λ b url. url;
  with_config = λ b options. b;
  with_config_dir = λ b dir. b;
  with_user = λ b user. b;
  build = λ b. ok b;
}

abbrev service : Service builder readers crate counter
service =
    build_service builder readers crate counter
      (loaded.namenode_uri, gateway_new readers crate loaded) loaded

started_args :
    main builder readers crate counter host (λ a. ok a) (λ a. ok tt) args
    ≡ ok (service, lit "0.0.0.0:8080")
unfolding main load ◌=?◌ from_config
started_args = refl

modest : IsModest service.gateway.config.cache
unfolding build_service gateway_new set_cache_enabled override
modest = record { metadata = omega arith; blocks = omega arith; listings = omega arith }

main-IsStarted_example :
    (config : Config) × IsStarted builder readers crate counter dec
      (λ V. list_laws dec)
      counter_laws
      host
      args
      service
      config
main-IsStarted_example =
    main-IsStarted builder readers crate counter dec (λ V. list_laws dec) counter_laws host
      (λ a. ok a) (λ a. ok tt) args service (lit "0.0.0.0:8080") started_args modest

write_refused : (refuse_write {A = Unit} put_object (lit "id")).0.op ≡ lit "PutObject"
unfolding refuse_write
write_refused = refl

acl_answered : (answer_probe (λ s. true) get_bucket_acl (lit "id")).1.output ≡ acl none none
unfolding answer_probe
acl_answered = refl
