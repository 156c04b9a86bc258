-- ===== src/Tests/FreshnessTests.antt =====
-- The gateway's caches at concrete inputs.
use mathlib.Core.List.{List-discrete, lookup}
use native.Mathlib.Decide.{ℕ_discrete}
use hdfs_s3_gateway.Prelude.{
  ok, err, ◌+◌, ◌≡◌, refl, true, false, Bytes, lit, ◌=?◌, starts_with, strip_prefix, none, List, [],
  ◌∷◌, length, take, drop, arith,
}
use hdfs_s3_gateway.Config.{Config, cache_config_default, config_default}
use hdfs_s3_gateway.Cache.{get}
use hdfs_s3_gateway.Cache.Bounded.{IsValid, new-IsValid}
use hdfs_s3_gateway.Error.{HdfsError, s3_error, internal_error}
use hdfs_s3_gateway.SortedListing.{FileStatus, listed, listing_from_statuses}
use hdfs_s3_gateway.Gateway.{
  LruCrate, ReaderApi, Client, Request, FileMeta, HdfsGateway, gateway_new, attach, list_dir,
}
use hdfs_s3_gateway.Gateway.Objects.{HttpApi}
use hdfs_s3_gateway.Gateway.GetObject.{get_body}
use hdfs_s3_gateway.Gateway.Body.{read}
use hdfs_s3_gateway.Gateway.Freshness.{weight, list_dir_again, shrunk_forgotten}
use hdfs_s3_gateway.Tests.ListLru.{list_lru, list_laws}

abbrev dec : Discrete Bytes
dec = List-discrete ℕ_discrete

abbrev crate : LruCrate
crate = record { api = λ V. list_lru dec }

abbrev readers : ReaderApi
readers = record {
  Reader = Bytes;
  file_length = length;
  read_range_stream = λ file s n. read (take n (drop s file)) ∷ [];
}

abbrev config : Config
config = record config_default { cache = record cache_config_default { enabled = true } }

abbrev gateway : HdfsGateway readers crate
gateway = gateway_new readers crate config

abbrev statuses : List FileStatus
statuses = record { path = lit "/d/x"; length = 5; isdir = false; modification_time = 0 } ∷ []

-- The directory as it is, and once it is gone.
abbrev before : Client readers
before = record {
  get_file_info = λ path. err (HdfsError.file_not_found path);
  list_status = λ path. ok statuses;
  read = λ path. ok (lit "hi");
  to_string = λ e. [];
}

abbrev after : Client readers
after = record before { list_status = λ path. err (HdfsError.file_not_found path) }

dirs_IsValid : IsValid dec (list_lru dec) gateway.cache.dirs
unfolding gateway_new
dirs_IsValid =
    new-IsValid dec (list_lru dec) (list_laws dec) 200_000 5_000 200_000 (omega arith) (omega arith)

not_listed : (get (list_lru dec) gateway.cache.dirs 10 (lit "/d")).1 ≡ none
unfolding gateway_new hdfs_s3_gateway.Cache.new get lookup
not_listed = refl

one_file : weight (listing_from_statuses statuses gateway.mapper) ≡ 1
unfolding gateway_new listing_from_statuses ◌=?◌ starts_with strip_prefix
one_file = refl

list_dir_again_example :
    (list_dir readers crate
      (list_dir readers crate gateway before 10 20 (lit "/d")).0
      after
      4_000
      4_001
      (lit "/d")).1
    ≡ listed (listing_from_statuses statuses gateway.mapper)
unfolding gateway_new hdfs_s3_gateway.Cache.new
list_dir_again_example =
    list_dir_again dec readers crate (λ V. list_laws dec) gateway before after 10 20 4_000 4_001
      (lit "/d") statuses dirs_IsValid not_listed refl (omega (arith, one_file))
      (omega (arith, one_file)) (omega arith)

metadata_IsValid : IsValid dec (list_lru dec) gateway.cache.metadata
unfolding gateway_new
metadata_IsValid =
    new-IsValid dec (list_lru dec) (list_laws dec) 100_000 1_000 100_000 (omega arith) (omega arith)

blocks_IsValid : IsValid dec (list_lru dec) gateway.cache.blocks
unfolding gateway_new
blocks_IsValid =
    new-IsValid dec (list_lru dec) (list_laws dec) 512 10_000 512 (omega arith) (omega arith)

abbrev http : HttpApi
http = record { strong_cmp = λ a b. false; weak_cmp = λ a b. false; from_path = λ name. none }

abbrev request : Request readers
request = record { client = after; clock = λ i. 4_000 + i; request_id = lit "r2" }

abbrev status : FileMeta
status = record { length = 5; isdir = false; modification_time = 0 }

shrunk_forgotten_example :
    ((get_body http readers crate gateway request (lit "/d/x") status 0 5 none (lit "hi")).1
      ≡ err (attach (lit "r2") (s3_error internal_error)))
    × ((get
          (list_lru dec)
          (get_body http readers crate gateway request
            (lit "/d/x")
            status
            0
            5
            none
            (lit "hi")).0.cache.metadata
          4_010
          (lit "/d/x")).1
        ≡ none)
    × ((get
          (list_lru dec)
          (get_body http readers crate gateway request
            (lit "/d/x")
            status
            0
            5
            none
            (lit "hi")).0.cache.blocks
          4_010
          (lit "/d/x")).1
        ≡ none)
shrunk_forgotten_example =
    shrunk_forgotten dec http readers crate (λ V. list_laws dec) gateway request (lit "/d/x") status
      0 5 none (lit "hi") 4_010 metadata_IsValid blocks_IsValid (omega arith)
