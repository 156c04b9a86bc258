-- ===== src/Tests/CacheTests.antt =====
-- The cache over a concrete `LruCache`: a list with its capacity.
use mathlib.Core.List.{lookup}
use native.Mathlib.Decide.{ℕ_discrete}
use hdfs_s3_gateway.Prelude.{ℕ, ◌≡◌, refl, none, some, [], ◌∷◌, arith}
use hdfs_s3_gateway.Tests.ListLru
use hdfs_s3_gateway.Cache.{Entry, TtlCache, new, get, insert}
use hdfs_s3_gateway.Cache.LruCache.{LruApi, LruLaws, drop_last, without, promote}
use hdfs_s3_gateway.Cache.Bounded.{IsValid, new-IsValid}
use hdfs_s3_gateway.Cache.Contract.{get-insert, get-insert_ne}
use hdfs_s3_gateway.Cache.Calls.{run, run-IsValid, insert_at}

abbrev dec : Discrete ℕ
dec = ℕ_discrete

abbrev list_lru : LruApi ℕ (Entry ℕ)
list_lru = ListLru.list_lru dec

list_laws : LruLaws dec list_lru
list_laws = ListLru.list_laws dec

abbrev empty : TtlCache list_lru
empty = new list_lru 2 60 10

empty-IsValid : IsValid dec list_lru empty
empty-IsValid = new-IsValid dec list_lru list_laws 2 60 10 (omega arith) (omega arith)

get-insert_example : (get list_lru (insert list_lru empty 100 7 70 4) 120 7).1 ≡ some 70
unfolding new
get-insert_example =
    get-insert dec list_lru list_laws empty empty-IsValid 100 7 70 4 120 (omega arith) (omega arith)

abbrev one : TtlCache list_lru
one = insert list_lru empty 100 7 70 4

one-IsValid : IsValid dec list_lru one
unfolding run
one-IsValid =
    run-IsValid dec list_lru list_laws (insert_at 100 7 70 4 ∷ []) 2 60 10 (omega arith)
      (omega arith)

still_there : (get list_lru (insert list_lru one 110 8 80 5) 130 7).1 ≡ some 70
unfolding get insert new ListLru.list_push ListLru.push_new lookup without promote drop_last
    ℕ_discrete
still_there = refl

-- The budget of 10 has no room for both: the least recently used entry leaves.
evicted_run : (get list_lru (insert list_lru one 110 8 80 7) 130 7).1 ≡ none
unfolding get insert new ListLru.list_push ListLru.push_new lookup without promote drop_last
    ℕ_discrete
evicted_run = refl

get-insert_ne_example : (get list_lru one 130 7).1 ≡ some 70
get-insert_ne_example =
    get-insert_ne dec list_lru list_laws one one-IsValid 110 8 80 5 130 7 70 (omega arith)
      still_there
