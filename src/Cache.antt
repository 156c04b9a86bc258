-- ===== src/Cache.antt =====
-- The bounded, weighted cache with a lifetime for its entries: `TtlCache` (src/core/cache.rs). The
-- `lru` crate's `LruCache` is a parameter (`Cache/LruCache.antt`), and so is the time of a call.
pub mod LruCache
pub mod Entries
pub mod Bounded
pub mod Eviction
pub mod Methods
pub mod Contract
pub mod Calls
use mathlib.Core.Option
use hdfs_s3_gateway.Prelude.{
  ℕ, zero, suc, ◌+◌, ◌-◌, ◌%◌, ◌^◌, Bool, true, false, not, Option, none, some, ltb, leb, ◌==◌,
  if◌then◌else◌, length, ◌||◌,
}
use LruCache.{LruApi}

abbrev pub usize_mod : ℕ
usize_mod = 2 ^ 64

-- `a + b` and `a - b` on `usize`, as a release build wraps them.
pub add_usize : ℕ → ℕ → ℕ
add_usize a b = (a + b) % usize_mod

pub sub_usize : ℕ → ℕ → ℕ
sub_usize a b = (a + usize_mod - b) % usize_mod

-- `Entry`; `inserted` is an instant, in milliseconds.
pub record Entry (V : Type 0) : Type 0 where
  pub value : V
  pub inserted : ℕ
  pub weight : ℕ

-- `TtlCache` with its `Inner`.
pub record TtlCache {K V : Type 0} (lru : LruApi K (Entry V)) : Type 0 where
  pub entries : lru.Cache
  pub weight : ℕ
  pub ttl : ℕ
  pub max_weight : ℕ

module _ {K V : Type 0} (lru : LruApi K (Entry V)) where
  -- `TtlCache::new`
  unfoldable pub new : ℕ → ℕ → ℕ → TtlCache lru
  new capacity ttl max_weight = record {
    entries = lru.create capacity;
    weight = 0;
    ttl = ttl;
    max_weight = max_weight;
  }

  -- `TtlCache::is_enabled`
  abbrev pub is_enabled : TtlCache lru → Bool
  is_enabled c = not (c.ttl == 0)

  -- `if let Some(entry) = entries.pop(key) { weight -= entry.weight }`
  pub release : TtlCache lru → lru.Cache × Option (Entry V) → TtlCache lru
  unfolding sub_usize
  release c (entries, none) = record c { entries = entries }
  release c (entries, some e) = record c { entries = entries; weight = sub_usize c.weight e.weight }

  -- `TtlCache::remove`
  unfoldable pub remove : TtlCache lru → K → TtlCache lru
  unfolding release
  remove c k = release c (lru.pop c.entries k)

  pub is_expired : ℕ → ℕ → Option (Entry V) → Bool
  is_expired ttl now none = false
  is_expired ttl now (some e) = leb ttl (now - e.inserted)

  -- `TtlCache::get`, at the instant `now`
  unfoldable pub get : TtlCache lru → ℕ → K → TtlCache lru × Option V
  unfolding remove is_expired
  get c now k =
      if is_enabled c
      then (if is_expired c.ttl now (lru.peek c.entries k) then (remove c k, none) else (
        record c { entries = (lru.get c.entries k).0 },
        Option.map (λ e. e.value) (lru.get c.entries k).1,
      ))
      else (c, none)

  pub release_evicted : TtlCache lru → lru.Cache × Option (K × Entry V) → TtlCache lru
  unfolding sub_usize
  release_evicted c (entries, none) = record c { entries = entries }
  release_evicted c (entries, some (k, e)) = record c {
    entries = entries;
    weight = sub_usize c.weight e.weight;
  }

  -- `if let Some((_, evicted)) = entries.push(key, entry) { weight -= evicted.weight }`
  pub push_entry : TtlCache lru → K → Entry V → TtlCache lru
  unfolding release_evicted
  push_entry c k e = release_evicted c (lru.push c.entries k e)

  -- The eviction loop of `insert`, with fuel for the rounds. `pop_lru` on an empty cache breaks.
  pub evict : ℕ → TtlCache lru → TtlCache lru
  unfolding release_evicted
  evict zero c = c
  evict (suc fuel) c = elim (ltb c.max_weight c.weight) [
    | false ↦ c
    | true ↦ elim (lru.pop_lru c.entries).1 [
      | none ↦ c
      | some _ ↦ evict fuel (release_evicted c (lru.pop_lru c.entries))
    ]
  ]

  -- The part of `insert` behind its guard.
  pub store : TtlCache lru → K → Entry V → TtlCache lru
  unfolding remove push_entry evict add_usize
  store c k e =
      let d = push_entry (remove c k) k e in
      evict (length (lru.iter d.entries)) (record d { weight = add_usize d.weight e.weight })

  -- `TtlCache::insert`, at the instant `now`
  unfoldable pub insert : TtlCache lru → ℕ → K → V → ℕ → TtlCache lru
  unfolding store
  insert c now k v w =
      if not (is_enabled c) || ltb c.max_weight w
      then c
      else store c k (record { value = v; inserted = now; weight = w })
