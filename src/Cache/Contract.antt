-- ===== src/Cache/Contract.antt =====
-- What the cache promises its callers: a hit is fresh, an inserted value is found again, and no
-- call changes the value of another key.
use mathlib.Core.List.{lookup}
use hdfs_s3_gateway.Prelude.{
  ℕ, ◌-◌, ◌<◌, ◌≤◌, ◌≡◌, ◌≢◌, ap, sym, subst, ◌∙◌, ◌||◌, Option, none, some, arith, Option-cases,
  Bool-cases, ltb, leb, if◌then◌else◌, ◌⊎◌, inl, inr,
}
use hdfs_s3_gateway.Cache.{Entry, TtlCache, get, is_expired, store, insert}
use hdfs_s3_gateway.Cache.LruCache.{LruApi, LruLaws}
use hdfs_s3_gateway.Cache.Bounded.{IsValid}
use hdfs_s3_gateway.Cache.Methods.{store-Inserted}

-- The value of an entry while it is younger than the lifetime.
abbrev pub live_value : {V : Type 0} → ℕ → ℕ → Option (Entry V) → Option V
live_value ttl now none = none
live_value ttl now (some e) = if ltb (now - e.inserted) ttl then some e.value else none

module _ {K V : Type 0} (dec : Discrete K) (lru : LruApi K (Entry V)) (laws : LruLaws dec lru) where
  -- `get` returns the value of the key's entry exactly while the entry is younger than the
  -- lifetime, and nothing otherwise; a lifetime of zero therefore never hits.
  pub get-eq-live_value :
      (c : TtlCache lru) (now : ℕ) (k : K)
      → (get lru c now k).1 ≡ live_value c.ttl now (lookup dec k (lru.iter c.entries))
  unfolding get is_expired
  get-eq-live_value c now k = elim (Option-cases (lookup dec k (lru.iter c.entries))) [
    | inl h ↦
        let peeked = laws.peek_lem c.entries k ∙ h in
        let got = laws.get_value c.entries k ∙ h in ground (arith, peeked, got, h)
    | inr (e, h) ↦
        let peeked = laws.peek_lem c.entries k ∙ h in
        let got = laws.get_value c.entries k ∙ h in ground (arith, peeked, got, h)
  ]

  insert_stores :
      (c : TtlCache lru) (now : ℕ) (k : K) (v : V) (w : ℕ)
      → 0 < c.ttl
      → w ≤ c.max_weight
      → insert lru c now k v w ≡ store lru c k (record { value = v; inserted = now; weight = w })
  unfolding insert
  insert_stores c now k v w h f = ground arith

  insert_skips :
      (c : TtlCache lru) (now : ℕ) (k : K) (v : V) (w : ℕ)
      → ((c.ttl ≡ 0) ⊎ (c.max_weight < w))
      → insert lru c now k v w ≡ c
  unfolding insert
  insert_skips c now k v w h = ground arith

  module _ (c : TtlCache lru) (valid : IsValid dec lru c) (now : ℕ) (k : K) (v : V) (w : ℕ) where
    -- A value that is inserted, and is no heavier than the whole budget, is what `get` returns for
    -- its key until its lifetime is over: the eviction that makes room never takes it.
    pub get-insert :
        (later : ℕ)
        → w ≤ c.max_weight
        → later - now < c.ttl
        → (get lru (insert lru c now k v w) later k).1 ≡ some v
    get-insert later fits young =
        let e : Entry V = record { value = v; inserted = now; weight = w } in
        let x = store-Inserted dec lru laws c k e valid fits in
        rw (insert_stores c now k v w (omega arith) fits) (
          get-eq-live_value (store lru c k e) later k
          ∙ ap (live_value (store lru c k e).ttl later) x.found
          ∙ ground (arith, x.same_ttl))

    stored_ne :
        (later : ℕ) (j : K) (u : V)
        → 0 < c.ttl
        → w ≤ c.max_weight
        → j ≢ k
        → (get lru (store lru c k (record { value = v; inserted = now; weight = w })) later j).1
          ≡ some u
        → (get lru c later j).1 ≡ some u
    stored_ne later j u live fits ne h =
        let e : Entry V = record { value = v; inserted = now; weight = w } in
        let d = store lru c k e in
        let x = store-Inserted dec lru laws c k e valid fits in
        let hit : live_value d.ttl later (lookup dec j (lru.iter d.entries)) ≡ some u =
          sym (get-eq-live_value d later j) ∙ h in
        get-eq-live_value c later j ∙ elim (Option-cases (lookup dec j (lru.iter d.entries))) [
          | inl n ↦ absurd (ground (arith, ap (live_value d.ttl later) n))
          | inr (f, n) ↦
              ap (live_value c.ttl later) (x.no_new j f ne n)
              ∙ ground (arith, ap (live_value d.ttl later) n, x.same_ttl)
        ]

    -- Whatever is inserted, another key is answered as before or, once evicted, not at all.
    pub get-insert_ne :
        (later : ℕ) (j : K) (u : V)
        → j ≢ k
        → (get lru (insert lru c now k v w) later j).1 ≡ some u
        → (get lru c later j).1 ≡ some u
    get-insert_ne later j u ne h = elim (Bool-cases (leb c.ttl 0 || ltb c.max_weight w)) [
      | inl skipped ↦
          let same = insert_skips c now k v w (ground arith) in
          subst (λ d. (get lru d later j).1 ≡ some u) same h
      | inr goes ↦
          let live : 0 < c.ttl = ground arith in
          let fits : w ≤ c.max_weight = ground arith in
          stored_ne later j u live fits ne
            (subst (λ d. (get lru d later j).1 ≡ some u) (insert_stores c now k v w live fits) h)
    ]
