-- ===== src/Cache/Calls.antt =====
-- The invariant of the cache over any sequence of calls, at any times.
use mathlib.Core.List.{lookup}
use hdfs_s3_gateway.Prelude.{
  ℕ, ◌*◌, ◌<◌, ◌≡◌, refl, ap, not, ◌||◌, none, some, List, [], ◌∷◌, length, arith, Option-cases,
  Bool-cases, ltb, inl, inr,
}
use hdfs_s3_gateway.Cache.{
  Entry, TtlCache, usize_mod, new, remove, get, is_expired, is_enabled, insert,
}
use hdfs_s3_gateway.Cache.LruCache.{LruApi, LruLaws, without, promote}
use hdfs_s3_gateway.Cache.Entries.{
  total, Distinct, total-without, length-without, lookup-without_self, Distinct-without,
}
use hdfs_s3_gateway.Cache.Bounded.{IsValid, new-IsValid, remove-IsValid}
use hdfs_s3_gateway.Cache.Methods.{store-Inserted}

pub data Call (K V : Type 0) : Type 0 where
  get_at : ℕ → K → Call K V
  insert_at : ℕ → K → V → ℕ → Call K V
  remove_key : K → Call K V

module _ {K V : Type 0} (lru : LruApi K (Entry V)) where
  unfoldable pub run : TtlCache lru → List (Call K V) → TtlCache lru
  run c [] = c
  run c (get_at now k ∷ calls) = run (get lru c now k).0 calls
  run c (insert_at now k v w ∷ calls) = run (insert lru c now k v w) calls
  run c (remove_key k ∷ calls) = run (remove lru c k) calls

module _ {K V : Type 0} (dec : Discrete K) (lru : LruApi K (Entry V)) (laws : LruLaws dec lru) where
  promote_miss : (k : K) (l : List (K × Entry V)) → lookup dec k l ≡ none → promote dec k l ≡ l
  unfolding promote
  promote_miss k l h = ground arith

  promote_hit :
      (k : K) (l : List (K × Entry V)) (e : Entry V)
      → lookup dec k l ≡ some e
      → promote dec k l ≡ (k, e) ∷ without dec k l
  unfolding promote
  promote_hit k l e h = ground arith

  promote_lem :
      (k : K) (l : List (K × Entry V))
      → Distinct dec l
      → (length (promote dec k l) ≡ length l)
        × (total (promote dec k l) ≡ total l)
        × Distinct dec (promote dec k l)
  promote_lem k l h = elim (Option-cases (lookup dec k l)) [
    | inl n ↦ rw (promote_miss k l n) (refl, refl, h)
    | inr (e, n) ↦ rw (promote_hit k l e n) (
      omega (arith, length-without dec k l e n),
      omega (arith, total-without dec k l e n),
      (lookup-without_self dec k l h, Distinct-without dec k l h),
    )
  ]

  touched : TtlCache lru → K → TtlCache lru
  touched c k = record c { entries = (lru.get c.entries k).0 }

  touched-IsValid : (c : TtlCache lru) (k : K) → IsValid dec lru c → IsValid dec lru (touched c k)
  unfolding touched
  touched-IsValid c k v =
      let (len, sum, distinct) = promote_lem k (lru.iter c.entries) v.counted.distinct in
      let items = laws.get_iter c.entries k in
      record {
        counted = record {
          positive = omega (arith, laws.get_cap c.entries k);
          bounded = omega (arith, laws.get_cap c.entries k, ap length items);
          distinct = rw items distinct;
          weighed = omega (arith, ap total items);
          addressable = omega arith;
        };
        within = v.within;
        headroom = v.headroom;
      }

  pub get-IsValid :
      (c : TtlCache lru) (now : ℕ) (k : K) → IsValid dec lru c → IsValid dec lru (get lru c now k).0
  unfolding get touched
  get-IsValid c now k v = elim (Bool-cases (is_enabled lru c)) [
    | inl on ↦ elim (Bool-cases (is_expired lru c.ttl now (lru.peek c.entries k))) [
      | inl old ↦ rw (on, old) (remove-IsValid dec lru laws c k v)
      | inr young ↦ rw (on, young) (touched-IsValid c k v)
    ]
    | inr off ↦ rw off v
  ]

  insert-IsValid :
      (c : TtlCache lru) (now : ℕ) (k : K) (v : V) (w : ℕ)
      → IsValid dec lru c
      → IsValid dec lru (insert lru c now k v w)
  unfolding insert
  insert-IsValid c now k v w valid =
      elim (Bool-cases (not (is_enabled lru c) || ltb c.max_weight w)) [
        | inl skip ↦ rw skip valid
        | inr goes ↦
            rw goes
              (store-Inserted dec lru laws c k (record { value = v; inserted = now; weight = w })
                valid (ground arith)).valid
      ]

  run_keeps :
      (calls : List (Call K V)) (c : TtlCache lru)
      → IsValid dec lru c
      → IsValid dec lru (run lru c calls)
  unfolding run
  run_keeps [] c v = v
  run_keeps (get_at now k ∷ calls) c v = run_keeps calls (get lru c now k).0 (get-IsValid c now k v)
  run_keeps (insert_at now k u w ∷ calls) c v =
      run_keeps calls (insert lru c now k u w) (insert-IsValid c now k u w v)
  run_keeps (remove_key k ∷ calls) c v =
      run_keeps calls (remove lru c k) (remove-IsValid dec lru laws c k v)

  pub run-IsValid :
      (calls : List (Call K V)) (capacity ttl max_weight : ℕ)
      → 0 < capacity
      → 2 * max_weight < usize_mod
      → IsValid dec lru (run lru (new lru capacity ttl max_weight) calls)
  run-IsValid calls capacity ttl max_weight p h =
      run_keeps calls (new lru capacity ttl max_weight)
        (new-IsValid dec lru laws capacity ttl max_weight p h)
