-- ===== src/Cache/Bounded.antt =====
-- The bookkeeping of the cache: entries and weight stay within their bounds, and the stored weight
-- is the sum of the entries' weights, so that no subtraction wraps around.
use mathlib.Core.List.{lookup}
use hdfs_s3_gateway.Prelude.{
  ℕ, ◌+◌, ◌-◌, ◌*◌, ◌<◌, ◌≤◌, ◌≡◌, refl, ap, sym, ◌∙◌, none, some, length, arith, Option-cases, inl,
  inr,
}
use hdfs_s3_gateway.Cache.{Entry, TtlCache, usize_mod, add_usize, sub_usize, new, release, remove}
use hdfs_s3_gateway.Cache.LruCache.{LruApi, LruLaws, without}
use hdfs_s3_gateway.Cache.Entries.{
  total, Distinct, total-without, length-without, without_absent, Distinct-without,
}

pub sub_usize_exact : (a b : ℕ) → b ≤ a → a < usize_mod → sub_usize a b ≡ a - b
unfolding sub_usize
sub_usize_exact a b h k = omega arith

pub add_usize_exact : (a b : ℕ) → a + b < usize_mod → add_usize a b ≡ a + b
unfolding add_usize
add_usize_exact a b h = omega arith

module _ {K V : Type 0} (dec : Discrete K) (lru : LruApi K (Entry V)) where
  -- The books are kept, whether or not the weight is over its limit.
  pub record IsCounted (c : TtlCache lru) : Type 0 where
    pub positive : 0 < lru.cap c.entries
    pub bounded : length (lru.iter c.entries) ≤ lru.cap c.entries
    pub distinct : Distinct dec (lru.iter c.entries)
    pub weighed : c.weight ≡ total (lru.iter c.entries)
    pub addressable : c.weight < usize_mod

  pub record IsValid (c : TtlCache lru) : Type 0 where
    pub counted : IsCounted c
    pub within : c.weight ≤ c.max_weight
    pub headroom : 2 * c.max_weight < usize_mod

  module _ (laws : LruLaws dec lru) where
    pub new-IsValid :
        (capacity ttl max_weight : ℕ)
        → 0 < capacity
        → 2 * max_weight < usize_mod
        → IsValid (new lru capacity ttl max_weight)
    unfolding new
    new-IsValid capacity ttl max_weight p h = record {
      counted = record {
        positive = omega (arith, laws.create_cap capacity);
        bounded = omega (arith, ap length (laws.create_iter capacity));
        distinct = rw (laws.create_iter capacity) tt;
        weighed = omega (arith, ap total (laws.create_iter capacity));
        addressable = omega arith;
      };
      within = omega arith;
      headroom = h;
    }

    pub iter-remove :
        (c : TtlCache lru) (k : K)
        → lru.iter (remove lru c k).entries ≡ without dec k (lru.iter c.entries)
    unfolding remove release
    iter-remove c k = elim (Option-cases (lru.pop c.entries k).1) [
      | inl e ↦ rw e (laws.pop_iter c.entries k)
      | inr (d, e) ↦ rw e (laws.pop_iter c.entries k)
    ]

    cap-remove : (c : TtlCache lru) (k : K) → lru.cap (remove lru c k).entries ≡ lru.cap c.entries
    unfolding remove release
    cap-remove c k = elim (Option-cases (lru.pop c.entries k).1) [
      | inl e ↦ rw e (laws.pop_cap c.entries k)
      | inr (d, e) ↦ rw e (laws.pop_cap c.entries k)
    ]

    pub limits-remove :
        (c : TtlCache lru) (k : K)
        → ((remove lru c k).ttl ≡ c.ttl) × ((remove lru c k).max_weight ≡ c.max_weight)
    unfolding remove release
    limits-remove c k = elim (Option-cases (lru.pop c.entries k).1) [
      | inl e ↦ rw e (refl, refl)
      | inr (d, e) ↦ rw e (refl, refl)
    ]

    weight_remove_miss :
        (c : TtlCache lru) (k : K)
        → lookup dec k (lru.iter c.entries) ≡ none
        → (remove lru c k).weight ≡ c.weight
    unfolding remove release
    weight_remove_miss c k e = rw (laws.pop_value c.entries k ∙ e) refl

    weight_remove_hit :
        (c : TtlCache lru) (k : K) (d : Entry V)
        → lookup dec k (lru.iter c.entries) ≡ some d
        → (remove lru c k).weight ≡ sub_usize c.weight d.weight
    unfolding remove release
    weight_remove_hit c k d e = rw (laws.pop_value c.entries k ∙ e) refl

    weighed_remove :
        (c : TtlCache lru) (k : K)
        → IsCounted c
        → ((remove lru c k).weight ≡ total (without dec k (lru.iter c.entries)))
          × (length (without dec k (lru.iter c.entries)) ≤ length (lru.iter c.entries))
          × ((remove lru c k).weight ≤ c.weight)
    weighed_remove c k v = elim (Option-cases (lookup dec k (lru.iter c.entries))) [
      | inl e ↦ rw (without_absent dec k (lru.iter c.entries) e) (
        omega (arith, weight_remove_miss c k e),
        omega arith,
        omega (arith, weight_remove_miss c k e),
      )
      | inr (d, e) ↦ (
        omega (
          arith,
          weight_remove_hit c k d e,
          sub_usize_exact c.weight d.weight,
          total-without dec k (lru.iter c.entries) d e,
        ),
        omega (arith, length-without dec k (lru.iter c.entries) d e),
        omega (
          arith,
          weight_remove_hit c k d e,
          sub_usize_exact c.weight d.weight,
          total-without dec k (lru.iter c.entries) d e,
        ),
      )
    ]

    pub remove-IsCounted : (c : TtlCache lru) (k : K) → IsCounted c → IsCounted (remove lru c k)
    remove-IsCounted c k v =
        let (weighed, shorter, lighter) = weighed_remove c k v in
        record {
          positive = omega (arith, cap-remove c k);
          bounded = omega (arith, cap-remove c k, ap length (iter-remove c k));
          distinct = rw (iter-remove c k) (Distinct-without dec k (lru.iter c.entries) v.distinct);
          weighed = weighed ∙ ap total (sym (iter-remove c k));
          addressable = omega arith;
        }

    pub remove-IsValid : (c : TtlCache lru) (k : K) → IsValid c → IsValid (remove lru c k)
    remove-IsValid c k v =
        let (weighed, shorter, lighter) = weighed_remove c k v.counted in
        record {
          counted = remove-IsCounted c k v.counted;
          within = omega (arith, limits-remove c k);
          headroom = omega (arith, limits-remove c k);
        }
