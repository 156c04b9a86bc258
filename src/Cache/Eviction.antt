-- ===== src/Cache/Eviction.antt =====
-- The eviction loop of `insert`: it ends by its own test, and takes entries from the least recently
-- used end only.
use mathlib.Core.List.{lookup}
use hdfs_s3_gateway.Prelude.{
  ℕ, zero, suc, ◌+◌, ◌<◌, ◌≤◌, ◌≡◌, ◌≢◌, refl, ap, sym, ◌∙◌, true, false, none, some, List, [], ◌∷◌,
  length, arith, Option-cases, Bool-cases, ltb, inl, inr,
}
use hdfs_s3_gateway.Cache.{Entry, TtlCache, sub_usize, release_evicted, evict}
use hdfs_s3_gateway.Cache.LruCache.{LruApi, LruLaws, drop_last}
use hdfs_s3_gateway.Cache.Entries.{
  total, total-drop_last, last?-none, length-drop_last, Distinct-drop_last, lookup-drop_last,
}
use hdfs_s3_gateway.Cache.Bounded.{IsCounted, sub_usize_exact}

module _ {K V : Type 0} (dec : Discrete K) (lru : LruApi K (Entry V)) where
  -- What a state that evictions lead to keeps of the state before them: no entry is new, and, if
  -- the first entry fits, it is still there.
  pub record Shrinks (c d : TtlCache lru) : Type 0 where
    pub same_ttl : d.ttl ≡ c.ttl
    pub same_max : d.max_weight ≡ c.max_weight
    pub same_cap : lru.cap d.entries ≡ lru.cap c.entries
    pub no_new :
        (j : K) (e : Entry V)
        → lookup dec j (lru.iter d.entries) ≡ some e
        → lookup dec j (lru.iter c.entries) ≡ some e
    pub front :
        (k : K) (e : Entry V) (l : List (K × Entry V))
        → lru.iter c.entries ≡ (k, e) ∷ l
        → e.weight ≤ c.max_weight
        → (l' : List (K × Entry V)) × (lru.iter d.entries ≡ (k, e) ∷ l')

  Shrinks-refl : (c : TtlCache lru) → Shrinks c c
  Shrinks-refl c = record {
    same_ttl = refl;
    same_max = refl;
    same_cap = refl;
    no_new = λ j e h. h;
    front = λ k e l h w. (l, h);
  }

  Shrinks-trans : (c d b : TtlCache lru) → Shrinks c d → Shrinks d b → Shrinks c b
  Shrinks-trans c d b s t = record {
    same_ttl = t.same_ttl ∙ s.same_ttl;
    same_max = t.same_max ∙ s.same_max;
    same_cap = t.same_cap ∙ s.same_cap;
    no_new = λ j e h. s.no_new j e (t.no_new j e h);
    front = λ k e l h w.
        let (l', h') = s.front k e l h w in t.front k e l' h' (omega (arith, s.same_max));
  }

  -- A first entry that fits on its own is not the last one of a list that is too heavy.
  front_stays :
      (l : List (K × Entry V)) (limit : ℕ) (k : K) (e : Entry V) (r : List (K × Entry V))
      → limit < total l
      → l ≡ (k, e) ∷ r
      → e.weight ≤ limit
      → (r' : List (K × Entry V)) × (drop_last l ≡ (k, e) ∷ r')
  unfolding drop_last
  front_stays [] limit k e r h q w = absurd (ground arith)
  front_stays (x ∷ []) limit k e r h q w = absurd (ground arith)
  front_stays (x ∷ y ∷ l) limit k e r h q w = (drop_last (y ∷ l), ground arith)

  module _ (laws : LruLaws dec lru) where
    -- One round: the least recently used entry leaves, with its weight.
    module _ (c : TtlCache lru) (k : K) (e : Entry V)
        (popped : (lru.pop_lru c.entries).1 ≡ some (k, e)) where
      evicted : TtlCache lru
      evicted = release_evicted lru c (lru.pop_lru c.entries)

      evicted_fields :
          (lru.iter evicted.entries ≡ drop_last (lru.iter c.entries))
          × (evicted.weight ≡ sub_usize c.weight e.weight)
          × (evicted.ttl ≡ c.ttl)
          × (evicted.max_weight ≡ c.max_weight)
          × (lru.cap evicted.entries ≡ lru.cap c.entries)
      unfolding evicted release_evicted
      evicted_fields =
          rw popped (laws.pop_lru_iter c.entries, refl, refl, refl, laws.pop_lru_cap c.entries)

      evicted_weight :
          total (drop_last (lru.iter c.entries)) + e.weight ≡ total (lru.iter c.entries)
      evicted_weight =
          total-drop_last (lru.iter c.entries) k e (sym (laws.pop_lru_value c.entries) ∙ popped)

      evicted-IsCounted : IsCounted dec lru c → IsCounted dec lru evicted
      evicted-IsCounted v =
          let (items, weight, _, _, cap) = evicted_fields in
          let exact = sub_usize_exact c.weight e.weight in
          record {
            positive = omega arith;
            bounded = omega (arith, ap length items, length-drop_last (lru.iter c.entries));
            distinct = rw items (Distinct-drop_last dec (lru.iter c.entries) v.distinct);
            weighed = omega (arith, evicted_weight, exact, ap total items);
            addressable = omega (arith, evicted_weight, exact);
          }

      evicted-Shrinks : IsCounted dec lru c → c.max_weight < c.weight → Shrinks c evicted
      evicted-Shrinks v over =
          let (items, _, ttl, limit, cap) = evicted_fields in
          let l = lru.iter c.entries in
          record {
            same_ttl = ttl;
            same_max = limit;
            same_cap = cap;
            no_new = λ j d h. lookup-drop_last dec l j d (sym (ap (lookup dec j) items) ∙ h);
            front = λ j d r h w.
                let (r', h') = front_stays l c.max_weight j d r (omega (arith, v.weighed)) h w in
                (r', items ∙ h');
          }

    pub record Evicted (c d : TtlCache lru) : Type 0 where
      pub counted : IsCounted dec lru d
      pub within : d.weight ≤ d.max_weight
      pub shrinks : Shrinks c d

    length_zero : (l : List (K × Entry V)) → length l ≤ 0 → l ≡ []
    length_zero [] h = refl
    length_zero (x ∷ l) h = absurd (omega arith)

    empty_weight : (c : TtlCache lru) → IsCounted dec lru c → lru.iter c.entries ≡ [] → c.weight ≡ 0
    empty_weight c v e = v.weighed ∙ ap total e

    over_not_empty :
        (c : TtlCache lru)
        → IsCounted dec lru c
        → c.max_weight < c.weight
        → (lru.pop_lru c.entries).1 ≢ none
    over_not_empty c v over e =
        let blank = last?-none (lru.iter c.entries) (sym (laws.pop_lru_value c.entries) ∙ e) in
        absurd (omega (arith, empty_weight c v blank))

    evict_fits :
        (fuel : ℕ) (c : TtlCache lru)
        → ltb c.max_weight c.weight ≡ false
        → evict lru (suc fuel) c ≡ c
    unfolding evict
    evict_fits fuel c h = ground arith

    evict_over :
        (fuel : ℕ) (c : TtlCache lru) (k : K) (d : Entry V)
        → (e : (lru.pop_lru c.entries).1 ≡ some (k, d)) → ltb c.max_weight c.weight ≡ true
        → evict lru (suc fuel) c ≡ evict lru fuel (evicted c k d e)
    unfolding evict evicted
    evict_over fuel c k d e h = ground arith

    evict-zero : (c : TtlCache lru) → evict lru zero c ≡ c
    unfolding evict
    evict-zero c = refl

    -- With as much fuel as there are entries the loop ends by its own test: the weight is within
    -- its limit, the books are kept, and only least recently used entries are gone.
    pub evict-Evicted :
        (fuel : ℕ) (c : TtlCache lru)
        → IsCounted dec lru c
        → length (lru.iter c.entries) ≤ fuel
        → Evicted c (evict lru fuel c)
    evict-Evicted zero c v h =
        let blank = length_zero (lru.iter c.entries) h in
        rw (evict-zero c) (record {
          counted = v;
          within = omega (arith, empty_weight c v blank);
          shrinks = Shrinks-refl c;
        })
    evict-Evicted (suc fuel) c v h = elim (Bool-cases (ltb c.max_weight c.weight)) [
      | inl over ↦ elim (Option-cases (lru.pop_lru c.entries).1) [
        | inl e ↦ absurd (over_not_empty c v (ground arith) e)
        | inr ((k, d), e) ↦
            let items = (evicted_fields c k d e).0 in
            let next =
              evict-Evicted fuel (evicted c k d e) (evicted-IsCounted c k d e v)
                (omega (arith, ap length items, length-drop_last (lru.iter c.entries))) in
            rw (evict_over fuel c k d e over) (record {
              counted = next.counted;
              within = next.within;
              shrinks =
                  Shrinks-trans c (evicted c k d e) (evict lru fuel (evicted c k d e))
                    (evicted-Shrinks c k d e v (ground arith)) next.shrinks;
            })
      ]
      | inr fits ↦
          rw (evict_fits fuel c fits)
            (record { counted = v; within = ground arith; shrinks = Shrinks-refl c })
    ]
