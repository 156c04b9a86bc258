-- ===== src/Cache/Methods.antt =====
-- The methods of the cache: the invariant holds after each, a hit is fresh, and what is inserted
-- is what a later `get` returns.
use mathlib.Core.List.{lookup}
use mathlib.Core.Logic.{if_pos, if_neg}
use hdfs_s3_gateway.Prelude.{
  ◌+◌, ◌<◌, ◌≤◌, ◌≡◌, ◌≢◌, refl, ap, sym, ◌∙◌, none, some, List, ◌∷◌, length, last?, arith,
  Option-cases, Bool-cases, ltb, inl, inr,
}
use hdfs_s3_gateway.Cache.{
  Entry, TtlCache, usize_mod, add_usize, sub_usize, remove, release_evicted, push_entry, store,
}
use hdfs_s3_gateway.Cache.LruCache.{LruApi, LruLaws, drop_last}
use hdfs_s3_gateway.Cache.Entries.{
  total, total-drop_last, last?-none, length-drop_last, Distinct, lookup-without_self,
  lookup-without_ne, Distinct-drop_last, lookup-drop_last, lookup-drop_last-none,
}
use hdfs_s3_gateway.Cache.Bounded.{
  IsCounted, IsValid, sub_usize_exact, add_usize_exact, iter-remove, limits-remove,
  remove-IsCounted, remove-IsValid,
}
use hdfs_s3_gateway.Cache.Eviction.{evict-Evicted}

module _ {K V : Type 0} (dec : Discrete K) (lru : LruApi K (Entry V)) (laws : LruLaws dec lru) where
  -- The state between the push and the eviction loop.
  pub record Pushed (c : TtlCache lru) (k : K) (e : Entry V) (d : TtlCache lru) : Type 0 where
    pub rest : List (K × Entry V)
    pub items : lru.iter d.entries ≡ (k, e) ∷ rest
    pub weighed : d.weight ≡ total rest
    pub lighter : d.weight ≤ c.weight
    pub absent : lookup dec k rest ≡ none
    pub distinct : Distinct dec rest
    pub bounded : length rest < lru.cap d.entries
    pub same_cap : lru.cap d.entries ≡ lru.cap c.entries
    pub same_ttl : d.ttl ≡ c.ttl
    pub same_max : d.max_weight ≡ c.max_weight
    pub no_new :
        (j : K) (f : Entry V)
        → lookup dec j rest ≡ some f
        → lookup dec j (lru.iter c.entries) ≡ some f

  module _ (c : TtlCache lru) (k : K) (e : Entry V) (v : IsCounted dec lru c)
      (new_key : lookup dec k (lru.iter c.entries) ≡ none) where
    pushed_limits :
        ((push_entry lru c k e).ttl ≡ c.ttl)
        × ((push_entry lru c k e).max_weight ≡ c.max_weight)
        × (lru.cap (push_entry lru c k e).entries ≡ lru.cap c.entries)
    unfolding push_entry release_evicted
    pushed_limits = elim (Option-cases (lru.push c.entries k e).1) [
      | inl h ↦ rw h (refl, refl, laws.push_cap c.entries k e)
      | inr (d, h) ↦ rw h (refl, refl, laws.push_cap c.entries k e)
    ]

    pushed_room :
        length (lru.iter c.entries) < lru.cap c.entries
        → (lru.iter (push_entry lru c k e).entries ≡ (k, e) ∷ lru.iter c.entries)
          × ((push_entry lru c k e).weight ≡ c.weight)
    unfolding push_entry release_evicted
    pushed_room room =
        let (items, out) = laws.push_room c.entries k e new_key room in rw out (items, refl)

    pushed_full :
        (d : K × Entry V)
        → length (lru.iter c.entries) ≡ lru.cap c.entries
        → last? (lru.iter c.entries) ≡ some d
        → (lru.iter (push_entry lru c k e).entries ≡ (k, e) ∷ drop_last (lru.iter c.entries))
          × ((push_entry lru c k e).weight ≡ sub_usize c.weight d.1.weight)
    unfolding push_entry release_evicted
    pushed_full d full last =
        let (items, out) = laws.push_full c.entries k e new_key full in
        rw (out ∙ last) (items, refl)

    push_entry-Pushed : Pushed c k e (push_entry lru c k e)
    push_entry-Pushed =
        let l = lru.iter c.entries in
        let (ttl, limit, cap) = pushed_limits in
        elim (Bool-cases (ltb (length l) (lru.cap c.entries))) [
          | inl room ↦
              let (items, weight) = pushed_room (ground arith) in
              record {
                rest = l;
                items = items;
                weighed = weight ∙ v.weighed;
                lighter = omega (arith, weight);
                absent = new_key;
                distinct = v.distinct;
                bounded = ground (arith, cap);
                same_cap = cap;
                same_ttl = ttl;
                same_max = limit;
                no_new = λ j f h. h;
              }
          | inr full ↦ elim (Option-cases (last? l)) [
            | inl n ↦ absurd (ground (arith, v.bounded, v.positive, ap length (last?-none l n)))
            | inr ((j, d), h) ↦
                let (items, weight) = pushed_full (j, d) (ground (arith, v.bounded)) h in
                let lost = total-drop_last l j d h in
                let exact = sub_usize_exact c.weight d.weight in
                record {
                  rest = drop_last l;
                  items = items;
                  weighed = omega (arith, weight, lost, exact, v.weighed, v.addressable);
                  lighter = omega (arith, weight, lost, exact, v.weighed, v.addressable);
                  absent = lookup-drop_last-none dec l k new_key;
                  distinct = Distinct-drop_last dec l v.distinct;
                  bounded = ground (arith, length-drop_last l, cap, v.bounded, v.positive);
                  same_cap = cap;
                  same_ttl = ttl;
                  same_max = limit;
                  no_new = λ i f g. lookup-drop_last dec l i f g;
                }
          ]
        ]

  -- The pushed state with the weight of the new entry added.
  weighed-IsCounted :
      (c : TtlCache lru) (k : K) (e : Entry V) (d : TtlCache lru)
      → Pushed c k e d
      → 0 < lru.cap c.entries
      → d.weight + e.weight < usize_mod
      → IsCounted dec lru (record d { weight = add_usize d.weight e.weight })
  weighed-IsCounted c k e d p positive h =
      let exact = add_usize_exact d.weight e.weight h in
      record {
        positive = omega (arith, p.same_cap);
        bounded = omega (arith, ap length p.items, p.bounded);
        distinct = rw p.items (p.absent, p.distinct);
        weighed = omega (arith, exact, p.weighed, ap total p.items);
        addressable = omega (arith, exact);
      }

  -- What a call of `insert` that is not refused leads to.
  pub record Inserted (c : TtlCache lru) (k : K) (e : Entry V) (d : TtlCache lru) : Type 0 where
    pub valid : IsValid dec lru d
    pub same_ttl : d.ttl ≡ c.ttl
    pub same_max : d.max_weight ≡ c.max_weight
    pub found : lookup dec k (lru.iter d.entries) ≡ some e
    pub no_new :
        (j : K) (f : Entry V)
        → j ≢ k
        → lookup dec j (lru.iter d.entries) ≡ some f
        → lookup dec j (lru.iter c.entries) ≡ some f

  lookup_front : (k : K) (e : Entry V) (l : List (K × Entry V)) → lookup dec k ((k, e) ∷ l) ≡ some e
  unfolding lookup
  lookup_front k e l = if_pos (dec k k) refl _ _

  lookup_behind :
      (j k : K) (e : Entry V) (l : List (K × Entry V))
      → j ≢ k
      → lookup dec j ((k, e) ∷ l) ≡ lookup dec j l
  unfolding lookup
  lookup_behind j k e l h = if_neg (dec j k) h _ _

  pub store-Inserted :
      (c : TtlCache lru) (k : K) (e : Entry V)
      → IsValid dec lru c
      → e.weight ≤ c.max_weight
      → Inserted c k e (store lru c k e)
  unfolding store
  store-Inserted c k e valid fits =
      let r = remove lru c k in
      let counted = remove-IsCounted dec lru laws c k valid.counted in
      let (r_ttl, r_max) = limits-remove dec lru laws c k in
      let within = (remove-IsValid dec lru laws c k valid).within in
      let gone : lookup dec k (lru.iter r.entries) ≡ none =
        ap (lookup dec k) (iter-remove dec lru laws c k)
        ∙ lookup-without_self dec k (lru.iter c.entries) valid.counted.distinct in
      let d = push_entry lru r k e in
      let p : Pushed r k e d = push_entry-Pushed r k e counted gone in
      let full : TtlCache lru = record d { weight = add_usize d.weight e.weight } in
      let books : IsCounted dec lru full =
        weighed-IsCounted r k e d p counted.positive
          (omega (arith, p.lighter, within, r_max, valid.headroom, fits)) in
      let x = evict-Evicted dec lru laws (length (lru.iter d.entries)) full books (omega arith) in
      let (l', front) =
        x.shrinks.front k e p.rest p.items (omega (arith, fits, p.same_max, r_max)) in
      record {
        valid = record {
          counted = x.counted;
          within = x.within;
          headroom = omega (arith, x.shrinks.same_max, p.same_max, r_max, valid.headroom);
        };
        same_ttl = x.shrinks.same_ttl ∙ p.same_ttl ∙ r_ttl;
        same_max = x.shrinks.same_max ∙ p.same_max ∙ r_max;
        found = ap (lookup dec k) front ∙ lookup_front k e l';
        no_new = λ j f ne h.
            sym (lookup-without_ne dec k (lru.iter c.entries) j ne)
            ∙ ap (lookup dec j) (sym (iter-remove dec lru laws c k))
            ∙ p.no_new j f (
                sym (ap (lookup dec j) p.items ∙ lookup_behind j k e p.rest ne)
                ∙ x.shrinks.no_new j f h);
      }
