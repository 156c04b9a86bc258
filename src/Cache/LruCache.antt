-- ===== src/Cache/LruCache.antt =====
-- What `TtlCache` uses of the `lru` crate: the operations of `LruCache`, and their documented
-- behaviour in terms of `iter()`, the entries from the most to the least recently used.
use mathlib.Core.List.{lookup}
use mathlib.Core.Logic.{ite}
use hdfs_s3_gateway.Prelude.{ℕ, ◌<◌, ◌≡◌, Option, none, some, List, [], ◌∷◌, length, last?}

pub record LruApi (K V : Type 0) : Type 1 where
  pub Cache : Type 0
  -- `LruCache::new(capacity)`
  pub create : ℕ → Cache
  pub cap : Cache → ℕ
  pub iter : Cache → List (K × V)
  pub peek : Cache → K → Option V
  pub get : Cache → K → Cache × Option V
  pub pop : Cache → K → Cache × Option V
  pub push : Cache → K → V → Cache × Option (K × V)
  pub pop_lru : Cache → Cache × Option (K × V)

module _ {ℓ} {A : Type ℓ} where
  -- A list without its last element.
  unfoldable pub drop_last : List A → List A
  drop_last [] = []
  drop_last (x ∷ []) = []
  drop_last (x ∷ y ∷ xs) = x ∷ drop_last (y ∷ xs)

module _ {K V : Type 0} (dec : Discrete K) where
  -- The entries without the one of the key.
  unfoldable pub without : K → List (K × V) → List (K × V)
  without k [] = []
  without k ((j, v) ∷ l) = ite (dec k j) l ((j, v) ∷ without k l)

  -- A hit moves to the front.
  unfoldable pub promote : K → List (K × V) → List (K × V)
  unfolding without
  promote k l = elim (lookup dec k l) [ none ↦ l | some v ↦ (k, v) ∷ without k l ]

  pub record LruLaws (lru : LruApi K V) : Type 0 where
    pub create_cap : (n : ℕ) → lru.cap (lru.create n) ≡ n
    pub create_iter : (n : ℕ) → lru.iter (lru.create n) ≡ []
    pub peek_lem : (c : lru.Cache) (k : K) → lru.peek c k ≡ lookup dec k (lru.iter c)
    pub get_value : (c : lru.Cache) (k : K) → (lru.get c k).1 ≡ lookup dec k (lru.iter c)
    pub get_iter : (c : lru.Cache) (k : K) → lru.iter (lru.get c k).0 ≡ promote k (lru.iter c)
    pub get_cap : (c : lru.Cache) (k : K) → lru.cap (lru.get c k).0 ≡ lru.cap c
    pub pop_value : (c : lru.Cache) (k : K) → (lru.pop c k).1 ≡ lookup dec k (lru.iter c)
    pub pop_iter : (c : lru.Cache) (k : K) → lru.iter (lru.pop c k).0 ≡ without k (lru.iter c)
    pub pop_cap : (c : lru.Cache) (k : K) → lru.cap (lru.pop c k).0 ≡ lru.cap c
    -- A new key goes in front; at capacity the least recently used entry leaves and is returned.
    pub push_room :
        (c : lru.Cache) (k : K) (v : V)
        → lookup dec k (lru.iter c) ≡ none
        → length (lru.iter c) < lru.cap c
        → (lru.iter (lru.push c k v).0 ≡ (k, v) ∷ lru.iter c) × ((lru.push c k v).1 ≡ none)
    pub push_full :
        (c : lru.Cache) (k : K) (v : V)
        → lookup dec k (lru.iter c) ≡ none
        → length (lru.iter c) ≡ lru.cap c
        → (lru.iter (lru.push c k v).0 ≡ (k, v) ∷ drop_last (lru.iter c))
          × ((lru.push c k v).1 ≡ last? (lru.iter c))
    pub push_cap : (c : lru.Cache) (k : K) (v : V) → lru.cap (lru.push c k v).0 ≡ lru.cap c
    pub pop_lru_value : (c : lru.Cache) → (lru.pop_lru c).1 ≡ last? (lru.iter c)
    pub pop_lru_iter : (c : lru.Cache) → lru.iter (lru.pop_lru c).0 ≡ drop_last (lru.iter c)
    pub pop_lru_cap : (c : lru.Cache) → lru.cap (lru.pop_lru c).0 ≡ lru.cap c
