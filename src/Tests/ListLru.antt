-- ===== src/Tests/ListLru.antt =====
-- An `lru::LruCache` as a list with its capacity, and the laws it keeps.
use mathlib.Core.List.{lookup}
use hdfs_s3_gateway.Prelude.{
  ℕ, ◌<◌, ◌≡◌, refl, Option, none, some, List, [], ◌∷◌, length, last?, ltb, if◌then◌else◌, arith,
}
use hdfs_s3_gateway.Cache.LruCache.{LruApi, LruLaws, drop_last, without, promote}

abbrev ListCache : Type 0 → Type 0 → Type 0
ListCache K V = ℕ × List (K × V)

module _ {K V : Type 0} where
  unfoldable pub push_new : ListCache K V → K × V → ListCache K V × Option (K × V)
  push_new (n, l) e =
      if ltb (length l) n then ((n, e ∷ l), none) else ((n, e ∷ drop_last l), last? l)

module _ {K V : Type 0} (dec : Discrete K) where
  unfoldable pub list_push : ListCache K V → K → V → ListCache K V × Option (K × V)
  unfolding push_new
  list_push (n, l) k e = elim (lookup dec k l) [
    | none ↦ push_new (n, l) (k, e)
    | some old ↦ ((n, (k, e) ∷ without dec k l), some (k, old))
  ]

  abbrev pub list_lru : LruApi K V
  list_lru = record {
    Cache = ListCache K V;
    create = λ n. (n, []);
    cap = λ c. c.0;
    iter = λ c. c.1;
    peek = λ c k. lookup dec k c.1;
    get = λ c k. ((c.0, promote dec k c.1), lookup dec k c.1);
    pop = λ c k. ((c.0, without dec k c.1), lookup dec k c.1);
    push = list_push;
    pop_lru = λ c. ((c.0, drop_last c.1), last? c.1);
  }

  push_room :
      (c : ListCache K V) (k : K) (e : V)
      → lookup dec k c.1 ≡ none
      → length c.1 < c.0
      → ((list_push c k e).0.1 ≡ (k, e) ∷ c.1) × ((list_push c k e).1 ≡ none)
  unfolding list_push
  push_room (n, l) k e h r = ground arith

  push_full :
      (c : ListCache K V) (k : K) (e : V)
      → lookup dec k c.1 ≡ none
      → length c.1 ≡ c.0
      → ((list_push c k e).0.1 ≡ (k, e) ∷ drop_last c.1) × ((list_push c k e).1 ≡ last? c.1)
  unfolding list_push
  push_full (n, l) k e h r = ground arith

  push_cap : (c : ListCache K V) (k : K) (e : V) → (list_push c k e).0.0 ≡ c.0
  unfolding list_push
  push_cap (n, l) k e = ground arith

  pub list_laws : LruLaws dec list_lru
  list_laws = record {
    create_cap = λ n. refl;
    create_iter = λ n. refl;
    peek_lem = λ c k. refl;
    get_value = λ c k. refl;
    get_iter = λ c k. refl;
    get_cap = λ c k. refl;
    pop_value = λ c k. refl;
    pop_iter = λ c k. refl;
    pop_cap = λ c k. refl;
    push_room = push_room;
    push_full = push_full;
    push_cap = push_cap;
    pop_lru_value = λ c. refl;
    pop_lru_iter = λ c. refl;
    pop_lru_cap = λ c. refl;
  }
