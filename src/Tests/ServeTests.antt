-- ===== src/Tests/ServeTests.antt =====
-- The accept loop and its drain, with connections that are done at known times.
use hdfs_s3_gateway.Prelude.{
  ℕ, ◌*◌, ◌≤◌, ◌≡◌, ◌⊎◌, ◌==◌, refl, ap, ◌∙◌, inl, inr, leb, Bool-cases, max, min, if◌then◌else◌,
  Option, none, some, List, [], ◌∷◌, All, arith,
}
use hdfs_s3_gateway.Server.{
  Event, accepted, accept_failed, shutdown, ServeApi, ServeLaws, IsDoneBy, watch_all, accepting,
  returned, serve,
}
use hdfs_s3_gateway.Server.Drain.{connections, IsSignal, Drains, serve-Returns}

-- Connections that are done after so many seconds; those of number 7 never are.
abbrev done_at : ℕ → Option ℕ
done_at n = if n == 7 then none else some (n * 1000)

latest : Option ℕ → Option ℕ → Option ℕ
latest none b = none
latest (some a) none = none
latest (some a) (some b) = some (max a b)

earliest : Option ℕ → Option ℕ → Option ℕ
earliest none b = b
earliest (some a) none = some a
earliest (some a) (some b) = some (min a b)

-- A graceful shutdown is the time by which all of its connections are done.
abbrev timed : ServeApi
timed = record {
  Conn = ℕ;
  GracefulShutdown = Option ℕ;
  create = some 0;
  watch = λ graceful c. latest graceful (done_at c);
  graceful_shutdown = λ graceful. graceful;
  sleep = λ millis. millis;
  select = earliest;
}

latest-cases :
    (a b : Option ℕ) (t : ℕ)
    → latest a b ≡ some t
    → (u : ℕ) × (v : ℕ) × (a ≡ some u) × (b ≡ some v) × (u ≤ t) × (v ≤ t)
unfolding latest
latest-cases none b t h = absurd (ground (arith, h))
latest-cases (some u) none t h = absurd (ground (arith, h))
latest-cases (some u) (some v) t h =
    let e : max u v ≡ t = ground (arith, h) in
    (u, v, refl, refl, omega (arith, e), omega (arith, e))

watched_done :
    (conns : List ℕ) (graceful : Option ℕ) (t : ℕ)
    → watch_all timed graceful conns ≡ some t
    → ((u : ℕ) × (graceful ≡ some u) × (u ≤ t)) × All (IsDoneBy done_at t) conns
watched_done [] graceful t h = ((t, h, omega arith), tt)
watched_done (c ∷ conns) graceful t h =
    let ((w, both, before), rest) = watched_done conns (latest graceful (done_at c)) t h in
    let (u, v, is_u, is_v, le_u, le_v) = latest-cases graceful (done_at c) w both in
    ((u, is_u, omega (arith, le_u, before)), ((v, is_v, omega (arith, le_v, before)), rest))

watched_ends :
    (conns : List ℕ) (u limit : ℕ)
    → u ≤ limit
    → All (IsDoneBy done_at limit) conns
    → (t : ℕ) × (watch_all timed (some u) conns ≡ some t) × (t ≤ limit)
unfolding latest
watched_ends [] u limit h all = (u, refl, h)
watched_ends (c ∷ conns) u limit h ((v, e, le), all) =
    let (t, ready, by) = watched_ends conns (max u v) limit (omega (arith, h, le)) all in
    (t, ap (λ o. watch_all timed (latest (some u) o) conns) e ∙ ready, by)

earliest-either : (a b : Option ℕ) (t : ℕ) → earliest a b ≡ some t → (a ≡ some t) ⊎ (b ≡ some t)
unfolding earliest
earliest-either none b t h = inr h
earliest-either (some a) none t h = inl h
earliest-either (some a) (some b) t h = elim (Bool-cases (leb a b)) [
  | inl le ↦ inl (ground (arith, h, le))
  | inr gt ↦ inr (ground (arith, h, gt))
]

earliest_left : (b : Option ℕ) (s : ℕ) → (t : ℕ) × (earliest (some s) b ≡ some t) × (t ≤ s)
unfolding earliest
earliest_left none s = (s, refl, omega arith)
earliest_left (some b) s = (min s b, refl, omega arith)

earliest_right : (a : Option ℕ) (s : ℕ) → (t : ℕ) × (earliest a (some s) ≡ some t) × (t ≤ s)
unfolding earliest
earliest_right none s = (s, refl, omega arith)
earliest_right (some a) s = (min a s, refl, omega arith)

timed_laws : ServeLaws timed
timed_laws = record {
  done_at = done_at;
  shutdown_waits = λ conns t h. (watched_done conns (some 0) t h).1;
  shutdown_ends = λ conns limit all. watched_ends conns 0 limit (omega arith) all;
  sleep_lasts = λ millis. omega arith;
  select_either = earliest-either;
  select_left = earliest_left;
  select_right = earliest_right;
}

abbrev events : List (Event ℕ)
events = accepted 1 ∷ accept_failed ∷ accepted 3 ∷ []

serve_events :
    serve timed (accepted 1 ∷ accepted 3 ∷ shutdown ∷ accepted 5 ∷ [])
    ≡ returned (1 ∷ 3 ∷ []) (some 3_000)
unfolding serve latest earliest
serve_events = refl

serve_stuck : serve timed (accepted 7 ∷ shutdown ∷ []) ≡ returned (7 ∷ []) (some 10_000)
unfolding serve latest earliest
serve_stuck = refl

no-IsSignal : All (λ e. ¬ IsSignal e) events
unfolding IsSignal
no-IsSignal = (λ h. h, (λ h. h, (λ h. h, tt)))

serve-Returns_example :
    (wait : ℕ) × (serve timed (accepted 1 ∷ accept_failed ∷ accepted 3 ∷ shutdown ∷ accepted 5 ∷ [])
      ≡ returned (connections events) (some wait))
    × Drains timed timed_laws (connections events) wait
    × (serve timed events
        ≡ accepting (connections events) (watch_all timed timed.create (connections events)))
serve-Returns_example = serve-Returns timed timed_laws events (accepted 5 ∷ []) no-IsSignal
