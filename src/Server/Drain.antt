-- ===== src/Server/Drain.antt =====
-- The accept loop and its drain (serve of src/s3/server.rs).
use hdfs_s3_gateway.Prelude.{
  ℕ, ◌≤◌, ◌≡◌, ◌⊎◌, inl, inr, sym, ap, ◌∙◌, Option, some, List, [], ◌∷◌, ◌++◌, append_assoc,
  append-nil, All, arith,
}
use hdfs_s3_gateway.Server.{
  Event, accepted, accept_failed, shutdown, ServeApi, ServeLaws, IsDoneBy, watch_all, accepting,
  returned, serve_loop, serve,
}

-- The connections of some events.
unfoldable pub connections : {Conn : Type 0} → List (Event Conn) → List Conn
connections [] = []
connections (accepted c ∷ events) = c ∷ connections events
connections (accept_failed ∷ events) = connections events
connections (shutdown ∷ events) = connections events

unfoldable pub IsSignal : {Conn : Type 0} → Event Conn → Type 0
IsSignal (accepted c) = ⊥
IsSignal accept_failed = ⊥
IsSignal shutdown = Unit

module _ (api : ServeApi) where
  serve_loop-accepting :
      (spawned : List api.Conn) (graceful : api.GracefulShutdown) (events : List (Event api.Conn))
      → All (λ e. ¬ IsSignal e) events
      → serve_loop api spawned graceful events
        ≡ accepting (spawned ++ connections events) (watch_all api graceful (connections events))
  unfolding serve_loop connections IsSignal
  serve_loop-accepting spawned graceful [] h =
      ap (λ l. accepting l graceful) (sym (append-nil spawned))
  serve_loop-accepting spawned graceful (accepted c ∷ events) h =
      serve_loop-accepting (spawned ++ (c ∷ [])) (api.watch graceful c) events h.1
      ∙ ap (λ l. accepting l (watch_all api (api.watch graceful c) (connections events)))
          (append_assoc spawned (c ∷ []) (connections events))
  serve_loop-accepting spawned graceful (accept_failed ∷ events) h =
      serve_loop-accepting spawned graceful events h.1
  serve_loop-accepting spawned graceful (shutdown ∷ events) h = absurd (h.0 tt)

  -- When the drain ends that waits for this graceful shutdown.
  abbrev drained : api.GracefulShutdown → Option ℕ
  drained graceful = api.select (api.graceful_shutdown graceful) (some (api.sleep 10_000))

  serve_loop-returned :
      (spawned : List api.Conn) (graceful : api.GracefulShutdown)
      (before after : List (Event api.Conn))
      → All (λ e. ¬ IsSignal e) before
      → serve_loop api spawned graceful (before ++ (shutdown ∷ after))
        ≡ returned
            (spawned ++ connections before)
            (drained (watch_all api graceful (connections before)))
  unfolding serve_loop connections IsSignal
  serve_loop-returned spawned graceful [] after h =
      ap (λ l. returned l (drained graceful)) (sym (append-nil spawned))
  serve_loop-returned spawned graceful (accepted c ∷ events) after h =
      serve_loop-returned (spawned ++ (c ∷ [])) (api.watch graceful c) events after h.1
      ∙ ap (λ l. returned l (drained (watch_all api (api.watch graceful c) (connections events))))
          (append_assoc spawned (c ∷ []) (connections events))
  serve_loop-returned spawned graceful (accept_failed ∷ events) after h =
      serve_loop-returned spawned graceful events after h.1
  serve_loop-returned spawned graceful (shutdown ∷ events) after h = absurd (h.0 tt)

  module _ (laws : ServeLaws api) where
    -- What is known of the time that a drain of these connections takes.
    pub record Drains (conns : List api.Conn) (wait : ℕ) : Type 0 where
      pub is_bounded : wait ≤ api.sleep 10_000
      pub is_graceful : (10_000 ≤ wait) ⊎ All (IsDoneBy laws.done_at wait) conns
      pub is_prompt : (limit : ℕ) → All (IsDoneBy laws.done_at limit) conns → wait ≤ limit

    drained-Drains :
        (conns : List api.Conn)
        → (wait : ℕ) × (drained (watch_all api api.create conns) ≡ some wait) × Drains conns wait
    drained-Drains conns =
        let over = api.graceful_shutdown (watch_all api api.create conns) in
        let (wait, e, le) = laws.select_right over (api.sleep 10_000) in
        (
          wait,
          e,
          record {
            is_bounded = le;
            is_graceful = elim (laws.select_either over (some (api.sleep 10_000)) wait e) [
              | inl first ↦ inr (laws.shutdown_waits conns wait first)
              | inr late ↦ inl (ground (arith, laws.sleep_lasts 10_000, late))
            ];
            is_prompt = λ limit done.
                let (t, ready, by) = laws.shutdown_ends conns limit done in
                let alarm : Option ℕ = some (api.sleep 10_000) in
                let (u, first, earlier) = laws.select_left alarm t in
                let same : some wait ≡ some u =
                  sym e ∙ ap (λ o. api.select o alarm) ready ∙ first in
                ground (arith, same, by, earlier);
          },
        )

    -- The server returns once the shutdown signal is there and its drain is over, whatever comes after
    -- the signal: it serves exactly the connections that were accepted before the signal, in their
    -- order and whatever errors `accept` gave between them; its drain is over at the latest when the
    -- sleep of ten seconds is, before ten seconds only where all of these connections are done by
    -- then, and never later than they are. Without a signal it serves them and keeps accepting.
    pub serve-Returns :
        (before after : List (Event api.Conn))
        → All (λ e. ¬ IsSignal e) before
        → (wait : ℕ) × (serve api (before ++ (shutdown ∷ after))
            ≡ returned (connections before) (some wait))
          × Drains (connections before) wait
          × (serve api before
              ≡ accepting (connections before) (watch_all api api.create (connections before)))
    unfolding serve
    serve-Returns before after h =
        let (wait, e, drains) = drained-Drains (connections before) in
        (
          wait,
          serve_loop-returned [] api.create before after h ∙ ap (returned (connections before)) e,
          drains,
          serve_loop-accepting [] api.create before h,
        )
