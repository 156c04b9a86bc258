-- ===== src/Backpressure/InFlight.antt =====
-- At most the configured number of requests is in flight (src/s3/backpressure.rs).
use hdfs_s3_gateway.Prelude.{
  ℕ, zero, suc, ◌+◌, ◌≤◌, max, ◌≡◌, refl, sym, ap, ◌∙◌, Bool, true, false, not, ◌&&◌, if◌then◌else◌,
  map, length, Option, none, some, List, [], ◌∷◌, ◌++◌, arith, ◌↔◌,
}
use hdfs_s3_gateway.Backpressure.{
  SemaphoreApi, SemaphoreLaws, Phase, handling, streaming, Polled, is_finished, State, new, call,
  release, poll_frame, Step, Reach,
}

-- Whether a request holds a permit: until its body has been streamed to the end.
abbrev pub permits_of : Phase → ℕ
permits_of handling = 1
permits_of (streaming true) = 1
permits_of (streaming false) = 0

abbrev pub in_flight : List Phase → ℕ
in_flight [] = 0
in_flight (p ∷ ps) = permits_of p + in_flight ps

-- Whether a request holds a permit.
abbrev pub holds : Phase → Bool
holds handling = true
holds (streaming permit) = permit

-- Whether a body has ended with this answer to a poll.
abbrev pub is_end : Polled → Bool
is_end Polled.pending = false
is_end Polled.frame = false
is_end Polled.failed = false
is_end Polled.finished = true

-- The list with what comes in place of the element at a position.
abbrev pub edit : ℕ → (Bool → List Bool) → List Bool → List Bool
edit n f [] = []
edit zero f (x ∷ xs) = f x ++ xs
edit (suc n) f (x ∷ xs) = x ∷ edit n f xs

edit-map :
    (a b : List Phase) (p q : Phase) (f : Bool → List Bool)
    → f (holds p) ≡ holds q ∷ []
    → edit (length a) f (map holds (a ++ (p ∷ b))) ≡ map holds (a ++ (q ∷ b))
edit-map [] b p q f h = ap (◌++ map holds b) h
edit-map (x ∷ a) b p q f h = ap (holds x ∷◌) (edit-map a b p q f h)

edit-map_cut :
    (a b : List Phase) (p : Phase)
    → edit (length a) (λ o. []) (map holds (a ++ (p ∷ b))) ≡ map holds (a ++ b)
edit-map_cut [] b p = refl
edit-map_cut (x ∷ a) b p = ap (holds x ∷◌) (edit-map_cut a b p)

in_flight-append : (a b : List Phase) → in_flight (a ++ b) ≡ in_flight a + in_flight b
in_flight-append [] b = omega arith
in_flight-append (p ∷ a) b = omega (arith, in_flight-append a b)

module _ (api : SemaphoreApi) where
  -- Whose request is open after a step: one that is admitted is open until the inner service fails
  -- it, a poll of its body answers that it has ended, or its body is dropped.
  abbrev pub open_after : {s t : State api} → Step api s t → List Bool → List Bool
  open_after {s} Step.admit opens = if (call api s).1 then true ∷ opens else opens
  open_after (Step.answer a b e) opens = opens
  open_after (Step.fail a b e) opens = edit (length a) (λ o. []) opens
  open_after (Step.poll a b permit result e) opens =
      edit (length a) (λ o. (o && not (is_end result)) ∷ []) opens
  open_after (Step.drop a b permit e) opens = edit (length a) (λ o. []) opens

  -- Whose request is open, as the steps from the start tell.
  abbrev pub open_requests : {n : ℕ} {s : State api} → Reach api n s → List Bool
  open_requests Reach.start = []
  open_requests (Reach.later r step) = open_after step (open_requests r)

module _ (api : SemaphoreApi) (laws : SemaphoreLaws api) where
  -- Permits that are free, and permits that requests hold.
  abbrev total : api.Semaphore → List Phase → ℕ
  total sem rs = api.available_permits sem + in_flight rs

  release-total :
      (sem : api.Semaphore) (permit : Bool)
      → api.available_permits (release api sem permit).0
        ≡ api.available_permits sem + permits_of (streaming permit)
  unfolding release
  release-total sem true = omega (arith, laws.dropped sem)
  release-total sem false = omega arith

  poll_frame-total :
      (result : Polled) (sem : api.Semaphore) (permit : Bool)
      → api.available_permits (poll_frame api result sem permit).0
          + permits_of (streaming (poll_frame api result sem permit).1)
        ≡ api.available_permits sem + permits_of (streaming permit)
  unfolding poll_frame is_finished release
  poll_frame-total Polled.pending sem permit = refl
  poll_frame-total Polled.frame sem permit = refl
  poll_frame-total Polled.failed sem permit = refl
  poll_frame-total Polled.finished sem permit = omega (arith, release-total sem permit)

  called : (s : State api) → Option api.Semaphore → State api × Bool
  called s o = elim o [
    | some sem ↦ (record { sem = sem; requests = handling ∷ s.requests }, true)
    | none ↦ (s, false)
  ]

  called-total :
      (s : State api) (o : Option api.Semaphore)
      → api.try_acquire s.sem ≡ o
      → total (called s o).0.sem (called s o).0.requests ≡ total s.sem s.requests
  unfolding called
  called-total s none e = refl
  called-total s (some sem) e = omega (arith, laws.acquired s.sem sem e)

  call-total :
      (s : State api) → total (call api s).0.sem (call api s).0.requests ≡ total s.sem s.requests
  unfolding call called
  call-total s = called-total s (api.try_acquire s.sem) refl

  held :
      (s : State api) (a b : List Phase) (p : Phase)
      → s.requests ≡ a ++ (p ∷ b)
      → in_flight s.requests ≡ in_flight a + (permits_of p + in_flight b)
  held s a b p e = ap in_flight e ∙ in_flight-append a (p ∷ b)

  Step-total : (s t : State api) → Step api s t → total t.sem t.requests ≡ total s.sem s.requests
  Step-total s t Step.admit = call-total s
  Step-total s t (Step.answer a b e) =
      omega (arith, held s a b handling e, in_flight-append a (streaming true ∷ b))
  Step-total s t (Step.fail a b e) =
      omega (arith, held s a b handling e, in_flight-append a b, laws.dropped s.sem)
  Step-total s t (Step.poll a b permit result e) =
      let (sem, kept) = poll_frame api result s.sem permit in
      omega (
        arith,
        held s a b (streaming permit) e,
        in_flight-append a (streaming kept ∷ b),
        poll_frame-total result s.sem permit,
      )
  Step-total s t (Step.drop a b permit e) =
      omega
        (arith, held s a b (streaming permit) e, in_flight-append a b, release-total s.sem permit)

  Reach-total : (n : ℕ) (s : State api) → Reach api n s → total s.sem s.requests ≡ max n 1
  Reach-total n s Reach.start = unfold new in omega (arith, laws.create_permits (max n 1))
  Reach-total n t (Reach.later {s} r step) = Step-total s t step ∙ Reach-total n s r

  called-holds :
      (s : State api) (o : Option api.Semaphore)
      → (if (called s o).1 then true ∷ map holds s.requests else map holds s.requests)
        ≡ map holds (called s o).0.requests
  unfolding called
  called-holds s none = refl
  called-holds s (some sem) = refl

  call-holds :
      (s : State api)
      → (if (call api s).1 then true ∷ map holds s.requests else map holds s.requests)
        ≡ map holds (call api s).0.requests
  unfolding call called
  call-holds s = called-holds s (api.try_acquire s.sem)

  poll_frame-holds :
      (result : Polled) (sem : api.Semaphore) (permit : Bool)
      → (permit && not (is_end result)) ≡ (poll_frame api result sem permit).1
  unfolding poll_frame is_finished release
  poll_frame-holds Polled.pending sem permit = ground arith
  poll_frame-holds Polled.frame sem permit = ground arith
  poll_frame-holds Polled.failed sem permit = ground arith
  poll_frame-holds Polled.finished sem permit = ground arith

  Step-holds :
      (s t : State api) (step : Step api s t)
      → open_after api step (map holds s.requests) ≡ map holds t.requests
  Step-holds s t Step.admit = call-holds s
  Step-holds s t (Step.answer a b e) =
      ap (map holds) e
      ∙ sym (edit-map a b handling handling (λ o. o ∷ []) refl)
      ∙ edit-map a b handling (streaming true) (λ o. o ∷ []) refl
  Step-holds s t (Step.fail a b e) =
      ap (λ l. edit (length a) (λ o. []) (map holds l)) e ∙ edit-map_cut a b handling
  Step-holds s t (Step.poll a b permit result e) =
      let f : Bool → List Bool = λ o. (o && not (is_end result)) ∷ [] in
      ap (λ l. edit (length a) f (map holds l)) e
      ∙ edit-map a b (streaming permit) (streaming (poll_frame api result s.sem permit).1) f
          (ap (◌∷ []) (poll_frame-holds result s.sem permit))
  Step-holds s t (Step.drop a b permit e) =
      ap (λ l. edit (length a) (λ o. []) (map holds l)) e ∙ edit-map_cut a b (streaming permit)

  open_requests-holds :
      (n : ℕ) (s : State api) (r : Reach api n s) → open_requests api r ≡ map holds s.requests
  open_requests-holds n s Reach.start = unfold new in refl
  open_requests-holds n t (Reach.later {s} r step) =
      ap (open_after api step) (open_requests-holds n s r) ∙ Step-holds s t step

  -- In every reachable state, no more requests hold a permit than the configured number, or one if that is
  -- zero; and the requests that hold one are exactly the open ones, those that were admitted and that
  -- the inner service has not failed, of whose body no poll has answered that it has ended, and whose
  -- body is not dropped.
  pub in_flight_bounded :
      (max_concurrent : ℕ) (s : State api) (r : Reach api max_concurrent s)
      → (in_flight s.requests ≤ max max_concurrent 1) × (open_requests api r ≡ map holds s.requests)
  in_flight_bounded n s r = (omega (arith, Reach-total n s r), open_requests-holds n s r)

  called_admitted :
      (s : State api) (o : Option api.Semaphore)
      → api.try_acquire s.sem ≡ o
      → ((called s o).1 ≡ true) ↔ (1 ≤ api.available_permits s.sem)
  unfolding called
  called_admitted s none e =
      (λ h. absurd (ground (arith, h)), λ h. absurd (omega (arith, h, laws.refused s.sem e)))
  called_admitted s (some sem) e = (λ h. omega (arith, laws.acquired s.sem sem e), λ h. refl)

  -- In a reachable state a request is admitted exactly when fewer than that many hold a permit; otherwise it is answered
  -- with SlowDown.
  pub call_admits :
      (max_concurrent : ℕ) (s : State api)
      → Reach api max_concurrent s
      → ((call api s).1 ≡ true) ↔ (suc (in_flight s.requests) ≤ max max_concurrent 1)
  unfolding call called
  call_admits n s r =
      let (to, back) = called_admitted s (api.try_acquire s.sem) refl in
      let all = Reach-total n s r in
      (λ h. omega (arith, to h, all), λ h. back (omega (arith, h, all)))
