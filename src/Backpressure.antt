-- ===== src/Backpressure.antt =====
-- The cap on requests in flight (src/s3/backpressure.rs).
pub mod InFlight
use hdfs_s3_gateway.Prelude.{
  ℕ, suc, ◌+◌, max, ◌≡◌, Bool, true, false, if◌then◌else◌, Option, none, some, List, [], ◌∷◌, ◌++◌,
}

-- What the service uses of `tokio::sync::Semaphore`. A permit is not a value here: acquiring takes
-- one from the semaphore, and dropping the `OwnedSemaphorePermit` gives it back.
pub record SemaphoreApi : Type 1 where
  pub Semaphore : Type 0
  pub create : ℕ → Semaphore
  pub available_permits : Semaphore → ℕ
  -- `try_acquire_owned`: the semaphore without one permit, or `none` for an error.
  pub try_acquire : Semaphore → Option Semaphore
  pub drop_permit : Semaphore → Semaphore

-- The documented behaviour of a semaphore that is never closed.
pub record SemaphoreLaws (api : SemaphoreApi) : Type 0 where
  pub create_permits : (n : ℕ) → api.available_permits (api.create n) ≡ n
  pub acquired :
      (s t : api.Semaphore)
      → api.try_acquire s ≡ some t
      → api.available_permits s ≡ suc (api.available_permits t)
  pub refused : (s : api.Semaphore) → api.try_acquire s ≡ none → api.available_permits s ≡ 0
  pub dropped :
      (s : api.Semaphore)
      → api.available_permits (api.drop_permit s) ≡ suc (api.available_permits s)

-- A request in flight: the inner service works on it and the future holds the permit, or its body
-- is streamed and `PermitBody::permit` is some permit or none.
pub data Phase : Type 0 where
  handling : Phase
  streaming : Bool → Phase

-- `Poll<Option<Result<..>>>` of the inner body, without the frames' contents.
pub data Polled : Type 0 where
  pending : Polled
  frame : Polled
  failed : Polled
  finished : Polled

-- `matches!(result, Poll::Ready(None))`
unfoldable pub is_finished : Polled → Bool
is_finished Polled.finished = true
is_finished Polled.failed = false
is_finished Polled.frame = false
is_finished Polled.pending = false

module _ (api : SemaphoreApi) where
  -- The semaphore, and what the bodies hold.
  pub record State : Type 0 where
    pub sem : api.Semaphore
    pub requests : List Phase

  -- `BackpressureService::new`
  unfoldable pub new : ℕ → State
  new max_concurrent = record { sem = api.create (max max_concurrent 1); requests = [] }

  -- `BackpressureService::call`, and whether the request is admitted: otherwise it is answered with
  -- `slow_down_response`.
  unfoldable pub call : State → State × Bool
  call s = elim (api.try_acquire s.sem) [
    | some sem ↦ (record { sem = sem; requests = handling ∷ s.requests }, true)
    | none ↦ (s, false)
  ]

  -- `PermitBody::release`
  unfoldable pub release : api.Semaphore → Bool → api.Semaphore × Bool
  release sem permit = (if permit then api.drop_permit sem else sem, false)

  -- `PermitBody::poll_frame`
  unfoldable pub poll_frame : Polled → api.Semaphore → Bool → api.Semaphore × Bool
  unfolding is_finished release
  poll_frame result sem permit = if is_finished result then release sem permit else (sem, permit)

  -- One step of the service: a request comes in, the inner service answers it or fails (or the
  -- connection drops the future), a body is polled, a body is dropped.
  pub data Step (s : State) : State → Type 0 where
    admit : Step s (call s).0
    answer :
        (a b : List Phase)
        → s.requests ≡ a ++ (handling ∷ b)
        → Step s (record { sem = s.sem; requests = a ++ (streaming true ∷ b) })
    fail :
        (a b : List Phase)
        → s.requests ≡ a ++ (handling ∷ b)
        → Step s (record { sem = api.drop_permit s.sem; requests = a ++ b })
    poll :
        (a b : List Phase) (permit : Bool) (result : Polled)
        → s.requests ≡ a ++ (streaming permit ∷ b)
        → Step s (record {
          sem = (poll_frame result s.sem permit).0;
          requests = a ++ (streaming (poll_frame result s.sem permit).1 ∷ b);
        })
    drop :
        (a b : List Phase) (permit : Bool)
        → s.requests ≡ a ++ (streaming permit ∷ b)
        → Step s (record { sem = (release s.sem permit).0; requests = a ++ b })

  pub data Reach (max_concurrent : ℕ) : State → Type 0 where
    start : Reach max_concurrent (new max_concurrent)
    later : {s t : State} → Reach max_concurrent s → Step s t → Reach max_concurrent t
