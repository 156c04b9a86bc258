-- ===== src/Tests/BackpressureTests.antt =====
-- A cap of one request, over a semaphore that is a count.
use hdfs_s3_gateway.Prelude.{
  ℕ, zero, suc, ◌≤◌, max, ◌≡◌, ◌↔◌, refl, true, false, Option, none, some, [], ◌∷◌, map, arith,
}
use hdfs_s3_gateway.Backpressure.{
  SemaphoreApi, SemaphoreLaws, streaming, State, new, call, Step, Reach,
}
use hdfs_s3_gateway.Backpressure.InFlight.{
  in_flight, holds, open_requests, in_flight_bounded, call_admits,
}

pub take_permit : ℕ → Option ℕ
take_permit zero = none
take_permit (suc n) = some n

abbrev pub counter : SemaphoreApi
counter = record {
  Semaphore = ℕ;
  create = λ n. n;
  available_permits = λ n. n;
  try_acquire = take_permit;
  drop_permit = λ n. suc n;
}

counter_acquired : (s t : ℕ) → take_permit s ≡ some t → s ≡ suc t
unfolding take_permit
counter_acquired zero t h = absurd (ground (arith, h))
counter_acquired (suc n) t h = ground (arith, h)

counter_refused : (s : ℕ) → take_permit s ≡ none → s ≡ 0
unfolding take_permit
counter_refused zero h = refl
counter_refused (suc n) h = absurd (ground (arith, h))

pub counter_laws : SemaphoreLaws counter
counter_laws = record {
  create_permits = λ n. refl;
  acquired = counter_acquired;
  refused = counter_refused;
  dropped = λ n. refl;
}

-- One request came in and its body is streamed.
abbrev busy : State counter
busy = record { sem = 0; requests = streaming true ∷ [] }

busy-Reach : Reach counter 0 busy
unfolding new call take_permit
busy-Reach = Reach.later (Reach.later Reach.start Step.admit) (Step.answer [] [] refl)

busy_refuses : (call counter busy).1 ≡ false
unfolding call take_permit
busy_refuses = refl

in_flight_bounded_example :
    (in_flight busy.requests ≤ max 0 1)
    × (open_requests counter busy-Reach ≡ map holds busy.requests)
in_flight_bounded_example = in_flight_bounded counter counter_laws 0 busy busy-Reach

call_admits_example : ((call counter busy).1 ≡ true) ↔ (suc (in_flight busy.requests) ≤ max 0 1)
call_admits_example = call_admits counter counter_laws 0 busy busy-Reach
