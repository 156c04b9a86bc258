-- ===== src/Python/Logging.antt =====
-- The bridge of log lines into Python's `logging` (PyLogger, spawn_log_consumer, emit_line and
-- init_tracing of python/src/lib.rs).
pub mod Delivery
use hdfs_s3_gateway.Prelude.{
  ℕ, zero, suc, ◌+◌, ◌<◌, ◌≤◌, ◌≡◌, refl, sym, ap, ◌∙◌, Bool, true, false, not, ◌||◌, Bytes, lit,
  ◌=?◌, ◌==◌, if◌then◌else◌, Option, none, some, List, [], ◌∷◌, ◌++◌, append_assoc, append-nil,
  length, from_utf8, arith,
}

-- `PyLogger::write`: the channel's chunks after it, and the count that it answers with.
unfoldable pub write : Bytes → List Bytes → List Bytes × ℕ
write buf channel = elim (from_utf8 buf) [
  | some s ↦ (channel ++ (s ∷ []), length buf)
  | none ↦ (channel, length buf)
]

-- `pending.find('\n')` and `pending.drain(..=idx)`: the first line, and what is left of it.
unfoldable pub take_line : Bytes → Option (Bytes × Bytes)
take_line [] = none
take_line (c ∷ s) =
    let rest = take_line s in
    if c == b'\n'
    then some (c ∷ [], s)
    else elim rest [ none ↦ none | some (line, left) ↦ some (c ∷ line, left) ]

-- The loop over the complete lines of `pending`, on fuel: the lines, and what is pending after them.
unfoldable pub drain_lines : ℕ → Bytes → List Bytes × Bytes
unfolding take_line
drain_lines zero pending = ([], pending)
drain_lines (suc fuel) pending = elim (take_line pending) [
  | none ↦ ([], pending)
  | some (line, left) ↦ (line ∷ (drain_lines fuel left).0, (drain_lines fuel left).1)
]

-- `line.trim_end_matches(['\r', '\n'])`
unfoldable pub trim_end : Bytes → Bytes
trim_end [] = []
trim_end (c ∷ line) = elim (trim_end line) [
  | [] ↦ if (c == b'\r') || (c == b'\n') then [] else c ∷ []
  | d ∷ kept ↦ c ∷ d ∷ kept
]

-- The attempts of `emit_line` to attach to the interpreter, the next one having the number `tick`:
-- the number after them, and whether one of them succeeded.
unfoldable pub attach_within : (ℕ → Bool) → ℕ → ℕ → ℕ × Bool
attach_within try_attach zero tick = (tick, false)
attach_within try_attach (suc attempts) tick = elim (try_attach tick) [
  | true ↦ (suc tick, true)
  | false ↦ attach_within try_attach attempts (suc tick)
]

-- `emit_line`: the number of the next attempt, and the messages that the logger was given.
unfoldable pub emit_line : (ℕ → Bool) → Bool → Bytes → ℕ → ℕ × List Bytes
unfolding trim_end attach_within
emit_line try_attach has_logger line tick =
    let text = trim_end line in
    let (after, attached) = attach_within try_attach 50 tick in
    if text =? []
    then (tick, [])
    else if not has_logger
    then (tick, [])
    else (after, if attached then text ∷ [] else [])

unfoldable pub emit_lines : (ℕ → Bool) → Bool → List Bytes → ℕ → ℕ × List Bytes
unfolding emit_line
emit_lines try_attach has_logger [] tick = (tick, [])
emit_lines try_attach has_logger (line ∷ lines) tick =
    let first = emit_line try_attach has_logger line tick in
    let others = emit_lines try_attach has_logger lines first.0 in (others.0, first.1 ++ others.1)

-- The loop of `spawn_log_consumer` over the chunks that the channel delivers until it is closed.
unfoldable pub consume : (ℕ → Bool) → Bool → Bytes → List Bytes → ℕ → List Bytes
unfolding drain_lines emit_line emit_lines
consume try_attach has_logger pending [] tick =
    if pending =? [] then [] else (emit_line try_attach has_logger pending tick).1
consume try_attach has_logger pending (chunk ∷ chunks) tick =
    let text = pending ++ chunk in
    let (lines, left) = drain_lines (length text) text in
    let emitted = emit_lines try_attach has_logger lines tick in
    emitted.1 ++ consume try_attach has_logger left chunks emitted.0

-- `spawn_log_consumer`
unfoldable pub spawn_log_consumer : (ℕ → Bool) → Bool → List Bytes → List Bytes
unfolding consume
spawn_log_consumer try_attach has_logger chunks = consume try_attach has_logger [] chunks 0

-- Where the log goes.
pub data Subscriber : Type 0 where
  to_python : Bytes → Subscriber
  to_stderr : Bytes → Subscriber

-- `init_tracing`: what the process has installed before and after it. `env_filter` is the filter of
-- `RUST_LOG`, or nothing where it has none.
unfoldable pub init_tracing :
    Option Subscriber → Bool → Option Bytes → Option Bytes → Bytes → Option Subscriber
init_tracing installed has_env env_filter level target =
    let default_level : Option Bytes = if has_env then some (lit "info") else none in
    let level_str : Option Bytes = elim level [ some l ↦ some l | none ↦ default_level ] in
    elim level_str [
      | none ↦ installed
      | some l ↦
          let filter : Bytes = elim env_filter [ some f ↦ f | none ↦ l ] in
          elim installed [
            | some subscriber ↦ some subscriber
            | none ↦
                if target =? lit "python" then some (to_python filter) else some (to_stderr filter)
          ]
    ]
