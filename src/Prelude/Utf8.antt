-- ===== src/Prelude/Utf8.antt =====
-- UTF-8, as the standard library checks and repairs it (`String::from_utf8` and `to_string_lossy`).
use Prim.Native.Nat.{ℕ, zero, suc}
use mathlib.Core.Bool.{Bool, false, ◌&&◌}
use mathlib.Core.List.{[], ◌∷◌, ◌++◌}
use mathlib.Core.Option.{Option, none, some}
use hdfs_s3_gateway.Prelude.Tests.{ltb, leb, ◌==◌, if◌then◌else◌}
use hdfs_s3_gateway.Prelude.Text.{Bytes}

-- The bytes that may follow in a UTF-8 sequence: how many, and the bounds of the next.
abbrev pub Pending : Type 0
Pending = ℕ × ℕ × ℕ

abbrev within : ℕ → ℕ → ℕ → Bool
within lo b hi = leb lo b && leb b hi

-- The state behind a first byte (RFC 3629).
unfoldable pub utf8_first : ℕ → Option Pending
utf8_first b =
    if ltb b 0x80
    then some (0, 0x80, 0xBF)
    else if within 0xC2 b 0xDF
    then some (1, 0x80, 0xBF)
    else if b == 0xE0
    then some (2, 0xA0, 0xBF)
    else if b == 0xED
    then some (2, 0x80, 0x9F)
    else if within 0xE1 b 0xEF
    then some (2, 0x80, 0xBF)
    else if b == 0xF0
    then some (3, 0x90, 0xBF)
    else if within 0xF1 b 0xF3
    then some (3, 0x80, 0xBF)
    else if b == 0xF4
    then some (3, 0x80, 0x8F)
    else none

unfoldable pub utf8_step : Pending → ℕ → Option Pending
unfolding utf8_first
utf8_step (zero, lo, hi) b = utf8_first b
utf8_step (suc n, lo, hi) b = if within lo b hi then some (n, 0x80, 0xBF) else none

unfoldable pub utf8_from : Pending → Bytes → Bool
unfolding utf8_step
utf8_from (n, lo, hi) [] = n == 0
utf8_from p (b ∷ s) = elim (utf8_step p b) [ none ↦ false | some q ↦ utf8_from q s ]

-- `String::from_utf8(bytes).ok()`
unfoldable pub from_utf8 : Bytes → Option Bytes
unfolding utf8_from
from_utf8 s = if utf8_from (0, 0x80, 0xBF) s then some s else none

-- U+FFFD
abbrev replacement : Bytes
replacement = 0xEF ∷ 0xBF ∷ 0xBD ∷ []

abbrev start : Pending
start = (0, 0x80, 0xBF)

-- `to_string_lossy`: what is no UTF-8 is replaced, behind the bytes of a sequence that is not complete.
unfoldable pub lossy_from : Pending → Bytes → Bytes → Bytes
unfolding utf8_step
lossy_from p [] [] = []
lossy_from p (c ∷ partial) [] = replacement
lossy_from p partial (b ∷ s) = elim (utf8_step p b) [
  | some (zero, lo, hi) ↦ (partial ++ (b ∷ [])) ++ lossy_from start [] s
  | some (suc n, lo, hi) ↦ lossy_from (suc n, lo, hi) (partial ++ (b ∷ [])) s
  | none ↦ elim partial [
    | [] ↦ replacement ++ lossy_from start [] s
    | c ∷ cs ↦ elim (utf8_first b) [
      | none ↦ replacement ++ (replacement ++ lossy_from start [] s)
      | some (zero, lo, hi) ↦ replacement ++ (b ∷ lossy_from start [] s)
      | some (suc n, lo, hi) ↦ replacement ++ lossy_from (suc n, lo, hi) (b ∷ []) s
    ]
  ]
]

unfoldable pub to_string_lossy : Bytes → Bytes
unfolding lossy_from
to_string_lossy s = lossy_from start [] s
