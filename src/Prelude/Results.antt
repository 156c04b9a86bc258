-- ===== src/Prelude/Results.antt =====
-- Rust's `Result`, and its `?`.
use mathlib.Core.Path.{◌≡◌, refl}
use native.Mathlib.Omega.{arith}

-- The second type is that of errors.
pub data Result (T F : Type 0) : Type 0 where
  err : F → Result T F
  ok : T → Result T F

infixl 5 ◌>>=◌
-- What `?` hands on: the first error ends the chain.
abbrev pub ◌>>=◌ : {T U F : Type 0} → Result T F → (T → Result U F) → Result U F
err failure >>= rest = err failure
ok value >>= rest = rest value

-- Each step of a chain that succeeds has succeeded.
pub >>=-eq-ok :
    {T U F : Type 0} (step : Result T F) (rest : T → Result U F) {end : U}
    → (step >>= rest) ≡ ok end
    → (value : T) × (step ≡ ok value) × (rest value ≡ ok end)
>>=-eq-ok (err failure) rest h = absurd (ground (arith, h))
>>=-eq-ok (ok value) rest h = (value, refl, h)
