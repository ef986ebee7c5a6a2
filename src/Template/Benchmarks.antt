-- ===== src/Template/Benchmarks.antt =====
-- pallets/template/src/benchmarking.rs: the benchmark of `do_something`.
use substrate_kitties.Prelude.{ℕ, some, ◌≡◌, refl}
use substrate_kitties.Frame.{Origin, signed, Result, ok}
use substrate_kitties.Template.{State, Error, do_something}
use substrate_kitties.Template.Calls.{Call, dispatch}

-- `0 .. 100`, whose bounds frame_benchmarking both takes.
abbrev pub component_low : ℕ
component_low = 0

abbrev pub component_high : ℕ
component_high = 100

module _ {A : Type 0} where
  -- The call to be measured, with its origin; the caller is `whitelisted_caller()`.
  abbrev pub set_up : A → ℕ → Call × Origin A
  set_up caller s = (Call.do_something s, signed caller)

  -- The assertion after the call.
  abbrev pub Verify : ℕ → State A → Type 0
  Verify s state = state.something ≡ some s

  unfoldable pub measured : A → ℕ → State A → Result Error (Unit {0}) × State A
  measured caller s state = let (call, origin) = set_up caller s in dispatch call origin state

  -- Whatever is stored, the measured call succeeds for each value of the component, and the
  -- assertion holds after it.
  pub set_up-Verify :
      (caller : A) (s : ℕ) (state : State A)
      → ((measured caller s state).0 ≡ ok tt) × Verify s (measured caller s state).1
  unfolding measured dispatch do_something
  set_up-Verify caller s state = (refl, refl)
