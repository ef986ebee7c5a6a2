-- ===== src/Template.antt =====
-- pallets/template/src/lib.rs: one optional number in storage, written by `do_something` and
-- counted up by `cause_error`.
pub mod Calls
pub mod Laws
pub mod Benchmarks
pub mod Mock
mod Tests
use substrate_kitties.Prelude.{
  ℕ, ◌+◌, ◌-◌, ◌^◌, ltb, if◌then◌else◌, List, [], ◌∷◌, ◌++◌, Option, none, some,
}
use substrate_kitties.Frame.{
  Origin, Action, pure, raise, gets, ok_or, ◌>>=◌, ◌>>◌, modify, ensure_signed, module_error,
}

pub data Event (AccountId : Type 0) : Type 0 where
  something_stored : ℕ → AccountId → Event AccountId

pub data Error : Type 0 where
  none_value storage_overflow : Error

-- `Something`, and what was handed to `deposit_event`, oldest first.
pub record State (AccountId : Type 0) : Type 0 where
  pub something : Option ℕ
  pub events : List (Event AccountId)

abbrev pub u32_max : ℕ
u32_max = 2 ^ 32 - 1

-- `u32::checked_add(1)`
abbrev pub checked_suc : ℕ → Option ℕ
checked_suc n = if ltb n u32_max then some (n + 1) else none

module _ {A : Type 0} where
  abbrev put : ℕ → Action (State A) Error (Unit {0})
  put n = modify (λ s. record s { something = some n })

  unfoldable pub do_something : Origin A → ℕ → Action (State A) Error (Unit {0})
  do_something origin something = do
    who ← ensure_signed origin
    put something
    modify (λ s. record s { events = s.events ++ (something_stored something who ∷ []) })

  -- The `match` of `cause_error` on the value read.
  abbrev bump : Option ℕ → Action (State A) Error (Unit {0})
  bump none = raise (module_error none_value)
  bump (some old) = do new ← ok_or (checked_suc old) storage_overflow; put new

  unfoldable pub cause_error : Origin A → Action (State A) Error (Unit {0})
  cause_error origin = do _ ← ensure_signed origin; old ← gets (λ s. s.something); bump old
