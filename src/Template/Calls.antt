-- ===== src/Template/Calls.antt =====
-- The calls of pallets/template/src/lib.rs.
use substrate_kitties.Prelude.{ℕ}
use substrate_kitties.Frame.{Origin, Action}
use substrate_kitties.Template

pub data Call : Type 0 where
  do_something : ℕ → Call
  cause_error : Call

-- A call's dispatchable.
unfoldable pub dispatch :
    {A : Type 0} → Call → Origin A → Action (Template.State A) Template.Error (Unit {0})
dispatch (do_something something) origin = Template.do_something origin something
dispatch cause_error origin = Template.cause_error origin
