-- ===== src/Runtime/Laws.antt =====
-- The runtime's dispatch of calls and its validation of unsigned transactions.
use substrate_kitties.Prelude.{List, [], ◌∷◌, ◌≡◌, Bool, false, arith}
use substrate_kitties.Frame.{Origin, bad_origin, Action, err}
use substrate_kitties.Template.Calls as TemplateCalls
use substrate_kitties.Template
use substrate_kitties.Kitties.Types
use substrate_kitties.Kitties.Calls
use substrate_kitties.Kitties.Refusals.{is_signed, takes}
use substrate_kitties.Kitties.Config.{Config, Context}
use substrate_kitties.Runtime.Pallets.{ModuleError, template_call, kitties_call}
use substrate_kitties.Runtime.Dispatch.{Others, Whole, dispatch}

module _ {T : Config} (O : Others T) where
  open T use {AccountId}

  -- A call of one of the two pallets of this repository, with its block and its origin.
  pub data Request : Type 0 where
    to_template : Context → TemplateCalls.Call → Origin AccountId → Request
    to_kitties : Context → Types.Call AccountId → Origin AccountId → Request

  abbrev pub send : Request → Action (Whole T O) ModuleError (Unit {0})
  send (to_template ctx c origin) = dispatch T O ctx (template_call c) origin
  send (to_kitties ctx c origin) = dispatch T O ctx (kitties_call c) origin

  -- The storage after the requests, in their order, whatever each of them returns.
  abbrev pub after : List Request → Whole T O → Whole T O
  after [] s = s
  after (r ∷ rs) s = after rs (send r s).1

  -- Whether the call takes its origin: an account's signature, or none for `auto_breed`.
  abbrev pub suits : Request → Bool
  suits (to_template ctx c origin) = is_signed origin
  suits (to_kitties ctx c origin) = takes c origin

  -- A call of the two pallets under an origin that it does not take, be it the root origin of Sudo,
  -- fails with `BadOrigin` and changes no storage.
  pub send-refused :
      (r : Request) (s : Whole T O) → suits r ≡ false → send r s ≡ (err bad_origin, s)
  unfolding dispatch TemplateCalls.dispatch Calls.dispatch Template.do_something
      Template.cause_error Calls.create Calls.breed Calls.transfer Calls.set_price Calls.buy
      Calls.auto_breed
  send-refused (to_template ctx TemplateCalls.cause_error origin) s h = ground arith
  send-refused (to_template ctx (TemplateCalls.do_something n) origin) s h = ground arith
  send-refused (to_kitties ctx Types.Call.create origin) s h = ground arith
  send-refused (to_kitties ctx (Types.Call.breed k1 k2) origin) s h = ground arith
  send-refused (to_kitties ctx (Types.Call.transfer to k) origin) s h = ground arith
  send-refused (to_kitties ctx (Types.Call.set_price k price) origin) s h = ground arith
  send-refused (to_kitties ctx (Types.Call.buy owner k max_price) origin) s h = ground arith
  send-refused (to_kitties ctx (Types.Call.auto_breed k1 k2 nonce solution) origin) s h =
      ground arith
