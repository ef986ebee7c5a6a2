-- ===== src/Runtime/Chain.antt =====
-- The life of the storage of the runtime, runtime/src/lib.rs: genesis, then calls of the two pallets of
-- this repository, validations of unsigned transactions, and steps of the other pallets that write,
-- of what the two pallets see, the balances alone. That leaves out `set_storage`, `kill_storage` and
-- `kill_prefix` of System, which the root can call through Sudo and which write any storage.
use substrate_kitties.Prelude.{◌≤◌, ◌≡◌, Option-cases, none, some, inl, inr, arith}
use substrate_kitties.Template.{u32_max}
use substrate_kitties.Template.Calls as TemplateCalls
use substrate_kitties.Kitties.State
use substrate_kitties.Kitties.Unsigned
use substrate_kitties.Kitties.Config.{Config}
use substrate_kitties.Kitties.Genesis.{build}
use substrate_kitties.Kitties.Chain.{called, validated, paid, IsBlank, Reach, genesis}
use substrate_kitties.Kitties.Replays.{Steps, here, next, Reach-Steps, Steps-append}
use substrate_kitties.Runtime.Pallets.{RuntimeCall, template_call, kitties_call, foreign_call}
use substrate_kitties.Runtime.Dispatch.{Others, Whole, RuntimeValidity, dispatch, validate_unsigned}
use substrate_kitties.Runtime.Laws.{Request, to_template, to_kitties, send}

module _ {T : Config} (O : Others T) where
  open T use {AccountId}

  -- A step of another pallet that touches, of the states of the two pallets of this repository, the
  -- balances alone, which the kitties pallet sees as its currency. This is a condition on the
  -- histories considered: calls such as System's `set_storage` do not meet it.
  pub record Keeps (s s' : Whole T O) : Type 0 where
    pub kitties_kept : s'.kitties ≡ record s.kitties { currency = s'.kitties.currency }
    pub template_kept : s'.template ≡ s.template

  -- The argument of `do_something` is a `u32`.
  abbrev pub IsTyped : Request O → Type 0
  IsTyped (to_template ctx (TemplateCalls.do_something n) origin) = n ≤ u32_max
  IsTyped (to_template ctx TemplateCalls.cause_error origin) = Unit
  IsTyped (to_kitties ctx c origin) = Unit

  pub data Moves (s : Whole T O) : Whole T O → Type 0 where
    requested : (r : Request O) → IsTyped r → Moves s (send O r s).1
    checked :
        (c : RuntimeCall AccountId O.Call) {v : RuntimeValidity} {s' : Whole T O}
        → validate_unsigned T O c s ≡ some (v, s')
        → Moves s s'
    elsewhere : {s' : Whole T O} → Keeps s s' → Moves s s'

  pub data Lives : Whole T O → Type 0 where
    born :
        {s : State.State T} {g : Whole T O}
        → IsBlank T s
        → build T s ≡ some g.kitties
        → g.template.something ≡ none
        → Lives g
    moved : {s s' : Whole T O} → Lives s → Moves s s' → Lives s'

  -- Storages that a storage leads to by such steps.
  pub data Onward (s : Whole T O) : Whole T O → Type 0 where
    arrived : Onward s s
    onward : {t u : Whole T O} → Onward s t → Moves t u → Onward s u

  checked-Steps :
      (c : RuntimeCall AccountId O.Call) (s : Whole T O) {v : RuntimeValidity} {s' : Whole T O}
      → validate_unsigned T O c s ≡ some (v, s')
      → Steps T s.kitties s'.kitties
  unfolding validate_unsigned
  checked-Steps (template_call c) s {v} {s'} h =
      let same : s.kitties ≡ s'.kitties = ground arith in rw (← same) here
  checked-Steps (foreign_call p c) s {v} {s'} h =
      let same : s.kitties ≡ s'.kitties = ground arith in rw (← same) here
  checked-Steps (kitties_call c) s {v} {s'} h =
      elim (Option-cases (Unsigned.validate_unsigned T c s.kitties)) [
        | inl panics ↦ absurd (ground arith)
        | inr ((outcome, k), e) ↦
            let same : k ≡ s'.kitties = ground arith in rw (← same) (next here (validated c e))
      ]

  -- What a step of the runtime is to the kitties pallet: a step of its own, or none.
  pub Moves-Steps : {s s' : Whole T O} → Moves s s' → Steps T s.kitties s'.kitties
  unfolding dispatch
  Moves-Steps (requested (to_template ctx c origin) t) = here
  Moves-Steps (requested (to_kitties ctx c origin) t) = next here (called ctx c origin)
  Moves-Steps {s} (checked c h) = checked-Steps c s h
  Moves-Steps {s} {s'} (elsewhere k) = rw k.kitties_kept (next here (paid s'.kitties.currency))

  pub Onward-Steps : {s t : Whole T O} → Onward s t → Steps T s.kitties t.kitties
  Onward-Steps arrived = here
  Onward-Steps (onward p m) = Steps-append T (Onward-Steps p) (Moves-Steps m)

  -- The storage of the kitties pallet inside a storage that the runtime can reach is one that the
  -- pallet can reach on a chain of its own, where the other pallets write none of its storage but the
  -- balances.
  pub Lives-Reach : {s : Whole T O} → Lives s → Reach T s.kitties
  Lives-Reach (born b h n) = genesis b h
  Lives-Reach (moved l m) = Reach-Steps T (Lives-Reach l) (Moves-Steps m)
