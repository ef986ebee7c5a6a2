-- ===== src/Runtime/Dispatch.antt =====
-- The calls of the runtime: `construct_runtime!` of runtime/src/lib.rs hands each to its pallet.
use substrate_kitties.Prelude.{Option, none, some}
use substrate_kitties.Frame.{Origin, bad_origin, module_error, external, Result, ok, err, Action}
use substrate_kitties.Template
use substrate_kitties.Template.Calls as TemplateCalls
use substrate_kitties.Kitties.Types
use substrate_kitties.Kitties.State
use substrate_kitties.Kitties.Calls
use substrate_kitties.Kitties.Unsigned
use substrate_kitties.Kitties.Config.{Config, Context}
use substrate_kitties.Runtime.Pallets.{
  Foreign, ModuleError, of_template, of_kitties, Storage, RuntimeCall, template_call, kitties_call,
  foreign_call,
}

-- The error of a pallet as an error of the runtime.
abbrev pub relabel : {E A : Type 0} → (E → ModuleError) → Result E A → Result ModuleError A
relabel f (ok a) = ok a
relabel f (err bad_origin) = err bad_origin
relabel f (err (module_error e)) = err (module_error (f e))
relabel f (err (external n)) = err (external n)

-- What `validate_unsigned` of the runtime ends with: the answer of a pallet, or
-- `UnknownTransaction::NoUnsignedValidator`.
pub data RuntimeValidity : Type 0 where
  answered : Unsigned.Validity → RuntimeValidity
  no_unsigned_validator : RuntimeValidity

-- The pallets of other repositories: their storage and calls. A call may change any storage.
pub record Others (T : Config) : Type 1 where
  pub Kept : Type 0
  pub Call : Foreign → Type 0
  pub dispatch :
      (p : Foreign) → Call p → Origin T.AccountId → Action (Storage T Kept) ModuleError (Unit {0})

module _ (T : Config) (O : Others T) where
  open T use {AccountId}

  abbrev pub Whole : Type 0
  Whole = Storage T O.Kept

  abbrev pub in_kitties :
      {A : Type 0} → Action (State.State T) Types.Error A → Action Whole ModuleError A
  in_kitties m s = let (r, k) = m s.kitties in (relabel of_kitties r, record s { kitties = k })

  abbrev pub in_template :
      {A : Type 0} → Action (Template.State AccountId) Template.Error A → Action Whole ModuleError A
  in_template m s = let (r, t) = m s.template in (relabel of_template r, record s { template = t })

  unfoldable pub dispatch :
      Context
      → RuntimeCall AccountId O.Call
      → Origin AccountId
      → Action Whole ModuleError (Unit {0})
  dispatch ctx (template_call c) origin = in_template (TemplateCalls.dispatch c origin)
  dispatch ctx (kitties_call c) origin = in_kitties (Calls.dispatch T ctx c origin)
  dispatch ctx (foreign_call p c) origin = O.dispatch p c origin

  -- `ValidateUnsigned` of the runtime. `none` is a panic.
  unfoldable pub validate_unsigned :
      RuntimeCall AccountId O.Call → Whole → Option (RuntimeValidity × Whole)
  validate_unsigned (kitties_call c) s = elim (Unsigned.validate_unsigned T c s.kitties) [
    | none ↦ none
    | some (v, k) ↦ some (answered v, record s { kitties = k })
  ]
  validate_unsigned (template_call c) s = some (no_unsigned_validator, s)
  validate_unsigned (foreign_call p c) s = some (no_unsigned_validator, s)
