-- ===== src/Runtime/Pallets.antt =====
-- The `construct_runtime!` of runtime/src/lib.rs: the pallets with their parts, and the enums and
-- the storage that it makes of them.
use substrate_kitties.Prelude.{Bool, true, false, ◌||◌, List, [], ◌∷◌}
use substrate_kitties.Template
use substrate_kitties.Template.Calls as TemplateCalls
use substrate_kitties.Kitties.Types
use substrate_kitties.Kitties.State
use substrate_kitties.Kitties.Config.{Config}

pub data Part : Type 0 where
  pallet_part call_part config_part storage_part : Part
  event_part inherent_part validate_unsigned_part : Part

pub data Pallet : Type 0 where
  system randomness_collective_flip timestamp aura grandpa balances : Pallet
  transaction_payment sudo template_module kitties nft : Pallet

abbrev pub parts : Pallet → List Part
parts system = pallet_part ∷ call_part ∷ config_part ∷ storage_part ∷ event_part ∷ []
parts randomness_collective_flip = pallet_part ∷ storage_part ∷ []
parts timestamp = pallet_part ∷ call_part ∷ storage_part ∷ inherent_part ∷ []
parts aura = pallet_part ∷ config_part ∷ []
parts grandpa = pallet_part ∷ call_part ∷ storage_part ∷ config_part ∷ event_part ∷ []
parts balances = pallet_part ∷ call_part ∷ storage_part ∷ config_part ∷ event_part ∷ []
parts transaction_payment = pallet_part ∷ storage_part ∷ []
parts sudo = pallet_part ∷ call_part ∷ config_part ∷ storage_part ∷ event_part ∷ []
parts template_module = pallet_part ∷ call_part ∷ storage_part ∷ event_part ∷ []
parts kitties =
    pallet_part ∷ storage_part ∷ call_part ∷ event_part ∷ config_part ∷ validate_unsigned_part ∷ []
parts nft = pallet_part ∷ storage_part ∷ config_part ∷ []

abbrev pub is_validate_unsigned : Part → Bool
is_validate_unsigned validate_unsigned_part = true
is_validate_unsigned call_part = false
is_validate_unsigned pallet_part = false
is_validate_unsigned config_part = false
is_validate_unsigned storage_part = false
is_validate_unsigned event_part = false
is_validate_unsigned inherent_part = false

abbrev pub any_validates : List Part → Bool
any_validates [] = false
any_validates (p ∷ ps) = is_validate_unsigned p || any_validates ps

-- Whether transactions without a signature are handed to the pallet.
abbrev pub validates : Pallet → Bool
validates p = any_validates (parts p)

-- The errors of the pallets of this repository; those of the others, which `external` stands for in
-- a single pallet, have no place here.
pub data ModuleError : Type 0 where
  of_template : Template.Error → ModuleError
  of_kitties : Types.Error → ModuleError

module _ (T : Config) (Others : Type 0) where
  -- The storage. The state of each of the two pallets holds its own items and what its calls write
  -- of other pallets' storage: the tokens of orml_nft, the balances, and the pallet's own events, in
  -- the order in which System would append them. `Others` is the storage beside these.
  pub record Storage : Type 0 where
    pub kitties : State.State T
    pub template : Template.State T.AccountId
    pub others : Others

-- The pallets of other repositories that have calls.
pub data Foreign : Type 0 where
  in_system in_timestamp in_grandpa in_balances in_sudo : Foreign

-- `Call` of the runtime; the types of the calls of other repositories are a parameter.
pub data RuntimeCall (AccountId : Type 0) (Other : Foreign → Type 0) : Type 0 where
  template_call : TemplateCalls.Call → RuntimeCall AccountId Other
  kitties_call : Types.Call AccountId → RuntimeCall AccountId Other
  foreign_call : (p : Foreign) → Other p → RuntimeCall AccountId Other

abbrev pub pallet_of_foreign : Foreign → Pallet
pallet_of_foreign in_system = system
pallet_of_foreign in_timestamp = timestamp
pallet_of_foreign in_grandpa = grandpa
pallet_of_foreign in_balances = balances
pallet_of_foreign in_sudo = sudo

abbrev pub pallet_of : {A : Type 0} {O : Foreign → Type 0} → RuntimeCall A O → Pallet
pallet_of (template_call c) = template_module
pallet_of (kitties_call c) = kitties
pallet_of (foreign_call p c) = pallet_of_foreign p
