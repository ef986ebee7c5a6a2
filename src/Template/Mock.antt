-- ===== src/Template/Mock.antt =====
-- The runtime that the template pallet is tested in: pallets/template/src/mock.rs.
use substrate_kitties.Prelude.{ℕ, List, [], ◌∷◌, none}
use substrate_kitties.Runtime.Pallets.{
  Part, pallet_part, call_part, config_part, storage_part, event_part,
}
use substrate_kitties.Runtime.Configuration.System.{
  SystemConfig, everything, identity_lookup, h256, blake_two_256, testing_header, no_data, nothing,
}
use substrate_kitties.Weights.{DbWeight}
use substrate_kitties.Template

pub data Pallet : Type 0 where
  system template_module : Pallet

abbrev pub parts : Pallet → List Part
parts system = pallet_part ∷ call_part ∷ config_part ∷ storage_part ∷ event_part ∷ []
parts template_module = pallet_part ∷ call_part ∷ storage_part ∷ event_part ∷ []

abbrev pub block_hash_count : ℕ
block_hash_count = 250

abbrev pub ss58_prefix : ℕ
ss58_prefix = 42

-- `AccountId`, `Index` and `BlockNumber` are `u64`.
abbrev pub AccountId : Type 0
AccountId = ℕ

-- The storage that `frame_system` makes of its default genesis is a parameter.
pub record Storage (System : Type 0) : Type 0 where
  pub system : System
  pub template_module : Template.State AccountId

-- `new_test_ext`: the template pallet has no genesis, so it stores nothing.
unfoldable pub new_test_ext : {System : Type 0} → System → Storage System
new_test_ext default_storage = record {
  system = default_storage;
  template_module = record { something = none; events = [] };
}

-- What `()` stands for, as the libraries have it, where the runtime for tests chooses it.
pub record Defaults : Type 1 where
  pub BlockWeights : Type 0
  pub BlockLength : Type 0
  pub Version : Type 0
  pub block_weights : BlockWeights
  pub block_length : BlockLength
  pub db_weight : DbWeight
  pub version : Version

-- `impl system::Config for Test`
module _ (D : Defaults) {Call : Type 0} where
  abbrev pub system_config : SystemConfig D.BlockWeights D.BlockLength Call D.Version
  system_config = record {
    base_call_filter = everything;
    block_weights = D.block_weights;
    block_length = D.block_length;
    lookup = identity_lookup;
    index = 64;
    block_number = 64;
    hash = h256;
    hashing = blake_two_256;
    header = testing_header;
    block_hash_count = block_hash_count;
    db_weight = D.db_weight;
    version = D.version;
    on_new_account = nothing;
    on_killed_account = nothing;
    account_data = no_data;
    system_weight_info = nothing;
    ss58_prefix = ss58_prefix;
    on_set_code = nothing;
  }
