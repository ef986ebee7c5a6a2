-- ===== src/Runtime/Configuration/System.antt =====
-- `impl frame_system::Config for Runtime` of runtime/src/lib.rs, and those of the other pallets with
-- values of their own.
use substrate_kitties.Prelude.{ℕ, Bool, true}
use substrate_kitties.Weights.{DbWeight}
use substrate_kitties.Runtime.{existential_deposit, minimum_period}
use substrate_kitties.Runtime.Pallets.{Pallet, aura, system}
use substrate_kitties.Runtime.Configuration.{
  Limits, block_weights, block_length, block_hash_count, ss58_prefix, max_locks, Crates,
}

-- The types of the libraries that are chosen from, by name. `no_data` and `nothing` are `()` as a
-- type of data and as a handler.
pub data Hash : Type 0 where
  h256 : Hash

pub data Hasher : Type 0 where
  blake_two_256 : Hasher

pub data Lookup : Type 0 where
  account_id_lookup identity_lookup : Lookup

-- The header of sp_runtime, with the hasher and the bits of a block number, or the one for tests.
pub data Header : Type 0 where
  generic_header : ℕ → Hasher → Header
  testing_header : Header

pub data AccountData : Type 0 where
  balances_data : ℕ → AccountData
  no_data : AccountData

pub data Handler : Type 0 where
  nothing : Handler

-- `Config` of frame_system, without the types that `construct_runtime!` makes. An integer type is the
-- number of its bits, and `AccountId` is left to the user.
pub record SystemConfig (BlockWeights BlockLength Call Version : Type 0) : Type 0 where
  pub base_call_filter : Call → Bool
  pub block_weights : BlockWeights
  pub block_length : BlockLength
  pub lookup : Lookup
  pub index : ℕ
  pub block_number : ℕ
  pub hash : Hash
  pub hashing : Hasher
  pub header : Header
  pub block_hash_count : ℕ
  pub db_weight : DbWeight
  pub version : Version
  pub on_new_account : Handler
  pub on_killed_account : Handler
  pub account_data : AccountData
  pub system_weight_info : Handler
  pub ss58_prefix : ℕ
  pub on_set_code : Handler

-- `Balance`, `BlockNumber` and `Index` of the runtime, in bits.
abbrev pub balance : ℕ
balance = 128

abbrev pub block_number : ℕ
block_number = 32

abbrev pub index : ℕ
index = 32

-- `()` as a filter of calls: it lets every call through.
abbrev pub everything : {Call : Type 0} → Call → Bool
everything c = true

module _ (M : Limits) (C : Crates) {Call Version : Type 0} (version : Version) where
  abbrev pub system_config : SystemConfig M.BlockWeights M.BlockLength Call Version
  system_config = record {
    base_call_filter = everything;
    block_weights = block_weights M;
    block_length = block_length M;
    lookup = account_id_lookup;
    index = index;
    block_number = block_number;
    hash = h256;
    hashing = blake_two_256;
    header = generic_header block_number blake_two_256;
    block_hash_count = block_hash_count;
    db_weight = C.rocks_db_weight;
    version = version;
    on_new_account = nothing;
    on_killed_account = nothing;
    account_data = balances_data balance;
    system_weight_info = nothing;
    ss58_prefix = ss58_prefix;
    on_set_code = nothing;
  }

pub record TimestampConfig : Type 0 where
  pub moment : ℕ
  pub on_timestamp_set : Pallet
  pub minimum_period : ℕ
  pub weight_info : Handler

abbrev pub timestamp_config : TimestampConfig
timestamp_config = record {
  moment = 64;
  on_timestamp_set = aura;
  minimum_period = minimum_period;
  weight_info = nothing;
}

-- `W` is the type of the weights of pallet_balances.
pub record BalancesConfig (W : Type 0) : Type 0 where
  pub max_locks : ℕ
  pub max_reserves : Handler
  pub reserve_identifier : ℕ
  pub balance : ℕ
  pub dust_removal : Handler
  pub existential_deposit : ℕ
  pub account_store : Pallet
  pub weight_info : W

module _ {W : Type 0} (substrate_weight : W) where
  -- A reserve is named by 8 bytes.
  abbrev pub balances_config : BalancesConfig W
  balances_config = record {
    max_locks = max_locks;
    max_reserves = nothing;
    reserve_identifier = 8;
    balance = balance;
    dust_removal = nothing;
    existential_deposit = existential_deposit;
    account_store = system;
    weight_info = substrate_weight;
  }
