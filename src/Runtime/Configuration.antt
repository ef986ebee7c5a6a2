-- ===== src/Runtime/Configuration.antt =====
-- What runtime/src/lib.rs configures the pallets with: the constants of `parameter_types!`, and the
-- `Config` of the kitties pallet.
pub mod Blocks
pub mod System
use substrate_kitties.Prelude.{ℕ, ◌*◌, List, Option}
use substrate_kitties.Weights.{DbWeight, WeightInfo, runtime_weight}
use substrate_kitties.Kitties.Config.{Config, NftPallet, CurrencyPallet}
use substrate_kitties.Runtime.{default_difficulty}

-- A `Perbill`, in hundredths.
abbrev pub normal_dispatch_ratio : ℕ
normal_dispatch_ratio = 75

abbrev pub block_hash_count : ℕ
block_hash_count = 2400

abbrev pub ss58_prefix : ℕ
ss58_prefix = 42

abbrev pub max_locks : ℕ
max_locks = 50

abbrev pub transaction_byte_fee : ℕ
transaction_byte_fee = 1

abbrev pub max_class_metadata : ℕ
max_class_metadata = 0

abbrev pub max_token_metadata : ℕ
max_token_metadata = 0

-- `frame_system::limits` and the weights of `frame_support`.
pub record Limits : Type 1 where
  pub BlockWeights : Type 0
  pub BlockLength : Type 0
  pub with_sensible_defaults : ℕ → ℕ → BlockWeights
  pub max_with_normal_ratio : ℕ → ℕ → BlockLength
  pub weight_per_second : ℕ
  pub extrinsic_base_weight : ℕ
  pub block_execution_weight : ℕ
  -- the most that the normal extrinsics of a block may weigh, and the bytes they may take
  pub max_normal : BlockWeights → ℕ
  pub max_normal_length : BlockLength → ℕ

module _ (M : Limits) where
  unfoldable pub block_weights : M.BlockWeights
  block_weights = M.with_sensible_defaults (2 * M.weight_per_second) normal_dispatch_ratio

  unfoldable pub block_length : M.BlockLength
  block_length = M.max_with_normal_ratio (5 * 1024 * 1024) normal_dispatch_ratio

-- The pallets and the crates that the kitties pallet is configured with: `Balances`, orml_nft with
-- `Kitty` as the data of its tokens, and the codecs and hash of Substrate.
pub record Crates : Type 1 where
  pub AccountId : Type 0
  pub account_eq : Discrete AccountId
  pub default_account : AccountId
  pub nft : NftPallet AccountId
  pub balances : CurrencyPallet AccountId
  pub blake2_128 : List ℕ → List ℕ
  pub encode_random : List ℕ × AccountId × Option ℕ → List ℕ
  pub encode_solution : ℕ × ℕ × ℕ × ℕ → List ℕ
  pub rocks_db_weight : DbWeight

module _ (C : Crates) where
  -- `impl pallet_kitties::Config for Runtime`
  abbrev pub kitties_config : Config
  kitties_config = record {
    AccountId = C.AccountId;
    account_eq = C.account_eq;
    default_account = C.default_account;
    nft = C.nft;
    currency = C.balances;
    blake2_128 = C.blake2_128;
    encode_random = C.encode_random;
    encode_solution = C.encode_solution;
    default_difficulty = default_difficulty;
  }

  -- `type WeightInfo = weights::pallet_kitties::WeightInfo<Runtime>`, with `type DbWeight`.
  abbrev pub weight_info : WeightInfo
  weight_info = runtime_weight C.rocks_db_weight
