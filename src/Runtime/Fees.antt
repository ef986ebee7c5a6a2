-- ===== src/Runtime/Fees.antt =====
-- What extrinsics cost in the runtime: the `Config` of pallet_transaction_payment in
-- runtime/src/lib.rs, with that pallet as a parameter.
pub mod Affordable
mod Tests
use substrate_kitties.Prelude.{ℕ, zero, suc, ◌+◌, ◌*◌, min, ◌≡◌, List, [], ◌∷◌}
use substrate_kitties.Runtime.Pallets.{Pallet, balances}
use substrate_kitties.Runtime.Configuration.{Limits, block_weights, Crates, transaction_byte_fee}
use substrate_kitties.Runtime.Configuration.Blocks.{OwnCall, weight_of}

-- `Config` of pallet_transaction_payment. The multiplier of fees is a type of its own.
pub record PaymentConfig (Multiplier : Type 0) : Type 0 where
  -- the pallet that `CurrencyAdapter` takes the fees from; what is taken goes to `()`
  pub on_charge_transaction : Pallet
  pub transaction_byte_fee : ℕ
  pub weight_to_fee : ℕ → ℕ
  pub fee_multiplier_update : Multiplier → Multiplier

-- The crates: `IdentityFee`, the conversion that `()` stands for, the multiplier at genesis and the
-- default value of its type, and the fee of an extrinsic by its length in bytes, its weight and its
-- tip.
pub record Payment (M : Limits) : Type 1 where
  pub Multiplier : Type 0
  pub initial : Multiplier
  pub default : Multiplier
  pub scale : Multiplier → ℕ → ℕ
  pub identity_fee : ℕ → ℕ
  pub unit_update : Multiplier → Multiplier
  pub max_block : M.BlockWeights → ℕ
  pub compute_fee : PaymentConfig Multiplier → M.BlockWeights → Multiplier → ℕ → ℕ → ℕ → ℕ

module _ {M : Limits} where
  -- The documentation of pallet_transaction_payment: the inclusion fee is a base fee, a fee for each
  -- byte, and a fee for the weight, up to that of a block, which alone is multiplied. The multiplier
  -- is one at genesis. sp_runtime: `()` as `Convert` gives the default value whatever it is given,
  -- and that of a fixed-point number is zero.
  pub record PaymentIsDocumented (P : Payment M) : Type 0 where
    pub identity : (weight : ℕ) → P.identity_fee weight ≡ weight
    pub unit_update_lem : (m : P.Multiplier) → P.unit_update m ≡ P.default
    pub one : (fee : ℕ) → P.scale P.initial fee ≡ fee
    pub zero_fee : (fee : ℕ) → P.scale P.default fee ≡ 0
    pub fee :
        (config : PaymentConfig P.Multiplier) (weights : M.BlockWeights) (m : P.Multiplier)
        (len weight tip : ℕ)
        → P.compute_fee config weights m len weight tip
          ≡ (config.weight_to_fee (min M.extrinsic_base_weight (P.max_block weights))
              + len * config.transaction_byte_fee
              + P.scale m (config.weight_to_fee (min weight (P.max_block weights))))
            + tip

  module _ (P : Payment M) where
    -- `impl pallet_transaction_payment::Config for Runtime`
    unfoldable pub payment_config : PaymentConfig P.Multiplier
    payment_config = record {
      on_charge_transaction = balances;
      transaction_byte_fee = transaction_byte_fee;
      weight_to_fee = P.identity_fee;
      fee_multiplier_update = P.unit_update;
    }

    -- The multiplier when so many blocks are finalized.
    abbrev pub multiplier_after : ℕ → P.Multiplier
    multiplier_after zero = P.initial
    multiplier_after (suc n) = payment_config.fee_multiplier_update (multiplier_after n)

    module _ (C : Crates) where
      -- A call of the two pallets, with the length of its extrinsic and the blocks before it.
      pub record Extrinsic : Type 0 where
        pub call : OwnCall M C
        pub len : ℕ
        pub blocks : ℕ

      abbrev pub fee_of : Extrinsic → ℕ
      fee_of x =
          P.compute_fee payment_config (block_weights M) (multiplier_after x.blocks) x.len
            (weight_of M C x.call) 0

      abbrev pub total_fee : List Extrinsic → ℕ
      total_fee [] = 0
      total_fee (x ∷ xs) = fee_of x + total_fee xs
