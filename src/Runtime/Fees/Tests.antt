-- ===== src/Runtime/Fees/Tests.antt =====
-- Fees with a multiplier in hundredths, and the genesis of one account.
use substrate_kitties.Prelude.{
  ℕ, ◌+◌, ◌*◌, ◌/◌, ◌≤◌, ◌≡◌, refl, min, true, some, List, [], ◌∷◌, inl, inr, All, arith,
}
use substrate_kitties.Template.Calls as TemplateCalls
use substrate_kitties.Kitties.Types
use substrate_kitties.Runtime.{existential_deposit}
use substrate_kitties.Runtime.Configuration.{block_weights, block_length}
use substrate_kitties.Runtime.Fees.{
  Payment, PaymentIsDocumented, payment_config, Extrinsic, fee_of, total_fee,
}
use substrate_kitties.Runtime.Fees.Affordable.{LengthIsDocumented, total_fee-testnet_genesis}
use substrate_kitties.Runtime.Fixture.{limits, crates, limits-AreDocumented, rocks_db-IsDocumented}
use substrate_kitties.Weights.{template_weight}
use substrate_kitties.Node.ChainSpec.{Keys, testnet_genesis}

abbrev payment : Payment limits
payment = record {
  Multiplier = ℕ;
  initial = 100;
  default = 0;
  scale = λ m fee. m * fee / 100;
  identity_fee = λ weight. weight;
  unit_update = λ m. 0;
  max_block = λ weights. weights;
  compute_fee = λ config weights m len weight tip.
      (config.weight_to_fee (min 125_000_000 weights)
        + len * config.transaction_byte_fee
        + m * config.weight_to_fee (min weight weights) / 100)
      + tip;
}

payment-IsDocumented : PaymentIsDocumented payment
payment-IsDocumented = record {
  identity = λ weight. refl;
  unit_update_lem = λ m. refl;
  one = λ fee. omega arith;
  zero_fee = λ fee. omega arith;
  fee = λ config weights m len weight tip. refl;
}

limits-LengthIsDocumented : LengthIsDocumented limits
limits-LengthIsDocumented = record { share = λ most percent. omega arith }

abbrev keys : Keys
keys = record {
  AccountId = ℕ;
  AuraId = ℕ;
  GrandpaId = ℕ;
  Sr25519 = ℕ;
  ChangesTrieConfig = Unit {0};
  sr25519 = record { from_string = λ s. some 1 };
  aura = record { from_string = λ s. some 2 };
  grandpa = record { from_string = λ s. some 3 };
  into_account = λ key. key;
}

abbrev extrinsics : List (Extrinsic payment crates)
extrinsics =
    record { call = inl (TemplateCalls.do_something 4); len = 150; blocks = 2 }
    ∷ record { call = inr Types.Call.create; len = 140; blocks = 3 }
    ∷ []

-- The base fee, the bytes, 10,000 and one write.
costs :
    fee_of payment crates
      (record { call = inl (TemplateCalls.do_something 4); len = 150; blocks = 0 })
    ≡ 125_000_000 + 150 + 100_010_000
unfolding payment_config template_weight block_weights
costs = refl

total_fee-testnet_genesis_example :
    All
      (λ x. total_fee payment crates extrinsics + existential_deposit ≤ x.1)
      (testnet_genesis keys (1 ∷ []) ((2, 3) ∷ []) 1 (1 ∷ 4 ∷ []) true).balances
unfolding block_length
total_fee-testnet_genesis_example =
    total_fee-testnet_genesis limits-AreDocumented rocks_db-IsDocumented payment-IsDocumented keys
      limits-LengthIsDocumented extrinsics (omega arith, (omega arith, tt)) (omega arith) (1 ∷ [])
      ((2, 3) ∷ []) 1 (1 ∷ 4 ∷ []) true
