-- ===== src/Runtime/Fees/Affordable.antt =====
-- The funds that node/src/chain_spec.rs gives, against the fees of runtime/src/lib.rs.
use substrate_kitties.Prelude.{
  ℕ, zero, suc, ◌+◌, ◌*◌, ◌^◌, ◌≤◌, ◌≡◌, ap, ◌∙◌, map, min, Bool, List, [], ◌∷◌, length, All, arith,
}
use substrate_kitties.Runtime.{existential_deposit}
use substrate_kitties.Runtime.Configuration.{
  Limits, block_weights, block_length, Crates, normal_dispatch_ratio,
}
use substrate_kitties.Runtime.Configuration.Blocks.{
  LimitsAreDocumented, RocksDbIsDocumented, weight_of, weight_of-le,
}
use substrate_kitties.Runtime.Fees.{
  Payment, PaymentIsDocumented, payment_config, multiplier_after, Extrinsic, fee_of, total_fee,
}
use substrate_kitties.Node.ChainSpec.{Keys, testnet_genesis}

-- The documented limit on lengths: the normal extrinsics of a block get their share of its bytes.
pub record LengthIsDocumented (M : Limits) : Type 0 where
  pub share :
      (most percent : ℕ)
      → M.max_normal_length (M.max_with_normal_ratio most percent) * 100 ≤ most * percent

module _ (K : Keys) where
  endowed :
      (fees : ℕ) (accounts : List K.AccountId)
      → fees + existential_deposit ≤ 2 ^ 60
      → All
          (λ (x : K.AccountId × ℕ). fees + existential_deposit ≤ x.1)
          (map (λ k. (k, 2 ^ 60)) accounts)
  endowed fees [] h = tt
  endowed fees (a ∷ us) h = (h, endowed fees us h)

-- What a weight costs when so many blocks are finalized.
abbrev pub weight_fee : ℕ → ℕ → ℕ
weight_fee zero weight = weight
weight_fee (suc n) weight = 0

weight_fee-le : (n weight : ℕ) → weight_fee n weight ≤ weight
weight_fee-le zero weight = omega arith
weight_fee-le (suc n) weight = omega arith

module _ {M : Limits} {P : Payment M} (L : PaymentIsDocumented P) where
  scale-computed : (n fee : ℕ) → P.scale (multiplier_after P n) fee ≡ weight_fee n fee
  unfolding payment_config
  scale-computed zero fee = L.one fee
  scale-computed (suc n) fee = rw (L.unit_update_lem (multiplier_after P n)) (L.zero_fee fee)

  -- What `compute_fee` comes to.
  compute_fee-computed :
      (n len weight : ℕ)
      → P.compute_fee (payment_config P) (block_weights M) (multiplier_after P n) len weight 0
        ≡ min M.extrinsic_base_weight (P.max_block (block_weights M))
          + len
          + weight_fee n (min weight (P.max_block (block_weights M)))
  unfolding payment_config
  compute_fee-computed n len weight =
      let most = P.max_block (block_weights M) in
      let fee = L.fee (payment_config P) (block_weights M) (multiplier_after P n) len weight 0 in
      let base = L.identity (min M.extrinsic_base_weight most) in
      let scaled =
        scale-computed n (P.identity_fee (min weight most))
        ∙ ap (weight_fee n) (L.identity (min weight most)) in
      omega (arith, fee, base, scaled)

module _ {M : Limits} {C : Crates} {P : Payment M} (L : PaymentIsDocumented P) where
  pub fee_of_lem :
      (x : Extrinsic P C)
      → fee_of P C x
        ≡ min M.extrinsic_base_weight (P.max_block (block_weights M))
          + x.len
          + weight_fee x.blocks (min (weight_of M C x.call) (P.max_block (block_weights M)))
  fee_of_lem x = compute_fee-computed L x.blocks x.len (weight_of M C x.call)

module _ {M : Limits} {C : Crates} {P : Payment M} (D : LimitsAreDocumented M)
    (R : RocksDbIsDocumented C.rocks_db_weight) (L : PaymentIsDocumented P) where
  -- With the documented weights and fees, an extrinsic of the two pallets costs at most 867 million
  -- and one for each byte, in every block.
  pub fee_of-le : (x : Extrinsic P C) → fee_of P C x ≤ 867_000_000 + x.len
  fee_of-le x =
      let most = P.max_block (block_weights M) in
      omega (
        arith,
        fee_of_lem L x,
        weight_fee-le x.blocks (min (weight_of M C x.call) most),
        weight_of-le M C R x.call,
        D.extrinsic,
      )

  -- The extrinsic's length is one that a block has place for.
  abbrev pub Fits : Extrinsic P C → Type 0
  Fits x = x.len ≤ M.max_normal_length (block_length M)

  total_fee-le :
      LengthIsDocumented M
      → (xs : List (Extrinsic P C)) → All Fits xs
      → total_fee P C xs ≤ length xs * 873_000_000
  unfolding block_length
  total_fee-le B [] h = omega arith
  total_fee-le B (x ∷ xs) h = omega (
    arith,
    fee_of-le x,
    h.0,
    B.share (5 * 1024 * 1024) normal_dispatch_ratio,
    total_fee-le B xs h.1,
  )

  module _ (K : Keys) where
    -- With the documented weights, lengths and fees, each account of the genesis has what a billion
    -- extrinsics of the two pallets cost, whichever calls they make, in whichever blocks and however
    -- long they are, if they fit into a block, and keeps the existential deposit.
    pub total_fee-testnet_genesis :
        LengthIsDocumented M
        → (xs : List (Extrinsic P C)) → All Fits xs
        → length xs ≤ 1_000_000_000
        → (wasm_binary : List ℕ) (authorities : List (K.AuraId × K.GrandpaId))
          (root_key : K.AccountId) (accounts : List K.AccountId) (enable_println : Bool)
        → All
            (λ x. total_fee P C xs + existential_deposit ≤ x.1)
            (testnet_genesis K wasm_binary authorities root_key accounts enable_println).balances
    unfolding testnet_genesis
    total_fee-testnet_genesis B xs fit few wasm_binary authorities root_key accounts flag =
        endowed K (total_fee P C xs) accounts (omega (arith, total_fee-le B xs fit))
