-- ===== src/Runtime/Configuration/Blocks.antt =====
-- The calls of the two pallets in the blocks that runtime/src/lib.rs allows.
use substrate_kitties.Prelude.{
  ℕ, ◌+◌, ◌*◌, ◌^◌, ◌≤◌, ◌<◌, ◌≡◌, List, [], ◌∷◌, ◌⊎◌, inl, inr, length, arith,
}
use substrate_kitties.Template.Calls as TemplateCalls
use substrate_kitties.Kitties.Types.{Call}
use substrate_kitties.Weights.{DbWeight, call_weight, call_weight-le, template_weight}
use substrate_kitties.Runtime.Configuration.{
  Limits, block_weights, Crates, weight_info, normal_dispatch_ratio,
}

-- The documented limits: the normal extrinsics of a block get their share of its weight, up to
-- rounding, and the constants of frame_support, in picoseconds.
pub record LimitsAreDocumented (M : Limits) : Type 0 where
  pub share :
      (expected percent : ℕ)
      → expected * percent ≤ (M.max_normal (M.with_sensible_defaults expected percent) + 1) * 100
  pub second : M.weight_per_second ≡ 1_000_000_000_000
  pub extrinsic : M.extrinsic_base_weight ≤ 125_000_000
  pub block : M.block_execution_weight ≤ 5_000_000_000

-- The documented weights of RocksDB.
pub record RocksDbIsDocumented (db : DbWeight) : Type 0 where
  pub reads-le : (n : ℕ) → db.reads n ≤ n * 25_000_000
  pub writes-le : (n : ℕ) → db.writes n ≤ n * 100_000_000

module _ (M : Limits) (C : Crates) where
  -- A call of one of the two pallets of the repository.
  abbrev pub OwnCall : Type 0
  OwnCall = TemplateCalls.Call ⊎ Call C.AccountId

  abbrev pub weight_of : OwnCall → ℕ
  weight_of (inl c) = template_weight C.rocks_db_weight c
  weight_of (inr c) = call_weight (weight_info C) c

  -- The weight of extrinsics with these calls.
  abbrev pub total_weight : List OwnCall → ℕ
  total_weight [] = 0
  total_weight (c ∷ cs) = (M.extrinsic_base_weight + weight_of c) + total_weight cs

  pub weight_of-le :
      RocksDbIsDocumented C.rocks_db_weight → (c : OwnCall) → weight_of c ≤ 742_000_000
  unfolding template_weight
  weight_of-le R (inl (TemplateCalls.do_something n)) = omega (arith, R.writes-le 1)
  weight_of-le R (inl TemplateCalls.cause_error) = omega (arith, R.reads-le 1, R.writes-le 1)
  weight_of-le R (inr c) =
      let (fits, _, _, _) =
        call_weight-le C.AccountId C.rocks_db_weight 25_000_000 100_000_000 c R.reads-le
          R.writes-le in
      omega (arith, fits)

  total_weight-le :
      LimitsAreDocumented M
      → RocksDbIsDocumented C.rocks_db_weight
      → (cs : List OwnCall) → total_weight cs ≤ length cs * 867_000_000
  total_weight-le D R [] = omega arith
  total_weight-le D R (c ∷ cs) =
      omega (arith, D.extrinsic, weight_of-le R c, total_weight-le D R cs)

  -- With the documented weights, 1,700 extrinsics of the two pallets of the repository fit into the
  -- normal share of one block, whichever calls they make, the base weights included, and the sum
  -- stays below `u64`.
  pub total_weight-block_weights :
      LimitsAreDocumented M
      → RocksDbIsDocumented C.rocks_db_weight
      → (cs : List OwnCall) → length cs ≤ 1700
      → (M.block_execution_weight + total_weight cs ≤ M.max_normal (block_weights M))
        × (M.block_execution_weight + total_weight cs < 2 ^ 64)
  unfolding block_weights
  total_weight-block_weights D R cs few =
      let low = total_weight-le D R cs in
      omega (arith, D.block, D.second, D.share (2 * M.weight_per_second) normal_dispatch_ratio)
