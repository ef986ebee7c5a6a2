-- ===== src/Runtime/Benchmark.antt =====
-- `dispatch_benchmark` of runtime/src/lib.rs.
pub mod Laws
mod Tests
use Prim.Native.String.{String}
use substrate_kitties.Prelude.{List, [], ◌∷◌, ◌++◌, map}
use substrate_kitties.Node.Io.{Outcome, ok, err}

-- The pallets that are given to `add_benchmark!`.
pub data Benchmarked : Type 0 where
  frame_system pallet_balances pallet_timestamp pallet_template pallet_kitties : Benchmarked

-- The name that the macro is given.
abbrev pub name : Benchmarked → String
name frame_system = "frame_system"
name pallet_balances = "pallet_balances"
name pallet_timestamp = "pallet_timestamp"
name pallet_template = "pallet_template"
name pallet_kitties = "pallet_kitties"

-- The storage keys, in hexadecimal.
abbrev pub whitelist : List String
whitelist =
    "26aa394eea5630e07c48ae0c9558cef702a5c1b19ab7a04f536c519aca4983ac"
    ∷ "c2261276cc9d1f8598ea4b6a74b15c2f57c875e4cff74148e4628f264b974c80"
    ∷ "26aa394eea5630e07c48ae0c9558cef7ff553b5a9862a516939d82b3d3d8661a"
    ∷ "26aa394eea5630e07c48ae0c9558cef70a98fdbe9ce6c55837576c60c7af3850"
    ∷ "26aa394eea5630e07c48ae0c9558cef780d41e5e16056765bc8461851072c9d7" ∷ []

-- The crate frame_benchmarking: the configuration with the pallet that it asks for, the keys, and
-- the batches that `add_benchmark!` runs for a pallet.
pub record Benchmarking : Type 1 where
  pub BenchmarkConfig : Type 0
  pub Key : Type 0
  pub Batch : Type 0
  pub pallet : BenchmarkConfig → String
  pub hex : String → Key
  pub batches_of : Benchmarked → BenchmarkConfig → List Key → Outcome String (List Batch)

module _ (B : Benchmarking) where
  open B use {BenchmarkConfig, Batch}

  -- `add_benchmark!`, which returns from the function with the first error.
  unfoldable pub add_benchmark :
      Benchmarked → BenchmarkConfig → Outcome String (List Batch) → Outcome String (List Batch)
  add_benchmark p config (err e) = err e
  add_benchmark p config (ok batches) = elim (B.batches_of p config (map B.hex whitelist)) [
    | err e ↦ err e
    | ok more ↦ ok (batches ++ more)
  ]

  abbrev pub not_found : String
  not_found = "Benchmark not found for this pallet."

  -- The test at the end.
  abbrev pub unless_empty : Outcome String (List Batch) → Outcome String (List Batch)
  unless_empty (err e) = err e
  unless_empty (ok []) = err not_found
  unless_empty (ok (b ∷ batches)) = ok (b ∷ batches)

  unfoldable pub dispatch_benchmark : BenchmarkConfig → Outcome String (List Batch)
  dispatch_benchmark config =
      let batches1 = add_benchmark frame_system config (ok []) in
      let batches2 = add_benchmark pallet_balances config batches1 in
      let batches3 = add_benchmark pallet_timestamp config batches2 in
      let batches4 = add_benchmark pallet_template config batches3 in
      unless_empty (add_benchmark pallet_kitties config batches4)
