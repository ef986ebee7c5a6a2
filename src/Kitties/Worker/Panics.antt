-- ===== src/Kitties/Worker/Panics.antt =====
-- When `run_offchain_worker` of pallets/kitties/src/lib.rs cannot panic.
use substrate_kitties.Prelude.{
  ℕ, zero, suc, ◌+◌, ◌*◌, ◌%◌, ◌^◌, ◌<◌, ◌≢◌, inl, inr, Bool, List, arith,
}
use substrate_kitties.Kitties.Config.{Config}
use substrate_kitties.Kitties.State.{State}
use substrate_kitties.Kitties.Unsigned.Nonce.{validate_solution_iff}
use substrate_kitties.Kitties.Worker.{
  Generator, max_iterations, pick, panicked, try_solutions, submit, run_offchain_worker,
}
use substrate_kitties.Kitties.Worker.Laws.{Picked-cases}

module _ (T : Config) (G : Generator) where
  open G use {next_u32}

  try_solutions-ne-panicked :
      (rounds i prefix k1 k2 nonce : ℕ)
      → 0 < T.default_difficulty
      → try_solutions T G rounds i prefix k1 k2 nonce ≢ panicked
  unfolding try_solutions
  try_solutions-ne-panicked zero i prefix k1 k2 nonce d h = cc
  try_solutions-ne-panicked (suc r) i prefix k1 k2 nonce d h = ground (
    arith,
    (validate_solution_iff T k1 k2 nonce (prefix * 2 ^ 32 % 2 ^ 128 + i)).0.0,
    try_solutions-ne-panicked r (suc i) prefix k1 k2 nonce d,
  )

  -- At a difficulty above zero the worker never panics.
  pub run_offchain_worker-ne-panicked :
      (locked : Bool) (seed : List ℕ) (s : State T)
      → 0 < T.default_difficulty
      → run_offchain_worker T G locked seed s ≢ panicked
  unfolding run_offchain_worker submit
  run_offchain_worker-ne-panicked locked seed s d h =
      let count = T.nft.next_token_id s.class_id s.nft in
      elim (Picked-cases T G (pick T G max_iterations count (G.from_seed seed) s)) [
        | inl e ↦ ground arith
        | inr (k1, k2, remaining, rng, e) ↦ ground (
          arith,
          try_solutions-ne-panicked remaining 0 (next_u32 rng).0 k1 k2 s.auto_breed_nonce d,
        )
      ]
