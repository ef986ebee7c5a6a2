-- ===== src/Runtime/Difficulty.antt =====
-- The kitties pallet at the difficulty that runtime/src/lib.rs configures.
use substrate_kitties.Prelude.{
  ℕ, ◌+◌, ◌*◌, ◌^◌, ◌<◌, ◌≡◌, ◌≢◌, ◌↔◌, ap, Bool, true, none, some, List, arith,
}
use substrate_kitties.Kitties.Config.{Config}
use substrate_kitties.Kitties.State.{State}
use substrate_kitties.Kitties.Unsigned.{solution_hash, validate_solution}
use substrate_kitties.Kitties.Unsigned.Nonce.{validate_solution_iff}
use substrate_kitties.Kitties.Worker.{Generator, panicked, run_offchain_worker}
use substrate_kitties.Kitties.Worker.Panics.{run_offchain_worker-ne-panicked}
use substrate_kitties.Runtime.{default_difficulty}

-- At the runtime's difficulty neither the check of a solution nor the worker panics, and a solution
-- is valid exactly if a hundred thousand times its hash plus one stays below `2 ^ 128`.
pub default_difficulty_lem :
    (T : Config) (G : Generator)
    → T.default_difficulty ≡ default_difficulty
    → (k1 k2 nonce solution : ℕ)
    → (validate_solution T k1 k2 nonce solution ≢ none)
      × ((validate_solution T k1 k2 nonce solution ≡ some true)
          ↔ ((solution_hash T k1 k2 nonce solution + 1) * 100_000 < 2 ^ 128))
      × ((locked : Bool) (seed : List ℕ) (s : State T)
          → run_offchain_worker T G locked seed s ≢ panicked)
default_difficulty_lem T G d k1 k2 nonce solution =
    let (panics, good) = validate_solution_iff T k1 k2 nonce solution in
    let scaled = ap (λ n. (solution_hash T k1 k2 nonce solution + 1) * n) d in
    (
      (λ e. absurd (omega (arith, panics.0 e, d))),
      (
        (λ e. omega (arith, (good.0 e).1, scaled)),
        (λ l. good.1 (omega (arith, d), omega (arith, l, scaled))),
      ),
      (λ locked seed s. run_offchain_worker-ne-panicked T G locked seed s (omega (arith, d))),
    )
