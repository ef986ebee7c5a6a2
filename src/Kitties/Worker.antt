-- ===== src/Kitties/Worker.antt =====
-- `run_offchain_worker` of pallets/kitties/src/lib.rs.
pub mod Laws
pub mod Finds
pub mod Panics
pub mod Ends
use substrate_kitties.Prelude.{
  ℕ, zero, suc, ◌+◌, ◌-◌, ◌*◌, ◌%◌, ◌^◌, ◌<◌, Bool, true, false, ltb, ◌==◌, is_yes, if◌then◌else◌,
  List, Option, none, some,
}
use substrate_kitties.Kitties.Types.{Call, auto_breed, KittyGender-discrete, gender}
use substrate_kitties.Kitties.Config.{Config}
use substrate_kitties.Kitties.State.{State}
use substrate_kitties.Kitties.Unsigned.{validate_solution}

-- `ChaChaRng`: the generator of the crate rand_chacha, of 32-bit numbers.
pub record Generator : Type 1 where
  pub Rng : Type 0
  pub from_seed : List ℕ → Rng
  pub next_u32 : Rng → ℕ × Rng

pub record GeneratorIsLawful (G : Generator) : Type 0 where
  pub next_u32-lt : (rng : G.Rng) → (G.next_u32 rng).0 < 2 ^ 32

abbrev pub max_iterations : ℕ
max_iterations = 500

module _ (T : Config) (G : Generator) where
  open T use {AccountId, nft}
  open G use {Rng, from_seed, next_u32}

  -- How the loop that looks for two kitties ends: `break`, with the iterations that remain and the
  -- generator, or `Err(())`.
  pub data Picked : Type 0 where
    failed : Picked
    pair : ℕ → ℕ → ℕ → Rng → Picked

  -- The Rust `loop`, which nothing but its body ends: on fuel, with none when the fuel runs out.
  unfoldable pub search_loop : ℕ → ℕ → ℕ → Rng → State T → Option Picked
  search_loop zero remaining_iterations kitty_count rng s = none
  search_loop (suc fuel) remaining_iterations kitty_count rng s =
      let (r1, rng1) = next_u32 rng in
      let (r2, rng2) = next_u32 rng1 in
      let k1 = r1 % kitty_count in
      let k2 = r2 % kitty_count in
      let rest = search_loop fuel (remaining_iterations - 1) kitty_count rng2 s in
      elim (nft.tokens s.class_id k1 s.nft) [
        | none ↦ some failed
        | some x1 ↦ elim (nft.tokens s.class_id k2 s.nft) [
          | none ↦ some failed
          | some x2 ↦
              if is_yes (KittyGender-discrete (gender x1.data_of) (gender x2.data_of))
              then (if remaining_iterations - 1 == 0 then some failed else rest)
              else some (pair k1 k2 remaining_iterations rng2)
        ]
      ]

  -- The same loop, by recursion on the number of remaining iterations. That is at least one at the
  -- head of the loop, so the first clause is never met.
  unfoldable pub pick : ℕ → ℕ → Rng → State T → Picked
  pick zero kitty_count rng s = failed
  pick (suc n) kitty_count rng s =
      let (r1, rng1) = next_u32 rng in
      let (r2, rng2) = next_u32 rng1 in
      let k1 = r1 % kitty_count in
      let k2 = r2 % kitty_count in
      let rest = pick n kitty_count rng2 s in
      elim (nft.tokens s.class_id k1 s.nft) [
        | none ↦ failed
        | some x1 ↦ elim (nft.tokens s.class_id k2 s.nft) [
          | none ↦ failed
          | some x2 ↦
              if is_yes (KittyGender-discrete (gender x1.data_of) (gender x2.data_of))
              then (if n == 0 then failed else rest)
              else pair k1 k2 (suc n) rng2
        ]
      ]

  -- How the worker ends: a panic, `Err(())`, or `Ok(())` with the call that it submitted, if any.
  pub data Ended : Type 0 where
    panicked : Ended
    error : Ended
    done : Option (Call AccountId) → Ended

  -- The loop over `i` that tries solutions, with `rounds` values of `i` to go.
  unfoldable pub try_solutions : ℕ → ℕ → ℕ → ℕ → ℕ → ℕ → Ended
  try_solutions zero i prefix k1 k2 nonce = done none
  try_solutions (suc rounds) i prefix k1 k2 nonce =
      let solution = prefix * 2 ^ 32 % 2 ^ 128 + i in
      let rest = try_solutions rounds (suc i) prefix k1 k2 nonce in
      elim (validate_solution T k1 k2 nonce solution) [
        | none ↦ panicked
        | some true ↦ done (some (auto_breed k1 k2 nonce solution))
        | some false ↦ rest
      ]

  unfoldable pub submit : ℕ → Picked → Ended
  submit nonce failed = error
  submit nonce (pair k1 k2 remaining rng) = try_solutions remaining 0 (next_u32 rng).0 k1 k2 nonce

  -- `locked` says whether `try_lock` got the lock, `seed` is the seed that the host gave.
  unfoldable pub run_offchain_worker : Bool → List ℕ → State T → Ended
  run_offchain_worker locked seed s =
      let kitty_count = nft.next_token_id s.class_id s.nft in
      if locked
      then (if ltb kitty_count (2 ^ 32)
          then (if kitty_count == 0
              then done none
              else submit s.auto_breed_nonce (pick max_iterations kitty_count (from_seed seed) s))
          else error)
      else error

  -- The hook `offchain_worker`, which drops the error: none if it panics, otherwise what has been
  -- submitted.
  unfoldable pub offchain_worker : Bool → List ℕ → State T → Option (Option (Call AccountId))
  offchain_worker locked seed s = elim (run_offchain_worker locked seed s) [
    | panicked ↦ none
    | error ↦ some none
    | done submitted ↦ some submitted
  ]
