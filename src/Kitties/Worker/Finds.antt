-- ===== src/Kitties/Worker/Finds.antt =====
-- When `run_offchain_worker` of pallets/kitties/src/lib.rs submits a transaction.
use substrate_kitties.Prelude.{
  ℕ, zero, suc, ◌+◌, ◌*◌, ◌%◌, ◌^◌, ◌≤◌, ◌<◌, ◌≡◌, ◌≢◌, true, List, Option-cases, Bool-cases, inl,
  inr, some, arith, ℕ_discrete,
}
use substrate_kitties.Kitties.Types.{Call, gender, KittyGender-discrete, auto_breed}
use substrate_kitties.Kitties.Config.{Config, TokenInfo}
use substrate_kitties.Kitties.State.{State}
use substrate_kitties.Kitties.Unsigned.{
  saturating_suc, valid, accepted, validate_solution, validate_unsigned,
}
use substrate_kitties.Kitties.Unsigned.Nonce.{validate_solution_iff}
use substrate_kitties.Kitties.Worker.{
  Generator, GeneratorIsLawful, max_iterations, pair, pick, done, try_solutions, submit,
  run_offchain_worker, offchain_worker,
}
use substrate_kitties.Kitties.Worker.Laws.{submitted_call_works}
use substrate_kitties.Kitties.Valid.{token}

module _ (T : Config) (G : Generator) (s : State T) (kitty_count : ℕ) where
  open G use {Rng, next_u32}

  abbrev pub first_id : Rng → ℕ
  first_id rng = (next_u32 rng).0 % kitty_count

  abbrev pub second_id : Rng → ℕ
  second_id rng = (next_u32 (next_u32 rng).1).0 % kitty_count

  -- The generator after both ids have been drawn.
  abbrev pub after : Rng → Rng
  after rng = (next_u32 (next_u32 rng).1).1

  -- Within `n` draws from `rng` a pair is found: the kitties drawn before it exist and have one
  -- gender, those of the pair exist and differ in gender. Told are the pair, the iterations that are
  -- left, that of the pair included, and the generator.
  pub data Found : ℕ → Rng → ℕ → ℕ → ℕ → Rng → Type 0 where
    now :
        {n : ℕ} {rng : Rng} {x1 x2 : TokenInfo T.AccountId}
        → token s (first_id rng) ≡ some x1
        → token s (second_id rng) ≡ some x2
        → gender x1.data_of ≢ gender x2.data_of
        → Found (suc n) rng (first_id rng) (second_id rng) (suc n) (after rng)
    later :
        {n : ℕ} {rng : Rng} {x1 x2 : TokenInfo T.AccountId} {k1 k2 left : ℕ} {rng' : Rng}
        → token s (first_id rng) ≡ some x1
        → token s (second_id rng) ≡ some x2
        → gender x1.data_of ≡ gender x2.data_of
        → 0 < n
        → Found n (after rng) k1 k2 left rng'
        → Found (suc n) rng k1 k2 left rng'

  Found-pick :
      {n : ℕ} {rng : Rng} {k1 k2 left : ℕ} {rng' : Rng}
      → Found n rng k1 k2 left rng'
      → pick T G n kitty_count rng s ≡ pair k1 k2 left rng'
  unfolding pick
  Found-pick (now {n} {rng} {x1} {x2} held1 held2 differ) =
      elim (KittyGender-discrete (gender x1.data_of) (gender x2.data_of)) [
        | yes same ↦ absurd (differ same)
        | no _ ↦ ground arith
      ]
  Found-pick (later {n} {rng} {x1} {x2} held1 held2 same more found) =
      let rest = Found-pick found in
      elim (KittyGender-discrete (gender x1.data_of) (gender x2.data_of)) [
        | yes _ ↦ ground arith
        | no differ ↦ absurd (differ same)
      ]

module _ (T : Config) (G : Generator) where
  open G use {Rng, next_u32}

  try_solutions_finds :
      (rounds i j prefix k1 k2 nonce : ℕ)
      → 0 < T.default_difficulty
      → i ≤ j
      → j < i + rounds
      → validate_solution T k1 k2 nonce (prefix * 2 ^ 32 % 2 ^ 128 + j) ≡ some true
      → (c : Call T.AccountId) × (try_solutions T G rounds i prefix k1 k2 nonce ≡ done (some c))
  unfolding try_solutions
  try_solutions_finds zero i j prefix k1 k2 nonce d low high good = absurd (omega arith)
  try_solutions_finds (suc r) i j prefix k1 k2 nonce d low high good =
      let tried = prefix * 2 ^ 32 % 2 ^ 128 + i in
      elim (Option-cases (validate_solution T k1 k2 nonce tried)) [
        | inl panics ↦
            absurd (omega (arith, (validate_solution_iff T k1 k2 nonce tried).0.0 panics))
        | inr (b, e) ↦ elim (Bool-cases b) [
          | inl yes_good ↦ (auto_breed k1 k2 nonce tried, ground arith)
          | inr bad ↦ elim (ℕ_discrete i j) [
            | yes same ↦
                let g : validate_solution T k1 k2 nonce tried ≡ some true = rw same good in
                absurd (ground arith)
            | no ne ↦
                let (c, rest) =
                  try_solutions_finds r (suc i) j prefix k1 k2 nonce d (omega arith) (omega arith)
                    good in
                (c, ground arith)
          ]
        ]
      ]

  -- At a difficulty above zero, with fewer than 2^32 kitties and at least one, the lock taken, and a
  -- pair found within the 500 iterations: when one of the solutions that the iterations left over
  -- allow is valid, the hook submits a transaction, which `validate_unsigned` accepts.
  pub offchain_worker_finds :
      GeneratorIsLawful G
      → (seed : List ℕ) (s : State T) (k1 k2 left j : ℕ) (rng : Rng) → 0 < T.default_difficulty
      → 0 < T.nft.next_token_id s.class_id s.nft
      → T.nft.next_token_id s.class_id s.nft < 2 ^ 32
      → Found T G s
          (T.nft.next_token_id s.class_id s.nft)
          max_iterations
          (G.from_seed seed)
          k1
          k2
          left
          rng
      → j < left
      → validate_solution T k1 k2 s.auto_breed_nonce ((next_u32 rng).0 * 2 ^ 32 % 2 ^ 128 + j)
        ≡ some true
      → (c : Call T.AccountId) × (offchain_worker T G true seed s ≡ some (some c))
        × (validate_unsigned T c s
            ≡ some
                (valid accepted, record s { auto_breed_nonce = saturating_suc s.auto_breed_nonce }))
  unfolding run_offchain_worker submit offchain_worker
  offchain_worker_finds R seed s k1 k2 left j rng d some_kitty few found below good =
      let e = Found-pick T G s (T.nft.next_token_id s.class_id s.nft) found in
      let (c, tried) =
        try_solutions_finds left 0 j (next_u32 rng).0 k1 k2 s.auto_breed_nonce d (omega arith)
          (omega arith) good in
      let sent : run_offchain_worker T G true seed s ≡ done (some c) = ground arith in
      (c, ground arith, (submitted_call_works T G R true seed s sent).0)
