-- ===== src/Kitties/Worker/Laws.antt =====
-- What `run_offchain_worker` submits, and how much work it does.
use substrate_kitties.Prelude.{
  ℕ, zero, suc, ◌+◌, ◌*◌, ◌%◌, ◌^◌, ◌≤◌, ◌<◌, ◌≡◌, ◌≢◌, refl, ◌⊎◌, inl, inr, Option-cases,
  Bool-cases, Bool, true, List, [], some, arith,
}
use substrate_kitties.Frame.{none_origin, err, DispatchError}
use substrate_kitties.Kitties.Types.{Error, Call, Kitty, auto_breed, gender, KittyGender-discrete}
use substrate_kitties.Kitties.Config.{Config, Context, TokenInfo}
use substrate_kitties.Kitties.State.{State}
use substrate_kitties.Kitties.Calls.{dispatch}
use substrate_kitties.Kitties.Unsigned.{
  valid, accepted, saturating_suc, validate_solution, validate_unsigned,
}
use substrate_kitties.Kitties.Worker.{
  Generator, GeneratorIsLawful, max_iterations, Picked, failed, pair, pick, done, try_solutions,
  submit, run_offchain_worker,
}
use substrate_kitties.Kitties.Valid.{token}
use substrate_kitties.Kitties.Effects.Breed.{Parents, auto_breed-do_breed, do_breed_fails}

module _ (T : Config) (G : Generator) where
  open G use {Rng, next_u32}

  -- Two kitties of different gender, found with `remaining` of the `n` iterations left.
  record Pair (s : State T) (n kitty_count k1 k2 remaining : ℕ) : Type 0 where
    x1 : TokenInfo T.AccountId
    x2 : TokenInfo T.AccountId
    held1 : token s k1 ≡ some x1
    held2 : token s k2 ≡ some x2
    differ : gender x1.data_of ≢ gender x2.data_of
    below1 : k1 < kitty_count
    below2 : k2 < kitty_count
    some_left : 0 < remaining
    within : remaining ≤ n

  Pair-suc :
      {s : State T} {n kitty_count k1 k2 remaining : ℕ}
      → Pair s n kitty_count k1 k2 remaining
      → Pair s (suc n) kitty_count k1 k2 remaining
  Pair-suc p = record {
    x1 = p.x1;
    x2 = p.x2;
    held1 = p.held1;
    held2 = p.held2;
    differ = p.differ;
    below1 = p.below1;
    below2 = p.below2;
    some_left = p.some_left;
    within = omega (arith, p.within);
  }

  pick-Pair :
      (n kitty_count : ℕ) (rng : Rng) (s : State T) {k1 k2 remaining : ℕ} {rng' : Rng}
      → 0 < kitty_count
      → pick T G n kitty_count rng s ≡ pair k1 k2 remaining rng'
      → Pair s n kitty_count k1 k2 remaining
  unfolding pick
  pick-Pair zero kitty_count rng s c h = cc
  pick-Pair (suc n) kitty_count rng s {k1 = p1} {k2 = p2} {remaining} {rng'} c h =
      let rng1 = (next_u32 rng).1 in
      let k1 = (next_u32 rng).0 % kitty_count in
      let k2 = (next_u32 rng1).0 % kitty_count in
      elim (Option-cases (token s k1)) [
        | inl gone ↦ absurd (ground arith)
        | inr (x1, e1) ↦ elim (Option-cases (token s k2)) [
          | inl gone ↦ absurd (ground arith)
          | inr (x2, e2) ↦ elim (KittyGender-discrete (gender x1.data_of) (gender x2.data_of)) [
            | yes same ↦
                let again : pick T G n kitty_count (next_u32 rng1).1 s ≡ pair p1 p2 remaining rng' =
                  ground arith in
                Pair-suc (pick-Pair n kitty_count (next_u32 rng1).1 s c again)
            | no differ ↦ record {
              x1 = x1;
              x2 = x2;
              held1 = ground arith;
              held2 = ground arith;
              differ = differ;
              below1 = ground arith;
              below2 = ground arith;
              some_left = ground arith;
              within = ground arith;
            }
          ]
        ]
      ]

  -- The loop submits a solution that it has checked, or none; `i` starts where it is told.
  try_solutions_found :
      (rounds i prefix k1 k2 nonce : ℕ) {c : Call T.AccountId}
      → try_solutions T G rounds i prefix k1 k2 nonce ≡ done (some c)
      → (j : ℕ) × (i ≤ j)
        × (j < i + rounds)
        × (c ≡ auto_breed k1 k2 nonce (prefix * 2 ^ 32 % 2 ^ 128 + j))
        × (validate_solution T k1 k2 nonce (prefix * 2 ^ 32 % 2 ^ 128 + j) ≡ some true)
  unfolding try_solutions
  try_solutions_found zero i prefix k1 k2 nonce h = cc
  try_solutions_found (suc r) i prefix k1 k2 nonce {c} h =
      elim (Option-cases (validate_solution T k1 k2 nonce (prefix * 2 ^ 32 % 2 ^ 128 + i))) [
        | inl panics ↦ absurd (ground arith)
        | inr (b, e) ↦ elim (Bool-cases b) [
          | inl good ↦ (i, omega arith, omega arith, ground arith, ground arith)
          | inr bad ↦
              let later : try_solutions T G r (suc i) prefix k1 k2 nonce ≡ done (some c) =
                ground arith in
              let (j, p, q, e1, e2) = try_solutions_found r (suc i) prefix k1 k2 nonce later in
              (j, omega arith, omega arith, e1, e2)
        ]
      ]

  -- What a submitted call is: the parents exist, have 32-bit ids and differ in gender; the nonce is
  -- the current one, with which the solution, a number of 64 bits, has been checked.
  pub record Submitted (s : State T) (c : Call T.AccountId) : Type 0 where
    pub k1 : ℕ
    pub k2 : ℕ
    pub solution : ℕ
    pub x1 : TokenInfo T.AccountId
    pub x2 : TokenInfo T.AccountId
    pub is_call : c ≡ auto_breed k1 k2 s.auto_breed_nonce solution
    pub held1 : token s k1 ≡ some x1
    pub held2 : token s k2 ≡ some x2
    pub differ : gender x1.data_of ≢ gender x2.data_of
    pub below1 : k1 < 2 ^ 32
    pub below2 : k2 < 2 ^ 32
    pub fits : solution < 2 ^ 64
    pub solved : validate_solution T k1 k2 s.auto_breed_nonce solution ≡ some true

  pub Picked-cases :
      (p : Picked T G)
      → (p ≡ failed)
        ⊎ ((k1 : ℕ) × (k2 : ℕ) × (remaining : ℕ) × (rng : Rng) × (p ≡ pair k1 k2 remaining rng))
  Picked-cases failed = inl refl
  Picked-cases (pair k1 k2 remaining rng) = inr (k1, k2, remaining, rng, refl)

  submit-Submitted :
      GeneratorIsLawful G
      → (kitty_count : ℕ) (rng : Rng) (s : State T) {c : Call T.AccountId} → 0 < kitty_count
      → kitty_count < 2 ^ 32
      → submit T G s.auto_breed_nonce (pick T G max_iterations kitty_count rng s) ≡ done (some c)
      → Submitted s c
  unfolding submit
  submit-Submitted R kitty_count rng s {c} p q h =
      elim (Picked-cases (pick T G max_iterations kitty_count rng s)) [
        | inl e ↦ absurd (ground arith)
        | inr (k1, k2, remaining, rng', e) ↦
            let f = pick-Pair max_iterations kitty_count rng s p e in
            let prefix = (next_u32 rng').0 in
            let tried : try_solutions T G remaining 0 prefix k1 k2 s.auto_breed_nonce
                ≡ done (some c) =
              ground arith in
            let (j, _, low, is_call, solved) =
              try_solutions_found remaining 0 prefix k1 k2 s.auto_breed_nonce tried in
            record {
              k1 = k1;
              k2 = k2;
              solution = prefix * 2 ^ 32 % 2 ^ 128 + j;
              x1 = f.x1;
              x2 = f.x2;
              is_call = is_call;
              held1 = f.held1;
              held2 = f.held2;
              differ = f.differ;
              below1 = omega (arith, f.below1);
              below2 = omega (arith, f.below2);
              fits = omega (arith, R.next_u32-lt rng', f.within);
              solved = solved;
            }
      ]

  pub worker-Submitted :
      GeneratorIsLawful G
      → (locked : Bool) (seed : List ℕ) (s : State T) {c : Call T.AccountId}
      → run_offchain_worker T G locked seed s ≡ done (some c)
      → Submitted s c
  unfolding run_offchain_worker
  worker-Submitted R locked seed s {c} h =
      let count = T.nft.next_token_id s.class_id s.nft in
      submit-Submitted R count (G.from_seed seed) s (ground arith) (ground arith) (ground arith)

  -- With a lawful generator, a transaction that the worker submits is accepted by
  -- `validate_unsigned` in the storage that the worker has read, and moves the nonce on; in the
  -- storage that this leaves, its dispatch fails only if orml_nft fails to mint the kitten.
  pub submitted_call_works :
      GeneratorIsLawful G
      → (locked : Bool) (seed : List ℕ) (s : State T) {c : Call T.AccountId}
      → run_offchain_worker T G locked seed s ≡ done (some c)
      → let t : State T = record s { auto_breed_nonce = saturating_suc s.auto_breed_nonce } in
        (validate_unsigned T c s ≡ some (valid accepted, t))
        × ((ctx : Context) (e : DispatchError Error)
            → (dispatch T ctx c none_origin t).0 ≡ err e
            → (owner : T.AccountId) × (kitty : Kitty) × ((T.nft.mint owner s.class_id [] kitty
                  s.nft).0
                ≡ err e))
  unfolding validate_unsigned dispatch
  submitted_call_works R locked seed s {c} h =
      let w = worker-Submitted R locked seed s h in
      (
        rw w.is_call (ground (arith, w.solved)),
        λ ctx e. rw w.is_call (λ failure.
            let t : State T = record s { auto_breed_nonce = saturating_suc s.auto_breed_nonce } in
            let p : Parents T ctx w.k1 w.k2 t = record {
              x1 = w.x1;
              x2 = w.x2;
              held1 = w.held1;
              held2 = w.held2;
            } in
            (
              _,
              _,
              do_breed_fails T ctx w.x1.owner w.x1.data_of w.x2.data_of t w.differ (
                  rw (auto_breed-do_breed T ctx t w.k1 w.k2 s.auto_breed_nonce w.solution p) at
                    failure),
            )),
      )
