-- ===== src/Kitties/Worker/Ends.antt =====
-- `run_offchain_worker` of pallets/kitties/src/lib.rs ends, and how many numbers and solutions it
-- goes through.
use substrate_kitties.Prelude.{
  ℕ, zero, suc, ◌+◌, ◌*◌, ◌%◌, ◌^◌, ◌≤◌, ◌<◌, ◌≡◌, ◌≢◌, refl, true, false, Bool, List, Option-cases,
  Bool-cases, inl, inr, some, arith, ℕ_discrete,
}
use substrate_kitties.Kitties.Types.{Call, gender, KittyGender-discrete, auto_breed}
use substrate_kitties.Kitties.Config.{Config, TokenInfo}
use substrate_kitties.Kitties.State.{State}
use substrate_kitties.Kitties.Unsigned.{validate_solution}
use substrate_kitties.Kitties.Worker.{
  Generator, max_iterations, pair, pick, search_loop, done, try_solutions, submit,
  run_offchain_worker,
}
use substrate_kitties.Kitties.Worker.Laws.{Picked-cases}
use substrate_kitties.Kitties.Valid.{token}

module _ (T : Config) (G : Generator) where
  open G use {Rng, next_u32}

  -- Run on any fuel that is no less than the remaining iterations, of which there is one at least,
  -- the loop that looks for a pair does not run out of it: it ends, by `break` or by an error, as
  -- the recursion on the remaining iterations does.
  pub search_loop-pick :
      (fuel n kitty_count : ℕ) (rng : Rng) (s : State T)
      → n < fuel
      → search_loop T G fuel (suc n) kitty_count rng s ≡ some (pick T G (suc n) kitty_count rng s)
  unfolding search_loop pick
  search_loop-pick zero n kitty_count rng s h = elim h [ ]
  search_loop-pick (suc fuel) zero kitty_count rng s h = ground arith
  search_loop-pick (suc fuel) (suc n) kitty_count rng s h =
      let rest =
        search_loop-pick fuel n kitty_count (next_u32 (next_u32 rng).1).1 s (omega arith) in
      ground (arith, rest)

  -- The number that the generator gives after `m` others.
  abbrev pub nth : ℕ → Rng → ℕ
  nth zero rng = (next_u32 rng).0
  nth (suc m) rng = nth m (next_u32 rng).1

  -- Two kitties that exist and differ in gender.
  pub record Couple (s : State T) (k1 k2 : ℕ) : Type 0 where
    pub first_info : TokenInfo T.AccountId
    pub second_info : TokenInfo T.AccountId
    pub first_held : token s k1 ≡ some first_info
    pub second_held : token s k2 ≡ some second_info
    pub differ : gender first_info.data_of ≢ gender second_info.data_of

  -- The pair that a search comes to is the `p`-th that is drawn, where `p` pairs have been passed.
  -- Its two kitties exist and differ in gender.
  record Drawn (n kitty_count : ℕ) (rng : Rng) (s : State T) (k1 k2 left : ℕ) (rng' : Rng)
      : Type 0 where
    p : ℕ
    couple : Couple s k1 k2
    counted : p + left ≡ n
    first : k1 ≡ nth (p * 2) rng % kitty_count
    second : k2 ≡ nth (suc (p * 2)) rng % kitty_count
    next : (next_u32 rng').0 ≡ nth (suc (suc (p * 2))) rng

  Drawn-suc :
      {n kitty_count : ℕ} (rng : Rng) {s : State T} {k1 k2 left : ℕ} {rng' : Rng}
      → Drawn n kitty_count (next_u32 (next_u32 rng).1).1 s k1 k2 left rng'
      → Drawn (suc n) kitty_count rng s k1 k2 left rng'
  Drawn-suc rng d =
      let two_more : suc d.p * 2 ≡ suc (suc (d.p * 2)) = omega arith in
      record {
        p = suc d.p;
        couple = d.couple;
        counted = omega (arith, d.counted);
        first = rw two_more d.first;
        second = rw two_more d.second;
        next = rw two_more d.next;
      }

  pick-Drawn :
      (n kitty_count : ℕ) (rng : Rng) (s : State T) {k1 k2 left : ℕ} {rng' : Rng}
      → pick T G n kitty_count rng s ≡ pair k1 k2 left rng'
      → Drawn n kitty_count rng s k1 k2 left rng'
  unfolding pick
  pick-Drawn zero kitty_count rng s h = cc
  pick-Drawn (suc n) kitty_count rng s {k1 = p1} {k2 = p2} {left} {rng'} h =
      let rng1 = (next_u32 rng).1 in
      let k1 = (next_u32 rng).0 % kitty_count in
      let k2 = (next_u32 rng1).0 % kitty_count in
      elim (Option-cases (token s k1)) [
        | inl gone ↦ absurd (ground arith)
        | inr (x1, e1) ↦ elim (Option-cases (token s k2)) [
          | inl gone ↦ absurd (ground arith)
          | inr (x2, e2) ↦ elim (KittyGender-discrete (gender x1.data_of) (gender x2.data_of)) [
            | yes same ↦
                let again : pick T G n kitty_count (next_u32 rng1).1 s ≡ pair p1 p2 left rng' =
                  ground arith in
                Drawn-suc rng (pick-Drawn n kitty_count (next_u32 rng1).1 s again)
            | no differ ↦
                let is1 : p1 ≡ k1 = ground arith in
                let is2 : p2 ≡ k2 = ground arith in
                let at : rng' ≡ (next_u32 rng1).1 = ground arith in
                record {
                  p = 0;
                  couple = record {
                    first_info = x1;
                    second_info = x2;
                    first_held = rw is1 e1;
                    second_held = rw is2 e2;
                    differ = differ;
                  };
                  counted = ground arith;
                  first = ground arith;
                  second = ground arith;
                  next = rw at refl;
                }
          ]
        ]
      ]

  -- The loop over `i` takes the first solution that is valid.
  try_solutions_first :
      (rounds i prefix k1 k2 nonce : ℕ) {c : Call T.AccountId}
      → try_solutions T G rounds i prefix k1 k2 nonce ≡ done (some c)
      → (j : ℕ) × (i ≤ j)
        × (j < i + rounds)
        × (c ≡ auto_breed k1 k2 nonce (prefix * 2 ^ 32 % 2 ^ 128 + j))
        × (validate_solution T k1 k2 nonce (prefix * 2 ^ 32 % 2 ^ 128 + j) ≡ some true)
        × ((q : ℕ)
            → i ≤ q
            → q < j
            → validate_solution T k1 k2 nonce (prefix * 2 ^ 32 % 2 ^ 128 + q) ≡ some false)
  unfolding try_solutions
  try_solutions_first zero i prefix k1 k2 nonce h = cc
  try_solutions_first (suc r) i prefix k1 k2 nonce {c} h =
      elim (Option-cases (validate_solution T k1 k2 nonce (prefix * 2 ^ 32 % 2 ^ 128 + i))) [
        | inl panics ↦ absurd (ground arith)
        | inr (b, e) ↦ elim (Bool-cases b) [
          | inl good ↦ (
            i,
            omega arith,
            omega arith,
            ground arith,
            rw (← good) e,
            λ q low high. absurd (omega arith),
          )
          | inr bad ↦
              let later : try_solutions T G r (suc i) prefix k1 k2 nonce ≡ done (some c) =
                ground arith in
              let (j, low, high, is_call, solves, failed_before) =
                try_solutions_first r (suc i) prefix k1 k2 nonce later in
              (
                j,
                omega arith,
                omega arith,
                is_call,
                solves,
                λ q from below. elim (ℕ_discrete i q) [
                  | yes same ↦ rw (← same) (ground arith)
                  | no other ↦ failed_before q (omega arith) below
                ],
              )
        ]
      ]

  -- What the worker has gone through when it submits: `passed` pairs drawn before the one it takes, and
  -- `tried` solutions that are not valid, together fewer than the 500 iterations. The pair it takes,
  -- two kitties that exist and differ in gender, and the solution, which is valid, are made of the
  -- next three numbers of the generator.
  pub record Work (seed : List ℕ) (s : State T) (c : Call T.AccountId) : Type 0 where
    pub passed : ℕ
    pub tried : ℕ
    pub within : passed + tried < max_iterations
    pub is_call :
        let rng = G.from_seed seed in
        let count = T.nft.next_token_id s.class_id s.nft in
        c
        ≡ auto_breed
            (nth (passed * 2) rng % count)
            (nth (suc (passed * 2)) rng % count)
            s.auto_breed_nonce
            (nth (suc (suc (passed * 2))) rng * 2 ^ 32 % 2 ^ 128 + tried)
    pub couple :
        let rng = G.from_seed seed in
        let count = T.nft.next_token_id s.class_id s.nft in
        Couple s (nth (passed * 2) rng % count) (nth (suc (passed * 2)) rng % count)
    pub solved :
        let rng = G.from_seed seed in
        let count = T.nft.next_token_id s.class_id s.nft in
        validate_solution T
          (nth (passed * 2) rng % count)
          (nth (suc (passed * 2)) rng % count)
          s.auto_breed_nonce
          (nth (suc (suc (passed * 2))) rng * 2 ^ 32 % 2 ^ 128 + tried)
        ≡ some true
    pub not_before :
        (q : ℕ)
        → q < tried
        → let rng = G.from_seed seed in
          let count = T.nft.next_token_id s.class_id s.nft in
          validate_solution T
            (nth (passed * 2) rng % count)
            (nth (suc (passed * 2)) rng % count)
            s.auto_breed_nonce
            (nth (suc (suc (passed * 2))) rng * 2 ^ 32 % 2 ^ 128 + q)
          ≡ some false

  submit-Work :
      (seed : List ℕ) (s : State T) {c : Call T.AccountId}
      → submit T G s.auto_breed_nonce
          (pick T G max_iterations (T.nft.next_token_id s.class_id s.nft) (G.from_seed seed) s)
        ≡ done (some c)
      → Work seed s c
  unfolding submit
  submit-Work seed s {c} h =
      let count = T.nft.next_token_id s.class_id s.nft in
      elim (Picked-cases T G (pick T G max_iterations count (G.from_seed seed) s)) [
        | inl e ↦ absurd (ground arith)
        | inr (k1, k2, remaining, rng', e) ↦
            let d = pick-Drawn max_iterations count (G.from_seed seed) s e in
            let sent : try_solutions T G remaining 0 (next_u32 rng').0 k1 k2 s.auto_breed_nonce
                ≡ done (some c) =
              ground arith in
            let (j, _, high, is_call, solves, before) =
              try_solutions_first remaining 0 (next_u32 rng').0 k1 k2 s.auto_breed_nonce sent in
            record {
              passed = d.p;
              tried = j;
              within = omega (arith, d.counted);
              is_call = rw (← d.first, ← d.second, ← d.next) is_call;
              couple = rw (← d.first, ← d.second) d.couple;
              solved = rw (← d.first, ← d.second, ← d.next) solves;
              not_before =
                  λ q below. rw (← d.first, ← d.second, ← d.next) (before q (omega arith) below);
            }
      ]

  -- A worker that submits a transaction has passed over fewer than 500 pairs and invalid solutions,
  -- counted together. The transaction names the pair drawn after the pairs passed over, two
  -- kitties that exist and differ in gender; it carries the stored nonce and the first valid
  -- solution: those before it are not valid, and it is valid. The two ids are the generator's next two
  -- numbers modulo the number of kitties, and the solution counts on from its third, as a prefix.
  pub run_offchain_worker-Work :
      (locked : Bool) (seed : List ℕ) (s : State T) {c : Call T.AccountId}
      → run_offchain_worker T G locked seed s ≡ done (some c)
      → Work seed s c
  unfolding run_offchain_worker
  run_offchain_worker-Work locked seed s h = submit-Work seed s (ground arith)
