-- ===== src/Kitties/Submission.antt =====
-- What becomes of a transaction that the offchain worker of pallets/kitties/src/lib.rs submits,
-- while the chain goes on.
use substrate_kitties.Prelude.{
  ℕ, ◌≡◌, ◌≢◌, refl, sym, ◌∙◌, ap, ◌⊎◌, inl, inr, some, true, Bool, List, [], arith,
}
use mathlib.Core.Path.{ap₂}
use substrate_kitties.Frame.{none_origin, DispatchError, ok, err, Result-cases}
use substrate_kitties.Kitties.Types.{Call, Error, Kitty, gender}
use substrate_kitties.Kitties.Config.{Config, Context, TokenInfo, NftIsLawful}
use substrate_kitties.Kitties.State.{State}
use substrate_kitties.Kitties.Calls.{dispatch, auto_breed, do_breed}
use substrate_kitties.Kitties.Unsigned.{
  valid, accepted, saturating_suc, validate_solution, validate_unsigned,
}
use substrate_kitties.Kitties.Valid.{token, IsValid}
use substrate_kitties.Kitties.Effects.Breed.{
  Parents, Bred, kitten, do_breed-Bred, auto_breed-do_breed, do_breed_fails,
}
use substrate_kitties.Kitties.Ownership.{dispatch_keeps}
use substrate_kitties.Kitties.Atomic.{dispatch-err}
use substrate_kitties.Kitties.Worker.{
  Generator, GeneratorIsLawful, done, run_offchain_worker, offchain_worker,
}
use substrate_kitties.Kitties.Worker.Laws.{worker-Submitted}
use substrate_kitties.Kitties.Chain.{
  Step, called, validated, paid, validate_unsigned_frame, IsTracked, Step-IsTracked,
}
use substrate_kitties.Kitties.Replays.{Steps, here, next}

module _ (T : Config) where
  open T use {AccountId}

  -- The kitty of this id is there, with the gender of the data.
  abbrev Lives : State T → ℕ → Kitty → Type 0
  Lives s k kitty = (x : TokenInfo AccountId) × (token s k ≡ some x) × (x.data_of ≡ kitty)

  -- An `auto_breed` of two kitties that exist and differ in gender, with a solution that is valid
  -- under the nonce.
  pub record Promising (nonce : ℕ) (c : Call AccountId) (s : State T) : Type 0 where
    pub k1 : ℕ
    pub k2 : ℕ
    pub solution : ℕ
    pub is_call : c ≡ Call.auto_breed k1 k2 nonce solution
    pub kitty1 : Kitty
    pub kitty2 : Kitty
    pub first : Lives s k1 kitty1
    pub second : Lives s k2 kitty2
    pub differ : gender kitty1 ≢ gender kitty2
    pub solved : validate_solution T k1 k2 nonce solution ≡ some true

  -- The storage in which the nonce has moved on.
  abbrev pub counted : State T → State T
  counted s = record s { auto_breed_nonce = saturating_suc s.auto_breed_nonce }

  module _ (L : NftIsLawful T.nft) where
    Step-Lives :
        {s t : State T} (k : ℕ) {kitty : Kitty}
        → Step T s t
        → IsValid s
        → Lives s k kitty
        → Lives t k kitty
    Step-Lives {s} k (called ctx call origin) v (x, held, is) =
        let (y, held', same) = dispatch_keeps T L ctx s v call origin k x held in
        (y, held', same ∙ is)
    Step-Lives {s} k (validated call h) v (x, held, is) =
        (x, ap (λ (t : State T). token t k) (validate_unsigned_frame T call s h) ∙ held, is)
    Step-Lives k (paid c) v lives = lives

    Steps-IsTracked : {s t : State T} → Steps T s t → IsTracked T s → IsTracked T t
    Steps-IsTracked here h = h
    Steps-IsTracked (next p st) h = Step-IsTracked T L st (Steps-IsTracked p h)

    Steps-Lives :
        {s t : State T} (k : ℕ) {kitty : Kitty}
        → Steps T s t
        → IsTracked T s
        → Lives s k kitty
        → Lives t k kitty
    Steps-Lives k here h lives = lives
    Steps-Lives k (next p st) h lives =
        Step-Lives k st (Steps-IsTracked p h).valid (Steps-Lives k p h lives)

    -- Whatever the chain does, a promising call stays promising.
    pub Steps-Promising :
        {s t : State T} {nonce : ℕ} {c : Call AccountId}
        → Steps T s t
        → IsTracked T s
        → Promising nonce c s
        → Promising nonce c t
    Steps-Promising p h g = record {
      k1 = g.k1;
      k2 = g.k2;
      solution = g.solution;
      is_call = g.is_call;
      kitty1 = g.kitty1;
      kitty2 = g.kitty2;
      first = Steps-Lives g.k1 p h g.first;
      second = Steps-Lives g.k2 p h g.second;
      differ = g.differ;
      solved = g.solved;
    }

    -- What a call of two parents does: they get a kitten, which belongs to the owner that the first
    -- has now; or orml_nft refuses to mint it, and with its error nothing changes.
    pub record Delivers (ctx : Context) (c : Call AccountId) (s : State T) : Type 0 where
      pub k1 : ℕ
      pub k2 : ℕ
      pub nonce : ℕ
      pub solution : ℕ
      pub is_call : c ≡ Call.auto_breed k1 k2 nonce solution
      pub parents : Parents T ctx k1 k2 s
      pub outcome :
          (((dispatch T ctx c none_origin s).0 ≡ ok tt)
            × Bred T ctx parents.x1.owner parents.x1.data_of parents.x2.data_of s
                (dispatch T ctx c none_origin s).1)
          ⊎ ((e : DispatchError Error) × ((T.nft.mint parents.x1.owner s.class_id []
                  (kitten T ctx parents.x1.owner parents.x1.data_of parents.x2.data_of)
                  s.nft).0
                ≡ err e)
              × (dispatch T ctx c none_origin s ≡ (err e, s)))

    pub Promising-validated :
        {c : Call AccountId} (s : State T)
        → Promising s.auto_breed_nonce c s
        → validate_unsigned T c s ≡ some (valid accepted, counted s)
    unfolding validate_unsigned
    Promising-validated s g = rw g.is_call (ground (arith, g.solved))

    Parents-Delivers :
        (ctx : Context) (k1 k2 nonce solution : ℕ) (s : State T) (p : Parents T ctx k1 k2 s)
        → IsValid s
        → gender p.x1.data_of ≢ gender p.x2.data_of
        → Delivers ctx (Call.auto_breed k1 k2 nonce solution) s
    unfolding dispatch
    Parents-Delivers ctx k1 k2 nonce solution s p v differ = record {
      k1 = k1;
      k2 = k2;
      nonce = nonce;
      solution = solution;
      is_call = refl;
      parents = p;
      outcome = elim (Result-cases (auto_breed T ctx none_origin k1 k2 nonce solution s).0) [
        | inl (u, h) ↦
            inl (h, rw same (do_breed-Bred T ctx L s v owner kitty1 kitty2 (rw (← same) h)))
        | inr (e, h) ↦ inr (
          e,
          do_breed_fails T ctx owner kitty1 kitty2 s differ (rw same at h),
          ap₂ (λ r t. (r, t)) h
              (dispatch-err T L ctx (Call.auto_breed k1 k2 nonce solution) none_origin s h),
        )
      ];
    }
      where
        owner : AccountId
        owner = p.x1.owner

        kitty1 : Kitty
        kitty1 = p.x1.data_of

        kitty2 : Kitty
        kitty2 = p.x2.data_of

        same :
            auto_breed T ctx none_origin k1 k2 nonce solution s
            ≡ do_breed T ctx p.x1.owner p.x1.data_of p.x2.data_of s
        same = auto_breed-do_breed T ctx s k1 k2 nonce solution p

    pub Promising-Delivers :
        (ctx : Context) {c : Call AccountId} {nonce : ℕ} (s : State T)
        → IsValid s
        → Promising nonce c s
        → Delivers ctx c s
    Promising-Delivers ctx {c} {nonce} s v g =
        let (x1, held1, is1) = g.first in
        let (x2, held2, is2) = g.second in
        let p : Parents T ctx g.k1 g.k2 s = record {
          x1 = x1;
          x2 = x2;
          held1 = held1;
          held2 = held2;
        } in
        rw g.is_call (
          Parents-Delivers ctx g.k1 g.k2 nonce g.solution s p v
            (λ e. g.differ (ap gender (sym is1) ∙ e ∙ ap gender is2)))

  module _ (L : NftIsLawful T.nft) (G : Generator) where
    worker-Promising :
        GeneratorIsLawful G
        → (locked : Bool) (seed : List ℕ) (s : State T) {c : Call AccountId}
        → offchain_worker T G locked seed s ≡ some (some c)
        → Promising s.auto_breed_nonce c s
    unfolding offchain_worker
    worker-Promising R locked seed s {c} h =
        let sent : run_offchain_worker T G locked seed s ≡ done (some c) = ground arith in
        let w = worker-Submitted T G R locked seed s sent in
        record {
          k1 = w.k1;
          k2 = w.k2;
          solution = w.solution;
          is_call = w.is_call;
          kitty1 = w.x1.data_of;
          kitty2 = w.x2.data_of;
          first = (w.x1, w.held1, refl);
          second = (w.x2, w.held2, refl);
          differ = w.differ;
          solved = w.solved;
        }

    -- With a lawful orml_nft and generator, what the hook submits in a tracked storage stands while
    -- the chain goes on: in every later storage with the same nonce it is accepted, which moves the
    -- nonce on, and is then carried out.
    pub submission_stands :
        GeneratorIsLawful G
        → {s u : State T} → IsTracked T s
        → (locked : Bool) (seed : List ℕ) {c : Call AccountId}
        → offchain_worker T G locked seed s ≡ some (some c)
        → Steps T s u
        → u.auto_breed_nonce ≡ s.auto_breed_nonce
        → (ctx : Context)
        → (validate_unsigned T c u ≡ some (valid accepted, counted u))
          × Delivers L ctx c (counted u)
    submission_stands R {s} {u} t locked seed {c} h p same ctx =
        let g : Promising u.auto_breed_nonce c s = rw same (worker-Promising R locked seed s h) in
        let there = Steps-Promising L p t g in
        let good = Promising-validated L u there in
        let on : Steps T s (counted u) = next p (validated c good) in
        (
          good,
          Promising-Delivers L ctx (counted u) (Steps-IsTracked L on t).valid
              (Steps-Promising L on t g),
        )
