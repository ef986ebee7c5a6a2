-- ===== src/Kitties/Replays.antt =====
-- The nonce of `auto_breed` over the life of the chain ("Nonce for auto breed to prevent replay
-- attack", pallets/kitties/src/lib.rs).
use substrate_kitties.Prelude.{◌≤◌, ◌<◌, ◌≡◌, inl, inr, some, arith}
use substrate_kitties.Kitties.Types.{Call}
use substrate_kitties.Kitties.Config.{Config, NftIsLawful}
use substrate_kitties.Kitties.State.{State}
use substrate_kitties.Kitties.Unsigned.{
  u32_max, bad_proof, Validity, valid, invalid, ValidTransaction, saturating_suc, validate_unsigned,
}
use substrate_kitties.Kitties.Ledger.{dispatch-Entitled}
use substrate_kitties.Kitties.Chain.{
  Step, called, validated, paid, Reach, genesis, later, build_steps, IsTracked, Step-IsTracked,
  Reach-IsTracked,
}

module _ (T : Config) where
  -- Storages that one storage leads to.
  pub data Steps (s : State T) : State T → Type 0 where
    here : Steps s s
    next : {t u : State T} → Steps s t → Step T t u → Steps s u

  pub Reach-Steps : {s t : State T} → Reach T s → Steps s t → Reach T t
  Reach-Steps r here = r
  Reach-Steps r (next p st) = later (Reach-Steps r p) st

  pub Steps-append : {s t u : State T} → Steps s t → Steps t u → Steps s u
  Steps-append p here = p
  Steps-append p (next q st) = next (Steps-append p q) st

  -- A validation accepts only the current nonce, and moves it on unless it is the last.
  accepted_nonce :
      (call : Call T.AccountId) (s : State T) {v : ValidTransaction} {s' : State T}
      → validate_unsigned T call s ≡ some (valid v, s')
      → s'.auto_breed_nonce ≡ saturating_suc s.auto_breed_nonce
  unfolding validate_unsigned
  accepted_nonce Call.create s h = ground arith
  accepted_nonce call s h = ground arith

  validated-le :
      (call : Call T.AccountId) (s : State T) {o : Validity} {s' : State T}
      → s.auto_breed_nonce ≤ u32_max
      → validate_unsigned T call s ≡ some (o, s')
      → (s.auto_breed_nonce ≤ s'.auto_breed_nonce) × (s'.auto_breed_nonce ≤ u32_max)
  unfolding validate_unsigned
  validated-le Call.create s l h = ground arith
  validated-le call s l h = ground arith

  refused_later :
      (call : Call T.AccountId) (s t : State T) {v : ValidTransaction} {s' : State T}
      → validate_unsigned T call s ≡ some (valid v, s')
      → s.auto_breed_nonce < t.auto_breed_nonce
      → validate_unsigned T call t ≡ some (invalid bad_proof, t)
  unfolding validate_unsigned
  refused_later Call.create s t h l = ground arith
  refused_later call s t h l = ground arith

  -- At the last nonce the guard is gone: a transaction that is accepted there is accepted again in
  -- the storage that this leaves, which stays as it is.
  pub accepted_again :
      (call : Call T.AccountId) (s s' : State T) {v : ValidTransaction}
      → validate_unsigned T call s ≡ some (valid v, s')
      → s.auto_breed_nonce ≡ u32_max
      → validate_unsigned T call s' ≡ some (valid v, s')
  unfolding validate_unsigned
  accepted_again Call.create s s' h l = ground arith
  accepted_again call s s' h l = ground arith

  module _ (L : NftIsLawful T.nft) where
    -- What every storage of the chain keeps: it is tracked, and its nonce fits 32 bits.
    record Kept (s : State T) : Type 0 where
      tracked : IsTracked T s
      fits : s.auto_breed_nonce ≤ u32_max

    Step-nonce :
        {s t : State T}
        → Step T s t
        → Kept s
        → (s.auto_breed_nonce ≤ t.auto_breed_nonce) × (t.auto_breed_nonce ≤ u32_max)
    Step-nonce {s} (called ctx call origin) k =
        elim (dispatch-Entitled T L ctx s k.tracked.valid call origin) [
          | inl si ↦ omega (arith, si.nonce_kept)
          | inr (e, a, em) ↦ omega (arith, em.nonce_kept)
        ]
    Step-nonce {s} (validated call h) k = validated-le call s k.fits h
    Step-nonce (paid c) k = omega arith

    Step-Kept : {s t : State T} → Step T s t → Kept s → Kept t
    Step-Kept st k = record {
      tracked = Step-IsTracked T L st k.tracked;
      fits = (Step-nonce st k).1;
    }

    Reach-Kept : {s : State T} → Reach T s → Kept s
    Reach-Kept (genesis {s} b h) = record {
      tracked = Reach-IsTracked T L (genesis b h);
      fits = let (class, e, r) = build_steps T s h in rw r (omega (arith, b.no_nonce));
    }
    Reach-Kept (later r st) = Step-Kept st (Reach-Kept r)

    -- The nonce fits 32 bits.
    pub Reach-nonce : {s : State T} → Reach T s → s.auto_breed_nonce ≤ u32_max
    Reach-nonce r = (Reach-Kept r).fits

    Steps-Kept :
        {s t : State T} → Steps s t → Kept s → (s.auto_breed_nonce ≤ t.auto_breed_nonce) × Kept t
    Steps-Kept here k = (omega arith, k)
    Steps-Kept (next p st) k =
        let (l, k') = Steps-Kept p k in (omega (arith, Step-nonce st k'), Step-Kept st k')

    -- With a lawful orml_nft, an unsigned transaction that is accepted in a reachable storage whose
    -- nonce is below its last value is refused in every storage that the chain comes to afterwards.
    pub never_replayed :
        (call : Call T.AccountId) {s s' t : State T} {v : ValidTransaction}
        → Reach T s
        → validate_unsigned T call s ≡ some (valid v, s')
        → s.auto_breed_nonce < u32_max
        → Steps s' t
        → validate_unsigned T call t ≡ some (invalid bad_proof, t)
    never_replayed call {s} {s'} {t} r h l p =
        let k = Step-Kept (validated call h) (Reach-Kept r) in
        refused_later call s t h (omega (arith, accepted_nonce call s h, (Steps-Kept p k).0))
