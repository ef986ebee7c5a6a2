-- ===== src/Kitties/Chain.antt =====
-- The life of the pallet's storage: genesis, then any sequence of calls and of validations of
-- unsigned transactions, between which other pallets may move money. orml_nft has no calls of its
-- own in the runtime (runtime/src/lib.rs), so its tokens change by the calls here alone.
use substrate_kitties.Prelude.{ℕ, ◌≡◌, refl, ◌∙◌, ap, inl, inr, none, some, [], arith}
use mathlib.Core.Path.{fun_ext}
use substrate_kitties.Frame.{Origin, ok, Result-cases}
use substrate_kitties.Kitties.Types.{Call, Event}
use substrate_kitties.Kitties.Config.{
  Config, Context, NftIsLawful, ClassCreated, create_class-ClassCreated,
}
use substrate_kitties.Kitties.State.{State}
use substrate_kitties.Kitties.Calls.{dispatch}
use substrate_kitties.Kitties.Genesis.{build}
use substrate_kitties.Kitties.Unsigned.{Validity, validate_unsigned}
use substrate_kitties.Kitties.Log.{replay, replay-nil, replay-snoc, apply}
use substrate_kitties.Kitties.Valid.{view, IsValid, Emits, Silent}
use substrate_kitties.Kitties.Ledger.{dispatch-Entitled}

module _ (T : Config) where
  open T use {AccountId}

  pub data Step (s : State T) : State T → Type 0 where
    called :
        (ctx : Context) (call : Call AccountId) (origin : Origin AccountId)
        → Step s (dispatch T ctx call origin s).1
    validated :
        (call : Call AccountId) {outcome : Validity} {s' : State T}
        → validate_unsigned T call s ≡ some (outcome, s')
        → Step s s'
    paid : (c : T.currency.Storage) → Step s (record s { currency = c })

  -- The storage of a chain before genesis.
  pub record IsBlank (s : State T) : Type 0 where
    pub no_prices : (k : ℕ) → s.kitty_prices k ≡ none
    pub no_tokens : (class k : ℕ) → T.nft.tokens class k s.nft ≡ none
    pub no_nonce : s.auto_breed_nonce ≡ 0
    pub no_events : s.events ≡ []

  pub data Reach : State T → Type 0 where
    genesis : {s g : State T} → IsBlank s → build T s ≡ some g → Reach g
    later : {s t : State T} → Reach s → Step s t → Reach t

  -- The storage is valid, and its view is what its events tell.
  pub record IsTracked (s : State T) : Type 0 where
    pub valid : IsValid s
    pub told : (k : ℕ) → view s k ≡ replay s.events k

  -- A validation writes at most the nonce.
  pub validate_unsigned_frame :
      (call : Call AccountId) (s : State T) {outcome : Validity} {s' : State T}
      → validate_unsigned T call s ≡ some (outcome, s')
      → s' ≡ record s { auto_breed_nonce = s'.auto_breed_nonce }
  unfolding validate_unsigned
  validate_unsigned_frame Call.create s h = ground arith
  validate_unsigned_frame call s h = ground arith

  nonce-IsTracked :
      {s : State T} (n : ℕ) → IsTracked s → IsTracked (record s { auto_breed_nonce = n })
  nonce-IsTracked n t = record {
    valid = record { fresh = t.valid.fresh; listed = t.valid.listed };
    told = t.told;
  }

  Silent-IsTracked : {s s' : State T} → Silent s s' → IsTracked s → IsTracked s'
  Silent-IsTracked si t = record {
    valid = si.valid;
    told = λ k. rw si.unlogged (si.viewed k ∙ t.told k);
  }

  emitted-IsTracked :
      {s s' : State T} {e : Event AccountId} → Emits e s s' → IsTracked s → IsTracked s'
  emitted-IsTracked {s} {e} em t = record {
    valid = em.valid;
    told = λ k. rw (em.logged, replay-snoc) (em.viewed k ∙ ap (λ b. apply e b k) (fun_ext t.told));
  }

  pub build_steps :
      (s : State T) {g : State T}
      → build T s ≡ some g
      → (class : ℕ) × ((T.nft.create_class T.default_account [] s.nft).0 ≡ ok class)
        × (g ≡ record s {
          nft = (T.nft.create_class T.default_account [] s.nft).1;
          class_id = class;
        })
  unfolding build
  build_steps s h = elim (Result-cases (T.nft.create_class T.default_account [] s.nft).0) [
    | inl (class, e) ↦ (class, e, ground arith)
    | inr (x, e) ↦ absurd (ground arith)
  ]

  created-IsTracked :
      {s : State T} (class : ℕ) (n : T.nft.Storage)
      → IsBlank s
      → ClassCreated T.nft s.nft n
      → IsTracked (record s { nft = n; class_id = class })
  created-IsTracked {s} class n b c = record {
    valid = record {
      fresh = λ k h. c.tokens_kept class k ∙ b.no_tokens class k;
      listed = λ k h. b.no_prices k;
    };
    told = λ k. rw (b.no_events, replay-nil, c.tokens_kept class k, b.no_tokens class k) refl;
  }

  build-IsTracked :
      {s g : State T} → NftIsLawful T.nft → IsBlank s → build T s ≡ some g → IsTracked g
  build-IsTracked {s} L b h =
      let (class, e, r) = build_steps s h in
      rw r (
        created-IsTracked class _ b
          (create_class-ClassCreated T.nft _ (L.create_class_lem T.default_account [] s.nft) e))

  module _ (L : NftIsLawful T.nft) where
    pub Step-IsTracked : {s t : State T} → Step s t → IsTracked s → IsTracked t
    Step-IsTracked {s} (called ctx call origin) t =
        elim (dispatch-Entitled T L ctx s t.valid call origin) [
          | inl si ↦ Silent-IsTracked si t
          | inr (e, a, em) ↦ emitted-IsTracked em t
        ]
    Step-IsTracked {s} (validated call h) t =
        rw (validate_unsigned_frame call s h) (nonce-IsTracked _ t)
    Step-IsTracked (paid c) t = record {
      valid = record { fresh = t.valid.fresh; listed = t.valid.listed };
      told = t.told;
    }

    -- With a lawful orml_nft, in every state that the chain can reach, the kitties, their owners
    -- and their prices are exactly what a reader of the pallet's events has worked out from them,
    -- new ids are unused, and only kitties that exist have a price.
    pub Reach-IsTracked : {s : State T} → Reach s → IsTracked s
    Reach-IsTracked (genesis b h) = build-IsTracked L b h
    Reach-IsTracked (later r st) = Step-IsTracked st (Reach-IsTracked r)
