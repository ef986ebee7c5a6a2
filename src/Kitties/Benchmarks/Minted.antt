-- ===== src/Kitties/Benchmarks/Minted.antt =====
-- What is ready after the mints of a benchmark's setup.
use substrate_kitties.Prelude.{ℕ, ◌≡◌, ◌≢◌, ◌↔◌, ◌∙◌, Option, refl, inl, inr, [], arith}
use substrate_kitties.Frame.{signed, ok, Result-cases}
use substrate_kitties.Kitties.Types.{Kitty, gender}
use substrate_kitties.Kitties.Config.{Config, Context, NftIsLawful, mint-Minted}
use substrate_kitties.Kitties.State.{State}
use substrate_kitties.Kitties.Calls
use substrate_kitties.Kitties.Effects.Create.{random_kitty}
use substrate_kitties.Kitties.Effects.Breed.{kitten}
use substrate_kitties.Kitties.Guards.{Owns, owner_calls_iff, breeding_iff}
use substrate_kitties.Kitties.Benchmarks.{default_kitty, second_kitty}

module _ {T : Config} where
  open T use {AccountId, nft}

  abbrev pub Mints : AccountId → Kitty → State T → Type 0
  Mints owner kitty s = (id : ℕ) × ((nft.mint owner s.class_id [] kitty s.nft).0 ≡ ok id)

  -- The storage after a mint.
  abbrev pub minted : AccountId → Kitty → State T → State T
  minted owner kitty s = record s { nft = (nft.mint owner s.class_id [] kitty s.nft).1 }

  module _ (N : NftIsLawful nft) where
    pub minted-Owns :
        (owner : AccountId) (kitty : Kitty) (s : State T) {id : ℕ}
        → (nft.mint owner s.class_id [] kitty s.nft).0 ≡ ok id
        → Owns (minted owner kitty s) owner id
    minted-Owns owner kitty s e =
        let m = mint-Minted nft _ (N.mint_lem owner s.class_id [] kitty s.nft) e in
        (_, m.stored, refl)

    pub owner_call_works :
        (caller to : AccountId) (s : State T) {id : ℕ} (price : Option ℕ)
        → (nft.mint caller s.class_id [] default_kitty s.nft).0 ≡ ok id
        → ((Calls.transfer T (signed caller) to id (minted caller default_kitty s)).0 ≡ ok tt)
          × ((Calls.set_price T (signed caller) id price (minted caller default_kitty s)).0 ≡ ok tt)
    owner_call_works caller to s {id} price e =
        let owns = minted-Owns caller default_kitty s e in
        let (moves, prices) =
          owner_calls_iff N caller to id price (minted caller default_kitty s) in
        (moves.1 owns, prices.1 owns)

  module _ (ctx : Context) where
    pub create_needs :
        (caller : AccountId) (s : State T)
        → ((Calls.create T ctx (signed caller) s).0 ≡ ok tt)
          ↔ Mints caller (random_kitty T ctx caller) s
    unfolding Calls.create
    create_needs caller s =
        elim (Result-cases (nft.mint caller s.class_id [] (random_kitty T ctx caller) s.nft).0) [
          | inl (id, e) ↦ ((λ h. (id, e)), (λ m. ground arith))
          | inr (x, e) ↦ ((λ h. absurd (ground arith)), (λ (id, m). absurd (ground arith)))
        ]

    kitten-Mints :
        (caller : AccountId) (t : State T) {kitty1 kitty2 kitty1' kitty2' : Kitty}
        → kitty1 ≡ kitty1'
        → kitty2 ≡ kitty2'
        → Mints caller (kitten T ctx caller kitty1 kitty2) t
        → Mints caller (kitten T ctx caller kitty1' kitty2') t
    kitten-Mints caller t d1 d2 m = rw (← d1, ← d2) m

  module _ (N : NftIsLawful nft) (ctx : Context) where
    pub breed_needs :
        (caller : AccountId) (s : State T) {id1 id2 : ℕ}
        → (nft.mint caller s.class_id [] default_kitty s.nft).0 ≡ ok id1
        → (nft.mint caller s.class_id [] second_kitty (minted caller default_kitty s).nft).0
          ≡ ok id2
        → let t : State T = minted caller second_kitty (minted caller default_kitty s) in
          ((Calls.breed T ctx (signed caller) id1 id2 t).0 ≡ ok tt)
          ↔ Mints caller (kitten T ctx caller default_kitty second_kitty) t
    unfolding gender
    breed_needs caller s {id1} {id2} e1 e2 =
        let s1 : State T = minted caller default_kitty s in
        let t : State T = minted caller second_kitty s1 in
        let m1 = mint-Minted nft _ (N.mint_lem caller s.class_id [] default_kitty s.nft) e1 in
        let m2 = mint-Minted nft _ (N.mint_lem caller s.class_id [] second_kitty s1.nft) e2 in
        let apart : id1 ≢ id2 = λ e. omega (arith, m1.counted, m2.next_id, e) in
        let held1 = m2.others s.class_id id1 (inr apart) ∙ m1.stored in
        let ready = (breeding_iff T ctx caller id1 id2 0 0 t).0 in
        (
          λ h.
              let (p, _, _, (_, mints)) = ready.0 h in
              let d1 : p.x1.data_of ≡ default_kitty = ground (arith, p.held1, held1) in
              let d2 : p.x2.data_of ≡ second_kitty = ground (arith, p.held2, m2.stored) in
              kitten-Mints ctx caller t d1 d2 mints,
          λ mints. ready.1 (
            record { x1 = _; x2 = _; held1 = held1; held2 = m2.stored },
            refl,
            refl,
            ((λ e. cc), mints),
          ),
        )
