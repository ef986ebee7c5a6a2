-- ===== src/Kitties/Guards.antt =====
-- When the calls of pallets/kitties/src/lib.rs succeed.
use substrate_kitties.Prelude.{ℕ, ◌≡◌, ◌≢◌, ◌↔◌, inl, inr, Option, some, [], true, arith}
use substrate_kitties.Frame.{signed, none_origin, ok, Result-cases}
use substrate_kitties.Kitties.Types.{Kitty, gender}
use substrate_kitties.Kitties.Config.{Config, Context, TokenInfo, NftIsLawful, transfer-Moved}
use substrate_kitties.Kitties.State.{State}
use substrate_kitties.Kitties.Calls.{transfer, set_price, kitties, breed, auto_breed, do_breed}
use substrate_kitties.Kitties.Valid.{token}
use substrate_kitties.Kitties.Effects.Breed.{
  kitten, Parents, kitties-token, breed-do_breed, breed_owned, auto_breed-do_breed,
  auto_breed-Parents,
}

module _ {T : Config} where
  open T use {AccountId, account_eq, nft}

  abbrev pub Owns : State T → AccountId → ℕ → Type 0
  Owns s who k = (x : TokenInfo AccountId) × (token s k ≡ some x) × (x.owner ≡ who)

  transfer_moves :
      (who to : AccountId) (k : ℕ) (s : State T)
      → ((transfer T (signed who) to k s).0 ≡ ok tt)
        ↔ ((nft.transfer who to (s.class_id, k) s.nft).0 ≡ ok tt)
  unfolding transfer
  transfer_moves who to k s = elim (account_eq who to) [
    | yes same ↦ ground arith
    | no other ↦ ground arith
  ]

  set_price_asks :
      (who : AccountId) (k : ℕ) (price : Option ℕ) (s : State T)
      → ((set_price T (signed who) k price s).0 ≡ ok tt)
        ↔ (nft.tokens_by_owner who (s.class_id, k) s.nft ≡ true)
  unfolding set_price
  set_price_asks who k price s = ground arith

  -- With a lawful orml_nft, a signed `transfer` and a signed `set_price` both succeed exactly if the
  -- sender owns the kitty.
  pub owner_calls_iff :
      NftIsLawful nft
      → (who to : AccountId) (k : ℕ) (price : Option ℕ) (s : State T)
      → (((transfer T (signed who) to k s).0 ≡ ok tt) ↔ Owns s who k)
        × (((set_price T (signed who) k price s).0 ≡ ok tt) ↔ Owns s who k)
  owner_calls_iff L who to k price s =
      let moves = transfer_moves who to k s in
      let asks = set_price_asks who k price s in
      let listed = L.tokens_by_owner_iff who s.class_id k s.nft in
      (
        (
          (λ e.
              let m = transfer-Moved nft _ (L.transfer_lem who to s.class_id k s.nft) (moves.0 e) in
              (m.info, m.held, m.owned)),
          (λ (x, held, own). moves.1 (L.transfer-by_owner who to s.class_id k s.nft held own)),
        ),
        ((λ e. listed.0 (asks.0 e)), (λ o. asks.1 (listed.1 o))),
      )

module _ (T : Config) (ctx : Context) where
  open T use {AccountId, nft}

  -- Two parents of different gender, for which orml_nft mints the kitten.
  abbrev pub CanBreed : AccountId → Kitty → Kitty → State T → Type 0
  CanBreed owner kitty1 kitty2 s =
      (gender kitty1 ≢ gender kitty2)
      × ((id : ℕ) × ((nft.mint owner s.class_id [] (kitten T ctx owner kitty1 kitty2) s.nft).0
            ≡ ok id))

  do_breed_iff :
      (owner : AccountId) (kitty1 kitty2 : Kitty) (s : State T)
      → ((do_breed T ctx owner kitty1 kitty2 s).0 ≡ ok tt) ↔ CanBreed owner kitty1 kitty2 s
  unfolding do_breed
  do_breed_iff owner kitty1 kitty2 s =
      elim (Result-cases
        (nft.mint owner s.class_id [] (kitten T ctx owner kitty1 kitty2) s.nft).0) [
          | inl (id, e) ↦ ((λ h. (ground arith, (id, e))), (λ (d, _). ground arith))
          | inr (x, e) ↦
              ((λ h. absurd (ground arith)), (λ (d, (id, minted)). absurd (ground arith)))
        ]

  kitties_held :
      (who : AccountId) (k : ℕ) (s : State T) (x : TokenInfo AccountId)
      → token s k ≡ some x
      → x.owner ≡ who
      → kitties T who k s ≡ some x.data_of
  unfolding kitties
  kitties_held who k s x held own = ground arith

  -- A signed `breed` succeeds exactly if the sender owns both parents, they differ in gender, and
  -- orml_nft mints the kitten for the sender; an unsigned `auto_breed` exactly if both parents exist,
  -- they differ in gender, and orml_nft mints the kitten for the owner of the first.
  pub breeding_iff :
      (who : AccountId) (k1 k2 nonce solution : ℕ) (s : State T)
      → (((breed T ctx (signed who) k1 k2 s).0 ≡ ok tt) ↔ (
          (p : Parents T ctx k1 k2 s) × (p.x1.owner ≡ who)
          × (p.x2.owner ≡ who)
          × CanBreed who p.x1.data_of p.x2.data_of s))
        × (((auto_breed T ctx none_origin k1 k2 nonce solution s).0 ≡ ok tt)
            ↔ ((p : Parents T ctx k1 k2 s) × CanBreed p.x1.owner p.x1.data_of p.x2.data_of s))
  breeding_iff who k1 k2 nonce solution s = (
    (
      (λ h.
          let (kitty1, kitty2, e1, e2) = breed_owned T ctx s who k1 k2 h in
          let (x1, held1, own1, d1) = kitties-token who k1 s e1 in
          let (x2, held2, own2, d2) = kitties-token who k2 s e2 in
          let same = breed-do_breed T ctx s who k1 k2 e1 e2 in
          (
            record { x1 = x1; x2 = x2; held1 = held1; held2 = held2 },
            own1,
            own2,
            rw (d1, d2) ((do_breed_iff who kitty1 kitty2 s).0 (rw (← same) h)),
          )),
      (λ (p, own1, own2, can).
          let e1 = kitties_held who k1 s p.x1 p.held1 own1 in
          let e2 = kitties_held who k2 s p.x2 p.held2 own2 in
          rw (breed-do_breed T ctx s who k1 k2 e1 e2) ((do_breed_iff who _ _ s).1 can)),
    ),
    (
      (λ h.
          let p = auto_breed-Parents T ctx s k1 k2 nonce solution h in
          let same = auto_breed-do_breed T ctx s k1 k2 nonce solution p in
          (p, (do_breed_iff _ _ _ s).0 (rw (← same) h))),
      (λ (p, can).
          rw (auto_breed-do_breed T ctx s k1 k2 nonce solution p) ((do_breed_iff _ _ _ s).1 can)),
    ),
  )
