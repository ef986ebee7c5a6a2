-- ===== src/Kitties/Refusals/Complete.antt =====
-- Every error of a call has its reason: pallets/kitties/src/lib.rs.
use substrate_kitties.Prelude.{
  ℕ, ◌≡◌, refl, ◌⊎◌, inl, inr, false, Option, Option-cases, Bool-cases, none, arith,
}
use native.Mathlib.Decide.{dec_le}
use substrate_kitties.Frame.{
  Origin, root, signed, none_origin, DispatchError, bad_origin, module_error, err, Result-cases,
}
use substrate_kitties.Kitties.Types.{
  Call, Error, Kitty, gender, KittyGender-discrete, invalid_kitty_id, same_gender, not_owner,
  not_for_sale, price_too_low, buy_from_self,
}
use substrate_kitties.Kitties.Config.{Config, Context, NftIsLawful}
use substrate_kitties.Kitties.State.{State}
use substrate_kitties.Kitties.Calls.{
  dispatch, create, breed, auto_breed, transfer, set_price, buy, do_breed,
}
use substrate_kitties.Kitties.Valid.{token}
use substrate_kitties.Kitties.Guards.{Owns}
use substrate_kitties.Kitties.Effects.Create.{random_kitty}
use substrate_kitties.Kitties.Effects.Breed.{kitten, Parents, breed-do_breed, auto_breed-do_breed}
use substrate_kitties.Kitties.Refusals.{
  takes, Minting, Moving, Paying, Refused, wrong_origin, not_parents, no_parents, one_gender,
  one_gender_auto, not_mine, from_self, unlisted, too_dear, Passed,
}
use substrate_kitties.Kitties.Refusals.Sound.{kitties_some, kitties-Owns, Refused-dispatch}

module _ {T : Config} where
  open T use {AccountId, account_eq, nft, currency}

  module _ (L : NftIsLawful nft) (ctx : Context) where
    create_err :
        (who : AccountId) (s : State T) {e : DispatchError Error}
        → (create T ctx (signed who) s).0 ≡ err e
        → Minting s e
    unfolding create
    create_err who s h = (who, random_kitty T ctx who, ground arith)

    do_breed_err :
        (owner : AccountId) (kitty1 kitty2 : Kitty) (s : State T) {e : DispatchError Error}
        → (do_breed T ctx owner kitty1 kitty2 s).0 ≡ err e
        → ((gender kitty1 ≡ gender kitty2) × (e ≡ module_error same_gender)) ⊎ Minting s e
    unfolding do_breed
    do_breed_err owner kitty1 kitty2 s h =
        elim (KittyGender-discrete (gender kitty1) (gender kitty2)) [
          | yes same ↦ inl (same, ground arith)
          | no differ ↦ inr (owner, kitten T ctx owner kitty1 kitty2, ground arith)
        ]

    breed_err :
        (who : AccountId) (k1 k2 : ℕ) (s : State T) {e : DispatchError Error}
        → (breed T ctx (signed who) k1 k2 s).0 ≡ err e
        → Refused s (Call.breed k1 k2) (signed who) e ⊎ Minting s e
    unfolding dispatch
    breed_err who k1 k2 s {e} h = elim (kitties-Owns who k1 s) [
      | no other ↦ nobody (λ (o1, o2). other o1)
      | yes o1 ↦ elim (kitties-Owns who k2 s) [
        | no other ↦ nobody (λ (o1, o2). other o2)
        | yes o2 ↦
            let same =
              breed-do_breed T ctx s who k1 k2 (kitties_some who k1 s o1)
                (kitties_some who k2 s o2) in
            elim (do_breed_err who o1.0.data_of o2.0.data_of s (rw same at h)) [
              | inl (alike, at) ↦ inl (rw at (one_gender o1 o2 alike))
              | inr m ↦ inr m
            ]
      ]
    ]
      where
        nobody :
            ¬ (Owns s who k1 × Owns s who k2)
            → Refused s (Call.breed k1 k2) (signed who) e ⊎ Minting s e
        nobody h' =
            let r = Refused-dispatch L ctx {s = s} (not_parents h') in
            let at : e ≡ module_error invalid_kitty_id = ground (arith, r, h) in
            inl (rw at (not_parents h'))

    auto_breed_err :
        (k1 k2 nonce solution : ℕ) (s : State T) {e : DispatchError Error}
        → (auto_breed T ctx none_origin k1 k2 nonce solution s).0 ≡ err e
        → Refused s (Call.auto_breed k1 k2 nonce solution) none_origin e ⊎ Minting s e
    unfolding dispatch
    auto_breed_err k1 k2 nonce solution s {e} h = elim (Option-cases (token s k1)) [
      | inl gone ↦ missing (inl gone)
      | inr (x1, e1) ↦ elim (Option-cases (token s k2)) [
        | inl gone ↦ missing (inr gone)
        | inr (x2, e2) ↦
            let p : Parents T ctx k1 k2 s = record { x1 = x1; x2 = x2; held1 = e1; held2 = e2 } in
            let same = auto_breed-do_breed T ctx s k1 k2 nonce solution p in
            elim (do_breed_err x1.owner x1.data_of x2.data_of s (rw same at h)) [
              | inl (alike, at) ↦ inl (rw at (one_gender_auto e1 e2 alike))
              | inr m ↦ inr m
            ]
      ]
    ]
      where
        missing :
            (token s k1 ≡ none) ⊎ (token s k2 ≡ none)
            → Refused s (Call.auto_breed k1 k2 nonce solution) none_origin e ⊎ Minting s e
        missing h' =
            let r =
              Refused-dispatch L ctx {s = s}
                (no_parents {nonce = nonce} {solution = solution} h') in
            let at : e ≡ module_error invalid_kitty_id = ground (arith, r, h) in
            inl (rw at (no_parents h'))

    transfer_err :
        (who to : AccountId) (k : ℕ) (s : State T) {e : DispatchError Error}
        → (transfer T (signed who) to k s).0 ≡ err e
        → (nft.transfer who to (s.class_id, k) s.nft).0 ≡ err e
    unfolding transfer
    transfer_err who to k s h = elim (account_eq who to) [
      | yes same ↦ ground arith
      | no other ↦ ground arith
    ]

    buy_err :
        (who owner : AccountId) (k max_price : ℕ) (s : State T) {e : DispatchError Error}
        → (buy T (signed who) owner k max_price s).0 ≡ err e
        → Refused s (Call.buy owner k max_price) (signed who) e ⊎ (Moving s k e ⊎ Paying s e)
    unfolding buy
    buy_err who owner k max_price s {e} h = elim (account_eq who owner) [
      | yes same ↦
          let at : e ≡ module_error buy_from_self = ground arith in rw at (inl (from_self same))
      | no other ↦ elim (Option-cases (s.kitty_prices k)) [
        | inl gone ↦
            let at : e ≡ module_error not_for_sale = ground arith in
            rw at (inl (unlisted other gone))
        | inr (price, offered) ↦ elim (dec_le price max_price) [
          | no dear ↦
              let at : e ≡ module_error price_too_low = ground arith in
              rw at (inl (too_dear other offered (omega arith)))
          | yes low ↦ elim (Result-cases (nft.transfer owner who (s.class_id, k) s.nft).0) [
            | inr (x, refused) ↦ inr (inl (owner, who, ground arith))
            | inl (u, moved) ↦ inr (inr (who, owner, price, ground arith))
          ]
        ]
      ]
    ]

    set_price_err :
        (who : AccountId) (k : ℕ) (price : Option ℕ) (s : State T) {e : DispatchError Error}
        → (set_price T (signed who) k price s).0 ≡ err e
        → Refused s (Call.set_price k price) (signed who) e
    unfolding set_price
    set_price_err who k price s {e} h =
        elim (Bool-cases (nft.tokens_by_owner who (s.class_id, k) s.nft)) [
          | inl listed ↦ absurd (ground arith)
          | inr others ↦
              let at : e ≡ module_error not_owner = ground arith in
              rw at (
                not_mine (λ o. let mine = (L.tokens_by_owner_iff who s.class_id k s.nft).1 o in cc))
        ]

    unsuited :
        (c : Call AccountId) (origin : Origin AccountId) (s : State T) {e : DispatchError Error}
        → takes c origin ≡ false
        → (dispatch T ctx c origin s).0 ≡ err e
        → Refused s c origin e ⊎ Passed s c e
    unsuited c origin s {e} h failed =
        let r = Refused-dispatch L ctx {s = s} (wrong_origin h) in
        let at : e ≡ bad_origin = ground (arith, r, failed) in inl (rw at (wrong_origin h))

    -- With a lawful orml_nft, a call that fails has been refused for one of the reasons, with that
    -- reason's error, or it passes on an error of orml_nft or of the currency; `set_price` passes on
    -- none.
    pub dispatch-Refused :
        (c : Call AccountId) (origin : Origin AccountId) (s : State T) {e : DispatchError Error}
        → (dispatch T ctx c origin s).0 ≡ err e
        → Refused s c origin e ⊎ Passed s c e
    unfolding dispatch
    dispatch-Refused Call.create (signed who) s h = inr (create_err who s h)
    dispatch-Refused (Call.breed k1 k2) (signed who) s h = breed_err who k1 k2 s h
    dispatch-Refused (Call.transfer to k) (signed who) s h =
        inr (who, to, transfer_err who to k s h)
    dispatch-Refused (Call.set_price k price) (signed who) s h = inl (set_price_err who k price s h)
    dispatch-Refused (Call.buy owner k max_price) (signed who) s h =
        buy_err who owner k max_price s h
    dispatch-Refused (Call.auto_breed k1 k2 nonce solution) none_origin s h =
        auto_breed_err k1 k2 nonce solution s h
    dispatch-Refused (Call.auto_breed k1 k2 nonce solution) (signed who) s h = unsuited _ _ s refl h
    dispatch-Refused (Call.auto_breed k1 k2 nonce solution) root s h = unsuited _ _ s refl h
    dispatch-Refused Call.create root s h = unsuited _ _ s refl h
    dispatch-Refused Call.create none_origin s h = unsuited _ _ s refl h
    dispatch-Refused (Call.breed k1 k2) root s h = unsuited _ _ s refl h
    dispatch-Refused (Call.breed k1 k2) none_origin s h = unsuited _ _ s refl h
    dispatch-Refused (Call.transfer to k) root s h = unsuited _ _ s refl h
    dispatch-Refused (Call.transfer to k) none_origin s h = unsuited _ _ s refl h
    dispatch-Refused (Call.set_price k price) root s h = unsuited _ _ s refl h
    dispatch-Refused (Call.set_price k price) none_origin s h = unsuited _ _ s refl h
    dispatch-Refused (Call.buy owner k max_price) root s h = unsuited _ _ s refl h
    dispatch-Refused (Call.buy owner k max_price) none_origin s h = unsuited _ _ s refl h
