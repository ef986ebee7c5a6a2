-- ===== src/Kitties/Refusals/Sound.antt =====
-- Each reason to refuse a call is met with its error: pallets/kitties/src/lib.rs.
use substrate_kitties.Prelude.{
  ℕ, ◌≡◌, ◌⊎◌, inl, inr, false, Option-cases, Bool-cases, none, some, arith,
}
use substrate_kitties.Frame.{
  Origin, signed, none_origin, DispatchError, bad_origin, module_error, err,
}
use substrate_kitties.Kitties.Types.{Call, Error, Kitty, gender, invalid_kitty_id, same_gender}
use substrate_kitties.Kitties.Config.{Config, Context, NftIsLawful}
use substrate_kitties.Kitties.State.{State}
use substrate_kitties.Kitties.Calls.{
  dispatch, create, breed, auto_breed, transfer, set_price, buy, kitties, do_breed,
}
use substrate_kitties.Kitties.Valid.{token}
use substrate_kitties.Kitties.Guards.{Owns}
use substrate_kitties.Kitties.Effects.Breed.{breed-do_breed, auto_breed-do_breed}
use substrate_kitties.Kitties.Refusals.{
  takes, Refused, wrong_origin, not_parents, no_parents, one_gender, one_gender_auto, not_mine,
  from_self, unlisted, too_dear,
}

module _ {T : Config} where
  open T use {AccountId, account_eq, nft, currency}

  pub kitties_none :
      (who : AccountId) (k : ℕ) (s : State T) → ¬ Owns s who k → kitties T who k s ≡ none
  unfolding kitties
  kitties_none who k s not_his = elim (Option-cases (token s k)) [
    | inl gone ↦ ground arith
    | inr (x, held) ↦ elim (account_eq x.owner who) [
      | yes his ↦ absurd (not_his (x, held, his))
      | no other ↦ ground arith
    ]
  ]

  pub kitties_some :
      (who : AccountId) (k : ℕ) (s : State T) (o : Owns s who k)
      → kitties T who k s ≡ some o.0.data_of
  unfolding kitties
  kitties_some who k s (x, held, his) = ground arith

  pub kitties-Owns : (who : AccountId) (k : ℕ) (s : State T) → Dec (Owns s who k)
  kitties-Owns who k s = elim (Option-cases (token s k)) [
    | inl gone ↦ no (λ (x, held, his). cc)
    | inr (x, held) ↦ elim (account_eq x.owner who) [
      | yes his ↦ yes (x, held, his)
      | no other ↦ no (λ (y, held', his). other (ground arith))
    ]
  ]

  module _ (L : NftIsLawful nft) (ctx : Context) where
    wrong_origin_refused :
        (c : Call AccountId) (origin : Origin AccountId) (s : State T)
        → takes c origin ≡ false
        → dispatch T ctx c origin s ≡ (err bad_origin, s)
    unfolding dispatch create breed transfer set_price buy auto_breed
    wrong_origin_refused Call.create origin s h = ground arith
    wrong_origin_refused (Call.breed k1 k2) origin s h = ground arith
    wrong_origin_refused (Call.transfer to k) origin s h = ground arith
    wrong_origin_refused (Call.set_price k price) origin s h = ground arith
    wrong_origin_refused (Call.buy owner k max_price) origin s h = ground arith
    wrong_origin_refused (Call.auto_breed k1 k2 nonce solution) origin s h = ground arith

    breed_refused :
        (who : AccountId) (k1 k2 : ℕ) (s : State T)
        → ¬ (Owns s who k1 × Owns s who k2)
        → breed T ctx (signed who) k1 k2 s ≡ (err (module_error invalid_kitty_id), s)
    unfolding breed
    breed_refused who k1 k2 s h = elim (kitties-Owns who k1 s) [
      | no not_his ↦ let e = kitties_none who k1 s not_his in ground arith
      | yes o1 ↦
          let e1 = kitties_some who k1 s o1 in
          let e2 = kitties_none who k2 s (λ o2. h (o1, o2)) in ground arith
    ]

    missing_refused :
        (k1 k2 nonce solution : ℕ) (s : State T)
        → (token s k1 ≡ none) ⊎ (token s k2 ≡ none)
        → auto_breed T ctx none_origin k1 k2 nonce solution s
          ≡ (err (module_error invalid_kitty_id), s)
    unfolding auto_breed
    missing_refused k1 k2 nonce solution s (inl e) = ground arith
    missing_refused k1 k2 nonce solution s (inr e) = elim (Option-cases (token s k1)) [
      | inl gone ↦ ground arith
      | inr (x, held) ↦ ground arith
    ]

    one_gender_refused :
        (owner : AccountId) (kitty1 kitty2 : Kitty) (s : State T)
        → gender kitty1 ≡ gender kitty2
        → do_breed T ctx owner kitty1 kitty2 s ≡ (err (module_error same_gender), s)
    unfolding do_breed
    one_gender_refused owner kitty1 kitty2 s h = ground arith

    -- With a lawful orml_nft, for each reason that there is to refuse a call, the call fails with that reason's error and changes nothing.
    pub Refused-dispatch :
        {s : State T} {c : Call AccountId} {origin : Origin AccountId} {e : DispatchError Error}
        → Refused s c origin e
        → dispatch T ctx c origin s ≡ (err e, s)
    unfolding dispatch set_price buy
    Refused-dispatch {s} (wrong_origin {c} {origin} h) = wrong_origin_refused c origin s h
    Refused-dispatch {s} (not_parents {who} {k1} {k2} h) = breed_refused who k1 k2 s h
    Refused-dispatch {s} (no_parents {k1} {k2} {nonce} {solution} h) =
        missing_refused k1 k2 nonce solution s h
    Refused-dispatch {s} (one_gender {who} {k1} {k2} p1 p2 same) =
        rw (breed-do_breed T ctx s who k1 k2 (kitties_some who k1 s p1) (kitties_some who k2 s p2))
          (one_gender_refused who p1.0.data_of p2.0.data_of s same)
    Refused-dispatch {s} (one_gender_auto {k1} {k2} {nonce} {solution} {x1} {x2} e1 e2 same) =
        rw
          (auto_breed-do_breed T ctx s k1 k2 nonce solution
            (record { x1 = x1; x2 = x2; held1 = e1; held2 = e2 }))
          (one_gender_refused x1.owner x1.data_of x2.data_of s same)
    Refused-dispatch {s} (not_mine {who} {k} {price} h) =
        elim (Bool-cases (nft.tokens_by_owner who (s.class_id, k) s.nft)) [
          | inl listed ↦ absurd (h ((L.tokens_by_owner_iff who s.class_id k s.nft).0 listed))
          | inr e ↦ ground arith
        ]
    Refused-dispatch {s} (from_self same) = ground arith
    Refused-dispatch {s} (unlisted other h) = ground arith
    Refused-dispatch {s} (too_dear other h low) = ground arith
