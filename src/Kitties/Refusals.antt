-- ===== src/Kitties/Refusals.antt =====
-- The errors of the calls of pallets/kitties/src/lib.rs, and what each is for.
pub mod Sound
pub mod Complete
use substrate_kitties.Prelude.{
  ℕ, ◌≤◌, ◌<◌, ◌≡◌, ◌≢◌, refl, sym, ◌⊎◌, inl, inr, Bool, true, false, Option, Option-cases,
  Bool-cases, none, some, [], arith,
}
use substrate_kitties.Frame.{
  Origin, root, signed, none_origin, DispatchError, bad_origin, module_error, Result, ok, err,
  Result-cases,
}
use substrate_kitties.Kitties.Types.{
  Call, Error, Kitty, gender, KittyGender-discrete, invalid_kitty_id, same_gender, not_owner,
  not_for_sale, price_too_low, buy_from_self,
}
use substrate_kitties.Kitties.Config.{Config, Context, TokenInfo, NftIsLawful, keep_alive}
use substrate_kitties.Kitties.State.{State}
use substrate_kitties.Kitties.Calls.{
  dispatch, create, breed, auto_breed, transfer, set_price, buy, kitties, do_breed,
}
use substrate_kitties.Kitties.Valid.{token}
use substrate_kitties.Kitties.Guards.{Owns}

module _ {A : Type 0} where
  abbrev pub is_signed : Origin A → Bool
  is_signed root = false
  is_signed (signed who) = true
  is_signed none_origin = false

  -- Whether a call takes the origin.
  abbrev pub takes : Call A → Origin A → Bool
  takes Call.create origin = is_signed origin
  takes (Call.breed k1 k2) origin = is_signed origin
  takes (Call.transfer to k) origin = is_signed origin
  takes (Call.set_price k price) origin = is_signed origin
  takes (Call.buy owner k max_price) origin = is_signed origin
  takes (Call.auto_breed k1 k2 nonce solution) root = false
  takes (Call.auto_breed k1 k2 nonce solution) (signed who) = false
  takes (Call.auto_breed k1 k2 nonce solution) none_origin = true

module _ {T : Config} where
  open T use {AccountId, account_eq, nft, currency}

  -- Errors of orml_nft and of the currency.
  abbrev pub Minting : State T → DispatchError Error → Type 0
  Minting s e =
      (owner : AccountId) × (kitty : Kitty) × ((nft.mint owner s.class_id [] kitty s.nft).0 ≡ err e)

  abbrev pub Moving : State T → ℕ → DispatchError Error → Type 0
  Moving s k e =
      (from : AccountId) × (to : AccountId) × ((nft.transfer from to (s.class_id, k) s.nft).0
        ≡ err e)

  abbrev pub Paying : State T → DispatchError Error → Type 0
  Paying s e =
      (from : AccountId) × (to : AccountId) × (price : ℕ) × ((currency.transfer from to price
          keep_alive s.currency).0
        ≡ err e)

  -- The reasons for which the pallet itself refuses a call, each with its error.
  pub data Refused (s : State T)
      : Call AccountId → Origin AccountId → DispatchError Error → Type 0 where
    wrong_origin :
        {c : Call AccountId} {origin : Origin AccountId}
        → takes c origin ≡ false
        → Refused s c origin bad_origin
    not_parents :
        {who : AccountId} {k1 k2 : ℕ}
        → ¬ (Owns s who k1 × Owns s who k2)
        → Refused s (Call.breed k1 k2) (signed who) (module_error invalid_kitty_id)
    no_parents :
        {k1 k2 nonce solution : ℕ}
        → (token s k1 ≡ none) ⊎ (token s k2 ≡ none)
        → Refused s
            (Call.auto_breed k1 k2 nonce solution)
            none_origin
            (module_error invalid_kitty_id)
    one_gender :
        {who : AccountId} {k1 k2 : ℕ}
        → (p1 : Owns s who k1) → (p2 : Owns s who k2) → gender p1.0.data_of ≡ gender p2.0.data_of
        → Refused s (Call.breed k1 k2) (signed who) (module_error same_gender)
    one_gender_auto :
        {k1 k2 nonce solution : ℕ} {x1 x2 : TokenInfo AccountId}
        → token s k1 ≡ some x1
        → token s k2 ≡ some x2
        → gender x1.data_of ≡ gender x2.data_of
        → Refused s (Call.auto_breed k1 k2 nonce solution) none_origin (module_error same_gender)
    not_mine :
        {who : AccountId} {k : ℕ} {price : Option ℕ}
        → ¬ Owns s who k
        → Refused s (Call.set_price k price) (signed who) (module_error not_owner)
    from_self :
        {who owner : AccountId} {k max_price : ℕ}
        → who ≡ owner
        → Refused s (Call.buy owner k max_price) (signed who) (module_error buy_from_self)
    unlisted :
        {who owner : AccountId} {k max_price : ℕ}
        → who ≢ owner
        → s.kitty_prices k ≡ none
        → Refused s (Call.buy owner k max_price) (signed who) (module_error not_for_sale)
    too_dear :
        {who owner : AccountId} {k max_price price : ℕ}
        → who ≢ owner
        → s.kitty_prices k ≡ some price
        → max_price < price
        → Refused s (Call.buy owner k max_price) (signed who) (module_error price_too_low)

  -- An error that a call of another pallet returned.
  abbrev pub Passed : State T → Call AccountId → DispatchError Error → Type 0
  Passed s Call.create e = Minting s e
  Passed s (Call.breed k1 k2) e = Minting s e
  Passed s (Call.auto_breed k1 k2 nonce solution) e = Minting s e
  Passed s (Call.transfer to k) e = Moving s k e
  Passed s (Call.set_price k price) e = ⊥
  Passed s (Call.buy owner k max_price) e = Moving s k e ⊎ Paying s e
