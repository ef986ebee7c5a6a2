-- ===== src/Kitties/Money.antt =====
-- Whose money the calls of pallets/kitties/src/lib.rs move.
use substrate_kitties.Prelude.{
  ℕ, ◌+◌, ◌≤◌, ◌≡◌, ◌≢◌, refl, sym, ap, ◌⊎◌, inl, inr, Option, some, arith,
}
use substrate_kitties.Frame.{Origin, root, signed, none_origin, Result-cases}
use substrate_kitties.Kitties.Types.{Call, Kitty}
use substrate_kitties.Kitties.Config.{Config, Context, CurrencyIsLawful}
use substrate_kitties.Kitties.State.{State}
use substrate_kitties.Kitties.Calls.{
  dispatch, create, breed, auto_breed, do_breed, transfer, set_price, buy,
}
use substrate_kitties.Kitties.Atomic.{buy-err}
use substrate_kitties.Kitties.Effects.Buy.{buy-Paid}

module _ (T : Config) where
  open T use {AccountId, account_eq, currency}

  abbrev pub balance : AccountId → State T → ℕ
  balance a s = currency.free_balance a s.currency

  -- A purchase that moves money of the account: of its own signing, which takes the price of the
  -- kitty, within its limit; or from the account as owner, which brings it the price.
  pub record Dealt (s s' : State T) (call : Call AccountId) (origin : Origin AccountId)
      (a : AccountId) : Type 0 where
    pub owner : AccountId
    pub k : ℕ
    pub max_price : ℕ
    pub price : ℕ
    pub is_call : call ≡ Call.buy owner k max_price
    pub offered : s.kitty_prices k ≡ some price
    pub affordable : price ≤ max_price
    pub moved :
        ((origin ≡ signed a) × (balance a s ≡ balance a s' + price))
        ⊎ ((a ≡ owner) × (balance a s' ≡ balance a s + price))

  -- Giving a kitty away or setting its price leaves the money alone.
  pub funds-transfer :
      (origin : Origin AccountId) (to : AccountId) (k : ℕ) (s : State T)
      → (transfer T origin to k s).1.currency ≡ s.currency
  unfolding transfer
  funds-transfer root to k s = refl
  funds-transfer none_origin to k s = refl
  funds-transfer (signed who) to k s = ground arith

  pub funds-set_price :
      (origin : Origin AccountId) (k : ℕ) (price : Option ℕ) (s : State T)
      → (set_price T origin k price s).1.currency ≡ s.currency
  unfolding set_price
  funds-set_price root k price s = refl
  funds-set_price none_origin k price s = refl
  funds-set_price (signed who) k price s = ground arith

  module _ (ctx : Context) where
    -- Breeding leaves the money alone.
    funds-do_breed :
        (owner : AccountId) (kitty1 kitty2 : Kitty) (s : State T)
        → (do_breed T ctx owner kitty1 kitty2 s).1.currency ≡ s.currency
    unfolding do_breed
    funds-do_breed owner kitty1 kitty2 s = ground arith

    funds-create :
        (origin : Origin AccountId) (s : State T) → (create T ctx origin s).1.currency ≡ s.currency
    unfolding create
    funds-create root s = refl
    funds-create none_origin s = refl
    funds-create (signed who) s = ground arith

    funds-breed :
        (origin : Origin AccountId) (k1 k2 : ℕ) (s : State T)
        → (breed T ctx origin k1 k2 s).1.currency ≡ s.currency
    unfolding breed
    funds-breed root k1 k2 s = refl
    funds-breed none_origin k1 k2 s = refl
    funds-breed (signed who) k1 k2 s = grind (arith, funds-do_breed)

    funds-auto_breed :
        (origin : Origin AccountId) (k1 k2 nonce solution : ℕ) (s : State T)
        → (auto_breed T ctx origin k1 k2 nonce solution s).1.currency ≡ s.currency
    unfolding auto_breed
    funds-auto_breed root k1 k2 nonce solution s = refl
    funds-auto_breed (signed who) k1 k2 nonce solution s = refl
    funds-auto_breed none_origin k1 k2 nonce solution s = grind (arith, funds-do_breed)

    module _ (C : CurrencyIsLawful currency) (s : State T) (a : AccountId) where
      buy-Dealt :
          (who owner : AccountId) (k max_price : ℕ)
          → balance a s ≢ balance a (buy T (signed who) owner k max_price s).1
          → Dealt s
              (buy T (signed who) owner k max_price s).1
              (Call.buy owner k max_price)
              (signed who)
              a
      buy-Dealt who owner k max_price changed =
          elim (Result-cases (buy T (signed who) owner k max_price s).0) [
            | inr (e, h) ↦
                absurd
                  (changed (ap (balance a) (sym (buy-err T (signed who) owner k max_price s h))))
            | inl (u, h) ↦
                let (price, offered, low, other, p) = buy-Paid C who owner k max_price s h in
                elim (account_eq a who) [
                  | yes payer ↦ record {
                    owner = owner;
                    k = k;
                    max_price = max_price;
                    price = price;
                    is_call = refl;
                    offered = offered;
                    affordable = low;
                    moved = inl (ap signed (sym payer), rw payer (p.payer other));
                  }
                  | no not_payer ↦ elim (account_eq a owner) [
                    | yes payee ↦ record {
                      owner = owner;
                      k = k;
                      max_price = max_price;
                      price = price;
                      is_call = refl;
                      offered = offered;
                      affordable = low;
                      moved = inr (payee, rw payee (p.payee other));
                    }
                    | no not_payee ↦ absurd (changed (sym (p.others a not_payer not_payee)))
                  ]
                ]
          ]

      kept :
          {funds : currency.Storage}
          → funds ≡ s.currency
          → ¬ (balance a s ≢ currency.free_balance a funds)
      kept e changed = changed (ap (currency.free_balance a) (sym e))

      -- With a currency whose keep-alive transfers are lawful, no money moves without consent. If an account has another balance
      -- after a call, then the call is a purchase, and either the account has signed it, and has paid
      -- the price on offer, which is within its limit; or it is the owner named, and has received it.
      pub dispatch-Dealt :
          (call : Call AccountId) (origin : Origin AccountId)
          → balance a s ≢ balance a (dispatch T ctx call origin s).1
          → Dealt s (dispatch T ctx call origin s).1 call origin a
      unfolding dispatch buy
      dispatch-Dealt Call.create origin h = absurd (kept (funds-create origin s) h)
      dispatch-Dealt (Call.breed k1 k2) origin h = absurd (kept (funds-breed origin k1 k2 s) h)
      dispatch-Dealt (Call.transfer to k) origin h = absurd (kept (funds-transfer origin to k s) h)
      dispatch-Dealt (Call.set_price k price) origin h =
          absurd (kept (funds-set_price origin k price s) h)
      dispatch-Dealt (Call.auto_breed k1 k2 nonce solution) origin h =
          absurd (kept (funds-auto_breed origin k1 k2 nonce solution s) h)
      dispatch-Dealt (Call.buy owner k max_price) (signed who) h = buy-Dealt who owner k max_price h
      dispatch-Dealt (Call.buy owner k max_price) root h = absurd (h refl)
      dispatch-Dealt (Call.buy owner k max_price) none_origin h = absurd (h refl)
