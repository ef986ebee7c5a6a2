-- ===== src/Kitties/Market/Refines.antt =====
-- The calls of pallets/kitties/src/lib.rs that trade in kitties carry out the trades of the market.
use substrate_kitties.Prelude.{
  ℕ, ◌≡◌, sym, ◌∙◌, ap, inl, inr, Bool-cases, Option, Option-cases, none, some, arith,
}
use native.Mathlib.Decide.{dec_le}
use substrate_kitties.Frame.{signed, DispatchError, ok, err, Result-cases}
use substrate_kitties.Kitties.Types.{Error, kitty_transferred, kitty_price_updated, kitty_sold}
use substrate_kitties.Kitties.Config.{Config, Context, NftIsLawful, keep_alive}
use substrate_kitties.Kitties.State.{State}
use substrate_kitties.Kitties.Calls.{dispatch, transfer, set_price, buy}
use substrate_kitties.Kitties.Log.{apply}
use substrate_kitties.Kitties.Valid.{view, IsValid}
use substrate_kitties.Kitties.Guards.{owner_calls_iff}
use substrate_kitties.Kitties.Effects.Transfer.{transfer-Emits, transfer-Silent}
use substrate_kitties.Kitties.Effects.Price.{set_price-Emits}
use substrate_kitties.Kitties.Effects.Buy.{buy-BuySteps, buy-Sold, buy_iff}
use substrate_kitties.Kitties.Market.{
  Trade, give, offer, purchase, call_of, price_of, owned_by, trade,
}
use substrate_kitties.Kitties.Money.{funds-transfer, funds-set_price}
use substrate_kitties.Kitties.Market.Outcome.{
  market_of, outcome, owned_by_iff, outcome-ok, outcome-err, settle-ok, settle-err, not_owned,
}

module _ (T : Config) where
  open T use {AccountId, account_eq, nft, currency}

  module _ (L : NftIsLawful nft) where
    give_refines :
        (who to : AccountId) (k : ℕ) (s : State T)
        → IsValid s
        → outcome T (transfer T (signed who) to k s) ≡ trade T who (give to k) (market_of T s)
    unfolding trade
    give_refines who to k s v = elim (Result-cases (transfer T (signed who) to k s).0) [
      | inl (u, h) ↦
          let owned = (owned_by_iff T who k s).1 ((owner_calls_iff L who to k none s).0.0 h) in
          let kept = funds-transfer T (signed who) to k s in
          elim (account_eq who to) [
            | yes same ↦
                let si = transfer-Silent L who to k s v same h in
                outcome-ok T (transfer T (signed who) to k s) (market_of T s) h si.viewed kept
                ∙ ground arith
            | no other ↦
                let (x, held, own, em) = transfer-Emits L who to k s v other h in
                outcome-ok T (transfer T (signed who) to k s)
                  (record {
                    book = apply (kitty_transferred who to k) (view s);
                    funds = s.currency;
                  })
                  h em.viewed kept
                ∙ ground arith
          ]
      | inr (e, h) ↦
          let owned =
            not_owned T who k s (λ o. let done = (owner_calls_iff L who to k none s).0.1 o in cc) in
          outcome-err T (transfer T (signed who) to k s) h ∙ ground arith
    ]

    offer_refines :
        (who : AccountId) (k : ℕ) (price : Option ℕ) (s : State T)
        → IsValid s
        → outcome T (set_price T (signed who) k price s)
          ≡ trade T who (offer k price) (market_of T s)
    unfolding trade
    offer_refines who k price s v = elim (Result-cases (set_price T (signed who) k price s).0) [
      | inl (u, h) ↦
          let owned = (owned_by_iff T who k s).1 ((owner_calls_iff L who who k price s).1.0 h) in
          let (x, held, own, em) = set_price-Emits L who k price s v h in
          outcome-ok T (set_price T (signed who) k price s)
            (record { book = apply (kitty_price_updated who k price) (view s); funds = s.currency })
            h em.viewed (funds-set_price T (signed who) k price s)
          ∙ ground arith
      | inr (e, h) ↦
          let owned =
            not_owned T who k s
              (λ o. let done = (owner_calls_iff L who who k price s).1.1 o in cc) in
          outcome-err T (set_price T (signed who) k price s) h ∙ ground arith
    ]

    -- A purchase that is carried out is one that the market allows.
    bought :
        (who owner : AccountId) (k max_price : ℕ) (s : State T)
        → IsValid s
        → (buy T (signed who) owner k max_price s).0 ≡ ok tt
        → outcome T (buy T (signed who) owner k max_price s)
          ≡ trade T who (purchase owner k max_price) (market_of T s)
    unfolding trade
    bought who owner k max_price s v h =
        let b = buy-BuySteps who owner k max_price s h in
        let sold = buy-Sold L who owner k max_price s v h in
        let owned = (owned_by_iff T owner k s).1 (sold.info, sold.held, sold.owned) in
        let asked : price_of (view s k) ≡ some b.price = ground (arith, b.offered, sold.held) in
        let paid = currency.transfer who owner b.price keep_alive s.currency in
        let funded : (buy T (signed who) owner k max_price s).1.currency ≡ paid.1 =
          ap (λ (t : State T). t.currency) b.result in
        outcome-ok T (buy T (signed who) owner k max_price s)
          (record { book = apply (kitty_sold owner who k b.price) (view s); funds = paid.1 }) h
          sold.emits.viewed funded
        ∙ ground (
          arith,
          b.other,
          b.affordable,
          settle-ok T paid (apply (kitty_sold owner who k b.price) (view s)) b.paid,
        )

    -- A purchase that fails is one that the market refuses.
    not_bought :
        (who owner : AccountId) (k max_price : ℕ) (s : State T) {e : DispatchError Error}
        → (buy T (signed who) owner k max_price s).0 ≡ err e
        → trade T who (purchase owner k max_price) (market_of T s) ≡ none
    unfolding trade
    not_bought who owner k max_price s {e} h = elim (account_eq who owner) [
      | yes same ↦ ground arith
      | no other ↦ elim (Bool-cases (owned_by T owner (view s k))) [
        | inr missing ↦ ground arith
        | inl owned ↦ elim (Option-cases (price_of (view s k))) [
          | inl unlisted ↦ ground arith
          | inr (price, asked) ↦ elim (dec_le price max_price) [
            | no dear ↦ ground arith
            | yes low ↦
                elim (Result-cases (currency.transfer who owner price keep_alive s.currency).0) [
                  | inr (x, poor) ↦
                      let stopped =
                        settle-err T (currency.transfer who owner price keep_alive s.currency)
                          (apply (kitty_sold owner who k price) (view s)) poor in
                      ground arith
                  | inl (u, paid) ↦
                      let (x, held, own) = (owned_by_iff T owner k s).0 owned in
                      let offered : s.kitty_prices k ≡ some price = ground (arith, held, asked) in
                      let done =
                        (buy_iff L who owner k max_price s).1
                          (other, (x, held, own), (price, offered, low, paid)) in
                      cc
                ]
          ]
        ]
      ]
    ]

    -- On the market a signed call does what the trade does, or fails where the trade is refused.
    pub trade_refines :
        (ctx : Context) (who : AccountId) (t : Trade AccountId) (s : State T)
        → IsValid s
        → outcome T (dispatch T ctx (call_of t) (signed who) s) ≡ trade T who t (market_of T s)
    unfolding dispatch
    trade_refines ctx who (give to k) s v = give_refines who to k s v
    trade_refines ctx who (offer k price) s v = offer_refines who k price s v
    trade_refines ctx who (purchase owner k max_price) s v =
        elim (Result-cases (buy T (signed who) owner k max_price s).0) [
          | inl (u, h) ↦ bought who owner k max_price s v h
          | inr (e, h) ↦
              outcome-err T (buy T (signed who) owner k max_price s) h
              ∙ sym (not_bought who owner k max_price s h)
        ]
