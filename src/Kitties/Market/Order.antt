-- ===== src/Kitties/Market/Order.antt =====
-- The order of trades: two trades in different kitties, of which one moves no money.
use substrate_kitties.Prelude.{
  ℕ, ◌≡◌, ◌≢◌, refl, sym, ◌∙◌, ap, inl, inr, Bool, true, false, [], ◌∷◌, Option, Option-cases, none,
  some, arith,
}
use substrate_kitties.Kitties.Config.{Config}
use substrate_kitties.Kitties.Log.{Entry}
use substrate_kitties.Kitties.Market.{Trade, Market, trade, trades}
use substrate_kitties.Kitties.Config.{NftIsLawful}
use substrate_kitties.Kitties.State.{State}
use substrate_kitties.Kitties.Valid.{IsValid}
use substrate_kitties.Kitties.Market.Bids.{
  kitty_of, is_free, insert-insert, insert_other, bid, bid_free, trade_at, written,
}
use substrate_kitties.Kitties.Market.Outcome.{market_of}
use substrate_kitties.Kitties.Market.Runs.{Transaction, run, trades-run}

module _ (T : Config) where
  open T use {AccountId, account_eq, currency}

  -- Two trades, made one after the other.
  abbrev happens : Option (Market T) → Bool
  happens none = false
  happens (some m) = true

  abbrev leads : Option (Market T) → Market T → Market T
  leads none m = m
  leads (some next) m = next

  trades-two :
      (who1 who2 : AccountId) (t1 t2 : Trade AccountId) (m : Market T) {o1 o2 : Option (Market T)}
      → trade T who1 t1 m ≡ o1
      → trade T who2 t2 (leads o1 m) ≡ o2
      → trades T ((who1, t1) ∷ (who2, t2) ∷ []) m
        ≡ (happens o1 ∷ happens o2 ∷ [], leads o2 (leads o1 m))
  unfolding trades
  trades-two who1 who2 t1 t2 m {o1 = none} {o2 = none} e1 e2 = ground arith
  trades-two who1 who2 t1 t2 m {o1 = none} {o2 = some m2} e1 e2 = ground arith
  trades-two who1 who2 t1 t2 m {o1 = some m1} {o2 = none} e1 e2 = ground arith
  trades-two who1 who2 t1 t2 m {o1 = some m1} {o2 = some m2} e1 e2 = ground arith

  -- Both orders of two trades: each happens in the one if it does in the other, and the end is the
  -- same.
  pub record Swaps (x y : AccountId × Trade AccountId) (m : Market T) : Type 0 where
    pub first : Bool
    pub second : Bool
    pub end : Market T
    pub in_order : trades T (x ∷ y ∷ []) m ≡ (first ∷ second ∷ [], end)
    pub turned : trades T (y ∷ x ∷ []) m ≡ (second ∷ first ∷ [], end)

  module _ (who1 who2 : AccountId) (t1 t2 : Trade AccountId) (m : Market T)
      (d : kitty_of t1 ≢ kitty_of t2) where
    abbrev k1 : ℕ
    k1 = kitty_of t1

    abbrev k2 : ℕ
    k2 = kitty_of t2

    -- The second trade is refused, whatever the funds.
    Swaps-never :
        ((funds : currency.Storage) → bid T who2 t2 (m.book k2) funds ≡ none)
        → Swaps (who1, t1) (who2, t2) m
    unfolding trades
    Swaps-never never = elim (Option-cases (bid T who1 t1 (m.book k1) m.funds)) [
      | inl none1 ↦
          let e1 = trade_at T who1 t1 m refl none1 in
          let e2 = trade_at T who2 t2 m refl (never m.funds) in
          record {
            first = false;
            second = false;
            end = m;
            in_order = trades-two who1 who2 t1 t2 m e1 e2;
            turned = trades-two who2 who1 t2 t1 m e2 e1;
          }
      | inr ((b1, funds), some1) ↦
          let m1 = written T k1 b1 funds m in
          let e1 = trade_at T who1 t1 m refl some1 in
          let e2 = trade_at T who2 t2 m refl (never m.funds) in
          let e2' = trade_at T who2 t2 m1 (insert_other k1 k2 b1 m.book d) (never funds) in
          record {
            first = true;
            second = false;
            end = m1;
            in_order = trades-two who1 who2 t1 t2 m e1 e2';
            turned = trades-two who2 who1 t2 t1 m e2 e1;
          }
    ]

    -- The second trade is made, whatever the funds.
    Swaps-always :
        (b2 : Option (Entry AccountId))
        → ((funds : currency.Storage) → bid T who2 t2 (m.book k2) funds ≡ some (b2, funds))
        → Swaps (who1, t1) (who2, t2) m
    unfolding trades
    Swaps-always b2 always =
        let m2 = written T k2 b2 m.funds m in
        let e2 = trade_at T who2 t2 m refl (always m.funds) in
        let there = insert_other k2 k1 b2 m.book (λ e. d (sym e)) in
        elim (Option-cases (bid T who1 t1 (m.book k1) m.funds)) [
          | inl none1 ↦
              let e1 = trade_at T who1 t1 m refl none1 in
              let e1' = trade_at T who1 t1 m2 there none1 in
              record {
                first = false;
                second = true;
                end = m2;
                in_order = trades-two who1 who2 t1 t2 m e1 e2;
                turned = trades-two who2 who1 t2 t1 m e2 e1';
              }
          | inr ((b1, funds), some1) ↦
              let m1 = written T k1 b1 funds m in
              let e1 = trade_at T who1 t1 m refl some1 in
              let e1' = trade_at T who1 t1 m2 there some1 in
              let e2' = trade_at T who2 t2 m1 (insert_other k1 k2 b1 m.book d) (always funds) in
              let same = insert-insert k2 k1 b2 b1 m.book (λ e. d (sym e)) in
              record {
                first = true;
                second = true;
                end = written T k2 b2 funds m1;
                in_order = trades-two who1 who2 t1 t2 m e1 e2';
                turned = trades-two who2 who1 t2 t1 m e2 e1' ∙ (rw same refl);
              }
        ]

    -- Two trades in different kitties, of which one is no purchase, may be made in either order.
    pub trades-Swaps : is_free t2 ≡ true → Swaps (who1, t1) (who2, t2) m
    trades-Swaps free = elim (bid_free T who2 t2 (m.book k2) free) [
      | inl never ↦ Swaps-never never
      | inr (b2, always) ↦ Swaps-always b2 always
    ]

  module _ (L : NftIsLawful T.nft) where
    -- With a lawful orml_nft and a valid storage, it makes no difference in which order two signed
    -- transfers, prices or purchases come that are about different kitties, unless both are
    -- purchases: each succeeds in the one order if it does in the other, and in the end the owners,
    -- the prices and the money of all accounts are the same.
    pub run_exchange :
        (x y : Transaction AccountId) (s : State T)
        → IsValid s
        → kitty_of x.wish ≢ kitty_of y.wish
        → is_free y.wish ≡ true
        → (first : Bool) × (second : Bool) × ((run T (x ∷ y ∷ []) s).0 ≡ first ∷ second ∷ [])
          × ((run T (y ∷ x ∷ []) s).0 ≡ second ∷ first ∷ [])
          × (market_of T (run T (x ∷ y ∷ []) s).1 ≡ market_of T (run T (y ∷ x ∷ []) s).1)
    run_exchange x y s v d free =
        let w = trades-Swaps x.who y.who x.wish y.wish (market_of T s) d free in
        let in_order = sym (trades-run T L (x ∷ y ∷ []) s v) ∙ w.in_order in
        let turned = sym (trades-run T L (y ∷ x ∷ []) s v) ∙ w.turned in
        (
          w.first,
          w.second,
          ap (λ r. r.0) in_order,
          ap (λ r. r.0) turned,
          ap (λ r. r.1) in_order ∙ sym (ap (λ r. r.1) turned),
        )
