-- ===== src/Kitties/Effects/Buy.antt =====
-- The effects of `buy` of pallets/kitties/src/lib.rs.
use substrate_kitties.Prelude.{
  ℕ, ◌≤◌, ◌≡◌, ◌≢◌, ◌↔◌, inl, inr, Option-cases, none, some, [], ◌∷◌, ◌++◌, arith,
}
use substrate_kitties.Frame.{signed, ok}
use substrate_kitties.Kitties.Types.{kitty_sold}
use substrate_kitties.Kitties.Config.{
  Config, NftIsLawful, CurrencyIsLawful, transfer-Moved, TokenInfo, Paid, pay-Paid, keep_alive,
}
use substrate_kitties.Kitties.State.{State, insert}
use substrate_kitties.Kitties.Calls.{buy}
use substrate_kitties.Kitties.Valid.{token, IsValid, Emits, moved-Emits_sold}

module _ {T : Config} where
  open T use {AccountId, nft, currency}

  pub record BuySteps (who owner : AccountId) (k max_price : ℕ) (s s' : State T) : Type 0 where
    pub price : ℕ
    pub offered : s.kitty_prices k ≡ some price
    pub affordable : price ≤ max_price
    pub other : who ≢ owner
    pub moved : (nft.transfer owner who (s.class_id, k) s.nft).0 ≡ ok tt
    pub paid : (currency.transfer who owner price keep_alive s.currency).0 ≡ ok tt
    pub result : s' ≡ record s {
      kitty_prices = insert k none s.kitty_prices;
      nft = (nft.transfer owner who (s.class_id, k) s.nft).1;
      currency = (currency.transfer who owner price keep_alive s.currency).1;
      events = s.events ++ (kitty_sold owner who k price ∷ []);
    }

  pub buy-BuySteps :
      (who owner : AccountId) (k max_price : ℕ) (s : State T)
      → (buy T (signed who) owner k max_price s).0 ≡ ok tt
      → BuySteps who owner k max_price s (buy T (signed who) owner k max_price s).1
  unfolding buy
  buy-BuySteps who owner k max_price s h = elim (Option-cases (s.kitty_prices k)) [
    | inl unlisted ↦ absurd (ground arith)
    | inr (p, e) ↦ record {
      price = p;
      offered = e;
      affordable = ground arith;
      other = ground arith;
      moved = ground arith;
      paid = ground arith;
      result = ground arith;
    }
  ]

  buy_succeeds :
      (who owner : AccountId) (k max_price : ℕ) (s : State T) {price : ℕ}
      → who ≢ owner
      → s.kitty_prices k ≡ some price
      → price ≤ max_price
      → (nft.transfer owner who (s.class_id, k) s.nft).0 ≡ ok tt
      → (currency.transfer who owner price keep_alive s.currency).0 ≡ ok tt
      → (buy T (signed who) owner k max_price s).0 ≡ ok tt
  unfolding buy
  buy_succeeds who owner k max_price s other offered low moved paid = ground arith

  -- The kitty was its owner's and on offer at a price that the buyer accepts, and it is sold.
  pub record Sold (who owner : AccountId) (k max_price : ℕ) (s s' : State T) : Type 0 where
    pub price : ℕ
    pub offered : s.kitty_prices k ≡ some price
    pub affordable : price ≤ max_price
    pub other : who ≢ owner
    pub info : TokenInfo AccountId
    pub held : token s k ≡ some info
    pub owned : info.owner ≡ owner
    pub emits : Emits (kitty_sold owner who k price) s s'

  pub buy-Sold :
      NftIsLawful nft
      → (who owner : AccountId) (k max_price : ℕ) (s : State T) → IsValid s
      → (buy T (signed who) owner k max_price s).0 ≡ ok tt
      → Sold who owner k max_price s (buy T (signed who) owner k max_price s).1
  buy-Sold L who owner k max_price s v h =
      let b = buy-BuySteps who owner k max_price s h in
      let m = transfer-Moved nft _ (L.transfer_lem owner who s.class_id k s.nft) b.moved in
      record {
        price = b.price;
        offered = b.offered;
        affordable = b.affordable;
        other = b.other;
        info = m.info;
        held = m.held;
        owned = m.owned;
        emits = rw b.result (moved-Emits_sold s v m _ b.price);
      }

  -- With a currency whose keep-alive transfers are lawful, after a signed purchase that succeeds the
  -- buyer, another account than the owner, has paid the owner the price that was on offer, which is
  -- no more than the buyer accepts, and no other balance has changed.
  pub buy-Paid :
      CurrencyIsLawful currency
      → (who owner : AccountId) (k max_price : ℕ) (s : State T)
      → (buy T (signed who) owner k max_price s).0 ≡ ok tt
      → (price : ℕ) × (s.kitty_prices k ≡ some price)
        × (price ≤ max_price)
        × (who ≢ owner)
        × Paid currency who owner price s.currency
            (buy T (signed who) owner k max_price s).1.currency
  buy-Paid C who owner k max_price s h =
      let b = buy-BuySteps who owner k max_price s h in
      let post = C.transfer_lem who owner b.price s.currency in
      (b.price, b.offered, b.affordable, b.other, rw b.result (pay-Paid currency _ post b.paid))

  -- With a lawful orml_nft, a signed purchase succeeds exactly if the buyer is another account than
  -- the named owner, who owns the kitty, which is on offer at a price within the buyer's limit,
  -- which the currency transfers from the buyer to the owner without killing the buyer's account.
  pub buy_iff :
      NftIsLawful nft
      → (who owner : AccountId) (k max_price : ℕ) (s : State T)
      → ((buy T (signed who) owner k max_price s).0 ≡ ok tt) ↔ (
          (who ≢ owner)
          × ((x : TokenInfo AccountId) × (token s k ≡ some x) × (x.owner ≡ owner))
          × ((price : ℕ) × (s.kitty_prices k ≡ some price)
              × (price ≤ max_price)
              × ((currency.transfer who owner price keep_alive s.currency).0 ≡ ok tt)))
  buy_iff L who owner k max_price s = (
    λ h.
        let b = buy-BuySteps who owner k max_price s h in
        let m = transfer-Moved nft _ (L.transfer_lem owner who s.class_id k s.nft) b.moved in
        (b.other, (m.info, m.held, m.owned), (b.price, b.offered, b.affordable, b.paid)),
    λ (other, (x, held, own), (price, offered, low, paid)).
        buy_succeeds who owner k max_price s other offered low
          (L.transfer-by_owner owner who s.class_id k s.nft held own) paid,
  )
