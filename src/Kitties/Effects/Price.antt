-- ===== src/Kitties/Effects/Price.antt =====
-- The effects of `set_price` of pallets/kitties/src/lib.rs.
use substrate_kitties.Prelude.{ℕ, ◌≡◌, true, Option, some, [], ◌∷◌, ◌++◌, arith}
use substrate_kitties.Frame.{signed, ok}
use substrate_kitties.Kitties.Types.{kitty_price_updated}
use substrate_kitties.Kitties.Config.{Config, TokenInfo, NftIsLawful}
use substrate_kitties.Kitties.State.{State, insert}
use substrate_kitties.Kitties.Calls.{set_price}
use substrate_kitties.Kitties.Valid.{token, IsValid, Emits, priced-Emits}

module _ {T : Config} where
  open T use {AccountId, nft}

  set_price_steps :
      (who : AccountId) (k : ℕ) (price : Option ℕ) (s : State T)
      → (set_price T (signed who) k price s).0 ≡ ok tt
      → (nft.tokens_by_owner who (s.class_id, k) s.nft ≡ true)
        × ((set_price T (signed who) k price s).1 ≡ record s {
          kitty_prices = insert k price s.kitty_prices;
          events = s.events ++ (kitty_price_updated who k price ∷ []);
        })
  unfolding set_price
  set_price_steps who k price s h = ground arith

  -- Only the owner of a kitty sets its price.
  pub set_price-Emits :
      NftIsLawful nft
      → (who : AccountId) (k : ℕ) (price : Option ℕ) (s : State T) → IsValid s
      → (set_price T (signed who) k price s).0 ≡ ok tt
      → (x : TokenInfo AccountId) × (token s k ≡ some x)
        × (x.owner ≡ who)
        × Emits (kitty_price_updated who k price) s (set_price T (signed who) k price s).1
  set_price-Emits L who k price s v h =
      let (e, r) = set_price_steps who k price s h in
      let (x, held, own) = (L.tokens_by_owner_iff who s.class_id k s.nft).0 e in
      (x, held, own, rw r (priced-Emits s v who k price held))
