-- ===== src/Kitties/Effects/Transfer.antt =====
-- The effects of `transfer` of pallets/kitties/src/lib.rs.
use substrate_kitties.Prelude.{ℕ, ◌≡◌, ◌≢◌, none, some, [], ◌∷◌, ◌++◌, arith}
use substrate_kitties.Frame.{Result, signed, ok}
use substrate_kitties.Kitties.Types.{Error, kitty_transferred}
use substrate_kitties.Kitties.Config.{Config, TokenInfo, NftIsLawful, transfer-Moved, Moved}
use substrate_kitties.Kitties.State.{State, insert}
use substrate_kitties.Kitties.Calls.{transfer}
use substrate_kitties.Kitties.Valid.{
  token, IsValid, Emits, Silent, moved-Emits_transferred, moved-Silent,
}

module _ {T : Config} where
  open T use {AccountId, nft}

  -- orml_nft's transfer inside the call.
  abbrev moving : AccountId → AccountId → ℕ → State T → Result Error (Unit {0}) × nft.Storage
  moving who to k s = nft.transfer who to (s.class_id, k) s.nft

  transfer_other :
      (who to : AccountId) (k : ℕ) (s : State T)
      → who ≢ to
      → (transfer T (signed who) to k s).0 ≡ ok tt
      → ((moving who to k s).0 ≡ ok tt)
        × ((transfer T (signed who) to k s).1 ≡ record s {
          kitty_prices = insert k none s.kitty_prices;
          nft = (moving who to k s).1;
          events = s.events ++ (kitty_transferred who to k ∷ []);
        })
  unfolding transfer
  transfer_other who to k s other h = ground arith

  transfer_self :
      (who to : AccountId) (k : ℕ) (s : State T)
      → who ≡ to
      → (transfer T (signed who) to k s).0 ≡ ok tt
      → ((moving who to k s).0 ≡ ok tt)
        × ((transfer T (signed who) to k s).1 ≡ record s { nft = (moving who to k s).1 })
  unfolding transfer
  transfer_self who to k s same h = ground arith

  module _ (L : NftIsLawful nft) (who to : AccountId) (k : ℕ) (s : State T) (v : IsValid s) where
    moving-Moved :
        (moving who to k s).0 ≡ ok tt → Moved nft who to s.class_id k s.nft (moving who to k s).1
    moving-Moved e = transfer-Moved nft _ (L.transfer_lem who to s.class_id k s.nft) e

    -- A transfer to another account, by the owner only, takes the kitty off sale.
    pub transfer-Emits :
        who ≢ to
        → (transfer T (signed who) to k s).0 ≡ ok tt
        → (x : TokenInfo AccountId) × (token s k ≡ some x)
          × (x.owner ≡ who)
          × Emits (kitty_transferred who to k) s (transfer T (signed who) to k s).1
    transfer-Emits other h =
        let (e, r) = transfer_other who to k s other h in
        let m = moving-Moved e in
        (m.info, m.held, m.owned, rw r (moved-Emits_transferred s v m s.currency))

    -- A transfer to the owner itself changes nothing and emits nothing.
    pub transfer-Silent :
        who ≡ to
        → (transfer T (signed who) to k s).0 ≡ ok tt
        → Silent s (transfer T (signed who) to k s).1
    transfer-Silent same h =
        let (e, r) = transfer_self who to k s same h in
        rw r (moved-Silent s v (moving-Moved e) s.currency same)
