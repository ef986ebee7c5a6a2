-- ===== src/Kitties/Atomic.antt =====
-- What a failed call of pallets/kitties/src/lib.rs leaves behind.
use substrate_kitties.Prelude.{ℕ, ◌≡◌, refl, Option, [], arith}
use substrate_kitties.Frame.{Origin, root, signed, none_origin, err, DispatchError}
use substrate_kitties.Kitties.Types.{Call, Kitty}
use substrate_kitties.Kitties.Config.{Config, Context, NftIsLawful}
use substrate_kitties.Kitties.State.{State}
use substrate_kitties.Kitties.Calls.{
  random_value, new_dna, create, do_breed, breed, auto_breed, transfer, set_price, buy, dispatch,
}

module _ (T : Config) where
  open T use {AccountId}

  -- A failed purchase leaves the whole storage as it was: no payment, no transfer of the kitty, no
  -- price taken down and no event is left of it.
  pub buy-err :
      (origin : Origin AccountId) (owner : AccountId) (k max_price : ℕ) (s : State T)
      {e : DispatchError _}
      → (buy T origin owner k max_price s).0 ≡ err e
      → (buy T origin owner k max_price s).1 ≡ s
  unfolding buy
  buy-err root owner k max_price s h = refl
  buy-err none_origin owner k max_price s h = refl
  buy-err (signed who) owner k max_price s h = ground arith

  set_price-err :
      (origin : Origin AccountId) (k : ℕ) (price : Option ℕ) (s : State T) {e : DispatchError _}
      → (set_price T origin k price s).0 ≡ err e
      → (set_price T origin k price s).1 ≡ s
  unfolding set_price
  set_price-err root k price s h = refl
  set_price-err none_origin k price s h = refl
  set_price-err (signed who) k price s h = ground arith

module _ (T : Config) (L : NftIsLawful T.nft) where
  open T use {AccountId}

  transfer-err :
      (origin : Origin AccountId) (to : AccountId) (k : ℕ) (s : State T) {e : DispatchError _}
      → (transfer T origin to k s).0 ≡ err e
      → (transfer T origin to k s).1 ≡ s
  unfolding transfer
  transfer-err root to k s h = refl
  transfer-err none_origin to k s h = refl
  transfer-err (signed who) to k s h = ground (arith, L.transfer_lem who to s.class_id k s.nft)

  module _ (ctx : Context) where
    create-err :
        (origin : Origin AccountId) (s : State T) {e : DispatchError _}
        → (create T ctx origin s).0 ≡ err e
        → (create T ctx origin s).1 ≡ s
    unfolding create
    create-err root s h = refl
    create-err none_origin s h = refl
    create-err (signed who) s h =
        ground (arith, L.mint_lem who s.class_id [] (record { dna = random_value T ctx who }) s.nft)

    pub do_breed-err :
        (owner : AccountId) (k1 k2 : Kitty) (s : State T) {e : DispatchError _}
        → (do_breed T ctx owner k1 k2 s).0 ≡ err e
        → (do_breed T ctx owner k1 k2 s).1 ≡ s
    unfolding do_breed
    do_breed-err owner k1 k2 s h = ground (
      arith,
      L.mint_lem owner s.class_id []
          (record { dna = new_dna k1.dna k2.dna (random_value T ctx owner) }) s.nft,
    )

    breed-err :
        (origin : Origin AccountId) (k1 k2 : ℕ) (s : State T) {e : DispatchError _}
        → (breed T ctx origin k1 k2 s).0 ≡ err e
        → (breed T ctx origin k1 k2 s).1 ≡ s
    unfolding breed
    breed-err root k1 k2 s h = refl
    breed-err none_origin k1 k2 s h = refl
    breed-err (signed who) k1 k2 s h = grind (arith, do_breed-err)

    auto_breed-err :
        (origin : Origin AccountId) (k1 k2 n sol : ℕ) (s : State T) {e : DispatchError _}
        → (auto_breed T ctx origin k1 k2 n sol s).0 ≡ err e
        → (auto_breed T ctx origin k1 k2 n sol s).1 ≡ s
    unfolding auto_breed
    auto_breed-err root k1 k2 n sol s h = refl
    auto_breed-err (signed who) k1 k2 n sol s h = refl
    auto_breed-err none_origin k1 k2 n sol s h = grind (arith, do_breed-err)

    -- With a lawful orml_nft, a call that fails leaves the storage as it found it, whichever call
    -- it is.
    pub dispatch-err :
        (call : Call AccountId) (origin : Origin AccountId) (s : State T) {e : DispatchError _}
        → (dispatch T ctx call origin s).0 ≡ err e
        → (dispatch T ctx call origin s).1 ≡ s
    unfolding dispatch
    dispatch-err Call.create origin s h = create-err origin s h
    dispatch-err (Call.breed k1 k2) origin s h = breed-err origin k1 k2 s h
    dispatch-err (Call.transfer to k) origin s h = transfer-err origin to k s h
    dispatch-err (Call.set_price k price) origin s h = set_price-err T origin k price s h
    dispatch-err (Call.buy owner k price) origin s h = buy-err T origin owner k price s h
    dispatch-err (Call.auto_breed k1 k2 n sol) origin s h = auto_breed-err origin k1 k2 n sol s h
