-- ===== src/Kitties/State.antt =====
-- The storage of pallets/kitties/src/lib.rs beside that of the pallets it calls, and the storage
-- operations that the dispatchables use.
use substrate_kitties.Prelude.{ℕ, ◌==◌, if◌then◌else◌, List, [], ◌∷◌, ◌++◌, Option}
use substrate_kitties.Frame.{ok, err, Action, modify}
use substrate_kitties.Kitties.Types.{Event, Error}
use substrate_kitties.Kitties.Config.{Config}

-- `KittyPrices`, `ClassId` and `AutoBreedNonce`; `events` holds what was handed to
-- `deposit_event`, oldest first.
pub record State (T : Config) : Type 0 where
  pub kitty_prices : ℕ → Option ℕ
  pub class_id : ℕ
  pub auto_breed_nonce : ℕ
  pub nft : T.nft.Storage
  pub currency : T.currency.Storage
  pub events : List (Event T.AccountId)

-- A storage map after a write at one key, `none` where the key is removed.
abbrev pub insert {ℓ} : {V : Type ℓ} → ℕ → Option V → (ℕ → Option V) → ℕ → Option V
insert k v m j = if k == j then v else m j

module _ {T : Config} where
  abbrev pub put_price : ℕ → Option ℕ → State T → State T
  put_price k price s = record s { kitty_prices = insert k price s.kitty_prices }

  abbrev pub deposit_event : Event T.AccountId → Action (State T) Error (Unit {0})
  deposit_event e = modify (λ s. record s { events = s.events ++ (e ∷ []) })

  -- A call of orml_nft works on that pallet's part of the storage.
  abbrev pub in_nft : {A : Type 0} → Action T.nft.Storage Error A → Action (State T) Error A
  in_nft m s = let (r, n) = m s.nft in (r, record s { nft = n })

  abbrev pub in_currency :
      {A : Type 0} → Action T.currency.Storage Error A → Action (State T) Error A
  in_currency m s = let (r, c) = m s.currency in (r, record s { currency = c })

  -- `StorageMap::try_mutate_exists`: the closure is given the value under the key and returns with
  -- the one to be left there, which is written only if the closure ends with `Ok`.
  abbrev pub try_mutate_exists :
      {A : Type 0}
      → ℕ
      → (Option ℕ → Action (State T) Error (A × Option ℕ))
      → Action (State T) Error A
  try_mutate_exists k f s =
      let (r, s') = f (s.kitty_prices k) s in
      elim r [ ok (a, price) ↦ (ok a, put_price k price s') | err e ↦ (err e, s') ]
