-- ===== src/Kitties/Valid.antt =====
-- The invariant of the pallet's storage, its view as a book of kitties, and how the three ways in
-- which the calls change the tokens and the prices act on both.
use substrate_kitties.Prelude.{ℕ, ◌≤◌, ◌≡◌, refl, [], ◌∷◌, ◌++◌, Option, none, some, arith}
use substrate_kitties.Kitties.Types.{
  Kitty, Event, kitty_created, kitty_bred, kitty_transferred, kitty_price_updated, kitty_sold,
}
use substrate_kitties.Kitties.Config.{Config, TokenInfo, Minted, Moved}
use substrate_kitties.Kitties.State.{State, insert}
use substrate_kitties.Kitties.Log.{Entry, Book, apply}

abbrev pub entry : {A : Type 0} → Option ℕ → Option (TokenInfo A) → Option (Entry A)
entry price none = none
entry price (some x) = some (record { owner = x.owner; kitty = x.data_of; price = price })

module _ {T : Config} where
  open T use {AccountId, nft}

  -- The kitty with this id, as orml_nft stores it.
  abbrev pub token : State T → ℕ → Option (TokenInfo AccountId)
  token s k = nft.tokens s.class_id k s.nft

  -- The kitties that exist, with their prices.
  abbrev pub view : State T → Book AccountId
  view s k = entry (s.kitty_prices k) (token s k)

  -- Ids from `next_token_id` on are unused, and only kitties that exist have a price.
  pub record IsValid (s : State T) : Type 0 where
    pub fresh : (k : ℕ) → nft.next_token_id s.class_id s.nft ≤ k → token s k ≡ none
    pub listed : (k : ℕ) → token s k ≡ none → s.kitty_prices k ≡ none

  -- The step from `s` to `s'` emits `e`, and changes the view as the event says.
  pub record Emits (e : Event AccountId) (s s' : State T) : Type 0 where
    pub valid : IsValid s'
    pub class_kept : s'.class_id ≡ s.class_id
    pub nonce_kept : s'.auto_breed_nonce ≡ s.auto_breed_nonce
    pub logged : s'.events ≡ s.events ++ (e ∷ [])
    pub viewed : (k : ℕ) → view s' k ≡ apply e (view s) k

  -- The step from `s` to `s'` emits nothing, and the view stays.
  pub record Silent (s s' : State T) : Type 0 where
    pub valid : IsValid s'
    pub class_kept : s'.class_id ≡ s.class_id
    pub nonce_kept : s'.auto_breed_nonce ≡ s.auto_breed_nonce
    pub unlogged : s'.events ≡ s.events
    pub viewed : (k : ℕ) → view s' k ≡ view s k

  module _ (s : State T) (v : IsValid s) where
    pub Silent-refl : Silent s s
    Silent-refl = record {
      valid = v;
      class_kept = refl;
      nonce_kept = refl;
      unlogged = refl;
      viewed = λ k. refl;
    }

    abbrev after : T.nft.Storage → Event AccountId → State T
    after n e = record s { nft = n; events = s.events ++ (e ∷ []) }

    module _ {who : AccountId} {kitty : Kitty} {id : ℕ} {n : T.nft.Storage}
        (m : Minted nft who s.class_id [] kitty id s.nft n) where
      minted-IsValid : (e : Event AccountId) → IsValid (after n e)
      minted-IsValid e = record {
        fresh = λ k h. ground (arith, m.next_id, m.counted, m.others s.class_id k, v.fresh k);
        listed = λ k h. ground (arith, m.stored, m.others s.class_id k, v.listed k);
      }

      minted_view :
          (e : Event AccountId) (k : ℕ)
          → view (after n e) k ≡ apply (kitty_created who id kitty) (view s) k
      minted_view e k =
          ground (arith, m.next_id, m.stored, m.others s.class_id k, v.fresh id, v.listed id)

      pub minted_unused : token s id ≡ none
      minted_unused = v.fresh id (omega (arith, m.next_id))

      pub minted-Emits_created :
          Emits (kitty_created who id kitty) s (after n (kitty_created who id kitty))
      minted-Emits_created = record {
        valid = minted-IsValid (kitty_created who id kitty);
        class_kept = refl;
        nonce_kept = refl;
        logged = refl;
        viewed = minted_view (kitty_created who id kitty);
      }

      pub minted-Emits_bred : Emits (kitty_bred who id kitty) s (after n (kitty_bred who id kitty))
      minted-Emits_bred = record {
        valid = minted-IsValid (kitty_bred who id kitty);
        class_kept = refl;
        nonce_kept = refl;
        logged = refl;
        viewed = minted_view (kitty_bred who id kitty);
      }

    -- A kitty that changes hands loses its price.
    abbrev moved_to : ℕ → T.nft.Storage → T.currency.Storage → Event AccountId → State T
    moved_to k n c e = record s {
      kitty_prices = insert k none s.kitty_prices;
      nft = n;
      currency = c;
      events = s.events ++ (e ∷ []);
    }

    module _ {from to : AccountId} {id : ℕ} {n : T.nft.Storage}
        (m : Moved nft from to s.class_id id s.nft n) (c : T.currency.Storage) where
      moved-IsValid : (e : Event AccountId) → IsValid (moved_to id n c e)
      moved-IsValid e = record {
        fresh = λ k h. ground (arith, m.held, m.counted, m.others s.class_id k, v.fresh k);
        listed = λ k h. ground (arith, m.others s.class_id k, v.listed k);
      }

      moved_view :
          (e : Event AccountId) (k : ℕ)
          → view (moved_to id n c e) k ≡ apply (kitty_transferred from to id) (view s) k
      moved_view e k = ground (arith, m.held, m.moved, m.others s.class_id k)

      pub moved-Emits_transferred :
          Emits (kitty_transferred from to id) s (moved_to id n c (kitty_transferred from to id))
      moved-Emits_transferred = record {
        valid = moved-IsValid (kitty_transferred from to id);
        class_kept = refl;
        nonce_kept = refl;
        logged = refl;
        viewed = moved_view (kitty_transferred from to id);
      }

      pub moved-Emits_sold :
          (price : ℕ)
          → Emits (kitty_sold from to id price) s (moved_to id n c (kitty_sold from to id price))
      moved-Emits_sold price = record {
        valid = moved-IsValid (kitty_sold from to id price);
        class_kept = refl;
        nonce_kept = refl;
        logged = refl;
        viewed = moved_view (kitty_sold from to id price);
      }

      -- A transfer to the owner itself is no change.
      pub moved-Silent : from ≡ to → Silent s (record s { nft = n })
      moved-Silent same = record {
        valid = record {
          fresh = λ k h. ground (arith, m.held, m.counted, m.others s.class_id k, v.fresh k);
          listed = λ k h. ground (arith, m.moved, m.others s.class_id k, v.listed k);
        };
        class_kept = refl;
        nonce_kept = refl;
        unlogged = refl;
        viewed = λ k. ground (arith, m.held, m.owned, m.moved, m.others s.class_id k);
      }

    abbrev priced : ℕ → Option ℕ → Event AccountId → State T
    priced k price e = record s {
      kitty_prices = insert k price s.kitty_prices;
      events = s.events ++ (e ∷ []);
    }

    pub priced-Emits :
        (who : AccountId) (id : ℕ) (price : Option ℕ) {info : TokenInfo AccountId}
        → token s id ≡ some info
        → Emits
            (kitty_price_updated who id price)
            s
            (priced id price (kitty_price_updated who id price))
    priced-Emits who id price {info} held = record {
      valid = record { fresh = v.fresh; listed = λ k h. ground (arith, v.listed k) };
      class_kept = refl;
      nonce_kept = refl;
      logged = refl;
      viewed = λ k. ground arith;
    }
