-- ===== src/Kitties/Ownership.antt =====
-- Who may change what about a kitty, in one call of pallets/kitties/src/lib.rs.
use substrate_kitties.Prelude.{
  ℕ, ◌≤◌, ◌≡◌, ◌≢◌, sym, ◌∙◌, ◌⊎◌, inl, inr, Option-cases, none, some, arith,
}
use substrate_kitties.Frame.{Origin, signed}
use substrate_kitties.Kitties.Types.{
  Call, Event, kitty_created, kitty_bred, kitty_transferred, kitty_price_updated, kitty_sold,
}
use substrate_kitties.Kitties.Config.{Config, Context, TokenInfo, NftIsLawful}
use substrate_kitties.Kitties.State.{State}
use substrate_kitties.Kitties.Calls.{dispatch}
use substrate_kitties.Kitties.Valid.{token, IsValid, Emits, Silent}
use substrate_kitties.Kitties.Ledger.{
  Authorised, creation, breeding, auto_breeding, giving, pricing, selling, dispatch-Entitled,
}

module _ {T : Config} where
  open T use {AccountId, account_eq}

  -- The owner gives the kitty away, or the new owner buys it at a price on offer.
  abbrev pub HandedOver :
      State T → Origin AccountId → Call AccountId → ℕ → AccountId → AccountId → Type 0
  HandedOver s origin call k old new =
      ((origin ≡ signed old) × (call ≡ Call.transfer new k))
      ⊎ ((max_price : ℕ) × (price : ℕ) × (origin ≡ signed new)
          × (call ≡ Call.buy old k max_price)
          × (s.kitty_prices k ≡ some price)
          × (price ≤ max_price))

  abbrev OwnedBy : State T → ℕ → AccountId → Type 0
  OwnedBy s k who = (x : TokenInfo AccountId) × (token s k ≡ some x) × (x.owner ≡ who)

  -- The owner of the kitty asked for this price.
  abbrev pub PricedByOwner : State T → ℕ → Origin AccountId → Call AccountId → ℕ → Type 0
  PricedByOwner s k origin call price =
      (x : TokenInfo AccountId) × (token s k ≡ some x)
      × (origin ≡ signed x.owner)
      × (call ≡ Call.set_price k (some price))

  -- What the tokens of the storage say of an event that is about to be emitted.
  abbrev Premise : State T → Event AccountId → Type 0
  Premise s (kitty_created who id kitty) = token s id ≡ none
  Premise s (kitty_bred who id kitty) = token s id ≡ none
  Premise s (kitty_transferred from to k) = OwnedBy s k from
  Premise s (kitty_price_updated who k price) = OwnedBy s k who
  Premise s (kitty_sold from to k price) = OwnedBy s k from

  premise :
      {ctx : Context} {s : State T} {origin : Origin AccountId} {call : Call AccountId}
      {e : Event AccountId}
      → Authorised ctx s origin call e
      → Premise s e
  premise (creation unused _) = unused
  premise (breeding _ _ _ _ _ unused _) = unused
  premise (auto_breeding _ _ _ _ unused _) = unused
  premise (giving held own _) = (_, held, own)
  premise (pricing held own) = (_, held, own)
  premise (selling _ _ _ held own) = (_, held, own)

  -- `x` and `y` are the kitty `k` before and after a step.
  module _ {s s' : State T} (k : ℕ) {x y : TokenInfo AccountId} (held : token s k ≡ some x)
      (held' : token s' k ≡ some y) where
    emitted-HandedOver :
        {ctx : Context} {origin : Origin AccountId} {call : Call AccountId} {e : Event AccountId}
        → Authorised ctx s origin call e
        → Emits e s s'
        → x.owner ≢ y.owner
        → HandedOver s origin call k x.owner y.owner
    emitted-HandedOver (giving h own other) em d =
        inl (ground (arith, em.viewed k), ground (arith, em.viewed k))
    emitted-HandedOver (selling {max_price} {price} offered low other h own) em d = inr (
      max_price,
      price,
      ground (arith, em.viewed k),
      ground (arith, em.viewed k),
      ground (arith, em.viewed k),
      low,
    )
    emitted-HandedOver a em d = absurd (ground (arith, premise a, em.viewed k))

    Silent-owner : Silent s s' → x.owner ≡ y.owner
    Silent-owner si = ground (arith, si.viewed k)

    emitted-delists :
        (e : Event AccountId)
        → Premise s e
        → Emits e s s'
        → x.owner ≢ y.owner
        → s'.kitty_prices k ≡ none
    emitted-delists (kitty_created who id kitty) p em d = absurd (ground (arith, em.viewed k))
    emitted-delists e p em d = ground (arith, em.viewed k)

    emitted_data : (e : Event AccountId) → Premise s e → Emits e s s' → y.data_of ≡ x.data_of
    emitted_data (kitty_created who id kitty) p em = ground (arith, em.viewed k)
    emitted_data e p em = ground (arith, em.viewed k)

    Silent-data : Silent s s' → y.data_of ≡ x.data_of
    Silent-data si = ground (arith, si.viewed k)

  module _ {s s' : State T} (k : ℕ) where
    emitted_kept :
        (e : Event AccountId) {x : TokenInfo AccountId}
        → Premise s e
        → Emits e s s'
        → token s k ≡ some x
        → token s' k ≢ none
    emitted_kept (kitty_created who id kitty) p em h gone = ground (arith, em.viewed k)
    emitted_kept e p em h gone = ground (arith, em.viewed k)

    Silent-kept : {x : TokenInfo AccountId} → Silent s s' → token s k ≡ some x → token s' k ≢ none
    Silent-kept si h gone = ground (arith, si.viewed k)

    Silent-price : IsValid s → Silent s s' → s'.kitty_prices k ≡ s.kitty_prices k
    Silent-price v si = ground (arith, si.viewed k, si.valid.listed k, v.listed k)

    emitted-PricedByOwner :
        {ctx : Context} {origin : Origin AccountId} {call : Call AccountId} {e : Event AccountId}
        {price : ℕ}
        → IsValid s
        → Authorised ctx s origin call e
        → Emits e s s'
        → s'.kitty_prices k ≡ some price
        → s.kitty_prices k ≢ some price
        → PricedByOwner s k origin call price
    emitted-PricedByOwner v (pricing {x} held own) em h d = (
      x,
      ground (arith, em.viewed k, em.valid.listed k, v.listed k),
      ground arith,
      ground (arith, em.viewed k, em.valid.listed k, v.listed k),
    )
    emitted-PricedByOwner v a em h d =
        absurd (ground (arith, premise a, em.viewed k, em.valid.listed k, v.listed k))

module _ (T : Config) (L : NftIsLawful T.nft) (ctx : Context) (s : State T) (v : IsValid s) where
  open T use {AccountId}

  abbrev next : Call AccountId → Origin AccountId → State T
  next call origin = (dispatch T ctx call origin s).1

  -- No kitty changes hands without consent, given a lawful orml_nft and a valid storage. If a kitty
  -- has another owner after a call, then the call is a transfer of it to the new owner, signed by
  -- the old one; or it is a purchase from the old owner, signed by the new one, of a kitty that was
  -- on offer at a price within the buyer's limit.
  pub dispatch-HandedOver :
      (call : Call AccountId) (origin : Origin AccountId) (k : ℕ) (x y : TokenInfo AccountId)
      → token s k ≡ some x
      → token (next call origin) k ≡ some y
      → x.owner ≢ y.owner
      → HandedOver s origin call k x.owner y.owner
  dispatch-HandedOver call origin k x y h h' d = elim (dispatch-Entitled T L ctx s v call origin) [
    | inl si ↦ absurd (d (Silent-owner k h h' si))
    | inr (e, a, em) ↦ emitted-HandedOver k h h' a em d
  ]

  -- With a lawful orml_nft and a valid storage, a kitty that has changed hands in a call is not for
  -- sale: nobody sells at a price that a former owner has set.
  pub dispatch-delists :
      (call : Call AccountId) (origin : Origin AccountId) (k : ℕ) (x y : TokenInfo AccountId)
      → token s k ≡ some x
      → token (next call origin) k ≡ some y
      → x.owner ≢ y.owner
      → (next call origin).kitty_prices k ≡ none
  dispatch-delists call origin k x y h h' d = elim (dispatch-Entitled T L ctx s v call origin) [
    | inl si ↦ absurd (d (Silent-owner k h h' si))
    | inr (e, a, em) ↦ emitted-delists k h h' e (premise a) em d
  ]

  -- With a lawful orml_nft and a valid storage, a kitty that has a price after a call which it did
  -- not have before was priced in that call by its owner: the call is `set_price` of that kitty to
  -- that price, signed by its owner.
  pub dispatch-PricedByOwner :
      (call : Call AccountId) (origin : Origin AccountId) (k price : ℕ)
      → (next call origin).kitty_prices k ≡ some price
      → s.kitty_prices k ≢ some price
      → PricedByOwner s k origin call price
  dispatch-PricedByOwner call origin k price h d =
      elim (dispatch-Entitled T L ctx s v call origin) [
        | inl si ↦ absurd (d (sym (Silent-price k v si) ∙ h))
        | inr (e, a, em) ↦ emitted-PricedByOwner k v a em h d
      ]

  -- With a lawful orml_nft and a valid storage, no call destroys a kitty or changes its data.
  pub dispatch_keeps :
      (call : Call AccountId) (origin : Origin AccountId) (k : ℕ) (x : TokenInfo AccountId)
      → token s k ≡ some x
      → (y : TokenInfo AccountId) × (token (next call origin) k ≡ some y) × (y.data_of ≡ x.data_of)
  dispatch_keeps call origin k x h = elim (dispatch-Entitled T L ctx s v call origin) [
    | inl si ↦ elim (Option-cases (token (next call origin) k)) [
      | inl gone ↦ absurd (Silent-kept k si h gone)
      | inr (y, h') ↦ (y, h', Silent-data k h h' si)
    ]
    | inr (e, a, em) ↦ elim (Option-cases (token (next call origin) k)) [
      | inl gone ↦ absurd (emitted_kept k e (premise a) em h gone)
      | inr (y, h') ↦ (y, h', emitted_data k h h' e (premise a) em)
    ]
  ]
