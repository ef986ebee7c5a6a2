-- ===== src/Kitties/Ledger.antt =====
-- Every call of the pallet on a valid storage, seen from the book of kitties: it changes nothing,
-- or it emits one event that it is entitled to, and the book changes as the event says.
use substrate_kitties.Prelude.{ℕ, ◌≤◌, ◌≡◌, ◌≢◌, refl, ◌⊎◌, inl, inr, Option, none, some}
use substrate_kitties.Frame.{Origin, signed, none_origin, ok, Result-cases}
use substrate_kitties.Kitties.Types.{
  Call, gender, Event, kitty_created, kitty_bred, kitty_transferred, kitty_price_updated,
  kitty_sold,
}
use substrate_kitties.Kitties.Config.{Config, Context, TokenInfo, NftIsLawful}
use substrate_kitties.Kitties.State.{State}
use substrate_kitties.Kitties.Calls.{create, breed, auto_breed, transfer, set_price, buy, dispatch}
use substrate_kitties.Kitties.Atomic.{dispatch-err}
use substrate_kitties.Kitties.Valid.{token, IsValid, Emits, Silent, Silent-refl}
use substrate_kitties.Kitties.Effects.Create.{random_kitty, create-Emits}
use substrate_kitties.Kitties.Effects.Breed.{kitten, breed-Bred, auto_breed-Bred}
use substrate_kitties.Kitties.Effects.Transfer.{transfer-Emits, transfer-Silent}
use substrate_kitties.Kitties.Effects.Price.{set_price-Emits}
use substrate_kitties.Kitties.Effects.Buy.{buy-Sold}

-- Which event a call of which origin may emit in which storage.
module _ {T : Config} where
  open T use {AccountId}

  pub data Authorised (ctx : Context) (s : State T)
      : Origin AccountId → Call AccountId → Event AccountId → Type 0 where
    creation :
        {who : AccountId} {id : ℕ}
        → token s id ≡ none
        → id ≡ T.nft.next_token_id s.class_id s.nft
        → Authorised ctx s (signed who) Call.create (kitty_created who id (random_kitty T ctx who))
    breeding :
        {who : AccountId} {k1 k2 id : ℕ} {x1 x2 : TokenInfo AccountId}
        → token s k1 ≡ some x1
        → token s k2 ≡ some x2
        → x1.owner ≡ who
        → x2.owner ≡ who
        → gender x1.data_of ≢ gender x2.data_of
        → token s id ≡ none
        → id ≡ T.nft.next_token_id s.class_id s.nft
        → Authorised ctx s
            (signed who)
            (Call.breed k1 k2)
            (kitty_bred who id (kitten T ctx who x1.data_of x2.data_of))
    auto_breeding :
        {who : AccountId} {k1 k2 n sol id : ℕ} {x1 x2 : TokenInfo AccountId}
        → token s k1 ≡ some x1
        → token s k2 ≡ some x2
        → x1.owner ≡ who
        → gender x1.data_of ≢ gender x2.data_of
        → token s id ≡ none
        → id ≡ T.nft.next_token_id s.class_id s.nft
        → Authorised ctx s none_origin
            (Call.auto_breed k1 k2 n sol)
            (kitty_bred who id (kitten T ctx who x1.data_of x2.data_of))
    giving :
        {who to : AccountId} {k : ℕ} {x : TokenInfo AccountId}
        → token s k ≡ some x
        → x.owner ≡ who
        → who ≢ to
        → Authorised ctx s (signed who) (Call.transfer to k) (kitty_transferred who to k)
    pricing :
        {who : AccountId} {k : ℕ} {price : Option ℕ} {x : TokenInfo AccountId}
        → token s k ≡ some x
        → x.owner ≡ who
        → Authorised ctx s (signed who) (Call.set_price k price) (kitty_price_updated who k price)
    selling :
        {who owner : AccountId} {k max_price price : ℕ} {x : TokenInfo AccountId}
        → s.kitty_prices k ≡ some price
        → price ≤ max_price
        → who ≢ owner
        → token s k ≡ some x
        → x.owner ≡ owner
        → Authorised ctx s (signed who) (Call.buy owner k max_price) (kitty_sold owner who k price)

  -- What a step may do.
  abbrev pub Entitled : Context → Origin AccountId → Call AccountId → State T → State T → Type 0
  Entitled ctx origin call s s' =
      Silent s s' ⊎ ((e : Event AccountId) × Authorised ctx s origin call e × Emits e s s')

module _ (T : Config) (L : NftIsLawful T.nft) (ctx : Context) (s : State T) (v : IsValid s) where
  open T use {AccountId, account_eq}

  dispatch-Entitled_ok :
      (call : Call AccountId) (origin : Origin AccountId)
      → (dispatch T ctx call origin s).0 ≡ ok tt
      → Entitled ctx origin call s (dispatch T ctx call origin s).1
  unfolding dispatch create breed auto_breed transfer set_price buy
  dispatch-Entitled_ok Call.create (signed who) h =
      let (id, unused, next_id, e) = create-Emits T ctx L who s v h in
      inr (_, creation unused next_id, e)
  dispatch-Entitled_ok (Call.breed k1 k2) (signed who) h =
      let (p, own1, own2, b) = breed-Bred T ctx L s v who k1 k2 h in
      inr (_, breeding p.held1 p.held2 own1 own2 b.differ b.unused b.next_id, b.emits)
  dispatch-Entitled_ok (Call.auto_breed k1 k2 n sol) none_origin h =
      let (p, b) = auto_breed-Bred T ctx L s v k1 k2 n sol h in
      inr (_, auto_breeding p.held1 p.held2 refl b.differ b.unused b.next_id, b.emits)
  dispatch-Entitled_ok (Call.transfer to k) (signed who) h = elim (account_eq who to) [
    | yes same ↦ inl (transfer-Silent L who to k s v same h)
    | no other ↦
        let (x, held, own, e) = transfer-Emits L who to k s v other h in
        inr (_, giving held own other, e)
  ]
  dispatch-Entitled_ok (Call.set_price k price) (signed who) h =
      let (x, held, own, e) = set_price-Emits L who k price s v h in inr (_, pricing held own, e)
  dispatch-Entitled_ok (Call.buy owner k max_price) (signed who) h =
      let b = buy-Sold L who owner k max_price s v h in
      inr (_, selling b.offered b.affordable b.other b.held b.owned, b.emits)
  dispatch-Entitled_ok call origin h = cc

  -- With a lawful orml_nft and a valid storage, whatever the call and its origin, either nothing
  -- changes in the book and no event is emitted, or the one event that is emitted is one to which
  -- this origin is entitled in this storage, a new kitty's id is the next one and unused and its DNA
  -- is the random value or combined from the parents', and the book changes as the event says; the storage stays valid.
  pub dispatch-Entitled :
      (call : Call AccountId) (origin : Origin AccountId)
      → Entitled ctx origin call s (dispatch T ctx call origin s).1
  dispatch-Entitled call origin = elim (Result-cases (dispatch T ctx call origin s).0) [
    | inl (u, e) ↦ dispatch-Entitled_ok call origin e
    | inr (x, e) ↦ inl (rw (dispatch-err T L ctx call origin s e) (Silent-refl s v))
  ]
