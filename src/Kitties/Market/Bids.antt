-- ===== src/Kitties/Market/Bids.antt =====
-- A trade as it acts on one entry of the book: trade in kitties touches one kitty at a time.
use mathlib.Core.Path.{fun_ext}
use substrate_kitties.Prelude.{
  ℕ, ◌≡◌, ◌≢◌, refl, sym, ◌∙◌, ap, inl, inr, ◌⊎◌, Bool, true, false, not, ◌||◌, leb, is_yes,
  if◌then◌else◌, Option, Bool-cases, Option-cases, none, some, arith, ℕ_discrete,
}
use substrate_kitties.Frame.{Result, ok, err}
use substrate_kitties.Kitties.Types.{Error}
use substrate_kitties.Kitties.Config.{Config, keep_alive}
use substrate_kitties.Kitties.State.{insert}
use substrate_kitties.Kitties.Log.{Entry, Book, update}
use substrate_kitties.Kitties.Market.{
  Trade, give, offer, purchase, price_of, Market, owned_by, settle, trade,
}

abbrev pub kitty_of : {A : Type 0} → Trade A → ℕ
kitty_of (give to k) = k
kitty_of (offer k price) = k
kitty_of (purchase owner k max_price) = k

-- Whether the trade moves no money.
abbrev pub is_free : {A : Type 0} → Trade A → Bool
is_free (give to k) = true
is_free (offer k price) = true
is_free (purchase owner k max_price) = false

module _ {V : Type 0} where
  insert-there : (k : ℕ) (b : ℕ → Option V) → insert k (b k) b ≡ b
  insert-there k b =
      fun_ext (λ j. elim (ℕ_discrete k j) [ yes e ↦ ground arith | no d ↦ ground arith ])

  pub insert-insert :
      (k j : ℕ) (x y : Option V) (b : ℕ → Option V)
      → k ≢ j
      → insert k x (insert j y b) ≡ insert j y (insert k x b)
  insert-insert k j x y b d = fun_ext (λ i. ground arith)

  pub insert_other : (k j : ℕ) (x : Option V) (b : ℕ → Option V) → k ≢ j → insert k x b j ≡ b j
  insert_other k j x b d = ground arith

module _ (T : Config) where
  open T use {AccountId, account_eq, currency}

  abbrev pub paid :
      Result Error (Unit {0}) × currency.Storage
      → Option (Entry AccountId)
      → Option (Option (Entry AccountId) × currency.Storage)
  paid (ok _, funds) e = some (e, funds)
  paid (err x, funds) e = none

  abbrev pub sold_to : AccountId → Option (Entry AccountId) → Option (Entry AccountId)
  sold_to to e = update (λ e. record e { owner = to; price = none }) e

  -- A trade as it acts on its kitty's entry and on the funds.
  unfoldable pub bid :
      AccountId
      → Trade AccountId
      → Option (Entry AccountId)
      → currency.Storage
      → Option (Option (Entry AccountId) × currency.Storage)
  bid who (give to k) e funds =
      if owned_by T who e
      then some (if is_yes (account_eq who to) then e else sold_to to e, funds)
      else none
  bid who (offer k price) e funds =
      if owned_by T who e then some (update (λ e. record e { price = price }) e, funds) else none
  bid who (purchase owner k max_price) e funds =
      if is_yes (account_eq who owner) || not (owned_by T owner e)
      then none
      else elim (price_of e) [
        | none ↦ none
        | some price ↦
            if leb price max_price
            then paid (currency.transfer who owner price keep_alive funds) (sold_to who e)
            else none
      ]

  abbrev pub place :
      ℕ → Market T → Option (Option (Entry AccountId) × currency.Storage) → Option (Market T)
  place k m none = none
  place k m (some (e, funds)) = some (record { book = insert k e m.book; funds = funds })

  place-paid :
      (k : ℕ) (m : Market T) (r : Result Error (Unit {0}) × currency.Storage)
      (e : Option (Entry AccountId))
      → place k m (paid r e) ≡ settle T r (insert k e m.book)
  place-paid k m (ok _, funds) e = refl
  place-paid k m (err x, funds) e = refl

  trade-bid :
      (who : AccountId) (t : Trade AccountId) (m : Market T)
      → trade T who t m ≡ place (kitty_of t) m (bid who t (m.book (kitty_of t)) m.funds)
  unfolding trade bid
  trade-bid who (give to k) m = elim (account_eq who to) [
    | yes same ↦
        let kept : m ≡ record m { book = insert k (m.book k) m.book } =
          ap (λ (b : Book AccountId). let m' : Market T = record m { book = b } in m')
            (sym (insert-there k m.book)) in
        ground arith
    | no other ↦ ground arith
  ]
  trade-bid who (offer k price) m = ground arith
  trade-bid who (purchase owner k max_price) m = elim (Option-cases (price_of (m.book k))) [
    | inl unlisted ↦ ground arith
    | inr (price, asked) ↦
        let settled =
          place-paid k m (currency.transfer who owner price keep_alive m.funds)
            (sold_to who (m.book k)) in
        ground arith
  ]

  -- A trade that moves no money does not look at the funds.
  pub bid_free :
      (who : AccountId) (t : Trade AccountId) (e : Option (Entry AccountId))
      → is_free t ≡ true
      → ((funds : currency.Storage) → bid who t e funds ≡ none)
        ⊎ ((e' : Option (Entry AccountId)) × ((funds : currency.Storage)
              → bid who t e funds ≡ some (e', funds)))
  unfolding bid
  bid_free who (give to k) e free = elim (Bool-cases (owned_by T who e)) [
    | inr other ↦ inl (λ funds. ground arith)
    | inl owned ↦
        inr (if is_yes (account_eq who to) then e else sold_to to e, λ funds. ground arith)
  ]
  bid_free who (offer k price) e free = elim (Bool-cases (owned_by T who e)) [
    | inr other ↦ inl (λ funds. ground arith)
    | inl owned ↦ inr (update (λ e. record e { price = price }) e, λ funds. ground arith)
  ]
  bid_free who (purchase owner k max_price) e free = cc

  -- A trade on a market whose entry for its kitty is known.
  pub trade_at :
      (who : AccountId) (t : Trade AccountId) (m : Market T) {e : Option (Entry AccountId)}
      {o : Option (Option (Entry AccountId) × currency.Storage)}
      → m.book (kitty_of t) ≡ e
      → bid who t e m.funds ≡ o
      → trade T who t m ≡ place (kitty_of t) m o
  trade_at who t m there h =
      trade-bid who t m
      ∙ ap (λ e. place (kitty_of t) m (bid who t e m.funds)) there
      ∙ ap (place (kitty_of t) m) h

  -- The market after an entry has been written.
  abbrev pub written : ℕ → Option (Entry AccountId) → currency.Storage → Market T → Market T
  written k e funds m = record { book = insert k e m.book; funds = funds }
