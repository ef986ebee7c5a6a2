-- ===== src/Kitties/Market.antt =====
-- What trade in kitties is, told without the storage of pallets/kitties/src/lib.rs: who owns which
-- kitty at which price, and the money of the accounts.
pub mod Outcome
pub mod Refines
pub mod Runs
pub mod Bids
pub mod Order
use substrate_kitties.Prelude.{
  ℕ, Bool, true, false, not, ◌||◌, leb, is_yes, if◌then◌else◌, List, [], ◌∷◌, Option, none, some,
}
use substrate_kitties.Frame.{Result, ok, err}
use substrate_kitties.Kitties.Types.{
  Call, Error, kitty_transferred, kitty_price_updated, kitty_sold,
}
use substrate_kitties.Kitties.Config.{Config, keep_alive}
use substrate_kitties.Kitties.Log.{Entry, Book, apply}

-- A kitty given away, its price set, a kitty bought from its owner within a limit.
pub data Trade (A : Type 0) : Type 0 where
  give : A → ℕ → Trade A
  offer : ℕ → Option ℕ → Trade A
  purchase : A → ℕ → ℕ → Trade A

abbrev pub call_of : {A : Type 0} → Trade A → Call A
call_of (give to k) = Call.transfer to k
call_of (offer k price) = Call.set_price k price
call_of (purchase owner k max_price) = Call.buy owner k max_price

abbrev pub price_of : {A : Type 0} → Option (Entry A) → Option ℕ
price_of none = none
price_of (some e) = e.price

module _ (T : Config) where
  open T use {AccountId, account_eq, currency}

  pub record Market : Type 0 where
    pub book : Book AccountId
    pub funds : currency.Storage

  abbrev pub owned_by : AccountId → Option (Entry AccountId) → Bool
  owned_by who none = false
  owned_by who (some e) = is_yes (account_eq e.owner who)

  -- The market after a payment, if it was made.
  abbrev pub settle : Result Error (Unit {0}) × currency.Storage → Book AccountId → Option Market
  settle (ok _, funds) book = some (record { book = book; funds = funds })
  settle (err e, funds) book = none

  -- The market after a trade by `who`; none if the trade is refused.
  unfoldable pub trade : AccountId → Trade AccountId → Market → Option Market
  trade who (give to k) m =
      if owned_by who (m.book k)
      then some (
          if is_yes (account_eq who to)
          then m
          else record m { book = apply (kitty_transferred who to k) m.book })
      else none
  trade who (offer k price) m =
      if owned_by who (m.book k)
      then some (record m { book = apply (kitty_price_updated who k price) m.book })
      else none
  trade who (purchase owner k max_price) m =
      if is_yes (account_eq who owner) || not (owned_by owner (m.book k))
      then none
      else elim (price_of (m.book k)) [
        | none ↦ none
        | some price ↦
            if leb price max_price
            then settle (currency.transfer who owner price keep_alive m.funds)
                (apply (kitty_sold owner who k price) m.book)
            else none
      ]

  -- Trades one after the other: which of them happen, and the market in the end.
  unfoldable pub trades : List (AccountId × Trade AccountId) → Market → List Bool × Market
  unfolding trade
  trades [] m = ([], m)
  trades ((who, t) ∷ ts) m = elim (trade who t m) [
    | none ↦ let (happened, end) = trades ts m in (false ∷ happened, end)
    | some next ↦ let (happened, end) = trades ts next in (true ∷ happened, end)
  ]
