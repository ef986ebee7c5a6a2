-- ===== src/Kitties/Market/Outcome.antt =====
-- The market that a storage of pallets/kitties/src/lib.rs is in, and what a call comes to on it.
use mathlib.Core.Path.{fun_ext, ap₂}
use substrate_kitties.Prelude.{
  ℕ, ◌≡◌, ◌↔◌, refl, inl, inr, true, false, Bool-cases, Option, Option-cases, none, some, arith,
}
use substrate_kitties.Frame.{DispatchError, Result, ok, err}
use substrate_kitties.Kitties.Types.{Error}
use substrate_kitties.Kitties.Config.{Config}
use substrate_kitties.Kitties.State.{State}
use substrate_kitties.Kitties.Log.{Book}
use substrate_kitties.Kitties.Valid.{token, view}
use substrate_kitties.Kitties.Guards.{Owns}
use substrate_kitties.Kitties.Market.{Market, owned_by, settle}

module _ (T : Config) where
  open T use {AccountId, account_eq, nft, currency}

  -- The market that a storage is in.
  abbrev pub market_of : State T → Market T
  market_of s = record { book = view s; funds = s.currency }

  -- What a call comes to on the market.
  abbrev pub outcome : Result Error (Unit {0}) × State T → Option (Market T)
  outcome (ok _, s) = some (market_of s)
  outcome (err e, s) = none

  pub owned_by_iff :
      (who : AccountId) (k : ℕ) (s : State T) → (owned_by T who (view s k) ≡ true) ↔ Owns s who k
  owned_by_iff who k s = elim (Option-cases (token s k)) [
    | inl gone ↦ ((λ h. absurd (ground arith)), (λ (x, held, own). absurd (ground arith)))
    | inr (x, held) ↦ elim (account_eq x.owner who) [
      | yes own ↦ ((λ h. (x, held, own)), (λ o. ground arith))
      | no other ↦ ((λ h. absurd (ground arith)), (λ (y, held', own). absurd (ground arith)))
    ]
  ]

  pub outcome-ok :
      (r : Result Error (Unit {0}) × State T) (m : Market T)
      → r.0 ≡ ok tt
      → ((k : ℕ) → view r.1 k ≡ m.book k)
      → r.1.currency ≡ m.funds
      → outcome r ≡ some m
  outcome-ok (ok _, s) m h viewed funded =
      ap₂
        (λ (b : Book AccountId) (f : currency.Storage).
          let m : Market T = record { book = b; funds = f } in some m)
        (fun_ext viewed) funded
  outcome-ok (err e, s) m h viewed funded = cc

  pub outcome-err :
      (r : Result Error (Unit {0}) × State T) {e : DispatchError Error}
      → r.0 ≡ err e
      → outcome r ≡ none
  outcome-err (ok _, s) h = cc
  outcome-err (err x, s) h = refl

  pub settle-ok :
      (r : Result Error (Unit {0}) × currency.Storage) (book : Book AccountId)
      → r.0 ≡ ok tt
      → settle T r book ≡ some (record { book = book; funds = r.1 })
  settle-ok (ok _, funds) book h = refl
  settle-ok (err e, funds) book h = cc

  pub settle-err :
      (r : Result Error (Unit {0}) × currency.Storage) (book : Book AccountId)
      {e : DispatchError Error}
      → r.0 ≡ err e
      → settle T r book ≡ none
  settle-err (ok _, funds) book h = cc
  settle-err (err x, funds) book h = refl

  pub not_owned :
      (who : AccountId) (k : ℕ) (s : State T) → ¬ Owns s who k → owned_by T who (view s k) ≡ false
  not_owned who k s h = elim (Bool-cases (owned_by T who (view s k))) [
    | inl owned ↦ absurd (h ((owned_by_iff who k s).0 owned))
    | inr e ↦ e
  ]
