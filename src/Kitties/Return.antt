-- ===== src/Kitties/Return.antt =====
-- A kitty that is transferred and transferred back: `transfer` of pallets/kitties/src/lib.rs, twice.
use substrate_kitties.Prelude.{
  ℕ, ◌≡◌, ◌≢◌, sym, ◌∙◌, ap, Option, Option-cases, inl, inr, none, some, arith, ℕ_discrete,
}
use substrate_kitties.Frame.{signed, ok}
use substrate_kitties.Kitties.Types.{kitty_transferred}
use substrate_kitties.Kitties.Config.{Config, NftIsLawful}
use substrate_kitties.Kitties.State.{State, insert}
use substrate_kitties.Kitties.Calls.{transfer}
use substrate_kitties.Kitties.Log.{Entry, Book, update, apply}
use substrate_kitties.Kitties.Valid.{token, entry, view, IsValid}
use substrate_kitties.Kitties.Guards.{Owns, owner_calls_iff}
use substrate_kitties.Kitties.Effects.Transfer.{transfer-Emits}

module _ {A : Type 0} where
  -- The entry of a kitty that is not for sale.
  abbrev pub off_sale : Option (Entry A) → Option (Entry A)
  off_sale e = update (λ e. record e { price = none }) e

  apply_there :
      (b : Book A) (who to : A) (k : ℕ) {e : Entry A}
      → b k ≡ some e
      → apply (kitty_transferred who to k) b k ≡ some (record e { owner = to; price = none })
  apply_there b who to k h = ground arith

  -- Two transfers told to a book.
  apply_back :
      (b b' : Book A) (who to : A) (k : ℕ) {e : Entry A}
      → b k ≡ some e
      → e.owner ≡ who
      → ((j : ℕ) → b' j ≡ apply (kitty_transferred who to k) b j)
      → (j : ℕ) → apply (kitty_transferred to who k) b' j ≡ insert k (off_sale (b k)) b j
  apply_back b b' who to k {e} h own after j =
      let there = after k ∙ apply_there b who to k h in
      elim (ℕ_discrete k j) [
        | yes same ↦ ground (arith, there)
        | no differ ↦ ground (arith, after j)
      ]

module _ {T : Config} where
  open T use {AccountId, nft}

  view-Owns : (s : State T) (k : ℕ) {e : Entry AccountId} → view s k ≡ some e → Owns s e.owner k
  view-Owns s k {e} h = elim (Option-cases (token s k)) [
    | inl gone ↦ absurd (ground arith)
    | inr (x, held) ↦ (x, held, ground arith)
  ]

  module _ (who to : AccountId) (k : ℕ) (s : State T) where
    abbrev pub there : State T
    there = (transfer T (signed who) to k s).1

    abbrev pub and_back : State T
    and_back = (transfer T (signed to) who k there).1

    -- With a lawful orml_nft and a valid storage, a kitty that its owner transfers to another account,
    -- and which that account transfers back, is what it was, but no longer for sale; every other
    -- kitty, with its owner and its price, is what it was, and both transfers succeed.
    pub transfer-transfer :
        NftIsLawful nft
        → IsValid s
        → Owns s who k
        → who ≢ to
        → ((transfer T (signed who) to k s).0 ≡ ok tt)
          × ((transfer T (signed to) who k there).0 ≡ ok tt)
          × ((j : ℕ) → view and_back j ≡ insert k (off_sale (view s k)) (view s) j)
    transfer-transfer L v own other =
        let first = (owner_calls_iff L who to k none s).0.1 own in
        let (x, held, of_who, e1) = transfer-Emits L who to k s v other first in
        let was : view s k ≡ entry (s.kitty_prices k) (some x) =
          ap (entry (s.kitty_prices k)) held in
        let is = e1.viewed k ∙ apply_there (view s) who to k was in
        let second = (owner_calls_iff L to who k none there).0.1 (view-Owns there k is) in
        let (_, _, _, e2) = transfer-Emits L to who k there e1.valid (λ e. other (sym e)) second in
        (
          first,
          second,
          λ j. e2.viewed j ∙ apply_back (view s) (view there) who to k was of_who e1.viewed j,
        )
