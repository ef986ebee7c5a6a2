-- ===== src/Kitties/Market/Runs.antt =====
-- Sequences of the calls of pallets/kitties/src/lib.rs that trade in kitties.
use substrate_kitties.Prelude.{
  ◌≡◌, refl, sym, ◌∙◌, ap, inl, inr, Bool, true, false, List, [], ◌∷◌, map,
}
use substrate_kitties.Frame.{signed, Result, ok, err, Result-cases}
use substrate_kitties.Kitties.Config.{Config, Context, NftIsLawful}
use substrate_kitties.Kitties.State.{State}
use substrate_kitties.Kitties.Calls.{dispatch}
use substrate_kitties.Kitties.Valid.{IsValid}
use substrate_kitties.Kitties.Ledger.{dispatch-Entitled}
use substrate_kitties.Kitties.Atomic.{dispatch-err}
use substrate_kitties.Kitties.Market.{Trade, call_of, trades}
use substrate_kitties.Kitties.Market.Outcome.{market_of, outcome-ok, outcome-err}
use substrate_kitties.Kitties.Market.Refines.{trade_refines}

-- A trade as a transaction: signed, and included in a block.
pub record Transaction (A : Type 0) : Type 0 where
  pub context : Context
  pub who : A
  pub wish : Trade A

abbrev pub trade_of : {A : Type 0} → Transaction A → A × Trade A
trade_of x = (x.who, x.wish)

abbrev pub is_ok : {E A : Type 0} → Result E A → Bool
is_ok (ok a) = true
is_ok (err e) = false

module _ (T : Config) where
  open T use {AccountId}

  -- The transactions one after the other: which of them succeed, and the storage in the end.
  unfoldable pub run : List (Transaction AccountId) → State T → List Bool × State T
  run [] s = ([], s)
  run (x ∷ xs) s =
      let (r, next) = dispatch T x.context (call_of x.wish) (signed x.who) s in
      let (happened, end) = run xs next in (is_ok r ∷ happened, end)

  module _ (L : NftIsLawful T.nft) where
    dispatch-IsValid :
        (ctx : Context) (who : AccountId) (t : Trade AccountId) (s : State T)
        → IsValid s
        → IsValid (dispatch T ctx (call_of t) (signed who) s).1
    dispatch-IsValid ctx who t s v = elim (dispatch-Entitled T L ctx s v (call_of t) (signed who)) [
      | inl si ↦ si.valid
      | inr (e, a, em) ↦ em.valid
    ]

    -- With a lawful orml_nft and a valid storage, any sequence of signed transfers, prices and
    -- purchases does what the trades do on the market that the storage is in: those calls succeed
    -- whose trades are not refused, and the book of owners and prices and the money of all accounts
    -- come out the same.
    pub trades-run :
        (xs : List (Transaction AccountId)) (s : State T)
        → IsValid s
        → trades T (map trade_of xs) (market_of T s) ≡ ((run xs s).0, market_of T (run xs s).1)
    unfolding trades run
    trades-run [] s v = refl
    trades-run (x ∷ xs) s v =
        let done = dispatch T x.context (call_of x.wish) (signed x.who) s in
        let rest = trades-run xs done.1 (dispatch-IsValid x.context x.who x.wish s v) in
        let step = trade_refines T L x.context x.who x.wish s v in
        elim (Result-cases done.0) [
          | inl (u, h) ↦
              let happens = sym step ∙ outcome-ok T done (market_of T done.1) h (λ k. refl) refl in
              rw (happens, h, rest) refl
          | inr (e, h) ↦
              let kept = dispatch-err T L x.context (call_of x.wish) (signed x.who) s h in
              let refused = sym step ∙ outcome-err T done h in
              let same = sym (ap (market_of T) kept) in rw (refused, h, same, rest) refl
        ]
