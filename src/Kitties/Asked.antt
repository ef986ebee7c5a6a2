-- ===== src/Kitties/Asked.antt =====
-- Where the prices come from over the life of the chain: pallets/kitties/src/lib.rs.
use substrate_kitties.Prelude.{
  ℕ, ◌≤◌, ◌≡◌, ◌≢◌, refl, sym, ◌∙◌, ap, Option, Option-cases, inl, inr, none, some, arith,
  ℕ_discrete,
}
use mathlib.Core.Path.{subst}
use substrate_kitties.Frame.{Origin, signed, ok}
use substrate_kitties.Kitties.Types.{Call}
use substrate_kitties.Kitties.Config.{
  Config, Context, NftIsLawful, CurrencyIsLawful, TokenInfo, Paid,
}
use substrate_kitties.Kitties.State.{State}
use substrate_kitties.Kitties.Calls.{dispatch, buy}
use substrate_kitties.Kitties.Valid.{token, IsValid}
use substrate_kitties.Kitties.Guards.{Owns}
use substrate_kitties.Kitties.Ownership.{dispatch-delists, dispatch-PricedByOwner}
use substrate_kitties.Kitties.Effects.Buy.{buy-Sold, buy-Paid}
use substrate_kitties.Kitties.Chain.{
  Step, called, validated, paid, Reach, genesis, later, build_steps, validate_unsigned_frame,
  Reach-IsTracked,
}

module _ (T : Config) where
  open T use {AccountId, account_eq}

  -- On the way to this storage the account, which owned the kitty, has asked for the price in a call
  -- of its own, and after every step since then the kitty has been its own, at that price.
  pub data Asked (k : ℕ) (who : AccountId) (price : ℕ) : (s : State T) → Reach T s → Type 0 where
    asked :
        {s : State T} {r : Reach T s} {ctx : Context} {call : Call AccountId}
        {origin : Origin AccountId}
        → origin ≡ signed who
        → call ≡ Call.set_price k (some price)
        → Owns s who k
        → Asked k who price _ (later r (called ctx call origin))
    still :
        {s t : State T} {r : Reach T s} {st : Step T s t}
        → Asked k who price s r
        → Owns t who k
        → t.kitty_prices k ≡ some price
        → Asked k who price _ (later r st)

  is_price : (o : Option ℕ) (price : ℕ) → Dec (o ≡ some price)
  is_price none price = no (λ e. ground arith)
  is_price (some p) price = elim (ℕ_discrete p price) [
    | yes e ↦ yes (ap some e)
    | no d ↦ no (λ e. d (ground arith))
  ]

  -- A kitty that has a price exists.
  listed_token :
      {s : State T} (k price : ℕ)
      → IsValid s
      → s.kitty_prices k ≡ some price
      → (x : TokenInfo AccountId) × (token s k ≡ some x)
  listed_token {s} k price v h = elim (Option-cases (token s k)) [
    | inl gone ↦ absurd (ground (arith, v.listed k gone))
    | inr held ↦ held
  ]

  module _ (L : NftIsLawful T.nft) where
    -- A kitty that is still for sale after a call has still its owner.
    same_owner :
        (ctx : Context) (s : State T)
        → IsValid s
        → (call : Call AccountId) (origin : Origin AccountId) (k price : ℕ)
          (x y : TokenInfo AccountId)
        → token s k ≡ some x
        → token (dispatch T ctx call origin s).1 k ≡ some y
        → (dispatch T ctx call origin s).1.kitty_prices k ≡ some price
        → x.owner ≡ y.owner
    same_owner ctx s v call origin k price x y h h' p = elim (account_eq x.owner y.owner) [
      | yes e ↦ e
      | no d ↦
          let unlisted = dispatch-delists T L ctx s v call origin k x y h h' d in
          absurd (ground (arith, unlisted, p))
    ]

    -- With a lawful orml_nft, in every storage that the chain can reach, each price on offer was
    -- asked for by the kitty's present owner, whose it has been ever since.
    pub Reach-Asked :
        {s : State T} (r : Reach T s) (k price : ℕ) (x : TokenInfo AccountId)
        → s.kitty_prices k ≡ some price
        → token s k ≡ some x
        → Asked k x.owner price s r
    Reach-Asked (genesis {s} b h) k price x p held =
        let (class, e, made) = build_steps T s h in
        let blank = b.no_prices k in
        let same = ap (λ (g : State T). g.kitty_prices k) made in
        absurd (ground (arith, blank, same, p))
    Reach-Asked (later {s} r (called ctx call origin)) k price y p held =
        let v = (Reach-IsTracked T L r).valid in
        elim (is_price (s.kitty_prices k) price) [
          | yes before ↦
              let (x, h) = listed_token k price v before in
              let own = same_owner ctx s v call origin k price x y h held p in
              let since = Reach-Asked r k price x before h in
              still (subst (λ a. Asked k a price s r) own since) (y, held, refl) p
          | no fresh ↦
              let (x, h, by, call_is) =
                dispatch-PricedByOwner T L ctx s v call origin k price p fresh in
              let own = same_owner ctx s v call origin k price x y h held p in
              asked (by ∙ ap signed own) call_is (x, h, own)
        ]
    Reach-Asked (later {s} r (validated call h)) k price x p held =
        let frame = validate_unsigned_frame T call s h in
        let before = sym (ap (λ (t : State T). t.kitty_prices k) frame) ∙ p in
        let there = sym (ap (λ (t : State T). token t k) frame) ∙ held in
        still (Reach-Asked r k price x before there) (x, held, refl) p
    Reach-Asked (later r (paid c)) k price x p held =
        still (Reach-Asked r k price x p held) (x, held, refl) p

    -- With a lawful orml_nft, and a currency whose keep-alive transfers are lawful, a purchase that
    -- succeeds in a storage that the chain can reach pays the seller, who is not the buyer, and moves
    -- no other balance. What it pays is within the buyer's limit, and is the price that the seller, as
    -- owner of the kitty, has asked for in a call of his own; ever since then the kitty has been his,
    -- at that price.
    pub buy-Asked :
        CurrencyIsLawful T.currency
        → {s : State T} (r : Reach T s) (who owner : AccountId) (k max_price : ℕ)
        → (buy T (signed who) owner k max_price s).0 ≡ ok tt
        → (price : ℕ) × Asked k owner price s r
          × (price ≤ max_price)
          × (who ≢ owner)
          × Paid T.currency who owner price s.currency
              (buy T (signed who) owner k max_price s).1.currency
    buy-Asked C {s} r who owner k max_price h =
        let sold = buy-Sold L who owner k max_price s (Reach-IsTracked T L r).valid h in
        let (price, offered, low, other, paid_out) = buy-Paid C who owner k max_price s h in
        let since = Reach-Asked r k price sold.info offered sold.held in
        (price, subst (λ a. Asked k a price s r) sold.owned since, low, other, paid_out)
