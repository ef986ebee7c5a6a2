-- ===== src/Kitties/Benchmarks/Laws.antt =====
-- When the calls succeed that the benchmarks of pallets/kitties/src/benchmarking.rs measure.
use substrate_kitties.Prelude.{ℕ, ◌≡◌, ◌≢◌, ◌↔◌, ◌⊎◌, none, refl, inl, inr, some, [], arith}
use substrate_kitties.Frame.{Origin, signed, ok, Result-cases}
use substrate_kitties.Kitties.Types
use substrate_kitties.Kitties.Types.{Kitty, gender}
use substrate_kitties.Kitties.Config.{Config, Context, NftIsLawful, keep_alive}
use substrate_kitties.Kitties.State.{State}
use substrate_kitties.Kitties.Calls.{dispatch, random_value}
use substrate_kitties.Kitties.Calls
use substrate_kitties.Kitties.Effects.Create.{random_kitty}
use substrate_kitties.Kitties.Effects.Breed.{kitten}
use substrate_kitties.Kitties.Effects.Buy.{buy_iff}
use substrate_kitties.Kitties.Guards.{Owns}
use substrate_kitties.Kitties.Benchmarks.{
  Benchmark, create, breed, transfer, set_price, buy, Library, default_kitty, second_kitty, seller,
  set_up,
}
use substrate_kitties.Kitties.Benchmarks.Minted.{
  Mints, minted, minted-Owns, owner_call_works, create_needs, breed_needs,
}

module _ {T : Config} (N : NftIsLawful T.nft) (L : Library T) (ctx : Context) where
  open T use {AccountId, nft}

  -- What the measured call still needs of the other pallets, after the setup.
  abbrev pub Needs : Benchmark → State T → Type 0
  Needs create s = Mints L.whitelisted_caller (random_kitty T ctx L.whitelisted_caller) s
  Needs breed s =
      Mints L.whitelisted_caller (kitten T ctx L.whitelisted_caller default_kitty second_kitty) s
  Needs transfer s = Unit
  Needs set_price s = Unit
  Needs buy s =
      (T.currency.transfer L.whitelisted_caller (seller L) 500 keep_alive s.currency).0 ≡ ok tt

  abbrev caller : AccountId
  caller = L.whitelisted_caller

  set_up_owner :
      (b : Benchmark) (s t : State T) {c : Types.Call AccountId} {origin : Origin AccountId}
      → (b ≡ transfer) ⊎ (b ≡ set_price)
      → set_up L b s ≡ (ok (c, origin), t)
      → (dispatch T ctx c origin t).0 ≡ ok tt
  unfolding dispatch set_up
  set_up_owner create s t o h = absurd (ground arith)
  set_up_owner breed s t o h = absurd (ground arith)
  set_up_owner buy s t o h = absurd (ground arith)
  set_up_owner transfer s t {c} {origin} o h =
      elim (Result-cases (nft.mint caller s.class_id [] default_kitty s.nft).0) [
        | inl (id, e) ↦
            let is_call : c ≡ Types.Call.transfer (L.account "to" 0 0) id = ground arith in
            let by : origin ≡ signed caller = ground arith in
            let at : t ≡ minted caller default_kitty s = ground arith in
            rw (is_call, by, at) (owner_call_works N caller (L.account "to" 0 0) s none e).0
        | inr (x, e) ↦ absurd (ground arith)
      ]
  set_up_owner set_price s t {c} {origin} o h =
      elim (Result-cases (nft.mint caller s.class_id [] default_kitty s.nft).0) [
        | inl (id, e) ↦
            let is_call : c ≡ Types.Call.set_price id (some 100) = ground arith in
            let by : origin ≡ signed caller = ground arith in
            let at : t ≡ minted caller default_kitty s = ground arith in
            rw (is_call, by, at) (owner_call_works N caller (L.account "to" 0 0) s (some 100) e).1
        | inr (x, e) ↦ absurd (ground arith)
      ]

  set_up_breed :
      (s t : State T) {c : Types.Call AccountId} {origin : Origin AccountId}
      → set_up L breed s ≡ (ok (c, origin), t)
      → ((dispatch T ctx c origin t).0 ≡ ok tt)
        ↔ Mints caller (kitten T ctx caller default_kitty second_kitty) t
  unfolding dispatch set_up
  set_up_breed s t {c} {origin} h =
      let s1 : State T = minted caller default_kitty s in
      elim (Result-cases (nft.mint caller s.class_id [] default_kitty s.nft).0) [
        | inr (x, e) ↦ absurd (ground arith)
        | inl (id1, e1) ↦
            elim (Result-cases (nft.mint caller s.class_id [] second_kitty s1.nft).0) [
              | inr (x, e) ↦ absurd (ground arith)
              | inl (id2, e2) ↦
                  let is_call : c ≡ Types.Call.breed id1 id2 = ground arith in
                  let by : origin ≡ signed caller = ground arith in
                  let at : t ≡ minted caller second_kitty s1 = ground arith in
                  rw (is_call, by, at) (breed_needs N ctx caller s e1 e2)
            ]
      ]

  -- What the setup of `buy` leaves.
  record Offer (c : Types.Call AccountId) (origin : Origin AccountId) (t : State T) : Type 0 where
    id : ℕ
    is_call : c ≡ Types.Call.buy (seller L) id 500
    by : origin ≡ signed caller
    offered : t.kitty_prices id ≡ some 500
    owns : Owns t (seller L) id

  set_up_buy :
      (s t : State T) {c : Types.Call AccountId} {origin : Origin AccountId}
      → set_up L buy s ≡ (ok (c, origin), t)
      → Offer c origin t
  unfolding set_up Calls.set_price
  set_up_buy s t {c} {origin} h =
      let s0 : State T = record s { currency = L.make_free_balance_be caller 1000 s.currency } in
      elim (Result-cases (nft.mint (seller L) s.class_id [] default_kitty s.nft).0) [
        | inr (x, e) ↦ absurd (ground arith)
        | inl (id, e) ↦
            let (x, held, own) = minted-Owns N (seller L) default_kitty s0 e in
            let s1 : State T = minted (seller L) default_kitty s0 in
            let listed = (N.tokens_by_owner_iff (seller L) s.class_id id s1.nft).1 (x, held, own) in
            let class : t.class_id ≡ s.class_id = ground arith in
            let tokens : t.nft ≡ s1.nft = ground arith in
            record {
              id = id;
              is_call = ground arith;
              by = ground arith;
              offered = ground arith;
              owns = (x, rw (class, tokens) held, own);
            }
      ]

  buy_needs :
      (t : State T) {c : Types.Call AccountId} {origin : Origin AccountId}
      → caller ≢ seller L
      → Offer c origin t
      → ((dispatch T ctx c origin t).0 ≡ ok tt)
        ↔ ((T.currency.transfer caller (seller L) 500 keep_alive t.currency).0 ≡ ok tt)
  unfolding dispatch
  buy_needs t d o =
      let sold = buy_iff N caller (seller L) o.id 500 t in
      rw (o.is_call, o.by)
        (
          λ h.
              let (_, _, (price, offered, _, paid)) = sold.0 h in
              let same : price ≡ 500 = ground (arith, offered, o.offered) in rw (← same) paid,
          λ paid. sold.1 (d, o.owns, (500, o.offered, omega arith, paid)),
        )

  -- With a lawful orml_nft, and a caller that is another account than the seller: after a benchmark's
  -- setup the call that it measures succeeds exactly if orml_nft mints the kitty that `create` or
  -- `breed` makes, and the currency pays the seller of `buy`; the calls of `transfer` and `set_price`
  -- always succeed.
  pub set_up-dispatch :
      (b : Benchmark) (s t : State T) {c : Types.Call AccountId} {origin : Origin AccountId}
      → L.whitelisted_caller ≢ seller L
      → set_up L b s ≡ (ok (c, origin), t)
      → ((dispatch T ctx c origin t).0 ≡ ok tt) ↔ Needs b t
  unfolding dispatch set_up
  set_up-dispatch create s t {c} {origin} d h =
      let is_call : c ≡ Types.Call.create = ground arith in
      let by : origin ≡ signed caller = ground arith in
      let at : t ≡ s = ground arith in rw (is_call, by, at) (create_needs ctx caller s)
  set_up-dispatch breed s t d h = set_up_breed s t h
  set_up-dispatch transfer s t d h = ((λ e. tt), (λ e. set_up_owner transfer s t (inl refl) h))
  set_up-dispatch set_price s t d h = ((λ e. tt), (λ e. set_up_owner set_price s t (inr refl) h))
  set_up-dispatch buy s t d h = buy_needs t d (set_up_buy s t h)
