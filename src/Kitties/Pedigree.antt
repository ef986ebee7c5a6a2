-- ===== src/Kitties/Pedigree.antt =====
-- Where the kitties come from over the life of the chain of pallets/kitties/src/lib.rs: `create`
-- gives a founder, `do_breed` a kitten.
use substrate_kitties.Prelude.{
  ℕ, ◌≡◌, ◌≢◌, ◌<◌, ◌==◌, refl, sym, ◌∙◌, Bool-cases, Option-cases, inl, inr, none, some, [], arith,
  ℕ_discrete,
}
use native.Mathlib.Decide.{dec_lt}
use substrate_kitties.Frame.{Origin}
use substrate_kitties.Kitties.Types.{Call, Event, gender}
use substrate_kitties.Kitties.Config.{
  Config, Context, TokenInfo, NftIsLawful, create_class-ClassCreated,
}
use substrate_kitties.Kitties.State.{State}
use substrate_kitties.Kitties.Genesis.{build}
use substrate_kitties.Kitties.Log.{apply}
use substrate_kitties.Kitties.Valid.{token, view, IsValid}
use substrate_kitties.Kitties.Effects.Create.{random_kitty}
use substrate_kitties.Kitties.Effects.Breed.{kitten}
use substrate_kitties.Kitties.Ledger.{
  Authorised, creation, breeding, auto_breeding, giving, pricing, selling, dispatch-Entitled,
}
use substrate_kitties.Kitties.Ownership.{dispatch_keeps}
use substrate_kitties.Kitties.Chain.{
  Step, called, validated, paid, Reach, genesis, later, Reach-IsTracked, build_steps,
  validate_unsigned_frame, IsBlank,
}

module _ {T : Config} where
  open T use {AccountId}

  -- A kitty is a founder, whose DNA is the random value of a call; or a kitten of two kitties of
  -- different gender, which exist, have smaller ids and descend from founders themselves, by a call's
  -- random value.
  pub data Descends (s : State T) : ℕ → Type 0 where
    founder :
        {x : TokenInfo AccountId} {k : ℕ} (ctx : Context) (who : AccountId)
        → token s k ≡ some x
        → x.data_of ≡ random_kitty T ctx who
        → Descends s k
    bred :
        {x x1 x2 : TokenInfo AccountId} {k k1 k2 : ℕ} (ctx : Context) (who : AccountId)
        → token s k ≡ some x
        → x.data_of ≡ kitten T ctx who x1.data_of x2.data_of
        → token s k1 ≡ some x1
        → token s k2 ≡ some x2
        → gender x1.data_of ≢ gender x2.data_of
        → k1 < k
        → k2 < k
        → Descends s k1
        → Descends s k2
        → Descends s k

  -- Every kitty of `s` is in `t`, with the same data.
  abbrev Kept : State T → State T → Type 0
  Kept s t =
      (k : ℕ) (x : TokenInfo AccountId)
      → token s k ≡ some x
      → (y : TokenInfo AccountId) × (token t k ≡ some y) × (y.data_of ≡ x.data_of)

  Kept-Descends : {s t : State T} → Kept s t → {k : ℕ} → Descends s k → Descends t k
  Kept-Descends f {k} (founder {x} ctx who held is_random) =
      let (y, held', same) = f k x held in founder ctx who held' (same ∙ is_random)
  Kept-Descends f {k}
        (bred {x} {x1} {x2} {k1} {k2} ctx who held is_kitten held1 held2 differ low1 low2 d1 d2) =
      let (y, held', same) = f k x held in
      let (y1, held1', same1) = f k1 x1 held1 in
      let (y2, held2', same2) = f k2 x2 held2 in
      bred ctx who held' (rw (same1, same2) (same ∙ is_kitten)) held1' held2'
        (rw (same1, same2) differ) low1 low2 (Kept-Descends f d1) (Kept-Descends f d2)

  held_below :
      {s : State T} (k : ℕ) {x : TokenInfo AccountId}
      → IsValid s
      → token s k ≡ some x
      → k < T.nft.next_token_id s.class_id s.nft
  held_below {s} k v held = elim (dec_lt k (T.nft.next_token_id s.class_id s.nft)) [
    | yes h ↦ h
    | no h ↦ let gone = v.fresh k (omega arith) in absurd cc
  ]

  -- Each kitty that exists descends from founders.
  abbrev AllDescend : State T → Type 0
  AllDescend s = (k : ℕ) (x : TokenInfo AccountId) → token s k ≡ some x → Descends s k

  -- The kitten that a breeding adds to the book.
  kitten-Descends :
      {s t : State T} {k k1 k2 : ℕ} {y x1 x2 : TokenInfo AccountId}
      → IsValid s
      → AllDescend s
      → Kept s t
      → (ctx : Context) (who : AccountId) → token t k ≡ some y
      → y.data_of ≡ kitten T ctx who x1.data_of x2.data_of
      → token s k1 ≡ some x1
      → token s k2 ≡ some x2
      → gender x1.data_of ≢ gender x2.data_of
      → k ≡ T.nft.next_token_id s.class_id s.nft
      → Descends t k
  kitten-Descends {k1} {k2} {x1} {x2} v all f ctx who held is_kitten held1 held2 differ next_id =
      let (y1, held1', same1) = f k1 x1 held1 in
      let (y2, held2', same2) = f k2 x2 held2 in
      bred ctx who held (rw (same1, same2) is_kitten) held1' held2' (rw (same1, same2) differ)
        (omega (arith, held_below k1 v held1, next_id))
        (omega (arith, held_below k2 v held2, next_id)) (Kept-Descends f (all k1 x1 held1))
        (Kept-Descends f (all k2 x2 held2))

  -- A kitty that an event adds to the book is the one that the event creates.
  emitted-Descends :
      {ctx : Context} {s t : State T} {origin : Origin AccountId} {call : Call AccountId}
      {e : Event AccountId}
      → IsValid s
      → (k : ℕ) {y : TokenInfo AccountId} → AllDescend s
      → Kept s t
      → Authorised ctx s origin call e
      → view t k ≡ apply e (view s) k
      → token s k ≡ none
      → token t k ≡ some y
      → Descends t k
  emitted-Descends {ctx} v k all f (creation {who} {id} unused next_id) viewed gone held =
      elim (Bool-cases (id == k)) [
        | inl same ↦ founder ctx who held (ground arith)
        | inr other ↦ absurd (ground arith)
      ]
  emitted-Descends {ctx} v k all f
        (breeding {who} {id = id} held1 held2 own1 own2 differ unused next_id) viewed gone held =
      elim (Bool-cases (id == k)) [
        | inl same ↦
            kitten-Descends v all f ctx who held (ground arith) held1 held2 differ (ground arith)
        | inr other ↦ absurd (ground arith)
      ]
  emitted-Descends {ctx} v k all f
        (auto_breeding {who} {id = id} held1 held2 own1 differ unused next_id) viewed gone held =
      elim (Bool-cases (id == k)) [
        | inl same ↦
            kitten-Descends v all f ctx who held (ground arith) held1 held2 differ (ground arith)
        | inr other ↦ absurd (ground arith)
      ]
  emitted-Descends v k all f (giving {k = j} given own other) viewed gone held =
      elim (ℕ_discrete j k) [ yes same ↦ absurd (ground arith) | no d ↦ absurd (ground arith) ]
  emitted-Descends v k all f (pricing {k = j} given own) viewed gone held = elim (ℕ_discrete j k) [
    | yes same ↦ absurd (ground arith)
    | no d ↦ absurd (ground arith)
  ]
  emitted-Descends v k all f (selling {k = j} offered low other given own) viewed gone held =
      elim (ℕ_discrete j k) [ yes same ↦ absurd (ground arith) | no d ↦ absurd (ground arith) ]

module _ (T : Config) (L : NftIsLawful T.nft) where
  open T use {AccountId}

  build-AllDescend : {s g : State T} → IsBlank T s → build T s ≡ some g → AllDescend g
  build-AllDescend {s} {g} b h k x held =
      let (class, e, r) = build_steps T s h in
      let c = create_class-ClassCreated T.nft _ (L.create_class_lem T.default_account [] s.nft) e in
      let gone : token g k ≡ none = rw (r, c.tokens_kept class k, b.no_tokens class k) refl in
      absurd cc

  Step-AllDescend : {s t : State T} → Reach T s → Step T s t → AllDescend s → AllDescend t
  Step-AllDescend {s} r (called ctx call origin) all k y held =
      let v = (Reach-IsTracked T L r).valid in
      let kept = dispatch_keeps T L ctx s v call origin in
      elim (Option-cases (token s k)) [
        | inr (x, e) ↦ Kept-Descends kept (all k x e)
        | inl gone ↦ elim (dispatch-Entitled T L ctx s v call origin) [
          | inl si ↦ let same = si.viewed k in absurd (ground arith)
          | inr (e, a, em) ↦ emitted-Descends v k all kept a (em.viewed k) gone held
        ]
      ]
  Step-AllDescend {s} {t} r (validated call h) all k y held =
      let same = validate_unsigned_frame T call s h in
      let tokens : (j : ℕ) → token t j ≡ token s j = λ j. rw same refl in
      Kept-Descends {s = s} {t = t} (λ j x e. (x, tokens j ∙ e, refl))
        (all k y (sym (tokens k) ∙ held))
  Step-AllDescend {s} {t} r (paid c) all k y held =
      Kept-Descends {s = s} {t = t} (λ j x e. (x, e, refl)) (all k y held)

  -- With a lawful orml_nft, in every storage that the chain can reach every kitty is a founder, whose
  -- DNA is the random value of a call, or a kitten, whose DNA `new_dna` combines, by a call's random
  -- value, from two kitties of different gender, which exist there, have smaller ids than the kitten
  -- and descend from founders in the same way.
  pub Reach-Descends :
      {s : State T} (k : ℕ) (x : TokenInfo AccountId)
      → Reach T s
      → token s k ≡ some x
      → Descends s k
  Reach-Descends k x (genesis b h) held = build-AllDescend b h k x held
  Reach-Descends k x (later r st) held =
      Step-AllDescend r st (λ j y e. Reach-Descends j y r e) k x held
