-- ===== src/Kitties/Effects/Breed.antt =====
-- The effects of `do_breed`, `breed` and `auto_breed` of pallets/kitties/src/lib.rs.
use substrate_kitties.Prelude.{
  ℕ, ◌≡◌, ◌≢◌, inl, inr, Option-cases, none, some, [], ◌∷◌, ◌++◌, arith,
}
use substrate_kitties.Frame.{DispatchError, signed, none_origin, ok, err, Result-cases}
use substrate_kitties.Kitties.Types.{Error, Kitty, gender, kitty_bred}
use substrate_kitties.Kitties.Config.{Config, Context, TokenInfo, NftIsLawful, mint-Minted}
use substrate_kitties.Kitties.State.{State}
use substrate_kitties.Kitties.Calls.{random_value, new_dna, do_breed, breed, auto_breed, kitties}
use substrate_kitties.Kitties.Valid.{token, IsValid, Emits, minted_unused, minted-Emits_bred}

module _ {T : Config} where
  open T use {AccountId}

  pub kitties-token :
      (who : AccountId) (k : ℕ) (s : State T) {kitty : Kitty}
      → kitties T who k s ≡ some kitty
      → (x : TokenInfo AccountId) × (token s k ≡ some x) × (x.owner ≡ who) × (x.data_of ≡ kitty)
  unfolding kitties
  kitties-token who k s h = elim (Option-cases (token s k)) [
    | inl absent ↦ absurd (ground arith)
    | inr (x, e) ↦ (x, e, ground arith, ground arith)
  ]

module _ (T : Config) (ctx : Context) where
  open T use {AccountId, nft}

  abbrev pub kitten : AccountId → Kitty → Kitty → Kitty
  kitten owner kitty1 kitty2 = record {
    dna = new_dna kitty1.dna kitty2.dna (random_value T ctx owner);
  }

  record BreedSteps (owner : AccountId) (kitty1 kitty2 : Kitty) (s s' : State T) : Type 0 where
    differ : gender kitty1 ≢ gender kitty2
    id : ℕ
    minted : (nft.mint owner s.class_id [] (kitten owner kitty1 kitty2) s.nft).0 ≡ ok id
    result : s' ≡ record s {
      nft = (nft.mint owner s.class_id [] (kitten owner kitty1 kitty2) s.nft).1;
      events = s.events ++ (kitty_bred owner id (kitten owner kitty1 kitty2) ∷ []);
    }

  do_breed-BreedSteps :
      (owner : AccountId) (kitty1 kitty2 : Kitty) (s : State T)
      → (do_breed T ctx owner kitty1 kitty2 s).0 ≡ ok tt
      → BreedSteps owner kitty1 kitty2 s (do_breed T ctx owner kitty1 kitty2 s).1
  unfolding do_breed
  do_breed-BreedSteps owner kitty1 kitty2 s h =
      elim (Result-cases (nft.mint owner s.class_id [] (kitten owner kitty1 kitty2) s.nft).0) [
        | inl (id, e) ↦ record { differ = ground arith; id = id; minted = e; result = ground arith }
        | inr (x, e) ↦ absurd (ground arith)
      ]

  -- Between parents of different gender breeding fails only if orml_nft does not mint.
  pub do_breed_fails :
      (owner : AccountId) (kitty1 kitty2 : Kitty) (s : State T) {e : DispatchError Error}
      → gender kitty1 ≢ gender kitty2
      → (do_breed T ctx owner kitty1 kitty2 s).0 ≡ err e
      → (nft.mint owner s.class_id [] (kitten owner kitty1 kitty2) s.nft).0 ≡ err e
  unfolding do_breed
  do_breed_fails owner kitty1 kitty2 s d h = ground arith

  -- The parents differ in gender, and their kitten belongs to `owner`.
  pub record Bred (owner : AccountId) (kitty1 kitty2 : Kitty) (s s' : State T) : Type 0 where
    pub differ : gender kitty1 ≢ gender kitty2
    pub id : ℕ
    pub unused : token s id ≡ none
    pub next_id : id ≡ nft.next_token_id s.class_id s.nft
    pub emits : Emits (kitty_bred owner id (kitten owner kitty1 kitty2)) s s'

  -- The kitties of two ids, as orml_nft stores them.
  pub record Parents (k1 k2 : ℕ) (s : State T) : Type 0 where
    pub x1 : TokenInfo AccountId
    pub x2 : TokenInfo AccountId
    pub held1 : token s k1 ≡ some x1
    pub held2 : token s k2 ≡ some x2

  module _ (s : State T) where
    pub breed-do_breed :
        (who : AccountId) (k1 k2 : ℕ) {kitty1 kitty2 : Kitty}
        → kitties T who k1 s ≡ some kitty1
        → kitties T who k2 s ≡ some kitty2
        → breed T ctx (signed who) k1 k2 s ≡ do_breed T ctx who kitty1 kitty2 s
    unfolding breed
    breed-do_breed who k1 k2 e1 e2 = ground arith

    pub breed_owned :
        (who : AccountId) (k1 k2 : ℕ)
        → (breed T ctx (signed who) k1 k2 s).0 ≡ ok tt
        → (kitty1 : Kitty) × (kitty2 : Kitty) × (kitties T who k1 s ≡ some kitty1)
          × (kitties T who k2 s ≡ some kitty2)
    unfolding breed
    breed_owned who k1 k2 h = elim (Option-cases (kitties T who k1 s)) [
      | inl absent ↦ absurd (ground arith)
      | inr (kitty1, e1) ↦ elim (Option-cases (kitties T who k2 s)) [
        | inl absent ↦ absurd (ground arith)
        | inr (kitty2, e2) ↦ (kitty1, kitty2, e1, e2)
      ]
    ]

    pub auto_breed-do_breed :
        (k1 k2 nonce solution : ℕ) (p : Parents k1 k2 s)
        → auto_breed T ctx none_origin k1 k2 nonce solution s
          ≡ do_breed T ctx p.x1.owner p.x1.data_of p.x2.data_of s
    unfolding auto_breed
    auto_breed-do_breed k1 k2 nonce solution p = ground (arith, p.held1, p.held2)

    pub auto_breed-Parents :
        (k1 k2 nonce solution : ℕ)
        → (auto_breed T ctx none_origin k1 k2 nonce solution s).0 ≡ ok tt
        → Parents k1 k2 s
    unfolding auto_breed
    auto_breed-Parents k1 k2 nonce solution h = elim (Option-cases (token s k1)) [
      | inl absent ↦ absurd (ground arith)
      | inr (x1, e1) ↦ elim (Option-cases (token s k2)) [
        | inl absent ↦ absurd (ground arith)
        | inr (x2, e2) ↦ record { x1 = x1; x2 = x2; held1 = e1; held2 = e2 }
      ]
    ]

  module _ (L : NftIsLawful nft) (s : State T) (v : IsValid s) where
    pub do_breed-Bred :
        (owner : AccountId) (kitty1 kitty2 : Kitty)
        → (do_breed T ctx owner kitty1 kitty2 s).0 ≡ ok tt
        → Bred owner kitty1 kitty2 s (do_breed T ctx owner kitty1 kitty2 s).1
    do_breed-Bred owner kitty1 kitty2 h =
        let b = do_breed-BreedSteps owner kitty1 kitty2 s h in
        let m =
          mint-Minted nft _ (L.mint_lem owner s.class_id [] (kitten owner kitty1 kitty2) s.nft)
            b.minted in
        record {
          differ = b.differ;
          id = b.id;
          unused = minted_unused s v m;
          next_id = m.next_id;
          emits = rw b.result (minted-Emits_bred s v m);
        }

    -- With a lawful orml_nft and a valid storage, a signed `breed` that succeeds has two parents
    -- that the sender owns, and the sender gets the kitten.
    pub breed-Bred :
        (who : AccountId) (k1 k2 : ℕ)
        → (breed T ctx (signed who) k1 k2 s).0 ≡ ok tt
        → (p : Parents k1 k2 s) × (p.x1.owner ≡ who)
          × (p.x2.owner ≡ who)
          × Bred who p.x1.data_of p.x2.data_of s (breed T ctx (signed who) k1 k2 s).1
    breed-Bred who k1 k2 h =
        let (kitty1, kitty2, e1, e2) = breed_owned s who k1 k2 h in
        let same = breed-do_breed s who k1 k2 e1 e2 in
        let (x1, held1, own1, d1) = kitties-token who k1 s e1 in
        let (x2, held2, own2, d2) = kitties-token who k2 s e2 in
        (
          record { x1 = x1; x2 = x2; held1 = held1; held2 = held2 },
          own1,
          own2,
          rw (same, d1, d2) (do_breed-Bred who kitty1 kitty2 (rw (← same) h)),
        )

    -- With a lawful orml_nft and a valid storage, an unsigned `auto_breed` that succeeds has two
    -- parents that exist, and the kitten belongs to the owner of the first.
    pub auto_breed-Bred :
        (k1 k2 nonce solution : ℕ)
        → (auto_breed T ctx none_origin k1 k2 nonce solution s).0 ≡ ok tt
        → (p : Parents k1 k2 s) × Bred p.x1.owner p.x1.data_of p.x2.data_of s
            (auto_breed T ctx none_origin k1 k2 nonce solution s).1
    auto_breed-Bred k1 k2 nonce solution h =
        let p = auto_breed-Parents s k1 k2 nonce solution h in
        let same = auto_breed-do_breed s k1 k2 nonce solution p in
        (p, rw same (do_breed-Bred p.x1.owner p.x1.data_of p.x2.data_of (rw (← same) h)))
