-- ===== src/Kitties/Effects/Create.antt =====
-- The effects of `create` of pallets/kitties/src/lib.rs.
use substrate_kitties.Prelude.{ℕ, ◌≡◌, inl, inr, none, [], ◌∷◌, ◌++◌, arith}
use substrate_kitties.Frame.{signed, ok, Result-cases}
use substrate_kitties.Kitties.Types.{Kitty, kitty_created}
use substrate_kitties.Kitties.Config.{Config, Context, NftIsLawful, mint-Minted}
use substrate_kitties.Kitties.State.{State}
use substrate_kitties.Kitties.Calls.{random_value, create}
use substrate_kitties.Kitties.Valid.{token, IsValid, Emits, minted_unused, minted-Emits_created}

module _ (T : Config) (ctx : Context) where
  open T use {AccountId, nft}

  abbrev pub random_kitty : AccountId → Kitty
  random_kitty who = record { dna = random_value T ctx who }

  record CreateSteps (who : AccountId) (s s' : State T) : Type 0 where
    id : ℕ
    minted : (nft.mint who s.class_id [] (random_kitty who) s.nft).0 ≡ ok id
    result : s' ≡ record s {
      nft = (nft.mint who s.class_id [] (random_kitty who) s.nft).1;
      events = s.events ++ (kitty_created who id (random_kitty who) ∷ []);
    }

  create-CreateSteps :
      (who : AccountId) (s : State T)
      → (create T ctx (signed who) s).0 ≡ ok tt
      → CreateSteps who s (create T ctx (signed who) s).1
  unfolding create
  create-CreateSteps who s h =
      elim (Result-cases (nft.mint who s.class_id [] (random_kitty who) s.nft).0) [
        | inl (id, e) ↦ record { id = id; minted = e; result = ground arith }
        | inr (x, e) ↦ absurd (ground arith)
      ]

  -- A new kitty, with the next id, which is unused, and random DNA, belongs to the sender.
  pub create-Emits :
      NftIsLawful nft
      → (who : AccountId) (s : State T) → IsValid s
      → (create T ctx (signed who) s).0 ≡ ok tt
      → (id : ℕ) × (token s id ≡ none)
        × (id ≡ nft.next_token_id s.class_id s.nft)
        × Emits (kitty_created who id (random_kitty who)) s (create T ctx (signed who) s).1
  create-Emits L who s v h =
      let c = create-CreateSteps who s h in
      let post = L.mint_lem who s.class_id [] (random_kitty who) s.nft in
      let m = mint-Minted nft _ post c.minted in
      (c.id, minted_unused s v m, m.next_id, rw c.result (minted-Emits_created s v m))
