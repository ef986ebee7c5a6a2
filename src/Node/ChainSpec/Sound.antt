-- ===== src/Node/ChainSpec/Sound.antt =====
-- The genesis that the chain specifications of node/src/chain_spec.rs make, and what the pallets
-- that read it ask of it.
use Prim.Native.String.{String}
use text.Mathlib.Text.{◌==◌ as ◌is◌}
use text.Mathlib.TextEquality.{eq_iff}
use substrate_kitties.Prelude.{
  ℕ, suc, ◌+◌, ◌*◌, ◌^◌, ◌≤◌, ◌<◌, ◌≡◌, ◌≢◌, refl, sym, ap, Bool, true, not, ◌&&◌, Bool-cases, inl,
  inr, Option, some, List, [], ◌∷◌, map, length, All, arith,
}
use substrate_kitties.Node.Io.{Outcome, ok}
use substrate_kitties.Runtime.{existential_deposit}
use substrate_kitties.Node.ChainSpec.{
  Keys, GenesisConfig, testnet_genesis, get_account_id_from_seed, authority_keys_from_seed,
  all_some, seeded_genesis, ChainSpec, development_endowed, local_endowed, development_config,
  local_testnet_config,
}

-- No item stands twice.
abbrev pub Distinct : {A : Type 0} → List A → Type 0
Distinct [] = Unit
Distinct (x ∷ xs) = All (λ y. x ≢ y) xs × Distinct xs

abbrev pub total : {A : Type 0} → List (A × ℕ) → ℕ
total [] = 0
total (x ∷ xs) = x.1 + total xs

-- The seeds of a list are pairwise different.
abbrev fresh : String → List String → Bool
fresh s [] = true
fresh s (t ∷ ts) = not (s is t) && fresh s ts

abbrev distinct_seeds : List String → Bool
distinct_seeds [] = true
distinct_seeds (s ∷ ss) = fresh s ss && distinct_seeds ss

All-imp :
    {A : Type 0} {P Q : A → Type 0} (xs : List A) → ((x : A) → P x → Q x) → All P xs → All Q xs
All-imp [] f h = tt
All-imp (x ∷ xs) f h = (f x h.0, All-imp xs f h.1)

all_some-map :
    {A B : Type 0} (f : A → Option B) (g : A → B) (xs : List A)
    → All (λ x. f x ≡ some (g x)) xs
    → all_some (map f xs) ≡ some (map g xs)
all_some-map f g [] h = refl
all_some-map f g (x ∷ xs) h = rw (h.0, all_some-map f g xs h.1)

length-map : {A B : Type 0} (f : A → B) (xs : List A) → length (map f xs) ≡ length xs
length-map f [] = refl
length-map f (x ∷ xs) = ap suc (length-map f xs)

module _ {A : Type 0} (derive : String → A) where
  -- Different seeds of the list belong to different accounts.
  abbrev pub IsInjectiveOn : List String → Type 0
  IsInjectiveOn seeds = All (λ s. All (λ t. derive s ≡ derive t → s ≡ t) seeds) seeds

  fresh-All :
      (s : String) (ts : List String)
      → fresh s ts ≡ true
      → All (λ t. derive s ≡ derive t → s ≡ t) ts
      → All (λ y. derive s ≢ y) (map derive ts)
  fresh-All s [] e h = tt
  fresh-All s (t ∷ ts) e h = elim (Bool-cases (s is t)) [
    | inl same ↦ absurd (ground arith)
    | inr ne ↦
        ((λ d. absurd (ground (arith, eq_iff s t, h.0 d))), fresh-All s ts (ground arith) h.1)
  ]

  map-Distinct :
      (seeds : List String)
      → distinct_seeds seeds ≡ true
      → IsInjectiveOn seeds
      → Distinct (map derive seeds)
  map-Distinct [] e h = tt
  map-Distinct (s ∷ ss) e h = (
    fresh-All s ss (ground arith) h.0.1,
    map-Distinct ss (ground arith) (All-imp ss (λ x p. p.1) h.1),
  )

module _ (K : Keys) where
  open K use {AccountId, AuraId, GrandpaId}

  -- What the genesis of pallet_balances asserts, that no account stands twice and each has at least
  -- the existential deposit, and that the issuance is a `u128`; one Aura and one Grandpa authority
  -- for each initial authority, of which there is one; and an account with funds as sudo key.
  pub record IsSound (wasm : List ℕ) (n : ℕ) (g : GenesisConfig K) : Type 0 where
    pub code : g.code ≡ wasm
    pub funded : All (λ x. existential_deposit ≤ x.1) g.balances
    pub distinct : Distinct (map (λ x. x.0) g.balances)
    pub issuance : total g.balances < 2 ^ 128
    pub some_authority : 0 < n
    pub aura : length g.aura_authorities ≡ n
    pub grandpa : length g.grandpa_authorities ≡ n
    pub weights : total g.grandpa_authorities ≡ n
    pub sudo : (b : ℕ) × (rest : List (AccountId × ℕ)) × (g.balances ≡ (g.sudo_key, b) ∷ rest)

  funds-total : (us : List AccountId) → total (map (λ k. (k, 2 ^ 60)) us) ≡ length us * 2 ^ 60
  funds-total [] = refl
  funds-total (a ∷ us) = omega (arith, funds-total us)

  funds-funded :
      (us : List AccountId)
      → All (λ (x : AccountId × ℕ). existential_deposit ≤ x.1) (map (λ k. (k, 2 ^ 60)) us)
  funds-funded [] = tt
  funds-funded (a ∷ us) = (omega arith, funds-funded us)

  funds-owners :
      (us : List AccountId) → map (λ (x : AccountId × ℕ). x.0) (map (λ k. (k, 2 ^ 60)) us) ≡ us
  funds-owners [] = refl
  funds-owners (a ∷ us) = ap (◌∷◌ a) (funds-owners us)

  weights-total : (ks : List (AuraId × GrandpaId)) → total (map (λ x. (x.1, 1)) ks) ≡ length ks
  weights-total [] = refl
  weights-total (k ∷ ks) = omega (arith, weights-total ks)

  testnet_genesis-IsSound :
      (wasm : List ℕ) (keys : List (AuraId × GrandpaId)) (root : AccountId) (rest : List AccountId)
      → 0 < length keys
      → length rest < 2 ^ 60
      → Distinct (root ∷ rest)
      → IsSound wasm (length keys) (testnet_genesis K wasm keys root (root ∷ rest) true)
  unfolding testnet_genesis
  testnet_genesis-IsSound wasm keys root rest p l d = record {
    code = refl;
    funded = funds-funded (root ∷ rest);
    distinct = rw (funds-owners rest) d;
    issuance = omega (arith, funds-total (root ∷ rest));
    some_authority = p;
    aura = length-map (λ x. x.0) keys;
    grandpa = length-map (λ x. (x.1, 1)) keys;
    weights = weights-total keys;
    sudo = (2 ^ 60, map (λ k. (k, 2 ^ 60)) rest, refl);
  }

  -- The seeds of the development network are among those of the local one.
  pick_development : (P : String → Type 0) → All P local_endowed → All P development_endowed
  pick_development P h = (h.0, (h.1.0, (h.1.1.1.1.1.1.0, (h.1.1.1.1.1.1.1.0, tt))))

  seeded_genesis_lem :
      (derive : String → AccountId) (authority : String → AuraId × GrandpaId) (wasm : List ℕ)
      (seeds : List String) (root : String) (rest : List String)
      → All (λ s. authority_keys_from_seed K s ≡ some (authority s)) seeds
      → All (λ s. get_account_id_from_seed K s ≡ some (derive s)) (root ∷ rest)
      → seeded_genesis K wasm seeds root (root ∷ rest)
        ≡ some (
            testnet_genesis K wasm
              (map authority seeds)
              (derive root)
              (map derive (root ∷ rest))
              true)
  seeded_genesis_lem derive authority wasm seeds root rest ha he = rw (
    seeded_genesis,
    all_some-map (authority_keys_from_seed K) authority seeds ha,
    he.0,
    all_some-map (get_account_id_from_seed K) derive rest he.1,
    he.0,
  )

  -- A specification that is made, and whose genesis does not panic and is sound.
  abbrev pub MakesSound : List ℕ → ℕ → Outcome String (ChainSpec K) → Type 0
  MakesSound wasm n outcome =
      (spec : ChainSpec K) × (g : GenesisConfig K) × (outcome ≡ ok spec)
      × (spec.genesis ≡ some g)
      × IsSound wasm n g

  makes :
      (wasm : List ℕ) (n : ℕ) (outcome : Outcome String (ChainSpec K)) (spec : ChainSpec K)
      → outcome ≡ ok spec
      → (g : GenesisConfig K) × (spec.genesis ≡ some g) × IsSound wasm n g
      → MakesSound wasm n outcome
  makes wasm n outcome spec e (g, made, sound) = (spec, g, e, made, sound)

  seeded_genesis-IsSound :
      (derive : String → AccountId) (authority : String → AuraId × GrandpaId) (wasm : List ℕ)
      (seeds : List String) (root : String) (rest : List String)
      → All (λ s. authority_keys_from_seed K s ≡ some (authority s)) seeds
      → All (λ s. get_account_id_from_seed K s ≡ some (derive s)) (root ∷ rest)
      → IsInjectiveOn derive (root ∷ rest)
      → distinct_seeds (root ∷ rest) ≡ true
      → 0 < length seeds
      → length rest < 2 ^ 60
      → (g : GenesisConfig K) × (seeded_genesis K wasm seeds root (root ∷ rest) ≡ some g)
        × IsSound wasm (length seeds) g
  seeded_genesis-IsSound derive authority wasm seeds root rest ha he hi hd p l = (
    testnet_genesis K wasm (map authority seeds) (derive root) (map derive (root ∷ rest)) true,
    seeded_genesis_lem derive authority wasm seeds root rest ha he,
    rw (sym (length-map authority seeds)) (
        testnet_genesis-IsSound wasm (map authority seeds) (derive root) (map derive rest)
          (omega (arith, length-map authority seeds)) (omega (arith, length-map derive rest))
          (map-Distinct derive (root ∷ rest) hd hi)),
  )

  -- With the Wasm binary in the build, and keys that exist for the seeds of the two authorities and
  -- the twelve test accounts, and accounts that differ for different seeds, both specifications are
  -- made and their genesis is sound: each account has at least the existential deposit and stands
  -- once, the issuance is below 2^128, there is one Aura and one Grandpa authority for each initial
  -- authority (one in development, two in the local network), and the sudo account has funds.
  pub config-IsSound :
      (derive : String → AccountId) (authority : String → AuraId × GrandpaId) (wasm : List ℕ)
      → All (λ s. authority_keys_from_seed K s ≡ some (authority s)) ("Alice" ∷ "Bob" ∷ [])
      → All (λ s. get_account_id_from_seed K s ≡ some (derive s)) local_endowed
      → IsInjectiveOn derive local_endowed
      → MakesSound wasm 1 (development_config K (some wasm))
        × MakesSound wasm 2 (local_testnet_config K (some wasm))
  unfolding development_config local_testnet_config
  config-IsSound derive authority wasm ha he hi = (
    makes wasm 1 (development_config K (some wasm)) _ refl (
        seeded_genesis-IsSound derive authority wasm ("Alice" ∷ []) "Alice"
          ("Bob" ∷ "Alice//stash" ∷ "Bob//stash" ∷ []) (ha.0, tt)
          (pick_development (λ s. get_account_id_from_seed K s ≡ some (derive s)) he)
          (pick_development (λ s. All (λ t. derive s ≡ derive t → s ≡ t) development_endowed)
            (All-imp local_endowed (λ s. pick_development (λ t. derive s ≡ derive t → s ≡ t)) hi))
          refl (omega arith) (omega arith)),
    makes wasm 2 (local_testnet_config K (some wasm)) _ refl (
        seeded_genesis-IsSound derive authority wasm ("Alice" ∷ "Bob" ∷ []) "Alice"
          ("Bob" ∷ "Charlie" ∷ "Dave" ∷ "Eve" ∷ "Ferdie" ∷ "Alice//stash" ∷ "Bob//stash"
            ∷ "Charlie//stash" ∷ "Dave//stash" ∷ "Eve//stash" ∷ "Ferdie//stash" ∷ [])
          ha he hi refl (omega arith) (omega arith)),
  )
