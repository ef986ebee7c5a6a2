-- ===== src/Node/ChainSpec.antt =====
-- The chain specifications: node/src/chain_spec.rs. The key types with their `from_string`, the
-- step from a public key to an account, and the Wasm binary of the build are parameters.
pub mod Sound
use Prim.Native.String.{String, ◌++◌}
use substrate_kitties.Node.Io.{Outcome, ok, err}
use substrate_kitties.Prelude.{ℕ, ◌^◌, Bool, true, Option, none, some, List, [], ◌∷◌, map}

-- `Public` of sp_core: the public key of `Pair::from_string(s, None)`, `none` where that is an
-- error.
pub record Public (Key : Type 0) : Type 0 where
  pub from_string : String → Option Key

-- The types that the runtime gives the genesis, and `AccountPublic::from(key).into_account()`.
pub record Keys : Type 1 where
  pub AccountId : Type 0
  pub AuraId : Type 0
  pub GrandpaId : Type 0
  pub Sr25519 : Type 0
  pub ChangesTrieConfig : Type 0
  pub sr25519 : Public Sr25519
  pub aura : Public AuraId
  pub grandpa : Public GrandpaId
  pub into_account : Sr25519 → AccountId

-- `none` is the panic of `expect`.
unfoldable pub get_from_seed : {Key : Type 0} → Public Key → String → Option Key
get_from_seed public seed = public.from_string ("//" ++ seed)

-- The values of a `vec!`, made in order.
abbrev pub all_some : {A : Type 0} → List (Option A) → Option (List A)
all_some [] = some []
all_some (none ∷ os) = none
all_some (some a ∷ os) = elim (all_some os) [ none ↦ none | some rest ↦ some (a ∷ rest) ]

pub data ChainType : Type 0 where
  development local : ChainType

abbrev pub no_wasm : String
no_wasm = "Development wasm not available"

abbrev pub development_endowed : List String
development_endowed = "Alice" ∷ "Bob" ∷ "Alice//stash" ∷ "Bob//stash" ∷ []

abbrev pub local_endowed : List String
local_endowed =
    "Alice" ∷ "Bob" ∷ "Charlie" ∷ "Dave" ∷ "Eve" ∷ "Ferdie" ∷ "Alice//stash" ∷ "Bob//stash"
    ∷ "Charlie//stash" ∷ "Dave//stash" ∷ "Eve//stash" ∷ "Ferdie//stash" ∷ []

module _ (K : Keys) where
  open K use {AccountId, AuraId, GrandpaId, ChangesTrieConfig, sr25519, aura, grandpa, into_account}

  unfoldable pub get_account_id_from_seed : String → Option AccountId
  get_account_id_from_seed seed = elim (get_from_seed sr25519 seed) [
    | none ↦ none
    | some key ↦ some (into_account key)
  ]

  unfoldable pub authority_keys_from_seed : String → Option (AuraId × GrandpaId)
  authority_keys_from_seed s = elim (get_from_seed aura s) [
    | none ↦ none
    | some a ↦ elim (get_from_seed grandpa s) [ none ↦ none | some g ↦ some (a, g) ]
  ]

  -- `GenesisConfig`, its pallets' fields in one record. The kitties pallet's has no field, and the
  -- default of orml_nft's has no token.
  pub record GenesisConfig : Type 0 where
    pub code : List ℕ
    pub changes_trie_config : Option ChangesTrieConfig
    pub balances : List (AccountId × ℕ)
    pub aura_authorities : List AuraId
    pub grandpa_authorities : List (GrandpaId × ℕ)
    pub sudo_key : AccountId

  -- Initial storage state of the pallets.
  unfoldable pub testnet_genesis :
      List ℕ → List (AuraId × GrandpaId) → AccountId → List AccountId → Bool → GenesisConfig
  testnet_genesis wasm_binary initial_authorities root_key endowed_accounts enable_println =
      record {
        code = wasm_binary;
        changes_trie_config = none;
        balances = map (λ k. (k, 2 ^ 60)) endowed_accounts;
        aura_authorities = map (λ x. x.0) initial_authorities;
        grandpa_authorities = map (λ x. (x.1, 1)) initial_authorities;
        sudo_key = root_key;
      }

  -- The genesis of the keys that belong to seeds: the closure that both specifications hold.
  abbrev pub seeded_genesis : List ℕ → List String → String → List String → Option GenesisConfig
  seeded_genesis wasm_binary authorities root_seed endowed =
      elim (all_some (map authority_keys_from_seed authorities)) [
        | none ↦ none
        | some keys ↦ elim (get_account_id_from_seed root_seed) [
          | none ↦ none
          | some root_key ↦ elim (all_some (map get_account_id_from_seed endowed)) [
            | none ↦ none
            | some accounts ↦ some (testnet_genesis wasm_binary keys root_key accounts true)
          ]
        ]
      ]

  -- `ChainSpec::from_genesis`, without the telemetry, properties and extensions, which are `None`.
  -- The genesis is made when it is first asked for; `none` is its panic.
  pub record ChainSpec : Type 0 where
    pub name : String
    pub id : String
    pub chain_type : ChainType
    pub genesis : Option GenesisConfig
    pub boot_nodes : List String
    pub protocol_id : Option String

  -- The argument is `WASM_BINARY`.
  unfoldable pub development_config : Option (List ℕ) → Outcome String ChainSpec
  development_config none = err no_wasm
  development_config (some wasm_binary) = ok (record {
    name = "Development";
    id = "dev";
    chain_type = development;
    genesis = seeded_genesis wasm_binary ("Alice" ∷ []) "Alice" development_endowed;
    boot_nodes = [];
    protocol_id = none;
  })

  unfoldable pub local_testnet_config : Option (List ℕ) → Outcome String ChainSpec
  local_testnet_config none = err no_wasm
  local_testnet_config (some wasm_binary) = ok (record {
    name = "Local Testnet";
    id = "local_testnet";
    chain_type = local;
    genesis = seeded_genesis wasm_binary ("Alice" ∷ "Bob" ∷ []) "Alice" local_endowed;
    boot_nodes = [];
    protocol_id = none;
  })
