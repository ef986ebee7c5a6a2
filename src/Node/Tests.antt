-- ===== src/Node/Tests.antt =====
-- The theorems on the node, with keys that are their seeds and commands that only count.
use Prim.Native.String.{String}
use substrate_kitties.Prelude.{◌≡◌, ◌++◌, refl, true, false, Option, none, some, List, [], ◌∷◌, All}
use substrate_kitties.Node.ChainSpec.{
  Public, Keys, get_account_id_from_seed, authority_keys_from_seed, get_from_seed,
  development_config, local_testnet_config, local_endowed,
}
use substrate_kitties.Node.Io.{err, ◌>>=◌, pure, lift}
use substrate_kitties.Node.Parts.{Configuration, light, authority}
use substrate_kitties.Node.Command.{sub, revert, run, start}
use substrate_kitties.Node.Command.Laws.{cli_of}
use substrate_kitties.Node.Service.Calls.{History, ask}
use substrate_kitties.Node.Service.Partial.{
  no_remote_keystores, new_partial, assemble, open_telemetry, spawn_telemetry,
}
use substrate_kitties.Node.Service.Full.{
  new_full, hook_keystore, set_up_full, start_offchain_workers, author, vote,
}
use substrate_kitties.Node.Service.Follows.{
  Any, Post, network, marks, spawned, offchain_workers, authoring, voting,
}
use substrate_kitties.Node.Service.Order.{full_marks}
use substrate_kitties.Node.Service.Laws.{
  with_services, new_full_starts, node_marks, start_starts, remote_keystore_refused,
}
use substrate_kitties.Node.Fixture.{system, settings, recorded, recorded-IsLawful, library, rpc}
use substrate_kitties.Node.ChainSpec.Sound.{MakesSound, IsInjectiveOn, config-IsSound}

-- A key is the seed that stands after the two slashes.
abbrev without_slashes : String → Option String
without_slashes String.[] = none
without_slashes (String.◌∷◌ c String.[]) = none
without_slashes (String.◌∷◌ c (String.◌∷◌ d seed)) = some seed

abbrev named : Public String
named = record { from_string = without_slashes }

abbrev keys : Keys
keys = record {
  AccountId = String;
  AuraId = String;
  GrandpaId = String;
  Sr25519 = String;
  ChangesTrieConfig = Unit {0};
  sr25519 = named;
  aura = named;
  grandpa = named;
  into_account = λ key. key;
}

All-intro : {A : Type 0} (P : A → Type 0) (xs : List A) → ((x : A) → P x) → All P xs
All-intro P [] f = tt
All-intro P (x ∷ xs) f = (f x, All-intro P xs f)

seed-IsInjectiveOn : (seeds : List String) → IsInjectiveOn (λ s. s) seeds
seed-IsInjectiveOn seeds =
    All-intro (λ (s : String). All (λ t. s ≡ t → s ≡ t) seeds) seeds
      (λ s. All-intro (λ (t : String). s ≡ t → s ≡ t) seeds (λ t e. e))

config-IsSound_example :
    MakesSound keys (1 ∷ []) 1 (development_config keys (some (1 ∷ [])))
    × MakesSound keys (1 ∷ []) 2 (local_testnet_config keys (some (1 ∷ [])))
unfolding get_account_id_from_seed authority_keys_from_seed get_from_seed
config-IsSound_example =
    config-IsSound keys (λ s. s) (λ s. (s, s)) (1 ∷ []) (refl, (refl, tt))
      (
        refl,
        (refl, (refl, (refl, (refl, (refl, (refl, (refl, (refl, (refl, (refl, (refl, tt))))))))))),
      )
      (seed-IsInjectiveOn local_endowed)

-- An authority that is to do all that it can.
abbrev validator : Configuration system
validator = record settings { role = authority; telemetry_endpoints = some tt }

new_full_starts_example :
    Post
      (λ manager. ◌≡◌ {A = Option String} none none)
      (full_marks library validator)
      (full_marks library validator ++ (network ∷ []))
      []
      (new_full library rpc validator [])
new_full_starts_example = new_full_starts library rpc validator []

start_starts_example :
    Post Any
      (node_marks library rpc (record settings { role = light }))
      (node_marks library rpc (record settings { role = light }) ++ (network ∷ []))
      []
      (start system
        (History system)
        (with_services library rpc (recorded settings))
        (record settings { role = light })
        [])
start_starts_example =
    start_starts library rpc (recorded settings) (record settings { role = light }) []

-- A configuration with a remote keystore.
abbrev remote : Configuration system
remote = record settings { keystore_remote = some "ws://keys" }

remote_keystore_refused_example :
    (run system
        (History system)
        (with_services library rpc (recorded remote))
        false
        (cli_of tt (sub (revert tt)))
        []
      ≡ (err (no_remote_keystores library), []))
    × (new_full library rpc remote [] ≡ (err (no_remote_keystores library), []))
remote_keystore_refused_example =
    remote_keystore_refused library rpc (recorded remote) false tt (sub (revert tt)) remote [] []
      (recorded-IsLawful remote) refl refl refl

validator_starts :
    marks (new_full library rpc validator []).1
    ≡ spawned false "telemetry"
      ∷ offchain_workers
      ∷ authoring false
      ∷ spawned true "aura"
      ∷ voting true
      ∷ spawned true "grandpa-voter"
      ∷ network
      ∷ []
unfolding new_full new_partial assemble open_telemetry spawn_telemetry hook_keystore set_up_full
    start_offchain_workers author vote ◌>>=◌ pure lift ask
validator_starts = refl
