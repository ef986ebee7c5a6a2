-- ===== src/Node/Service/Full.antt =====
-- `new_full` of node/src/service.rs.
use Prim.Native.String.{String, ◌++◌ as ◌<>◌}
use substrate_kitties.Prelude.{Bool, true, false, not, Option, none, some, [], ◌∷◌, ◌++◌}
use substrate_kitties.Node.Io.{Outcome, ok, err, ◌>>=◌, ◌>>◌, pure, raise, lift}
use substrate_kitties.Node.Parts.{System, Configuration, PartialComponents}
use substrate_kitties.Node.Rpc.{RpcLibrary, create_full}
use substrate_kitties.Node.Service.Calls.{
  Call, NetworkParts, extensions, with_native_version, GrandpaConfig, Library, Action, ask,
}
use substrate_kitties.Node.Service.Partial.{is_authority, inherents, new_partial}

module _ {S : System} (L : Library S) where
  open S use {KeystoreContainer, Keystore, Network, TaskManager, Client}

  unfoldable pub remote_keystore : String → Outcome String Keystore
  remote_keystore url = err "Remote Keystore not supported."

  -- The first step after `new_partial`: the container with the remote keystore, if there is one.
  unfoldable pub hook_keystore : Option String → KeystoreContainer → Action S KeystoreContainer
  hook_keystore none container = pure container
  hook_keystore (some url) container = elim (remote_keystore url) [
    | ok k ↦ ask S L (Call.set_remote_keystore container k)
    | err e ↦ raise (S.other ("Error hooking up remote keystore for " <> url <> ": " <> e))
  ]

  -- `config.network.extra_sets.push(grandpa_peers_set_config())`
  abbrev pub with_peers_set : Configuration S → Configuration S
  with_peers_set config = record config {
    network = record config.network {
      extra_sets = config.network.extra_sets ++ (L.grandpa_peers_set ∷ []);
    };
  }

  -- `if config.offchain_worker.enabled { … }`
  unfoldable pub start_offchain_workers :
      Configuration S → TaskManager → Client → Network → Action S (Unit {0})
  start_offchain_workers config manager client network = elim config.offchain_worker_enabled [
    | true ↦ ask S L (Call.build_offchain_workers config manager client network)
    | false ↦ pure tt
  ]

  -- The body of `if role.is_authority() { … }`.
  unfoldable pub author :
      Configuration S → PartialComponents S → KeystoreContainer → Network → Action S (Unit {0})
  author config parts keystore_container network = do
    proposer_factory ← ask S L (
        Call.proposer_factory parts.task_manager parts.client parts.transaction_pool
          config.prometheus_registry parts.telemetry)
    slot_duration ← lift (← ask S L (Call.slot_duration parts.client))
    aura ←
        lift
          (← ask S L (
            Call.start_aura (record {
              slot_duration = slot_duration;
              client = parts.client;
              select_chain = parts.select_chain;
              block_import = parts.block_import;
              proposer_factory = proposer_factory;
              create_inherent_data_providers = inherents L slot_duration;
              force_authoring = config.force_authoring;
              backoff_authoring_blocks = none;
              keystore = L.sync_keystore keystore_container;
              can_author_with = with_native_version;
              sync_oracle = network;
              justification_sync_link = network;
              block_proposal_slot_portion = (2, 3);
              max_block_proposal_slot_portion = none;
              telemetry = parts.telemetry;
            })))
    ask S L (Call.spawn_blocking parts.task_manager true "aura" aura)

  abbrev pub grandpa_config :
      Configuration S → PartialComponents S → KeystoreContainer → GrandpaConfig S
  grandpa_config config parts keystore_container = record {
    gossip_duration_millis = 333;
    justification_period = 512;
    name = some config.network.node_name;
    observer_enabled = false;
    keystore = elim (is_authority config.role) [
      | true ↦ some (L.sync_keystore keystore_container)
      | false ↦ none
    ];
    local_role = config.role;
    telemetry = parts.telemetry;
  }

  -- The body of `if enable_grandpa { … }`.
  unfoldable pub vote :
      Configuration S → PartialComponents S → KeystoreContainer → Network → Action S (Unit {0})
  vote config parts keystore_container network = do
    voter ←
        lift
          (← ask S L (
            Call.run_grandpa_voter (record {
              config = grandpa_config config parts keystore_container;
              link = parts.grandpa_link;
              network = network;
              prometheus_registry = config.prometheus_registry;
              telemetry = parts.telemetry;
            })))
    ask S L (Call.spawn_blocking parts.task_manager true "grandpa-voter" voter)

  abbrev pub when : Bool → Action S (Unit {0}) → Action S (Unit {0})
  when true m = m
  when false m = pure tt

  -- `new_full` from the building of the network to the last step before the network starts. The
  -- configuration has the peers set of Grandpa.
  unfoldable pub set_up_full :
      RpcLibrary S
      → Configuration S
      → PartialComponents S
      → KeystoreContainer
      → Action S (NetworkParts S)
  set_up_full R config parts keystore_container = do
    net ←
        lift
          (← ask S L (
            Call.build_network (record {
              config = config;
              client = parts.client;
              transaction_pool = parts.transaction_pool;
              spawn_handle = parts.task_manager;
              import_queue = parts.import_queue;
              on_demand = none;
            })))
    start_offchain_workers config parts.task_manager parts.client net.network
    lift
        (← ask S L (
          Call.spawn_tasks (record {
            network = net.network;
            client = parts.client;
            keystore = L.sync_keystore keystore_container;
            task_manager = parts.task_manager;
            transaction_pool = parts.transaction_pool;
            rpc_extensions_builder = extensions (λ deny_unsafe. create_full S R (record {
              client = parts.client;
              pool = parts.transaction_pool;
              deny_unsafe = deny_unsafe;
            }));
            on_demand = none;
            remote_blockchain = none;
            backend = parts.backend;
            system_rpc_tx = net.system_rpc_tx;
            config = config;
            telemetry = parts.telemetry;
          })))
    when (is_authority config.role) (author config parts keystore_container net.network)
    when (not config.disable_grandpa) (vote config parts keystore_container net.network)
    pure net

  unfoldable pub new_full : RpcLibrary S → Configuration S → Action S S.TaskManager
  new_full R config = do
    parts ← new_partial L config
    keystore_container ← hook_keystore config.keystore_remote parts.keystore_container
    net ← set_up_full R (with_peers_set config) parts keystore_container
    ask S L (Call.start_network net.network_starter)
    pure parts.task_manager
