-- ===== src/Node/Service/Light.antt =====
-- `new_light` of node/src/service.rs.
use substrate_kitties.Prelude.{false, not, Option, none, some}
use substrate_kitties.Node.Io.{◌>>=◌, ◌>>◌, pure, lift}
use substrate_kitties.Node.Parts.{System, Configuration}
use substrate_kitties.Node.Service.Calls.{
  Call, LightParts, NetworkParts, no_extensions, never, Library, Action, ask,
}
use substrate_kitties.Node.Service.Partial.{
  endpoints_of, open_telemetry, telemetry_of, spawn_telemetry, inherents,
}
use substrate_kitties.Node.Service.Full.{with_peers_set, start_offchain_workers, when}

module _ {S : System} (L : Library S) where
  open S use {LinkHalf, Network, TaskManager, Telemetry}

  -- The body of `if enable_grandpa { … }`.
  unfoldable pub observe :
      Configuration S → TaskManager → Option Telemetry → LinkHalf → Network → Action S (Unit {0})
  observe config task_manager telemetry grandpa_link network = do
    observer ←
        lift
          (← ask S L (
            Call.run_grandpa_observer
              (record {
                gossip_duration_millis = 333;
                justification_period = 512;
                name = some config.network.node_name;
                observer_enabled = false;
                keystore = none;
                local_role = config.role;
                telemetry = telemetry;
              })
              grandpa_link network))
    ask S L (Call.spawn_blocking task_manager false "grandpa-observer" observer)

  -- `new_light` from the peers set of Grandpa, which the configuration has, to the last step before
  -- the network starts.
  unfoldable pub set_up_light :
      Configuration S → LightParts S → Option Telemetry → Action S (NetworkParts S)
  set_up_light config parts telemetry = do
    let select_chain = L.longest_chain parts.backend
    transaction_pool ← ask S L (
        Call.new_light_pool config.transaction_pool config.prometheus_registry parts.task_manager
          parts.client parts.on_demand)
    imports ← lift (← ask S L (Call.block_import parts.client select_chain telemetry))
    slot_duration ← lift (← ask S L (Call.slot_duration parts.client))
    import_queue ←
        lift
          (← ask S L (
            Call.import_queue (record {
              block_import = imports.0;
              justification_import = some imports.0;
              client = parts.client;
              create_inherent_data_providers = inherents L slot_duration;
              spawner = parts.task_manager;
              can_author_with = never;
              registry = config.prometheus_registry;
              telemetry = telemetry;
            })))
    net ←
        lift
          (← ask S L (
            Call.build_network (record {
              config = config;
              client = parts.client;
              transaction_pool = transaction_pool;
              spawn_handle = parts.task_manager;
              import_queue = import_queue;
              on_demand = some parts.on_demand;
            })))
    start_offchain_workers L config parts.task_manager parts.client net.network
    when L (not config.disable_grandpa)
        (observe config parts.task_manager telemetry imports.1 net.network)
    lift
        (← ask S L (
          Call.spawn_tasks (record {
            network = net.network;
            client = parts.client;
            keystore = L.sync_keystore parts.keystore_container;
            task_manager = parts.task_manager;
            transaction_pool = transaction_pool;
            rpc_extensions_builder = no_extensions;
            on_demand = some parts.on_demand;
            remote_blockchain = some (L.remote_blockchain parts.backend);
            backend = parts.backend;
            system_rpc_tx = net.system_rpc_tx;
            config = config;
            telemetry = telemetry;
          })))
    pure net

  unfoldable pub new_light : Configuration S → Action S TaskManager
  new_light config = do
    opened ← open_telemetry L (endpoints_of L config.telemetry_endpoints)
    parts ← lift (← ask S L (Call.new_light_parts config (telemetry_of L opened)))
    telemetry ← spawn_telemetry L parts.task_manager opened
    net ← set_up_light (with_peers_set L config) parts telemetry
    ask S L (Call.start_network net.network_starter)
    pure parts.task_manager
