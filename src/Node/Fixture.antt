-- ===== src/Node/Fixture.antt =====
-- Libraries in which every call succeeds, and whose values have no content.
use Prim.Native.String.{String}
use substrate_kitties.Prelude.{ℕ, ◌+◌, ap, false, true, none, []}
use substrate_kitties.Node.Io.{Outcome, ok, err}
use substrate_kitties.Node.Parts.{System, Configuration, full}
use substrate_kitties.Node.Rpc.{RpcLibrary}
use substrate_kitties.Node.Service.Calls.{Call, Answer, History, Library}
use substrate_kitties.Node.Service.Laws.{with_services}
use substrate_kitties.Node.Command.{Services}
use substrate_kitties.Node.Command.Laws.{RunnerIsLawful}

-- Errors are their messages.
abbrev pub system : System
system = record {
  Error = String;
  other = λ message. message;
  KeySubcommand = Unit {0};
  BuildSpecCmd = Unit {0};
  CheckBlockCmd = Unit {0};
  ExportBlocksCmd = Unit {0};
  ExportStateCmd = Unit {0};
  ImportBlocksCmd = Unit {0};
  PurgeChainCmd = Unit {0};
  RevertCmd = Unit {0};
  BenchmarkCmd = Unit {0};
  RunCmd = Unit {0};
  Future = Unit {0};
  Spec = Unit {0};
  Database = Unit {0};
  PeersSet = Unit {0};
  Endpoints = Unit {0};
  PoolOptions = Unit {0};
  Registry = Unit {0};
  Client = Unit {0};
  Backend = Unit {0};
  RemoteBlockchain = Unit {0};
  TaskManager = Unit {0};
  KeystoreContainer = Unit {0};
  Keystore = Unit {0};
  SelectChain = Unit {0};
  TransactionPool = Unit {0};
  BlockImport = Unit {0};
  LinkHalf = Unit {0};
  ImportQueue = Unit {0};
  OnDemand = Unit {0};
  Network = Unit {0};
  RpcTx = Unit {0};
  NetworkStarter = Unit {0};
  TelemetryWorker = Unit {0};
  Telemetry = Unit {0};
  SlotDuration = Unit {0};
  Timestamp = Unit {0};
  Slot = Unit {0};
  ProposerFactory = Unit {0};
  Task = Unit {0};
  DenyUnsafe = Unit {0};
  IoHandler = Unit {0};
}

abbrev pub settings : Configuration system
settings = record {
  chain_spec = tt;
  network = record { node_name = "node"; extra_sets = [] };
  database = tt;
  role = full;
  keystore_remote = none;
  telemetry_endpoints = none;
  transaction_pool = tt;
  prometheus_registry = none;
  offchain_worker_enabled = true;
  force_authoring = false;
  disable_grandpa = false;
}

-- What a runner that only runs makes of the result.
abbrev pub ended : {W A : Type 0} → Outcome String A × W → Outcome String (Unit {0}) × W
ended r = elim r.0 [ ok a ↦ (ok tt, r.1) | err e ↦ (err e, r.1) ]

module _ {W : Type 0} where
  abbrev pub services :
      (W → Outcome String (Configuration system) × W) → (W → W) → Services system W
  services make next = record {
    create_runner = λ job. make;
    sync_run = λ c f. f c;
    async_run = λ c f w. ended (f c w);
    run_node_until_exit = λ c f w. ended (f c w);
    new_partial = λ c w. (err "chain", next w);
    new_light = λ c w. (ok tt, w);
    new_full = λ c w. (ok tt, w);
    not_enabled = "benchmarks";
    run_key = λ cmd w. (ok tt, w);
    run_build_spec = λ cmd spec network w. (ok tt, w);
    run_check_block = λ cmd client queue. tt;
    run_export_blocks = λ cmd client database. tt;
    run_export_state = λ cmd client spec. tt;
    run_import_blocks = λ cmd client queue. tt;
    run_purge_chain = λ cmd database w. (ok tt, w);
    run_revert = λ cmd client backend. tt;
    run_benchmark = λ cmd c w. (ok tt, w);
  }

-- A world that counts the attempts to make a runner and to open the chain, which does not open.
abbrev pub counted : Services system ℕ
counted = services (λ w. (ok settings, w + 1)) (λ w. w + 1)

pub counted-IsLawful : RunnerIsLawful counted
counted-IsLawful = record { async_run_err = λ c f w w' e h. ap ended h }

abbrev answer : (c : Call system) → Answer system c
answer (Call.telemetry_worker buffer) = ok tt
answer (Call.new_telemetry worker endpoints) = tt
answer (Call.new_full_parts config telemetry) =
    ok (record { client = tt; backend = tt; keystore_container = tt; task_manager = tt })
answer (Call.new_light_parts config telemetry) = ok (record {
  client = tt;
  backend = tt;
  keystore_container = tt;
  task_manager = tt;
  on_demand = tt;
})
answer (Call.new_full_pool options is_authority registry spawner client) = tt
answer (Call.new_light_pool options registry spawner client on_demand) = tt
answer (Call.block_import client select_chain telemetry) = ok (tt, tt)
answer (Call.slot_duration client) = ok tt
answer (Call.import_queue params) = ok tt
answer (Call.set_remote_keystore container keystore) = tt
answer (Call.build_network params) =
    ok (record { network = tt; system_rpc_tx = tt; network_starter = tt })
answer (Call.build_offchain_workers config manager client net) = tt
answer (Call.spawn_tasks params) = ok tt
answer (Call.proposer_factory spawner client pool registry telemetry) = tt
answer (Call.start_aura params) = ok tt
answer (Call.run_grandpa_voter params) = ok tt
answer (Call.run_grandpa_observer config link net) = ok tt
answer (Call.spawn manager essential name task) = tt
answer (Call.spawn_blocking manager essential name task) = tt
answer (Call.start_network starter) = tt

abbrev pub library : Library system
library = record {
  answer = λ c history. answer c;
  is_empty = λ endpoints. false;
  run_worker = λ worker. tt;
  longest_chain = λ backend. tt;
  remote_blockchain = λ backend. tt;
  sync_keystore = λ container. tt;
  slot_from = λ timestamp slot_duration. tt;
  grandpa_peers_set = tt;
}

abbrev pub rpc : RpcLibrary system
rpc = record {
  Delegate = Unit {0};
  default_handler = tt;
  extend_with = λ handler delegate. tt;
  full_system = λ client pool deny_unsafe. tt;
  transaction_payment = λ client. tt;
}

-- The world is what has been called; every runner has this configuration.
abbrev pub recorded : Configuration system → Services system (History system)
recorded config = services (λ history. (ok config, history)) (λ history. history)

pub recorded-IsLawful :
    (config : Configuration system) → RunnerIsLawful (with_services library rpc (recorded config))
recorded-IsLawful config = record { async_run_err = λ c f w w' e h. ap ended h }
