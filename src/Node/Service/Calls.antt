-- ===== src/Node/Service/Calls.antt =====
-- The library calls of node/src/service.rs with their arguments and the types of their answers.
-- Left out are arguments that are constants of the libraries: default voting rules and checks, and
-- the empty voter state.
use Prim.Native.String.{String}
use substrate_kitties.Prelude.{ℕ, Bool, Option, List, [], ◌∷◌, ◌++◌}
use substrate_kitties.Node.Io.{Outcome, ok, Io}
use substrate_kitties.Node.Parts.{System, Role, Configuration}

pub data CanAuthor : Type 0 where
  with_native_version never : CanAuthor

module _ (S : System) where
  open S use {
    Error, PeersSet, Endpoints, PoolOptions, Registry, Client, Backend, RemoteBlockchain,
    TaskManager, KeystoreContainer, Keystore, SelectChain, TransactionPool, BlockImport, LinkHalf,
    ImportQueue, OnDemand, Network, RpcTx, NetworkStarter, TelemetryWorker, Telemetry, SlotDuration,
    Timestamp, Slot, ProposerFactory, Task, DenyUnsafe, IoHandler,
  }

  -- `sc_service::new_full_parts`
  pub record FullParts : Type 0 where
    pub client : Client
    pub backend : Backend
    pub keystore_container : KeystoreContainer
    pub task_manager : TaskManager

  -- `sc_service::new_light_parts`
  pub record LightParts : Type 0 where
    pub client : Client
    pub backend : Backend
    pub keystore_container : KeystoreContainer
    pub task_manager : TaskManager
    pub on_demand : OnDemand

  pub record ImportQueueParams : Type 0 where
    pub block_import : BlockImport
    pub justification_import : Option BlockImport
    pub client : Client
    pub create_inherent_data_providers : Timestamp → Timestamp × Slot
    pub spawner : TaskManager
    pub can_author_with : CanAuthor
    pub registry : Option Registry
    pub telemetry : Option Telemetry

  pub record BuildNetworkParams : Type 0 where
    pub config : Configuration S
    pub client : Client
    pub transaction_pool : TransactionPool
    pub spawn_handle : TaskManager
    pub import_queue : ImportQueue
    pub on_demand : Option OnDemand

  pub record NetworkParts : Type 0 where
    pub network : Network
    pub system_rpc_tx : RpcTx
    pub network_starter : NetworkStarter

  pub data RpcBuilder : Type 0 where
    extensions : (DenyUnsafe → IoHandler) → RpcBuilder
    no_extensions : RpcBuilder

  pub record SpawnTasksParams : Type 0 where
    pub network : Network
    pub client : Client
    pub keystore : Keystore
    pub task_manager : TaskManager
    pub transaction_pool : TransactionPool
    pub rpc_extensions_builder : RpcBuilder
    pub on_demand : Option OnDemand
    pub remote_blockchain : Option RemoteBlockchain
    pub backend : Backend
    pub system_rpc_tx : RpcTx
    pub config : Configuration S
    pub telemetry : Option Telemetry

  pub record StartAuraParams : Type 0 where
    pub slot_duration : SlotDuration
    pub client : Client
    pub select_chain : SelectChain
    pub block_import : BlockImport
    pub proposer_factory : ProposerFactory
    pub create_inherent_data_providers : Timestamp → Timestamp × Slot
    pub force_authoring : Bool
    pub backoff_authoring_blocks : Option (Unit {0})
    pub keystore : Keystore
    pub can_author_with : CanAuthor
    pub sync_oracle : Network
    pub justification_sync_link : Network
    -- two thirds, as numerator and denominator
    pub block_proposal_slot_portion : ℕ × ℕ
    pub max_block_proposal_slot_portion : Option (ℕ × ℕ)
    pub telemetry : Option Telemetry

  -- `sc_finality_grandpa::Config`
  pub record GrandpaConfig : Type 0 where
    pub gossip_duration_millis : ℕ
    pub justification_period : ℕ
    pub name : Option String
    pub observer_enabled : Bool
    pub keystore : Option Keystore
    pub local_role : Role
    pub telemetry : Option Telemetry

  pub record GrandpaParams : Type 0 where
    pub config : GrandpaConfig
    pub link : LinkHalf
    pub network : Network
    pub prometheus_registry : Option Registry
    pub telemetry : Option Telemetry

  pub data Call : Type 0 where
    telemetry_worker : ℕ → Call
    new_telemetry : TelemetryWorker → Endpoints → Call
    new_full_parts : Configuration S → Option Telemetry → Call
    new_light_parts : Configuration S → Option Telemetry → Call
    new_full_pool : PoolOptions → Bool → Option Registry → TaskManager → Client → Call
    new_light_pool : PoolOptions → Option Registry → TaskManager → Client → OnDemand → Call
    block_import : Client → SelectChain → Option Telemetry → Call
    slot_duration : Client → Call
    import_queue : ImportQueueParams → Call
    set_remote_keystore : KeystoreContainer → Keystore → Call
    build_network : BuildNetworkParams → Call
    build_offchain_workers : Configuration S → TaskManager → Client → Network → Call
    spawn_tasks : SpawnTasksParams → Call
    proposer_factory :
        TaskManager → Client → TransactionPool → Option Registry → Option Telemetry → Call
    start_aura : StartAuraParams → Call
    run_grandpa_voter : GrandpaParams → Call
    run_grandpa_observer : GrandpaConfig → LinkHalf → Network → Call
    -- `spawn` and `spawn_blocking`; the Boolean says whether the handle is the essential one
    spawn : TaskManager → Bool → String → Task → Call
    spawn_blocking : TaskManager → Bool → String → Task → Call
    start_network : NetworkStarter → Call

  -- What a call gives: `Outcome Error` where it may fail.
  abbrev pub Answer : Call → Type 0
  Answer (telemetry_worker buffer) = Outcome Error TelemetryWorker
  Answer (new_telemetry worker endpoints) = Telemetry
  Answer (new_full_parts config telemetry) = Outcome Error FullParts
  Answer (new_light_parts config telemetry) = Outcome Error LightParts
  Answer (new_full_pool options is_authority registry spawner client) = TransactionPool
  Answer (new_light_pool options registry spawner client on_demand) = TransactionPool
  Answer (block_import client select_chain telemetry) = Outcome Error (BlockImport × LinkHalf)
  Answer (slot_duration client) = Outcome Error SlotDuration
  Answer (import_queue params) = Outcome Error ImportQueue
  Answer (set_remote_keystore container keystore) = KeystoreContainer
  Answer (build_network params) = Outcome Error NetworkParts
  Answer (build_offchain_workers config spawner client network) = Unit
  Answer (spawn_tasks params) = Outcome Error (Unit {0})
  Answer (proposer_factory spawner client pool registry telemetry) = ProposerFactory
  Answer (start_aura params) = Outcome Error Task
  Answer (run_grandpa_voter params) = Outcome Error Task
  Answer (run_grandpa_observer config link network) = Outcome Error Task
  Answer (spawn manager essential name task) = Unit
  Answer (spawn_blocking manager essential name task) = Unit
  Answer (start_network starter) = Unit

  -- The calls that have been made, oldest first.
  abbrev pub History : Type 0
  History = List Call

  -- The libraries: the answer to each call, which may depend on all that was called before, and the
  -- accessors of their values.
  pub record Library : Type 0 where
    pub answer : (c : Call) → History → Answer c
    pub is_empty : Endpoints → Bool
    pub run_worker : TelemetryWorker → Task
    pub longest_chain : Backend → SelectChain
    pub remote_blockchain : Backend → RemoteBlockchain
    pub sync_keystore : KeystoreContainer → Keystore
    pub slot_from : Timestamp → SlotDuration → Slot
    pub grandpa_peers_set : PeersSet

  abbrev pub Action : Type 0 → Type 0
  Action = Io History Error

  unfoldable pub ask : Library → (c : Call) → Action (Answer c)
  ask L c history = (ok (L.answer c history), history ++ (c ∷ []))
