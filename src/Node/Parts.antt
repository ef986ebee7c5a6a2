-- ===== src/Node/Parts.antt =====
-- The types of the libraries that node/src/command.rs and node/src/service.rs put together, and
-- what the node reads of `Configuration`. Where Rust has one type for a full client and another for
-- a light one, there is one here. References and `Arc` are the values that they point to.
use Prim.Native.String.{String}
use substrate_kitties.Prelude.{Bool, Option, List}

pub record System : Type 1 where
  -- sc_service::Error, sc_cli::Error and the errors that are converted to them
  pub Error : Type 0
  pub other : String → Error
  -- the commands of sc_cli with their flags, and the future that a command makes
  pub KeySubcommand : Type 0
  pub BuildSpecCmd : Type 0
  pub CheckBlockCmd : Type 0
  pub ExportBlocksCmd : Type 0
  pub ExportStateCmd : Type 0
  pub ImportBlocksCmd : Type 0
  pub PurgeChainCmd : Type 0
  pub RevertCmd : Type 0
  pub BenchmarkCmd : Type 0
  pub RunCmd : Type 0
  pub Future : Type 0
  -- parts of the configuration
  pub Spec : Type 0
  pub Database : Type 0
  pub PeersSet : Type 0
  pub Endpoints : Type 0
  pub PoolOptions : Type 0
  pub Registry : Type 0
  -- parts of a node
  pub Client : Type 0
  pub Backend : Type 0
  pub RemoteBlockchain : Type 0
  pub TaskManager : Type 0
  pub KeystoreContainer : Type 0
  pub Keystore : Type 0
  pub SelectChain : Type 0
  pub TransactionPool : Type 0
  pub BlockImport : Type 0
  pub LinkHalf : Type 0
  pub ImportQueue : Type 0
  pub OnDemand : Type 0
  pub Network : Type 0
  pub RpcTx : Type 0
  pub NetworkStarter : Type 0
  pub TelemetryWorker : Type 0
  pub Telemetry : Type 0
  pub SlotDuration : Type 0
  pub Timestamp : Type 0
  pub Slot : Type 0
  pub ProposerFactory : Type 0
  pub Task : Type 0
  pub DenyUnsafe : Type 0
  pub IoHandler : Type 0

-- `sc_service::Role`
pub data Role : Type 0 where
  full light authority : Role

module _ (S : System) where
  open S use {
    Spec, Database, PeersSet, Endpoints, PoolOptions, Registry, Client, Backend, TaskManager,
    KeystoreContainer, SelectChain, TransactionPool, BlockImport, LinkHalf, ImportQueue, Telemetry,
  }

  pub record NetworkConfiguration : Type 0 where
    pub node_name : String
    pub extra_sets : List PeersSet

  pub record Configuration : Type 0 where
    pub chain_spec : Spec
    pub network : NetworkConfiguration
    pub database : Database
    pub role : Role
    pub keystore_remote : Option String
    pub telemetry_endpoints : Option Endpoints
    pub transaction_pool : PoolOptions
    pub prometheus_registry : Option Registry
    pub offchain_worker_enabled : Bool
    pub force_authoring : Bool
    pub disable_grandpa : Bool

  -- `sc_service::PartialComponents`, its field `other` in three.
  pub record PartialComponents : Type 0 where
    pub client : Client
    pub backend : Backend
    pub task_manager : TaskManager
    pub import_queue : ImportQueue
    pub keystore_container : KeystoreContainer
    pub select_chain : SelectChain
    pub transaction_pool : TransactionPool
    pub block_import : BlockImport
    pub grandpa_link : LinkHalf
    pub telemetry : Option Telemetry
