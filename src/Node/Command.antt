-- ===== src/Node/Command.antt =====
-- The command line of the node: node/src/cli.rs and node/src/command.rs. The commands of sc_cli,
-- the runner and the services are parameters that may read and write a world `W`; Node/Service.antt
-- has the services of this repository.
pub mod Laws
pub mod About
use Prim.Native.String.{String}
use text.Mathlib.Text.{◌==◌ as ◌is◌}
use substrate_kitties.Prelude.{ℕ, Bool, true, false, Option, none, some, List, if◌then◌else◌, ◌||◌}
use substrate_kitties.Node.ChainSpec.{Keys, ChainSpec, development_config, local_testnet_config}
use substrate_kitties.Node.Io.{Outcome, ok, err, Io, ◌>>=◌, pure}
use substrate_kitties.Node.Parts.{
  System, Role, full, light, authority, NetworkConfiguration, Configuration, PartialComponents,
}

module _ (K : Keys) (wasm_binary : Option (List ℕ))
    (from_json_file : String → Outcome String (ChainSpec K)) where
  unfoldable pub load_spec : String → Outcome String (ChainSpec K)
  load_spec id =
      if id is "dev"
      then development_config K wasm_binary
      else if (id is "") || (id is "local")
      then local_testnet_config K wasm_binary
      else from_json_file id

-- `Subcommand` of node/src/cli.rs.
pub data Subcommand (S : System) : Type 0 where
  key : S.KeySubcommand → Subcommand S
  build_spec : S.BuildSpecCmd → Subcommand S
  check_block : S.CheckBlockCmd → Subcommand S
  export_blocks : S.ExportBlocksCmd → Subcommand S
  export_state : S.ExportStateCmd → Subcommand S
  import_blocks : S.ImportBlocksCmd → Subcommand S
  purge_chain : S.PurgeChainCmd → Subcommand S
  revert : S.RevertCmd → Subcommand S
  benchmark : S.BenchmarkCmd → Subcommand S

pub record Cli (S : System) : Type 0 where
  pub subcommand : Option (Subcommand S)
  pub run : S.RunCmd

-- A command that a runner is made for.
pub data Job (S : System) : Type 0 where
  sub : Subcommand S → Job S
  node : S.RunCmd → Job S

module _ (S : System) (W : Type 0) where
  open S use {
    Error, KeySubcommand, BuildSpecCmd, CheckBlockCmd, ExportBlocksCmd, ExportStateCmd,
    ImportBlocksCmd, PurgeChainCmd, RevertCmd, BenchmarkCmd, Spec, Database, Client, TaskManager,
    ImportQueue, Backend, Future,
  }

  abbrev pub Run : Type 0 → Type 0
  Run = Io W Error

  -- The libraries and node/src/service.rs. A runner is its configuration.
  pub record Services : Type 0 where
    pub create_runner : Job S → Run (Configuration S)
    pub sync_run : Configuration S → (Configuration S → Run (Unit {0})) → Run (Unit {0})
    pub async_run :
        Configuration S → (Configuration S → Run (Future × TaskManager)) → Run (Unit {0})
    pub run_node_until_exit : Configuration S → (Configuration S → Run TaskManager) → Run (Unit {0})
    pub new_partial : Configuration S → Run (PartialComponents S)
    pub new_light : Configuration S → Run TaskManager
    pub new_full : Configuration S → Run TaskManager
    pub not_enabled : Error
    pub run_key : KeySubcommand → Run (Unit {0})
    pub run_build_spec : BuildSpecCmd → Spec → NetworkConfiguration S → Run (Unit {0})
    pub run_check_block : CheckBlockCmd → Client → ImportQueue → Future
    pub run_export_blocks : ExportBlocksCmd → Client → Database → Future
    pub run_export_state : ExportStateCmd → Client → Spec → Future
    pub run_import_blocks : ImportBlocksCmd → Client → ImportQueue → Future
    pub run_purge_chain : PurgeChainCmd → Database → Run (Unit {0})
    pub run_revert : RevertCmd → Client → Backend → Future
    pub run_benchmark : BenchmarkCmd → Configuration S → Run (Unit {0})

  module _ (V : Services) where
    -- `Role::Light => service::new_light(config), _ => service::new_full(config)`
    abbrev pub start : Configuration S → Run TaskManager
    start config = elim config.role [
      | light ↦ V.new_light config
      | full ↦ V.new_full config
      | authority ↦ V.new_full config
    ]

    -- A command on the chain's data: `new_partial`, and the future that the command makes of it.
    abbrev pub on_chain : Job S → (Configuration S → PartialComponents S → Future) → Run (Unit {0})
    on_chain job make = V.create_runner job >>= λ runner.
        V.async_run runner
          (λ config. V.new_partial config >>= λ parts. pure (make config parts, parts.task_manager))

    -- The Boolean is `cfg!(feature = "runtime-benchmarks")`.
    unfoldable pub run_subcommand : Bool → Subcommand S → Run (Unit {0})
    run_subcommand benchmarks (key cmd) = V.run_key cmd
    run_subcommand benchmarks (build_spec cmd) =
        V.create_runner (sub (build_spec cmd)) >>= λ runner.
        V.sync_run runner (λ config. V.run_build_spec cmd config.chain_spec config.network)
    run_subcommand benchmarks (check_block cmd) =
        on_chain (sub (check_block cmd))
          (λ config parts. V.run_check_block cmd parts.client parts.import_queue)
    run_subcommand benchmarks (export_blocks cmd) =
        on_chain (sub (export_blocks cmd))
          (λ config parts. V.run_export_blocks cmd parts.client config.database)
    run_subcommand benchmarks (export_state cmd) =
        on_chain (sub (export_state cmd))
          (λ config parts. V.run_export_state cmd parts.client config.chain_spec)
    run_subcommand benchmarks (import_blocks cmd) =
        on_chain (sub (import_blocks cmd))
          (λ config parts. V.run_import_blocks cmd parts.client parts.import_queue)
    run_subcommand benchmarks (purge_chain cmd) =
        V.create_runner (sub (purge_chain cmd)) >>= λ runner.
        V.sync_run runner (λ config. V.run_purge_chain cmd config.database)
    run_subcommand benchmarks (revert cmd) =
        on_chain (sub (revert cmd)) (λ config parts. V.run_revert cmd parts.client parts.backend)
    run_subcommand true (benchmark cmd) = V.create_runner (sub (benchmark cmd)) >>= λ runner.
        V.sync_run runner (λ config. V.run_benchmark cmd config)
    run_subcommand false (benchmark cmd) = λ w. (err V.not_enabled, w)

    -- After the command line has been parsed.
    unfoldable pub run : Bool → Cli S → Run (Unit {0})
    run benchmarks cli = elim cli.subcommand [
      | some cmd ↦ run_subcommand benchmarks cmd
      | none ↦ V.create_runner (node cli.run) >>= λ runner. V.run_node_until_exit runner start
    ]
