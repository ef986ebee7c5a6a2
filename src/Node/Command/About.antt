-- ===== src/Node/Command/About.antt =====
-- `impl SubstrateCli for Cli` of node/src/command.rs: what the node says of itself to sc_cli.
use Prim.Native.String.{String}
use substrate_kitties.Prelude.{ℕ, Option, List}
use substrate_kitties.Runtime.Interfaces.{Types, Frame, RuntimeVersion, version}
use substrate_kitties.Node.ChainSpec.{Keys, ChainSpec}
use substrate_kitties.Node.Command.{load_spec}
use substrate_kitties.Node.Io.{Outcome}

-- The variables of `env!`, which are set when the node is built.
pub record BuildEnv : Type 0 where
  pub substrate_cli_impl_version : String
  pub cargo_pkg_description : String
  pub cargo_pkg_authors : String

module _ (K : Keys) (S : Types) where
  -- The trait of sc_cli, as far as the node implements it.
  pub record SubstrateCli : Type 0 where
    pub impl_name : String
    pub impl_version : String
    pub description : String
    pub author : String
    pub support_url : String
    pub copyright_start_year : ℕ
    pub load_spec : String → Outcome String (ChainSpec K)
    pub native_runtime_version : ChainSpec K → RuntimeVersion S

  module _ (F : Frame S) (env : BuildEnv) (wasm_binary : Option (List ℕ))
      (from_json_file : String → Outcome String (ChainSpec K)) where
    abbrev pub substrate_cli : SubstrateCli
    substrate_cli = record {
      impl_name = "Substrate Node";
      impl_version = env.substrate_cli_impl_version;
      description = env.cargo_pkg_description;
      author = env.cargo_pkg_authors;
      support_url = "support.anonymous.an";
      copyright_start_year = 2017;
      load_spec = load_spec K wasm_binary from_json_file;
      native_runtime_version = λ spec. version S F;
    }
