-- ===== src/Node/Command/Laws.antt =====
-- The errors of the command line of node/src/command.rs.
use Prim.Native.String.{String}
use text.Mathlib.Text.{◌==◌ as ◌is◌}
use substrate_kitties.Prelude.{
  ℕ, ◌≡◌, ◌∙◌, Bool, true, false, Option, none, some, List, ◌||◌, arith,
}
use substrate_kitties.Node.ChainSpec.{
  Keys, ChainSpec, no_wasm, development_config, local_testnet_config,
}
use substrate_kitties.Node.Io.{Outcome, ok, err, ◌>>=◌, pure, bind_err, bind_ok}
use substrate_kitties.Node.Parts.{System, Configuration, PartialComponents}
use substrate_kitties.Node.Command.{
  load_spec, key, build_spec, check_block, export_blocks, export_state, import_blocks, purge_chain,
  revert, benchmark, Cli, Job, sub, node, Run, Services, on_chain, run_subcommand, run,
}

-- The three names of specifications that are part of the program.
abbrev pub is_built_in : String → Bool
is_built_in id = (id is "dev") || (id is "") || (id is "local")

-- Without the Wasm binary in the build no built-in specification can be loaded; with or without it,
-- every other name is the path of a file that is read.
pub load_spec-no_wasm :
    (K : Keys) (from_json_file : String → Outcome String (ChainSpec K)) (id : String)
    → ((is_built_in id ≡ true) → load_spec K none from_json_file id ≡ err no_wasm)
      × ((wasm : Option (List ℕ))
          → is_built_in id ≡ false
          → load_spec K wasm from_json_file id ≡ from_json_file id)
unfolding load_spec development_config local_testnet_config
load_spec-no_wasm K from_json_file id = (ground arith, ground arith)

module _ {S : System} where
  -- The jobs that need a runner: all but the keys, and the benchmarks if they are not built in.
  abbrev pub needs_runner : Bool → Job S → Bool
  needs_runner benchmarks (sub (key cmd)) = false
  needs_runner benchmarks (sub (build_spec cmd)) = true
  needs_runner benchmarks (sub (check_block cmd)) = true
  needs_runner benchmarks (sub (export_blocks cmd)) = true
  needs_runner benchmarks (sub (export_state cmd)) = true
  needs_runner benchmarks (sub (import_blocks cmd)) = true
  needs_runner benchmarks (sub (purge_chain cmd)) = true
  needs_runner benchmarks (sub (revert cmd)) = true
  needs_runner benchmarks (sub (benchmark cmd)) = benchmarks
  needs_runner benchmarks (node cmd) = true

  -- The jobs that open the chain's data.
  abbrev pub opens_chain : Job S → Bool
  opens_chain (sub (key cmd)) = false
  opens_chain (sub (build_spec cmd)) = false
  opens_chain (sub (check_block cmd)) = true
  opens_chain (sub (export_blocks cmd)) = true
  opens_chain (sub (export_state cmd)) = true
  opens_chain (sub (import_blocks cmd)) = true
  opens_chain (sub (purge_chain cmd)) = false
  opens_chain (sub (revert cmd)) = true
  opens_chain (sub (benchmark cmd)) = false
  opens_chain (node cmd) = false

  -- The command line that asks for a job.
  abbrev pub cli_of : S.RunCmd → Job S → Cli S
  cli_of flags (sub cmd) = record { subcommand = some cmd; run = flags }
  cli_of flags (node cmd) = record { subcommand = none; run = cmd }

module _ {S : System} {W : Type 0} where
  -- The documented behaviour of a runner: an error of the function that it runs is its own error.
  pub record RunnerIsLawful (V : Services S W) : Type 0 where
    pub async_run_err :
        (c : Configuration S) (f : Configuration S → Run S W (S.Future × S.TaskManager)) (w w' : W)
        (e : S.Error)
        → f c w ≡ (err e, w')
        → V.async_run c f w ≡ (err e, w')

  module _ (V : Services S W) where
    -- If no runner can be made for a job that needs one, the program ends with that error, in the
    -- world that the attempt left.
    pub run-no_runner :
        (benchmarks : Bool) (flags : S.RunCmd) (job : Job S) (w w' : W) (e : S.Error)
        → needs_runner benchmarks job ≡ true
        → V.create_runner job w ≡ (err e, w')
        → run S W V benchmarks (cli_of flags job) w ≡ (err e, w')
    unfolding run run_subcommand
    run-no_runner b flags (sub (key cmd)) w w' e n h = absurd (ground arith)
    run-no_runner b flags (sub (build_spec cmd)) w w' e n h = search (bind_err, h)
    run-no_runner b flags (sub (check_block cmd)) w w' e n h = search (bind_err, h)
    run-no_runner b flags (sub (export_blocks cmd)) w w' e n h = search (bind_err, h)
    run-no_runner b flags (sub (export_state cmd)) w w' e n h = search (bind_err, h)
    run-no_runner b flags (sub (import_blocks cmd)) w w' e n h = search (bind_err, h)
    run-no_runner b flags (sub (purge_chain cmd)) w w' e n h = search (bind_err, h)
    run-no_runner b flags (sub (revert cmd)) w w' e n h = search (bind_err, h)
    run-no_runner true flags (sub (benchmark cmd)) w w' e n h = search (bind_err, h)
    run-no_runner false flags (sub (benchmark cmd)) w w' e n h = absurd (ground arith)
    run-no_runner b flags (node cmd) w w' e n h = search (bind_err, h)

    on_chain_err :
        (job : Job S) (make : Configuration S → PartialComponents S → S.Future)
        (c : Configuration S) (w w' w'' : W) (e : S.Error)
        → RunnerIsLawful V
        → V.create_runner job w ≡ (ok c, w')
        → V.new_partial c w' ≡ (err e, w'')
        → on_chain S W V job make w ≡ (err e, w'')
    on_chain_err job make c w w' w'' e L h p =
        let opens = λ (config : Configuration S).
          V.new_partial config >>= λ parts. pure (make config parts, parts.task_manager) in
        bind_ok (V.create_runner job) (λ runner. V.async_run runner opens) c w w' h
        ∙ L.async_run_err c opens w' w'' e (
            bind_err (V.new_partial c) (λ parts. pure (make c parts, parts.task_manager)) w' w'' e
              p)

    -- With a lawful runner, if a runner is made for a command that works on the chain's data but
    -- that data cannot be opened, the program ends with that error.
    pub run-no_chain :
        (benchmarks : Bool) (flags : S.RunCmd) (job : Job S) (c : Configuration S) (w w' w'' : W)
        (e : S.Error)
        → RunnerIsLawful V
        → opens_chain job ≡ true
        → V.create_runner job w ≡ (ok c, w')
        → V.new_partial c w' ≡ (err e, w'')
        → run S W V benchmarks (cli_of flags job) w ≡ (err e, w'')
    unfolding run run_subcommand
    run-no_chain b flags (sub (key cmd)) c w w' w'' e L n h p = absurd (ground arith)
    run-no_chain b flags (sub (build_spec cmd)) c w w' w'' e L n h p = absurd (ground arith)
    run-no_chain b flags (sub (check_block cmd)) c w w' w'' e L n h p =
        search (on_chain_err, L, h, p)
    run-no_chain b flags (sub (export_blocks cmd)) c w w' w'' e L n h p =
        search (on_chain_err, L, h, p)
    run-no_chain b flags (sub (export_state cmd)) c w w' w'' e L n h p =
        search (on_chain_err, L, h, p)
    run-no_chain b flags (sub (import_blocks cmd)) c w w' w'' e L n h p =
        search (on_chain_err, L, h, p)
    run-no_chain b flags (sub (purge_chain cmd)) c w w' w'' e L n h p = absurd (ground arith)
    run-no_chain b flags (sub (revert cmd)) c w w' w'' e L n h p = search (on_chain_err, L, h, p)
    run-no_chain b flags (sub (benchmark cmd)) c w w' w'' e L n h p = absurd (ground arith)
    run-no_chain b flags (node cmd) c w w' w'' e L n h p = absurd (ground arith)
