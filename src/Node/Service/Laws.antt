-- ===== src/Node/Service/Laws.antt =====
-- The services of node/src/service.rs as the command line of node/src/command.rs runs them.
use Prim.Native.String.{String}
use substrate_kitties.Prelude.{◌≡◌, ap, Bool, true, Option, none, some, List, [], ◌∷◌, ◌++◌}
use substrate_kitties.Node.Io.{ok, err, raise, bind_err}
use substrate_kitties.Node.Parts.{System, full, light, authority, Configuration, PartialComponents}
use substrate_kitties.Node.Rpc.{RpcLibrary}
use substrate_kitties.Node.Service.Calls.{Library, Action, History}
use substrate_kitties.Node.Service.Partial.{assemble, new_partial, no_remote_keystores}
use substrate_kitties.Node.Service.Full.{new_full}
use substrate_kitties.Node.Service.Light.{new_light}
use substrate_kitties.Node.Service.Follows.{Mark, network, Any, Post, Bounded, Bounded-result}
use substrate_kitties.Node.Service.Order.{
  full_marks, light_marks, new_full-Bounded, new_light-Bounded,
}
use substrate_kitties.Node.Command.{Services, Job, start, run}
use substrate_kitties.Node.Command.Laws.{cli_of, opens_chain, RunnerIsLawful, run-no_chain}

module _ {S : System} (L : Library S) (R : RpcLibrary S) where
  -- The command line with the services of this repository.
  abbrev pub with_services : Services S (History S) → Services S (History S)
  with_services V = record V {
    new_partial = new_partial L;
    new_light = new_light L;
    new_full = new_full L R;
  }

  -- A full node that comes up has no remote keystore in its configuration, and has started, in this
  -- order: the telemetry if there are endpoints, the offchain workers if they are enabled, Aura if it
  -- is an authority, the Grandpa voter unless it is disabled, with a keystore if and only if it is an
  -- authority, and last the network. Aura and the voter are essential tasks, the telemetry is not. A
  -- full node that fails to come up has started a first part of this, and not the network.
  pub new_full_starts :
      (config : Configuration S) (history : History S)
      → Post
          (λ manager. config.keystore_remote ≡ none)
          (full_marks L config)
          (full_marks L config ++ (network ∷ []))
          history
          (new_full L R config history)
  new_full_starts config history = (new_full-Bounded L R config).at history

  -- What a node starts before the network.
  abbrev pub node_marks : Configuration S → List Mark
  node_marks config = elim config.role [
    | light ↦ light_marks L config
    | full ↦ full_marks L config
    | authority ↦ full_marks L config
  ]

  start-Bounded :
      (V : Services S (History S)) (config : Configuration S)
      → Bounded Any
          (node_marks config)
          (node_marks config ++ (network ∷ []))
          (start S (History S) (with_services V) config)
  start-Bounded V config =
      elim config.role
        as (λ r.
          Bounded {A = S.TaskManager} Any
            (elim r [
              | light ↦ light_marks L config
              | full ↦ full_marks L config
              | authority ↦ full_marks L config
            ])
            (elim r [
              | light ↦ light_marks L config
              | full ↦ full_marks L config
              | authority ↦ full_marks L config
            ]
              ++ (network ∷ []))
            (elim r [
              | light ↦ new_light L config
              | full ↦ new_full L R config
              | authority ↦ new_full L R config
            ])) [
              | light ↦ new_light-Bounded L config
              | full ↦ Bounded-result _ Any _ _ _ (λ m. tt) (new_full-Bounded L R config)
              | authority ↦ Bounded-result _ Any _ _ _ (λ m. tt) (new_full-Bounded L R config)
            ]

  -- The node that the command line starts comes up as its role says: a light one starts the
  -- telemetry, the offchain workers and the Grandpa observer as far as they are configured, and never
  -- authors or votes; any other one starts what a full node does. The network is last; if the node
  -- fails to come up it has started a first part of this, and not the network.
  pub start_starts :
      (V : Services S (History S)) (config : Configuration S) (history : History S)
      → Post Any
          (node_marks config)
          (node_marks config ++ (network ∷ []))
          history
          (start S (History S) (with_services V) config history)
  start_starts V config history = (start-Bounded V config).at history

  new_partial-refuses :
      (config : Configuration S) (history : History S) {url : String}
      → config.keystore_remote ≡ some url
      → new_partial L config history ≡ (err (S.other (no_remote_keystores L)), history)
  unfolding new_partial raise
  new_partial-refuses config history e =
      ap
        (λ (o : Option String).
          elim o as (λ o. Action S (PartialComponents S)) [
            | some url ↦ raise (S.other (no_remote_keystores L))
            | none ↦ assemble L config
          ]
            history)
        e

  new_full-refuses :
      (config : Configuration S) (history : History S) {url : String}
      → config.keystore_remote ≡ some url
      → new_full L R config history ≡ (err (S.other (no_remote_keystores L)), history)
  unfolding new_full
  new_full-refuses config history e =
      bind_err (new_partial L config) _ history history _ (new_partial-refuses config history e)

  -- With a lawful runner, a remote keystore in the configuration is refused by every command that
  -- opens the chain's data and by a full node, always with the message of `new_partial` and before any
  -- library is called; so the message of `new_full` on remote keystores never appears.
  pub remote_keystore_refused :
      (V : Services S (History S)) (benchmarks : Bool) (flags : S.RunCmd) (job : Job S)
      (config : Configuration S) (history history' : History S) {url : String}
      → RunnerIsLawful (with_services V)
      → opens_chain job ≡ true
      → V.create_runner job history ≡ (ok config, history')
      → config.keystore_remote ≡ some url
      → (run S (History S) (with_services V) benchmarks (cli_of flags job) history
          ≡ (err (S.other (no_remote_keystores L)), history'))
        × (new_full L R config history' ≡ (err (S.other (no_remote_keystores L)), history'))
  remote_keystore_refused V benchmarks flags job config history history' lawful opens made e = (
    run-no_chain (with_services V) benchmarks flags job config history history' history' _ lawful
        opens made (new_partial-refuses config history' e),
    new_full-refuses config history' e,
  )
