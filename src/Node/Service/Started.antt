-- ===== src/Node/Service/Started.antt =====
-- What each service of node/src/service.rs starts, and in which order.
use substrate_kitties.Prelude.{
  ◌≡◌, refl, Bool, true, false, Option, none, some, List, [], ◌∷◌, Bool-cases, ◌⊎◌, inl, inr,
}
use substrate_kitties.Node.Parts.{System, Role, Configuration, PartialComponents}
use substrate_kitties.Node.Service.Calls.{Call, Library, Action}
use substrate_kitties.Node.Service.Partial.{is_authority, open_telemetry, spawn_telemetry}
use substrate_kitties.Node.Service.Full.{start_offchain_workers, author, vote, when}
use substrate_kitties.Node.Service.Light.{observe}
use substrate_kitties.Node.Service.Follows.{
  Mark, spawned, offchain_workers, authoring, voting, observing, is_some, Any, Follows,
  Follows-pure, Bounded-lift, Bounded-ask, Follows-ask,
}

-- The marks under a condition.
abbrev pub marks_if : Bool → List Mark → List Mark
marks_if true ts = ts
marks_if false ts = []

Role-cases : (r : Role) → (is_authority r ≡ true) ⊎ (is_authority r ≡ false)
Role-cases r = Bool-cases (is_authority r)

module _ {S : System} (L : Library S) where
  open S use {
    Endpoints, TaskManager, TelemetryWorker, Telemetry, KeystoreContainer, Network, Client,
    LinkHalf,
  }

  pub author-Follows :
      (config : Configuration S) (parts : PartialComponents S) (container : KeystoreContainer)
      (net : Network)
      → Follows Any
          (authoring config.force_authoring ∷ spawned true "aura" ∷ [])
          (author L config parts container net)
  unfolding author
  author-Follows config parts container net =
      Bounded-ask L Any _ (Call.proposer_factory _ _ _ _ _) _ (λ factory.
        Bounded-ask L Any _ (Call.slot_duration _) _ (λ r. Bounded-lift _ Any _ r (λ slot.
          Bounded-ask L Any _ (Call.start_aura _) _
            (λ r. Bounded-lift _ Any _ r (λ aura. Follows-ask L (Call.spawn_blocking _ _ _ _))))))

  pub vote-Follows :
      (config : Configuration S) (parts : PartialComponents S) (container : KeystoreContainer)
      (net : Network)
      → Follows Any
          (voting (is_authority config.role) ∷ spawned true "grandpa-voter" ∷ [])
          (vote L config parts container net)
  unfolding vote
  vote-Follows config parts container net = elim (Role-cases config.role) [
    | inl e ↦ rw e (
        Bounded-ask L Any _ (Call.run_grandpa_voter _) _
          (λ r. Bounded-lift _ Any _ r (λ voter. Follows-ask L (Call.spawn_blocking _ _ _ _))))
    | inr e ↦ rw e (
        Bounded-ask L Any _ (Call.run_grandpa_voter _) _
          (λ r. Bounded-lift _ Any _ r (λ voter. Follows-ask L (Call.spawn_blocking _ _ _ _))))
  ]

  pub observe-Follows :
      (config : Configuration S) (manager : TaskManager) (telemetry : Option Telemetry)
      (link : LinkHalf) (net : Network)
      → Follows Any
          (observing ∷ spawned false "grandpa-observer" ∷ [])
          (observe L config manager telemetry link net)
  unfolding observe
  observe-Follows config manager telemetry link net =
      Bounded-ask L Any _ (Call.run_grandpa_observer _ _ _) _
        (λ r. Bounded-lift _ Any _ r (λ observer. Follows-ask L (Call.spawn_blocking _ _ _ _)))

  pub when-Follows :
      (b : Bool) (ts : List Mark) (m : Action S (Unit {0}))
      → Follows Any ts m
      → Follows Any (marks_if b ts) (when L b m)
  when-Follows true ts m k = k
  when-Follows false ts m k = Follows-pure Any tt tt

  pub start_offchain_workers-Follows :
      (config : Configuration S) (manager : TaskManager) (client : Client) (net : Network)
      → Follows Any
          (marks_if config.offchain_worker_enabled (offchain_workers ∷ []))
          (start_offchain_workers L config manager client net)
  unfolding start_offchain_workers
  start_offchain_workers-Follows config manager client net =
      elim (Bool-cases config.offchain_worker_enabled) [
        | inl e ↦ rw e (Follows-ask L (Call.build_offchain_workers _ _ _ _))
        | inr e ↦ rw e (Follows-pure Any tt tt)
      ]

  pub open_telemetry-Follows :
      (endpoints : Option Endpoints)
      → Follows (λ opened. is_some opened ≡ is_some endpoints) [] (open_telemetry L endpoints)
  unfolding open_telemetry
  open_telemetry-Follows none = Follows-pure _ none refl
  open_telemetry-Follows (some endpoints) = Bounded-ask L _ _ (Call.telemetry_worker _) _ (λ r.
      Bounded-lift _ _ _ r (λ worker.
        Bounded-ask L _ _ (Call.new_telemetry _ _) _
          (λ telemetry. Follows-pure _ (some (worker, telemetry)) refl)))

  pub spawn_telemetry-Follows :
      (manager : TaskManager) (opened : Option (TelemetryWorker × Telemetry))
      → Follows Any
          (marks_if (is_some opened) (spawned false "telemetry" ∷ []))
          (spawn_telemetry L manager opened)
  unfolding spawn_telemetry
  spawn_telemetry-Follows manager none = Follows-pure Any none tt
  spawn_telemetry-Follows manager (some (worker, telemetry)) =
      Bounded-ask L Any _ (Call.spawn _ _ _ _) _ (λ u. Follows-pure Any (some telemetry) tt)
