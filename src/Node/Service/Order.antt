-- ===== src/Node/Service/Order.antt =====
-- What the services of node/src/service.rs start from beginning to end, and in which order.
use Prim.Native.String.{String}
use mathlib.Core.Path.{subst}
use mathlib.Core.List.{append-nil, append_assoc}
use substrate_kitties.Prelude.{
  ◌≡◌, refl, sym, true, false, not, Option, none, some, List, [], ◌∷◌, ◌++◌,
}
use substrate_kitties.Node.Io.{raise}
use substrate_kitties.Node.Parts.{System, Configuration, PartialComponents}
use substrate_kitties.Node.Rpc.{RpcLibrary}
use substrate_kitties.Node.Service.Calls.{Call, Library, Action, LightParts}
use substrate_kitties.Node.Service.Partial.{
  is_authority, endpoints_of, assemble, new_partial, no_remote_keystores,
}
use substrate_kitties.Node.Service.Full.{hook_keystore, set_up_full, new_full, with_peers_set}
use substrate_kitties.Node.Service.Light.{set_up_light, new_light}
use substrate_kitties.Node.Service.Follows.{
  Mark, spawned, offchain_workers, authoring, voting, observing, network, is_some, Any, Follows,
  Bounded, Follows-pure, Bounded-raise, Bounded-result, Bounded-bind, Bounded-lift, Bounded-ask,
  Bounded-last,
}
use substrate_kitties.Node.Service.Started.{
  marks_if, author-Follows, vote-Follows, observe-Follows, when-Follows,
  start_offchain_workers-Follows, open_telemetry-Follows, spawn_telemetry-Follows,
}

module _ {S : System} (L : Library S) where
  open S use {KeystoreContainer, Telemetry}

  -- The telemetry task, if there is an endpoint.
  abbrev pub telemetry_marks : Configuration S → List Mark
  telemetry_marks config =
      marks_if (is_some (endpoints_of L config.telemetry_endpoints))
        (spawned false "telemetry" ∷ [])

  abbrev pub worker_marks : Configuration S → List Mark
  worker_marks config = marks_if config.offchain_worker_enabled (offchain_workers ∷ [])

  -- An authority authors blocks; whoever does not leave out Grandpa votes, with a keystore if it is
  -- an authority. The node goes down with either task.
  abbrev pub full_marks : Configuration S → List Mark
  full_marks config =
      telemetry_marks config
      ++ (worker_marks config
          ++ (marks_if (is_authority config.role)
                (authoring config.force_authoring ∷ spawned true "aura" ∷ [])
              ++ marks_if (not config.disable_grandpa)
                  (voting (is_authority config.role) ∷ spawned true "grandpa-voter" ∷ [])))

  -- A light node observes Grandpa, and does not go down with it.
  abbrev pub light_marks : Configuration S → List Mark
  light_marks config =
      telemetry_marks config
      ++ (worker_marks config
          ++ marks_if (not config.disable_grandpa)
              (observing ∷ spawned false "grandpa-observer" ∷ []))

  Follows-end :
      {A : Type 0} (R : A → Type 0) (ts : List Mark) (m : Action S A)
      → Follows R (ts ++ []) m
      → Follows R ts m
  Follows-end R ts m k = subst (λ us. Follows R us m) (append-nil ts) k

  Bounded-close :
      {A : Type 0} (R : A → Type 0) (us ts last : List Mark) (m : Action S A)
      → Bounded R (us ++ (ts ++ [])) (us ++ (ts ++ last)) m
      → Bounded R (us ++ ts) ((us ++ ts) ++ last) m
  Bounded-close R us ts last m k =
      subst (λ l. Bounded R (us ++ l) ((us ++ ts) ++ last) m) (append-nil ts)
        (subst (λ l. Bounded R (us ++ (ts ++ [])) l m) (sym (append_assoc us ts last)) k)

  assemble-Follows :
      (config : Configuration S) → Follows Any (telemetry_marks config) (assemble L config)
  unfolding assemble
  assemble-Follows config = Bounded-bind _ Any _ _ [] _ (open_telemetry-Follows L _) (λ opened e.
      rw (← e) (
        Follows-end Any _ _ (
          Bounded-ask L Any _ (Call.new_full_parts _ _) _ (λ r. Bounded-lift _ Any _ r (λ parts.
            Bounded-bind _ Any _ Any _ _ (spawn_telemetry-Follows L _ opened) (λ telemetry _.
              Bounded-ask L Any _ (Call.new_full_pool _ _ _ _ _) _ (λ pool.
                Bounded-ask L Any _ (Call.block_import _ _ _) _ (λ r.
                  Bounded-lift _ Any _ r (λ imports.
                    Bounded-ask L Any _ (Call.slot_duration _) _ (λ r.
                      Bounded-lift _ Any _ r (λ slot.
                        Bounded-ask L Any _ (Call.import_queue _) _
                          (λ r. Bounded-lift _ Any _ r (λ queue. Follows-pure Any _ tt)))))))))))))

  new_partial-Follows :
      (config : Configuration S)
      → Follows
          (λ parts. config.keystore_remote ≡ none)
          (telemetry_marks config)
          (new_partial L config)
  unfolding new_partial
  new_partial-Follows config =
      elim config.keystore_remote
        as (λ o.
          Follows {A = PartialComponents S} (λ parts. o ≡ none) (telemetry_marks config)
            (elim o [
              | some url ↦ raise (S.other (no_remote_keystores L))
              | none ↦ assemble L config
            ])) [
              | some url ↦ Bounded-raise _ _ _ _
              | none ↦ Bounded-result Any _ _ _ _ (λ parts. refl) (assemble-Follows config)
            ]

  hook_keystore-Follows :
      (remote : Option String) (container : KeystoreContainer)
      → remote ≡ none
      → Follows Any [] (hook_keystore L remote container)
  unfolding hook_keystore
  hook_keystore-Follows none container e = Follows-pure Any container tt
  hook_keystore-Follows (some url) container e = cc

  set_up_full-Follows :
      (R : RpcLibrary S) (config : Configuration S) (parts : PartialComponents S)
      (container : KeystoreContainer)
      → Follows Any
          (worker_marks config
            ++ (marks_if
                  (is_authority config.role)
                  (authoring config.force_authoring ∷ spawned true "aura" ∷ [])
                ++ marks_if
                    (not config.disable_grandpa)
                    (voting (is_authority config.role) ∷ spawned true "grandpa-voter" ∷ [])))
          (set_up_full L R config parts container)
  unfolding set_up_full
  set_up_full-Follows R config parts container = Bounded-ask L Any _ (Call.build_network _) _ (λ r.
      Bounded-lift _ Any _ r (λ net.
        Bounded-bind _ Any _ Any _ _ (start_offchain_workers-Follows L _ _ _ _) (λ u _.
          Bounded-ask L Any _ (Call.spawn_tasks _) _ (λ r. Bounded-lift _ Any _ r (λ v.
            Bounded-bind _ Any _ Any _ _ (when-Follows L _ _ _ (author-Follows L _ _ _ _)) (λ u _.
              Follows-end Any _ _ (
                Bounded-bind _ Any _ Any _ _ (when-Follows L _ _ _ (vote-Follows L _ _ _ _))
                  (λ u _. Follows-pure Any net tt))))))))

  pub new_full-Bounded :
      (R : RpcLibrary S) (config : Configuration S)
      → Bounded
          (λ manager. config.keystore_remote ≡ none)
          (full_marks config)
          (full_marks config ++ (network ∷ []))
          (new_full L R config)
  unfolding new_full
  new_full-Bounded R config = Bounded-close _ (telemetry_marks config) _ (network ∷ []) _ (
      Bounded-bind _ _ _ (λ parts. config.keystore_remote ≡ none) _ _ (new_partial-Follows config)
        (λ parts e. Bounded-bind _ _ _ Any [] _ (hook_keystore-Follows _ _ e) (λ container _.
          Bounded-bind _ _ _ Any _ _
            (set_up_full-Follows R (with_peers_set L config) parts container)
            (λ net _. Bounded-last L _ (Call.start_network _) parts.task_manager e))))

  set_up_light-Follows :
      (config : Configuration S) (parts : LightParts S) (telemetry : Option Telemetry)
      → Follows Any
          (worker_marks config
            ++ marks_if
                (not config.disable_grandpa)
                (observing ∷ spawned false "grandpa-observer" ∷ []))
          (set_up_light L config parts telemetry)
  unfolding set_up_light
  set_up_light-Follows config parts telemetry =
      Bounded-ask L Any _ (Call.new_light_pool _ _ _ _ _) _ (λ pool.
        Bounded-ask L Any _ (Call.block_import _ _ _) _ (λ r. Bounded-lift _ Any _ r (λ imports.
          Bounded-ask L Any _ (Call.slot_duration _) _ (λ r. Bounded-lift _ Any _ r (λ slot.
            Bounded-ask L Any _ (Call.import_queue _) _ (λ r. Bounded-lift _ Any _ r (λ queue.
              Bounded-ask L Any _ (Call.build_network _) _ (λ r. Bounded-lift _ Any _ r (λ net.
                Bounded-bind _ Any _ Any _ _ (start_offchain_workers-Follows L _ _ _ _) (λ u _.
                  Follows-end Any _ _ (
                    Bounded-bind _ Any _ Any _ _
                      (when-Follows L _ _ _ (observe-Follows L _ _ _ _ _))
                      (λ u _.
                        Bounded-ask L Any _ (Call.spawn_tasks _) _
                          (λ r. Bounded-lift _ Any _ r (λ v. Follows-pure Any net tt))))))))))))))

  pub new_light-Bounded :
      (config : Configuration S)
      → Bounded Any (light_marks config) (light_marks config ++ (network ∷ [])) (new_light L config)
  unfolding new_light
  new_light-Bounded config = Bounded-close _ (telemetry_marks config) _ (network ∷ []) _ (
      Bounded-bind _ _ _ _ [] _ (open_telemetry-Follows L _) (λ opened e. rw (← e) (
        Bounded-ask L _ _ (Call.new_light_parts _ _) _ (λ r. Bounded-lift _ _ _ r (λ parts.
          Bounded-bind _ _ _ Any _ _ (spawn_telemetry-Follows L _ opened) (λ telemetry _.
            Bounded-bind _ _ _ Any _ _
              (set_up_light-Follows (with_peers_set L config) parts telemetry)
              (λ net _. Bounded-last L Any (Call.start_network _) parts.task_manager tt)))))))
