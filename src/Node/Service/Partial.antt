-- ===== src/Node/Service/Partial.antt =====
-- `new_partial` of node/src/service.rs, and the start of the telemetry, which `new_light` has too.
use Prim.Native.String.{String}
use substrate_kitties.Prelude.{Bool, true, false, Option, none, some}
use substrate_kitties.Node.Io.{◌>>=◌, ◌>>◌, pure, raise, lift}
use substrate_kitties.Node.Parts.{
  System, Role, full, light, authority, Configuration, PartialComponents,
}
use substrate_kitties.Node.Service.Calls.{Call, with_native_version, Library, Action, ask}

-- `Role::is_authority`
abbrev pub is_authority : Role → Bool
is_authority full = false
is_authority light = false
is_authority authority = true

module _ {S : System} (L : Library S) where
  open S use {Endpoints, TaskManager, TelemetryWorker, Telemetry, SlotDuration, Timestamp, Slot}

  -- `config.telemetry_endpoints.filter(|x| !x.is_empty())`
  abbrev pub endpoints_of : Option Endpoints → Option Endpoints
  endpoints_of none = none
  endpoints_of (some endpoints) = elim (L.is_empty endpoints) [
    | true ↦ none
    | false ↦ some endpoints
  ]

  -- The closure under `map`, with `transpose` and `?`.
  unfoldable pub open_telemetry : Option Endpoints → Action S (Option (TelemetryWorker × Telemetry))
  open_telemetry none = pure none
  open_telemetry (some endpoints) = do
    worker ← lift (← ask S L (Call.telemetry_worker 16))
    telemetry ← ask S L (Call.new_telemetry worker endpoints)
    pure (some (worker, telemetry))

  abbrev pub telemetry_of : Option (TelemetryWorker × Telemetry) → Option Telemetry
  telemetry_of none = none
  telemetry_of (some (worker, telemetry)) = some telemetry

  unfoldable pub spawn_telemetry :
      TaskManager → Option (TelemetryWorker × Telemetry) → Action S (Option Telemetry)
  spawn_telemetry manager none = pure none
  spawn_telemetry manager (some (worker, telemetry)) = do
    ask S L (Call.spawn manager false "telemetry" (L.run_worker worker))
    pure (some telemetry)

  -- `create_inherent_data_providers`, given the system's time.
  abbrev pub inherents : SlotDuration → Timestamp → Timestamp × Slot
  inherents raw_slot_duration timestamp = (timestamp, L.slot_from timestamp raw_slot_duration)

  unfoldable pub no_remote_keystores : String
  no_remote_keystores = "Remote Keystores are not supported."

  -- `new_partial` after its test of the keystore.
  unfoldable pub assemble : Configuration S → Action S (PartialComponents S)
  assemble config = do
    opened ← open_telemetry (endpoints_of config.telemetry_endpoints)
    parts ← lift (← ask S L (Call.new_full_parts config (telemetry_of opened)))
    telemetry ← spawn_telemetry parts.task_manager opened
    let select_chain = L.longest_chain parts.backend
    transaction_pool ← ask S L (
        Call.new_full_pool config.transaction_pool (is_authority config.role)
          config.prometheus_registry parts.task_manager parts.client)
    imports ← lift (← ask S L (Call.block_import parts.client select_chain telemetry))
    slot_duration ← lift (← ask S L (Call.slot_duration parts.client))
    import_queue ←
        lift
          (← ask S L (
            Call.import_queue (record {
              block_import = imports.0;
              justification_import = some imports.0;
              client = parts.client;
              create_inherent_data_providers = inherents slot_duration;
              spawner = parts.task_manager;
              can_author_with = with_native_version;
              registry = config.prometheus_registry;
              telemetry = telemetry;
            })))
    pure (record {
      client = parts.client;
      backend = parts.backend;
      task_manager = parts.task_manager;
      import_queue = import_queue;
      keystore_container = parts.keystore_container;
      select_chain = select_chain;
      transaction_pool = transaction_pool;
      block_import = imports.0;
      grandpa_link = imports.1;
      telemetry = telemetry;
    })

  unfoldable pub new_partial : Configuration S → Action S (PartialComponents S)
  new_partial config = elim config.keystore_remote [
    | some url ↦ raise (S.other no_remote_keystores)
    | none ↦ assemble config
  ]
