-- ===== src/Runtime/Tests.antt =====
-- The theorems on the runtime, with small pallets beside those of this repository.
mod Submissions
use substrate_kitties.Prelude.{
  ℕ, ◌+◌, ◌*◌, ◌^◌, ◌<◌, ◌≤◌, ◌≡◌, ◌≢◌, ◌↔◌, refl, Bool, true, none, some, List, [], ◌∷◌, inl, inr,
  arith,
}
use substrate_kitties.Frame.{signed, ok}
use substrate_kitties.Template
use substrate_kitties.Template.Calls as TemplateCalls
use substrate_kitties.Kitties.Types
use substrate_kitties.Kitties.Unsigned
use substrate_kitties.Runtime.Pallets.{pallet_of, kitties_call, validates}
use substrate_kitties.Runtime.Dispatch.{Others, Whole, dispatch, validate_unsigned}
use substrate_kitties.Runtime.Laws.{to_template, to_kitties, Request, after}
use substrate_kitties.Runtime.Validation.{Accepted, validate_unsigned-Accepted}
use substrate_kitties.Kitties.Config.{Config}
use substrate_kitties.Kitties.State.{State}
use substrate_kitties.Kitties.Unsigned.{solution_hash, validate_solution}
use substrate_kitties.Kitties.Fixture.{config, counter, block, blank}
use substrate_kitties.Runtime.{default_difficulty}
use substrate_kitties.Runtime.Difficulty.{default_difficulty_lem}
use substrate_kitties.Kitties.Worker.{panicked, run_offchain_worker}
use substrate_kitties.Runtime.Interfaces
use substrate_kitties.Runtime.Configuration.{block_weights}
use substrate_kitties.Runtime.Configuration.Blocks.{total_weight, total_weight-block_weights}
use substrate_kitties.Kitties.Chain.{Reach}
use substrate_kitties.Kitties.Genesis.{build}
use substrate_kitties.Runtime.Chain.{Lives, born}
use substrate_kitties.Runtime.Fixture.{
  small_nft-IsLawful, small_config, limits, crates, limits-AreDocumented, rocks_db-IsDocumented,
}

abbrev runtime_config : Config
runtime_config = record config { default_difficulty = default_difficulty }

-- The other pallets keep a number, and their calls do nothing.
abbrev others : Others config
others = record { Kept = ℕ; Call = λ p. Unit; dispatch = λ p c origin s. (ok tt, s) }

abbrev whole : Whole config others
whole = record { kitties = blank; template = record { something = none; events = [] }; others = 9 }

abbrev requests : List (Request others)
requests =
    to_template (block 0) (TemplateCalls.do_something 41) (signed 1)
    ∷ to_kitties (block 0) Types.Call.create (signed 100)
    ∷ to_template (block 0) TemplateCalls.cause_error (signed 2)
    ∷ []

counted : (after others requests whole).template.something ≡ some 42
unfolding dispatch TemplateCalls.dispatch Template.do_something Template.cause_error
counted = refl

abbrev moved_on : Whole config others
moved_on = record whole { kitties = record blank { auto_breed_nonce = 1 } }

validate_unsigned-Accepted_example :
    (validates (pallet_of {A = ℕ} {O = others.Call} (kitties_call (Types.Call.auto_breed 0 1 0 0)))
      ≡ true)
    × Accepted others (kitties_call (Types.Call.auto_breed 0 1 0 0)) whole moved_on
unfolding validate_unsigned Unsigned.validate_unsigned Unsigned.validate_solution
validate_unsigned-Accepted_example =
    validate_unsigned-Accepted others (kitties_call (Types.Call.auto_breed 0 1 0 0)) whole moved_on
      refl

default_difficulty_lem_example :
    (validate_solution runtime_config 0 1 7 200 ≢ none)
    × ((validate_solution runtime_config 0 1 7 200 ≡ some true)
        ↔ ((solution_hash runtime_config 0 1 7 200 + 1) * 100_000 < 2 ^ 128))
    × ((locked : Bool) (seed : List ℕ) (s : State runtime_config)
        → run_offchain_worker runtime_config counter locked seed s ≢ panicked)
default_difficulty_lem_example = default_difficulty_lem runtime_config counter refl 0 1 7 200

-- Libraries of which nothing but the length of a slot is told.
abbrev types : Interfaces.Types
types = record {
  Storage = Unit;
  ApiVersions = Unit;
  Block = Unit;
  Header = Unit;
  Extrinsic = Unit;
  Hash = Unit;
  Metadata = Unit;
  ApplyExtrinsicResult = Unit;
  InherentData = Unit;
  CheckInherentsResult = Unit;
  TransactionSource = Unit;
  TransactionValidity = Unit;
  SlotDuration = ℕ;
  AuraId = ℕ;
  KeyTypeId = ℕ;
  GrandpaId = ℕ;
  AuthorityList = Unit;
  EquivocationProof = Unit;
  OpaqueKeyOwnershipProof = Unit;
  AccountId = ℕ;
  RuntimeDispatchInfo = Unit;
  FeeDetails = Unit;
}

abbrev frame : Interfaces.Frame types
frame = record {
  runtime_api_versions = tt;
  executive_execute_block = λ block s. some (tt, s);
  executive_initialize_block = λ header s. some (tt, s);
  executive_apply_extrinsic = λ extrinsic s. some (tt, s);
  executive_finalize_block = λ s. some (tt, s);
  executive_validate_transaction = λ source tx block_hash s. some (tt, s);
  executive_offchain_worker = λ header s. some (tt, s);
  runtime_metadata = tt;
  create_extrinsics = λ inherents s. some ([], s);
  check_extrinsics = λ inherents block s. some (tt, s);
  aura_slot_duration = λ minimum. 2 * minimum;
  from_millis = λ millis. millis;
  aura_authorities = λ s. [];
  session_keys_generate = λ seed s. some ([], s);
  session_keys_decode = λ encoded. none;
  grandpa_authorities = λ s. tt;
  system_account_nonce = λ account s. 0;
  payment_query_info = λ uxt len s. tt;
  payment_query_fee_details = λ uxt len s. tt;
}

slots : Interfaces.slot_duration types frame ≡ 2000
unfolding Interfaces.slot_duration
slots = refl

-- The runtime after genesis, with ids of 32 bits.
abbrev pub small_others : Others small_config
small_others = record { Kept = ℕ; Call = λ p. Unit; dispatch = λ p c origin s. (ok tt, s) }

abbrev before : State small_config
before = record {
  kitty_prices = λ k. none;
  class_id = 0;
  auto_breed_nonce = 0;
  nft = record { tokens = λ c k. none; next = λ c. 0; classes = 0 };
  currency = λ a. 500;
  events = [];
}

abbrev pub first : Whole small_config small_others
first = record {
  kitties = record before { nft = record { tokens = λ c k. none; next = λ c. 0; classes = 1 } };
  template = record { something = none; events = [] };
  others = 9;
}

abbrev two_requests : List (Request small_others)
two_requests =
    to_template (block 0) (TemplateCalls.do_something 41) (signed 1)
    ∷ to_kitties (block 0) Types.Call.create (signed 100)
    ∷ []

pub first-Lives : Lives small_others first
unfolding build
first-Lives =
    born {s = before}
      (record { no_prices = λ k. refl; no_tokens = λ c k. refl; no_nonce = refl; no_events = refl })
      refl refl

total_weight-block_weights_example :
    (5_000_000_000
        + total_weight limits crates (inr Types.Call.create ∷ inl TemplateCalls.cause_error ∷ [])
      ≤ limits.max_normal (block_weights limits))
    × (5_000_000_000
          + total_weight limits crates (inr Types.Call.create ∷ inl TemplateCalls.cause_error ∷ [])
        < 2 ^ 64)
total_weight-block_weights_example =
    total_weight-block_weights limits crates limits-AreDocumented rocks_db-IsDocumented
      (inr Types.Call.create ∷ inl TemplateCalls.cause_error ∷ []) (omega arith)
