-- ===== src/Runtime/Interfaces.antt =====
-- The version and the interfaces that runtime/src/lib.rs gives to the node: `VERSION`,
-- `native_version` and `impl_runtime_apis!`.
pub mod Laws
use Prim.Native.String.{String}
use substrate_kitties.Prelude.{ℕ, List, [], Option, none}
use substrate_kitties.Runtime.{minimum_period}

-- The types of the libraries that the interfaces name, `Storage` being the state of the chain.
pub record Types : Type 1 where
  pub Storage : Type 0
  pub ApiVersions : Type 0
  pub Block : Type 0
  pub Header : Type 0
  pub Extrinsic : Type 0
  pub Hash : Type 0
  pub Metadata : Type 0
  pub ApplyExtrinsicResult : Type 0
  pub InherentData : Type 0
  pub CheckInherentsResult : Type 0
  pub TransactionSource : Type 0
  pub TransactionValidity : Type 0
  pub SlotDuration : Type 0
  pub AuraId : Type 0
  pub KeyTypeId : Type 0
  pub GrandpaId : Type 0
  pub AuthorityList : Type 0
  pub EquivocationProof : Type 0
  pub OpaqueKeyOwnershipProof : Type 0
  pub AccountId : Type 0
  pub RuntimeDispatchInfo : Type 0
  pub FeeDetails : Type 0

module _ (S : Types) where
  open S use {
    Storage, ApiVersions, Block, Header, Extrinsic, Hash, Metadata, ApplyExtrinsicResult,
    InherentData, CheckInherentsResult, TransactionSource, TransactionValidity, SlotDuration,
    AuraId, KeyTypeId, GrandpaId, AuthorityList, EquivocationProof, OpaqueKeyOwnershipProof,
    AccountId, RuntimeDispatchInfo, FeeDetails,
  }

  -- A call into the runtime: none if it panics.
  abbrev pub Run : Type 0 → Type 0
  Run A = Storage → Option (A × Storage)

  -- The functions that the interfaces call, by the name of their owner.
  pub record Frame : Type 0 where
    pub runtime_api_versions : ApiVersions
    pub executive_execute_block : Block → Run (Unit {0})
    pub executive_initialize_block : Header → Run (Unit {0})
    pub executive_apply_extrinsic : Extrinsic → Run ApplyExtrinsicResult
    pub executive_finalize_block : Run Header
    pub executive_validate_transaction :
        TransactionSource → Extrinsic → Hash → Run TransactionValidity
    pub executive_offchain_worker : Header → Run (Unit {0})
    pub runtime_metadata : Metadata
    pub create_extrinsics : InherentData → Run (List Extrinsic)
    pub check_extrinsics : InherentData → Block → Run CheckInherentsResult
    -- `pallet_aura`, given the `MinimumPeriod` of the timestamps, in milliseconds
    pub aura_slot_duration : ℕ → ℕ
    pub from_millis : ℕ → SlotDuration
    pub aura_authorities : Storage → List AuraId
    pub session_keys_generate : Option (List ℕ) → Run (List ℕ)
    pub session_keys_decode : List ℕ → Option (List (List ℕ × KeyTypeId))
    pub grandpa_authorities : Storage → AuthorityList
    pub system_account_nonce : AccountId → Storage → ℕ
    pub payment_query_info : Extrinsic → ℕ → Storage → RuntimeDispatchInfo
    pub payment_query_fee_details : Extrinsic → ℕ → Storage → FeeDetails

  pub record RuntimeVersion : Type 0 where
    pub spec_name : String
    pub impl_name : String
    pub authoring_version : ℕ
    pub spec_version : ℕ
    pub impl_version : ℕ
    pub apis : ApiVersions
    pub transaction_version : ℕ

  -- `can_author_with` is the set of other versions that it can author with.
  pub record NativeVersion : Type 0 where
    pub runtime_version : RuntimeVersion
    pub can_author_with : List ℕ × List ℕ

  module _ (F : Frame) where
    abbrev pub version : RuntimeVersion
    version = record {
      spec_name = "node-template";
      impl_name = "node-template";
      authoring_version = 1;
      spec_version = 100;
      impl_version = 1;
      apis = F.runtime_api_versions;
      transaction_version = 1;
    }

    abbrev pub native_version : NativeVersion
    native_version = record { runtime_version = version; can_author_with = ([], []) }

    -- `Core`
    abbrev pub execute_block : Block → Run (Unit {0})
    execute_block block = F.executive_execute_block block

    abbrev pub initialize_block : Header → Run (Unit {0})
    initialize_block header = F.executive_initialize_block header

    -- `Metadata`
    abbrev pub metadata : Metadata
    metadata = F.runtime_metadata

    -- `BlockBuilder`
    abbrev pub apply_extrinsic : Extrinsic → Run ApplyExtrinsicResult
    apply_extrinsic extrinsic = F.executive_apply_extrinsic extrinsic

    abbrev pub finalize_block : Run Header
    finalize_block = F.executive_finalize_block

    abbrev pub inherent_extrinsics : InherentData → Run (List Extrinsic)
    inherent_extrinsics data_of = F.create_extrinsics data_of

    abbrev pub check_inherents : Block → InherentData → Run CheckInherentsResult
    check_inherents block data_of = F.check_extrinsics data_of block

    -- `TaggedTransactionQueue`
    abbrev pub validate_transaction : TransactionSource → Extrinsic → Hash → Run TransactionValidity
    validate_transaction source tx block_hash =
        F.executive_validate_transaction source tx block_hash

    -- `OffchainWorkerApi`
    abbrev pub offchain_worker : Header → Run (Unit {0})
    offchain_worker header = F.executive_offchain_worker header

    -- `AuraApi`
    unfoldable pub slot_duration : SlotDuration
    slot_duration = F.from_millis (F.aura_slot_duration minimum_period)

    abbrev pub authorities : Storage → List AuraId
    authorities s = F.aura_authorities s

    -- `SessionKeys`
    abbrev pub generate_session_keys : Option (List ℕ) → Run (List ℕ)
    generate_session_keys seed = F.session_keys_generate seed

    abbrev pub decode_session_keys : List ℕ → Option (List (List ℕ × KeyTypeId))
    decode_session_keys encoded = F.session_keys_decode encoded

    -- `GrandpaApi`: equivocations are not reported.
    abbrev pub grandpa_authorities : Storage → AuthorityList
    grandpa_authorities s = F.grandpa_authorities s

    unfoldable pub submit_report_equivocation_unsigned_extrinsic :
        EquivocationProof → OpaqueKeyOwnershipProof → Option (Unit {0})
    submit_report_equivocation_unsigned_extrinsic equivocation_proof key_owner_proof = none

    unfoldable pub generate_key_ownership_proof : ℕ → GrandpaId → Option OpaqueKeyOwnershipProof
    generate_key_ownership_proof set_id authority_id = none

    -- `AccountNonceApi`
    abbrev pub account_nonce : AccountId → Storage → ℕ
    account_nonce account s = F.system_account_nonce account s

    -- `TransactionPaymentApi`
    abbrev pub query_info : Extrinsic → ℕ → Storage → RuntimeDispatchInfo
    query_info uxt len s = F.payment_query_info uxt len s

    abbrev pub query_fee_details : Extrinsic → ℕ → Storage → FeeDetails
    query_fee_details uxt len s = F.payment_query_fee_details uxt len s
