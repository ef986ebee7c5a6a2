-- ===== src/Node/Rpc.antt =====
-- The RPC extensions of a full node: node/src/rpc.rs. The handler and the two interfaces that it is
-- extended with are parameters.
use substrate_kitties.Node.Parts.{System}

-- `jsonrpc_core::IoHandler`, and the delegates of `SystemApi` over `FullSystem` and of
-- `TransactionPaymentApi` over `TransactionPayment`.
pub record RpcLibrary (S : System) : Type 1 where
  pub Delegate : Type 0
  pub default_handler : S.IoHandler
  pub extend_with : S.IoHandler → Delegate → S.IoHandler
  pub full_system : S.Client → S.TransactionPool → S.DenyUnsafe → Delegate
  pub transaction_payment : S.Client → Delegate

module _ (S : System) where
  pub record FullDeps : Type 0 where
    pub client : S.Client
    pub pool : S.TransactionPool
    pub deny_unsafe : S.DenyUnsafe

  abbrev pub create_full : RpcLibrary S → FullDeps → S.IoHandler
  create_full R deps =
      R.extend_with
        (R.extend_with R.default_handler (R.full_system deps.client deps.pool deps.deny_unsafe))
        (R.transaction_payment deps.client)
