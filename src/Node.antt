-- ===== src/Node.antt =====
-- The node: node/src/chain_spec.rs, node/src/cli.rs, node/src/command.rs, node/src/service.rs and
-- node/src/rpc.rs.
pub mod Io
pub mod ChainSpec
pub mod Parts
pub mod Rpc
pub mod Service
pub mod Command
pub mod Fixture
mod Tests
