-- ===== src/Kitties.antt =====
-- The kitties pallet, pallets/kitties/src/lib.rs: its definitions, then the theorems on them.
pub mod Types
pub mod Config
pub mod State
pub mod Calls
pub mod Genesis
pub mod Unsigned
pub mod Worker
pub mod Atomic
pub mod Log
pub mod Valid
pub mod Effects
pub mod Ledger
pub mod Ownership
pub mod Guards
pub mod Dna
pub mod Chain
pub mod Pedigree
pub mod Replays
pub mod Asked
pub mod Submission
pub mod Market
pub mod Money
pub mod Return
pub mod Refusals
pub mod Benchmarks
pub mod Fixture
mod Tests
