-- ===== src/Runtime.antt =====
-- The constants of the runtime that the other parts rely on: runtime/src/lib.rs.
pub mod Difficulty
pub mod Pallets
pub mod Dispatch
pub mod Laws
pub mod Validation
pub mod Configuration
pub mod Chain
pub mod Submission
pub mod Fixture
pub mod Benchmark
pub mod Fees
pub mod Interfaces
mod Tests
use substrate_kitties.Prelude.{ℕ, ◌*◌, ◌/◌, ◌^◌}

-- `u64` and `u32` arithmetic on constants, which stays far below the bound.
abbrev pub millisecs_per_block : ℕ
millisecs_per_block = 2000

abbrev pub slot_duration : ℕ
slot_duration = millisecs_per_block

abbrev pub minutes : ℕ
minutes = 60_000 / millisecs_per_block

abbrev pub hours : ℕ
hours = minutes * 60

abbrev pub days : ℕ
days = hours * 24

-- `pallet_timestamp`: the least time between two blocks.
abbrev pub minimum_period : ℕ
minimum_period = slot_duration / 2

abbrev pub existential_deposit : ℕ
existential_deposit = 500

-- The difficulty of `auto_breed`.
abbrev pub default_difficulty : ℕ
default_difficulty = 100_000
