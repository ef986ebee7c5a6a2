-- ===== src/Runtime/Interfaces/Laws.antt =====
-- The slots that runtime/src/lib.rs tells the node of, against its own counts of blocks.
use substrate_kitties.Prelude.{ℕ, ◌+◌, ◌*◌, ◌≡◌, ap, arith}
use substrate_kitties.Runtime.{millisecs_per_block, minimum_period, minutes, hours, days}
use substrate_kitties.Runtime.Interfaces.{Types, Frame, slot_duration}

-- The documented behaviour of `pallet_aura`: a slot is twice the least time between two blocks.
pub record AuraIsLawful {S : Types} (F : Frame S) : Type 0 where
  pub twice : (minimum : ℕ) → F.aura_slot_duration minimum ≡ 2 * minimum

module _ {S : Types} (F : Frame S) where
  -- With a lawful Aura, the node is told a slot of `MILLISECS_PER_BLOCK`, and a chain with a block in
  -- each slot makes `DAYS` blocks in a day, `HOURS` in an hour and `MINUTES` in a minute, for any
  -- number of each.
  pub slot_duration_lem :
      AuraIsLawful F
      → (d h m : ℕ)
      → (slot_duration S F ≡ F.from_millis millisecs_per_block)
        × ((d * days + h * hours + m * minutes) * millisecs_per_block
            ≡ ((d * 24 + h) * 60 + m) * 60_000)
  unfolding slot_duration
  slot_duration_lem A d h m = (ap F.from_millis (A.twice minimum_period), omega arith)
