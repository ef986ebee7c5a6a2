-- ===== src/Kitties/Unsigned.antt =====
-- `validate_unsigned` and `validate_solution` of pallets/kitties/src/lib.rs. A result `none` is a
-- panic: the division by a difficulty of zero.
pub mod Nonce
use substrate_kitties.Prelude.{
  ℕ, ◌+◌, ◌-◌, ◌*◌, ◌/◌, ◌^◌, min, Bool, true, false, not, ltb, ◌==◌, if◌then◌else◌, List, [], ◌∷◌,
  Option, none, some,
}
use substrate_kitties.Kitties.Types.{Call}
use substrate_kitties.Kitties.Config.{Config}
use substrate_kitties.Kitties.State.{State}

abbrev pub u32_max : ℕ
u32_max = 2 ^ 32 - 1

abbrev pub u128_max : ℕ
u128_max = 2 ^ 128 - 1

-- `u128::from_le_bytes`: the lowest byte first.
abbrev pub from_le_bytes : List ℕ → ℕ
from_le_bytes [] = 0
from_le_bytes (b ∷ bytes) = b + 256 * from_le_bytes bytes

-- `u32::saturating_add(1)`
abbrev pub saturating_suc : ℕ → ℕ
saturating_suc n = min (n + 1) u32_max

-- `InvalidTransaction`, the two reasons that are used.
pub data InvalidTransaction : Type 0 where
  call bad_proof : InvalidTransaction

-- `ValidTransaction`, as its builder leaves it.
pub record ValidTransaction : Type 0 where
  pub priority : ℕ
  pub requires : List (List ℕ)
  pub provides : List (List ℕ)
  pub longevity : ℕ
  pub propagate : Bool

pub data Validity : Type 0 where
  valid : ValidTransaction → Validity
  invalid : InvalidTransaction → Validity

-- `with_tag_prefix("kitties").longevity(64_u64).propagate(true).build()`
abbrev pub accepted : ValidTransaction
accepted = record { priority = 0; requires = []; provides = []; longevity = 64; propagate = true }

module _ (T : Config) where
  -- The hash of a solution, as a number.
  abbrev pub solution_hash : ℕ → ℕ → ℕ → ℕ → ℕ
  solution_hash kitty_id_1 kitty_id_2 nonce solution =
      from_le_bytes (T.blake2_128 (T.encode_solution (kitty_id_1, kitty_id_2, nonce, solution)))

  unfoldable pub validate_solution : ℕ → ℕ → ℕ → ℕ → Option Bool
  validate_solution kitty_id_1 kitty_id_2 nonce solution =
      if T.default_difficulty == 0
      then none
      else some (
          ltb (solution_hash kitty_id_1 kitty_id_2 nonce solution)
            (u128_max / T.default_difficulty))

  -- After the solution has been checked.
  abbrev pub check_nonce : ℕ → State T → Validity × State T
  check_nonce nonce s =
      if not (nonce == s.auto_breed_nonce)
      then (invalid bad_proof, s)
      else (valid accepted, record s { auto_breed_nonce = saturating_suc s.auto_breed_nonce })

  unfoldable pub validate_unsigned : Call T.AccountId → State T → Option (Validity × State T)
  validate_unsigned (Call.auto_breed kitty_id_1 kitty_id_2 nonce solution) s =
      elim (validate_solution kitty_id_1 kitty_id_2 nonce solution) [
        | none ↦ none
        | some true ↦ some (check_nonce nonce s)
        | some false ↦ some (invalid bad_proof, s)
      ]
  validate_unsigned Call.create s = some (invalid call, s)
  validate_unsigned (Call.breed k1 k2) s = some (invalid call, s)
  validate_unsigned (Call.transfer to k) s = some (invalid call, s)
  validate_unsigned (Call.set_price k price) s = some (invalid call, s)
  validate_unsigned (Call.buy owner k max_price) s = some (invalid call, s)
