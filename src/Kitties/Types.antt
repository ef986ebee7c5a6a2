-- ===== src/Kitties/Types.antt =====
-- The data of pallets/kitties/src/lib.rs: `Kitty`, `KittyGender`, `Event`, `Error` and `Call`.
use substrate_kitties.Prelude.{
  ℕ, ◌%◌, ◌<◌, ◌≡◌, ◌≢◌, refl, sym, ◌==◌, if◌then◌else◌, List, Option, length, get_or, All,
}

-- `Kitty(pub [u8; 16])`: the bytes of the array, first to last.
pub record Kitty : Type 0 where
  pub dna : List ℕ

-- What the type `[u8; 16]` says: sixteen bytes.
pub record IsDna (bytes : List ℕ) : Type 0 where
  pub sixteen : length bytes ≡ 16
  pub within : All (λ b. b < 256) bytes

pub data KittyGender : Type 0 where
  male female : KittyGender

pub male-ne-female : male ≢ female
male-ne-female e = cc

unfoldable pub KittyGender-discrete : Discrete KittyGender
KittyGender-discrete male male = yes refl
KittyGender-discrete male female = no male-ne-female
KittyGender-discrete female male = no (λ e. male-ne-female (sym e))
KittyGender-discrete female female = yes refl

unfoldable pub gender : Kitty → KittyGender
gender k = if get_or k.dna 0 0 % 2 == 0 then male else female

pub data Event (AccountId : Type 0) : Type 0 where
  kitty_created : AccountId → ℕ → Kitty → Event AccountId
  kitty_bred : AccountId → ℕ → Kitty → Event AccountId
  kitty_transferred : AccountId → AccountId → ℕ → Event AccountId
  kitty_price_updated : AccountId → ℕ → Option ℕ → Event AccountId
  kitty_sold : AccountId → AccountId → ℕ → ℕ → Event AccountId

pub data Error : Type 0 where
  invalid_kitty_id same_gender not_owner not_for_sale price_too_low buy_from_self : Error

-- The calls of the pallet, with the arguments of each after its origin.
pub data Call (AccountId : Type 0) : Type 0 where
  create : Call AccountId
  breed : ℕ → ℕ → Call AccountId
  transfer : AccountId → ℕ → Call AccountId
  set_price : ℕ → Option ℕ → Call AccountId
  buy : AccountId → ℕ → ℕ → Call AccountId
  auto_breed : ℕ → ℕ → ℕ → ℕ → Call AccountId
