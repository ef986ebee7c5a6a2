-- ===== src/Kitties/Benchmarks.antt =====
-- pallets/kitties/src/benchmarking.rs: what each benchmark sets up, and the call that it measures.
pub mod Minted
pub mod Laws
use Prim.Native.String.{String}
use substrate_kitties.Prelude.{ℕ, some, [], replicate, set}
use substrate_kitties.Frame.{Origin, signed, Action, pure, gets, ◌>>=◌, ◌>>◌, modify}
use substrate_kitties.Kitties.Types
use substrate_kitties.Kitties.Types.{Kitty}
use substrate_kitties.Kitties.Config.{Config}
use substrate_kitties.Kitties.State.{State, in_nft}
use substrate_kitties.Kitties.Calls

pub data Benchmark : Type 0 where
  create breed transfer set_price buy : Benchmark

-- What is taken from the crate frame_benchmarking, and `make_free_balance_be` of the currency.
pub record Library (T : Config) : Type 0 where
  pub whitelisted_caller : T.AccountId
  pub account : String → ℕ → ℕ → T.AccountId
  pub make_free_balance_be : T.AccountId → ℕ → T.currency.Storage → T.currency.Storage

-- `Kitty(Default::default())`
abbrev pub default_kitty : Kitty
default_kitty = record { dna = replicate 16 0 }

-- After `kitty.0[0] = 1`.
abbrev pub second_kitty : Kitty
second_kitty = record { dna = set (replicate 16 0) 0 1 }

module _ {T : Config} (L : Library T) where
  open T use {AccountId, nft}

  abbrev pub seller : AccountId
  seller = L.account "seller" 0 0

  abbrev pub mint : AccountId → Kitty → Action (State T) Types.Error ℕ
  mint owner kitty = do class ← gets (λ s. s.class_id); in_nft (nft.mint owner class [] kitty)

  -- The call to be measured, and its origin.
  abbrev pub Measured : Type 0
  Measured = Types.Call AccountId × Origin AccountId

  unfoldable pub set_up : Benchmark → Action (State T) Types.Error Measured
  set_up create = pure (Types.Call.create, signed L.whitelisted_caller)
  set_up breed = do
    kitty_id ← mint L.whitelisted_caller default_kitty
    kitty_id2 ← mint L.whitelisted_caller second_kitty
    pure (Types.Call.breed kitty_id kitty_id2, signed L.whitelisted_caller)
  set_up transfer = do
    kitty_id ← mint L.whitelisted_caller default_kitty
    pure (Types.Call.transfer (L.account "to" 0 0) kitty_id, signed L.whitelisted_caller)
  set_up set_price = do
    kitty_id ← mint L.whitelisted_caller default_kitty
    pure (Types.Call.set_price kitty_id (some 100), signed L.whitelisted_caller)
  set_up buy = do
    modify
        (λ s. record s { currency = L.make_free_balance_be L.whitelisted_caller 1000 s.currency })
    kitty_id ← mint seller default_kitty
    Calls.set_price T (signed seller) kitty_id (some 500)
    pure (Types.Call.buy seller kitty_id 500, signed L.whitelisted_caller)
