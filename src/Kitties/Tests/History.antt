-- ===== src/Kitties/Tests/History.antt =====
-- A chain on which a kitty is made, priced and sold.
use substrate_kitties.Prelude.{ℕ, ◌≤◌, ◌≢◌, refl, some, ℕ_discrete}
use substrate_kitties.Frame.{signed}
use substrate_kitties.Kitties.Types.{Call}
use substrate_kitties.Kitties.Config.{Paid}
use substrate_kitties.Kitties.State.{State}
use substrate_kitties.Kitties.Calls.{dispatch, create, set_price, buy}
use substrate_kitties.Kitties.Genesis.{build}
use substrate_kitties.Kitties.Chain.{Reach, called, genesis, later}
use substrate_kitties.Kitties.Asked.{Asked, buy-Asked}
use substrate_kitties.Kitties.Fixture.{config, nft-IsLawful, currency, currency-IsLawful, block}
use substrate_kitties.Kitties.Tests.Examples.{blank-IsBlank, built}

-- Account 100 makes a kitty and asks for 400; account 200 has 500.
abbrev priced : State config
priced =
    (dispatch config (block 3) (Call.set_price 0 (some 400)) (signed 100)
      (dispatch config (block 2) Call.create (signed 100) built).1).1

priced_reached : Reach config priced
unfolding build
priced_reached =
    later (later (genesis blank-IsBlank refl) (called (block 2) Call.create (signed 100)))
      (called (block 3) (Call.set_price 0 (some 400)) (signed 100))

buy-Asked_example :
    (price : ℕ) × Asked config 0 100 price priced priced_reached
    × (price ≤ 450)
    × (◌≢◌ {A = ℕ} 200 100)
    × Paid currency 200 100 price priced.currency
        (buy config (signed 200) 100 0 450 priced).1.currency
unfolding dispatch create set_price buy ℕ_discrete
buy-Asked_example =
    buy-Asked config nft-IsLawful currency-IsLawful priced_reached 200 100 0 450 refl
