-- ===== src/Kitties/Tests/Trades.antt =====
-- Trades on the market of the examples, as calls and told apart from the storage.
use substrate_kitties.Prelude.{
  ◌≡◌, refl, Bool, arith, true, false, some, List, [], ◌∷◌, map, ℕ, ℕ_discrete,
}
use substrate_kitties.Frame.{signed}
use substrate_kitties.Kitties.Types.{Call}
use substrate_kitties.Kitties.Money.{Dealt, dispatch-Dealt}
use substrate_kitties.Kitties.Calls.{dispatch, transfer, set_price, buy}
use substrate_kitties.Kitties.Market.{give, offer, purchase, trade, trades}
use substrate_kitties.Kitties.Market.Outcome.{market_of}
use substrate_kitties.Kitties.Market.Order.{run_exchange}
use substrate_kitties.Kitties.Market.Runs.{Transaction, trade_of, run, trades-run}
use substrate_kitties.Kitties.Fixture.{config, nft-IsLawful, currency-IsLawful, block}
use substrate_kitties.Kitties.Tests.Market.{market, market-IsValid}

-- Account 200 buys kitty 0 and offers it; account 201 has no money; then it is given away.
abbrev dealings : List (Transaction ℕ)
dealings =
    record { context = block 0; who = 200; wish = purchase 100 0 450 }
    ∷ record { context = block 0; who = 200; wish = offer 0 (some 20) }
    ∷ record { context = block 1; who = 201; wish = purchase 200 0 20 }
    ∷ record { context = block 1; who = 200; wish = give 300 0 }
    ∷ record { context = block 2; who = 201; wish = purchase 200 0 20 }
    ∷ []

trades-run_example :
    trades config (map trade_of dealings) (market_of config market)
    ≡ ((run config dealings market).0, market_of config (run config dealings market).1)
trades-run_example = trades-run config nft-IsLawful dealings market market-IsValid

told :
    (trades config (map trade_of dealings) (market_of config market)).0
    ≡ true ∷ true ∷ false ∷ true ∷ false ∷ []
unfolding trades trade ℕ_discrete
told = refl

happened : (run config dealings market).0 ≡ true ∷ true ∷ false ∷ true ∷ false ∷ []
unfolding run dispatch transfer set_price buy ℕ_discrete
happened = refl

-- The owner of kitty 1 offers it while kitty 0 is sold.
run_exchange_example :
    let x : Transaction ℕ = record { context = block 0; who = 200; wish = purchase 100 0 450 } in
    let y : Transaction ℕ = record { context = block 0; who = 100; wish = offer 1 (some 30) } in
    (first : Bool) × (second : Bool) × ((run config (x ∷ y ∷ []) market).0 ≡ first ∷ second ∷ [])
    × ((run config (y ∷ x ∷ []) market).0 ≡ second ∷ first ∷ [])
    × (market_of config (run config (x ∷ y ∷ []) market).1
        ≡ market_of config (run config (y ∷ x ∷ []) market).1)
run_exchange_example =
    run_exchange config nft-IsLawful
      (record { context = block 0; who = 200; wish = purchase 100 0 450 })
      (record { context = block 0; who = 100; wish = offer 1 (some 30) }) market market-IsValid
      (λ e. omega (arith, e)) refl

-- The buyer's money.
dispatch-Dealt_example :
    Dealt config market
      (dispatch config (block 0) (Call.buy 100 0 450) (signed 200) market).1
      (Call.buy 100 0 450)
      (signed 200)
      200
unfolding dispatch buy ℕ_discrete
dispatch-Dealt_example =
    dispatch-Dealt config (block 0) currency-IsLawful market 200 (Call.buy 100 0 450) (signed 200)
      (λ e. omega (arith, e))
