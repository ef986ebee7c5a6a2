-- ===== src/Kitties/Tests/Setups.antt =====
-- The benchmarks on the market, and one setup in full.
use substrate_kitties.Prelude.{◌==◌, if◌then◌else◌, ◌≡◌, ◌↔◌, refl, arith, some}
use substrate_kitties.Frame.{signed, ok}
use substrate_kitties.Kitties.Types
use substrate_kitties.Kitties.Config.{keep_alive}
use substrate_kitties.Kitties.State.{State}
use substrate_kitties.Kitties.Calls
use substrate_kitties.Kitties.Calls.{dispatch}
use substrate_kitties.Kitties.Benchmarks.{Library, buy, set_up}
use substrate_kitties.Kitties.Benchmarks.Laws.{set_up-dispatch}
use substrate_kitties.Kitties.Fixture.{config, nft-IsLawful, currency, block}
use substrate_kitties.Kitties.Tests.Market.{market}

-- Account 100 is the caller, account 200 any other.
abbrev library : Library config
library = record {
  whitelisted_caller = 100;
  account = λ name index seed. 200;
  make_free_balance_be = λ who amount balances a. if a == who then amount else balances a;
}

abbrev ready : State config
ready = (set_up library buy market).1

sets_up :
    ((set_up library buy market).0 ≡ ok (Types.Call.buy 200 2 500, signed 100))
    × (ready.kitty_prices 2 ≡ some 500)
    × (ready.currency 100 ≡ 1000)
unfolding set_up Calls.set_price
sets_up = (refl, refl, refl)

set_up-dispatch_example :
    ((dispatch config (block 0) (Types.Call.buy 200 2 500) (signed 100) ready).0 ≡ ok tt)
    ↔ ((currency.transfer 100 200 500 keep_alive ready.currency).0 ≡ ok tt)
unfolding set_up Calls.set_price
set_up-dispatch_example =
    set_up-dispatch nft-IsLawful library (block 0) buy market ready (λ e. omega (arith, e)) refl
