-- ===== src/Kitties/Tests/Errors.antt =====
-- Refused calls on the market.
use substrate_kitties.Prelude.{◌≡◌, ◌⊎◌, refl, some, arith, ℕ_discrete}
use substrate_kitties.Frame.{root, signed, err, module_error, bad_origin}
use substrate_kitties.Kitties.Types.{Call, price_too_low, buy_from_self, not_owner}
use substrate_kitties.Kitties.Calls.{dispatch, buy, set_price, create}
use substrate_kitties.Kitties.Refusals.{Refused, Passed, too_dear}
use substrate_kitties.Kitties.Refusals.Sound.{Refused-dispatch}
use substrate_kitties.Kitties.Refusals.Complete.{dispatch-Refused}
use substrate_kitties.Kitties.Fixture.{config, nft-IsLawful, block}
use substrate_kitties.Kitties.Tests.Market.{market}

Refused-dispatch_example :
    dispatch config (block 0) (Call.buy 100 0 399) (signed 200) market
    ≡ (err (module_error price_too_low), market)
Refused-dispatch_example =
    Refused-dispatch nft-IsLawful (block 0) {s = market}
      (too_dear {max_price = 399} (λ e. omega (arith, e)) refl (omega arith))

dispatch-Refused_example :
    Refused {T = config} market (Call.buy 100 0 399) (signed 200) (module_error price_too_low)
    ⊎ Passed {T = config} market (Call.buy 100 0 399) (module_error price_too_low)
unfolding dispatch buy ℕ_discrete
dispatch-Refused_example =
    dispatch-Refused nft-IsLawful (block 0) (Call.buy 100 0 399) (signed 200) market refl

refusals :
    ((dispatch config (block 0) Call.create root market).0 ≡ err bad_origin)
    × ((dispatch config (block 0) (Call.buy 100 0 500) (signed 100) market).0
        ≡ err (module_error buy_from_self))
    × ((dispatch config (block 0) (Call.set_price 0 (some 1)) (signed 300) market).0
        ≡ err (module_error not_owner))
unfolding dispatch create buy set_price ℕ_discrete
refusals = (refl, refl, refl)
