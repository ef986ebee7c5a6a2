-- ===== src/Kitties/Tests/Examples.antt =====
-- The theorems at concrete storages.
use substrate_kitties.Prelude.{
  ℕ, ◌+◌, ◌-◌, ◌*◌, ◌^◌, ◌≤◌, ◌<◌, ◌≡◌, ◌≢◌, ◌↔◌, refl, true, [], ◌∷◌, some, none, arith, get_or,
  ℕ_discrete,
}
use substrate_kitties.Frame.{signed, none_origin, ok, external}
use substrate_kitties.Kitties.Types.{Call, IsDna, KittyGender-discrete, gender}
use substrate_kitties.Kitties.Config.{TokenInfo, Paid, keep_alive}
use substrate_kitties.Kitties.State.{State, insert}
use substrate_kitties.Kitties.Calls.{
  breed, auto_breed, transfer, set_price, buy, dispatch, combine_dna, new_dna, random_value, create,
  do_breed, kitties,
}
use substrate_kitties.Kitties.Genesis.{build}
use substrate_kitties.Kitties.Unsigned.{
  u128_max, valid, accepted, solution_hash, validate_solution, validate_unsigned,
}
use substrate_kitties.Kitties.Unsigned.Nonce.{validate_solution_iff}
use substrate_kitties.Kitties.Worker.{search_loop, pick, submit, try_solutions, run_offchain_worker}
use substrate_kitties.Kitties.Worker.Ends.{search_loop-pick, Work, run_offchain_worker-Work}
use substrate_kitties.Kitties.Atomic.{buy-err, dispatch-err}
use substrate_kitties.Kitties.Dna.{new_dna_lem, gender-new_dna}
use substrate_kitties.Kitties.Valid.{token, view}
use substrate_kitties.Kitties.Effects.Breed.{Parents, kitten}
use substrate_kitties.Kitties.Effects.Buy.{buy-Paid, buy_iff}
use substrate_kitties.Kitties.Guards.{CanBreed, breeding_iff, Owns, owner_calls_iff}
use substrate_kitties.Kitties.Ledger.{Entitled, dispatch-Entitled}
use substrate_kitties.Kitties.Ownership.{
  HandedOver, dispatch-HandedOver, dispatch-delists, PricedByOwner, dispatch-PricedByOwner,
  dispatch_keeps,
}
use substrate_kitties.Kitties.Chain.{
  IsBlank, Reach, called, genesis, later, IsTracked, Reach-IsTracked,
}
use substrate_kitties.Kitties.Return.{and_back, off_sale, transfer-transfer}
use substrate_kitties.Kitties.Pedigree.{Descends, Reach-Descends}
use substrate_kitties.Kitties.Replays.{accepted_again}
use substrate_kitties.Kitties.Fixture.{
  config, nft-IsLawful, currency, currency-IsLawful, counter, block, blank,
}
use substrate_kitties.Kitties.Tests.Market.{dna_of, info_of, market, market-IsValid}

dispatch-HandedOver_example : HandedOver market (signed 200) (Call.buy 100 0 500) 0 100 200
unfolding dispatch buy ℕ_discrete
dispatch-HandedOver_example =
    dispatch-HandedOver config nft-IsLawful (block 0) market market-IsValid (Call.buy 100 0 500)
      (signed 200) 0 (info_of 100 2) (info_of 200 2) refl refl (omega arith)

dispatch-PricedByOwner_example : PricedByOwner market 1 (signed 100) (Call.set_price 1 (some 50)) 50
unfolding dispatch set_price
dispatch-PricedByOwner_example =
    dispatch-PricedByOwner config nft-IsLawful (block 0) market market-IsValid
      (Call.set_price 1 (some 50)) (signed 100) 1 50 refl (ground arith)

dispatch_keeps_example :
    (y : TokenInfo ℕ) × (token
        (dispatch config (block 0) (Call.buy 100 0 500) (signed 200) market).1
        0
      ≡ some y)
    × (y.data_of ≡ record { dna = dna_of 2 })
dispatch_keeps_example =
    dispatch_keeps config nft-IsLawful (block 0) market market-IsValid (Call.buy 100 0 500)
      (signed 200) 0 (info_of 100 2) refl

dispatch-Entitled_example :
    Entitled
      (block 0)
      (signed 200)
      (Call.buy 100 0 500)
      market
      (dispatch config (block 0) (Call.buy 100 0 500) (signed 200) market).1
dispatch-Entitled_example =
    dispatch-Entitled config nft-IsLawful (block 0) market market-IsValid (Call.buy 100 0 500)
      (signed 200)

pub blank-IsBlank : IsBlank config blank
blank-IsBlank = record {
  no_prices = λ k. refl;
  no_tokens = λ c k. refl;
  no_nonce = refl;
  no_events = refl;
}

-- The storage after genesis.
abbrev pub built : State config
built = record blank { nft = record { tokens = λ c k. none; next = λ c. 0; classes = 1 } }

Reach-IsTracked_example :
    IsTracked config (dispatch config (block 2) Call.create (signed 100) built).1
unfolding build
Reach-IsTracked_example =
    Reach-IsTracked config nft-IsLawful
      (later (genesis blank-IsBlank refl) (called (block 2) Call.create (signed 100)))

-- The market when the nonce has reached its last value.
abbrev last : State config
last = record market { auto_breed_nonce = 2 ^ 32 - 1 }

accepted_again_example :
    validate_unsigned config (Call.auto_breed 0 1 (2 ^ 32 - 1) 0) last ≡ some (valid accepted, last)
unfolding validate_unsigned validate_solution
accepted_again_example =
    accepted_again config (Call.auto_breed 0 1 (2 ^ 32 - 1) 0) last last refl refl

buy-err_example : (buy config (signed 201) 100 0 500 market).1 ≡ market
unfolding buy ℕ_discrete
buy-err_example = buy-err config (signed 201) 100 0 500 market {e = external 3} refl

dispatch-err_example :
    (dispatch config (block 0) (Call.buy 100 0 399) (signed 200) market).1 ≡ market
unfolding dispatch buy ℕ_discrete
dispatch-err_example =
    dispatch-err config nft-IsLawful (block 0) (Call.buy 100 0 399) (signed 200) market refl

buy-Paid_example :
    (price : ℕ) × (market.kitty_prices 0 ≡ some price)
    × (price ≤ 500)
    × ◌≢◌ {A = ℕ} 200 100
    × Paid currency 200 100 price market.currency
        (buy config (signed 200) 100 0 500 market).1.currency
unfolding buy ℕ_discrete
buy-Paid_example = buy-Paid currency-IsLawful 200 100 0 500 market refl

buy_iff_example : ((buy config (signed 200) 100 0 500 market).0 ≡ ok tt) ↔ (
    ◌≢◌ {A = ℕ} 200 100
    × ((x : TokenInfo ℕ) × (token market 0 ≡ some x) × (x.owner ≡ 100))
    × ((price : ℕ) × (market.kitty_prices 0 ≡ some price)
        × (price ≤ 500)
        × ((currency.transfer 200 100 price keep_alive market.currency).0 ≡ ok tt)))
buy_iff_example = buy_iff nft-IsLawful 200 100 0 500 market

search_loop-pick_example :
    search_loop config counter 500 500 2 0 market ≡ some (pick config counter 500 2 0 market)
search_loop-pick_example = search_loop-pick config counter 500 499 2 0 market (omega arith)

run_offchain_worker-Work_example :
    Work config counter (0 ∷ []) market (Call.auto_breed 0 1 7 (2 * 2 ^ 32))
unfolding run_offchain_worker pick submit try_solutions validate_solution gender
    KittyGender-discrete
run_offchain_worker-Work_example = run_offchain_worker-Work config counter true (0 ∷ []) market refl

validate_solution_iff_example :
    ((validate_solution config 0 1 7 200 ≡ none) ↔ ◌≡◌ {A = ℕ} 3 0)
    × ((validate_solution config 0 1 7 200 ≡ some true)
        ↔ (◌<◌ 0 3 × ((solution_hash config 0 1 7 200 + 1) * 3 ≤ u128_max)))
validate_solution_iff_example = validate_solution_iff config 0 1 7 200

dna_of-IsDna : IsDna (dna_of 2)
dna_of-IsDna = record { sixteen = refl; within = omega arith }

new_dna_lem_example :
    IsDna (new_dna (dna_of 2) (dna_of 3) (dna_of 2))
    × ((i : ℕ)
        → i < 16
        → get_or (new_dna (dna_of 2) (dna_of 3) (dna_of 2)) i 0
          ≡ combine_dna (get_or (dna_of 2) i 0) (get_or (dna_of 3) i 0) (get_or (dna_of 2) i 0))
new_dna_lem_example = new_dna_lem (dna_of 2) (dna_of 3) (dna_of 2) dna_of-IsDna dna_of-IsDna

gender-new_dna_example :
    gender (record { dna = new_dna (dna_of 2) (dna_of 3) (dna_of 2) })
    ≡ gender (record { dna = dna_of 2 })
gender-new_dna_example =
    gender-new_dna (record { dna = dna_of 2 }) (record { dna = dna_of 3 }) (dna_of 2) dna_of-IsDna
      dna_of-IsDna

owner_calls_iff_example :
    (((transfer config (signed 100) 300 0 market).0 ≡ ok tt) ↔ Owns market 100 0)
    × (((set_price config (signed 100) 0 (some 70) market).0 ≡ ok tt) ↔ Owns market 100 0)
owner_calls_iff_example = owner_calls_iff nft-IsLawful 100 300 0 (some 70) market

dispatch-delists_example :
    (dispatch config (block 0) (Call.buy 100 0 500) (signed 200) market).1.kitty_prices 0 ≡ none
unfolding dispatch buy ℕ_discrete
dispatch-delists_example =
    dispatch-delists config nft-IsLawful (block 0) market market-IsValid (Call.buy 100 0 500)
      (signed 200) 0 (info_of 100 2) (info_of 200 2) refl refl (omega arith)

breeding_iff_example :
    (((breed config (block 1) (signed 100) 0 1 market).0 ≡ ok tt) ↔ (
      (p : Parents config (block 1) 0 1 market) × (p.x1.owner ≡ 100)
      × (p.x2.owner ≡ 100)
      × CanBreed config (block 1) 100 p.x1.data_of p.x2.data_of market))
    × (((auto_breed config (block 1) none_origin 0 1 7 0 market).0 ≡ ok tt) ↔ (
        (p : Parents config (block 1) 0 1 market) × CanBreed config
          (block 1)
          p.x1.owner
          p.x1.data_of
          p.x2.data_of
          market))
breeding_iff_example = breeding_iff config (block 1) 100 0 1 7 0 market

-- Two kitties and their kitten, after genesis.
abbrev two_created : State config
two_created =
    (dispatch config (block 3) Call.create (signed 100)
      (dispatch config (block 2) Call.create (signed 100) built).1).1

abbrev family : State config
family = (dispatch config (block 4) (Call.breed 0 1) (signed 100) two_created).1

family-Reach : Reach config family
unfolding build
family-Reach =
    later
      (later (later (genesis blank-IsBlank refl) (called (block 2) Call.create (signed 100)))
        (called (block 3) Call.create (signed 100)))
      (called (block 4) (Call.breed 0 1) (signed 100))

-- The kitten.
abbrev young : TokenInfo ℕ
young = record {
  metadata = [];
  owner = 100;
  data_of =
      kitten config (block 4) 100 (record { dna = random_value config (block 2) 100 })
        (record { dna = random_value config (block 3) 100 });
}

Reach-Descends_example : Descends family 2
unfolding dispatch create breed do_breed kitties random_value gender KittyGender-discrete ℕ_discrete
Reach-Descends_example = Reach-Descends config nft-IsLawful 2 young family-Reach refl

transfer-transfer_example :
    ((transfer config (signed 100) 300 0 market).0 ≡ ok tt)
    × ((transfer config (signed 300) 100 0 (transfer config (signed 100) 300 0 market).1).0 ≡ ok tt)
    × ((j : ℕ)
        → view (and_back 100 300 0 market) j ≡ insert 0 (off_sale (view market 0)) (view market) j)
transfer-transfer_example =
    transfer-transfer 100 300 0 market nft-IsLawful market-IsValid (info_of 100 2, refl, refl)
      (λ e. omega (arith, e))
