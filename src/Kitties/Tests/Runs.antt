-- ===== src/Kitties/Tests/Runs.antt =====
-- Calls by evaluation.
use substrate_kitties.Prelude.{◌*◌, ◌^◌, ◌≡◌, refl, [], ◌∷◌, true, some, none, ℕ_discrete}
use substrate_kitties.Frame.{signed, ok, err, module_error, external, bad_origin}
use substrate_kitties.Kitties.Types.{
  Call, KittyGender-discrete, male, female, gender, kitty_sold, price_too_low, buy_from_self,
  not_for_sale, not_owner, invalid_kitty_id, same_gender,
}
use substrate_kitties.Kitties.Calls.{
  breed, auto_breed, set_price, buy, do_breed, combine_dna, new_dna, kitties, random_value,
}
use substrate_kitties.Kitties.Unsigned.{
  valid, invalid, bad_proof, accepted, validate_solution, validate_unsigned,
}
use substrate_kitties.Kitties.Worker.{done, pick, try_solutions, submit, run_offchain_worker}
use substrate_kitties.Kitties.Fixture.{config, counter, block}
use substrate_kitties.Kitties.Tests.Market.{market, dna_of}

genders :
    (gender (record { dna = dna_of 0 }) ≡ male) × (gender (record { dna = dna_of 1 }) ≡ female)
unfolding gender
genders = (refl, refl)

combine : combine_dna 59 187 211 ≡ 187
unfolding combine_dna
combine = refl

sale :
    let (r, s) = buy config (signed 200) 100 0 500 market in
    (r ≡ ok tt)
    × (s.kitty_prices 0 ≡ none)
    × (s.currency 100 ≡ 400)
    × (s.currency 200 ≡ 100)
    × (s.events ≡ kitty_sold 100 200 0 400 ∷ [])
unfolding buy ℕ_discrete
sale = (refl, refl, refl, refl, refl)

refused_sales :
    ((buy config (signed 200) 100 0 399 market).0 ≡ err (module_error price_too_low))
    × ((buy config (signed 100) 100 0 500 market).0 ≡ err (module_error buy_from_self))
    × ((buy config (signed 200) 100 1 500 market).0 ≡ err (module_error not_for_sale))
    × ((buy config (signed 201) 100 0 500 market).0 ≡ err (external 3))
    × ((buy config (signed 200) 300 0 500 market).0 ≡ err (external 2))
unfolding buy ℕ_discrete
refused_sales = (refl, refl, refl, refl, refl)

refused_pricing :
    (set_price config (signed 200) 0 (some 10) market).0 ≡ err (module_error not_owner)
unfolding set_price ℕ_discrete
refused_pricing = refl

refused_breeding :
    ((breed config (block 5) (signed 100) 0 11 market).0 ≡ err (module_error invalid_kitty_id))
    × ((breed config (block 5) (signed 100) 0 0 market).0 ≡ err (module_error same_gender))
    × ((breed config (block 5) (signed 101) 0 1 market).0 ≡ err (module_error invalid_kitty_id))
    × ((auto_breed config (block 5) (signed 100) 0 1 0 0 market).0 ≡ err bad_origin)
unfolding breed auto_breed kitties do_breed gender KittyGender-discrete ℕ_discrete
refused_breeding = (refl, refl, refl, refl)

breeding :
    let (r, s) = breed config (block 1) (signed 100) 0 1 market in
    (r ≡ ok tt) × (kitties config 100 2 s ≡ some (record { dna = dna_of 3 }))
unfolding breed kitties do_breed gender KittyGender-discrete ℕ_discrete new_dna combine_dna
    random_value
breeding = (refl, refl)

-- Kitty 0 has a hash of 0 at solution 0 and is accepted once; solution 200 misses the target.
validations :
    (validate_unsigned config (Call.auto_breed 0 1 7 0) market
      ≡ some (valid accepted, record market { auto_breed_nonce = 8 }))
    × (validate_unsigned config (Call.auto_breed 0 1 7 200) market
        ≡ some (invalid bad_proof, market))
    × (validate_unsigned config (Call.auto_breed 0 1 6 0) market ≡ some (invalid bad_proof, market))
unfolding validate_unsigned validate_solution
validations = (refl, refl, refl)

-- The seed 0 draws the kitties 0 and 1, and the first solution works.
worker :
    run_offchain_worker config counter true (0 ∷ []) market
    ≡ done (some (Call.auto_breed 0 1 7 (2 * 2 ^ 32)))
unfolding run_offchain_worker pick submit try_solutions validate_solution gender
    KittyGender-discrete
worker = refl
