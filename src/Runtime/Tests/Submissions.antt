-- ===== src/Runtime/Tests/Submissions.antt =====
-- A chain with two kitties of different gender, and what its worker submits.
use substrate_kitties.Prelude.{ℕ, ◌*◌, ◌^◌, ◌≡◌, refl, true, some, [], ◌∷◌, arith}
use substrate_kitties.Frame.{signed, none_origin}
use substrate_kitties.Template.Calls as TemplateCalls
use substrate_kitties.Kitties.Types
use substrate_kitties.Kitties.Types.{gender, KittyGender-discrete}
use substrate_kitties.Kitties.Calls
use substrate_kitties.Kitties.Unsigned
use substrate_kitties.Kitties.Unsigned.{valid, invalid, bad_proof, accepted}
use substrate_kitties.Kitties.Worker.{
  pick, try_solutions, submit, run_offchain_worker, offchain_worker,
}
use substrate_kitties.Kitties.Worker.Finds.{now}
use substrate_kitties.Kitties.Submission.{counted, Delivers}
use substrate_kitties.Kitties.Fixture.{counter, counter-IsLawful, block}
use substrate_kitties.Runtime.Pallets.{kitties_call}
use substrate_kitties.Runtime.Dispatch.{Whole, answered, dispatch, validate_unsigned}
use substrate_kitties.Runtime.Laws.{to_template, to_kitties, send, after}
use substrate_kitties.Runtime.Chain.{Lives, moved, requested, Onward, arrived, onward}
use substrate_kitties.Runtime.Submission.{
  with_counted, submission_lands, worker_breeds, accepted_once,
}
use substrate_kitties.Runtime.Fixture.{small_config, small_nft-IsLawful}
use substrate_kitties.Runtime.Tests.{small_others, first, first-Lives}

abbrev peopled : Whole small_config small_others
peopled =
    after small_others
      (to_kitties (block 2) Types.Call.create (signed 100)
        ∷ to_kitties (block 3) Types.Call.create (signed 200)
        ∷ [])
      first

peopled-Lives : Lives small_others peopled
peopled-Lives =
    moved (moved first-Lives (requested (to_kitties (block 2) Types.Call.create (signed 100)) tt))
      (requested (to_kitties (block 3) Types.Call.create (signed 200)) tt)

abbrev submitted : Types.Call ℕ
submitted = Types.Call.auto_breed 0 1 0 (2 * 2 ^ 32)

found : offchain_worker small_config counter true (0 ∷ []) peopled.kitties ≡ some (some submitted)
unfolding dispatch Calls.dispatch Calls.create offchain_worker run_offchain_worker pick submit
    try_solutions Unsigned.validate_solution gender KittyGender-discrete Calls.random_value
found = refl

-- The template pallet is called before the transaction comes.
abbrev meanwhile : Whole small_config small_others
meanwhile =
    (send small_others (to_template (block 4) (TemplateCalls.do_something 41) (signed 1)) peopled).1

meanwhile-Onward : Onward small_others peopled meanwhile
meanwhile-Onward =
    onward arrived
      (requested (to_template (block 4) (TemplateCalls.do_something 41) (signed 1)) (omega arith))

submission_lands_example :
    (validate_unsigned small_config small_others (kitties_call submitted) meanwhile
      ≡ some (answered (valid accepted), with_counted small_others meanwhile))
    × Delivers small_config small_nft-IsLawful
        (block 5)
        submitted
        (counted small_config meanwhile.kitties)
    × ((dispatch small_config small_others
          (block 5)
          (kitties_call submitted)
          none_origin
          (with_counted small_others meanwhile)).1
        ≡ record meanwhile {
          kitties =
              (Calls.dispatch small_config
                (block 5)
                submitted
                none_origin
                (counted small_config meanwhile.kitties)).1;
        })
unfolding dispatch Calls.dispatch Calls.create
submission_lands_example =
    submission_lands small_others small_nft-IsLawful counter counter-IsLawful peopled-Lives true
      (0 ∷ []) found meanwhile-Onward refl (block 5)

accepted_once_example :
    validate_unsigned small_config small_others
      (kitties_call submitted)
      (with_counted small_others peopled)
    ≡ some (answered (invalid bad_proof), with_counted small_others peopled)
unfolding dispatch validate_unsigned Calls.dispatch Calls.create Unsigned.validate_unsigned
    Unsigned.validate_solution
accepted_once_example =
    accepted_once small_others small_nft-IsLawful (kitties_call submitted) peopled-Lives refl
      (omega arith) arrived

worker_breeds_example :
    (c : Types.Call ℕ) × (offchain_worker small_config counter true (0 ∷ []) peopled.kitties
      ≡ some (some c))
    × (validate_unsigned small_config small_others (kitties_call c) peopled
        ≡ some (answered (valid accepted), with_counted small_others peopled))
    × Delivers small_config small_nft-IsLawful (block 5) c (counted small_config peopled.kitties)
unfolding dispatch Calls.dispatch Calls.create Calls.random_value gender Unsigned.validate_solution
worker_breeds_example =
    worker_breeds small_others small_nft-IsLawful counter counter-IsLawful peopled-Lives (0 ∷ []) 0
      1 500 0 2 (omega arith) (omega arith) (omega arith) (now refl refl (λ e. ground arith))
      (omega arith) refl (block 5)
