-- ===== src/Template/Tests.antt =====
-- The template pallet at concrete storages, and its theorems there.
use substrate_kitties.Prelude.{ℕ, ◌-◌, ◌^◌, ◌≡◌, refl, [], ◌∷◌, none, some, arith}
use substrate_kitties.Frame.{signed, ok, err, module_error}
use substrate_kitties.Template.{
  State, none_value, storage_overflow, something_stored, do_something, cause_error,
}
use substrate_kitties.Template.Mock.{Storage, new_test_ext}
use substrate_kitties.Template.Laws.{cause_errors, cause_errors-do_something}

abbrev empty : State ℕ
empty = record { something = none; events = [] }

abbrev full : State ℕ
full = record { something = some (2 ^ 32 - 1); events = [] }

stores :
    do_something (signed 1) 42 empty
    ≡ (ok tt, record { something = some 42; events = something_stored 42 1 ∷ [] })
unfolding do_something
stores = refl

fails :
    (cause_error (signed 1) empty ≡ (err (module_error none_value), empty))
    × (cause_error (signed 1) full ≡ (err (module_error storage_overflow), full))
unfolding cause_error
fails = (refl, refl)

cause_errors-do_something_example :
    (cause_errors 3 2 (do_something (signed 1) (2 ^ 32 - 3) empty).1).something ≡ some (2 ^ 32 - 1)
cause_errors-do_something_example = cause_errors-do_something 3 (2 ^ 32 - 3) 1 2 empty (omega arith)

abbrev test_ext : Storage (Unit {0})
test_ext = new_test_ext tt

-- The tests of pallets/template/src/tests.rs.
in_test_ext :
    ((do_something (signed 1) 42 test_ext.template_module).0 ≡ ok tt)
    × ((do_something (signed 1) 42 test_ext.template_module).1.something ≡ some 42)
    × (cause_error (signed 1) test_ext.template_module
        ≡ (err (module_error none_value), test_ext.template_module))
unfolding do_something cause_error new_test_ext
in_test_ext = (refl, refl, refl)
