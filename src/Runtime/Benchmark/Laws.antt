-- ===== src/Runtime/Benchmark/Laws.antt =====
-- Which benchmarks `dispatch_benchmark` runs.
use Prim.Native.String.{String}
use substrate_kitties.Prelude.{
  ◌≡◌, ◌≢◌, Option, none, some, List, [], map, false, refl, sym, ap, ◌∙◌,
}
use text.Mathlib.Text.{◌==◌}
use text.Mathlib.TextEquality.{eq_iff}
use mathlib.Core.List.{append-nil}
use substrate_kitties.Node.Io.{Outcome, ok, err}
use substrate_kitties.Runtime.Benchmark.{
  Benchmarked, frame_system, pallet_balances, pallet_timestamp, pallet_template, pallet_kitties,
  name, whitelist, Benchmarking, add_benchmark, unless_empty, dispatch_benchmark,
}

-- The documented behaviour of `add_benchmark!`: it runs nothing for a pallet that the configuration
-- does not ask for by its name or by `*`.
pub record SkipsOthers (B : Benchmarking) : Type 0 where
  pub skips :
      (p : Benchmarked) (config : B.BenchmarkConfig) (keys : List B.Key)
      → B.pallet config ≢ name p
      → B.pallet config ≢ "*"
      → B.batches_of p config keys ≡ ok []

differ : {s t : String} → (s == t) ≡ false → s ≢ t
differ {s} {t} unequal e = let equal = (eq_iff s t).1 e in cc

module _ (B : Benchmarking) (L : SkipsOthers B) where
  module _ (config : B.BenchmarkConfig) where
    -- A pallet without batches adds nothing.
    add_nothing :
        (p : Benchmarked) (sum : Outcome String (List B.Batch))
        → B.batches_of p config (map B.hex whitelist) ≡ ok []
        → add_benchmark B p config sum ≡ sum
    unfolding add_benchmark
    add_nothing p (err e) h = refl
    add_nothing p (ok batches) h = rw (add_benchmark, h) (ap ok (append-nil batches))

    add_first :
        (p : Benchmarked)
        → add_benchmark B p config (ok []) ≡ B.batches_of p config (map B.hex whitelist)
    unfolding add_benchmark
    add_first p =
        elim (B.batches_of p config (map B.hex whitelist))
          as (λ o. elim o [ err e ↦ err e | ok more ↦ ok more ] ≡ o) [
            | err e ↦ refl
            | ok more ↦ refl
          ]

    -- What the configuration asks for: one of the five pallets by its name, or none of them.
    abbrev pub Asks : Option Benchmarked → Type 0
    Asks none = ((p : Benchmarked) → B.pallet config ≢ name p) × (B.pallet config ≢ "*")
    Asks (some p) = B.pallet config ≡ name p

    -- The batches of that pallet alone.
    abbrev pub alone : Option Benchmarked → Outcome String (List B.Batch)
    alone none = ok []
    alone (some p) = B.batches_of p config (map B.hex whitelist)

    module _ (p : Benchmarked) (e : B.pallet config ≡ name p) (star : (name p == "*") ≡ false) where
      skipped :
          (q : Benchmarked) (sum : Outcome String (List B.Batch))
          → (name p == name q) ≡ false
          → add_benchmark B q config sum ≡ sum
      skipped q sum apart =
          add_nothing q sum
            (L.skips q config _ (λ h. differ apart (sym e ∙ h)) (λ h. differ star (sym e ∙ h)))

    named :
        (p : Benchmarked)
        → B.pallet config ≡ name p
        → dispatch_benchmark B config ≡ unless_empty B (alone (some p))
    unfolding dispatch_benchmark
    named frame_system e =
        let skip = skipped frame_system e refl in
        rw
          (
            add_first frame_system,
            skip pallet_balances _ refl,
            skip pallet_timestamp _ refl,
            skip pallet_template _ refl,
            skip pallet_kitties _ refl,
          )
          refl
    named pallet_balances e =
        let skip = skipped pallet_balances e refl in
        rw
          (
            skip frame_system _ refl,
            add_first pallet_balances,
            skip pallet_timestamp _ refl,
            skip pallet_template _ refl,
            skip pallet_kitties _ refl,
          )
          refl
    named pallet_timestamp e =
        let skip = skipped pallet_timestamp e refl in
        rw
          (
            skip frame_system _ refl,
            skip pallet_balances _ refl,
            add_first pallet_timestamp,
            skip pallet_template _ refl,
            skip pallet_kitties _ refl,
          )
          refl
    named pallet_template e =
        let skip = skipped pallet_template e refl in
        rw
          (
            skip frame_system _ refl,
            skip pallet_balances _ refl,
            skip pallet_timestamp _ refl,
            add_first pallet_template,
            skip pallet_kitties _ refl,
          )
          refl
    named pallet_kitties e =
        let skip = skipped pallet_kitties e refl in
        rw
          (
            skip frame_system _ refl,
            skip pallet_balances _ refl,
            skip pallet_timestamp _ refl,
            skip pallet_template _ refl,
            add_first pallet_kitties,
          )
          refl

    -- With a lawful macro, a configuration that asks for one of the five pallets by its name gets the
    -- batches of that pallet alone, or its error; the error that the benchmark was not found is what
    -- it gets if there are no batches, and what any other name gets but `*`.
    pub dispatch_benchmark-alone :
        (asked : Option Benchmarked)
        → Asks asked
        → dispatch_benchmark B config ≡ unless_empty B (alone asked)
    unfolding dispatch_benchmark
    dispatch_benchmark-alone (some p) e = named p e
    dispatch_benchmark-alone none (names, star) =
        let quiet = λ (q : Benchmarked). L.skips q config (map B.hex whitelist) (names q) star in
        rw
          (
            add_nothing frame_system _ (quiet frame_system),
            add_nothing pallet_balances _ (quiet pallet_balances),
            add_nothing pallet_timestamp _ (quiet pallet_timestamp),
            add_nothing pallet_template _ (quiet pallet_template),
            add_nothing pallet_kitties _ (quiet pallet_kitties),
          )
          refl
