-- ===== src/Runtime/Benchmark/Tests.antt =====
-- `dispatch_benchmark` with one batch for each pallet.
use Prim.Native.String.{String}
use text.Mathlib.Text.{◌==◌}
use text.Mathlib.TextEquality.{eq_iff}
use substrate_kitties.Prelude.{
  ◌≡◌, ◌≢◌, refl, false, ◌||◌, Bool-cases, if◌then◌else◌, [], ◌∷◌, inl, inr,
}
use substrate_kitties.Node.Io.{ok, err}
use substrate_kitties.Runtime.Benchmark.{
  name, Benchmarking, not_found, dispatch_benchmark, add_benchmark,
}
use substrate_kitties.Runtime.Benchmark.Laws.{SkipsOthers}

abbrev named : Benchmarking
named = record {
  BenchmarkConfig = String;
  Key = String;
  Batch = String;
  pallet = λ config. config;
  hex = λ key. key;
  batches_of =
      λ p config keys. if (config == name p) || (config == "*") then ok (name p ∷ []) else ok [];
}

unequal : (s t : String) → s ≢ t → (s == t) ≡ false
unequal s t d = elim (Bool-cases (s == t)) [
  | inl equal ↦ absurd (d ((eq_iff s t).0 equal))
  | inr e ↦ e
]

named-SkipsOthers : SkipsOthers named
named-SkipsOthers = record {
  skips =
      λ p config keys other star. rw (unequal config (name p) other, unequal config "*" star) refl;
}

asks_all_or_none :
    (dispatch_benchmark named "pallet_sudo" ≡ err (not_found named))
    × (dispatch_benchmark named "*"
        ≡ ok (
            "frame_system" ∷ "pallet_balances" ∷ "pallet_timestamp" ∷ "pallet_template"
            ∷ "pallet_kitties" ∷ []))
unfolding dispatch_benchmark add_benchmark
asks_all_or_none = (refl, refl)
