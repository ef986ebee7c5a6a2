-- ===== src/Weights/Tests.antt =====
-- Weights at concrete database weights.
use substrate_kitties.Prelude.{ℕ, ◌*◌, ◌≡◌, refl}
use substrate_kitties.Kitties.Types.{Call}
use substrate_kitties.Weights.{DbWeight, call_weight, runtime_weight}

-- 25,000,000 for a read and 100,000,000 for a write.
abbrev rocks_db : DbWeight
rocks_db = record { reads = λ n. n * 25_000_000; writes = λ n. n * 100_000_000 }

abbrev purchase : Call ℕ
purchase = Call.buy 1 0 5

costs :
    (call_weight (runtime_weight rocks_db) purchase ≡ 667_000_000)
    × (call_weight {A = ℕ} (runtime_weight rocks_db) (Call.auto_breed 0 1 2 3) ≡ 1000)
unfolding call_weight runtime_weight
costs = (refl, refl)
