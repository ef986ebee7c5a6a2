-- ===== src/Weights.antt =====
-- The weights of the kitties pallet's calls: the trait `WeightInfo` and its implementations in
-- pallets/kitties/src/weights.rs and runtime/src/weights/pallet_kitties.rs, and the weight
-- attributes of the calls in pallets/kitties/src/lib.rs and pallets/template/src/lib.rs.
mod Tests
use substrate_kitties.Prelude.{ℕ, ◌+◌, ◌-◌, ◌*◌, ◌^◌, ◌≤◌, ◌<◌, min, ◌≡◌, arith}
use substrate_kitties.Template.Calls as TemplateCalls
use substrate_kitties.Kitties.Types.{Call}

-- `Weight` is `u64`.
abbrev pub weight_max : ℕ
weight_max = 2 ^ 64 - 1

abbrev pub saturating_add : ℕ → ℕ → ℕ
saturating_add a b = min (a + b) weight_max

-- `RuntimeDbWeight`: the weight of so many reads and writes of the database.
pub record DbWeight : Type 0 where
  pub reads : ℕ → ℕ
  pub writes : ℕ → ℕ

pub record WeightInfo : Type 0 where
  pub create : ℕ
  pub breed : ℕ
  pub transfer : ℕ
  pub set_price : ℕ
  pub buy : ℕ

-- `(base as Weight).saturating_add(reads(r)).saturating_add(writes(w))`
abbrev pub db_weight : DbWeight → ℕ → ℕ → ℕ → ℕ
db_weight db base r w = saturating_add (saturating_add base (db.reads r)) (db.writes w)

-- `SubstrateWeight<T>`, with `T::DbWeight`.
unfoldable pub substrate_weight : DbWeight → WeightInfo
substrate_weight db = record {
  create = db_weight db 37_000_000 5 4;
  breed = db_weight db 45_000_000 7 4;
  transfer = db_weight db 27_000_000 2 4;
  set_price = db_weight db 23_000_000 3 1;
  buy = db_weight db 70_000_000 4 5;
}

-- The implementation for `()`, with `RocksDbWeight`.
unfoldable pub unit_weight : DbWeight → WeightInfo
unit_weight rocks_db = record {
  create = db_weight rocks_db 37_000_000 5 4;
  breed = db_weight rocks_db 45_000_000 7 4;
  transfer = db_weight rocks_db 27_000_000 2 4;
  set_price = db_weight rocks_db 23_000_000 3 1;
  buy = db_weight rocks_db 70_000_000 4 5;
}

-- The runtime's `WeightInfo<T>`, with `T::DbWeight`.
unfoldable pub runtime_weight : DbWeight → WeightInfo
runtime_weight db = record {
  create = db_weight db 36_000_000 5 4;
  breed = db_weight db 46_000_000 7 4;
  transfer = db_weight db 26_000_000 2 4;
  set_price = db_weight db 21_000_000 3 1;
  buy = db_weight db 67_000_000 4 5;
}

-- The weight that is charged for a call.
unfoldable pub call_weight : {A : Type 0} → WeightInfo → Call A → ℕ
call_weight w Call.create = w.create
call_weight w (Call.breed k1 k2) = w.breed
call_weight w (Call.transfer to k) = w.transfer
call_weight w (Call.set_price k price) = w.set_price
call_weight w (Call.buy owner k max_price) = w.buy
call_weight w (Call.auto_breed k1 k2 nonce solution) = 1000

-- The weight that is charged for a call of the template pallet. `reads_writes` adds the two, and the
-- sum with 10,000 is one of `u64`.
unfoldable pub template_weight : DbWeight → TemplateCalls.Call → ℕ
template_weight db (TemplateCalls.do_something n) = 10_000 + db.writes 1
template_weight db TemplateCalls.cause_error = 10_000 + saturating_add (db.reads 1) (db.writes 1)

module _ (A : Type 0) (db : DbWeight) where
  -- If one read weighs at most `r` and one write at most `w`, no call of the kitties pallet weighs
  -- more in the runtime than 67 million and seven reads and five writes, and for each call the
  -- runtime's weight is within 3 million of the one that the pallet suggests, which its two
  -- implementations agree on.
  pub call_weight-le :
      (r w : ℕ) (call : Call A)
      → ((n : ℕ) → db.reads n ≤ n * r)
      → ((n : ℕ) → db.writes n ≤ n * w)
      → (call_weight (runtime_weight db) call ≤ 67_000_000 + 7 * r + 5 * w)
        × (call_weight (runtime_weight db) call
            ≤ call_weight (substrate_weight db) call + 3_000_000)
        × (call_weight (substrate_weight db) call
            ≤ call_weight (runtime_weight db) call + 3_000_000)
        × (call_weight (unit_weight db) call ≡ call_weight (substrate_weight db) call)
  unfolding call_weight runtime_weight substrate_weight unit_weight
  call_weight-le r w Call.create hr hw = omega (arith, hr 5, hw 4)
  call_weight-le r w (Call.breed k1 k2) hr hw = omega (arith, hr 7, hw 4)
  call_weight-le r w (Call.transfer to k) hr hw = omega (arith, hr 2, hw 4)
  call_weight-le r w (Call.set_price k price) hr hw = omega (arith, hr 3, hw 1)
  call_weight-le r w (Call.buy owner k max_price) hr hw = omega (arith, hr 4, hw 5)
  call_weight-le r w (Call.auto_breed k1 k2 n sol) hr hw = omega arith

  -- `auto_breed` is charged less than a 45,000th of the weight of `breed` in the runtime, whatever
  -- the database costs.
  pub auto_breed_underweighted :
      (k1 k2 nonce solution : ℕ)
      → call_weight {A = A} (runtime_weight db) (Call.auto_breed k1 k2 nonce solution) * 45_000
        < call_weight {A = A} (runtime_weight db) (Call.breed k1 k2)
  unfolding call_weight runtime_weight
  auto_breed_underweighted k1 k2 nonce solution = omega arith
