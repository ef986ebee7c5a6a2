-- ===== src/Kitties/Tests/Market.antt =====
-- A market: account 100 owns a male and a female kitty, and offers the first for 400; account 200
-- has 500.
use substrate_kitties.Prelude.{
  ℕ, ◌==◌, if◌then◌else◌, List, [], ◌∷◌, ◌++◌, none, some, arith, replicate,
}
use substrate_kitties.Kitties.Config.{TokenInfo}
use substrate_kitties.Kitties.State.{State}
use substrate_kitties.Kitties.Valid.{IsValid}
use substrate_kitties.Kitties.Fixture.{config}

abbrev pub dna_of : ℕ → List ℕ
dna_of b = b ∷ (replicate 14 0 ++ b ∷ [])

abbrev pub info_of : ℕ → ℕ → TokenInfo ℕ
info_of owner b = record { metadata = []; owner = owner; data_of = record { dna = dna_of b } }

abbrev pub market : State config
market = record {
  kitty_prices = λ k. if k == 0 then some 400 else none;
  class_id = 0;
  auto_breed_nonce = 7;
  nft = record {
    tokens = λ c k.
        if c == 0
        then (if k == 0
            then some (info_of 100 2)
            else (if k == 1 then some (info_of 100 3) else none))
        else none;
    next = λ c. if c == 0 then 2 else 0;
    classes = 1;
  };
  currency = λ a. if a == 200 then 500 else 0;
  events = [];
}

pub market-IsValid : IsValid market
market-IsValid = record { fresh = λ k h. ground arith; listed = λ k h. ground arith }
