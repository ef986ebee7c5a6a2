-- ===== src/Runtime/Fixture.antt =====
-- An orml_nft whose ids are of 32 bits, which fails to mint when they have run out, and the limits
-- of blocks and the weights of the database as they are documented.
use substrate_kitties.Prelude.{
  ℕ, ◌-◌, ◌^◌, ◌≡◌, refl, ap, min, Bool, true, false, ltb, arith, List, ◌*◌, ◌/◌,
}
use substrate_kitties.Frame.{Result, ok, err, external, Action}
use substrate_kitties.Kitties.Types.{Kitty, Error}
use substrate_kitties.Kitties.Config.{NftPallet, NftIsLawful, MintPost, TransferPost, Config}
use substrate_kitties.Kitties.Fixture.{Tokens, nft, nft-IsLawful, config}
use substrate_kitties.Runtime.Configuration.{Limits, Crates}
use substrate_kitties.Runtime.Configuration.Blocks.{LimitsAreDocumented, RocksDbIsDocumented}

abbrev mint_if : Bool → ℕ → ℕ → List ℕ → Kitty → Action Tokens Error ℕ
mint_if true owner class meta kitty s = nft.mint owner class meta kitty s
mint_if false owner class meta kitty s = (err (external 7), s)

abbrev pub small_nft : NftPallet ℕ
small_nft = record nft {
  mint = λ owner class meta kitty s.
      mint_if (ltb (s.next class) (2 ^ 32 - 1)) owner class meta kitty s;
  next_token_id = λ class s. min (s.next class) (2 ^ 32 - 1);
}

mint_if_does :
    (owner class : ℕ) (meta : List ℕ) (kitty : Kitty) (s : Tokens) (b : Bool)
    → ltb (s.next class) (2 ^ 32 - 1) ≡ b
    → MintPost small_nft owner class meta kitty s (mint_if b owner class meta kitty s)
mint_if_does owner class meta kitty s true e = record {
  next_id = ground arith;
  counted = ground arith;
  stored = ground arith;
  others = λ c k d. ground arith;
}
mint_if_does owner class meta kitty s false e = refl

transferred :
    (from to class id : ℕ) (s : Tokens) (r : Result Error (Unit {0}) × Tokens)
    → TransferPost nft from to class id s r
    → TransferPost small_nft from to class id s r
transferred from to class id s (ok _, t) m = record {
  info = m.info;
  held = m.held;
  owned = m.owned;
  moved = m.moved;
  others = m.others;
  counted = ap (λ n. min n (2 ^ 32 - 1)) m.counted;
}
transferred from to class id s (err x, t) p = p

pub small_nft-IsLawful : NftIsLawful small_nft
small_nft-IsLawful = record {
  create_class_lem = λ owner meta s. record { tokens_kept = λ c k. refl; counts_kept = λ c. refl };
  mint_lem = λ owner class meta kitty s.
      mint_if_does owner class meta kitty s (ltb (s.next class) (2 ^ 32 - 1)) refl;
  transfer_lem = λ from to class id s.
      transferred from to class id s _ (nft-IsLawful.transfer_lem from to class id s);
  transfer-by_owner = nft-IsLawful.transfer-by_owner;
  tokens_by_owner_iff = nft-IsLawful.tokens_by_owner_iff;
}

abbrev pub small_config : Config
small_config = record config { nft = small_nft }

abbrev pub limits : Limits
limits = record {
  BlockWeights = ℕ;
  BlockLength = ℕ;
  with_sensible_defaults = λ expected percent. expected * percent / 100;
  max_with_normal_ratio = λ bytes percent. bytes * percent / 100;
  weight_per_second = 1_000_000_000_000;
  extrinsic_base_weight = 125_000_000;
  block_execution_weight = 5_000_000_000;
  max_normal = λ weight. weight;
  max_normal_length = λ bytes. bytes;
}

abbrev pub crates : Crates
crates = record {
  AccountId = ℕ;
  account_eq = config.account_eq;
  default_account = 0;
  nft = config.nft;
  balances = config.currency;
  blake2_128 = config.blake2_128;
  encode_random = config.encode_random;
  encode_solution = config.encode_solution;
  rocks_db_weight = record { reads = λ n. n * 25_000_000; writes = λ n. n * 100_000_000 };
}

pub limits-AreDocumented : LimitsAreDocumented limits
limits-AreDocumented = record {
  share = λ expected percent. omega arith;
  second = refl;
  extrinsic = omega arith;
  block = omega arith;
}

pub rocks_db-IsDocumented : RocksDbIsDocumented crates.rocks_db_weight
rocks_db-IsDocumented = record { reads-le = λ n. omega arith; writes-le = λ n. omega arith }
