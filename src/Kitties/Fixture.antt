-- ===== src/Kitties/Fixture.antt =====
-- Small pallets that meet the assumptions of `Config`, and storages for the examples: accounts are
-- numbers, tokens and balances are functions.
use substrate_kitties.Prelude.{
  ℕ, ◌+◌, ◌-◌, ◌%◌, ◌^◌, ◌≡◌, refl, ◌↔◌, inl, inr, Option-cases, Bool, true, false, ltb, ◌==◌,
  if◌then◌else◌, List, [], ◌∷◌, ◌++◌, Option, none, some, arith, get_or, replicate, ℕ_discrete,
}
use substrate_kitties.Frame.{ok, err, external, Action}
use substrate_kitties.Kitties.Types.{Kitty, Error}
use substrate_kitties.Kitties.Config.{
  TokenInfo, NftPallet, NftIsLawful, TransferPost, CurrencyPallet, CurrencyIsLawful, PayPost,
  ExistenceRequirement, Config, HashIsLawful, Context,
}
use substrate_kitties.Kitties.State.{State}
use substrate_kitties.Kitties.Worker.{Generator, GeneratorIsLawful}

pub record Tokens : Type 0 where
  pub tokens : ℕ → ℕ → Option (TokenInfo ℕ)
  pub next : ℕ → ℕ
  pub classes : ℕ

abbrev put_token : ℕ → ℕ → TokenInfo ℕ → Tokens → ℕ → ℕ → Option (TokenInfo ℕ)
put_token class k x s c j =
    if c == class then (if j == k then some x else s.tokens c j) else s.tokens c j

abbrev mint : ℕ → ℕ → List ℕ → Kitty → Action Tokens Error ℕ
mint owner class meta kitty s = (
  ok (s.next class),
  record s {
    tokens =
        put_token class (s.next class) (record { metadata = meta; owner = owner; data_of = kitty })
          s;
    next = λ c. if c == class then s.next c + 1 else s.next c;
  },
)

abbrev transfer_owned :
    {P : Type 0} → Dec P → TokenInfo ℕ → ℕ → ℕ × ℕ → Action Tokens Error (Unit {0})
transfer_owned (yes _) x to token s =
    (ok tt, record s { tokens = put_token token.0 token.1 (record x { owner = to }) s })
transfer_owned (no _) x to token s = (err (external 2), s)

abbrev transfer_held : Option (TokenInfo ℕ) → ℕ → ℕ → ℕ × ℕ → Action Tokens Error (Unit {0})
transfer_held none from to token s = (err (external 1), s)
transfer_held (some x) from to token s = transfer_owned (ℕ_discrete x.owner from) x to token s

abbrev transfer : ℕ → ℕ → ℕ × ℕ → Action Tokens Error (Unit {0})
transfer from to token s = transfer_held (s.tokens token.0 token.1) from to token s

abbrev pub nft : NftPallet ℕ
nft = record {
  Storage = Tokens;
  create_class = λ owner meta s. (ok s.classes, record s { classes = s.classes + 1 });
  mint = mint;
  transfer = transfer;
  tokens = λ c k s. s.tokens c k;
  tokens_by_owner =
      λ a token s. elim (s.tokens token.0 token.1) [ none ↦ false | some x ↦ x.owner == a ];
  next_token_id = λ c s. s.next c;
}

transfer_owned_does :
    (from to class id : ℕ) (s : Tokens) (x : TokenInfo ℕ) (d : Dec (x.owner ≡ from))
    → s.tokens class id ≡ some x
    → TransferPost nft from to class id s (transfer_owned d x to (class, id) s)
transfer_owned_does from to class id s x (yes own) held = record {
  info = x;
  held = held;
  owned = own;
  moved = ground arith;
  others = λ c k d. ground arith;
  counted = refl;
}
transfer_owned_does from to class id s x (no other) held = refl

transfer_held_does :
    (from to class id : ℕ) (s : Tokens) (o : Option (TokenInfo ℕ))
    → s.tokens class id ≡ o
    → TransferPost nft from to class id s (transfer_held o from to (class, id) s)
transfer_held_does from to class id s none e = refl
transfer_held_does from to class id s (some x) e =
    transfer_owned_does from to class id s x (ℕ_discrete x.owner from) e

transfer_does :
    (from to class id : ℕ) (s : Tokens)
    → TransferPost nft from to class id s (transfer from to (class, id) s)
transfer_does from to class id s = transfer_held_does from to class id s (s.tokens class id) refl

owned_iff :
    (a class id : ℕ) (s : Tokens)
    → (nft.tokens_by_owner a (class, id) s ≡ true)
      ↔ ((x : TokenInfo ℕ) × (s.tokens class id ≡ some x) × (x.owner ≡ a))
owned_iff a class id s = elim (Option-cases (s.tokens class id)) [
  | inl absent ↦ (λ h. absurd (ground arith), λ h. absurd (ground arith))
  | inr (x, held) ↦ (λ h. (x, held, ground arith), λ h. ground arith)
]

pub nft-IsLawful : NftIsLawful nft
nft-IsLawful = record {
  create_class_lem = λ owner meta s. record { tokens_kept = λ c k. refl; counts_kept = λ c. refl };
  mint_lem = λ owner class meta kitty s. record {
    next_id = refl;
    counted = ground arith;
    stored = ground arith;
    others = λ c k d. ground arith;
  };
  transfer_lem = transfer_does;
  transfer-by_owner = λ from to class id s held own. ground arith;
  tokens_by_owner_iff = owned_iff;
}

abbrev pay_if : Bool → ℕ → ℕ → ℕ → Action (ℕ → ℕ) Error (Unit {0})
pay_if true from to amount s =
    (ok tt, λ a. if a == from then s a - amount else (if a == to then s a + amount else s a))
pay_if false from to amount s = (err (external 3), s)

-- An account keeps at least the existential deposit, 1.
abbrev pay : ℕ → ℕ → ℕ → ExistenceRequirement → Action (ℕ → ℕ) Error (Unit {0})
pay from to amount req s = pay_if (ltb amount (s from)) from to amount s

abbrev pub currency : CurrencyPallet ℕ
currency = record { Storage = ℕ → ℕ; transfer = pay; free_balance = λ a s. s a }

pay_if_does :
    (from to amount : ℕ) (s : ℕ → ℕ) (b : Bool)
    → ltb amount (s from) ≡ b
    → PayPost currency from to amount s (pay_if b from to amount s)
pay_if_does from to amount s true e = record {
  payer = λ d. ground arith;
  payee = λ d. ground arith;
  others = λ a d1 d2. ground arith;
}
pay_if_does from to amount s false e = refl

pub currency-IsLawful : CurrencyIsLawful currency
currency-IsLawful = record {
  transfer_lem = λ from to amount s. pay_if_does from to amount s (ltb amount (s from)) refl;
}

-- The hash of a payload has the payload's first number as its first and its last byte.
abbrev pub config : Config
config = record {
  AccountId = ℕ;
  account_eq = ℕ_discrete;
  default_account = 0;
  nft = nft;
  currency = currency;
  blake2_128 =
      λ bytes. (get_or bytes 0 0 % 256) ∷ (replicate 14 0 ++ (get_or bytes 0 0 % 256) ∷ []);
  encode_random = λ p. get_or p.0 0 0 ∷ p.1 ∷ [];
  encode_solution = λ p. p.3 ∷ p.0 ∷ p.1 ∷ p.2 ∷ [];
  default_difficulty = 3;
}

pub config-HashIsLawful : HashIsLawful config
config-HashIsLawful = record {
  blake2_128-IsDna = λ bytes. record { sixteen = refl; within = omega arith };
}

-- A generator that counts.
abbrev pub counter : Generator
counter = record {
  Rng = ℕ;
  from_seed = λ seed. get_or seed 0 0;
  next_u32 = λ n. (n % 2 ^ 32, n + 1);
}

pub counter-IsLawful : GeneratorIsLawful counter
counter-IsLawful = record { next_u32-lt = λ n. omega arith }

-- The random seed of a block, by its first byte.
abbrev pub block : ℕ → Context
block seed = record { random_seed = seed ∷ []; extrinsic_index = some 1 }

abbrev pub blank : State config
blank = record {
  kitty_prices = λ k. none;
  class_id = 0;
  auto_breed_nonce = 0;
  nft = record { tokens = λ c k. none; next = λ c. 0; classes = 0 };
  currency = λ a. if a == 200 then 500 else 0;
  events = [];
}
