-- ===== src/Kitties/Config.antt =====
-- What pallets/kitties/src/lib.rs takes from its `Config` trait and from code that is not in the
-- repository: accounts, the pallets orml_nft and `Currency`, randomness, hashing and encoding.
-- Each is a parameter; the records named `…IsLawful` state what the proofs assume of them.
use substrate_kitties.Prelude.{ℕ, ◌+◌, ◌≡◌, ◌≢◌, ◌↔◌, ◌⊎◌, List, Option, some, Bool, true, arith}
use substrate_kitties.Frame.{Result, ok, err, Action}
use substrate_kitties.Kitties.Types.{Kitty, Error, IsDna}

-- `orml_nft::TokenInfo`, with `TokenData = Kitty`.
pub record TokenInfo (AccountId : Type 0) : Type 0 where
  pub metadata : List ℕ
  pub owner : AccountId
  pub data_of : Kitty

-- The calls of orml_nft that the pallet makes, over that pallet's storage.
pub record NftPallet (AccountId : Type 0) : Type 1 where
  pub Storage : Type 0
  pub create_class : AccountId → List ℕ → Action Storage Error ℕ
  pub mint : AccountId → ℕ → List ℕ → Kitty → Action Storage Error ℕ
  pub transfer : AccountId → AccountId → ℕ × ℕ → Action Storage Error (Unit {0})
  pub tokens : ℕ → ℕ → Storage → Option (TokenInfo AccountId)
  pub tokens_by_owner : AccountId → ℕ × ℕ → Storage → Bool
  pub next_token_id : ℕ → Storage → ℕ

-- What a call did to the tokens of orml_nft, by its result.
module _ {A : Type 0} (N : NftPallet A) where
  -- Every token but one is as it was.
  abbrev pub OthersKept : ℕ → ℕ → N.Storage → N.Storage → Type 0
  OthersKept class id s s' = (c k : ℕ) → ((c ≢ class) ⊎ (k ≢ id)) → N.tokens c k s' ≡ N.tokens c k s

  pub record Minted (owner : A) (class : ℕ) (meta : List ℕ) (kitty : Kitty) (id : ℕ)
      (s s' : N.Storage) : Type 0 where
    pub next_id : id ≡ N.next_token_id class s
    pub counted : N.next_token_id class s' ≡ id + 1
    pub stored :
        N.tokens class id s' ≡ some (record { metadata = meta; owner = owner; data_of = kitty })
    pub others : OthersKept class id s s'

  pub record Moved (from to : A) (class id : ℕ) (s s' : N.Storage) : Type 0 where
    pub info : TokenInfo A
    pub held : N.tokens class id s ≡ some info
    pub owned : info.owner ≡ from
    pub moved : N.tokens class id s' ≡ some (record info { owner = to })
    pub others : OthersKept class id s s'
    pub counted : N.next_token_id class s' ≡ N.next_token_id class s

  -- A new class has no tokens, and no token of another class is touched.
  pub record ClassCreated (s s' : N.Storage) : Type 0 where
    pub tokens_kept : (c k : ℕ) → N.tokens c k s' ≡ N.tokens c k s
    pub counts_kept : (c : ℕ) → N.next_token_id c s' ≡ N.next_token_id c s

  abbrev pub CreateClassPost : N.Storage → Result Error ℕ × N.Storage → Type 0
  CreateClassPost s (ok class, s') = ClassCreated s s'
  CreateClassPost s (err e, s') = s' ≡ s

  abbrev pub MintPost : A → ℕ → List ℕ → Kitty → N.Storage → Result Error ℕ × N.Storage → Type 0
  MintPost owner class meta kitty s (ok id, s') = Minted owner class meta kitty id s s'
  MintPost owner class meta kitty s (err e, s') = s' ≡ s

  abbrev pub TransferPost : A → A → ℕ → ℕ → N.Storage → Result Error (Unit {0}) × N.Storage → Type 0
  TransferPost from to class id s (ok _, s') = Moved from to class id s s'
  TransferPost from to class id s (err e, s') = s' ≡ s

  pub create_class-ClassCreated :
      {s : N.Storage} {class : ℕ} (r : Result Error ℕ × N.Storage)
      → CreateClassPost s r
      → r.0 ≡ ok class
      → ClassCreated s r.1
  create_class-ClassCreated (ok _, n) post e = post
  create_class-ClassCreated (err x, n) post e = cc

  pub mint-Minted :
      {owner : A} {class : ℕ} {meta : List ℕ} {kitty : Kitty} {s : N.Storage} {id : ℕ}
      (r : Result Error ℕ × N.Storage)
      → MintPost owner class meta kitty s r
      → r.0 ≡ ok id
      → Minted owner class meta kitty id s r.1
  mint-Minted (ok id, n) post e = ground arith
  mint-Minted (err x, n) post e = cc

  pub transfer-Moved :
      {from to : A} {class id : ℕ} {s : N.Storage} {u : Unit {0}}
      (r : Result Error (Unit {0}) × N.Storage)
      → TransferPost from to class id s r
      → r.0 ≡ ok u
      → Moved from to class id s r.1
  transfer-Moved (ok _, n) post e = post
  transfer-Moved (err x, n) post e = cc

  -- The documented behaviour of orml_nft: a new class has no tokens; `mint` gives the next token id and stores the token, or
  -- fails and changes nothing; `transfer` fails and changes nothing unless `from` owns the token,
  -- and otherwise changes only the token's owner; `TokensByOwner` lists the tokens by owner.
  pub record NftIsLawful : Type 0 where
    pub create_class_lem :
        (owner : A) (meta : List ℕ) (s : N.Storage)
        → CreateClassPost s (N.create_class owner meta s)
    pub mint_lem :
        (owner : A) (class : ℕ) (meta : List ℕ) (kitty : Kitty) (s : N.Storage)
        → MintPost owner class meta kitty s (N.mint owner class meta kitty s)
    pub transfer_lem :
        (from to : A) (class id : ℕ) (s : N.Storage)
        → TransferPost from to class id s (N.transfer from to (class, id) s)
    pub transfer-by_owner :
        (from to : A) (class id : ℕ) (s : N.Storage) {info : TokenInfo A}
        → N.tokens class id s ≡ some info
        → info.owner ≡ from
        → (N.transfer from to (class, id) s).0 ≡ ok tt
    pub tokens_by_owner_iff :
        (a : A) (class id : ℕ) (s : N.Storage)
        → (N.tokens_by_owner a (class, id) s ≡ true)
          ↔ ((info : TokenInfo A) × (N.tokens class id s ≡ some info) × (info.owner ≡ a))

-- `frame_support::traits::ExistenceRequirement`
pub data ExistenceRequirement : Type 0 where
  keep_alive allow_death : ExistenceRequirement

-- The call of `Currency` that the pallet makes, and the balances that it moves.
pub record CurrencyPallet (AccountId : Type 0) : Type 1 where
  pub Storage : Type 0
  pub transfer : AccountId → AccountId → ℕ → ExistenceRequirement → Action Storage Error (Unit {0})
  pub free_balance : AccountId → Storage → ℕ

module _ {A : Type 0} (C : CurrencyPallet A) where
  pub record Paid (from to : A) (amount : ℕ) (s s' : C.Storage) : Type 0 where
    pub payer : from ≢ to → C.free_balance from s ≡ C.free_balance from s' + amount
    pub payee : from ≢ to → C.free_balance to s' ≡ C.free_balance to s + amount
    pub others : (a : A) → a ≢ from → a ≢ to → C.free_balance a s' ≡ C.free_balance a s

  abbrev pub PayPost : A → A → ℕ → C.Storage → Result Error (Unit {0}) × C.Storage → Type 0
  PayPost from to amount s (ok _, s') = Paid from to amount s s'
  PayPost from to amount s (err e, s') = s' ≡ s

  pub pay-Paid :
      {from to : A} {amount : ℕ} {s : C.Storage} {u : Unit {0}}
      (r : Result Error (Unit {0}) × C.Storage)
      → PayPost from to amount s r
      → r.0 ≡ ok u
      → Paid from to amount s r.1
  pay-Paid (ok _, c) post e = post
  pay-Paid (err x, c) post e = cc

  -- The documented behaviour of `Currency::transfer` where the payer has to be kept alive: it moves
  -- the amount between two accounts, or fails and changes nothing. No account is reaped, so no dust
  -- is lost. Nothing is assumed of `allow_death`, with which a reaped account may lose its dust.
  pub record CurrencyIsLawful : Type 0 where
    pub transfer_lem :
        (from to : A) (amount : ℕ) (s : C.Storage)
        → PayPost from to amount s (C.transfer from to amount keep_alive s)

-- `Config`, with the codecs of the two payloads and the hash that are applied to them.
pub record Config : Type 1 where
  pub AccountId : Type 0
  pub account_eq : Discrete AccountId
  pub default_account : AccountId
  pub nft : NftPallet AccountId
  pub currency : CurrencyPallet AccountId
  pub blake2_128 : List ℕ → List ℕ
  pub encode_random : List ℕ × AccountId × Option ℕ → List ℕ
  pub encode_solution : ℕ × ℕ × ℕ × ℕ → List ℕ
  pub default_difficulty : ℕ

-- A 128-bit hash is sixteen bytes.
pub record HashIsLawful (T : Config) : Type 0 where
  pub blake2_128-IsDna : (bytes : List ℕ) → IsDna (T.blake2_128 bytes)

-- What a call reads of the block around it: `Randomness::random_seed` and `extrinsic_index`.
pub record Context : Type 0 where
  pub random_seed : List ℕ
  pub extrinsic_index : Option ℕ
