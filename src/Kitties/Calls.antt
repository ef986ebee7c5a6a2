-- ===== src/Kitties/Calls.antt =====
-- The dispatchables of pallets/kitties/src/lib.rs, and the functions that they share.
use Prim.Native.Nat.{bit_and, bit_or}
use substrate_kitties.Prelude.{
  ℕ, zero, suc, ◌-◌, List, [], Option, none, some, Bool, not, leb, is_yes, get_or, set, replicate,
  length,
}
use substrate_kitties.Frame.{
  Origin, Action, pure, gets, ok_or, ◌>>=◌, ◌>>◌, modify, ensure, ensure_signed, ensure_none,
  transactional,
}
use substrate_kitties.Kitties.Types.{
  Kitty, KittyGender-discrete, gender, kitty_created, kitty_bred, kitty_transferred,
  kitty_price_updated, kitty_sold, Error, invalid_kitty_id, same_gender, not_owner, not_for_sale,
  price_too_low, buy_from_self, Call,
}
use substrate_kitties.Kitties.Config.{Config, Context, keep_alive}
use substrate_kitties.Kitties.State.{
  State, put_price, deposit_event, in_nft, in_currency, try_mutate_exists,
}

-- `!selector` of a byte is `255 - selector`.
unfoldable pub combine_dna : ℕ → ℕ → ℕ → ℕ
combine_dna dna1 dna2 selector = bit_or (bit_and (255 - selector) dna1) (bit_and selector dna2)

-- The loop of `do_breed` with `rounds` turns left, at index `i`.
unfoldable pub combine_from : ℕ → ℕ → List ℕ → List ℕ → List ℕ → List ℕ → List ℕ
combine_from zero i dna1 dna2 selector new_dna = new_dna
combine_from (suc rounds) i dna1 dna2 selector new_dna =
    combine_from rounds (suc i) dna1 dna2 selector
      (set new_dna i (combine_dna (get_or dna1 i 0) (get_or dna2 i 0) (get_or selector i 0)))

unfoldable pub new_dna : List ℕ → List ℕ → List ℕ → List ℕ
unfolding combine_from
new_dna dna1 dna2 selector = combine_from (length dna1) 0 dna1 dna2 selector (replicate 16 0)

module _ (T : Config) where
  open T use {AccountId, account_eq, nft, currency}

  -- `a == b` on accounts
  abbrev pub same_account : AccountId → AccountId → Bool
  same_account a b = is_yes (account_eq a b)

  -- `kitties`: the kitty's data, if the account owns it.
  unfoldable pub kitties : AccountId → ℕ → State T → Option Kitty
  kitties owner kitty_id s = elim (nft.tokens s.class_id kitty_id s.nft) [
    | none ↦ none
    | some x ↦ elim (account_eq x.owner owner) [ yes _ ↦ some x.data_of | no _ ↦ none ]
  ]

  module _ (ctx : Context) where
    unfoldable pub random_value : AccountId → List ℕ
    random_value sender =
        T.blake2_128 (T.encode_random (ctx.random_seed, sender, ctx.extrinsic_index))

    unfoldable pub create : Origin AccountId → Action (State T) Error (Unit {0})
    create origin = do
      sender ← ensure_signed origin
      let kitty : Kitty = record { dna = random_value sender }
      class ← gets (λ s. s.class_id)
      kitty_id ← in_nft (nft.mint sender class [] kitty)
      deposit_event (kitty_created sender kitty_id kitty)

    unfoldable pub do_breed : AccountId → Kitty → Kitty → Action (State T) Error (Unit {0})
    do_breed owner kitty1 kitty2 = do
      ensure (not (is_yes (KittyGender-discrete (gender kitty1) (gender kitty2)))) same_gender
      let new_kitty : Kitty = record { dna = new_dna kitty1.dna kitty2.dna (random_value owner) }
      class ← gets (λ s. s.class_id)
      kitty_id ← in_nft (nft.mint owner class [] new_kitty)
      deposit_event (kitty_bred owner kitty_id new_kitty)

    unfoldable pub breed : Origin AccountId → ℕ → ℕ → Action (State T) Error (Unit {0})
    breed origin kitty_id_1 kitty_id_2 = do
      sender ← ensure_signed origin
      kitty1 ← ok_or (← gets (kitties sender kitty_id_1)) invalid_kitty_id
      kitty2 ← ok_or (← gets (kitties sender kitty_id_2)) invalid_kitty_id
      do_breed sender kitty1 kitty2

    unfoldable pub auto_breed : Origin AccountId → ℕ → ℕ → ℕ → ℕ → Action (State T) Error (Unit {0})
    auto_breed origin kitty_id_1 kitty_id_2 nonce solution = do
      ensure_none origin
      kitty1 ← ok_or (← gets (λ s. nft.tokens s.class_id kitty_id_1 s.nft)) invalid_kitty_id
      kitty2 ← ok_or (← gets (λ s. nft.tokens s.class_id kitty_id_2 s.nft)) invalid_kitty_id
      do_breed kitty1.owner kitty1.data_of kitty2.data_of

  unfoldable pub transfer : Origin AccountId → AccountId → ℕ → Action (State T) Error (Unit {0})
  transfer origin to kitty_id = do
    sender ← ensure_signed origin
    class ← gets (λ s. s.class_id)
    in_nft (nft.transfer sender to (class, kitty_id))
    elim (account_eq sender to) [
      | yes _ ↦ pure tt
      | no _ ↦
          modify (put_price kitty_id none) >> deposit_event (kitty_transferred sender to kitty_id)
    ]

  unfoldable pub set_price : Origin AccountId → ℕ → Option ℕ → Action (State T) Error (Unit {0})
  set_price origin kitty_id new_price = do
    sender ← ensure_signed origin
    ensure (← gets (λ s. nft.tokens_by_owner sender (s.class_id, kitty_id) s.nft)) not_owner
    modify (put_price kitty_id new_price)
    deposit_event (kitty_price_updated sender kitty_id new_price)

  -- The closure of `buy`: `take` leaves `none` for the price.
  abbrev pub buy_at :
      AccountId → AccountId → ℕ → ℕ → Option ℕ → Action (State T) Error (Unit {0} × Option ℕ)
  buy_at sender owner kitty_id max_price listed = do
    price ← ok_or listed not_for_sale
    ensure (leb price max_price) price_too_low
    class ← gets (λ s. s.class_id)
    in_nft (nft.transfer owner sender (class, kitty_id))
    in_currency (currency.transfer sender owner price keep_alive)
    deposit_event (kitty_sold owner sender kitty_id price)
    pure (tt, none)

  unfoldable pub buy : Origin AccountId → AccountId → ℕ → ℕ → Action (State T) Error (Unit {0})
  buy origin owner kitty_id max_price = transactional do
    sender ← ensure_signed origin
    ensure (not (same_account sender owner)) buy_from_self
    try_mutate_exists kitty_id (buy_at sender owner kitty_id max_price)

  -- A call's dispatchable.
  unfoldable pub dispatch :
      Context → Call AccountId → Origin AccountId → Action (State T) Error (Unit {0})
  dispatch ctx Call.create origin = create ctx origin
  dispatch ctx (Call.breed k1 k2) origin = breed ctx origin k1 k2
  dispatch ctx (Call.transfer to k) origin = transfer origin to k
  dispatch ctx (Call.set_price k price) origin = set_price origin k price
  dispatch ctx (Call.buy owner k max_price) origin = buy origin owner k max_price
  dispatch ctx (Call.auto_breed k1 k2 nonce solution) origin =
      auto_breed ctx origin k1 k2 nonce solution
