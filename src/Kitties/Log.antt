-- ===== src/Kitties/Log.antt =====
-- The book of kitties that a reader of the pallet's events keeps: an independent description of
-- what the calls of pallets/kitties/src/lib.rs do, told by the events alone.
use substrate_kitties.Prelude.{ℕ, ◌≡◌, refl, List, [], ◌∷◌, ◌++◌, Option, none, some}
use substrate_kitties.Kitties.Types.{
  Kitty, Event, kitty_created, kitty_bred, kitty_transferred, kitty_price_updated, kitty_sold,
}
use substrate_kitties.Kitties.State.{insert}

-- What is known of one kitty. `price` is `none` while it is not for sale.
pub record Entry (A : Type 0) : Type 0 where
  pub owner : A
  pub kitty : Kitty
  pub price : Option ℕ

abbrev pub Book : Type 0 → Type 0
Book A = ℕ → Option (Entry A)

module _ {A : Type 0} where
  abbrev pub update : (Entry A → Entry A) → Option (Entry A) → Option (Entry A)
  update f none = none
  update f (some e) = some (f e)

  -- A new kitty is not for sale; a kitty that changes hands is no longer for sale.
  abbrev pub apply : Event A → Book A → Book A
  apply (kitty_created owner id kitty) b =
      insert id (some (record { owner = owner; kitty = kitty; price = none })) b
  apply (kitty_bred owner id kitty) b =
      insert id (some (record { owner = owner; kitty = kitty; price = none })) b
  apply (kitty_transferred from to id) b =
      insert id (update (λ e. record e { owner = to; price = none }) (b id)) b
  apply (kitty_price_updated owner id price) b =
      insert id (update (λ e. record e { price = price }) (b id)) b
  apply (kitty_sold from to id price) b =
      insert id (update (λ e. record e { owner = to; price = none }) (b id)) b

  pub replay_from : Book A → List (Event A) → Book A
  replay_from b [] = b
  replay_from b (e ∷ es) = replay_from (apply e b) es

  -- The book after all the events, from the empty one.
  pub replay : List (Event A) → Book A
  unfolding replay_from
  replay es = replay_from (λ _. none) es

  pub replay-nil : (k : ℕ) → replay [] k ≡ none
  unfolding replay
  replay-nil k = refl

  replay_from-snoc :
      (b : Book A) (es : List (Event A)) (e : Event A)
      → replay_from b (es ++ (e ∷ [])) ≡ apply e (replay_from b es)
  unfolding replay_from
  replay_from-snoc b [] e = refl
  replay_from-snoc b (x ∷ es) e = replay_from-snoc (apply x b) es e

  pub replay-snoc :
      (es : List (Event A)) (e : Event A) → replay (es ++ (e ∷ [])) ≡ apply e (replay es)
  unfolding replay
  replay-snoc es e = replay_from-snoc (λ _. none) es e
