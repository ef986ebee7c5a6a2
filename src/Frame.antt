-- ===== src/Frame.antt =====
-- What the pallets use of the FRAME framework's calling convention: a dispatchable is given an
-- origin and the chain's storage, and returns its result with the storage it leaves. Writes made
-- before an `Err` stay, unless the call is `#[transactional]`.
use substrate_kitties.Prelude.{◌≡◌, refl, ◌⊎◌, inl, inr, ℕ, Bool, true, false, Option, none, some}

-- `RawOrigin` of frame_system.
pub data Origin (AccountId : Type 0) : Type 0 where
  root : Origin AccountId
  signed : AccountId → Origin AccountId
  none_origin : Origin AccountId

-- `DispatchError`: a bad origin, an error of the pallet's own `Error<T>`, or an error that a call
-- of other code returned, by a number that names it.
pub data DispatchError (E : Type 0) : Type 0 where
  bad_origin : DispatchError E
  module_error : E → DispatchError E
  external : ℕ → DispatchError E

pub data Result (E A : Type 0) : Type 0 where
  ok : A → Result E A
  err : DispatchError E → Result E A

-- Code that may change the storage `S`, and may fail.
abbrev pub Action : Type 0 → Type 0 → Type 0 → Type 0
Action S E A = S → Result E A × S

module _ {S E A : Type 0} where
  abbrev pub pure : A → Action S E A
  pure a s = (ok a, s)

  abbrev pub raise : DispatchError E → Action S E A
  raise e s = (err e, s)

  abbrev pub gets : (S → A) → Action S E A
  gets f s = (ok (f s), s)

  -- `Option::ok_or` under `?`.
  abbrev pub ok_or : Option A → E → Action S E A
  ok_or none e = raise (module_error e)
  ok_or (some a) e = pure a

infixl 5 ◌>>=◌ ◌>>◌
abbrev pub ◌>>=◌ : {S E A B : Type 0} → Action S E A → (A → Action S E B) → Action S E B
◌>>=◌ m f s = let (r, s') = m s in elim r [ ok a ↦ f a s' | err e ↦ (err e, s') ]

abbrev pub ◌>>◌ : {S E A B : Type 0} → Action S E A → Action S E B → Action S E B
m >> k = m >>= λ _. k

module _ {S E : Type 0} where
  abbrev pub modify : (S → S) → Action S E (Unit {0})
  modify f s = (ok tt, f s)

  -- `ensure!(b, e)`
  abbrev pub ensure : Bool → E → Action S E (Unit {0})
  ensure true e = pure tt
  ensure false e = raise (module_error e)

  abbrev pub ensure_signed : {A : Type 0} → Origin A → Action S E A
  ensure_signed root = raise bad_origin
  ensure_signed (signed who) = pure who
  ensure_signed none_origin = raise bad_origin

  abbrev pub ensure_none : {A : Type 0} → Origin A → Action S E (Unit {0})
  ensure_none root = raise bad_origin
  ensure_none (signed who) = raise bad_origin
  ensure_none none_origin = pure tt

  -- `#[transactional]`: an `Err` undoes every write of the body.
  abbrev pub transactional : {A : Type 0} → Action S E A → Action S E A
  transactional m s = let (r, s') = m s in elim r [ ok a ↦ (ok a, s') | err e ↦ (err e, s) ]

pub Result-cases :
    {E A : Type 0} (r : Result E A) → ((a : A) × (r ≡ ok a)) ⊎ ((e : DispatchError E) × (r ≡ err e))
Result-cases (ok a) = inl (a, refl)
Result-cases (err e) = inr (e, refl)
