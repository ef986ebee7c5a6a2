-- ===== src/Node/Io.antt =====
-- Code of the node that may change the world `W` and may fail, with Rust's `?` as its bind.
use substrate_kitties.Prelude.{◌≡◌, ap}

-- `Result<A, E>`
pub data Outcome (E A : Type 0) : Type 0 where
  ok : A → Outcome E A
  err : E → Outcome E A

abbrev pub Io : Type 0 → Type 0 → Type 0 → Type 0
Io W E A = W → Outcome E A × W

module _ {W E A : Type 0} where
  unfoldable pub pure : A → Io W E A
  pure a w = (ok a, w)

  unfoldable pub raise : E → Io W E A
  raise e w = (err e, w)

  -- `?` on a result.
  unfoldable pub lift : Outcome E A → Io W E A
  lift r w = (r, w)

module _ {W E A B : Type 0} where
  abbrev pub continue : Outcome E A → (A → Io W E B) → Io W E B
  continue (ok a) f w = f a w
  continue (err e) f w = (err e, w)

  infixl 5 ◌>>=◌ ◌>>◌
  unfoldable pub ◌>>=◌ : Io W E A → (A → Io W E B) → Io W E B
  ◌>>=◌ m f w = let (r, w') = m w in continue r f w'

  abbrev pub ◌>>◌ : Io W E A → Io W E B → Io W E B
  m >> n = m >>= λ _. n

  pub bind_err :
      (m : Io W E A) (f : A → Io W E B) (w w' : W) (e : E)
      → m w ≡ (err e, w')
      → (m >>= f) w ≡ (err e, w')
  unfolding ◌>>=◌
  bind_err m f w w' e h = ap (λ x. continue x.0 f x.1) h

  pub bind_ok :
      (m : Io W E A) (f : A → Io W E B) (a : A) (w w' : W) → m w ≡ (ok a, w') → (m >>= f) w ≡ f a w'
  unfolding ◌>>=◌
  bind_ok m f a w w' h = ap (λ x. continue x.0 f x.1) h
