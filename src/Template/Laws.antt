-- ===== src/Template/Laws.antt =====
-- What the calls of the template pallet do, one and many of them.
use substrate_kitties.Prelude.{
  ℕ, zero, suc, ◌+◌, ◌≤◌, ◌<◌, min, ◌≡◌, refl, ◌↔◌, ◌⊎◌, ◌∙◌, inl, inr, Option-cases, some, arith,
}
use substrate_kitties.Frame.{Origin, root, signed, none_origin, ok}
use substrate_kitties.Template.{State, u32_max, do_something, cause_error}

module _ {A : Type 0} where
  cause_error_counts :
      (who : A) (s : State A) (n : ℕ)
      → s.something ≡ some n
      → n ≤ u32_max
      → (cause_error (signed who) s).1.something ≡ some (min (n + 1) u32_max)
  unfolding cause_error
  cause_error_counts who s n e h = ground arith

  cause_error_ok :
      (who : A) (s : State A)
      → ((cause_error (signed who) s).0 ≡ ok tt)
        ↔ ((n : ℕ) × (s.something ≡ some n) × (n < u32_max))
  unfolding cause_error
  cause_error_ok who s = elim (Option-cases s.something) [
    | inl unset ↦ (λ h. absurd (ground arith), λ h. absurd (ground arith))
    | inr (n, e) ↦ (λ h. (n, e, ground arith), λ h. ground arith)
  ]

  -- A signed `cause_error` succeeds exactly if a number is stored that is below the largest of 32
  -- bits; whoever calls it, it emits nothing, and if it fails it changes nothing.
  pub cause_error_iff :
      (who : A) (origin : Origin A) (s : State A)
      → (((cause_error (signed who) s).0 ≡ ok tt)
          ↔ ((n : ℕ) × (s.something ≡ some n) × (n < u32_max)))
        × ((cause_error origin s).1.events ≡ s.events)
        × (((cause_error origin s).0 ≡ ok tt) ⊎ ((cause_error origin s).1 ≡ s))
  unfolding cause_error
  cause_error_iff who root s = (cause_error_ok who s, refl, inr refl)
  cause_error_iff who none_origin s = (cause_error_ok who s, refl, inr refl)
  cause_error_iff who (signed a) s = elim (Option-cases s.something) [
    | inl unset ↦ (cause_error_ok who s, ground arith, ground arith)
    | inr (n, e) ↦ (cause_error_ok who s, ground arith, ground arith)
  ]

  -- `n` calls of `cause_error` by one account, whatever each of them returns.
  abbrev pub cause_errors : ℕ → A → State A → State A
  cause_errors zero who s = s
  cause_errors (suc n) who s = cause_errors n who (cause_error (signed who) s).1

  cause_errors_from :
      (n : ℕ) (who : A) (s : State A) (x : ℕ)
      → s.something ≡ some x
      → x ≤ u32_max
      → (cause_errors n who s).something ≡ some (min (x + n) u32_max)
  cause_errors_from zero who s x e h = e ∙ ground arith
  cause_errors_from (suc n) who s x e h =
      cause_errors_from n who (cause_error (signed who) s).1 (min (x + 1) u32_max)
        (cause_error_counts who s x e h) (omega arith)
      ∙ ground arith

  -- After a 32-bit number has been stored by a signed call, `n` calls of `cause_error` add `n` to
  -- it, and stop at the largest number of 32 bits: it never wraps.
  pub cause_errors-do_something :
      (n x : ℕ) (who other : A) (s : State A)
      → x ≤ u32_max
      → (cause_errors n other (do_something (signed who) x s).1).something
        ≡ some (min (x + n) u32_max)
  unfolding do_something
  cause_errors-do_something n x who other s h = cause_errors_from n other _ x refl h
