-- ===== src/Kitties/Unsigned/Nonce.antt =====
-- What `validate_unsigned` and `validate_solution` accept, and how the nonce guards against a
-- replay.
use native.Mathlib.Nat.{pow-suc, mul-le-mul_left, le-div_iff_mul-le}
use substrate_kitties.Prelude.{
  ℕ, suc, ap, ◌+◌, ◌*◌, ◌/◌, ◌^◌, ◌≤◌, ◌<◌, ◌≡◌, ◌≢◌, ◌↔◌, ℕ_discrete, true, List, [], ◌∷◌, none,
  some, arith, length, All,
}
use substrate_kitties.Kitties.Config.{Config, HashIsLawful}
use substrate_kitties.Kitties.Unsigned.{u128_max, from_le_bytes, solution_hash, validate_solution}

-- The bytes of a hash make a 128-bit number.
from_le_bytes-lt :
    (bytes : List ℕ) → All (λ b. b < 256) bytes → from_le_bytes bytes < 256 ^ length bytes
from_le_bytes-lt [] h = omega arith
from_le_bytes-lt (b ∷ bytes) h =
    omega (arith, h.0, from_le_bytes-lt bytes h.1, pow-suc 256 (length bytes))

lt-div : (h d m : ℕ) → 0 < d → (h < m / d) ↔ ((h + 1) * d ≤ m)
lt-div h d m p =
    let e = le-div_iff_mul-le {k = d} {x = suc h} {y = m} p in
    ((λ l. omega (arith, e.0 l)), (λ l. e.1 (omega (arith, l))))

times-le : (a b d : ℕ) → a ≤ b → a * d ≤ b * d
times-le a b d l = omega (arith, mul-le-mul_left d l)

module _ (T : Config) where
  -- The check panics exactly at difficulty zero; it accepts exactly if the difficulty is above zero
  -- and the difficulty times one more than the hash is at most 2^128 - 1.
  pub validate_solution_iff :
      (k1 k2 nonce solution : ℕ)
      → ((validate_solution T k1 k2 nonce solution ≡ none) ↔ (T.default_difficulty ≡ 0))
        × ((validate_solution T k1 k2 nonce solution ≡ some true) ↔ (
            (0 < T.default_difficulty)
            × ((solution_hash T k1 k2 nonce solution + 1) * T.default_difficulty ≤ u128_max)))
  unfolding validate_solution
  validate_solution_iff k1 k2 nonce solution =
      let h = solution_hash T k1 k2 nonce solution in
      let d = T.default_difficulty in
      (
        ground arith,
        (
          (λ e. let p : 0 < d = ground arith in (p, (lt-div h d u128_max p).0 (ground arith))),
          (λ q. let l : h < u128_max / d = (lt-div h d u128_max q.0).1 q.1 in ground arith),
        ),
      )

  solution_hash-lt :
      HashIsLawful T → (k1 k2 nonce solution : ℕ) → solution_hash T k1 k2 nonce solution ≤ u128_max
  solution_hash-lt H k1 k2 nonce solution =
      let bytes = T.blake2_128 (T.encode_solution (k1, k2, nonce, solution)) in
      let d = H.blake2_128-IsDna (T.encode_solution (k1, k2, nonce, solution)) in
      omega (arith, from_le_bytes-lt bytes d.within, ap (λ n. 256 ^ n) d.sixteen)

  -- With a lawful hash, difficulty one accepts exactly the solutions whose hash is not the largest
  -- of 128 bits, a difficulty of more than half the largest accepts exactly those whose hash is
  -- zero, if it is at most the largest, and a difficulty above the largest accepts none.
  pub difficulty_range :
      HashIsLawful T
      → (k1 k2 nonce solution : ℕ)
      → (T.default_difficulty ≡ 1
          → (validate_solution T k1 k2 nonce solution ≡ some true)
            ↔ (solution_hash T k1 k2 nonce solution ≢ u128_max))
        × (u128_max < 2 * T.default_difficulty
            → T.default_difficulty ≤ u128_max
            → (validate_solution T k1 k2 nonce solution ≡ some true)
              ↔ (solution_hash T k1 k2 nonce solution ≡ 0))
        × (u128_max < T.default_difficulty → validate_solution T k1 k2 nonce solution ≢ some true)
  difficulty_range H k1 k2 nonce solution =
      let h = solution_hash T k1 k2 nonce solution in
      let d = T.default_difficulty in
      let small = solution_hash-lt H k1 k2 nonce solution in
      let good = (validate_solution_iff k1 k2 nonce solution).1 in
      (
        (λ one.
            let scaled = ap (λ n. (h + 1) * n) one in
            (
              (λ e largest. absurd (omega (arith, (good.0 e).1, scaled, largest))),
              (λ ne. elim (ℕ_discrete h u128_max) [
                | yes largest ↦ absurd (ne largest)
                | no _ ↦ good.1 (omega arith, omega (arith, scaled, small, one))
              ]),
            )),
        (λ most below. (
          (λ e. elim (ℕ_discrete h 0) [
            | yes z ↦ z
            | no p ↦
                absurd (omega (arith, most, (good.0 e).1, times-le 2 (h + 1) d (omega (arith, p))))
          ]),
          (λ z. good.1 (omega (arith, most), omega (arith, below, ap (λ n. (n + 1) * d) z))),
        )),
        (λ above e.
            absurd (omega (arith, above, (good.0 e).1, times-le 1 (h + 1) d (omega arith)))),
      )
