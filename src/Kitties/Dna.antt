-- ===== src/Kitties/Dna.antt =====
-- The DNA of a kitten: `combine_dna` and the loop of `do_breed` in pallets/kitties/src/lib.rs.
use Prim.Native.Nat.{bit_and}
use substrate_kitties.Prelude.{
  ℕ, zero, suc, ◌+◌, ◌-◌, ◌≤◌, ◌<◌, ◌≡◌, refl, ◌∙◌, ◌==◌, if◌then◌else◌, List, arith, get_or, set,
  replicate, length, All, length-set, get_or-set_self, get_or-set_ne, All-set, All-get_or,
  ℕ_discrete,
}
use substrate_kitties.Prelude.Bits.{
  bit, bit-bit_and, bit-bit_or, bit-lt-two, bit-complement, bit-ext, bit_and-le, bit_or-le,
}
use substrate_kitties.Kitties.Types.{Kitty, IsDna, gender}
use substrate_kitties.Kitties.Calls.{combine_dna, combine_from, new_dna}

-- For a selector that is a byte, each of the eight bits of the result is the bit of one of the two
-- bytes at the same place: that of the first where the selector has a 0, that of the second where
-- it has a 1.
pub bit-combine_dna :
    (i dna1 dna2 selector : ℕ)
    → i < 8
    → selector < 256
    → bit i (combine_dna dna1 dna2 selector)
      ≡ (if bit i selector == 0 then bit i dna1 else bit i dna2)
unfolding combine_dna
bit-combine_dna i dna1 dna2 selector l h =
    rw
      (
        bit-bit_or,
        bit-bit_and i (255 - selector) dna1,
        bit-bit_and i selector dna2,
        bit-complement 8 i selector l (omega arith),
      )
      (ground (arith, bit-lt-two i selector, bit-lt-two i dna1, bit-lt-two i dna2))

pub combine_dna-lt :
    (dna1 dna2 selector : ℕ) → selector < 256 → combine_dna dna1 dna2 selector < 256
unfolding combine_dna
combine_dna-lt dna1 dna2 selector h = omega (
  arith,
  bit_or-le 8 (bit_and (255 - selector) dna1) (bit_and selector dna2)
      (omega (arith, bit_and-le (255 - selector) dna1)) (omega (arith, bit_and-le selector dna2)),
)

-- For bytes, parents with the same byte pass it on, and swapping the parents together with
-- complementing the selector changes nothing.
pub combine_dna_laws :
    (dna1 dna2 selector : ℕ)
    → dna1 < 256
    → selector < 256
    → (combine_dna dna1 dna1 selector ≡ dna1)
      × (combine_dna dna2 dna1 (255 - selector) ≡ combine_dna dna1 dna2 selector)
combine_dna_laws dna1 dna2 selector h1 hs = (
  bit-ext 8 _ _ (omega (arith, combine_dna-lt dna1 dna1 selector hs)) (omega arith)
      (λ i l. ground (arith, bit-combine_dna i dna1 dna1 selector l hs)),
  bit-ext 8 _ _ (omega (arith, combine_dna-lt dna2 dna1 (255 - selector) (omega arith)))
      (omega (arith, combine_dna-lt dna1 dna2 selector hs))
      (λ i l. ground (
        arith,
        bit-combine_dna i dna2 dna1 (255 - selector) l (omega arith),
        bit-combine_dna i dna1 dna2 selector l hs,
        bit-complement 8 i selector l (omega arith),
        bit-lt-two i selector,
      )),
)

module _ (dna1 dna2 selector : List ℕ) where
  abbrev mixed : ℕ → ℕ
  mixed i = combine_dna (get_or dna1 i 0) (get_or dna2 i 0) (get_or selector i 0)

  -- The loop leaves what lies below its index.
  combine_from_below :
      (rounds i : ℕ) (out : List ℕ) (j : ℕ)
      → j < i
      → get_or (combine_from rounds i dna1 dna2 selector out) j 0 ≡ get_or out j 0
  unfolding combine_from
  combine_from_below zero i out j h = refl
  combine_from_below (suc r) i out j h =
      combine_from_below r (suc i) (set out i (mixed i)) j (omega arith)
      ∙ get_or-set_ne out i j (mixed i) 0 (omega arith)

  combine_from_at :
      (rounds i : ℕ) (out : List ℕ) (j : ℕ)
      → i ≤ j
      → j < i + rounds
      → j < length out
      → get_or (combine_from rounds i dna1 dna2 selector out) j 0 ≡ mixed j
  unfolding combine_from
  combine_from_at zero i out j p q l = absurd (omega arith)
  combine_from_at (suc r) i out j p q l = elim (ℕ_discrete i j) [
    | yes e ↦
        combine_from_below r (suc i) (set out i (mixed i)) j (omega arith)
        ∙ rw e (get_or-set_self out j (mixed j) 0 l)
    | no d ↦
        combine_from_at r (suc i) (set out i (mixed i)) j (omega arith) (omega arith)
          (rw length-set l)
  ]

  length-combine_from :
      (rounds i : ℕ) (out : List ℕ)
      → length (combine_from rounds i dna1 dna2 selector out) ≡ length out
  unfolding combine_from
  length-combine_from zero i out = refl
  length-combine_from (suc r) i out =
      length-combine_from r (suc i) (set out i (mixed i)) ∙ length-set out i (mixed i)

  combine_from-All :
      (rounds i : ℕ) (out : List ℕ)
      → All (λ b. b < 256) selector
      → All (λ b. b < 256) out
      → All (λ b. b < 256) (combine_from rounds i dna1 dna2 selector out)
  unfolding combine_from
  combine_from-All zero i out hs ho = ho
  combine_from-All (suc r) i out hs ho = combine_from-All r (suc i) (set out i (mixed i)) hs (
      All-set (λ b. b < 256) out i (mixed i) ho
        (combine_dna-lt _ _ _ (All-get_or (λ b. b < 256) selector i 0 hs (omega arith))))

  -- From sixteen bytes of DNA and of selector, a kitten's DNA is sixteen bytes, each combined from
  -- the parents' bytes at its place.
  pub new_dna_lem :
      IsDna dna1
      → IsDna selector
      → IsDna (new_dna dna1 dna2 selector)
        × ((i : ℕ) → i < 16 → get_or (new_dna dna1 dna2 selector) i 0 ≡ mixed i)
  unfolding new_dna
  new_dna_lem h1 hs = (
    record {
      sixteen = length-combine_from (length dna1) 0 (replicate 16 0);
      within = combine_from-All (length dna1) 0 (replicate 16 0) hs.within (omega arith);
    },
    λ i l.
        combine_from_at (length dna1) 0 (replicate 16 0) i (omega arith) (omega (arith, h1.sixteen))
          (omega arith),
  )

-- The kitten has the gender of the first parent if the lowest bit of the selector's first byte is
-- 0, and that of the second if it is 1; the first parent's DNA and the selector are sixteen bytes.
pub gender-new_dna :
    (kitty1 kitty2 : Kitty) (selector : List ℕ)
    → IsDna kitty1.dna
    → IsDna selector
    → gender (record { dna = new_dna kitty1.dna kitty2.dna selector })
      ≡ (if bit 0 (get_or selector 0 0) == 0 then gender kitty1 else gender kitty2)
unfolding gender
gender-new_dna kitty1 kitty2 selector h1 hs = ground (
  arith,
  (new_dna_lem kitty1.dna kitty2.dna selector h1 hs).1 0 (omega arith),
  bit-combine_dna 0 (get_or kitty1.dna 0 0) (get_or kitty2.dna 0 0) (get_or selector 0 0)
      (omega arith) (All-get_or (λ b. b < 256) selector 0 0 hs.within (omega arith)),
)
