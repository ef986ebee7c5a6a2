-- ===== src/Runtime/Validation.antt =====
-- The runtime's validation of unsigned transactions.
use substrate_kitties.Prelude.{ℕ, ◌≡◌, refl, sym, true, Option-cases, some, inl, inr, arith}
use substrate_kitties.Kitties.Types
use substrate_kitties.Kitties.Unsigned
use substrate_kitties.Kitties.Config.{Config}
use substrate_kitties.Runtime.Pallets.{
  validates, RuntimeCall, template_call, kitties_call, foreign_call, pallet_of,
}
use substrate_kitties.Runtime.Dispatch.{Others, Whole, answered, validate_unsigned}

module _ {T : Config} (O : Others T) where
  open T use {AccountId}

  -- A transaction that the runtime has accepted without a signature.
  pub record Accepted (c : RuntimeCall AccountId O.Call) (s s' : Whole T O) : Type 0 where
    pub k1 : ℕ
    pub k2 : ℕ
    pub solution : ℕ
    pub is_call : c ≡ kitties_call (Types.Call.auto_breed k1 k2 s.kitties.auto_breed_nonce solution)
    pub solved : Unsigned.validate_solution T k1 k2 s.kitties.auto_breed_nonce solution ≡ some true
    pub leaves : s' ≡ record s {
      kitties = record s.kitties {
        auto_breed_nonce = Unsigned.saturating_suc s.kitties.auto_breed_nonce;
      };
    }

  kitties_call-Accepted :
      (c : Types.Call AccountId) (s s' : Whole T O) {v : Unsigned.ValidTransaction}
      → validate_unsigned T O (kitties_call c) s ≡ some (answered (Unsigned.valid v), s')
      → Accepted (kitties_call c) s s'
  unfolding validate_unsigned Unsigned.validate_unsigned
  kitties_call-Accepted Types.Call.create s s' h = absurd (ground arith)
  kitties_call-Accepted (Types.Call.breed k1 k2) s s' h = absurd (ground arith)
  kitties_call-Accepted (Types.Call.transfer to k) s s' h = absurd (ground arith)
  kitties_call-Accepted (Types.Call.set_price k price) s s' h = absurd (ground arith)
  kitties_call-Accepted (Types.Call.buy owner k max_price) s s' h = absurd (ground arith)
  kitties_call-Accepted (Types.Call.auto_breed k1 k2 nonce solution) s s' h =
      elim (Option-cases (Unsigned.validate_solution T k1 k2 nonce solution)) [
        | inl panics ↦ absurd (ground arith)
        | inr (b, e) ↦
            let good : b ≡ true = ground arith in
            let same : nonce ≡ s.kitties.auto_breed_nonce = ground arith in
            record {
              k1 = k1;
              k2 = k2;
              solution = solution;
              is_call = rw same refl;
              solved = rw (sym same) (ground arith);
              leaves = ground arith;
            }
      ]

  -- A transaction without a signature is accepted only if its pallet is listed with
  -- `ValidateUnsigned` in `construct_runtime!` and it is an `auto_breed` with the current nonce and a
  -- valid solution; accepting it changes nothing but that nonce.
  pub validate_unsigned-Accepted :
      (c : RuntimeCall AccountId O.Call) (s s' : Whole T O) {v : Unsigned.ValidTransaction}
      → validate_unsigned T O c s ≡ some (answered (Unsigned.valid v), s')
      → (validates (pallet_of c) ≡ true) × Accepted c s s'
  unfolding validate_unsigned
  validate_unsigned-Accepted (template_call c) s s' h = absurd (ground arith)
  validate_unsigned-Accepted (kitties_call c) s s' h = (refl, kitties_call-Accepted c s s' h)
  validate_unsigned-Accepted (foreign_call p c) s s' h = absurd (ground arith)
