-- ===== src/Runtime/Submission.antt =====
-- The offchain worker's transactions in the runtime: from pallets/kitties/src/lib.rs through the
-- validation and the dispatch of runtime/src/lib.rs.
use substrate_kitties.Prelude.{ℕ, ◌+◌, ◌*◌, ◌^◌, ◌%◌, ◌<◌, ◌≡◌, refl, some, Bool, true, List, arith}
use substrate_kitties.Frame.{none_origin}
use substrate_kitties.Kitties.Types.{Call}
use substrate_kitties.Kitties.Calls
use substrate_kitties.Kitties.Unsigned.{
  u32_max, valid, invalid, bad_proof, accepted, ValidTransaction, validate_solution,
}
use substrate_kitties.Kitties.Unsigned as OfKitties
use substrate_kitties.Kitties.Config.{Config, Context, NftIsLawful}
use substrate_kitties.Kitties.Worker.Finds.{Found, offchain_worker_finds}
use substrate_kitties.Kitties.Worker.{max_iterations, Generator, GeneratorIsLawful, offchain_worker}
use substrate_kitties.Kitties.Chain.{Reach-IsTracked}
use substrate_kitties.Kitties.Replays.{never_replayed}
use substrate_kitties.Kitties.Submission.{counted, Delivers, submission_stands}
use substrate_kitties.Runtime.Pallets.{RuntimeCall, kitties_call, template_call, foreign_call}
use substrate_kitties.Runtime.Dispatch.{Others, Whole, answered, dispatch, validate_unsigned}
use substrate_kitties.Runtime.Chain.{Lives, Onward, arrived, Lives-Reach, Onward-Steps}

module _ {T : Config} (O : Others T) where
  open T use {AccountId}

  -- The storage in which the nonce of the kitties pallet is one higher, or 2^32 - 1 as before.
  abbrev pub with_counted : Whole T O → Whole T O
  with_counted u = record u { kitties = counted T u.kitties }

  module _ (L : NftIsLawful T.nft) where
    kitties_once :
        (c : Call AccountId) {s s' u : Whole T O} {v : ValidTransaction}
        → Lives O s
        → validate_unsigned T O (kitties_call c) s ≡ some (answered (valid v), s')
        → s.kitties.auto_breed_nonce < u32_max
        → Onward O s' u
        → validate_unsigned T O (kitties_call c) u ≡ some (answered (invalid bad_proof), u)
    unfolding validate_unsigned
    kitties_once c {s} {s'} {u} {v} l h low p =
        let step : OfKitties.validate_unsigned T c s.kitties ≡ some (valid v, s'.kitties) =
          ground arith in
        let refused = never_replayed T L c (Lives-Reach O l) step low (Onward-Steps O p) in
        ground arith

    -- With a lawful orml_nft, and where other pallets write, of the states of the two pallets of this
    -- repository, the balances alone (so the root does not set or kill their storage): a transaction
    -- without a signature that the runtime accepts in a storage that it can reach, with a nonce below
    -- 2^32 - 1, it refuses in every storage that it comes to afterwards, by any calls of the two
    -- pallets, any validations and any such steps of other pallets.
    pub accepted_once :
        (c : RuntimeCall AccountId O.Call) {s s' u : Whole T O} {v : ValidTransaction}
        → Lives O s
        → validate_unsigned T O c s ≡ some (answered (valid v), s')
        → s.kitties.auto_breed_nonce < u32_max
        → Onward O s' u
        → validate_unsigned T O c u ≡ some (answered (invalid bad_proof), u)
    unfolding validate_unsigned
    accepted_once (kitties_call c) l h low p = kitties_once c l h low p
    accepted_once (template_call c) l h low p = absurd (ground arith)
    accepted_once (foreign_call q c) l h low p = absurd (ground arith)

  module _ (L : NftIsLawful T.nft) (G : Generator) (R : GeneratorIsLawful G) where
    -- With a lawful orml_nft and generator, and where other pallets write, of the states of the two
    -- pallets of this repository, the balances alone (so the root does not set or kill their
    -- storage), in every storage that the runtime can reach: what the worker's hook submits there is
    -- accepted by the runtime in that storage and in every later one that has the same nonce, after
    -- any calls of the two pallets, any validations and any such steps of other pallets. Accepting
    -- it adds one to the nonce, which stays if it is 2^32 - 1, and changes no more. Carried out
    -- then, it gives the owner that the first parent has by that time a kitten of both parents, who
    -- differ in gender; or, when orml_nft does not mint that kitten, fails with orml_nft's error and
    -- changes nothing. It writes the kitties pallet's state alone.
    pub submission_lands :
        {s u : Whole T O}
        → Lives O s
        → (locked : Bool) (seed : List ℕ) {c : Call AccountId}
        → offchain_worker T G locked seed s.kitties ≡ some (some c)
        → Onward O s u
        → u.kitties.auto_breed_nonce ≡ s.kitties.auto_breed_nonce
        → (ctx : Context)
        → (validate_unsigned T O (kitties_call c) u
            ≡ some (answered (valid accepted), with_counted u))
          × Delivers T L ctx c (counted T u.kitties)
          × ((dispatch T O ctx (kitties_call c) none_origin (with_counted u)).1
              ≡ record u { kitties = (Calls.dispatch T ctx c none_origin (counted T u.kitties)).1 })
    unfolding validate_unsigned dispatch
    submission_lands {s} {u} l locked seed {c} h p same ctx =
        let tracked = Reach-IsTracked T L (Lives-Reach O l) in
        let (good, delivers) =
          submission_stands T L G R tracked locked seed h (Onward-Steps O p) same ctx in
        (ground arith, delivers, refl)

    -- With a lawful orml_nft and generator, a difficulty above zero and the lock taken: in a storage
    -- that the runtime can reach while other pallets write, of the states of the two pallets of this
    -- repository, the balances alone, with at least one kitty and fewer than 2^32, where the worker comes
    -- upon two kitties of different gender within its 500 iterations and one of the solutions that
    -- the iterations left over allow is valid, the hook submits a transaction, which the runtime
    -- accepts there and carries out: a kitten is born, unless orml_nft does not mint it.
    pub worker_breeds :
        {s : Whole T O}
        → Lives O s
        → (seed : List ℕ) (k1 k2 left j : ℕ) (rng : G.Rng) → 0 < T.default_difficulty
        → 0 < T.nft.next_token_id s.kitties.class_id s.kitties.nft
        → T.nft.next_token_id s.kitties.class_id s.kitties.nft < 2 ^ 32
        → Found T G s.kitties
            (T.nft.next_token_id s.kitties.class_id s.kitties.nft)
            max_iterations
            (G.from_seed seed)
            k1
            k2
            left
            rng
        → j < left
        → validate_solution T k1 k2 s.kitties.auto_breed_nonce
            ((G.next_u32 rng).0 * 2 ^ 32 % 2 ^ 128 + j)
          ≡ some true
        → (ctx : Context)
        → (c : Call AccountId) × (offchain_worker T G true seed s.kitties ≡ some (some c))
          × (validate_unsigned T O (kitties_call c) s
              ≡ some (answered (valid accepted), with_counted s))
          × Delivers T L ctx c (counted T s.kitties)
    worker_breeds {s} l seed k1 k2 left j rng hard one few found below good ctx =
        let (c, sent, _) =
          offchain_worker_finds T G R seed s.kitties k1 k2 left j rng hard one few found below
            good in
        let (accepts, delivers, _) = submission_lands l true seed sent arrived refl ctx in
        (c, sent, accepts, delivers)
