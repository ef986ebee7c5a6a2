-- ===== src/Node/Service/Follows.antt =====
-- What the services of node/src/service.rs have started, read off their calls of the libraries, and
-- rules that follow a service through its calls.
use Prim.Native.String.{String}
use mathlib.Core.List.{IsPrefix, append_assoc, append-nil}
use substrate_kitties.Prelude.{
  ◌≡◌, refl, ◌∙◌, ap, sym, Bool, true, false, Option, none, some, List, [], ◌∷◌, ◌++◌,
}
use substrate_kitties.Node.Io.{Outcome, ok, err, continue, ◌>>=◌, pure, raise, lift}
use substrate_kitties.Node.Parts.{System}
use substrate_kitties.Node.Service.Calls.{Call, Library, Action, History, Answer, ask}

-- Something that a node starts.
pub data Mark : Type 0 where
  -- a task of this name; the Boolean says whether the node goes down with it
  spawned : Bool → String → Mark
  offchain_workers : Mark
  -- Aura; the Boolean says whether it is forced to author
  authoring : Bool → Mark
  -- the Grandpa voter; the Boolean says whether it is given a keystore
  voting : Bool → Mark
  observing : Mark
  network : Mark

abbrev pub is_some : {A : Type 0} → Option A → Bool
is_some none = false
is_some (some a) = true

-- A result of which nothing is said.
abbrev pub Any : {A : Type 0} → A → Type 0
Any a = Unit

module _ {S : System} where
  open S use {Error}

  abbrev pub mark : Call S → List Mark
  mark (Call.spawn manager essential name task) = spawned essential name ∷ []
  mark (Call.spawn_blocking manager essential name task) = spawned essential name ∷ []
  mark (Call.build_offchain_workers config manager client net) = offchain_workers ∷ []
  mark (Call.start_aura params) = authoring params.force_authoring ∷ []
  mark (Call.run_grandpa_voter params) = voting (is_some params.config.keystore) ∷ []
  mark (Call.run_grandpa_observer config link net) = observing ∷ []
  mark (Call.start_network starter) = network ∷ []
  mark (Call.telemetry_worker buffer) = []
  mark (Call.new_telemetry worker endpoints) = []
  mark (Call.new_full_parts config telemetry) = []
  mark (Call.new_light_parts config telemetry) = []
  mark (Call.new_full_pool options is_authority registry spawner client) = []
  mark (Call.new_light_pool options registry spawner client on_demand) = []
  mark (Call.block_import client select_chain telemetry) = []
  mark (Call.slot_duration client) = []
  mark (Call.import_queue params) = []
  mark (Call.set_remote_keystore container keystore) = []
  mark (Call.build_network params) = []
  mark (Call.spawn_tasks params) = []
  mark (Call.proposer_factory spawner client pool registry telemetry) = []

  -- All that has been started, oldest first.
  abbrev pub marks : History S → List Mark
  marks [] = []
  marks (c ∷ cs) = mark c ++ marks cs

  marks-append : (h g : History S) → marks (h ++ g) ≡ marks h ++ marks g
  marks-append [] g = refl
  marks-append (c ∷ h) g = rw (marks-append h g, append_assoc) refl

  -- After success the marks are those before and `ts`, and the result is as `R` says; after a
  -- failure they are those before and a first part of `cs`.
  abbrev pub Post :
      {A : Type 0}
      → (A → Type 0)
      → List Mark
      → List Mark
      → History S
      → Outcome Error A × History S
      → Type 0
  Post R cs ts h (ok a, h') = R a × (marks h' ≡ marks h ++ ts)
  Post R cs ts h (err e, h') = (ds : List Mark) × (marks h' ≡ marks h ++ ds) × IsPrefix ds cs

  pub record Bounded {A : Type 0} (R : A → Type 0) (cs ts : List Mark) (m : Action S A)
      : Type 0 where
    pub at : (h : History S) → Post R cs ts h (m h)

  abbrev pub Follows : {A : Type 0} → (A → Type 0) → List Mark → Action S A → Type 0
  Follows R ts m = Bounded R ts ts m

  shift :
      {A : Type 0} (R : A → Type 0) (us cs ts : List Mark) (h h' : History S)
      (x : Outcome Error A × History S)
      → marks h' ≡ marks h ++ us
      → Post R cs ts h' x
      → Post R (us ++ cs) (us ++ ts) h x
  shift R us cs ts h h' (ok a, h'') e p =
      (p.0, p.1 ∙ ap (λ l. l ++ ts) e ∙ append_assoc (marks h) us ts)
  shift R us cs ts h h' (err x, h'') e (ds, d, (rest, q)) = (
    us ++ ds,
    d ∙ ap (λ l. l ++ ds) e ∙ append_assoc (marks h) us ds,
    (rest, append_assoc us ds rest ∙ ap (λ l. us ++ l) q),
  )

  weaken :
      {A : Type 0} (R Q : A → Type 0) (cs ts : List Mark) (h : History S)
      (x : Outcome Error A × History S)
      → ((a : A) → Q a)
      → Post R cs ts h x
      → Post Q cs ts h x
  weaken R Q cs ts h (ok a, h') q p = (q a, p.1)
  weaken R Q cs ts h (err e, h') q p = p

  pub Bounded-result :
      {A : Type 0} (R Q : A → Type 0) (cs ts : List Mark) (m : Action S A)
      → ((a : A) → Q a)
      → Bounded R cs ts m
      → Bounded Q cs ts m
  Bounded-result R Q cs ts m q k = record { at = λ h. weaken R Q cs ts h (m h) q (k.at h) }

  pub Follows-pure : {A : Type 0} (R : A → Type 0) (a : A) → R a → Follows R [] (pure a)
  unfolding pure
  Follows-pure R a r = record { at = λ h. (r, sym (append-nil (marks h))) }

  pub Bounded-raise :
      {A : Type 0} (R : A → Type 0) (cs ts : List Mark) (e : Error)
      → Bounded R cs ts (raise {A = A} e)
  unfolding raise
  Bounded-raise R cs ts e = record { at = λ h. ([], sym (append-nil (marks h)), (cs, refl)) }

module _ {S : System} {A B : Type 0} (f : A → Action S B) (R : B → Type 0) {cs : List Mark}
    (ts : List Mark) where
  continue-Post :
      (Q : A → Type 0) (us : List Mark) (h h' : History S) (r : Outcome S.Error A)
      → Post Q us us h (r, h')
      → ((a : A) → Q a → Bounded R cs ts (f a))
      → Post R (us ++ cs) (us ++ ts) h (continue r f h')
  continue-Post Q us h h' (ok a) p k = shift R us cs ts h h' (f a h') p.1 ((k a p.0).at h')
  continue-Post Q us h h' (err e) (ds, d, (rest, q)) k =
      (ds, d, (rest ++ cs, sym (append_assoc ds rest cs) ∙ ap (λ l. l ++ cs) q))

  pub Bounded-bind :
      (Q : A → Type 0) (us : List Mark) (m : Action S A)
      → Follows Q us m
      → ((a : A) → Q a → Bounded R cs ts (f a))
      → Bounded R (us ++ cs) (us ++ ts) (m >>= f)
  unfolding ◌>>=◌
  Bounded-bind Q us m km k = record {
    at = λ h. let (r, h') = m h in continue-Post Q us h h' r (km.at h) k;
  }

  pub Bounded-lift :
      (r : Outcome S.Error A) → ((a : A) → Bounded R cs ts (f a)) → Bounded R cs ts (lift r >>= f)
  unfolding ◌>>=◌ lift raise
  Bounded-lift (ok a) k = k a
  Bounded-lift (err e) k = Bounded-raise R cs ts e

module _ {S : System} (L : Library S) where
  pub Follows-ask : (c : Call S) → Follows Any (mark c) (ask S L c)
  unfolding ask
  Follows-ask c = record { at = λ h. (tt, rw (marks-append h (c ∷ []), append-nil (mark c)) refl) }

  -- The last call, which nothing can stop.
  pub Bounded-last :
      {B : Type 0} (R : B → Type 0) (c : Call S) (b : B)
      → R b
      → Bounded R [] (mark c) (ask S L c >>= λ _. pure b)
  unfolding ask ◌>>=◌ pure
  Bounded-last R c b r = record {
    at = λ h. (r, rw (marks-append h (c ∷ []), append-nil (mark c)) refl);
  }

module _ {S : System} (L : Library S) {B : Type 0} (R : B → Type 0) {cs : List Mark}
    (ts : List Mark) where
  pub Bounded-ask :
      (c : Call S) (f : Answer S c → Action S B)
      → ((a : Answer S c) → Bounded R cs ts (f a))
      → Bounded R (mark c ++ cs) (mark c ++ ts) (ask S L c >>= f)
  Bounded-ask c f k = Bounded-bind f R ts Any (mark c) (ask S L c) (Follows-ask L c) (λ a _. k a)
