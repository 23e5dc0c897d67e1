-- ===== src/Publication/Protocol.antt =====
-- include/everett/durability.h: every history of a publication, refused calls included.
use Prim.Native.String.{String}
use text.Mathlib.Text.{◌==◌ as str_eq}
use text.Mathlib.TextEquality.{eq_iff}
use everett.Base.{
  ◌≡◌, ◌≢◌, ◌⊎◌, inl, inr, refl, Bool, true, false, List, [], ◌∷◌, ◌++◌, Option, Result, raise, ok,
  logic_error, Result-cases, arith,
}
use everett.Publication.Checkpoint.{MergeIdentity, MergeCheckpoint, contains}
use everett.Publication.{
  PersistenceResult, RecoveryEvidence, SelectorRecovery, Stage, building, output_durable,
  manifest_pending, uncertain, published, Publication, create, complete_checkpoint, complete_output,
  prepare_manifest, complete_manifest, report_io_failure, resume, accept_recovered_publication,
  release_old_pins,
}

-- A call of a method, with what the backend reports.
pub data Event : Type 0 where
  checkpointed : MergeCheckpoint → PersistenceResult → Event
  output_done manifest_done : PersistenceResult → Event
  prepared : String → Event
  io_failed : Event
  resumed : String → RecoveryEvidence → Option MergeCheckpoint → SelectorRecovery → Event
  recovered : RecoveryEvidence → Event
  released : Event

abbrev first_of_pair : Result (Publication × Bool) → Result Publication
first_of_pair (ok (p, b)) = ok p
first_of_pair (raise e) = raise e

unfoldable pub call : Publication → Event → Result Publication
call p (checkpointed c r) = complete_checkpoint p c r
call p (output_done r) = complete_output p r
call p (manifest_done r) = complete_manifest p r
call p (prepared id) = prepare_manifest p id
call p io_failed = report_io_failure p
call p (resumed g ev c sel) = resume p g ev c sel
call p (recovered ev) = accept_recovered_publication p ev
call p released = first_of_pair (release_old_pins p)

-- A call that throws leaves the state.
abbrev pub after : Publication → Result Publication → Publication
after p (ok q) = q
after p (raise e) = p

unfoldable pub run : Publication → List Event → Publication
run p [] = p
run p (e ∷ es) = run (after p (call p e)) es

-- What holds at each stage of a merge that began with the root `old`.
abbrev pub SafeAt : String → Stage → String → String → Bool → Type 0
SafeAt old building durable pending pins = (durable ≡ old) × (pending ≡ "") × (pins ≡ true)
SafeAt old output_durable durable pending pins = (durable ≡ old) × (pending ≡ "") × (pins ≡ true)
SafeAt old manifest_pending durable pending pins =
    (durable ≡ old) × (pending ≢ "") × (pending ≢ old) × (pins ≡ true)
SafeAt old uncertain durable pending pins =
    (durable ≡ old) × ((pending ≡ "") ⊎ (pending ≢ old)) × (pins ≡ true)
SafeAt old published durable pending pins = (durable ≡ pending) × (pending ≢ "") × (pending ≢ old)

abbrev pub Safe : String → Publication → Type 0
Safe old p = SafeAt old p.stage p.durable_manifest p.pending_manifest p.old_pins_retained

pub create-Safe :
    (identity : MergeIdentity) (old generation : String) (p : Publication)
    → create identity old generation ≡ ok p
    → Safe old p
unfolding create
create-Safe identity old generation p e = ground arith

pub call-Safe :
    (old : String) (p q : Publication) (e : Event) → Safe old p → call p e ≡ ok q → Safe old q
unfolding call
call-Safe old p q (checkpointed c r) s h = unfold complete_checkpoint in ground arith
call-Safe old p q (output_done r) s h = unfold complete_output in ground arith
call-Safe old p q (manifest_done r) s h = unfold complete_manifest in ground arith
call-Safe old p q (prepared id) s h =
    unfold prepare_manifest in ground (arith, eq_iff id "", eq_iff id p.durable_manifest)
call-Safe old p q io_failed s h = unfold report_io_failure in ground arith
call-Safe old p q (resumed g ev c sel) s h = unfold resume in ground arith
call-Safe old p q (recovered ev) s h =
    unfold accept_recovered_publication in ground (arith, eq_iff p.pending_manifest "")
call-Safe old p q released s h = unfold release_old_pins in ground arith

after-Safe :
    (old : String) (p : Publication) (e : Event) → Safe old p → Safe old (after p (call p e))
after-Safe old p e s = elim (Result-cases (call p e)) [
  | inl (q, h) ↦ rw h (call-Safe old p q e s h)
  | inr (x, h) ↦ rw h s
]

run-Safe : (old : String) (es : List Event) (p : Publication) → Safe old p → Safe old (run p es)
unfolding run
run-Safe old [] p s = s
run-Safe old (e ∷ es) p s = run-Safe old es (after p (call p e)) (after-Safe old p e s)

-- From a publication that the constructor accepts, whatever calls are made, in whatever order, and
-- whatever the backend reports: until the merge is
-- published its durable manifest is the old one and the old pins are held; a manifest is pending at
-- `manifest_pending`, none before the output is durable; and a published merge has a durable
-- manifest that was pending, is named, and is not the old one.
pub run-create-Safe :
    (identity : MergeIdentity) (old generation : String) (p : Publication) (es : List Event)
    → create identity old generation ≡ ok p
    → Safe old (run p es)
run-create-Safe identity old generation p es e =
    run-Safe old es p (create-Safe identity old generation p e)

-- A published merge refuses every call but the release of its old pins, which changes nothing else.
pub call_published :
    (p : Publication) (e : Event)
    → p.stage ≡ published
    → (call p e ≡ raise logic_error)
      ⊎ ((e ≡ released) × (call p e ≡ ok (record p { old_pins_retained = false })))
unfolding call
call_published p (checkpointed c r) h = unfold complete_checkpoint in ground arith
call_published p (output_done r) h = unfold complete_output in ground arith
call_published p (manifest_done r) h = unfold complete_manifest in ground arith
call_published p (prepared id) h = unfold prepare_manifest in ground arith
call_published p io_failed h = unfold report_io_failure in ground arith
call_published p (resumed g ev c sel) h = unfold resume in ground arith
call_published p (recovered ev) h = unfold accept_recovered_publication in ground arith
call_published p released h = unfold release_old_pins in ground arith

-- The names that a run has used do not repeat.
abbrev pub Unique : List String → Type 0
Unique [] = Unit {0}
Unique (x ∷ xs) = (contains xs x ≡ false) × Unique xs

pub contains-snoc :
    (xs : List String) (x s : String)
    → contains xs s ≡ false
    → str_eq x s ≡ false
    → contains (xs ++ (x ∷ [])) s ≡ false
unfolding contains
contains-snoc [] x s h n = ground arith
contains-snoc (y ∷ ys) x s h n = ground (arith, contains-snoc ys x s)

snoc-Unique :
    (xs : List String) (x : String) → Unique xs → contains xs x ≡ false → Unique (xs ++ (x ∷ []))
unfolding contains
snoc-Unique [] x u h = (refl, tt)
snoc-Unique (y ∷ ys) x u h =
    ground (arith, snoc-Unique ys x u.1, contains-snoc ys x y, eq_iff x y, eq_iff y x)

contains-snoc_self : (xs : List String) (x : String) → contains (xs ++ (x ∷ [])) x ≡ true
unfolding contains
contains-snoc_self [] x = ground (arith, eq_iff x x)
contains-snoc_self (y ∷ ys) x = ground (arith, contains-snoc_self ys x)

pub record Fresh (p : Publication) : Type 0 where
  pub generations_once : Unique p.generations
  pub manifests_once : Unique p.manifests
  pub current : contains p.generations p.generation ≡ true

call-Fresh : (p q : Publication) (e : Event) → Fresh p → call p e ≡ ok q → Fresh q
unfolding call
call-Fresh p q (checkpointed c r) s h = unfold complete_checkpoint in ground arith
call-Fresh p q (output_done r) s h = unfold complete_output in ground arith
call-Fresh p q (manifest_done r) s h = unfold complete_manifest in ground arith
call-Fresh p q (prepared id) s h =
    unfold prepare_manifest in ground (arith, snoc-Unique p.manifests id s.manifests_once)
call-Fresh p q io_failed s h = unfold report_io_failure in ground arith
call-Fresh p q (resumed g ev c sel) s h =
    unfold resume in
    ground
      (arith, snoc-Unique p.generations g s.generations_once, contains-snoc_self p.generations g)
call-Fresh p q (recovered ev) s h = unfold accept_recovered_publication in ground arith
call-Fresh p q released s h = unfold release_old_pins in ground arith

run-Fresh : (es : List Event) (p : Publication) → Fresh p → Fresh (run p es)
unfolding run
run-Fresh [] p s = s
run-Fresh (e ∷ es) p s = elim (Result-cases (call p e)) [
  | inl (q, h) ↦ rw h (run-Fresh es q (call-Fresh p q e s h))
  | inr (x, h) ↦ rw h (run-Fresh es p s)
]

create-Fresh :
    (identity : MergeIdentity) (old generation : String) (p : Publication)
    → create identity old generation ≡ ok p
    → Fresh p
unfolding create contains
create-Fresh identity old generation p e = ground (arith, eq_iff generation generation)

pub run-create-Fresh :
    (identity : MergeIdentity) (old generation : String) (p : Publication) (es : List Event)
    → create identity old generation ≡ ok p
    → Fresh (run p es)
run-create-Fresh identity old generation p es e =
    run-Fresh es p (create-Fresh identity old generation p e)
