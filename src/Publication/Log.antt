-- ===== src/Publication/Log.antt =====
-- include/everett/durability.h: a publication against the log of the calls that it accepted.
use Prim.Native.String.{String}
use everett.Base.{
  ◌≡◌, refl, ap, sym, ◌∙◌, inl, inr, List, [], ◌∷◌, ◌++◌, Option, none, some, Result, raise, ok,
  Result-cases, append_assoc, append-nil, arith,
}
use everett.Publication.Checkpoint.{MergeIdentity, MergeCheckpoint}
use everett.Publication.{
  Publication, durable_verified, failure, create, complete_checkpoint, complete_output,
  prepare_manifest, complete_manifest, report_io_failure, resume, accept_recovered_publication,
  release_old_pins,
}
use everett.Publication.Protocol.{
  Event, checkpointed, output_done, manifest_done, prepared, io_failed, resumed, recovered,
  released, call, run, after,
}

-- The calls of a history that do not throw.
abbrev noted : Event → Result Publication → List Event → List Event
noted e (ok q) log = e ∷ log
noted e (raise x) log = log

unfoldable pub accepted : Publication → List Event → List Event
accepted p [] = []
accepted p (e ∷ es) = noted e (call p e) (accepted (after p (call p e)) es)

-- What the log says: the generations of its resumptions, the manifests that it prepared, the
-- checkpoint that was last made durable or resumed from, the generation of the last resumption, and
-- the manifest that was last prepared, if no resumption followed.
abbrev generation_in : Event → List String
generation_in (resumed g ev c sel) = g ∷ []
generation_in _ = []

abbrev manifest_in : Event → List String
manifest_in (prepared id) = id ∷ []
manifest_in _ = []

abbrev checkpoint_by : Event → Option MergeCheckpoint → Option MergeCheckpoint
checkpoint_by (checkpointed d durable_verified) c = some d
checkpoint_by (resumed g ev d sel) c = d
checkpoint_by _ c = c

abbrev generation_by : Event → String → String
generation_by (resumed g ev c sel) s = g
generation_by _ s = s

abbrev pending_by : Event → String → String
pending_by (prepared id) s = id
pending_by (resumed g ev c sel) s = ""
pending_by _ s = s

unfoldable pub generations_of : List Event → List String
generations_of [] = []
generations_of (e ∷ log) = generation_in e ++ generations_of log

unfoldable pub manifests_of : List Event → List String
manifests_of [] = []
manifests_of (e ∷ log) = manifest_in e ++ manifests_of log

unfoldable pub last_checkpoint : Option MergeCheckpoint → List Event → Option MergeCheckpoint
last_checkpoint c [] = c
last_checkpoint c (e ∷ log) = last_checkpoint (checkpoint_by e c) log

unfoldable pub last_generation : String → List Event → String
last_generation s [] = s
last_generation s (e ∷ log) = last_generation (generation_by e s) log

unfoldable pub last_pending : String → List Event → String
last_pending s [] = s
last_pending s (e ∷ log) = last_pending (pending_by e s) log

-- One call that does not throw does what its entry says.
record Done (p : Publication) (e : Event) (q : Publication) : Type 0 where
  generations : q.generations ≡ p.generations ++ generation_in e
  manifests : q.manifests ≡ p.manifests ++ manifest_in e
  checkpoint : q.checkpoint ≡ checkpoint_by e p.checkpoint
  generation : q.generation ≡ generation_by e p.generation
  pending : q.pending_manifest ≡ pending_by e p.pending_manifest

call-Done : (p q : Publication) (e : Event) → call p e ≡ ok q → Done p e q
unfolding call
call-Done p q (checkpointed c durable_verified) h =
    unfold complete_checkpoint in ground (arith, append-nil p.generations, append-nil p.manifests)
call-Done p q (checkpointed c failure) h =
    unfold complete_checkpoint in ground (arith, append-nil p.generations, append-nil p.manifests)
call-Done p q (output_done r) h =
    unfold complete_output in ground (arith, append-nil p.generations, append-nil p.manifests)
call-Done p q (manifest_done r) h =
    unfold complete_manifest in ground (arith, append-nil p.generations, append-nil p.manifests)
call-Done p q (prepared id) h = unfold prepare_manifest in ground (arith, append-nil p.generations)
call-Done p q io_failed h =
    unfold report_io_failure in ground (arith, append-nil p.generations, append-nil p.manifests)
call-Done p q (resumed g ev c sel) h = unfold resume in ground (arith, append-nil p.manifests)
call-Done p q (recovered ev) h =
    unfold accept_recovered_publication in
    ground (arith, append-nil p.generations, append-nil p.manifests)
call-Done p q released h =
    unfold release_old_pins in ground (arith, append-nil p.generations, append-nil p.manifests)

record Logged (p : Publication) (log : List Event) (q : Publication) : Type 0 where
  generations : q.generations ≡ p.generations ++ generations_of log
  manifests : q.manifests ≡ p.manifests ++ manifests_of log
  checkpoint : q.checkpoint ≡ last_checkpoint p.checkpoint log
  generation : q.generation ≡ last_generation p.generation log
  pending : q.pending_manifest ≡ last_pending p.pending_manifest log

Done-Logged :
    (p q r : Publication) (e : Event) (log : List Event)
    → Done p e q
    → Logged q log r
    → Logged p (e ∷ log) r
unfolding generations_of manifests_of last_checkpoint last_generation last_pending
Done-Logged p q r e log d l = record {
  generations =
      l.generations
      ∙ (ap (λ xs. xs ++ generations_of log) d.generations
          ∙ append_assoc p.generations (generation_in e) (generations_of log));
  manifests =
      l.manifests
      ∙ (ap (λ xs. xs ++ manifests_of log) d.manifests
          ∙ append_assoc p.manifests (manifest_in e) (manifests_of log));
  checkpoint = l.checkpoint ∙ ap (λ c. last_checkpoint c log) d.checkpoint;
  generation = l.generation ∙ ap (λ s. last_generation s log) d.generation;
  pending = l.pending ∙ ap (λ s. last_pending s log) d.pending;
}

run-Logged : (es : List Event) (p : Publication) → Logged p (accepted p es) (run p es)
unfolding run accepted generations_of manifests_of last_checkpoint last_generation last_pending
run-Logged [] p = record {
  generations = sym (append-nil p.generations);
  manifests = sym (append-nil p.manifests);
  checkpoint = refl;
  generation = refl;
  pending = refl;
}
run-Logged (e ∷ es) p = elim (Result-cases (call p e)) [
  | inl (q, h) ↦
      rw (h, run, accepted)
        (Done-Logged p q (run q es) e (accepted q es) (call-Done p q e h) (run-Logged es q))
  | inr (x, h) ↦ rw (h, run, accepted) (run-Logged es p)
]

create-Logged :
    (identity : MergeIdentity) (old generation : String) (p : Publication) (log : List Event)
    (q : Publication)
    → create identity old generation ≡ ok p
    → Logged p log q
    → (q.generations ≡ generation ∷ generations_of log)
      × (q.manifests ≡ manifests_of log)
      × (q.checkpoint ≡ last_checkpoint none log)
      × (q.generation ≡ last_generation generation log)
      × (q.pending_manifest ≡ last_pending "" log)
unfolding create
create-Logged identity old generation p log q h l =
    ground (arith, l.generations, l.manifests, l.checkpoint, l.generation, l.pending)

pub run-create-Logged :
    (identity : MergeIdentity) (old generation : String) (p : Publication) (es : List Event)
    → create identity old generation ≡ ok p
    → let q = run p es in
      let log = accepted p es in
      (q.generations ≡ generation ∷ generations_of log)
      × (q.manifests ≡ manifests_of log)
      × (q.checkpoint ≡ last_checkpoint none log)
      × (q.generation ≡ last_generation generation log)
      × (q.pending_manifest ≡ last_pending "" log)
run-create-Logged identity old generation p es h =
    create-Logged identity old generation p (accepted p es) (run p es) h (run-Logged es p)
