-- ===== src/Publication/Reuse.antt =====
-- include/everett/durability.h: which names and checkpoints a merge uses again, over a history.
use Prim.Native.String.{String}
use everett.Base.{
  ◌≡◌, ◌⊎◌, subst, inl, inr, true, false, List, [], ◌∷◌, Option, none, ok, Result-cases, arith,
}
use everett.Publication.Checkpoint.{MergeIdentity, MergeCheckpoint, contains}
use everett.Publication.{
  Publication, RecoveryEvidence, durable_state_verified, SelectorRecovery, old_root_selected,
  building, create, complete_checkpoint, complete_output, prepare_manifest, complete_manifest,
  report_io_failure, resume, accept_recovered_publication, release_old_pins,
}
use everett.Publication.Protocol.{
  Event, checkpointed, output_done, manifest_done, prepared, io_failed, resumed, recovered,
  released, call, run, Safe, Unique, contains-snoc, call-Safe, create-Safe, run-create-Safe,
  run-create-Fresh,
}
use everett.Publication.Log.{
  accepted, generations_of, manifests_of, last_checkpoint, last_generation, last_pending,
  run-create-Logged,
}
use everett.Publication.Recovery.{resume_lem}

-- The old manifest is not prepared.
call-Untried :
    (old : String) (p q : Publication) (e : Event)
    → Safe old p
    → contains p.manifests old ≡ false
    → call p e ≡ ok q
    → contains q.manifests old ≡ false
unfolding call
call-Untried old p q (checkpointed c r) s n h = unfold complete_checkpoint in ground arith
call-Untried old p q (output_done r) s n h = unfold complete_output in ground arith
call-Untried old p q (manifest_done r) s n h = unfold complete_manifest in ground arith
call-Untried old p q (prepared id) s n h =
    unfold prepare_manifest in ground (arith, contains-snoc p.manifests id old)
call-Untried old p q io_failed s n h = unfold report_io_failure in ground arith
call-Untried old p q (resumed g ev c sel) s n h = unfold resume in ground arith
call-Untried old p q (recovered ev) s n h = unfold accept_recovered_publication in ground arith
call-Untried old p q released s n h = unfold release_old_pins in ground arith

run-Untried :
    (old : String) (es : List Event) (p : Publication)
    → Safe old p
    → contains p.manifests old ≡ false
    → contains (run p es).manifests old ≡ false
unfolding run
run-Untried old [] p s n = n
run-Untried old (e ∷ es) p s n = elim (Result-cases (call p e)) [
  | inl (q, h) ↦
      rw (h, run) (run-Untried old es q (call-Safe old p q e s h) (call-Untried old p q e s n h))
  | inr (x, h) ↦ rw (h, run) (run-Untried old es p s n)
]

run-create-Untried :
    (identity : MergeIdentity) (old generation : String) (p : Publication) (es : List Event)
    → create identity old generation ≡ ok p
    → contains (run p es).manifests old ≡ false
unfolding create contains
run-create-Untried identity old generation p es h =
    run-Untried old es p (create-Safe identity old generation p h) (ground arith)

-- In every history from a publication that the constructor accepts, in the log of the calls that did
-- not throw: the first generation and those of the resumptions do not repeat, the old manifest and
-- those that were prepared do not repeat, and the current generation is that of the last resumption, or the
-- first one if there was none.
pub accepted-Unique :
    (identity : MergeIdentity) (old generation : String) (p : Publication) (es : List Event)
    → create identity old generation ≡ ok p
    → let log = accepted p es in
      Unique (generation ∷ generations_of log)
      × Unique (old ∷ manifests_of log)
      × ((run p es).generation ≡ last_generation generation log)
accepted-Unique identity old generation p es h =
    let (used, tried, _, current, _) = run-create-Logged identity old generation p es h in
    let fresh = run-create-Fresh identity old generation p es h in
    let old_untried = run-create-Untried identity old generation p es h in
    (
      subst Unique used fresh.generations_once,
      subst (λ xs. Unique (old ∷ xs)) tried (old_untried, fresh.manifests_once),
      current,
    )

-- From a publication that the constructor accepts, after any history, a resumption that is accepted:
-- it starts from the checkpoint that it was given, which is none or the last that was made durable
-- or resumed from in the log of the calls that did not throw; its generation is neither the first
-- one nor that of an earlier resumption; the durable manifest is the old one, none is pending, the
-- old pins are held and the output is being built; its evidence was verified, and if a manifest was
-- prepared since the last resumption, the old root was selected.
pub resume-run :
    (identity : MergeIdentity) (old generation g : String) (p q : Publication) (es : List Event)
    (ev : RecoveryEvidence) (retained : Option MergeCheckpoint) (selector : SelectorRecovery)
    → create identity old generation ≡ ok p
    → resume (run p es) g ev retained selector ≡ ok q
    → let log = accepted p es in
      (q.checkpoint ≡ retained)
      × ((retained ≡ none) ⊎ (retained ≡ last_checkpoint none log))
      × (q.generation ≡ g)
      × (contains (generation ∷ generations_of log) g ≡ false)
      × (q.durable_manifest ≡ old)
      × (q.pending_manifest ≡ "")
      × (q.old_pins_retained ≡ true)
      × (q.stage ≡ building)
      × (ev ≡ durable_state_verified)
      × ((last_pending "" log ≡ "") ⊎ (selector ≡ old_root_selected))
resume-run identity old generation g p q es ev retained selector h k =
    let l = run-create-Logged identity old generation p es h in
    ground (
      arith,
      resume_lem old (run p es) q g ev retained selector k
          (run-create-Safe identity old generation p es h),
      l,
    )
