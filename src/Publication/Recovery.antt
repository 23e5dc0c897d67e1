-- ===== src/Publication/Recovery.antt =====
-- include/everett/durability.h: what a checkpoint that was accepted holds, and what a resumption
-- starts from.
use Prim.Native.String.{String}
use text.Mathlib.TextEquality.{eq_iff}
use everett.Base.{
  ℕ, ◌+◌, ◌^◌, ◌≤◌, ◌<◌, ◌≡◌, ◌≢◌, ◌⊎◌, inl, inr, refl, subst, sym, ◌∙◌, true, false, List, [], ◌∷◌,
  map, Option, none, some, raise, ok, overflow_error, ltb, if◌then◌else◌, Result-cases, arith,
}
use everett.Publication.Checkpoint.{
  MergeIdentity, MergeCheckpoint, MergeInputCursor, SealedMergeExtent, contains,
  validate_checkpoint, sum_bytes, sealed_bytes, same_versions, advances, cursors_advance,
}
use everett.Publication.{
  RecoveryEvidence, durable_state_verified, SelectorRecovery, old_root_selected, Publication,
  recognized, building, complete_checkpoint, complete_output, prepare_manifest, complete_manifest,
  report_io_failure, resume, accept_recovered_publication, release_old_pins,
}
use everett.Publication.Protocol.{
  Event, checkpointed, output_done, manifest_done, prepared, io_failed, resumed, recovered,
  released, call, run, Safe,
}
use everett.Publication.Equality.{str_eq_sound, identity_eq_sound, checkpoint_eq_sound}

recognized_sound :
    (retained last : Option MergeCheckpoint)
    → recognized retained last ≡ true
    → (retained ≡ none) ⊎ (retained ≡ last)
recognized_sound none last h = inl refl
recognized_sound (some c) none h = cc
recognized_sound (some c) (some d) h = inr (ground (arith, checkpoint_eq_sound c d))

-- What a resumption that is accepted has checked, and what it sets.
pub resume_lem :
    (old : String) (p q : Publication) (g : String) (ev : RecoveryEvidence)
    (retained : Option MergeCheckpoint) (selector : SelectorRecovery)
    → resume p g ev retained selector ≡ ok q
    → Safe old p
    → (q.checkpoint ≡ retained)
      × ((retained ≡ none) ⊎ (retained ≡ p.checkpoint))
      × (q.generation ≡ g)
      × (contains p.generations g ≡ false)
      × (q.durable_manifest ≡ old)
      × (q.pending_manifest ≡ "")
      × (q.old_pins_retained ≡ true)
      × (q.stage ≡ building)
      × (ev ≡ durable_state_verified)
      × ((p.pending_manifest ≡ "") ⊎ (selector ≡ old_root_selected))
unfolding resume
resume_lem old p q g ev retained selector h s =
    ground (arith, eq_iff p.pending_manifest "", recognized_sound retained p.checkpoint)

-- What an accepted checkpoint holds: it is the merge's own, its cursors read the merge's inputs in
-- their order, and its extents fit 64 bits together.
abbrev total : List SealedMergeExtent → ℕ
total [] = 0
total (x ∷ xs) = x.bytes + total xs

abbrev pub Held : MergeIdentity → Option MergeCheckpoint → Type 0
Held identity none = Unit {0}
Held identity (some c) =
    (c.identity ≡ identity)
    × (map (λ i. i.input_version) c.inputs ≡ identity.input_versions)
    × (total c.sealed_output < 2 ^ 64)

same_versions_sound :
    (cs : List MergeInputCursor) (vs : List String)
    → same_versions cs vs ≡ true
    → map (λ i. i.input_version) cs ≡ vs
unfolding same_versions
same_versions_sound [] [] h = refl
same_versions_sound [] (v ∷ vs) h = cc
same_versions_sound (c ∷ cs) [] h = cc
same_versions_sound (c ∷ cs) (v ∷ vs) h =
    ground (arith, str_eq_sound c.input_version v, same_versions_sound cs vs)

sum_bytes-total :
    (sum : ℕ) (xs : List SealedMergeExtent)
    → sum < 2 ^ 64
    → sum_bytes sum xs
      ≡ (if ltb (sum + total xs) (2 ^ 64) then ok (sum + total xs) else raise overflow_error)
unfolding sum_bytes
sum_bytes-total sum [] h = ground arith
sum_bytes-total sum (x ∷ xs) h = ground (arith, sum_bytes-total (sum + x.bytes) xs)

-- The size of a checkpoint is the sum of its extents, refused exactly when that exceeds 64 bits.
pub sealed_bytes-total :
    (c : MergeCheckpoint)
    → sealed_bytes c ≡ (
        if ltb (total c.sealed_output) (2 ^ 64)
        then ok (total c.sealed_output)
        else raise overflow_error)
unfolding sealed_bytes
sealed_bytes-total c = ground (arith, sum_bytes-total 0 c.sealed_output)

validate_checkpoint-Held :
    (identity : MergeIdentity) (c : MergeCheckpoint) (n : ℕ)
    → validate_checkpoint identity c ≡ ok n
    → Held identity (some c)
unfolding validate_checkpoint
validate_checkpoint-Held identity c n h = ground (
  arith,
  identity_eq_sound c.identity identity,
  same_versions_sound c.inputs identity.input_versions,
  sealed_bytes-total c,
)

-- Cursor by cursor, the same input is read from the same place or a later one.
abbrev pub Rises : List MergeInputCursor → List MergeInputCursor → Type 0
Rises [] [] = Unit {0}
Rises (d ∷ ds) (c ∷ cs) =
    (c.input_version ≡ d.input_version)
    × (d.ordinal ≤ c.ordinal)
    × (d.byte_offset ≤ c.byte_offset)
    × Rises ds cs
Rises _ _ = ⊥

cursors_advance-Rises :
    (ds cs : List MergeInputCursor)
    → map (λ i. i.input_version) cs ≡ map (λ i. i.input_version) ds
    → cursors_advance ds cs ≡ true
    → Rises ds cs
unfolding cursors_advance
cursors_advance-Rises [] [] same h = tt
cursors_advance-Rises [] (c ∷ cs) same h = absurd (cc)
cursors_advance-Rises (d ∷ ds) [] same h = absurd (cc)
cursors_advance-Rises (d ∷ ds) (c ∷ cs) same h = ground (arith, same, cursors_advance-Rises ds cs)

-- How far a checkpoint has come, from the last one.
abbrev pub Advanced : MergeCheckpoint → MergeCheckpoint → Type 0
Advanced d c =
    (c.exact_id ≢ d.exact_id)
    × (d.output_records ≤ c.output_records)
    × (d.completed_work ≤ c.completed_work)
    × Rises d.inputs c.inputs

abbrev pub Progress : Option MergeCheckpoint → Option MergeCheckpoint → Type 0
Progress before none = Unit {0}
Progress none (some c) = Unit {0}
Progress (some d) (some c) = (c ≡ d) ⊎ Advanced d c

Progress-refl : (c : Option MergeCheckpoint) → Progress c c
Progress-refl none = tt
Progress-refl (some c) = inl refl

advances-Progress :
    (identity : MergeIdentity) (before : Option MergeCheckpoint) (c : MergeCheckpoint) (n : ℕ)
    → Held identity before
    → validate_checkpoint identity c ≡ ok n
    → advances before c ≡ true
    → Progress before (some c)
unfolding advances
advances-Progress identity none c n s v h = tt
advances-Progress identity (some d) c n s v h =
    let held = validate_checkpoint-Held identity c n v in
    ground (
      arith,
      eq_iff c.exact_id d.exact_id,
      cursors_advance-Rises d.inputs c.inputs (held.1 ∙ sym s.1),
    )

-- A call that is accepted, where the durable checkpoint, if there is one, belongs to the merge, reads
-- its inputs in their order, and has a total size that fits 64 bits: it keeps the durable checkpoint,
-- drops it, or replaces it by one with another identity, with at least its records and its work, and
-- with as many cursors, each of which reads the same input from the same place or a later one.
pub call-Progress :
    (p q : Publication) (e : Event)
    → Held p.identity p.checkpoint
    → call p e ≡ ok q
    → Progress p.checkpoint q.checkpoint
unfolding call
call-Progress p q (checkpointed c r) s h = elim (Result-cases (validate_checkpoint p.identity c)) [
  | inl (n, v) ↦
      unfold complete_checkpoint in
      ground (arith, advances-Progress p.identity p.checkpoint c n s v, Progress-refl p.checkpoint)
  | inr (x, v) ↦ unfold complete_checkpoint in ground arith
]
call-Progress p q (output_done r) s h =
    unfold complete_output in ground (arith, Progress-refl p.checkpoint)
call-Progress p q (manifest_done r) s h =
    unfold complete_manifest in ground (arith, Progress-refl p.checkpoint)
call-Progress p q (prepared id) s h =
    unfold prepare_manifest in ground (arith, Progress-refl p.checkpoint)
call-Progress p q io_failed s h =
    unfold report_io_failure in ground (arith, Progress-refl p.checkpoint)
call-Progress p q (resumed g ev c sel) s h =
    unfold resume in ground (arith, recognized_sound c p.checkpoint, Progress-refl p.checkpoint)
call-Progress p q (recovered ev) s h =
    unfold accept_recovered_publication in ground (arith, Progress-refl p.checkpoint)
call-Progress p q released s h =
    unfold release_old_pins in ground (arith, Progress-refl p.checkpoint)

call-Held :
    (p q : Publication) (e : Event)
    → Held p.identity p.checkpoint
    → call p e ≡ ok q
    → Held q.identity q.checkpoint × (q.identity ≡ p.identity)
unfolding call
call-Held p q (checkpointed c r) s h = elim (Result-cases (validate_checkpoint p.identity c)) [
  | inl (n, v) ↦
      unfold complete_checkpoint in ground (arith, validate_checkpoint-Held p.identity c n)
  | inr (x, v) ↦ unfold complete_checkpoint in ground arith
]
call-Held p q (output_done r) s h = unfold complete_output in ground arith
call-Held p q (manifest_done r) s h = unfold complete_manifest in ground arith
call-Held p q (prepared id) s h = unfold prepare_manifest in ground arith
call-Held p q io_failed s h = unfold report_io_failure in ground arith
call-Held p q (resumed g ev c sel) s h =
    unfold resume in ground (arith, recognized_sound c p.checkpoint)
call-Held p q (recovered ev) s h = unfold accept_recovered_publication in ground arith
call-Held p q released s h = unfold release_old_pins in ground arith

-- From a publication whose checkpoint, if there is one, belongs to its merge, reads its inputs in
-- their order, and has a total size that fits 64 bits: so it is after every history of calls.
pub run-Held :
    (es : List Event) (p : Publication)
    → Held p.identity p.checkpoint
    → Held p.identity (run p es).checkpoint
unfolding run
run-Held [] p s = s
run-Held (e ∷ es) p s = elim (Result-cases (call p e)) [
  | inl (q, h) ↦
      let (s', same) = call-Held p q e s h in
      rw (h, run) (subst (λ i. Held i (run q es).checkpoint) same (run-Held es q s'))
  | inr (x, h) ↦ rw (h, run) (run-Held es p s)
]
