-- ===== src/Publication/Rescue.antt =====
-- include/everett/durability.h: giving a merge up and starting it again, wherever its history has left
-- it.
use Prim.Native.String.{String}
use text.Mathlib.Text.{◌==◌ as str_eq}
use text.Mathlib.TextEquality.{eq_iff}
use everett.Base.{
  ◌≡◌, refl, subst, sym, ap, ◌∙◌, inl, inr, true, false, ◌||◌, List, [], ◌∷◌, ◌++◌, none, ok,
  Bool-cases, if◌then◌else◌, arith,
}
use everett.Publication.Checkpoint.{MergeIdentity, contains, is_empty}
use everett.Publication.{
  Publication, Stage, durable_verified, durable_state_verified, old_root_selected, published,
  building, uncertain, at_stage, create, complete_output, prepare_manifest, complete_manifest,
  report_io_failure, resume,
}
use everett.Publication.Protocol.{
  Event, output_done, manifest_done, prepared, io_failed, resumed, call, run, Safe, run-create-Safe,
}
use everett.Publication.Log.{accepted, generations_of, manifests_of, run-create-Logged}

-- Give up what is under way, start again from the old root, and publish under another manifest.
abbrev pub rescue : (g id : String) → List Event
rescue g id =
    io_failed
    ∷ resumed g durable_state_verified none old_root_selected
    ∷ output_done durable_verified
    ∷ prepared id
    ∷ manifest_done durable_verified
    ∷ []

run_ok :
    (p q : Publication) (e : Event) (es : List Event) → call p e ≡ ok q → run p (e ∷ es) ≡ run q es
unfolding run
run_ok p q e es h = rw h refl

published_stage : (s : Stage) → at_stage s published ≡ true → s ≡ published
published_stage s h = ground arith

-- Where the merge is published already.
run-rescue_published :
    (q : Publication) (g id : String) → at_stage q.stage published ≡ true → run q (rescue g id) ≡ q
unfolding run call report_io_failure resume complete_output prepare_manifest complete_manifest
run-rescue_published q g id h =
    subst (λ s. run (record q { stage = s }) (rescue g id) ≡ record q { stage = s })
      (sym (published_stage q.stage h)) refl

abbrev resumed_at : Publication → String → Publication
resumed_at q g = record q {
  generations = q.generations ++ (g ∷ []);
  generation = g;
  checkpoint = none;
  pending_manifest = "";
  stage = building;
}

abbrev published_at : Publication → String → Publication
published_at q id = record q {
  manifests = q.manifests ++ (id ∷ []);
  pending_manifest = id;
  durable_manifest = id;
  stage = published;
}

run_building :
    (r : Publication) (id : String)
    → r.stage ≡ building
    → is_empty id ≡ false
    → str_eq id r.durable_manifest ≡ false
    → contains r.manifests id ≡ false
    → run r (output_done durable_verified ∷ prepared id ∷ manifest_done durable_verified ∷ [])
      ≡ published_at r id
unfolding run call complete_output prepare_manifest complete_manifest
run_building r id at named other untried = rw (at, named, other, untried) refl

run-rescue :
    (q : Publication) (g id : String)
    → at_stage q.stage published ≡ false
    → is_empty g ≡ false
    → contains q.generations g ≡ false
    → is_empty id ≡ false
    → str_eq id q.durable_manifest ≡ false
    → contains q.manifests id ≡ false
    → run q (rescue g id) ≡ published_at (resumed_at q g) id
unfolding call
run-rescue q g id live g_named g_unused named other untried =
    run_ok q (record q { stage = uncertain }) io_failed _ (unfold report_io_failure in rw live refl)
    ∙ (run_ok (record q { stage = uncertain }) (resumed_at q g) _ _ resumes
        ∙ run_building (resumed_at q g) id refl named other untried)
  where
    selected : is_empty q.pending_manifest || true ≡ true
    selected = ground arith

    resumes :
        resume (record q { stage = uncertain }) g durable_state_verified none old_root_selected
        ≡ ok (resumed_at q g)
    resumes = unfold resume in rw (selected, g_named, g_unused) refl

Safe-durable :
    (old : String) (q : Publication)
    → Safe old q
    → at_stage q.stage published ≡ false
    → q.durable_manifest ≡ old
Safe-durable old q s live = ground arith

-- After any history of a publication that the constructor accepts, with a generation that is named
-- and is neither the first one nor that of a resumption in the log of the calls that did not throw,
-- and a manifest that is named and is neither the old one nor one that was prepared: giving up what
-- is under way, resuming from the old root, and completing the output and the manifest publishes the
-- merge under that manifest, or leaves it as it was published before.
pub run-create-rescue :
    (identity : MergeIdentity) (old generation g id : String) (p : Publication) (es : List Event)
    → create identity old generation ≡ ok p
    → is_empty g ≡ false
    → contains (generation ∷ generations_of (accepted p es)) g ≡ false
    → is_empty id ≡ false
    → contains (old ∷ manifests_of (accepted p es)) id ≡ false
    → let q = run p es in
      let s = run q (rescue g id) in
      (s.stage ≡ published)
      × (s.durable_manifest ≡ (if at_stage q.stage published then q.durable_manifest else id))
unfolding contains
run-create-rescue identity old generation g id p es h g_named g_unused named untried =
    let q = run p es in
    let (used, tried, _, _, _) = run-create-Logged identity old generation p es h in
    let safe = run-create-Safe identity old generation p es h in
    elim (Bool-cases (at_stage q.stage published)) [
      | inl done ↦ rw (run-rescue_published q g id done, done) (published_stage q.stage done, refl)
      | inr live ↦
          rw
            (
              run-rescue q g id live g_named (ap (λ xs. contains xs g) used ∙ g_unused) named
                  (ground
                    (arith, Safe-durable old q safe live, untried, eq_iff id old, eq_iff old id))
                  (ground (arith, tried, untried)),
              live,
            )
            (refl, refl)
    ]
