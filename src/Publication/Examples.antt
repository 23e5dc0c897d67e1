-- ===== src/Publication/Examples.antt =====
-- durability.h: a run with a failed manifest flush, and the theorems at concrete publications.
use everett.Base.{
  ◌≡◌, ◌⊎◌, refl, List, [], ◌∷◌, none, some, raise, ok, true, false, logic_error, if◌then◌else◌,
  arith,
}
use everett.Publication.Checkpoint.{
  MergeIdentity, MergeCheckpoint, contains, distinct_inputs, sealed_bytes, validate_checkpoint,
  identity_eq, same_versions, cursors_advance, distinct_extents, sum_bytes, advances,
}
use everett.Publication.{
  Publication, at_stage, durable_verified, failure, durable_state_verified, old_root_selected,
  building, uncertain, published, create, complete_output, prepare_manifest, complete_manifest,
  resume, accept_recovered_publication, complete_checkpoint, release_old_pins,
}
use everett.Publication.Protocol.{
  Event, checkpointed, output_done, manifest_done, prepared, recovered, released, call, run, Safe,
  Unique, run-create-Safe, call_published,
}
use everett.Publication.Recovery.{Held, Progress, sealed_bytes-total, call-Progress, run-Held}
use everett.Publication.Log.{accepted, generations_of, manifests_of, last_generation}
use everett.Publication.Rescue.{rescue, run-create-rescue}
use everett.Publication.Reuse.{accepted-Unique, resume-run}

abbrev merge : MergeIdentity
merge = record { recipe = "v1"; input_versions = "a" ∷ "b" ∷ [] }

abbrev begun : Publication
begun = record {
  identity = merge;
  durable_manifest = "root-1";
  generation = "gen-1";
  pending_manifest = "";
  generations = "gen-1" ∷ [];
  manifests = [];
  checkpoint = none;
  stage = building;
  old_pins_retained = true;
}

create-begun : create merge "root-1" "gen-1" ≡ ok begun
unfolding create distinct_inputs
create-begun = refl

abbrev first_checkpoint : MergeCheckpoint
first_checkpoint = record {
  exact_id = "cp-1";
  identity = merge;
  output_generation = "gen-1";
  inputs =
      record { input_version = "a"; ordinal = 3; byte_offset = 40; predecessor_key = "k" }
      ∷ record { input_version = "b"; ordinal = 1; byte_offset = 9; predecessor_key = "j" }
      ∷ [];
  sealed_output = record { exact_id = "e-1"; bytes = 64; checksum = "c" } ∷ [];
  previous_output_key = "k";
  metadata_state = "m";
  output_records = 4;
  completed_work = 49;
}

abbrev checked : Publication
checked = record begun { checkpoint = some first_checkpoint }

complete_checkpoint_first : complete_checkpoint begun first_checkpoint durable_verified ≡ ok checked
unfolding complete_checkpoint validate_checkpoint identity_eq same_versions distinct_extents
    sealed_bytes sum_bytes advances
complete_checkpoint_first = refl

-- The output is durable, the manifest's flush fails, and recovery finds the manifest.
abbrev troubled : List Event
troubled =
    output_done durable_verified
    ∷ prepared "root-2"
    ∷ manifest_done failure
    ∷ recovered durable_state_verified
    ∷ released
    ∷ []

abbrev settled : Publication
settled = record begun {
  durable_manifest = "root-2";
  pending_manifest = "root-2";
  manifests = "root-2" ∷ [];
  stage = published;
  old_pins_retained = false;
}

run-troubled : run begun troubled ≡ settled
unfolding run call complete_output prepare_manifest contains complete_manifest
    accept_recovered_publication release_old_pins
run-troubled = refl

run-create-Safe_example : Safe "root-1" (run begun troubled)
run-create-Safe_example = run-create-Safe merge "root-1" "gen-1" begun troubled create-begun

accepted-Unique_example :
    Unique ("gen-1" ∷ generations_of (accepted begun troubled))
    × Unique ("root-1" ∷ manifests_of (accepted begun troubled))
    × ((run begun troubled).generation ≡ last_generation "gen-1" (accepted begun troubled))
accepted-Unique_example = accepted-Unique merge "root-1" "gen-1" begun troubled create-begun

call_published_example :
    (call settled (prepared "root-3") ≡ raise logic_error)
    ⊎ ((prepared "root-3" ≡ released)
        × (call settled (prepared "root-3") ≡ ok (record settled { old_pins_retained = false })))
call_published_example = call_published settled (prepared "root-3") refl

-- A checkpoint is durable, a repetition of it is refused, and the output fails.
abbrev interrupted : List Event
interrupted =
    checkpointed first_checkpoint durable_verified
    ∷ checkpointed first_checkpoint durable_verified
    ∷ output_done failure
    ∷ []

run-interrupted : run begun interrupted ≡ record checked { stage = uncertain }
unfolding run call complete_checkpoint validate_checkpoint identity_eq same_versions
    distinct_extents sealed_bytes sum_bytes advances complete_output
run-interrupted = refl

accepted-interrupted :
    accepted begun interrupted
    ≡ checkpointed first_checkpoint durable_verified ∷ output_done failure ∷ []
unfolding accepted call complete_checkpoint validate_checkpoint identity_eq same_versions
    distinct_extents sealed_bytes sum_bytes advances complete_output
accepted-interrupted = refl

-- The merge starts again without the checkpoint.
abbrev restarted : Publication
restarted = record begun { generation = "gen-2"; generations = "gen-1" ∷ "gen-2" ∷ [] }

resume-restarted :
    resume (run begun interrupted) "gen-2" durable_state_verified none old_root_selected
    ≡ ok restarted
unfolding resume contains
resume-restarted = rw run-interrupted refl

resume-run_example : restarted.checkpoint ≡ none
resume-run_example =
    (resume-run merge "root-1" "gen-1" "gen-2" begun restarted interrupted durable_state_verified
      none old_root_selected create-begun resume-restarted).0

second_generation_unused :
    contains ("gen-1" ∷ generations_of (accepted begun interrupted)) "gen-2" ≡ false
unfolding contains generations_of
second_generation_unused = rw accepted-interrupted refl

second_root_unused :
    contains ("root-1" ∷ manifests_of (accepted begun interrupted)) "root-2" ≡ false
unfolding contains manifests_of
second_root_unused = rw accepted-interrupted refl

run-create-rescue_example :
    let q = run begun interrupted in
    let s = run q (rescue "gen-2" "root-2") in
    (s.stage ≡ published)
    × (s.durable_manifest ≡ (if at_stage q.stage published then q.durable_manifest else "root-2"))
run-create-rescue_example =
    run-create-rescue merge "root-1" "gen-1" "gen-2" "root-2" begun interrupted create-begun refl
      second_generation_unused refl second_root_unused

sealed_bytes-total_example : sealed_bytes first_checkpoint ≡ ok 64
sealed_bytes-total_example = sealed_bytes-total first_checkpoint

abbrev second_checkpoint : MergeCheckpoint
second_checkpoint = record first_checkpoint {
  exact_id = "cp-2";
  inputs =
      record { input_version = "a"; ordinal = 3; byte_offset = 40; predecessor_key = "k" }
      ∷ record { input_version = "b"; ordinal = 2; byte_offset = 15; predecessor_key = "l" }
      ∷ [];
  output_records = 5;
  completed_work = 55;
}

checked_again :
    call checked (checkpointed second_checkpoint durable_verified)
    ≡ ok (record checked { checkpoint = some second_checkpoint })
unfolding call complete_checkpoint validate_checkpoint identity_eq same_versions distinct_extents
    sealed_bytes sum_bytes advances cursors_advance
checked_again = refl

call-Progress_example : Progress (some first_checkpoint) (some second_checkpoint)
call-Progress_example =
    call-Progress checked (record checked { checkpoint = some second_checkpoint })
      (checkpointed second_checkpoint durable_verified) (refl, refl, omega arith) checked_again

run-Held_example : Held merge (run checked troubled).checkpoint
run-Held_example = run-Held troubled checked (refl, refl, omega arith)
