-- ===== src/Publication.antt =====
-- include/everett/durability.h: the publication protocol of one merge. A method that throws has
-- changed nothing, so a method is a function to a result: the new state, or the exception.
pub mod Checkpoint
pub mod Protocol
mod Equality
pub mod Recovery
pub mod Log
pub mod Reuse
pub mod Rescue
mod Examples
use text.Mathlib.Text.{◌==◌ as str_eq}
use everett.Base.{
  Bool, true, false, not, ◌&&◌, ◌||◌, List, [], ◌∷◌, ◌++◌, Option, none, some, if◌then◌else◌,
  Result, raise, ok, ◌>>=◌, require, invalid_argument, logic_error,
}
use Prim.Native.String.{String}
use Checkpoint.{
  MergeIdentity, MergeCheckpoint, is_empty, no_inputs, contains, distinct_inputs,
  validate_checkpoint, advances, checkpoint_eq,
}

pub data PersistenceResult : Type 0 where
  durable_verified failure : PersistenceResult

pub data RecoveryEvidence : Type 0 where
  unverified durable_state_verified : RecoveryEvidence

pub data SelectorRecovery : Type 0 where
  unresolved old_root_selected : SelectorRecovery

pub data Stage : Type 0 where
  building output_durable manifest_pending uncertain published : Stage

pub record Publication : Type 0 where
  pub identity : MergeIdentity
  pub durable_manifest : String
  pub generation : String
  pub pending_manifest : String
  pub generations : List String
  pub manifests : List String
  pub checkpoint : Option MergeCheckpoint
  pub stage : Stage
  pub old_pins_retained : Bool

abbrev pub at_stage : Stage → Stage → Bool
at_stage building building = true
at_stage output_durable output_durable = true
at_stage manifest_pending manifest_pending = true
at_stage uncertain uncertain = true
at_stage published published = true
at_stage _ _ = false

abbrev pub verified : RecoveryEvidence → Bool
verified unverified = false
verified durable_state_verified = true

abbrev pub old_root : SelectorRecovery → Bool
old_root unresolved = false
old_root old_root_selected = true

abbrev pub persisted : PersistenceResult → Bool
persisted durable_verified = true
persisted failure = false

-- The constructor.
unfoldable pub create : MergeIdentity → String → String → Result Publication
create identity old_manifest output_generation =
    require
      (not (
        is_empty identity.recipe
        || no_inputs identity.input_versions
        || is_empty old_manifest
        || is_empty output_generation))
      invalid_argument
      (require (distinct_inputs [] identity.input_versions) invalid_argument (
        ok (record {
          identity = identity;
          durable_manifest = old_manifest;
          generation = output_generation;
          pending_manifest = "";
          generations = output_generation ∷ [];
          manifests = [];
          checkpoint = none;
          stage = building;
          old_pins_retained = true;
        })))

abbrev fail_to_uncertain : Publication → Publication
fail_to_uncertain p = record p { stage = uncertain }

unfoldable pub complete_checkpoint :
    Publication → MergeCheckpoint → PersistenceResult → Result Publication
complete_checkpoint p candidate result = require (at_stage p.stage building) logic_error (
    validate_checkpoint p.identity candidate >>= λ _.
    require (str_eq candidate.output_generation p.generation) invalid_argument (
      require (advances p.checkpoint candidate) invalid_argument (
        ok (
          if persisted result
          then record p { checkpoint = some candidate }
          else fail_to_uncertain p))))

unfoldable pub complete_output : Publication → PersistenceResult → Result Publication
complete_output p result =
    require (at_stage p.stage building) logic_error
      (ok (record p { stage = if persisted result then output_durable else uncertain }))

unfoldable pub prepare_manifest : Publication → String → Result Publication
prepare_manifest p exact_id = require (at_stage p.stage output_durable) logic_error (
    require
      (not
        (is_empty exact_id || str_eq exact_id p.durable_manifest || contains p.manifests exact_id))
      invalid_argument
      (ok (record p {
        manifests = p.manifests ++ (exact_id ∷ []);
        pending_manifest = exact_id;
        stage = manifest_pending;
      })))

unfoldable pub complete_manifest : Publication → PersistenceResult → Result Publication
complete_manifest p result = require (at_stage p.stage manifest_pending) logic_error (
    ok (
      if persisted result
      then record p { durable_manifest = p.pending_manifest; stage = published }
      else fail_to_uncertain p))

unfoldable pub report_io_failure : Publication → Result Publication
report_io_failure p =
    require (not (at_stage p.stage published)) logic_error (ok (fail_to_uncertain p))

-- `retained && (!checkpoint_ || *retained != *checkpoint_)` refuses.
abbrev pub recognized : Option MergeCheckpoint → Option MergeCheckpoint → Bool
recognized none last = true
recognized (some c) none = false
recognized (some c) (some d) = checkpoint_eq c d

unfoldable pub resume :
    Publication
    → String
    → RecoveryEvidence
    → Option MergeCheckpoint
    → SelectorRecovery
    → Result Publication
resume p fresh_generation evidence retained selector =
    require (at_stage p.stage uncertain) logic_error (
      require (verified evidence) invalid_argument (
        require (is_empty p.pending_manifest || old_root selector) invalid_argument (
          require (not (is_empty fresh_generation || contains p.generations fresh_generation))
            invalid_argument
            (require (recognized retained p.checkpoint) invalid_argument (
              ok (record p {
                generations = p.generations ++ (fresh_generation ∷ []);
                generation = fresh_generation;
                checkpoint = retained;
                pending_manifest = "";
                stage = building;
              }))))))

unfoldable pub accept_recovered_publication : Publication → RecoveryEvidence → Result Publication
accept_recovered_publication p evidence = require (at_stage p.stage uncertain) logic_error (
    require (verified evidence) invalid_argument (
      require (not (is_empty p.pending_manifest)) logic_error
        (ok (record p { durable_manifest = p.pending_manifest; stage = published }))))

-- The new state, and whether the pins were still held.
unfoldable pub release_old_pins : Publication → Result (Publication × Bool)
release_old_pins p =
    require (at_stage p.stage published) logic_error
      (ok (record p { old_pins_retained = false }, p.old_pins_retained))

unfoldable pub can_release_old_pins : Publication → Bool
can_release_old_pins p = at_stage p.stage published
