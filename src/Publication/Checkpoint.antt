-- ===== src/Publication/Checkpoint.antt =====
-- include/everett/durability.h: the checkpoints of a merge, and how one is validated.
use Prim.Native.String.{String}
use text.Mathlib.Text.{◌==◌ as str_eq}
use everett.Base.{
  ℕ, ◌+◌, ◌-◌, ◌^◌, Bool, true, false, not, ◌&&◌, ◌||◌, List, [], ◌∷◌, ◌++◌, Option, none, some,
  if◌then◌else◌, ltb, leb, ◌==◌, length, Result, raise, ok, require, invalid_argument,
  overflow_error,
}

-- `operator==` on vectors.
abbrev pub list_eq {ℓ} : {A : Type ℓ} → (A → A → Bool) → List A → List A → Bool
list_eq eq [] [] = true
list_eq eq [] (y ∷ ys) = false
list_eq eq (x ∷ xs) [] = false
list_eq eq (x ∷ xs) (y ∷ ys) = eq x y && list_eq eq xs ys

abbrev pub is_empty : String → Bool
is_empty s = str_eq s ""

abbrev pub no_inputs : List String → Bool
no_inputs [] = true
no_inputs (x ∷ xs) = false

-- `std::find(…) != end()`
unfoldable pub contains : List String → String → Bool
contains [] s = false
contains (x ∷ xs) s = str_eq x s || contains xs s

pub record MergeIdentity : Type 0 where
  pub recipe : String
  pub input_versions : List String

unfoldable pub identity_eq : MergeIdentity → MergeIdentity → Bool
identity_eq a b = str_eq a.recipe b.recipe && list_eq str_eq a.input_versions b.input_versions

pub record MergeInputCursor : Type 0 where
  pub input_version : String
  pub ordinal : ℕ
  pub byte_offset : ℕ
  pub predecessor_key : String

unfoldable pub cursor_eq : MergeInputCursor → MergeInputCursor → Bool
cursor_eq a b =
    str_eq a.input_version b.input_version
    && (a.ordinal == b.ordinal
        && (a.byte_offset == b.byte_offset && str_eq a.predecessor_key b.predecessor_key))

pub record SealedMergeExtent : Type 0 where
  pub exact_id : String
  pub bytes : ℕ
  pub checksum : String

unfoldable pub extent_eq : SealedMergeExtent → SealedMergeExtent → Bool
extent_eq a b = str_eq a.exact_id b.exact_id && (a.bytes == b.bytes && str_eq a.checksum b.checksum)

pub record MergeCheckpoint : Type 0 where
  pub exact_id : String
  pub identity : MergeIdentity
  pub output_generation : String
  pub inputs : List MergeInputCursor
  pub sealed_output : List SealedMergeExtent
  pub previous_output_key : String
  pub metadata_state : String
  pub output_records : ℕ
  pub completed_work : ℕ

unfoldable pub checkpoint_eq : MergeCheckpoint → MergeCheckpoint → Bool
unfolding identity_eq cursor_eq extent_eq
checkpoint_eq a b =
    str_eq a.exact_id b.exact_id
    && (identity_eq a.identity b.identity
        && (str_eq a.output_generation b.output_generation
            && (list_eq cursor_eq a.inputs b.inputs
                && (list_eq extent_eq a.sealed_output b.sealed_output
                    && (str_eq a.previous_output_key b.previous_output_key
                        && (str_eq a.metadata_state b.metadata_state
                            && (a.output_records == b.output_records
                                && a.completed_work == b.completed_work)))))))

-- The loop of `sealed_bytes`, from the sum so far.
unfoldable pub sum_bytes : ℕ → List SealedMergeExtent → Result ℕ
sum_bytes sum [] = ok sum
sum_bytes sum (x ∷ xs) =
    let rest = sum_bytes (sum + x.bytes) xs in
    if ltb (2 ^ 64 - 1 - sum) x.bytes then raise overflow_error else rest

unfoldable pub sealed_bytes : MergeCheckpoint → Result ℕ
sealed_bytes c = sum_bytes 0 c.sealed_output

-- The constructor's loop: no version is empty or equal to an earlier one.
unfoldable pub distinct_inputs : List String → List String → Bool
unfolding contains
distinct_inputs earlier [] = true
distinct_inputs earlier (x ∷ xs) =
    not (is_empty x) && (not (contains earlier x) && distinct_inputs (earlier ++ (x ∷ [])) xs)

-- `inputs[i].input_version == input_versions[i]` for every `i`, with the sizes equal.
unfoldable pub same_versions : List MergeInputCursor → List String → Bool
same_versions [] [] = true
same_versions [] (v ∷ vs) = false
same_versions (c ∷ cs) [] = false
same_versions (c ∷ cs) (v ∷ vs) = str_eq c.input_version v && same_versions cs vs

-- No extent lacks its identity or checksum, or repeats an earlier identity.
unfoldable pub distinct_extents : List String → List SealedMergeExtent → Bool
unfolding contains
distinct_extents earlier [] = true
distinct_extents earlier (x ∷ xs) =
    not (is_empty x.exact_id || is_empty x.checksum)
    && (not (contains earlier x.exact_id) && distinct_extents (earlier ++ (x.exact_id ∷ [])) xs)

unfoldable pub validate_checkpoint : MergeIdentity → MergeCheckpoint → Result ℕ
validate_checkpoint identity c =
    require
      (not (is_empty c.exact_id)
        && (identity_eq c.identity identity && (length c.inputs == length identity.input_versions)))
      invalid_argument
      (require (same_versions c.inputs identity.input_versions) invalid_argument
        (require (distinct_extents [] c.sealed_output) invalid_argument (sealed_bytes c)))

-- No cursor has moved backwards. The candidate's cursors are walked, and the last checkpoint's are
-- read at the same places; where it had fewer, the source would read past their end, but both have
-- passed `validate_checkpoint`, which asks for as many as the merge has inputs.
unfoldable pub cursors_advance : List MergeInputCursor → List MergeInputCursor → Bool
cursors_advance last [] = true
cursors_advance [] (c ∷ cs) = true
cursors_advance (d ∷ ds) (c ∷ cs) =
    (leb d.ordinal c.ordinal && leb d.byte_offset c.byte_offset) && cursors_advance ds cs

-- The checks of `complete_checkpoint` against the last durable checkpoint, if there is one.
unfoldable pub advances : Option MergeCheckpoint → MergeCheckpoint → Bool
unfolding cursors_advance
advances none c = true
advances (some d) c =
    (not (str_eq c.exact_id d.exact_id)
      && (leb d.output_records c.output_records && leb d.completed_work c.completed_work))
    && cursors_advance d.inputs c.inputs
