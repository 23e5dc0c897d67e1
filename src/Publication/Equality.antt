-- ===== src/Publication/Equality.antt =====
-- include/everett/durability.h: `operator==` on checkpoints and their parts decides equality.
use Prim.Native.String.{String}
use text.Mathlib.Text.{◌==◌ as str_eq}
use text.Mathlib.TextEquality.{eq_iff}
use everett.Base.{◌≡◌, refl, Bool, true, List, [], ◌∷◌, arith}
use everett.Publication.Checkpoint.{
  MergeIdentity, MergeCheckpoint, MergeInputCursor, SealedMergeExtent, list_eq, identity_eq,
  cursor_eq, extent_eq, checkpoint_eq,
}

list_eq_sound {ℓ} :
    {A : Type ℓ} (eq : A → A → Bool)
    → ((x y : A) → eq x y ≡ true → x ≡ y)
    → (xs ys : List A) → list_eq eq xs ys ≡ true
    → xs ≡ ys
list_eq_sound eq sound [] [] h = refl
list_eq_sound eq sound [] (y ∷ ys) h = cc
list_eq_sound eq sound (x ∷ xs) [] h = cc
list_eq_sound eq sound (x ∷ xs) (y ∷ ys) h = ground (arith, sound x y, list_eq_sound eq sound xs ys)

pub str_eq_sound : (s t : String) → str_eq s t ≡ true → s ≡ t
str_eq_sound s t = (eq_iff s t).0

pub identity_eq_sound : (a b : MergeIdentity) → identity_eq a b ≡ true → a ≡ b
unfolding identity_eq
identity_eq_sound a b h = ground (
  arith,
  str_eq_sound a.recipe b.recipe,
  list_eq_sound str_eq str_eq_sound a.input_versions b.input_versions,
)

cursor_eq_sound : (a b : MergeInputCursor) → cursor_eq a b ≡ true → a ≡ b
unfolding cursor_eq
cursor_eq_sound a b h = ground (
  arith,
  str_eq_sound a.input_version b.input_version,
  str_eq_sound a.predecessor_key b.predecessor_key,
)

extent_eq_sound : (a b : SealedMergeExtent) → extent_eq a b ≡ true → a ≡ b
unfolding extent_eq
extent_eq_sound a b h =
    ground (arith, str_eq_sound a.exact_id b.exact_id, str_eq_sound a.checksum b.checksum)

pub checkpoint_eq_sound : (a b : MergeCheckpoint) → checkpoint_eq a b ≡ true → a ≡ b
unfolding checkpoint_eq
checkpoint_eq_sound a b h = ground (
  arith,
  str_eq_sound a.exact_id b.exact_id,
  identity_eq_sound a.identity b.identity,
  str_eq_sound a.output_generation b.output_generation,
  list_eq_sound cursor_eq cursor_eq_sound a.inputs b.inputs,
  list_eq_sound extent_eq extent_eq_sound a.sealed_output b.sealed_output,
  str_eq_sound a.previous_output_key b.previous_output_key,
  str_eq_sound a.metadata_state b.metadata_state,
)
