-- ===== src/Pins/Examples.antt =====
-- pins.h: an owner of numbers under the wrapping algebra, and the theorems at it.
use Prim.Native.String.{String}
use everett.Base.{
  ℕ, ◌≡◌, refl, Bool, true, List, [], ◌∷◌, none, some, is_some, if◌then◌else◌, ◌==◌, ==_iff, ok,
}
use everett.Fingerprint.{Algebra, Word, wrap, wrapping_fingerprint_algebra}
use everett.Fingerprint.Laws.{Word-eq, wrapping-IsRing}
use everett.Pins.Owner.{IsValid, remove-add}
use everett.Pins.Composition.{replace_kept}
use everett.Pins.Success.{replace_succeeds}
use everett.Pins.History.{Edit, added, removed, composed, run, run-IsValid}
use everett.Pins.{
  Entry, PinSet, empty_set, find, validate, is_input, outside, sum_from, gather, check, add, remove,
  replace,
}

abbrev word_eq : Word → Word → Bool
word_eq x y = x.value == y.value

word_eq_sound : (x y : Word) → word_eq x y ≡ true → x ≡ y
word_eq_sound x y h = Word-eq x y ((==_iff x.value y.value).0 h)

word_eq_accepts : (x : Word) → word_eq x x ≡ true
word_eq_accepts x = (==_iff x.value x.value).1 refl

abbrev entry : String → ℕ → Entry Word ℕ
entry id n = record {
  object_id = id;
  object = some n;
  contribution = wrap n;
  native_signature = none;
}

abbrev algebra : Algebra Word
algebra = wrapping_fingerprint_algebra

-- The second is refused, and so is the removal of what is not there.
abbrev edits : List (Edit Word ℕ)
edits =
    added (entry "a" 5)
    ∷ added (entry "a" 9)
    ∷ removed "z"
    ∷ added (entry "b" 7)
    ∷ composed ("a" ∷ "b" ∷ []) (entry "c" 12 ∷ [])
    ∷ []

after : List (Edit Word ℕ) → PinSet Word ℕ
after xs = run algebra word_eq (empty_set algebra) xs

run_edits : (after edits).entries ≡ entry "c" 12 ∷ []
unfolding after run add remove replace gather check find outside is_input validate
run_edits = refl

run-IsValid_example : IsValid algebra (run algebra word_eq (empty_set algebra) edits)
run-IsValid_example = run-IsValid algebra wrapping-IsRing word_eq word_eq_sound edits

abbrev one : List (Edit Word ℕ)
one = added (entry "a" 5) ∷ []

abbrev two : List (Edit Word ℕ)
two = added (entry "a" 5) ∷ added (entry "b" 7) ∷ []

abbrev composition : List (Edit Word ℕ)
composition =
    added (entry "a" 5) ∷ added (entry "b" 7) ∷ composed ("a" ∷ []) (entry "c" 5 ∷ []) ∷ []

add_second : add algebra (after one) (entry "b" 7) ≡ ok (after two)
unfolding after run add find validate
add_second = refl

replace_first :
    replace algebra word_eq (after two) ("a" ∷ []) (entry "c" 5 ∷ []) ≡ ok (after composition)
unfolding after run add replace gather check find outside is_input validate
replace_first = refl

after-IsValid : (xs : List (Edit Word ℕ)) → IsValid algebra (after xs)
unfolding after
after-IsValid xs = run-IsValid algebra wrapping-IsRing word_eq word_eq_sound xs

remove-add_example : remove algebra (after two) "b" ≡ ok (after one)
remove-add_example =
    remove-add algebra wrapping-IsRing (after one) (after two) (entry "b" 7) (after-IsValid one)
      add_second

replace_kept_example :
    ((after composition).signature ≡ (after two).signature)
    × ((id : String)
        → find (after composition).entries id ≡ (
            if is_some (find (after two).entries id)
            then (if is_input ("a" ∷ []) id then none else find (after two).entries id)
            else find (entry "c" 5 ∷ []) id))
replace_kept_example =
    replace_kept algebra wrapping-IsRing word_eq (after two) ("a" ∷ []) (entry "c" 5 ∷ [])
      (after composition) word_eq_sound (after-IsValid two) replace_first

replace_succeeds_example :
    (q : PinSet Word ℕ) × (replace algebra word_eq (after two) ("a" ∷ []) (entry "c" 5 ∷ []) ≡ ok q)
unfolding after run add find outside is_input validate sum_from
replace_succeeds_example =
    replace_succeeds algebra wrapping-IsRing word_eq (after two) ("a" ∷ []) (entry "c" 5 ∷ [])
      word_eq_accepts (after-IsValid two) (refl, tt) (refl, tt) (refl, tt) (refl, tt) (refl, tt)
      (Word-eq _ _ refl)
