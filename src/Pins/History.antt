-- ===== src/Pins/History.antt =====
-- pins.h: an owner over any sequence of calls.
use Prim.Native.String.{String}
use everett.Base.{◌≡◌, inl, inr, Bool, true, List, [], ◌∷◌, Result, ok, raise, Result-cases}
use everett.Fingerprint.{Algebra, IsRing}
use everett.Pins.Owner.{IsValid, empty-IsValid, add-IsValid, remove-IsValid}
use everett.Pins.Composition.{replace-IsValid}
use everett.Pins.{Entry, PinSet, empty_set, add, remove, replace}

pub data Edit (E T : Type 0) : Type 0 where
  added : Entry E T → Edit E T
  removed : String → Edit E T
  composed : List String → List (Entry E T) → Edit E T

-- The caller keeps its owner where a call raises.
abbrev kept : {E T : Type 0} → PinSet E T → Result (PinSet E T) → PinSet E T
kept p (raise e) = p
kept p (ok q) = q

module _ {E T : Type 0} (A : Algebra E) (eq : E → E → Bool) where
  abbrev edit : PinSet E T → Edit E T → Result (PinSet E T)
  edit p (added item) = add A p item
  edit p (removed object_id) = remove A p object_id
  edit p (composed expected replacements) = replace A eq p expected replacements

  unfoldable pub run : PinSet E T → List (Edit E T) → PinSet E T
  run p [] = p
  run p (x ∷ rest) = run (kept p (edit p x)) rest

module _ {E T : Type 0} (A : Algebra E) (r : IsRing A) (eq : E → E → Bool)
    (sound : (x y : E) → eq x y ≡ true → x ≡ y) where
  edit-IsValid :
      (p q : PinSet E T) (x : Edit E T) → edit A eq p x ≡ ok q → IsValid A p → IsValid A q
  edit-IsValid p q (added item) h v = add-IsValid A r p q item h v
  edit-IsValid p q (removed id) h v = remove-IsValid A r p q id h v
  edit-IsValid p q (composed expected replacements) h v =
      replace-IsValid A r eq p expected replacements q sound v h

  kept-IsValid : (p : PinSet E T) (x : Edit E T) → IsValid A p → IsValid A (kept p (edit A eq p x))
  kept-IsValid p x v = elim (Result-cases (edit A eq p x)) [
    | inr (e, h) ↦ rw (h) v
    | inl (q, h) ↦ rw (h) (edit-IsValid p q x h v)
  ]

  -- After any sequence of calls of `add`, `remove` and `replace` from the empty set, where a call that
  -- raises leaves the owner as it was, over an algebra with the laws of a ring and a sound equality
  -- test: all entries are named and have an object, no two have one identity, the pins are their
  -- objects in order, and the cached signature is the recomputed one.
  pub run-IsValid : (edits : List (Edit E T)) → IsValid A (run A eq (empty_set A) edits)
  unfolding run
  run-IsValid edits = from (empty_set A) edits (empty-IsValid A)
    where
      from : (p : PinSet E T) (edits : List (Edit E T)) → IsValid A p → IsValid A (run A eq p edits)
      from p [] v = v
      from p (x ∷ rest) v = from (kept p (edit A eq p x)) rest (kept-IsValid p x v)
