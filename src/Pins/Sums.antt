-- ===== src/Pins/Sums.antt =====
-- pins.h: the sums of contributions.
use Prim.Native.String.{String}
use text.Mathlib.Text.{◌==◌ as str_eq}
use text.Mathlib.TextEquality.{eq_iff}
use everett.Base.{◌≡◌, refl, sym, ◌∙◌, ap, inl, inr, List, [], ◌∷◌, ◌++◌, some, Bool-cases, arith}
use everett.Fingerprint.{Algebra, IsRing}
use everett.Pins.{Entry, find, without, sum_from}
use everett.Pins.Lookup.{Distinct, without-absent}

module _ {E T : Type 0} (A : Algebra E) where
  pub total : List (Entry E T) → E
  total [] = A.nothing
  total (x ∷ xs) = A.add x.contribution (total xs)

  module _ (r : IsRing A) where
    pub sum_from-total :
        (acc : E) (xs : List (Entry E T)) → sum_from A acc xs ≡ A.add acc (total xs)
    unfolding total sum_from
    sum_from-total acc [] = sym (r.add_comm _ _ ∙ r.nothing_add _)
    sum_from-total acc (x ∷ xs) = sum_from-total (A.add acc x.contribution) xs ∙ r.add_assoc _ _ _

    pub total-append : (xs ys : List (Entry E T)) → total (xs ++ ys) ≡ A.add (total xs) (total ys)
    unfolding total
    total-append [] ys = sym (r.nothing_add _)
    total-append (x ∷ xs) ys = ap (A.add _) (total-append xs ys) ∙ sym (r.add_assoc _ _ _)

    pub total-snoc :
        (xs : List (Entry E T)) (x : Entry E T)
        → total (xs ++ (x ∷ [])) ≡ A.add (total xs) x.contribution
    unfolding total
    total-snoc xs x =
        total-append xs (x ∷ []) ∙ ap (A.add (total xs)) (r.add_comm _ _ ∙ r.nothing_add _)

    pub total-without :
        (xs : List (Entry E T)) (id : String) (old : Entry E T)
        → Distinct xs
        → find xs id ≡ some old
        → total xs ≡ A.add (total (without xs id)) old.contribution
    unfolding total find without
    total-without [] id old d h = absurd (cc)
    total-without (x ∷ xs) id old d h = elim (Bool-cases (str_eq x.object_id id)) [
      | inl e ↦
          rw (e, without, without-absent xs id (ground (arith, e, (eq_iff x.object_id id).0)))
            (r.add_comm _ _ ∙ ap (A.add (total xs)) (ground (arith, e)))
      | inr n ↦
          rw (n, without)
            (ap (A.add x.contribution) (total-without xs id old d.1 (ground (arith, n)))
              ∙ sym (r.add_assoc _ _ _))
    ]

pub total-nil : {E : Type 0} (T : Type 0) (A : Algebra E) → total {T = T} A [] ≡ A.nothing
unfolding total
total-nil T A = refl
