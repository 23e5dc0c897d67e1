-- ===== src/Pins/Success.antt =====
-- pins.h: when `replace` succeeds.
use Prim.Native.String.{String}
use everett.Base.{
  ◌≡◌, refl, sym, ◌∙◌, ap, inl, inr, Bool, true, false, List, [], ◌∷◌, ◌++◌, append_assoc,
  append-nil, none, is_some, Option-cases, All, ok, arith,
}
use everett.Fingerprint.{Algebra, IsRing}
use everett.Pins.Lookup.{str_eq_comm, Distinct, find-snoc, is_input-snoc, outside-nil}
use everett.Pins.Sums.{total, sum_from-total}
use everett.Pins.Owner.{IsValid, signed_total}
use everett.Pins.Replacement.{gather-total}
use everett.Pins.{
  Entry, PinSet, find, validate, is_input, outside, sum_from, gather, check, composed, replace,
}

-- No identity occurs twice.
abbrev pub DistinctIds : List String → Type 0
DistinctIds [] = Unit {0}
DistinctIds (x ∷ xs) = (is_input xs x ≡ false) × DistinctIds xs

is_input-All-snoc :
    (ins xs : List String) (x : String)
    → All (λ y. is_input ins y ≡ false) xs
    → is_input xs x ≡ false
    → All (λ y. is_input (ins ++ (x ∷ [])) y ≡ false) xs
unfolding is_input
is_input-All-snoc ins [] x h n = tt
is_input-All-snoc ins (y ∷ xs) x h n = (
  ground (arith, is_input-snoc ins x y, h.0, str_eq_comm x y),
  is_input-All-snoc ins xs x h.1 (ground arith),
)

All-intro {κ} : {X : Type 0} {P : X → Type κ} (xs : List X) → ((x : X) → P x) → All P xs
All-intro [] h = tt
All-intro (x ∷ xs) h = (h x, All-intro xs h)

module _ {E T : Type 0} where
  find-All-snoc :
      (earlier xs : List (Entry E T)) (e : Entry E T)
      → All (λ y. find earlier y.object_id ≡ none) xs
      → find xs e.object_id ≡ none
      → All (λ y. find (earlier ++ (e ∷ [])) y.object_id ≡ none) xs
  unfolding find
  find-All-snoc earlier [] e h n = tt
  find-All-snoc earlier (y ∷ xs) e h n = (
    ground (arith, find-snoc earlier e y.object_id h.0, str_eq_comm e.object_id y.object_id),
    find-All-snoc earlier xs e h.1 (ground arith),
  )

module _ {E T : Type 0} (A : Algebra E) (p : PinSet E T) where
  gather_succeeds :
      (ins rest : List String) (removed : E)
      → All (λ x. is_input ins x ≡ false) rest
      → DistinctIds rest
      → All (λ x. is_some (find p.entries x) ≡ true) rest
      → (sum : E) × (gather A p ins removed rest ≡ ok (ins ++ rest, sum))
  unfolding gather
  gather_succeeds ins [] removed fresh d present =
      (removed, ap (λ xs. ok (xs, removed)) (sym (append-nil ins)))
  gather_succeeds ins (x ∷ rest) removed fresh d present = elim (Option-cases (find p.entries x)) [
    | inl e ↦ absurd (ground (arith, e, present.0))
    | inr (old, e) ↦
        let (sum, h) =
          gather_succeeds (ins ++ (x ∷ [])) rest (A.add removed old.contribution)
            (is_input-All-snoc ins rest x fresh.1 d.0) d.1 present.1 in
        (
          sum,
          rw (fresh.0, e, gather) (h ∙ ap (λ xs. ok (xs, sum)) (append_assoc ins (x ∷ []) rest)),
        )
  ]

  check_succeeds :
      (earlier rest : List (Entry E T)) (added : E)
      → All (λ item. validate item ≡ true) rest
      → Distinct rest
      → All (λ item. find p.entries item.object_id ≡ none) rest
      → All (λ item. find earlier item.object_id ≡ none) rest
      → check A p earlier added rest ≡ ok (sum_from A added rest)
  unfolding check sum_from
  check_succeeds earlier [] added named d absent fresh = refl
  check_succeeds earlier (item ∷ rest) added named d absent fresh =
      rw (named.0, absent.0, fresh.0, check, sum_from)
        (check_succeeds (earlier ++ (item ∷ [])) rest (A.add added item.contribution) named.1 d.1
          absent.1 (find-All-snoc earlier rest item fresh.1 d.0))

module _ {E T : Type 0} (A : Algebra E) (r : IsRing A) (eq : E → E → Bool) where
  -- On a valid owner, under an algebra with the laws of a ring and an equality test that accepts equal
  -- elements, `replace` succeeds for distinct expected identities that are all pinned and for
  -- replacements that are named objects with distinct identities, none of them pinned, if their
  -- contributions and those of the entries that stay sum to the owner's signature.
  pub replace_succeeds :
      (p : PinSet E T) (expected : List String) (replacements : List (Entry E T))
      → ((x : E) → eq x x ≡ true)
      → IsValid A p
      → DistinctIds expected
      → All (λ x. is_some (find p.entries x) ≡ true) expected
      → All (λ item. validate item ≡ true) replacements
      → Distinct replacements
      → All (λ item. find p.entries item.object_id ≡ none) replacements
      → A.add
          (sum_from A A.nothing replacements)
          (sum_from A A.nothing (outside expected p.entries))
        ≡ p.signature
      → (q : PinSet E T) × (replace A eq p expected replacements ≡ ok q)
  unfolding replace
  replace_succeeds p expected replacements accepts v d present named distinct absent sums =
      let (sum, g) =
        gather_succeeds A p [] expected A.nothing (All-intro expected (λ x. refl)) d present in
      let c =
        check_succeeds A p [] replacements A.nothing named distinct absent
          (All-intro replacements (λ x. refl)) in
      let balanced = balance sum g in
      (composed A p replacements expected sum sum, rw (g, c, replace, balanced, accepts sum) refl)
    where
      sum_total : (xs : List (Entry E T)) → sum_from A A.nothing xs ≡ total A xs
      sum_total xs = sum_from-total A r A.nothing xs ∙ r.nothing_add _

      whole : total A p.entries ≡ A.add A.nothing (total A (outside [] p.entries))
      whole = sym (r.nothing_add _ ∙ ap (total A) (outside-nil p.entries))

      balance :
          (sum : E)
          → gather A p [] A.nothing expected ≡ ok (expected, sum)
          → sum_from A A.nothing replacements ≡ sum
      balance sum g =
          sym (r.subtract_add _ rest)
          ∙ (ap (λ x. A.subtract x rest)
                (sums
                  ∙ (signed_total A r p v
                      ∙ ((gather-total A r p [] expected A.nothing expected sum v.distinct g
                            whole).1
                          ∙ ap (A.add sum) (sym (sum_total (outside expected p.entries))))))
              ∙ r.subtract_add _ rest)
        where
          rest : E
          rest = sum_from A A.nothing (outside expected p.entries)
