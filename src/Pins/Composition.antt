-- ===== src/Pins/Composition.antt =====
-- pins.h: a successful `replace` keeps the owner valid and its signature, and what it then pins.
use Prim.Native.String.{String}
use everett.Base.{
  ◌≡◌, sym, subst, ◌∙◌, ap, inl, inr, Bool, true, none, List, [], ◌++◌, map-append, is_some,
  if◌then◌else◌, Bool-cases, All-append, arith, ok, ok_inj, Result-cases,
}
use everett.Fingerprint.{Algebra, IsRing}
use everett.Pins.Lookup.{
  find-append, find-outside, find-absent, outside-nil, All-outside, find-outside-none,
  Distinct-append, Distinct-outside,
}
use everett.Pins.Sums.{total-nil, total, total-append}
use everett.Pins.Owner.{IsValid, recompute-total, signed_total}
use everett.Pins.Replacement.{gather-total, Checked, check-Checked}
use everett.Pins.{
  Entry, PinSet, object_of, find, is_input, outside, gather, check, composed, replaced, replace,
}

module _ {E T : Type 0} (A : Algebra E) (r : IsRing A) (eq : E → E → Bool) where
  -- What a successful call has found: the sum that it removes, and the one that it adds.
  pub record Replaced (p : PinSet E T) (expected : List String) (replacements : List (Entry E T))
      (q : PinSet E T) : Type 0 where
    pub sum : E
    pub parts : total A p.entries ≡ A.add sum (total A (outside expected p.entries))
    pub checked : Checked A r p replacements sum
    pub result : q ≡ composed A p replacements expected sum sum

  replaced_ok :
      (p : PinSet E T) (replacements : List (Entry E T)) (inputs : List String) (removed added : E)
      (q : PinSet E T)
      → ((x y : E) → eq x y ≡ true → x ≡ y)
      → replaced A eq p replacements inputs removed added ≡ ok q
      → (added ≡ removed) × (q ≡ composed A p replacements inputs removed added)
  replaced_ok p replacements inputs removed added q sound = elim (Bool-cases (eq added removed)) [
    | inr n ↦ rw (n) (λ h. absurd (cc))
    | inl e ↦ rw (e) (λ h. (sound added removed e, sym (ok_inj h)))
  ]

  assemble :
      (p : PinSet E T) (expected inputs : List String) (replacements : List (Entry E T))
      (removed added : E) (q : PinSet E T)
      → inputs ≡ expected
      → total A p.entries ≡ A.add removed (total A (outside inputs p.entries))
      → Checked A r p replacements added
      → added ≡ removed
      → q ≡ composed A p replacements inputs removed added
      → Replaced p expected replacements q
  assemble p expected inputs replacements removed added q all parts checked same result =
      subst (λ xs. Replaced p xs replacements q) all
        (record {
          sum = removed;
          parts = parts;
          checked = subst (Checked A r p replacements) same checked;
          result = result ∙ ap (λ x. composed A p replacements inputs removed x) same;
        })

  whole : (p : PinSet E T) → total A p.entries ≡ A.add A.nothing (total A (outside [] p.entries))
  whole p = sym (r.nothing_add _ ∙ ap (total A) (outside-nil p.entries))

  replace_ok :
      (p : PinSet E T) (expected : List String) (replacements : List (Entry E T)) (q : PinSet E T)
      → ((x y : E) → eq x y ≡ true → x ≡ y)
      → IsValid A p
      → replace A eq p expected replacements ≡ ok q
      → Replaced p expected replacements q
  unfolding replace
  replace_ok p expected replacements q sound v =
      elim (Result-cases (gather A p [] A.nothing expected)) [
        | inr (x, e) ↦ rw (e, replace) (λ h. absurd (cc))
        | inl ((inputs, removed), e) ↦ elim (Result-cases (check A p [] A.nothing replacements)) [
          | inr (x, e') ↦ rw (e, e', replace) (λ h. absurd (cc))
          | inl (added, e') ↦
              rw (e, e', replace)
                (λ h.
                  let (same, sum) = replaced_ok p replacements inputs removed added q sound h in
                  let (all, parts) =
                    gather-total A r p [] expected A.nothing inputs removed v.distinct e
                      (whole p) in
                  assemble p expected inputs replacements removed added q all parts
                    (check-Checked A r p [] replacements A.nothing added e' (record {
                      named = tt;
                      distinct = tt;
                      absent = tt;
                      summed = sym (total-nil T A);
                    }))
                    same sum)
        ]
      ]

  pub replace-IsValid :
      (p : PinSet E T) (expected : List String) (replacements : List (Entry E T)) (q : PinSet E T)
      → ((x y : E) → eq x y ≡ true → x ≡ y)
      → IsValid A p
      → replace A eq p expected replacements ≡ ok q
      → IsValid A q
  replace-IsValid p expected replacements q sound v h = subst (IsValid A) (sym o.result) (record {
    named =
        All-append _ (outside expected p.entries) _ (All-outside _ expected p.entries v.named)
          o.checked.named;
    distinct =
        Distinct-append _ _ (Distinct-outside expected p.entries v.distinct) o.checked.distinct
          (find-outside-none expected p.entries replacements o.checked.absent);
    pinned = sym (map-append object_of (outside expected p.entries) replacements);
    signed =
        r.add_subtract _ _
        ∙ (signed_total A r p v
            ∙ (o.parts
                ∙ (r.add_comm _ _
                    ∙ (ap (A.add _) o.checked.summed
                        ∙ (sym (total-append A r (outside expected p.entries) replacements)
                            ∙ sym (recompute-total A r _))))));
  })
    where
      o : Replaced p expected replacements q
      o = replace_ok p expected replacements q sound v h

  -- A successful `replace` on a valid owner, under an algebra with the laws of a ring and an equality
  -- test that is sound: the signature stays what it was, an identity that was pinned and expected
  -- finds nothing, one that was pinned and not expected finds what it found before, and one that was
  -- not pinned finds what it finds among the replacements.
  pub replace_kept :
      (p : PinSet E T) (expected : List String) (replacements : List (Entry E T)) (q : PinSet E T)
      → ((x y : E) → eq x y ≡ true → x ≡ y)
      → IsValid A p
      → replace A eq p expected replacements ≡ ok q
      → (q.signature ≡ p.signature)
        × ((id : String)
            → find q.entries id ≡ (
                if is_some (find p.entries id)
                then (if is_input expected id then none else find p.entries id)
                else find replacements id))
  replace_kept p expected replacements q sound v h = (
    ap (λ s. s.signature) o.result ∙ r.add_subtract _ _,
    λ id. ap (λ s. find s.entries id) o.result ∙ found id,
  )
    where
      o : Replaced p expected replacements q
      o = replace_ok p expected replacements q sound v h

      found :
          (id : String)
          → find (outside expected p.entries ++ replacements) id ≡ (
              if is_some (find p.entries id)
              then (if is_input expected id then none else find p.entries id)
              else find replacements id)
      found id = ground (
        arith,
        find-append (outside expected p.entries) replacements id,
        find-outside expected p.entries id,
        find-absent p.entries replacements id o.checked.absent,
      )
