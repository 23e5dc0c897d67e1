-- ===== src/Pins/Replacement.antt =====
-- pins.h: `replace`, which exchanges pinned objects for others of the same total contribution.
use Prim.Native.String.{String}
use everett.Base.{
  ◌≡◌, sym, subst, ◌∙◌, ap, inl, inr, true, false, List, [], ◌∷◌, ◌++◌, append_assoc, append-nil,
  none, some, Option-cases, Bool-cases, All, All-append, ok, ok_inj,
}
use everett.Fingerprint.{Algebra, IsRing}
use everett.Pins.Lookup.{Distinct, find-outside, outside-snoc, Distinct-snoc, Distinct-outside}
use everett.Pins.Sums.{total, total-snoc, total-without}
use everett.Pins.{Entry, PinSet, find, validate, is_input, outside, gather, check}

module _ {E T : Type 0} (A : Algebra E) (r : IsRing A) (p : PinSet E T) where
  -- After the first loop: what is left with the inputs taken out, and what is removed, make up the sum.
  pub gather-total :
      (ins rest : List String) (removed : E) (ins' : List String) (removed' : E)
      → Distinct p.entries
      → gather A p ins removed rest ≡ ok (ins', removed')
      → total A p.entries ≡ A.add removed (total A (outside ins p.entries))
      → (ins' ≡ ins ++ rest)
        × (total A p.entries ≡ A.add removed' (total A (outside ins' p.entries)))
  unfolding gather
  gather-total ins [] removed ins' removed' d = λ h t. (
    sym (ap (λ a. a.0) (ok_inj h)) ∙ sym (append-nil ins),
    t ∙ ap (λ a. A.add a.1 (total A (outside a.0 p.entries))) (ok_inj h),
  )
  gather-total ins (x ∷ rest) removed ins' removed' d = elim (Bool-cases (is_input ins x)) [
    | inl e ↦ rw (e, gather) (λ h. absurd (cc))
    | inr n ↦ elim (Option-cases (find p.entries x)) [
      | inl e ↦ rw (n, e, gather) (λ h. absurd (cc))
      | inr (old, e) ↦
          rw (n, e, gather)
            (λ h t.
              let (same, sum) =
                gather-total (ins ++ (x ∷ [])) rest _ ins' removed' d h (moved old n e t) in
              (same ∙ append_assoc ins (x ∷ []) rest, sum))
    ]
  ]
    where
      moved :
          (old : Entry E T)
          → is_input ins x ≡ false
          → find p.entries x ≡ some old
          → total A p.entries ≡ A.add removed (total A (outside ins p.entries))
          → total A p.entries
            ≡ A.add (A.add removed old.contribution) (total A (outside (ins ++ (x ∷ [])) p.entries))
      moved old n e t =
          t
          ∙ (ap (A.add removed) (
                total-without A r (outside ins p.entries) x old (Distinct-outside ins p.entries d)
                  (find-outside ins p.entries x ∙ rw (n) e)
                ∙ (r.add_comm _ _
                    ∙ ap (λ ys. A.add old.contribution (total A ys))
                        (sym (outside-snoc ins x p.entries))))
              ∙ sym (r.add_assoc _ _ _))

  pub record Checked (xs : List (Entry E T)) (added : E) : Type 0 where
    pub named : All (λ item. validate item ≡ true) xs
    pub distinct : Distinct xs
    pub absent : All (λ item. find p.entries item.object_id ≡ none) xs
    pub summed : added ≡ total A xs

  pub check-Checked :
      (earlier rest : List (Entry E T)) (added added' : E)
      → check A p earlier added rest ≡ ok added'
      → Checked earlier added
      → Checked (earlier ++ rest) added'
  unfolding check
  check-Checked earlier [] added added' = λ h c.
      subst (λ xs. Checked xs added') (sym (append-nil earlier))
        (subst (Checked earlier) (ok_inj h) c)
  check-Checked earlier (item ∷ rest) added added' = elim (Bool-cases (validate item)) [
    | inr n ↦ rw (n, check) (λ h. absurd (cc))
    | inl v ↦ elim (Option-cases (find p.entries item.object_id)) [
      | inr (old, e) ↦ rw (v, e, check) (λ h. absurd (cc))
      | inl e ↦ elim (Option-cases (find earlier item.object_id)) [
        | inr (old, e') ↦ rw (v, e, e', check) (λ h. absurd (cc))
        | inl e' ↦
            rw (v, e, e', check)
              (λ h c.
                subst (λ xs. Checked xs added') (append_assoc earlier (item ∷ []) rest)
                  (check-Checked (earlier ++ (item ∷ [])) rest _ added' h (record {
                    named = All-append _ earlier _ c.named (v, tt);
                    distinct = Distinct-snoc earlier item c.distinct e';
                    absent = All-append _ earlier _ c.absent (e, tt);
                    summed =
                        ap (λ a. A.add a item.contribution) c.summed
                        ∙ sym (total-snoc A r earlier item);
                  })))
      ]
    ]
  ]
