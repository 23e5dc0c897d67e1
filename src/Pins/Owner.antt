-- ===== src/Pins/Owner.antt =====
-- pins.h: what an owner keeps true, and how `add` and `remove` change it.
use Prim.Native.String.{String}
use text.Mathlib.Text.{◌==◌ as str_eq}
use everett.Base.{
  ◌≡◌, refl, sym, subst, ◌∙◌, ap, inl, inr, true, List, [], ◌∷◌, ◌++◌, map, map-append, none, some,
  Option-cases, if◌then◌else◌, Bool-cases, All, All-append, ok, ok_inj,
}
use everett.Fingerprint.{Algebra, IsRing}
use everett.Pins.Lookup.{
  Distinct, find-grown, find-last, find-without, without-grown, Distinct-snoc, Distinct-without,
}
use everett.Pins.Sums.{total, sum_from-total, total-snoc, total-without}
use everett.Pins.{
  Entry, PinSet, object_of, empty_set, find, validate, without, sum_from, recompute_signature, add,
  remove,
}

module _ {E T : Type 0} (A : Algebra E) where
  -- The entries are named objects with distinct identities; the pins are their objects, in order; and
  -- the cached signature is the recomputed one.
  pub record IsValid (p : PinSet E T) : Type 0 where
    pub named : All (λ item. validate item ≡ true) p.entries
    pub distinct : Distinct p.entries
    pub pinned : p.pins ≡ map object_of p.entries
    pub signed : p.signature ≡ recompute_signature A p

module _ {E T : Type 0} (A : Algebra E) where
  pub empty-IsValid : IsValid {T = T} A (empty_set A)
  unfolding recompute_signature sum_from
  empty-IsValid = record { named = tt; distinct = tt; pinned = refl; signed = refl }

module _ {E T : Type 0} (A : Algebra E) (r : IsRing A) where
  pub recompute-total : (p : PinSet E T) → recompute_signature A p ≡ total A p.entries
  unfolding recompute_signature
  recompute-total p = sum_from-total A r _ _ ∙ r.nothing_add _

  pub All-without :
      (xs : List (Entry E T)) (id : String)
      → All (λ item. validate item ≡ true) xs
      → All (λ item. validate item ≡ true) (without xs id)
  unfolding without
  All-without [] id h = tt
  All-without (x ∷ xs) id h = elim (Bool-cases (str_eq x.object_id id)) [
    | inl e ↦ rw (e, without) (All-without xs id h.1)
    | inr n ↦ rw (n, without) (h.0, All-without xs id h.1)
  ]

  pub signed_total : (p : PinSet E T) → IsValid A p → p.signature ≡ total A p.entries
  signed_total p v = v.signed ∙ recompute-total p

  add_ok :
      (p q : PinSet E T) (item : Entry E T)
      → add A p item ≡ ok q
      → (validate item ≡ true)
        × (find p.entries item.object_id ≡ none)
        × (q ≡ record {
          entries = p.entries ++ (item ∷ []);
          pins = p.pins ++ (item.object ∷ []);
          signature = A.add p.signature item.contribution;
        })
  unfolding add
  add_ok p q item = elim (Bool-cases (validate item)) [
    | inr n ↦ rw (n, add) (λ h. absurd (cc))
    | inl v ↦ elim (Option-cases (find p.entries item.object_id)) [
      | inr (old, e) ↦ rw (v, e, add) (λ h. absurd (cc))
      | inl e ↦ rw (v, e, add) (λ h. (refl, refl, sym (ok_inj h)))
    ]
  ]

  pub add-IsValid :
      (p q : PinSet E T) (item : Entry E T) → add A p item ≡ ok q → IsValid A p → IsValid A q
  add-IsValid p q item h v =
      let (ok_item, absent, e) = add_ok p q item h in
      subst (IsValid A) (sym e) (record {
        named = All-append _ p.entries _ v.named (ok_item, tt);
        distinct = Distinct-snoc p.entries item v.distinct absent;
        pinned =
            ap (λ ps. ps ++ (item.object ∷ [])) v.pinned ∙ sym (map-append object_of p.entries _);
        signed =
            ap (λ x. A.add x item.contribution) (signed_total p v)
            ∙ (sym (total-snoc A r p.entries item) ∙ sym (recompute-total _));
      })

  remove_ok :
      (p q : PinSet E T) (id : String)
      → remove A p id ≡ ok q
      → (old : Entry E T) × ((find p.entries id ≡ some old)
          × (q ≡ record {
            entries = without p.entries id;
            pins = map object_of (without p.entries id);
            signature = A.subtract p.signature old.contribution;
          }))
  unfolding remove
  remove_ok p q id = elim (Option-cases (find p.entries id)) [
    | inl e ↦ rw (e, remove) (λ h. absurd (cc))
    | inr (old, e) ↦ rw (e, remove) (λ h. (old, (refl, sym (ok_inj h))))
  ]

  pub remove-IsValid :
      (p q : PinSet E T) (id : String) → remove A p id ≡ ok q → IsValid A p → IsValid A q
  remove-IsValid p q id h v =
      let (old, (found, e)) = remove_ok p q id h in
      subst (IsValid A) (sym e) (record {
        named = All-without p.entries id v.named;
        distinct = Distinct-without p.entries id v.distinct;
        pinned = refl;
        signed =
            ap (λ x. A.subtract x old.contribution)
              (signed_total p v ∙ total-without A r p.entries id old v.distinct found)
            ∙ (r.subtract_add _ _ ∙ sym (recompute-total _));
      })

  -- On a valid owner, removing what was just added gives the owner back, entry for entry and with the
  -- same signature: the identity of an added item was not pinned.
  pub remove-add :
      (p q : PinSet E T) (item : Entry E T)
      → IsValid A p
      → add A p item ≡ ok q
      → remove A q item.object_id ≡ ok p
  unfolding remove
  remove-add p q item v h =
      let (ok_item, absent, e) = add_ok p q item h in
      subst (λ s. remove A s item.object_id ≡ ok p) (sym e)
        (rw (find-last p.entries item absent, without-grown p.entries item absent, remove)
          (ap ok (λ i. record {
            entries = p.entries;
            pins = sym v.pinned i;
            signature = r.subtract_add p.signature item.contribution i;
          })))

  -- A successful `add` changes what its item's identity finds, and nothing else.
  pub find-add :
      (p q : PinSet E T) (item : Entry E T) (id : String)
      → add A p item ≡ ok q
      → find q.entries id ≡ (if str_eq item.object_id id then some item else find p.entries id)
  find-add p q item id h =
      let (ok_item, absent, e) = add_ok p q item h in
      ap (λ s. find s.entries id) e ∙ find-grown p.entries item id absent

  -- After a successful `remove` the identity finds nothing, and all others what they found before.
  pub find-remove :
      (p q : PinSet E T) (id other : String)
      → remove A p id ≡ ok q
      → find q.entries other ≡ (if str_eq id other then none else find p.entries other)
  find-remove p q id other h =
      let (old, (found, e)) = remove_ok p q id h in
      ap (λ s. find s.entries other) e ∙ find-without p.entries id other
