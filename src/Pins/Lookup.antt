-- ===== src/Pins/Lookup.antt =====
-- pins.h: how looking up an identity meets the loops that add and drop entries.
use Prim.Native.String.{String}
use text.Mathlib.Text.{◌==◌ as str_eq}
use text.Mathlib.TextEquality.{eq_iff}
use everett.Base.{
  ◌≡◌, refl, ap, inl, inr, true, ◌||◌, List, [], ◌∷◌, ◌++◌, none, some, is_some, if◌then◌else◌,
  Bool-cases, All, arith,
}
use everett.Pins.{Entry, find, without, is_input, outside}

pub str_eq_comm : (s t : String) → str_eq s t ≡ str_eq t s
str_eq_comm s t = ground (arith, (eq_iff s t).0, (eq_iff t s).0, (eq_iff s t).1, (eq_iff t s).1)

pub is_input-snoc :
    (ins : List String) (id other : String)
    → is_input (ins ++ (id ∷ [])) other ≡ (is_input ins other || str_eq id other)
unfolding is_input
is_input-snoc [] id other = ground arith
is_input-snoc (x ∷ ins) id other = ground (arith, is_input-snoc ins id other)

module _ {E T : Type 0} where
  -- No two entries have one identity.
  abbrev pub Distinct : List (Entry E T) → Type 0
  Distinct [] = Unit {0}
  Distinct (item ∷ rest) = (find rest item.object_id ≡ none) × Distinct rest

  pub find-snoc :
      (xs : List (Entry E T)) (e : Entry E T) (id : String)
      → find xs id ≡ none
      → find (xs ++ (e ∷ [])) id ≡ (if str_eq e.object_id id then some e else none)
  unfolding find
  find-snoc [] e id h = refl
  find-snoc (x ∷ xs) e id h = ground (arith, find-snoc xs e id)

  pub find-append :
      (xs ys : List (Entry E T)) (id : String)
      → find (xs ++ ys) id ≡ (if is_some (find xs id) then find xs id else find ys id)
  unfolding find
  find-append [] ys id = refl
  find-append (x ∷ xs) ys id = ground (arith, find-append xs ys id)

  -- Behind entries that do not have its identity, one more entry is found by it, and nothing else
  -- changes.
  pub find-grown :
      (xs : List (Entry E T)) (e : Entry E T) (id : String)
      → find xs e.object_id ≡ none
      → find (xs ++ (e ∷ [])) id ≡ (if str_eq e.object_id id then some e else find xs id)
  unfolding find
  find-grown xs e id h = ground (arith, find-append xs (e ∷ []) id, (eq_iff e.object_id id).0)

  pub find-last :
      (xs : List (Entry E T)) (e : Entry E T)
      → find xs e.object_id ≡ none
      → find (xs ++ (e ∷ [])) e.object_id ≡ some e
  find-last xs e h = ground (arith, find-grown xs e e.object_id, (eq_iff e.object_id e.object_id).1)

  pub find-id :
      (xs : List (Entry E T)) (e : Entry E T) (id : String) → find xs id ≡ some e → e.object_id ≡ id
  unfolding find
  find-id [] e id h = absurd (cc)
  find-id (x ∷ xs) e id h = ground (arith, find-id xs e id, (eq_iff x.object_id id).0)

  pub find-without :
      (xs : List (Entry E T)) (id other : String)
      → find (without xs id) other ≡ (if str_eq id other then none else find xs other)
  unfolding find without
  find-without [] id other = ground arith
  find-without (x ∷ xs) id other = ground (
    arith,
    find-without xs id other,
    (eq_iff id other).0,
    (eq_iff x.object_id id).0,
    (eq_iff x.object_id other).1,
  )

  pub find-outside :
      (ins : List String) (xs : List (Entry E T)) (id : String)
      → find (outside ins xs) id ≡ (if is_input ins id then none else find xs id)
  unfolding find outside
  find-outside ins [] id = ground arith
  find-outside ins (x ∷ xs) id = ground (arith, find-outside ins xs id, (eq_iff x.object_id id).0)

  pub outside-nil : (xs : List (Entry E T)) → outside [] xs ≡ xs
  unfolding outside is_input
  outside-nil [] = refl
  outside-nil (x ∷ xs) = ap (λ ys. x ∷ ys) (outside-nil xs)

  pub outside-snoc :
      (ins : List String) (id : String) (xs : List (Entry E T))
      → outside (ins ++ (id ∷ [])) xs ≡ without (outside ins xs) id
  unfolding outside without
  outside-snoc ins id [] = refl
  outside-snoc ins id (x ∷ xs) =
      ground (
        arith,
        outside-snoc ins id xs,
        is_input-snoc ins id x.object_id,
        str_eq_comm id x.object_id,
      )

  pub without-absent :
      (xs : List (Entry E T)) (id : String) → find xs id ≡ none → without xs id ≡ xs
  unfolding find without
  without-absent [] id h = refl
  without-absent (x ∷ xs) id h = ground (arith, without-absent xs id)

  pub without-grown :
      (xs : List (Entry E T)) (e : Entry E T)
      → find xs e.object_id ≡ none
      → without (xs ++ (e ∷ [])) e.object_id ≡ xs
  unfolding find without
  without-grown [] e h = ground (arith, (eq_iff e.object_id e.object_id).1)
  without-grown (x ∷ xs) e h = ground (arith, without-grown xs e)

  -- Dropping entries keeps the others' identities apart.
  pub Distinct-without :
      (xs : List (Entry E T)) (id : String) → Distinct xs → Distinct (without xs id)
  unfolding without
  Distinct-without [] id d = tt
  Distinct-without (x ∷ xs) id d =
      ground (arith, find-without xs id x.object_id, Distinct-without xs id)

  pub Distinct-outside :
      (ins : List String) (xs : List (Entry E T)) → Distinct xs → Distinct (outside ins xs)
  unfolding outside
  Distinct-outside ins [] d = tt
  Distinct-outside ins (x ∷ xs) d =
      ground (arith, find-outside ins xs x.object_id, Distinct-outside ins xs)

  pub Distinct-snoc :
      (xs : List (Entry E T)) (e : Entry E T)
      → Distinct xs
      → find xs e.object_id ≡ none
      → Distinct (xs ++ (e ∷ []))
  unfolding find
  Distinct-snoc [] e d h = (refl, tt)
  Distinct-snoc (x ∷ xs) e d h =
      ground
        (arith, find-snoc xs e x.object_id, Distinct-snoc xs e, str_eq_comm x.object_id e.object_id)

  pub All-outside {κ} :
      (P : Entry E T → Type κ) (ins : List String) (xs : List (Entry E T))
      → All P xs
      → All P (outside ins xs)
  unfolding outside
  All-outside P ins [] h = tt
  All-outside P ins (x ∷ xs) h = elim (Bool-cases (is_input ins x.object_id)) [
    | inl e ↦ rw (e, outside) (All-outside P ins xs h.1)
    | inr n ↦ rw (n, outside) (h.0, All-outside P ins xs h.1)
  ]

  pub find-outside-none :
      (ins : List String) (xs ys : List (Entry E T))
      → All (λ y. find xs y.object_id ≡ none) ys
      → All (λ y. find (outside ins xs) y.object_id ≡ none) ys
  find-outside-none ins xs [] h = tt
  find-outside-none ins xs (y ∷ ys) h =
      (ground (arith, find-outside ins xs y.object_id, h.0), find-outside-none ins xs ys h.1)

  find-All-none :
      (x : Entry E T) (xs ys : List (Entry E T))
      → All (λ y. find (x ∷ xs) y.object_id ≡ none) ys
      → (find ys x.object_id ≡ none) × All (λ y. find xs y.object_id ≡ none) ys
  unfolding find
  find-All-none x xs [] h = (refl, tt)
  find-All-none x xs (y ∷ ys) h =
      ground (arith, h.0, find-All-none x xs ys h.1, str_eq_comm x.object_id y.object_id)

  pub Distinct-append :
      (xs ys : List (Entry E T))
      → Distinct xs
      → Distinct ys
      → All (λ y. find xs y.object_id ≡ none) ys
      → Distinct (xs ++ ys)
  Distinct-append [] ys d d' h = d'
  Distinct-append (x ∷ xs) ys d d' h =
      let (absent, rest) = find-All-none x xs ys h in
      (
        ground (arith, find-append xs ys x.object_id, d.0, absent),
        Distinct-append xs ys d.1 d' rest,
      )

  -- What is found in `xs` is not found among entries whose identities `xs` does not have.
  pub find-absent :
      (xs ys : List (Entry E T)) (id : String)
      → All (λ y. find xs y.object_id ≡ none) ys
      → is_some (find xs id) ≡ true
      → find ys id ≡ none
  unfolding find
  find-absent xs [] id h known = refl
  find-absent xs (y ∷ ys) id h known =
      ground
        (arith, h.0, find-absent xs ys id h.1 known, known, ap (find xs), (eq_iff y.object_id id).0)
