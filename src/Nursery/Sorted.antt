-- ===== src/Nursery/Sorted.antt =====
-- The abstract view of a nursery: a list of bindings with rising keys.
use everett.Base.{
  ◌≡◌, refl, inl, inr, Bool, true, false, ◌&&◌, not, List, [], ◌∷◌, ◌++◌, Option, none, some,
  if◌then◌else◌, Bool-cases, length, is_some, ◌+◌, arith,
}
use everett.Nursery.{Comparator, less}

-- Where the comparator has neither before the other.
abbrev pub equivalent {ℓ} : {K : Type ℓ} ⦃o : Comparator K⦄ → K → K → Bool
equivalent a b = not (less a b) && not (less b a)

module _ {ℓ κ} {K : Type ℓ} {V : Type κ} ⦃o : Comparator K⦄ where
  -- Every binding of the list is behind the key, or before it.
  abbrev pub After : K → List (K × V) → Type 0
  After k [] = Unit {0}
  After k (b ∷ bs) = (less k b.0 ≡ true) × After k bs

  abbrev pub Before : K → List (K × V) → Type 0
  Before k [] = Unit {0}
  Before k (b ∷ bs) = (less b.0 k ≡ true) × Before k bs

  abbrev pub Sorted : List (K × V) → Type 0
  Sorted [] = Unit {0}
  Sorted (b ∷ bs) = After b.0 bs × Sorted bs

  unfoldable pub locate : K → List (K × V) → Option V
  locate k [] = none
  locate k (b ∷ bs) = if less k b.0 then none else (if less b.0 k then locate k bs else some b.1)

  unfoldable pub assign : K → V → List (K × V) → List (K × V)
  assign k v [] = (k, v) ∷ []
  assign k v (b ∷ bs) =
      if less k b.0
      then (k, v) ∷ (b ∷ bs)
      else (if less b.0 k then b ∷ assign k v bs else (b.0, v) ∷ bs)

  unfoldable pub discard : K → List (K × V) → List (K × V)
  discard k [] = []
  discard k (b ∷ bs) = if less k b.0 then b ∷ bs else (if less b.0 k then b ∷ discard k bs else bs)

module _ {ℓ} {K : Type ℓ} ⦃o : Comparator K⦄ where
  pub less_asym : (a b : K) → less a b ≡ true → less b a ≡ false
  less_asym a b h = elim (Bool-cases (less b a)) [
    | inl e ↦ cc (o.transitive a b a h e, o.irreflexive a)
    | inr e ↦ e
  ]

  -- What is before `b` is before everything that is not before `b`.
  pub less_of_not_less : (a b k : K) → less a b ≡ true → less k b ≡ false → less a k ≡ true
  less_of_not_less a b k h n = elim (o.cotransitive a k b h) [ inl e ↦ e | inr e ↦ cc ]

  pub less_of_less_not : (b k c : K) → less k b ≡ false → less k c ≡ true → less b c ≡ true
  less_of_less_not b k c n h = elim (o.cotransitive k b c h) [ inl e ↦ cc | inr e ↦ e ]

module _ {ℓ κ} {K : Type ℓ} {V : Type κ} ⦃o : Comparator K⦄ where
  After-split : (k : K) (xs ys : List (K × V)) → After k (xs ++ ys) → After k xs × After k ys
  After-split k [] ys h = (tt, h)
  After-split k (x ∷ xs) ys h = let (p, q) = After-split k xs ys h.1 in ((h.0, p), q)

  pub Sorted-split :
      (b : K × V) (xs ys : List (K × V))
      → Sorted (xs ++ (b ∷ ys))
      → Sorted xs × Before b.0 xs × Sorted (b ∷ ys)
  Sorted-split b [] ys h = (tt, tt, h)
  Sorted-split b (x ∷ xs) ys h =
      let (p, q) = After-split x.0 xs (b ∷ ys) h.0 in
      let (s, f, t) = Sorted-split b xs ys h.1 in ((p, s), (q.0, f), t)

  -- Before a key that is not before `k`'s binding.
  pub Before-le : (j k : K) (xs : List (K × V)) → less k j ≡ false → Before j xs → Before k xs
  Before-le j k [] n h = tt
  Before-le j k (x ∷ xs) n h = (less_of_not_less x.0 j k h.0 n, Before-le j k xs n h.1)

  After-lt : (j k : K) (xs : List (K × V)) → less k j ≡ true → After j xs → After k xs
  After-lt j k [] n h = tt
  After-lt j k (x ∷ xs) n h = (o.transitive k j x.0 n h.0, After-lt j k xs n h.1)

  After-assign :
      (j k : K) (v : V) (bs : List (K × V)) → less j k ≡ true → After j bs → After j (assign k v bs)
  unfolding assign
  After-assign j k v [] n h = (n, tt)
  After-assign j k v (b ∷ bs) n h = ground (arith, After-assign j k v bs n h.1)

  pub assign-Sorted : (k : K) (v : V) (bs : List (K × V)) → Sorted bs → Sorted (assign k v bs)
  unfolding assign
  assign-Sorted k v [] h = (tt, tt)
  assign-Sorted k v (b ∷ bs) h =
      ground (arith, assign-Sorted k v bs h.1, After-assign b.0 k v bs, After-lt b.0 k bs)

  After-discard : (j k : K) (bs : List (K × V)) → After j bs → After j (discard k bs)
  unfolding discard
  After-discard j k [] h = tt
  After-discard j k (b ∷ bs) h = ground (arith, After-discard j k bs h.1)

  pub discard-Sorted : (k : K) (bs : List (K × V)) → Sorted bs → Sorted (discard k bs)
  unfolding discard
  discard-Sorted k [] h = tt
  discard-Sorted k (b ∷ bs) h = ground (arith, discard-Sorted k bs h.1, After-discard b.0 k bs h.0)

  -- An operation passes over the bindings that are before its key.
  pub locate-skip : (k : K) (xs ys : List (K × V)) → Before k xs → locate k (xs ++ ys) ≡ locate k ys
  unfolding locate
  locate-skip k [] ys h = refl
  locate-skip k (x ∷ xs) ys h = ground (arith, locate-skip k xs ys h.1, less_asym x.0 k h.0)

  pub assign-skip :
      (k : K) (v : V) (xs ys : List (K × V))
      → Before k xs
      → assign k v (xs ++ ys) ≡ xs ++ assign k v ys
  unfolding assign
  assign-skip k v [] ys h = refl
  assign-skip k v (x ∷ xs) ys h = ground (arith, assign-skip k v xs ys h.1, less_asym x.0 k h.0)

  pub discard-skip :
      (k : K) (xs ys : List (K × V)) → Before k xs → discard k (xs ++ ys) ≡ xs ++ discard k ys
  unfolding discard
  discard-skip k [] ys h = refl
  discard-skip k (x ∷ xs) ys h = ground (arith, discard-skip k xs ys h.1, less_asym x.0 k h.0)

  -- Nor does it reach what stands behind a binding that its key is before.
  pub locate-stop :
      (k : K) (b : K × V) (xs ys : List (K × V))
      → less k b.0 ≡ true
      → locate k (xs ++ (b ∷ ys)) ≡ locate k xs
  unfolding locate
  locate-stop k b [] ys h = ground arith
  locate-stop k b (x ∷ xs) ys h = ground (arith, locate-stop k b xs ys h)

  pub assign-stop :
      (k : K) (v : V) (b : K × V) (xs ys : List (K × V))
      → less k b.0 ≡ true
      → assign k v (xs ++ (b ∷ ys)) ≡ assign k v xs ++ (b ∷ ys)
  unfolding assign
  assign-stop k v b [] ys h = ground arith
  assign-stop k v b (x ∷ xs) ys h = ground (arith, assign-stop k v b xs ys h)

  pub discard-stop :
      (k : K) (b : K × V) (xs ys : List (K × V))
      → less k b.0 ≡ true
      → discard k (xs ++ (b ∷ ys)) ≡ discard k xs ++ (b ∷ ys)
  unfolding discard
  discard-stop k b [] ys h = ground arith
  discard-stop k b (x ∷ xs) ys h = ground (arith, discard-stop k b xs ys h)

module _ {ℓ κ} {K : Type ℓ} {V : Type κ} ⦃o : Comparator K⦄ where
  pub length-assign :
      (k : K) (v : V) (bs : List (K × V))
      → length (assign k v bs) ≡ length bs + (if not (is_some (locate k bs)) then 1 else 0)
  unfolding assign locate
  length-assign k v [] = omega arith
  length-assign k v (b ∷ bs) = ground (arith, length-assign k v bs)

  pub length-discard :
      (k : K) (bs : List (K × V))
      → length bs ≡ length (discard k bs) + (if is_some (locate k bs) then 1 else 0)
  unfolding discard locate
  length-discard k [] = omega arith
  length-discard k (b ∷ bs) = ground (arith, length-discard k bs)
