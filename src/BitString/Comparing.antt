-- ===== src/BitString/Comparing.antt =====
-- profile.h: the comparison by words finds the order of the strings and their common prefix.
use Prim.Native.Nat.{Ordering, compare}
use everett.Base.{
  ℕ, zero, suc, ◌+◌, ◌-◌, min, ◌≤◌, ◌<◌, ◌≡◌, ◌≢◌, refl, sym, ◌∙◌, ap, ap₂, inl, inr, true, false,
  [], ◌∷◌, ◌++◌, Bool-cases, ◌==◌, ==_iff, length, take, drop, length-take, length-drop, take-add,
  take-drop, arith,
}
use everett.BitString.Order.{lexical, lexical-append, lexical-different, bits_value_inj, after}
use everett.BitString.Compare.{agreement, difference, compare_loop}
use everett.BitString.{Bits, load_bits}

lexical-empty :
    (xs ys : Bits)
    → min (length xs) (length ys) ≡ 0
    → lexical xs ys ≡ record { common_bits = 0; order = compare (length xs) (length ys) }
unfolding lexical
lexical-empty [] [] h = refl
lexical-empty [] (y ∷ ys) h = ap (λ o. record { common_bits = 0; order = o }) (sym less)
  where
    less : compare 0 (suc (length ys)) ≡ Ordering.lt
    less = ground arith
lexical-empty (x ∷ xs) [] h = ap (λ o. record { common_bits = 0; order = o }) (sym more)
  where
    more : compare (suc (length xs)) 0 ≡ Ordering.gt
    more = ground arith
lexical-empty (x ∷ xs) (y ∷ ys) h = absurd (omega (arith, h))

module _ (a b : Bits) where
  abbrev pub both : ℕ
  both = min (length a) (length b)

  -- The first bits agree.
  abbrev pub Agreed : ℕ → Type 0
  Agreed n = (n ≤ both) × (take n a ≡ take n b)

  pub window_a : (at w : ℕ) → at + w ≤ both → length (take w (drop at a)) ≡ w
  window_a at w h = length-take w (drop at a) (omega (arith, h, length-drop at a))

  window_b : (at w : ℕ) → at + w ≤ both → length (take w (drop at b)) ≡ w
  window_b at w h = length-take w (drop at b) (omega (arith, h, length-drop at b))

  pub sizes : (at w : ℕ) → at + w ≤ both → length (take w (drop at a)) ≡ length (take w (drop at b))
  sizes at w h = window_a at w h ∙ sym (window_b at w h)

  pub further :
      (at w : ℕ)
      → Agreed at
      → at + w ≤ both
      → take w (drop at a) ≡ take w (drop at b)
      → Agreed (at + w)
  further at w (le, e) h e' =
      (h, take-add at w a ∙ (ap₂ (λ x y. x ++ y) e e' ∙ sym (take-add at w b)))

  pub further_by_value :
      (at w : ℕ)
      → Agreed at
      → at + w ≤ both
      → (load_bits a at w == load_bits b at w) ≡ true
      → Agreed (at + w)
  unfolding load_bits
  further_by_value at w g h e =
      further at w g h (bits_value_inj _ _ (sizes at w h) ((==_iff _ _).0 e))

  lexical-Agreed : (at : ℕ) → Agreed at → lexical a b ≡ after at (lexical (drop at a) (drop at b))
  lexical-Agreed at (le, e) =
      ap₂ lexical (take-drop at a) (take-drop at b ∙ ap (λ t. t ++ drop at b) (sym e))
      ∙ (lexical-append (take at a) (drop at a) (drop at b)
          ∙ ap (λ n. after n (lexical (drop at a) (drop at b)))
              (length-take at a (omega (arith, le))))

  pub difference-lexical :
      (at w : ℕ)
      → Agreed at
      → at + w ≤ both
      → load_bits a at w ≢ load_bits b at w
      → difference a b at w ≡ lexical a b
  unfolding difference agreement load_bits
  difference-lexical at w g h n = sym (
      lexical-Agreed at g
      ∙ ap (after at) (
          ap₂ lexical (take-drop w (drop at a)) (take-drop w (drop at b))
          ∙ lexical-different _ _ (drop w (drop at a)) (drop w (drop at b)) (sizes at w h) n))

  end :
      (at : ℕ)
      → Agreed at
      → at ≡ both
      → record { common_bits = both; order = compare (length a) (length b) } ≡ lexical a b
  end at g e = sym (
      lexical-Agreed at g
      ∙ (ap (after at) (
            lexical-empty (drop at a) (drop at b)
              (omega (arith, e, length-drop at a, length-drop at b)))
          ∙ ap₂ (λ n o. record { common_bits = n; order = o }) (omega (arith, e)) lengths))
    where
      lengths : compare (length (drop at a)) (length (drop at b)) ≡ compare (length a) (length b)
      lengths = ground (arith, e, length-drop at a, length-drop at b)

  pub compare_loop-lexical :
      (fuel at : ℕ) → both - at < fuel → Agreed at → compare_loop fuel a b at both ≡ lexical a b
  unfolding compare_loop
  compare_loop-lexical zero at h g = absurd (omega (arith, h))
  compare_loop-lexical (suc fuel) at h g = elim (Bool-cases (at == both)) [
    | inl e ↦ rw (e) (end at g ((==_iff at both).0 e))
    | inr n ↦
        rw (n)
          (elim (Bool-cases
            (load_bits a at (min (both - at) 64) == load_bits b at (min (both - at) 64))) [
              | inl e ↦ rw (e) (
                  compare_loop-lexical fuel (at + min (both - at) 64) (ground (arith, h, n, g.0))
                    (further_by_value at (min (both - at) 64) g (omega (arith, g.0)) e))
              | inr e ↦
                  rw (e)
                    (difference-lexical at (min (both - at) 64) g (omega (arith, g.0)) (unequal e))
            ])
  ]
    where
      unequal : {x y : ℕ} → (x == y) ≡ false → x ≢ y
      unequal e eq = absurd (ground (arith, e, eq))
