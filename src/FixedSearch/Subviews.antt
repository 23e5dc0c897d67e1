-- ===== src/FixedSearch/Subviews.antt =====
-- fixed_search.h: the keys of a subview.
use native.Mathlib.Nat.{le-div_iff_mul-le, mul-div_cancel, mul-mod_left, mul-le-mul_right}
use everett.Base.{
  length-take, length-drop, ℕ, zero, suc, ◌+◌, ◌-◌, ◌*◌, ◌/◌, ◌%◌, ◌≤◌, ◌<◌, ◌≡◌, refl, ◌∙◌, ap,
  ap₂, true, false, ◌||◌, List, [], ◌∷◌, get_elem?, take, drop, length, ltb, ◌==◌, ==_iff, ok,
  raise, out_of_range, arith,
}
use everett.FixedSearch.{FixedKeyView, view, size, byte_at, load_word, load_words, key_at, subview}

at_same {ℓ} : {A : Type ℓ} (f : ℕ → A) (a b : ℕ) → a ≡ b → f a ≡ f b
at_same f a b h = ap f h

get_elem?-drop {ℓ} :
    {A : Type ℓ} (xs : List A) (k i : ℕ) → get_elem? (drop k xs) i ≡ get_elem? xs (k + i)
get_elem?-drop xs zero i = at_same (get_elem? xs) (i) (0 + i) (omega arith)
get_elem?-drop [] (suc k) i = refl
get_elem?-drop (x ∷ xs) (suc k) i =
    get_elem?-drop xs k i ∙ at_same (get_elem? (x ∷ xs)) (suc (k + i)) (suc k + i) (omega arith)

get_elem?-take {ℓ} :
    {A : Type ℓ} (xs : List A) (m i : ℕ) → i < m → get_elem? (take m xs) i ≡ get_elem? xs i
get_elem?-take xs zero i h = absurd (omega (arith, h))
get_elem?-take [] (suc m) i h = refl
get_elem?-take (x ∷ xs) (suc m) zero h = refl
get_elem?-take (x ∷ xs) (suc m) (suc i) h = get_elem?-take xs m i (omega (arith, h))

module _ (bytes : List ℕ) (k m : ℕ) where
  byte_at-slice : (i : ℕ) → i < m → byte_at (take m (drop k bytes)) i ≡ byte_at bytes (k + i)
  unfolding byte_at
  byte_at-slice i h =
      rw (get_elem?-take (drop k bytes) m i h ∙ get_elem?-drop bytes k i, byte_at) refl

  load_word-slice :
      (at : ℕ) → at + 4 ≤ m → load_word (take m (drop k bytes)) at ≡ load_word bytes (k + at)
  unfolding load_word
  load_word-slice at h = omega (
    arith,
    byte_at-slice at (omega (arith, h)),
    shifted 1 (omega (arith, h)),
    shifted 2 (omega (arith, h)),
    shifted 3 (omega (arith, h)),
  )
    where
      shifted :
          (j : ℕ)
          → at + j < m
          → byte_at (take m (drop k bytes)) (at + j) ≡ byte_at bytes (k + at + j)
      shifted j less =
          byte_at-slice (at + j) less
          ∙ at_same (byte_at bytes) (k + (at + j)) (k + at + j) (omega arith)

  load_words-slice :
      (at n : ℕ)
      → at + 4 * n ≤ m
      → load_words (take m (drop k bytes)) at n ≡ load_words bytes (k + at) n
  unfolding load_words
  load_words-slice at zero h = refl
  load_words-slice at (suc n) h =
      ap₂ (λ w ws. w ∷ ws) (load_word-slice at (omega (arith, h)))
        (load_words-slice (at + 4) n (omega (arith, h))
          ∙ at_same (λ a. load_words bytes a n) (k + (at + 4)) (k + at + 4) (omega arith))

module _ {words : ℕ} (v : FixedKeyView words) (first count : ℕ) where
  slice_fits : 1 ≤ words → first + count ≤ size v → (first + count) * (words * 4) ≤ length v.bytes
  unfolding size
  slice_fits one h = (le-div_iff_mul-le (omega (arith, one))).0 h

  abbrev slice : FixedKeyView words
  slice = record { bytes = take (count * (words * 4)) (drop (first * (words * 4)) v.bytes) }

  module _ (one : 1 ≤ words) (fits : first + count ≤ size v) where
    length-slice : length slice.bytes ≡ count * (words * 4)
    length-slice =
        length-take _ (drop (first * (words * 4)) v.bytes)
          (omega (arith, length-drop (first * (words * 4)) v.bytes, slice_fits one fits))

    subview-slice : subview v first count ≡ ok slice
    unfolding subview view
    subview-slice = rw (within, whole, subview, view) refl
      where
        within : (ltb (size v) first || ltb (size v - first) count) ≡ false
        within = ground (arith, fits)

        whole : (length slice.bytes % (words * 4) == 0) ≡ true
        whole =
            (==_iff _ 0).1 (ap (λ n. n % (words * 4)) length-slice ∙ mul-mod_left count (words * 4))

    size-slice : size slice ≡ count
    unfolding size
    size-slice = ap (λ n. n / (words * 4)) length-slice ∙ mul-div_cancel count (omega (arith, one))

    key_at-slice : (i : ℕ) → i < count → key_at slice i ≡ key_at v (first + i)
    unfolding key_at
    key_at-slice i h = rw (low, high, key_at) (ap ok keys)
      where
        low : ltb i (size slice) ≡ true
        low = ground (arith, size-slice, h)

        high : ltb (first + i) (size v) ≡ true
        high = ground (arith, fits, h)

        keys :
            load_words slice.bytes (i * (words * 4)) words
            ≡ load_words v.bytes ((first + i) * (words * 4)) words
        keys =
            load_words-slice v.bytes (first * (words * 4)) (count * (words * 4)) (i * (words * 4))
              words (omega (arith, mul-le-mul_right (words * 4) h))
            ∙ at_same (λ a. load_words v.bytes a words) (first * (words * 4) + i * (words * 4))
                ((first + i) * (words * 4)) (omega arith)

  -- Of a view with a word to a key at least: a subview within its keys succeeds, has as many keys as
  -- were asked for, and its keys are those of the view from the first on; any other is out of range.
  pub key_at-subview :
      1 ≤ words
      → (first + count ≤ size v
          → (w : FixedKeyView words) × ((subview v first count ≡ ok w)
              × (size w ≡ count)
              × ((i : ℕ) → i < count → key_at w i ≡ key_at v (first + i))))
        × (size v < first + count → subview v first count ≡ raise out_of_range)
  unfolding subview
  key_at-subview one = (
    λ fits. (slice, (subview-slice one fits, size-slice one fits, key_at-slice one fits)),
    λ over. rw (beyond over, subview) refl,
  )
    where
      beyond : size v < first + count → (ltb (size v) first || ltb (size v - first) count) ≡ true
      beyond over = ground (arith, over)
