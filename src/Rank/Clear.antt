-- ===== src/Rank/Clear.antt =====
-- rank.h: the builder clears the unused bits of the last word, which keeps the bits in use.
use everett.Base.{
  ℕ, zero, suc, ◌+◌, ◌-◌, ◌/◌, ◌%◌, ◌^◌, ◌≤◌, ◌<◌, ◌≡◌, refl, sym, ◌∙◌, ap, ap₂, inl, inr, true,
  false, List, [], ◌∷◌, set, length, Bool-cases, ◌==◌, ==_iff, arith,
}
use everett.Rank.Bits.{bit, bit_at, ones, low_ones-suc, low_ones_mask}
use everett.Rank.{word_at, clear_tail}

bit_mask : (m k word : ℕ) → k < m → bit k (word % 2 ^ m) ≡ bit k word
bit_mask m k word h = omega (
  arith,
  low_ones-suc k (word % 2 ^ m),
  low_ones-suc k word,
  low_ones_mask m k word (omega (arith, h)),
  low_ones_mask m (suc k) word (omega (arith, h)),
)

length-set : (xs : List ℕ) (i x : ℕ) → length (set xs i x) ≡ length xs
length-set [] i x = refl
length-set (y ∷ xs) zero x = refl
length-set (y ∷ xs) (suc i) x = ap suc (length-set xs i x)

word_at-set : (xs : List ℕ) (i x : ℕ) → i < length xs → word_at (set xs i x) i ≡ x
unfolding word_at
word_at-set [] i x h = absurd (omega (arith, h))
word_at-set (y ∷ xs) zero x h = refl
word_at-set (y ∷ xs) (suc i) x h = word_at-set xs i x (omega (arith, h))

word_at-set_other :
    (xs : List ℕ) (i j x : ℕ) → (i == j) ≡ false → word_at (set xs i x) j ≡ word_at xs j
unfolding word_at
word_at-set_other [] i j x n = refl
word_at-set_other (y ∷ xs) zero zero x n = absurd (cc)
word_at-set_other (y ∷ xs) zero (suc j) x n = refl
word_at-set_other (y ∷ xs) (suc i) zero x n = refl
word_at-set_other (y ∷ xs) (suc i) (suc j) x n = word_at-set_other xs i j x (ground (arith, n))

module _ (source : List ℕ) (bits : ℕ) where
  pub length-clear_tail : length (clear_tail source bits) ≡ length source
  unfolding clear_tail
  length-clear_tail = elim (Bool-cases (bits % 64 == 0)) [
    | inl e ↦ rw (e, clear_tail) refl
    | inr n ↦ rw (n, clear_tail) (length-set source (length source - 1) _)
  ]

  bit_at-clear_tail :
      (i : ℕ)
      → length source ≡ (bits + 63) / 64
      → i < bits
      → bit_at (clear_tail source bits) i ≡ bit_at source i
  unfolding clear_tail
  bit_at-clear_tail i len h = elim (Bool-cases (bits % 64 == 0)) [
    | inl e ↦ rw (e, clear_tail) refl
    | inr n ↦ elim (Bool-cases (last == i / 64)) [
      | inr other ↦
          rw (n, clear_tail) (ap (bit (i % 64)) (word_at-set_other source last (i / 64) _ other))
      | inl same ↦ rw (n, clear_tail) (masked same n)
    ]
  ]
    where
      last : ℕ
      last = length source - 1

      masked :
          (last == i / 64) ≡ true
          → (bits % 64 == 0) ≡ false
          → bit
              (i % 64)
              (word_at (set source last (word_at source last % 2 ^ (bits % 64))) (i / 64))
            ≡ bit_at source i
      masked same n =
          ap
            (λ j.
              bit (i % 64) (word_at (set source last (word_at source last % 2 ^ (bits % 64))) j))
            (sym at)
          ∙ (ap (bit (i % 64)) (word_at-set source last _ (ground (arith, len, h)))
              ∙ (bit_mask (bits % 64) (i % 64) (word_at source last) (ground (arith, at, len, n, h))
                  ∙ ap (λ j. bit (i % 64) (word_at source j)) at))
        where
          at : last ≡ i / 64
          at = (==_iff last (i / 64)).0 same

  pub ones-clear_tail :
      (i : ℕ)
      → length source ≡ (bits + 63) / 64
      → i ≤ bits
      → ones (clear_tail source bits) i ≡ ones source i
  unfolding ones
  ones-clear_tail zero len h = refl
  ones-clear_tail (suc i) len h =
      ap₂ (λ a b. a + b) (ones-clear_tail i len (omega (arith, h)))
        (bit_at-clear_tail i len (omega (arith, h)))
