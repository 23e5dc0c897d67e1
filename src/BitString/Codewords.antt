-- ===== src/BitString/Codewords.antt =====
-- profile.h: what `write_backspace` appends, and its length.
use everett.Base.{
  ℕ, zero, suc, ◌+◌, ◌-◌, ◌*◌, ◌/◌, ◌%◌, ◌^◌, ◌≤◌, ◌<◌, ◌≡◌, refl, sym, ◌∙◌, ap, ap₂, inl, inr,
  true, false, ◌∷◌, ◌++◌, length-append, if◌then◌else◌, Bool-cases, ◌==◌, ltb, length, IsU64, ok,
  arith,
}
use native.Mathlib.Nat.{div-le_self, zero-div}
use everett.Width.{bit_width, width-high}
use everett.BitString.Fields.{zeros, length-zeros, length-field, Fits, add-Fits}
use everett.BitString.{
  Bits, max_u64, field, BackspaceCode, exponential_golomb, golomb, golomb_cutoff, backspace_bits,
}

-- The static assertions on a code.
abbrev pub IsCode : BackspaceCode → Type 0
IsCode (exponential_golomb order) = order ≤ 63
IsCode (golomb modulus) = (0 < modulus) × IsU64 modulus

-- The quotient plus one behind a zero for each of its bits but one; the remainder of Golomb codes
-- saves a bit below the cutoff.
unfoldable pub quotient_code : ℕ → Bits
quotient_code q =
    if q == max_u64
    then zeros 64 ++ (true ∷ zeros 64)
    else zeros (bit_width (q + 1) - 1) ++ field (bit_width (q + 1)) (q + 1)

unfoldable pub remainder_code : (modulus remainder : ℕ) → Bits
remainder_code m r =
    if ltb r (golomb_cutoff m)
    then field (bit_width (m - 1) - 1) r
    else field (bit_width (m - 1)) (r + golomb_cutoff m)

unfoldable pub codeword : BackspaceCode → ℕ → Bits
codeword (exponential_golomb order) v = quotient_code (v / 2 ^ order) ++ field order v
codeword (golomb modulus) v = zeros (v / modulus) ++ (true ∷ remainder_code modulus (v % modulus))

pub field-zero : (w : ℕ) → field w 0 ≡ zeros w
unfolding field
field-zero zero = refl
field-zero (suc w) = ap₂ (λ b t. b ∷ t) first (field-zero w)
  where
    first : (0 / 2 ^ w % 2 == 1) ≡ false
    first = ground (arith, zero-div (2 ^ w))

exponent_pos : (n w : ℕ) → n + 1 < 2 ^ w → 0 < w
exponent_pos n zero h = absurd (omega (arith, h))
exponent_pos n (suc w) h = omega arith

pub width_pos : (q : ℕ) → q < max_u64 → 0 < bit_width (q + 1)
width_pos q h = exponent_pos q (bit_width (q + 1)) (width-high (q + 1) (omega (arith, h)))

pub length-quotient_code :
    (q : ℕ)
    → q ≤ max_u64
    → length (quotient_code q) ≡ (if q == max_u64 then 129 else 2 * bit_width (q + 1) - 1)
unfolding quotient_code
length-quotient_code q h = elim (Bool-cases (q == max_u64)) [
  | inl e ↦ rw (e) refl
  | inr n ↦ rw (n) (
      omega (
        arith,
        length-append (zeros (bit_width (q + 1) - 1)) (field (bit_width (q + 1)) (q + 1)),
        length-zeros (bit_width (q + 1) - 1),
        length-field (bit_width (q + 1)) (q + 1),
      ))
]

pub length-remainder_code :
    (m r : ℕ)
    → length (remainder_code m r) ≡ bit_width (m - 1) - (if ltb r (golomb_cutoff m) then 1 else 0)
unfolding remainder_code
length-remainder_code m r = elim (Bool-cases (ltb r (golomb_cutoff m))) [
  | inl e ↦ rw (e) (length-field _ r)
  | inr n ↦ rw (n) (length-field _ (r + golomb_cutoff m) ∙ omega arith)
]

pub backspace_bits-codeword :
    (code : BackspaceCode) (v : ℕ)
    → IsU64 v
    → Fits (length (codeword code v))
    → backspace_bits code v ≡ ok (length (codeword code v))
unfolding backspace_bits codeword
backspace_bits-codeword (exponential_golomb order) v h fits = ap ok (
    sym (
      length-append (quotient_code (v / 2 ^ order)) (field order v)
      ∙ ap₂ (λ a b. a + b)
          (length-quotient_code (v / 2 ^ order) (omega (arith, h, div-le_self v (2 ^ order))))
          (length-field order v)))
backspace_bits-codeword (golomb modulus) v h fits =
    rw
      (
        add-Fits (v / modulus) 1 (omega (arith, fits, size)),
        add-Fits (v / modulus + 1)
            (bit_width (modulus - 1) - (if ltb (v % modulus) (golomb_cutoff modulus) then 1 else 0))
            (omega (arith, fits, size)),
      )
      (ap ok (sym size))
  where
    size :
        length (zeros (v / modulus) ++ (true ∷ remainder_code modulus (v % modulus)))
        ≡ v / modulus
          + 1
          + (bit_width (modulus - 1) - (if ltb (v % modulus) (golomb_cutoff modulus) then 1 else 0))
    size =
        length-append (zeros (v / modulus)) (true ∷ remainder_code modulus (v % modulus))
        ∙ omega (arith, length-zeros (v / modulus), length-remainder_code modulus (v % modulus))

pub codeword_pos : (code : BackspaceCode) (v : ℕ) → IsU64 v → 0 < length (codeword code v)
unfolding codeword
codeword_pos (exponential_golomb order) v u = omega (
  arith,
  length-append (quotient_code (v / 2 ^ order)) (field order v),
  quotient_pos (v / 2 ^ order) (omega (arith, u, div-le_self v (2 ^ order))),
)
  where
    below : (q : ℕ) → q ≤ max_u64 → (q == max_u64) ≡ false → q < max_u64
    below q h n = ground (arith, h, n)

    quotient_pos : (q : ℕ) → q ≤ max_u64 → 0 < length (quotient_code q)
    quotient_pos q h = elim (Bool-cases (q == max_u64)) [
      | inl e ↦ omega (
        arith,
        length-quotient_code q h ∙ ap (λ b. if b then 129 else 2 * bit_width (q + 1) - 1) e,
      )
      | inr n ↦ omega (
        arith,
        length-quotient_code q h ∙ ap (λ b. if b then 129 else 2 * bit_width (q + 1) - 1) n,
        width_pos q (below q h n),
      )
    ]
codeword_pos (golomb m) v u =
    omega (arith, length-append (zeros (v / m)) (true ∷ remainder_code m (v % m)))
