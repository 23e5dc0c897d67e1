-- ===== src/BitString/Counts.antt =====
-- profile.h: a codeword is read back, whatever follows it.
use native.Mathlib.Nat.{two-pow-succ, div-eq_of_lt-le, div-add-mod'}
use everett.Base.{
  ℕ, suc, ◌+◌, ◌-◌, ◌*◌, ◌/◌, ◌%◌, ◌^◌, ◌≤◌, ◌<◌, ◌≡◌, refl, sym, subst, ◌∙◌, ap, ap₂, inl, inr,
  true, false, ◌||◌, ◌∷◌, ◌++◌, append_assoc, length-append, Bool-cases, ◌==◌, ==_iff, ltb, length,
  take, drop, take-append, drop-append, ok, arith,
}
use everett.Width.{bit_width, pow_pos, width-high, width-low, width_le}
use everett.BitString.Fields.{zeros, length-field, bits_value-field}
use everett.BitString.Codewords.{quotient_code, width_pos}
use everett.BitString.Plain.{take_field, take_suffix, take_exponential}
use everett.BitString.Runs.{take_run-one, take_exponential-short}
use everett.BitString.{Bits, max_u64, bits_value, field}

front :
    (w v : ℕ) (rest : Bits)
    → (take w (field w v ++ rest) ≡ field w v) × (drop w (field w v ++ rest) ≡ rest)
front w v rest = (
  ap (λ n. take n (field w v ++ rest)) (sym (length-field w v)) ∙ take-append (field w v) rest,
  ap (λ n. drop n (field w v ++ rest)) (sym (length-field w v)) ∙ drop-append (field w v) rest,
)

pub take_field-field :
    (w v : ℕ) (rest : Bits) → w ≤ 64 → take_field w (field w v ++ rest) ≡ ok (v % 2 ^ w, rest)
unfolding take_field
take_field-field w v rest h =
    rw (inside, (front w v rest).0, (front w v rest).1, bits_value-field w v) refl
  where
    inside : (ltb 64 w || ltb (length (field w v ++ rest)) w) ≡ false
    inside = ground (arith, h, length-append (field w v) rest, length-field w v)

quotient_one : (w v : ℕ) → 2 ^ w ≤ v → v < 2 ^ suc w → v / 2 ^ w ≡ 1
quotient_one w v lo hi =
    div-eq_of_lt-le (2 ^ w) (omega (arith, lo)) (omega (arith, hi, two-pow-succ w))

-- The highest bit of a number of `suc w` bits, and what is left of it.
field-highest : (w v : ℕ) → 2 ^ w ≤ v → v < 2 ^ suc w → field (suc w) v ≡ true ∷ field w v
unfolding field
field-highest w v lo hi = ap (λ n. (n % 2 == 1) ∷ field w v) (quotient_one w v lo hi)

mod_highest : (w v : ℕ) → 2 ^ w ≤ v → v < 2 ^ suc w → 2 ^ w + v % 2 ^ w ≡ v
mod_highest w v lo hi =
    omega (arith, div-add-mod' v (2 ^ w), ap (λ n. n * 2 ^ w) (quotient_one w v lo hi))

ordinary-code :
    (q w : ℕ) (rest : Bits)
    → q < max_u64
    → bit_width (q + 1) ≡ suc w
    → take_exponential ((zeros w ++ field (suc w) (q + 1)) ++ rest) ≡ ok (q, rest)
ordinary-code q w rest h e =
    ap take_exponential (
      append_assoc (zeros w) (field (suc w) (q + 1)) rest
      ∙ ap (λ f. zeros w ++ (f ++ rest)) (field-highest w (q + 1) lo hi))
    ∙ (take_exponential-short w (field w (q + 1) ++ rest) narrow long
        ∙ ap₂ (λ n r. ok (n, r)) value (front w (q + 1) rest).1)
  where
    lo : 2 ^ w ≤ q + 1
    lo = width-low (q + 1) w e

    hi : q + 1 < 2 ^ suc w
    hi = subst (λ n. q + 1 < 2 ^ n) e (width-high (q + 1) (omega (arith, h)))

    narrow : w < 64
    narrow = omega (arith, e, width_le (q + 1) 64 (omega (arith, h)))

    long : w ≤ length (field w (q + 1) ++ rest)
    long = omega (arith, length-append (field w (q + 1)) rest, length-field w (q + 1))

    value : 2 ^ w - 1 + bits_value (take w (field w (q + 1) ++ rest)) ≡ q
    value = omega (
      arith,
      ap bits_value (front w (q + 1) rest).0,
      bits_value-field w (q + 1),
      mod_highest w (q + 1) lo hi,
      pow_pos w,
    )

maximum-code :
    (rest : Bits) → take_exponential (zeros 64 ++ (true ∷ (zeros 64 ++ rest))) ≡ ok (max_u64, rest)
unfolding take_exponential take_suffix take_field bits_value
maximum-code rest = rw (take_run-one 64 (zeros 64 ++ rest) 64 (omega arith), inside) refl
  where
    inside : (ltb 64 64 || ltb (length (zeros 64 ++ rest)) 64) ≡ false
    inside = ground (arith)

pub take_exponential-code :
    (q : ℕ) (rest : Bits) → q ≤ max_u64 → take_exponential (quotient_code q ++ rest) ≡ ok (q, rest)
unfolding quotient_code
take_exponential-code q rest h = elim (Bool-cases (q == max_u64)) [
  | inl e ↦ rw (e) (maximum-code rest ∙ ap (λ n. ok (n, rest)) (sym ((==_iff q max_u64).0 e)))
  | inr n ↦ rw (n) (
      ap (λ w. take_exponential ((zeros (bit_width (q + 1) - 1) ++ field w (q + 1)) ++ rest))
        (some_width n)
      ∙ ordinary-code q (bit_width (q + 1) - 1) rest (ground (arith, h, n)) (some_width n))
]
  where
    some_width : (q == max_u64) ≡ false → bit_width (q + 1) ≡ suc (bit_width (q + 1) - 1)
    some_width n = omega (arith, width_pos q (ground (arith, h, n)))
