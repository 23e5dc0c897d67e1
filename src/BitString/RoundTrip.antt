-- ===== src/BitString/RoundTrip.antt =====
-- profile.h: a count that is written is read back, whatever follows it.
use native.Mathlib.Nat.{div-le_self, div-add-mod', div-mul-le_self, le-div_iff_mul-le, mod-lt}
use everett.Base.{
  ℕ, ◌+◌, ◌-◌, ◌*◌, ◌/◌, ◌%◌, ◌^◌, ◌≤◌, ◌≡◌, ◌∙◌, ap, true, false, ◌∷◌, ◌++◌, append_assoc, length,
  length-append, length-drop, drop, drop-append, ltb, IsU64, ok, arith,
}
use everett.Width.{pow_pos}
use everett.BitString.Fields.{zeros, Fits}
use everett.BitString.Codewords.{IsCode, codeword, quotient_code, remainder_code}
use everett.BitString.Writing.{write_backspace-codeword}
use everett.BitString.Plain.{take_order, take_sum, take_count}
use everett.BitString.Runs.{take_run-one}
use everett.BitString.Counts.{take_field-field, take_exponential-code}
use everett.BitString.Golomb.{take_remainder-code}
use everett.BitString.Agreement.{Agrees-ok}
use everett.BitString.Zeros.{Behind}
use everett.BitString.Reading.{read_backspace-take}
use everett.BitString.{
  Bits, max_u64, field, BackspaceCode, exponential_golomb, golomb, write_backspace, read_backspace,
}

take_order-field :
    (order v : ℕ) (rest : Bits)
    → order ≤ 63
    → IsU64 v
    → take_order order (v / 2 ^ order) (field order v ++ rest) ≡ ok (v, rest)
unfolding take_order
take_order-field order v rest h u =
    rw (inside, take_field-field order v rest (omega (arith, h)))
      (ap (λ n. ok (n, rest)) (div-add-mod' v (2 ^ order)))
  where
    fits : v / 2 ^ order ≤ max_u64 / 2 ^ order
    fits = (le-div_iff_mul-le (pow_pos order)).1 (omega (arith, u, div-mul-le_self v (2 ^ order)))

    inside : ltb (max_u64 / 2 ^ order) (v / 2 ^ order) ≡ false
    inside = ground (arith, fits)

pub take_count-codeword :
    (code : BackspaceCode) (v : ℕ) (rest : Bits)
    → IsCode code
    → IsU64 v
    → take_count code (codeword code v ++ rest) ≡ ok (v, rest)
unfolding take_count codeword
take_count-codeword (exponential_golomb order) v rest c u =
    rw
      (
        append_assoc (quotient_code (v / 2 ^ order)) (field order v) rest,
        take_exponential-code (v / 2 ^ order) (field order v ++ rest)
            (omega (arith, u, div-le_self v (2 ^ order))),
      )
      (take_order-field order v rest c u)
take_count-codeword (golomb m) v rest c u =
    rw
      (
        append_assoc (zeros (v / m)) (true ∷ remainder_code m (v % m)) rest,
        take_run-one (v / m) (remainder_code m (v % m) ++ rest) (max_u64 / m) quotient_fits,
        take_remainder-code m c.0 c.1 (v % m) rest (mod-lt v c.0),
      )
      (unfold take_sum in rw (inside) (ap (λ n. ok (n, rest)) (div-add-mod' v m)))
  where
    quotient_fits : v / m ≤ max_u64 / m
    quotient_fits = (le-div_iff_mul-le c.0).1 (omega (arith, u, div-mul-le_self v m))

    inside : ltb (max_u64 - v / m * m) (v % m) ≡ false
    inside = ground (arith, u, div-add-mod' v m)

-- In a code that meets its static assertions, where the string has room, writing a count that fits in 64
-- bits appends its codeword; and reading at the place where it was written gives the count and the
-- place behind it, also if more bits follow.
pub read_backspace-write_backspace :
    (code : BackspaceCode) (target rest : Bits) (v : ℕ)
    → IsCode code
    → IsU64 v
    → Fits (length target + length (codeword code v))
    → (write_backspace code target v ≡ ok (target ++ codeword code v))
      × (read_backspace code ((target ++ codeword code v) ++ rest) (length target)
          ≡ ok (v, length (target ++ codeword code v)))
read_backspace-write_backspace code target rest v c u fits =
    let (at, reads, b) =
      Agrees-ok (Behind whole) _ _ v rest
        (read_backspace-take whole code (length target) (omega (arith, lengths))) plain in
    (write_backspace-codeword code target v c u fits, reads ∙ ap (λ n. ok (v, n)) (place at b))
  where
    whole : Bits
    whole = (target ++ codeword code v) ++ rest

    lengths : length whole ≡ length target + length (codeword code v) + length rest
    lengths =
        length-append (target ++ codeword code v) rest
        ∙ omega (arith, length-append target (codeword code v))

    plain : take_count code (drop (length target) whole) ≡ ok (v, rest)
    plain =
        ap (take_count code) (
          ap (drop (length target)) (append_assoc target (codeword code v) rest)
          ∙ drop-append target (codeword code v ++ rest))
        ∙ take_count-codeword code v rest c u

    place : (at : ℕ) → Behind whole at rest → at ≡ length (target ++ codeword code v)
    place at (le, e) = omega (
      arith,
      le,
      ap length e,
      length-drop at whole,
      lengths,
      length-append target (codeword code v),
    )
