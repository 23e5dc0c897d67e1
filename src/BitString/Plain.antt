-- ===== src/BitString/Plain.antt =====
-- The counts of profile.h read from the front of a string, bit by bit: what the readers of profile.h
-- and of sort_codec.h are compared with.
use everett.Base.{
  ℕ, zero, suc, ◌+◌, ◌-◌, ◌*◌, ◌/◌, ◌^◌, true, false, not, ◌||◌, [], ◌∷◌, if◌then◌else◌, ◌==◌, ltb,
  length, take, drop, Result, ok, raise, require, ◌>>=◌, invalid_argument,
}
use everett.Width.{bit_width}
use everett.BitString.{
  Bits, max_u64, bits_value, BackspaceCode, exponential_golomb, golomb, golomb_cutoff,
}

unfoldable pub take_field : (width : ℕ) → Bits → Result (ℕ × Bits)
take_field width bits =
    require (not (ltb 64 width || ltb (length bits) width)) invalid_argument
      (ok (bits_value (take width bits), drop width bits))

-- The zeros before the first one, which is taken too, and of which there are at most `limit`.
unfoldable pub take_run : Bits → (limit : ℕ) → Result (ℕ × Bits)
take_run [] limit = raise invalid_argument
take_run (true ∷ bits) limit = ok (0, bits)
take_run (false ∷ bits) zero = raise invalid_argument
take_run (false ∷ bits) (suc limit) = take_run bits limit >>= λ (n, rest). ok (suc n, rest)

-- What follows the zeros of an exponential-Golomb code.
unfoldable pub take_suffix : (run : ℕ) → Bits → Result (ℕ × Bits)
take_suffix run bits = take_field run bits >>= λ (suffix, rest).
    if run == 64
    then require (suffix == 0) invalid_argument (ok (max_u64, rest))
    else ok (2 ^ run - 1 + suffix, rest)

unfoldable pub take_exponential : Bits → Result (ℕ × Bits)
take_exponential bits = take_run bits 64 >>= λ (run, rest). take_suffix run rest

unfoldable pub take_order : (order quotient : ℕ) → Bits → Result (ℕ × Bits)
take_order order quotient bits =
    require (not (ltb (max_u64 / 2 ^ order) quotient)) invalid_argument
      (take_field order bits >>= λ (remainder, rest). ok (quotient * 2 ^ order + remainder, rest))

unfoldable pub take_low : (modulus high : ℕ) → Bits → Result (ℕ × Bits)
take_low modulus high bits =
    if ltb high (golomb_cutoff modulus)
    then ok (high, bits)
    else (take_field 1 bits >>= λ (low, rest). ok (high * 2 + low - golomb_cutoff modulus, rest))

unfoldable pub take_remainder : (modulus : ℕ) → Bits → Result (ℕ × Bits)
take_remainder modulus bits =
    if bit_width (modulus - 1) == 0
    then ok (0, bits)
    else (take_field (bit_width (modulus - 1) - 1) bits >>= λ (high, rest).
        take_low modulus high rest)

unfoldable pub take_sum : (modulus quotient remainder : ℕ) → Bits → Result (ℕ × Bits)
take_sum modulus quotient remainder bits =
    require (not (ltb (max_u64 - quotient * modulus) remainder)) invalid_argument
      (ok (quotient * modulus + remainder, bits))

unfoldable pub take_count : BackspaceCode → Bits → Result (ℕ × Bits)
take_count (exponential_golomb order) bits =
    take_exponential bits >>= λ (quotient, rest). take_order order quotient rest
take_count (golomb modulus) bits = take_run bits (max_u64 / modulus) >>= λ (quotient, rest).
    take_remainder modulus rest >>= λ (remainder, end). take_sum modulus quotient remainder end
