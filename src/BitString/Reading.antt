-- ===== src/BitString/Reading.antt =====
-- profile.h: the reads by an offset agree with the reads from the front of what is left.
use everett.Base.{
  ℕ, ◌+◌, ◌-◌, ◌*◌, ◌/◌, ◌^◌, ◌≤◌, ◌<◌, ◌≡◌, refl, sym, ◌∙◌, ap, ap₂, Bool, true, not, ◌&&◌, ◌||◌,
  inl, inr, if◌then◌else◌, Bool-cases, ltb, leb, ◌==◌, length, length-drop, drop-drop, take, drop,
  ok, raise, require, ◌>>=◌, invalid_argument, arith,
}
use everett.Width.{bit_width}
use everett.BitString.Prefixes.{bits_value-take}
use everett.BitString.Plain.{
  take_field, take_suffix, take_exponential, take_order, take_low, take_remainder, take_sum,
  take_count,
}
use everett.BitString.Agreement.{Agrees, refused, left, Agrees-bind, Agrees-require, Agrees-if}
use everett.BitString.Runs.{take_exponential-window}
use everett.BitString.{
  Bits, max_u64, bits_value, load_bits, leading_zeros, read_fixed, read_count_slow, read_count,
  read_backspace, BackspaceCode, exponential_golomb, golomb, golomb_cutoff,
}
use everett.BitString.Zeros.{Behind, read_fixed-take, read_zero_run-take}

module _ (bits : Bits) where
  -- What both do with the bits behind the zeros.
  suffix-take :
      (run at : ℕ) (rest : Bits)
      → Behind bits at rest
      → Agrees
          (Behind bits)
          (read_fixed bits at run >>= λ (suffix, end).
            if run == 64
            then require (suffix == 0) invalid_argument (ok (max_u64, end))
            else ok (2 ^ run - 1 + suffix, end))
          (take_suffix run rest)
  unfolding take_suffix
  suffix-take run at rest b =
      Agrees-bind (Behind bits) _ _ _ _ (read_fixed-take bits at rest run b) (λ suffix end rest' b'.
        Agrees-if (Behind bits) (run == 64) _ _ _ _
          (λ _. Agrees-require (Behind bits) (suffix == 0) _ _ _ (λ _. left _ _ _ b'))
          (λ _. left _ _ _ b'))

  -- A run that is longer than what is left has no suffix.
  no_suffix :
      (run at : ℕ) (rest : Bits)
      → Behind bits at rest
      → ltb (length bits - at) run ≡ true
      → take_suffix run rest ≡ raise invalid_argument
  unfolding take_suffix take_field
  no_suffix run at rest (le, e) short = rw (fails) refl
    where
      fails : (ltb 64 run || ltb (length rest) run) ≡ true
      fails = ground (arith, short, ap length e, length-drop at bits)

  read_count_slow-take :
      (at : ℕ) (rest : Bits)
      → Behind bits at rest
      → Agrees (Behind bits) (read_count_slow bits at) (take_exponential rest)
  unfolding read_count_slow take_exponential
  read_count_slow-take at rest b =
      Agrees-bind (Behind bits) _ _ _ _ (read_zero_run-take bits at rest 64 b) λ run at' rest' b'.
        elim (Bool-cases (ltb (length bits - at') run)) [
          | inl short ↦ rw (short, no_suffix run at' rest' b' short) (refused invalid_argument)
          | inr n ↦ rw (n) (suffix-take run at' rest' b')
        ]

  -- A code of at most 15 bits, by one word.
  short_code :
      (at z : ℕ)
      → at ≤ length bits
      → 16 ≤ length bits - at
      → z < 8
      → leading_zeros (take 16 (drop at bits)) ≡ z
      → take_exponential (drop at bits)
        ≡ ok (load_bits bits at 16 / 2 ^ (15 - 2 * z) - 1, drop (at + (2 * z + 1)) bits)
  unfolding load_bits
  short_code at z le room h e =
      take_exponential-window 16 z (drop at bits) (sym e) (omega (arith, h))
        (omega (arith, all, room)) (omega (arith, h))
      ∙ ap₂ (λ v r. ok (v - 1, r)) (sym value) (drop-drop at (2 * z + 1) bits)
    where
      all : length (drop at bits) ≡ length bits - at
      all = length-drop at bits

      value :
          bits_value (take 16 (drop at bits)) / 2 ^ (15 - 2 * z)
          ≡ bits_value (take (2 * z + 1) (drop at bits))
      value =
          ap (λ n. bits_value (take n (drop at bits)) / 2 ^ (15 - 2 * z)) {x = 16}
            {y = 2 * z + 1 + (15 - 2 * z)} (omega (arith, h))
          ∙ bits_value-take (2 * z + 1) (15 - 2 * z) (drop at bits) (omega (arith, all, room, h))

  read_count-take :
      (at : ℕ) (rest : Bits)
      → Behind bits at rest
      → Agrees (Behind bits) (read_count bits at) (take_exponential rest)
  unfolding read_count
  read_count-take at rest (le, e) = elim (Bool-cases short) [
    | inr n ↦ rw (n) (read_count_slow-take at rest (le, e))
    | inl s ↦
        rw (s, e, short_code at z le (ground (arith, s)) (ground (arith, s)) refl)
          (left _ _ _ (ground (arith, s), refl))
  ]
    where
      z : ℕ
      z = leading_zeros (take 16 (drop at bits))

      short : Bool
      short = leb at (length bits) && leb 16 (length bits - at) && ltb z 8

  order_remainder :
      (order quotient at : ℕ) (rest : Bits)
      → Behind bits at rest
      → Agrees
          (Behind bits)
          (require (not (ltb (max_u64 / 2 ^ order) quotient)) invalid_argument (
            read_fixed bits at order >>= λ (remainder, end).
            ok (quotient * 2 ^ order + remainder, end)))
          (take_order order quotient rest)
  unfolding take_order
  order_remainder order quotient at rest b =
      Agrees-require (Behind bits) (not (ltb (max_u64 / 2 ^ order) quotient)) invalid_argument _ _
        λ _.
          Agrees-bind (Behind bits) _ _ _ _ (read_fixed-take bits at rest order b)
            λ remainder end rest' b'. left _ _ _ b'

  remainder-take :
      (modulus at : ℕ) (rest : Bits)
      → Behind bits at rest
      → Agrees
          (Behind bits)
          (if bit_width (modulus - 1) == 0
            then ok (0, at)
            else (read_fixed bits at (bit_width (modulus - 1) - 1) >>= λ (high, a).
                if ltb high (golomb_cutoff modulus)
                then ok (high, a)
                else (read_fixed bits a 1 >>= λ (low, end).
                    ok (high * 2 + low - golomb_cutoff modulus, end))))
          (take_remainder modulus rest)
  unfolding take_remainder take_low
  remainder-take modulus at rest b =
      Agrees-if (Behind bits) (bit_width (modulus - 1) == 0) _ _ _ _ (λ _. left _ _ _ b)
        λ _.
          Agrees-bind (Behind bits) _ _ _ _
            (read_fixed-take bits at rest (bit_width (modulus - 1) - 1) b)
            λ high a rest' b'.
              Agrees-if (Behind bits) (ltb high (golomb_cutoff modulus)) _ _ _ _
                (λ _. left _ _ _ b')
                λ _.
                  Agrees-bind (Behind bits) _ _ _ _ (read_fixed-take bits a rest' 1 b')
                    λ low end rest'' b''. left _ _ _ b''

  -- A count that is read by an offset in a string is the one at the front of what is behind it.
  pub read_backspace-take :
      (code : BackspaceCode) (at : ℕ)
      → at ≤ length bits
      → Agrees (Behind bits) (read_backspace code bits at) (take_count code (drop at bits))
  unfolding read_backspace take_count
  read_backspace-take (exponential_golomb order) at le =
      Agrees-bind (Behind bits) _ _ _ _ (read_count-take at (drop at bits) (le, refl))
        (order_remainder order)
  read_backspace-take (golomb modulus) at le =
      Agrees-bind (Behind bits) _ _ _ _
        (read_zero_run-take bits at (drop at bits) (max_u64 / modulus) (le, refl))
        λ quotient at' rest b.
          Agrees-bind (Behind bits) _ _ _ _ (remainder-take modulus at' rest b)
            λ remainder end rest' b'. sum quotient remainder end rest' b'
    where
      sum :
          (quotient remainder end : ℕ) (rest : Bits)
          → Behind bits end rest
          → Agrees
              (Behind bits)
              (require
                (not (ltb (max_u64 - quotient * modulus) remainder))
                invalid_argument
                (ok (quotient * modulus + remainder, end)))
              (take_sum modulus quotient remainder rest)
      sum quotient remainder end rest b =
          unfold take_sum in
          Agrees-require (Behind bits) (not (ltb (max_u64 - quotient * modulus) remainder))
            invalid_argument _ _ (λ _. left _ _ _ b)
