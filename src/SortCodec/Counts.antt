-- ===== src/SortCodec/Counts.antt =====
-- sort_codec.h: the reads of counts agree with reads from the front of what is left.
use everett.Base.{
  ℕ, zero, suc, ◌+◌, ◌-◌, ◌*◌, ◌/◌, ◌^◌, ◌≤◌, ◌<◌, ◌≡◌, refl, sym, subst, ◌∙◌, ap, inl, inr, true,
  false, not, ◌&&◌, ◌||◌, [], ◌∷◌, if◌then◌else◌, Bool-cases, ltb, leb, ◌==◌, ==_iff, length, take,
  drop, length-drop, take-take, drop-drop, raise, ok, ◌>>=◌, require, invalid_argument, arith,
}
use everett.Width.{bit_width}
use everett.BitString.Plain.{
  take_field, take_run, take_suffix, take_exponential, take_order, take_low, take_remainder,
  take_sum, take_count,
}
use everett.BitString.Agreement.{Agrees, refused, left, Agrees-bind, Agrees-require, Agrees-if}
use everett.BitString.Runs.{
  seen_none, seen_before, take_run-window, take_run-stop, leading_le, take_exponential-window,
}
use everett.BitString.{
  Bits, max_u64, bits_value, leading_zeros, BackspaceCode, exponential_golomb, golomb,
  golomb_cutoff,
}
use everett.SortCodec.Reservoir.{Left, remaining-Left, consume-Left, filled-Left}
use everett.SortCodec.Fields.{read_bits-take}
use everett.SortCodec.{
  SortBitReader, remaining, cached, consume, filled, read_bits, zero_run, read_zero_run,
  read_exponential_slow, countl_zero, read_exponential, read_remainder, read_count,
}

zero_run-take :
    (fuel : ℕ) (r : SortBitReader) (rest : Bits) (limit seen : ℕ)
    → Left r rest
    → length rest < fuel
    → Agrees Left (zero_run fuel r limit seen) (seen_before seen (take_run rest (limit - seen)))
unfolding zero_run
zero_run-take zero r rest limit seen l enough = absurd (omega (arith, enough))
zero_run-take (suc fuel) r [] limit seen l enough =
    rw (none) (unfold take_run in refused invalid_argument)
  where
    none : (remaining r == 0) ≡ true
    none = ground (arith, remaining-Left r [] l)
zero_run-take (suc fuel) r (b ∷ more) limit seen l enough =
    rw (some, take_run-window c rest limit seen, sym l_f.kept)
      (Agrees-if Left (ltb (limit - seen) n) _ _ _ _ (λ _. refused invalid_argument)
        λ _. elim (Bool-cases (n == c)) [
          | inl whole ↦ rw (whole) (
              zero_run-take fuel (consume f n) (drop n rest) limit (seen + n)
                (consume-Left f rest n l_f n_le)
                (omega (arith, enough, length-drop n rest, (==_iff n c).0 whole, c_pos)))
          | inr part ↦ rw (part) (
              subst (Agrees Left (ok (seen + n, consume (consume f n) 1))) (sym (stop part))
                (left _ _ _ (one_off part)))
        ])
  where
    rest : Bits
    rest = b ∷ more

    f : SortBitReader
    f = filled r

    l_f : Left f rest
    l_f = (filled-Left r rest l).0

    c : ℕ
    c = cached f

    c_pos : 0 < c
    c_pos = (filled-Left r rest l).1 (omega arith)

    n : ℕ
    n = leading_zeros f.reservoir

    n_le : n ≤ c
    n_le = leading_le f.reservoir

    some : (remaining r == 0) ≡ false
    some = ground (arith, remaining-Left r rest l)

    stop :
        (n == c) ≡ false
        → seen_before (seen + n) (take_run (drop n rest) (limit - (seen + n)))
          ≡ ok (seen + n, drop (suc n) rest)
    stop part =
        subst
          (λ w.
            leading_zeros w < length w
            → seen_before (seen + n) (take_run (drop (leading_zeros w) rest) (limit - (seen + n)))
              ≡ ok (seen + n, drop (suc (leading_zeros w)) rest))
          (sym l_f.kept) (take_run-stop c rest (limit - (seen + n)) (seen + n))
          (ground (arith, part, n_le))

    one_off : (n == c) ≡ false → Left (consume (consume f n) 1) (drop (suc n) rest)
    one_off part =
        subst (Left (consume (consume f n) 1))
          (drop-drop n 1 rest ∙ ap (λ k. drop k rest) {x = n + 1} {y = suc n} (omega arith))
          (consume-Left (consume f n) (drop n rest) 1 (consume-Left f rest n l_f n_le) one_more)
      where
        one_more : 1 ≤ cached (consume f n)
        one_more = unfold consume in ground (arith, length-drop n f.reservoir, part, n_le)

read_zero_run-take :
    (r : SortBitReader) (rest : Bits) (limit : ℕ)
    → Left r rest
    → Agrees Left (read_zero_run r limit) (take_run rest limit)
unfolding read_zero_run
read_zero_run-take r rest limit l =
    subst (Agrees Left (zero_run (suc (remaining r)) r limit 0))
      (sym (seen_none (take_run rest (limit - 0))) ∙ ap (take_run rest) (omega arith))
      (zero_run-take (suc (remaining r)) r rest limit 0 l (omega (arith, remaining-Left r rest l)))

suffix-take :
    (run : ℕ) (r : SortBitReader) (rest : Bits)
    → Left r rest
    → Agrees Left
        (read_bits r run >>= λ (suffix, end).
          if run == 64
          then require (suffix == 0) invalid_argument (ok (max_u64, end))
          else ok (2 ^ run - 1 + suffix, end))
        (take_suffix run rest)
unfolding take_suffix
suffix-take run r rest l =
    Agrees-bind Left _ _ _ _ (read_bits-take r rest l run) (λ suffix end rest' l'.
      Agrees-if Left (run == 64) _ _ _ _
        (λ _. Agrees-require Left (suffix == 0) _ _ _ (λ _. left _ _ _ l')) (λ _. left _ _ _ l'))

no_suffix :
    (run : ℕ) (rest : Bits)
    → ltb (length rest) run ≡ true
    → take_suffix run rest ≡ raise invalid_argument
unfolding take_suffix take_field
no_suffix run rest short = rw (fails) refl
  where
    fails : (ltb 64 run || ltb (length rest) run) ≡ true
    fails = ground (arith, short)

read_exponential_slow-take :
    (r : SortBitReader) (rest : Bits)
    → Left r rest
    → Agrees Left (read_exponential_slow r) (take_exponential rest)
unfolding read_exponential_slow take_exponential
read_exponential_slow-take r rest l =
    Agrees-bind Left _ _ _ _ (read_zero_run-take r rest 64 l) λ run s rest' l'.
      rw (remaining-Left s rest' l') (elim (Bool-cases (ltb (length rest') run)) [
        | inl short ↦ rw (short, no_suffix run rest' short) (refused invalid_argument)
        | inr n ↦ rw (n) (suffix-take run s rest' l')
      ])

-- A code in the reservoir.
fast_path :
    (r : SortBitReader) (rest : Bits)
    → Left r rest
    → (ltb (countl_zero r.reservoir) 32 && leb (2 * countl_zero r.reservoir + 1) (cached r)) ≡ true
    → take_exponential rest
      ≡ ok (
        bits_value (take (2 * countl_zero r.reservoir + 1) r.reservoir) - 1,
        drop (2 * countl_zero r.reservoir + 1) rest,
      )
unfolding countl_zero
fast_path r rest l h = elim (Bool-cases (n == cached r)) [
  | inl e ↦ absurd (cc (rw (e) at h))
  | inr part ↦ rw (part) (
      take_exponential-window (cached r) n rest (ap leading_zeros l.kept) (within part) l.loaded
        (small part)
      ∙ ap (λ b. ok (bits_value b - 1, drop (2 * n + 1) rest)) (same part))
]
  where
    n : ℕ
    n = leading_zeros r.reservoir

    tests : (n == cached r) ≡ false → (ltb n 32 && leb (2 * n + 1) (cached r)) ≡ true
    tests part = rw (part) at h

    within : (n == cached r) ≡ false → 2 * n + 1 ≤ cached r
    within part = ground (arith, tests part)

    small : (n == cached r) ≡ false → n < 64
    small part = ground (arith, tests part)

    same : (n == cached r) ≡ false → take (2 * n + 1) rest ≡ take (2 * n + 1) r.reservoir
    same part =
        sym (ap (take (2 * n + 1)) l.kept ∙ take-take (2 * n + 1) (cached r) rest (within part))

read_exponential-take :
    (r : SortBitReader) (rest : Bits)
    → Left r rest
    → Agrees Left (read_exponential r) (take_exponential rest)
unfolding read_exponential
read_exponential-take r rest l = elim (Bool-cases (ltb run 32 && leb (2 * run + 1) (cached f))) [
  | inl e ↦
      rw (e, fast_path f rest l_f e)
        (left _ _ _ (consume-Left f rest (2 * run + 1) l_f (ground (arith, e))))
  | inr e ↦ rw (e) (read_exponential_slow-take f rest l_f)
]
  where
    f : SortBitReader
    f = if remaining r == 0 then r else filled r

    run : ℕ
    run = countl_zero f.reservoir

    l_f : Left f rest
    l_f = elim (Bool-cases (remaining r == 0)) [
      | inl e ↦ rw (e) l
      | inr e ↦ rw (e) (filled-Left r rest l).0
    ]

read_remainder-take :
    (modulus : ℕ) (r : SortBitReader) (rest : Bits)
    → Left r rest
    → Agrees Left (read_remainder r modulus) (take_remainder modulus rest)
unfolding read_remainder take_remainder take_low
read_remainder-take modulus r rest l =
    Agrees-if Left (bit_width (modulus - 1) == 0) _ _ _ _ (λ _. left _ _ _ l)
      λ _.
        Agrees-bind Left _ _ _ _ (read_bits-take r rest l (bit_width (modulus - 1) - 1))
          λ high s rest' l'.
            Agrees-if Left (ltb high (golomb_cutoff modulus)) _ _ _ _ (λ _. left _ _ _ l')
              λ _.
                Agrees-bind Left _ _ _ _ (read_bits-take s rest' l' 1)
                  λ low end rest'' l''. left _ _ _ l''

order-take :
    (order quotient : ℕ) (r : SortBitReader) (rest : Bits)
    → Left r rest
    → Agrees Left
        (require
          (not (ltb (max_u64 / 2 ^ order) quotient))
          invalid_argument
          (read_bits r order >>= λ (remainder, end). ok (quotient * 2 ^ order + remainder, end)))
        (take_order order quotient rest)
unfolding take_order
order-take order quotient r rest l =
    Agrees-require Left (not (ltb (max_u64 / 2 ^ order) quotient)) invalid_argument _ _ λ _.
      Agrees-bind Left _ _ _ _ (read_bits-take r rest l order)
        λ remainder end rest' l'. left _ _ _ l'

sum-take :
    (modulus quotient remainder : ℕ) (r : SortBitReader) (rest : Bits)
    → Left r rest
    → Agrees Left
        (require
          (not (ltb (max_u64 - quotient * modulus) remainder))
          invalid_argument
          (ok (quotient * modulus + remainder, r)))
        (take_sum modulus quotient remainder rest)
unfolding take_sum
sum-take modulus quotient remainder r rest l =
    Agrees-require Left (not (ltb (max_u64 - quotient * modulus) remainder)) invalid_argument _ _
      (λ _. left _ _ _ l)

-- A count that is read through the reservoir is the one at the front of what is left: the calls
-- raise the same kind of exception, or return the same count, with the same bits left.
pub read_count-take :
    (code : BackspaceCode) (r : SortBitReader) (rest : Bits)
    → Left r rest
    → Agrees Left (read_count code r) (take_count code rest)
unfolding read_count take_count
read_count-take (exponential_golomb order) r rest l =
    Agrees-bind Left _ _ _ _ (read_exponential-take r rest l) (order-take order)
read_count-take (golomb modulus) r rest l =
    Agrees-bind Left _ _ _ _ (read_zero_run-take r rest (max_u64 / modulus) l)
      λ quotient s rest' l'.
        Agrees-bind Left _ _ _ _ (read_remainder-take modulus s rest' l')
          (sum-take modulus quotient)
