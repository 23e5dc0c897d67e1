-- ===== src/BitString/Golomb.antt =====
-- profile.h: the remainder of a Golomb code is read back.
use native.Mathlib.Nat.{div-div-eq-div-mul, mod-eq_of_lt, two-pow-succ}
use everett.Base.{
  ℕ, zero, suc, ◌+◌, ◌-◌, ◌*◌, ◌/◌, ◌%◌, ◌^◌, ◌≤◌, ◌<◌, ◌≡◌, refl, sym, ◌∙◌, ap, ap₂, inl, inr,
  true, false, ◌∷◌, ◌++◌, append_assoc, Bool-cases, ◌==◌, ==_iff, ltb, ltb→lt, not_ltb→le, IsU64,
  ok, arith, ◌>>=◌,
}
use everett.Width.{bit_width, width-high, width-low, width_le}
use everett.BitString.Codewords.{remainder_code}
use everett.BitString.Plain.{take_field, take_low, take_remainder}
use everett.BitString.Counts.{take_field-field}
use everett.BitString.{Bits, field, golomb_cutoff}

-- The lowest bit of a field.
field-last : (w v : ℕ) → field (suc w) v ≡ field w (v / 2) ++ field 1 v
unfolding field
field-last zero v = refl
field-last (suc w) v = ap₂ (λ b t. b ∷ t) (ap (λ n. n % 2 == 1) high) (field-last w v)
  where
    high : v / 2 ^ suc w ≡ v / 2 / 2 ^ w
    high =
        ap (λ n. v / n) {x = 2 ^ suc w} {y = 2 * 2 ^ w} (omega arith)
        ∙ sym (div-div-eq-div-mul v 2 (2 ^ w))

module _ (m : ℕ) (one : 0 < m) (fits : IsU64 m) where
  abbrev width : ℕ
  width = bit_width (m - 1)

  narrow : width ≤ 64
  narrow = width_le (m - 1) 64 (omega (arith, fits))

  m_le : m ≤ 2 ^ width
  m_le = omega (arith, width-high (m - 1) (omega (arith, fits)), one)

  cutoff : golomb_cutoff m ≡ 2 ^ width - m
  unfolding golomb_cutoff
  cutoff = elim (Bool-cases (width == 64)) [
    | inl e ↦ rw (e) (omega (arith, fits, one, ap (λ n. 2 ^ n) ((==_iff width 64).0 e)))
    | inr n ↦ rw (n) refl
  ]

  -- Half of the numbers of the width are below the modulus.
  half : (w : ℕ) → width ≡ suc w → (2 ^ w < m) × (2 ^ width ≡ 2 ^ w + 2 ^ w)
  half w e = (omega (arith, width-low (m - 1) w e, one), ap (λ n. 2 ^ n) e ∙ two-pow-succ w)

  short :
      (w r : ℕ) (rest : Bits)
      → width ≡ suc w
      → r < golomb_cutoff m
      → (take_field (width - 1) (field (width - 1) r ++ rest) >>= λ (high, rest).
          take_low m high rest)
        ≡ ok (r, rest)
  unfolding take_low
  short w r rest e h =
      rw (take_field-field (width - 1) r rest (omega (arith, narrow)), same) (rw (below) refl)
    where
      small : r < 2 ^ w
      small = omega (arith, h, cutoff, half w e)

      same : r % 2 ^ (width - 1) ≡ r
      same = ap (λ n. r % 2 ^ n) {x = width - 1} {y = w} (omega (arith, e)) ∙ mod-eq_of_lt small

      below : ltb r (golomb_cutoff m) ≡ true
      below = ground (arith, h)

  long :
      (w r : ℕ) (rest : Bits)
      → width ≡ suc w
      → r < m
      → golomb_cutoff m ≤ r
      → (take_field (width - 1) (field width (r + golomb_cutoff m) ++ rest) >>= λ (high, rest).
          take_low m high rest)
        ≡ ok (r, rest)
  unfolding take_low
  long w r rest e less h =
      rw
        (
          shape,
          take_field-field (width - 1) (x / 2) (field 1 x ++ rest) (omega (arith, narrow)),
          same,
          above,
          take_field-field 1 x rest (omega arith),
        )
        (ap (λ n. ok (n, rest)) (omega arith))
    where
      x : ℕ
      x = r + golomb_cutoff m

      shape : field width x ++ rest ≡ field (width - 1) (x / 2) ++ (field 1 x ++ rest)
      shape =
          ap (λ n. field n x ++ rest) e
          ∙ (ap (λ f. f ++ rest) (field-last w x)
              ∙ (append_assoc (field w (x / 2)) (field 1 x) rest
                  ∙ ap (λ n. field n (x / 2) ++ (field 1 x ++ rest)) {x = w} {y = width - 1}
                      (omega (arith, e))))

      same : x / 2 % 2 ^ (width - 1) ≡ x / 2
      same =
          ap (λ n. x / 2 % 2 ^ n) {x = width - 1} {y = w} (omega (arith, e))
          ∙ mod-eq_of_lt (omega (arith, half w e, cutoff, less, m_le))

      above : ltb (x / 2) (golomb_cutoff m) ≡ false
      above = ground (arith, h)

  -- A modulus of one leaves no remainder.
  no_remainder :
      (r : ℕ) (rest : Bits)
      → (width == 0) ≡ true
      → r < m
      → (remainder_code m r ++ rest ≡ rest) × (r ≡ 0)
  unfolding remainder_code field
  no_remainder r rest e less =
      (rw (none, above) refl, omega (arith, less, m_le, ap (λ n. 2 ^ n) none))
    where
      none : width ≡ 0
      none = (==_iff width 0).0 e

      above : ltb r (golomb_cutoff m) ≡ false
      above = ground (arith, cutoff, one, ap (λ n. 2 ^ n) none)

  pub take_remainder-code :
      (r : ℕ) (rest : Bits) → r < m → take_remainder m (remainder_code m r ++ rest) ≡ ok (r, rest)
  unfolding take_remainder
  take_remainder-code r rest less = elim (Bool-cases (width == 0)) [
    | inl e ↦
        rw (e, (no_remainder r rest e less).0)
          (ap (λ n. ok (n, rest)) (sym (no_remainder r rest e less).1))
    | inr n ↦ rw (n) (elim (Bool-cases (ltb r (golomb_cutoff m))) [
      | inl below ↦
          unfold remainder_code in
          rw (below) (short (width - 1) r rest (some_width n) (ltb→lt r (golomb_cutoff m) below))
      | inr above ↦
          unfold remainder_code in
          rw (above)
            (long (width - 1) r rest (some_width n) less (not_ltb→le r (golomb_cutoff m) above))
    ])
  ]
    where
      some_width : (width == 0) ≡ false → width ≡ suc (width - 1)
      some_width n = ground (arith, n)
