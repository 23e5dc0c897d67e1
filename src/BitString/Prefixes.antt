-- ===== src/BitString/Prefixes.antt =====
-- profile.h: the number that the first bits of a string spell.
use native.Mathlib.Nat.{mul-add-div_right, div-eq_of_lt}
use everett.Base.{
  ℕ, zero, suc, ◌+◌, ◌*◌, ◌/◌, ◌^◌, ◌≤◌, ◌<◌, ◌≡◌, refl, subst, ◌∙◌, ap, true, false, ◌∷◌, ◌++◌,
  length, length-drop, length-take, take, drop, take-add, arith,
}
use everett.Width.{pow_pos}
use everett.BitString.Fields.{zeros, bits_value_lt, bits_value-append}
use everett.BitString.{Bits, bits_value}

-- A shift to the right keeps the first bits.
pub bits_value-take :
    (n k : ℕ) (bits : Bits)
    → n + k ≤ length bits
    → bits_value (take (n + k) bits) / 2 ^ k ≡ bits_value (take n bits)
bits_value-take n k bits h =
    ap (λ v. v / 2 ^ k)
      (ap bits_value (take-add n k bits)
        ∙ (bits_value-append (take n bits) back
            ∙ ap (λ w. bits_value (take n bits) * 2 ^ w + bits_value back) size))
    ∙ (mul-add-div_right (pow_pos k) (bits_value (take n bits)) (bits_value back)
        ∙ omega
            (arith, div-eq_of_lt (subst (λ w. bits_value back < 2 ^ w) size (bits_value_lt back))))
  where
    back : Bits
    back = take k (drop n bits)

    size : length back ≡ k
    size = length-take k (drop n bits) (omega (arith, h, length-drop n bits))

bits_value-zeros : (n : ℕ) (bits : Bits) → bits_value (zeros n ++ bits) ≡ bits_value bits
unfolding bits_value
bits_value-zeros zero bits = refl
bits_value-zeros (suc n) bits = omega (arith, bits_value-zeros n bits)

take-zeros : (n m : ℕ) (bits : Bits) → take (n + m) (zeros n ++ bits) ≡ zeros n ++ take m bits
take-zeros zero m bits = ap (λ k. take k bits) (omega arith)
take-zeros (suc n) m bits =
    ap (λ k. take k (false ∷ (zeros n ++ bits))) {x = suc n + m} {y = suc (n + m)} (omega arith)
    ∙ ap (λ t. false ∷ t) (take-zeros n m bits)

-- The zeros, the one behind them and as many bits as there are zeros.
pub bits_value-run :
    (run : ℕ) (bits : Bits)
    → run ≤ length bits
    → bits_value (take (2 * run + 1) (zeros run ++ (true ∷ bits)))
      ≡ 2 ^ run + bits_value (take run bits)
unfolding bits_value
bits_value-run run bits h =
    ap (λ k. bits_value (take k (zeros run ++ (true ∷ bits)))) {x = 2 * run + 1} {y = run + suc run}
      (omega arith)
    ∙ (ap bits_value (take-zeros run (suc run) (true ∷ bits))
        ∙ (bits_value-zeros run (true ∷ take run bits)
            ∙ ap (λ w. 2 ^ w + bits_value (take run bits)) (length-take run bits h)))
