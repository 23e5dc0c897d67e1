-- ===== src/BitString/Runs.antt =====
-- profile.h: a run of zeros, a window at a time and bit by bit.
use everett.Base.{
  ℕ, zero, suc, ◌+◌, ◌-◌, ◌^◌, ◌||◌, ◌==◌, ◌≤◌, ◌<◌, ◌≡◌, refl, sym, subst, ◌∙◌, ap, ap₂, true,
  false, [], ◌∷◌, ◌++◌, inl, inr, if◌then◌else◌, Bool-cases, ltb, length, length-take, length-drop,
  drop-drop, ◌*◌, take, drop, Result, ok, raise, ◌>>=◌, invalid_argument, arith,
}
use everett.Width.{pow_pos}
use everett.BitString.Prefixes.{bits_value-run}
use everett.BitString.Fields.{zeros}
use everett.BitString.Plain.{take_field, take_run, take_suffix, take_exponential}
use everett.BitString.{Bits, bits_value, leading_zeros}

-- Zeros that were seen before.
abbrev pub seen_before : ℕ → Result (ℕ × Bits) → Result (ℕ × Bits)
seen_before s (raise e) = raise e
seen_before s (ok (n, rest)) = ok (s + n, rest)

pub seen_before-add :
    (a b : ℕ) (r : Result (ℕ × Bits)) → seen_before (a + b) r ≡ seen_before a (seen_before b r)
seen_before-add a b (raise e) = refl
seen_before-add a b (ok (n, rest)) = ap (λ k. ok (k, rest)) (omega arith)

pub seen_none : (r : Result (ℕ × Bits)) → r ≡ seen_before 0 r
seen_none (raise e) = refl
seen_none (ok (n, rest)) = ap (λ k. ok (k, rest)) (omega arith)

-- A run that starts with `l` zeros.
pub take_run-zeros :
    (l : ℕ) (rest : Bits) (limit : ℕ)
    → take_run (zeros l ++ rest) limit
      ≡ (if ltb limit l then raise invalid_argument else seen_before l (take_run rest (limit - l)))
unfolding take_run
take_run-zeros zero rest limit = rw (none) (ap (take_run rest) (omega arith) ∙ seen_none _)
  where
    none : ltb limit 0 ≡ false
    none = ground arith
take_run-zeros (suc l) rest zero = rw (some_limit) refl
  where
    some_limit : ltb 0 (suc l) ≡ true
    some_limit = ground arith
take_run-zeros (suc l) rest (suc limit) =
    rw (take_run-zeros l rest limit) (elim (Bool-cases (ltb limit l)) [
      | inl e ↦ rw (e, same e) refl
      | inr n ↦ rw (n, other n, fewer) (one_more (take_run rest (limit - l)))
    ])
  where
    same : ltb limit l ≡ true → ltb (suc limit) (suc l) ≡ true
    same e = ground (arith, e)

    other : ltb limit l ≡ false → ltb (suc limit) (suc l) ≡ false
    other n = ground (arith, n)

    fewer : suc limit - suc l ≡ limit - l
    fewer = omega arith

    one_more :
        (r : Result (ℕ × Bits))
        → (seen_before l r >>= λ (n, rest). ok (suc n, rest)) ≡ seen_before (suc l) r
    one_more (raise e) = refl
    one_more (ok (n, rest)) = ap (λ k. ok (k, rest)) (omega arith)

pub leading_le : (bits : Bits) → leading_zeros bits ≤ length bits
unfolding leading_zeros
leading_le [] = omega arith
leading_le (true ∷ bits) = omega arith
leading_le (false ∷ bits) = omega (arith, leading_le bits)

-- A string by the leading zeros of a window at its front.
pub leading-split :
    (w : ℕ) (bits : Bits)
    → bits ≡ zeros (leading_zeros (take w bits)) ++ drop (leading_zeros (take w bits)) bits
unfolding leading_zeros
leading-split zero bits = refl
leading-split (suc w) [] = refl
leading-split (suc w) (true ∷ bits) = refl
leading-split (suc w) (false ∷ bits) = ap (λ t. false ∷ t) (leading-split w bits)

pub leading-one :
    (w : ℕ) (bits : Bits)
    → leading_zeros (take w bits) < length (take w bits)
    → drop (leading_zeros (take w bits)) bits ≡ true ∷ drop (suc (leading_zeros (take w bits))) bits
unfolding leading_zeros
leading-one zero bits h = absurd (omega (arith, h))
leading-one (suc w) [] h = absurd (omega (arith, h))
leading-one (suc w) (true ∷ bits) h = refl
leading-one (suc w) (false ∷ bits) h = leading-one w bits (omega (arith, h))

pub take_run-one :
    (z : ℕ) (bits : Bits) (limit : ℕ)
    → z ≤ limit
    → take_run (zeros z ++ (true ∷ bits)) limit ≡ ok (z, bits)
unfolding take_run
take_run-one z bits limit h =
    take_run-zeros z (true ∷ bits) limit ∙ rw (inside) (ap (λ n. ok (n, bits)) (omega arith))
  where
    inside : ltb limit z ≡ false
    inside = ground (arith, h)

-- An exponential-Golomb code of fewer than 64 zeros.
pub take_exponential-short :
    (z : ℕ) (bits : Bits)
    → z < 64
    → z ≤ length bits
    → take_exponential (zeros z ++ (true ∷ bits))
      ≡ ok (2 ^ z - 1 + bits_value (take z bits), drop z bits)
unfolding take_exponential take_suffix take_field
take_exponential-short z bits h le =
    rw (take_run-one z bits 64 (omega (arith, h)), inside, other) refl
  where
    inside : (ltb 64 z || ltb (length bits) z) ≡ false
    inside = ground (arith, h, le)

    other : (z == 64) ≡ false
    other = ground (arith, h)

-- A run by the window at its front.
pub take_run-window :
    (w : ℕ) (rest : Bits) (limit seen : ℕ)
    → let l = leading_zeros (take w rest) in
      seen_before seen (take_run rest (limit - seen)) ≡ (
        if ltb (limit - seen) l
        then raise invalid_argument
        else seen_before (seen + l) (take_run (drop l rest) (limit - (seen + l))))
take_run-window w rest limit seen =
    ap (λ r. seen_before seen (take_run r (limit - seen))) (leading-split w rest)
    ∙ (ap (seen_before seen) (take_run-zeros l (drop l rest) (limit - seen))
        ∙ elim (Bool-cases (ltb (limit - seen) l)) [
          | inl e ↦ rw (e) refl
          | inr n ↦ rw (n, less) (sym (seen_before-add seen l _))
        ])
  where
    l : ℕ
    l = leading_zeros (take w rest)

    less : limit - seen - l ≡ limit - (seen + l)
    less = omega arith

-- A run that ends in the window.
pub take_run-stop :
    (w : ℕ) (rest : Bits) (limit seen : ℕ)
    → let l = leading_zeros (take w rest) in
      l < length (take w rest)
      → seen_before seen (take_run (drop l rest) limit) ≡ ok (seen, drop (suc l) rest)
unfolding take_run
take_run-stop w rest limit seen h =
    ap (λ r. seen_before seen (take_run r limit)) (leading-one w rest h)
    ∙ ap (λ n. ok (n, drop (suc (leading_zeros (take w rest))) rest)) (omega arith)

-- A code that a window holds.
pub take_exponential-window :
    (w z : ℕ) (rest : Bits)
    → z ≡ leading_zeros (take w rest)
    → 2 * z + 1 ≤ w
    → w ≤ length rest
    → z < 64
    → take_exponential rest ≡ ok (bits_value (take (2 * z + 1) rest) - 1, drop (2 * z + 1) rest)
take_exponential-window w z rest e fits le h =
    ap take_exponential split
    ∙ (take_exponential-short z behind h long
        ∙ ap₂ (λ v r. ok (v, r)) (one_less ∙ ap (λ n. n - 1) (sym value)) after)
  where
    behind : Bits
    behind = drop (suc z) rest

    split : rest ≡ zeros z ++ (true ∷ behind)
    split =
        subst (λ n. rest ≡ zeros n ++ (true ∷ drop (suc n) rest)) (sym e)
          (leading-split w rest
            ∙ ap (λ t. zeros (leading_zeros (take w rest)) ++ t)
                (leading-one w rest (omega (arith, e, fits, length-take w rest le))))

    long : z ≤ length behind
    long = omega (arith, length-drop (suc z) rest, fits, le)

    value : bits_value (take (2 * z + 1) rest) ≡ 2 ^ z + bits_value (take z behind)
    value = ap (λ b. bits_value (take (2 * z + 1) b)) split ∙ bits_value-run z behind long

    one_less : 2 ^ z - 1 + bits_value (take z behind) ≡ 2 ^ z + bits_value (take z behind) - 1
    one_less = omega (arith, pow_pos z)

    after : drop z behind ≡ drop (2 * z + 1) rest
    after =
        drop-drop (suc z) z rest
        ∙ ap (λ n. drop n rest) {x = suc z + z} {y = 2 * z + 1} (omega arith)
