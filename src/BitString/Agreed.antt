-- ===== src/BitString/Agreed.antt =====
-- profile.h: the first difference of two windows.
use everett.Base.{
  ℕ, zero, suc, ◌+◌, ◌≤◌, ◌<◌, ◌≡◌, ◌≢◌, refl, sym, ◌∙◌, ap, ap₂, true, false, [], ◌∷◌, ◌++◌,
  length, take, drop, take-add, arith,
}
use everett.BitString.Compare.{different}
use everett.BitString.{Bits, leading_zeros}

-- Two windows agree up to the first difference.
pub take-different :
    (k : ℕ) (xs ys : Bits)
    → length xs ≡ length ys
    → k ≤ leading_zeros (different xs ys)
    → take k xs ≡ take k ys
unfolding leading_zeros different
take-different zero xs ys h le = refl
take-different (suc k) [] [] h le = refl
take-different (suc k) [] (y ∷ ys) h le = absurd (omega (arith, h))
take-different (suc k) (x ∷ xs) [] h le = absurd (omega (arith, h))
take-different (suc k) (true ∷ xs) (true ∷ ys) h le =
    ap (λ t. true ∷ t) (take-different k xs ys (omega (arith, h)) (omega (arith, le)))
take-different (suc k) (false ∷ xs) (false ∷ ys) h le =
    ap (λ t. false ∷ t) (take-different k xs ys (omega (arith, h)) (omega (arith, le)))
take-different (suc k) (true ∷ xs) (false ∷ ys) h le = absurd (omega (arith, le))
take-different (suc k) (false ∷ xs) (true ∷ ys) h le = absurd (omega (arith, le))

-- They agree no further.
pub different-le :
    (k : ℕ) (xs ys : Bits)
    → length xs ≡ length ys
    → k ≤ length xs
    → take k xs ≡ take k ys
    → k ≤ leading_zeros (different xs ys)
unfolding leading_zeros different
different-le zero xs ys h le e = omega arith
different-le (suc k) [] ys h le e = absurd (omega (arith, le))
different-le (suc k) (x ∷ xs) [] h le e = absurd (omega (arith, h))
different-le (suc k) (true ∷ xs) (true ∷ ys) h le e =
    omega (arith, different-le k xs ys (omega (arith, h)) (omega (arith, le)) (cc (e)))
different-le (suc k) (false ∷ xs) (false ∷ ys) h le e =
    omega (arith, different-le k xs ys (omega (arith, h)) (omega (arith, le)) (cc (e)))
different-le (suc k) (true ∷ xs) (false ∷ ys) h le e = absurd (cc (e))
different-le (suc k) (false ∷ xs) (true ∷ ys) h le e = absurd (cc (e))

pub different_lt :
    (xs ys : Bits) → length xs ≡ length ys → xs ≢ ys → leading_zeros (different xs ys) < length xs
unfolding leading_zeros different
different_lt [] [] h n = absurd (n refl)
different_lt [] (y ∷ ys) h n = absurd (omega (arith, h))
different_lt (x ∷ xs) [] h n = absurd (omega (arith, h))
different_lt (true ∷ xs) (true ∷ ys) h n =
    omega (arith, different_lt xs ys (omega (arith, h)) (λ e. n (ap (λ t. true ∷ t) e)))
different_lt (false ∷ xs) (false ∷ ys) h n =
    omega (arith, different_lt xs ys (omega (arith, h)) (λ e. n (ap (λ t. false ∷ t) e)))
different_lt (true ∷ xs) (false ∷ ys) h n = omega arith
different_lt (false ∷ xs) (true ∷ ys) h n = omega arith

-- A part that holds the first difference differs.
pub part-different :
    (m w : ℕ) (xs ys : Bits)
    → length xs ≡ length ys
    → m ≤ leading_zeros (different xs ys)
    → leading_zeros (different xs ys) < m + w
    → m + w ≤ length xs
    → take w (drop m xs) ≢ take w (drop m ys)
part-different m w xs ys h lo hi le e =
    absurd (omega (arith, hi, different-le (m + w) xs ys h le whole))
  where
    whole : take (m + w) xs ≡ take (m + w) ys
    whole =
        take-add m w xs
        ∙ (ap₂ (λ a b. a ++ b) (take-different m xs ys h lo) e ∙ sym (take-add m w ys))
