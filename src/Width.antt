-- ===== src/Width.antt =====
-- `std::bit_width` and `std::has_single_bit`, which fixed_search.h and the count codes of profile.h
-- call, on fuel for 64 bits.
use native.Mathlib.Nat.{two-pow-succ}
use everett.Base.{
  ℕ, zero, suc, ◌+◌, ◌-◌, ◌*◌, ◌/◌, ◌^◌, ◌≤◌, ◌<◌, ◌≡◌, ◌∙◌, ap, inl, inr, Bool, not, ◌&&◌,
  if◌then◌else◌, Bool-cases, ◌==◌, ==_iff, IsU64, arith,
}

unfoldable pub digits : (fuel n : ℕ) → ℕ
digits zero n = 0
digits (suc fuel) n = let rest = digits fuel (n / 2) in if n == 0 then 0 else suc rest

unfoldable pub bit_width : ℕ → ℕ
bit_width n = digits 64 n

unfoldable pub has_single_bit : ℕ → Bool
has_single_bit n = not (n == 0) && n == 2 ^ (bit_width n - 1)

pub pow_pos : (k : ℕ) → 1 ≤ 2 ^ k
pow_pos zero = omega arith
pow_pos (suc k) = omega (arith, pow_pos k)

pub pow_le : (a b : ℕ) → a ≤ b → 2 ^ a ≤ 2 ^ b
pow_le zero b h = pow_pos b
pow_le (suc a) zero h = absurd (omega (arith, h))
pow_le (suc a) (suc b) h = omega (arith, pow_le a b (omega (arith, h)))

double : (n k : ℕ) → n / 2 < 2 ^ k → n < 2 ^ suc k
double n k h = omega (arith, h)

digits-high : (fuel n : ℕ) → n < 2 ^ fuel → n < 2 ^ digits fuel n
unfolding digits
digits-high zero n h = omega (arith, h)
digits-high (suc fuel) n h = elim (Bool-cases (n == 0)) [
  | inl e ↦ rw (e, digits) (omega (arith, (==_iff n 0).0 e))
  | inr e ↦
      rw (e, digits) (double n (digits fuel (n / 2)) (digits-high fuel (n / 2) (omega (arith, h))))
]

pub width-high : (n : ℕ) → IsU64 n → n < 2 ^ bit_width n
unfolding bit_width
width-high n h = digits-high 64 n h

-- Below a power of two, the width is at most the exponent.
pub digits_le : (fuel n j : ℕ) → n < 2 ^ j → digits fuel n ≤ j
unfolding digits
digits_le zero n j h = omega arith
digits_le (suc fuel) n zero h = rw ((==_iff n 0).1 (omega (arith, h)), digits) (omega arith)
digits_le (suc fuel) n (suc j) h = elim (Bool-cases (n == 0)) [
  | inl e ↦ rw (e, digits) (omega arith)
  | inr e ↦ rw (e, digits) (omega (arith, digits_le fuel (n / 2) j (omega (arith, h))))
]

pub width_le : (n j : ℕ) → n < 2 ^ j → bit_width n ≤ j
unfolding bit_width
width_le n j h = digits_le 64 n j h

-- A number that is not zero has a bit where its width says.
pub digits-low : (fuel n w : ℕ) → digits fuel n ≡ suc w → 2 ^ w ≤ n
unfolding digits
digits-low zero n w e = absurd (omega (arith, e))
digits-low (suc fuel) n zero e = elim (Bool-cases (n == 0)) [
  | inl z ↦ absurd (omega (arith, rw (z, digits) at e))
  | inr z ↦ ground (arith, z)
]
digits-low (suc fuel) n (suc w) e = elim (Bool-cases (n == 0)) [
  | inl z ↦ absurd (omega (arith, rw (z, digits) at e))
  | inr z ↦ omega (arith, digits-low fuel (n / 2) w (omega (arith, rw (z, digits) at e)))
]

pub width-low : (n w : ℕ) → bit_width n ≡ suc w → 2 ^ w ≤ n
unfolding bit_width
width-low n w e = digits-low 64 n w e

pub pow_add : (a b : ℕ) → 2 ^ (a + b) ≡ 2 ^ a * 2 ^ b
pow_add zero b = ap (λ n. 2 ^ n) {x = 0 + b} {y = b} (omega arith) ∙ omega arith
pow_add (suc a) b =
    ap (λ n. 2 ^ n) {x = suc a + b} {y = suc (a + b)} (omega arith)
    ∙ (two-pow-succ (a + b) ∙ omega (arith, pow_add a b, ap (λ n. n * 2 ^ b) (two-pow-succ a)))
