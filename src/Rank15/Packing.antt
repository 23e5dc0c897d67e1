-- ===== src/Rank15/Packing.antt =====
-- rank15.h: classes in the nibbles of words.
use native.Mathlib.Nat.{
  div-div-eq-div-mul, div-add-mod, add-mul-mod_self_left, mod-eq_of_lt, mod-lt,
}
use everett.Base.{
  ℕ, zero, suc, ◌+◌, ◌*◌, ◌/◌, ◌%◌, ◌^◌, ◌≤◌, ◌<◌, ◌≡◌, refl, sym, ◌∙◌, ap, ap₂, List, arith,
}
use everett.Rank15.Lanes.{nibble_sum}
use everett.Rank15.{entry_at}

-- The population of the first groups.
unfoldable pub population_before : List ℕ → ℕ → ℕ
population_before source zero = 0
population_before source (suc i) = population_before source i + entry_at source i

-- The word of the classes from an index on.
unfoldable pub packed_from : List ℕ → (at n : ℕ) → ℕ
packed_from source at zero = 0
packed_from source at (suc n) = entry_at source at + 16 * packed_from source (suc at) n

pub pow_pos : (k : ℕ) → zero < 2 ^ k
pow_pos zero = omega arith
pow_pos (suc k) = omega (arith, pow_pos k)

next_pow : (k : ℕ) → 2 ^ (4 * suc k) ≡ 16 * 2 ^ (4 * k)
next_pow k = ap (λ n. 2 ^ n) four ∙ omega arith
  where
    four : 4 * suc k ≡ suc (suc (suc (suc (4 * k))))
    four = omega arith

pub packed_from-last :
    (source : List ℕ) (at n : ℕ)
    → packed_from source at (suc n)
      ≡ packed_from source at n + entry_at source (at + n) * 2 ^ (4 * n)
unfolding packed_from
packed_from-last source at zero = omega (arith, ap (entry_at source) same)
  where
    same : at + 0 ≡ at
    same = omega arith
packed_from-last source at (suc n) = omega (
  arith,
  packed_from-last source (suc at) n,
  ap₂ (λ x y. x * y) (ap (entry_at source) same) (next_pow n),
)
  where
    same : at + suc n ≡ suc at + n
    same = omega arith

plus-zero : (n : ℕ) → n ≡ n + 0
plus-zero n = omega arith

next_index : (at k : ℕ) → suc at + k ≡ at + suc k
next_index at k = omega arith

module _ (source : List ℕ) (small : (i : ℕ) → entry_at source i < 16) where
  before_same : (a b : ℕ) → a ≡ b → population_before source a ≡ population_before source b
  before_same a b h = ap (population_before source) h

  low :
      (at n : ℕ)
      → (entry_at source at + 16 * packed_from source (suc at) n) % 16 ≡ entry_at source at
  low at n = omega (arith, small at)

  rest :
      (at n : ℕ)
      → (entry_at source at + 16 * packed_from source (suc at) n) / 16
        ≡ packed_from source (suc at) n
  rest at n = omega (arith, small at)

  pub nibble_sum-packed_from :
      (at n t : ℕ)
      → t ≤ n
      → population_before source (at + t)
        ≡ population_before source at + nibble_sum t (packed_from source at n)
  unfolding packed_from nibble_sum population_before
  nibble_sum-packed_from at n zero h = before_same (at + 0) at (omega arith) ∙ omega arith
  nibble_sum-packed_from at zero (suc t) h = absurd (omega (arith, h))
  nibble_sum-packed_from at (suc n) (suc t) h =
      before_same (at + suc t) (suc at + t) (omega arith)
      ∙ omega (
        arith,
        nibble_sum-packed_from (suc at) n t (omega (arith, h)),
        low at n,
        ap (nibble_sum t) (rest at n),
      )

  pub class-packed_from :
      (at n k : ℕ) → k < n → packed_from source at n / 2 ^ (4 * k) % 16 ≡ entry_at source (at + k)
  unfolding packed_from
  class-packed_from at zero k h = absurd (omega (arith, h))
  class-packed_from at (suc n) zero h = omega (arith, low at n, ap (entry_at source) (plus-zero at))
  class-packed_from at (suc n) (suc k) h =
      ap (λ x. (entry_at source at + 16 * packed_from source (suc at) n) / x % 16) (next_pow k)
      ∙ (ap (λ x. x % 16)
            (sym (
                div-div-eq-div-mul (entry_at source at + 16 * packed_from source (suc at) n) 16
                  (2 ^ (4 * k)))
              ∙ ap (λ x. x / 2 ^ (4 * k)) (rest at n))
          ∙ (class-packed_from (suc at) n k (omega (arith, h))
              ∙ ap (entry_at source) (next_index at k)))

mod_nibble : (k value : ℕ) → value % 2 ^ (4 * suc k) ≡ 16 * (value / 16 % 2 ^ (4 * k)) + value % 16
mod_nibble k value =
    ap₂ (λ n m. n % m) parts (next_pow k)
    ∙ (add-mul-mod_self_left _ (16 * 2 ^ (4 * k)) (value / 16 / 2 ^ (4 * k)) ∙ mod-eq_of_lt below)
  where
    quotient : 2 ^ (4 * k) * (value / 16 / 2 ^ (4 * k)) + value / 16 % 2 ^ (4 * k) ≡ value / 16
    quotient = div-add-mod (value / 16) (2 ^ (4 * k))

    parts :
        value
        ≡ 16 * (value / 16 % 2 ^ (4 * k))
          + value % 16
          + 16 * 2 ^ (4 * k) * (value / 16 / 2 ^ (4 * k))
    parts = omega (arith, quotient)

    below : 16 * (value / 16 % 2 ^ (4 * k)) + value % 16 < 16 * 2 ^ (4 * k)
    below = omega (arith, mod-lt (value / 16) (pow_pos (4 * k)))

halved : (t value : ℕ) → value % 2 ^ (4 * suc t) / 16 ≡ value / 16 % 2 ^ (4 * t)
halved t value = omega (arith, mod_nibble t value)

mod-one : (value : ℕ) → value % 2 ^ (4 * 0) ≡ 0
mod-one value = omega arith

nibble_sum-zero : (m : ℕ) → nibble_sum m 0 ≡ 0
unfolding nibble_sum
nibble_sum-zero zero = refl
nibble_sum-zero (suc m) = omega (arith, nibble_sum-zero m)

pub nibble_sum-mask :
    (m t value : ℕ) → t ≤ m → nibble_sum m (value % 2 ^ (4 * t)) ≡ nibble_sum t value
unfolding nibble_sum
nibble_sum-mask m zero value h = ap (nibble_sum m) (mod-one value) ∙ nibble_sum-zero m
nibble_sum-mask zero (suc t) value h = absurd (omega (arith, h))
nibble_sum-mask (suc m) (suc t) value h = omega (
  arith,
  mod_nibble t value,
  ap (nibble_sum m) (halved t value),
  nibble_sum-mask m t (value / 16) (omega (arith, h)),
)
