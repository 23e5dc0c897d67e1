-- ===== src/Rank15/Lanes.antt =====
-- rank15.h: sums in byte lanes, without carries.
use everett.Base.{ℕ, zero, suc, ◌+◌, ◌*◌, ◌/◌, ◌%◌, ◌≤◌, ◌≡◌, refl, ap, arith}
use everett.Rank15.{even_nibbles, pair_nibbles}

-- The sum of the first nibbles of a word.
unfoldable pub nibble_sum : (nibbles value : ℕ) → ℕ
nibble_sum zero value = 0
nibble_sum (suc n) value = value % 16 + nibble_sum n (value / 16)

-- A value of `k` byte lanes, each at most `m`, whose sum is `s`.
abbrev pub Lanes : (k m value s : ℕ) → Type 0
Lanes zero m value s = (value ≡ 0) × (s ≡ 0)
Lanes (suc k) m value s =
    (b : ℕ) × ((rest : ℕ) × ((s' : ℕ) × ((b ≤ m)
          × (value ≡ b + 256 * rest)
          × (s ≡ b + s')
          × Lanes k m rest s')))

pub Lanes-add :
    (k m n v w s t : ℕ) → Lanes k m v s → Lanes k n w t → Lanes k (m + n) (v + w) (s + t)
Lanes-add zero m n v w s t p q = (omega (arith, p.0, q.0), omega (arith, p.1, q.1))
Lanes-add (suc k) m n v w s t (b, (r, (s', (le, ev, es, p)))) (c, (u, (t', (le', ev', es', q)))) = (
  b + c,
  (
    r + u,
    (
      s' + t',
      (
        omega (arith, le, le'),
        omega (arith, ev, ev'),
        omega (arith, es, es'),
        Lanes-add k m n r u s' t' p q,
      ),
    ),
  ),
)

-- Twice a number.
abbrev pub double : ℕ → ℕ
double zero = 0
double (suc k) = suc (suc (double k))

pairs-Lanes :
    (k value : ℕ)
    → Lanes k 30 (even_nibbles k value + even_nibbles k (value / 16)) (nibble_sum (double k) value)
unfolding even_nibbles nibble_sum
pairs-Lanes zero value = (omega arith, refl)
pairs-Lanes (suc k) value = (
  value % 16 + value / 16 % 16,
  (
    even_nibbles k (value / 256) + even_nibbles k (value / 256 / 16),
    (
      nibble_sum (double k) (value / 256),
      (
        omega arith,
        omega (arith, ap (even_nibbles k) swapped),
        omega (arith, ap (nibble_sum (double k)) halves),
        pairs-Lanes k (value / 256),
      ),
    ),
  ),
)
  where
    swapped : value / 16 / 256 ≡ value / 256 / 16
    swapped = omega arith

    halves : value / 16 / 16 ≡ value / 256
    halves = omega arith

pub Lanes-le : (k m n v s : ℕ) → m ≤ n → Lanes k m v s → Lanes k n v s
Lanes-le zero m n v s h p = p
Lanes-le (suc k) m n v s h (b, (r, (s', (le, ev, es, p)))) =
    (b, (r, (s', (omega (arith, le, h), ev, es, Lanes-le k m n r s' h p))))

pub Lanes-zero : (k m : ℕ) → Lanes k m 0 0
Lanes-zero zero m = (refl, refl)
Lanes-zero (suc k) m = (0, (0, (0, (omega arith, omega arith, omega arith, Lanes-zero k m))))

pub pair_nibbles-Lanes : (value : ℕ) → Lanes 8 30 (pair_nibbles value) (nibble_sum 16 value)
unfolding pair_nibbles
pair_nibbles-Lanes value = pairs-Lanes 8 value
