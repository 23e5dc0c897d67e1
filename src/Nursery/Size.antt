-- ===== src/Nursery/Size.antt =====
-- nursery_map.h: the height of a balanced tree is logarithmic in the number of its entries.
use everett.Base.{ℕ, zero, suc, ◌+◌, ◌*◌, ◌/◌, ◌^◌, ◌≤◌, ◌∷◌, length, length-append, arith}
use everett.Nursery.{Tree, null, node, height, entries}
use everett.Nursery.Balance.{Balanced}

pow_pos : (n : ℕ) → 1 ≤ 2 ^ n
pow_pos zero = omega arith
pow_pos (suc n) = omega (arith, pow_pos n)

pow_mono : (m n : ℕ) → m ≤ n → 2 ^ m ≤ 2 ^ n
pow_mono zero n h = pow_pos n
pow_mono (suc m) zero h = absurd (omega arith)
pow_mono (suc m) (suc n) h = omega (arith, pow_mono m n (omega arith))

half_step : (p h : ℕ) → h ≤ p + 2 → 2 ≤ h → 2 ^ (h / 2) ≤ 2 * 2 ^ (p / 2)
half_step p h d two = omega (arith, pow_mono (h / 2) (suc (p / 2)) (omega arith))

module _ {ℓ κ} {K : Type ℓ} {V : Type κ} where
  -- A balanced tree has at least 2 ^ (height / 2) - 1 entries, so its height is at most about twice
  -- the logarithm of their number.
  pub height_log : (t : Tree K V) → Balanced t → 2 ^ (height t / 2) ≤ length (entries t) + 1
  unfolding entries
  height_log null n = omega arith
  height_log (node b l r t zero) n = absurd (omega arith)
  height_log (node b l r t (suc zero)) n = omega (arith, length-append (entries l) (b ∷ entries r))
  height_log (node b l r t (suc (suc h))) n = omega (
    arith,
    length-append (entries l) (b ∷ entries r),
    height_log l n.3,
    height_log r n.4,
    half_step (height l) (suc (suc h)) (omega arith) (omega arith),
    half_step (height r) (suc (suc h)) (omega arith) (omega arith),
  )
