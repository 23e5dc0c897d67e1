-- ===== src/FixedSearch/Binary.antt =====
-- fixed_search.h: `binary_bound` finds the point where the test falls.
use everett.Base.{
  ℕ, zero, suc, ◌+◌, ◌-◌, ◌^◌, min, ◌≤◌, ◌<◌, ◌≡◌, inl, inr, Bool, true, Bool-cases, leb, ==_iff,
  leb→le, not_leb→lt, IsU64, arith,
}
use everett.FixedSearch.Partition.{Splits, passed, failed}
use everett.FixedSearch.{complete_scan, scan, binary_bound}
use everett.Width.{digits, bit_width, has_single_bit, pow_pos, pow_le, width-high, digits_le}

module _ (below : ℕ → Bool) (count n : ℕ) (s : Splits below count n) where
  complete_scan_lem :
      (k first : ℕ)
      → first ≤ n
      → n < first + 2 ^ k
      → first + 2 ^ k ≤ count + 1
      → complete_scan below k first ≡ n
  unfolding complete_scan
  complete_scan_lem zero first lo hi fits = omega (arith, lo, hi)
  complete_scan_lem (suc k) first lo hi fits = elim (Bool-cases (below (first + 2 ^ k - 1))) [
    | inl e ↦ rw (e) (
        complete_scan_lem k (first + 2 ^ k)
          (omega (
            arith,
            passed below count n s (first + 2 ^ k - 1) (omega (arith, fits, pow_pos k)) e,
            pow_pos k,
          ))
          (omega (arith, hi)) (omega (arith, fits)))
    | inr e ↦ rw (e) (
        complete_scan_lem k (first + 0) (omega (arith, lo))
          (omega (arith, failed below count n s (first + 2 ^ k - 1) e, pow_pos k))
          (omega (arith, fits)))
  ]

  scan_lem : (k first : ℕ) → first ≤ n → n < first + 2 ^ k → scan below count k first ≡ n
  unfolding scan
  scan_lem zero first lo hi = omega (arith, lo, hi)
  scan_lem (suc k) first lo hi = elim (Bool-cases (leb (first + 2 ^ k) count)) [
    | inr out ↦ rw (out) (
        scan_lem k (first + 0) (omega (arith, lo))
          (omega (arith, s.bound, not_leb→lt (first + 2 ^ k) count out)))
    | inl fits ↦ elim (Bool-cases (below (min (first + 2 ^ k) count - 1))) [
      | inl e ↦
          rw (fits, e)
            (scan_lem k (first + 2 ^ k)
              (omega (
                arith,
                passed below count n s (min (first + 2 ^ k) count - 1)
                    (omega (arith, leb→le (first + 2 ^ k) count fits, pow_pos k)) e,
                leb→le (first + 2 ^ k) count fits,
                pow_pos k,
              ))
              (omega (arith, hi)))
      | inr e ↦
          rw (fits, e)
            (scan_lem k (first + 0) (omega (arith, lo)) (
              omega (
                arith,
                failed below count n s (min (first + 2 ^ k) count - 1) e,
                leb→le (first + 2 ^ k) count fits,
                pow_pos k,
              )))
    ]
  ]

-- A number with one bit is a power of two, and the width of the one below it reaches no further.
single_bit-width : (count : ℕ) → has_single_bit (count + 1) ≡ true → 2 ^ bit_width count ≤ count + 1
unfolding has_single_bit bit_width
single_bit-width count h = omega (
  arith,
  power,
  pow_le _ _ (digits_le 64 count (digits 64 (count + 1) - 1) (omega (arith, power))),
)
  where
    power : count + 1 ≡ 2 ^ (digits 64 (count + 1) - 1)
    power = ground (arith, h, (==_iff (count + 1) (2 ^ (digits 64 (count + 1) - 1))).0)

-- Where the test of fewer than 2 ^ 64 - 1 ordinals falls at `n`, the binary search finds `n`.
pub binary_bound_lem :
    (below : ℕ → Bool) (count n : ℕ)
    → IsU64 (count + 1)
    → Splits below count n
    → binary_bound below count ≡ n
unfolding binary_bound
binary_bound_lem below count n h s = elim (Bool-cases (has_single_bit (count + 1))) [
  | inl e ↦ rw (e) (
      complete_scan_lem below count n s (bit_width count) 0 (omega arith)
        (omega (arith, s.bound, width-high count (omega (arith, h))))
        (omega (arith, single_bit-width count e)))
  | inr e ↦ rw (e) (
      scan_lem below count n s (bit_width count) 0 (omega arith)
        (omega (arith, s.bound, width-high count (omega (arith, h)))))
]
