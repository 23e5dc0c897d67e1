-- ===== src/FixedSearch/Pivots.antt =====
-- fixed_search.h: `simd_bound`, whose small windows are cut by three pivots and then counted.
use everett.Base.{
  ℕ, ◌+◌, ◌-◌, ◌*◌, ◌/◌, ◌≤◌, ◌<◌, ◌≡◌, refl, inl, inr, Bool, true, false, if◌then◌else◌,
  Bool-cases, ltb, leb, ◌==◌, ==_iff, not_leb→lt, IsU64, arith,
}
use everett.FixedSearch.Partition.{Splits, passed, failed, population_lem}
use everett.FixedSearch.Binary.{binary_bound_lem}
use everett.FixedSearch.{one_if, pivot_step, finish, small_bound, simd_bound}

module _ (below : ℕ → Bool) (size n : ℕ) (s : Splits below size n) where
  -- A window within the keys that has the point in it or at its end.
  pub record Window (first count : ℕ) : Type 0 where
    pub inside : first + count ≤ size
    pub low : first ≤ n
    pub high : n ≤ first + count

  finish_lem : (first count : ℕ) → Window first count → finish below (first, count) ≡ n
  unfolding finish
  finish_lem first count w = elim (Bool-cases (count == 0)) [
    | inl e ↦ rw (e) (omega (arith, (==_iff count 0).0 e, w.low, w.high))
    | inr e ↦ rw (e) (population_lem below size n s first count w.low w.inside w.high)
  ]

  -- What three pivots leave: about a quarter.
  pub record Quarter (count : ℕ) (next : ℕ × ℕ) : Type 0 where
    pub window : Window next.0 next.1
    pub least : count / 4 ≤ next.1 + 1
    pub most : next.1 ≤ (count + 3) / 4

  -- The three tests with the values given, and what they say of the point.
  Quarter-pivots :
      (first count : ℕ) (a b c : Bool)
      → below (first + count / 4) ≡ a
      → below (first + count / 2) ≡ b
      → below (first + 3 * count / 4) ≡ c
      → Quarter count (
          let rank = one_if a + one_if b + one_if c in
          let start = rank * count / 4 + (if rank == 0 then 0 else 1) in
          (first + start, (rank + 1) * count / 4 - start))
      → Quarter count (pivot_step below (first, count))
  unfolding pivot_step
  Quarter-pivots first count a b c ea eb ec q = rw (ea, eb, ec, pivot_step) q

  before : (i : ℕ) → i < size → below i ≡ true → i < n
  before i = passed below size n s i

  pivot_step-Quarter :
      (first count : ℕ)
      → 3 ≤ count
      → Window first count
      → Quarter count (pivot_step below (first, count))
  pivot_step-Quarter first count three w = elim (Bool-cases (below (first + count / 4))) [
    | inr ea ↦ elim (Bool-cases (below (first + count / 2))) [
      | inl eb ↦ absurd (
          omega (
            arith,
            failed below size n s _ ea,
            before (first + count / 2) (omega (arith, three, w.inside)) eb,
          ))
      | inr eb ↦ elim (Bool-cases (below (first + 3 * count / 4))) [
        | inl ec ↦ absurd (
            omega (
              arith,
              failed below size n s _ ea,
              before (first + 3 * count / 4) (omega (arith, three, w.inside)) ec,
            ))
        | inr ec ↦ Quarter-pivots first count false false false ea eb ec (record {
          window = record {
            inside = omega (arith, three, w.inside);
            low = omega (arith, w.low, failed below size n s _ ea);
            high = omega (arith, three, w.high, failed below size n s _ ea);
          };
          least = omega (arith, three);
          most = omega (arith, three);
        })
      ]
    ]
    | inl ea ↦ elim (Bool-cases (below (first + count / 2))) [
      | inr eb ↦ elim (Bool-cases (below (first + 3 * count / 4))) [
        | inl ec ↦ absurd (
            omega (
              arith,
              failed below size n s _ eb,
              before (first + 3 * count / 4) (omega (arith, three, w.inside)) ec,
            ))
        | inr ec ↦ Quarter-pivots first count true false false ea eb ec (record {
          window = record {
            inside = omega (arith, three, w.inside);
            low = omega (
              arith,
              w.low,
              before (first + count / 4) (omega (arith, three, w.inside)) ea,
              failed below size n s _ eb,
            );
            high = omega (
              arith,
              three,
              w.high,
              before (first + count / 4) (omega (arith, three, w.inside)) ea,
              failed below size n s _ eb,
            );
          };
          least = omega (arith, three);
          most = omega (arith, three);
        })
      ]
      | inl eb ↦ elim (Bool-cases (below (first + 3 * count / 4))) [
        | inr ec ↦ Quarter-pivots first count true true false ea eb ec (record {
          window = record {
            inside = omega (arith, three, w.inside);
            low = omega (
              arith,
              w.low,
              before (first + count / 2) (omega (arith, three, w.inside)) eb,
              failed below size n s _ ec,
            );
            high = omega (
              arith,
              three,
              w.high,
              before (first + count / 2) (omega (arith, three, w.inside)) eb,
              failed below size n s _ ec,
            );
          };
          least = omega (arith, three);
          most = omega (arith, three);
        })
        | inl ec ↦ Quarter-pivots first count true true true ea eb ec (record {
          window = record {
            inside = omega (arith, three, w.inside);
            low =
                omega (
                  arith,
                  w.low,
                  before (first + 3 * count / 4) (omega (arith, three, w.inside)) ec,
                );
            high = omega (
              arith,
              three,
              w.high,
              before (first + 3 * count / 4) (omega (arith, three, w.inside)) ec,
            );
          };
          least = omega (arith, three);
          most = omega (arith, three);
        })
      ]
    ]
  ]

  whole : Window 0 size
  whole = record { inside = omega arith; low = omega arith; high = omega (arith, s.bound) }

  small_bound-4 : small_bound below 4 size ≡ n
  unfolding small_bound
  small_bound-4 = finish_lem 0 size whole

  small_bound_once :
      (bucket : ℕ)
      → ltb 4 bucket ≡ true
      → ltb 16 bucket ≡ false
      → 3 ≤ size
      → small_bound below bucket size ≡ n
  unfolding small_bound
  small_bound_once bucket some one three = rw (some, one, small_bound) (finish_lem _ _ q.window)
    where
      q : Quarter size (pivot_step below (0, size))
      q = pivot_step-Quarter 0 size three whole

  small_bound-32 : 16 < size → small_bound below 32 size ≡ n
  unfolding small_bound
  small_bound-32 large = finish_lem _ _ second.window
    where
      q : Quarter size (pivot_step below (0, size))
      q = pivot_step-Quarter 0 size (omega (arith, large)) whole

      second :
          Quarter (pivot_step below (0, size)).1 (pivot_step below (pivot_step below (0, size)))
      second = pivot_step-Quarter _ _ (omega (arith, q.least, large)) q.window

-- So does the search by pivots, and for more than 32 keys the binary search in its place.
pub simd_bound_lem :
    (below : ℕ → Bool) (size n : ℕ)
    → IsU64 (size + 1)
    → Splits below size n
    → simd_bound below size ≡ n
unfolding simd_bound
simd_bound_lem below size n h s = elim (Bool-cases (leb size 4)) [
  | inl e ↦ rw (e) (small_bound-4 below size n s)
  | inr m4 ↦ elim (Bool-cases (leb size 8)) [
    | inl e ↦
        rw (m4, e)
          (small_bound_once below size n s 8 refl refl (omega (arith, not_leb→lt size 4 m4)))
    | inr m8 ↦ elim (Bool-cases (leb size 16)) [
      | inl e ↦
          rw (m4, m8, e)
            (small_bound_once below size n s 16 refl refl (omega (arith, not_leb→lt size 4 m4)))
      | inr m16 ↦ elim (Bool-cases (leb size 32)) [
        | inl e ↦ rw (m4, m8, m16, e) (small_bound-32 below size n s (not_leb→lt size 16 m16))
        | inr m32 ↦ rw (m4, m8, m16, m32) (binary_bound_lem below size n h s)
      ]
    ]
  ]
]
