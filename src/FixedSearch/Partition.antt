-- ===== src/FixedSearch/Partition.antt =====
-- fixed_search.h: the point where a test that only falls, falls.
use everett.Base.{
  ℕ, zero, suc, ◌+◌, ◌≤◌, ◌<◌, ◌≡◌, refl, inl, inr, Bool, true, false, Bool-cases, leb, ◌==◌,
  ==_iff, leb→le, not_leb→lt, subst, sym, arith,
}
use everett.FixedSearch.{population}

-- Up to `count`, the ordinals that pass are those below `n`.
pub record Splits (below : ℕ → Bool) (count n : ℕ) : Type 0 where
  pub bound : n ≤ count
  pub passes : (i : ℕ) → i < n → below i ≡ true
  pub fails : (i : ℕ) → n ≤ i → i < count → below i ≡ false

module _ (below : ℕ → Bool) (count n : ℕ) (s : Splits below count n) where
  pub passed : (i : ℕ) → i < count → below i ≡ true → i < n
  passed i small e = elim (Bool-cases (leb n i)) [
    | inl le ↦ absurd (ground (arith, e, s.fails i (leb→le n i le) small))
    | inr lt ↦ not_leb→lt n i lt
  ]

  pub failed : (i : ℕ) → below i ≡ false → n ≤ i
  failed i e = elim (Bool-cases (leb n i)) [
    | inl le ↦ leb→le n i le
    | inr lt ↦ absurd (ground (arith, e, s.passes i (not_leb→lt n i lt)))
  ]

  population_fails : (first k : ℕ) → n ≤ first → first + k ≤ count → population below first k ≡ 0
  unfolding population
  population_fails first zero lo hi = refl
  population_fails first (suc k) lo hi = ground (
    arith,
    s.fails first lo (omega (arith, hi)),
    population_fails (suc first) k (omega (arith, lo)) (omega (arith, hi)),
  )

  -- In a window of ordinals, those that pass are counted up to `n`.
  pub population_lem :
      (first k : ℕ)
      → first ≤ n
      → first + k ≤ count
      → n ≤ first + k
      → first + population below first k ≡ n
  unfolding population
  population_lem first zero lo hi n_le = omega (arith, lo, n_le)
  population_lem first (suc k) lo hi n_le = elim (Bool-cases (below first)) [
    | inl e ↦ rw (e) (
        omega (
          arith,
          population_lem (suc first) k (passed first (omega (arith, hi)) e) (omega (arith, hi))
              (omega (arith, n_le)),
        ))
    | inr e ↦ rw (e) (
        omega (
          arith,
          population_fails (suc first) k (omega (arith, failed first e)) (omega (arith, hi)),
          failed first e,
          lo,
        ))
  ]

module _ (below : ℕ → Bool) where
  abbrev pub Falls : ℕ → Type 0
  Falls count = (i : ℕ) → suc i < count → below (suc i) ≡ true → below i ≡ true

  down : (count i j : ℕ) → Falls count → i < count → below i ≡ true → j ≤ i → below j ≡ true
  down count zero j falls small e le = ground (arith, e, le)
  down count (suc i) j falls small e le = elim (Bool-cases (j == suc i)) [
    | inl same ↦ subst (λ k. below k ≡ true) (sym ((==_iff j (suc i)).0 same)) e
    | inr n ↦ down count i j falls (omega (arith, small)) (falls i small e) (ground (arith, n, le))
  ]

  splits : (count : ℕ) → Falls count → (n : ℕ) × Splits below count n
  splits zero falls = (
    0,
    record {
      bound = omega arith;
      passes = λ i h. absurd (omega (arith, h));
      fails = λ i h k. absurd (omega (arith, k));
    },
  )
  splits (suc c) falls = elim (Bool-cases (below c)) [
    | inl e ↦ (
      suc c,
      record {
        bound = omega arith;
        passes = λ i h. down (suc c) c i falls (omega arith) e (omega (arith, h));
        fails = λ i h k. absurd (omega (arith, h, k));
      },
    )
    | inr e ↦
        let (n, s) = splits c (λ i h. falls i (omega (arith, h))) in
        (
          n,
          record {
            bound = omega (arith, s.bound);
            passes = s.passes;
            fails = λ i h k. elim (Bool-cases (i == c)) [
              | inl same ↦ subst (λ x. below x ≡ false) (sym ((==_iff i c).0 same)) e
              | inr other ↦ s.fails i h (ground (arith, other, k))
            ];
          },
        )
  ]

  -- A test that does not come back has such a point: the number of those that pass.
  pub Splits-population : (count : ℕ) → Falls count → Splits below count (population below 0 count)
  Splits-population count falls =
      let (n, s) = splits count falls in
      subst (Splits below count)
        (omega (
          arith,
          population_lem below count n s 0 count (omega arith) (omega arith)
              (omega (arith, s.bound)),
        ))
        s
