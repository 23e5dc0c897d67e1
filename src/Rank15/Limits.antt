-- ===== src/Rank15/Limits.antt =====
-- rank15.h: the bounds of what the builder accepts, by the last group.
use everett.Base.{
  ℕ, zero, suc, ◌+◌, ◌-◌, ◌*◌, ◌/◌, ◌%◌, ◌≤◌, ◌<◌, ◌≡◌, refl, ap, inl, inr, true, false, List, [],
  ◌∷◌, length, Bool-cases, ltb, ltb→lt, not_ltb→le, ◌==◌, arith,
}
use everett.Rank15.Packing.{population_before}
use everett.Rank15.{entry_at, group_count, limit_of}

-- The populations of the groups of a number of entries.
pub record IsClasses (source : List ℕ) (total : ℕ) : Type 0 where
  pub class_count : length source ≡ group_count total
  pub within :
      (k : ℕ) → k < group_count total → entry_at source k ≤ limit_of (group_count total) total k

entry_at-past : (xs : List ℕ) (i : ℕ) → length xs ≤ i → entry_at xs i ≡ 0
unfolding entry_at
entry_at-past [] i h = refl
entry_at-past (x ∷ xs) zero h = absurd (omega (arith, h))
entry_at-past (x ∷ xs) (suc i) h = entry_at-past xs i (omega (arith, h))

module _ (source : List ℕ) (total : ℕ) (h : IsClasses source total) where
  abbrev groups : ℕ
  groups = group_count total

  limit_le : (k : ℕ) → limit_of groups total k ≤ 15
  unfolding limit_of
  limit_le k = ground arith

  pub small : (i : ℕ) → entry_at source i < 16
  small i = elim (Bool-cases (ltb i groups)) [
    | inl e ↦ omega (arith, h.within i (ltb→lt i groups e), limit_le i)
    | inr n ↦
        omega (arith, entry_at-past source i (omega (arith, h.class_count, not_ltb→le i groups n)))
  ]

  pub before_le : (i : ℕ) → population_before source i ≤ 15 * i
  unfolding population_before
  before_le zero = omega arith
  before_le (suc i) = omega (arith, before_le i, small i)

  pub groups_le : groups ≤ total / 15 + 1
  unfolding group_count
  groups_le = ground arith

  whole : (total % 15 == 0) ≡ true → group_count total ≡ total / 15
  whole e = unfold group_count in rw (e) (omega arith)

  partial : (total % 15 == 0) ≡ false → group_count total ≡ suc (total / 15)
  partial n = unfold group_count in rw (n) (omega arith)

  last_limit :
      (total % 15 == 0) ≡ false → limit_of (group_count total) total (total / 15) ≡ total % 15
  last_limit n = unfold limit_of in ground (arith, n, partial n)

  -- The last group has at most the entries that are left for it.
  pub last_fits : 0 < groups → entry_at source (groups - 1) ≤ total - (groups - 1) * 15
  last_fits one = elim (Bool-cases (total % 15 == 0)) [
    | inl e ↦
        omega (arith, h.within (groups - 1) (omega (arith, one)), limit_le (groups - 1), whole e)
    | inr n ↦ omega (
      arith,
      h.within (groups - 1) (omega (arith, one)),
      ap (limit_of groups total) (place n),
      last_limit n,
      partial n,
    )
  ]
    where
      place : (total % 15 == 0) ≡ false → groups - 1 ≡ total / 15
      place n = omega (arith, partial n)

  -- The whole population is at most the number of entries.
  pub before_groups : population_before source groups ≤ total
  before_groups = elim (Bool-cases (total % 15 == 0)) [
    | inl e ↦ omega (arith, ap (population_before source) (whole e), before_le (total / 15))
    | inr n ↦ omega (
      arith,
      ap (population_before source) (partial n),
      before_suc (total / 15),
      before_le (total / 15),
      h.within (total / 15) (omega (arith, partial n)),
      last_limit n,
    )
  ]
    where
      before_suc :
          (i : ℕ)
          → population_before source (suc i) ≡ population_before source i + entry_at source i
      before_suc i = unfold population_before in refl
