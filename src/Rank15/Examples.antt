-- ===== src/Rank15/Examples.antt =====
-- rank15.h: three groups of 40 entries, the last of which has ten.
use everett.Base.{
  ℕ, zero, suc, ◌≤◌, ◌<◌, ◌≡◌, refl, List, [], ◌∷◌, ltb, if◌then◌else◌, raise, ok, ◌>>=◌,
  out_of_range, arith,
}
use everett.Rank15.Packing.{population_before}
use everett.Rank15.Limits.{IsClasses}
use everett.Rank15.Prefixes.{rank-population_before}
use everett.Rank15.{
  Rank15Index, even_nibbles, pair_nibbles, even_bytes, sum_bytes, add_prefix, entry_at, sum_pairs,
  group_count, limit_of, view, class_at, rank, count, zeros, pack, pack_groups, build,
}

abbrev populations : List ℕ
populations = 3 ∷ 15 ∷ 10 ∷ []

count-populations : (build populations 40 >>= count) ≡ ok 28
unfolding build pack_groups pack zeros limit_of count rank class_at group_count sum_pairs entry_at
    add_prefix sum_bytes even_bytes pair_nibbles even_nibbles
count-populations = refl

populations-IsClasses : IsClasses populations 40
unfolding group_count limit_of entry_at
populations-IsClasses = record { class_count = refl; within = within_limit }
  where
    within_limit :
        (k : ℕ) → k < group_count 40 → entry_at populations k ≤ limit_of (group_count 40) 40 k
    within_limit zero h = omega arith
    within_limit (suc zero) h = omega arith
    within_limit (suc (suc zero)) h = omega arith
    within_limit (suc (suc (suc k))) h = absurd (omega (arith, h))

rank-population_before_example :
    (x : Rank15Index) × ((build populations 40 ≡ ok x)
      × (view x ≡ ok x)
      × ((g : ℕ)
          → (class_at x g ≡ (
              if ltb g (group_count 40) then ok (entry_at populations g) else raise out_of_range))
            × (rank x g ≡ (
                if ltb g (group_count 40)
                then ok (population_before populations g)
                else raise out_of_range)))
      × (count x ≡ ok (population_before populations (group_count 40))))
rank-population_before_example = rank-population_before populations 40 populations-IsClasses
