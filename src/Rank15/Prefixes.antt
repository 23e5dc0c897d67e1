-- ===== src/Rank15/Prefixes.antt =====
-- rank15.h: prefix sums, classes and the total of an index that the builder makes.
use everett.Base.{
  ℕ, zero, suc, ◌+◌, ◌-◌, ◌*◌, ◌/◌, ◌%◌, ◌^◌, min, ◌≤◌, ◌<◌, ◌≡◌, refl, sym, subst, ◌∙◌, ap, inl,
  inr, true, false, ◌&&◌, ◌||◌, List, length, if◌then◌else◌, Bool-cases, ltb, ltb→lt, ◌==◌, ==_iff,
  ok, raise, out_of_range, arith,
}
use everett.Rank15.Horizontal.{sum_bytes-Lanes}
use everett.Rank15.Lanes.{Lanes, Lanes-add, Lanes-le, Lanes-zero, pair_nibbles-Lanes, nibble_sum}
use everett.Rank15.Packing.{
  population_before, nibble_sum-packed_from, class-packed_from, nibble_sum-mask,
}
use everett.Rank15.Building.{Done, pack_groups-Done}
use everett.Rank15.{
  Rank15Index, Packed, entry_at, group_count, pair_nibbles, sum_bytes, sum_pairs, add_prefix, view,
  class_at, rank, count, build,
}
use everett.Rank15.Limits.{IsClasses, small, before_le, groups_le, last_fits, before_groups}

add_prefix_fits :
    (checkpoint prefix limit : ℕ)
    → checkpoint + prefix ≤ limit
    → add_prefix checkpoint prefix limit ≡ ok (checkpoint + prefix)
unfolding add_prefix
add_prefix_fits checkpoint prefix limit h = rw (inside, add_prefix) refl
  where
    inside : (ltb limit checkpoint || ltb (limit - checkpoint) prefix) ≡ false
    inside = ground (arith, h)

module _ (source : List ℕ) (total : ℕ) (h : IsClasses source total) where
  abbrev groups : ℕ
  groups = group_count total

  module _ (s : Packed) (d : Done source groups groups s) where
    abbrev index : Rank15Index
    index = record { classes = s.classes; checkpoints = s.checkpoints; virtual_count = total }

    before_same : (a b : ℕ) → a ≡ b → population_before source a ≡ population_before source b
    before_same a b e = ap (population_before source) e

    -- The first `t` nibbles of a word that is packed at least so far.
    word_sum :
        (j t : ℕ)
        → t ≤ 16
        → 16 * j + t ≤ groups
        → population_before source (16 * j + t)
          ≡ population_before source (16 * j) + nibble_sum t (entry_at s.classes j)
    word_sum j t le fits =
        nibble_sum-packed_from source (small source total h) (16 * j) (min 16 (groups - 16 * j)) t
          (omega (arith, le, fits))
        ∙ ap (λ w. population_before source (16 * j) + nibble_sum t w) (sym (d.each_word j))

    sum_pairs-Lanes :
        (word n : ℕ)
        → 16 * (word + n) ≤ groups
        → (sum : ℕ) × (Lanes 8 (30 * n) (sum_pairs s.classes word n) sum
            × (population_before source (16 * (word + n))
                ≡ population_before source (16 * word) + sum))
    unfolding sum_pairs
    sum_pairs-Lanes word zero fits =
        (0, (Lanes-zero 8 _, before_same (16 * (word + 0)) (16 * word) (omega arith) ∙ omega arith))
    sum_pairs-Lanes word (suc n) fits =
        let (sum, (lanes, ahead)) = sum_pairs-Lanes (suc word) n (omega (arith, fits)) in
        (
          nibble_sum 16 (entry_at s.classes word) + sum,
          (
            Lanes-le 8 (30 + 30 * n) (30 * suc n) _ _ (omega arith) (
                Lanes-add 8 30 (30 * n) _ _ _ _ (pair_nibbles-Lanes (entry_at s.classes word))
                  lanes),
            before_same (16 * (word + suc n)) (16 * (suc word + n)) (omega arith)
                ∙ omega (
                  arith,
                  ahead,
                  word_sum word 16 (omega arith) (omega (arith, fits)),
                  before_same (16 * suc word) (16 * word + 16) (omega arith),
                ),
          ),
        )

    class_at-index : (g : ℕ) → g < groups → class_at index g ≡ ok (entry_at source g)
    unfolding class_at
    class_at-index g less =
        rw (inside, class_at)
          (ap ok (
            ap (λ w. w / 2 ^ (4 * (g % 16)) % 16) (d.each_word (g / 16))
            ∙ (class-packed_from source (small source total h) (16 * (g / 16)) _ (g % 16)
                  (omega (arith, less))
                ∙ ap (entry_at source) place)))
      where
        inside : ltb g groups ≡ true
        inside = ground (arith, less)

        place : 16 * (g / 16) + g % 16 ≡ g
        place = omega arith

    rank-index : (g : ℕ) → g < groups → rank index g ≡ ok (population_before source g)
    unfolding rank
    rank-index g less = elim (Bool-cases (g % 128 == 0)) [
      | inl e ↦
          rw (inside, e, start, rank)
            (add_prefix_fits _ 0 total (omega (arith, begins e, before_total))
              ∙ ap ok (omega (arith, begins e)))
      | inr n ↦
          rw (inside, n, start, swar, rank)
            (add_prefix_fits _ _ total (omega (arith, parts, before_total)) ∙ ap ok (sym parts))
    ]
      where
        word : ℕ
        word = g / 128 * 8

        whole_words : ℕ
        whole_words = g / 16 - word

        inside : ltb g groups ≡ true
        inside = ground (arith, less)

        start : entry_at s.checkpoints (g / 128) ≡ population_before source (128 * (g / 128))
        start = d.each_checkpoint (g / 128) (omega (arith, less, d.checkpoint_count))

        begins :
            (g % 128 == 0) ≡ true
            → population_before source (128 * (g / 128)) ≡ population_before source g
        begins e = before_same _ _ (omega (arith, (==_iff (g % 128) 0).0 e))

        before_total : population_before source g ≤ total
        before_total = omega (arith, before_le source total h g, less, groups_le source total h)

        tail : ℕ
        tail = nibble_sum (g % 16) (entry_at s.classes (g / 16))

        words :
            (sum : ℕ) × (Lanes 8 (30 * whole_words) (sum_pairs s.classes word whole_words) sum
              × (population_before source (16 * (word + whole_words))
                  ≡ population_before source (16 * word) + sum))
        words = sum_pairs-Lanes word whole_words (omega (arith, less))

        swar :
            sum_bytes (
              sum_pairs s.classes word whole_words
              + pair_nibbles (entry_at s.classes (g / 16) % 2 ^ (4 * (g % 16))))
            ≡ words.0 + tail
        swar = sum_bytes-Lanes _ _ (
            Lanes-le 8 (30 * whole_words + 30) 240 _ _ (omega arith) (
              Lanes-add 8 (30 * whole_words) 30 _ _ _ _ words.1.0 (
                subst (Lanes 8 30 _)
                  (nibble_sum-mask 16 (g % 16) (entry_at s.classes (g / 16)) (omega arith))
                  (pair_nibbles-Lanes _))))

        parts :
            population_before source g
            ≡ population_before source (128 * (g / 128)) + (words.0 + tail)
        parts =
            before_same g (16 * (g / 16) + g % 16) (omega arith)
            ∙ omega (
              arith,
              word_sum (g / 16) (g % 16) (omega arith) (omega (arith, less)),
              before_same (16 * (g / 16)) (16 * (word + whole_words)) (omega arith),
              words.1.1,
              before_same (16 * word) (128 * (g / 128)) (omega arith),
            )

    count-index : count index ≡ ok (population_before source groups)
    unfolding count
    count-index = elim (Bool-cases (groups == 0)) [
      | inl e ↦
          rw (e, count) (ap ok (sym (before_same groups 0 ((==_iff groups 0).0 e) ∙ none_before)))
      | inr n ↦
          rw
            (
              n,
              class_at-index (groups - 1) (last n),
              fits n,
              rank-index (groups - 1) (last n),
              count,
            )
            (add_prefix_fits _ _ total (omega (arith, split n, before_groups source total h))
              ∙ ap ok (sym (split n)))
    ]
      where
        last : (groups == 0) ≡ false → groups - 1 < groups
        last n = ground (arith, n)

        none_before : population_before source 0 ≡ 0
        none_before = unfold population_before in refl

        fits :
            (groups == 0) ≡ false
            → ltb (total - (groups - 1) * 15) (entry_at source (groups - 1)) ≡ false
        fits n = ground (arith, last_fits source total h (omega (arith, last n)))

        one_more :
            (i : ℕ)
            → population_before source (suc i) ≡ population_before source i + entry_at source i
        one_more i = unfold population_before in refl

        split :
            (groups == 0) ≡ false
            → population_before source groups
              ≡ population_before source (groups - 1) + entry_at source (groups - 1)
        split n =
            before_same groups (suc (groups - 1)) (omega (arith, last n)) ∙ one_more (groups - 1)

    view-index : view index ≡ ok index
    unfolding view
    view-index = rw (shapes, view) refl
      where
        shapes :
            (length s.classes == (groups + 15) / 16 && length s.checkpoints == (groups + 127) / 128)
            ≡ true
        shapes = ground (arith, d.word_count, d.checkpoint_count)

    outside :
        (g : ℕ)
        → ltb g groups ≡ false
        → (class_at index g ≡ raise out_of_range) × (rank index g ≡ raise out_of_range)
    unfolding class_at rank
    outside g n = (rw (n, class_at) refl, rw (n, rank) refl)

-- From the populations of the groups of 15 of a number of entries, each within the limit of its group,
-- the builder never raises, and the shapes of what it makes pass the check of a view; the class of a
-- group is its population, the rank at a group is the population of the groups before it, both out
-- of range behind the last group, and the count is the whole population.
pub rank-population_before :
    (source : List ℕ) (total : ℕ)
    → IsClasses source total
    → let groups = group_count total in
      (x : Rank15Index) × ((build source total ≡ ok x)
        × (view x ≡ ok x)
        × ((g : ℕ)
            → (class_at x g ≡ (if ltb g groups then ok (entry_at source g) else raise out_of_range))
              × (rank x g
                  ≡ (if ltb g groups then ok (population_before source g) else raise out_of_range)))
        × (count x ≡ ok (population_before source groups)))
unfolding build
rank-population_before source total h =
    let (s, (e, d)) =
      pack_groups-Done source (group_count total) total (group_count total) (omega arith)
        h.within in
    (
      index source total h s d,
      (
        rw ((==_iff _ _).1 h.class_count, e, build) refl,
        view-index source total h s d,
        each s d,
        count-index source total h s d,
      ),
    )
  where
    each :
        (s : Packed) (d : Done source (group_count total) (group_count total) s) (g : ℕ)
        → (class_at (index source total h s d) g
            ≡ (if ltb g (group_count total) then ok (entry_at source g) else raise out_of_range))
          × (rank (index source total h s d) g ≡ (
              if ltb g (group_count total)
              then ok (population_before source g)
              else raise out_of_range))
    each s d g = elim (Bool-cases (ltb g (group_count total))) [
      | inl e ↦ rw (e) (
        class_at-index source total h s d g (ltb→lt g (group_count total) e),
        rank-index source total h s d g (ltb→lt g (group_count total) e),
      )
      | inr n ↦ rw (n) (outside source total h s d g n)
    ]
