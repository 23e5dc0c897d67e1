-- ===== src/Rank15/Building.antt =====
-- rank15.h: what the builder has packed after some groups.
use everett.Base.{
  ℕ, zero, suc, ◌+◌, ◌-◌, ◌*◌, ◌/◌, ◌%◌, ◌^◌, min, ◌≤◌, ◌<◌, ◌≡◌, refl, sym, ◌∙◌, ap, ap₂, inl, inr,
  true, false, List, [], ◌∷◌, ◌++◌, set, length, length-append, get_elem?-append, get_elem?-snoc,
  Bool-cases, ltb, ◌==◌, ==_iff, ok, arith,
}
use everett.Rank15.Packing.{population_before, packed_from, packed_from-last}
use everett.Rank15.{entry_at, Packed, zeros, limit_of, pack, pack_groups}

entry_at-set : (xs : List ℕ) (i x : ℕ) → i < length xs → entry_at (set xs i x) i ≡ x
unfolding entry_at
entry_at-set [] i x h = absurd (omega (arith, h))
entry_at-set (y ∷ xs) zero x h = refl
entry_at-set (y ∷ xs) (suc i) x h = entry_at-set xs i x (omega (arith, h))

entry_at-set_other :
    (xs : List ℕ) (i j x : ℕ) → (i == j) ≡ false → entry_at (set xs i x) j ≡ entry_at xs j
unfolding entry_at
entry_at-set_other [] i j x n = refl
entry_at-set_other (y ∷ xs) zero zero x n = absurd (cc)
entry_at-set_other (y ∷ xs) zero (suc j) x n = refl
entry_at-set_other (y ∷ xs) (suc i) zero x n = refl
entry_at-set_other (y ∷ xs) (suc i) (suc j) x n = entry_at-set_other xs i j x (ground (arith, n))

length-set : (xs : List ℕ) (i x : ℕ) → length (set xs i x) ≡ length xs
length-set [] i x = refl
length-set (y ∷ xs) zero x = refl
length-set (y ∷ xs) (suc i) x = ap suc (length-set xs i x)

length-zeros : (n : ℕ) → length (zeros n) ≡ n
unfolding zeros
length-zeros zero = refl
length-zeros (suc n) = ap suc (length-zeros n)

entry_at-zeros : (n i : ℕ) → entry_at (zeros n) i ≡ 0
unfolding entry_at zeros
entry_at-zeros zero i = refl
entry_at-zeros (suc n) zero = refl
entry_at-zeros (suc n) (suc i) = entry_at-zeros n i

entry_at-append : (xs ys : List ℕ) (i : ℕ) → i < length xs → entry_at (xs ++ ys) i ≡ entry_at xs i
unfolding entry_at
entry_at-append xs ys i h = rw (get_elem?-append xs ys i h, entry_at) refl

entry_at-snoc : (xs : List ℕ) (x : ℕ) → entry_at (xs ++ (x ∷ [])) (length xs) ≡ x
unfolding entry_at
entry_at-snoc xs x = rw (get_elem?-snoc xs x, entry_at) refl

module _ (source : List ℕ) (groups : ℕ) where
  pub record Done (i : ℕ) (s : Packed) : Type 0 where
    pub word_count : length s.classes ≡ (groups + 15) / 16
    pub each_word :
        (j : ℕ) → entry_at s.classes j ≡ packed_from source (16 * j) (min 16 (i - 16 * j))
    pub checkpoint_count : length s.checkpoints ≡ (i + 127) / 128
    pub each_checkpoint :
        (j : ℕ)
        → j < length s.checkpoints
        → entry_at s.checkpoints j ≡ population_before source (128 * j)
    pub total_before : s.total ≡ population_before source i

  packed_same : (a b m n : ℕ) → a ≡ b → m ≡ n → packed_from source a m ≡ packed_from source b n
  packed_same a b m n e e' = ap₂ (packed_from source) e e'

  start-Done : Done 0 (record { classes = zeros ((groups + 15) / 16); checkpoints = []; total = 0 })
  unfolding population_before packed_from
  start-Done = record {
    word_count = length-zeros _;
    each_word = λ j.
        entry_at-zeros _ j
        ∙ packed_same (16 * j) (16 * j) 0 (min 16 (0 - 16 * j)) refl (omega arith);
    checkpoint_count = refl;
    each_checkpoint = λ j h. absurd (omega (arith, h));
    total_before = refl;
  }

  pack-word :
      (i : ℕ) (s : Packed) (j : ℕ)
      → i < groups
      → Done i s
      → entry_at (pack (entry_at source i) i s).classes j
        ≡ packed_from source (16 * j) (min 16 (suc i - 16 * j))
  unfolding pack
  pack-word i s j h d = elim (Bool-cases (i / 16 == j)) [
    | inr other ↦
        entry_at-set_other s.classes (i / 16) j _ other
        ∙ (d.each_word j ∙ packed_same (16 * j) (16 * j) _ _ refl (ground (arith, other)))
    | inl same ↦
        ap (entry_at (pack (entry_at source i) i s).classes) (sym (at same))
        ∙ (entry_at-set s.classes (i / 16) _ (omega (arith, h, d.word_count))
            ∙ (ap₂ (λ x y. x + y)
                  (d.each_word (i / 16)
                    ∙ packed_same (16 * (i / 16)) (16 * (i / 16)) _ (i % 16) refl (omega arith))
                  (ap (λ k. entry_at source k * 2 ^ (4 * (i % 16))) index)
                ∙ (sym (packed_from-last source (16 * (i / 16)) (i % 16))
                    ∙ packed_same (16 * (i / 16)) (16 * j) (suc (i % 16)) _
                        (ap (λ k. 16 * k) (at same)) (omega (arith, at same)))))
  ]
    where
      at : (i / 16 == j) ≡ true → i / 16 ≡ j
      at same = (==_iff (i / 16) j).0 same

      index : i ≡ 16 * (i / 16) + i % 16
      index = omega arith

  pack-checkpoints :
      (i : ℕ) (s : Packed)
      → Done i s
      → let next = (pack (entry_at source i) i s).checkpoints in
        (length next ≡ (suc i + 127) / 128)
        × ((j : ℕ) → j < length next → entry_at next j ≡ population_before source (128 * j))
  unfolding pack
  pack-checkpoints i s d = elim (Bool-cases (i % 128 == 0)) [
    | inr e ↦ rw (e) (ground (arith, e, d.checkpoint_count), d.each_checkpoint)
    | inl e ↦ rw (e) (
      omega (arith, start e, d.checkpoint_count, length-append s.checkpoints (s.total ∷ [])),
      last (omega (arith, start e, d.checkpoint_count)) (start e),
    )
  ]
    where
      start : (i % 128 == 0) ≡ true → i % 128 ≡ 0
      start e = (==_iff (i % 128) 0).0 e

      last :
          length s.checkpoints ≡ i / 128
          → i % 128 ≡ 0
          → (j : ℕ) → j < length (s.checkpoints ++ (s.total ∷ []))
          → entry_at (s.checkpoints ++ (s.total ∷ [])) j ≡ population_before source (128 * j)
      last len whole j h = elim (Bool-cases (j == length s.checkpoints)) [
        | inl e ↦
            ap (entry_at (s.checkpoints ++ (s.total ∷ []))) ((==_iff j (length s.checkpoints)).0 e)
            ∙ (entry_at-snoc s.checkpoints s.total
                ∙ (d.total_before
                    ∙ ap (population_before source)
                        (reached ((==_iff j (length s.checkpoints)).0 e))))
        | inr e ↦ entry_at-append s.checkpoints _ j (earlier e) ∙ d.each_checkpoint j (earlier e)
      ]
        where
          earlier : (j == length s.checkpoints) ≡ false → j < length s.checkpoints
          earlier e = ground (arith, e, h, length-append s.checkpoints (s.total ∷ []))

          reached : j ≡ length s.checkpoints → i ≡ 128 * j
          reached e = omega (arith, e, len, whole)

  pack-Done :
      (i : ℕ) (s : Packed) → i < groups → Done i s → Done (suc i) (pack (entry_at source i) i s)
  unfolding population_before
  pack-Done i s h d = record {
    word_count = length-pack i s ∙ d.word_count;
    each_word = λ j. pack-word i s j h d;
    checkpoint_count = (pack-checkpoints i s d).0;
    each_checkpoint = (pack-checkpoints i s d).1;
    total_before = total-pack i s ∙ ap (λ n. n + entry_at source i) d.total_before;
  }
    where
      length-pack :
          (i : ℕ) (s : Packed) → length (pack (entry_at source i) i s).classes ≡ length s.classes
      length-pack i s = unfold pack in length-set s.classes (i / 16) _

      total-pack :
          (i : ℕ) (s : Packed) → (pack (entry_at source i) i s).total ≡ s.total + entry_at source i
      total-pack i s = unfold pack in refl

  -- The groups are all packed if no population exceeds its limit.
  pub pack_groups-Done :
      (count i : ℕ)
      → i ≤ groups
      → ((k : ℕ) → k < groups → entry_at source k ≤ limit_of groups count k)
      → (s : Packed) × ((pack_groups source groups count i ≡ ok s) × Done i s)
  unfolding pack_groups
  pack_groups-Done count zero h within = (_, (refl, start-Done))
  pack_groups-Done count (suc i) h within =
      let (s, (e, d)) = pack_groups-Done count i (omega (arith, h)) within in
      (
        pack (entry_at source i) i s,
        (rw (e, fits, pack_groups) refl, pack-Done i s (omega (arith, h)) d),
      )
    where
      fits : ltb (limit_of groups count i) (entry_at source i) ≡ false
      fits = ground (arith, within i (omega (arith, h)))
