-- ===== src/Rank/Queries.antt =====
-- rank.h: ranks and counts of an index that the builder makes.
use everett.Base.{
  ℕ, zero, suc, ◌+◌, ◌-◌, ◌*◌, ◌/◌, ◌%◌, ◌^◌, ◌≤◌, ◌<◌, ◌≡◌, refl, sym, subst, ◌∙◌, ap, inl, inr,
  true, false, not, ◌&&◌, List, if◌then◌else◌, Bool-cases, ltb, ltb→lt, ◌==◌, ==_iff, length, ok,
  raise, out_of_range, arith,
}
use everett.Rank.Bits.{bit_at, ones, ones_same, prefix512-ones}
use everett.Rank.Tail.{
  first_runs, run_prefix-packed, full_runs-Small, full_runs-ones, tail_runs-full,
}
use everett.Rank.Build.{
  epoch, ones_zero, ones_le, ones_gap, IsBlock, Built, write_block-Built, full_blocks-Built,
}
use everett.Rank.Clear.{length-clear_tail, ones-clear_tail}
use everett.Rank.{
  RankIndex, Building, full_runs, word_at, block_at, run_prefix, prefix512_portable, blocks_of,
  clear_tail, build, view, rank, count,
}

-- The bits fit the sections: the source has the words that they need, and the bound of the builder.
pub record Fits (source : List ℕ) (bits : ℕ) : Type 0 where
  pub word_count : length source ≡ (bits + 63) / 64
  pub bounded : bits ≤ 2 ^ 64 - 1 - 0xffffffff

blocks_of-Built :
    (words : List ℕ) (bits : ℕ)
    → length words ≡ (bits + 63) / 64
    → (s : Building) × ((blocks_of words bits ≡ ok s) × Built words ((bits + 2047) / 2048) s)
unfolding blocks_of
blocks_of-Built words bits len =
    let (s, (e, b)) = full_blocks-Built words (bits / 2048) in
    elim (Bool-cases (bits / 2048 == (bits + 2047) / 2048)) [
      | inl whole ↦ (
        s,
        (
          rw (e, whole, blocks_of) refl,
          subst (λ n. Built words n s) ((==_iff (bits / 2048) _).0 whole) b,
        ),
      )
      | inr part ↦
          let (s', (e', b')) = write_block-Built words (bits / 2048) s b in
          (
            s',
            (
              rw (e, part, tail_runs-full words (bits / 2048) (omega (arith, len)), blocks_of) e',
              subst (λ n. Built words n s') (one_more part) b',
            ),
          )
    ]
  where
    one_more :
        (bits / 2048 == (bits + 2047) / 2048) ≡ false → suc (bits / 2048) ≡ (bits + 2047) / 2048
    one_more part = ground (arith, part)

module _ (words : List ℕ) (bits : ℕ) (s : Building) (b : Built words ((bits + 2047) / 2048) s) where
  abbrev index : RankIndex
  index = record { words = words; blocks = s.blocks; supers = s.supers; bit_count = bits }

  first_runs-ones :
      (block run : ℕ)
      → run ≤ 3
      → ones words (2048 * block + 512 * run)
        ≡ ones words (2048 * block) + first_runs (full_runs words block) run
  first_runs-ones block zero h =
      omega (arith, ones_same words (2048 * block + 512 * 0) (2048 * block) (omega arith))
  first_runs-ones block (suc zero) h = omega (
    arith,
    full_runs-ones words block,
    ones_same words (2048 * block + 512 * 1) (2048 * block + 512) (omega arith),
  )
  first_runs-ones block (suc (suc zero)) h = omega (
    arith,
    full_runs-ones words block,
    ones_same words (2048 * block + 512 * 2) (2048 * block + 1024) (omega arith),
  )
  first_runs-ones block (suc (suc (suc zero))) h = omega (
    arith,
    full_runs-ones words block,
    ones_same words (2048 * block + 512 * 3) (2048 * block + 1536) (omega arith),
  )
  first_runs-ones block (suc (suc (suc (suc n)))) h = absurd (omega (arith, h))

  rank-index :
      (p : ℕ) → bits ≤ 2 ^ 64 - 1 - 0xffffffff → p < bits → rank index p ≡ ok (ones words p)
  unfolding rank
  rank-index p bounded h = rw (inside, rank) (ap ok (omega (arith, sum, small)))
    where
      block : ℕ
      block = p / 2048

      run : ℕ
      run = p / 512 % 4

      entry : IsBlock words block (block_at s.blocks block)
      entry = b.each_block block (omega (arith, h))

      inside : ltb p bits ≡ true
      inside = ground (arith, h)

      super : word_at s.supers (p / 2 ^ 32) ≡ ones words (epoch block)
      super =
          b.each_super (p / 2 ^ 32) (omega (arith, h, b.super_count))
          ∙ ones_same words (2 ^ 32 * (p / 2 ^ 32)) (epoch block) (omega arith)

      below_block : ones words (epoch block) ≤ ones words (2048 * block)
      below_block = omega (
        arith,
        ones_le words (epoch block) (2048 * block - epoch block),
        ones_same words (epoch block + (2048 * block - epoch block)) (2048 * block) (omega arith),
      )

      runs : run_prefix (block_at s.blocks block).runs run ≡ first_runs (full_runs words block) run
      runs =
          ap (λ r. run_prefix r run) entry.1
          ∙ run_prefix-packed (full_runs words block) run (full_runs-Small words block)
              (omega arith)

      tail :
          ones words p
          ≡ ones words (2048 * block + 512 * run)
            + (if p % 512 == 0 then 0 else prefix512_portable words (p / 512 * 8) (p % 512))
      tail = elim (Bool-cases (p % 512 == 0)) [
        | inl e ↦ rw (e) (
            omega (
              arith,
              ones_same words (2048 * block + 512 * run) p
                  (omega (arith, (==_iff (p % 512) 0).0 e)),
            ))
        | inr n ↦ rw (n) (
            omega (
              arith,
              prefix512-ones words (p / 512 * 8) (p % 512),
              ones_same words (64 * (p / 512 * 8) + p % 512) p (omega arith),
              ones_same words (64 * (p / 512 * 8)) (2048 * block + 512 * run) (omega arith),
            ))
      ]

      sum :
          word_at s.supers (p / 2 ^ 32)
            + (block_at s.blocks block).before
            + run_prefix (block_at s.blocks block).runs run
            + (if p % 512 == 0 then 0 else prefix512_portable words (p / 512 * 8) (p % 512))
          ≡ ones words p
      sum =
          omega (
            arith,
            super,
            entry.0,
            below_block,
            runs,
            tail,
            first_runs-ones block run (omega arith),
          )

      small : ones words p < 2 ^ 64
      small = omega (
        arith,
        ones_zero words,
        ones_gap words 0 p,
        ones_same words (0 + p) p (omega arith),
        bounded,
        h,
      )

  rank_outside : (p : ℕ) → ltb p bits ≡ false → rank index p ≡ raise out_of_range
  unfolding rank
  rank_outside p n = rw (n, rank) refl

  count-index : bits ≤ 2 ^ 64 - 1 - 0xffffffff → count index ≡ ok (ones words bits)
  unfolding count
  count-index bounded = elim (Bool-cases (bits == 0)) [
    | inl e ↦
        rw (e, count)
          (ap ok
            (sym (ones_zero words) ∙ ones_same words 0 bits (omega (arith, (==_iff bits 0).0 e))))
    | inr n ↦
        rw (n, rank-index (bits - 1) bounded (ground (arith, n)), count)
          (ap ok
            (sym (last_bit (bits - 1)) ∙ ones_same words (suc (bits - 1)) bits (ground (arith, n))))
  ]
    where
      last_bit : (i : ℕ) → ones words (suc i) ≡ ones words i + bit_at words i
      last_bit i = unfold ones in refl

  view-index :
      length words ≡ (bits + 63) / 64 → bits ≤ 2 ^ 64 - 1 - 0xffffffff → view index ≡ ok index
  unfolding view
  view-index len bounded = rw (shapes, view) refl
    where
      shapes :
          (not (ltb (2 ^ 64 - 1 - 0xffffffff) bits)
            && (length words == (bits + 63) / 64
                && (length s.blocks == (bits + 2047) / 2048
                    && length s.supers == (bits + 0xffffffff) / 2 ^ 32)))
          ≡ true
      shapes = ground (arith, len, bounded, b.block_count, b.super_count)

-- From a source of the right number of words, for a number of bits within the builder's bound, the
-- builder never raises; the shapes of what it makes pass the check of a view; the rank at each bit is
-- the number of ones of the source before it, and out of range behind the last; and the count is
-- that of all ones of the source before the end, whatever the unused bits of its last word are.
pub rank-ones :
    (source : List ℕ) (bits : ℕ)
    → Fits source bits
    → (x : RankIndex) × ((build source bits ≡ ok x)
        × (view x ≡ ok x)
        × ((p : ℕ) → rank x p ≡ (if ltb p bits then ok (ones source p) else raise out_of_range))
        × (count x ≡ ok (ones source bits)))
unfolding build
rank-ones source bits f =
    let (s, (e, b)) = blocks_of-Built words bits same_count in
    (
      index words bits s b,
      (
        rw (checked, e, build) refl,
        view-index words bits s b same_count f.bounded,
        each s b,
        count-index words bits s b f.bounded
            ∙ ap ok (ones-clear_tail source bits bits f.word_count (omega arith)),
      ),
    )
  where
    words : List ℕ
    words = clear_tail source bits

    same_count : length words ≡ (bits + 63) / 64
    same_count = length-clear_tail source bits ∙ f.word_count

    checked : (not (ltb (2 ^ 64 - 1 - 0xffffffff) bits) && length source == (bits + 63) / 64) ≡ true
    checked = ground (arith, f.word_count, f.bounded)

    each :
        (s : Building) (b : Built words ((bits + 2047) / 2048) s) (p : ℕ)
        → rank (index words bits s b) p
          ≡ (if ltb p bits then ok (ones source p) else raise out_of_range)
    each s b p = elim (Bool-cases (ltb p bits)) [
      | inl e ↦ rw (e) (
          rank-index words bits s b p f.bounded (ltb→lt p bits e)
          ∙ ap ok (ones-clear_tail source bits p f.word_count (omega (arith, ltb→lt p bits e))))
      | inr n ↦ rw (n) (rank_outside words bits s b p n)
    ]
