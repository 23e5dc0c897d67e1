-- ===== src/Rank/Build.antt =====
-- rank.h: what the builder has written after some blocks.
use everett.Base.{
  ℕ, zero, suc, ◌+◌, ◌-◌, ◌*◌, ◌/◌, ◌%◌, ◌^◌, ◌≤◌, ◌<◌, ◌≡◌, refl, sym, subst, ◌∙◌, ap, inl, inr,
  false, ◌||◌, List, [], ◌∷◌, ◌++◌, length, length-append, get_elem?-append, get_elem?-snoc,
  if◌then◌else◌, Bool-cases, ltb, ◌==◌, ==_iff, ok, arith,
}
use everett.Rank.Bits.{ones, ones_same}
use everett.Rank.Tail.{packed, full_runs-ones}
use everett.Rank.{
  word_at, block_at, RankBlock, Building, nothing_built, full_runs, before, starts_epoch,
  write_block, full_blocks,
}

-- The bit at which the epoch of a block begins.
abbrev pub epoch : ℕ → ℕ
epoch block = 2 ^ 32 * (block / 2 ^ 21)

pub ones_zero : (words : List ℕ) → ones words 0 ≡ 0
unfolding ones
ones_zero words = refl

pub ones_le : (words : List ℕ) (at k : ℕ) → ones words at ≤ ones words (at + k)
unfolding ones
ones_le words at zero = omega (arith, ones_same words (at + 0) at (omega arith))
ones_le words at (suc k) =
    omega (arith, ones_le words at k, ones_same words (at + suc k) (suc (at + k)) (omega arith))

pub ones_gap : (words : List ℕ) (at k : ℕ) → ones words (at + k) ≤ ones words at + k
unfolding ones
ones_gap words at zero = omega (arith, ones_same words (at + 0) at (omega arith))
ones_gap words at (suc k) =
    omega (arith, ones_gap words at k, ones_same words (at + suc k) (suc (at + k)) (omega arith))

word_at-append : (xs ys : List ℕ) (i : ℕ) → i < length xs → word_at (xs ++ ys) i ≡ word_at xs i
unfolding word_at
word_at-append xs ys i h = rw (get_elem?-append xs ys i h, word_at) refl

word_at-snoc : (xs : List ℕ) (x : ℕ) → word_at (xs ++ (x ∷ [])) (length xs) ≡ x
unfolding word_at
word_at-snoc xs x = rw (get_elem?-snoc xs x, word_at) refl

block_at-append :
    (xs ys : List RankBlock) (i : ℕ) → i < length xs → block_at (xs ++ ys) i ≡ block_at xs i
unfolding block_at
block_at-append xs ys i h = rw (get_elem?-append xs ys i h, block_at) refl

block_at-snoc : (xs : List RankBlock) (x : RankBlock) → block_at (xs ++ (x ∷ [])) (length xs) ≡ x
unfolding block_at
block_at-snoc xs x = rw (get_elem?-snoc xs x, block_at) refl

module _ (words : List ℕ) where
  abbrev pub IsBlock : ℕ → RankBlock → Type 0
  IsBlock i b =
      (b.before ≡ ones words (2048 * i) - ones words (epoch i))
      × (b.runs ≡ packed (full_runs words i))

  pub record Built (n : ℕ) (s : Building) : Type 0 where
    pub total_ones : s.total ≡ ones words (2048 * n)
    pub base_ones : (n % 2 ^ 21 == 0) ≡ false → s.epoch_base ≡ ones words (epoch n)
    pub block_count : length s.blocks ≡ n
    pub each_block : (i : ℕ) → i < n → IsBlock i (block_at s.blocks i)
    pub super_count : length s.supers ≡ (n + (2 ^ 21 - 1)) / 2 ^ 21
    pub each_super : (i : ℕ) → i < length s.supers → word_at s.supers i ≡ ones words (2 ^ 32 * i)

  -- The relative count fits, because an epoch has 2 ^ 21 blocks.
  before_lem :
      (n : ℕ) (s : Building)
      → Built n s
      → before s.epoch_base n s.total
        ≡ ok (ones words (epoch n), ones words (2048 * n) - ones words (epoch n))
  unfolding before
  before_lem n s b = rw (base, b.total_ones, fits, before) refl
    where
      base : (if starts_epoch n then s.total else s.epoch_base) ≡ ones words (epoch n)
      base = elim (Bool-cases (starts_epoch n)) [
        | inl e ↦ rw (e) (
            b.total_ones
            ∙ ones_same words (2048 * n) (epoch n) (omega (arith, (==_iff (n % 2 ^ 21) 0).0 e)))
        | inr e ↦ rw (e) (b.base_ones e)
      ]

      k : ℕ
      k = 2048 * (n % 2 ^ 21)

      here : ones words (epoch n + k) ≡ ones words (2048 * n)
      here = ones_same words (epoch n + k) (2048 * n) (omega arith)

      fits :
          (ltb (ones words (2048 * n)) (ones words (epoch n))
            || ltb (2 ^ 32 - 1) (ones words (2048 * n) - ones words (epoch n)))
          ≡ false
      fits = ground (arith, here, ones_le words (epoch n) k, ones_gap words (epoch n) k)

  abbrev written : ℕ → Building → Building
  written n s = record {
    blocks =
        s.blocks
        ++ (record {
          before = ones words (2048 * n) - ones words (epoch n);
          runs = packed (full_runs words n);
        }
            ∷ []);
    supers = if starts_epoch n then s.supers ++ (ones words (epoch n) ∷ []) else s.supers;
    epoch_base = ones words (epoch n);
    total =
        s.total
        + ((full_runs words n).a
            + (full_runs words n).b
            + (full_runs words n).c
            + (full_runs words n).d);
  }

  supers-Built :
      (n : ℕ) (s : Building)
      → Built n s
      → (length (written n s).supers ≡ (suc n + (2 ^ 21 - 1)) / 2 ^ 21)
        × ((i : ℕ)
            → i < length (written n s).supers
            → word_at (written n s).supers i ≡ ones words (2 ^ 32 * i))
  supers-Built n s b = elim (Bool-cases (starts_epoch n)) [
    | inr e ↦ rw (e) (ground (arith, e, b.super_count), b.each_super)
    | inl e ↦ rw (e) (
      omega (
        arith,
        (==_iff (n % 2 ^ 21) 0).0 e,
        b.super_count,
        length-append s.supers (ones words (epoch n) ∷ []),
      ),
      last (omega (arith, (==_iff (n % 2 ^ 21) 0).0 e, b.super_count)),
    )
  ]
    where
      last :
          length s.supers ≡ n / 2 ^ 21
          → (i : ℕ) → i < length (s.supers ++ (ones words (epoch n) ∷ []))
          → word_at (s.supers ++ (ones words (epoch n) ∷ [])) i ≡ ones words (2 ^ 32 * i)
      last len i h = elim (Bool-cases (i == length s.supers)) [
        | inl e ↦
            ap (word_at (s.supers ++ (ones words (epoch n) ∷ [])))
              ((==_iff i (length s.supers)).0 e)
            ∙ (word_at-snoc s.supers (ones words (epoch n))
                ∙ ones_same words (epoch n) (2 ^ 32 * i)
                    (omega (arith, len, (==_iff i (length s.supers)).0 e)))
        | inr e ↦ word_at-append s.supers _ i (before_last e) ∙ b.each_super i (before_last e)
      ]
        where
          before_last : (i == length s.supers) ≡ false → i < length s.supers
          before_last e = ground (arith, e, h, length-append s.supers (ones words (epoch n) ∷ []))

  pub write_block-Built :
      (n : ℕ) (s : Building)
      → Built n s
      → (s' : Building) × ((write_block s n (full_runs words n) ≡ ok s') × Built (suc n) s')
  unfolding write_block
  write_block-Built n s b =
      let (count, each) = supers-Built n s b in
      (
        written n s,
        (
          rw (before_lem n s b, write_block) refl,
          record {
            total_ones = omega (arith, b.total_ones, full_runs-ones words n);
            base_ones = λ e. ones_same words (epoch n) (epoch (suc n)) (ground (arith, e));
            block_count = omega (arith, b.block_count, length-append s.blocks (written_block ∷ []));
            each_block = blocks_up_to;
            super_count = count;
            each_super = each;
          },
        ),
      )
    where
      written_block : RankBlock
      written_block = record {
        before = ones words (2048 * n) - ones words (epoch n);
        runs = packed (full_runs words n);
      }

      blocks_up_to : (i : ℕ) → i < suc n → IsBlock i (block_at (written n s).blocks i)
      blocks_up_to i h = elim (Bool-cases (i == n)) [
        | inl e ↦
            subst (λ k. IsBlock k (block_at (written n s).blocks k)) (sym ((==_iff i n).0 e))
              (subst (IsBlock n) (sym newest) (refl, refl))
        | inr e ↦
            subst (IsBlock i)
              (sym (
                block_at-append s.blocks (written_block ∷ []) i
                  (ground (arith, e, h, b.block_count))))
              (b.each_block i (ground (arith, e, h)))
      ]
        where
          newest : block_at (written n s).blocks n ≡ written_block
          newest =
              ap (block_at (written n s).blocks) (sym b.block_count)
              ∙ block_at-snoc s.blocks written_block

  pub full_blocks-Built : (n : ℕ) → (s : Building) × ((full_blocks words n ≡ ok s) × Built n s)
  unfolding full_blocks
  full_blocks-Built zero = (
    nothing_built,
    (
      refl,
      record {
        total_ones = sym (ones_zero words);
        base_ones = λ e. absurd (cc);
        block_count = refl;
        each_block = λ i h. absurd (omega (arith, h));
        super_count = refl;
        each_super = λ i h. absurd (omega (arith, h));
      },
    ),
  )
  full_blocks-Built (suc n) =
      let (s, (e, b)) = full_blocks-Built n in
      let (s', (e', b')) = write_block-Built n s b in (s', (rw (e) e', b'))
