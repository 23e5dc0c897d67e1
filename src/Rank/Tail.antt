-- ===== src/Rank/Tail.antt =====
-- rank.h: the counts of a block: bounded, packed and summed again, and those of a partial block.
use everett.Base.{
  ℕ, zero, suc, ◌+◌, ◌-◌, ◌*◌, ◌/◌, ◌^◌, ◌≤◌, ◌≡◌, refl, sym, ◌∙◌, ap, List, [], ◌∷◌, length, arith,
}
use everett.Rank.Bits.{ones, ones_same, low_ones-zero, sum_words-ones}
use everett.Rank.{
  word_at, low_ones, popcount, sum_words, popcount512_portable, run_prefix, Runs, no_runs,
  full_runs, bump, tail_runs,
}

low_ones_le : (k word : ℕ) → low_ones k word ≤ k
unfolding low_ones
low_ones_le zero word = omega arith
low_ones_le (suc k) word = omega (arith, low_ones_le k (word / 2))

pub sum_words_le : (words : List ℕ) (at count : ℕ) → sum_words words at count ≤ 64 * count
unfolding sum_words
sum_words_le words at zero = omega arith
sum_words_le words at (suc count) =
    omega (arith, low_ones_le 64 (word_at words at), sum_words_le words (suc at) count)

word_at_past : (words : List ℕ) (i : ℕ) → length words ≤ i → word_at words i ≡ 0
unfolding word_at
word_at_past [] i h = refl
word_at_past (w ∷ words) zero h = absurd (omega (arith, h))
word_at_past (w ∷ words) (suc i) h = word_at_past words i (omega (arith, h))

abbrev pub packed : Runs → ℕ
packed r = r.a + r.b * 2 ^ 11 + r.c * 2 ^ 22

pub record Small (r : Runs) : Type 0 where
  pub a_le : r.a ≤ 512
  pub b_le : r.b ≤ 512
  pub c_le : r.c ≤ 512

abbrev pub first_runs : Runs → ℕ → ℕ
first_runs r zero = 0
first_runs r (suc zero) = r.a
first_runs r (suc (suc zero)) = r.a + r.b
first_runs r (suc (suc (suc n))) = r.a + r.b + r.c

-- The multiplication by 0x400801 sums the packed counts of the runs before one of the four.
pub run_prefix-packed :
    (r : Runs) (run : ℕ) → Small r → run ≤ 3 → run_prefix (packed r) run ≡ first_runs r run
unfolding run_prefix
run_prefix-packed r zero s h = omega arith
run_prefix-packed r (suc zero) s h = omega (arith, s.a_le, s.b_le, s.c_le)
run_prefix-packed r (suc (suc zero)) s h = omega (arith, s.a_le, s.b_le, s.c_le)
run_prefix-packed r (suc (suc (suc zero))) s h = omega (arith, s.a_le, s.b_le, s.c_le)
run_prefix-packed r (suc (suc (suc (suc n)))) s h = absurd (omega (arith, h))

pub full_runs-Small : (words : List ℕ) (block : ℕ) → Small (full_runs words block)
unfolding full_runs popcount512_portable
full_runs-Small words block = record {
  a_le = sum_words_le words (block * 32) 8;
  b_le = sum_words_le words (block * 32 + 8) 8;
  c_le = sum_words_le words (block * 32 + 16) 8;
}

plus-zero : (n : ℕ) → n + 0 ≡ n
plus-zero n = omega arith

-- The ones before the runs of a block.
pub full_runs-ones :
    (words : List ℕ) (block : ℕ)
    → let r = full_runs words block in
      (ones words (2048 * block + 512) ≡ ones words (2048 * block) + r.a)
      × (ones words (2048 * block + 1024) ≡ ones words (2048 * block) + r.a + r.b)
      × (ones words (2048 * block + 1536) ≡ ones words (2048 * block) + r.a + r.b + r.c)
      × (ones words (2048 * suc block) ≡ ones words (2048 * block) + (r.a + r.b + r.c + r.d))
unfolding full_runs popcount512_portable
full_runs-ones words block = (
  one,
  omega (arith, one, two),
  omega (arith, one, two, three),
  omega (arith, one, two, three, four),
)
  where
    run_at :
        (k from to : ℕ)
        → 64 * (block * 32 + k) ≡ from
        → 64 * (block * 32 + k + 8) ≡ to
        → ones words to ≡ ones words from + sum_words words (block * 32 + k) 8
    run_at k from to e e' = omega (
      arith,
      sum_words-ones words (block * 32 + k) 8,
      ones_same words _ from e,
      ones_same words _ to e',
    )

    one :
        ones words (2048 * block + 512) ≡ ones words (2048 * block) + sum_words words (block * 32) 8
    one =
        run_at 0 _ _ (omega arith) (omega arith)
        ∙ ap (λ at. ones words (2048 * block) + sum_words words at 8) (plus-zero (block * 32))

    two :
        ones words (2048 * block + 1024)
        ≡ ones words (2048 * block + 512) + sum_words words (block * 32 + 8) 8
    two = run_at 8 _ _ (omega arith) (omega arith)

    three :
        ones words (2048 * block + 1536)
        ≡ ones words (2048 * block + 1024) + sum_words words (block * 32 + 16) 8
    three = run_at 16 _ _ (omega arith) (omega arith)

    four :
        ones words (2048 * suc block)
        ≡ ones words (2048 * block + 1536) + sum_words words (block * 32 + 24) 8
    four = run_at 24 _ _ (omega arith) (omega arith)

plus_plus : (k m n : ℕ) → k + m + n ≡ k + (m + n)
plus_plus k m n = omega arith

bump_zero : (q : ℕ) (r : Runs) → bump q 0 r ≡ r
unfolding bump
bump_zero zero r = λ i. record r { a = plus-zero r.a i }
bump_zero (suc zero) r = λ i. record r { b = plus-zero r.b i }
bump_zero (suc (suc zero)) r = λ i. record r { c = plus-zero r.c i }
bump_zero (suc (suc (suc q))) r = λ i. record r { d = plus-zero r.d i }

bump_twice : (q m n : ℕ) (r : Runs) → bump q n (bump q m r) ≡ bump q (m + n) r
unfolding bump
bump_twice zero m n r = λ i. record r { a = plus_plus r.a m n i }
bump_twice (suc zero) m n r = λ i. record r { b = plus_plus r.b m n i }
bump_twice (suc (suc zero)) m n r = λ i. record r { c = plus_plus r.c m n i }
bump_twice (suc (suc (suc q))) m n r = λ i. record r { d = plus_plus r.d m n i }

module _ (words : List ℕ) (first : ℕ) where
  tail_same :
      (j k n m : ℕ) (r s : Runs)
      → j ≡ k
      → n ≡ m
      → r ≡ s
      → tail_runs words first j n r ≡ tail_runs words first k m s
  tail_same j k n m r s e e' e'' = λ i. tail_runs words first (e i) (e' i) (e'' i)

  eight_words :
      (q i c n : ℕ) (r : Runs)
      → i + c ≤ 8
      → tail_runs words first (8 * q + i) (c + n) r
        ≡ tail_runs words first
            (8 * q + i + c)
            n
            (bump q (sum_words words (first + (8 * q + i)) c) r)
  unfolding sum_words
  eight_words q i zero n r h =
      tail_same _ _ _ _ _ _ (omega arith) (omega arith) (sym (bump_zero q r))
  eight_words q i (suc c) n r h =
      tail_same (8 * q + i) (8 * q + i) (suc c + n) (suc (c + n)) r r refl (omega arith) refl
      ∙ (step
          ∙ (tail_same (suc (8 * q + i)) (8 * q + suc i) (c + n) (c + n) _ _ (omega arith) refl refl
              ∙ (eight_words q (suc i) c n _ (omega (arith, h))
                  ∙ tail_same _ _ n n _ _ (omega arith) refl (
                      ap (λ k. bump q k (bump q population r)) (ap (λ a. sum_words words a c) next)
                      ∙ bump_twice q _ _ r))))
    where
      population : ℕ
      population = popcount (word_at words (first + (8 * q + i)))

      next : first + (8 * q + suc i) ≡ suc (first + (8 * q + i))
      next = omega arith

      step :
          tail_runs words first (8 * q + i) (suc (c + n)) r
          ≡ tail_runs words first (suc (8 * q + i)) (c + n) (bump q population r)
      step =
          unfold tail_runs in
          tail_same _ _ (c + n) (c + n) _ _ refl refl (ap (λ k. bump k population r) run)
        where
          run : (8 * q + i) / 8 ≡ q
          run = omega (arith, h)

  past_all : (j m : ℕ) (r : Runs) → length words ≤ first + j → tail_runs words first j m r ≡ r
  unfolding tail_runs
  past_all j zero r h = refl
  past_all j (suc m) r h =
      tail_same (suc j) (suc j) m m (bump (j / 8) (popcount (word_at words (first + j))) r) r refl
        refl none_more
      ∙ past_all (suc j) m r (omega (arith, h))
    where
      none_more : bump (j / 8) (popcount (word_at words (first + j))) r ≡ r
      none_more =
          ap (λ w. bump (j / 8) (popcount w) r) (word_at_past words (first + j) h)
          ∙ ap (λ n. bump (j / 8) n r) (low_ones-zero 64)
          ∙ bump_zero (j / 8) r

  past_end :
      (j n m : ℕ) (r : Runs)
      → length words ≤ first + (j + n)
      → tail_runs words first j (n + m) r ≡ tail_runs words first j n r
  unfolding tail_runs
  past_end j zero m r h =
      tail_same j j (0 + m) m r r refl (omega arith) refl
      ∙ (past_all j m r (omega (arith, h)) ∙ sym (past_all j 0 r (omega (arith, h))))
  past_end j (suc n) m r h =
      tail_same j j (suc n + m) (suc (n + m)) r r refl (omega arith) refl
      ∙ past_end (suc j) n m (bump (j / 8) (popcount (word_at words (first + j))) r)
          (omega (arith, h))

-- The words of a partial block are counted to the runs that they would have in a full one.
pub tail_runs-full :
    (words : List ℕ) (block : ℕ)
    → length words ≤ block * 32 + 32
    → tail_runs words (block * 32) 0 (length words - block * 32) no_runs ≡ full_runs words block
unfolding full_runs popcount512_portable bump
tail_runs-full words block h =
    sym (past_end words first 0 n (32 - n) no_runs (omega arith))
    ∙ (tail_same words first 0 (8 * 0 + 0) (n + (32 - n)) (8 + 24) no_runs no_runs (omega arith)
          (omega (arith, h)) refl
        ∙ (eight_words words first 0 0 8 24 no_runs (omega arith)
            ∙ (eight_words words first 1 0 8 16 _ (omega arith)
                ∙ (eight_words words first 2 0 8 8 _ (omega arith)
                    ∙ (eight_words words first 3 0 8 0 _ (omega arith) ∙ counted)))))
  where
    first : ℕ
    first = block * 32

    n : ℕ
    n = length words - first

    plain : (k : ℕ) → 0 + sum_words words k 8 ≡ sum_words words k 8
    plain k = omega arith

    counted :
        tail_runs words first 32 0 (record {
          a = 0 + sum_words words (first + 0) 8;
          b = 0 + sum_words words (first + 8) 8;
          c = 0 + sum_words words (first + 16) 8;
          d = 0 + sum_words words (first + 24) 8;
        })
        ≡ full_runs words block
    counted =
        unfold tail_runs in
        λ i. record {
          a = (plain (first + 0) ∙ ap (λ at. sum_words words at 8) (plus-zero first)) i;
          b = plain (first + 8) i;
          c = plain (first + 16) i;
          d = plain (first + 24) i;
        }
