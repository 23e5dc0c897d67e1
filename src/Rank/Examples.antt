-- ===== src/Rank/Examples.antt =====
-- rank.h: a vector of 70 bits, whose last word has bits that are not in use.
use everett.Base.{
  ℕ, ◌≡◌, refl, List, [], ◌∷◌, ltb, if◌then◌else◌, raise, ok, ◌>>=◌, out_of_range, arith,
}
use everett.Rank.Bits.{ones}
use everett.Rank.Queries.{rank-ones}
use everett.Rank.{
  RankIndex, word_at, low_ones, sum_words, prefix512_portable, run_prefix, before, write_block,
  full_blocks, bump, tail_runs, clear_tail, blocks_of, build, view, block_at, rank, count,
}

abbrev source : List ℕ
source = 0xf0f0 ∷ 0xffff ∷ []

count-source : (build source 70 >>= count) ≡ ok 14
unfolding build blocks_of clear_tail tail_runs bump full_blocks write_block before count rank
    block_at run_prefix prefix512_portable sum_words low_ones word_at
count-source = refl

rank-ones_example :
    (x : RankIndex) × ((build source 70 ≡ ok x)
      × (view x ≡ ok x)
      × ((p : ℕ) → rank x p ≡ (if ltb p 70 then ok (ones source p) else raise out_of_range))
      × (count x ≡ ok (ones source 70)))
rank-ones_example = rank-ones source 70 (record { word_count = refl; bounded = omega arith })
