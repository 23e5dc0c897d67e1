-- ===== src/Rank.antt =====
-- include/everett/rank.h on the scalar architecture: the directory of populations over a bit vector,
-- its builder, and the rank. A mask of low bits is `%`, a shift is `/` or `*`, and the packed counts
-- are disjoint, so `|` is `+`. The totals of the builder never exceed the number of bits.
pub mod Bits
pub mod Tail
pub mod Build
pub mod Clear
pub mod Queries
mod Examples
use everett.Base.{
  ℕ, zero, suc, ◌+◌, ◌-◌, ◌*◌, ◌/◌, ◌%◌, ◌^◌, Bool, true, false, not, ◌&&◌, ◌||◌, List, [], ◌∷◌,
  ◌++◌, Option, none, some, if◌then◌else◌, ltb, ◌==◌, length, get_elem?, set, Result, raise, ok,
  ◌>>=◌, require, invalid_argument, out_of_range, overflow_error,
}

pub record RankBlock : Type 0 where
  pub before : ℕ
  pub runs : ℕ

-- No read is out of range where the shapes of the sections have been checked.
unfoldable pub word_at : List ℕ → ℕ → ℕ
word_at words i = elim (get_elem? words i) [ none ↦ 0 | some w ↦ w ]

-- The ones among the lowest bits.
unfoldable pub low_ones : (bits word : ℕ) → ℕ
low_ones zero word = 0
low_ones (suc k) word = word % 2 + low_ones k (word / 2)

-- `std::popcount`
abbrev pub popcount : ℕ → ℕ
popcount word = low_ones 64 word

-- The populations of `count` words from an index on.
unfoldable pub sum_words : List ℕ → (at count : ℕ) → ℕ
sum_words words at zero = 0
sum_words words at (suc count) = popcount (word_at words at) + sum_words words (suc at) count

unfoldable pub prefix512_portable : List ℕ → (at bits : ℕ) → ℕ
prefix512_portable words at bits =
    sum_words words at (bits / 64)
    + (if bits % 64 == 0 then 0 else popcount (word_at words (at + bits / 64) % 2 ^ (bits % 64)))

unfoldable pub popcount512_portable : List ℕ → ℕ → ℕ
popcount512_portable words at = sum_words words at 8

unfoldable pub run_prefix : (packed run : ℕ) → ℕ
run_prefix packed run =
    let selected = packed % 2 ^ (11 * run) in selected * 0x400801 % 2 ^ 64 / 2 ^ 22 % 2048

-- `directory_cursor`
abbrev pub starts_epoch : ℕ → Bool
starts_epoch block = block % 2 ^ 21 == 0

-- The new `epoch_base`, and the relative count.
unfoldable pub before : (epoch_base block total : ℕ) → Result (ℕ × ℕ)
before epoch_base block total =
    let base = if starts_epoch block then total else epoch_base in
    require (not (ltb total base || ltb (2 ^ 32 - 1) (total - base))) overflow_error
      (ok (base, total - base))

-- The sections of an index, which a view borrows.
pub record RankIndex : Type 0 where
  pub words : List ℕ
  pub blocks : List RankBlock
  pub supers : List ℕ
  pub bit_count : ℕ

-- What the builder has when it has done some blocks. The blocks are written in order.
pub record Building : Type 0 where
  pub blocks : List RankBlock
  pub supers : List ℕ
  pub epoch_base : ℕ
  pub total : ℕ

abbrev pub nothing_built : Building
nothing_built = record { blocks = []; supers = []; epoch_base = 0; total = 0 }

-- The populations of the four runs of a block.
pub record Runs : Type 0 where
  pub a : ℕ
  pub b : ℕ
  pub c : ℕ
  pub d : ℕ

-- `begin_block`, and what is written of the block behind it.
unfoldable pub write_block : Building → (block : ℕ) → Runs → Result Building
write_block s block r = before s.epoch_base block s.total >>= λ cursor. ok (record {
  blocks =
      s.blocks ++ (record { before = cursor.1; runs = r.a + r.b * 2 ^ 11 + r.c * 2 ^ 22 } ∷ []);
  supers = if starts_epoch block then s.supers ++ (cursor.0 ∷ []) else s.supers;
  epoch_base = cursor.0;
  total = s.total + (r.a + r.b + r.c + r.d);
})

unfoldable pub full_runs : List ℕ → ℕ → Runs
full_runs words block = record {
  a = popcount512_portable words (block * 32);
  b = popcount512_portable words (block * 32 + 8);
  c = popcount512_portable words (block * 32 + 16);
  d = popcount512_portable words (block * 32 + 24);
}

-- The loop over the full blocks.
unfoldable pub full_blocks : List ℕ → ℕ → Result Building
full_blocks words zero = ok nothing_built
full_blocks words (suc block) =
    full_blocks words block >>= λ s. write_block s block (full_runs words block)

-- `counts[run] += population`
unfoldable pub bump : ℕ → ℕ → Runs → Runs
bump zero n r = record r { a = r.a + n }
bump (suc zero) n r = record r { b = r.b + n }
bump (suc (suc zero)) n r = record r { c = r.c + n }
bump (suc (suc (suc run))) n r = record r { d = r.d + n }

-- The loop over the words of a partial block, from the `j`-th of it on.
unfoldable pub tail_runs : List ℕ → (first j count : ℕ) → Runs → Runs
tail_runs words first j zero r = r
tail_runs words first j (suc count) r =
    tail_runs words first (suc j) count (bump (j / 8) (popcount (word_at words (first + j))) r)

abbrev pub no_runs : Runs
no_runs = record { a = 0; b = 0; c = 0; d = 0 }

-- The unused bits of the last word are cleared.
unfoldable pub clear_tail : List ℕ → (bits : ℕ) → List ℕ
clear_tail words bits =
    if bits % 64 == 0
    then words
    else set words (length words - 1) (word_at words (length words - 1) % 2 ^ (bits % 64))

unfoldable pub blocks_of : List ℕ → (bits : ℕ) → Result Building
blocks_of words bits = full_blocks words (bits / 2048) >>= λ s.
    if bits / 2048 == (bits + 2047) / 2048
    then ok s
    else write_block s (bits / 2048)
        (tail_runs words (bits / 2048 * 32) 0 (length words - bits / 2048 * 32) no_runs)

unfoldable pub build : List ℕ → (bits : ℕ) → Result RankIndex
build source bits =
    require (not (ltb (2 ^ 64 - 1 - 0xffffffff) bits) && length source == (bits + 63) / 64)
      invalid_argument
      (blocks_of (clear_tail source bits) bits >>= λ s. ok (record {
        words = clear_tail source bits;
        blocks = s.blocks;
        supers = s.supers;
        bit_count = bits;
      }))

-- The constructor of a view checks the shapes.
unfoldable pub view : RankIndex → Result RankIndex
view x =
    require
      (not (ltb (2 ^ 64 - 1 - 0xffffffff) x.bit_count)
        && (length x.words == (x.bit_count + 63) / 64
            && (length x.blocks == (x.bit_count + 2047) / 2048
                && length x.supers == (x.bit_count + 0xffffffff) / 2 ^ 32)))
      invalid_argument (ok x)

unfoldable pub block_at : List RankBlock → ℕ → RankBlock
block_at blocks i = elim (get_elem? blocks i) [
  | none ↦ record { before = 0; runs = 0 }
  | some b ↦ b
]

unfoldable pub rank : RankIndex → ℕ → Result ℕ
rank x position = require (ltb position x.bit_count) out_of_range (
    let block = block_at x.blocks (position / 2048) in
    let bits = position % 512 in
    ok (
      (word_at x.supers (position / 2 ^ 32)
        + block.before
        + run_prefix block.runs (position / 512 % 4)
        + (if bits == 0 then 0 else prefix512_portable x.words (position / 512 * 8) bits))
      % 2 ^ 64))

unfoldable pub count : RankIndex → Result ℕ
count x =
    if x.bit_count == 0
    then ok 0
    else (let last = x.bit_count - 1 in
        rank x last >>= λ r. ok (r + word_at x.words (last / 64) / 2 ^ (last % 64) % 2))
