-- ===== src/Rank/Bits.antt =====
-- rank.h: the ones of a bit vector, and the populations of its words.
use native.Mathlib.Nat.{
  div-div-eq-div-mul, div-add-mod, add-mul-mod_self_left, mod-eq_of_lt, mod-lt,
}
use everett.Base.{
  ℕ, zero, suc, ◌+◌, ◌*◌, ◌/◌, ◌%◌, ◌^◌, ◌≤◌, ◌<◌, ◌≡◌, refl, sym, ◌∙◌, ap, ap₂, inl, inr, List,
  if◌then◌else◌, Bool-cases, ◌==◌, ==_iff, arith,
}
use everett.Rank.{word_at, low_ones, popcount, sum_words, prefix512_portable}

abbrev pub bit : (i word : ℕ) → ℕ
bit i word = word / 2 ^ i % 2

-- The bit vector that words make, 64 bits to a word, the lowest first; and its ones before a position.
abbrev pub bit_at : List ℕ → ℕ → ℕ
bit_at words i = bit (i % 64) (word_at words (i / 64))

unfoldable pub ones : List ℕ → ℕ → ℕ
ones words zero = 0
ones words (suc i) = ones words i + bit_at words i

pub pow_pos : (k : ℕ) → zero < 2 ^ k
pow_pos zero = omega arith
pow_pos (suc k) = omega (arith, pow_pos k)

bit-suc : (i word : ℕ) → bit i (word / 2) ≡ bit (suc i) word
bit-suc i word =
    ap (λ n. n % 2) (div-div-eq-div-mul word 2 (2 ^ i) ∙ ap (λ n. word / n) (omega arith))

bit_zero : (word : ℕ) → bit 0 word ≡ word % 2
bit_zero word = omega arith

pub low_ones-suc : (k word : ℕ) → low_ones (suc k) word ≡ low_ones k word + bit k word
unfolding low_ones
low_ones-suc zero word = omega (arith, bit_zero word)
low_ones-suc (suc k) word = omega (arith, low_ones-suc k (word / 2), bit-suc k word)

mod_of_sum : (m x z : ℕ) → x < m → (x + m * z) % m ≡ x
mod_of_sum m x z h = add-mul-mod_self_left x m z ∙ mod-eq_of_lt h

pow_double : (k x : ℕ) → 2 ^ suc k * x ≡ 2 * (2 ^ k * x)
pow_double k x = ap (λ m. m * x) two ∙ omega arith
  where
    two : 2 ^ suc k ≡ 2 * 2 ^ k
    two = omega arith

mod_double : (k word : ℕ) → word % 2 ^ suc k ≡ 2 * (word / 2 % 2 ^ k) + word % 2
mod_double k word =
    ap (λ n. n % 2 ^ suc k) parts
    ∙ mod_of_sum (2 ^ suc k) (2 * (word / 2 % 2 ^ k) + word % 2) (word / 2 / 2 ^ k) small
  where
    halves : 2 ^ k * (word / 2 / 2 ^ k) + word / 2 % 2 ^ k ≡ word / 2
    halves = div-add-mod (word / 2) (2 ^ k)

    parts : word ≡ 2 * (word / 2 % 2 ^ k) + word % 2 + 2 ^ suc k * (word / 2 / 2 ^ k)
    parts = omega (arith, halves, pow_double k (word / 2 / 2 ^ k))

    small : 2 * (word / 2 % 2 ^ k) + word % 2 < 2 ^ suc k
    small = omega (arith, mod-lt (word / 2) (pow_pos k))

mod_halves :
    (k word : ℕ) → (word % 2 ^ suc k / 2 ≡ word / 2 % 2 ^ k) × (word % 2 ^ suc k % 2 ≡ word % 2)
mod_halves k word = (omega (arith, mod_double k word), omega (arith, mod_double k word))

-- Bits below a mask are kept.
pub low_ones_mask : (m k word : ℕ) → k ≤ m → low_ones k (word % 2 ^ m) ≡ low_ones k word
unfolding low_ones
low_ones_mask m zero word h = refl
low_ones_mask zero (suc k) word h = absurd (omega (arith, h))
low_ones_mask (suc m) (suc k) word h = omega (
  arith,
  mod_halves m word,
  ap (low_ones k) (mod_halves m word).0,
  low_ones_mask m k (word / 2) (omega (arith, h)),
)

low_ones-none : (word : ℕ) → low_ones 0 word ≡ 0
unfolding low_ones
low_ones-none word = refl

mod-one : (word : ℕ) → word % 2 ^ 0 ≡ 0
mod-one word = omega arith

pub low_ones-zero : (k : ℕ) → low_ones k 0 ≡ 0
unfolding low_ones
low_ones-zero zero = refl
low_ones-zero (suc k) = omega (arith, low_ones-zero k)

-- The population of the masked word is that of its low bits.
low_ones-masked : (m k word : ℕ) → k ≤ m → low_ones m (word % 2 ^ k) ≡ low_ones k word
unfolding low_ones
low_ones-masked m zero word h = ap (low_ones m) (mod-one word) ∙ low_ones-zero m
low_ones-masked zero (suc k) word h = absurd (omega (arith, h))
low_ones-masked (suc m) (suc k) word h = omega (
  arith,
  mod_halves k word,
  ap (low_ones m) (mod_halves k word).0,
  low_ones-masked m k (word / 2) (omega (arith, h)),
)

pub ones_same : (words : List ℕ) (a b : ℕ) → a ≡ b → ones words a ≡ ones words b
ones_same words a b h = ap (ones words) h

word-bit : (words : List ℕ) (j k : ℕ) → k < 64 → bit_at words (64 * j + k) ≡ bit k (word_at words j)
word-bit words j k h = ap₂ (λ r q. bit r (word_at words q)) rest whole
  where
    rest : (64 * j + k) % 64 ≡ k
    rest = omega (arith, h)

    whole : (64 * j + k) / 64 ≡ j
    whole = omega (arith, h)

-- The ones of a vector up to a bit of a word, and the low bits of the word.
ones-low :
    (words : List ℕ) (j k : ℕ)
    → k ≤ 64
    → ones words (64 * j + k) ≡ ones words (64 * j) + low_ones k (word_at words j)
unfolding ones low_ones
ones-low words j zero h = ones_same words (64 * j + 0) (64 * j) (omega arith) ∙ omega arith
ones-low words j (suc k) h =
    ones_same words (64 * j + suc k) (suc (64 * j + k)) (omega arith)
    ∙ omega (
      arith,
      ones-low words j k (omega (arith, h)),
      word-bit words j k h,
      low_ones-suc k (word_at words j),
    )

pub sum_words-ones :
    (words : List ℕ) (at count : ℕ)
    → ones words (64 * (at + count)) ≡ ones words (64 * at) + sum_words words at count
unfolding sum_words
sum_words-ones words at zero = ones_same words (64 * (at + 0)) (64 * at) (omega arith) ∙ omega arith
sum_words-ones words at (suc count) =
    ones_same words (64 * (at + suc count)) (64 * (suc at + count)) (omega arith)
    ∙ omega (
      arith,
      sum_words-ones words (suc at) count,
      ones_same words (64 * suc at) (64 * at + 64) (omega arith),
      ones-low words at 64 (omega arith),
    )

pub prefix512-ones :
    (words : List ℕ) (at bits : ℕ)
    → ones words (64 * at + bits) ≡ ones words (64 * at) + prefix512_portable words at bits
unfolding prefix512_portable
prefix512-ones words at bits =
    ones_same words (64 * at + bits) (64 * (at + bits / 64) + bits % 64) (omega arith)
    ∙ omega (
      arith,
      ones-low words (at + bits / 64) (bits % 64) (omega arith),
      sum_words-ones words at (bits / 64),
      tail,
    )
  where
    word : ℕ
    word = word_at words (at + bits / 64)

    tail :
        low_ones (bits % 64) word
        ≡ (if bits % 64 == 0 then 0 else popcount (word % 2 ^ (bits % 64)))
    tail = elim (Bool-cases (bits % 64 == 0)) [
      | inl e ↦ rw (e) (ap (λ k. low_ones k word) ((==_iff _ 0).0 e) ∙ low_ones-none word)
      | inr n ↦ rw (n) (sym (low_ones-masked 64 (bits % 64) word (omega arith)))
    ]
