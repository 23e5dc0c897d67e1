-- ===== src/FixedSearch.antt =====
-- include/everett/fixed_search.h: `fixed_key_view` on the scalar architecture, whose `prefer_simd` is
-- false. A view's bytes are a list of numbers; `words` is the template argument, and a query has as
-- many words. Pivots are read in place of their copies.
pub mod Order
pub mod Partition
pub mod Binary
pub mod Pivots
pub mod Bounds
pub mod Subviews
mod Examples
use everett.Base.{
  ℕ, zero, suc, ◌+◌, ◌-◌, ◌*◌, ◌/◌, ◌%◌, ◌^◌, min, Bool, true, false, not, ◌&&◌, ◌||◌, List, [],
  ◌∷◌, Option, none, some, if◌then◌else◌, ltb, leb, ◌==◌, length, get_elem?, take, drop, Result,
  raise, ok, require, invalid_argument, out_of_range,
}
use everett.Width.{bit_width, has_single_bit}

-- No read is out of range where the ordinal is below the size.
unfoldable pub byte_at : List ℕ → ℕ → ℕ
byte_at bytes i = elim (get_elem? bytes i) [ none ↦ 0 | some b ↦ b ]

-- Four bytes, the lowest first.
unfoldable pub load_word : List ℕ → ℕ → ℕ
load_word bytes at =
    byte_at bytes at
    + 2 ^ 8 * byte_at bytes (at + 1)
    + 2 ^ 16 * byte_at bytes (at + 2)
    + 2 ^ 24 * byte_at bytes (at + 3)

-- The loop of `precedes`, from word to word: `less` and `equal`.
unfoldable pub compare_words : List ℕ → ℕ → List ℕ → (less equal : Bool) → Bool × Bool
compare_words bytes at [] less equal = (less, equal)
compare_words bytes at (q ∷ query) less equal =
    let value = load_word bytes at in
    compare_words bytes (at + 4) query (less || (equal && ltb value q)) (equal && value == q)

unfoldable pub precedes : (upper : Bool) → List ℕ → ℕ → List ℕ → Bool
precedes upper bytes at query =
    let (less, equal) = compare_words bytes at query false true in
    if upper then less || equal else less

-- The words of a key, the most significant first.
unfoldable pub load_words : List ℕ → ℕ → (words : ℕ) → List ℕ
load_words bytes at zero = []
load_words bytes at (suc n) = load_word bytes at ∷ load_words bytes (at + 4) n

abbrev pub one_if : Bool → ℕ
one_if b = if b then 1 else 0

-- The searches, on the test of an ordinal.
module _ (below : ℕ → Bool) where
  -- The loop over a complete window, where `step` is 2 ^ k for each k below the argument.
  unfoldable pub complete_scan : (k first : ℕ) → ℕ
  complete_scan zero first = first
  complete_scan (suc k) first =
      complete_scan k (first + (if below (first + 2 ^ k - 1) then 2 ^ k else 0))

  -- The loop over any window.
  unfoldable pub scan : (count k first : ℕ) → ℕ
  scan count zero first = first
  scan count (suc k) first =
      let next = first + 2 ^ k in
      let probe = min next count - 1 in
      scan count k (first + (if leb next count && below probe then 2 ^ k else 0))

  -- `step` starts at bit_floor(count), which is 2 ^ (bit_width(count) - 1), or 0 for no keys.
  unfoldable pub binary_bound : ℕ → ℕ
  binary_bound count =
      if has_single_bit (count + 1)
      then complete_scan (bit_width count) 0
      else scan count (bit_width count) 0

  -- How many of `count` ordinals from `first` pass.
  unfoldable pub population : (first count : ℕ) → ℕ
  population first zero = 0
  population first (suc count) = one_if (below first) + population (suc first) count

  -- The new `first` and `count`.
  unfoldable pub pivot_step : ℕ × ℕ → ℕ × ℕ
  pivot_step (first, count) =
      let rank =
        one_if (below (first + count / 4))
        + one_if (below (first + count / 2))
        + one_if (below (first + 3 * count / 4)) in
      let start = rank * count / 4 + (if rank == 0 then 0 else 1) in
      let end = (rank + 1) * count / 4 in (first + start, end - start)

  unfoldable pub finish : ℕ × ℕ → ℕ
  finish (first, count) = if count == 0 then first else first + population first count

  unfoldable pub small_bound : (bucket size : ℕ) → ℕ
  small_bound bucket size =
      let one = if ltb 4 bucket then pivot_step (0, size) else (0, size) in
      finish (if ltb 16 bucket then pivot_step one else one)

  unfoldable pub simd_bound : ℕ → ℕ
  simd_bound size =
      if leb size 4
      then small_bound 4 size
      else if leb size 8
      then small_bound 8 size
      else if leb size 16
      then small_bound 16 size
      else if leb size 32
      then small_bound 32 size
      else binary_bound size

-- A view, for a number of words.
pub record FixedKeyView (words : ℕ) : Type 0 where
  pub bytes : List ℕ

module _ {words : ℕ} where
  unfoldable pub view : List ℕ → Result (FixedKeyView words)
  view bytes =
      require (length bytes % (words * 4) == 0) invalid_argument (ok (record { bytes = bytes }))

  unfoldable pub size : FixedKeyView words → ℕ
  size v = length v.bytes / (words * 4)

  unfoldable pub key_at : FixedKeyView words → ℕ → Result (List ℕ)
  key_at v ordinal =
      require (ltb ordinal (size v)) out_of_range
        (ok (load_words v.bytes (ordinal * (words * 4)) words))

  unfoldable pub subview : FixedKeyView words → (first count : ℕ) → Result (FixedKeyView words)
  subview v first count =
      require (not (ltb (size v) first || ltb (size v - first) count)) out_of_range
        (view (take (count * (words * 4)) (drop (first * (words * 4)) v.bytes)))

  unfoldable pub below_query : (upper : Bool) → FixedKeyView words → List ℕ → ℕ → Bool
  below_query upper v query ordinal = precedes upper v.bytes (ordinal * (words * 4)) query

  unfoldable pub lower_bound : FixedKeyView words → List ℕ → ℕ
  lower_bound v query = binary_bound (below_query false v query) (size v)

  unfoldable pub upper_bound : FixedKeyView words → List ℕ → ℕ
  upper_bound v query = binary_bound (below_query true v query) (size v)

  unfoldable pub lower_bound_simd : FixedKeyView words → List ℕ → ℕ
  lower_bound_simd v query = simd_bound (below_query false v query) (size v)

  unfoldable pub upper_bound_simd : FixedKeyView words → List ℕ → ℕ
  upper_bound_simd v query = simd_bound (below_query true v query) (size v)
