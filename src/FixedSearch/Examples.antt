-- ===== src/FixedSearch/Examples.antt =====
-- fixed_search.h: five keys of one word, and the theorems at them.
use everett.Base.{
  ℕ, zero, suc, ◌+◌, ◌^◌, ◌≤◌, ◌<◌, ◌≡◌, refl, Bool, true, false, ◌&&◌, List, [], ◌∷◌, raise, ok,
  out_of_range, ltb, arith,
}
use everett.FixedSearch.Order.{AreBytes}
use everett.FixedSearch.Partition.{Splits}
use everett.FixedSearch.Bounds.{
  Sorted, IsQuery, passes, key_number, lower_bound-Splits, upper_bound-Splits,
}
use everett.FixedSearch.Subviews.{key_at-subview}
use everett.FixedSearch.{
  FixedKeyView, size, byte_at, load_word, load_words, compare_words, precedes, complete_scan, scan,
  binary_bound, population, pivot_step, finish, small_bound, simd_bound, below_query, key_at,
  subview, lower_bound, upper_bound, lower_bound_simd, upper_bound_simd,
}
use everett.Width.{digits, bit_width, has_single_bit}

-- 3, 7, 7, 300, 65536
abbrev keys : FixedKeyView 1
keys = record {
  bytes = 3 ∷ 0 ∷ 0 ∷ 0 ∷ 7 ∷ 0 ∷ 0 ∷ 0 ∷ 7 ∷ 0 ∷ 0 ∷ 0 ∷ 44 ∷ 1 ∷ 0 ∷ 0 ∷ 0 ∷ 0 ∷ 1 ∷ 0 ∷ [];
}

bounds-keys :
    (lower_bound keys (7 ∷ []) ≡ 1)
    × (upper_bound keys (7 ∷ []) ≡ 3)
    × (lower_bound_simd keys (301 ∷ []) ≡ 4)
unfolding lower_bound upper_bound lower_bound_simd binary_bound simd_bound small_bound finish
    pivot_step population scan complete_scan has_single_bit bit_width digits below_query precedes
    compare_words load_word byte_at size
bounds-keys = (refl, refl, refl)

keys_rising : (i : ℕ) → suc i < size keys → key_number keys i ≤ key_number keys (suc i)
unfolding size load_words load_word byte_at
keys_rising zero h = omega arith
keys_rising (suc zero) h = omega arith
keys_rising (suc (suc zero)) h = omega arith
keys_rising (suc (suc (suc zero))) h = omega arith
keys_rising (suc (suc (suc (suc i)))) h = absurd (omega (arith, h))

abbrev all_bytes : List ℕ → Bool
all_bytes [] = true
all_bytes (b ∷ rest) = ltb b (2 ^ 8) && all_bytes rest

all_bytes_lem : (bytes : List ℕ) → all_bytes bytes ≡ true → AreBytes bytes
all_bytes_lem [] h = tt
all_bytes_lem (b ∷ rest) h = ground (arith, h, all_bytes_lem rest)

keys-Sorted : Sorted keys
keys-Sorted = record {
  bytes_small = all_bytes_lem keys.bytes refl;
  short = omega arith;
  rising = keys_rising;
}

seven-IsQuery : IsQuery 1 (7 ∷ [])
seven-IsQuery = record { words_small = (omega arith, tt); complete = refl }

lower_bound-Splits_example :
    Splits (passes false keys (7 ∷ [])) (size keys) (lower_bound keys (7 ∷ []))
    × (lower_bound_simd keys (7 ∷ []) ≡ lower_bound keys (7 ∷ []))
lower_bound-Splits_example = lower_bound-Splits keys (7 ∷ []) keys-Sorted seven-IsQuery

upper_bound-Splits_example :
    Splits (passes true keys (7 ∷ [])) (size keys) (upper_bound keys (7 ∷ []))
    × (upper_bound_simd keys (7 ∷ []) ≡ upper_bound keys (7 ∷ []))
upper_bound-Splits_example = upper_bound-Splits keys (7 ∷ []) keys-Sorted seven-IsQuery

key_at-subview_example :
    (1 + 3 ≤ size keys
      → (w : FixedKeyView 1) × ((subview keys 1 3 ≡ ok w)
          × (size w ≡ 3)
          × ((i : ℕ) → i < 3 → key_at w i ≡ key_at keys (1 + i))))
    × (size keys < 1 + 3 → subview keys 1 3 ≡ raise out_of_range)
key_at-subview_example = key_at-subview keys 1 3 (omega arith)
