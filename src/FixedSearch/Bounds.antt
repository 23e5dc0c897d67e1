-- ===== src/FixedSearch/Bounds.antt =====
-- fixed_search.h: the bounds of a sorted view, by binary search and by pivots.
use native.Mathlib.Nat.{div-le_self}
use everett.Base.{
  ℕ, suc, ◌+◌, ◌*◌, ◌^◌, ◌≤◌, ◌<◌, ◌≡◌, sym, subst, ◌∙◌, ap, Bool, true, false, if◌then◌else◌, List,
  length, ltb, leb, IsU64, arith,
}
use everett.FixedSearch.Order.{AreBytes, AreWords, number, precedes-number}
use everett.FixedSearch.Partition.{Splits, Falls, Splits-population}
use everett.FixedSearch.Binary.{binary_bound_lem}
use everett.FixedSearch.Pivots.{simd_bound_lem}
use everett.FixedSearch.{
  FixedKeyView, size, load_words, population, below_query, lower_bound, upper_bound,
  lower_bound_simd, upper_bound_simd,
}

pub record IsQuery (words : ℕ) (query : List ℕ) : Type 0 where
  pub words_small : AreWords query
  pub complete : length query ≡ words

abbrev pub compared : (upper : Bool) → ℕ → ℕ → Bool
compared upper key query = if upper then leb key query else ltb key query

same_test :
    (f g : ℕ → Bool) (count n : ℕ) → ((i : ℕ) → f i ≡ g i) → Splits f count n → Splits g count n
same_test f g count n e s = record {
  bound = s.bound;
  passes = λ i h. sym (e i) ∙ s.passes i h;
  fails = λ i h k. sym (e i) ∙ s.fails i h k;
}

module _ {words : ℕ} where
  -- The key at an ordinal, as a number.
  abbrev pub key_number : FixedKeyView words → ℕ → ℕ
  key_number v i = number 0 (load_words v.bytes (i * (words * 4)) words)

  -- A view of bytes whose keys do not fall. A span has less than 2 ^ 63 bytes.
  pub record Sorted (v : FixedKeyView words) : Type 0 where
    pub bytes_small : AreBytes v.bytes
    pub short : length v.bytes < 2 ^ 63
    pub rising : (i : ℕ) → suc i < size v → key_number v i ≤ key_number v (suc i)

  -- Whether the key at an ordinal is below the query, or for the upper bound not above it.
  abbrev pub passes : (upper : Bool) → FixedKeyView words → List ℕ → ℕ → Bool
  passes upper v query i = compared upper (key_number v i) (number 0 query)

  below_query-passes :
      (upper : Bool) (v : FixedKeyView words) (query : List ℕ) (i : ℕ)
      → Sorted v
      → IsQuery words query
      → below_query upper v query i ≡ passes upper v query i
  unfolding below_query
  below_query-passes upper v query i s q =
      precedes-number upper v.bytes (i * (words * 4)) query s.bytes_small q.words_small
      ∙ ap
          (λ n. compared upper (number 0 (load_words v.bytes (i * (words * 4)) n)) (number 0 query))
          q.complete

  passes-Falls :
      (upper : Bool) (v : FixedKeyView words) (query : List ℕ)
      → Sorted v
      → Falls (passes upper v query) (size v)
  passes-Falls true v query s i h e = ground (arith, s.rising i h, e)
  passes-Falls false v query s i h e = ground (arith, s.rising i h, e)

  size_small : (v : FixedKeyView words) → Sorted v → IsU64 (size v + 1)
  unfolding size
  size_small v s = omega (arith, div-le_self (length v.bytes) (words * 4), s.short)

  module _ (v : FixedKeyView words) (query : List ℕ) (s : Sorted v) (q : IsQuery words query) where
    falls_at :
        (upper : Bool)
        → Splits (passes upper v query) (size v) (population (passes upper v query) 0 (size v))
    falls_at upper =
        Splits-population (passes upper v query) (size v) (passes-Falls upper v query s)

    tested :
        (upper : Bool)
        → Splits (below_query upper v query) (size v) (population (passes upper v query) 0 (size v))
    tested upper =
        same_test (passes upper v query) (below_query upper v query) (size v) _
          (λ i. sym (below_query-passes upper v query i s q)) (falls_at upper)

    -- In a view of fewer than 2 ^ 63 bytes whose keys do not fall as numbers to the base 2 ^ 32, for a
    -- query of as many words: the keys below the query are exactly those before the lower bound, and
    -- the search by pivots finds the same bound as the binary search.
    pub lower_bound-Splits :
        Splits (passes false v query) (size v) (lower_bound v query)
        × (lower_bound_simd v query ≡ lower_bound v query)
    unfolding lower_bound lower_bound_simd
    lower_bound-Splits =
        let b = binary_bound_lem _ (size v) _ (size_small v s) (tested false) in
        (
          subst (Splits (passes false v query) (size v)) (sym b) (falls_at false),
          simd_bound_lem _ (size v) _ (size_small v s) (tested false) ∙ sym b,
        )

    -- In a view of fewer than 2 ^ 63 bytes whose keys do not fall as numbers to the base 2 ^ 32, for a
    -- query of as many words: the keys not above the query are exactly those before the upper bound,
    -- and the search by pivots finds the same bound as the binary search.
    pub upper_bound-Splits :
        Splits (passes true v query) (size v) (upper_bound v query)
        × (upper_bound_simd v query ≡ upper_bound v query)
    unfolding upper_bound upper_bound_simd
    upper_bound-Splits =
        let b = binary_bound_lem _ (size v) _ (size_small v s) (tested true) in
        (
          subst (Splits (passes true v query) (size v)) (sym b) (falls_at true),
          simd_bound_lem _ (size v) _ (size_small v s) (tested true) ∙ sym b,
        )
