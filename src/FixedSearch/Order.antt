-- ===== src/FixedSearch/Order.antt =====
-- fixed_search.h: `precedes` compares keys as numbers to the base 2 ^ 32, word zero the highest.
use everett.Base.{
  ℕ, ◌+◌, ◌*◌, ◌^◌, ◌<◌, ◌≡◌, refl, Bool, true, false, ◌&&◌, ◌||◌, List, [], ◌∷◌, Option-cases, inl,
  inr, if◌then◌else◌, ltb, leb, ◌==◌, length, get_elem?, All, All-get, arith,
}
use everett.FixedSearch.{byte_at, load_word, load_words, compare_words, precedes}

abbrev pub AreBytes : List ℕ → Type 0
AreBytes bytes = All (λ b. b < 2 ^ 8) bytes

abbrev pub AreWords : List ℕ → Type 0
AreWords query = All (λ w. w < 2 ^ 32) query

-- The number that the words make, behind the number before them.
abbrev pub number : ℕ → List ℕ → ℕ
number before [] = before
number before (w ∷ rest) = number (before * 2 ^ 32 + w) rest

byte_at_small : (bytes : List ℕ) (i : ℕ) → AreBytes bytes → byte_at bytes i < 2 ^ 8
unfolding byte_at
byte_at_small bytes i h = elim (Option-cases (get_elem? bytes i)) [
  | inl e ↦ rw (e, byte_at) (omega arith)
  | inr (b, e) ↦ rw (e, byte_at) (All-get _ bytes i b h e)
]

load_word_small : (bytes : List ℕ) (at : ℕ) → AreBytes bytes → load_word bytes at < 2 ^ 32
unfolding load_word
load_word_small bytes at h = omega (
  arith,
  byte_at_small bytes at h,
  byte_at_small bytes (at + 1) h,
  byte_at_small bytes (at + 2) h,
  byte_at_small bytes (at + 3) h,
)

digit_less :
    (k q a b : ℕ)
    → a < 2 ^ 32
    → b < 2 ^ 32
    → (ltb k q || (k == q && ltb a b)) ≡ ltb (k * 2 ^ 32 + a) (q * 2 ^ 32 + b)
digit_less k q a b ha hb = ground arith

digit_equal :
    (k q a b : ℕ)
    → a < 2 ^ 32
    → b < 2 ^ 32
    → (k == q && a == b) ≡ (k * 2 ^ 32 + a) == (q * 2 ^ 32 + b)
digit_equal k q a b ha hb = ground arith

or_equal : (a b : ℕ) → (ltb a b || a == b) ≡ leb a b
or_equal a b = ground arith

compare_words-number :
    (bytes : List ℕ) (at : ℕ) (query : List ℕ) (k q : ℕ)
    → AreBytes bytes
    → AreWords query
    → compare_words bytes at query (ltb k q) (k == q) ≡ (
      ltb (number k (load_words bytes at (length query))) (number q query),
      number k (load_words bytes at (length query)) == number q query,
    )
unfolding compare_words load_words
compare_words-number bytes at [] k q h w = refl
compare_words-number bytes at (b ∷ query) k q h w =
    rw
      (
        digit_less k q (load_word bytes at) b (load_word_small bytes at h) w.0,
        digit_equal k q (load_word bytes at) b (load_word_small bytes at h) w.0,
      )
      (compare_words-number bytes (at + 4) query _ _ h w.1)

pub precedes-number :
    (upper : Bool) (bytes : List ℕ) (at : ℕ) (query : List ℕ)
    → AreBytes bytes
    → AreWords query
    → let key = number 0 (load_words bytes at (length query)) in
      precedes upper bytes at query
      ≡ (if upper then leb key (number 0 query) else ltb key (number 0 query))
unfolding precedes
precedes-number true bytes at query h w =
    rw (compare_words-number bytes at query 0 0 h w, precedes) (or_equal _ _)
precedes-number false bytes at query h w =
    rw (compare_words-number bytes at query 0 0 h w, precedes) refl
