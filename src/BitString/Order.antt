-- ===== src/BitString/Order.antt =====
-- profile.h: the order of bit strings, bit by bit.
use Prim.Native.Nat.{Ordering}
use everett.Base.{
  ℕ, suc, ◌+◌, ◌^◌, ◌≡◌, ◌≢◌, refl, sym, ◌∙◌, ap, true, false, [], ◌∷◌, ◌++◌, if◌then◌else◌, ltb,
  length, arith,
}
use everett.BitString.Fields.{bits_value_lt}
use everett.BitString.Compare.{different, BitComparison}
use everett.BitString.{Bits, bits_value, leading_zeros}

-- One more bit that agrees.
abbrev pub one_more : BitComparison → BitComparison
one_more c = record c { common_bits = suc c.common_bits }

-- The length of the common prefix, and which of two strings comes first: the shorter one, if it is a
-- prefix, or else the one with a zero at the first difference.
unfoldable pub lexical : Bits → Bits → BitComparison
lexical [] [] = record { common_bits = 0; order = Ordering.eq }
lexical [] (y ∷ ys) = record { common_bits = 0; order = Ordering.lt }
lexical (x ∷ xs) [] = record { common_bits = 0; order = Ordering.gt }
lexical (true ∷ xs) (true ∷ ys) = one_more (lexical xs ys)
lexical (false ∷ xs) (false ∷ ys) = one_more (lexical xs ys)
lexical (false ∷ xs) (true ∷ ys) = record { common_bits = 0; order = Ordering.lt }
lexical (true ∷ xs) (false ∷ ys) = record { common_bits = 0; order = Ordering.gt }

abbrev pub after : ℕ → BitComparison → BitComparison
after n c = record c { common_bits = n + c.common_bits }

after-suc : (n : ℕ) (c : BitComparison) → one_more (after n c) ≡ after (suc n) c
after-suc n c = ap (λ k. record c { common_bits = k }) (omega arith)

-- A common prefix is passed over.
pub lexical-append : (xs a b : Bits) → lexical (xs ++ a) (xs ++ b) ≡ after (length xs) (lexical a b)
unfolding lexical
lexical-append [] a b = ap (λ k. record (lexical a b) { common_bits = k }) (omega arith)
lexical-append (true ∷ xs) a b =
    ap one_more (lexical-append xs a b) ∙ after-suc (length xs) (lexical a b)
lexical-append (false ∷ xs) a b =
    ap one_more (lexical-append xs a b) ∙ after-suc (length xs) (lexical a b)

pow_same : (xs ys : Bits) → suc (length xs) ≡ suc (length ys) → 2 ^ length xs ≡ 2 ^ length ys
pow_same xs ys h = ap (λ n. 2 ^ n) (omega (arith, h))

-- Strings of one length that spell one number are one.
pub bits_value_inj :
    (xs ys : Bits) → length xs ≡ length ys → bits_value xs ≡ bits_value ys → xs ≡ ys
unfolding bits_value
bits_value_inj [] [] h e = refl
bits_value_inj [] (y ∷ ys) h e = absurd (omega (arith, h))
bits_value_inj (x ∷ xs) [] h e = absurd (omega (arith, h))
bits_value_inj (true ∷ xs) (true ∷ ys) h e =
    ap (λ t. true ∷ t)
      (bits_value_inj xs ys (omega (arith, h)) (omega (arith, e, pow_same xs ys h)))
bits_value_inj (false ∷ xs) (false ∷ ys) h e =
    ap (λ t. false ∷ t) (bits_value_inj xs ys (omega (arith, h)) (omega (arith, e)))
bits_value_inj (true ∷ xs) (false ∷ ys) h e =
    absurd (omega (arith, e, pow_same xs ys h, bits_value_lt ys))
bits_value_inj (false ∷ xs) (true ∷ ys) h e =
    absurd (omega (arith, e, pow_same xs ys h, bits_value_lt xs))

ltb-add : (p q a b : ℕ) → p ≡ q → ltb (p + a) (q + b) ≡ ltb a b
ltb-add p q a b h = ground (arith, h)

-- Of windows of one width that differ, the numbers tell the order, and the first bit of the
-- difference the length of the common prefix.
pub lexical-different :
    (xs ys a b : Bits)
    → length xs ≡ length ys
    → bits_value xs ≢ bits_value ys
    → lexical (xs ++ a) (ys ++ b) ≡ record {
      common_bits = leading_zeros (different xs ys);
      order = if ltb (bits_value xs) (bits_value ys) then Ordering.lt else Ordering.gt;
    }
unfolding lexical bits_value leading_zeros different
lexical-different [] [] a b h n = absurd (n refl)
lexical-different [] (y ∷ ys) a b h n = absurd (omega (arith, h))
lexical-different (x ∷ xs) [] a b h n = absurd (omega (arith, h))
lexical-different (true ∷ xs) (true ∷ ys) a b h n =
    ap one_more
      (lexical-different xs ys a b (omega (arith, h)) (λ e. n (omega (arith, e, pow_same xs ys h))))
    ∙ ap
        (λ o. record {
          common_bits = suc (leading_zeros (different xs ys));
          order = if o then Ordering.lt else Ordering.gt;
        })
        (sym (ltb-add _ _ _ _ (pow_same xs ys h)))
lexical-different (false ∷ xs) (false ∷ ys) a b h n =
    ap one_more (lexical-different xs ys a b (omega (arith, h)) (λ e. n (omega (arith, e))))
    ∙ ap
        (λ o. record {
          common_bits = suc (leading_zeros (different xs ys));
          order = if o then Ordering.lt else Ordering.gt;
        })
        (sym (ltb-add 0 0 _ _ refl))
lexical-different (false ∷ xs) (true ∷ ys) a b h n =
    ap (λ o. record { common_bits = 0; order = if o then Ordering.lt else Ordering.gt }) (sym less)
  where
    less : ltb (0 + bits_value xs) (2 ^ length ys + bits_value ys) ≡ true
    less = ground (arith, bits_value_lt xs, pow_same xs ys h)
lexical-different (true ∷ xs) (false ∷ ys) a b h n =
    ap (λ o. record { common_bits = 0; order = if o then Ordering.lt else Ordering.gt }) (sym more)
  where
    more : ltb (2 ^ length xs + bits_value xs) (0 + bits_value ys) ≡ false
    more = ground (arith, bits_value_lt ys, pow_same xs ys h)
