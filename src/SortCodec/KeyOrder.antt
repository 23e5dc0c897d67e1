-- ===== src/SortCodec/KeyOrder.antt =====
-- sort_codec.h: the codes of ordered keys are in the order of the keys.
use Prim.Native.Nat.{Ordering, compare}
use native.Mathlib.Nat.{mod-eq_of_lt}
use everett.Base.{
  ℕ, zero, suc, ◌^◌, ◌<◌, ◌≡◌, ◌≢◌, refl, sym, ◌∙◌, ap, ap₂, inl, inr, false, List, [], ◌∷◌, ◌++◌,
  append_assoc, if◌then◌else◌, Bool-cases, ltb, ◌==◌, ==_iff, arith,
}
use everett.BitString.Fields.{length-field, bits_value-field}
use everett.BitString.Order.{lexical, lexical-append, lexical-different}
use everett.BitString.{Bits, bits_value, field}
use everett.SortCodec.Codecs.{bytes_bits}
use everett.SortCodec.Values.{AreBytes}
use everett.SortCodec.Ordered.{escape_code, bytes_code, string_key_code}

-- Where the first parts differ, they tell the order.
abbrev pub chain : Ordering → Ordering → Ordering
chain Ordering.lt next = Ordering.lt
chain Ordering.eq next = next
chain Ordering.gt next = Ordering.gt

pub field-order :
    (w c d : ℕ) (a b : Bits)
    → c < 2 ^ w
    → d < 2 ^ w
    → (lexical (field w c ++ a) (field w d ++ b)).order ≡ chain (compare c d) (lexical a b).order
field-order w c d a b hc hd = elim (Bool-cases (c == d)) [
  | inl e ↦
      ap (λ n. (lexical (field w c ++ a) (field w n ++ b)).order) (sym ((==_iff c d).0 e))
      ∙ (ap (λ k. k.order) (lexical-append (field w c) a b)
          ∙ ap (λ o. chain o (lexical a b).order) (sym (equal ((==_iff c d).0 e))))
  | inr n ↦
      ap (λ k. k.order)
        (lexical-different (field w c) (field w d) a b (length-field w c ∙ sym (length-field w d))
          (λ e. other n (sym (value c hc) ∙ (e ∙ value d hd))))
      ∙ (ap₂ (λ x y. if ltb x y then Ordering.lt else Ordering.gt) (value c hc) (value d hd)
          ∙ tests n)
]
  where
    value : (v : ℕ) → v < 2 ^ w → bits_value (field w v) ≡ v
    value v h = bits_value-field w v ∙ mod-eq_of_lt h

    equal : c ≡ d → compare c d ≡ Ordering.eq
    equal e = ground (arith, e)

    other : (c == d) ≡ false → c ≢ d
    other n e = absurd (ground (arith, n, e))

    tests :
        (c == d) ≡ false
        → (if ltb c d then Ordering.lt else Ordering.gt) ≡ chain (compare c d) (lexical a b).order
    tests n = ground (arith, n)

-- Strings in the order of their bytes, the shorter one first if it is a prefix.
unfoldable pub bytes_order : List ℕ → List ℕ → Ordering
bytes_order [] [] = Ordering.eq
bytes_order [] (d ∷ b) = Ordering.lt
bytes_order (c ∷ a) [] = Ordering.gt
bytes_order (c ∷ a) (d ∷ b) = chain (compare c d) (bytes_order a b)

pub bytes_bits-order :
    (a b : List ℕ)
    → AreBytes a
    → AreBytes b
    → (lexical (bytes_bits a) (bytes_bits b)).order ≡ bytes_order a b
unfolding bytes_bits bytes_order
bytes_bits-order [] [] h k = unfold lexical in refl
bytes_bits-order [] (d ∷ b) h k = unfold lexical field in refl
bytes_bits-order (c ∷ a) [] h k = unfold lexical field in refl
bytes_bits-order (c ∷ a) (d ∷ b) (hc, h) (kd, k) =
    field-order 8 c d (bytes_bits a) (bytes_bits b) (omega (arith, hc)) (omega (arith, kd))
    ∙ ap (chain (compare c d)) (bytes_bits-order a b h k)

-- The code of a string, by its first byte.
key_code-cons :
    (c : ℕ) (a : List ℕ)
    → string_key_code (c ∷ a) ≡ field 8 c ++ (escape_code c ++ string_key_code a)
unfolding string_key_code bytes_code
key_code-cons c a =
    append_assoc (field 8 c ++ escape_code c) (bytes_code a) (field 16 0)
    ∙ append_assoc (field 8 c) (escape_code c) (bytes_code a ++ field 16 0)

key_code_end : string_key_code [] ≡ field 8 0 ++ field 8 0
unfolding string_key_code bytes_code field
key_code_end = refl

-- The end of a string comes before any byte.
end_before :
    (d : ℕ) (x : Bits)
    → d < 256
    → (lexical (field 8 0 ++ field 8 0) (field 8 d ++ (escape_code d ++ x))).order ≡ Ordering.lt
end_before zero x h = unfold escape_code field lexical in refl
end_before (suc d) x h =
    field-order 8 0 (suc d) (field 8 0) (escape_code (suc d) ++ x) (omega arith) (omega (arith, h))
    ∙ ap (λ o. chain o (lexical (field 8 0) (escape_code (suc d) ++ x)).order) less
  where
    less : compare 0 (suc d) ≡ Ordering.lt
    less = ground arith

end_behind :
    (c : ℕ) (x : Bits)
    → c < 256
    → (lexical (field 8 c ++ (escape_code c ++ x)) (field 8 0 ++ field 8 0)).order ≡ Ordering.gt
end_behind zero x h = unfold escape_code field lexical in refl
end_behind (suc c) x h =
    field-order 8 (suc c) 0 (escape_code (suc c) ++ x) (field 8 0) (omega (arith, h)) (omega arith)
    ∙ ap (λ o. chain o (lexical (escape_code (suc c) ++ x) (field 8 0)).order) more
  where
    more : compare (suc c) 0 ≡ Ordering.gt
    more = ground arith

-- Behind bytes that are the same, so are their escapes.
chain-escape :
    (c d : ℕ) (a b : Bits)
    → chain (compare c d) (lexical (escape_code c ++ a) (escape_code d ++ b)).order
      ≡ chain (compare c d) (lexical a b).order
chain-escape c d a b = elim (Bool-cases (c == d)) [
  | inl e ↦ ap (chain (compare c d)) (
      ap (λ n. (lexical (escape_code c ++ a) (escape_code n ++ b)).order) (sym ((==_iff c d).0 e))
      ∙ ap (λ k. k.order) (lexical-append (escape_code c) a b))
  | inr n ↦ apart _ _ n
]
  where
    apart : (x y : Ordering) → (c == d) ≡ false → chain (compare c d) x ≡ chain (compare c d) y
    apart x y n = ground (arith, n)

pub string_key_code-order :
    (a b : List ℕ)
    → AreBytes a
    → AreBytes b
    → (lexical (string_key_code a) (string_key_code b)).order ≡ bytes_order a b
unfolding bytes_order
string_key_code-order [] [] h k = unfold string_key_code bytes_code field lexical in refl
string_key_code-order [] (d ∷ b) h (kd, k) =
    ap₂ (λ x y. (lexical x y).order) key_code_end (key_code-cons d b)
    ∙ end_before d (string_key_code b) kd
string_key_code-order (c ∷ a) [] (hc, h) k =
    ap₂ (λ x y. (lexical x y).order) (key_code-cons c a) key_code_end
    ∙ end_behind c (string_key_code a) hc
string_key_code-order (c ∷ a) (d ∷ b) (hc, h) (kd, k) =
    ap₂ (λ x y. (lexical x y).order) (key_code-cons c a) (key_code-cons d b)
    ∙ (field-order 8 c d (escape_code c ++ string_key_code a) (escape_code d ++ string_key_code b)
          (omega (arith, hc)) (omega (arith, kd))
        ∙ (chain-escape c d (string_key_code a) (string_key_code b)
            ∙ ap (chain (compare c d)) (string_key_code-order a b h k)))
