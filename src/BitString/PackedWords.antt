-- ===== src/BitString/PackedWords.antt =====
-- profile.h: words of packed bytes, and the bits that they have.
use native.Mathlib.Nat.{
  mod-eq_of_lt, add-mul, mul_assoc, mul_comm, mul-lt-mul_of_pos_right, mul-add-mod_self_right,
  mul-div-mul_right,
}
use everett.Base.{
  ℕ, zero, suc, ◌+◌, ◌-◌, ◌*◌, ◌/◌, ◌%◌, ◌^◌, ◌≤◌, ◌<◌, ◌≡◌, refl, sym, subst, ◌∙◌, ap, ap₂, List,
  [], ◌∷◌, ◌++◌, length, take, drop, length-take, length-drop, take-take, drop-take, drop-drop,
  take-add, take-all, drop-nil, take-nil, arith,
}
use everett.Width.{pow_add, pow_pos}
use everett.BitString.Fields.{bits_value-field, bits_value-append, bits_value_lt}
use everett.BitString.Prefixes.{bits_value-take}
use everett.BitString.{Bits, bits_value, field}
use everett.SortCodec.Codecs.{bytes_bits}
use everett.SortCodec.Values.{AreBytes, length-bytes_bits}
use everett.BitString.Packed.{big_endian}

shifted_sum :
    (value c p q rest sum : ℕ)
    → q ≡ p * 256
    → sum ≡ c * p + rest
    → (value * 256 + c) * p + rest ≡ value * q + sum
shifted_sum value c p q rest sum hq hs =
    ap (λ n. n + rest)
      (add-mul (value * 256) c p
        ∙ ap (λ n. n + c * p)
            (mul_assoc value 256 p ∙ ap (λ n. value * n) (mul_comm 256 p ∙ sym hq)))
    ∙ omega (arith, hs)

big_endian_lem :
    (value : ℕ) (bytes : List ℕ)
    → AreBytes bytes
    → big_endian value bytes ≡ value * 2 ^ (length bytes * 8) + bits_value (bytes_bits bytes)
unfolding big_endian bytes_bits bits_value
big_endian_lem value [] h = omega arith
big_endian_lem value (c ∷ bytes) (hc, h) =
    big_endian_lem (value * 256 + c) bytes h
    ∙ shifted_sum value c (2 ^ (length bytes * 8)) (2 ^ (suc (length bytes) * 8))
        (bits_value (bytes_bits bytes)) (bits_value (field 8 c ++ bytes_bits bytes)) power sum
  where
    power : 2 ^ (suc (length bytes) * 8) ≡ 2 ^ (length bytes * 8) * 256
    power =
        ap (λ n. 2 ^ n) {x = suc (length bytes) * 8} {y = length bytes * 8 + 8} (omega arith)
        ∙ pow_add (length bytes * 8) 8

    sum :
        bits_value (field 8 c ++ bytes_bits bytes)
        ≡ c * 2 ^ (length bytes * 8) + bits_value (bytes_bits bytes)
    sum =
        bits_value-append (field 8 c) (bytes_bits bytes)
        ∙ ap₂ (λ v n. v * 2 ^ n + bits_value (bytes_bits bytes))
            (bits_value-field 8 c ∙ mod-eq_of_lt hc) (length-bytes_bits bytes)

take_byte :
    (c n : ℕ) (bits : Bits) → take (suc n * 8) (field 8 c ++ bits) ≡ field 8 c ++ take (n * 8) bits
take_byte c n bits =
    ap (λ k. take k (field 8 c ++ bits)) {x = suc n * 8} {y = 8 + n * 8} (omega arith)
    ∙ (take-add 8 (n * 8) (field 8 c ++ bits) ∙ unfold field in refl)

drop_byte : (c n : ℕ) (bits : Bits) → drop (suc n * 8) (field 8 c ++ bits) ≡ drop (n * 8) bits
drop_byte c n bits =
    ap (λ k. drop k (field 8 c ++ bits)) {x = suc n * 8} {y = 8 + n * 8} (omega arith)
    ∙ (sym (drop-drop 8 (n * 8) (field 8 c ++ bits)) ∙ unfold field in refl)

take-bytes_bits :
    (n : ℕ) (bytes : List ℕ) → take (n * 8) (bytes_bits bytes) ≡ bytes_bits (take n bytes)
unfolding bytes_bits
take-bytes_bits zero bytes = refl
take-bytes_bits (suc n) [] = take-nil (suc n * 8)
take-bytes_bits (suc n) (c ∷ bytes) =
    take_byte c n (bytes_bits bytes) ∙ ap (λ b. field 8 c ++ b) (take-bytes_bits n bytes)

pub drop-bytes_bits :
    (n : ℕ) (bytes : List ℕ) → drop (n * 8) (bytes_bits bytes) ≡ bytes_bits (drop n bytes)
unfolding bytes_bits
drop-bytes_bits zero bytes = refl
drop-bytes_bits (suc n) [] = drop-nil (suc n * 8)
drop-bytes_bits (suc n) (c ∷ bytes) = drop_byte c n (bytes_bits bytes) ∙ drop-bytes_bits n bytes

take-AreBytes : (n : ℕ) (bytes : List ℕ) → AreBytes bytes → AreBytes (take n bytes)
take-AreBytes zero bytes h = tt
take-AreBytes (suc n) [] h = tt
take-AreBytes (suc n) (c ∷ bytes) (hc, h) = (hc, take-AreBytes n bytes h)

pub drop-AreBytes : (n : ℕ) (bytes : List ℕ) → AreBytes bytes → AreBytes (drop n bytes)
drop-AreBytes zero bytes h = h
drop-AreBytes (suc n) [] h = tt
drop-AreBytes (suc n) (c ∷ bytes) (hc, h) = drop-AreBytes n bytes h

-- A field in the middle.
bits_value-middle :
    (s w c : ℕ) (bits : Bits)
    → s + w + c ≡ length bits
    → bits_value bits / 2 ^ c % 2 ^ w ≡ bits_value (take w (drop s bits))
bits_value-middle s w c bits h =
    ap (λ v. v % 2 ^ w)
      (ap (λ b. bits_value b / 2 ^ c) (sym (take-all (s + w + c) bits (omega (arith, h))))
        ∙ (bits_value-take (s + w) c bits (omega (arith, h))
            ∙ (ap bits_value (take-add s w bits)
                ∙ (bits_value-append (take s bits) (take w (drop s bits))
                    ∙ ap (λ n. bits_value (take s bits) * 2 ^ n + bits_value (take w (drop s bits)))
                        size))))
    ∙ (mul-add-mod_self_right (bits_value (take s bits)) (2 ^ w) (bits_value (take w (drop s bits)))
        ∙ mod-eq_of_lt (
            subst (λ n. bits_value (take w (drop s bits)) < 2 ^ n) size
              (bits_value_lt (take w (drop s bits)))))
  where
    size : length (take w (drop s bits)) ≡ w
    size = length-take w (drop s bits) (omega (arith, h, length-drop s bits))

pub first_bytes :
    (n : ℕ) (source : List ℕ)
    → AreBytes source
    → big_endian 0 (take n source) ≡ bits_value (take (n * 8) (bytes_bits source))
first_bytes n source h =
    big_endian_lem 0 (take n source) (take-AreBytes n source h)
    ∙ (omega arith ∙ ap bits_value (sym (take-bytes_bits n source)))

-- Fewer than eight bytes.
pub narrow :
    (source : List ℕ) (shift count width : ℕ)
    → AreBytes source
    → shift + width ≤ count * 8
    → count * 8 ≤ length (bytes_bits source)
    → big_endian 0 (take count source) / 2 ^ (count * 8 - shift - width) % 2 ^ width
      ≡ bits_value (take width (drop shift (bytes_bits source)))
narrow source shift count width bytes fits long =
    ap (λ v. v / 2 ^ (count * 8 - shift - width) % 2 ^ width) (first_bytes count source bytes)
    ∙ (bits_value-middle shift width (count * 8 - shift - width)
          (take (count * 8) (bytes_bits source))
          (omega (arith, fits, length-take (count * 8) (bytes_bits source) long))
        ∙ ap bits_value (
            ap (take width) (drop-take shift (count * 8) (bytes_bits source))
            ∙ take-take width (count * 8 - shift) (drop shift (bytes_bits source))
                (omega (arith, fits))))

-- The first bits of a word whose first bits are wanted.
pub word_bits :
    (word : ℕ) (width : ℕ) (bits : Bits)
    → width ≤ 64
    → 64 ≤ length bits
    → word ≡ bits_value (take 64 bits)
    → word / 2 ^ (64 - width) ≡ bits_value (take width bits)
word_bits word width bits le long e =
    ap (λ v. v / 2 ^ (64 - width))
      (e
        ∙ ap (λ n. bits_value (take n bits)) {x = 64} {y = width + (64 - width)}
            (omega (arith, le)))
    ∙ bits_value-take width (64 - width) bits (omega (arith, le, long))

-- A word whose first bits are shifted out, modulo 2 ^ 64.
pub word_shifted :
    (shift : ℕ) (bits : Bits)
    → shift ≤ 64
    → 64 ≤ length bits
    → bits_value (take 64 bits) * 2 ^ shift % 2 ^ 64
      ≡ bits_value (take (64 - shift) (drop shift bits)) * 2 ^ shift
word_shifted shift bits le long =
    ap (λ v. v * 2 ^ shift % 2 ^ 64)
      (ap (λ n. bits_value (take n bits)) {x = 64} {y = shift + (64 - shift)} (omega (arith, le))
        ∙ (ap bits_value (take-add shift (64 - shift) bits)
            ∙ (bits_value-append (take shift bits) back ∙ ap (λ n. a * 2 ^ n + b) size)))
    ∙ (ap (λ v. v % 2 ^ 64)
          (add-mul (a * 2 ^ (64 - shift)) b (2 ^ shift)
            ∙ ap (λ n. n + b * 2 ^ shift)
                (mul_assoc a (2 ^ (64 - shift)) (2 ^ shift) ∙ ap (λ n. a * n) power))
        ∙ (mul-add-mod_self_right a (2 ^ 64) (b * 2 ^ shift) ∙ mod-eq_of_lt below))
  where
    back : Bits
    back = take (64 - shift) (drop shift bits)

    a : ℕ
    a = bits_value (take shift bits)

    b : ℕ
    b = bits_value back

    size : length back ≡ 64 - shift
    size =
        length-take (64 - shift) (drop shift bits) (omega (arith, le, long, length-drop shift bits))

    power : 2 ^ (64 - shift) * 2 ^ shift ≡ 2 ^ 64
    power =
        sym (pow_add (64 - shift) shift)
        ∙ ap (λ n. 2 ^ n) {x = 64 - shift + shift} {y = 64} (omega (arith, le))

    below : b * 2 ^ shift < 2 ^ 64
    below =
        subst (λ n. b * 2 ^ shift < n) power
          (mul-lt-mul_of_pos_right (subst (λ n. b < 2 ^ n) size (bits_value_lt back))
            (pow_pos shift))

-- The part of a ninth byte.
pub ninth :
    (source : List ℕ) (shift : ℕ)
    → AreBytes source
    → shift ≤ 8
    → 72 ≤ length (bytes_bits source)
    → big_endian 0 (take 1 (drop 8 source)) / 2 ^ (8 - shift)
      ≡ bits_value (take shift (drop 64 (bytes_bits source)))
ninth source shift bytes le long =
    ap (λ v. v / 2 ^ (8 - shift))
      (first_bytes 1 (drop 8 source) (drop-AreBytes 8 source bytes)
        ∙ (ap (λ b. bits_value (take 8 b)) (sym (drop-bytes_bits 8 source))
            ∙ ap (λ n. bits_value (take n (drop 64 (bytes_bits source)))) {x = 8}
                {y = shift + (8 - shift)} (omega (arith, le))))
    ∙ bits_value-take shift (8 - shift) (drop 64 (bytes_bits source))
        (omega (arith, le, long, length-drop 64 (bytes_bits source)))

-- The shifted word, and what follows it.
pub joined :
    (shift : ℕ) (bits : Bits)
    → shift ≤ 8
    → 72 ≤ length bits
    → bits_value (take (64 - shift) (drop shift bits)) * 2 ^ shift
        + bits_value (take shift (drop 64 bits))
      ≡ bits_value (take 64 (drop shift bits))
joined shift bits le long = sym (
    ap (λ n. bits_value (take n (drop shift bits))) {x = 64} {y = 64 - shift + shift}
      (omega (arith, le))
    ∙ (ap bits_value (
          take-add (64 - shift) shift (drop shift bits)
          ∙ ap (λ b. take (64 - shift) (drop shift bits) ++ take shift b) later)
        ∙ (bits_value-append (take (64 - shift) (drop shift bits)) (take shift (drop 64 bits))
            ∙ ap
                (λ n.
                  bits_value (take (64 - shift) (drop shift bits)) * 2 ^ n
                  + bits_value (take shift (drop 64 bits)))
                (length-take shift (drop 64 bits) (omega (arith, le, long, length-drop 64 bits))))))
  where
    later : drop (64 - shift) (drop shift bits) ≡ drop 64 bits
    later =
        drop-drop shift (64 - shift) bits
        ∙ ap (λ n. drop n bits) {x = shift + (64 - shift)} {y = 64} (omega (arith, le))

-- A word with zeros behind.
pub padded :
    (shift width : ℕ) (bits : Bits)
    → shift + width ≤ 64
    → 64 ≤ length bits
    → (bits_value (take (64 - shift) (drop shift bits)) * 2 ^ shift + 0) / 2 ^ (64 - width)
      ≡ bits_value (take width (drop shift bits))
padded shift width bits fits long =
    ap₂ (λ v n. v / n) zero_behind power
    ∙ (mul-div-mul_right (bits_value (take (64 - shift) (drop shift bits)))
          (2 ^ (64 - shift - width)) (pow_pos shift)
        ∙ (ap (λ n. bits_value (take n (drop shift bits)) / 2 ^ (64 - shift - width))
              {x = 64 - shift} {y = width + (64 - shift - width)} (omega (arith, fits))
            ∙ bits_value-take width (64 - shift - width) (drop shift bits)
                (omega (arith, fits, long, length-drop shift bits))))
  where
    zero_behind :
        bits_value (take (64 - shift) (drop shift bits)) * 2 ^ shift + 0
        ≡ bits_value (take (64 - shift) (drop shift bits)) * 2 ^ shift
    zero_behind = omega arith

    power : 2 ^ (64 - width) ≡ 2 ^ (64 - shift - width) * 2 ^ shift
    power =
        ap (λ n. 2 ^ n) {x = 64 - width} {y = 64 - shift - width + shift} (omega (arith, fits))
        ∙ pow_add (64 - shift - width) shift
