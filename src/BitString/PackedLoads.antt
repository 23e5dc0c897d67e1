-- ===== src/BitString/PackedLoads.antt =====
-- profile.h: the fields of packed bytes are those of the list of their bits.
use native.Mathlib.Nat.{div-add-mod'}
use everett.Base.{
  ℕ, ◌+◌, ◌-◌, ◌*◌, ◌/◌, ◌%◌, ◌^◌, ◌≤◌, ◌<◌, ◌≡◌, refl, sym, ◌∙◌, ap, ap₂, inl, inr, true, false,
  List, if◌then◌else◌, Bool-cases, leb, leb→le, ◌==◌, ==_iff, length, take, drop, length-drop,
  drop-drop, arith,
}
use everett.BitString.{Bits, bits_value, load_bits}
use everett.SortCodec.Codecs.{bytes_bits}
use everett.SortCodec.Values.{AreBytes, length-bytes_bits}
use everett.BitString.Packed.{big_endian, shifted_word, load_packed}
use everett.BitString.PackedWords.{
  drop-bytes_bits, drop-AreBytes, first_bytes, narrow, word_bits, word_shifted, ninth, joined,
  padded,
}

wide :
    (source : List ℕ) (shift count width : ℕ)
    → AreBytes source
    → shift < 8
    → width ≤ 64
    → shift + width ≤ count * 8
    → count * 8 < shift + width + 8
    → 8 ≤ count
    → count * 8 ≤ length (bytes_bits source)
    → shifted_word source shift count / 2 ^ (64 - width)
      ≡ bits_value (take width (drop shift (bytes_bits source)))
unfolding shifted_word
wide source shift count width bytes small le fits tight eight long =
    elim (Bool-cases (shift == 0)) [
      | inl e ↦ rw (e) (
          word_bits (big_endian 0 (take 8 source)) width bits le (omega (arith, eight, long))
            (first_bytes 8 source bytes)
          ∙ ap (λ n. bits_value (take width (drop n bits))) (sym ((==_iff shift 0).0 e)))
      | inr n ↦ elim (Bool-cases (count == 9)) [
        | inl e ↦
            rw (n, e)
              (word_bits _ width (drop shift bits) le
                (omega (arith, small, nine e, long, length-drop shift bits))
                (ap₂ (λ v k. v + k)
                    (ap (λ v. v * 2 ^ shift % 2 ^ 64) (first_bytes 8 source bytes)
                      ∙ word_shifted shift bits (omega (arith, small))
                          (omega (arith, nine e, long)))
                    (ninth source shift bytes (omega (arith, small)) (omega (arith, nine e, long)))
                  ∙ joined shift bits (omega (arith, small)) (omega (arith, nine e, long))))
        | inr m ↦
            rw (n, m)
              (ap (λ v. (v + 0) / 2 ^ (64 - width))
                  (ap (λ v. v * 2 ^ shift % 2 ^ 64) (first_bytes 8 source bytes)
                    ∙ word_shifted shift bits (omega (arith, small)) (omega (arith, eight, long)))
                ∙ padded shift width bits (eight_only m) (omega (arith, eight, long)))
      ]
    ]
  where
    bits : Bits
    bits = bytes_bits source

    nine : (count == 9) ≡ true → count ≡ 9
    nine e = (==_iff count 9).0 e

    eight_only : (count == 9) ≡ false → shift + width ≤ 64
    eight_only m = ground (arith, m, small, le, fits, tight, eight)

-- Of bytes that hold the field, whatever the offset and the width, of 64 bits at most: the field that is
-- loaded from the packed bytes, by a word, a word and a byte, or byte after byte, is the number that
-- the bits behind the offset spell.
pub load_packed-bytes_bits :
    (bytes : List ℕ) (offset width : ℕ)
    → AreBytes bytes
    → width ≤ 64
    → offset + width ≤ length bytes * 8
    → load_packed bytes offset width ≡ load_bits (bytes_bits bytes) offset width
unfolding load_packed load_bits
load_packed-bytes_bits bytes offset width h le within = elim (Bool-cases (width == 0)) [
  | inl e ↦ rw (e) (
      unfold bits_value in
      ap (λ n. bits_value (take n (drop offset (bytes_bits bytes)))) (sym ((==_iff width 0).0 e)))
  | inr n ↦ elim (Bool-cases (leb 8 count)) [
    | inl e ↦
        rw (n, e)
          (full
            ∙ (wide source shift count width source_bytes shift_small le count_fits count_tight
                  (leb→le 8 count e) (enough n)
                ∙ placed))
    | inr m ↦
        rw (n, m) (narrow source shift count width source_bytes count_fits (enough n) ∙ placed)
  ]
]
  where
    source : List ℕ
    source = drop (offset / 8) bytes

    shift : ℕ
    shift = offset % 8

    count : ℕ
    count = (shift + width + 7) / 8

    source_bytes : AreBytes source
    source_bytes = drop-AreBytes (offset / 8) bytes h

    shift_small : shift < 8
    shift_small = omega arith

    count_fits : shift + width ≤ count * 8
    count_fits = omega arith

    count_tight : count * 8 < shift + width + 8
    count_tight = omega arith

    enough : (width == 0) ≡ false → count * 8 ≤ length (bytes_bits source)
    enough n = omega (arith, within, length-bytes_bits source, length-drop (offset / 8) bytes)

    full :
        (if width == 64
          then shifted_word source shift count
          else shifted_word source shift count / 2 ^ (64 - width))
        ≡ shifted_word source shift count / 2 ^ (64 - width)
    full = elim (Bool-cases (width == 64)) [
      | inl e ↦ rw (e) (
          sym (
            ap (λ n. shifted_word source shift count / 2 ^ (64 - n)) ((==_iff width 64).0 e)
            ∙ omega arith))
      | inr m ↦ rw (m) refl
    ]

    placed :
        bits_value (take width (drop shift (bytes_bits source)))
        ≡ bits_value (take width (drop offset (bytes_bits bytes)))
    placed =
        ap (λ b. bits_value (take width b))
          (ap (drop shift) (sym (drop-bytes_bits (offset / 8) bytes))
            ∙ (drop-drop (offset / 8 * 8) shift (bytes_bits bytes)
                ∙ ap (λ n. drop n (bytes_bits bytes)) (div-add-mod' offset 8)))
