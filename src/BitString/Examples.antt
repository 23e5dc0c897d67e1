-- ===== src/BitString/Examples.antt =====
-- profile.h: counts in both codes, two keys that differ in their last bits, and the theorems at them.
use Prim.Native.Nat.{Ordering}
use everett.Base.{
  ◌+◌, ◌≡◌, refl, [], ◌∷◌, ◌++◌, true, false, length, ok, raise, invalid_argument, arith, List, ℕ,
}
use everett.Width.{digits, bit_width}
use everett.BitString.Fields.{Fits}
use everett.BitString.Codewords.{codeword, remainder_code}
use everett.BitString.RoundTrip.{read_backspace-write_backspace}
use everett.BitString.CommonBytes.{compare_common_bits-lexical}
use everett.BitString.Compare.{
  different, agreement, words_loop, bytes_loop, common_bytes, difference, compare_loop,
  compare_common_bits,
}
use everett.BitString.Order.{lexical}
use everett.BitString.Packed.{big_endian, shifted_word, load_packed}
use everett.BitString.PackedLoads.{load_packed-bytes_bits}
use everett.SortCodec.Codecs.{bytes_bits}
use everett.SortCodec.Values.{AreBytes}
use everett.BitString.{
  Bits, add, resize, pad, store, field, bits_value, load_bits, put_fixed, put_quotient,
  put_remainder, put_code, leading_zeros, backspace_bits, golomb_cutoff, write_backspace, zero_run,
  read_zero_run, read_count_slow, read_count, read_backspace, exponential_golomb, golomb,
}

-- 3, 1 of 5: the remainder is short; the other one is not, and the exponential code of 4 is 00101.
codewords :
    (write_backspace (golomb 5) (true ∷ []) 11
      ≡ ok (true ∷ false ∷ false ∷ true ∷ false ∷ true ∷ []))
    × (write_backspace (golomb 5) (true ∷ []) 4 ≡ ok (true ∷ true ∷ true ∷ true ∷ true ∷ []))
    × (write_backspace (exponential_golomb 0) [] 4 ≡ ok (false ∷ false ∷ true ∷ false ∷ true ∷ []))
unfolding write_backspace backspace_bits golomb_cutoff bit_width digits add resize pad put_code
    put_quotient put_remainder put_fixed store field
codewords = (refl, refl, refl)

-- A run without an end.
unended : read_backspace (exponential_golomb 0) (false ∷ false ∷ []) 0 ≡ raise invalid_argument
unfolding read_backspace read_count read_count_slow read_zero_run zero_run leading_zeros load_bits
    bits_value
unended = refl

eleven-Fits : Fits (1 + length (codeword (golomb 5) 11))
unfolding codeword remainder_code golomb_cutoff bit_width digits field
eleven-Fits = omega arith

read_backspace-write_backspace_example :
    (write_backspace (golomb 5) (true ∷ []) 11 ≡ ok (true ∷ codeword (golomb 5) 11))
    × (read_backspace (golomb 5) ((true ∷ codeword (golomb 5) 11) ++ (false ∷ [])) 1
        ≡ ok (11, length (true ∷ codeword (golomb 5) 11)))
read_backspace-write_backspace_example =
    read_backspace-write_backspace (golomb 5) (true ∷ []) (false ∷ []) 11 (omega arith, omega arith)
      (omega arith) eleven-Fits

-- 10000001 1, and 10000001 01
abbrev left_key : Bits
left_key = true ∷ false ∷ false ∷ false ∷ false ∷ false ∷ false ∷ true ∷ true ∷ []

abbrev right_key : Bits
right_key = true ∷ false ∷ false ∷ false ∷ false ∷ false ∷ false ∷ true ∷ false ∷ true ∷ []

compared :
    compare_common_bits true left_key right_key ≡ record { common_bits = 8; order = Ordering.gt }
unfolding compare_common_bits common_bytes words_loop bytes_loop compare_loop difference agreement
    different load_bits bits_value leading_zeros
compared = refl

compare_common_bits-lexical_example :
    compare_common_bits true left_key right_key ≡ lexical left_key right_key
compare_common_bits-lexical_example = compare_common_bits-lexical true left_key right_key

-- Ten bytes.
abbrev ten : List ℕ
ten = 171 ∷ 205 ∷ 18 ∷ 52 ∷ 86 ∷ 120 ∷ 154 ∷ 188 ∷ 222 ∷ 240 ∷ []

ten-AreBytes : AreBytes ten
ten-AreBytes = (
  omega arith,
  (
    omega arith,
    (
      omega arith,
      (
        omega arith,
        (
          omega arith,
          (omega arith, (omega arith, (omega arith, (omega arith, (omega arith, tt))))),
        ),
      ),
    ),
  ),
)

load_packed-ten : (load_packed ten 3 8 ≡ 94) × (load_packed ten 12 64 ≡ 15069965089105497583)
unfolding load_packed shifted_word big_endian
load_packed-ten = (refl, refl)

load_packed-bytes_bits_example : load_packed ten 12 64 ≡ load_bits (bytes_bits ten) 12 64
load_packed-bytes_bits_example =
    load_packed-bytes_bits ten 12 64 ten-AreBytes (omega arith) (omega arith)
