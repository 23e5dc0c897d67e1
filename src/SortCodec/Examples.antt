-- ===== src/SortCodec/Examples.antt =====
-- sort_codec.h: strings of two bytes as keys and values, a bit key, an optional number, and the
-- theorems at them.
use everett.Base.{
  ℕ, ◌+◌, ◌^◌, ◌<◌, ◌≡◌, refl, List, [], ◌∷◌, ◌++◌, true, false, some, ◌==◌, ==_iff, length, raise,
  ok, invalid_argument, arith,
}
use everett.Width.{digits, bit_width}
use everett.BitString.Fields.{Fits, zeros}
use everett.BitString.Codewords.{codeword, quotient_code}
use everett.BitString.Plain.{take_count}
use everett.BitString.Order.{lexical}
use everett.BitString.Agreement.{Agrees}
use everett.BitString.Compare.{
  different, agreement, words_loop, bytes_loop, common_bytes, difference, compare_loop,
  compare_common_bits,
}
use everett.BitString.{
  Bits, add, multiply, resize, pad, store, field, put_fixed, exponential_golomb, write_backspace,
  backspace_bits, put_code, put_quotient, append, copy_into, subview, load_bits, bits_value,
  leading_zeros,
}
use everett.SortCodec.Reservoir.{Left, reader-Left}
use everett.SortCodec.Counts.{read_count-take}
use everett.SortCodec.Codecs.{
  string_bits, bytes_bits, unsigned_value, write_niche, read_niche, skip_unsigned,
  write_ordered_bytes, write_ordered_string, read_ordered_string, write_ordered_pairs,
  write_ordered_bits, read_ordered_bits,
}
use everett.SortCodec.FrontCoding.{
  FcKeyFrame, compare, write_front, previous_string, write_fc_string, read_fc_string,
}
use everett.SortCodec.Values.{IsString, unsigned_value-RoundTrips}
use everett.SortCodec.Optional.{read_niche-write_niche}
use everett.SortCodec.Front.{front_code}
use everett.SortCodec.Keys.{previous_key, read_fc_string-write_fc_string, compare-lexical}
use everett.SortCodec.Ordered.{string_key_code, bytes_code, escape_code}
use everett.SortCodec.OrderedBits.{bit_key_code, pairs_code}
use everett.SortCodec.KeyCodecs.{is_less, less_bits, less_string}
use everett.SortCodec.KeyLaws.{less_string-write_ordered_string, less_bits-write_ordered_bits}
use everett.SortCodec.{SortBitReader, reader, read_count, write_count, write_bits}

-- "ab", "ac"
abbrev ab : List ℕ
ab = 97 ∷ 98 ∷ []

abbrev ac : List ℕ
ac = 97 ∷ 99 ∷ []

ab-IsString : IsString ab
ab-IsString = ((omega arith, (omega arith, tt)), omega arith)

ac-IsString : IsString ac
ac-IsString = ((omega arith, (omega arith, tt)), omega arith)

-- A zero is escaped, and a zero byte comes before any other and behind the end of a string.
escaped : write_ordered_string [] (0 ∷ []) ≡ ok (zeros 8 ++ (field 8 255 ++ zeros 16))
unfolding write_ordered_string write_ordered_bytes write_bits add resize pad put_fixed store field
escaped = refl

-- Each bit behind a one, and a zero.
paired : write_ordered_bits [] (true ∷ false ∷ []) ≡ ok (true ∷ true ∷ true ∷ false ∷ false ∷ [])
unfolding write_ordered_bits write_ordered_pairs write_bits add resize pad put_fixed store field
paired = refl

abbrev five : Bits
five = false ∷ false ∷ true ∷ true ∷ false ∷ true ∷ []

read_count-take_example :
    Agrees Left
      (read_count (exponential_golomb 0) (reader five 3))
      (take_count (exponential_golomb 0) five)
read_count-take_example =
    read_count-take (exponential_golomb 0) (reader five 3) five (reader-Left five 3)

-- "ac" after "ab": a bit is taken back and a bit follows.
abbrev ac_key : Bits
ac_key = front_code (exponential_golomb 0) (bytes_bits ac) (previous_key (some ab))

front_coded :
    write_fc_string (exponential_golomb 0) [] ac (some ab)
    ≡ ok (false ∷ true ∷ false ∷ false ∷ true ∷ false ∷ true ∷ [])
unfolding write_fc_string write_front previous_string string_bits multiply bytes_bits write_count
    write_backspace backspace_bits put_code put_quotient append copy_into subview
    compare_common_bits common_bytes words_loop bytes_loop compare_loop difference agreement
    different load_bits bits_value leading_zeros add resize pad put_fixed store field bit_width
    digits
front_coded = refl

ac_key-Fits : Fits (0 + length ac_key)
unfolding codeword quotient_code bit_width digits field bytes_bits lexical
ac_key-Fits = omega arith

read_fc_string-write_fc_string_example :
    (write_fc_string (exponential_golomb 0) [] ac (some ab) ≡ ok ac_key)
    × ((s : SortBitReader) × (read_fc_string
            (exponential_golomb 0)
            (reader (ac_key ++ true ∷ []) 0)
            (some ab)
          ≡ ok (ac, s))
        × Left s (true ∷ []))
read_fc_string-write_fc_string_example =
    read_fc_string-write_fc_string (exponential_golomb 0) ac (some ab) [] (true ∷ [])
      (reader (ac_key ++ true ∷ []) 0) (omega arith) ac-IsString ab-IsString ac_key-Fits
      (reader-Left (ac_key ++ true ∷ []) 0)

-- 110 keeps a bit of 101, and is compared with 111.
abbrev frame : FcKeyFrame
frame = record { retained_bits = 1; literal = true ∷ false ∷ [] }

compare-lexical_example :
    compare frame true
      (true ∷ true ∷ true ∷ [])
      (lexical (true ∷ false ∷ true ∷ []) (true ∷ true ∷ true ∷ []))
    ≡ ok (lexical (true ∷ true ∷ false ∷ []) (true ∷ true ∷ true ∷ []))
compare-lexical_example =
    compare-lexical frame true (true ∷ false ∷ true ∷ []) (true ∷ true ∷ true ∷ []) (omega arith)

ab_code-Fits : Fits (0 + length (string_key_code ab))
unfolding string_key_code bytes_code escape_code field
ab_code-Fits = omega arith

less_string-write_ordered_string_example :
    (write_ordered_string [] ab ≡ ok (string_key_code ab))
    × ((s : SortBitReader) × (read_ordered_string (reader (string_key_code ab ++ true ∷ []) 0)
          ≡ ok (ab, s))
        × Left s (true ∷ []))
    × (less_string ab ac ≡ ok (is_less (lexical (string_key_code ab) (string_key_code ac)).order))
less_string-write_ordered_string_example =
    less_string-write_ordered_string ab ac [] (true ∷ [])
      (reader (string_key_code ab ++ true ∷ []) 0) ab-IsString ac-IsString ab_code-Fits
      (reader-Left (string_key_code ab ++ true ∷ []) 0)

one_code-Fits : Fits (0 + length (bit_key_code (true ∷ [])))
unfolding bit_key_code pairs_code field
one_code-Fits = omega arith

less_bits-write_ordered_bits_example :
    (write_ordered_bits [] (true ∷ []) ≡ ok (bit_key_code (true ∷ [])))
    × ((s : SortBitReader) × (read_ordered_bits (reader (bit_key_code (true ∷ []) ++ true ∷ []) 0)
          ≡ ok (true ∷ [], s))
        × Left s (true ∷ []))
    × (ok (less_bits (true ∷ []) five)
        ≡ ok (is_less (lexical (bit_key_code (true ∷ [])) (bit_key_code five)).order))
less_bits-write_ordered_bits_example =
    less_bits-write_ordered_bits (true ∷ []) five [] (true ∷ [])
      (reader (bit_key_code (true ∷ []) ++ true ∷ []) 0) (omega arith) (omega arith) one_code-Fits
      (reader-Left (bit_key_code (true ∷ []) ++ true ∷ []) 0)

-- Numbers of four bits, of which 15 stands for none.
abbrev nibble : Bits
nibble = field 4 9

nibble-Fits : Fits (0 + length nibble)
unfolding field
nibble-Fits = omega arith

read_niche-write_niche_example :
    (write_niche (unsigned_value 4) ◌==◌ 15 [] (some 9) ≡ ok nibble)
    × ((s : SortBitReader) × (read_niche (unsigned_value 4) ◌==◌ 15 (reader (nibble ++ true ∷ []) 0)
          ≡ ok (some 9, s))
        × Left s (true ∷ []))
    × ((s : SortBitReader) × (skip_unsigned 4 (reader (nibble ++ true ∷ []) 0) ≡ ok (tt, s))
        × Left s (true ∷ []))
    × (write_niche (unsigned_value 4) ◌==◌ 15 [] (some 15) ≡ raise invalid_argument)
read_niche-write_niche_example =
    read_niche-write_niche (unsigned_value 4) (λ v. v < 2 ^ 4) (field 4)
      (unsigned_value-RoundTrips 4 (omega arith)) ◌==◌ ==_iff 15 (some 9) [] (true ∷ [])
      (reader (nibble ++ true ∷ []) 0) (omega arith, refl) nibble-Fits
      (reader-Left (nibble ++ true ∷ []) 0)
