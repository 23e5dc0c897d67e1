-- ===== src/SortCodec/RecordExamples.antt =====
-- sort_codec.h: a stream of records of two sorts, numbers of four bits and strings, and the theorem at
-- it.
use everett.Base.{
  ℕ, zero, suc, ◌^◌, ◌<◌, ◌≡◌, refl, List, [], ◌∷◌, true, false, Option, none, some, length, ◌==◌,
  ok, arith,
}
use everett.Width.{digits, bit_width}
use everett.BitString.Fields.{Fits}
use everett.BitString.Codewords.{codeword, quotient_code}
use everett.BitString.Compare.{
  different, agreement, words_loop, bytes_loop, common_bytes, difference, compare_loop,
  compare_common_bits,
}
use everett.BitString.Order.{lexical}
use everett.BitString.{
  Bits, multiply, field, load_bits, bits_value, leading_zeros, exponential_golomb,
}
use everett.Registry.Paths.{path_code}
use everett.Registry.{Registry, tip, bin, same, contains_sort}
use everett.SortCodec.Codecs.{bytes_bits, string_bits, ValueCodec, unsigned_value, no_value}
use everett.SortCodec.Front.{front_code}
use everett.SortCodec.KeyCodecs.{
  KeyCodec, is_less, less_bits, less_string, fc_string_key, unsigned_key,
}
use everett.SortCodec.KeyLaws.{
  KeyRoundTrips, fc_string_key-KeyRoundTrips, unsigned_key-KeyRoundTrips,
}
use everett.SortCodec.Keys.{previous_key}
use everett.SortCodec.Values.{IsString, RoundTrips, unsigned_value-RoundTrips, no_value-RoundTrips}
use everett.SortCodec.Records.{is_greater, SortRecordWriter, get_if, rises}
use everett.SortCodec.RecordSteps.{Schema, get_if_same, get_if_other}
use everett.SortCodec.RecordStreams.{
  SortRecord, append_all, visit_all, AllInOrder, stream_code, visit_all-append_all,
}
use everett.SortCodec.{reader}

-- Sort 0 has numbers with flags, sort 1 has strings alone; other numbers are no sorts.
abbrev Key : ℕ → Type 0
Key zero = ℕ
Key (suc s) = List ℕ

abbrev Value : ℕ → Type 0
Value zero = ℕ
Value (suc s) = Unit {0}

abbrev key_codecs : (s : ℕ) → KeyCodec (Key s)
key_codecs zero = unsigned_key 4
key_codecs (suc s) = fc_string_key (exponential_golomb 0)

abbrev value_codecs : (s : ℕ) → ValueCodec (Value s)
value_codecs zero = unsigned_value 1
value_codecs (suc s) = no_value

abbrev sorts : Registry
sorts = bin (tip (some 0)) (tip (some 1))

abbrev KeyTakes : (s : ℕ) → Key s → Type 0
KeyTakes zero key = key < 2 ^ 4
KeyTakes (suc s) key = IsString key

abbrev ValueTakes : (s : ℕ) → Value s → Type 0
ValueTakes zero value = value < 2 ^ 1
ValueTakes (suc s) value = Unit {0}

abbrev key_code : (s : ℕ) → Key s → Option (Key s) → Bits
key_code zero key previous = field 4 key
key_code (suc s) key previous =
    front_code (exponential_golomb 0) (bytes_bits key) (previous_key previous)

abbrev value_code : (s : ℕ) → Value s → Bits
value_code zero value = field 1 value
value_code (suc s) value = []

keys_ok : (s : ℕ) → KeyRoundTrips (key_codecs s) (KeyTakes s) (key_code s)
keys_ok zero = unsigned_key-KeyRoundTrips 4 (omega arith)
keys_ok (suc s) = fc_string_key-KeyRoundTrips (exponential_golomb 0) (omega arith)

values_ok : (s : ℕ) → RoundTrips (value_codecs s) (ValueTakes s) (value_code s)
values_ok zero = unsigned_value-RoundTrips 1 (omega arith)
values_ok (suc s) = no_value-RoundTrips

paths_short : (s : ℕ) → contains_sort sorts s ≡ true → Fits (length (path_code sorts s))
unfolding path_code contains_sort same
paths_short zero h = omega arith
paths_short (suc s) h = rw (other s) (omega arith)
  where
    other : (s : ℕ) → (0 == suc s) ≡ false
    other s = ground arith

abbrev schema : Schema
schema = record {
  K = Key;
  V = Value;
  keys = key_codecs;
  values = value_codecs;
  registry = sorts;
  tree = exponential_golomb 0;
  KeyTakes = KeyTakes;
  key_code = key_code;
  ValueTakes = ValueTakes;
  value_code = value_code;
  keys_ok = keys_ok;
  values_ok = values_ok;
  is_code = omega arith;
  listed = (tt, tt);
  short = paths_short;
}

-- 3, 9, "ab" and "ac"
abbrev four : List (SortRecord schema)
four = (0, 3, 1) ∷ (0, 9, 0) ∷ (1, 97 ∷ 98 ∷ [], tt) ∷ (1, 97 ∷ 99 ∷ [], tt) ∷ []

same_three : get_if Key 0 (some (0, 3)) ≡ some 3
same_three = get_if_same Key 0 3

other_nine : get_if Key 1 (some (0, 9)) ≡ none
other_nine = get_if_other Key 1 0 9 (λ e. absurd (omega (arith, e)))

same_ab : get_if Key 1 (some (1, 97 ∷ 98 ∷ [])) ≡ some (97 ∷ 98 ∷ [])
same_ab = get_if_same Key 1 (97 ∷ 98 ∷ [])

four-InOrder : AllInOrder schema [] none four
unfolding path_code contains_sort same lexical rises get_if is_greater less_string string_bits
    multiply bytes_bits less_bits is_less compare_common_bits common_bytes words_loop bytes_loop
    compare_loop difference agreement different load_bits bits_value leading_zeros field
four-InOrder = (
  record {
    known = refl;
    key_takes = omega arith;
    value_takes = omega arith;
    ordered = refl;
    rising = refl;
  },
  (
    record {
      known = refl;
      key_takes = omega arith;
      value_takes = omega arith;
      ordered = refl;
      rising = rw (same_three) refl;
    },
    (
      record {
        known = refl;
        key_takes = ((omega arith, (omega arith, tt)), omega arith);
        value_takes = tt;
        ordered = refl;
        rising = rw (other_nine) refl;
      },
      (
        record {
          known = refl;
          key_takes = ((omega arith, (omega arith, tt)), omega arith);
          value_takes = tt;
          ordered = refl;
          rising = rw (same_ab) refl;
        },
        tt,
      ),
    ),
  ),
)

four-Fits : Fits (length (stream_code schema [] none four))
unfolding path_code contains_sort same lexical bytes_bits field codeword quotient_code bit_width
    digits
four-Fits = rw (other_nine, same_ab) (omega arith)

visit_all-append_all_example :
    (w : SortRecordWriter Key) × (append_all schema
        (record { data_ = []; state = record { path = []; previous = none }; failed = false })
        four
      ≡ ok w)
    × (w.failed ≡ false)
    × (visit_all schema 5 (record {
      input = reader w.data_ 0;
      state = record { path = []; previous = none };
      failed = false;
    })
        ≡ ok four)
visit_all-append_all_example = visit_all-append_all schema four four-InOrder four-Fits
