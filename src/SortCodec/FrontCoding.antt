-- ===== src/SortCodec/FrontCoding.antt =====
-- sort_codec.h: keys that are coded by what they keep of the previous key. A missing previous key
-- stands for the empty one.
use everett.Base.{
  ℕ, ◌+◌, ◌-◌, ◌/◌, ◌%◌, min, Bool, true, not, List, [], ◌++◌, Option, none, some, if◌then◌else◌,
  ltb, ◌==◌, length, Result, ok, ◌>>=◌, require, invalid_argument,
}
use everett.BitString.{Bits, add, append, subview, BackspaceCode}
use everett.BitString.Compare.{BitComparison, compare_common_bits}
use everett.SortCodec.Codecs.{string_bits, bits_bytes}
use everett.SortCodec.{SortBitReader, write_count, read_count, take_bits}

pub record FcKeyFrame : Type 0 where
  pub retained_bits : ℕ
  pub literal : Bits

unfoldable pub size : FcKeyFrame → Result ℕ
size frame = add frame.retained_bits (length frame.literal)

-- The flag of the comparison is left to the caller.
unfoldable pub compare :
    FcKeyFrame → (aligned : Bool) (query : Bits) (previous : BitComparison) → Result BitComparison
compare frame aligned query previous =
    if ltb previous.common_bits frame.retained_bits
    then ok previous
    else require (not (ltb (length query) frame.retained_bits)) invalid_argument (
        subview query frame.retained_bits (length query - frame.retained_bits) >>= λ rest.
        let result = compare_common_bits aligned frame.literal rest in
        ok (record result { common_bits = result.common_bits + frame.retained_bits }))

unfoldable pub prefix : Bits → (count : ℕ) → Result Bits
prefix bits count = subview bits 0 (min count (length bits))

-- `read_frame` of `fc_bit_key`.
unfoldable pub read_frame :
    BackspaceCode → SortBitReader → (previous_bits : ℕ) → Result (FcKeyFrame × SortBitReader)
read_frame code r previous_bits = read_count code r >>= λ (backspace, s).
    require (not (ltb previous_bits backspace)) invalid_argument (
      read_count code s >>= λ (count, t). take_bits t count >>= λ (literal, end).
      add (previous_bits - backspace) (length literal) >>= λ _.
      ok (record { retained_bits = previous_bits - backspace; literal = literal }, end))

-- That of `fc_string_key` wants whole bytes.
unfoldable pub read_string_frame :
    BackspaceCode → SortBitReader → (previous_bits : ℕ) → Result (FcKeyFrame × SortBitReader)
read_string_frame code r previous_bits = read_count code r >>= λ (backspace, s).
    require (not (ltb previous_bits backspace)) invalid_argument (
      read_count code s >>= λ (count, t). take_bits t count >>= λ (literal, end).
      add (previous_bits - backspace) (length literal) >>= λ bits.
      require (bits % 8 == 0) invalid_argument
        (ok (record { retained_bits = previous_bits - backspace; literal = literal }, end)))

-- What both keys write.
unfoldable pub write_front : BackspaceCode → (out key old : Bits) → Result Bits
write_front code out key old =
    let retained = (compare_common_bits true old key).common_bits in
    write_count code out (length old - retained) >>= λ t.
    write_count code t (length key - retained) >>= λ t'.
    subview key retained (length key - retained) >>= λ literal. append t' literal

unfoldable pub previous_bits : Option Bits → Bits
previous_bits none = []
previous_bits (some old) = old

unfoldable pub write_fc_bits :
    BackspaceCode → (out value : Bits) → (previous : Option Bits) → Result Bits
write_fc_bits code out value previous = write_front code out value (previous_bits previous)

unfoldable pub read_fc_bits :
    BackspaceCode → SortBitReader → (previous : Option Bits) → Result (Bits × SortBitReader)
read_fc_bits code r previous =
    let old = previous_bits previous in
    read_frame code r (length old) >>= λ (frame, s). prefix old frame.retained_bits >>= λ kept.
    append kept frame.literal >>= λ result. ok (result, s)

unfoldable pub previous_string : Option (List ℕ) → Result Bits
previous_string none = ok []
previous_string (some old) = string_bits old

unfoldable pub write_fc_string :
    BackspaceCode → Bits → (value : List ℕ) (previous : Option (List ℕ)) → Result Bits
write_fc_string code out value previous =
    string_bits value >>= λ key. previous_string previous >>= λ old. write_front code out key old

-- The two copies fill the bytes of the result.
unfoldable pub read_fc_string :
    BackspaceCode → SortBitReader → (previous : Option (List ℕ)) → Result (List ℕ × SortBitReader)
read_fc_string code r previous = previous_string previous >>= λ old.
    read_string_frame code r (length old) >>= λ (frame, s). size frame >>= λ bits.
    prefix old frame.retained_bits >>= λ kept. ok (bits_bytes (bits / 8) (kept ++ frame.literal), s)
