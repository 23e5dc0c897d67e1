-- ===== src/SortCodec/Codecs.antt =====
-- sort_codec.h: the codecs of values, and the keys that are ordered as they are encoded. A
-- std::string is the list of its bytes.
use everett.Base.{
  ℕ, zero, suc, ◌*◌, ◌/◌, Bool, not, ◌&&◌, List, [], ◌∷◌, ◌++◌, Option, none, some, if◌then◌else◌,
  ltb, ◌==◌, length, take, drop, Result, raise, ok, ◌>>=◌, require, invalid_argument, is_some,
}
use everett.BitString.{Bits, bits_value, field, multiply, append, BackspaceCode}
use everett.SortCodec.{
  SortBitReader, remaining, write_bits, write_count, read_bits, take_bits, read_count,
}

-- The bits of bytes, and the bytes that bits make.
unfoldable pub bytes_bits : List ℕ → Bits
bytes_bits [] = []
bytes_bits (c ∷ value) = field 8 c ++ bytes_bits value

unfoldable pub bits_bytes : ℕ → Bits → List ℕ
bits_bytes zero bits = []
bits_bytes (suc n) bits = bits_value (take 8 bits) ∷ bits_bytes n (drop 8 bits)

unfoldable pub string_bits : List ℕ → Result Bits
string_bits value = multiply (length value) 8 >>= λ _. ok (bytes_bits value)

-- What a value codec supplies.
pub record ValueCodec (A : Type 0) : Type 0 where
  pub write : Bits → A → Result Bits
  pub read : SortBitReader → Result (A × SortBitReader)
  pub skip : SortBitReader → Result (Unit {0} × SortBitReader)

-- A payload whose bits are dropped.
unfoldable pub drop_payload : Result (Bits × SortBitReader) → Result (Unit {0} × SortBitReader)
drop_payload call = call >>= λ (_, s). ok (tt, s)

unfoldable pub write_string : BackspaceCode → Bits → List ℕ → Result Bits
write_string code out value =
    write_count code out (length value) >>= λ t. string_bits value >>= λ bits. append t bits

unfoldable pub take_string : BackspaceCode → SortBitReader → Result ((ℕ × Bits) × SortBitReader)
take_string code r = read_count code r >>= λ (bytes, s).
    require (not (ltb (remaining s / 8) bytes)) invalid_argument
      (take_bits s (bytes * 8) >>= λ (bits, end). ok ((bytes, bits), end))

unfoldable pub read_string : BackspaceCode → SortBitReader → Result (List ℕ × SortBitReader)
read_string code r = take_string code r >>= λ ((bytes, bits), end). ok (bits_bytes bytes bits, end)

unfoldable pub skip_string : BackspaceCode → SortBitReader → Result (Unit {0} × SortBitReader)
skip_string code r = take_string code r >>= λ (_, end). ok (tt, end)

abbrev pub string_value : BackspaceCode → ValueCodec (List ℕ)
string_value code = record {
  write = write_string code;
  read = read_string code;
  skip = skip_string code;
}

unfoldable pub write_bit_value : BackspaceCode → Bits → Bits → Result Bits
write_bit_value code out value = write_count code out (length value) >>= λ t. append t value

unfoldable pub read_bit_value : BackspaceCode → SortBitReader → Result (Bits × SortBitReader)
read_bit_value code r = read_count code r >>= λ (n, s). take_bits s n

unfoldable pub skip_bit_value : BackspaceCode → SortBitReader → Result (Unit {0} × SortBitReader)
skip_bit_value code r = drop_payload (read_count code r >>= λ (n, s). take_bits s n)

abbrev pub bit_value : BackspaceCode → ValueCodec Bits
bit_value code = record {
  write = write_bit_value code;
  read = read_bit_value code;
  skip = skip_bit_value code;
}

unfoldable pub skip_unsigned : (bits : ℕ) → SortBitReader → Result (Unit {0} × SortBitReader)
skip_unsigned bits r = drop_payload (take_bits r bits)

abbrev pub unsigned_value : (bits : ℕ) → ValueCodec ℕ
unsigned_value bits = record {
  write = λ out value. write_bits out value bits;
  read = λ r. read_bits r bits;
  skip = skip_unsigned bits;
}

module _ {A : Type 0} (codec : ValueCodec A) where
  unfoldable pub write_optional : Bits → Option A → Result Bits
  write_optional out value = write_bits out (if is_some value then 1 else 0) 1 >>= λ t. elim value [
    | none ↦ ok t
    | some v ↦ codec.write t v
  ]

  unfoldable pub read_optional : SortBitReader → Result (Option A × SortBitReader)
  read_optional r = read_bits r 1 >>= λ (present, s).
      if present == 0 then ok (none, s) else (codec.read s >>= λ (v, end). ok (some v, end))

  unfoldable pub skip_optional : SortBitReader → Result (Unit {0} × SortBitReader)
  skip_optional r =
      read_bits r 1 >>= λ (present, s). if present == 0 then ok (tt, s) else codec.skip s

  abbrev pub tombstone_value : ValueCodec (Option A)
  tombstone_value = record { write = write_optional; read = read_optional; skip = skip_optional }

  -- `Sentinel` and the equality of its type.
  module _ (eq : A → A → Bool) (sentinel : A) where
    unfoldable pub write_niche : Bits → Option A → Result Bits
    write_niche out none = codec.write out sentinel
    write_niche out (some v) = require (not (eq v sentinel)) invalid_argument (codec.write out v)

    unfoldable pub read_niche : SortBitReader → Result (Option A × SortBitReader)
    read_niche r = codec.read r >>= λ (v, s). ok (if eq v sentinel then none else some v, s)

    abbrev pub niche_value : ValueCodec (Option A)
    niche_value = record { write = write_niche; read = read_niche; skip = codec.skip }

abbrev pub no_value : ValueCodec (Unit {0})
no_value = record { write = λ out _. ok out; read = λ r. ok (tt, r); skip = λ r. ok (tt, r) }

-- Strings as ordered keys: a zero is escaped as 00 ff, and two zeros end the key.
unfoldable pub write_ordered_bytes : Bits → List ℕ → Result Bits
write_ordered_bytes out [] = ok out
write_ordered_bytes out (c ∷ value) = write_bits out c 8 >>= λ t.
    (if c == 0 then write_bits t 255 8 else ok t) >>= λ t'. write_ordered_bytes t' value

unfoldable pub write_ordered_string : Bits → List ℕ → Result Bits
write_ordered_string out value = write_ordered_bytes out value >>= λ t. write_bits t 0 16

-- Each round takes eight bits.
unfoldable pub read_ordered_bytes : (fuel : ℕ) → SortBitReader → Result (List ℕ × SortBitReader)
read_ordered_bytes zero r = raise invalid_argument
read_ordered_bytes (suc fuel) r = read_bits r 8 >>= λ (c, s).
    (if c == 0 then read_bits s 8 else ok (255, s)) >>= λ (escape, t).
    let rest = read_ordered_bytes fuel t in
    if c == 0 && escape == 0
    then ok ([], t)
    else require (escape == 255) invalid_argument (rest >>= λ (value, end). ok (c ∷ value, end))

unfoldable pub read_ordered_string : SortBitReader → Result (List ℕ × SortBitReader)
read_ordered_string r = read_ordered_bytes (suc (remaining r)) r

-- Bit strings as ordered keys: a one before each bit, and a zero at the end.
unfoldable pub write_ordered_pairs : Bits → Bits → Result Bits
write_ordered_pairs out [] = ok out
write_ordered_pairs out (b ∷ value) =
    write_bits out (if b then 3 else 2) 2 >>= λ t. write_ordered_pairs t value

unfoldable pub write_ordered_bits : Bits → Bits → Result Bits
write_ordered_bits out value = write_ordered_pairs out value >>= λ t. write_bits t 0 1

unfoldable pub read_ordered_pairs :
    (fuel : ℕ) → SortBitReader → Bits → Result (Bits × SortBitReader)
read_ordered_pairs zero r result = raise invalid_argument
read_ordered_pairs (suc fuel) r result = read_bits r 1 >>= λ (more, s).
    if more == 0
    then ok (result, s)
    else (read_bits s 1 >>= λ (b, t).
        write_bits result b 1 >>= λ result'. read_ordered_pairs fuel t result')

unfoldable pub read_ordered_bits : SortBitReader → Result (Bits × SortBitReader)
read_ordered_bits r = read_ordered_pairs (suc (remaining r)) r []
