-- ===== src/SortCodec/Values.antt =====
-- sort_codec.h: the values that the codecs write are read back and skipped.
use everett.Base.{
  ℕ, ◌+◌, ◌*◌, ◌/◌, ◌^◌, ◌≤◌, ◌<◌, ◌≡◌, refl, sym, ◌∙◌, ap, ap₂, false, not, List, [], ◌∷◌, ◌++◌,
  length-append, ltb, length, take, drop, take-append, drop-append, All, IsU64, ok, ◌>>=◌, require,
  invalid_argument, arith,
}
use native.Mathlib.Nat.{mod-eq_of_lt}
use everett.BitString.Fields.{Fits, length-field, bits_value-field}
use everett.BitString.Codewords.{IsCode, codeword}
use everett.BitString.{Bits, max_u64, bits_value, field, multiply, BackspaceCode}
use everett.SortCodec.Reservoir.{Left, remaining-Left}
use everett.SortCodec.Codes.{
  Encodes, Decodes, Encodes-nothing, Encodes-bind, Decodes-bind, Decodes-ok, Decodes-map,
  write_bits-Encodes, read_bits-Decodes, write_count-Encodes, read_count-Decodes, append-Encodes,
  take_bits-Decodes,
}
use everett.SortCodec.Codecs.{
  ValueCodec, bytes_bits, bits_bytes, string_bits, write_string, take_string, read_string,
  skip_string, string_value, drop_payload, write_bit_value, read_bit_value, skip_bit_value,
  bit_value, skip_unsigned, unsigned_value, no_value,
}
use everett.SortCodec.{SortBitReader, remaining, take_bits, read_count}

-- What a value codec promises of the values that it takes: where there is room, writing appends the
-- code of the value; and where the code is next, reading returns the value and skipping nothing, and
-- either leaves what follows the code.
pub record RoundTrips {A : Type 0} (codec : ValueCodec A) (Takes : A → Type 0) (code : A → Bits)
    : Type 0 where
  pub encodes : (a : A) → Takes a → Encodes (λ out. codec.write out a) (code a)
  pub decodes : (a : A) → Takes a → Decodes codec.read (code a) a
  pub skips : (a : A) → Takes a → Decodes codec.skip (code a) tt

-- The promise, at one value, one writer and one reader.
pub RoundTrips-at :
    {A : Type 0} (codec : ValueCodec A) (Takes : A → Type 0) (code : A → Bits)
    (t : RoundTrips codec Takes code) (a : A) (out rest : Bits) (r : SortBitReader)
    → Takes a
    → Fits (length out + length (code a))
    → Left r (code a ++ rest)
    → (codec.write out a ≡ ok (out ++ code a))
      × ((s : SortBitReader) × (codec.read r ≡ ok (a, s)) × Left s rest)
      × ((s : SortBitReader) × (codec.skip r ≡ ok (tt, s)) × Left s rest)
RoundTrips-at codec Takes code t a out rest r takes fits l =
    (t.encodes a takes out fits, t.decodes a takes r rest l, t.skips a takes r rest l)

abbrev pub AreBytes : List ℕ → Type 0
AreBytes = All (λ c. c < 256)

-- The bytes of a string whose bits can be counted.
abbrev pub IsString : List ℕ → Type 0
IsString value = AreBytes value × (length value < 2 ^ 61)

pub length-bytes_bits : (value : List ℕ) → length (bytes_bits value) ≡ length value * 8
unfolding bytes_bits
length-bytes_bits [] = refl
length-bytes_bits (c ∷ value) =
    omega (
      arith,
      length-append (field 8 c) (bytes_bits value),
      length-field 8 c,
      length-bytes_bits value,
    )

pub bits_bytes-bytes_bits :
    (value : List ℕ) → AreBytes value → bits_bytes (length value) (bytes_bits value) ≡ value
unfolding bits_bytes bytes_bits
bits_bytes-bytes_bits [] h = refl
bits_bytes-bytes_bits (c ∷ value) (hc, h) =
    ap₂ (λ x xs. x ∷ xs)
      (ap bits_value (
          ap (λ n. take n (field 8 c ++ bytes_bits value)) (sym (length-field 8 c))
          ∙ take-append (field 8 c) (bytes_bits value))
        ∙ (bits_value-field 8 c ∙ mod-eq_of_lt hc))
      (ap (bits_bytes (length value)) (
          ap (λ n. drop n (field 8 c ++ bytes_bits value)) (sym (length-field 8 c))
          ∙ drop-append (field 8 c) (bytes_bits value))
        ∙ bits_bytes-bytes_bits value h)

pub string_bits_lem :
    (value : List ℕ) → length value < 2 ^ 61 → string_bits value ≡ ok (bytes_bits value)
unfolding string_bits multiply
string_bits_lem value h = rw (inside) refl
  where
    inside : ltb (max_u64 / 8) (length value) ≡ false
    inside = ground (arith, h)

module _ (c : BackspaceCode) (is_code : IsCode c) where
  abbrev pub string_code : List ℕ → Bits
  string_code value = codeword c (length value) ++ bytes_bits value

  payload-Decodes :
      (value : List ℕ)
      → Decodes {A = ℕ × Bits}
          (λ r.
            require
              (not (ltb (remaining r / 8) (length value)))
              invalid_argument
              (take_bits r (length value * 8) >>= λ (bits, end). ok ((length value, bits), end)))
          (bytes_bits value)
          (length value, bytes_bits value)
  payload-Decodes value r rest l =
      rw (inside, sym (length-bytes_bits value))
        (Decodes-map (λ bits. (length value, bits)) _ (bytes_bits value) (bytes_bits value)
          (take_bits-Decodes (bytes_bits value)) r rest l)
    where
      inside : ltb (remaining r / 8) (length value) ≡ false
      inside = ground (
        arith,
        remaining-Left r (bytes_bits value ++ rest) l,
        length-append (bytes_bits value) rest,
        length-bytes_bits value,
      )

  take_string-Decodes :
      (value : List ℕ)
      → IsString value
      → Decodes (take_string c) (string_code value) (length value, bytes_bits value)
  unfolding take_string
  take_string-Decodes value (bytes, h) =
      Decodes-bind _ _ (codeword c (length value)) (bytes_bits value) (length value) _
        (read_count-Decodes c (length value) is_code (omega (arith, h))) (payload-Decodes value)

  write_string-Encodes :
      (value : List ℕ)
      → IsString value
      → Encodes (λ out. write_string c out value) (string_code value)
  unfolding write_string
  write_string-Encodes value (bytes, h) = rw (string_bits_lem value h) (
      Encodes-bind _ _ (codeword c (length value)) (bytes_bits value)
        (write_count-Encodes c (length value) is_code (omega (arith, h)))
        (append-Encodes (bytes_bits value)))

  pub string_value-RoundTrips : RoundTrips (string_value c) IsString string_code
  unfolding read_string skip_string
  string_value-RoundTrips = record {
    encodes = write_string-Encodes;
    decodes = λ value h r rest l.
        let (s, e, l') = take_string-Decodes value h r rest l in
        (s, rw (e, bits_bytes-bytes_bits value h.0) refl, l');
    skips = λ value h r rest l.
        let (s, e, l') = take_string-Decodes value h r rest l in (s, rw (e) refl, l');
  }

  -- The length of a bit string is counted in 64 bits.
  abbrev pub IsBits : Bits → Type 0
  IsBits value = IsU64 (length value)

  abbrev bits_code : Bits → Bits
  bits_code value = codeword c (length value) ++ value

  bits_code-Decodes :
      (value : Bits)
      → IsBits value
      → Decodes
          (λ r. read_count c r >>= λ (n, s). take_bits s n)
          (codeword c (length value) ++ value)
          value
  bits_code-Decodes value h =
      Decodes-bind _ _ (codeword c (length value)) value (length value) value
        (read_count-Decodes c (length value) is_code h) (take_bits-Decodes value)

  pub bit_value-RoundTrips : RoundTrips (bit_value c) IsBits bits_code
  unfolding write_bit_value read_bit_value skip_bit_value drop_payload
  bit_value-RoundTrips = record {
    encodes = λ value h.
        Encodes-bind _ _ (codeword c (length value)) value
          (write_count-Encodes c (length value) is_code h) (append-Encodes value);
    decodes = bits_code-Decodes;
    skips = λ value h.
        Decodes-map (λ _. tt) _ (codeword c (length value) ++ value) value
          (bits_code-Decodes value h);
  }

pub unsigned_value-RoundTrips :
    (bits : ℕ)
    → bits ≤ 64
    → RoundTrips (unsigned_value bits) (λ value. value < 2 ^ bits) (field bits)
unfolding skip_unsigned drop_payload
unsigned_value-RoundTrips bits le = record {
  encodes = λ value h. write_bits-Encodes value bits le h;
  decodes = λ value h. read_bits-Decodes value bits le h;
  skips = λ value h r rest l.
      let (s, e, l') = take_bits-Decodes (field bits value) r rest l in
      (s, rw (sym (length-field bits value), e) refl, l');
}

pub no_value-RoundTrips : RoundTrips no_value (λ _. Unit {0}) (λ _. [])
no_value-RoundTrips = record {
  encodes = λ _ _. Encodes-nothing;
  decodes = λ _ _. Decodes-ok tt;
  skips = λ _ _. Decodes-ok tt;
}
