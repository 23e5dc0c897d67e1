-- ===== src/SortCodec/Ordered.antt =====
-- sort_codec.h: ordered keys are read back, and their codes are in the order of the keys.
use everett.Base.{
  ℕ, zero, suc, ◌≤◌, ◌<◌, ◌≡◌, refl, subst, ◌∙◌, ap, inl, inr, false, ◌&&◌, List, [], ◌∷◌, ◌++◌,
  append_assoc, length-append, if◌then◌else◌, Bool-cases, ◌==◌, length, Result, raise, ok, ◌>>=◌,
  arith,
}
use everett.BitString.Fields.{length-field}
use everett.BitString.{Bits, field}
use everett.SortCodec.Reservoir.{Left, remaining-Left}
use everett.SortCodec.Codes.{
  Encodes, Decodes, Encodes-nothing, Encodes-bind, write_bits-Encodes, read_bits-Decodes,
}
use everett.SortCodec.Codecs.{
  write_ordered_bytes, write_ordered_string, read_ordered_bytes, read_ordered_string,
}
use everett.SortCodec.Values.{AreBytes}
use everett.SortCodec.{SortBitReader, remaining, write_bits, read_bits}

-- The escape behind a zero.
unfoldable pub escape_code : ℕ → Bits
escape_code c = if c == 0 then field 8 255 else []

unfoldable pub bytes_code : List ℕ → Bits
bytes_code [] = []
bytes_code (c ∷ value) = (field 8 c ++ escape_code c) ++ bytes_code value

unfoldable pub string_key_code : List ℕ → Bits
string_key_code value = bytes_code value ++ field 16 0

byte-Encodes :
    (c : ℕ)
    → c < 256
    → Encodes
        (λ out. write_bits out c 8 >>= λ t. if c == 0 then write_bits t 255 8 else ok t)
        (field 8 c ++ escape_code c)
unfolding escape_code
byte-Encodes c h =
    Encodes-bind _ _ (field 8 c) _ (write_bits-Encodes c 8 (omega arith) (omega (arith, h)))
      (escape c)
  where
    escape :
        (c : ℕ)
        → Encodes
            (λ t. if c == 0 then write_bits t 255 8 else ok t)
            (if c == 0 then field 8 255 else [])
    escape c = elim (Bool-cases (c == 0)) [
      | inl e ↦ rw (e) (write_bits-Encodes 255 8 (omega arith) (omega arith))
      | inr e ↦ rw (e) Encodes-nothing
    ]

write_ordered_bytes-Encodes :
    (value : List ℕ)
    → AreBytes value
    → Encodes (λ out. write_ordered_bytes out value) (bytes_code value)
unfolding write_ordered_bytes bytes_code
write_ordered_bytes-Encodes [] h out fits = Encodes-nothing out fits
write_ordered_bytes-Encodes (c ∷ value) (hc, h) out fits =
    reassociate (write_bits out c 8)
    ∙ Encodes-bind _ _ (field 8 c ++ escape_code c) (bytes_code value) (byte-Encodes c hc)
        (write_ordered_bytes-Encodes value h) out fits
  where
    reassociate :
        (m : Result Bits)
        → (m >>= λ t.
            (if c == 0 then write_bits t 255 8 else ok t) >>= λ t'. write_ordered_bytes t' value)
          ≡ ((m >>= λ t. if c == 0 then write_bits t 255 8 else ok t) >>= λ t'.
              write_ordered_bytes t' value)
    reassociate (raise e) = refl
    reassociate (ok t) = refl

pub write_ordered_string-Encodes :
    (value : List ℕ)
    → AreBytes value
    → Encodes (λ out. write_ordered_string out value) (string_key_code value)
unfolding write_ordered_string string_key_code
write_ordered_string-Encodes value h =
    Encodes-bind _ _ (bytes_code value) (field 16 0) (write_ordered_bytes-Encodes value h)
      (write_bits-Encodes 0 16 (omega arith) (omega arith))

-- A byte and the escape behind it.
byte_read :
    (c : ℕ) (r : SortBitReader) (rest : Bits)
    → c < 256
    → Left r ((field 8 c ++ escape_code c) ++ rest)
    → (s t : SortBitReader) × (read_bits r 8 ≡ ok (c, s))
      × ((if c == 0 then read_bits s 8 else ok (255, s)) ≡ ok (255, t))
      × Left t rest
unfolding escape_code
byte_read c r rest h l =
    let (s, e, l') =
      read_bits-Decodes c 8 (omega arith) (omega (arith, h)) r _
        (subst (Left r) (append_assoc (field 8 c) (escape_code c) rest) l) in
    let (t, e', l'') = escape s l' in (s, t, e, e', l'')
  where
    escape :
        (s : SortBitReader)
        → Left s ((if c == 0 then field 8 255 else []) ++ rest)
        → (t : SortBitReader) × ((if c == 0 then read_bits s 8 else ok (255, s)) ≡ ok (255, t))
          × Left t rest
    escape s l' = elim (Bool-cases (c == 0)) [
      | inl e ↦ rw (e) (read_bits-Decodes 255 8 (omega arith) (omega arith) s rest (rw (e) at l'))
      | inr e ↦ rw (e) (s, refl, rw (e) at l')
    ]

read_ordered_bytes-Decodes :
    (fuel : ℕ) (value : List ℕ) (r : SortBitReader) (rest : Bits)
    → AreBytes value
    → length value < fuel
    → Left r ((bytes_code value ++ field 16 0) ++ rest)
    → (s : SortBitReader) × (read_ordered_bytes fuel r ≡ ok (value, s)) × Left s rest
unfolding read_ordered_bytes bytes_code
read_ordered_bytes-Decodes zero value r rest h enough l = absurd (omega (arith, enough))
read_ordered_bytes-Decodes (suc fuel) [] r rest h enough l =
    let (s, e, l') =
      read_bits-Decodes 0 8 (omega arith) (omega arith) r (field 8 0 ++ rest) (unfold field in l) in
    let (t, e', l'') = read_bits-Decodes 0 8 (omega arith) (omega arith) s rest l' in
    (t, rw (e, e') refl, l'')
read_ordered_bytes-Decodes (suc fuel) (c ∷ value) r rest (hc, h) enough l =
    let (s, t, e, e', l') =
      byte_read c r ((bytes_code value ++ field 16 0) ++ rest) hc (subst (Left r) regroup l) in
    let (end, e'', l'') =
      read_ordered_bytes-Decodes fuel value t rest h (omega (arith, enough)) l' in
    (end, rw (e, e', not_end, e'') refl, l'')
  where
    front : Bits
    front = field 8 c ++ escape_code c

    regroup :
        ((front ++ bytes_code value) ++ field 16 0) ++ rest
        ≡ front ++ ((bytes_code value ++ field 16 0) ++ rest)
    regroup =
        ap (λ x. x ++ rest) (append_assoc front (bytes_code value) (field 16 0))
        ∙ append_assoc front (bytes_code value ++ field 16 0) rest

    not_end : (c == 0 && 255 == 0) ≡ false
    not_end = ground arith

length-bytes_code : (value : List ℕ) → length value ≤ length (bytes_code value)
unfolding bytes_code
length-bytes_code [] = omega arith
length-bytes_code (c ∷ value) = omega (
  arith,
  length-bytes_code value,
  length-append (field 8 c ++ escape_code c) (bytes_code value),
  length-append (field 8 c) (escape_code c),
  length-field 8 c,
)

pub read_ordered_string-Decodes :
    (value : List ℕ) → AreBytes value → Decodes read_ordered_string (string_key_code value) value
unfolding read_ordered_string string_key_code
read_ordered_string-Decodes value h r rest l =
    read_ordered_bytes-Decodes (suc (remaining r)) value r rest h
      (omega (
        arith,
        remaining-Left r ((bytes_code value ++ field 16 0) ++ rest) l,
        length-append (bytes_code value ++ field 16 0) rest,
        length-append (bytes_code value) (field 16 0),
        length-bytes_code value,
      ))
      l
