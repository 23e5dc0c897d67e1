-- ===== src/SortCodec/OrderedBits.antt =====
-- sort_codec.h: ordered bit keys are read back, and their codes are in the order of the keys.
use everett.Base.{
  ℕ, zero, suc, ◌+◌, ◌≤◌, ◌<◌, ◌≡◌, refl, subst, ap, Bool, true, false, [], ◌∷◌, ◌++◌, append_assoc,
  append-nil, length-append, if◌then◌else◌, length, ok, arith,
}
use everett.BitString.Fields.{Fits, length-field}
use everett.BitString.Order.{lexical}
use everett.BitString.{Bits, field}
use everett.SortCodec.Reservoir.{Left, remaining-Left}
use everett.SortCodec.Codes.{
  Encodes, Decodes, Encodes-nothing, Encodes-bind, write_bits-Encodes, read_bits-Decodes,
}
use everett.SortCodec.Codecs.{
  write_ordered_pairs, write_ordered_bits, read_ordered_pairs, read_ordered_bits,
}
use everett.SortCodec.{SortBitReader, remaining, write_bits, read_bits}

unfoldable pub pairs_code : Bits → Bits
pairs_code [] = []
pairs_code (b ∷ value) = field 2 (if b then 3 else 2) ++ pairs_code value

unfoldable pub bit_key_code : Bits → Bits
bit_key_code value = pairs_code value ++ field 1 0

write_ordered_pairs-Encodes :
    (value : Bits) → Encodes (λ out. write_ordered_pairs out value) (pairs_code value)
unfolding write_ordered_pairs pairs_code
write_ordered_pairs-Encodes [] out fits = Encodes-nothing out fits
write_ordered_pairs-Encodes (true ∷ value) out fits =
    Encodes-bind _ _ (field 2 3) (pairs_code value)
      (write_bits-Encodes 3 2 (omega arith) (omega arith)) (write_ordered_pairs-Encodes value) out
      fits
write_ordered_pairs-Encodes (false ∷ value) out fits =
    Encodes-bind _ _ (field 2 2) (pairs_code value)
      (write_bits-Encodes 2 2 (omega arith) (omega arith)) (write_ordered_pairs-Encodes value) out
      fits

pub write_ordered_bits-Encodes :
    (value : Bits) → Encodes (λ out. write_ordered_bits out value) (bit_key_code value)
unfolding write_ordered_bits bit_key_code
write_ordered_bits-Encodes value =
    Encodes-bind _ _ (pairs_code value) (field 1 0) (write_ordered_pairs-Encodes value)
      (write_bits-Encodes 0 1 (omega arith) (omega arith))

-- A bit is read.
pub read_bit-Decodes : (b : Bool) → Decodes (λ r. read_bits r 1) (b ∷ []) (if b then 1 else 0)
unfolding field
read_bit-Decodes true = read_bits-Decodes 1 1 (omega arith) (omega arith)
read_bit-Decodes false = read_bits-Decodes 0 1 (omega arith) (omega arith)

-- A one, and the bit behind it.
pair_read :
    (b : Bool) (r : SortBitReader) (rest : Bits)
    → Left r (true ∷ b ∷ rest)
    → (s t : SortBitReader) × (read_bits r 1 ≡ ok (1, s))
      × (read_bits s 1 ≡ ok ((if b then 1 else 0), t))
      × Left t rest
pair_read b r rest l =
    let (s, e, l') = read_bit-Decodes true r (b ∷ rest) l in
    let (t, e', l'') = read_bit-Decodes b s rest l' in (s, t, e, e', l'')

pub bit_written :
    (b : Bool) (result : Bits)
    → Fits (length result + 1)
    → write_bits result (if b then 1 else 0) 1 ≡ ok (result ++ b ∷ [])
bit_written true result fits =
    unfold field in write_bits-Encodes 1 1 (omega arith) (omega arith) result fits
bit_written false result fits =
    unfold field in write_bits-Encodes 0 1 (omega arith) (omega arith) result fits

pair_code : (b : Bool) (x : Bits) → field 2 (if b then 3 else 2) ++ x ≡ true ∷ b ∷ x
unfolding field
pair_code true x = refl
pair_code false x = refl

read_ordered_pairs-Decodes :
    (fuel : ℕ) (value : Bits) (r : SortBitReader) (rest result : Bits)
    → length value < fuel
    → Fits (length result + length value)
    → Left r ((pairs_code value ++ field 1 0) ++ rest)
    → (s : SortBitReader) × (read_ordered_pairs fuel r result ≡ ok (result ++ value, s))
      × Left s rest
unfolding read_ordered_pairs pairs_code
read_ordered_pairs-Decodes zero value r rest result enough fits l = absurd (omega (arith, enough))
read_ordered_pairs-Decodes (suc fuel) [] r rest result enough fits l =
    let (s, e, l') = read_bits-Decodes 0 1 (omega arith) (omega arith) r rest l in
    (s, rw (e, append-nil result) refl, l')
read_ordered_pairs-Decodes (suc fuel) (b ∷ value) r rest result enough fits l =
    let (s, t, e, e', l') =
      pair_read b r ((pairs_code value ++ field 1 0) ++ rest)
        (subst (Left r) (ap (λ x. (x ++ field 1 0) ++ rest) (pair_code b (pairs_code value))) l) in
    let (end, e'', l'') =
      read_ordered_pairs-Decodes fuel value t rest (result ++ b ∷ []) (omega (arith, enough))
        (omega (arith, fits, length-append result (b ∷ []))) l' in
    (
      end,
      rw (e, e', bit_written b result (omega (arith, fits)), e'')
          (ap (λ x. ok (x, end)) (append_assoc result (b ∷ []) value)),
      l'',
    )

length-pairs_code : (value : Bits) → length value ≤ length (pairs_code value)
unfolding pairs_code
length-pairs_code [] = omega arith
length-pairs_code (b ∷ value) = omega (
  arith,
  length-pairs_code value,
  length-append (field 2 (if b then 3 else 2)) (pairs_code value),
  length-field 2 (if b then 3 else 2),
)

pub read_ordered_bits-Decodes :
    (value : Bits) → Fits (length value) → Decodes read_ordered_bits (bit_key_code value) value
unfolding read_ordered_bits bit_key_code
read_ordered_bits-Decodes value fits r rest l =
    read_ordered_pairs-Decodes (suc (remaining r)) value r rest []
      (omega (
        arith,
        remaining-Left r ((pairs_code value ++ field 1 0) ++ rest) l,
        length-append (pairs_code value ++ field 1 0) rest,
        length-append (pairs_code value) (field 1 0),
        length-pairs_code value,
      ))
      (omega (arith, fits)) l

pub bit_key_code-order :
    (a b : Bits) → (lexical (bit_key_code a) (bit_key_code b)).order ≡ (lexical a b).order
unfolding bit_key_code pairs_code field lexical
bit_key_code-order [] [] = refl
bit_key_code-order [] (true ∷ b) = refl
bit_key_code-order [] (false ∷ b) = refl
bit_key_code-order (true ∷ a) [] = refl
bit_key_code-order (false ∷ a) [] = refl
bit_key_code-order (true ∷ a) (true ∷ b) = bit_key_code-order a b
bit_key_code-order (true ∷ a) (false ∷ b) = refl
bit_key_code-order (false ∷ a) (true ∷ b) = refl
bit_key_code-order (false ∷ a) (false ∷ b) = bit_key_code-order a b
