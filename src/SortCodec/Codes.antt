-- ===== src/SortCodec/Codes.antt =====
-- sort_codec.h: what a writer appends and a reader takes off, and how such calls compose.
use everett.Base.{
  ℕ, ◌+◌, ◌/◌, ◌^◌, ◌≤◌, ◌<◌, ◌≡◌, refl, sym, subst, ◌∙◌, ap, false, not, ◌&&◌, ◌||◌, [], ◌++◌,
  append_assoc, append-nil, length-append, ltb, ◌==◌, length, take-append, drop-append, IsU64,
  Result, ok, ◌>>=◌, arith,
}
use native.Mathlib.Nat.{div-eq_of_lt, mod-eq_of_lt}
use everett.BitString.Fields.{
  Fits, zeros, length-zeros, length-field, add-Fits, resize-longer, put_fixed-middle, append-Fits,
}
use everett.BitString.Codewords.{IsCode, codeword}
use everett.BitString.Writing.{write_backspace-codeword}
use everett.BitString.Counts.{take_field-field}
use everett.BitString.RoundTrip.{take_count-codeword}
use everett.BitString.Agreement.{Agrees-ok}
use everett.BitString.{Bits, field, append, BackspaceCode}
use everett.SortCodec.Reservoir.{Left}
use everett.SortCodec.Fields.{read_bits-take, take_bits-take}
use everett.SortCodec.Counts.{read_count-take}
use everett.SortCodec.{SortBitReader, write_bits, write_count, read_bits, take_bits, read_count}

-- Where there is room, the call appends the bits.
abbrev pub Encodes : (Bits → Result Bits) → Bits → Type 0
Encodes write code = (out : Bits) → Fits (length out + length code) → write out ≡ ok (out ++ code)

-- Where the bits are next, the call returns the value and leaves what follows them.
abbrev pub Decodes : {A : Type 0} → (SortBitReader → Result (A × SortBitReader)) → Bits → A → Type 0
Decodes read code a =
    (r : SortBitReader) (rest : Bits)
    → Left r (code ++ rest)
    → (s : SortBitReader) × (read r ≡ ok (a, s)) × Left s rest

pub Encodes-nothing : Encodes ok []
Encodes-nothing out fits = ap ok (sym (append-nil out))

pub Encodes-bind :
    (write next : Bits → Result Bits) (code more : Bits)
    → Encodes write code
    → Encodes next more
    → Encodes (λ out. write out >>= next) (code ++ more)
Encodes-bind write next code more h k out fits =
    rw (h out (omega (arith, fits, length-append code more))) (
      k (out ++ code) (omega (arith, fits, length-append code more, length-append out code))
      ∙ ap ok (append_assoc out code more))

pub Decodes-bind :
    {A B : Type 0} (read : SortBitReader → Result (A × SortBitReader))
    (next : A × SortBitReader → Result (B × SortBitReader)) (code more : Bits) (a : A) (b : B)
    → Decodes read code a
    → Decodes (λ s. next (a, s)) more b
    → Decodes (λ r. read r >>= next) (code ++ more) b
Decodes-bind read next code more a b h k r rest l =
    let (s, e, l') = h r (more ++ rest) (subst (Left r) (append_assoc code more rest) l) in
    let (t, e', l'') = k s rest l' in (t, rw (e) e', l'')

pub Decodes-ok : {A : Type 0} (a : A) → Decodes (λ r. ok (a, r)) [] a
Decodes-ok a r rest l = (r, refl, l)

-- The last step computes a value from what was read.
pub Decodes-map :
    {A B : Type 0} (f : A → B) (read : SortBitReader → Result (A × SortBitReader)) (code : Bits)
    (a : A)
    → Decodes read code a
    → Decodes (λ r. read r >>= λ (v, s). ok (f v, s)) code (f a)
Decodes-map f read code a h r rest l = let (s, e, l') = h r rest l in (s, rw (e) refl, l')

pub write_bits-Encodes :
    (value width : ℕ)
    → width ≤ 64
    → value < 2 ^ width
    → Encodes (λ out. write_bits out value width) (field width value)
unfolding write_bits
write_bits-Encodes value width le small out fits =
    rw
      (
        inside,
        add-Fits (length out) width (omega (arith, fits, length-field width value)),
        resize-longer out width (omega (arith, fits, length-field width value)),
        sym (append-nil (zeros width)),
        put_fixed-middle out (zeros width) [] (length out) value width refl (length-zeros width) le,
        append-nil,
      )
      refl
  where
    inside : (ltb 64 width || (ltb width 64 && not (value / 2 ^ width == 0))) ≡ false
    inside = ground (arith, le, div-eq_of_lt small)

pub read_bits-Decodes :
    (value width : ℕ)
    → width ≤ 64
    → value < 2 ^ width
    → Decodes (λ r. read_bits r width) (field width value) value
read_bits-Decodes value width le small r rest l =
    Agrees-ok Left _ _ value rest (read_bits-take r (field width value ++ rest) l width)
      (take_field-field width value rest le ∙ ap (λ n. ok (n, rest)) (mod-eq_of_lt small))

pub write_count-Encodes :
    (code : BackspaceCode) (value : ℕ)
    → IsCode code
    → IsU64 value
    → Encodes (λ out. write_count code out value) (codeword code value)
unfolding write_count
write_count-Encodes code value c u out fits = write_backspace-codeword code out value c u fits

pub read_count-Decodes :
    (code : BackspaceCode) (value : ℕ)
    → IsCode code
    → IsU64 value
    → Decodes (read_count code) (codeword code value) value
read_count-Decodes code value c u r rest l =
    Agrees-ok Left _ _ value rest (read_count-take code r (codeword code value ++ rest) l)
      (take_count-codeword code value rest c u)

pub append-Encodes : (bits : Bits) → Encodes (λ out. append out bits) bits
append-Encodes bits out fits = append-Fits out bits fits

pub take_bits-Decodes : (bits : Bits) → Decodes (λ r. take_bits r (length bits)) bits bits
take_bits-Decodes bits r rest l =
    Agrees-ok Left _ _ bits rest (take_bits-take r (bits ++ rest) l (length bits))
      (rw (inside, take-append bits rest, drop-append bits rest) refl)
  where
    inside : ltb (length (bits ++ rest)) (length bits) ≡ false
    inside = ground (arith, length-append bits rest)
