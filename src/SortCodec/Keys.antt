-- ===== src/SortCodec/Keys.antt =====
-- sort_codec.h: front-coded strings are read back, and the comparison of a frame carries over.
use everett.Base.{
  ℕ, zero, suc, ◌+◌, ◌%◌, ◌^◌, ◌≤◌, ◌<◌, ◌≡◌, refl, sym, ◌∙◌, ap, ap₂, inl, inr, Bool, true, false,
  List, [], ◌∷◌, ◌++◌, Option, none, some, Bool-cases, ltb, ltb→lt, not_ltb→le, ◌==◌, length, take,
  drop, length-take, take-take, take-drop, ok, arith,
}
use everett.BitString.Fields.{Fits}
use everett.BitString.Codewords.{IsCode}
use everett.BitString.Order.{lexical, lexical-append, one_more}
use everett.BitString.CommonBytes.{compare_common_bits-lexical}
use everett.BitString.{Bits, BackspaceCode}
use everett.SortCodec.{SortBitReader}
use everett.SortCodec.Reservoir.{Left}
use everett.SortCodec.Codes.{Encodes, Decodes}
use everett.SortCodec.Codecs.{bytes_bits, bits_bytes}
use everett.SortCodec.Values.{IsString, length-bytes_bits, bits_bytes-bytes_bits, string_bits_lem}
use everett.SortCodec.FrontCoding.{
  FcKeyFrame, compare, previous_string, write_fc_string, read_fc_string,
}
use everett.SortCodec.Front.{
  front_code, write_front-Encodes, read_string_frame-Decodes, prefix-kept, rejoined, size-frame,
  subview-rest, lexical-common,
}

abbrev pub IsPrevious : Option (List ℕ) → Type 0
IsPrevious none = Unit {0}
IsPrevious (some old) = IsString old

abbrev pub previous_key : Option (List ℕ) → Bits
previous_key none = []
previous_key (some old) = bytes_bits old

previous_string_lem :
    (previous : Option (List ℕ))
    → IsPrevious previous
    → previous_string previous ≡ ok (previous_key previous)
unfolding previous_string
previous_string_lem none h = refl
previous_string_lem (some old) (bytes, h) = string_bits_lem old h

string-Fits : (value : List ℕ) → length value < 2 ^ 61 → Fits (length (bytes_bits value))
string-Fits value h = omega (arith, length-bytes_bits value, h)

previous-Fits :
    (previous : Option (List ℕ)) → IsPrevious previous → Fits (length (previous_key previous))
previous-Fits none h = omega arith
previous-Fits (some old) (bytes, h) = string-Fits old h

pub write_fc_string-Encodes :
    (c : BackspaceCode) (value : List ℕ) (previous : Option (List ℕ))
    → IsCode c
    → IsString value
    → IsPrevious previous
    → Encodes
        (λ out. write_fc_string c out value previous)
        (front_code c (bytes_bits value) (previous_key previous))
unfolding write_fc_string
write_fc_string-Encodes c value previous is_code (bytes, h) p out fits =
    rw (string_bits_lem value h, previous_string_lem previous p)
      (write_front-Encodes c is_code (bytes_bits value) (previous_key previous)
        (string-Fits value h) (previous-Fits previous p) out fits)

pub read_fc_string-Decodes :
    (c : BackspaceCode) (value : List ℕ) (previous : Option (List ℕ))
    → IsCode c
    → IsString value
    → IsPrevious previous
    → Decodes
        (λ r. read_fc_string c r previous)
        (front_code c (bytes_bits value) (previous_key previous))
        value
unfolding read_fc_string
read_fc_string-Decodes c value previous is_code (bytes, h) p r rest l =
    let (s, e, l') =
      read_string_frame-Decodes c is_code key old key_fits old_fits whole_bytes r rest l in
    (
      s,
      rw
          (
            previous_string_lem previous p,
            e,
            size-frame c is_code key old key_fits old_fits,
            prefix-kept c is_code key old key_fits old_fits,
            rejoined c is_code key old key_fits old_fits,
          )
          (ap (λ v. ok (v, s))
            (ap (λ n. bits_bytes n key) (omega (arith, length-bytes_bits value))
              ∙ bits_bytes-bytes_bits value bytes)),
      l',
    )
  where
    key : Bits
    key = bytes_bits value

    old : Bits
    old = previous_key previous

    key_fits : Fits (length key)
    key_fits = string-Fits value h

    old_fits : Fits (length old)
    old_fits = previous-Fits previous p

    whole_bytes : (length key % 8 == 0) ≡ true
    whole_bytes = ground (arith, length-bytes_bits value)

-- For a string of bytes after another or after none, of fewer than 2 ^ 61 bytes each, where there is
-- room: its code is appended; and a reader with the code next, after the same string, returns the
-- string and leaves what follows.
pub read_fc_string-write_fc_string :
    (c : BackspaceCode) (value : List ℕ) (previous : Option (List ℕ)) (out rest : Bits)
    (r : SortBitReader)
    → IsCode c
    → IsString value
    → IsPrevious previous
    → Fits (length out + length (front_code c (bytes_bits value) (previous_key previous)))
    → Left r (front_code c (bytes_bits value) (previous_key previous) ++ rest)
    → (write_fc_string c out value previous
        ≡ ok (out ++ front_code c (bytes_bits value) (previous_key previous)))
      × ((s : SortBitReader) × (read_fc_string c r previous ≡ ok (value, s)) × Left s rest)
read_fc_string-write_fc_string c value previous out rest r is_code h p fits l = (
  write_fc_string-Encodes c value previous is_code h p out fits,
  read_fc_string-Decodes c value previous is_code h p r rest l,
)

-- A difference within what is kept stays.
lexical-kept :
    (n : ℕ) (xs literal query : Bits)
    → (lexical xs query).common_bits < n
    → n ≤ length xs
    → lexical (take n xs ++ literal) query ≡ lexical xs query
unfolding lexical
lexical-kept zero xs literal query h le = absurd (omega (arith, h))
lexical-kept (suc n) [] literal query h le = absurd (omega (arith, le))
lexical-kept (suc n) (x ∷ xs) literal [] h le = refl
lexical-kept (suc n) (true ∷ xs) literal (true ∷ query) h le =
    ap one_more (lexical-kept n xs literal query (omega (arith, h)) (omega (arith, le)))
lexical-kept (suc n) (false ∷ xs) literal (false ∷ query) h le =
    ap one_more (lexical-kept n xs literal query (omega (arith, h)) (omega (arith, le)))
lexical-kept (suc n) (true ∷ xs) literal (false ∷ query) h le = refl
lexical-kept (suc n) (false ∷ xs) literal (true ∷ query) h le = refl

-- The comparison of a key with a query follows from that of the key before it: where a frame keeps
-- so many bits of the key before, the comparison returns the length of the common prefix and the
-- order of the query and of the key that the frame stands for, and it never raises.
pub compare-lexical :
    (frame : FcKeyFrame) (aligned : Bool) (old query : Bits)
    → frame.retained_bits ≤ length old
    → compare frame aligned query (lexical old query)
      ≡ ok (lexical (take frame.retained_bits old ++ frame.literal) query)
unfolding compare
compare-lexical frame aligned old query h =
    elim (Bool-cases (ltb (lexical old query).common_bits n)) [
      | inl e ↦ rw (e) (ap ok (sym (lexical-kept n old frame.literal query (ltb→lt _ n e) h)))
      | inr e ↦
          rw
            (
              e,
              long e,
              subview-rest query n (n_le e),
              compare_common_bits-lexical aligned frame.literal (drop n query),
            )
            (ap ok (sym (joined e)))
    ]
  where
    n : ℕ
    n = frame.retained_bits

    common :
        ((lexical old query).common_bits ≤ length old)
        × ((lexical old query).common_bits ≤ length query)
        × (take (lexical old query).common_bits old ≡ take (lexical old query).common_bits query)
    common = lexical-common old query

    n_le : ltb (lexical old query).common_bits n ≡ false → n ≤ length query
    n_le e = omega (arith, not_ltb→le _ n e, common.1)

    long : ltb (lexical old query).common_bits n ≡ false → ltb (length query) n ≡ false
    long e = ground (arith, n_le e)

    agreed : ltb (lexical old query).common_bits n ≡ false → take n old ≡ take n query
    agreed e =
        sym (take-take n (lexical old query).common_bits old (not_ltb→le _ n e))
        ∙ (ap (take n) common.2
            ∙ take-take n (lexical old query).common_bits query (not_ltb→le _ n e))

    joined :
        ltb (lexical old query).common_bits n ≡ false
        → lexical (take n old ++ frame.literal) query
          ≡ record (lexical frame.literal (drop n query)) {
            common_bits = (lexical frame.literal (drop n query)).common_bits + n;
          }
    joined e =
        ap₂ lexical (ap (λ t. t ++ frame.literal) (agreed e)) (take-drop n query)
        ∙ (lexical-append (take n query) frame.literal (drop n query)
            ∙ ap (λ k. record (lexical frame.literal (drop n query)) { common_bits = k })
                (omega (arith, length-take n query (n_le e))))
