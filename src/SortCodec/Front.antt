-- ===== src/SortCodec/Front.antt =====
-- sort_codec.h: keys that are coded by the previous key are read back, and comparisons carry over.
use everett.Base.{
  ℕ, ◌+◌, ◌-◌, ◌%◌, min, ◌≤◌, ◌≡◌, refl, sym, subst, ◌∙◌, ap, true, false, ◌||◌, [], ◌∷◌, ◌++◌,
  Option, append_assoc, ltb, ◌==◌, length, take, drop, length-take, length-drop, take-all,
  take-drop, ok, arith,
}
use everett.BitString.Fields.{Fits, append-Fits}
use everett.BitString.Codewords.{IsCode, codeword}
use everett.BitString.Order.{lexical}
use everett.BitString.CommonBytes.{compare_common_bits-lexical}
use everett.BitString.{Bits, max_u64, add, append, subview, BackspaceCode}
use everett.SortCodec.Reservoir.{Left}
use everett.SortCodec.Codes.{
  Encodes, Decodes, Encodes-bind, write_count-Encodes, read_count-Decodes, append-Encodes,
  take_bits-Decodes,
}
use everett.SortCodec.FrontCoding.{
  FcKeyFrame, size, prefix, read_frame, read_string_frame, write_front, previous_bits,
  write_fc_bits, read_fc_bits,
}
use everett.SortCodec.{SortBitReader, read_count, take_bits}

-- The bits that agree are there in both.
pub lexical-common :
    (a b : Bits)
    → let c = (lexical a b).common_bits in (c ≤ length a) × (c ≤ length b) × (take c a ≡ take c b)
unfolding lexical
lexical-common [] [] = (omega arith, omega arith, refl)
lexical-common [] (y ∷ b) = (omega arith, omega arith, refl)
lexical-common (x ∷ a) [] = (omega arith, omega arith, refl)
lexical-common (true ∷ a) (true ∷ b) =
    let (l, m, e) = lexical-common a b in (omega (arith, l), omega (arith, m), ap (λ t. true ∷ t) e)
lexical-common (false ∷ a) (false ∷ b) =
    let (l, m, e) = lexical-common a b in
    (omega (arith, l), omega (arith, m), ap (λ t. false ∷ t) e)
lexical-common (true ∷ a) (false ∷ b) = (omega arith, omega arith, refl)
lexical-common (false ∷ a) (true ∷ b) = (omega arith, omega arith, refl)

pub subview-rest :
    (bits : Bits) (n : ℕ) → n ≤ length bits → subview bits n (length bits - n) ≡ ok (drop n bits)
unfolding subview
subview-rest bits n h =
    rw (inside)
      (ap ok (take-all (length bits - n) (drop n bits) (omega (arith, length-drop n bits))))
  where
    inside : (ltb (length bits) n || ltb (length bits - n) (length bits - n)) ≡ false
    inside = ground (arith, h)

pub prefix_lem : (bits : Bits) (n : ℕ) → n ≤ length bits → prefix bits n ≡ ok (take n bits)
unfolding prefix subview
prefix_lem bits n h = rw (least, inside) refl
  where
    least : min n (length bits) ≡ n
    least = omega (arith, h)

    inside : (ltb (length bits) 0 || ltb (length bits - 0) n) ≡ false
    inside = ground (arith, h)

-- The code of a key after another one: the two counts, and what the other one does not have.
abbrev retained : (key old : Bits) → ℕ
retained key old = (lexical old key).common_bits

abbrev pub front_code : BackspaceCode → (key old : Bits) → Bits
front_code c key old =
    codeword c (length old - retained key old)
    ++ (codeword c (length key - retained key old) ++ drop (retained key old) key)

module _ (c : BackspaceCode) (is_code : IsCode c) (key old : Bits) (key_fits : Fits (length key))
    (old_fits : Fits (length old)) where
  abbrev kept_old : ℕ
  kept_old = retained key old

  abbrev literal : Bits
  literal = drop kept_old key

  abbrev code : Bits
  code = front_code c key old

  common :
      (kept_old ≤ length old) × (kept_old ≤ length key) × (take kept_old old ≡ take kept_old key)
  common = lexical-common old key

  pub write_front-Encodes : Encodes (λ out. write_front c out key old) code
  unfolding write_front
  write_front-Encodes =
      rw (compare_common_bits-lexical true old key, subview-rest key kept_old common.1)
        (Encodes-bind _ _ (codeword c (length old - kept_old))
          (codeword c (length key - kept_old) ++ literal)
          (write_count-Encodes c (length old - kept_old) is_code (omega (arith, old_fits)))
          (Encodes-bind _ _ (codeword c (length key - kept_old)) literal
            (write_count-Encodes c (length key - kept_old) is_code (omega (arith, key_fits)))
            (append-Encodes literal)))

  abbrev pub frame : FcKeyFrame
  frame = record { retained_bits = kept_old; literal = literal }

  whole : kept_old + length literal ≡ length key
  whole = omega (arith, length-drop kept_old key, common.1)

  abbrev pub kept : ℕ
  kept = length old - (length old - kept_old)

  kept_all : kept ≡ kept_old
  kept_all = omega (arith, common.0)

  -- The three parts of a key's code, in a reader.
  parts :
      (r : SortBitReader) (rest : Bits)
      → Left r (code ++ rest)
      → (s t end : SortBitReader) × (read_count c r ≡ ok (length old - kept_old, s))
        × (read_count c s ≡ ok (length key - kept_old, t))
        × (take_bits t (length key - kept_old) ≡ ok (literal, end))
        × Left end rest
  parts r rest l =
      let (s, e, l') =
        read_count-Decodes c (length old - kept_old) is_code (omega (arith, old_fits)) r
          ((codeword c (length key - kept_old) ++ literal) ++ rest)
          (subst (Left r)
            (append_assoc (codeword c (length old - kept_old))
              (codeword c (length key - kept_old) ++ literal) rest)
            l) in
      let (t, e', l'') =
        read_count-Decodes c (length key - kept_old) is_code (omega (arith, key_fits)) s
          (literal ++ rest)
          (subst (Left s) (append_assoc (codeword c (length key - kept_old)) literal rest) l') in
      let (end, e'', l3) = take_bits-Decodes literal t rest l'' in
      (s, t, end, e, e', ap (take_bits t) (sym (length-drop kept_old key)) ∙ e'', l3)

  added : add kept (length literal) ≡ ok (length key)
  unfolding add
  added = rw (inside) (ap ok (omega (arith, whole, kept_all)))
    where
      inside : ltb (max_u64 - kept) (length literal) ≡ false
      inside = ground (arith, whole, kept_all, key_fits)

  backspace_fits : ltb (length old) (length old - kept_old) ≡ false
  backspace_fits = ground arith

  pub read_frame-Decodes :
      Decodes
        (λ r. read_frame c r (length old))
        code
        (record { retained_bits = kept; literal = literal })
  unfolding read_frame
  read_frame-Decodes r rest l =
      let (s, t, end, e, e', e'', l') = parts r rest l in
      (end, rw (e, backspace_fits, e', e'', added) refl, l')

  pub read_string_frame-Decodes :
      (length key % 8 == 0) ≡ true
      → Decodes
          (λ r. read_string_frame c r (length old))
          code
          (record { retained_bits = kept; literal = literal })
  unfolding read_string_frame
  read_string_frame-Decodes bytes r rest l =
      let (s, t, end, e, e', e'', l') = parts r rest l in
      (end, rw (e, backspace_fits, e', e'', added, bytes) refl, l')

  pub prefix-kept : prefix old kept ≡ ok (take kept_old key)
  prefix-kept = ap (prefix old) kept_all ∙ (prefix_lem old kept_old common.0 ∙ ap ok common.2)

  pub rejoined : take kept_old key ++ literal ≡ key
  rejoined = sym (take-drop kept_old key)

  pub append-kept : append (take kept_old key) literal ≡ ok key
  append-kept =
      append-Fits (take kept_old key) literal
        (omega (arith, key_fits, whole, length-take kept_old key common.1))
      ∙ ap ok rejoined

  pub size-frame : size (record { retained_bits = kept; literal = literal }) ≡ ok (length key)
  unfolding size
  size-frame = added

pub write_fc_bits-Encodes :
    (c : BackspaceCode) (key : Bits) (previous : Option Bits)
    → IsCode c
    → Fits (length key)
    → Fits (length (previous_bits previous))
    → Encodes (λ out. write_fc_bits c out key previous) (front_code c key (previous_bits previous))
unfolding write_fc_bits
write_fc_bits-Encodes c key previous is_code key_fits old_fits =
    write_front-Encodes c is_code key (previous_bits previous) key_fits old_fits

pub read_fc_bits-Decodes :
    (c : BackspaceCode) (key : Bits) (previous : Option Bits)
    → IsCode c
    → Fits (length key)
    → Fits (length (previous_bits previous))
    → Decodes (λ r. read_fc_bits c r previous) (front_code c key (previous_bits previous)) key
unfolding read_fc_bits
read_fc_bits-Decodes c key previous is_code key_fits old_fits r rest l =
    let (s, e, l') = read_frame-Decodes c is_code key old key_fits old_fits r rest l in
    (
      s,
      rw
          (
            e,
            prefix-kept c is_code key old key_fits old_fits,
            append-kept c is_code key old key_fits old_fits,
          )
          refl,
      l',
    )
  where
    old : Bits
    old = previous_bits previous
