-- ===== src/BitString/Writing.antt =====
-- profile.h: `write_backspace` appends the codeword.
use everett.Base.{
  ℕ, ◌+◌, ◌-◌, ◌/◌, ◌%◌, ◌^◌, ◌≤◌, ◌<◌, ◌≡◌, refl, sym, ◌∙◌, ap, ap₂, inl, inr, true, [], ◌∷◌, ◌++◌,
  append-nil, append_assoc, length-append, Bool-cases, ◌==◌, ltb, length, IsU64, Result, ok, ◌>>=◌,
  arith,
}
use native.Mathlib.Nat.{div-le_self}
use everett.Width.{bit_width, width_le}
use everett.BitString.Fields.{
  zeros, length-zeros, zeros-add, length-field, resize-longer, put_fixed-middle, Fits, add-Fits,
}
use everett.BitString.Codewords.{
  IsCode, codeword, quotient_code, remainder_code, backspace_bits-codeword, field-zero, width_pos,
}
use everett.BitString.{
  Bits, max_u64, field, put_fixed, put_quotient, put_remainder, BackspaceCode, exponential_golomb,
  golomb, golomb_cutoff, put_code, write_backspace,
}

-- A field behind `j` of the zeros that it is written into.
put_fixed-zeros :
    (before after : Bits) (at j value width : ℕ)
    → at ≡ length before + j
    → width ≤ 64
    → put_fixed (before ++ (zeros (j + width) ++ after)) at value width
      ≡ ok (before ++ (zeros j ++ (field width value ++ after)), at + width)
put_fixed-zeros before after at j value width here le =
    ap (λ t. put_fixed t at value width)
      (rw
        (
          zeros-add j width,
          append_assoc,
          sym (append_assoc before (zeros j) (zeros width ++ after)),
        )
        refl)
    ∙ (put_fixed-middle (before ++ zeros j) (zeros width) after at value width
          (omega (arith, here, length-append before (zeros j), length-zeros j)) (length-zeros width)
          le
        ∙ ap (λ t. ok (t, at + width)) (append_assoc before (zeros j) (field width value ++ after)))

maximum_put :
    (target after : Bits)
    → (put_fixed (target ++ (zeros 129 ++ after)) (length target + 64) 1 1 >>= λ (t, a).
        put_fixed t a 0 64)
      ≡ ok (target ++ (zeros 64 ++ (true ∷ (zeros 64 ++ after))), length target + 129)
maximum_put target after =
    rw (one) (rw (regroup) (last ∙ ap₂ (λ t a. ok (t, a)) behind (omega arith)))
  where
    one :
        put_fixed (target ++ (zeros 129 ++ after)) (length target + 64) 1 1
        ≡ ok (target ++ (zeros 64 ++ (true ∷ (zeros 64 ++ after))), length target + 64 + 1)
    one =
        put_fixed-zeros target (zeros 64 ++ after) (length target + 64) 64 1 1 refl (omega arith)
        ∙ unfold field in refl

    before : Bits
    before = target ++ (zeros 64 ++ (true ∷ []))

    regroup : target ++ (zeros 64 ++ (true ∷ (zeros 64 ++ after))) ≡ before ++ (zeros 64 ++ after)
    regroup = sym (append_assoc target (zeros 64 ++ (true ∷ [])) (zeros 64 ++ after))

    last :
        put_fixed (before ++ (zeros 64 ++ after)) (length target + 64 + 1) 0 64
        ≡ ok (before ++ (field 64 0 ++ after), length target + 64 + 1 + 64)
    last =
        put_fixed-zeros before after (length target + 64 + 1) 0 0 64
          (omega (arith, length-append target (zeros 64 ++ (true ∷ [])))) (omega arith)

    behind : before ++ (field 64 0 ++ after) ≡ before ++ (zeros 64 ++ after)
    behind = ap (λ f. before ++ (f ++ after)) (field-zero 64)

ordinary_put :
    (target after : Bits) (c w : ℕ)
    → 0 < w
    → w ≤ 64
    → put_fixed
        (target ++ (zeros (length (zeros (w - 1) ++ field w c)) ++ after))
        (length target + (w - 1))
        c
        w
      ≡ ok (
        target ++ ((zeros (w - 1) ++ field w c) ++ after),
        length target + length (zeros (w - 1) ++ field w c),
      )
ordinary_put target after c w one le =
    ap (λ n. put_fixed (target ++ (zeros n ++ after)) (length target + (w - 1)) c w) size
    ∙ (put_fixed-zeros target after (length target + (w - 1)) (w - 1) c w refl le
        ∙ ap₂ (λ t a. ok (target ++ t, a)) (sym (append_assoc (zeros (w - 1)) (field w c) after))
            (omega (arith, size)))
  where
    size : length (zeros (w - 1) ++ field w c) ≡ w - 1 + w
    size =
        length-append (zeros (w - 1)) (field w c)
        ∙ omega (arith, length-zeros (w - 1), length-field w c)

put_quotient-code :
    (target after : Bits) (q : ℕ)
    → q ≤ max_u64
    → put_quotient (target ++ (zeros (length (quotient_code q)) ++ after)) (length target) q
      ≡ ok (target ++ (quotient_code q ++ after), length target + length (quotient_code q))
unfolding put_quotient quotient_code
put_quotient-code target after q h = elim (Bool-cases (q == max_u64)) [
  | inl e ↦ rw (e) (maximum_put target after)
  | inr n ↦ rw (n) (
      ordinary_put target after (q + 1) (bit_width (q + 1)) (width_pos q (ground (arith, h, n)))
        (width_le (q + 1) 64 (ground (arith, h, n))))
]

put_remainder-code :
    (before : Bits) (m r at : ℕ)
    → IsU64 m
    → at ≡ length before
    → put_remainder (before ++ zeros (length (remainder_code m r))) at m r
      ≡ ok (before ++ remainder_code m r, at + length (remainder_code m r))
unfolding put_remainder remainder_code
put_remainder-code before m r at h here = elim (Bool-cases (ltb r (golomb_cutoff m))) [
  | inl e ↦ rw (e) (whole (bit_width (m - 1) - 1) r (omega (arith, narrow)))
  | inr n ↦ rw (n) (whole (bit_width (m - 1)) (r + golomb_cutoff m) narrow)
]
  where
    narrow : bit_width (m - 1) ≤ 64
    narrow = width_le (m - 1) 64 (omega (arith, h))

    whole :
        (w value : ℕ)
        → w ≤ 64
        → put_fixed (before ++ zeros (length (field w value))) at value w
          ≡ ok (before ++ field w value, at + length (field w value))
    whole w value le =
        rw (length-field w value, sym (append-nil (zeros w)))
          (put_fixed-middle before (zeros w) [] at value w here (length-zeros w) le
            ∙ rw (append-nil) refl)

-- The codeword in the zeros that `resize` adds.
put_code-codeword :
    (code : BackspaceCode) (target : Bits) (v : ℕ)
    → IsCode code
    → IsU64 v
    → put_code code (target ++ zeros (length (codeword code v))) (length target) v
      ≡ ok (target ++ codeword code v)
unfolding put_code codeword
put_code-codeword (exponential_golomb order) target v c h =
    ap (λ t. put_quotient t (length target) q >>= finish) enough
    ∙ rw (put_quotient-code target (zeros order) q (omega (arith, h, div-le_self v (2 ^ order)))) (
        rw (regroup) (
          rw (last)
            (rw (append-nil) (ap ok (append_assoc target (quotient_code q) (field order v))))))
  where
    q : ℕ
    q = v / 2 ^ order

    finish : Bits × ℕ → Result Bits
    finish (t, a) = put_fixed t a v order >>= λ (t, _). ok t

    enough :
        target ++ zeros (length (quotient_code q ++ field order v))
        ≡ target ++ (zeros (length (quotient_code q)) ++ zeros order)
    enough =
        ap (λ t. target ++ t)
          (ap zeros (
              length-append (quotient_code q) (field order v) ∙ omega (arith, length-field order v))
            ∙ zeros-add (length (quotient_code q)) order)

    before : Bits
    before = target ++ quotient_code q

    regroup : target ++ (quotient_code q ++ zeros order) ≡ before ++ (zeros order ++ [])
    regroup = rw (append-nil) (sym (append_assoc target (quotient_code q) (zeros order)))

    last :
        put_fixed (before ++ (zeros order ++ [])) (length target + length (quotient_code q)) v order
        ≡ ok (before ++ (field order v ++ []), length target + length (quotient_code q) + order)
    last =
        put_fixed-middle before (zeros order) [] _ v order
          (sym (length-append target (quotient_code q))) (length-zeros order) (omega (arith, c))
put_code-codeword (golomb m) target v c h =
    ap
      (λ t. put_fixed t (length target + v / m) 1 1 >>= λ (t, a).
        put_remainder t a m (v % m) >>= finish)
      enough
    ∙ rw (one) (
        rw (regroup) (
          rw
            (put_remainder-code before m (v % m) (length target + v / m + 1) c.1
              (omega (arith, here)))
            (ap ok behind)))
  where
    q : ℕ
    q = v / m

    code : Bits
    code = remainder_code m (v % m)

    finish : Bits × ℕ → Result Bits
    finish (t, _) = ok t

    enough :
        target ++ zeros (length (zeros q ++ (true ∷ code)))
        ≡ target ++ (zeros (q + 1) ++ zeros (length code))
    enough =
        ap (λ t. target ++ t)
          (ap zeros (length-append (zeros q) (true ∷ code) ∙ omega (arith, length-zeros q))
            ∙ zeros-add (q + 1) (length code))

    one :
        put_fixed (target ++ (zeros (q + 1) ++ zeros (length code))) (length target + q) 1 1
        ≡ ok (target ++ (zeros q ++ (true ∷ zeros (length code))), length target + q + 1)
    one =
        put_fixed-zeros target (zeros (length code)) (length target + q) q 1 1 refl (omega arith)
        ∙ unfold field in refl

    before : Bits
    before = target ++ (zeros q ++ (true ∷ []))

    here : length before ≡ length target + q + 1
    here =
        length-append target (zeros q ++ (true ∷ []))
        ∙ omega (arith, length-append (zeros q) (true ∷ []), length-zeros q)

    behind : before ++ code ≡ target ++ (zeros q ++ (true ∷ code))
    behind =
        append_assoc target (zeros q ++ (true ∷ [])) code
        ∙ ap (λ t. target ++ t) (append_assoc (zeros q) (true ∷ []) code)

    regroup : target ++ (zeros q ++ (true ∷ zeros (length code))) ≡ before ++ zeros (length code)
    regroup =
        ap (λ t. target ++ t) (sym (append_assoc (zeros q) (true ∷ []) (zeros (length code))))
        ∙ sym (append_assoc target (zeros q ++ (true ∷ [])) (zeros (length code)))

-- A count is appended as its codeword, if there is room.
pub write_backspace-codeword :
    (code : BackspaceCode) (target : Bits) (v : ℕ)
    → IsCode code
    → IsU64 v
    → Fits (length target + length (codeword code v))
    → write_backspace code target v ≡ ok (target ++ codeword code v)
unfolding write_backspace
write_backspace-codeword code target v c h fits =
    rw
      (
        backspace_bits-codeword code v h (omega (arith, fits)),
        add-Fits (length target) (length (codeword code v)) fits,
        resize-longer target (length (codeword code v)) fits,
      )
      (put_code-codeword code target v c h)
