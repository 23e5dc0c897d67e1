-- ===== src/SortCodec/Fields.antt =====
-- sort_codec.h: the reads of fields and payloads agree with reads from the front of what is left.
use everett.Base.{
  ℕ, ◌+◌, ◌-◌, ◌*◌, ◌%◌, ◌^◌, ◌≤◌, ◌<◌, ◌≡◌, sym, subst, ◌∙◌, ap, ap₂, inl, inr, true, not, ◌||◌,
  Bool-cases, ltb, leb, ◌==◌, ==_iff, leb→le, not_leb→lt, length, take, drop, length-take,
  length-drop, take-take, take-add, drop-drop, ok, require, invalid_argument, arith,
}
use everett.BitString.Fields.{bits_value-append}
use everett.BitString.Plain.{take_field}
use everett.BitString.Agreement.{Agrees, left, Agrees-require}
use everett.BitString.{Bits, bits_value}
use everett.SortCodec.Reservoir.{
  Left, remaining-Left, refill-Left, consume-Left, skip-Left, filled-Left,
}
use everett.SortCodec.{
  SortBitReader, remaining, cached, refill, consume, filled, read_bits, take_bits, skip_bits,
}

module _ (r : SortBitReader) (rest : Bits) (l : Left r rest) where
  abbrev f : SortBitReader
  f = filled r

  abbrev g : SortBitReader
  g = refill (consume f (cached f))

  l_f : Left f rest
  l_f = (filled-Left r rest l).0

  -- A field in the reservoir.
  direct : (w : ℕ) → w ≤ cached f → bits_value (take w f.reservoir) ≡ bits_value (take w rest)
  direct w h = ap bits_value (ap (take w) l_f.kept ∙ take-take w (cached f) rest h)

  -- One refill has the second fragment, since the first ends at a byte.
  second :
      (w : ℕ)
      → w ≤ 64
      → w ≤ length rest
      → 0 < w
      → cached f < w
      → Left g (drop (cached f) rest) × (w - cached f ≤ cached g)
  second w le enough some more =
      let (l', size) =
        refill-Left (consume f (cached f)) (drop (cached f) rest)
          (consume-Left f rest (cached f) l_f (omega arith)) in
      (l', omega (arith, size, length-drop (cached f) rest, whole, le, enough))
    where
      place : (consume f (cached f)).offset + (consume f (cached f)).at ≡ f.offset + f.at + cached f
      place = unfold consume in omega arith

      whole : ((consume f (cached f)).offset + (consume f (cached f)).at) % 8 ≡ 0
      whole =
          ap (λ n. n % 8) place
          ∙ l_f.aligned ((filled-Left r rest l).1 (omega (arith, enough, some)))
              (omega (arith, enough, more))

  split_field :
      (w : ℕ)
      → w ≤ 64
      → w ≤ length rest
      → 0 < w
      → cached f < w
      → bits_value f.reservoir * 2 ^ (w - cached f) + bits_value (take (w - cached f) g.reservoir)
        ≡ bits_value (take w rest)
  split_field w le enough some more =
      ap₂ (λ a b. bits_value a * 2 ^ (w - c) + bits_value b) l_f.kept back
      ∙ (ap (λ n. bits_value (take c rest) * 2 ^ n + bits_value (take (w - c) (drop c rest)))
            (sym size)
          ∙ (sym (bits_value-append (take c rest) (take (w - c) (drop c rest)))
              ∙ ap bits_value
                  (sym (take-add c (w - c) rest) ∙ ap (λ n. take n rest) (omega (arith, more)))))
    where
      c : ℕ
      c = cached f

      back : take (w - c) g.reservoir ≡ take (w - c) (drop c rest)
      back =
          ap (take (w - c)) (second w le enough some more).0.kept
          ∙ take-take (w - c) (cached g) (drop c rest) (second w le enough some more).1

      size : length (take (w - c) (drop c rest)) ≡ w - c
      size = length-take (w - c) (drop c rest) (omega (arith, enough, length-drop c rest))

  room : (w : ℕ) → not (ltb 64 w || ltb (remaining r) w) ≡ true → w ≤ length rest
  room w enough = ground (arith, enough, remaining-Left r rest l)

  second_part :
      (w : ℕ)
      → not (ltb 64 w || ltb (remaining r) w) ≡ true
      → 0 < w
      → cached f < w
      → Left (consume g (w - cached f)) (drop w rest)
  second_part w enough some more =
      let (l', le) = second w (ground (arith, enough)) (room w enough) some more in
      subst (Left (consume g (w - cached f)))
        (drop-drop (cached f) (w - cached f) rest ∙ ap (λ n. drop n rest) (omega (arith, more)))
        (consume-Left g (drop (cached f) rest) (w - cached f) l' le)

  pub read_bits-take : (w : ℕ) → Agrees Left (read_bits r w) (take_field w rest)
  unfolding read_bits take_field
  read_bits-take w =
      subst
        (λ n. Agrees Left (read_bits r w) (
          require (not (ltb 64 w || ltb n w)) invalid_argument
            (ok (bits_value (take w rest), drop w rest))))
        (remaining-Left r rest l)
        (Agrees-require Left (not (ltb 64 w || ltb (remaining r) w)) invalid_argument _ _ λ enough.
          elim (Bool-cases (w == 0)) [
            | inl e ↦ rw (e) (
                subst (λ n. Agrees Left (ok (0, r)) (ok (bits_value (take n rest), drop n rest)))
                  (sym ((==_iff w 0).0 e)) (unfold bits_value in left 0 r rest l))
            | inr n ↦ rw (n) (elim (Bool-cases (leb w (cached f))) [
              | inl e ↦
                  rw (e, direct w (leb→le w (cached f) e))
                    (left _ _ _ (consume-Left f rest w l_f (leb→le w (cached f) e)))
              | inr e ↦
                  rw
                    (
                      e,
                      split_field w (ground (arith, enough)) (room w enough) (ground (arith, n))
                          (not_leb→lt w (cached f) e),
                    )
                    (left _ _ _
                      (second_part w enough (ground (arith, n)) (not_leb→lt w (cached f) e)))
            ])
          ])

  pub take_bits-take :
      (n : ℕ)
      → Agrees Left
          (take_bits r n)
          (require (not (ltb (length rest) n)) invalid_argument (ok (take n rest, drop n rest)))
  unfolding take_bits
  take_bits-take n =
      rw (remaining-Left r rest l, sym l.behind)
        (Agrees-require Left (not (ltb (length rest) n)) invalid_argument _ _
          λ enough. left _ _ _ (skip-Left r rest n l (ground (arith, enough))))

  pub skip_bits-take :
      (n : ℕ)
      → Agrees Left
          (skip_bits r n)
          (require (not (ltb (length rest) n)) invalid_argument (ok (tt, drop n rest)))
  unfolding skip_bits
  skip_bits-take n = rw (remaining-Left r rest l) (
      Agrees-require Left (not (ltb (length rest) n)) invalid_argument _ _
        λ enough. left _ _ _ (skip-Left r rest n l (ground (arith, enough))))
