-- ===== src/BitString/Zeros.antt =====
-- profile.h: fields and runs of zeros, read by words, against the reading of bit after bit.
use everett.Base.{
  ℕ, zero, suc, ◌+◌, ◌-◌, min, ◌≤◌, ◌<◌, ◌≡◌, refl, sym, subst, ◌∙◌, ap, ap₂, true, false, not,
  ◌||◌, inl, inr, if◌then◌else◌, Bool-cases, ltb, leb, ◌==◌, ==_iff, leb→le, not_leb→lt, length,
  length-drop, length-take, drop-drop, drop-past, take, drop, ok, raise, require, invalid_argument,
  arith,
}
use everett.BitString.Plain.{take_field, take_run}
use everett.BitString.Agreement.{Agrees, refused, left, Agrees-require, Agrees-if}
use everett.BitString.Runs.{take_run-window, take_run-stop, seen_none, seen_before, leading_le}
use everett.BitString.{Bits, load_bits, leading_zeros, read_fixed, zero_run, read_zero_run}

-- An offset, and the bits from there on.
abbrev pub Behind : Bits → ℕ → Bits → Type 0
Behind bits at rest = (at ≤ length bits) × (rest ≡ drop at bits)

module _ (bits : Bits) where
  pub read_fixed-take :
      (at : ℕ) (rest : Bits) (w : ℕ)
      → Behind bits at rest
      → Agrees (Behind bits) (read_fixed bits at w) (take_field w rest)
  unfolding read_fixed take_field load_bits
  read_fixed-take at rest w (le, e) =
      subst (λ r. Agrees (Behind bits) (read_fixed bits at w) (take_field w r)) (sym e)
        (subst
          (λ b.
            Agrees (Behind bits) (require b invalid_argument (ok (load_bits bits at w, at + w)))
              (take_field w (drop at bits)))
          (sym same)
          (Agrees-require (Behind bits) _ _ _ _ λ enough.
            left _ _ _ (omega (arith, le, length-drop at bits, room enough), drop-drop at w bits)))
    where
      same :
          not (ltb 64 w || ltb (length bits) at || ltb (length bits - at) w)
          ≡ not (ltb 64 w || ltb (length (drop at bits)) w)
      same = ground (arith, le, length-drop at bits)

      room : not (ltb 64 w || ltb (length (drop at bits)) w) ≡ true → w ≤ length (drop at bits)
      room h = ground (arith, h)

  -- The leading zeros of the window at an offset.
  abbrev leading_at : ℕ → ℕ
  leading_at at = leading_zeros (take (min (length bits - at) 64) (drop at bits))

  run-window :
      (at limit seen : ℕ)
      → seen_before seen (take_run (drop at bits) (limit - seen)) ≡ (
          if ltb (limit - seen) (leading_at at)
          then raise invalid_argument
          else seen_before
              (seen + leading_at at)
              (take_run (drop (at + leading_at at) bits) (limit - (seen + leading_at at))))
  run-window at limit seen =
      take_run-window (min (length bits - at) 64) (drop at bits) limit seen
      ∙ rw (drop-drop at (leading_at at) bits) refl

  window_length :
      (at : ℕ)
      → length (take (min (length bits - at) 64) (drop at bits)) ≡ min (length bits - at) 64
  window_length at =
      length-take (min (length bits - at) 64) (drop at bits) (omega (arith, length-drop at bits))

  window_le : (at : ℕ) → leading_at at ≤ length bits - at
  window_le at =
      omega (arith, leading_le (take (min (length bits - at) 64) (drop at bits)), window_length at)

  shorter :
      (at : ℕ)
      → (leading_at at == min (length bits - at) 64) ≡ false
      → leading_at at < min (length bits - at) 64
  shorter at part =
      ground (
        arith,
        part,
        leading_le (take (min (length bits - at) 64) (drop at bits)),
        window_length at,
      )

  stop :
      (at seen limit : ℕ)
      → (leading_at at == min (length bits - at) 64) ≡ false
      → seen_before seen (take_run (drop (at + leading_at at) bits) limit)
        ≡ ok (seen, drop (at + leading_at at + 1) bits)
  stop at seen limit part =
      ap (λ r. seen_before seen (take_run r limit)) (sym (drop-drop at (leading_at at) bits))
      ∙ (take_run-stop (min (length bits - at) 64) (drop at bits) limit seen
            (omega (arith, shorter at part, window_length at))
          ∙ ap (λ r. ok (seen, r))
              (drop-drop at (suc (leading_at at)) bits ∙ ap (λ n. drop n bits) (omega arith)))

  zero_run-take :
      (fuel at limit seen : ℕ)
      → at ≤ length bits
      → length bits - at < fuel
      → Agrees
          (Behind bits)
          (zero_run fuel bits at limit seen)
          (seen_before seen (take_run (drop at bits) (limit - seen)))
  unfolding zero_run
  zero_run-take zero at limit seen le fuel_enough = absurd (omega (arith, fuel_enough))
  zero_run-take (suc fuel) at limit seen le enough = elim (Bool-cases (leb (length bits) at)) [
    | inl e ↦
        rw (e, drop-past at bits (leb→le (length bits) at e))
          (unfold take_run in refused invalid_argument)
    | inr inside ↦
        rw (inside, run-window at limit seen)
          (Agrees-if (Behind bits) (ltb (limit - seen) (leading_at at)) _ _ _ _
            (λ _. refused invalid_argument)
            λ _. elim (Bool-cases (leading_at at == min (length bits - at) 64)) [
              | inl whole ↦ rw (whole) (
                  zero_run-take fuel (at + leading_at at) limit (seen + leading_at at)
                    (omega (arith, le, window_le at))
                    (omega (
                      arith,
                      enough,
                      le,
                      not_leb→lt (length bits) at inside,
                      (==_iff (leading_at at) (min (length bits - at) 64)).0 whole,
                    )))
              | inr part ↦ rw (part) (
                  subst (Agrees (Behind bits) (ok (seen + leading_at at, at + leading_at at + 1)))
                    (sym (stop at (seen + leading_at at) (limit - (seen + leading_at at)) part))
                    (left _ _ _ (omega (arith, le, window_le at, shorter at part), refl)))
            ])
  ]

  pub read_zero_run-take :
      (at : ℕ) (rest : Bits) (limit : ℕ)
      → Behind bits at rest
      → Agrees (Behind bits) (read_zero_run bits at limit) (take_run rest limit)
  unfolding read_zero_run
  read_zero_run-take at rest limit (le, e) =
      subst (Agrees (Behind bits) (zero_run (suc (length bits)) bits at limit 0))
        (sym (seen_none (take_run (drop at bits) (limit - 0))) ∙ ap₂ take_run (sym e) (omega arith))
        (zero_run-take (suc (length bits)) at limit 0 le (omega arith))
