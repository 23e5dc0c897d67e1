-- ===== src/Rank15/Horizontal.antt =====
-- rank15.h: the horizontal sum of the bytes of a word.
use everett.Base.{ℕ, suc, ◌+◌, ◌*◌, ◌/◌, ◌%◌, ◌^◌, ◌≤◌, ◌≡◌, refl, subst, ◌∙◌, ap, ap₂, arith}
use everett.Rank15.{even_bytes, sum_bytes}
use everett.Rank15.Lanes.{Lanes}

even_step :
    (k a b r : ℕ)
    → a ≤ 240
    → b ≤ 240
    → even_bytes (suc k) (a + 256 * (b + 256 * r)) ≡ a + 65536 * even_bytes k r
unfolding even_bytes
even_step k a b r la lb = omega (arith, low, ap (even_bytes k) high)
  where
    low : (a + 256 * (b + 256 * r)) % 256 ≡ a
    low = omega (arith, la)

    high : (a + 256 * (b + 256 * r)) / 65536 ≡ r
    high = omega (arith, la, lb)

-- Four even lanes in their places.
even_four :
    (a b c d e f g h : ℕ)
    → a ≤ 240
    → b ≤ 240
    → c ≤ 240
    → d ≤ 240
    → e ≤ 240
    → f ≤ 240
    → g ≤ 240
    → h ≤ 240
    → even_bytes 4 (
        a
        + 256
          * (b + 256 * (c + 256 * (d + 256 * (e + 256 * (f + 256 * (g + 256 * (h + 256 * 0))))))))
      ≡ a + 65536 * (c + 65536 * (e + 65536 * g))
even_four a b c d e f g h la lb lc ld le lf lg lh = omega (
  arith,
  even_step 3 a b _ la lb,
  even_step 2 c d _ lc ld,
  even_step 1 e f _ le lf,
  even_step 0 g h 0 lg lh,
  none,
)
  where
    none : even_bytes 0 0 ≡ 0
    none = unfold even_bytes in refl

-- The multiplication adds the four lanes of 16 bits in the highest.
horizontal :
    (p q r t : ℕ)
    → p ≤ 480
    → q ≤ 480
    → r ≤ 480
    → t ≤ 480
    → (p + 65536 * (q + 65536 * (r + 65536 * t))) * 0x0001000100010001 % 2 ^ 64 / 2 ^ 48
      ≡ p + q + r + t
horizontal p q r t lp lq lr lt = omega (arith, lp, lq, lr, lt)

lanes_sum :
    (a b c d e f g h : ℕ)
    → a ≤ 240
    → b ≤ 240
    → c ≤ 240
    → d ≤ 240
    → e ≤ 240
    → f ≤ 240
    → g ≤ 240
    → h ≤ 240
    → sum_bytes (
        a
        + 256
          * (b + 256 * (c + 256 * (d + 256 * (e + 256 * (f + 256 * (g + 256 * (h + 256 * 0))))))))
      ≡ a + b + c + d + e + f + g + h
unfolding sum_bytes
lanes_sum a b c d e f g h la lb lc ld le lf lg lh =
    ap₂ (λ x y. (x + y) * 0x0001000100010001 % 2 ^ 64 / 2 ^ 48)
      (even_four a b c d e f g h la lb lc ld le lf lg lh)
      (ap (even_bytes 4) shifted ∙ even_four b c d e f g h 0 lb lc ld le lf lg lh (omega arith))
    ∙ lanes _ _ (omega arith)
  where
    shifted :
        (a
            + 256
              * (b
                  + 256
                    * (c + 256 * (d + 256 * (e + 256 * (f + 256 * (g + 256 * (h + 256 * 0))))))))
          / 256
        ≡ b
          + 256
            * (c + 256 * (d + 256 * (e + 256 * (f + 256 * (g + 256 * (h + 256 * (0 + 256 * 0)))))))
    shifted = omega (arith, la)

    lanes :
        (x y : ℕ)
        → x + y ≡ (a + b) + 65536 * ((c + d) + 65536 * ((e + f) + 65536 * (g + h)))
        → (x + y) * 0x0001000100010001 % 2 ^ 64 / 2 ^ 48 ≡ a + b + c + d + e + f + g + h
    lanes x y e' =
        ap (λ n. n * 0x0001000100010001 % 2 ^ 64 / 2 ^ 48) e'
        ∙ (horizontal (a + b) (c + d) (e + f) (g + h) (omega (arith, la, lb))
              (omega (arith, lc, ld)) (omega (arith, le, lf)) (omega (arith, lg, lh))
            ∙ omega arith)

pub sum_bytes-Lanes : (value s : ℕ) → Lanes 8 240 value s → sum_bytes value ≡ s
sum_bytes-Lanes value s all =
    let (a, (ra, (sa, (la, va, ea, p1)))) = all in
    let (b, (rb, (sb, (lb, vb, eb, p2)))) = p1 in
    let (c, (rc, (sc, (lc, vc, ec, p3)))) = p2 in
    let (d, (rd, (sd, (ld, vd, ed, p4)))) = p3 in
    let (e, (re, (se, (le, ve, ee, p5)))) = p4 in
    let (f, (rf, (sf, (lf, vf, ef, p6)))) = p5 in
    let (g, (rg, (sg, (lg, vg, eg, p7)))) = p6 in
    let (h, (rh, (sh, (lh, vh, eh, p8)))) = p7 in
    let (v, z) = p8 in
    subst (λ n. sum_bytes n ≡ s) (omega (arith, va, vb, vc, vd, ve, vf, vg, vh, v))
      (lanes_sum a b c d e f g h la lb lc ld le lf lg lh
        ∙ omega (arith, ea, eb, ec, ed, ee, ef, eg, eh, z))
