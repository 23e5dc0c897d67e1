-- ===== src/BitString/CommonBytes.antt =====
-- profile.h and key_detail.h: the comparison of strings that start at a byte skips their common bytes.
use Prim.Native.Nat.{Ordering}
use everett.Base.{
  ℕ, zero, suc, ◌+◌, ◌-◌, ◌*◌, ◌/◌, ◌≤◌, ◌<◌, ◌≡◌, ◌≢◌, refl, sym, subst, ◌∙◌, ap, inl, inr, Bool,
  true, false, not, ◌&&◌, [], ◌∷◌, if◌then◌else◌, Bool-cases, leb, leb→le, ◌==◌, ==_iff, length,
  take, drop, take-take, drop-drop, drop-take, arith,
}
use everett.BitString.Order.{lexical, bits_value_inj}
use everett.BitString.Agreed.{take-different, different_lt, part-different}
use everett.BitString.Comparing.{
  both, Agreed, further, further_by_value, difference-lexical, compare_loop-lexical, sizes,
  window_a,
}
use everett.BitString.Compare.{
  different, agreement, bytes_loop, words_loop, common_bytes, compare_loop, compare_common_bits,
}
use everett.BitString.{Bits, bits_value, load_bits, leading_zeros}

pub unequal : (x y : ℕ) → (x == y) ≡ false → x ≢ y
unequal x y e eq = absurd (ground (arith, e, eq))

module _ (a b : Bits) where
  -- Some bytes agree, and either they are all or the next ones do not.
  abbrev pub IsCommon : (count n : ℕ) → Type 0
  IsCommon count n =
      (n ≤ count) × Agreed a b (8 * n) × (n < count → load_bits a (8 * n) 8 ≢ load_bits b (8 * n) 8)

  moved : (m n : ℕ) → m ≡ n → Agreed a b m → Agreed a b n
  moved m n e g = subst (Agreed a b) e g

  bytes_loop-IsCommon :
      (fuel at count : ℕ)
      → 8 * count ≤ both a b
      → count - at ≤ fuel
      → at ≤ count
      → Agreed a b (8 * at)
      → IsCommon count (bytes_loop fuel a b at count)
  unfolding bytes_loop
  bytes_loop-IsCommon zero at count fits enough le g =
      (le, g, λ less. absurd (omega (arith, less, enough)))
  bytes_loop-IsCommon (suc fuel) at count fits enough le g = elim (Bool-cases (at == count)) [
    | inl e ↦ rw (e) (le, g, λ less. absurd (omega (arith, less, (==_iff at count).0 e)))
    | inr n ↦ rw (n) (elim (Bool-cases (load_bits a (8 * at) 8 == load_bits b (8 * at) 8)) [
      | inl e ↦ rw (e) (
          bytes_loop-IsCommon fuel (at + 1) count fits (omega (arith, enough))
            (ground (arith, le, n))
            (moved (8 * at + 8) (8 * (at + 1)) (omega arith)
              (further_by_value a b (8 * at) 8 g (ground (arith, fits, le, n)) e)))
      | inr e ↦ rw (e) (le, g, λ _. unequal _ _ e)
    ])
  ]

  -- The bytes of a word before the one with the first difference.
  word-IsCommon :
      (at count : ℕ)
      → 8 * count ≤ both a b
      → at + 8 ≤ count
      → Agreed a b (8 * at)
      → load_bits a (8 * at) 64 ≢ load_bits b (8 * at) 64
      → IsCommon count (at + agreement a b (8 * at) 64 / 8)
  unfolding agreement load_bits
  word-IsCommon at count fits le g n = (
    omega (arith, le, inside),
    moved (8 * at + 8 * (lead / 8)) (8 * (at + lead / 8)) (omega arith)
        (further a b (8 * at) (8 * (lead / 8)) g (omega (arith, fits, le, inside)) before),
    λ _ e. differs (
        byte a
        ∙ (bits_value_inj _ _ (sizes a b (8 * (at + lead / 8)) 8 (omega (arith, fits, le, inside)))
              e
            ∙ sym (byte b))),
  )
    where
      xs : Bits
      xs = take 64 (drop (8 * at) a)

      ys : Bits
      ys = take 64 (drop (8 * at) b)

      lead : ℕ
      lead = leading_zeros (different xs ys)

      same : length xs ≡ length ys
      same = sizes a b (8 * at) 64 (omega (arith, fits, le))

      inside : lead < 64
      inside = omega (
        arith,
        different_lt xs ys same (λ e. n (ap bits_value e)),
        window_a a b (8 * at) 64 (omega (arith, fits, le)),
      )

      before : take (8 * (lead / 8)) (drop (8 * at) a) ≡ take (8 * (lead / 8)) (drop (8 * at) b)
      before =
          sym (take-take (8 * (lead / 8)) 64 (drop (8 * at) a) (omega (arith, inside)))
          ∙ (take-different (8 * (lead / 8)) xs ys same (omega arith)
              ∙ take-take (8 * (lead / 8)) 64 (drop (8 * at) b) (omega (arith, inside)))

      differs : take 8 (drop (8 * (lead / 8)) xs) ≢ take 8 (drop (8 * (lead / 8)) ys)
      differs =
          part-different (8 * (lead / 8)) 8 xs ys same (omega arith) (omega arith)
            (omega (arith, inside, window_a a b (8 * at) 64 (omega (arith, fits, le))))

      -- A byte of the word is one of the string.
      byte :
          (bits : Bits)
          → take 8 (drop (8 * (lead / 8)) (take 64 (drop (8 * at) bits)))
            ≡ take 8 (drop (8 * (at + lead / 8)) bits)
      byte bits =
          ap (take 8) (drop-take (8 * (lead / 8)) 64 (drop (8 * at) bits))
          ∙ (take-take 8 (64 - 8 * (lead / 8)) (drop (8 * (lead / 8)) (drop (8 * at) bits))
                (omega (arith, inside))
              ∙ ap (take 8) (
                  drop-drop (8 * at) (8 * (lead / 8)) bits
                  ∙ ap (λ m. drop m bits) {x = 8 * at + 8 * (lead / 8)} {y = 8 * (at + lead / 8)}
                      (omega arith)))

  words_loop-IsCommon :
      (fuel at count : ℕ)
      → 8 * count ≤ both a b
      → at ≤ count
      → Agreed a b (8 * at)
      → IsCommon count (words_loop fuel a b at count)
  unfolding words_loop
  words_loop-IsCommon zero at count fits le g =
      bytes_loop-IsCommon count at count fits (omega arith) le g
  words_loop-IsCommon (suc fuel) at count fits le g = elim (Bool-cases (leb 8 (count - at))) [
    | inr e ↦ rw (e) (bytes_loop-IsCommon count at count fits (omega arith) le g)
    | inl e ↦ rw (e) (elim (Bool-cases (load_bits a (8 * at) 64 == load_bits b (8 * at) 64)) [
      | inl w ↦ rw (w) (
          words_loop-IsCommon fuel (at + 8) count fits (omega (arith, leb→le 8 (count - at) e, le))
            (moved (8 * at + 64) (8 * (at + 8)) (omega arith) (
              further_by_value a b (8 * at) 64 g (omega (arith, fits, leb→le 8 (count - at) e, le))
                w)))
      | inr w ↦ rw (w) (
          word-IsCommon at count fits (omega (arith, leb→le 8 (count - at) e, le)) g
            (unequal _ _ w))
    ])
  ]

  none-Agreed : Agreed a b 0
  none-Agreed = (omega arith, refl)

  common_bytes-IsCommon :
      (count : ℕ) → 8 * count ≤ both a b → IsCommon count (common_bytes a b count)
  unfolding common_bytes
  common_bytes-IsCommon count fits =
      words_loop-IsCommon count 0 count fits (omega arith) none-Agreed

  -- Behind the whole bytes that agree.
  compare_rest :
      (at : ℕ) → Agreed a b at → compare_loop (suc (both a b)) a b at (both a b) ≡ lexical a b
  compare_rest at g = compare_loop-lexical a b (suc (both a b)) at (omega arith) g

-- The first bits differ.
first_differs :
    (a b : Bits)
    → (both a b == 0) ≡ false
    → (load_bits a 0 1 == load_bits b 0 1) ≡ false
    → record { common_bits = 0; order = if load_bits a 0 1 == 1 then Ordering.gt else Ordering.lt }
      ≡ lexical a b
unfolding lexical load_bits bits_value
first_differs [] b some n = absurd (ground (arith, some))
first_differs (x ∷ a) [] some n = absurd (ground (arith, some))
first_differs (true ∷ a) (true ∷ b) some n = absurd (cc (n))
first_differs (false ∷ a) (false ∷ b) some n = absurd (cc (n))
first_differs (true ∷ a) (false ∷ b) some n = refl
first_differs (false ∷ a) (true ∷ b) some n = refl

-- Whether both strings start at a byte or not, their comparison by bytes and words gives the length
-- of their common prefix, and their lexical order.
pub compare_common_bits-lexical :
    (aligned : Bool) (a b : Bits) → compare_common_bits aligned a b ≡ lexical a b
unfolding compare_common_bits
compare_common_bits-lexical aligned a b =
    elim (Bool-cases (not (both a b == 0) && not (load_bits a 0 1 == load_bits b 0 1))) [
      | inl e ↦ rw (e) (first_differs a b (ground (arith, e)) (ground (arith, e)))
      | inr same ↦ rw (same) (elim (Bool-cases (aligned && leb 8 (both a b))) [
        | inr e ↦ rw (e) (compare_rest a b 0 (none-Agreed a b))
        | inl e ↦ rw (e) (elim (Bool-cases (leb 8 (both a b - at))) [
          | inr f ↦ rw (f) (compare_rest a b at common.1)
          | inl f ↦ rw (f) (
              difference-lexical a b at 8 common.1 (omega (arith, leb→le 8 (both a b - at) f))
                (common.2 (omega (arith, leb→le 8 (both a b - at) f))))
        ])
      ])
    ]
  where
    at : ℕ
    at = 8 * common_bytes a b (both a b / 8)

    common : IsCommon a b (both a b / 8) (common_bytes a b (both a b / 8))
    common = common_bytes-IsCommon a b (both a b / 8) (omega arith)
