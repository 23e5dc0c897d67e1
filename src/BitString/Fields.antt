-- ===== src/BitString/Fields.antt =====
-- profile.h: fields of bits and the numbers they spell, and stores into what `resize` adds.
use native.Mathlib.Nat.{two-pow-succ, div-add-mod, add-mul-mod_self_left, mod-eq_of_lt, mod-lt}
use everett.Base.{
  ℕ, zero, suc, ◌+◌, ◌-◌, ◌*◌, ◌/◌, ◌%◌, ◌^◌, ◌≤◌, ◌<◌, ◌≡◌, refl, sym, subst, ◌∙◌, ap, inl, inr,
  Bool, true, false, ◌||◌, [], ◌∷◌, ◌++◌, append-nil, length-append, if◌then◌else◌, Bool-cases,
  ◌==◌, ==_iff, ltb, length, ok, arith,
}
use everett.Width.{pow_pos, pow_add}
use everett.BitString.{
  Bits, max_u64, bits_value, field, store, pad, resize, copy_into, add, append, put_fixed,
}

pub length-field : (w v : ℕ) → length (field w v) ≡ w
unfolding field
length-field zero v = refl
length-field (suc w) v = omega (arith, length-field w v)

by_halves : (p q : ℕ) → p * q ≡ q % 2 * p + (p + p) * (q / 2)
by_halves p q = omega (arith, ap (λ t. p * t) (halves q))
  where
    halves : (n : ℕ) → n ≡ n / 2 + n / 2 + n % 2
    halves n = omega arith

lowest : (p q r : ℕ) → r < p → q % 2 * p + r < p + p
lowest p q r h = grind (arith)

-- The remainder by a power of two, by its highest bit.
mod_pow : (v w : ℕ) → v % 2 ^ suc w ≡ v / 2 ^ w % 2 * 2 ^ w + v % 2 ^ w
mod_pow v w =
    ap (λ n. n % 2 ^ suc w) parts
    ∙ (add-mul-mod_self_left (v / 2 ^ w % 2 * 2 ^ w + v % 2 ^ w) (2 ^ suc w) (v / 2 ^ w / 2)
        ∙ mod-eq_of_lt small)
  where
    split : v ≡ 2 ^ w * (v / 2 ^ w) + v % 2 ^ w
    split = sym (div-add-mod v (2 ^ w))

    halves : 2 ^ w * (v / 2 ^ w) ≡ v / 2 ^ w % 2 * 2 ^ w + 2 ^ suc w * (v / 2 ^ w / 2)
    halves =
        by_halves (2 ^ w) (v / 2 ^ w)
        ∙ ap (λ n. v / 2 ^ w % 2 * 2 ^ w + n * (v / 2 ^ w / 2)) (sym (two-pow-succ w))

    parts : v ≡ v / 2 ^ w % 2 * 2 ^ w + v % 2 ^ w + 2 ^ suc w * (v / 2 ^ w / 2)
    parts = omega (arith, split, halves)

    small : v / 2 ^ w % 2 * 2 ^ w + v % 2 ^ w < 2 ^ suc w
    small =
        subst (λ n. v / 2 ^ w % 2 * 2 ^ w + v % 2 ^ w < n) (sym (two-pow-succ w))
          (lowest (2 ^ w) (v / 2 ^ w) (v % 2 ^ w) (mod-lt v (pow_pos w)))

even : (n : ℕ) → (n % 2 == 1) ≡ false → n % 2 ≡ 0
even n e = ground (arith, e)

pub bits_value-field : (w v : ℕ) → bits_value (field w v) ≡ v % 2 ^ w
unfolding field bits_value
bits_value-field zero v = omega arith
bits_value-field (suc w) v = omega (arith, highest, bits_value-field w v, mod_pow v w)
  where
    highest : (if v / 2 ^ w % 2 == 1 then 2 ^ length (field w v) else 0) ≡ v / 2 ^ w % 2 * 2 ^ w
    highest = elim (Bool-cases (v / 2 ^ w % 2 == 1)) [
      | inl e ↦ rw (e, length-field w v, (==_iff (v / 2 ^ w % 2) 1).0 e) (omega arith)
      | inr n ↦ rw (n) (omega (arith, even (v / 2 ^ w) n, ap (λ k. k * 2 ^ w) (even (v / 2 ^ w) n)))
    ]

pub bits_value_lt : (bits : Bits) → bits_value bits < 2 ^ length bits
unfolding bits_value
bits_value_lt [] = omega arith
bits_value_lt (b ∷ bits) =
    subst (λ n. bits_value (b ∷ bits) < n) (sym (two-pow-succ (length bits)))
      (one_more b (bits_value_lt bits))
  where
    one_more :
        (b : Bool)
        → bits_value bits < 2 ^ length bits
        → bits_value (b ∷ bits) < 2 ^ length bits + 2 ^ length bits
    one_more true h = omega (arith, h)
    one_more false h = omega (arith, h)

pub bits_value-append :
    (xs ys : Bits) → bits_value (xs ++ ys) ≡ bits_value xs * 2 ^ length ys + bits_value ys
unfolding bits_value
bits_value-append [] ys = omega arith
bits_value-append (true ∷ xs) ys = omega (
  arith,
  bits_value-append xs ys,
  ap (λ n. 2 ^ n) (length-append xs ys),
  pow_add (length xs) (length ys),
)
bits_value-append (false ∷ xs) ys = omega (arith, bits_value-append xs ys)

abbrev pub zeros : ℕ → Bits
zeros zero = []
zeros (suc n) = false ∷ zeros n

pub length-zeros : (n : ℕ) → length (zeros n) ≡ n
length-zeros zero = refl
length-zeros (suc n) = omega (arith, length-zeros n)

pub zeros-add : (m n : ℕ) → zeros (m + n) ≡ zeros m ++ zeros n
zeros-add zero n = ap zeros (omega arith)
zeros-add (suc m) n =
    ap zeros {x = suc m + n} {y = suc (m + n)} (omega arith) ∙ ap (λ t. false ∷ t) (zeros-add m n)

pub pad-longer : (bits : Bits) (n : ℕ) → pad (length bits + n) bits ≡ bits ++ zeros n
unfolding pad
pad-longer [] n = ap (λ k. pad k []) {x = 0 + n} {y = n} (omega arith) ∙ blank n
  where
    blank : (n : ℕ) → pad n [] ≡ zeros n
    blank zero = refl
    blank (suc n) = ap (λ t. false ∷ t) (blank n)
pad-longer (b ∷ bits) n =
    ap (λ k. pad k (b ∷ bits)) {x = suc (length bits) + n} {y = suc (length bits + n)} (omega arith)
    ∙ ap (λ t. b ∷ t) (pad-longer bits n)

-- A store of as many bits as stand between what is before and behind it.
pub store-middle :
    (before old new after : Bits)
    → length old ≡ length new
    → store (before ++ (old ++ after)) (length before) new ≡ before ++ (new ++ after)
unfolding store
store-middle [] [] [] [] h = refl
store-middle [] [] [] (x ∷ after) h = refl
store-middle [] [] (y ∷ new) after h = absurd (omega (arith, h))
store-middle [] (x ∷ old) [] after h = absurd (omega (arith, h))
store-middle [] (x ∷ old) (y ∷ new) after h =
    ap (λ t. y ∷ t) (store-middle [] old new after (omega (arith, h)))
store-middle (x ∷ before) old new after h = ap (λ t. x ∷ t) (store-middle before old new after h)

-- There is room for the bits.
abbrev pub Fits : ℕ → Type 0
Fits n = n ≤ 2 ^ 64 - 8

pub resize-longer :
    (bits : Bits) (n : ℕ)
    → Fits (length bits + n)
    → resize bits (length bits + n) ≡ ok (bits ++ zeros n)
unfolding resize
resize-longer bits n h = rw (inside) (ap ok (pad-longer bits n))
  where
    inside : ltb (max_u64 - 7) (length bits + n) ≡ false
    inside = ground (arith, h)

pub add-Fits : (a b : ℕ) → Fits (a + b) → add a b ≡ ok (a + b)
unfolding add
add-Fits a b h = rw (inside) refl
  where
    inside : ltb (max_u64 - a) b ≡ false
    inside = ground (arith, h)

copy_into-middle :
    (before old after source : Bits)
    → length old ≡ length source
    → copy_into (before ++ (old ++ after)) (length before) source ≡ ok (before ++ (source ++ after))
unfolding copy_into
copy_into-middle before old after source h =
    rw (inside) (ap ok (store-middle before old source after h))
  where
    inside :
        (ltb (length (before ++ (old ++ after))) (length before)
          || ltb (length (before ++ (old ++ after)) - length before) (length source))
        ≡ false
    inside = ground (arith, h, length-append before (old ++ after), length-append old after)

pub append-Fits :
    (target source : Bits)
    → Fits (length target + length source)
    → append target source ≡ ok (target ++ source)
unfolding append
append-Fits target source h =
    rw
      (
        add-Fits _ _ h,
        resize-longer target (length source) h,
        sym (append-nil (zeros (length source))),
        copy_into-middle target (zeros (length source)) [] source (length-zeros _),
        append-nil,
      )
      refl

pub put_fixed-middle :
    (before old after : Bits) (at value width : ℕ)
    → at ≡ length before
    → length old ≡ width
    → width ≤ 64
    → put_fixed (before ++ (old ++ after)) at value width
      ≡ ok (before ++ (field width value ++ after), at + width)
unfolding put_fixed
put_fixed-middle before old after at value width here h le = rw (inside) (
    ap (λ t. ok (t, at + width))
      (ap (λ a. store (before ++ (old ++ after)) a (field width value)) here
        ∙ store-middle before old (field width value) after
            (omega (arith, h, length-field width value))))
  where
    inside :
        (ltb 64 width
          || ltb (length (before ++ (old ++ after))) at
          || ltb (length (before ++ (old ++ after)) - at) width)
        ≡ false
    inside =
        ground (arith, here, h, le, length-append before (old ++ after), length-append old after)
