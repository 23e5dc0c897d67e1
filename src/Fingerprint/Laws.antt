-- ===== src/Fingerprint/Laws.antt =====
-- fingerprint.h: 64-bit wrapping is a ring, and a delta is the difference of two bindings.
use native.Mathlib.Bridge.{le_prop}
use mathlib.Core.HLevel.{is_prop→PathP}
use everett.Base.{
  ℕ, ◌+◌, ◌-◌, ◌*◌, ◌/◌, ◌%◌, ◌^◌, ◌≡◌, refl, ◌∙◌, ap, ap₂, IsU64, Option, none, some, arith,
}
use everett.Fingerprint.{
  Word, Algebra, IsRing, wrapping_fingerprint_algebra, value_hash, binding, delta,
}

pub Word-eq : (x y : Word) → x.value ≡ y.value → x ≡ y
Word-eq x y h = λ i. record {
  value = h i;
  small = is_prop→PathP (λ j. IsU64 (h j)) (λ j. le_prop) x.small y.small i;
}

multiply_mod :
    (k x y : ℕ)
    → IsU64 y
    → (k * ((x + 2 ^ 64 - y) % 2 ^ 64)) % 2 ^ 64
      ≡ ((k * x) % 2 ^ 64 + 2 ^ 64 - (k * y) % 2 ^ 64) % 2 ^ 64
multiply_mod k x y h = omega (arith, ap (λ n. k * n) parts)
  where
    q : ℕ
    q = (x + 2 ^ 64 - y) / 2 ^ 64

    d : ℕ
    d = (x + 2 ^ 64 - y) % 2 ^ 64

    parts : d + 2 ^ 64 * q + y ≡ x + 2 ^ 64
    parts = omega (arith, h)

pub wrapping-IsRing : IsRing wrapping_fingerprint_algebra
wrapping-IsRing = record {
  add_comm = λ x y. Word-eq _ _ (omega arith);
  add_assoc = λ x y z. Word-eq _ _ (omega arith);
  nothing_add = λ x. Word-eq _ _ (omega (arith, x.small));
  subtract_add = λ x y. Word-eq _ _ (omega (arith, x.small, y.small));
  add_subtract = λ x y. Word-eq _ _ (omega (arith, x.small, y.small));
  multiply_subtract = λ k x y. Word-eq _ _ (multiply_mod k.value x.value y.value y.small);
  multiply_nothing = λ k. Word-eq _ _ (omega arith);
}

module _ {E K V : Type 0} (A : Algebra E) (r : IsRing A) (hash_key : K → Word)
    (hash_value : V → Word) where
  -- In any algebra with the laws of a ring, and whatever the hashes, the delta of a key from one
  -- optional value to another is the binding after it less the binding before it, absent values
  -- included.
  pub delta-binding :
      (key : K) (before after : Option V)
      → delta A hash_key hash_value key before after
        ≡ A.subtract
            (binding A hash_key hash_value key after)
            (binding A hash_key hash_value key before)
  unfolding delta binding value_hash
  delta-binding key before after =
      r.multiply_subtract _ _ _ ∙ ap₂ A.subtract (scaled after) (scaled before)
    where
      scaled :
          (v : Option V)
          → A.multiply (A.lift (hash_key key)) (value_hash A hash_key hash_value v)
            ≡ binding A hash_key hash_value key v
      scaled none = r.multiply_nothing _
      scaled (some v) = refl
