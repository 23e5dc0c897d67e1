-- ===== src/BitString/Agreement.antt =====
-- When a call on a reader's state agrees with a call on the bits that it has left.
use everett.Base.{
  ◌≡◌, refl, subst, ap, Bool, true, false, Result, ok_inj, Error, ok, raise, require, if◌then◌else◌,
  ◌>>=◌,
}
use everett.BitString.{Bits}

module _ {A S : Type 0} where
  -- Both raise the same kind of exception, or return one value, and leave a state that has left what
  -- is left.
  pub data Agrees (Left : S → Bits → Type 0) : Result (A × S) → Result (A × Bits) → Type 0 where
    refused : (e : Error) → Agrees Left (raise e) (raise e)
    left : (a : A) (s : S) (bits : Bits) → Left s bits → Agrees Left (ok (a, s)) (ok (a, bits))

module _ {A B S : Type 0} (Left : S → Bits → Type 0) where
  pub Agrees-bind :
      (r : Result (A × S)) (p : Result (A × Bits)) (f : A × S → Result (B × S))
      (g : A × Bits → Result (B × Bits))
      → Agrees Left r p
      → ((a : A) (s : S) (bits : Bits) → Left s bits → Agrees Left (f (a, s)) (g (a, bits)))
      → Agrees Left (r >>= f) (p >>= g)
  Agrees-bind r p f g (refused e) h = refused e
  Agrees-bind r p f g (left a s bits l) h = h a s bits l

module _ {A S : Type 0} (Left : S → Bits → Type 0) where
  pub Agrees-require :
      (b : Bool) (e : Error) (r : Result (A × S)) (p : Result (A × Bits))
      → (b ≡ true → Agrees Left r p)
      → Agrees Left (require b e r) (require b e p)
  Agrees-require true e r p h = h refl
  Agrees-require false e r p h = refused e

  pub Agrees-if :
      (b : Bool) (r s : Result (A × S)) (p q : Result (A × Bits))
      → (b ≡ true → Agrees Left r p)
      → (b ≡ false → Agrees Left s q)
      → Agrees Left (if b then r else s) (if b then p else q)
  Agrees-if true r s p q h k = h refl
  Agrees-if false r s p q h k = k refl

  pub Agrees-ok :
      (r : Result (A × S)) (p : Result (A × Bits)) (a : A) (bits : Bits)
      → Agrees Left r p
      → p ≡ ok (a, bits)
      → (s : S) × (r ≡ ok (a, s)) × Left s bits
  Agrees-ok r p a bits (refused e) h = absurd (cc)
  Agrees-ok r p a bits (left a' s bits' l) h =
      (s, ap (λ q. ok (q.0, s)) (ok_inj h), subst (Left s) (ap (λ q. q.1) (ok_inj h)) l)
