-- ===== src/Fingerprint.antt =====
-- include/everett/fingerprint.h: the algebra of additive fingerprints, and those of a table's rows.
-- The hashes are arguments; a key is any type that they take.
pub mod Laws
mod Examples
use everett.Base.{ℕ, ◌+◌, ◌-◌, ◌*◌, ◌%◌, ◌^◌, ◌<◌, ◌≡◌, Option, none, some, IsU64, arith}

-- A std::uint64_t.
pub record Word : Type 0 where
  pub value : ℕ
  pub small : IsU64 value

abbrev pub wrap : ℕ → Word
wrap n = record { value = n % 2 ^ 64; small = omega arith }

-- What `pin_set` and `table_fingerprint` ask of their parameter `A`.
pub record Algebra (E : Type 0) : Type 0 where
  pub nothing : E
  pub lift : Word → E
  pub add : E → E → E
  pub subtract : E → E → E
  pub multiply : E → E → E

-- The laws of a commutative ring that the two rely on.
pub record IsRing {E : Type 0} (A : Algebra E) : Type 0 where
  pub add_comm : (x y : E) → A.add x y ≡ A.add y x
  pub add_assoc : (x y z : E) → A.add (A.add x y) z ≡ A.add x (A.add y z)
  pub nothing_add : (x : E) → A.add A.nothing x ≡ x
  pub subtract_add : (x y : E) → A.subtract (A.add x y) y ≡ x
  pub add_subtract : (x y : E) → A.add (A.subtract x y) y ≡ x
  pub multiply_subtract :
      (k x y : E) → A.multiply k (A.subtract x y) ≡ A.subtract (A.multiply k x) (A.multiply k y)
  pub multiply_nothing : (k : E) → A.multiply k A.nothing ≡ A.nothing

abbrev pub wrapping_fingerprint_algebra : Algebra Word
wrapping_fingerprint_algebra = record {
  nothing = record { value = 0; small = omega arith };
  lift = λ x. x;
  add = λ x y. wrap (x.value + y.value);
  subtract = λ x y. wrap (x.value + 2 ^ 64 - y.value);
  multiply = λ x y. wrap (x.value * y.value);
}

-- `table_fingerprint`, over an algebra and the two hashes.
module _ {E K V : Type 0} (A : Algebra E) (hash_key : K → Word) (hash_value : V → Word) where
  unfoldable pub value_hash : Option V → E
  value_hash none = A.nothing
  value_hash (some v) = A.lift (hash_value v)

  unfoldable pub binding : K → Option V → E
  binding key none = A.nothing
  binding key (some v) = A.multiply (A.lift (hash_key key)) (A.lift (hash_value v))

  unfoldable pub delta : K → (before after : Option V) → E
  unfolding value_hash
  delta key before after =
      A.multiply (A.lift (hash_key key)) (A.subtract (value_hash after) (value_hash before))
