-- ===== src/Budget/Charges.antt =====
-- output_budget.h: the sum of the charges of a list of leases.
use everett.Base.{
  ℕ, zero, suc, ◌+◌, ◌≤◌, ◌≡◌, ◌≢◌, refl, ap, List, [], ◌∷◌, ◌++◌, some, if◌then◌else◌, get_elem?,
  set, delete, All, arith,
}
use everett.Budget.{Lease}

abbrev pub charge : Lease → ℕ
charge l = if l.owner then l.bytes else 0

pub charges : List Lease → ℕ
charges [] = 0
charges (l ∷ ls) = charge l + charges ls

pub charges-nil : charges [] ≡ 0
unfolding charges
charges-nil = refl

pub charges-snoc : (ls : List Lease) (l : Lease) → charges (ls ++ (l ∷ [])) ≡ charges ls + charge l
unfolding charges
charges-snoc [] l = omega arith
charges-snoc (x ∷ xs) l = omega (arith, charges-snoc xs l)

pub charges-set :
    (ls : List Lease) (i : ℕ) (l l' : Lease)
    → get_elem? ls i ≡ some l
    → charges (set ls i l') + charge l ≡ charges ls + charge l'
unfolding charges
charges-set [] i l l' h = absurd (cc)
charges-set (x ∷ xs) zero l l' h = ground arith
charges-set (x ∷ xs) (suc i) l l' h = omega (arith, charges-set xs i l l' h)

pub charge-le :
    (ls : List Lease) (i : ℕ) (l : Lease) → get_elem? ls i ≡ some l → charge l ≤ charges ls
unfolding charges
charge-le [] i l h = absurd (cc)
charge-le (x ∷ xs) zero l h = ground arith
charge-le (x ∷ xs) (suc i) l h = omega (arith, charge-le xs i l h)

module _ {ℓ} {A : Type ℓ} where
  pub get_elem?-set_other :
      (xs : List A) (i j : ℕ) (x : A) → i ≢ j → get_elem? (set xs i x) j ≡ get_elem? xs j
  get_elem?-set_other [] i j x n = refl
  get_elem?-set_other (y ∷ ys) zero zero x n = absurd (n refl)
  get_elem?-set_other (y ∷ ys) zero (suc j) x n = refl
  get_elem?-set_other (y ∷ ys) (suc i) zero x n = refl
  get_elem?-set_other (y ∷ ys) (suc i) (suc j) x n =
      get_elem?-set_other ys i j x (λ e. n (ap suc e))

module _ {ℓ κ} {A : Type ℓ} where
  pub All-set : (P : A → Type κ) (xs : List A) (i : ℕ) (x : A) → All P xs → P x → All P (set xs i x)
  All-set P [] i x h p = h
  All-set P (y ∷ ys) zero x h p = (p, h.1)
  All-set P (y ∷ ys) (suc i) x h p = (h.0, All-set P ys i x h.1 p)

  pub All-delete : (P : A → Type κ) (xs : List A) (i : ℕ) → All P xs → All P (delete xs i)
  All-delete P [] i h = h
  All-delete P (y ∷ ys) zero h = h.1
  All-delete P (y ∷ ys) (suc i) h = (h.0, All-delete P ys i h.1)
