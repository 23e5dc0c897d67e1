-- ===== src/Base/Errors.antt =====
-- include/everett/error_detail.h: the standard exceptions that the headers raise, and the results
-- of calls that may raise one.
use mathlib.Core.Bool.{Bool, true, false}
use mathlib.Core.Path.{◌≡◌, refl}
use mathlib.Core.Logic.{◌⊎◌, inl, inr}

-- The kinds of exception; their messages are not modelled.
pub data Error : Type 0 where
  invalid_argument out_of_range length_error overflow_error logic_error : Error

pub data Result {ℓ} (A : Type ℓ) : Type ℓ where
  raise : Error → Result A
  ok : A → Result A

infixl 5 ◌>>=◌
abbrev pub ◌>>=◌ {ℓ κ} : {A : Type ℓ} {B : Type κ} → Result A → (A → Result B) → Result B
call >>= rest = elim call [ raise e ↦ raise e | ok a ↦ rest a ]

-- `if (refused) raise`, before the rest of the call.
abbrev pub require {ℓ} : {B : Type ℓ} → Bool → Error → Result B → Result B
require true e rest = rest
require false e rest = raise e

pub Result-cases {ℓ} :
    {A : Type ℓ} (r : Result A) → ((a : A) × (r ≡ ok a)) ⊎ ((e : Error) × (r ≡ raise e))
Result-cases (raise e) = inr (e, refl)
Result-cases (ok a) = inl (a, refl)

pub ok_inj {ℓ} : {A : Type ℓ} {x y : A} → ok x ≡ ok y → x ≡ y
ok_inj h = cc
