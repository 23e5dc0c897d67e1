-- ===== src/Pins.antt =====
-- include/everett/pins.h: `pin_set`, over an algebra of contributions. A pin is a shared pointer,
-- null or to an object; the owners share their state, which nothing changes.
mod Examples
pub mod Lookup
pub mod Sums
pub mod Owner
pub mod Replacement
pub mod Composition
pub mod History
pub mod Success
use Prim.Native.String.{String}
use text.Mathlib.Text.{◌==◌ as str_eq}
use everett.Base.{
  Bool, true, false, not, ◌&&◌, ◌||◌, List, [], ◌∷◌, ◌++◌, map, Option, none, some, is_some,
  if◌then◌else◌, Result, raise, ok, require, invalid_argument,
}
use everett.Fingerprint.{Algebra}

-- `pin_set::entry`
pub record Entry (E T : Type 0) : Type 0 where
  pub object_id : String
  pub object : Option T
  pub contribution : E
  pub native_signature : Option E

-- `pin_set::state`
pub record PinSet (E T : Type 0) : Type 0 where
  pub entries : List (Entry E T)
  pub pins : List (Option T)
  pub signature : E

unfoldable pub is_input : List String → String → Bool
is_input [] object_id = false
is_input (x ∷ inputs) object_id = str_eq x object_id || is_input inputs object_id

module _ {E T : Type 0} where
  abbrev pub object_of : Entry E T → Option T
  object_of item = item.object

  unfoldable pub find : List (Entry E T) → String → Option (Entry E T)
  find [] object_id = none
  find (item ∷ rest) object_id =
      let later = find rest object_id in
      if str_eq item.object_id object_id then some item else later

  unfoldable pub validate : Entry E T → Bool
  validate item = not (str_eq item.object_id "") && is_some item.object

  -- The loop of `remove`: the entries of all other identities.
  unfoldable pub without : List (Entry E T) → String → List (Entry E T)
  without [] object_id = []
  without (item ∷ rest) object_id =
      let kept = without rest object_id in
      if str_eq item.object_id object_id then kept else item ∷ kept

  -- The loop of `replace` over the entries: those that are no input.
  unfoldable pub outside : List String → List (Entry E T) → List (Entry E T)
  unfolding is_input
  outside inputs [] = []
  outside inputs (item ∷ rest) =
      let kept = outside inputs rest in if is_input inputs item.object_id then kept else item ∷ kept

module _ {E T : Type 0} (A : Algebra E) where
  abbrev pub empty_set : PinSet E T
  empty_set = record { entries = []; pins = []; signature = A.nothing }

  -- The loop of `recompute_signature`, from the sum so far.
  unfoldable pub sum_from : E → List (Entry E T) → E
  sum_from result [] = result
  sum_from result (item ∷ rest) = sum_from (A.add result item.contribution) rest

  unfoldable pub recompute_signature : PinSet E T → E
  recompute_signature p = sum_from A.nothing p.entries

  unfoldable pub add : PinSet E T → Entry E T → Result (PinSet E T)
  unfolding validate find
  add p item = require (validate item) invalid_argument (
      require (not (is_some (find p.entries item.object_id))) invalid_argument (
        ok (record {
          entries = p.entries ++ (item ∷ []);
          pins = p.pins ++ (item.object ∷ []);
          signature = A.add p.signature item.contribution;
        })))

  unfoldable pub remove : PinSet E T → String → Result (PinSet E T)
  unfolding find without
  remove p object_id = elim (find p.entries object_id) [
    | none ↦ raise invalid_argument
    | some old ↦ ok (record {
      entries = without p.entries object_id;
      pins = map object_of (without p.entries object_id);
      signature = A.subtract p.signature old.contribution;
    })
  ]

  -- The first loop of `replace`: the inputs, and the sum of their contributions.
  unfoldable pub gather : PinSet E T → List String → E → List String → Result (List String × E)
  unfolding is_input find
  gather p inputs removed [] = ok (inputs, removed)
  gather p inputs removed (x ∷ expected) =
      require (not (is_input inputs x)) invalid_argument (elim (find p.entries x) [
        | none ↦ raise invalid_argument
        | some old ↦ gather p (inputs ++ (x ∷ [])) (A.add removed old.contribution) expected
      ])

  -- The second loop, behind the replacements before it: the sum that is added.
  unfoldable pub check : PinSet E T → List (Entry E T) → E → List (Entry E T) → Result E
  unfolding validate find
  check p earlier added [] = ok added
  check p earlier added (item ∷ rest) = require (validate item) invalid_argument (
      require (not (is_some (find p.entries item.object_id))) invalid_argument (
        require (not (is_some (find earlier item.object_id))) invalid_argument
          (check p (earlier ++ (item ∷ [])) (A.add added item.contribution) rest)))

  -- The state that `replace` builds.
  abbrev pub composed : PinSet E T → List (Entry E T) → List String → E → E → PinSet E T
  composed p replacements inputs removed added = record {
    entries = outside inputs p.entries ++ replacements;
    pins = map object_of (outside inputs p.entries) ++ map object_of replacements;
    signature = A.add (A.subtract p.signature removed) added;
  }

module _ {E T : Type 0} (A : Algebra E) (eq : E → E → Bool) where
  abbrev pub replaced : PinSet E T → List (Entry E T) → List String → E → E → Result (PinSet E T)
  replaced p replacements inputs removed added =
      require (eq added removed) invalid_argument
        (ok (composed A p replacements inputs removed added))

  -- `eq` is `==` of the algebra's elements.
  unfoldable pub replace : PinSet E T → List String → List (Entry E T) → Result (PinSet E T)
  unfolding gather check outside
  replace p expected replacements = elim (gather A p [] A.nothing expected) [
    | raise e ↦ raise e
    | ok (inputs, removed) ↦ elim (check A p [] A.nothing replacements) [
      | raise e ↦ raise e
      | ok added ↦ replaced p replacements inputs removed added
    ]
  ]
