-- ===== src/Registry.antt =====
-- include/everett/registry.h: registries of sorts, and the dispatch on the code of a sort. A sort
-- type is a number, and `sort_undefined` in a leaf is none.
pub mod Paths
use everett.Base.{
  ℕ, zero, suc, ◌+◌, ◌^◌, Bool, true, false, not, ◌||◌, List, [], ◌∷◌, Option, none, some,
  if◌then◌else◌, ltb, ◌==◌, Result, raise, ok, ◌>>=◌, require, invalid_argument,
}

pub data Registry : Type 0 where
  sort_undefined : Registry
  tip : (sort : Option ℕ) → Registry
  bin : (left right : Registry) → Registry
  sort_list : (sorts : List (Option ℕ)) → Registry

unfoldable pub same : Option ℕ → ℕ → Bool
same none s = false
same (some t) s = t == s

unfoldable pub contains : List (Option ℕ) → ℕ → Bool
contains [] s = false
contains (t ∷ ts) s = same t s || contains ts s

unfoldable pub contains_sort : Registry → ℕ → Bool
contains_sort sort_undefined s = false
contains_sort (tip t) s = same t s
contains_sort (bin l r) s = contains_sort l s || contains_sort r s
contains_sort (sort_list ts) s = contains ts s

-- The visitor is called with the sort and the reader that are returned.
module _ {R : Type 0} (read_bits : R → (width : ℕ) → Result (ℕ × R)) where
  unfoldable pub discriminator : R → (width : ℕ) → Result (ℕ × R)
  discriminator r width = read_bits r width >>= λ (code, r').
      require (ltb code (2 ^ width)) invalid_argument (ok (code, r'))

  unfoldable pub visit : Option ℕ → R → Result (ℕ × R)
  visit none r = raise invalid_argument
  visit (some s) r = ok (s, r)

  unfoldable pub at : (sorts : List (Option ℕ)) (i code : ℕ) → R → Result (ℕ × R)
  at [] i code r = raise invalid_argument
  at (t ∷ ts) i code r = if code == i then visit t r else at ts (i + 1) code r

  unfoldable pub dispatch : Registry → R → Result (ℕ × R)
  dispatch sort_undefined r = raise invalid_argument
  dispatch (tip t) r = visit t r
  dispatch (bin left right) r =
      discriminator r 1 >>= λ (code, r'). if code == 0 then dispatch left r' else dispatch right r'
  dispatch (sort_list ts) r = discriminator r 8 >>= λ (code, r'). at ts 0 code r'
