-- ===== src/Nursery/Entries.antt =====
-- nursery_map.h: what rotations and rebalancing do to the entries in order, which is nothing.
use everett.Base.{ℕ, ◌≡◌, refl, sym, ap, ◌∙◌, ◌∷◌, ◌++◌, append_assoc, arith}
use everett.Nursery.{
  Tree, null, node, Statistics, editable, left, right, set_left, set_right, refresh, hang_left,
  hang_right, rotate_left, rotate_right, straighten_left, straighten_right, shrink_left,
  shrink_right, rebalance, entries,
}

module _ {ℓ κ} {K : Type ℓ} {V : Type κ} where
  pub entries-editable :
      (e : ℕ) (t : Tree K V) (w : Statistics) → entries (editable e t w).0 ≡ entries t
  unfolding editable entries
  entries-editable e null w = refl
  entries-editable e (node b l r t h) w = ground arith

  pub entries-set_left-editable :
      (e : ℕ) (b : K × V) (l r l' : Tree K V) (t h : ℕ) (w : Statistics)
      → entries (set_left (editable e (node b l r t h) w).0 l') ≡ entries l' ++ (b ∷ entries r)
  unfolding editable entries
  entries-set_left-editable e b l r l' t h w = ground arith

  pub entries-set_right-editable :
      (e : ℕ) (b : K × V) (l r r' : Tree K V) (t h : ℕ) (w : Statistics)
      → entries (set_right (editable e (node b l r t h) w).0 r') ≡ entries l ++ (b ∷ entries r')
  unfolding editable entries
  entries-set_right-editable e b l r r' t h w = ground arith

  pub left-editable :
      (e : ℕ) (b : K × V) (l r : Tree K V) (t h : ℕ) (w : Statistics)
      → left (editable e (node b l r t h) w).0 ≡ l
  unfolding editable
  left-editable e b l r t h w = ground arith

  pub right-editable :
      (e : ℕ) (b : K × V) (l r : Tree K V) (t h : ℕ) (w : Statistics)
      → right (editable e (node b l r t h) w).0 ≡ r
  unfolding editable
  right-editable e b l r t h w = ground arith

  entries-refresh : (t : Tree K V) → entries (refresh t) ≡ entries t
  unfolding entries
  entries-refresh null = refl
  entries-refresh (node b l r t h) = refl

  entries-set_left :
      (t l : Tree K V) → entries l ≡ entries (left t) → entries (set_left t l) ≡ entries t
  unfolding entries
  entries-set_left null l' e = refl
  entries-set_left (node b l r t h) l' e = rw e

  entries-set_right :
      (t r : Tree K V) → entries r ≡ entries (right t) → entries (set_right t r) ≡ entries t
  unfolding entries
  entries-set_right null r' e = refl
  entries-set_right (node b l r t h) r' e = rw e

  -- The node that is hung has the entries of the child that it replaces.
  entries-hang_left :
      (b : K × V) (l r next : Tree K V) (t h : ℕ)
      → entries next ≡ entries r
      → entries (hang_left (node b l r t h) next) ≡ entries l ++ (b ∷ entries r)
  unfolding entries
  entries-hang_left b l r null t h e = refl
  entries-hang_left b l r (node b' l' r' t' h') t h e =
      append_assoc (entries l) (b ∷ entries l') (b' ∷ entries r') ∙ ap (λ x. entries l ++ (b ∷ x)) e

  entries-hang_right :
      (b : K × V) (l r next : Tree K V) (t h : ℕ)
      → entries next ≡ entries l
      → entries (hang_right (node b l r t h) next) ≡ entries l ++ (b ∷ entries r)
  unfolding entries
  entries-hang_right b l r null t h e = refl
  entries-hang_right b l r (node b' l' r' t' h') t h e =
      sym (append_assoc (entries l') (b' ∷ entries r') (b ∷ entries r))
      ∙ ap (λ x. x ++ (b ∷ entries r)) e

  entries-rotate_left :
      (e : ℕ) (t : Tree K V) (w : Statistics) → entries (rotate_left e t w).0 ≡ entries t
  unfolding rotate_left
  entries-rotate_left e null w = unfold editable in refl
  entries-rotate_left e (node b l r t h) w =
      entries-hang_left b l r (editable e r w).0 t h (entries-editable e r w)
      ∙ unfold entries in refl

  entries-rotate_right :
      (e : ℕ) (t : Tree K V) (w : Statistics) → entries (rotate_right e t w).0 ≡ entries t
  unfolding rotate_right
  entries-rotate_right e null w = unfold editable in refl
  entries-rotate_right e (node b l r t h) w =
      entries-hang_right b l r (editable e l w).0 t h (entries-editable e l w)
      ∙ unfold entries in refl

  entries-straighten_left :
      (e : ℕ) (t : Tree K V) (w : Statistics) → entries (straighten_left e t w).0 ≡ entries t
  unfolding straighten_left
  entries-straighten_left e t w = ground (arith, entries-rotate_left e t w)

  entries-shrink_left :
      (e : ℕ) (t : Tree K V) (w : Statistics) → entries (shrink_left e t w).0 ≡ entries t
  unfolding shrink_left
  entries-shrink_left e t w =
      let (l, w1) = editable e (left t) w in
      let (l', w2) = straighten_left e l w1 in
      entries-rotate_right e (set_left t l') w2
      ∙ entries-set_left t l' (entries-straighten_left e l w1 ∙ entries-editable e (left t) w)

  entries-straighten_right :
      (e : ℕ) (t : Tree K V) (w : Statistics) → entries (straighten_right e t w).0 ≡ entries t
  unfolding straighten_right
  entries-straighten_right e t w = ground (arith, entries-rotate_right e t w)

  entries-shrink_right :
      (e : ℕ) (t : Tree K V) (w : Statistics) → entries (shrink_right e t w).0 ≡ entries t
  unfolding shrink_right
  entries-shrink_right e t w =
      let (r, w1) = editable e (right t) w in
      let (r', w2) = straighten_right e r w1 in
      entries-rotate_left e (set_right t r') w2
      ∙ entries-set_right t r' (entries-straighten_right e r w1 ∙ entries-editable e (right t) w)

  pub entries-rebalance :
      (e : ℕ) (t : Tree K V) (w : Statistics) → entries (rebalance e t w).0 ≡ entries t
  unfolding rebalance
  entries-rebalance e t w = ground (
    arith,
    entries-refresh t,
    entries-shrink_left e (refresh t) w,
    entries-shrink_right e (refresh t) w,
  )
