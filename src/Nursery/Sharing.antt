-- ===== src/Nursery/Sharing.antt =====
-- nursery_map.h: an edit changes in place only nodes that carry its token. All others it shares
-- with the tree that it began with, as they were.
pub mod Rotations
pub mod Edits
use everett.Base.{
  ℕ, ◌+◌, ◌≤◌, ◌<◌, ◌≡◌, refl, ◌⊎◌, inl, inr, Bool, true, false, max, Bool-cases, ltb, arith,
}
use everett.Nursery.{
  Comparator, less, Tree, null, node, Statistics, height, editable, left, right, set_left,
  set_right, hang_left, hang_right, rotate_left, rotate_right, straighten_left, straighten_right,
  shrink_left, shrink_right, rebalance, remove_first, remove_root, insert, remove, right_exceeds,
  left_exceeds, refresh,
}
use everett.Nursery.Balance.{editable_node}

-- The first tree is a node of the second, with all that hangs below it.
pub data Part {ℓ κ} {K : Type ℓ} {V : Type κ} (s : Tree K V) : Tree K V → Type (ℓ ⊔ κ) where
  here : Part s s
  in_left : {b : K × V} {l r : Tree K V} {t h : ℕ} → Part s l → Part s (node b l r t h)
  in_right : {b : K × V} {l r : Tree K V} {t h : ℕ} → Part s r → Part s (node b l r t h)

module _ {ℓ κ} {K : Type ℓ} {V : Type κ} where
  pub Part-left :
      {b : K × V} {l r : Tree K V} {t h : ℕ} {old : Tree K V}
      → Part (node b l r t h) old
      → Part l old
  Part-left here = in_left here
  Part-left (in_left p) = in_left (Part-left p)
  Part-left (in_right p) = in_right (Part-left p)

  pub Part-right :
      {b : K × V} {l r : Tree K V} {t h : ℕ} {old : Tree K V}
      → Part (node b l r t h) old
      → Part r old
  Part-right here = in_right here
  Part-right (in_left p) = in_left (Part-right p)
  Part-right (in_right p) = in_right (Part-right p)

  -- A node of the tree carries the token `e`, or stood in the old tree with all below it.
  abbrev pub Shares : ℕ → Tree K V → Tree K V → Type (ℓ ⊔ κ)
  Shares e old null = Unit {ℓ ⊔ κ}
  Shares e old (node b l r t h) =
      Part (node b l r t h) old ⊎ ((t ≡ e) × Shares e old l × Shares e old r)

  -- The same, of a tree whose root may be changed in place.
  abbrev pub Owned : ℕ → Tree K V → Tree K V → Type (ℓ ⊔ κ)
  Owned e old null = Unit {ℓ ⊔ κ}
  Owned e old (node b l r t h) = (t ≡ e) × Shares e old l × Shares e old r

  pub Owned→Shares : (e : ℕ) (old t : Tree K V) → Owned e old t → Shares e old t
  Owned→Shares e old null h = tt
  Owned→Shares e old (node b l r t g) h = inr h

  pub Part→Shares : (e : ℕ) (old t : Tree K V) → Part t old → Shares e old t
  Part→Shares e old null p = tt
  Part→Shares e old (node b l r t h) p = inl p

  pub Shares-left :
      (e : ℕ) (old : Tree K V) (b : K × V) (l r : Tree K V) (t h : ℕ)
      → Shares e old (node b l r t h)
      → Shares e old l
  Shares-left e old b l r t h (inl p) = Part→Shares e old l (Part-left p)
  Shares-left e old b l r t h (inr s) = s.1

  pub Shares-right :
      (e : ℕ) (old : Tree K V) (b : K × V) (l r : Tree K V) (t h : ℕ)
      → Shares e old (node b l r t h)
      → Shares e old r
  Shares-right e old b l r t h (inl p) = Part→Shares e old r (Part-right p)
  Shares-right e old b l r t h (inr s) = s.2

  pub editable-Owned :
      (e : ℕ) (old t : Tree K V) (w : Statistics) → Shares e old t → Owned e old (editable e t w).0
  editable-Owned e old null w h = unfold editable in tt
  editable-Owned e old (node b l r t g) w h =
      rw (editable_node e b l r t g w)
        (refl, Shares-left e old b l r t g h, Shares-right e old b l r t g h)

  -- The two nodes that a rotation changes are owned.
  pub hang_left-Owned :
      (e : ℕ) (old item next : Tree K V)
      → Owned e old item
      → Owned e old next
      → Owned e old (hang_left item next)
  hang_left-Owned e old item null h k = h
  hang_left-Owned e old null (node b l r t g) h k = (k.0, tt, k.2)
  hang_left-Owned e old (node b' l' r' t' g') (node b l r t g) h k = (k.0, inr (h.0, h.1, k.1), k.2)

  pub hang_right-Owned :
      (e : ℕ) (old item next : Tree K V)
      → Owned e old item
      → Owned e old next
      → Owned e old (hang_right item next)
  hang_right-Owned e old item null h k = h
  hang_right-Owned e old null (node b l r t g) h k = (k.0, k.1, tt)
  hang_right-Owned e old (node b' l' r' t' g') (node b l r t g) h k =
      (k.0, k.1, inr (h.0, k.2, h.2))

  pub Owned-left : (e : ℕ) (old t : Tree K V) → Owned e old t → Shares e old (left t)
  Owned-left e old null h = tt
  Owned-left e old (node b l r t g) h = h.1

  pub Owned-right : (e : ℕ) (old t : Tree K V) → Owned e old t → Shares e old (right t)
  Owned-right e old null h = tt
  Owned-right e old (node b l r t g) h = h.2

  pub set_left-Owned :
      (e : ℕ) (old t l : Tree K V) → Owned e old t → Shares e old l → Owned e old (set_left t l)
  set_left-Owned e old null l' h k = tt
  set_left-Owned e old (node b l r t g) l' h k = (h.0, k, h.2)

  pub set_right-Owned :
      (e : ℕ) (old t r : Tree K V) → Owned e old t → Shares e old r → Owned e old (set_right t r)
  set_right-Owned e old null r' h k = tt
  set_right-Owned e old (node b l r t g) r' h k = (h.0, h.1, k)

  pub refresh-Owned : (e : ℕ) (old t : Tree K V) → Owned e old t → Owned e old (refresh t)
  refresh-Owned e old null h = tt
  refresh-Owned e old (node b l r t g) h = h
