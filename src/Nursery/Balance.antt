-- ===== src/Nursery/Balance.antt =====
-- nursery_map.h: the AVL invariant, with the cached heights, through rotations and edits.
pub mod Edits
use everett.Base.{
  ℕ, suc, ◌+◌, ◌*◌, ◌^◌, ◌≤◌, ◌<◌, ◌≡◌, refl, ap, inl, inr, ltb, ltb→lt, not_ltb→le, Bool-cases,
  Bool, true, false, List, [], ◌∷◌, ◌++◌, max, length, length-append, arith,
}
use everett.Nursery.{
  Comparator, less, Tree, null, node, Statistics, height, editable, left, right, set_left,
  set_right, hang_left, hang_right, rotate_left, rotate_right, straighten_left, straighten_right,
  shrink_left, shrink_right, rebalance, remove_first, remove_root, entries, insert, remove,
}

module _ {ℓ κ} {K : Type ℓ} {V : Type κ} where
  -- Copied or not, an editable node differs from the old one in its token alone.
  pub editable_node :
      (e : ℕ) (b : K × V) (l r : Tree K V) (t h : ℕ) (w : Statistics)
      → (editable e (node b l r t h) w).0 ≡ node b l r e h
  unfolding editable
  editable_node e b l r t h w = ground arith

  -- The cached heights are right, and the children of a node differ by one at most.
  abbrev pub Balanced : Tree K V → Type 0
  Balanced null = Unit {0}
  Balanced (node b l r t h) =
      (h ≡ 1 + max (height l) (height r))
      × (height l ≤ height r + 1)
      × (height r ≤ height l + 1)
      × Balanced l
      × Balanced r

  -- A rotation to the right, on nodes.
  rotate_right_node :
      (e : ℕ) (b b' : K × V) (x y z : Tree K V) (t t' h h' : ℕ) (w : Statistics)
      → (rotate_right e (node b (node b' x y t' h') z t h) w).0
        ≡ hang_right (node b (node b' x y t' h') z t h) (node b' x y e h')
  unfolding rotate_right
  rotate_right_node e b b' x y z t t' h h' w = ap (hang_right _) (editable_node e b' x y t' h' w)

  -- A rotation to the left, on nodes.
  rotate_left_node :
      (e : ℕ) (b b' : K × V) (x y z : Tree K V) (t t' h h' : ℕ) (w : Statistics)
      → (rotate_left e (node b z (node b' y x t' h') t h) w).0
        ≡ hang_left (node b z (node b' y x t' h') t h) (node b' y x e h')
  unfolding rotate_left
  rotate_left_node e b b' x y z t t' h h' w = ap (hang_left _) (editable_node e b' y x t' h' w)

  -- After `straighten_left`, the outer grandchild is the higher one, or both are equal.
  abbrev StraightLeft : ℕ → Tree K V → Type 0
  StraightLeft n null = ⊥
  StraightLeft n (node b x y t h) =
      Balanced x × Balanced y × (height x ≡ n + 1) × (n ≤ height y + 1) × (height y ≤ n + 1)

  straighten_left_lem :
      (e n : ℕ) (c : Tree K V) (w : Statistics)
      → Balanced c
      → height c ≡ n + 2
      → StraightLeft n (straighten_left e c w).0
  unfolding straighten_left
  straighten_left_lem e n null w h d = absurd (omega arith)
  straighten_left_lem e n (node b x null t h') w h d = ground arith
  straighten_left_lem e n (node b x (node b' p q t' g) t h') w h d =
      elim (Bool-cases (ltb (height x + 0) g)) [
        | inl more ↦
            rw (more, rotate_left_node e b b' q p x t t' h' g w)
              (
                (
                  refl,
                  omega (arith, ltb→lt (height x + 0) g more),
                  omega (arith, ltb→lt (height x + 0) g more),
                  h.3,
                  h.4.3,
                ),
                h.4.4,
                omega (arith, ltb→lt (height x + 0) g more),
                omega (arith, ltb→lt (height x + 0) g more),
                omega (arith, ltb→lt (height x + 0) g more),
              )
        | inr less ↦
            rw less
              (h.3, h.4, omega (arith, not_ltb→le (height x + 0) g less), omega arith, omega arith)
      ]

  turned_left-Balanced :
      (e n : ℕ) (b : K × V) (c z : Tree K V) (t h : ℕ) (w : Statistics)
      → StraightLeft n c
      → Balanced z
      → height z ≡ n
      → let item = (rotate_right e (node b c z t h) w).0 in
        Balanced item × (n + 2 ≤ height item) × (height item ≤ n + 3)
  turned_left-Balanced e n b null z t h w s bz d = absurd s
  turned_left-Balanced e n b (node b' x y t' g) z t h w s bz d =
      rw (rotate_right_node e b b' x y z t t' h g w) (ground arith)

  -- The children differ by two: `shrink_left` mends the item.
  shrink_left-Balanced :
      (e n : ℕ) (b : K × V) (c z : Tree K V) (t h : ℕ) (w : Statistics)
      → Balanced c
      → Balanced z
      → height c ≡ n + 2
      → height z ≡ n
      → let item = (shrink_left e (node b c z t h) w).0 in
        Balanced item × (n + 2 ≤ height item) × (height item ≤ n + 3)
  unfolding shrink_left
  shrink_left-Balanced e n b null z t h w bc bz d d' = absurd (omega arith)
  shrink_left-Balanced e n b (node b' x y t' g) z t h w bc bz d d' =
      let (c, w1) = editable e (node b' x y t' g) w in
      let (c', w2) = straighten_left e c w1 in
      turned_left-Balanced e n b c' z t h w2
        (straighten_left_lem e n c w1 (rw editable_node bc) (rw editable_node d)) bz d'

  -- After `straighten_right`, the outer grandchild is the higher one, or both are equal.
  abbrev StraightRight : ℕ → Tree K V → Type 0
  StraightRight n null = ⊥
  StraightRight n (node b y x t h) =
      Balanced x × Balanced y × (height x ≡ n + 1) × (n ≤ height y + 1) × (height y ≤ n + 1)

  straighten_right_lem :
      (e n : ℕ) (c : Tree K V) (w : Statistics)
      → Balanced c
      → height c ≡ n + 2
      → StraightRight n (straighten_right e c w).0
  unfolding straighten_right
  straighten_right_lem e n null w h d = absurd (omega arith)
  straighten_right_lem e n (node b null x t h') w h d = ground arith
  straighten_right_lem e n (node b (node b' q p t' g) x t h') w h d =
      elim (Bool-cases (ltb (height x + 0) g)) [
        | inl more ↦
            rw (more, rotate_right_node e b b' q p x t t' h' g w)
              (
                (
                  refl,
                  omega (arith, ltb→lt (height x + 0) g more),
                  omega (arith, ltb→lt (height x + 0) g more),
                  h.3.4,
                  h.4,
                ),
                h.3.3,
                omega (arith, ltb→lt (height x + 0) g more),
                omega (arith, ltb→lt (height x + 0) g more),
                omega (arith, ltb→lt (height x + 0) g more),
              )
        | inr less ↦
            rw less
              (h.4, h.3, omega (arith, not_ltb→le (height x + 0) g less), omega arith, omega arith)
      ]

  turned_right-Balanced :
      (e n : ℕ) (b : K × V) (c z : Tree K V) (t h : ℕ) (w : Statistics)
      → StraightRight n c
      → Balanced z
      → height z ≡ n
      → let item = (rotate_left e (node b z c t h) w).0 in
        Balanced item × (n + 2 ≤ height item) × (height item ≤ n + 3)
  turned_right-Balanced e n b null z t h w s bz d = absurd s
  turned_right-Balanced e n b (node b' y x t' g) z t h w s bz d =
      rw (rotate_left_node e b b' x y z t t' h g w) (ground arith)

  -- The children differ by two: `shrink_right` mends the item.
  shrink_right-Balanced :
      (e n : ℕ) (b : K × V) (c z : Tree K V) (t h : ℕ) (w : Statistics)
      → Balanced c
      → Balanced z
      → height c ≡ n + 2
      → height z ≡ n
      → let item = (shrink_right e (node b z c t h) w).0 in
        Balanced item × (n + 2 ≤ height item) × (height item ≤ n + 3)
  unfolding shrink_right
  shrink_right-Balanced e n b null z t h w bc bz d d' = absurd (omega arith)
  shrink_right-Balanced e n b (node b' y x t' g) z t h w bc bz d d' =
      let (c, w1) = editable e (node b' y x t' g) w in
      let (c', w2) = straighten_right e c w1 in
      turned_right-Balanced e n b c' z t h w2
        (straighten_right_lem e n c w1 (rw editable_node bc) (rw editable_node d)) bz d'

  -- What `rebalance` makes of a node whose children's heights differ by at most two.
  abbrev pub Mended : ℕ → ℕ → Tree K V → Type 0
  Mended p q item =
      Balanced item
      × (max p q ≤ height item)
      × (height item ≤ max p q + 1)
      × (p ≤ q + 1 → q ≤ p + 1 → height item ≡ 1 + max p q)

  pub rebalance-Balanced :
      (e : ℕ) (b : K × V) (l r : Tree K V) (t h : ℕ) (w : Statistics)
      → Balanced l
      → Balanced r
      → height l ≤ height r + 2
      → height r ≤ height l + 2
      → Mended (height l) (height r) (rebalance e (node b l r t h) w).0
  unfolding rebalance
  rebalance-Balanced e b l r t h w bl br d d' =
      let g = 1 + max (height l) (height r) in
      elim (Bool-cases (ltb (height r + 1) (height l))) [
        | inl more ↦
            let (p, lo, hi) =
              shrink_left-Balanced e (height r) b l r t g w bl br (omega (arith, ltb→lt _ _ more))
                refl in
            rw more (
              p,
              omega (arith, ltb→lt _ _ more),
              omega (arith, ltb→lt _ _ more),
              λ x y. absurd (omega (arith, ltb→lt _ _ more)),
            )
        | inr less ↦ elim (Bool-cases (ltb (height l + 1) (height r))) [
          | inl more ↦
              let (p, lo, hi) =
                shrink_right-Balanced e (height l) b r l t g w br bl
                  (omega (arith, ltb→lt _ _ more)) refl in
              rw (less, more)
                (
                  p,
                  omega (arith, ltb→lt _ _ more),
                  omega (arith, ltb→lt _ _ more),
                  λ x y. absurd (omega (arith, ltb→lt _ _ more)),
                )
          | inr less' ↦
              rw (less, less')
                (
                  (
                    refl,
                    omega (arith, not_ltb→le _ _ less),
                    omega (arith, not_ltb→le _ _ less'),
                    bl,
                    br,
                  ),
                  omega arith,
                  omega arith,
                  λ x y. omega arith,
                )
        ]
      ]
