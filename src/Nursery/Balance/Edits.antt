-- ===== src/Nursery/Balance/Edits.antt =====
-- nursery_map.h: an insertion or a removal keeps the AVL invariant, and moves the height by one.
use everett.Base.{ℕ, ◌+◌, ◌≤◌, ◌≡◌, refl, inl, inr, true, false, max, Bool-cases, arith}
use everett.Nursery.{
  Comparator, less, Tree, null, node, Statistics, height, editable, remove_first, remove_root,
  insert, remove,
}
use everett.Nursery.Refinement.{remove_root_flag}
use everett.Nursery.Balance.{Balanced, Mended, editable_node, rebalance-Balanced}

module _ {ℓ κ} {K : Type ℓ} {V : Type κ} where
  -- An item that was `h` high and has lost, or gained, at most one.
  abbrev pub Shrunk : ℕ → Tree K V → Type 0
  Shrunk h item = Balanced item × (height item ≤ h) × (h ≤ height item + 1)

  abbrev pub Grown : ℕ → Tree K V → Type 0
  Grown h item = Balanced item × (h ≤ height item) × (height item ≤ h + 1)

  -- The heights `p` and `q` of the children of an item of height `h`, and a change of one of them.
  module _ (p q h : ℕ) (cached : h ≡ 1 + max p q) (pq : p ≤ q + 1) (qp : q ≤ p + 1) where
    Shrunk-left :
        (p' : ℕ) (item : Tree K V) → p' ≤ p → p ≤ p' + 1 → Mended p' q item → Shrunk h item
    Shrunk-left p' item lo hi m = (m.0, grind arith, grind arith)

    Shrunk-right :
        (q' : ℕ) (item : Tree K V) → q' ≤ q → q ≤ q' + 1 → Mended p q' item → Shrunk h item
    Shrunk-right q' item lo hi m = (m.0, grind arith, grind arith)

    Grown-left : (p' : ℕ) (item : Tree K V) → p ≤ p' → p' ≤ p + 1 → Mended p' q item → Grown h item
    Grown-left p' item lo hi m = (m.0, grind arith, grind arith)

    Grown-right : (q' : ℕ) (item : Tree K V) → q ≤ q' → q' ≤ q + 1 → Mended p q' item → Grown h item
    Grown-right q' item lo hi m = (m.0, grind arith, grind arith)

  -- The first entry of a subtree is taken out, and its height falls by one at most.
  remove_first-Balanced :
      (e : ℕ) (b : K × V) (l r : Tree K V) (t h : ℕ) (w : Statistics)
      → Balanced (node b l r t h)
      → Shrunk h (remove_first e b l r t h w).1
  unfolding remove_first
  remove_first-Balanced e b null r t h w n = (n.4, omega arith, omega arith)
  remove_first-Balanced e b (node bl ll lr tl hl) r t h w n =
      let (item, w1) = editable e (node b (node bl ll lr tl hl) r t h) w in
      let (first, l, w2) = remove_first e bl ll lr tl hl w1 in
      let (p, hi, lo) = remove_first-Balanced e bl ll lr tl hl w1 n.3 in
      rw (editable_node e b (node bl ll lr tl hl) r t h w) (
        Shrunk-left hl (height r) h n.0 n.1 n.2 (height l) _ hi lo
          (rebalance-Balanced e b l r e h w2 p n.4 (omega arith) (omega arith)))

  remove_root-Balanced :
      (e : ℕ) (b : K × V) (l r : Tree K V) (t h : ℕ) (w : Statistics)
      → Balanced (node b l r t h)
      → Shrunk h (remove_root e b l r t h w).0
  unfolding remove_root
  remove_root-Balanced e b null r t h w n = (n.4, omega arith, omega arith)
  remove_root-Balanced e b (node bl ll lr tl hl) null t h w n = (n.3, omega arith, omega arith)
  remove_root-Balanced e b (node bl ll lr tl hl) (node br rl rr tr hr) t h w n =
      let l = node bl ll lr tl hl in
      let (item, w1) = editable e (node b l (node br rl rr tr hr) t h) w in
      let (first, r, w2) = remove_first e br rl rr tr hr w1 in
      let (p, hi, lo) = remove_first-Balanced e br rl rr tr hr w1 n.4 in
      Shrunk-right hl hr h n.0 n.1 n.2 (height r) _ hi lo
        (rebalance-Balanced e first l r e h w2 n.3 p (omega arith) (omega arith))

module _ {ℓ κ} {K : Type ℓ} {V : Type κ} ⦃o : Comparator K⦄ where
  -- An insertion into a balanced tree gives a balanced tree, whose height is at least the old one and
  -- at most one more.
  pub insert-Balanced :
      (e : ℕ) (t : Tree K V) (k : K) (v : V) (w : Statistics)
      → Balanced t
      → Grown (height t) (insert e t k v w).0
  unfolding insert
  insert-Balanced e null k v w n = omega arith
  insert-Balanced e (node b l r t h) k v w n =
      let (item, w1) = editable e (node b l r t h) w in
      let (l', w2, added) = insert e l k v w1 in
      let (r', w3, added') = insert e r k v w1 in
      let (pl, lol, hil) = insert-Balanced e l k v w1 n.3 in
      let (pr, lor, hir) = insert-Balanced e r k v w1 n.4 in
      elim (Bool-cases (less k b.0)) [
        | inl before ↦
            rw (before, insert, editable_node e b l r t h w)
              (Grown-left (height l) (height r) h n.0 n.1 n.2 (height l') _ lol hil
                (rebalance-Balanced e b l' r e h w2 pl n.4 (omega arith) (omega arith)))
        | inr no_left ↦ elim (Bool-cases (less b.0 k)) [
          | inl after ↦
              rw (no_left, after, insert, editable_node e b l r t h w)
                (Grown-right (height l) (height r) h n.0 n.1 n.2 (height r') _ lor hir
                  (rebalance-Balanced e b l r' e h w3 n.3 pr (omega arith) (omega arith)))
          | inr no_right ↦
              rw (no_left, no_right, insert, editable_node e b l r t h w)
                (n, omega arith, omega arith)
        ]
      ]

  -- A removal from a balanced tree gives a balanced tree, whose height is the old one or one less,
  -- and the old one if nothing is erased.
  pub remove-Balanced :
      (e : ℕ) (t : Tree K V) (k : K) (w : Statistics)
      → Balanced t
      → Shrunk (height t) (remove e t k w).0
        × ((remove e t k w).2 ≡ false → height (remove e t k w).0 ≡ height t)
  unfolding remove
  remove-Balanced e null k w n = ((tt, omega arith, omega arith), λ _. refl)
  remove-Balanced e (node b l r t h) k w n =
      let (item, w1) = editable e (node b l r t h) w in
      let (l', w2, erased) = remove e l k w1 in
      let (r', w3, erased') = remove e r k w1 in
      let ((pl, hil, lol), samel) = remove-Balanced e l k w1 n.3 in
      let ((pr, hir, lor), samer) = remove-Balanced e r k w1 n.4 in
      elim (Bool-cases (less k b.0)) [
        | inl before ↦ elim (Bool-cases erased) [
          | inl out ↦
              rw (before, remove, out, editable_node e b l r t h w)
                (
                  (Shrunk-left (height l) (height r) h n.0 n.1 n.2 (height l') _ hil lol
                      (rebalance-Balanced e b l' r e h w2 pl n.4 (omega arith) (omega arith))),
                  λ (x : true ≡ false). absurd (cc),
                )
          | inr kept ↦
              rw (before, remove, kept, editable_node e b l r t h w)
                ((rw (samel kept) (n.0, n.1, n.2, pl, n.4), omega arith, omega arith), λ x. refl)
        ]
        | inr no_left ↦ elim (Bool-cases (less b.0 k)) [
          | inl after ↦ elim (Bool-cases erased') [
            | inl out ↦
                rw (no_left, after, remove, out, editable_node e b l r t h w)
                  (
                    (Shrunk-right (height l) (height r) h n.0 n.1 n.2 (height r') _ hir lor
                        (rebalance-Balanced e b l r' e h w3 n.3 pr (omega arith) (omega arith))),
                    λ (x : true ≡ false). absurd (cc),
                  )
            | inr kept ↦
                rw (no_left, after, remove, kept, editable_node e b l r t h w)
                  ((rw (samer kept) (n.0, n.1, n.2, n.3, pr), omega arith, omega arith), λ x. refl)
          ]
          | inr no_right ↦
              rw (no_left, no_right, remove)
                (
                  remove_root-Balanced e b l r t h w n,
                  λ (x : (remove_root e b l r t h w).2 ≡ false).
                      absurd (cc (remove_root_flag e b l r t h w)),
                )
        ]
      ]
