-- ===== src/Nursery/Sharing/Edits.antt =====
-- nursery_map.h: what an insertion and a removal share with the tree that they began with.
use everett.Base.{ℕ, inl, inr, refl, Bool-cases}
use everett.Nursery.{
  Tree, node, null, Statistics, editable, set_left, set_right, remove_first, remove_root,
}
use everett.Nursery.Sharing.{
  Shares, Owned, Owned→Shares, Shares-left, Shares-right, editable-Owned, Owned-left, Owned-right,
  set_left-Owned, set_right-Owned,
}
use everett.Nursery.Sharing.Rotations.{rebalance-Owned}
use everett.Nursery.{Comparator, less, insert, remove}

module _ {ℓ κ} {K : Type ℓ} {V : Type κ} where
  remove_first-Shares :
      (e : ℕ) (old : Tree K V) (b : K × V) (l r : Tree K V) (t h : ℕ) (w : Statistics)
      → Shares e old (node b l r t h)
      → Shares e old (remove_first e b l r t h w).1
  unfolding remove_first
  remove_first-Shares e old b null r t h w s = Shares-right e old b null r t h s
  remove_first-Shares e old b (node bl ll lr tl hl) r t h w s =
      let (item, w1) = editable e (node b (node bl ll lr tl hl) r t h) w in
      let (first, l, w2) = remove_first e bl ll lr tl hl w1 in
      Owned→Shares e old _ (
        rebalance-Owned e old (set_left item l) w2 (
          set_left-Owned e old item l
            (editable-Owned e old (node b (node bl ll lr tl hl) r t h) w s)
            (remove_first-Shares e old bl ll lr tl hl w1
              (Shares-left e old b (node bl ll lr tl hl) r t h s))))

  remove_root-Shares :
      (e : ℕ) (old : Tree K V) (b : K × V) (l r : Tree K V) (t h : ℕ) (w : Statistics)
      → Shares e old (node b l r t h)
      → Shares e old (remove_root e b l r t h w).0
  unfolding remove_root
  remove_root-Shares e old b null r t h w s = Shares-right e old b null r t h s
  remove_root-Shares e old b (node bl ll lr tl hl) null t h w s =
      Shares-left e old b (node bl ll lr tl hl) null t h s
  remove_root-Shares e old b (node bl ll lr tl hl) (node br rl rr tr hr) t h w s =
      let l = node bl ll lr tl hl in
      let (item, w1) = editable e (node b l (node br rl rr tr hr) t h) w in
      let (first, r, w2) = remove_first e br rl rr tr hr w1 in
      Owned→Shares e old _ (
        rebalance-Owned e old (node first l r e h) w2 (
          refl,
          Shares-left e old b l (node br rl rr tr hr) t h s,
          remove_first-Shares e old br rl rr tr hr w1
              (Shares-right e old b l (node br rl rr tr hr) t h s),
        ))

module _ {ℓ κ} {K : Type ℓ} {V : Type κ} ⦃o : Comparator K⦄ where
  -- An insertion: each node of the result carries the token, or is one of the old tree's, unchanged.
  pub insert-Owned :
      (e : ℕ) (old t : Tree K V) (k : K) (v : V) (w : Statistics)
      → Shares e old t
      → Owned e old (insert e t k v w).0
  unfolding insert
  insert-Owned e old null k v w s = (refl, tt, tt)
  insert-Owned e old (node b l r t h) k v w s =
      let (item, w1) = editable e (node b l r t h) w in
      let (l', w2, added) = insert e l k v w1 in
      let (r', w3, added') = insert e r k v w1 in
      let own = editable-Owned e old (node b l r t h) w s in
      let sl = Shares-left e old b l r t h s in
      let sr = Shares-right e old b l r t h s in
      let ol = Owned→Shares e old l' (insert-Owned e old l k v w1 sl) in
      let or = Owned→Shares e old r' (insert-Owned e old r k v w1 sr) in
      elim (Bool-cases (less k b.0)) [
        | inl before ↦
            rw (before, insert)
              (rebalance-Owned e old (set_left item l') w2 (set_left-Owned e old item l' own ol))
        | inr no_left ↦ elim (Bool-cases (less b.0 k)) [
          | inl after ↦
              rw (no_left, after, insert)
                (rebalance-Owned e old (set_right item r') w3
                  (set_right-Owned e old item r' own or))
          | inr no_right ↦
              rw (no_left, no_right, insert)
                (refl, Owned-left e old item own, Owned-right e old item own)
        ]
      ]

  pub remove-Shares :
      (e : ℕ) (old t : Tree K V) (k : K) (w : Statistics)
      → Shares e old t
      → Shares e old (remove e t k w).0
  unfolding remove
  remove-Shares e old null k w s = tt
  remove-Shares e old (node b l r t h) k w s =
      let (item, w1) = editable e (node b l r t h) w in
      let (l', w2, erased) = remove e l k w1 in
      let (r', w3, erased') = remove e r k w1 in
      let own = editable-Owned e old (node b l r t h) w s in
      let ol = remove-Shares e old l k w1 (Shares-left e old b l r t h s) in
      let or = remove-Shares e old r k w1 (Shares-right e old b l r t h s) in
      let setl = set_left-Owned e old item l' own ol in
      let setr = set_right-Owned e old item r' own or in
      elim (Bool-cases (less k b.0)) [
        | inl before ↦ elim (Bool-cases erased) [
          | inl out ↦
              rw (before, out, remove)
                (Owned→Shares e old _ (rebalance-Owned e old (set_left item l') w2 setl))
          | inr kept ↦ rw (before, kept, remove) (Owned→Shares e old _ setl)
        ]
        | inr no_left ↦ elim (Bool-cases (less b.0 k)) [
          | inl after ↦ elim (Bool-cases erased') [
            | inl out ↦
                rw (no_left, after, out, remove)
                  (Owned→Shares e old _ (rebalance-Owned e old (set_right item r') w3 setr))
            | inr kept ↦ rw (no_left, after, kept, remove) (Owned→Shares e old _ setr)
          ]
          | inr no_right ↦ rw (no_left, no_right, remove) (remove_root-Shares e old b l r t h w s)
        ]
      ]
