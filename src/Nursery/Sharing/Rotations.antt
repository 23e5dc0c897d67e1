-- ===== src/Nursery/Sharing/Rotations.antt =====
-- nursery_map.h: rotations change in place only the nodes that `editable` made the edit's own.
use everett.Base.{ℕ, inl, inr, Bool-cases}
use everett.Nursery.{
  Tree, Statistics, editable, left, right, set_left, set_right, rotate_left, rotate_right,
  straighten_left, straighten_right, shrink_left, shrink_right, rebalance, right_exceeds,
  left_exceeds, refresh,
}
use everett.Nursery.Sharing.{
  Owned, Owned→Shares, editable-Owned, hang_left-Owned, hang_right-Owned, Owned-left, Owned-right,
  set_left-Owned, set_right-Owned, refresh-Owned,
}

module _ {ℓ κ} {K : Type ℓ} {V : Type κ} where
  rotate_left-Owned :
      (e : ℕ) (old t : Tree K V) (w : Statistics)
      → Owned e old t
      → Owned e old (rotate_left e t w).0
  unfolding rotate_left
  rotate_left-Owned e old t w h =
      hang_left-Owned e old t _ h (editable-Owned e old (right t) w (Owned-right e old t h))

  straighten_left-Owned :
      (e : ℕ) (old t : Tree K V) (w : Statistics)
      → Owned e old t
      → Owned e old (straighten_left e t w).0
  unfolding straighten_left
  straighten_left-Owned e old t w h = elim (Bool-cases (right_exceeds t 0)) [
    | inl more ↦ rw more (rotate_left-Owned e old t w h)
    | inr less ↦ rw less h
  ]

  rotate_right-Owned :
      (e : ℕ) (old t : Tree K V) (w : Statistics)
      → Owned e old t
      → Owned e old (rotate_right e t w).0
  unfolding rotate_right
  rotate_right-Owned e old t w h =
      hang_right-Owned e old t _ h (editable-Owned e old (left t) w (Owned-left e old t h))

  straighten_right-Owned :
      (e : ℕ) (old t : Tree K V) (w : Statistics)
      → Owned e old t
      → Owned e old (straighten_right e t w).0
  unfolding straighten_right
  straighten_right-Owned e old t w h = elim (Bool-cases (left_exceeds t 0)) [
    | inl more ↦ rw more (rotate_right-Owned e old t w h)
    | inr less ↦ rw less h
  ]

  shrink_left-Owned :
      (e : ℕ) (old t : Tree K V) (w : Statistics)
      → Owned e old t
      → Owned e old (shrink_left e t w).0
  unfolding shrink_left
  shrink_left-Owned e old t w h =
      let (l, w1) = editable e (left t) w in
      let (l', w2) = straighten_left e l w1 in
      rotate_right-Owned e old (set_left t l') w2 (
        set_left-Owned e old t l' h (
          Owned→Shares e old l' (
            straighten_left-Owned e old l w1
              (editable-Owned e old (left t) w (Owned-left e old t h)))))

  shrink_right-Owned :
      (e : ℕ) (old t : Tree K V) (w : Statistics)
      → Owned e old t
      → Owned e old (shrink_right e t w).0
  unfolding shrink_right
  shrink_right-Owned e old t w h =
      let (r, w1) = editable e (right t) w in
      let (r', w2) = straighten_right e r w1 in
      rotate_left-Owned e old (set_right t r') w2 (
        set_right-Owned e old t r' h (
          Owned→Shares e old r' (
            straighten_right-Owned e old r w1
              (editable-Owned e old (right t) w (Owned-right e old t h)))))

  pub rebalance-Owned :
      (e : ℕ) (old t : Tree K V) (w : Statistics) → Owned e old t → Owned e old (rebalance e t w).0
  unfolding rebalance
  rebalance-Owned e old t w h =
      let item = refresh t in
      let k = refresh-Owned e old t h in
      elim (Bool-cases (left_exceeds item 1)) [
        | inl more ↦ rw more (shrink_left-Owned e old item w k)
        | inr less ↦ elim (Bool-cases (right_exceeds item 1)) [
          | inl more ↦ rw (less, more) (shrink_right-Owned e old item w k)
          | inr less' ↦ rw (less, less') k
        ]
      ]
