-- ===== src/Nursery.antt =====
-- include/everett/nursery_map.h: the transient AVL map, its nodes and its edits.
-- A `node_pointer` is a tree: `null` is the null pointer. An edit token is known by a number, and a
-- node records the token under which it was made, so that an edit in place (the node carries the
-- current token) and a copied node are told apart, and counted, as in the source.
mod Entries
pub mod Sorted
mod Laws
pub mod Refinement
pub mod Balance
pub mod Size
pub mod Sharing
pub mod Map
mod Examples
use everett.Base.{
  ℕ, ◌+◌, ◌≡◌, ◌⊎◌, Bool, true, false, List, [], ◌∷◌, ◌++◌, Option, none, some, max, ltb, ◌==◌,
  if◌then◌else◌,
}

-- `Compare`: the comparator, with the strict weak order that the header asks of it.
pub record Comparator {ℓ} (K : Type ℓ) : Type ℓ where
  pub less : K → K → Bool
  pub irreflexive : (a : K) → less a a ≡ false
  pub transitive : (a b c : K) → less a b ≡ true → less b c ≡ true → less a c ≡ true
  pub cotransitive : (a b c : K) → less a c ≡ true → (less a b ≡ true) ⊎ (less b c ≡ true)

abbrev pub less {ℓ} : {K : Type ℓ} ⦃o : Comparator K⦄ → K → K → Bool
less ⦃o⦄ = o.less

pub record Statistics : Type 0 where
  pub nodes_created : ℕ
  pub path_copies : ℕ
  pub rotations : ℕ

abbrev rotated : Statistics → Statistics
rotated w = record w { rotations = w.rotations + 1 }

pub data Tree {ℓ κ} (K : Type ℓ) (V : Type κ) : Type (ℓ ⊔ κ) where
  null : Tree K V
  node : (entry : K × V) (left right : Tree K V) (edit height : ℕ) → Tree K V

module _ {ℓ κ} {K : Type ℓ} {V : Type κ} where
  -- A pass over a node returns the item, which may be another node, and the work so far.
  unfoldable pub editable : ℕ → Tree K V → Statistics → Tree K V × Statistics
  editable e null w = (null, w)
  editable e (node b l r t h) w = if t == e then (node b l r t h, w) else (
    node b l r e h,
    record w { nodes_created = w.nodes_created + 1; path_copies = w.path_copies + 1 },
  )

  abbrev pub height : Tree K V → ℕ
  height null = 0
  height (node b l r t h) = h

  abbrev pub left : Tree K V → Tree K V
  left null = null
  left (node b l r t h) = l

  abbrev pub right : Tree K V → Tree K V
  right null = null
  right (node b l r t h) = r

  abbrev pub set_left : Tree K V → Tree K V → Tree K V
  set_left null l' = null
  set_left (node b l r t h) l' = node b l' r t h

  abbrev pub set_right : Tree K V → Tree K V → Tree K V
  set_right null r' = null
  set_right (node b l r t h) r' = node b l r' t h

  abbrev pub refresh : Tree K V → Tree K V
  refresh null = null
  refresh (node b l r t h) = node b l r t (1 + max (height l) (height r))

  -- `item->right = next->left; refresh(item); next->left = item; refresh(next)`. The source
  -- dereferences both; `rebalance` calls this on nodes alone.
  abbrev pub hang_left : Tree K V → Tree K V → Tree K V
  hang_left item null = item
  hang_left item (node b l r t h) = refresh (node b (refresh (set_right item l)) r t h)

  abbrev pub hang_right : Tree K V → Tree K V → Tree K V
  hang_right item null = item
  hang_right item (node b l r t h) = refresh (node b l (refresh (set_left item r)) t h)

  unfoldable pub rotate_left : ℕ → Tree K V → Statistics → Tree K V × Statistics
  rotate_left e item w =
      let (next, w') = editable e (right item) w in (hang_left item next, rotated w')

  unfoldable pub rotate_right : ℕ → Tree K V → Statistics → Tree K V × Statistics
  rotate_right e item w =
      let (next, w') = editable e (left item) w in (hang_right item next, rotated w')

  -- `balance(item) > n` and `balance(item) < -n`: the difference of the heights of the children.
  abbrev pub left_exceeds : Tree K V → ℕ → Bool
  left_exceeds item n = ltb (height (right item) + n) (height (left item))

  abbrev pub right_exceeds : Tree K V → ℕ → Bool
  right_exceeds item n = ltb (height (left item) + n) (height (right item))

  -- `if (balance(child) < 0) rotate_left(child)`
  unfoldable pub straighten_left : ℕ → Tree K V → Statistics → Tree K V × Statistics
  straighten_left e child w = if right_exceeds child 0 then rotate_left e child w else (child, w)

  -- The branch of `rebalance` for a high left child.
  unfoldable pub shrink_left : ℕ → Tree K V → Statistics → Tree K V × Statistics
  shrink_left e item w =
      let (l, w1) = editable e (left item) w in
      let (l', w2) = straighten_left e l w1 in rotate_right e (set_left item l') w2

  -- `if (balance(child) > 0) rotate_right(child)`
  unfoldable pub straighten_right : ℕ → Tree K V → Statistics → Tree K V × Statistics
  straighten_right e child w = if left_exceeds child 0 then rotate_right e child w else (child, w)

  -- The branch of `rebalance` for a high right child.
  unfoldable pub shrink_right : ℕ → Tree K V → Statistics → Tree K V × Statistics
  shrink_right e item w =
      let (r, w1) = editable e (right item) w in
      let (r', w2) = straighten_right e r w1 in rotate_left e (set_right item r') w2

  unfoldable pub rebalance : ℕ → Tree K V → Statistics → Tree K V × Statistics
  rebalance e item w =
      let item' = refresh item in
      if left_exceeds item' 1
      then shrink_left e item' w
      else if right_exceeds item' 1
      then shrink_right e item' w
      else (item', w)

  -- `remove_first(item)` on the node with the fields given: the entry, the new item, the work.
  unfoldable pub remove_first :
      ℕ → K × V → Tree K V → Tree K V → ℕ → ℕ → Statistics → (K × V) × Tree K V × Statistics
  remove_first e b null r t h w = (b, r, w)
  remove_first e b (node bl ll lr tl hl) r t h w =
      let (item, w1) = editable e (node b (node bl ll lr tl hl) r t h) w in
      let (first, l, w2) = remove_first e bl ll lr tl hl w1 in
      let (item', w3) = rebalance e (set_left item l) w2 in (first, item', w3)

  abbrev pub drop_root : Tree K V → Tree K V → Tree K V
  drop_root null r = r
  drop_root (node b l r t h) r' = node b l r t h

  -- The equal branch of `remove`, on the children of the node.
  unfoldable pub remove_root :
      ℕ → K × V → Tree K V → Tree K V → ℕ → ℕ → Statistics → Tree K V × Statistics × Bool
  remove_root e b null r t h w = (r, w, true)
  remove_root e b (node bl ll lr tl hl) null t h w = (node bl ll lr tl hl, w, true)
  remove_root e b (node bl ll lr tl hl) (node br rl rr tr hr) t h w =
      let l = node bl ll lr tl hl in
      let (item, w1) = editable e (node b l (node br rl rr tr hr) t h) w in
      let (first, r, w2) = remove_first e br rl rr tr hr w1 in
      let (item', w3) = rebalance e (node first l r e h) w2 in (item', w3, true)

  -- `visit_in`, as the list of the entries in the order of the visits.
  unfoldable pub entries : Tree K V → List (K × V)
  entries null = []
  entries (node b l r t h) = entries l ++ (b ∷ entries r)

module _ {ℓ κ} {K : Type ℓ} {V : Type κ} ⦃o : Comparator K⦄ where
  unfoldable pub find_in : Tree K V → K → Option V
  find_in null k = none
  find_in (node b l r t h) k = elim (less k b.0) [
    | true ↦ find_in l k
    | false ↦ elim (less b.0 k) [ true ↦ find_in r k | false ↦ some b.1 ]
  ]

  -- The new item, the work, and whether a key was added.
  unfoldable pub insert : ℕ → Tree K V → K → V → Statistics → Tree K V × Statistics × Bool
  insert e null k v w =
      (node (k, v) null null e 1, record w { nodes_created = w.nodes_created + 1 }, true)
  insert e (node b l r t h) k v w =
      let (item, w1) = editable e (node b l r t h) w in
      elim (less k b.0) [
        | true ↦
            let (l', w2, added) = insert e l k v w1 in
            let (item', w3) = rebalance e (set_left item l') w2 in (item', w3, added)
        | false ↦ elim (less b.0 k) [
          | true ↦
              let (r', w2, added) = insert e r k v w1 in
              let (item', w3) = rebalance e (set_right item r') w2 in (item', w3, added)
          | false ↦ (node (b.0, v) (left item) (right item) e h, w1, false)
        ]
      ]

  -- The new item, the work, and whether a key was erased.
  unfoldable pub remove : ℕ → Tree K V → K → Statistics → Tree K V × Statistics × Bool
  remove e null k w = (null, w, false)
  remove e (node b l r t h) k w =
      let (item, w1) = editable e (node b l r t h) w in
      elim (less k b.0) [
        | true ↦
            let (l', w2, erased) = remove e l k w1 in
            let (item', w3) = rebalance e (set_left item l') w2 in
            if erased then (item', w3, true) else (set_left item l', w2, false)
        | false ↦ elim (less b.0 k) [
          | true ↦
              let (r', w2, erased) = remove e r k w1 in
              let (item', w3) = rebalance e (set_right item r') w2 in
              if erased then (item', w3, true) else (set_right item r', w2, false)
          | false ↦ remove_root e b l r t h w
        ]
      ]
