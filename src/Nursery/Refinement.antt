-- ===== src/Nursery/Refinement.antt =====
-- nursery_map.h: lookups and edits of a search tree are those of the sorted list of its entries.
use everett.Base.{ℕ, ◌≡◌, refl, sym, ap, ◌∙◌, true, ◌∷◌, ◌++◌, arith, not, append-nil, is_some}
use everett.Nursery.{
  Comparator, Tree, null, node, Statistics, editable, set_left, set_right, remove_first,
  remove_root, entries, find_in, insert, remove,
}
use everett.Nursery.Entries.{
  entries-rebalance, entries-set_left-editable, entries-set_right-editable, left-editable,
  right-editable,
}
use everett.Nursery.Sorted.{
  Sorted, locate, assign, discard, less_asym, Sorted-split, Before-le, locate-skip, assign-skip,
  discard-skip, locate-stop, assign-stop, discard-stop,
}

module _ {ℓ κ} {K : Type ℓ} {V : Type κ} ⦃o : Comparator K⦄ where
  -- In a tree whose entries have rising keys, a lookup is the lookup in the list of its entries.
  pub find_in-locate :
      (t : Tree K V) (k : K) → Sorted (entries t) → find_in t k ≡ locate k (entries t)
  unfolding find_in entries locate
  find_in-locate null k h = refl
  find_in-locate (node b l r t e) k h =
      let (sl, bl, sr) = Sorted-split b (entries l) (entries r) h in
      ground (
        arith,
        find_in-locate l k sl,
        find_in-locate r k sr.1,
        locate-stop k b (entries l) (entries r),
        locate-skip k (entries l) (b ∷ entries r),
        Before-le b.0 k (entries l),
        less_asym b.0 k,
      )

  pub entries-insert :
      (e : ℕ) (t : Tree K V) (k : K) (v : V) (w : Statistics)
      → Sorted (entries t)
      → entries (insert e t k v w).0 ≡ assign k v (entries t)
  unfolding insert entries assign
  entries-insert e null k v w h = refl
  entries-insert e (node b l r t g) k v w h =
      let (sl, bl, sr) = Sorted-split b (entries l) (entries r) h in
      let (item, w1) = editable e (node b l r t g) w in
      let (l', w2, added) = insert e l k v w1 in
      let (r', w3, added') = insert e r k v w1 in
      ground (
        arith,
        entries-insert e l k v w1 sl,
        entries-insert e r k v w1 sr.1,
        entries-rebalance e (set_left item l') w2,
        entries-rebalance e (set_right item r') w3,
        entries-set_left-editable e b l r l' t g w,
        entries-set_right-editable e b l r r' t g w,
        left-editable e b l r t g w,
        right-editable e b l r t g w,
        assign-stop k v b (entries l) (entries r),
        assign-skip k v (entries l) (b ∷ entries r),
        Before-le b.0 k (entries l),
        less_asym b.0 k,
      )

  entries-remove_first :
      (e : ℕ) (b : K × V) (l r : Tree K V) (t h : ℕ) (w : Statistics)
      → let (first, item, w') = remove_first e b l r t h w in
        (first ∷ entries item) ≡ entries l ++ (b ∷ entries r)
  unfolding remove_first entries
  entries-remove_first e b null r t h w = refl
  entries-remove_first e b (node bl ll lr tl hl) r t h w =
      let (item, w1) = editable e (node b (node bl ll lr tl hl) r t h) w in
      let (first, l, w2) = remove_first e bl ll lr tl hl w1 in
      ap (λ x. first ∷ x)
        (entries-rebalance e (set_left item l) w2
          ∙ entries-set_left-editable e b (node bl ll lr tl hl) r l t h w)
      ∙ ap (λ x. x ++ (b ∷ entries r)) (entries-remove_first e bl ll lr tl hl w1)

  entries-remove_root :
      (e : ℕ) (b : K × V) (l r : Tree K V) (t h : ℕ) (w : Statistics)
      → entries (remove_root e b l r t h w).0 ≡ entries l ++ entries r
  unfolding remove_root entries
  entries-remove_root e b null r t h w = refl
  entries-remove_root e b (node bl ll lr tl hl) null t h w = sym (append-nil _)
  entries-remove_root e b (node bl ll lr tl hl) (node br rl rr tr hr) t h w =
      let l = node bl ll lr tl hl in
      let (item, w1) = editable e (node b l (node br rl rr tr hr) t h) w in
      let (first, r, w2) = remove_first e br rl rr tr hr w1 in
      entries-rebalance e (node first l r e h) w2
      ∙ ap (λ x. entries l ++ x) (entries-remove_first e br rl rr tr hr w1)

  pub entries-remove :
      (e : ℕ) (t : Tree K V) (k : K) (w : Statistics)
      → Sorted (entries t)
      → entries (remove e t k w).0 ≡ discard k (entries t)
  unfolding remove entries discard
  entries-remove e null k w h = refl
  entries-remove e (node b l r t g) k w h =
      let (sl, bl, sr) = Sorted-split b (entries l) (entries r) h in
      let (item, w1) = editable e (node b l r t g) w in
      let (l', w2, erased) = remove e l k w1 in
      let (r', w3, erased') = remove e r k w1 in
      ground (
        arith,
        entries-remove e l k w1 sl,
        entries-remove e r k w1 sr.1,
        entries-rebalance e (set_left item l') w2,
        entries-rebalance e (set_right item r') w3,
        entries-set_left-editable e b l r l' t g w,
        entries-set_right-editable e b l r r' t g w,
        entries-remove_root e b l r t g w,
        discard-stop k b (entries l) (entries r),
        discard-skip k (entries l) (b ∷ entries r),
        Before-le b.0 k (entries l),
        less_asym b.0 k,
      )

  -- The flags: a key was added unless it was there, and erased if it was there.
  pub insert_flag :
      (e : ℕ) (t : Tree K V) (k : K) (v : V) (w : Statistics)
      → (insert e t k v w).2 ≡ not (is_some (find_in t k))
  unfolding insert find_in
  insert_flag e null k v w = refl
  insert_flag e (node b l r t g) k v w =
      let (item, w1) = editable e (node b l r t g) w in
      ground (arith, insert_flag e l k v w1, insert_flag e r k v w1)

  pub remove_root_flag :
      (e : ℕ) (b : K × V) (l r : Tree K V) (t h : ℕ) (w : Statistics)
      → (remove_root e b l r t h w).2 ≡ true
  unfolding remove_root
  remove_root_flag e b null r t h w = refl
  remove_root_flag e b (node bl ll lr tl hl) null t h w = refl
  remove_root_flag e b (node bl ll lr tl hl) (node br rl rr tr hr) t h w = refl

  pub remove_flag :
      (e : ℕ) (t : Tree K V) (k : K) (w : Statistics) → (remove e t k w).2 ≡ is_some (find_in t k)
  unfolding remove find_in
  remove_flag e null k w = refl
  remove_flag e (node b l r t g) k w =
      let (item, w1) = editable e (node b l r t g) w in
      ground (arith, remove_flag e l k w1, remove_flag e r k w1, remove_root_flag e b l r t g w)
