-- ===== src/Nursery/Map/Tokens.antt =====
-- nursery_map.h: whose tokens the nodes of a map carry, after any history of edits.
use everett.Base.{
  ℕ, ◌<◌, ◌≤◌, ◌≡◌, refl, ap, ◌∙◌, inl, inr, false, List, [], ◌∷◌, Option, none, some, arith,
}
use everett.Nursery.{Comparator, Tree, null, node, Statistics}
use everett.Nursery.Sharing.{Shares, Part, here, in_left, in_right, Part→Shares, Owned→Shares}
use everett.Nursery.Sharing.Edits.{insert-Owned, remove-Shares}
use everett.Nursery.Map.{NurseryMap, EditToken, closed, begin_edit}
use everett.Nursery.Map.Laws.{inserted, erased}
use everett.Nursery.Map.History.{Edit, assigning, erasing, run, step_assigning, step_erasing}

-- The token of an edit serves the next edit too, unless a freeze comes between.
begin_edit_again :
    (edit : Option EditToken) (fresh next : ℕ)
    → let t = (begin_edit edit fresh).0 in begin_edit (some t) next ≡ (t, next)
unfolding begin_edit
begin_edit_again none fresh next = refl
begin_edit_again (some t) fresh next = ground arith

-- A closed token is not used again.
pub begin_edit-closed :
    (edit : Option EditToken) (fresh : ℕ) → (begin_edit (closed edit) fresh).0.id ≡ fresh
unfolding begin_edit
begin_edit-closed none fresh = refl
begin_edit-closed (some t) fresh = refl

module _ {ℓ κ} {K : Type ℓ} {V : Type κ} ⦃o : Comparator K⦄ where
  -- Each token in the tree was drawn before.
  abbrev pub TokensBelow : ℕ → Tree K V → Type 0
  TokensBelow n null = Unit {0}
  TokensBelow n (node b l r t h) = (t < n) × TokensBelow n l × TokensBelow n r

  -- While one token stays open, every edit shares the old tree.
  pub run-Shares :
      (es : List (Edit K V)) (m : NurseryMap K V) (e fresh : ℕ) (old : Tree K V)
      → (begin_edit m.edit fresh).0.id ≡ e
      → m.failed ≡ false
      → Shares e old m.root
      → Shares e old (run (m, fresh) es).0.root
  unfolding run
  run-Shares [] m e fresh old t live s = s
  run-Shares (assigning k v ∷ es) m e fresh old t live s =
      let (t', next) = begin_edit m.edit fresh in
      rw (step_assigning m fresh k v live, run)
        (run-Shares es (inserted m k v fresh) e next old
          (ap (λ x. x.0.id) (begin_edit_again m.edit fresh next) ∙ t) live
          (rw t (Owned→Shares e old _ (insert-Owned e old m.root k v m.work s))))
  run-Shares (erasing k ∷ es) m e fresh old t live s =
      let (t', next) = begin_edit m.edit fresh in
      rw (step_erasing m fresh k live, run)
        (run-Shares es (erased m k fresh) e next old
          (ap (λ x. x.0.id) (begin_edit_again m.edit fresh next) ∙ t) live
          (rw t (remove-Shares e old m.root k m.work s)))

  Part-below : (n : ℕ) (t old : Tree K V) → Part t old → TokensBelow n old → TokensBelow n t
  Part-below n t old here h = h
  Part-below n t (node b l r t' g) (in_left p) h = Part-below n t l p h.1
  Part-below n t (node b l r t' g) (in_right p) h = Part-below n t r p h.2

  below_mono : (m n : ℕ) (t : Tree K V) → m ≤ n → TokensBelow m t → TokensBelow n t
  below_mono m n null d h = tt
  below_mono m n (node b l r t g) d h =
      (omega arith, below_mono m n l d h.1, below_mono m n r d h.2)

  Shares-below :
      (n e : ℕ) (old t : Tree K V) → Shares e old t → e < n → TokensBelow n old → TokensBelow n t
  Shares-below n e old null s d h = tt
  Shares-below n e old (node b l r t g) (inl p) d h = Part-below n (node b l r t g) old p h
  Shares-below n e old (node b l r t g) (inr (q, sl, sr)) d h =
      (omega arith, Shares-below n e old l sl d h, Shares-below n e old r sr d h)

  -- Every token in use was drawn from the supply.
  pub record Drawn (m : NurseryMap K V) (fresh : ℕ) : Type 0 where
    pub nodes : TokensBelow fresh m.root
    pub current : (begin_edit m.edit fresh).0.id < (begin_edit m.edit fresh).1
    pub rising : fresh ≤ (begin_edit m.edit fresh).1

  still_Drawn :
      (m : NurseryMap K V) (root : Tree K V) (n : ℕ) (w : Statistics) (fresh : ℕ)
      → Shares (begin_edit m.edit fresh).0.id m.root root
      → Drawn m fresh
      → let (t, next) = begin_edit m.edit fresh in
        Drawn (record m { root = root; edit = some t; size = n; work = w }) next
  still_Drawn m root n w fresh s d =
      let (t, next) = begin_edit m.edit fresh in
      record {
        nodes =
            Shares-below next t.id m.root root s d.current
              (below_mono fresh next m.root d.rising d.nodes);
        current = rw (begin_edit_again m.edit fresh next) d.current;
        rising = rw (begin_edit_again m.edit fresh next) (omega arith);
      }

  -- Every history of edits on a live map keeps what `Drawn` says: the token of every node is below
  -- the next of the supply, and so is the token that the next edit carries, once it is drawn.
  pub run-Drawn :
      (es : List (Edit K V)) (m : NurseryMap K V) (fresh : ℕ)
      → Drawn m fresh
      → m.failed ≡ false
      → let (m', fresh') = run (m, fresh) es in Drawn m' fresh'
  unfolding run
  run-Drawn [] m fresh d live = d
  run-Drawn (assigning k v ∷ es) m fresh d live =
      let (t, next) = begin_edit m.edit fresh in
      let m' = inserted m k v fresh in
      rw (step_assigning m fresh k v live, run)
        (run-Drawn es m' next
          (still_Drawn m m'.root m'.size m'.work fresh
            (Owned→Shares t.id m.root m'.root
              (insert-Owned t.id m.root m.root k v m.work (Part→Shares t.id m.root m.root here)))
            d)
          live)
  run-Drawn (erasing k ∷ es) m fresh d live =
      let (t, next) = begin_edit m.edit fresh in
      let m' = erased m k fresh in
      rw (step_erasing m fresh k live, run)
        (run-Drawn es m' next
          (still_Drawn m m'.root m'.size m'.work fresh
            (remove-Shares t.id m.root m.root k m.work (Part→Shares t.id m.root m.root here)) d)
          live)
