-- ===== src/Nursery/Map/History.antt =====
-- nursery_map.h: any history of edits, against the sorted list.
use everett.Base.{ℕ, ◌≡◌, refl, ap, ◌∙◌, false, List, [], ◌∷◌, none, Result, ok, raise}
use everett.Nursery.{Comparator, entries}
use everett.Nursery.Sorted.{locate, assign, discard}
use everett.Nursery.Refinement.{find_in-locate, entries-insert, entries-remove}
use everett.Nursery.Map.{NurseryMap, Outcome, begin_edit, find, insert_or_assign, erase}
use everett.Nursery.Map.Laws.{Valid, inserted, erased, inserted-Valid, erased-Valid}

pub data Edit {ℓ κ} (K : Type ℓ) (V : Type κ) : Type (ℓ ⊔ κ) where
  assigning : K → V → Edit K V
  erasing : K → Edit K V

module _ {ℓ κ} {K : Type ℓ} {V : Type κ} ⦃o : Comparator K⦄ where
  -- A refused call leaves the map, and the supply of tokens.
  abbrev after : NurseryMap K V × ℕ → Result (Outcome × NurseryMap K V × ℕ) → NurseryMap K V × ℕ
  after s (ok (flag, m, fresh)) = (m, fresh)
  after s (raise e) = s

  unfoldable pub step : NurseryMap K V × ℕ → Edit K V → NurseryMap K V × ℕ
  step (m, fresh) (assigning k v) = after (m, fresh) (insert_or_assign none m k v fresh)
  step (m, fresh) (erasing k) = after (m, fresh) (erase none m k fresh)

  unfoldable pub run : NurseryMap K V × ℕ → List (Edit K V) → NurseryMap K V × ℕ
  run s [] = s
  run s (e ∷ es) = run (step s e) es

  -- The same history on the list of the entries.
  unfoldable pub replay : List (K × V) → List (Edit K V) → List (K × V)
  replay bs [] = bs
  replay bs (assigning k v ∷ es) = replay (assign k v bs) es
  replay bs (erasing k ∷ es) = replay (discard k bs) es

  pub step_assigning :
      (m : NurseryMap K V) (fresh : ℕ) (k : K) (v : V)
      → m.failed ≡ false
      → step (m, fresh) (assigning k v) ≡ (inserted m k v fresh, (begin_edit m.edit fresh).1)
  unfolding step insert_or_assign
  step_assigning m fresh k v live = rw live

  pub step_erasing :
      (m : NurseryMap K V) (fresh : ℕ) (k : K)
      → m.failed ≡ false
      → step (m, fresh) (erasing k) ≡ (erased m k fresh, (begin_edit m.edit fresh).1)
  unfolding step erase
  step_erasing m fresh k live = rw live

  -- No edit of the history makes the map fail.
  pub run-live :
      (es : List (Edit K V)) (m : NurseryMap K V) (fresh : ℕ)
      → m.failed ≡ false
      → (run (m, fresh) es).0.failed ≡ false
  unfolding run
  run-live [] m fresh live = live
  run-live (assigning k v ∷ es) m fresh live =
      rw (step_assigning m fresh k v live, run)
        (run-live es (inserted m k v fresh) (begin_edit m.edit fresh).1 live)
  run-live (erasing k ∷ es) m fresh live =
      rw (step_erasing m fresh k live, run)
        (run-live es (erased m k fresh) (begin_edit m.edit fresh).1 live)

  pub run-Valid :
      (es : List (Edit K V)) (m : NurseryMap K V) (fresh : ℕ)
      → Valid m
      → m.failed ≡ false
      → let m' = (run (m, fresh) es).0 in (entries m'.root ≡ replay (entries m.root) es) × Valid m'
  unfolding run replay
  run-Valid [] m fresh h live = (refl, h)
  run-Valid (assigning k v ∷ es) m fresh h live =
      let (t, next) = begin_edit m.edit fresh in
      rw (step_assigning m fresh k v live, run)
        (rw (← entries-insert t.id m.root k v m.work h.sorted)
          (run-Valid es (inserted m k v fresh) next (inserted-Valid m k v fresh h) live))
  run-Valid (erasing k ∷ es) m fresh h live =
      let (t, next) = begin_edit m.edit fresh in
      rw (step_erasing m fresh k live, run)
        (rw (← entries-remove t.id m.root k m.work h.sorted)
          (run-Valid es (erased m k fresh) next (erased-Valid m k fresh h) live))

  -- After any history of insertions and erasures, none of which throws, on a valid map that is live:
  -- the entries are those of the sorted list that replays the history, the map is valid again, and
  -- every lookup is the one in that list.
  pub run-replay :
      (es : List (Edit K V)) (m : NurseryMap K V) (fresh : ℕ) (j : K)
      → Valid m
      → m.failed ≡ false
      → let m' = (run (m, fresh) es).0 in
        (entries m'.root ≡ replay (entries m.root) es)
        × Valid m'
        × (find m' j ≡ ok (locate j (replay (entries m.root) es)))
  unfolding find
  run-replay es m fresh j h live =
      let m' = (run (m, fresh) es).0 in
      let (list, h') = run-Valid es m fresh h live in
      (
        list,
        h',
        rw (run-live es m fresh live)
            (ap ok (find_in-locate m'.root j h'.sorted ∙ ap (locate j) list)),
      )
