-- ===== src/Nursery/Map/Laws.antt =====
-- nursery_map.h: what the operations of a map promise.
use everett.Base.{
  ℕ, ◌+◌, ◌-◌, ◌≡◌, sym, subst, ap, false, not, none, some, if◌then◌else◌, ok, length, is_some,
  arith,
}
use everett.Nursery.{Comparator, entries, find_in, insert, remove}
use everett.Nursery.Sorted.{
  equivalent, Sorted, locate, assign-Sorted, discard-Sorted, length-assign, length-discard,
}
use everett.Nursery.Laws.{locate-assign, locate-discard}
use everett.Nursery.Refinement.{
  find_in-locate, entries-insert, entries-remove, insert_flag, remove_flag,
}
use everett.Nursery.Balance.{Balanced}
use everett.Nursery.Balance.Edits.{insert-Balanced, remove-Balanced}
use everett.Nursery.Map.{NurseryMap, returned, begin_edit, find, insert_or_assign, erase}

module _ {ℓ κ} {K : Type ℓ} {V : Type κ} ⦃o : Comparator K⦄ where
  -- The keys of the map rise, its tree is balanced, and its size is the number of its entries.
  pub record Valid (m : NurseryMap K V) : Type 0 where
    pub sorted : Sorted (entries m.root)
    pub balanced : Balanced m.root
    pub counted : m.size ≡ length (entries m.root)

  -- The map after an insertion that does not throw, and after an erasure.
  abbrev pub inserted : NurseryMap K V → K → V → ℕ → NurseryMap K V
  inserted m k v fresh =
      let t = (begin_edit m.edit fresh).0 in
      let (root, work, added) = insert t.id m.root k v m.work in
      record m { root = root; edit = some t; size = m.size + (if added then 1 else 0); work = work }

  abbrev pub erased : NurseryMap K V → K → ℕ → NurseryMap K V
  erased m k fresh =
      let t = (begin_edit m.edit fresh).0 in
      let (root, work, out) = remove t.id m.root k m.work in
      record m { root = root; edit = some t; size = m.size - (if out then 1 else 0); work = work }

  pub inserted-Valid :
      (m : NurseryMap K V) (k : K) (v : V) (fresh : ℕ) → Valid m → Valid (inserted m k v fresh)
  inserted-Valid m k v fresh h =
      let e = (begin_edit m.edit fresh).0.id in
      let list = entries-insert e m.root k v m.work h.sorted in
      record {
        sorted = subst Sorted (sym list) (assign-Sorted k v (entries m.root) h.sorted);
        balanced = (insert-Balanced e m.root k v m.work h.balanced).0;
        counted = ground (
          arith,
          ap length list,
          length-assign k v (entries m.root),
          insert_flag e m.root k v m.work,
          find_in-locate m.root k h.sorted,
        );
      }

  pub erased-Valid : (m : NurseryMap K V) (k : K) (fresh : ℕ) → Valid m → Valid (erased m k fresh)
  erased-Valid m k fresh h =
      let e = (begin_edit m.edit fresh).0.id in
      let list = entries-remove e m.root k m.work h.sorted in
      record {
        sorted = subst Sorted (sym list) (discard-Sorted k (entries m.root) h.sorted);
        balanced = (remove-Balanced e m.root k m.work h.balanced).0.0;
        counted = ground (
          arith,
          ap length list,
          length-discard k (entries m.root),
          remove_flag e m.root k m.work,
          find_in-locate m.root k h.sorted,
        );
      }

  -- An insertion on a valid map that does not throw gives a valid map, says whether the key is new,
  -- makes exactly the keys equivalent to its own find the value, and leaves every other lookup.
  pub find-insert_or_assign :
      (m : NurseryMap K V) (k j : K) (v : V) (fresh : ℕ)
      → Valid m
      → m.failed ≡ false
      → let m' = inserted m k v fresh in
        let fresh' = (begin_edit m.edit fresh).1 in
        (insert_or_assign none m k v fresh
          ≡ ok (returned (not (is_some (find_in m.root k))), m', fresh'))
        × Valid m'
        × (find m' j ≡ (if equivalent k j then ok (some v) else find m j))
  unfolding insert_or_assign find
  find-insert_or_assign m k j v fresh h live =
      let e = (begin_edit m.edit fresh).0.id in
      let h' = inserted-Valid m k v fresh h in
      let list = entries-insert e m.root k v m.work h.sorted in
      (
        rw (live, insert_flag e m.root k v m.work),
        h',
        rw live (
            ground (
              arith,
              find_in-locate (inserted m k v fresh).root j h'.sorted,
              ap (locate j) list,
              locate-assign j k v (entries m.root),
              find_in-locate m.root j h.sorted,
            )),
      )

  -- An erasure on a valid map that does not throw gives a valid map, says whether the key was there,
  -- makes the keys equivalent to its own absent, and leaves every other lookup.
  pub find-erase :
      (m : NurseryMap K V) (k j : K) (fresh : ℕ)
      → Valid m
      → m.failed ≡ false
      → let m' = erased m k fresh in
        let fresh' = (begin_edit m.edit fresh).1 in
        (erase none m k fresh ≡ ok (returned (is_some (find_in m.root k)), m', fresh'))
        × Valid m'
        × (find m' j ≡ (if equivalent k j then ok none else find m j))
  unfolding erase find
  find-erase m k j fresh h live =
      let e = (begin_edit m.edit fresh).0.id in
      let h' = erased-Valid m k fresh h in
      let list = entries-remove e m.root k m.work h.sorted in
      (
        rw (live, remove_flag e m.root k m.work),
        h',
        rw live (
            ground (
              arith,
              find_in-locate (erased m k fresh).root j h'.sorted,
              ap (locate j) list,
              locate-discard j k (entries m.root) h.sorted,
              find_in-locate m.root j h.sorted,
            )),
      )
