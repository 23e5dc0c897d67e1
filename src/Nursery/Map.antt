-- ===== src/Nursery/Map.antt =====
-- nursery_map.h: the map and its snapshots. Tokens are numbers, drawn from a supply that stands for
-- `std::make_shared<edit_token>`; an exception inside an edit (allocation, a copy, the comparator)
-- enters as an argument, and leaves the map failed with what the edit had done until then.
pub mod Laws
pub mod History
pub mod Tokens
pub mod Sessions
use everett.Base.{
  ℕ, ◌+◌, ◌-◌, ◌≡◌, Bool, true, false, List, Option, none, some, if◌then◌else◌, Result, ok, raise,
  Error, logic_error,
}
use everett.Nursery.{Comparator, Tree, null, Statistics, entries, find_in, insert, remove}

-- `edit_token`, by its identity: `open` falls when its owner freezes.
pub record EditToken : Type 0 where
  pub id : ℕ
  pub is_open : Bool

pub record NurseryMap {ℓ κ} (K : Type ℓ) (V : Type κ) : Type (ℓ ⊔ κ) where
  pub root : Tree K V
  pub edit : Option EditToken
  pub size : ℕ
  pub work : Statistics
  pub failed : Bool

pub record Snapshot {ℓ κ} (K : Type ℓ) (V : Type κ) : Type (ℓ ⊔ κ) where
  pub root : Tree K V
  pub size : ℕ

abbrev no_work : Statistics
no_work = record { nodes_created = 0; path_copies = 0; rotations = 0 }

abbrev pub closed : Option EditToken → Option EditToken
closed none = none
closed (some t) = some (record t { is_open = false })

-- The token of the next edit, and the supply afterwards.
unfoldable pub begin_edit : Option EditToken → ℕ → EditToken × ℕ
begin_edit none fresh = (record { id = fresh; is_open = true }, fresh + 1)
begin_edit (some t) fresh =
    if t.is_open then (t, fresh) else (record { id = fresh; is_open = true }, fresh + 1)

-- An edit that was admitted returns its flag, or throws.
pub data Outcome : Type 0 where
  returned : Bool → Outcome
  threw : Outcome

-- Where an edit throws: at the new token, before anything has changed, or later, with the root and
-- the counters that it has reached. The size changes last.
pub data Fault {ℓ κ} (K : Type ℓ) (V : Type κ) : Type (ℓ ⊔ κ) where
  at_token : Fault K V
  in_edit : (root : Tree K V) (work : Statistics) → Fault K V

module _ {ℓ κ} {K : Type ℓ} {V : Type κ} where
  unfoldable pub empty_map : NurseryMap K V
  empty_map = record { root = null; edit = none; size = 0; work = no_work; failed = false }

  abbrev pub frozen : NurseryMap K V → Snapshot K V
  frozen m = record { root = m.root; size = m.size }

  abbrev pub closed_map : NurseryMap K V → NurseryMap K V
  closed_map m = record m { edit = closed m.edit }

  -- The snapshot, and the map with its token closed.
  unfoldable pub freeze : NurseryMap K V → Result (Snapshot K V × NurseryMap K V)
  freeze m = if m.failed then raise logic_error else ok (frozen m, closed_map m)

  unfoldable pub thaw : Snapshot K V → NurseryMap K V
  thaw s = record { root = s.root; edit = none; size = s.size; work = no_work; failed = false }

  -- `size` and `for_each`, which visits in order.
  unfoldable pub size : NurseryMap K V → Result ℕ
  size m = if m.failed then raise logic_error else ok m.size

  unfoldable pub for_each : NurseryMap K V → Result (List (K × V))
  for_each m = if m.failed then raise logic_error else ok (entries m.root)

  -- The `catch` branch: the map and the supply of tokens then, from those before, and the edit's
  -- token with the supply behind it.
  poisoned : NurseryMap K V → ℕ → EditToken × ℕ → Fault K V → Outcome × NurseryMap K V × ℕ
  poisoned m fresh drawn at_token = (threw, record m { failed = true }, fresh)
  poisoned m fresh (t, fresh') (in_edit root work) =
      (threw, record m { root = root; edit = some t; work = work; failed = true }, fresh')

module _ {ℓ κ} {K : Type ℓ} {V : Type κ} ⦃o : Comparator K⦄ where
  unfoldable pub find : NurseryMap K V → K → Result (Option V)
  find m k = if m.failed then raise logic_error else ok (find_in m.root k)

  -- `fault` says whether the edit throws, and where.
  unfoldable pub insert_or_assign :
      (fault : Option (Fault K V))
      → NurseryMap K V
      → K
      → V
      → ℕ
      → Result (Outcome × NurseryMap K V × ℕ)
  unfolding poisoned
  insert_or_assign fault m k v fresh =
      let (t, fresh') = begin_edit m.edit fresh in
      let (root, work, inserted) = insert t.id m.root k v m.work in
      let m' = record m {
        root = root;
        edit = some t;
        size = m.size + (if inserted then 1 else 0);
        work = work;
      } in
      if m.failed then raise logic_error else elim fault [
        | none ↦ ok (returned inserted, m', fresh')
        | some f ↦ ok (poisoned m fresh (t, fresh') f)
      ]

  unfoldable pub erase :
      (fault : Option (Fault K V)) → NurseryMap K V → K → ℕ → Result (Outcome × NurseryMap K V × ℕ)
  unfolding poisoned
  erase fault m k fresh =
      let (t, fresh') = begin_edit m.edit fresh in
      let (root, work, erased) = remove t.id m.root k m.work in
      let m' = record m {
        root = root;
        edit = some t;
        size = m.size - (if erased then 1 else 0);
        work = work;
      } in
      if m.failed then raise logic_error else elim fault [
        | none ↦ ok (returned erased, m', fresh')
        | some f ↦ ok (poisoned m fresh (t, fresh') f)
      ]
