-- ===== src/Budget.antt =====
-- include/everett/output_budget.h: one allowance, the leases on it, and the threads that try to
-- acquire. `used` is atomic: each access of it is a step of its own, and a weak exchange may fail
-- spuriously. All accesses are relaxed, on one object, so a load sees a value of its one history.
pub mod Attempts
pub mod Charges
mod Examples
pub mod Interleavings
use everett.Base.{
  ℕ, ◌≡◌, Bool, true, false, not, ◌&&◌, List, [], ◌∷◌, ◌++◌, Option, none, some, if◌then◌else◌, ltb,
  ◌==◌, sub64, add64, get_elem?, set, delete, Result, raise, ok, require, invalid_argument,
}

-- `output_budget::state`
pub record Shared : Type 0 where
  pub limit : ℕ
  pub used : ℕ

-- `owner` says whether `state_` is set.
pub record Lease : Type 0 where
  pub owner : Bool
  pub bytes : ℕ

abbrev pub inert : Lease
inert = record { owner = false; bytes = 0 }

abbrev pub leased : ℕ → Lease
leased bytes = record { owner = true; bytes = bytes }

-- `fetch_sub`, which wraps.
abbrev pub fetch_sub : Shared → ℕ → Shared
fetch_sub s bytes = record s { used = sub64 s.used bytes }

-- The charge goes back, and the lease is inert. The destructor does the same.
unfoldable pub reset : Shared → Lease → Shared × Lease
reset s l = (if l.owner then fetch_sub s l.bytes else s, inert)

unfoldable pub shrink : Shared → Lease → ℕ → Result (Shared × Lease)
shrink s l bytes =
    require (not (ltb l.bytes bytes)) invalid_argument
      (ok (if l.owner then fetch_sub s (sub64 l.bytes bytes) else s, record l { bytes = bytes }))

-- The move constructor: the new lease, and the one that was moved from.
unfoldable pub move : Lease → Lease × Lease
move other = (other, inert)

-- The move assignment from another lease: the allowance, the target and the source.
unfoldable pub move_assign : Shared → Lease → Lease → Shared × Lease × Lease
unfolding reset
move_assign s target other = ((reset s target).0, other, inert)

-- A thread inside `try_acquire`: what it wants, and the value of `used` that it has seen.
pub record Attempt : Type 0 where
  pub wanted : ℕ
  pub seen : ℕ

pub data Attempted : Type 0 where
  refused : Attempted
  granted : Lease → Attempted
  again : Attempt → Attempted

-- The load at the entry of `try_acquire`.
unfoldable pub load : Shared → ℕ → Attempt
load s wanted = record { wanted = wanted; seen = s.used }

-- One round of its loop: the test, and the exchange, whose failure reloads `used`.
unfoldable pub round : Shared → Attempt → (spurious : Bool) → Shared × Attempted
round s a spurious =
    if ltb (sub64 s.limit a.seen) a.wanted
    then (s, refused)
    else if not spurious && a.seen == s.used
    then (record s { used = add64 a.seen a.wanted }, granted (leased a.wanted))
    else (s, again (load s a.wanted))

-- The loop of `try_acquire` in a thread that is alone, one round for each of `flags`, which say what
-- exchanges fail spuriously: it returns at the first outcome that is not `again`.
unfoldable pub acquire_loop : (flags : List Bool) → Shared × Attempted → Shared × Attempted
acquire_loop [] outcome = outcome
acquire_loop (spurious ∷ flags) (s, refused) = (s, refused)
acquire_loop (spurious ∷ flags) (s, granted l) = (s, granted l)
acquire_loop (spurious ∷ flags) (s, again a) = acquire_loop flags (round s a spurious)

-- All threads: the leases that they hold and the acquisitions that are under way.
pub record System : Type 0 where
  pub shared : Shared
  pub leases : List Lease
  pub attempts : List Attempt

pub data Action : Type 0 where
  begin : ℕ → Action
  spin : ℕ → Bool → Action
  drop_lease : ℕ → Action
  shrink_lease : ℕ → ℕ → Action
  move_lease : ℕ → Action
  assign_lease : (target other : ℕ) → Action

abbrev spun : System → ℕ → Shared × Attempted → System
spun s i (shared, refused) = record s { shared = shared; attempts = delete s.attempts i }
spun s i (shared, granted l) = record s {
  shared = shared;
  leases = s.leases ++ (l ∷ []);
  attempts = delete s.attempts i;
}
spun s i (shared, again a) = record s { shared = shared; attempts = set s.attempts i a }

abbrev shrunk : System → ℕ → Result (Shared × Lease) → System
shrunk s i (raise e) = s
shrunk s i (ok (shared, l)) = record s { shared = shared; leases = set s.leases i l }

-- One step of one thread. A step that names no lease or attempt is none.
unfoldable pub step : System → Action → System
unfolding reset shrink move move_assign load round
step s (begin wanted) = record s { attempts = s.attempts ++ (load s.shared wanted ∷ []) }
step s (spin i spurious) = elim (get_elem? s.attempts i) [
  | none ↦ s
  | some a ↦ spun s i (round s.shared a spurious)
]
step s (drop_lease i) = elim (get_elem? s.leases i) [
  | none ↦ s
  | some l ↦
      let (shared, l') = reset s.shared l in
      record s { shared = shared; leases = set s.leases i l' }
]
step s (shrink_lease i bytes) = elim (get_elem? s.leases i) [
  | none ↦ s
  | some l ↦ shrunk s i (shrink s.shared l bytes)
]
step s (move_lease i) = elim (get_elem? s.leases i) [
  | none ↦ s
  | some l ↦ let (l', old) = move l in record s { leases = set s.leases i old ++ (l' ∷ []) }
]
step s (assign_lease i j) = if i == j then s else elim (get_elem? s.leases i) [
  | none ↦ s
  | some target ↦ elim (get_elem? s.leases j) [
    | none ↦ s
    | some other ↦
        let (shared, target', other') = move_assign s.shared target other in
        record s { shared = shared; leases = set (set s.leases i target') j other' }
  ]
]

unfoldable pub run : System → List Action → System
run s [] = s
run s (a ∷ rest) = run (step s a) rest

-- `output_budget(limit)`
abbrev pub fresh : ℕ → System
fresh limit = record { shared = record { limit = limit; used = 0 }; leases = []; attempts = [] }
