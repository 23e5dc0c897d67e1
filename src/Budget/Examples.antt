-- ===== src/Budget/Examples.antt =====
-- output_budget.h: two threads race for an allowance of 10, and the theorems at that race.
use everett.Base.{◌+◌, ◌-◌, sub64, ◌≡◌, refl, true, false, List, [], ◌∷◌, ltb, if◌then◌else◌, arith}
use everett.Budget.{
  Shared, inert, leased, Attempt, again, granted, refused, Action, begin, spin, shrink_lease,
  move_lease, assign_lease, load, round, run, fresh, acquire_loop, step, reset, shrink, move,
  move_assign,
}
use everett.Budget.Interleavings.{Balanced, run-Balanced}
use everett.Budget.Attempts.{round-load, verdict, acquire_loop_lem}

-- Both see 0; the first wins 6, and the second, which wants 5, fails its exchange and is refused.
abbrev race : List Action
race =
    begin 6
    ∷ begin 5
    ∷ spin 0 true
    ∷ spin 0 false
    ∷ spin 0 false
    ∷ spin 0 false
    ∷ shrink_lease 0 4
    ∷ begin 5
    ∷ spin 0 false
    ∷ move_lease 1
    ∷ assign_lease 0 2
    ∷ []

race_end : run (fresh 10) race ≡ record {
  shared = record { limit = 10; used = 5 };
  leases = leased 5 ∷ inert ∷ inert ∷ [];
  attempts = [];
}
unfolding run step reset shrink move move_assign load round
race_end = refl

run-Balanced_example : Balanced (run (fresh 10) race)
run-Balanced_example = run-Balanced 10 race (omega arith)

abbrev half : Shared
half = record { limit = 10; used = 6 }

round-load_example : round half (load half 4) false ≡ (
    if ltb (half.limit - half.used) 4
    then (half, refused)
    else (record half { used = half.used + 4 }, granted (leased 4)))
round-load_example = round-load half 4 (omega arith) (omega arith)

abbrev late : Attempt
late = record { wanted = 4; seen = 0 }

-- It has seen 0, so its first exchange fails; a spurious failure later it takes the last 4.
late_wins :
    acquire_loop (false ∷ true ∷ false ∷ []) (half, again late)
    ≡ (record half { used = 10 }, granted (leased 4))
unfolding acquire_loop round load
late_wins = refl

acquire_loop_lem_example :
    acquire_loop (false ∷ true ∷ false ∷ []) (half, again late)
    ≡ (if ltb (sub64 half.limit late.seen) 4 then (half, refused) else verdict half 4)
acquire_loop_lem_example =
    acquire_loop_lem (false ∷ true ∷ false ∷ []) half late (omega arith) (omega arith) (omega arith)
