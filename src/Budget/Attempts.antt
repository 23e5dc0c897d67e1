-- ===== src/Budget/Attempts.antt =====
-- output_budget.h: one acquisition, alone and against others.
use everett.Base.{
  ℕ, ◌+◌, ◌-◌, ◌≤◌, ◌≡◌, inl, inr, refl, true, false, Bool, List, [], ◌∷◌, Bool-cases, ltb, ◌==◌,
  ==_iff, sub64, add64, not_ltb→le, IsU64, arith, if◌then◌else◌, sym, subst, ap,
}
use everett.Budget.{
  Shared, Lease, leased, Attempt, refused, granted, again, load, round, Attempted, acquire_loop,
}

-- An acquisition that no other thread disturbs, on an allowance of a 64-bit limit whose use is within
-- it, is granted exactly when the wanted bytes fit in what is left, and then charges them without
-- wrapping; otherwise it is refused and charges nothing.
pub round-load :
    (s : Shared) (wanted : ℕ)
    → s.used ≤ s.limit
    → IsU64 s.limit
    → round s (load s wanted) false ≡ (
        if ltb (s.limit - s.used) wanted
        then (s, refused)
        else (record s { used = s.used + wanted }, granted (leased wanted)))
unfolding round load
round-load s wanted within word = elim (Bool-cases (ltb (s.limit - s.used) wanted)) [
  | inl full ↦ rw (left, full) refl
  | inr fits ↦ rw (left, fits, same, sum fits) refl
]
  where
    left : sub64 s.limit s.used ≡ s.limit - s.used
    left = omega (arith, within, word)

    same : s.used == s.used ≡ true
    same = (==_iff s.used s.used).1 refl

    sum : ltb (s.limit - s.used) wanted ≡ false → add64 s.used wanted ≡ s.used + wanted
    sum fits = omega (arith, within, word, not_ltb→le _ _ fits)

-- How an acquisition ends that no other thread disturbs.
abbrev pub verdict : Shared → ℕ → Shared × Attempted
verdict s wanted =
    if ltb (s.limit - s.used) wanted
    then (s, refused)
    else (record s { used = s.used + wanted }, granted (leased wanted))

-- How many of the exchanges do not fail spuriously.
abbrev pub honest : List Bool → ℕ
honest [] = 0
honest (true ∷ flags) = honest flags
honest (false ∷ flags) = 1 + honest flags

-- A round of it, where what the attempt has seen leaves no room, where its exchange fails, and where
-- it succeeds.
round_full :
    (s : Shared) (a : Attempt) (spurious : Bool)
    → ltb (sub64 s.limit a.seen) a.wanted ≡ true
    → round s a spurious ≡ (s, refused)
unfolding round
round_full s a spurious full = rw full refl

round_spurious :
    (s : Shared) (a : Attempt)
    → ltb (sub64 s.limit a.seen) a.wanted ≡ false
    → round s a true ≡ (s, again (load s a.wanted))
unfolding round
round_spurious s a fits = rw fits refl

round_disturbed :
    (s : Shared) (a : Attempt)
    → ltb (sub64 s.limit a.seen) a.wanted ≡ false
    → a.seen == s.used ≡ false
    → round s a false ≡ (s, again (load s a.wanted))
unfolding round
round_disturbed s a fits moved = rw (fits, moved) refl

left_of : (s : Shared) → s.used ≤ s.limit → IsU64 s.limit → sub64 s.limit s.used ≡ s.limit - s.used
left_of s within word = omega (arith, within, word)

acquire_loop_refused :
    (flags : List Bool) (s : Shared) → acquire_loop flags (s, refused) ≡ (s, refused)
unfolding acquire_loop
acquire_loop_refused [] s = refl
acquire_loop_refused (spurious ∷ flags) s = refl

acquire_loop_granted :
    (flags : List Bool) (s : Shared) (l : Lease)
    → acquire_loop flags (s, granted l) ≡ (s, granted l)
unfolding acquire_loop
acquire_loop_granted [] s l = refl
acquire_loop_granted (spurious ∷ flags) s l = refl

acquire_loop-verdict :
    (flags : List Bool) (s : Shared) (wanted : ℕ)
    → acquire_loop flags (verdict s wanted) ≡ verdict s wanted
acquire_loop-verdict flags s wanted = elim (Bool-cases (ltb (s.limit - s.used) wanted)) [
  | inl full ↦ rw full (acquire_loop_refused flags s)
  | inr fits ↦ rw fits (acquire_loop_granted flags _ _)
]

acquire_loop-load :
    (s : Shared) (wanted : ℕ) (flags : List Bool)
    → s.used ≤ s.limit
    → IsU64 s.limit
    → 1 ≤ honest flags
    → acquire_loop flags (s, again (load s wanted)) ≡ verdict s wanted
unfolding acquire_loop load
acquire_loop-load s wanted [] within word h = absurd (omega (arith, h))
acquire_loop-load s wanted (false ∷ flags) within word h =
    rw (round-load s wanted within word) (acquire_loop-verdict flags s wanted)
acquire_loop-load s wanted (true ∷ flags) within word h =
    elim (Bool-cases (ltb (s.limit - s.used) wanted)) [
      | inl full ↦
          rw (round_full s (load s wanted) true (room true full), full)
            (acquire_loop_refused flags s)
      | inr fits ↦
          rw (round_spurious s (load s wanted) (room false fits))
            (acquire_loop-load s wanted flags within word h)
    ]
  where
    room :
        (b : Bool)
        → ltb (s.limit - s.used) wanted ≡ b
        → ltb (sub64 s.limit (load s wanted).seen) (load s wanted).wanted ≡ b
    room b e = unfold load in rw (left_of s within word) e

-- An attempt with any value seen, stale or not, on an allowance of a 64-bit limit whose use is within
-- it, and which no other thread disturbs from then on: the loop ends as soon as two exchanges have
-- not failed spuriously, however many others fail. If what it has seen leaves no room it is refused;
-- otherwise it is granted exactly when the wanted bytes fit in what is left now, charges them without
-- wrapping, and where it is refused it charges nothing.
pub acquire_loop_lem :
    (flags : List Bool) (s : Shared) (a : Attempt)
    → s.used ≤ s.limit
    → IsU64 s.limit
    → 2 ≤ honest flags
    → acquire_loop flags (s, again a)
      ≡ (if ltb (sub64 s.limit a.seen) a.wanted then (s, refused) else verdict s a.wanted)
unfolding acquire_loop
acquire_loop_lem [] s a within word h = absurd (omega (arith, h))
acquire_loop_lem (spurious ∷ flags) s a within word h =
    elim (Bool-cases (ltb (sub64 s.limit a.seen) a.wanted)) [
      | inl full ↦ rw (round_full s a spurious full, full) (acquire_loop_refused flags s)
      | inr fits ↦ rw fits (settled spurious fits h)
    ]
  where
    current : a.seen ≡ s.used → load s a.wanted ≡ a
    current same = unfold load in sym (ap (λ n. record { wanted = a.wanted; seen = n }) same)

    settled :
        (spurious : Bool)
        → ltb (sub64 s.limit a.seen) a.wanted ≡ false
        → 2 ≤ honest (spurious ∷ flags)
        → acquire_loop flags (round s a spurious) ≡ verdict s a.wanted
    settled true fits h =
        rw (round_spurious s a fits)
          (acquire_loop-load s a.wanted flags within word (omega (arith, h)))
    settled false fits h = elim (Bool-cases (a.seen == s.used)) [
      | inl same ↦
          subst (λ b. acquire_loop flags (round s b false) ≡ verdict s a.wanted)
            (current ((==_iff a.seen s.used).0 same))
            (rw (round-load s a.wanted within word) (acquire_loop-verdict flags s a.wanted))
      | inr moved ↦
          rw (round_disturbed s a fits moved)
            (acquire_loop-load s a.wanted flags within word (omega (arith, h)))
    ]
