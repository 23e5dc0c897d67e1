-- ===== src/Budget/Interleavings.antt =====
-- output_budget.h: the allowance under every interleaving of the threads that share it.
use everett.Base.{
  ℕ, ◌≤◌, ◌≡◌, ◌≢◌, inl, inr, refl, ◌∙◌, sym, subst, Bool, true, false, List, [], ◌∷◌, ◌++◌, some,
  ltb, ◌==◌, sub64, not, ◌&&◌, ==_iff, not_ltb→le, IsU64, get_elem?, set, All, All-append, All-get,
  Bool-cases, if◌then◌else◌, Option-cases, arith,
}
use everett.Budget.Charges.{
  charges, charges-snoc, charges-nil, charges-set, charge-le, get_elem?-set_other, All-set,
  All-delete,
}
use everett.Budget.{
  Shared, Lease, inert, leased, Attempt, System, Action, begin, spin, drop_lease, shrink_lease,
  move_lease, assign_lease, fetch_sub, reset, shrink, load, round, spun, step, run, fresh,
}

-- The charges are accounted for, within the limit.
pub record Ledger (sh : Shared) (ls : List Lease) : Type 0 where
  pub exact : sh.used ≡ charges ls
  pub within : sh.used ≤ sh.limit
  pub word : IsU64 sh.limit

reset-Ledger :
    (sh : Shared) (ls : List Lease) (i : ℕ) (l : Lease)
    → Ledger sh ls
    → get_elem? ls i ≡ some l
    → Ledger (reset sh l).0 (set ls i inert)
unfolding reset
reset-Ledger sh ls i l b e =
    ground (arith, charges-set ls i l inert e, charge-le ls i l e, b.exact, b.within, b.word)

shrink-Ledger :
    (sh : Shared) (ls : List Lease) (i n : ℕ) (l : Lease)
    → Ledger sh ls
    → get_elem? ls i ≡ some l
    → n ≤ l.bytes
    → Ledger
        (if l.owner then fetch_sub sh (sub64 l.bytes n) else sh)
        (set ls i (record l { bytes = n }))
shrink-Ledger sh ls i n l b e h = ground (
  arith,
  charges-set ls i l (record l { bytes = n }) e,
  charge-le ls i l e,
  b.exact,
  b.within,
  b.word,
)

assign-Ledger :
    (sh : Shared) (ls : List Lease) (i j : ℕ) (target other : Lease)
    → Ledger sh ls
    → i ≢ j
    → get_elem? ls i ≡ some target
    → get_elem? ls j ≡ some other
    → Ledger (reset sh target).0 (set (set ls i other) j inert)
assign-Ledger sh ls i j target other b n e e' = ground (
  arith,
  charges-set (set ls i other) j other inert (get_elem?-set_other ls i j other n ∙ e'),
  charges-set ls i target other e,
  charges-set ls i target inert e,
  r.exact,
  r.within,
  r.word,
)
  where
    r : Ledger (reset sh target).0 (set ls i inert)
    r = reset-Ledger sh ls i target b e

move-Ledger :
    (sh : Shared) (ls : List Lease) (i : ℕ) (l : Lease)
    → Ledger sh ls
    → get_elem? ls i ≡ some l
    → Ledger sh (set ls i inert ++ (l ∷ []))
move-Ledger sh ls i l b e =
    ground (
      arith,
      charges-set ls i l inert e,
      charges-snoc (set ls i inert) l,
      b.exact,
      b.within,
      b.word,
    )

-- `used` is the sum of the live charges and keeps within the limit; each attempt has seen a value
-- that `used` had.
pub record Balanced (s : System) : Type 0 where
  pub exact : s.shared.used ≡ charges s.leases
  pub within : s.shared.used ≤ s.shared.limit
  pub word : IsU64 s.shared.limit
  pub seen : All (λ a. a.seen ≤ s.shared.limit) s.attempts

spin-Balanced :
    (s : System) (i : ℕ) (a : Attempt) (spurious : Bool)
    → Balanced s
    → get_elem? s.attempts i ≡ some a
    → Balanced (spun s i (round s.shared a spurious))
unfolding round load
spin-Balanced s i a spurious b e = elim (Bool-cases (ltb (sub64 s.shared.limit a.seen) a.wanted)) [
  | inl full ↦
      rw (full, round)
        (record {
          exact = b.exact;
          within = b.within;
          word = b.word;
          seen = All-delete P s.attempts i b.seen;
        })
  | inr fits ↦ elim (Bool-cases (not spurious && a.seen == s.shared.used)) [
    | inl same ↦
        rw (fits, same, round)
          (record {
            exact =
                ground
                  (arith, charges-snoc s.leases (leased a.wanted), b.exact, b.within, b.word, low);
            within = ground (arith, b.exact, b.within, b.word, low);
            word = b.word;
            seen = All-delete P s.attempts i b.seen;
          })
    | inr moved ↦
        rw (fits, moved, round)
          (record {
            exact = b.exact;
            within = b.within;
            word = b.word;
            seen = All-set P s.attempts i (load s.shared a.wanted) b.seen b.within;
          })
  ]
]
  where
    P : Attempt → Type 0
    P x = x.seen ≤ s.shared.limit

    low : a.seen ≤ s.shared.limit
    low = All-get P s.attempts i a b.seen e

relet :
    (s : System) (sh : Shared) (ls : List Lease)
    → sh.limit ≡ s.shared.limit
    → Balanced s
    → Ledger sh ls
    → Balanced (record s { shared = sh; leases = ls })
relet s sh ls e b r = record {
  exact = r.exact;
  within = r.within;
  word = r.word;
  seen = subst (λ k. All (λ a. a.seen ≤ k) s.attempts) (sym e) b.seen;
}

ledger : (s : System) → Balanced s → Ledger s.shared s.leases
ledger s b = record { exact = b.exact; within = b.within; word = b.word }

limit_kept :
    (sh : Shared) (owner : Bool) (n : ℕ) → (if owner then fetch_sub sh n else sh).limit ≡ sh.limit
limit_kept sh true n = refl
limit_kept sh false n = refl

step-Balanced : (s : System) (a : Action) → Balanced s → Balanced (step s a)
unfolding step
step-Balanced s (begin wanted) b =
    unfold load in
    record {
      exact = b.exact;
      within = b.within;
      word = b.word;
      seen = All-append _ s.attempts _ b.seen (b.within, tt);
    }
step-Balanced s (spin i spurious) b = elim (Option-cases (get_elem? s.attempts i)) [
  | inl e ↦ rw (e, step) b
  | inr (a, e) ↦ rw (e, step) (spin-Balanced s i a spurious b e)
]
step-Balanced s (drop_lease i) b = elim (Option-cases (get_elem? s.leases i)) [
  | inl e ↦ rw (e, step) b
  | inr (l, e) ↦
      rw (e, step)
        (relet s _ _ (limit_kept s.shared l.owner l.bytes) b
          (unfold reset in reset-Ledger s.shared s.leases i l (ledger s b) e))
]
step-Balanced s (shrink_lease i bytes) b = elim (Option-cases (get_elem? s.leases i)) [
  | inl e ↦ rw (e, step) b
  | inr (l, e) ↦ elim (Bool-cases (ltb l.bytes bytes)) [
    | inl grows ↦ rw (e, grows, shrink, step) b
    | inr fits ↦
        rw (e, fits, shrink, step)
          (relet s _ _ (limit_kept s.shared l.owner (sub64 l.bytes bytes)) b
            (shrink-Ledger s.shared s.leases i bytes l (ledger s b) e (not_ltb→le _ _ fits)))
  ]
]
step-Balanced s (move_lease i) b = elim (Option-cases (get_elem? s.leases i)) [
  | inl e ↦ rw (e, step) b
  | inr (l, e) ↦
      rw (e, step) (relet s s.shared _ refl b (move-Ledger s.shared s.leases i l (ledger s b) e))
]
step-Balanced s (assign_lease i j) b = elim (Bool-cases (i == j)) [
  | inl e ↦ rw (e, step) b
  | inr n ↦ elim (Option-cases (get_elem? s.leases i)) [
    | inl e ↦ rw (n, e, step) b
    | inr (target, e) ↦ elim (Option-cases (get_elem? s.leases j)) [
      | inl e' ↦ rw (n, e, e', step) b
      | inr (other, e') ↦
          rw (n, e, e', step)
            (relet s _ _ (limit_kept s.shared target.owner target.bytes) b (
              unfold reset in
              assign-Ledger s.shared s.leases i j target other (ledger s b)
                (λ same. ground (arith, n, (==_iff i j).1 same)) e e'))
    ]
  ]
]

-- In every interleaving of threads that begin acquisitions, run rounds of them, and drop, shrink,
-- move and assign leases, from a fresh allowance of a 64-bit limit: `used` is exactly the sum of the
-- live charges, and it never exceeds the limit.
pub run-Balanced :
    (limit : ℕ) (actions : List Action) → IsU64 limit → Balanced (run (fresh limit) actions)
unfolding run
run-Balanced limit actions h =
    from (fresh limit) actions
      (record { exact = sym charges-nil; within = omega arith; word = h; seen = tt })
  where
    from : (s : System) (actions : List Action) → Balanced s → Balanced (run s actions)
    from s [] b = b
    from s (a ∷ rest) b = from (step s a) rest (step-Balanced s a b)
