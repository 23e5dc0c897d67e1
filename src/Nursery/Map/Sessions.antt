-- ===== src/Nursery/Map/Sessions.antt =====
-- nursery_map.h: sessions of edits that end with a freeze, from the empty map.
use everett.Base.{
  ℕ, ◌≡◌, refl, ap, subst, sym, ◌∙◌, length, false, List, [], ◌∷◌, Option, none, some, Result, ok,
  raise, arith,
}
use everett.Nursery.{Comparator, entries}
use everett.Nursery.Sorted.{Sorted}
use everett.Nursery.Sharing.{Shares, here, Part→Shares}
use everett.Nursery.Map.{
  NurseryMap, Snapshot, EditToken, empty_map, thaw, size, for_each, closed, closed_map, frozen,
  begin_edit, freeze,
}
use everett.Nursery.Map.Laws.{Valid}
use everett.Nursery.Map.History.{Edit, run, replay, run-live, run-Valid}
use everett.Nursery.Map.Tokens.{TokensBelow, Drawn, run-Drawn, run-Shares, begin_edit-closed}

module _ {ℓ κ} {K : Type ℓ} {V : Type κ} ⦃o : Comparator K⦄ where
  -- Sessions of edits, each of which ends with a freeze.
  abbrev after_freeze : NurseryMap K V → Result (Snapshot K V × NurseryMap K V) → NurseryMap K V
  after_freeze m (ok (s, m')) = m'
  after_freeze m (raise e) = m

  unfoldable pub run_sessions : NurseryMap K V × ℕ → List (List (Edit K V)) → NurseryMap K V × ℕ
  run_sessions s [] = s
  run_sessions s (es ∷ rest) =
      let (m, fresh) = run s es in run_sessions (after_freeze m (freeze m), fresh) rest

  unfoldable pub replay_sessions : List (K × V) → List (List (Edit K V)) → List (K × V)
  replay_sessions bs [] = bs
  replay_sessions bs (es ∷ rest) = replay_sessions (replay bs es) rest

  -- What every history from the empty map keeps.
  record Sound (m : NurseryMap K V) (fresh : ℕ) (bs : List (K × V)) : Type (ℓ ⊔ κ) where
    valid : Valid m
    live : m.failed ≡ false
    drawn : Drawn m fresh
    listed : entries m.root ≡ bs

  run-Sound :
      (es : List (Edit K V)) (m : NurseryMap K V) (fresh : ℕ) (bs : List (K × V))
      → Sound m fresh bs
      → let (m', fresh') = run (m, fresh) es in Sound m' fresh' (replay bs es)
  run-Sound es m fresh bs s =
      let (list, valid) = run-Valid es m fresh s.valid s.live in
      record {
        valid = valid;
        live = run-live es m fresh s.live;
        drawn = run-Drawn es m fresh s.drawn s.live;
        listed = list ∙ ap (λ xs. replay xs es) s.listed;
      }

  closed-Drawn :
      (m : NurseryMap K V) (fresh : ℕ)
      → TokensBelow fresh m.root
      → (edit : Option EditToken) → Drawn (record m { edit = closed edit }) fresh
  unfolding begin_edit
  closed-Drawn m fresh below none = record {
    nodes = below;
    current = omega arith;
    rising = omega arith;
  }
  closed-Drawn m fresh below (some t) = record {
    nodes = below;
    current = omega arith;
    rising = omega arith;
  }

  freeze_live : (m : NurseryMap K V) → m.failed ≡ false → freeze m ≡ ok (frozen m, closed_map m)
  unfolding freeze
  freeze_live m live = rw live refl

  closed-Sound :
      (m : NurseryMap K V) (fresh : ℕ) (bs : List (K × V))
      → Sound m fresh bs
      → Sound (after_freeze m (freeze m)) fresh bs
  closed-Sound m fresh bs s =
      subst (λ r. Sound (after_freeze m r) fresh bs) (sym (freeze_live m s.live))
        (record {
          valid = record {
            sorted = s.valid.sorted;
            balanced = s.valid.balanced;
            counted = s.valid.counted;
          };
          live = s.live;
          drawn = closed-Drawn m fresh s.drawn.nodes m.edit;
          listed = s.listed;
        })

  sessions-Sound :
      (sessions : List (List (Edit K V))) (m : NurseryMap K V) (fresh : ℕ) (bs : List (K × V))
      → Sound m fresh bs
      → let (m', fresh') = run_sessions (m, fresh) sessions in
        Sound m' fresh' (replay_sessions bs sessions)
  unfolding run_sessions replay_sessions
  sessions-Sound [] m fresh bs s = s
  sessions-Sound (es ∷ rest) m fresh bs s =
      let (m', fresh') = run (m, fresh) es in
      sessions-Sound rest (after_freeze m' (freeze m')) fresh' (replay bs es)
        (closed-Sound m' fresh' (replay bs es) (run-Sound es m fresh bs s))

  empty-Sound : (fresh : ℕ) → Sound empty_map fresh []
  unfolding empty_map entries begin_edit
  empty-Sound fresh = record {
    valid = record { sorted = tt; balanced = tt; counted = refl };
    live = refl;
    drawn = record { nodes = tt; current = omega arith; rising = omega arith };
    listed = refl;
  }

  -- From the empty map, after any sessions of edits that each end with a freeze, and after further
  -- edits, none of which throws: a freeze returns the root of the map, and every token in it is below
  -- `n`, the next of the supply. After any edits that follow, none of which throws, on the map or on
  -- one that is thawed from the snapshot, each node of that map is a node of the snapshot, as it was
  -- frozen with all below it, or carries the token `n`, which no node of the snapshot carries.
  pub run-freeze :
      (sessions : List (List (Edit K V))) (edits later : List (Edit K V)) (fresh : ℕ)
      → let (m, n) = run (run_sessions (empty_map, fresh) sessions) edits in
        (freeze m ≡ ok (frozen m, closed_map m))
        × TokensBelow n (frozen m).root
        × Shares n (frozen m).root (run (closed_map m, n) later).0.root
        × Shares n (frozen m).root (run (thaw (frozen m), n) later).0.root
  unfolding thaw begin_edit
  run-freeze sessions edits later fresh =
      let (m₀, n₀) = run_sessions (empty_map, fresh) sessions in
      let (m, n) = run (m₀, n₀) edits in
      let s =
        run-Sound edits m₀ n₀ _ (sessions-Sound sessions empty_map fresh [] (empty-Sound fresh)) in
      let whole = Part→Shares n m.root m.root here in
      (
        freeze_live m s.live,
        s.drawn.nodes,
        run-Shares later (closed_map m) n n m.root (begin_edit-closed m.edit n) s.live whole,
        run-Shares later (thaw (frozen m)) n n m.root refl refl whole,
      )

  -- From the empty map, after any sessions of edits that each end with a freeze, none of which
  -- throws: `for_each` visits the list that replays all the edits, its keys rise, and `size` is its
  -- length; and a map that is thawed from a snapshot of this one visits the same list.
  pub for_each-replay :
      (sessions : List (List (Edit K V))) (fresh : ℕ)
      → let m = (run_sessions (empty_map, fresh) sessions).0 in
        let bs = replay_sessions [] sessions in
        (for_each m ≡ ok bs)
        × Sorted bs
        × (size m ≡ ok (length bs))
        × (for_each (thaw (frozen m)) ≡ ok bs)
        × (size (thaw (frozen m)) ≡ ok (length bs))
  unfolding for_each size thaw
  for_each-replay sessions fresh =
      let (m, n) = run_sessions (empty_map, fresh) sessions in
      let s = sessions-Sound sessions empty_map fresh [] (empty-Sound fresh) in
      let counted = s.valid.counted ∙ ap length s.listed in
      (
        rw s.live (ap ok s.listed),
        subst Sorted s.listed s.valid.sorted,
        rw s.live (ap ok counted),
        ap ok s.listed,
        ap ok counted,
      )
