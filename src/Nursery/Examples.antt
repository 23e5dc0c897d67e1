-- ===== src/Nursery/Examples.antt =====
-- nursery_map.h: runs on numbers, and the theorems at concrete maps.
use everett.Base.{
  ℕ, ◌+◌, ◌≤◌, ◌≡◌, ◌⊎◌, refl, true, false, List, [], ◌∷◌, some, ok, ◌^◌, ◌/◌, ltb, length, arith,
}
use everett.Nursery.{
  Comparator, height, Tree, null, node, Statistics, entries, find_in, insert, remove, editable,
  rotate_left, straighten_right, shrink_right, rebalance,
}
use everett.Nursery.Sorted.{locate, Sorted, assign, discard}
use everett.Nursery.Balance.Edits.{Grown, Shrunk, insert-Balanced, remove-Balanced}
use everett.Nursery.Size.{height_log}
use everett.Nursery.Refinement.{find_in-locate}
use everett.Nursery.Sharing.{Shares}
use everett.Nursery.Map.{
  NurseryMap, empty_map, at_token, in_edit, threw, insert_or_assign, erase, thaw, for_each, find,
  begin_edit, freeze, frozen, closed_map,
}
use everett.Nursery.Map.Laws.{Valid, inserted, erased, find-insert_or_assign, find-erase}
use everett.Nursery.Map.History.{Edit, assigning, erasing, run, replay, run-replay}
use everett.Nursery.Map.Tokens.{TokensBelow}
use everett.Nursery.Map.Sessions.{run_sessions, replay_sessions, run-freeze, for_each-replay}

ltb_irreflexive : (a : ℕ) → ltb a a ≡ false
ltb_irreflexive a = ground arith

ltb_transitive : (a b c : ℕ) → ltb a b ≡ true → ltb b c ≡ true → ltb a c ≡ true
ltb_transitive a b c h k = ground arith

ltb_cotransitive : (a b c : ℕ) → ltb a c ≡ true → (ltb a b ≡ true) ⊎ (ltb b c ≡ true)
ltb_cotransitive a b c h = ground arith

instance abbrev nat_less : Comparator ℕ
nat_less = record {
  less = ltb;
  irreflexive = ltb_irreflexive;
  transitive = ltb_transitive;
  cotransitive = ltb_cotransitive;
}

abbrev idle : Statistics
idle = record { nodes_created = 0; path_copies = 0; rotations = 0 }

-- Three keys, of which the least two are shared with nothing.
abbrev three : Tree ℕ ℕ
three = node (2, 20) (node (1, 10) null null 0 1) (node (3, 30) null null 0 1) 0 2

abbrev three_map : NurseryMap ℕ ℕ
three_map = record {
  root = three;
  edit = some (record { id = 0; is_open = true });
  size = 3;
  work = idle;
  failed = false;
}

abbrev rising : Tree ℕ ℕ
rising = node (1, 10) null (node (2, 20) null null 0 2) 0 2

abbrev flat : Tree ℕ ℕ
flat = node (2, 20) (node (1, 10) null null 7 1) (node (3, 30) null null 7 1) 7 2

-- Rising keys, one after another: a rotation keeps the tree flat.
insert_rotates : (insert 7 rising 3 30 idle).0 ≡ flat
unfolding insert editable rebalance shrink_right straighten_right rotate_left
insert_rotates = refl

insert_work :
    (insert 7 rising 3 30 idle).1 ≡ record { nodes_created = 3; path_copies = 2; rotations = 1 }
unfolding insert editable rebalance shrink_right straighten_right rotate_left
insert_work = refl

three-Sorted : Sorted (entries three)
unfolding entries
three-Sorted = ((refl, (refl, tt)), ((refl, tt), (tt, tt)))

three-Valid : Valid three_map
unfolding entries
three-Valid = record { sorted = three-Sorted; balanced = omega arith; counted = refl }

abbrev history : List (Edit ℕ ℕ)
history = assigning 4 40 ∷ erasing 2 ∷ assigning 4 41 ∷ []

find-insert_or_assign_example : find (inserted three_map 2 25 1) 2 ≡ ok (some 25)
find-insert_or_assign_example = (find-insert_or_assign three_map 2 2 25 1 three-Valid refl).2

find-erase_example : find (erased three_map 2 1) 3 ≡ ok (some 30)
unfolding find find_in
find-erase_example = (find-erase three_map 2 3 1 three-Valid refl).2

-- An insertion whose new token cannot be made changes nothing but the flag.
abbrev frozen_three : NurseryMap ℕ ℕ
frozen_three = record three_map { edit = some (record { id = 0; is_open = false }) }

insert_without_token :
    insert_or_assign (some at_token) frozen_three 4 40 1
    ≡ ok (threw, record frozen_three { failed = true }, 1)
unfolding insert_or_assign
insert_without_token = refl

-- One that throws later keeps its token, the counters, and the root that it has reached.
erase_midway :
    erase (some (in_edit rising (record idle { path_copies = 1 }))) frozen_three 3 1
    ≡ ok (
      threw,
      record frozen_three {
        root = rising;
        edit = some (record { id = 1; is_open = true });
        work = record idle { path_copies = 1 };
        failed = true;
      },
      2,
    )
unfolding erase begin_edit
erase_midway = refl

abbrev sessions : List (List (Edit ℕ ℕ))
sessions = (assigning 2 20 ∷ assigning 1 10 ∷ []) ∷ (assigning 3 30 ∷ erasing 2 ∷ []) ∷ []

for_each-replay_example :
    for_each (run_sessions (empty_map, 0) sessions).0 ≡ ok ((1, 10) ∷ (3, 30) ∷ [])
unfolding replay_sessions replay assign discard
for_each-replay_example = (for_each-replay sessions 0).0

run-replay_example : find (run (three_map, 1) history).0 4 ≡ ok (some 41)
unfolding replay entries discard assign locate
run-replay_example = (run-replay history three_map 1 4 three-Valid refl).2

run-freeze_example :
    let (m, n) = run (run_sessions (empty_map, 0) sessions) history in
    (freeze m ≡ ok (frozen m, closed_map m))
    × TokensBelow n (frozen m).root
    × Shares n (frozen m).root (run (closed_map m, n) history).0.root
    × Shares n (frozen m).root (run (thaw (frozen m), n) history).0.root
run-freeze_example = run-freeze sessions history history 0

insert-Balanced_example : Grown 2 (insert 7 three 4 40 idle).0
insert-Balanced_example = insert-Balanced 7 three 4 40 idle (omega arith)

remove-Balanced_example :
    Shrunk 2 (remove 7 three 2 idle).0
    × ((remove 7 three 2 idle).2 ≡ false → height (remove 7 three 2 idle).0 ≡ 2)
remove-Balanced_example = remove-Balanced 7 three 2 idle (omega arith)

height_log_example : 2 ^ (2 / 2) ≤ length (entries three) + 1
height_log_example = height_log three (omega arith)

find_in-locate_example : find_in three 3 ≡ locate 3 (entries three)
find_in-locate_example = find_in-locate three 3 three-Sorted
