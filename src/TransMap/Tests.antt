-- ===== src/TransMap/Tests.antt =====
-- Runs of the map on a small container with number keys, and the map's theorems at such inputs.
use stldb.Prelude.{
  ℕ, inl, inr, ◌≡◌, refl, Bool, true, false, some, List, [], ◌∷◌, arith, ltb, ◌==◌, Result, ok,
  throw, undefined, row_level_lock_contention,
}
use stldb.TransMap.Rows.{Comparator, find, modify, insert_new}
use stldb.TransMap.Entry.{TransEntry, no_op, insert_op, lock_op}
use stldb.TransMap.Op.{TransMap, LogRecord, rollback_all}
use stldb.TransMap.Calls.{
  Session, contended, at_entry, lock, update, update_by_op, insert, insert_by_op, erase,
  erase_by_op,
}
use stldb.TransMap.Rollback.Undo.{Step, updates, inserts, erases, Steps, here, next, HoldsNothing}
use stldb.TransMap.Rollback.Restores.{rollback-restores}
use stldb.TransMap.Commit.Redo.{CommitsAsRedone}
use stldb.TransMap.Commit.Calls.{FreshSteps, start, call, commit-redo}
use stldb.TransMap.Locking.{Writes, updated, write-excludes}
use stldb.TransMap.Iterator.{scan, begin, visible_rows, find_in, seek, skip_forward, forward}
use stldb.TransMap.Waiting.{woken, HasRow, HoldsRow, while_row_locked, while_row_locked-returns}
use stldb.TransMap.Iterator.Scan.{scan-begin}
use stldb.TransMap.Iterator.Backward.{backward, backward-forward}
use stldb.TransMap.Iterator.Read.{read_in}
use stldb.TransMap.Iterator.Isolation.{Step-isolation}

same_number : (a b : ℕ) → ((a == b) ≡ true → a ≡ b) × (a ≡ b → (a == b) ≡ true)
same_number a b = (λ h. ground arith, λ h. ground arith)

instance abbrev number_keys : Comparator ℕ
number_keys = record { less = ltb; same = ◌==◌; same_iff = same_number }

-- Keys 1 and 2, committed by the transactions with the LSNs 4 and 5; key 1 is checkpointed.
abbrev one : TransEntry ℕ
one = record { value = 10; op = no_op; txn_id = 4; offset = 64; size = 64 }

abbrev two : TransEntry ℕ
two = record { value = 20; op = no_op; txn_id = 5; offset = 0; size = 0 }

abbrev stored : TransMap ℕ ℕ
stored = record {
  rows = (1, one) ∷ (2, two) ∷ [];
  ver_num = 0;
  freed = [];
  uncheckpointed_clear = false;
}

abbrev opened : ℕ → Session ℕ ℕ
opened id = record { map = stored; lock_id = id; ops = []; pending = [] }

abbrev state_of : Result (Session ℕ ℕ) → Session ℕ ℕ
state_of (ok s) = s
state_of (throw e) = opened 0

abbrev inserted_of : Result (Session ℕ ℕ × Bool) → Session ℕ ℕ
inserted_of (ok s) = s.0
inserted_of (throw e) = opened 0

abbrev with_update : Session ℕ ℕ
unfolding update
with_update = state_of (update 1 11 (opened 7))

abbrev with_insert : Session ℕ ℕ
unfolding insert
with_insert = inserted_of (insert 3 30 with_update)

abbrev with_erase : Session ℕ ℕ
unfolding erase
with_erase = state_of (erase 2 with_insert)

opened-HoldsNothing : HoldsNothing 7 stored
unfolding find
opened-HoldsNothing k e f t = ground arith

three_calls : Steps (opened 7) with_erase
unfolding update insert erase at_entry update_by_op insert_by_op erase_by_op find modify insert_new
three_calls = next (next (next here (updates 1 11 refl)) (inserts 3 30 true refl)) (erases 2 refl)

rollback-restores_example : rollback_all with_erase.ops with_erase.map ≡ ok stored
rollback-restores_example =
    rollback-restores (opened 7) with_erase refl opened-HoldsNothing three_calls

fresh_calls : FreshSteps (opened 7) with_erase
unfolding update insert erase at_entry update_by_op insert_by_op erase_by_op find modify insert_new
fresh_calls =
    call (call (call start (updates 1 11 refl) refl) (inserts 3 30 true refl) refl) (erases 2 refl)
      refl

commit-redo_example :
    (a b : TransMap ℕ ℕ) × (rs : List (LogRecord ℕ ℕ)) × CommitsAsRedone 9 with_erase.ops
      with_erase.map with_erase.map stored a b rs
commit-redo_example = commit-redo (opened 7) with_erase 9 refl opened-HoldsNothing fresh_calls

found_one : find 1 stored.rows ≡ some one
unfolding find
found_one = refl

updates_one : Writes 1 (opened 7) with_update
unfolding update at_entry update_by_op find
updates_one = updated 11 refl

-- Another transaction that meets the update.
abbrev meeting : Session ℕ ℕ
meeting = record with_update { lock_id = 8 }

write-excludes_example :
    (lock 1 meeting ≡ throw row_level_lock_contention)
    × (update 1 13 meeting ≡ throw row_level_lock_contention)
    × (erase 1 meeting ≡ throw row_level_lock_contention)
write-excludes_example =
    write-excludes 1 13 (opened 7) with_update meeting updates_one (unfold update in refl)
      (unfold update in omega arith)

scan-begin_example : scan 2 0 (begin 0 stored) ≡ visible_rows 0 stored.rows
scan-begin_example = scan-begin 0 2 stored (omega arith)

inserts_three : Step with_update with_insert
unfolding update insert at_entry update_by_op insert_by_op find modify insert_new
inserts_three = inserts 3 30 true refl

Step-isolation_example : read_in 8 [] 3 with_insert.map ≡ read_in 8 [] 3 with_update.map
unfolding at_entry find update_by_op
Step-isolation_example =
    Step-isolation 8 [] 3 with_update with_insert (unfold update in omega arith) inserts_three
      (unfold inserts_three in tt)

abbrev own_insert : TransEntry ℕ
own_insert = record { value = 30; op = insert_op; txn_id = 7; offset = 0; size = 0 }

abbrev holding : Session ℕ ℕ
holding = record {
  map = record stored { rows = (3, own_insert) ∷ [] };
  lock_id = 7;
  ops = [];
  pending = [];
}

-- Key 1 is locked by the transaction 7.
abbrev held_by_7 : TransMap ℕ ℕ
held_by_7 = record stored {
  rows =
      (1, record { value = 10; op = lock_op; txn_id = 7; offset = 64; size = 64 }) ∷ (2, two) ∷ [];
}

held_by_7-HasRow : HasRow 1 8 held_by_7
unfolding find find_in seek skip_forward
held_by_7-HasRow = record { entry = _; present = refl; shown = refl; not_taken = inl refl }

abbrev stored_row : HasRow 1 8 stored
unfolding find find_in seek skip_forward
stored_row = record {
  entry = one;
  present = refl;
  shown = refl;
  not_taken = inr (λ e. absurd (omega (arith, e)));
}

stored_free : contended 8 stored_row.entry ≡ false
unfolding stored_row
stored_free = refl

while_row_locked-returns_example :
    (t : Session ℕ ℕ) × (while_row_locked lock 1
        (record (opened 8) { map = held_by_7 })
        (woken held_by_7 ∷ woken stored ∷ [])
      ≡ some (ok t))
    × HoldsRow 1 8 t.map
while_row_locked-returns_example =
    while_row_locked-returns 1 (record (opened 8) { map = held_by_7 }) (woken held_by_7 ∷ []) []
      stored held_by_7-HasRow (held_by_7-HasRow, tt) stored_row stored_free

backward-forward_example :
    (forward {K = ℕ} 8 ((1, one) ∷ (3, own_insert) ∷ (5, two) ∷ []) ≡ (5, two) ∷ [])
    × (backward {K = ℕ} 8 ((3, own_insert) ∷ (1, one) ∷ []) ((5, two) ∷ [])
        ≡ ok ([], (1, one) ∷ (3, own_insert) ∷ (5, two) ∷ []))
backward-forward_example =
    backward-forward 8 ((3, own_insert) ∷ []) [] [] 1 5 one two refl refl (refl, tt)

-- operator-- at end(), as the first step of a reverse iterator.
backward_from_end : backward {K = ℕ} 8 ((1, one) ∷ []) [] ≡ throw undefined
unfolding backward
backward_from_end = refl

-- The first entry is another transaction's pending insert, and operator-- stops there.
backward_to_hidden :
    backward {K = ℕ} 8 ((1, own_insert) ∷ []) ((2, two) ∷ [])
    ≡ ok ([], (1, own_insert) ∷ (2, two) ∷ [])
unfolding backward
backward_to_hidden = refl
