-- ===== src/TransMap/Commit/Twice.antt =====
-- trans_map.tcc and map_ops.h: transactions with several operations on one key, through an iterator
-- that was obtained before the first of them.
use stldb.Prelude.{ℕ, ◌≡◌, true, some, List, [], ◌∷◌, arith, ==_refl, ok, throw, undefined}
use stldb.TransMap.Rows.{Comparator, find, modify, find-modify, find-erase, same_self}
use stldb.TransMap.Entry.{
  TransactionalOperations, no_op, lock_op, update_op, delete_op, TransEntry, unlock, assign,
}
use stldb.TransMap.Entry
use stldb.TransMap.Op.{
  TransMap, map_update, map_delete, LogRecord, write, commit_op, commit_all, add_to_log, op_to_log,
  recover_op, recover_all,
}
use stldb.TransMap.Calls.{
  Session, at_entry, record_op, lock_entry, pend_update, insert_on_delete, update, update_by_op,
  insert, insert_by_op, erase, erase_by_op,
}

module _ {K V : Type 0} ⦃c : Comparator K⦄ (k : K) (e : TransEntry V) where
  -- The entry as committed with this value.
  abbrev committed : ℕ → V → TransEntry V
  committed lsn v = unlock lsn no_op (assign v e)

  module _ (v w : V) (s : Session K V) (lsn : ℕ) (found : find k s.map.rows ≡ some e) where
    abbrev once : Session K V
    once = pend_update k v e (lock_entry k update_op s)

    abbrev twice : Session K V
    twice = pend_update k w (Entry.lock s.lock_id update_op e) once

    abbrev locked : List (K × TransEntry V)
    locked = modify k (Entry.lock s.lock_id update_op) s.map.rows

    at_locked : find k locked ≡ some (Entry.lock s.lock_id update_op e)
    at_locked =
        ground (arith, find-modify k k (Entry.lock s.lock_id update_op) s.map.rows, same_self k)

    update-once : e.op ≡ no_op → update k v s ≡ ok once
    unfolding update at_entry update_by_op
    update-once free = ground arith

    update_again : update k w once ≡ ok twice
    unfolding update at_entry update_by_op
    update_again = ground (arith, at_locked, ==_refl s.lock_id)

    commit_first :
        commit_op lsn (map_update e.txn_id e.op k v) twice.map
        ≡ ok (write k (λ r. unlock lsn no_op (assign v r)) twice.map)
    unfolding commit_op pend_update Entry.lock
    commit_first = ground (arith, at_locked)

    abbrev write_committed : V → TransMap K V → TransMap K V
    write_committed x = write k (λ r. unlock lsn no_op (assign x r))

    at_first : find k (write_committed v twice.map).rows ≡ some (committed lsn v)
    unfolding pend_update unlock assign Entry.lock
    at_first =
        ground (
          arith,
          at_locked,
          find-modify k k (λ r. unlock lsn no_op (assign v r)) locked,
          same_self k,
        )

    commit_second :
        commit_op lsn (map_update s.lock_id update_op k w) (write_committed v twice.map)
        ≡ ok (write_committed v twice.map)
    unfolding commit_op unlock
    commit_second = ground (arith, at_first)

    commit_both : s.ops ≡ [] → commit_all lsn twice.ops twice.map ≡ ok (write_committed v twice.map)
    unfolding commit_all pend_update modify commit_op
    commit_both none_yet = rw (none_yet, commit_first, commit_second)

    abbrev both_records : List (LogRecord K V)
    both_records =
        record { op_code = update_op; key = k; value = some v }
        ∷ record { op_code = update_op; key = k; value = some w }
        ∷ []

    log_both : s.ops ≡ [] → add_to_log twice.ops twice.map ≡ ok both_records
    unfolding add_to_log op_to_log pend_update
    log_both none_yet = rw none_yet

    at_recovered :
        find k (write_committed w (write_committed v s.map)).rows ≡ some (committed lsn w)
    unfolding unlock assign
    at_recovered = ground (
      arith,
      find-modify k k (λ r. unlock lsn no_op (assign v r)) s.map.rows,
      find-modify k k (λ r. unlock lsn no_op (assign w r)) (write_committed v s.map).rows,
      same_self k,
    )

    recover_both :
        recover_all lsn both_records s.map ≡ ok (write_committed w (write_committed v s.map))
    unfolding recover_all recover_op
    recover_both =
        ground (
          arith,
          found,
          find-modify k k (λ r. unlock lsn no_op (assign v r)) s.map.rows,
          same_self k,
        )

    -- A transaction that updates a committed entry to `v` and then to `w`, through an iterator that
    -- was obtained before, and does nothing else:
    -- both updates succeed, the commit succeeds and leaves the entry with `v`, and the recovery of
    -- the log that the same transaction wrote leaves it with `w`.
    update_twice-commits_first :
        e.op ≡ no_op
        → s.ops ≡ []
        → (t u : Session K V) × (a b : TransMap K V) × (rs : List (LogRecord K V)) × (update k v s
            ≡ ok t)
          × (update k w t ≡ ok u)
          × (commit_all lsn u.ops u.map ≡ ok a)
          × (find k a.rows ≡ some (committed lsn v))
          × (add_to_log u.ops u.map ≡ ok rs)
          × (recover_all lsn rs s.map ≡ ok b)
          × (find k b.rows ≡ some (committed lsn w))
    update_twice-commits_first free none_yet = (
      once,
      twice,
      write_committed v twice.map,
      write_committed w (write_committed v s.map),
      both_records,
      update-once free,
      update_again,
      commit_both none_yet,
      at_first,
      log_both none_yet,
      recover_both,
      at_recovered,
    )

  module _ (v : V) (s : Session K V) (lsn : ℕ) (found : find k s.map.rows ≡ some e) where
    abbrev erased : Session K V
    erased = record_op (map_delete e.txn_id e.op k) (lock_entry k delete_op s)

    abbrev inserted : Session K V
    inserted = insert_on_delete k v erased

    abbrev erased_again : Session K V
    erased_again = record_op (map_delete s.lock_id update_op k) (lock_entry k delete_op inserted)

    abbrev at_lock : TransactionalOperations → List (K × TransEntry V) → List (K × TransEntry V)
    at_lock op rows = modify k (Entry.lock s.lock_id op) rows

    find-lock :
        (op : TransactionalOperations) (rows : List (K × TransEntry V)) (r : TransEntry V)
        → find k rows ≡ some r
        → find k (at_lock op rows) ≡ some (Entry.lock s.lock_id op r)
    find-lock op rows r f =
        ground (arith, find-modify k k (Entry.lock s.lock_id op) rows, same_self k)

    erase_first : e.op ≡ no_op → erase k s ≡ ok erased
    unfolding erase at_entry erase_by_op
    erase_first free = ground arith

    insert_over : insert k v erased ≡ ok (inserted, true)
    unfolding insert insert_by_op
    insert_over = ground (arith, find-lock delete_op s.map.rows e found, ==_refl s.lock_id)

    at_erased_again :
        find k erased_again.map.rows
        ≡ some (
            Entry.lock s.lock_id delete_op
              (Entry.lock s.lock_id update_op (Entry.lock s.lock_id delete_op e)))
    unfolding insert_on_delete
    at_erased_again = find-lock delete_op (at_lock update_op (at_lock delete_op s.map.rows)) _ (
        find-lock update_op (at_lock delete_op s.map.rows) _
          (find-lock delete_op s.map.rows e found))

    erase_second : erase k inserted ≡ ok erased_again
    unfolding erase at_entry erase_by_op insert_on_delete Entry.lock
    erase_second = ground (
      arith,
      find-lock update_op (at_lock delete_op s.map.rows) (Entry.lock s.lock_id delete_op e)
          (find-lock delete_op s.map.rows e found),
      ==_refl s.lock_id,
    )

    commit_dangles : s.ops ≡ [] → commit_all lsn erased_again.ops erased_again.map ≡ throw undefined
    unfolding commit_all commit_op insert_on_delete Entry.lock
    commit_dangles none_yet =
        ground (arith, at_erased_again, find-erase k k erased_again.map.rows, same_self k)

    -- A transaction that erases a committed entry, inserts its key again and erases it once more,
    -- through the iterator of the first erase, and does nothing else: the three calls succeed, and the commit dereferences an erased entry.
    erase-insert-erase-undefined :
        e.op ≡ no_op
        → s.ops ≡ []
        → (t u w : Session K V) × (erase k s ≡ ok t)
          × (insert k v t ≡ ok (u, true))
          × (erase k u ≡ ok w)
          × (commit_all lsn w.ops w.map ≡ throw undefined)
    erase-insert-erase-undefined free none_yet = (
      erased,
      inserted,
      erased_again,
      erase_first free,
      insert_over,
      erase_second,
      commit_dangles none_yet,
    )
