-- ===== src/TransMap/Calls.antt =====
-- stldb/containers/trans_map.tcc: the calls by which a transaction locks, updates, inserts and
-- erases entries. A call returns the new state or throws; it throws before it writes anything.
use stldb.Prelude.{
  ℕ, Bool, true, false, not, ◌&&◌, none, some, List, [], ◌∷◌, ◌++◌, ◌==◌, if◌then◌else◌, ◌≡◌, arith,
  inl, inr, Option-cases, Bool-cases, Result, ok, throw, row_level_lock_contention, row_deleted,
  recovery_needed, undefined,
}
use stldb.TransMap.Rows.{Comparator, find, insert_new, modify}
use stldb.TransMap.Entry.{
  TransactionalOperations, no_op, lock_op, insert_op, update_op, delete_op, deleted_insert_op,
  clear_op, swap_op, TransEntry, assign, entry_of, is_no_op,
}
use stldb.TransMap.Entry
use stldb.TransMap.Op.{
  TransMap, MapOp, map_insert, map_update, map_delete, map_deleted_insert, map_lock, write,
}

-- The members of Transaction that a map's calls read and write: the lock id, the list of
-- operations (_outstandingChanges, in order), and the map's pending_change_map_t.
pub record Session (K V : Type 0) : Type 0 where
  pub map : TransMap K V
  pub lock_id : ℕ
  pub ops : List (MapOp K V)
  pub pending : List (K × V)

module _ {V : Type 0} where
  -- Another transaction holds the entry.
  abbrev pub contended : ℕ → TransEntry V → Bool
  contended id e = not (is_no_op e.op) && not (e.txn_id == id)

module _ {K V : Type 0} where
  -- insert_work_in_progress
  abbrev pub record_op : MapOp K V → Session K V → Session K V
  record_op op s = record s { ops = s.ops ++ op ∷ [] }

module _ {K V : Type 0} ⦃c : Comparator K⦄ where
  -- i->second.lock( trans, op )
  abbrev pub lock_entry : K → TransactionalOperations → Session K V → Session K V
  lock_entry k op s = record s { map = write k (Entry.lock s.lock_id op) s.map }

  -- addPendingUpdate
  unfoldable add_pending_update : K → V → List (K × V) → List (K × V)
  add_pending_update k v p = elim (find k p) [
    | none ↦ insert_new k v p
    | some old ↦ modify k (λ _. v) p
  ]

  -- The entry at an iterator that shows the entry itself, as one does that was obtained before the
  -- transaction's own update of it. An iterator obtained later shows the pending value, which has a
  -- hook of its own; calls through it are not modelled.
  unfoldable pub at_entry :
      K → Session K V → (TransEntry V → Result (Session K V)) → Result (Session K V)
  at_entry k s use_entry = elim (find k s.map.rows) [
    | none ↦ throw undefined
    | some e ↦ use_entry e
  ]

  pub at_entry-eq-ok :
      (k : K) (s : Session K V) (f : TransEntry V → Result (Session K V)) {t : Session K V}
      → at_entry k s f ≡ ok t
      → (e : TransEntry V) × (find k s.map.rows ≡ some e) × (f e ≡ ok t)
  unfolding at_entry
  at_entry-eq-ok k s f h = elim (Option-cases (find k s.map.rows)) [
    | inl absent ↦ absurd (ground arith)
    | inr (e, found) ↦ (e, found, ground arith)
  ]

  -- The guard of lock_i, update_i and erase_i.
  abbrev pub unless_contended :
      TransEntry V → Session K V → Result (Session K V) → Result (Session K V)
  unless_contended e s r = if contended s.lock_id e then throw row_level_lock_contention else r

  pub unless_contended-eq-ok :
      (e : TransEntry V) (s : Session K V) (r : Result (Session K V)) {t : Session K V}
      → unless_contended e s r ≡ ok t
      → (contended s.lock_id e ≡ false) × (r ≡ ok t)
  unless_contended-eq-ok e s r h = elim (Bool-cases (contended s.lock_id e)) [
    | inl held ↦ absurd (ground arith)
    | inr free ↦ (free, ground arith)
  ]

  -- lock_i
  unfoldable pub lock : K → Session K V → Result (Session K V)
  unfolding Entry.lock
  lock k s = at_entry k s λ e. unless_contended e s (
      if e.txn_id == s.lock_id
      then ok s
      else ok (record_op (map_lock e.txn_id e.op k) (lock_entry k lock_op s)))

  -- The `case Update_op` of update_i, on an entry that is locked for the update.
  unfoldable pub pend_update : K → V → TransEntry V → Session K V → Session K V
  unfolding add_pending_update
  pend_update k v e s =
      record_op (map_update e.txn_id e.op k v)
        (record s { pending = add_pending_update k v s.pending })

  -- The switch of update_i; `e` is the entry before the call.
  unfoldable pub update_by_op :
      TransactionalOperations → K → V → TransEntry V → Session K V → Result (Session K V)
  unfolding pend_update Entry.lock assign
  update_by_op insert_op k v e s = ok (record s { map = write k (assign v) s.map })
  update_by_op delete_op k v e s = throw row_deleted
  update_by_op no_op k v e s = ok (pend_update k v e (lock_entry k update_op s))
  update_by_op lock_op k v e s = ok (pend_update k v e (lock_entry k update_op s))
  update_by_op update_op k v e s = ok (pend_update k v e s)
  update_by_op deleted_insert_op k v e s = throw recovery_needed
  update_by_op clear_op k v e s = throw recovery_needed
  update_by_op swap_op k v e s = throw recovery_needed

  -- update_i
  unfoldable pub update : K → V → Session K V → Result (Session K V)
  update k v s = at_entry k s λ e. unless_contended e s (update_by_op e.op k v e s)

  -- An insert on top of the transaction's own delete becomes an update.
  unfoldable pub insert_on_delete : K → V → Session K V → Session K V
  unfolding Entry.lock add_pending_update
  insert_on_delete k v s =
      let locked = lock_entry k update_op s in
      record_op (map_update s.lock_id delete_op k v)
        (record locked { pending = add_pending_update k v locked.pending })

  -- baseclass::insert of a new entry, locked with Insert_op.
  abbrev pub insert_entry : K → V → Session K V → Session K V
  insert_entry k v s =
      let e = Entry.lock s.lock_id insert_op (entry_of v) in
      record s { map = record s.map { rows = insert_new k e s.map.rows } }

  -- The switch of insert(value_type, trans) on the entry that is in the way.
  unfoldable pub insert_by_op :
      TransactionalOperations → K → V → TransEntry V → Session K V → Result (Session K V × Bool)
  unfolding insert_on_delete
  insert_by_op no_op k v e s = ok (s, false)
  insert_by_op lock_op k v e s = ok (s, false)
  insert_by_op update_op k v e s = ok (s, false)
  insert_by_op insert_op k v e s =
      if e.txn_id == s.lock_id then ok (s, false) else throw row_level_lock_contention
  insert_by_op delete_op k v e s =
      if e.txn_id == s.lock_id
      then ok (insert_on_delete k v s, true)
      else throw row_level_lock_contention
  insert_by_op deleted_insert_op k v e s = throw recovery_needed
  insert_by_op clear_op k v e s = throw recovery_needed
  insert_by_op swap_op k v e s = throw recovery_needed

  -- insert(value_type, trans): the state, and whether the insert took place.
  unfoldable pub insert : K → V → Session K V → Result (Session K V × Bool)
  unfolding Entry.lock entry_of
  insert k v s = elim (find k s.map.rows) [
    | none ↦ ok (record_op (map_insert k) (insert_entry k v s), true)
    | some e ↦ insert_by_op e.op k v e s
  ]

  -- The switch of insert(iterator, value_type, trans) on the entry that the container returns,
  -- which the call may just have inserted; `same_value` compares with the caller's value.
  unfoldable insert_at_by_op :
      TransactionalOperations
      → (V → V → Bool)
      → K
      → V
      → TransEntry V
      → Session K V
      → Result (Session K V)
  unfolding insert_on_delete
  insert_at_by_op insert_op same_value k v e s =
      if e.txn_id == s.lock_id
      then ok (if same_value e.value v then record_op (map_insert k) s else s)
      else throw row_level_lock_contention
  insert_at_by_op delete_op same_value k v e s =
      if e.txn_id == s.lock_id then ok (insert_on_delete k v s) else throw row_level_lock_contention
  insert_at_by_op no_op same_value k v e s = ok s
  insert_at_by_op lock_op same_value k v e s = ok s
  insert_at_by_op update_op same_value k v e s = ok s
  insert_at_by_op deleted_insert_op same_value k v e s = ok (record_op (map_insert k) s)
  insert_at_by_op clear_op same_value k v e s = ok (record_op (map_insert k) s)
  insert_at_by_op swap_op same_value k v e s = ok (record_op (map_insert k) s)

  -- insert(iterator, value_type, trans)
  unfoldable insert_at : (V → V → Bool) → K → V → Session K V → Result (Session K V)
  unfolding insert_at_by_op Entry.lock entry_of
  insert_at same_value k v s = elim (find k s.map.rows) [
    | none ↦
        insert_at_by_op insert_op same_value k v (Entry.lock s.lock_id insert_op (entry_of v))
          (insert_entry k v s)
    | some e ↦ insert_at_by_op e.op same_value k v e s
  ]

  -- The switch of erase_i.
  unfoldable pub erase_by_op :
      TransactionalOperations → K → TransEntry V → Session K V → Result (Session K V)
  unfolding Entry.lock
  erase_by_op insert_op k e s =
      ok (record_op (map_deleted_insert e.txn_id e.op k) (lock_entry k deleted_insert_op s))
  erase_by_op no_op k e s = ok (record_op (map_delete e.txn_id e.op k) (lock_entry k delete_op s))
  erase_by_op lock_op k e s = ok (record_op (map_delete e.txn_id e.op k) (lock_entry k delete_op s))
  erase_by_op update_op k e s =
      ok (record_op (map_delete e.txn_id e.op k) (lock_entry k delete_op s))
  erase_by_op delete_op k e s = throw row_deleted
  erase_by_op deleted_insert_op k e s = throw recovery_needed
  erase_by_op clear_op k e s = throw recovery_needed
  erase_by_op swap_op k e s = throw recovery_needed

  -- erase_i
  unfoldable pub erase : K → Session K V → Result (Session K V)
  erase k s = at_entry k s λ e. unless_contended e s (erase_by_op e.op k e s)
