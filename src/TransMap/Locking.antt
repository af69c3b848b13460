-- ===== src/TransMap/Locking.antt =====
-- trans_map.tcc: row locks. What a transaction's successful call on an entry does to the calls of
-- the other transactions on it.
use stldb.Prelude.{
  ℕ, ◌≡◌, ◌≢◌, refl, sym, ◌∙◌, true, false, some, List, arith, ok, throw, row_level_lock_contention,
  of_ok,
}
use stldb.TransMap.Rows.{Comparator, find, modify, find-modify, same_self}
use stldb.TransMap.Entry.{
  TransactionalOperations, no_op, lock_op, insert_op, update_op, delete_op, deleted_insert_op,
  clear_op, swap_op, TransEntry, assign,
}
use stldb.TransMap.Entry
use stldb.TransMap.Op.{map_lock}
use stldb.TransMap.Calls.{
  Session, contended, at_entry, at_entry-eq-ok, unless_contended-eq-ok, record_op, lock_entry, lock,
  update, update_by_op, erase, erase_by_op,
}

module _ {V : Type 0} where
  contended_held :
      (id : ℕ) (e : TransEntry V) → e.op ≢ no_op → e.txn_id ≢ id → contended id e ≡ true
  contended_held id e d d' = ground arith

module _ {K V : Type 0} ⦃c : Comparator K⦄ where
  -- The entry at the key is held by the transaction with this lock id.
  abbrev HeldBy : ℕ → K → List (K × TransEntry V) → Type 0
  HeldBy id k rows = (e : TransEntry V) × (find k rows ≡ some e) × (e.op ≢ no_op) × (e.txn_id ≡ id)

  -- A call that is to change the entry at the key, with its outcome.
  pub data Writes (k : K) (s t : Session K V) : Type 0 where
    updated : (v : V) → update k v s ≡ ok t → Writes k s t
    erased : erase k s ≡ ok t → Writes k s t

  module _ (k : K) (s : Session K V) where
    abbrev Held : Session K V → Type 0
    Held t = HeldBy s.lock_id k t.map.rows

    HeldBy-lock :
        (op : TransactionalOperations) (e : TransEntry V)
        → op ≢ no_op
        → find k s.map.rows ≡ some e
        → HeldBy s.lock_id k (modify k (Entry.lock s.lock_id op) s.map.rows)
    unfolding Entry.lock
    HeldBy-lock op e d found = (
      Entry.lock s.lock_id op e,
      ground (arith, find-modify k k (Entry.lock s.lock_id op) s.map.rows, same_self k),
      d,
      refl,
    )

    update_by_op-Held :
        (op : TransactionalOperations) (v : V) (e : TransEntry V) (t : Session K V)
        → e.op ≡ op
        → find k s.map.rows ≡ some e
        → contended s.lock_id e ≡ false
        → update_by_op op k v e s ≡ ok t
        → Held t
    unfolding update_by_op
    update_by_op-Held no_op v e t i found free q =
        of_ok Held q (HeldBy-lock update_op e (λ x. cc) found)
    update_by_op-Held lock_op v e t i found free q =
        of_ok Held q (HeldBy-lock update_op e (λ x. cc) found)
    update_by_op-Held update_op v e t i found free q =
        of_ok Held q (e, found, (λ x. cc), ground arith)
    update_by_op-Held insert_op v e t i found free q = of_ok Held q (
      assign v e,
      ground (arith, find-modify k k (assign v) s.map.rows, same_self k),
      (λ x. cc),
      ground arith,
    )
    update_by_op-Held _ v e t i found free q = cc

    erase_by_op-Held :
        (op : TransactionalOperations) (e : TransEntry V) (t : Session K V)
        → e.op ≡ op
        → find k s.map.rows ≡ some e
        → erase_by_op op k e s ≡ ok t
        → Held t
    unfolding erase_by_op
    erase_by_op-Held no_op e t i found q = of_ok Held q (HeldBy-lock delete_op e (λ x. cc) found)
    erase_by_op-Held lock_op e t i found q = of_ok Held q (HeldBy-lock delete_op e (λ x. cc) found)
    erase_by_op-Held update_op e t i found q =
        of_ok Held q (HeldBy-lock delete_op e (λ x. cc) found)
    erase_by_op-Held insert_op e t i found q =
        of_ok Held q (HeldBy-lock deleted_insert_op e (λ x. cc) found)
    erase_by_op-Held _ e t i found q = cc

    Writes-Held : (t : Session K V) → Writes k s t → Held t
    unfolding update erase
    Writes-Held t (updated v h) =
        let (e, found, q) = at_entry-eq-ok k s _ h in
        let (free, q') = unless_contended-eq-ok e s _ q in
        update_by_op-Held e.op v e t refl found free q'
    Writes-Held t (erased h) =
        let (e, found, q) = at_entry-eq-ok k s _ h in
        let (free, q') = unless_contended-eq-ok e s _ q in erase_by_op-Held e.op e t refl found q'

  held-refuses :
      (k : K) (r : Session K V) (e : TransEntry V) (w : V)
      → find k r.map.rows ≡ some e
      → contended r.lock_id e ≡ true
      → (lock k r ≡ throw row_level_lock_contention)
        × (update k w r ≡ throw row_level_lock_contention)
        × (erase k r ≡ throw row_level_lock_contention)
  unfolding lock update erase at_entry
  held-refuses k r e w found held = (ground arith, ground arith, ground arith)

  -- Once a transaction has updated or erased an entry, the lock, update and erase calls of every
  -- transaction with another lock id on that entry throw row_level_lock_contention.
  pub write-excludes :
      (k : K) (w : V) (s t r : Session K V)
      → Writes k s t
      → r.map ≡ t.map
      → r.lock_id ≢ s.lock_id
      → (lock k r ≡ throw row_level_lock_contention)
        × (update k w r ≡ throw row_level_lock_contention)
        × (erase k r ≡ throw row_level_lock_contention)
  write-excludes k w s t r h m d =
      let (e, found, busy, mine) = Writes-Held k s t h in
      held-refuses k r e w (rw m found) (contended_held r.lock_id e busy (λ x. d (sym x ∙ mine)))

  -- A transaction whose lock id is the id (the LSN) that a committed entry carries: its lock call
  -- returns with nothing changed, and a transaction with another lock id still locks the entry.
  lock-misses :
      (k : K) (e : TransEntry V) (s r : Session K V)
      → find k s.map.rows ≡ some e
      → e.op ≡ no_op
      → e.txn_id ≡ s.lock_id
      → r.map ≡ s.map
      → r.lock_id ≢ s.lock_id
      → (lock k s ≡ ok s)
        × (lock k r ≡ ok (record_op (map_lock e.txn_id e.op k) (lock_entry k lock_op r)))
  unfolding lock at_entry
  lock-misses k e s r found free mine m d =
      let found' : find k r.map.rows ≡ some e = rw m found in (ground arith, ground arith)
