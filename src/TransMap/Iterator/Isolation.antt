-- ===== src/TransMap/Iterator/Isolation.antt =====
-- trans_map.tcc and trans_assoc_iterator.h: what readers see of an uncommitted transaction.
use stldb.Prelude.{ℕ, ◌≡◌, ◌≢◌, refl, none, some, List, arith, ok}
use stldb.TransMap.Rows.{Comparator, find, find-modify, same_self}
use stldb.TransMap.Entry
use stldb.TransMap.Calls.{Session, at_entry, record_op, lock_entry, erase, erase_by_op}
use stldb.TransMap.Rollback.Undo.{Step, locks, updates, inserts, erases}
use stldb.TransMap.Entry.{
  TransactionalOperations, no_op, lock_op, insert_op, update_op, delete_op, deleted_insert_op,
  clear_op, swap_op, TransEntry, entry_of, assign, is_update_op, is_insert_op, is_delete_op,
}
use stldb.TransMap.Op.{map_deleted_insert}
use stldb.TransMap.Iterator.{current}
use stldb.TransMap.Iterator.Read.{read_in, read_in-find}
use stldb.TransMap.Iterator.Unseen.{lock-Unseen, update-Unseen, insert-Unseen, erase-Unseen}

module _ {K V : Type 0} ⦃c : Comparator K⦄ where
  -- An erase in the call is of an entry other than a pending insert.
  abbrev ErasesCommitted : (s : Session K V) {t : Session K V} → Step s t → Type 0
  ErasesCommitted s (locks k h) = Unit {0}
  ErasesCommitted s (updates k v h) = Unit {0}
  ErasesCommitted s (inserts k v done h) = Unit {0}
  ErasesCommitted s (erases k h) =
      (e : TransEntry V) → find k s.map.rows ≡ some e → e.op ≢ insert_op

  -- A lock, an update, an insert or an erase (the erase of an entry that is no pending insert)
  -- changes nothing that find(key, trans) shows to a reader with another lock id, at any key.
  pub Step-isolation :
      (r : ℕ) (p : List (K × V)) (j : K) (s t : Session K V)
      → r ≢ s.lock_id
      → (st : Step s t) → ErasesCommitted s st
      → read_in r p j t.map ≡ read_in r p j s.map
  Step-isolation r p j s t other (locks k h) d = lock-Unseen r p j s other k t h
  Step-isolation r p j s t other (updates k v h) d = update-Unseen r p j s other k v t h
  Step-isolation r p j s t other (inserts k v done h) d = insert-Unseen r p j s other k v done t h
  Step-isolation r p j s t other (erases k h) d = erase-Unseen r p j s other k t d h

  -- The erase of the transaction's own pending insert succeeds, and shows the value that was never
  -- committed to every reader with another lock id, who did not see the entry before.
  pub erase_insert-shows :
      (r : ℕ) (p : List (K × V)) (k : K) (e : TransEntry V) (s : Session K V)
      → r ≢ s.lock_id
      → find k s.map.rows ≡ some e
      → e.op ≡ insert_op
      → e.txn_id ≡ s.lock_id
      → (t : Session K V) × (erase k s ≡ ok t)
        × (read_in r p k s.map ≡ none)
        × (read_in r p k t.map ≡ some (ok e.value))
  erase_insert-shows r p k e s other found i mine = (
    record_op (map_deleted_insert e.txn_id e.op k) (lock_entry k deleted_insert_op s),
    erases,
    rw (read_in-find r p k s.map, found) (unfold current in ground arith),
    rw
        (
          read_in-find r p k _,
          find-modify k k (Entry.lock s.lock_id deleted_insert_op) s.map.rows,
          same_self k,
          found,
        )
        (unfold current Entry.lock in refl),
  )
    where
      erases :
          erase k s
          ≡ ok (record_op (map_deleted_insert e.txn_id e.op k) (lock_entry k deleted_insert_op s))
      erases = unfold erase at_entry erase_by_op in ground arith
