-- ===== src/TransMap/Op.antt =====
-- stldb/containers/detail/map_ops.h and the container_proxy of trans_map.h: the operations that a
-- transaction records against a map, with their commit, rollback, logging and recovery.
-- An operation's iterator is its key: while the operation is pending the entry stays in the map.
-- A dereference of an entry that the map no longer holds is `throw undefined`.
use stldb.Prelude.{
  ℕ, ◌+◌, Bool, true, Option, none, some, List, [], ◌∷◌, ◌++◌, ◌==◌, ltb, if◌then◌else◌, Result, ok,
  throw, undefined, ◌>>=◌,
}
use stldb.TransMap.Rows.{Comparator, find, insert_new, erase, modify}
use stldb.TransMap.Entry.{
  TransactionalOperations, no_op, lock_op, insert_op, update_op, delete_op, deleted_insert_op,
  clear_op, swap_op, TransEntry, unlock, assign, entry_of, is_lock_op, is_insert_op, is_update_op,
  is_delete_op, is_deleted_insert_op,
}

-- The members of trans_map that transactions change: the entries, _ver_num,
-- _freed_checkpoint_space (offset and size, in the order of the offsets) and _uncheckpointed_clear.
pub record TransMap (K V : Type 0) : Type 0 where
  pub rows : List (K × TransEntry V)
  pub ver_num : ℕ
  pub freed : List (ℕ × ℕ)
  pub uncheckpointed_clear : Bool

-- insert of freed_space_map_t, which keeps what stands at the offset.
unfoldable pub insert_location : ℕ × ℕ → List (ℕ × ℕ) → List (ℕ × ℕ)
insert_location location [] = location ∷ []
insert_location (offset, size) ((o, s) ∷ m) =
    let later = insert_location (offset, size) m in
    if offset == o
    then (o, s) ∷ m
    else if ltb offset o
    then (offset, size) ∷ (o, s) ∷ m
    else (o, s) ∷ later

-- map_insert_operation and its siblings. The numbers and operations are prev_txnid and prev_op.
pub data MapOp (K V : Type 0) : Type 0 where
  map_insert : K → MapOp K V
  map_update : ℕ → TransactionalOperations → K → V → MapOp K V
  map_delete : ℕ → TransactionalOperations → K → MapOp K V
  map_deleted_insert : ℕ → TransactionalOperations → K → MapOp K V
  map_lock : ℕ → TransactionalOperations → K → MapOp K V

-- What add_to_log serializes for recovery: the op code, and the entry or the key.
pub record LogRecord (K V : Type 0) : Type 0 where
  pub op_code : TransactionalOperations
  pub key : K
  pub value : Option V

module _ {K V : Type 0} where
  abbrev pub op_key : MapOp K V → K
  op_key (map_insert k) = k
  op_key (map_update id op k v) = k
  op_key (map_delete id op k) = k
  op_key (map_deleted_insert id op k) = k
  op_key (map_lock id op k) = k

module _ {K V : Type 0} ⦃c : Comparator K⦄ where
  -- `_entry->second`
  abbrev pub deref {ℓ} : {A : Type ℓ} → K → TransMap K V → (TransEntry V → Result A) → Result A
  deref k m use_entry = elim (find k m.rows) [ none ↦ throw undefined | some e ↦ use_entry e ]

  abbrev pub write : K → (TransEntry V → TransEntry V) → TransMap K V → TransMap K V
  write k f m = record m { rows = modify k f m.rows }

  -- baseclass::erase through an iterator.
  abbrev pub remove : K → TransMap K V → TransMap K V
  remove k m = record m { rows = erase k m.rows }

  -- The location of an erased entry, if it was checkpointed.
  abbrev free_location : TransEntry V → TransMap K V → TransMap K V
  free_location e m = record m {
    freed = if ltb 0 e.size then insert_location (e.offset, e.size) m.freed else m.freed;
  }

  -- The commit() of each operation, for a transaction with this LSN.
  unfoldable pub commit_op : ℕ → MapOp K V → TransMap K V → Result (TransMap K V)
  unfolding unlock assign insert_location
  commit_op lsn (map_insert k) m =
      deref k m λ e. ok (if is_insert_op e.op then write k (unlock lsn no_op) m else m)
  commit_op lsn (map_update id op k v) m =
      deref k m
        λ e. ok (if is_update_op e.op then write k (λ r. unlock lsn no_op (assign v r)) m else m)
  commit_op lsn (map_delete id op k) m = deref k m λ e. ok (
      if is_delete_op e.op
      then (let m' = remove k (free_location e m) in record m' { ver_num = m'.ver_num + 1 })
      else m)
  commit_op lsn (map_deleted_insert id op k) m =
      deref k m λ e. ok (if is_deleted_insert_op e.op then remove k m else m)
  commit_op lsn (map_lock id op k) m =
      deref k m λ e. ok (if is_lock_op e.op then write k (unlock id no_op) m else m)

  -- The rollback() of each operation.
  unfoldable pub rollback_op : MapOp K V → TransMap K V → Result (TransMap K V)
  unfolding unlock
  rollback_op (map_insert k) m = deref k m λ e. ok (remove k m)
  rollback_op (map_update id op k v) m = deref k m λ e. ok (write k (unlock id op) m)
  rollback_op (map_delete id op k) m = deref k m λ e. ok (write k (unlock id op) m)
  rollback_op (map_deleted_insert id op k) m = deref k m λ e. ok (write k (unlock id op) m)
  rollback_op (map_lock id op k) m = deref k m λ e. ok (write k (unlock id op) m)

  -- transactional_op_list::commit, in order.
  unfoldable pub commit_all : ℕ → List (MapOp K V) → TransMap K V → Result (TransMap K V)
  commit_all lsn [] m = ok m
  commit_all lsn (op ∷ ops) m = commit_op lsn op m >>= λ m'. commit_all lsn ops m'

  -- transactional_op_list::rollback, in reverse order.
  unfoldable pub rollback_all : List (MapOp K V) → TransMap K V → Result (TransMap K V)
  rollback_all [] m = ok m
  rollback_all (op ∷ ops) m = rollback_all ops m >>= λ m'. rollback_op op m'

  -- add_to_log of each operation: a lock writes nothing, an insert writes the entry as it is now,
  -- and a deleted insert is constructed with the op code of a delete.
  unfoldable pub op_to_log : MapOp K V → TransMap K V → Result (List (LogRecord K V))
  op_to_log (map_insert k) m =
      deref k m λ e. ok (record { op_code = insert_op; key = k; value = some e.value } ∷ [])
  op_to_log (map_update id op k v) m =
      ok (record { op_code = update_op; key = k; value = some v } ∷ [])
  op_to_log (map_delete id op k) m =
      deref k m λ e. ok (record { op_code = delete_op; key = k; value = none } ∷ [])
  op_to_log (map_deleted_insert id op k) m =
      deref k m λ e. ok (record { op_code = delete_op; key = k; value = none } ∷ [])
  op_to_log (map_lock id op k) m = ok []

  -- transactional_op_list::add_to_log
  unfoldable pub add_to_log : List (MapOp K V) → TransMap K V → Result (List (LogRecord K V))
  add_to_log [] m = ok []
  add_to_log (op ∷ ops) m = op_to_log op m >>= λ rs. add_to_log ops m >>= λ rest. ok (rs ++ rest)

  -- map_insert_operation::recover
  unfoldable recover_insert : ℕ → K → V → TransMap K V → TransMap K V
  unfolding unlock entry_of
  recover_insert lsn k v m = elim (find k m.rows) [
    | none ↦ record m { rows = insert_new k (unlock lsn no_op (entry_of v)) m.rows }
    | some e ↦ m
  ]

  -- map_update_operation::recover
  unfoldable recover_update : ℕ → K → V → TransMap K V → TransMap K V
  unfolding unlock entry_of assign
  recover_update lsn k v m = elim (find k m.rows) [
    | none ↦ record m { rows = insert_new k (unlock lsn no_op (entry_of v)) m.rows }
    | some e ↦ write k (λ r. unlock lsn no_op (assign v r)) m
  ]

  -- map_delete_operation::recover
  unfoldable recover_delete : K → TransMap K V → TransMap K V
  unfolding insert_location
  recover_delete k m = elim (find k m.rows) [ none ↦ m | some e ↦ remove k (free_location e m) ]

  -- container_proxy<trans_map>::recoverOp: the switch on the op code. A record whose payload does
  -- not fit its op code cannot be deserialized. Swap_op, which no operation's get_op_code returns,
  -- works on two containers and is not modelled.
  unfoldable recover_by_code :
      TransactionalOperations → ℕ → K → Option V → TransMap K V → Result (TransMap K V)
  unfolding recover_insert recover_update recover_delete
  recover_by_code insert_op lsn k (some v) m = ok (recover_insert lsn k v m)
  recover_by_code insert_op lsn k none m = throw undefined
  recover_by_code update_op lsn k (some v) m = ok (recover_update lsn k v m)
  recover_by_code update_op lsn k none m = throw undefined
  recover_by_code delete_op lsn k v m = ok (recover_delete k m)
  recover_by_code deleted_insert_op lsn k v m = ok (remove k m)
  recover_by_code clear_op lsn k v m = ok (record m { rows = []; uncheckpointed_clear = true })
  recover_by_code swap_op lsn k v m = throw undefined
  recover_by_code no_op lsn k v m = ok m
  recover_by_code lock_op lsn k v m = ok m

  unfoldable pub recover_op : ℕ → LogRecord K V → TransMap K V → Result (TransMap K V)
  unfolding recover_by_code
  recover_op lsn r m = recover_by_code r.op_code lsn r.key r.value m

  -- The loop of recovery_manager::recover_txn over the operations of one transaction.
  unfoldable pub recover_all : ℕ → List (LogRecord K V) → TransMap K V → Result (TransMap K V)
  recover_all lsn [] m = ok m
  recover_all lsn (r ∷ rs) m = recover_op lsn r m >>= λ m'. recover_all lsn rs m'
