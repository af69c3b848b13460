-- ===== src/TransMap/Entry.antt =====
-- stldb/containers/trans_map_entry.h: the transactional state that each entry carries.
use stldb.Prelude.{ℕ, Bool, true, false}

pub data TransactionalOperations : Type 0 where
  no_op lock_op insert_op update_op delete_op deleted_insert_op clear_op swap_op :
      TransactionalOperations

-- TransEntry<V>: the value with its trans_set_hook. The 60-bit _txn_id is a number: ids count up
-- from 1, one for each transaction, and stay below 2 ^ 59. `offset` and `size` are
-- _checkpoint_location.
pub record TransEntry (V : Type 0) : Type 0 where
  pub value : V
  pub op : TransactionalOperations
  pub txn_id : ℕ
  pub offset : ℕ
  pub size : ℕ

module _ {V : Type 0} where
  -- trans_set_hook::lock
  unfoldable pub lock : ℕ → TransactionalOperations → TransEntry V → TransEntry V
  lock id op e = record e { op = op; txn_id = id }

  -- trans_set_hook::unlock
  unfoldable pub unlock : ℕ → TransactionalOperations → TransEntry V → TransEntry V
  unlock id op e = record e { op = op; txn_id = id }

  -- operator=(const T&): a new value, with the hook as it is.
  unfoldable pub assign : V → TransEntry V → TransEntry V
  assign v e = record e { value = v }

  -- TransEntry(const T&): a value with a fresh hook.
  unfoldable pub entry_of : V → TransEntry V
  entry_of v = record { value = v; op = no_op; txn_id = 0; offset = 0; size = 0 }

abbrev pub is_no_op : TransactionalOperations → Bool
is_no_op no_op = true
is_no_op _ = false

abbrev pub is_lock_op : TransactionalOperations → Bool
is_lock_op lock_op = true
is_lock_op _ = false

abbrev pub is_insert_op : TransactionalOperations → Bool
is_insert_op insert_op = true
is_insert_op _ = false

abbrev pub is_update_op : TransactionalOperations → Bool
is_update_op update_op = true
is_update_op _ = false

abbrev pub is_delete_op : TransactionalOperations → Bool
is_delete_op delete_op = true
is_delete_op _ = false

abbrev pub is_deleted_insert_op : TransactionalOperations → Bool
is_deleted_insert_op deleted_insert_op = true
is_deleted_insert_op _ = false
