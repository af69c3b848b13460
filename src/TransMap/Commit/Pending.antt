-- ===== src/TransMap/Commit/Pending.antt =====
-- map_ops.h: how an entry with one pending operation stands to the committed entry, and what the
-- commit and the recovery of that operation make of the two.
use stldb.Prelude.{
  ℕ, ◌+◌, ◌≡◌, refl, false, Option, none, some, List, [], ◌∷◌, arith, ltb, if◌then◌else◌, ok,
}
use stldb.TransMap.Rows.{
  Comparator, find, insert_new, erase, find-modify, find-insert_new, find-erase, same_self,
}
use stldb.TransMap.Entry.{
  TransactionalOperations, no_op, lock_op, insert_op, update_op, delete_op, TransEntry, unlock,
  assign, entry_of,
}
use stldb.TransMap.Entry
use stldb.TransMap.Op.{
  insert_location, TransMap, MapOp, map_insert, map_update, map_delete, map_deleted_insert,
  map_lock, op_key, LogRecord, write, commit_op, op_to_log, recover_op, recover_all,
}

module _ {K V : Type 0} where
  -- The committed entry and the entry as the transaction `t` left it, for each operation. An
  -- entry that was inserted and erased again has two operations and is not such an entry.
  abbrev pub Pending : ℕ → MapOp K V → Option (TransEntry V) → Option (TransEntry V) → Type 0
  Pending t (map_insert k) before now =
      (v : V) × (before ≡ none) × (now ≡ some (Entry.lock t insert_op (entry_of v)))
  Pending t (map_update id op k v) before now =
      (e : TransEntry V) × (before ≡ some e) × (now ≡ some (Entry.lock t update_op e))
  Pending t (map_delete id op k) before now =
      (e : TransEntry V) × (before ≡ some e) × (now ≡ some (Entry.lock t delete_op e))
  Pending t (map_deleted_insert id op k) before now = ⊥
  Pending t (map_lock id op k) before now =
      (e : TransEntry V) × (before ≡ some e)
      × (e.op ≡ no_op)
      × (e.txn_id ≡ id)
      × (now ≡ some (Entry.lock t lock_op e))

module _ {K V : Type 0} ⦃c : Comparator K⦄ where
  -- The commit of `op` leads from `a` to `a1`; its log from `x` is `rs`, whose recovery leads from
  -- `b` to `b1`; the two agree at the key and change nothing else.
  pub record Redone (lsn : ℕ) (op : MapOp K V) (x a b a1 b1 : TransMap K V)
      (rs : List (LogRecord K V)) : Type 0 where
    pub commits : commit_op lsn op a ≡ ok a1
    pub logs : op_to_log op x ≡ ok rs
    pub recovers : recover_all lsn rs b ≡ ok b1
    pub freed : a1.freed ≡ b1.freed
    pub at_key : find (op_key op) a1.rows ≡ find (op_key op) b1.rows
    pub others : (j : K) → c.same (op_key op) j ≡ false → find j a1.rows ≡ find j a.rows
    pub others_redone : (j : K) → c.same (op_key op) j ≡ false → find j b1.rows ≡ find j b.rows

  module _ (t lsn : ℕ) (x a b : TransMap K V) (same_freed : a.freed ≡ b.freed) where
    abbrev OpRedone : MapOp K V → Type 0
    OpRedone op =
        (a1 : TransMap K V) × (b1 : TransMap K V) × (rs : List (LogRecord K V)) × Redone lsn op x a
          b a1 b1 rs

    insert-Redone :
        (k : K) (v : V)
        → find k b.rows ≡ none
        → find k a.rows ≡ some (Entry.lock t insert_op (entry_of v))
        → find k x.rows ≡ find k a.rows
        → OpRedone (map_insert k)
    unfolding commit_op op_to_log recover_op recover_all Entry.lock entry_of unlock
    insert-Redone k v before now log = (
      write k (unlock lsn no_op) a,
      record b { rows = insert_new k (unlock lsn no_op (entry_of v)) b.rows },
      record { op_code = insert_op; key = k; value = some v } ∷ [],
      record {
        commits = ground arith;
        logs = ground arith;
        recovers = ground arith;
        freed = same_freed;
        at_key = ground (
          arith,
          find-modify k k (unlock lsn no_op) a.rows,
          find-insert_new k k (unlock lsn no_op (entry_of v)) b.rows before,
          same_self k,
        );
        others = λ j d. ground (arith, find-modify k j (unlock lsn no_op) a.rows);
        others_redone = λ j d.
            ground (arith, find-insert_new k j (unlock lsn no_op (entry_of v)) b.rows before);
      },
    )

    update-Redone :
        (id : ℕ) (op : TransactionalOperations) (k : K) (v : V) (e : TransEntry V)
        → find k b.rows ≡ some e
        → find k a.rows ≡ some (Entry.lock t update_op e)
        → OpRedone (map_update id op k v)
    unfolding commit_op op_to_log recover_op recover_all Entry.lock unlock assign
    update-Redone id op k v e before now = (
      write k (λ r. unlock lsn no_op (assign v r)) a,
      write k (λ r. unlock lsn no_op (assign v r)) b,
      record { op_code = update_op; key = k; value = some v } ∷ [],
      record {
        commits = ground arith;
        logs = refl;
        recovers = ground arith;
        freed = same_freed;
        at_key = ground (
          arith,
          find-modify k k (λ r. unlock lsn no_op (assign v r)) a.rows,
          find-modify k k (λ r. unlock lsn no_op (assign v r)) b.rows,
          same_self k,
        );
        others = λ j d. ground (arith, find-modify k j (λ r. unlock lsn no_op (assign v r)) a.rows);
        others_redone =
            λ j d. ground (arith, find-modify k j (λ r. unlock lsn no_op (assign v r)) b.rows);
      },
    )

    delete-Redone :
        (id : ℕ) (op : TransactionalOperations) (k : K) (e : TransEntry V)
        → find k b.rows ≡ some e
        → find k a.rows ≡ some (Entry.lock t delete_op e)
        → find k x.rows ≡ find k a.rows
        → OpRedone (map_delete id op k)
    unfolding commit_op op_to_log recover_op recover_all Entry.lock
    delete-Redone id op k e before now log = (
      record a { rows = erase k a.rows; freed = freed_with a; ver_num = a.ver_num + 1 },
      record b { rows = erase k b.rows; freed = freed_with b },
      record { op_code = delete_op; key = k; value = none } ∷ [],
      record {
        commits = ground arith;
        logs = ground arith;
        recovers = ground arith;
        freed = ground arith;
        at_key = ground (arith, find-erase k k a.rows, find-erase k k b.rows, same_self k);
        others = λ j d. ground (arith, find-erase k j a.rows);
        others_redone = λ j d. ground (arith, find-erase k j b.rows);
      },
    )
      where
        freed_with : TransMap K V → List (ℕ × ℕ)
        freed_with m = if ltb 0 e.size then insert_location (e.offset, e.size) m.freed else m.freed

    lock-Redone :
        (id : ℕ) (op : TransactionalOperations) (k : K) (e : TransEntry V)
        → find k b.rows ≡ some e
        → e.op ≡ no_op
        → e.txn_id ≡ id
        → find k a.rows ≡ some (Entry.lock t lock_op e)
        → OpRedone (map_lock id op k)
    unfolding commit_op op_to_log recover_all Entry.lock unlock
    lock-Redone id op k e before free last now = (
      write k (unlock id no_op) a,
      b,
      [],
      record {
        commits = ground arith;
        logs = refl;
        recovers = refl;
        freed = same_freed;
        at_key = ground (arith, find-modify k k (unlock id no_op) a.rows, same_self k);
        others = λ j d. ground (arith, find-modify k j (unlock id no_op) a.rows);
        others_redone = λ j d. refl;
      },
    )

    pub Pending-Redone :
        (op : MapOp K V)
        → Pending t op (find (op_key op) b.rows) (find (op_key op) a.rows)
        → find (op_key op) x.rows ≡ find (op_key op) a.rows
        → OpRedone op
    Pending-Redone (map_insert k) (v, before, now) log = insert-Redone k v before now log
    Pending-Redone (map_update id op k v) (e, before, now) log =
        update-Redone id op k v e before now
    Pending-Redone (map_delete id op k) (e, before, now) log =
        delete-Redone id op k e before now log
    Pending-Redone (map_deleted_insert id op k) p log = absurd p
    Pending-Redone (map_lock id op k) (e, before, free, last, now) log =
        lock-Redone id op k e before free last now
