-- ===== src/TransMap/Rollback.antt =====
-- Transaction::rollback against a map: what it leaves.
pub mod Undo
pub mod Restores
use mathlib.Core.Option
use stldb.Prelude.{
  ℕ, ◌≡◌, refl, sym, ap, ◌∙◌, Bool, true, false, none, some, List, [], ◌∷◌, ◌++◌, arith, ◌⊎◌, inl,
  inr, Result, ok, throw, ◌>>=◌, map_ok, >>=_assoc, Result-cases, Option-cases, ==_refl,
}
use stldb.TransMap.Rows.{
  Comparator, find, insert_new, modify, same_self, find-modify, find-insert_new, find-erase,
  erase-insert_new, modify-modify, modify_id, modify_comm, erase-modify_comm, erase-modify_self,
}
use stldb.TransMap.Rows
use stldb.TransMap.Entry.{TransactionalOperations, insert_op, TransEntry, unlock, assign}
use stldb.TransMap.Entry
use stldb.TransMap.Op.{
  TransMap, MapOp, map_insert, map_update, map_delete, map_deleted_insert, map_lock, write, remove,
  rollback_op, rollback_all,
}

module _ {K V : Type 0} ⦃c : Comparator K⦄ where
  pub rollback_all-append :
      (ops : List (MapOp K V)) (op : MapOp K V) (m : TransMap K V)
      → rollback_all (ops ++ op ∷ []) m ≡ (rollback_op op m >>= λ m'. rollback_all ops m')
  unfolding rollback_all
  rollback_all-append [] op m = ground arith
  rollback_all-append (o ∷ ops) op m =
      rw (rollback_all-append ops op m) (>>=_assoc (rollback_op op m) _ _)

  -- Undoing a change of an entry's hook gives the entry back.
  pub write-unlock-lock :
      (k : K) (op : TransactionalOperations) (id : ℕ) (e : TransEntry V) (m : TransMap K V)
      → find k m.rows ≡ some e
      → write k (unlock e.txn_id e.op) (write k (Entry.lock id op) m) ≡ m
  unfolding unlock Entry.lock
  write-unlock-lock k op id e m h =
      ap (λ (rows : List (K × TransEntry V)). record m { rows = rows })
        (modify-modify k _ _ m.rows ∙ modify_id k _ e m.rows h refl)

  unlock-assign :
      (k j : K) (v : V) (id : ℕ) (op : TransactionalOperations) (rows : List (K × TransEntry V))
      → modify j (unlock id op) (modify k (assign v) rows)
        ≡ modify k (assign v) (modify j (unlock id op) rows)
  unfolding unlock assign
  unlock-assign k j v id op rows = modify_comm j k _ _ rows (λ r. refl)

  -- A pending value does not matter to the rollback of an operation.
  rollback_op-assign :
      (k : K) (v : V) (op : MapOp K V) (m : TransMap K V)
      → rollback_op op (write k (assign v) m) ≡ map_ok (write k (assign v)) (rollback_op op m)
  unfolding rollback_op
  rollback_op-assign k v (map_insert j) m =
      ground (arith, find-modify k j (assign v) m.rows, erase-modify_comm j k (assign v) m.rows)
  rollback_op-assign k v (map_update id op j w) m =
      ground (arith, find-modify k j (assign v) m.rows, unlock-assign k j v id op m.rows)
  rollback_op-assign k v (map_delete id op j) m =
      ground (arith, find-modify k j (assign v) m.rows, unlock-assign k j v id op m.rows)
  rollback_op-assign k v (map_deleted_insert id op j) m =
      ground (arith, find-modify k j (assign v) m.rows, unlock-assign k j v id op m.rows)
  rollback_op-assign k v (map_lock id op j) m =
      ground (arith, find-modify k j (assign v) m.rows, unlock-assign k j v id op m.rows)

  rollback_all-assign :
      (k : K) (v : V) (ops : List (MapOp K V)) (m : TransMap K V)
      → rollback_all ops (write k (assign v) m) ≡ map_ok (write k (assign v)) (rollback_all ops m)
  unfolding rollback_all
  rollback_all-assign k v [] m = refl
  rollback_all-assign k v (op ∷ ops) m = elim (Result-cases (rollback_all ops m)) [
    | inl (m', e) ↦ rw (rollback_all-assign k v ops m, e) (rollback_op-assign k v op m')
    | inr (x, e) ↦ rw (rollback_all-assign k v ops m, e)
  ]

  -- The transaction has recorded the insert of this key.
  abbrev pub InsertsKey : K → List (MapOp K V) → Type 0
  InsertsKey k [] = ⊥
  InsertsKey k (op ∷ ops) = (op ≡ map_insert k) ⊎ InsertsKey k ops

  pub InsertsKey-append :
      (k : K) (ops : List (MapOp K V)) (op : MapOp K V)
      → InsertsKey k ops
      → InsertsKey k (ops ++ op ∷ [])
  InsertsKey-append k [] op h = absurd h
  InsertsKey-append k (o ∷ ops) op (inl e) = inl e
  InsertsKey-append k (o ∷ ops) op (inr h) = inr (InsertsKey-append k ops op h)

  pub InsertsKey_last : (k : K) (ops : List (MapOp K V)) → InsertsKey k (ops ++ map_insert k ∷ [])
  InsertsKey_last k [] = inl refl
  InsertsKey_last k (o ∷ ops) = inr (InsertsKey_last k ops)

  rollback_insert-assign :
      (k : K) (v : V) (m : TransMap K V)
      → rollback_op (map_insert k) (write k (assign v) m) ≡ rollback_op (map_insert k) m
  unfolding rollback_op
  rollback_insert-assign k v m =
      ground (
        arith,
        find-modify k k (assign v) m.rows,
        erase-modify_self k (assign v) m.rows,
        same_self k,
      )

  -- Nor does it matter to the rollback of a list that erases the entry.
  pub rollback_all-assign_inserted :
      (k : K) (v : V) (ops : List (MapOp K V)) (m : TransMap K V)
      → InsertsKey k ops
      → rollback_all ops (write k (assign v) m) ≡ rollback_all ops m
  unfolding rollback_all
  rollback_all-assign_inserted k v [] m h = absurd h
  rollback_all-assign_inserted k v (op ∷ ops) m (inl e) =
      rw (e, rollback_all-assign k v ops m)
        (elim (Result-cases (rollback_all ops m)) [
          | inl (m', e') ↦ rw e' (rollback_insert-assign k v m')
          | inr (x, e') ↦ rw e'
        ])
  rollback_all-assign_inserted k v (op ∷ ops) m (inr h) =
      rw (rollback_all-assign_inserted k v ops m h)
