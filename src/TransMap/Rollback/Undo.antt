-- ===== src/TransMap/Rollback/Undo.antt =====
-- trans_map.tcc and map_ops.h: the invariant that a transaction's operations undo what it did so
-- far, kept by each change that a call makes to the session.
use mathlib.Core.Option
use stldb.Prelude.{
  subst, ℕ, ◌≡◌, ◌≢◌, ◌∙◌, Bool, Option, none, some, List, [], ◌∷◌, ◌++◌, arith, ◌⊎◌, inl, inr, ok,
  Bool-cases, Option-cases,
}
use stldb.TransMap.Rows.{
  Comparator, find, modify, same_self, find-modify, find-insert_new, erase-insert_new, modify_id,
}
use stldb.TransMap.Entry.{
  TransactionalOperations, no_op, lock_op, insert_op, update_op, delete_op, deleted_insert_op,
  clear_op, swap_op, TransEntry, unlock, assign, is_no_op, entry_of,
}
use stldb.TransMap.Entry
use stldb.TransMap.Op.{
  TransMap, deref, MapOp, map_insert, map_update, write, rollback_op, rollback_all,
}
use stldb.TransMap.Calls.{Session, lock, update, insert, erase, insert_entry}
use stldb.TransMap.Rollback.{
  rollback_all-append, write-unlock-lock, rollback_all-assign_inserted, InsertsKey,
  InsertsKey-append, InsertsKey_last,
}

module _ {K V : Type 0} ⦃c : Comparator K⦄ where
  -- One successful call of a transaction on the map.
  pub data Step (s t : Session K V) : Type 0 where
    locks : (k : K) → lock k s ≡ ok t → Step s t
    updates : (k : K) (v : V) → update k v s ≡ ok t → Step s t
    inserts : (k : K) (v : V) (done : Bool) → insert k v s ≡ ok (t, done) → Step s t
    erases : (k : K) → erase k s ≡ ok t → Step s t

  pub data Steps (s : Session K V) : Session K V → Type 0 where
    here : Steps s s
    next : {t u : Session K V} → Steps s t → Step t u → Steps s u

  -- Rolling back leads to `m`, and a row with a pending insert of the transaction is one that its
  -- list inserts.
  pub record Undoes (m : TransMap K V) (s : Session K V) : Type 0 where
    pub undo : rollback_all s.ops s.map ≡ ok m
    pub inserted :
        (k : K) (e : TransEntry V)
        → find k s.map.rows ≡ some e
        → e.op ≡ insert_op
        → e.txn_id ≡ s.lock_id
        → InsertsKey k s.ops

  -- No entry is held by a transaction with this id.
  abbrev pub HoldsNothing : ℕ → TransMap K V → Type 0
  HoldsNothing id m =
      (k : K) (e : TransEntry V) → find k m.rows ≡ some e → e.txn_id ≡ id → e.op ≡ no_op

  module _ (m : TransMap K V) (s : Session K V) (h : Undoes m s) where
    undo-record :
        (op : MapOp K V) (n : TransMap K V)
        → rollback_op op n ≡ ok s.map
        → rollback_all (s.ops ++ op ∷ []) n ≡ ok m
    undo-record op n e = rw (rollback_all-append s.ops op n, e) h.undo

    -- After a lock of the entry with another operation than an insert.
    inserted-lock :
        (k : K) (op : TransactionalOperations) (o : MapOp K V)
        → op ≢ insert_op
        → (j : K) (e : TransEntry V)
        → find j (modify k (Entry.lock s.lock_id op) s.map.rows) ≡ some e
        → e.op ≡ insert_op
        → e.txn_id ≡ s.lock_id
        → InsertsKey j (s.ops ++ o ∷ [])
    unfolding Entry.lock
    inserted-lock k op o d j e f i t = elim (Bool-cases (c.same k j)) [
      | inl hit ↦
          absurd (locked_op (find j s.map.rows) (rw (find-modify k j _ s.map.rows, hit) at f))
      | inr miss ↦
          InsertsKey-append j s.ops o
            (h.inserted j e (rw (find-modify k j _ s.map.rows, miss) at f) i t)
    ]
      where
        locked_op :
            (r : Option (TransEntry V)) → Option.map (Entry.lock s.lock_id op) r ≡ some e → ⊥
        locked_op none p = cc
        locked_op (some r) p = d (cc)

    -- The entry's hook is changed, and `o` records what it was.
    pub Undoes-lock :
        (k : K) (op : TransactionalOperations) (o : MapOp K V) (e : TransEntry V) (p : List (K × V))
        → op ≢ insert_op
        → ((n : TransMap K V)
            → rollback_op o n ≡ deref k n (λ _. ok (write k (unlock e.txn_id e.op) n)))
        → find k s.map.rows ≡ some e
        → Undoes m (record s {
          map = write k (Entry.lock s.lock_id op) s.map;
          ops = s.ops ++ o ∷ [];
          pending = p;
        })
    Undoes-lock k op o e p d back f = record {
      undo = undo-record o (write k (Entry.lock s.lock_id op) s.map) (
          ground (
            arith,
            back (write k (Entry.lock s.lock_id op) s.map),
            find-modify k k (Entry.lock s.lock_id op) s.map.rows,
            same_self k,
            write-unlock-lock k op s.lock_id e s.map f,
          ));
      inserted = inserted-lock k op o d;
    }

    pub Undoes-update_again :
        (k : K) (v : V) (e : TransEntry V) (p : List (K × V))
        → find k s.map.rows ≡ some e
        → Undoes m (record s { ops = s.ops ++ map_update e.txn_id e.op k v ∷ []; pending = p })
    unfolding rollback_op unlock
    Undoes-update_again k v e p f = record {
      undo =
          undo-record (map_update e.txn_id e.op k v) s.map
            (ground (arith, modify_id k (unlock e.txn_id e.op) e s.map.rows f));
      inserted = λ j r g i t. InsertsKey-append j s.ops _ (h.inserted j r g i t);
    }

    pub Undoes-assign :
        (k : K) (v : V) (e : TransEntry V)
        → find k s.map.rows ≡ some e
        → e.op ≡ insert_op
        → e.txn_id ≡ s.lock_id
        → Undoes m (record s { map = write k (assign v) s.map })
    unfolding assign
    Undoes-assign k v e f i t = record {
      undo = rollback_all-assign_inserted k v s.ops s.map (h.inserted k e f i t) ∙ h.undo;
      inserted = λ j r g i' t'. kept j r g i' t' (Option-cases (find j s.map.rows));
    }
      where
        kept :
            (j : K) (r : TransEntry V)
            → find j (modify k (assign v) s.map.rows) ≡ some r
            → r.op ≡ insert_op
            → r.txn_id ≡ s.lock_id
            → (find j s.map.rows ≡ none) ⊎ ((a : TransEntry V) × (find j s.map.rows ≡ some a))
            → InsertsKey j s.ops
        kept j r g i' t' (inl n) = absurd (ground (arith, find-modify k j (assign v) s.map.rows))
        kept j r g i' t' (inr (a, q)) =
            h.inserted j a q (ground (arith, find-modify k j (assign v) s.map.rows))
              (ground (arith, find-modify k j (assign v) s.map.rows))

    pub Undoes-insert :
        (k : K) (v : V)
        → find k s.map.rows ≡ none
        → Undoes m (record (insert_entry k v s) { ops = s.ops ++ map_insert k ∷ [] })
    unfolding rollback_op Entry.lock entry_of
    Undoes-insert k v f = record {
      undo = undo-record (map_insert k) (insert_entry k v s).map (
          ground (
            arith,
            find-insert_new k k (Entry.lock s.lock_id insert_op (entry_of v)) s.map.rows f,
            erase-insert_new k (Entry.lock s.lock_id insert_op (entry_of v)) s.map.rows f,
            same_self k,
          ));
      inserted = λ j r g i t. elim (Bool-cases (c.same k j)) [
        | inl hit ↦
            subst (λ x. InsertsKey x (s.ops ++ map_insert k ∷ [])) ((c.same_iff k j).0 hit)
              (InsertsKey_last k s.ops)
        | inr miss ↦
            InsertsKey-append j s.ops _
              (h.inserted j r (rw (find-insert_new k j _ s.map.rows f, miss) at g) i t)
      ];
    }
