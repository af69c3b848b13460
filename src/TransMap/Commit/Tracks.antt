-- ===== src/TransMap/Commit/Tracks.antt =====
-- trans_map.tcc and map_ops.h: the invariant of a transaction with one operation on each key,
-- against the map that it started on.
use stldb.Prelude.{
  ◌≡◌, refl, subst, ◌∙◌, false, Option, none, some, List, [], ◌∷◌, ◌++◌, arith, if◌then◌else◌, ◌==◌,
  Bool-cases, inl, inr, ==→eq,
}
use stldb.TransMap.Rows.{Comparator, find, modify, same_self, find-modify}
use stldb.TransMap.Entry.{
  TransactionalOperations, no_op, lock_op, insert_op, update_op, delete_op, deleted_insert_op,
  clear_op, swap_op, TransEntry, entry_of,
}
use stldb.TransMap.Entry
use stldb.TransMap.Op.{TransMap, MapOp, op_key, write}
use stldb.TransMap.Calls.{Session, contended}
use stldb.TransMap.Rollback.Undo.{HoldsNothing}
use stldb.TransMap.Commit.Pending.{Pending}
use stldb.TransMap.Commit.Redo.{op_at, Distinct, EntryAgrees, Agrees}

module _ {K V : Type 0} ⦃c : Comparator K⦄ where
  op_at-append :
      (j : K) (ops : List (MapOp K V)) (o : MapOp K V)
      → op_at j (ops ++ o ∷ []) ≡ elim (op_at j ops) [
        | none ↦ (if c.same (op_key o) j then some o else none)
        | some p ↦ some p
      ]
  op_at-append j [] o = refl
  op_at-append j (p ∷ ops) o = ground (arith, op_at-append j ops o)

  Distinct-append :
      (ops : List (MapOp K V)) (o : MapOp K V)
      → Distinct ops
      → op_at (op_key o) ops ≡ none
      → Distinct (ops ++ o ∷ [])
  Distinct-append [] o d f = (refl, tt)
  Distinct-append (p ∷ ops) o d f = (
    ground (
      arith,
      op_at-append (op_key p) ops o,
      c.same_iff (op_key p) (op_key o),
      c.same_iff (op_key o) (op_key p),
    ),
    Distinct-append ops o d.1 (ground arith),
  )

  -- The operations of `s` are on distinct keys and stand between the map `b` and its own.
  pub record Tracks (b : TransMap K V) (s : Session K V) : Type 0 where
    pub agrees : Agrees s.lock_id s.ops b s.map
    pub distinct : Distinct s.ops
    pub freed : s.map.freed ≡ b.freed
    pub held : HoldsNothing s.lock_id b

  module _ (b : TransMap K V) (s : Session K V) (h : Tracks b s) where
    pub Tracks-record :
        (o : MapOp K V) (n : TransMap K V) (p : List (K × V))
        → op_at (op_key o) s.ops ≡ none
        → Pending s.lock_id o (find (op_key o) b.rows) (find (op_key o) n.rows)
        → ((j : K) → c.same (op_key o) j ≡ false → find j n.rows ≡ find j s.map.rows)
        → n.freed ≡ s.map.freed
        → Tracks b (record s { map = n; ops = s.ops ++ o ∷ []; pending = p })
    Tracks-record o n p fresh pend others f = record {
      agrees = λ j. elim (Bool-cases (c.same (op_key o) j)) [
        | inl hit ↦
            subst
              (λ z.
                EntryAgrees s.lock_id (op_at z (s.ops ++ o ∷ [])) (find z b.rows) (find z n.rows))
              ((c.same_iff (op_key o) j).0 hit)
              (rw (op_at-append (op_key o) s.ops o, fresh, same_self (op_key o)) pend)
        | inr miss ↦
            rw (op_at-append j s.ops o, others j miss) (unmoved j miss (op_at j s.ops) refl)
      ];
      distinct = Distinct-append s.ops o h.distinct fresh;
      freed = f ∙ h.freed;
      held = h.held;
    }
      where
        unmoved :
            (j : K)
            → c.same (op_key o) j ≡ false
            → (q : Option (MapOp K V)) → op_at j s.ops ≡ q
            → EntryAgrees s.lock_id
                (elim q [
                  | none ↦ (if c.same (op_key o) j then some o else none)
                  | some p' ↦ some p'
                ])
                (find j b.rows)
                (find j s.map.rows)
        unmoved j miss none e = rw miss (rw e at (h.agrees j))
        unmoved j miss (some p') e = rw e at (h.agrees j)

    module _ (k : K) (fresh : op_at k s.ops ≡ none) where
      pub entry_before : find k b.rows ≡ find k s.map.rows
      entry_before = rw fresh at (h.agrees k)

      pub held-no_op :
          (e : TransEntry V) → find k s.map.rows ≡ some e → e.txn_id ≡ s.lock_id → e.op ≡ no_op
      held-no_op e found mine = h.held k e (entry_before ∙ found) mine

      pub free-no_op :
          (e : TransEntry V)
          → find k s.map.rows ≡ some e
          → contended s.lock_id e ≡ false
          → e.op ≡ no_op
      free-no_op e found free = elim (Bool-cases (e.txn_id == s.lock_id)) [
        | inl mine ↦ held-no_op e found (==→eq e.txn_id s.lock_id mine)
        | inr theirs ↦ ground arith
      ]

      -- A lock of the free entry for `o`.
      pub Tracks-lock :
          (op : TransactionalOperations) (o : MapOp K V) (e : TransEntry V) (p : List (K × V))
          → op_key o ≡ k
          → (find k b.rows ≡ some e
              → find k (modify k (Entry.lock s.lock_id op) s.map.rows)
                ≡ some (Entry.lock s.lock_id op e)
              → Pending s.lock_id o
                  (find k b.rows)
                  (find k (modify k (Entry.lock s.lock_id op) s.map.rows)))
          → find k s.map.rows ≡ some e
          → Tracks b (record s {
            map = write k (Entry.lock s.lock_id op) s.map;
            ops = s.ops ++ o ∷ [];
            pending = p;
          })
      Tracks-lock op o e p at_k pend found =
          Tracks-record o (write k (Entry.lock s.lock_id op) s.map) p (rw at_k fresh)
            (rw at_k (
              pend (entry_before ∙ found) (
                ground (arith, find-modify k k (Entry.lock s.lock_id op) s.map.rows, same_self k))))
            (λ j miss. ground (arith, find-modify k j (Entry.lock s.lock_id op) s.map.rows)) refl
