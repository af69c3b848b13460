-- ===== src/TransMap/Commit/Calls.antt =====
-- trans_map.tcc and map_ops.h: a transaction that calls the map once for each key commits to what
-- the recovery of its log gives.
use stldb.Prelude.{
  ℕ, ◌≡◌, refl, subst, ◌∙◌, Bool, true, none, some, List, [], arith, if◌then◌else◌, ◌==◌, ok, of_ok,
  Bool-cases, Option-cases, inl, inr,
}
use stldb.TransMap.Rows.{Comparator, find, same_self, find-insert_new}
use stldb.TransMap.Entry.{
  TransactionalOperations, no_op, lock_op, insert_op, update_op, delete_op, deleted_insert_op,
  clear_op, swap_op, TransEntry, entry_of,
}
use stldb.TransMap.Entry
use stldb.TransMap.Op.{TransMap, map_insert, map_lock, LogRecord}
use stldb.TransMap.Calls.{
  Session, at_entry-eq-ok, unless_contended-eq-ok, record_op, lock_entry, insert_entry, lock,
  update, update_by_op, insert, insert_by_op, erase, erase_by_op,
}
use stldb.TransMap.Rollback.Undo.{Step, locks, updates, inserts, erases, HoldsNothing}
use stldb.TransMap.Commit.Tracks.{
  Tracks, Tracks-record, entry_before, held-no_op, free-no_op, Tracks-lock,
}
use stldb.TransMap.Commit.Redo.{op_at, CommitsAsRedone, Agrees-CommitsAsRedone}

module _ {K V : Type 0} ⦃c : Comparator K⦄ (b : TransMap K V) (s : Session K V) (h : Tracks b s)
    (k : K) (fresh : op_at k s.ops ≡ none) where
  lock-Tracks : (t : Session K V) → lock k s ≡ ok t → Tracks b t
  unfolding lock
  lock-Tracks t r =
      let (e, found, q) = at_entry-eq-ok k s _ r in
      let (free, q') = unless_contended-eq-ok e s _ q in
      by_owner e found (free-no_op b s h k fresh e found free) q'
    where
      by_owner :
          (e : TransEntry V)
          → find k s.map.rows ≡ some e
          → e.op ≡ no_op
          → (if e.txn_id == s.lock_id
              then ok s
              else ok (record_op (map_lock e.txn_id e.op k) (lock_entry k lock_op s)))
            ≡ ok t
          → Tracks b t
      by_owner e found free q = elim (Bool-cases (e.txn_id == s.lock_id)) [
        | inl mine ↦ of_ok (Tracks b) (rw mine at q) h
        | inr theirs ↦ of_ok (Tracks b) (rw theirs at q) (
            Tracks-lock b s h k fresh lock_op _ e s.pending refl
              (λ before now. (e, before, free, refl, now)) found)
      ]

  update_by_op-Tracks :
      (op : TransactionalOperations) (v : V) (e : TransEntry V) (t : Session K V)
      → e.op ≡ op
      → op ≡ no_op
      → find k s.map.rows ≡ some e
      → update_by_op op k v e s ≡ ok t
      → Tracks b t
  unfolding update_by_op
  update_by_op-Tracks no_op v e t i n found q =
      of_ok (Tracks b) q
        (Tracks-lock b s h k fresh update_op _ e _ refl (λ before now. (e, before, now)) found)
  update_by_op-Tracks _ v e t i n found q = cc

  update-Tracks : (v : V) (t : Session K V) → update k v s ≡ ok t → Tracks b t
  unfolding update
  update-Tracks v t r =
      let (e, found, q) = at_entry-eq-ok k s _ r in
      let (free, q') = unless_contended-eq-ok e s _ q in
      update_by_op-Tracks e.op v e t refl (free-no_op b s h k fresh e found free) found q'

  erase_by_op-Tracks :
      (op : TransactionalOperations) (e : TransEntry V) (t : Session K V)
      → e.op ≡ op
      → op ≡ no_op
      → find k s.map.rows ≡ some e
      → erase_by_op op k e s ≡ ok t
      → Tracks b t
  unfolding erase_by_op
  erase_by_op-Tracks no_op e t i n found q =
      of_ok (Tracks b) q
        (Tracks-lock b s h k fresh delete_op _ e _ refl (λ before now. (e, before, now)) found)
  erase_by_op-Tracks _ e t i n found q = cc

  erase-Tracks : (t : Session K V) → erase k s ≡ ok t → Tracks b t
  unfolding erase
  erase-Tracks t r =
      let (e, found, q) = at_entry-eq-ok k s _ r in
      let (free, q') = unless_contended-eq-ok e s _ q in
      erase_by_op-Tracks e.op e t refl (free-no_op b s h k fresh e found free) found q'

  insert_by_op-Tracks :
      (op : TransactionalOperations) (v : V) (e : TransEntry V) (t : Session K V) (done : Bool)
      → e.op ≡ op
      → find k s.map.rows ≡ some e
      → insert_by_op op k v e s ≡ ok (t, done)
      → Tracks b t
  unfolding insert_by_op
  insert_by_op-Tracks no_op v e t done i found q = subst (Tracks b) (cc) h
  insert_by_op-Tracks lock_op v e t done i found q = subst (Tracks b) (cc) h
  insert_by_op-Tracks update_op v e t done i found q = subst (Tracks b) (cc) h
  insert_by_op-Tracks insert_op v e t done i found q = subst (Tracks b) (ground arith) h
  insert_by_op-Tracks delete_op v e t done i found q =
      absurd (ground (arith, held-no_op b s h k fresh e found))
  insert_by_op-Tracks _ v e t done i found q = cc

  insert-Tracks : (v : V) (done : Bool) (t : Session K V) → insert k v s ≡ ok (t, done) → Tracks b t
  unfolding insert
  insert-Tracks v done t r = elim (Option-cases (find k s.map.rows)) [
    | inl absent ↦
        of_ok (λ (x : Session K V × Bool). Tracks b x.0)
          (let q : ok (record_op (map_insert k) (insert_entry k v s), true) ≡ ok (t, done) =
              ground arith in
            q)
          (let e : TransEntry V = Entry.lock s.lock_id insert_op (entry_of v) in
            Tracks-record b s h (map_insert k) (insert_entry k v s).map s.pending fresh
              (
                v,
                entry_before b s h k fresh ∙ absent,
                ground (arith, find-insert_new k k e s.map.rows absent, same_self k),
              )
              (λ j miss. ground (arith, find-insert_new k j e s.map.rows absent)) refl)
    | inr (e, found) ↦ insert_by_op-Tracks e.op v e t done refl found (ground arith)
  ]

module _ {K V : Type 0} ⦃c : Comparator K⦄ where
  abbrev step_key : (s : Session K V) {t : Session K V} → Step s t → K
  step_key s (locks k r) = k
  step_key s (updates k v r) = k
  step_key s (inserts k v done r) = k
  step_key s (erases k r) = k

  -- Successful calls, each on a key that no operation of the transaction is on yet.
  pub data FreshSteps (s : Session K V) : Session K V → Type 0 where
    start : FreshSteps s s
    call :
        {t u : Session K V}
        → FreshSteps s t
        → (st : Step t u) → op_at (step_key t st) t.ops ≡ none
        → FreshSteps s u

  Step-Tracks :
      {b : TransMap K V} {s t : Session K V}
      → Tracks b s
      → (st : Step s t) → op_at (step_key s st) s.ops ≡ none
      → Tracks b t
  Step-Tracks {b} {s} {t} h (locks k r) f = lock-Tracks b s h k f t r
  Step-Tracks {b} {s} {t} h (updates k v r) f = update-Tracks b s h k f v t r
  Step-Tracks {b} {s} {t} h (inserts k v done r) f = insert-Tracks b s h k f v done t r
  Step-Tracks {b} {s} {t} h (erases k r) f = erase-Tracks b s h k f t r

  FreshSteps-Tracks :
      {b : TransMap K V} {s t : Session K V} → Tracks b s → FreshSteps s t → Tracks b t
  FreshSteps-Tracks h start = h
  FreshSteps-Tracks h (call r st f) = Step-Tracks (FreshSteps-Tracks h r) st f

  -- A transaction that starts with no operations on a map where it holds no entry, and whose
  -- successful calls are each on a key that it has no operation on yet, commits without error;
  -- its operations are logged without error; the recovery of that log on the map of the start
  -- succeeds with the same entries (values, ids, operations and checkpoint locations) at every
  -- key, and with the same freed checkpoint space.
  pub commit-redo :
      (s t : Session K V) (lsn : ℕ)
      → s.ops ≡ []
      → HoldsNothing s.lock_id s.map
      → FreshSteps s t
      → (a b : TransMap K V) × (rs : List (LogRecord K V)) × CommitsAsRedone lsn t.ops t.map t.map
          s.map a b rs
  commit-redo s t lsn none_yet free r =
      Agrees-CommitsAsRedone t.lock_id lsn t.ops t.map t.map s.map tracked.distinct tracked.agrees
        (λ j n. refl) tracked.freed
    where
      tracked : Tracks s.map t
      tracked =
          FreshSteps-Tracks
            (record {
              agrees = λ j. rw none_yet refl;
              distinct = rw none_yet tt;
              freed = refl;
              held = free;
            })
            r
