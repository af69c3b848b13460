-- ===== src/TransMap/Rollback/Restores.antt =====
-- trans_map.tcc and map_ops.h: rolling back restores the map, after any calls in any order.
use stldb.Prelude.{
  ◌≡◌, refl, Bool, true, false, some, [], arith, inl, inr, Result, ok, Bool-cases, Option-cases,
  of_ok, subst, if◌then◌else◌, ◌==◌, ==→eq,
}
use stldb.TransMap.Rows.{Comparator, find}
use stldb.TransMap.Entry.{
  TransactionalOperations, no_op, lock_op, insert_op, update_op, delete_op, deleted_insert_op,
  TransEntry,
}
use stldb.TransMap.Op.{TransMap, map_insert, map_lock, rollback_op, rollback_all}
use stldb.TransMap.Calls.{
  Session, unless_contended, insert_entry, at_entry-eq-ok, record_op, lock_entry, contended, lock,
  update, update_by_op, insert, insert_by_op, erase, erase_by_op,
}
use stldb.TransMap.Rollback.Undo.{
  Step, locks, updates, inserts, erases, Steps, here, next, Undoes, HoldsNothing, Undoes-lock,
  Undoes-update_again, Undoes-assign, Undoes-insert,
}

module _ {K V : Type 0} ⦃c : Comparator K⦄ (m : TransMap K V) (s : Session K V)
    (h : Undoes m s) where
  unless_contended-Undoes :
      (e : TransEntry V) (r : Result (Session K V)) (t : Session K V)
      → (contended s.lock_id e ≡ false → r ≡ ok t → Undoes m t)
      → unless_contended e s r ≡ ok t
      → Undoes m t
  unless_contended-Undoes e r t f q = elim (Bool-cases (contended s.lock_id e)) [
    | inl held ↦ absurd (ground arith)
    | inr free ↦ f free (ground arith)
  ]

  lock-Undoes : (k : K) (t : Session K V) → lock k s ≡ ok t → Undoes m t
  unfolding lock
  lock-Undoes k t r =
      let (e, found, q) = at_entry-eq-ok k s _ r in
      unless_contended-Undoes e _ t (λ _. by_owner e found) q
    where
      by_owner :
          (e : TransEntry V)
          → find k s.map.rows ≡ some e
          → (if e.txn_id == s.lock_id
              then ok s
              else ok (record_op (map_lock e.txn_id e.op k) (lock_entry k lock_op s)))
            ≡ ok t
          → Undoes m t
      by_owner e found q = elim (Bool-cases (e.txn_id == s.lock_id)) [
        | inl mine ↦ of_ok (Undoes m) (rw mine at q) h
        | inr other ↦ of_ok (Undoes m) (rw other at q) (
            Undoes-lock m s h k lock_op (map_lock e.txn_id e.op k) e s.pending (λ x. cc)
              (λ n. unfold rollback_op in refl) found)
      ]

  update_by_op-Undoes :
      (op : TransactionalOperations) (k : K) (v : V) (e : TransEntry V) (t : Session K V)
      → e.op ≡ op
      → find k s.map.rows ≡ some e
      → contended s.lock_id e ≡ false
      → update_by_op op k v e s ≡ ok t
      → Undoes m t
  unfolding update_by_op rollback_op
  update_by_op-Undoes insert_op k v e t p found free q =
      of_ok (Undoes m) q (Undoes-assign m s h k v e found p (ground arith))
  update_by_op-Undoes update_op k v e t p found free q =
      of_ok (Undoes m) q (Undoes-update_again m s h k v e _ found)
  update_by_op-Undoes no_op k v e t p found free q =
      of_ok (Undoes m) q (Undoes-lock m s h k update_op _ e _ (λ x. cc) (λ n. refl) found)
  update_by_op-Undoes lock_op k v e t p found free q =
      of_ok (Undoes m) q (Undoes-lock m s h k update_op _ e _ (λ x. cc) (λ n. refl) found)
  update_by_op-Undoes _ k v e t p found free q = cc

  update-Undoes : (k : K) (v : V) (t : Session K V) → update k v s ≡ ok t → Undoes m t
  unfolding update
  update-Undoes k v t r =
      let (e, found, q) = at_entry-eq-ok k s _ r in
      unless_contended-Undoes e _ t (λ free. update_by_op-Undoes e.op k v e t refl found free) q

  insert_by_op-Undoes :
      (op : TransactionalOperations) (k : K) (v : V) (e : TransEntry V) (t : Session K V)
      (done : Bool)
      → e.op ≡ op
      → find k s.map.rows ≡ some e
      → insert_by_op op k v e s ≡ ok (t, done)
      → Undoes m t
  unfolding insert_by_op rollback_op
  insert_by_op-Undoes insert_op k v e t done p found q = subst (Undoes m) (ground arith) h
  insert_by_op-Undoes delete_op k v e t done p found q = elim (Bool-cases (e.txn_id == s.lock_id)) [
    | inl mine ↦
        of_ok (λ (x : Session K V × Bool). Undoes m x.0) (rw mine at q)
          (Undoes-lock m s h k update_op _ e _ (λ x. cc)
            (λ n. rw (==→eq e.txn_id s.lock_id mine, p)) found)
    | inr other ↦ cc (rw other at q)
  ]
  insert_by_op-Undoes no_op k v e t done p found q = subst (Undoes m) (cc) h
  insert_by_op-Undoes lock_op k v e t done p found q = subst (Undoes m) (cc) h
  insert_by_op-Undoes update_op k v e t done p found q = subst (Undoes m) (cc) h
  insert_by_op-Undoes _ k v e t done p found q = cc

  insert-Undoes :
      (k : K) (v : V) (done : Bool) (t : Session K V) → insert k v s ≡ ok (t, done) → Undoes m t
  unfolding insert
  insert-Undoes k v done t r = elim (Option-cases (find k s.map.rows)) [
    | inl absent ↦
        of_ok (λ (x : Session K V × Bool). Undoes m x.0)
          (let q : ok (record_op (map_insert k) (insert_entry k v s), true) ≡ ok (t, done) =
              ground arith in
            q)
          (Undoes-insert m s h k v absent)
    | inr (e, found) ↦ insert_by_op-Undoes e.op k v e t done refl found (ground arith)
  ]

  erase_by_op-Undoes :
      (op : TransactionalOperations) (k : K) (e : TransEntry V) (t : Session K V)
      → e.op ≡ op
      → find k s.map.rows ≡ some e
      → erase_by_op op k e s ≡ ok t
      → Undoes m t
  unfolding erase_by_op rollback_op
  erase_by_op-Undoes insert_op k e t p found q =
      of_ok (Undoes m) q (Undoes-lock m s h k deleted_insert_op _ e _ (λ x. cc) (λ n. refl) found)
  erase_by_op-Undoes no_op k e t p found q =
      of_ok (Undoes m) q (Undoes-lock m s h k delete_op _ e _ (λ x. cc) (λ n. refl) found)
  erase_by_op-Undoes lock_op k e t p found q =
      of_ok (Undoes m) q (Undoes-lock m s h k delete_op _ e _ (λ x. cc) (λ n. refl) found)
  erase_by_op-Undoes update_op k e t p found q =
      of_ok (Undoes m) q (Undoes-lock m s h k delete_op _ e _ (λ x. cc) (λ n. refl) found)
  erase_by_op-Undoes _ k e t p found q = cc

  erase-Undoes : (k : K) (t : Session K V) → erase k s ≡ ok t → Undoes m t
  unfolding erase
  erase-Undoes k t r =
      let (e, found, q) = at_entry-eq-ok k s _ r in
      unless_contended-Undoes e _ t (λ free. erase_by_op-Undoes e.op k e t refl found) q

  Step-Undoes : {t : Session K V} → Step s t → Undoes m t
  Step-Undoes {t} (locks k r) = lock-Undoes k t r
  Step-Undoes {t} (updates k v r) = update-Undoes k v t r
  Step-Undoes {t} (inserts k v done r) = insert-Undoes k v done t r
  Step-Undoes {t} (erases k r) = erase-Undoes k t r

module _ {K V : Type 0} ⦃c : Comparator K⦄ where
  Steps-Undoes : {m : TransMap K V} {s t : Session K V} → Undoes m s → Steps s t → Undoes m t
  Steps-Undoes h here = h
  Steps-Undoes h (next {t = t} r st) = Step-Undoes _ t (Steps-Undoes h r) st

  -- After any sequence of successful lock, update, insert and erase calls of a transaction that
  -- started with no operations on a map where it held no entry, rolling its operations back
  -- succeeds and gives the map of the start: every value, lock, id and checkpoint location.
  pub rollback-restores :
      (s t : Session K V)
      → s.ops ≡ []
      → HoldsNothing s.lock_id s.map
      → Steps s t
      → rollback_all t.ops t.map ≡ ok s.map
  rollback-restores s t fresh free r = (Steps-Undoes start r).undo
    where
      start : Undoes s.map s
      start = record {
        undo = rw fresh (unfold rollback_all in refl);
        inserted = λ k e f i o. absurd (cc (i, free k e f o));
      }
