-- ===== src/TransMap/Iterator/Unseen.antt =====
-- trans_map.tcc: a call changes nothing that a reader with another lock id sees.
use stldb.Prelude.{
  ℕ, ◌≡◌, ◌≢◌, refl, ap, Bool, true, false, Option, none, some, List, arith, ◌==◌, if◌then◌else◌,
  Bool-cases, Option-cases, inl, inr, Result, ok, of_ok, ok-injective,
}
use stldb.TransMap.Rows.{Comparator, find, modify, find-modify, find-insert_new}
use stldb.TransMap.Entry
use stldb.TransMap.Calls.{
  Session, contended, unless_contended-eq-ok, at_entry-eq-ok, record_op, lock_entry, insert_entry,
  lock, update, update_by_op, insert, insert_by_op, erase, erase_by_op,
}
use stldb.TransMap.Entry.{
  TransactionalOperations, no_op, lock_op, insert_op, update_op, delete_op, deleted_insert_op,
  clear_op, swap_op, TransEntry, entry_of, assign, is_update_op, is_insert_op, is_delete_op,
}
use stldb.TransMap.Op.{map_lock, map_insert}
use stldb.TransMap.Iterator.{current}
use stldb.TransMap.Iterator.Read.{read_in, entry_shown, read_in-find}

module _ {K V : Type 0} ⦃c : Comparator K⦄ where
  module _ (r : ℕ) (p : List (K × V)) (j : K) (s : Session K V) (other : r ≢ s.lock_id) where
    abbrev pub Unseen : Session K V → Type 0
    Unseen t = read_in r p j t.map ≡ read_in r p j s.map

    abbrev shown_in : List (K × TransEntry V) → Option (Result V)
    shown_in rows = entry_shown r p j (find j rows)

    unseen :
        {a t : Session K V} → ok a ≡ ok t → shown_in a.map.rows ≡ shown_in s.map.rows → Unseen t
    unseen {a} {t} q h = of_ok Unseen q (rw (read_in-find r p j a.map, read_in-find r p j s.map) h)

    Unseen-pair :
        {x y : Session K V × Bool}
        → ok x ≡ ok y
        → shown_in x.0.map.rows ≡ shown_in s.map.rows
        → Unseen y.0
    Unseen-pair {x} {y} q h =
        unseen {a = x.0} {t = y.0} (ap (λ (z : Session K V × Bool). ok z.0) (ok-injective q)) h

    -- An entry that is not a pending insert is shown alike before and after the lock.
    shown-lock :
        (k : K) (op : TransactionalOperations) (e : TransEntry V)
        → find k s.map.rows ≡ some e
        → contended s.lock_id e ≡ false
        → e.op ≢ insert_op
        → op ≢ insert_op
        → shown_in (modify k (Entry.lock s.lock_id op) s.map.rows) ≡ shown_in s.map.rows
    unfolding current Entry.lock
    shown-lock k op e f free d d' = ground (
      arith,
      find-modify k j (Entry.lock s.lock_id op) s.map.rows,
      c.same_iff k j,
      c.same_iff j j,
    )

    shown-assign :
        (k : K) (v : V) (e : TransEntry V)
        → find k s.map.rows ≡ some e
        → e.txn_id ≡ s.lock_id
        → e.op ≡ insert_op
        → shown_in (modify k (assign v) s.map.rows) ≡ shown_in s.map.rows
    unfolding current assign
    shown-assign k v e f mine i =
        ground (arith, find-modify k j (assign v) s.map.rows, c.same_iff k j)

    shown-insert :
        (k : K) (v : V)
        → find k s.map.rows ≡ none
        → shown_in (insert_entry k v s).map.rows ≡ shown_in s.map.rows
    unfolding current Entry.lock entry_of
    shown-insert k v f = ground (
      arith,
      find-insert_new k j (Entry.lock s.lock_id insert_op (entry_of v)) s.map.rows f,
      c.same_iff k j,
    )

    pub lock-Unseen : (k : K) (t : Session K V) → lock k s ≡ ok t → Unseen t
    unfolding lock
    lock-Unseen k t h =
        let (e, found, q) = at_entry-eq-ok k s _ h in
        let (free, q') = unless_contended-eq-ok e s _ q in by_owner e found free q'
      where
        by_owner :
            (e : TransEntry V)
            → find k s.map.rows ≡ some e
            → contended s.lock_id e ≡ false
            → (if e.txn_id == s.lock_id
                then ok s
                else ok (record_op (map_lock e.txn_id e.op k) (lock_entry k lock_op s)))
              ≡ ok t
            → Unseen t
        by_owner e found free q = elim (Bool-cases (e.txn_id == s.lock_id)) [
          | inl mine ↦ of_ok Unseen (rw mine at q) refl
          | inr theirs ↦
              unseen (rw theirs at q)
                (shown-lock k lock_op e found free (λ x. ground arith) (λ x. cc))
        ]

    update_by_op-Unseen :
        (op : TransactionalOperations) (k : K) (v : V) (e : TransEntry V) (t : Session K V)
        → e.op ≡ op
        → find k s.map.rows ≡ some e
        → contended s.lock_id e ≡ false
        → update_by_op op k v e s ≡ ok t
        → Unseen t
    unfolding update_by_op
    update_by_op-Unseen insert_op k v e t i found free q =
        unseen q (shown-assign k v e found (ground arith) i)
    update_by_op-Unseen update_op k v e t i found free q = unseen q refl
    update_by_op-Unseen no_op k v e t i found free q =
        unseen q (shown-lock k update_op e found free (λ x. cc) (λ x. cc))
    update_by_op-Unseen lock_op k v e t i found free q =
        unseen q (shown-lock k update_op e found free (λ x. cc) (λ x. cc))
    update_by_op-Unseen _ k v e t i found free q = cc

    pub update-Unseen : (k : K) (v : V) (t : Session K V) → update k v s ≡ ok t → Unseen t
    unfolding update
    update-Unseen k v t h =
        let (e, found, q) = at_entry-eq-ok k s _ h in
        let (free, q') = unless_contended-eq-ok e s _ q in
        update_by_op-Unseen e.op k v e t refl found free q'

    insert_by_op-Unseen :
        (op : TransactionalOperations) (k : K) (v : V) (e : TransEntry V) (t : Session K V)
        (done : Bool)
        → e.op ≡ op
        → find k s.map.rows ≡ some e
        → insert_by_op op k v e s ≡ ok (t, done)
        → Unseen t
    unfolding insert_by_op
    insert_by_op-Unseen delete_op k v e t done i found q =
        elim (Bool-cases (e.txn_id == s.lock_id)) [
          | inl mine ↦
              Unseen-pair (rw mine at q)
                (shown-lock k update_op e found (ground arith) (λ x. cc) (λ x. cc))
          | inr theirs ↦ cc (rw theirs at q)
        ]
    insert_by_op-Unseen insert_op k v e t done i found q = ground arith
    insert_by_op-Unseen no_op k v e t done i found q = ground arith
    insert_by_op-Unseen lock_op k v e t done i found q = ground arith
    insert_by_op-Unseen update_op k v e t done i found q = ground arith
    insert_by_op-Unseen _ k v e t done i found q = cc

    pub insert-Unseen :
        (k : K) (v : V) (done : Bool) (t : Session K V) → insert k v s ≡ ok (t, done) → Unseen t
    unfolding insert
    insert-Unseen k v done t h = elim (Option-cases (find k s.map.rows)) [
      | inl absent ↦
          Unseen-pair
            (let q : ok (record_op (map_insert k) (insert_entry k v s), true) ≡ ok (t, done) =
                ground arith in
              q)
            (shown-insert k v absent)
      | inr (e, found) ↦ insert_by_op-Unseen e.op k v e t done refl found (ground arith)
    ]

    erase_by_op-Unseen :
        (op : TransactionalOperations) (k : K) (e : TransEntry V) (t : Session K V)
        → e.op ≡ op
        → op ≢ insert_op
        → find k s.map.rows ≡ some e
        → contended s.lock_id e ≡ false
        → erase_by_op op k e s ≡ ok t
        → Unseen t
    unfolding erase_by_op
    erase_by_op-Unseen insert_op k e t i d found free q = absurd (d refl)
    erase_by_op-Unseen no_op k e t i d found free q =
        unseen q (shown-lock k delete_op e found free (λ x. cc) (λ x. cc))
    erase_by_op-Unseen lock_op k e t i d found free q =
        unseen q (shown-lock k delete_op e found free (λ x. cc) (λ x. cc))
    erase_by_op-Unseen update_op k e t i d found free q =
        unseen q (shown-lock k delete_op e found free (λ x. cc) (λ x. cc))
    erase_by_op-Unseen _ k e t i d found free q = cc

    pub erase-Unseen :
        (k : K) (t : Session K V)
        → ((e : TransEntry V) → find k s.map.rows ≡ some e → e.op ≢ insert_op)
        → erase k s ≡ ok t
        → Unseen t
    unfolding erase
    erase-Unseen k t d h =
        let (e, found, q) = at_entry-eq-ok k s _ h in
        let (free, q') = unless_contended-eq-ok e s _ q in
        erase_by_op-Unseen e.op k e t refl (d e found) found free q'
