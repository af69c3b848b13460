-- ===== src/TransMap/Waiting.antt =====
-- trans_map.tcc and sync/wait_policy.h: a call that waits for the lock of a row to be released. What
-- other transactions do during a wait is the container that it leaves; a bounded wait may time out.
use mathlib.Core.Bool.{true≢false}
use stldb.Prelude.{
  ℕ, ◌≡◌, ◌≢◌, ◌⊎◌, inl, inr, refl, Bool, true, false, not, ◌&&◌, sym, ◌∙◌, Option, none, some,
  List, [], ◌∷◌, ◌++◌, ◌==◌, if◌then◌else◌, if-elim, arith, Bool-cases, Result, ok, throw,
  row_level_lock_contention, row_deleted, recovery_needed, lock_timeout, undefined, io_failure,
  filesystem_error,
}
use stldb.TransMap.Rows.{Comparator, find, find-modify, same_self}
use stldb.TransMap.Entry.{TransEntry, lock_op, is_no_op}
use stldb.TransMap.Entry
use stldb.TransMap.Op.{TransMap, map_lock}
use stldb.TransMap.Calls.{Session, contended, at_entry, lock, record_op, lock_entry}
use stldb.TransMap.Iterator.{Iter, find_in}

-- A wait: it wakes up, with the container as it is then, or it times out.
pub data Wait (K V : Type 0) : Type 0 where
  woken : TransMap K V → Wait K V
  timed_out : Wait K V

module _ {K V : Type 0} where
  -- i == end()
  abbrev pub is_end : Iter K V → Bool
  is_end [] = true
  is_end (x ∷ rest) = false

  -- The call returns or throws, unless it throws row_level_lock_contention: then it waits.
  abbrev pub unless_locked :
      Result (Session K V) → Option (Result (Session K V)) → Option (Result (Session K V))
  unless_locked (ok t) wait = some (ok t)
  unless_locked (throw row_level_lock_contention) wait = wait
  unless_locked (throw row_deleted) wait = some (throw row_deleted)
  unless_locked (throw recovery_needed) wait = some (throw recovery_needed)
  unless_locked (throw lock_timeout) wait = some (throw lock_timeout)
  unless_locked (throw undefined) wait = some (throw undefined)
  unless_locked (throw io_failure) wait = some (throw io_failure)
  unless_locked (throw filesystem_error) wait = some (throw filesystem_error)

module _ {K V : Type 0} ⦃c : Comparator K⦄ where
  -- while_row_locked, on the waits to come; none is a call that still waits after them.
  unfoldable pub while_row_locked :
      (K → Session K V → Result (Session K V))
      → K
      → Session K V
      → List (Wait K V)
      → Option (Result (Session K V))
  unfolding find_in
  while_row_locked bound_method k s [] = unless_locked (bound_method k s) none
  while_row_locked bound_method k s (timed_out ∷ ws) =
      unless_locked (bound_method k s) (some (throw lock_timeout))
  while_row_locked bound_method k s (woken m ∷ ws) =
      let retried = while_row_locked bound_method k (record s { map = m }) ws in
      unless_locked (bound_method k s) (
        if not (s.map.ver_num == m.ver_num) && is_end (find_in s.lock_id k m)
        then some (throw row_deleted)
        else retried)

  -- The row is in the container, find(key, trans) of the transaction comes to it, and it is no
  -- committed row whose LSN is the lock id of the transaction.
  pub record HasRow (k : K) (id : ℕ) (m : TransMap K V) : Type 0 where
    pub entry : TransEntry V
    pub present : find k m.rows ≡ some entry
    pub shown : is_end (find_in id k m) ≡ false
    pub not_taken : (is_no_op entry.op ≡ false) ⊎ (entry.txn_id ≢ id)

  -- The row is locked by the transaction with this lock id.
  pub record HoldsRow (k : K) (id : ℕ) (m : TransMap K V) : Type 0 where
    pub entry : TransEntry V
    pub present : find k m.rows ≡ some entry
    pub locked : is_no_op entry.op ≡ false
    pub by_it : entry.txn_id ≡ id

  -- Every wait wakes up with the row still there.
  abbrev pub AreWoken : K → ℕ → List (Wait K V) → Type 0
  AreWoken k id [] = Unit {0}
  AreWoken k id (timed_out ∷ ws) = ⊥
  AreWoken k id (woken m ∷ ws) = HasRow k id m × AreWoken k id ws

  -- A lock call that returns with the row locked.
  abbrev pub Locks : K → Session K V → Type 0
  Locks k s = (t : Session K V) × (lock k s ≡ ok t) × HoldsRow k s.lock_id t.map

  lock_free :
      (k : K) (s : Session K V) (row : HasRow k s.lock_id s.map)
      → contended s.lock_id row.entry ≡ false
      → Locks k s
  unfolding lock at_entry Entry.lock
  lock_free k s row n =
      let f = row.present in
      let e = row.entry in
      elim (Bool-cases (e.txn_id == s.lock_id)) [
        | inl q ↦
            let mine : e.txn_id ≡ s.lock_id = ground (arith, q) in
            (
              s,
              ground (arith, f, n, q),
              record {
                entry = e;
                present = f;
                locked = elim row.not_taken [ inl d ↦ d | inr d ↦ absurd (d mine) ];
                by_it = mine;
              },
            )
        | inr q ↦ (
          record_op (map_lock e.txn_id e.op k) (lock_entry k lock_op s),
          ground (arith, f, n, q),
          record {
            entry = Entry.lock s.lock_id lock_op e;
            present =
                ground (
                  arith,
                  f,
                  find-modify k k (Entry.lock s.lock_id lock_op) s.map.rows,
                  same_self k,
                );
            locked = refl;
            by_it = refl;
          },
        )
      ]

  lock_tries :
      (k : K) (s : Session K V)
      → HasRow k s.lock_id s.map
      → Locks k s ⊎ (lock k s ≡ throw row_level_lock_contention)
  unfolding lock at_entry
  lock_tries k s row = elim (Bool-cases (contended s.lock_id row.entry)) [
    | inl h ↦ (let f = row.present in inr (ground (arith, f, h)))
    | inr h ↦ inl (lock_free k s row h)
  ]

  locks_now :
      (k : K) (s t : Session K V) (ws : List (Wait K V))
      → lock k s ≡ ok t
      → while_row_locked lock k s ws ≡ some (ok t)
  unfolding while_row_locked
  locks_now k s t [] e = rw (e) refl
  locks_now k s t (timed_out ∷ ws) e = rw (e) refl
  locks_now k s t (woken m ∷ ws) e = rw (e) refl

  waits :
      (k : K) (s : Session K V) (m : TransMap K V) (ws : List (Wait K V))
      → lock k s ≡ throw row_level_lock_contention
      → is_end (find_in s.lock_id k m) ≡ false
      → while_row_locked lock k s (woken m ∷ ws) ≡ while_row_locked lock k (record s { map = m }) ws
  unfolding while_row_locked
  waits k s m ws e f = rw (e) (
      if-elim
        (λ (r : Option (Result (Session K V))).
          r ≡ while_row_locked lock k (record s { map = m }) ws)
        (not (s.map.ver_num == m.ver_num) && is_end (find_in s.lock_id k m)) _ _
        (λ q. absurd (both (not (s.map.ver_num == m.ver_num)) _ q f)) λ _. refl)
    where
      both : (a b : Bool) → (a && b) ≡ true → b ≡ false → ⊥
      both true b q f = true≢false (sym q ∙ f)
      both false b q f = true≢false (sym q)

  -- A lock call that waits returns with the row locked by its transaction once a wait ends with no
  -- other transaction holding the row, if no wait before times out and, whenever the call looks at it,
  -- the row is in the container, shown to the transaction, and no committed row whose LSN is the
  -- transaction's lock id.
  pub while_row_locked-returns :
      (k : K) (s : Session K V) (ws rest : List (Wait K V)) (m : TransMap K V)
      → HasRow k s.lock_id s.map
      → AreWoken k s.lock_id ws
      → (row : HasRow k s.lock_id m) → contended s.lock_id row.entry ≡ false
      → (t : Session K V) × (while_row_locked lock k s (ws ++ woken m ∷ rest) ≡ some (ok t))
        × HoldsRow k s.lock_id t.map
  unfolding while_row_locked
  while_row_locked-returns k s [] rest m h w row n = elim (lock_tries k s h) [
    | inl (t, e, g) ↦ (t, locks_now k s t (woken m ∷ rest) e, g)
    | inr e ↦
        let (t, f, g) = lock_free k (record s { map = m }) row n in
        (t, waits k s m rest e row.shown ∙ locks_now k (record s { map = m }) t rest f, g)
  ]
  while_row_locked-returns k s (timed_out ∷ ws) rest m h w row n = absurd w
  while_row_locked-returns k s (woken m' ∷ ws) rest m h (h', w) row n = elim (lock_tries k s h) [
    | inl (t, e, g) ↦ (t, locks_now k s t (woken m' ∷ ws ++ woken m ∷ rest) e, g)
    | inr e ↦
        let (t, f, g) = while_row_locked-returns k (record s { map = m' }) ws rest m h' w row n in
        (t, waits k s m' (ws ++ woken m ∷ rest) e h'.shown ∙ f, g)
  ]
