-- ===== src/TransMap/Iterator.antt =====
-- stldb/containers/trans_assoc_iterator.h, and the find, lower_bound and upper_bound of
-- trans_map.tcc. An iterator is the rest of the container from its position on; end() is [].
-- Lock ids start at 1; an iterator with no transaction has locker 0.
pub mod Scan
pub mod Read
pub mod Unseen
pub mod Isolation
pub mod Backward
use stldb.Prelude.{
  ℕ, zero, suc, Bool, not, ◌&&◌, ◌||◌, Option, none, some, List, [], ◌∷◌, ◌==◌, if◌then◌else◌,
  Result, ok, throw, undefined,
}
use stldb.TransMap.Rows.{Comparator, find}
use stldb.TransMap.Entry.{TransEntry, is_insert_op, is_update_op, is_delete_op}
use stldb.TransMap.Op.{TransMap}

abbrev pub Iter : Type 0 → Type 0 → Type 0
Iter K V = List (K × TransEntry V)

module _ {V : Type 0} where
  -- The test of skip_forward: a pending insert of another transaction, or the locker's own delete.
  abbrev pub hidden : ℕ → TransEntry V → Bool
  hidden locker e =
      (is_insert_op e.op && not (e.txn_id == locker)) || (is_delete_op e.op && e.txn_id == locker)

module _ {K V : Type 0} where
  unfoldable pub skip_forward : ℕ → Iter K V → Iter K V
  skip_forward locker [] = []
  skip_forward locker ((k, e) ∷ rest) =
      if hidden locker e then skip_forward locker rest else (k, e) ∷ rest

  -- ++ _current_pos
  abbrev advance : Iter K V → Iter K V
  advance [] = []
  advance (x ∷ rest) = rest

  -- operator++
  unfoldable pub forward : ℕ → Iter K V → Iter K V
  unfolding skip_forward
  forward locker i = skip_forward locker (advance (skip_forward locker i))

  unfoldable pub begin : ℕ → TransMap K V → Iter K V
  unfolding skip_forward
  begin locker m = skip_forward locker m.rows

module _ {K V : Type 0} ⦃c : Comparator K⦄ where
  -- The value that set_current makes an iterator show. The pending change of an entry with the
  -- locker's update is looked up in the pending_change_map_t.
  unfoldable pub current : ℕ → List (K × V) → Iter K V → Result V
  current locker pending [] = throw undefined
  current locker pending ((k, e) ∷ rest) =
      if is_update_op e.op && e.txn_id == locker
      then (elim (find k pending) [ none ↦ throw undefined | some v ↦ ok v ])
      else ok e.value

  -- The position of baseclass::find.
  unfoldable pub seek : K → Iter K V → Iter K V
  seek k [] = []
  seek k ((j, e) ∷ rest) = if c.same j k then (j, e) ∷ rest else seek k rest

  -- The test and the constructor call of both overloads of find: find(key) has locker 0 and does
  -- not test for deletes.
  abbrev pub found_by : ℕ → (TransEntry V → Bool) → Iter K V → Iter K V
  found_by locker reject [] = []
  found_by locker reject ((j, e) ∷ rest) =
      if reject e then [] else skip_forward locker ((j, e) ∷ rest)

  -- find(key)
  unfoldable find_committed : K → TransMap K V → Iter K V
  unfolding seek skip_forward
  find_committed k m = found_by 0 (λ e. is_insert_op e.op) (seek k m.rows)

  -- find(key, trans)
  unfoldable pub find_in : ℕ → K → TransMap K V → Iter K V
  unfolding seek skip_forward
  find_in locker k m =
      found_by locker
        (λ e.
          (is_delete_op e.op && e.txn_id == locker)
          || (is_insert_op e.op && not (e.txn_id == locker)))
        (seek k m.rows)

  -- The position of baseclass::lower_bound: the first key that is not less.
  unfoldable seek_lower : K → Iter K V → Iter K V
  seek_lower k [] = []
  seek_lower k ((j, e) ∷ rest) = if c.less j k then seek_lower k rest else (j, e) ∷ rest

  -- The position of baseclass::upper_bound: the first key that is greater.
  unfoldable seek_upper : K → Iter K V → Iter K V
  seek_upper k [] = []
  seek_upper k ((j, e) ∷ rest) = if c.less k j then (j, e) ∷ rest else seek_upper k rest

  unfoldable lower_bound : ℕ → K → TransMap K V → Iter K V
  unfolding seek_lower skip_forward
  lower_bound locker k m = skip_forward locker (seek_lower k m.rows)

  unfoldable upper_bound : ℕ → K → TransMap K V → Iter K V
  unfolding seek_upper skip_forward
  upper_bound locker k m = skip_forward locker (seek_upper k m.rows)

module _ {K V : Type 0} where
  -- `for (i = begin(); i != end(); ++i)`, with the entries that the loop visits.
  unfoldable pub scan : ℕ → ℕ → Iter K V → List (K × TransEntry V)
  unfolding forward
  scan zero locker i = []
  scan (suc fuel) locker [] = []
  scan (suc fuel) locker (x ∷ rest) = x ∷ scan fuel locker (forward locker (x ∷ rest))

  -- The entries that a reader may see, in order.
  abbrev pub visible_rows : ℕ → Iter K V → List (K × TransEntry V)
  visible_rows locker [] = []
  visible_rows locker ((k, e) ∷ rest) =
      let others = visible_rows locker rest in if hidden locker e then others else (k, e) ∷ others
