-- ===== src/TransMap/Iterator/Read.antt =====
-- trans_map.tcc and trans_assoc_iterator.h: what find(key, trans) and its iterator show of a key.
use stldb.Prelude.{
  ℕ, ◌≡◌, refl, not, ◌&&◌, ◌||◌, Option, none, some, List, [], ◌∷◌, arith, ◌==◌, if◌then◌else◌,
  Result,
}
use stldb.TransMap.Rows.{Comparator, find}
use stldb.TransMap.Entry.{TransEntry, is_insert_op, is_delete_op}
use stldb.TransMap.Op.{TransMap}
use stldb.TransMap.Iterator.{Iter, hidden, current, seek, found_by, find_in}

module _ {K V : Type 0} ⦃c : Comparator K⦄ where
  -- What a reader with this lock id (0 for none) and these pending changes gets for a key: nothing
  -- if find returns end(), else what the iterator shows.
  abbrev shown : ℕ → List (K × V) → Iter K V → Option (Result V)
  shown locker pending [] = none
  shown locker pending (x ∷ rest) = some (current locker pending (x ∷ rest))

  unfoldable pub read_in : ℕ → List (K × V) → K → TransMap K V → Option (Result V)
  unfolding find_in current
  read_in locker pending k m = shown locker pending (find_in locker k m)

  -- The same, from the entry that the map holds.
  abbrev pub entry_shown : ℕ → List (K × V) → K → Option (TransEntry V) → Option (Result V)
  entry_shown locker pending k none = none
  entry_shown locker pending k (some e) =
      if hidden locker e then none else some (current locker pending ((k, e) ∷ []))

  pub read_in-find :
      (locker : ℕ) (p : List (K × V)) (k : K) (m : TransMap K V)
      → read_in locker p k m ≡ entry_shown locker p k (find k m.rows)
  unfolding read_in find
  read_in-find locker p k m = go m.rows
    where
      go :
          (rows : Iter K V)
          → shown locker p (
              found_by locker
                (λ e.
                  (is_delete_op e.op && e.txn_id == locker)
                  || (is_insert_op e.op && not (e.txn_id == locker)))
                (seek k rows))
            ≡ entry_shown locker p k (find k rows)
      go [] = refl
      go ((j, e) ∷ rest) = ground (arith, go rest, c.same_iff j k)
