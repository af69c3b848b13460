-- ===== src/TransMap/Exclusive/Stranded.antt =====
-- stldb/containers/detail/map_ops.h: the rollback of an operation that came before a clear.
use stldb.Prelude.{
  ℕ, ◌≡◌, refl, ap, ◌∙◌, false, [], ◌∷◌, ◌++◌, map, arith, ◌==◌, ==_refl, Result, ok, throw,
  undefined, ◌>>=◌,
}
use mathlib.Core.Option.{none, some}
use stldb.TransMap.Rows.{Comparator, find}
use stldb.TransMap.Op.{remove, TransMap, map_insert, rollback_op}
use stldb.TransMap.Exclusive.{
  at_map, assoc, map_clear, ExclusiveTransaction, swap_entries, set_container, clear,
  restore_container, rollback_container_op, rollback_containers,
}
use stldb.TransMap.Exclusive.Rollback.{cleared-rows}

module _ {K V : Type 0} ⦃c : Comparator K⦄ where
  second_entries :
      (a b : ℕ) (maps : ℕ → TransMap K V)
      → (b == a) ≡ false
      → (swap_entries a b maps b).rows ≡ (maps a).rows
  second_entries a b maps d = rw d (rw (==_refl b) refl)

  missing-undefined :
      (k : K) (m : TransMap K V)
      → find k m.rows ≡ none
      → rollback_op (map_insert k) m ≡ throw undefined
  unfolding rollback_op
  missing-undefined k m h =
      ap
        (λ o. elim o as (λ x. Result (TransMap K V)) [
          | none ↦ throw undefined
          | some e ↦ ok (remove k m)
        ])
        h

  -- A transaction that inserts a new key and then clears the container cannot be rolled back: the insert, which the
  -- clear moved to the map of the old values, is not moved back, and erases an entry that this map does not hold.
  pub insert-clear-undefined :
      (n : ℕ) (k : K) (x : ExclusiveTransaction K V)
      → x.ops ≡ assoc n (map_insert k) ∷ []
      → (n == x.next_map) ≡ false
      → rollback_containers (clear n x).ops (clear n x).maps ≡ throw undefined
  unfolding clear rollback_containers rollback_container_op rollback_op find
  insert-clear-undefined n k x one other =
      let old = x.next_map in
      let after = swap_entries n old (clear n x).maps in
      let old_other : (old == n) ≡ false = ground (arith, other) in
      let first : set_container n old (assoc n (map_insert k)) ≡ assoc old (map_insert k) =
        rw (==_refl n) refl in
      let moved : set_container n old (set_container n old (assoc n (map_insert k)))
          ≡ assoc old (map_insert k) =
        ap (set_container n old) first ∙ rw old_other refl in
      let empty : (after old).rows ≡ [] =
        second_entries n old (clear n x).maps old_other ∙ cleared-rows n x other in
      let refused : rollback_container_op (assoc old (map_insert k)) after ≡ throw undefined =
        ap (at_map old after) (missing-undefined k (after old) (ap (find k) empty)) in
      ap
        (λ ops.
          rollback_containers (map (set_container n old) ops ++ map_clear n old ∷ [])
            (clear n x).maps)
        one
      ∙ ap
          (λ q. q >>= λ m. ok (
            m,
            λ other.
                restore_container
                  (set_container n old (set_container n old (assoc n (map_insert k))))
                  (set_container n old other),
          ))
          (ap (λ o. rollback_container_op o after) moved ∙ refused)
