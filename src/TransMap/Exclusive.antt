-- ===== src/TransMap/Exclusive.antt =====
-- stldb/containers/detail/map_ops.h and trans_map.tcc: clear and swap, which work on whole containers at
-- once, within an exclusive transaction. A container is its address, and get_container_name, which is
-- compared as a pointer, tells containers apart as their addresses do.
use stldb.Prelude.{
  ℕ, ◌+◌, Bool, true, false, List, [], ◌∷◌, ◌++◌, map, ◌==◌, if◌then◌else◌, Result, ok, throw,
  ◌>>=◌,
}
use stldb.TransMap.Rows.{Comparator}
use stldb.TransMap.Entry.{TransactionalOperations, clear_op}
use stldb.TransMap.Op.{TransMap, MapOp, LogRecord, commit_op, rollback_op, op_to_log}
pub mod Rollback
pub mod Stranded
mod Tests

-- assoc_transactional_operation with its container, map_clear_operation with the map of the old values,
-- and map_swap_operation with its two containers.
pub data ContainerOp (K V : Type 0) : Type 0 where
  assoc : ℕ → MapOp K V → ContainerOp K V
  map_clear : ℕ → ℕ → ContainerOp K V
  map_swap : ℕ → ℕ → ContainerOp K V

-- The containers, the operations of the transaction, and the address of the next map that is made.
pub record ExclusiveTransaction (K V : Type 0) : Type 0 where
  pub maps : ℕ → TransMap K V
  pub ops : List (ContainerOp K V)
  pub next_map : ℕ

module _ {K V : Type 0} where
  abbrev pub put : ℕ → TransMap K V → (ℕ → TransMap K V) → ℕ → TransMap K V
  put c m maps n = if n == c then m else maps n

  -- A map as it is constructed.
  abbrev pub new_map : TransMap K V
  new_map = record { rows = []; ver_num = 0; freed = []; uncheckpointed_clear = false }

  -- baseclass::swap exchanges the entries, not the other members.
  abbrev pub swap_entries : ℕ → ℕ → (ℕ → TransMap K V) → ℕ → TransMap K V
  swap_entries a b maps n =
      if n == a
      then record (maps a) { rows = (maps b).rows }
      else if n == b
      then record (maps b) { rows = (maps a).rows }
      else maps n

  -- set_container of an assoc_transactional_operation of the first container.
  abbrev pub set_container : ℕ → ℕ → ContainerOp K V → ContainerOp K V
  set_container from to (assoc n op) = if n == from then assoc to op else assoc n op
  set_container from to (map_clear c old) = map_clear c old
  set_container from to (map_swap a b) = map_swap a b

  -- The loop of swap(), which reads the name once.
  abbrev pub exchange_container : ℕ → ℕ → ContainerOp K V → ContainerOp K V
  exchange_container a b (assoc n op) =
      let first = if n == a then assoc b op else assoc n op in if n == b then assoc a op else first
  exchange_container a b (map_clear c old) = map_clear c old
  exchange_container a b (map_swap c d) = map_swap c d

  -- clear
  unfoldable pub clear : ℕ → ExclusiveTransaction K V → ExclusiveTransaction K V
  clear c x = record {
    maps = swap_entries x.next_map c (put x.next_map new_map x.maps);
    ops = map (set_container c x.next_map) x.ops ++ map_clear c x.next_map ∷ [];
    next_map = x.next_map + 1;
  }

  -- swap
  unfoldable pub swap : ℕ → ℕ → ExclusiveTransaction K V → ExclusiveTransaction K V
  swap a b x = record x {
    maps = swap_entries a b x.maps;
    ops = map (exchange_container a b) x.ops ++ map_swap a b ∷ [];
  }

  -- How the rollback of an operation changes the container of an earlier one. That of a swap reads the
  -- name again after the first change.
  abbrev pub restore_container : ContainerOp K V → ContainerOp K V → ContainerOp K V
  restore_container (assoc n op) other = other
  restore_container (map_clear c old) other = set_container c old other
  restore_container (map_swap a b) other = set_container b a (set_container a b other)

module _ {K V : Type 0} ⦃c : Comparator K⦄ where
  abbrev at_map : ℕ → (ℕ → TransMap K V) → Result (TransMap K V) → Result (ℕ → TransMap K V)
  at_map n maps (ok m) = ok (put n m maps)
  at_map n maps (throw e) = throw e

  -- rollback of an operation
  unfoldable pub rollback_container_op :
      ContainerOp K V → (ℕ → TransMap K V) → Result (ℕ → TransMap K V)
  unfolding rollback_op
  rollback_container_op (assoc n op) maps = at_map n maps (rollback_op op (maps n))
  rollback_container_op (map_clear c old) maps = ok (swap_entries c old maps)
  rollback_container_op (map_swap a b) maps = ok (swap_entries a b maps)

  -- transactional_op_list::rollback: the containers after it, and what the operations that were rolled
  -- back do to the container of an earlier one.
  unfoldable pub rollback_containers :
      List (ContainerOp K V)
      → (ℕ → TransMap K V)
      → Result ((ℕ → TransMap K V) × (ContainerOp K V → ContainerOp K V))
  unfolding rollback_container_op
  rollback_containers [] maps = ok (maps, λ op. op)
  rollback_containers (op ∷ ops) maps = rollback_containers ops maps >>= λ r.
      rollback_container_op (r.1 op) r.0 >>= λ maps'.
      ok (maps', λ other. restore_container (r.1 op) (r.1 other))

  -- commit of an operation
  unfoldable pub commit_container_op :
      ℕ → ContainerOp K V → (ℕ → TransMap K V) → Result (ℕ → TransMap K V)
  unfolding commit_op
  commit_container_op lsn (assoc n op) maps = at_map n maps (commit_op lsn op (maps n))
  commit_container_op lsn (map_clear c old) maps =
      ok (
        put c (record (maps c) { ver_num = (maps c).ver_num + 1; uncheckpointed_clear = true })
          maps)
  commit_container_op lsn (map_swap a b) maps =
      (let maps' = put a (record (maps a) { ver_num = (maps a).ver_num + 1 }) maps in
        ok (put b (record (maps' b) { ver_num = (maps' b).ver_num + 1 }) maps'))

  -- transactional_op_list::commit
  unfoldable pub commit_containers :
      ℕ → List (ContainerOp K V) → (ℕ → TransMap K V) → Result (ℕ → TransMap K V)
  unfolding commit_container_op
  commit_containers lsn [] maps = ok maps
  commit_containers lsn (op ∷ ops) maps =
      commit_container_op lsn op maps >>= λ maps'. commit_containers lsn ops maps'

-- What is logged: the container, with the record of an operation on its entries, the op code of a clear, or
-- that op code and the other container of a swap.
pub data ContainerRecord (K V : Type 0) : Type 0 where
  entry_record : ℕ → LogRecord K V → ContainerRecord K V
  clear_record : ℕ → TransactionalOperations → ContainerRecord K V
  swap_record : ℕ → TransactionalOperations → ℕ → ContainerRecord K V

module _ {K V : Type 0} ⦃c : Comparator K⦄ where
  abbrev entry_records : ℕ → List (LogRecord K V) → List (ContainerRecord K V)
  entry_records n rs = map (entry_record n) rs

  -- add_to_log of an operation
  unfoldable pub container_op_to_log :
      ContainerOp K V → (ℕ → TransMap K V) → Result (List (ContainerRecord K V))
  unfolding op_to_log
  container_op_to_log (assoc n op) maps = op_to_log op (maps n) >>= λ rs. ok (entry_records n rs)
  container_op_to_log (map_clear c old) maps = ok (clear_record c clear_op ∷ [])
  container_op_to_log (map_swap a b) maps = ok (swap_record a clear_op b ∷ [])
