-- ===== src/TransMap/Exclusive/Tests.antt =====
-- Transactions with clear and swap, and the theorems at these.
use stldb.Prelude.{
  ℕ, ◌≡◌, refl, Bool, true, false, [], ◌∷◌, ◌++◌, map, ltb, ◌==◌, ==→eq, eq→==, Result, ok, throw,
}
use stldb.TransMap.Rows.{Comparator, find, insert_new}
use stldb.TransMap.Entry.{TransEntry, no_op}
use stldb.TransMap.Op.{TransMap, map_insert}
use stldb.TransMap.Calls.{Session, insert, insert_by_op}
use stldb.TransMap.Rollback.Undo.{Steps, inserts, here, next}
use stldb.TransMap.Exclusive.{
  ContainerOp, assoc, map_swap, exchange_container, restore_container, ExclusiveTransaction, put,
  clear, swap, rollback_containers,
}
use stldb.TransMap.Exclusive.Rollback.{clear-rollback}

same_number : (a b : ℕ) → (((a == b) ≡ true) → a ≡ b) × (a ≡ b → (a == b) ≡ true)
same_number a b = (==→eq a b, eq→== a b)

instance abbrev number_keys : Comparator ℕ
number_keys = record { less = ltb; same = ◌==◌; same_iff = same_number }

abbrev one : TransEntry ℕ
one = record { value = 10; op = no_op; txn_id = 4; offset = 0; size = 0 }

-- Every container holds the key 1; the next map is made at address 9.
abbrev all_same : ℕ → TransMap ℕ ℕ
all_same n = record { rows = (1, one) ∷ []; ver_num = 0; freed = []; uncheckpointed_clear = false }

abbrev begun : ExclusiveTransaction ℕ ℕ
begun = record { maps = all_same; ops = []; next_map = 9 }

abbrev cleared : ExclusiveTransaction ℕ ℕ
unfolding clear
cleared = clear 2 begun

abbrev on_cleared : Session ℕ ℕ
on_cleared = record { map = cleared.maps 2; lock_id = 7; ops = []; pending = [] }

abbrev inserted_of : Result (Session ℕ ℕ × Bool) → Session ℕ ℕ
inserted_of (ok s) = s.0
inserted_of (throw e) = on_cleared

abbrev with_insert : Session ℕ ℕ
unfolding insert
with_insert = inserted_of (insert 3 30 on_cleared)

one_call : Steps on_cleared with_insert
unfolding cleared insert insert_by_op find insert_new
one_call = next here (inserts 3 30 true refl)

clear-rollback_example :
    (r : (ℕ → TransMap ℕ ℕ) × (ContainerOp ℕ ℕ → ContainerOp ℕ ℕ)) × (rollback_containers
        ((clear 2 begun).ops ++ map (assoc 2) with_insert.ops)
        (put 2 with_insert.map (clear 2 begun).maps)
      ≡ ok r)
    × ((r.0 2).rows ≡ (1, one) ∷ [])
    × ((k : ℕ) → (k == 2) ≡ false → (k == 9) ≡ false → r.0 k ≡ all_same k)
unfolding clear
clear-rollback_example = clear-rollback 2 begun on_cleared with_insert refl refl refl refl one_call

-- The transaction after the insert of the key 1.
abbrev inserted : ExclusiveTransaction ℕ ℕ
inserted = record begun { ops = assoc 2 (map_insert 1) ∷ [] }

-- An insert into the container 2 before a swap with the container 5 is logged as one into the container 5.
swap_test : (swap 2 5 inserted).ops ≡ assoc 5 (map_insert 1) ∷ map_swap 2 5 ∷ []
unfolding swap
swap_test = refl

-- The rollback of the swap leaves an insert into the container 5, which the swap moved to the container 2, there.
abbrev left_there : ContainerOp ℕ ℕ
left_there = restore_container (map_swap 2 5) (exchange_container 2 5 (assoc 5 (map_insert 1)))

restore_container_test : left_there ≡ assoc 2 (map_insert 1)
restore_container_test = refl
