-- ===== src/TransMap/Exclusive/Rollback.antt =====
-- stldb/containers/detail/map_ops.h: the rollback of transactions with a clear.
use stldb.Prelude.{
  ℕ, ◌≡◌, refl, sym, ap, ◌∙◌, false, List, [], ◌∷◌, ◌++◌, map, arith, ◌==◌, ==_refl, Result, ok,
  ◌>>=◌, ok-injective, Result-cases, inl, inr,
}
use mathlib.Core.Option.{none-ne-some}
use stldb.TransMap.Rows.{Comparator, find}
use stldb.TransMap.Op.{TransMap, MapOp, rollback_op, rollback_all}
use stldb.TransMap.Calls.{Session}
use stldb.TransMap.Rollback.Undo.{Steps, HoldsNothing}
use stldb.TransMap.Rollback.Restores.{rollback-restores}
use stldb.TransMap.Exclusive.{
  at_map, ContainerOp, assoc, map_clear, ExclusiveTransaction, put, swap_entries, set_container,
  clear, restore_container, rollback_container_op, rollback_containers,
}

module _ {K V : Type 0} ⦃c : Comparator K⦄ where
  -- The rollback of one more operation.
  rollback_containers-next :
      (op : ContainerOp K V) (ops : List (ContainerOp K V)) (maps maps' : ℕ → TransMap K V)
      (r : (ℕ → TransMap K V) × (ContainerOp K V → ContainerOp K V))
      → rollback_containers ops maps ≡ ok r
      → rollback_container_op (r.1 op) r.0 ≡ ok maps'
      → rollback_containers (op ∷ ops) maps
        ≡ ok (maps', λ other. restore_container (r.1 op) (r.1 other))
  unfolding rollback_containers
  rollback_containers-next op ops maps maps' r e e' =
      ap (λ q. q >>= λ r. rollback_container_op (r.1 op) r.0 >>= λ m. finished r m) e
      ∙ ap (λ q. q >>= finished r) e'
    where
      finished :
          (ℕ → TransMap K V) × (ContainerOp K V → ContainerOp K V)
          → (ℕ → TransMap K V)
          → Result ((ℕ → TransMap K V) × (ContainerOp K V → ContainerOp K V))
      finished r m = ok (m, λ other. restore_container (r.1 op) (r.1 other))

  -- The rollback of operations on one container, once it succeeds there, changes that container only.
  record RollsBack (n : ℕ) (m : TransMap K V) (ops : List (ContainerOp K V))
      (maps : ℕ → TransMap K V) : Type 0 where
    result : (ℕ → TransMap K V) × (ContainerOp K V → ContainerOp K V)
    returns : rollback_containers ops maps ≡ ok result
    here : result.0 n ≡ m
    others : (k : ℕ) → (k == n) ≡ false → result.0 k ≡ maps k
    restores : (op : ContainerOp K V) → result.1 op ≡ op

  rollback_all-RollsBack :
      (n : ℕ) (ops : List (MapOp K V)) (m : TransMap K V) (maps : ℕ → TransMap K V)
      → rollback_all ops (maps n) ≡ ok m
      → RollsBack n m (map (assoc n) ops) maps
  unfolding rollback_all rollback_containers
  rollback_all-RollsBack n [] m maps h = record {
    result = (maps, λ op. op);
    returns = refl;
    here = ok-injective h;
    others = λ k e. refl;
    restores = λ op. refl;
  }
  rollback_all-RollsBack n (op ∷ ops) m maps h = elim (Result-cases (rollback_all ops (maps n))) [
    | inr (x, e) ↦ cc
    | inl (m', e) ↦
        (let i = rollback_all-RollsBack n ops m' maps e in
          let last : rollback_op op m' ≡ ok m = sym (ap (λ r. r >>= rollback_op op) e) ∙ h in
          let step : rollback_container_op (i.result.1 (assoc n op)) i.result.0
              ≡ ok (put n m i.result.0) =
            ap (λ o. rollback_container_op o i.result.0) (i.restores (assoc n op))
            ∙ ap (λ z. at_map n i.result.0 (rollback_op op z)) i.here
            ∙ ap (at_map n i.result.0) last in
          record {
            result = (
              put n m i.result.0,
              λ other. restore_container (i.result.1 (assoc n op)) (i.result.1 other),
            );
            returns =
                rollback_containers-next (assoc n op) (map (assoc n) ops) maps (put n m i.result.0)
                  i.result i.returns step;
            here = rw (==_refl n) refl;
            others = λ k d. rw d (i.others k d);
            restores = λ o.
                ap (λ z. restore_container z (i.result.1 o)) (i.restores (assoc n op))
                ∙ i.restores o;
          })
  ]

  put-other :
      (n : ℕ) (m : TransMap K V) (maps : ℕ → TransMap K V) (k : ℕ)
      → (k == n) ≡ false
      → put n m maps k ≡ maps k
  put-other n m maps k d = rw d refl

  swap_entries-first :
      (a b : ℕ) (maps : ℕ → TransMap K V) → (swap_entries a b maps a).rows ≡ (maps b).rows
  swap_entries-first a b maps = rw (==_refl a) refl

  swap_entries-other :
      (a b : ℕ) (maps : ℕ → TransMap K V) (k : ℕ)
      → (k == a) ≡ false
      → (k == b) ≡ false
      → swap_entries a b maps k ≡ maps k
  swap_entries-other a b maps k d e = rw d (rw e refl)

  -- The maps that clear leaves: the container is empty, the old values are in the new map.
  pub cleared-rows :
      (n : ℕ) (x : ExclusiveTransaction K V)
      → (n == x.next_map) ≡ false
      → ((clear n x).maps n).rows ≡ []
  unfolding clear
  cleared-rows n x d = rw (d, clear) (rw (==_refl n) (rw (==_refl x.next_map) refl))

  old_values-rows :
      (n : ℕ) (x : ExclusiveTransaction K V)
      → (n == x.next_map) ≡ false
      → ((clear n x).maps x.next_map).rows ≡ (x.maps n).rows
  unfolding clear
  old_values-rows n x d = rw (==_refl x.next_map) (rw d refl)

  cleared-others :
      (n : ℕ) (x : ExclusiveTransaction K V) (k : ℕ)
      → (k == n) ≡ false
      → (k == x.next_map) ≡ false
      → (clear n x).maps k ≡ x.maps k
  unfolding clear
  cleared-others n x k d e = rw e (rw d refl)

  -- The rollback of a clear, after that of the operations on the container that followed it.
  clear-RollsBack :
      (n : ℕ) (x : ExclusiveTransaction K V) (m m' : TransMap K V) (later : List (ContainerOp K V))
      → x.ops ≡ []
      → (n == x.next_map) ≡ false
      → RollsBack n m' later (put n m (clear n x).maps)
      → (r : (ℕ → TransMap K V) × (ContainerOp K V → ContainerOp K V)) × (rollback_containers
            ((clear n x).ops ++ later)
            (put n m (clear n x).maps)
          ≡ ok r)
        × ((r.0 n).rows ≡ (x.maps n).rows)
        × ((k : ℕ) → (k == n) ≡ false → (k == x.next_map) ≡ false → r.0 k ≡ x.maps k)
  unfolding clear rollback_container_op
  clear-RollsBack n x m m' later fresh other back =
      let old = x.next_map in
      let old_other : (old == n) ≡ false = ground (arith, other) in
      (
        (
          swap_entries n old back.result.0,
          λ o. restore_container (back.result.1 (map_clear n old)) (back.result.1 o),
        ),
        ap
              (λ ops.
                rollback_containers
                  ((map (set_container n old) ops ++ map_clear n old ∷ []) ++ later)
                  (put n m (clear n x).maps))
              fresh
            ∙ rollback_containers-next (map_clear n old) later (put n m (clear n x).maps)
                (swap_entries n old back.result.0) back.result back.returns
                (ap (λ o. rollback_container_op o back.result.0) (back.restores (map_clear n old))),
        swap_entries-first n old back.result.0
            ∙ ap (λ z. z.rows)
                (back.others old old_other ∙ put-other n m (clear n x).maps old old_other)
            ∙ old_values-rows n x other,
        λ k d e.
            swap_entries-other n old back.result.0 k d e
            ∙ back.others k d
            ∙ put-other n m (clear n x).maps k d
            ∙ cleared-others n x k d e,
      )

  -- A transaction that starts with a clear of a container, and then has any successful lock, update, insert and erase
  -- calls on it, rolls back without error, and gives the container the entries it had at the start; no other
  -- container that there was changes.
  pub clear-rollback :
      (n : ℕ) (x : ExclusiveTransaction K V) (s t : Session K V)
      → x.ops ≡ []
      → (n == x.next_map) ≡ false
      → s.map ≡ (clear n x).maps n
      → s.ops ≡ []
      → Steps s t
      → (r : (ℕ → TransMap K V) × (ContainerOp K V → ContainerOp K V)) × (rollback_containers
            ((clear n x).ops ++ map (assoc n) t.ops)
            (put n t.map (clear n x).maps)
          ≡ ok r)
        × ((r.0 n).rows ≡ (x.maps n).rows)
        × ((k : ℕ) → (k == n) ≡ false → (k == x.next_map) ≡ false → r.0 k ≡ x.maps k)
  unfolding find
  clear-rollback n x s t fresh other cleared empty steps =
      clear-RollsBack n x t.map s.map (map (assoc n) t.ops) fresh other (
        rollback_all-RollsBack n t.ops s.map (put n t.map (clear n x).maps) (
          ap (rollback_all t.ops) (rw (==_refl n) refl)
          ∙ rollback-restores s t empty holds_nothing steps))
    where
      holds_nothing : HoldsNothing s.lock_id s.map
      holds_nothing k e f u = absurd (
          none-ne-some e
            (sym (ap (find k) (ap (λ z. z.rows) cleared ∙ cleared-rows n x other)) ∙ f))
