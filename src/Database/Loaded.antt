-- ===== src/Database/Loaded.antt =====
-- stldb/Database.tcc: load_containers covers each container, and loads its checkpoint.
use mathlib.Core.Option.{some-injective, none-ne-some}
use stldb.Prelude.{ℕ, ◌≡◌, ◌⊎◌, inl, inr, refl, subst, Option, none, some, List, [], ◌∷◌}
use stldb.Checkpoint.File.{CheckpointFileInfo}
use stldb.FileUtil.Files.{find}
use stldb.Database.Load.{
  Loaded, count_checkpoint, count_missing, load_next, load_found, load_each, load_containers,
}
use stldb.Database.Covered.{
  IsCovered, AreCovered, count_checkpoint-IsCovered, count_missing-IsCovered,
}

module _ {State : Type 0} (current : List (List ℕ × CheckpointFileInfo)) where
  module _ (load : List ℕ → CheckpointFileInfo → State → Option State) where
    -- A round of the loop: the state after it, from which the loop goes on.
    Round : List ℕ → List (List ℕ) → Loaded State → Loaded State → Type 0
    Round other names l r =
        (m : Loaded State) × (load_each load current names m ≡ some r)
        × ((name : List ℕ) → IsCovered current l name ⊎ (name ≡ other) → IsCovered current m name)

    load_next-Round :
        (other : List ℕ) (names : List (List ℕ)) (l r : Loaded State) (c : CheckpointFileInfo)
        (s : Option State)
        → find other current ≡ some c
        → load_next load current (load_each load current names) other c l s ≡ some r
        → Round other names l r
    unfolding Round
    load_next-Round other names l r c none f e = absurd (none-ne-some r e)
    load_next-Round other names l r c (some s) f e = (
      count_checkpoint other c s l,
      e,
      λ name h. count_checkpoint-IsCovered current name other c s l f h,
    )

    load_found-Round :
        (other : List ℕ) (names : List (List ℕ)) (l r : Loaded State)
        (o : Option CheckpointFileInfo)
        → find other current ≡ o
        → load_found load current (load_each load current names) other l o ≡ some r
        → Round other names l r
    unfolding Round
    load_found-Round other names l r none f e =
        (count_missing other l, e, λ name h. count_missing-IsCovered current name other l f h)
    load_found-Round other names l r (some c) f e =
        load_next-Round other names l r c (load other c l.containers) f e

    load_each-keeps :
        (name : List ℕ) (names : List (List ℕ)) (l r : Loaded State)
        → load_each load current names l ≡ some r
        → IsCovered current l name
        → IsCovered current r name
    unfolding load_each Round
    load_each-keeps name [] l r e h =
        subst (λ (x : Loaded State). IsCovered current x name) (some-injective _ _ e) h
    load_each-keeps name (other ∷ names) l r e h =
        let k = load_found-Round other names l r (find other current) refl e in
        load_each-keeps name names k.0 r k.1 (k.2 name (inl h))

    load_each-AreCovered :
        (names : List (List ℕ)) (l r : Loaded State)
        → load_each load current names l ≡ some r
        → AreCovered current r names
    unfolding load_each Round
    load_each-AreCovered [] l r e = tt
    load_each-AreCovered (other ∷ names) l r e =
        let k = load_found-Round other names l r (find other current) refl e in
        (
          load_each-keeps other names k.0 r k.1 (k.2 other (inr refl)),
          load_each-AreCovered names k.0 r k.1,
        )

    pub load_containers-AreCovered :
        (names : List (List ℕ)) (history : List (List ℕ × ℕ)) (s : State) (r : Loaded State)
        → load_containers load current names history s ≡ some r
        → AreCovered current r names
    unfolding load_containers
    load_containers-AreCovered names history s r e = load_each-AreCovered names _ r e

  -- The containers one after the other, each from its current checkpoint if it has one: t is what s
  -- becomes.
  pub data LoadsTo (load : List ℕ → CheckpointFileInfo → State → Option State)
      : List (List ℕ) → State → State → Type 0 where
    all_loaded : {s : State} → LoadsTo load [] s s
    without_checkpoint :
        {name : List ℕ} {names : List (List ℕ)} {s t : State}
        → find name current ≡ none
        → LoadsTo load names s t
        → LoadsTo load (name ∷ names) s t
    from_checkpoint :
        {name : List ℕ} {names : List (List ℕ)} {s t : State} (c : CheckpointFileInfo) (m : State)
        → find name current ≡ some c
        → load name c s ≡ some m
        → LoadsTo load names m t
        → LoadsTo load (name ∷ names) s t

  module _ (load : List ℕ → CheckpointFileInfo → State → Option State) where
    Loads : List (List ℕ) → Type 0
    Loads names =
        (l r : Loaded State)
        → load_each load current names l ≡ some r
        → LoadsTo load names l.containers r.containers

    load_next-LoadsTo :
        (name : List ℕ) (names : List (List ℕ)) (l r : Loaded State) (c : CheckpointFileInfo)
        (s : Option State)
        → Loads names
        → find name current ≡ some c
        → load name c l.containers ≡ s
        → load_next load current (load_each load current names) name c l s ≡ some r
        → LoadsTo load (name ∷ names) l.containers r.containers
    unfolding Loads count_checkpoint
    load_next-LoadsTo name names l r c none rest f q e = absurd (none-ne-some r e)
    load_next-LoadsTo name names l r c (some s) rest f q e =
        from_checkpoint c s f q (rest (count_checkpoint name c s l) r e)

    load_found-LoadsTo :
        (name : List ℕ) (names : List (List ℕ)) (l r : Loaded State) (o : Option CheckpointFileInfo)
        → Loads names
        → find name current ≡ o
        → load_found load current (load_each load current names) name l o ≡ some r
        → LoadsTo load (name ∷ names) l.containers r.containers
    unfolding Loads count_missing
    load_found-LoadsTo name names l r none rest f e =
        without_checkpoint f (rest (count_missing name l) r e)
    load_found-LoadsTo name names l r (some c) rest f e =
        load_next-LoadsTo name names l r c (load name c l.containers) rest f refl e

    load_each-LoadsTo : (names : List (List ℕ)) → Loads names
    unfolding Loads load_each
    load_each-LoadsTo [] l r e =
        subst (λ (x : Loaded State). LoadsTo load [] l.containers x.containers)
          (some-injective _ _ e) all_loaded
    load_each-LoadsTo (name ∷ names) l r e =
        load_found-LoadsTo name names l r (find name current) (load_each-LoadsTo names) refl e

    pub load_containers-LoadsTo :
        (names : List (List ℕ)) (history : List (List ℕ × ℕ)) (s : State) (r : Loaded State)
        → load_containers load current names history s ≡ some r
        → LoadsTo load names s r.containers
    unfolding load_containers Loads
    load_containers-LoadsTo names history s r e = load_each-LoadsTo names _ r e
