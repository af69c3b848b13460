-- ===== src/Database/Forgotten.antt =====
-- stldb/Database.tcc: what is left after the commit of a checkpoint throws.
use stldb.Prelude.{
  ℕ, ◌<◌, ◌≡◌, refl, ap, ◌∙◌, subst, Bool, true, false, not, List, [], ◌∷◌, ltb, lt→ltb,
  if◌then◌else◌, if-elim,
}
use stldb.FileUtil.Current.{same_name_refl}
use stldb.Database.Info.{DatabaseInfo, put_lsn, lsn_of}
use stldb.Database.Covered.{lsn_of-put_lsn}
use stldb.Database.Checkpoints.{
  Gap, Event, Committed, stops, Progress, finish_checkpoint, checkpoint_one,
}

-- Each checkpoint has only the changes from after the LSN.
abbrev pub AreFrom : ℕ → List Committed → Type 0
AreFrom lsn [] = Unit {0}
AreFrom lsn (c ∷ cs) = (c.last_checkpoint_lsn ≡ lsn) × AreFrom lsn cs

lsn_of-put_lsn_same :
    (name : List ℕ) (lsn : ℕ) (m : List (List ℕ × ℕ)) → lsn_of name (put_lsn name lsn m) ≡ lsn
lsn_of-put_lsn_same name lsn m =
    lsn_of-put_lsn name name lsn m
    ∙ ap (λ (b : Bool). if b then lsn else lsn_of name m) (same_name_refl name)

module _ (valid opens : List ℕ → Bool) (saves : List ℕ → ℕ → Bool) (commits : List ℕ → Bool)
    (others : List ℕ → Gap → List Event) where
  checkpoint_one-AreFrom :
      (name : List ℕ) (i : DatabaseInfo)
      → AreFrom
          (lsn_of name i.ckpt_history_map)
          (checkpoint_one valid opens saves commits others name i).committed
  unfolding checkpoint_one finish_checkpoint
  checkpoint_one-AreFrom name i =
      if-elim P (not (valid name)) _ _ (λ _. tt)
        λ _.
          if-elim P (not (ltb (lsn_of name i.ckpt_history_map) i.log_info.last_write_txn_id)) _ _
            (λ _. tt)
            λ _.
              if-elim P (not (opens name)) _ _ (λ _. tt)
                λ _.
                  if-elim P (not (saves name (lsn_of name i.ckpt_history_map))) _ _ (λ _. tt)
                    λ _. if-elim P (not (commits name)) _ _ (λ _. tt) λ _. (refl, tt)
    where
      P : Progress → Type 0
      P p = AreFrom (lsn_of name i.ckpt_history_map) p.committed

  checkpoint_one-failed :
      (name : List ℕ) (i : DatabaseInfo)
      → valid name ≡ true
      → opens name ≡ true
      → saves name (lsn_of name i.ckpt_history_map) ≡ true
      → commits name ≡ false
      → lsn_of name i.ckpt_history_map < i.log_info.last_write_txn_id
      → let p = checkpoint_one valid opens saves commits others name i in
        (p.committed ≡ [])
        × (p.ending ≡ stops)
        × (lsn_of name p.info.ckpt_history_map ≡ i.log_info.last_write_txn_id)
  unfolding checkpoint_one finish_checkpoint
  checkpoint_one-failed name i v o s c n =
      rw (v, lt→ltb (lsn_of name i.ckpt_history_map) i.log_info.last_write_txn_id n, o, s, c)
        (refl, refl, lsn_of-put_lsn_same name i.log_info.last_write_txn_id i.ckpt_history_map)

-- Where the checkpoint of a container with changes is saved but its commit throws, checkpoint() stops
-- without it, but the history has its start: whatever the calls and the other transactions do after
-- that, the next checkpoint of the container saves only the changes from after that start, if the
-- history is still as it was left.
pub checkpoint_one-forgets :
    (valid opens : List ℕ → Bool) (saves : List ℕ → ℕ → Bool) (commits : List ℕ → Bool)
    (others : List ℕ → Gap → List Event) (name : List ℕ) (i : DatabaseInfo)
    (valid' opens' : List ℕ → Bool) (saves' : List ℕ → ℕ → Bool) (commits' : List ℕ → Bool)
    (others' : List ℕ → Gap → List Event) (j : DatabaseInfo)
    → valid name ≡ true
    → opens name ≡ true
    → saves name (lsn_of name i.ckpt_history_map) ≡ true
    → commits name ≡ false
    → lsn_of name i.ckpt_history_map < i.log_info.last_write_txn_id
    → j.ckpt_history_map
      ≡ (checkpoint_one valid opens saves commits others name i).info.ckpt_history_map
    → let p = checkpoint_one valid opens saves commits others name i in
      (p.committed ≡ [])
      × (p.ending ≡ stops)
      × AreFrom i.log_info.last_write_txn_id
          (checkpoint_one valid' opens' saves' commits' others' name j).committed
checkpoint_one-forgets valid opens saves commits others name i valid' opens' saves' commits' others'
      j v o s c n h =
    let k = checkpoint_one-failed valid opens saves commits others name i v o s c n in
    (
      k.0,
      k.1,
      subst
          (λ (x : ℕ).
            AreFrom x (checkpoint_one valid' opens' saves' commits' others' name j).committed)
          (ap (λ (m : List (List ℕ × ℕ)). lsn_of name m) h ∙ k.2)
          (checkpoint_one-AreFrom valid' opens' saves' commits' others' name j),
    )
