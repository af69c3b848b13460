-- ===== src/Database/Archived.antt =====
-- stldb/Database.tcc and src/db_file_util.cpp: recovery after the archivable log files were removed, where a
-- container has no checkpoint yet.
use mathlib.Core.Bool.{true≢false}
use stldb.Prelude.{
  ℕ, ◌≤◌, ◌<◌, ◌≡◌, inl, inr, refl, sym, subst, Bool, true, false, ◌||◌, Option, none, some, List,
  [], ◌∷◌, lt→ltb, arith, Bool-cases,
}
use stldb.Logging.{LogHeader}
use stldb.Recovery.{logs_removed, from_first_needed, recover}
use stldb.Checkpoint.File.{CheckpointFileInfo}
use stldb.FileUtil.Names.{same_name}
use stldb.FileUtil.Current.{same_name→eq}
use stldb.FileUtil.Files.{find, get_first_needed, get_checkpoint_lsn_range}
use stldb.Registry.{Files, Registry}
use stldb.Database.Info.{DatabaseInfo, Region, Arguments}
use stldb.Database.Load.{Loaded, load_containers}
use stldb.Database.Loaded.{load_containers-AreCovered}
use stldb.Database.Covered.{start_of, AreCovered}
use stldb.Database.Open.{Opened, logs_gone, after_recovery, reload}

-- The name is one of the containers'.
unfoldable pub is_container : List ℕ → List (List ℕ) → Bool
unfolding same_name
is_container name [] = false
is_container name (n ∷ names) = same_name name n || is_container name names

AreCovered-start :
    {State : Type 0} (current : List (List ℕ × CheckpointFileInfo)) (l : Loaded State)
    (name : List ℕ) (names : List (List ℕ))
    → is_container name names ≡ true
    → AreCovered current l names
    → l.recovery_start_lsn ≤ start_of (find name current)
unfolding is_container
AreCovered-start current l name [] h c = absurd (true≢false (sym h))
AreCovered-start current l name (n ∷ names) h (c, cs) = elim (Bool-cases (same_name name n)) [
  | inl e ↦
      subst (λ (x : List ℕ). l.recovery_start_lsn ≤ start_of (find x current))
        (sym (same_name→eq name n e)) c.start
  | inr e ↦
      AreCovered-start current l name names
        (subst (λ (b : Bool). (b || is_container name names) ≡ true) e h) cs
]

from_first_needed-zero :
    (f : ℕ × List ℕ) (files : List (ℕ × List ℕ)) → from_first_needed 0 (f ∷ files) ≡ f ∷ files
unfolding from_first_needed
from_first_needed-zero f [] = refl
from_first_needed-zero f (g ∷ files) = ground arith

-- Recovery from LSN 0 refuses log files of which the first has another number.
recover-logs_removed :
    {State : Type 0} (recover_txn : State → LogHeader → List ℕ → State) (reads steps start : ℕ)
    (f : ℕ × List ℕ) (files : List (ℕ × List ℕ)) (s : State)
    → start ≤ 0
    → 0 < f.0
    → recover recover_txn reads steps start (f ∷ files) s ≡ some logs_removed
unfolding recover
recover-logs_removed recover_txn reads steps start f files s z h =
    let first : start ≡ 0 = omega (arith, z) in
    rw (first) (rw (from_first_needed-zero f files, recover) (rw (lt→ltb 0 f.0 h) refl))

-- The log files with their contents.
abbrev pub with_contents : (List ℕ → List ℕ) → List (ℕ × List ℕ) → List (ℕ × List ℕ)
with_contents contents [] = []
with_contents contents (f ∷ files) = (f.0, contents f.1) ∷ with_contents contents files

module _ (can_remove : ℕ → Bool) (me : ℕ) (a : Arguments) {State : Type 0}
    (sane : Region State → Bool) (empty : State) (resized : ℕ → ℕ → ℕ)
    (load : List ℕ → CheckpointFileInfo → State → Option State)
    (recover_txn : State → LogHeader → List ℕ → State) (reads steps : ℕ)
    (current : List (List ℕ × CheckpointFileInfo)) where
  -- Where a container has no checkpoint, and of the log files only those are left that get_current_logs
  -- gives, the first of which does not start at LSN 0, the region cannot be built: once the
  -- containers are loaded, recovery throws since needed log files have been removed.
  pub reload-logs_gone :
      (g : Registry) (r : Region State) (files : Files) (i : DatabaseInfo) (l : Loaded State)
      (name : List ℕ) (contents : List ℕ → List ℕ) (paths before after : List (ℕ × List ℕ))
      (f : ℕ × List ℕ)
      → is_container name a.containers ≡ true
      → find name current ≡ none
      → load_containers load current a.containers i.ckpt_history_map r.containers ≡ some l
      → get_first_needed (get_checkpoint_lsn_range current).0 paths ≡ (before, f ∷ after)
      → 0 < f.0
      → (o : Opened State) × (reload can_remove me a sane empty resized load recover_txn reads steps
            current
            (with_contents contents (get_first_needed (get_checkpoint_lsn_range current).0 paths).1)
            g
            r
            files
            i
          ≡ some o)
        × (o.ending ≡ logs_gone)
  unfolding reload after_recovery
  reload-logs_gone g r files i l name contents paths before after f c n e p h =
      let covered =
        load_containers-AreCovered current load a.containers i.ckpt_history_map r.containers l e in
      let early = AreCovered-start current l name a.containers c covered in
      let zero_start : l.recovery_start_lsn ≤ 0 =
        subst (λ (o : Option CheckpointFileInfo). l.recovery_start_lsn ≤ start_of o) n early in
      rw (e, p)
        (rw
          (recover-logs_removed recover_txn reads steps l.recovery_start_lsn (f.0, contents f.1)
            (with_contents contents after) l.containers zero_start h)
          (_, refl, refl))
