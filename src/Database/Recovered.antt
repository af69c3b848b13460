-- ===== src/Database/Recovered.antt =====
-- stldb/Database.tcc: what a database that was built or recovered holds.
use mathlib.Core.Bool.{true≢false}
use mathlib.Core.Option
use mathlib.Core.Option.{some-injective, none-ne-some}
use stldb.Prelude.{
  ℕ, ◌+◌, ◌%◌, ◌^◌, ◌≤◌, ◌≡◌, inl, inr, refl, sym, ap, ◌∙◌, subst, Bool, true, false, Option, none,
  some, List, [], ◌∷◌, ◌==◌, ltb, if◌then◌else◌, arith, Bool-cases, or-false, ltb-false→le,
}
use stldb.Logging.{LogHeader}
use stldb.LogReader.{no_transaction}
use stldb.Recovery.{Recovered, recovered, logs_removed, recover}
use stldb.Recovery
use stldb.Checkpoint.File.{CheckpointFileInfo}
use stldb.FileUtil.Files.{find}
use stldb.Registry.{Files, Registry, set_invalid, construction_complete}
use stldb.Database.Info.{DatabaseInfo, Region, lsn_of}
use stldb.Database.Load.{Loaded}
use stldb.Database.Loaded.{LoadsTo}
use stldb.Database.Covered.{start_of, ReachesEnd, AreCovered}
use stldb.Database.Open.{
  Opening, opened, already_open, recovery_needed, load_failed, logs_gone, recovery_failed, Opened,
  is_short, resume_at, with_registry, after_recovery,
}

abbrev is_opened : Opening → Bool
is_opened opened = true
is_opened already_open = false
is_opened recovery_needed = false
is_opened load_failed = false
is_opened logs_gone = false
is_opened recovery_failed = false

-- Another ending is not opened.
pub not_opened :
    {State : Type 0} {p o : Opened State}
    → is_opened p.ending ≡ false
    → some p ≡ some o
    → o.ending ≡ opened
    → ⊥
not_opened {State} {p} {o} n e h =
    true≢false
      (sym (ap is_opened (ap (λ (x : Opened State). x.ending) (some-injective p o e) ∙ h)) ∙ n)

-- Recovery starts no later than the checkpoint of each container, or at 0 where it has none, and comes
-- to the end of its checkpoint at least.
abbrev pub Includes : List (List ℕ × CheckpointFileInfo) → ℕ → ℕ → List (List ℕ) → Type 0
Includes current start last [] = Unit {0}
Includes current start last (name ∷ names) =
    (start ≤ start_of (find name current))
    × ReachesEnd (find name current) (some last)
    × Includes current start last names

ReachesEnd-last :
    (o : Option CheckpointFileInfo) (last : ℕ) (end : Option ℕ)
    → is_short last end ≡ false
    → ReachesEnd o end
    → ReachesEnd o (some last)
ReachesEnd-last none last end h r = tt
ReachesEnd-last (some c) last none h r = absurd r
ReachesEnd-last (some c) last (some e) h r =
    let late = ltb-false→le last e (or-false (last == no_transaction) (ltb last e) h).1 in
    omega (arith, late, r)

AreCovered-Includes :
    {State : Type 0} (current : List (List ℕ × CheckpointFileInfo)) (l : Loaded State) (last : ℕ)
    (names : List (List ℕ))
    → is_short last l.recovery_end_lsn ≡ false
    → AreCovered current l names
    → Includes current l.recovery_start_lsn last names
AreCovered-Includes current l last [] h c = tt
AreCovered-Includes current l last (name ∷ names) h (c, cs) = (
  c.start,
  ReachesEnd-last (find name current) last l.recovery_end_lsn h c.end,
  AreCovered-Includes current l last names h cs,
)

-- The history map has the start of each container's checkpoint, or 0 where it has none.
abbrev pub HasStarts :
    List (List ℕ × CheckpointFileInfo) → List (List ℕ × ℕ) → List (List ℕ) → Type 0
HasStarts current history [] = Unit {0}
HasStarts current history (name ∷ names) =
    (lsn_of name history ≡ start_of (find name current)) × HasStarts current history names

AreCovered-HasStarts :
    {State : Type 0} (current : List (List ℕ × CheckpointFileInfo)) (l : Loaded State)
    (names : List (List ℕ))
    → AreCovered current l names
    → HasStarts current l.ckpt_history_map names
AreCovered-HasStarts current l [] c = tt
AreCovered-HasStarts current l (name ∷ names) (c, cs) =
    (c.history, AreCovered-HasStarts current l names cs)

module _ {State : Type 0} (load : List ℕ → CheckpointFileInfo → State → Option State)
    (recover_txn : State → LogHeader → List ℕ → State) (reads steps : ℕ)
    (current : List (List ℕ × CheckpointFileInfo)) (log_files : List (ℕ × List ℕ))
    (names : List (List ℕ)) where
  -- The containers, loaded one after the other into those of the start, then what recovery makes of
  -- these and the log files; and the next LSN follows the last one recovered.
  pub record IsRecovered (start : State) (o : Opened State) : Type 0 where
    loaded : State
    start_lsn : ℕ
    last_lsn : ℕ
    how : Recovery.Ending
    info : DatabaseInfo
    loads : LoadsTo current load names start loaded
    run :
        recover recover_txn reads steps start_lsn log_files loaded
        ≡ some (recovered o.region.containers last_lsn how)
    includes : Includes current start_lsn last_lsn names
    has_info : o.region.dbinfo ≡ some info
    history : HasStarts current info.ckpt_history_map names
    next_lsn : info.log_info.next_lsn ≡ (last_lsn + 1) % 2 ^ 64
    written : info.log_info.last_write_txn_id ≡ last_lsn
    synced : info.log_info.last_sync_txn_id ≡ last_lsn

  pub after_recovery-IsRecovered :
      (g : Registry) (r : Region State) (files : Files) (i : DatabaseInfo) (l : Loaded State)
      (k : Option (Recovered State)) (start : State) (o : Opened State)
      → LoadsTo current load names start l.containers
      → AreCovered current l names
      → recover recover_txn reads steps l.recovery_start_lsn log_files l.containers ≡ k
      → Option.map
          (after_recovery g r files (record i { ckpt_history_map = l.ckpt_history_map }) l)
          k
        ≡ some o
      → o.ending ≡ opened
      → IsRecovered start o
  unfolding after_recovery resume_at
  after_recovery-IsRecovered g r files i l none start o d c q e h = absurd (none-ne-some o e)
  after_recovery-IsRecovered g r files i l (some logs_removed) start o d c q e h =
      absurd (not_opened refl e h)
  after_recovery-IsRecovered g r files i l (some (recovered s last how)) start o d c q e h =
      elim (Bool-cases (is_short last l.recovery_end_lsn)) [
        | inl b ↦ absurd (not_opened refl (chosen b e) h)
        | inr b ↦ subst (IsRecovered start) (some-injective _ _ (chosen b e)) (record {
          loaded = l.containers;
          start_lsn = l.recovery_start_lsn;
          loads = d;
          last_lsn = last;
          how = how;
          info = resume_at last (record i { ckpt_history_map = l.ckpt_history_map });
          run = q;
          includes = AreCovered-Includes current l last names b c;
          has_info = refl;
          history = AreCovered-HasStarts current l names c;
          next_lsn = refl;
          written = refl;
          synced = refl;
        })
      ]
    where
      done : Bool → Opened State
      done short =
          if short
          then record {
            region = with_registry (set_invalid true g) (record r {
              dbinfo = some (record i { ckpt_history_map = l.ckpt_history_map });
              containers = s;
            });
            files = files;
            ending = recovery_failed;
          }
          else record {
            region = with_registry (construction_complete g) (record r {
              dbinfo = some (resume_at last (record i { ckpt_history_map = l.ckpt_history_map }));
              containers = s;
            });
            files = files;
            ending = opened;
          }

      chosen :
          {b : Bool}
          → is_short last l.recovery_end_lsn ≡ b
          → some (done (is_short last l.recovery_end_lsn)) ≡ some o
          → some (done b) ≡ some o
      chosen b e = subst (λ (x : Bool). some (done x) ≡ some o) b e
