-- ===== src/Database/Rebuilt.antt =====
-- stldb/Database.tcc: the constructor of Database builds or recovers what the containers hold.
use stldb.Prelude.{
  ℕ, ◌≡◌, inl, inr, refl, subst, Bool, true, not, ◌&&◌, ◌||◌, Option, none, some, List,
  if◌then◌else◌, if-elim, ◌==◌, Bool-cases,
}
use stldb.Logging.{LogHeader}
use stldb.Recovery.{recover}
use stldb.Checkpoint.File.{CheckpointFileInfo}
use stldb.Registry.{Files, Registry, is_valid, connected_pids, register_pid}
use stldb.Database.Info.{DatabaseInfo, Region, Arguments, find_or_construct_databaseinfo}
use stldb.Database.Load.{Loaded, load_containers}
use stldb.Database.Loaded.{load_containers-AreCovered, load_containers-LoadsTo}
use stldb.Database.Recovered.{not_opened, IsRecovered, after_recovery-IsRecovered}
use stldb.Database.Open.{
  opened, recovery_needed, Opened, Attached, has_any, stopped_with, resize_region, attach,
  recover_loaded, reload, build, build_registered, open_database,
}

module _ (can_remove : ℕ → Bool) (me : ℕ) (a : Arguments) {State : Type 0}
    (sane : Region State → Bool) (empty : State) (resized : ℕ → ℕ → ℕ)
    (load : List ℕ → CheckpointFileInfo → State → Option State)
    (recover_txn : State → LogHeader → List ℕ → State) (reads steps : ℕ)
    (current : List (List ℕ × CheckpointFileInfo)) (log_files : List (ℕ × List ℕ)) where
  recover_loaded-IsRecovered :
      (g : Registry) (r : Region State) (files : Files) (i : DatabaseInfo)
      (l : Option (Loaded State)) (o : Opened State)
      → load_containers load current a.containers i.ckpt_history_map r.containers ≡ l
      → recover_loaded can_remove me a sane empty resized load recover_txn reads steps current
          log_files g r files i l
        ≡ some o
      → o.ending ≡ opened
      → IsRecovered load recover_txn reads steps current log_files a.containers r.containers o
  recover_loaded-IsRecovered g r files i none o q e h = absurd (not_opened refl e h)
  recover_loaded-IsRecovered g r files i (some l) o q e h =
      after_recovery-IsRecovered load recover_txn reads steps current log_files a.containers g r
        files i l (recover recover_txn reads steps l.recovery_start_lsn log_files l.containers)
        r.containers o
        (load_containers-LoadsTo current load a.containers i.ckpt_history_map r.containers l q)
        (load_containers-AreCovered current load a.containers i.ckpt_history_map r.containers l q)
        refl e h

  reload-IsRecovered :
      (g : Registry) (r : Region State) (files : Files) (i : DatabaseInfo) (o : Opened State)
      → reload can_remove me a sane empty resized load recover_txn reads steps current log_files g r
          files i
        ≡ some o
      → o.ending ≡ opened
      → IsRecovered load recover_txn reads steps current log_files a.containers r.containers o
  unfolding reload
  reload-IsRecovered g r files i o e h = recover_loaded-IsRecovered g r files i _ o refl e h

  build-IsRecovered :
      (g : Registry) (r : Region State) (files : Files) (o : Opened State)
      → build can_remove me a sane empty resized load recover_txn reads steps current log_files true
          g r files
        ≡ some o
      → o.ending ≡ opened
      → IsRecovered load recover_txn reads steps current log_files a.containers r.containers o
  unfolding build
  build-IsRecovered g r files o e h =
      elim (Bool-cases (not (is_valid g) && (true || has_any a.containers))) [
        | inl b ↦ absurd (not_opened refl (chosen b) h)
        | inr b ↦
            reload-IsRecovered g r files (find_or_construct_databaseinfo a r.dbinfo) o (chosen b) h
      ]
    where
      done : Bool → Option (Opened State)
      done invalid =
          if invalid
          then some
              (stopped_with g r files (find_or_construct_databaseinfo a r.dbinfo) recovery_needed)
          else reload can_remove me a sane empty resized load recover_txn reads steps current
              log_files g r files (find_or_construct_databaseinfo a r.dbinfo)

      chosen : {b : Bool} → not (is_valid g) && (true || has_any a.containers) ≡ b → done b ≡ some o
      chosen b = subst (λ (x : Bool). done x ≡ some o) b e

  build_registered-IsRecovered :
      (t : Attached State) (r : Region State) (k : Option (Registry × Files)) (o : Opened State)
      → build_registered can_remove me a sane empty resized load recover_txn reads steps current
          log_files t r k
        ≡ some o
      → t.creating_region ≡ true
      → o.ending ≡ opened
      → IsRecovered load recover_txn reads steps current log_files a.containers r.containers o
  build_registered-IsRecovered t r none o e c h = absurd (not_opened refl e h)
  build_registered-IsRecovered t r (some k) o e c h =
      build-IsRecovered k.0 r k.1 o
        (subst
          (λ (b : Bool).
            build can_remove me a sane empty resized load recover_txn reads steps current log_files
              b k.0 r k.1
            ≡ some o)
          c e)
        h

  resize_region-containers :
      (t : Attached State)
      → (resize_region a.initial_size resized t).containers ≡ t.region.containers
  resize_region-containers t =
      if-elim (λ (x : Region State). x.containers ≡ t.region.containers)
        (connected_pids t.registry == 0 && not (a.initial_size == t.region.size)) _ t.region
        (λ b. refl) λ b. refl

  -- Where the constructor of Database builds the region, for the first time or again, and returns, the
  -- containers are those found on attaching, or empty ones, into which the current checkpoint of each
  -- that has one is loaded, one after the other, and what recovery makes of these and the log files,
  -- from an LSN that is no later than the start of any such checkpoint, and 0 if a container has none,
  -- to an LSN that is no earlier than the end of any; the history map has the start of each checkpoint
  -- or 0, and the next LSN is the one after the last that was recovered.
  pub open_database-IsRecovered :
      (region : Option (Region State)) (files : Files) (o : Opened State)
      → open_database can_remove me a sane empty resized load recover_txn reads steps current
          log_files region files
        ≡ some o
      → (attach can_remove me a sane empty region files).creating_region ≡ true
      → o.ending ≡ opened
      → IsRecovered load recover_txn reads steps current log_files a.containers
          (attach can_remove me a sane empty region files).region.containers
          o
  unfolding open_database
  open_database-IsRecovered region files o e c h =
      let t = attach can_remove me a sane empty region files in
      let r = resize_region a.initial_size resized t in
      subst
        (λ (x : State). IsRecovered load recover_txn reads steps current log_files a.containers x o)
        (resize_region-containers t)
        (build_registered-IsRecovered t r (register_pid me t.registry t.files) o e c h)
