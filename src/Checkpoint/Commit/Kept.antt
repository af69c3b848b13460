-- ===== src/Checkpoint/Commit/Kept.antt =====
-- src/checkpoint.cpp, commit: which files are there after it.
use mathlib.Core.Bool.{true≢false}
use stldb.Prelude.{
  ℕ, ◌≡◌, refl, sym, ap, ◌∙◌, subst, Bool, true, false, Option, none, some, List, [], ◌∷◌, arith,
  if◌then◌else◌, if-elim, Bool-cases, inl, inr, Exception, filesystem_error,
}
use stldb.Checkpoint.File.{add_free_space, CheckpointFileInfo, CheckpointOfstream}
use stldb.FileUtil.Names.{same_name}
use stldb.FileUtil.Files.{DirectoryEntry}
use stldb.FileUtil.Current.{same_name_refl, same_name→eq}
use stldb.Checkpoint.Commit.{
  wip_extension, metafile_name, starts_with, find_file, remove_file, put_file, CommitOutcome,
  is_previous, to_remove, write_metafile, install_metafile, committed, commit,
}
use stldb.Checkpoint.Commit.Directory.{
  find_file-remove_file, find_file-put_file, is_listed, find_file-remove_files,
}

module _ (extension : List ℕ → List ℕ) (replace_extension : List ℕ → List ℕ → List ℕ) where
  -- A name that the test for files to remove rejects is not listed.
  to_remove-not_listed :
      (n container final : List ℕ) (es : List DirectoryEntry)
      → ((e : DirectoryEntry)
          → e.filename ≡ n
          → is_previous extension replace_extension container final e ≡ false)
      → is_listed n (to_remove extension replace_extension container final es) ≡ false
  unfolding to_remove is_listed
  to_remove-not_listed n container final [] h = refl
  to_remove-not_listed n container final (e ∷ es) h =
      if-elim (λ r. is_listed n r ≡ false)
        (is_previous extension replace_extension container final e)
        (e.filename ∷ to_remove extension replace_extension container final es)
        (to_remove extension replace_extension container final es)
        (λ q. elim (Bool-cases (same_name n e.filename)) [
          | inl m ↦ absurd (true≢false (sym q ∙ h e (sym (same_name→eq n e.filename m))))
          | inr m ↦ rw m (to_remove-not_listed n container final es h)
        ])
        (λ q. to_remove-not_listed n container final es h)

  not_previous :
      (container final : List ℕ) (e : DirectoryEntry)
      → starts_with container e.filename ≡ false
      → is_previous extension replace_extension container final e ≡ false
  not_previous container final e h = ground (arith, h)

  write_metafile-kept :
      (n : List ℕ) (written : Bool) (info : CheckpointFileInfo) (es : List DirectoryEntry)
      → same_name n (replace_extension info.meta_filename wip_extension) ≡ false
      → find_file n (write_metafile extension replace_extension written info es) ≡ find_file n es
  unfolding write_metafile
  write_metafile-kept n written info es wip =
      find_file-put_file n (replace_extension info.meta_filename wip_extension)
        (if written then some info else none) es wip

  -- What commit writes into the record.
  committed-names :
      (lsn_at_start lsn_at_end : ℕ) (c : CheckpointOfstream)
      → ((committed lsn_at_start lsn_at_end c).info.meta_filename
          ≡ metafile_name c.info.container_name lsn_at_start)
        × ((committed lsn_at_start lsn_at_end c).info.container_name ≡ c.info.container_name)
  unfolding committed add_free_space
  committed-names lsn_at_start lsn_at_end c = (refl, refl)

  install_metafile-kept :
      (n : List ℕ) (o : CommitOutcome) (info : CheckpointFileInfo) (es : List DirectoryEntry)
      → same_name n (replace_extension info.meta_filename wip_extension) ≡ false
      → same_name n info.meta_filename ≡ false
      → starts_with info.container_name n ≡ false
      → find_file n (install_metafile extension replace_extension o info es) ≡ find_file n es
  unfolding install_metafile
  install_metafile-kept n o info es wip final other =
      let contents = if o.written then some info else none in
      let es' = remove_file (replace_extension info.meta_filename wip_extension) es in
      find_file-remove_files n o.removable
        (to_remove extension replace_extension info.container_name info.meta_filename
          (put_file info.meta_filename contents es'))
        (put_file info.meta_filename contents es')
        (to_remove-not_listed n info.container_name info.meta_filename
          (put_file info.meta_filename contents es')
          (λ e q.
            not_previous info.container_name info.meta_filename e
              (ap (starts_with info.container_name) q ∙ other)))
      ∙ find_file-put_file n info.meta_filename contents es' final
      ∙ find_file-remove_file n (replace_extension info.meta_filename wip_extension) es wip

  -- Whatever the outcome of a commit, it leaves the files as they were whose name does not start with the name of the
  -- container and is not that of the new metafile, temporary or final.
  pub commit-kept :
      (o : CommitOutcome) (lsn_at_start lsn_at_end : ℕ) (c : CheckpointOfstream)
      (es : List DirectoryEntry) (n : List ℕ)
      → same_name n
          (replace_extension (metafile_name c.info.container_name lsn_at_start) wip_extension)
        ≡ false
      → same_name n (metafile_name c.info.container_name lsn_at_start) ≡ false
      → starts_with c.info.container_name n ≡ false
      → find_file n (commit extension replace_extension o lsn_at_start lsn_at_end c es).0.1
        ≡ find_file n es
  unfolding commit
  commit-kept o lsn_at_start lsn_at_end c es n wip final other =
      if-elim
        (λ (r : (CheckpointOfstream × List DirectoryEntry) × Option Exception).
          find_file n r.0.1 ≡ find_file n es)
        o.renamed ((c', install_metafile extension replace_extension o c'.info es'), none)
        ((c', es'), some filesystem_error)
        (λ e.
          install_metafile-kept n o c'.info es' wip' (ap (same_name n) names.0 ∙ final)
            (ap (λ z. starts_with z n) names.1 ∙ other)
          ∙ written)
        (λ e. written)
    where
      c' : CheckpointOfstream
      c' = committed lsn_at_start lsn_at_end c

      es' : List DirectoryEntry
      es' = write_metafile extension replace_extension o.written c'.info es

      names :
          (c'.info.meta_filename ≡ metafile_name c.info.container_name lsn_at_start)
          × (c'.info.container_name ≡ c.info.container_name)
      names = committed-names lsn_at_start lsn_at_end c

      wip' : same_name n (replace_extension c'.info.meta_filename wip_extension) ≡ false
      wip' = ap (λ z. same_name n (replace_extension z wip_extension)) names.0 ∙ wip

      written : find_file n es' ≡ find_file n es
      written = write_metafile-kept n o.written c'.info es wip'

  -- The new metafile is not listed, so it stays.
  install_metafile-final :
      (o : CommitOutcome) (info : CheckpointFileInfo) (es : List DirectoryEntry)
      → find_file info.meta_filename (install_metafile extension replace_extension o info es)
        ≡ some (record {
          filename = info.meta_filename;
          is_directory = false;
          metafile = if o.written then some info else none;
        })
  unfolding install_metafile find_file
  install_metafile-final o info es =
      let contents = if o.written then some info else none in
      let es' = remove_file (replace_extension info.meta_filename wip_extension) es in
      find_file-remove_files info.meta_filename o.removable
        (to_remove extension replace_extension info.container_name info.meta_filename
          (put_file info.meta_filename contents es'))
        (put_file info.meta_filename contents es')
        (to_remove-not_listed info.meta_filename info.container_name info.meta_filename
          (put_file info.meta_filename contents es')
          (λ e q. not_final info.container_name info.meta_filename e q))
      ∙ find_file-first info.meta_filename contents es'
    where
      not_final :
          (container final : List ℕ) (e : DirectoryEntry)
          → e.filename ≡ final
          → is_previous extension replace_extension container final e ≡ false
      not_final container final e q =
          ground (arith, ap (λ z. same_name z final) q ∙ same_name_refl final)

      find_file-first :
          (n : List ℕ) (contents : Option CheckpointFileInfo) (es : List DirectoryEntry)
          → find_file n (put_file n contents es)
            ≡ some (record { filename = n; is_directory = false; metafile = contents })
      find_file-first n contents es = rw (same_name_refl n, find_file) refl

  -- A commit whose rename succeeds returns, and whichever of the previous metafiles it can remove, it leaves the new
  -- metafile under its final name; this holds the state that commit leaves if it was written whole, and else no state.
  pub commit-installs :
      (o : CommitOutcome) (lsn_at_start lsn_at_end : ℕ) (c : CheckpointOfstream)
      (es : List DirectoryEntry)
      → o.renamed ≡ true
      → ((commit extension replace_extension o lsn_at_start lsn_at_end c es).1 ≡ none)
        × (find_file
              (metafile_name c.info.container_name lsn_at_start)
              (commit extension replace_extension o lsn_at_start lsn_at_end c es).0.1
            ≡ some (record {
              filename = metafile_name c.info.container_name lsn_at_start;
              is_directory = false;
              metafile =
                  if o.written then some (committed lsn_at_start lsn_at_end c).info else none;
            }))
  unfolding commit
  commit-installs o lsn_at_start lsn_at_end c es renamed =
      let c' = committed lsn_at_start lsn_at_end c in
      let es' = write_metafile extension replace_extension o.written c'.info es in
      let names = committed-names lsn_at_start lsn_at_end c in
      rw renamed (
        refl,
        subst
            (λ z.
              find_file z (install_metafile extension replace_extension o c'.info es')
              ≡ some (record {
                filename = z;
                is_directory = false;
                metafile = if o.written then some c'.info else none;
              }))
            names.0 (install_metafile-final o c'.info es'),
      )
