-- ===== src/FileUtil/Needed.antt =====
-- src/db_file_util.cpp: which log files are current, and which may be archived.
use stldb.Prelude.{
  ℕ, ◌≤◌, ◌<◌, ◌≡◌, refl, sym, ap, ◌∙◌, true, false, List, [], ◌∷◌, ◌++◌, arith, ltb, leb,
  if◌then◌else◌, if-elim,
}
use stldb.Recovery.{from_first_needed}
use stldb.Checkpoint.File.{CheckpointFileInfo}
use stldb.FileUtil.Files.{
  Place, first_at_least, step_back, get_first_needed, paths, rewind, get_checkpoint_lsn_range,
  get_current_logs, get_archivable_logs,
}

from_first_needed-head :
    (m : ℕ) (g : ℕ × List ℕ) (files : List (ℕ × List ℕ))
    → leb m g.0 ≡ true
    → from_first_needed m (g ∷ files) ≡ g ∷ files
unfolding from_first_needed
from_first_needed-head m g [] h = refl
from_first_needed-head m g (f ∷ files) h = rw h refl

-- Past a file of a smaller number, the two searches for the first file agree.
first_at_least-from_first_needed :
    (m : ℕ) (f : ℕ × List ℕ) (before files : List (ℕ × List ℕ))
    → leb m f.0 ≡ false
    → (step_back m (first_at_least m (f ∷ before) files)).1 ≡ from_first_needed m (f ∷ files)
unfolding first_at_least step_back from_first_needed
first_at_least-from_first_needed m f before [] h = refl
first_at_least-from_first_needed m f before (g ∷ files) h =
    if-elim (λ r. (step_back m r).1 ≡ from_first_needed m (f ∷ g ∷ files)) (leb m g.0)
      (f ∷ before, g ∷ files) (first_at_least m (g ∷ f ∷ before) files)
      (λ e. rw h (
        if-elim
          (λ (r : Place).
            r.1 ≡ (if ltb m g.0 then f ∷ g ∷ files else from_first_needed m (g ∷ files)))
          (ltb m g.0) (before, f ∷ g ∷ files) (f ∷ before, g ∷ files) (λ l. rw l refl)
          (λ l. rw l (sym (from_first_needed-head m g files e)))))
      (λ e.
        first_at_least-from_first_needed m g (f ∷ before) files e
        ∙ rw h (rw (leb-false→ltb-false m g.0 e) refl))
  where
    leb-false→ltb-false : (a b : ℕ) → leb a b ≡ false → ltb a b ≡ false
    leb-false→ltb-false a b e = ground (arith, e)

get_first_needed-from_first_needed :
    (m : ℕ) (files : List (ℕ × List ℕ)) → (get_first_needed m files).1 ≡ from_first_needed m files
unfolding get_first_needed first_at_least step_back from_first_needed
get_first_needed-from_first_needed m [] = refl
get_first_needed-from_first_needed m (f ∷ files) =
    if-elim (λ r. (step_back m r).1 ≡ from_first_needed m (f ∷ files)) (leb m f.0) ([], f ∷ files)
      (first_at_least m (f ∷ []) files) (λ e. sym (from_first_needed-head m f files e))
      (λ e. first_at_least-from_first_needed m f [] files e)

-- All the numbers are less than m.
AllBelow : ℕ → List (ℕ × List ℕ) → Type 0
AllBelow m [] = Unit {0}
AllBelow m (b ∷ before) = (b.0 < m) × AllBelow m before

-- If files lie before the place, then one follows, and its number is at most m.
abbrev pub FollowedBy : ℕ → Place → Type 0
FollowedBy m ([], after) = Unit {0}
FollowedBy m (b ∷ before, []) = ⊥
FollowedBy m (b ∷ before, g ∷ after) = g.0 ≤ m

first_at_least-rewind :
    (m : ℕ) (before files : List (ℕ × List ℕ))
    → AllBelow m before
    → AllBelow m (first_at_least m before files).0
      × (rewind (first_at_least m before files).0 (first_at_least m before files).1
          ≡ rewind before files)
unfolding first_at_least AllBelow rewind
first_at_least-rewind m before [] h = (h, refl)
first_at_least-rewind m before (f ∷ files) h =
    if-elim (λ r. AllBelow m r.0 × (rewind r.0 r.1 ≡ rewind before (f ∷ files))) (leb m f.0)
      (before, f ∷ files) (first_at_least m (f ∷ before) files) (λ e. (h, refl))
      (λ e. first_at_least-rewind m (f ∷ before) files (ground (arith, e), h))

step_back-FollowedBy :
    (m : ℕ) (place : Place)
    → AllBelow m place.0
    → FollowedBy m (step_back m place)
      × (rewind (step_back m place).0 (step_back m place).1 ≡ rewind place.0 place.1)
unfolding step_back AllBelow rewind
step_back-FollowedBy m ([], after) h = (tt, refl)
step_back-FollowedBy m (b ∷ [], []) h = (tt, refl)
step_back-FollowedBy m (b ∷ c ∷ before, []) h = (omega (arith, h.0), refl)
step_back-FollowedBy m (b ∷ before, f ∷ after) h =
    if-elim (λ r. FollowedBy m r × (rewind r.0 r.1 ≡ rewind before (b ∷ f ∷ after))) (ltb m f.0)
      (before, b ∷ f ∷ after) (b ∷ before, f ∷ after) (λ e. (moved before, refl))
      (λ e. (ground (arith, e), refl))
  where
    moved : (before : List (ℕ × List ℕ)) → FollowedBy m (before, b ∷ f ∷ after)
    moved [] = tt
    moved (c ∷ before) = omega (arith, h.0)

-- Of any log files: what lies before the first needed one and what follows make up the list, recovery from the
-- same LSN reads the same files, and where files lie before it, it has a number of at most that LSN.
pub get_first_needed-FollowedBy :
    (m : ℕ) (files : List (ℕ × List ℕ))
    → (rewind (get_first_needed m files).0 (get_first_needed m files).1 ≡ files)
      × ((get_first_needed m files).1 ≡ from_first_needed m files)
      × FollowedBy m (get_first_needed m files)
unfolding get_first_needed rewind AllBelow
get_first_needed-FollowedBy m files =
    let (below, all) = first_at_least-rewind m [] files tt in
    let (followed, same) = step_back-FollowedBy m (first_at_least m [] files) below in
    (same ∙ all, get_first_needed-from_first_needed m files, followed)

paths-append : (xs ys : List (ℕ × List ℕ)) → paths (xs ++ ys) ≡ paths xs ++ paths ys
paths-append [] ys = refl
paths-append (x ∷ xs) ys = ap (λ r. x.1 ∷ r) (paths-append xs ys)

rewind-append :
    (before xs ys : List (ℕ × List ℕ)) → rewind before xs ++ ys ≡ rewind before (xs ++ ys)
unfolding rewind
rewind-append [] xs ys = refl
rewind-append (b ∷ before) xs ys = rewind-append before (b ∷ xs) ys

-- The archivable log files and the current ones are all the log files in order, each in one of the two lists,
-- and the current ones are those that recovery reads from the least LSN of the checkpoints on.
pub get_archivable_logs-get_current_logs :
    (checkpoints : List (List ℕ × CheckpointFileInfo)) (files : List (ℕ × List ℕ))
    → (get_archivable_logs checkpoints files ++ get_current_logs checkpoints files ≡ paths files)
      × (get_current_logs checkpoints files
          ≡ paths (from_first_needed (get_checkpoint_lsn_range checkpoints).0 files))
unfolding get_archivable_logs get_current_logs
get_archivable_logs-get_current_logs checkpoints files =
    let m = (get_checkpoint_lsn_range checkpoints).0 in
    let place = get_first_needed m files in
    let (all, same, followed) = get_first_needed-FollowedBy m files in
    (
      sym (paths-append (rewind place.0 []) place.1)
          ∙ ap paths (rewind-append place.0 [] place.1 ∙ all),
      ap paths same,
    )
