-- ===== src/Checkpoint/Commit/Directory.antt =====
-- src/checkpoint.cpp, commit: the removal and the writing of files leave the others.
use stldb.Prelude.{
  ℕ, ◌≡◌, refl, sym, ap, ◌∙◌, Bool, true, false, ◌||◌, Option, some, List, [], ◌∷◌, if◌then◌else◌,
  if-elim, Bool-cases, inl, inr,
}
use stldb.Checkpoint.File.{CheckpointFileInfo}
use stldb.FileUtil.Names.{same_name}
use stldb.FileUtil.Files.{DirectoryEntry}
use stldb.FileUtil.Current.{same_name→eq}
use stldb.Checkpoint.Count.{or-right}
use stldb.Checkpoint.Commit.{find_file, remove_file, put_file, remove_files}

-- The removal of one file leaves the others.
pub find_file-remove_file :
    (n m : List ℕ) (es : List DirectoryEntry)
    → same_name n m ≡ false
    → find_file n (remove_file m es) ≡ find_file n es
unfolding find_file remove_file
find_file-remove_file n m [] d = refl
find_file-remove_file n m (e ∷ es) d = elim (Bool-cases (same_name m e.filename)) [
  | inl q ↦
      (let other : same_name n e.filename ≡ false =
          ap (same_name n) (sym (same_name→eq m e.filename q)) ∙ d in
        rw (q, remove_file) (find_file-remove_file n m es d ∙ rw (other, find_file) refl))
  | inr q ↦
      rw (q, remove_file)
        (ap (λ r. if same_name n e.filename then some e else r) (find_file-remove_file n m es d))
]

pub find_file-put_file :
    (n m : List ℕ) (contents : Option CheckpointFileInfo) (es : List DirectoryEntry)
    → same_name n m ≡ false
    → find_file n (put_file m contents es) ≡ find_file n es
unfolding find_file
find_file-put_file n m contents es d = rw (d, find_file) (find_file-remove_file n m es d)

unfoldable pub is_listed : List ℕ → List (List ℕ) → Bool
is_listed n [] = false
is_listed n (m ∷ ms) = same_name n m || is_listed n ms

-- The removal of some files leaves those that are not listed.
pub find_file-remove_files :
    (n : List ℕ) (removable : List ℕ → Bool) (names : List (List ℕ)) (es : List DirectoryEntry)
    → is_listed n names ≡ false
    → find_file n (remove_files removable names es) ≡ find_file n es
unfolding remove_files is_listed
find_file-remove_files n removable [] es d = refl
find_file-remove_files n removable (m ∷ ms) es d =
    find_file-remove_files n removable ms (if removable m then remove_file m es else es)
      (or-right (same_name n m) (is_listed n ms) d)
    ∙ if-elim (λ r. find_file n r ≡ find_file n es) (removable m) (remove_file m es) es
        (λ e. find_file-remove_file n m es (or-left (same_name n m) (is_listed n ms) d)) (λ e. refl)
  where
    or-left : (a b : Bool) → (a || b) ≡ false → a ≡ false
    or-left false b h = refl
    or-left true b h = cc
