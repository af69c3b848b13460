-- ===== src/FileUtil/Current.antt =====
-- src/db_file_util.cpp: the current checkpoint of each container, and the range of their LSNs.
use mathlib.Core.Bool.{true≢false}
use stldb.Prelude.{
  ℕ, ◌-◌, ◌^◌, ◌≤◌, ◌≡◌, refl, sym, ap, ◌∙◌, subst, true, false, ◌&&◌, Option, none, some, List, [],
  ◌∷◌, arith, ◌==◌, ltb, if◌then◌else◌, ==→eq, ==_refl, Bool-cases, inl, inr, ◌⊎◌,
}
use stldb.Checkpoint.File.{CheckpointFileInfo}
use stldb.FileUtil.Names.{same_name}
use stldb.FileUtil.Files.{
  DirectoryEntry, get_checkpoints, get_current_checkpoints, find, add_checkpoint, current_from,
  range_from, get_checkpoint_lsn_range,
}

pub same_name_refl : (n : List ℕ) → same_name n n ≡ true
unfolding same_name
same_name_refl [] = refl
same_name_refl (c ∷ cs) = rw (==_refl c) (same_name_refl cs)

pub same_name→eq : (m n : List ℕ) → same_name m n ≡ true → m ≡ n
unfolding same_name
same_name→eq [] [] h = refl
same_name→eq [] (d ∷ ds) h = cc
same_name→eq (c ∷ cs) [] h = cc
same_name→eq (c ∷ cs) (d ∷ ds) h = elim (Bool-cases (c == d)) [
  | inl e ↦
      (let rest : same_name cs ds ≡ true = sym (ap (λ b. b && same_name cs ds) e) ∙ h in
        ap (λ k. k ∷ cs) (==→eq c d e) ∙ ap (λ ks. d ∷ ks) (same_name→eq cs ds rest))
  | inr e ↦ cc
]

-- The later of the checkpoint in the map and another of the container; the one in the map if both are as late.
abbrev later_of : Option CheckpointFileInfo → CheckpointFileInfo → CheckpointFileInfo
later_of none i = i
later_of (some c) i = if ltb c.lsn_at_start i.lsn_at_start then i else c

find-add_checkpoint :
    (name : List ℕ) (i : CheckpointFileInfo) (m : List (List ℕ × CheckpointFileInfo))
    → find name (add_checkpoint i m)
      ≡ (if same_name name i.container_name then some (later_of (find name m) i) else find name m)
unfolding find add_checkpoint
find-add_checkpoint name i [] = refl
find-add_checkpoint name i ((k, c) ∷ m) = elim (Bool-cases (same_name i.container_name k)) [
  | inl e ↦
      (let same : same_name name i.container_name ≡ same_name name k =
          ap (same_name name) (same_name→eq i.container_name k e) in
        rw e (
          rw same (elim (Bool-cases (same_name name k)) [ inl q ↦ rw q refl | inr q ↦ rw q refl ])))
  | inr e ↦ elim (Bool-cases (same_name name k)) [
    | inl q ↦ rw e (rw q (rw (other e (same_name→eq name k q)) refl))
    | inr q ↦ rw e (rw q (find-add_checkpoint name i m))
  ]
]
  where
    other :
        same_name i.container_name k ≡ false → name ≡ k → same_name name i.container_name ≡ false
    other e n = elim (Bool-cases (same_name name i.container_name)) [
      | inr r ↦ r
      | inl r ↦
          (let ik : i.container_name ≡ k = sym (same_name→eq name i.container_name r) ∙ n in
            absurd (true≢false (sym (same_name_refl k) ∙ ap (λ j. same_name j k) (sym ik) ∙ e)))
    ]

-- The checkpoint is one of the container in the list.
abbrev IsAmong : List ℕ → CheckpointFileInfo → List CheckpointFileInfo → Type 0
IsAmong name c [] = ⊥
IsAmong name c (i ∷ is) = ((i ≡ c) × (same_name name i.container_name ≡ true)) ⊎ IsAmong name c is

-- No checkpoint of the container in the list started after this one.
abbrev NoneLater : List ℕ → CheckpointFileInfo → List CheckpointFileInfo → Type 0
NoneLater name c [] = Unit {0}
NoneLater name c (i ∷ is) =
    (same_name name i.container_name ≡ true → i.lsn_at_start ≤ c.lsn_at_start) × NoneLater name c is

-- The list has no checkpoint of the container.
abbrev HasNone : List ℕ → List CheckpointFileInfo → Type 0
HasNone name [] = Unit {0}
HasNone name (i ∷ is) = (same_name name i.container_name ≡ false) × HasNone name is

-- The result is the latest checkpoint of the container in the list, or none where there is none.
abbrev pub IsLatest : List ℕ → List CheckpointFileInfo → Option CheckpointFileInfo → Type 0
IsLatest name is none = HasNone name is
IsLatest name is (some c) = IsAmong name c is × NoneLater name c is

-- The same, where a checkpoint was known before.
IsLatestFrom :
    List ℕ
    → Option CheckpointFileInfo
    → List CheckpointFileInfo
    → Option CheckpointFileInfo
    → Type 0
IsLatestFrom name none is r = IsLatest name is r
IsLatestFrom name (some b) is none = ⊥
IsLatestFrom name (some b) is (some c) =
    ((b ≡ c) ⊎ IsAmong name c is) × NoneLater name c is × (b.lsn_at_start ≤ c.lsn_at_start)

-- One more checkpoint before the others.
IsLatestFrom-other :
    (name : List ℕ) (b : Option CheckpointFileInfo) (i : CheckpointFileInfo)
    (is : List CheckpointFileInfo) (r : Option CheckpointFileInfo)
    → same_name name i.container_name ≡ false
    → IsLatestFrom name b is r
    → IsLatestFrom name b (i ∷ is) r
unfolding IsLatestFrom
IsLatestFrom-other name none i is none e h = (e, h)
IsLatestFrom-other name none i is (some c) e h =
    (inr h.0, (λ q. absurd (true≢false (sym q ∙ e)), h.1))
IsLatestFrom-other name (some b) i is none e h = h
IsLatestFrom-other name (some b) i is (some c) e h = (
  elim h.0 [ inl q ↦ inl q | inr q ↦ inr (inr q) ],
  (λ q. absurd (true≢false (sym q ∙ e)), h.1),
  h.2,
)

IsLatestFrom-same :
    (name : List ℕ) (b : Option CheckpointFileInfo) (i : CheckpointFileInfo)
    (is : List CheckpointFileInfo) (r : Option CheckpointFileInfo)
    → same_name name i.container_name ≡ true
    → IsLatestFrom name (some (later_of b i)) is r
    → IsLatestFrom name b (i ∷ is) r
unfolding IsLatestFrom
IsLatestFrom-same name none i is none e h = absurd h
IsLatestFrom-same name none i is (some c) e h =
    (elim h.0 [ inl q ↦ inl (q, e) | inr q ↦ inr q ], (λ q. h.2, h.1))
IsLatestFrom-same name (some b) i is none e h = absurd h
IsLatestFrom-same name (some b) i is (some c) e h =
    elim (Bool-cases (ltb b.lsn_at_start i.lsn_at_start)) [
      | inl l ↦
          (let it : later_of (some b) i ≡ i = rw l refl in
            let h' : IsLatestFrom name (some i) is (some c) =
              subst (λ d. IsLatestFrom name (some d) is (some c)) it h in
            (
              elim h'.0 [ inl q ↦ inr (inl (q, e)) | inr q ↦ inr (inr q) ],
              (λ q. h'.2, h'.1),
              ground (arith, l, h'.2),
            ))
      | inr l ↦
          (let it : later_of (some b) i ≡ b = rw l refl in
            let h' : IsLatestFrom name (some b) is (some c) =
              subst (λ d. IsLatestFrom name (some d) is (some c)) it h in
            (
              elim h'.0 [ inl q ↦ inl q | inr q ↦ inr (inr q) ],
              (λ q. ground (arith, l, h'.2), h'.1),
              h'.2,
            ))
    ]

find-current_from :
    (name : List ℕ) (is : List CheckpointFileInfo) (m : List (List ℕ × CheckpointFileInfo))
    → IsLatestFrom name (find name m) is (find name (current_from is m))
unfolding current_from IsLatestFrom
find-current_from name [] m = start (find name m)
  where
    start : (r : Option CheckpointFileInfo) → IsLatestFrom name r [] r
    start none = tt
    start (some c) = (inl refl, tt, omega arith)
find-current_from name (i ∷ is) m =
    let later = find-current_from name is (add_checkpoint i m) in
    let r = find name (current_from is (add_checkpoint i m)) in
    elim (Bool-cases (same_name name i.container_name)) [
      | inl e ↦
          (let added : find name (add_checkpoint i m) ≡ some (later_of (find name m) i) =
              find-add_checkpoint name i m ∙ rw e refl in
            IsLatestFrom-same name (find name m) i is r e
              (subst (λ b. IsLatestFrom name b is r) added later))
      | inr e ↦
          (let kept : find name (add_checkpoint i m) ≡ find name m =
              find-add_checkpoint name i m ∙ rw e refl in
            IsLatestFrom-other name (find name m) i is r e
              (subst (λ b. IsLatestFrom name b is r) kept later))
    ]

-- For any directory, and whatever the reading of an invalid metafile leaves, get_current_checkpoints has a checkpoint for the containers that get_checkpoints gives one of,
-- and for no other; it is one of those, and none of that container started later.
pub get_current_checkpoints-IsLatest :
    (extension : List ℕ → List ℕ) (partly_read : List ℕ → CheckpointFileInfo → CheckpointFileInfo)
    (dir : Option (List DirectoryEntry)) (name : List ℕ)
    → IsLatest name
        (get_checkpoints extension partly_read dir)
        (find name (get_current_checkpoints extension partly_read dir))
unfolding get_current_checkpoints IsLatestFrom find
get_current_checkpoints-IsLatest extension partly_read dir name =
    find-current_from name (get_checkpoints extension partly_read dir) []

-- The least start and the greatest end so far bound the checkpoints.
abbrev pub Within : ℕ × ℕ → List (List ℕ × CheckpointFileInfo) → Type 0
Within r [] = Unit {0}
Within r ((k, c) ∷ m) = (r.0 ≤ c.lsn_at_start) × (c.lsn_at_end ≤ r.1) × Within r m

range_from-Within :
    (lo hi : ℕ) (m : List (List ℕ × CheckpointFileInfo))
    → ((range_from (lo, hi) m).0 ≤ lo)
      × (hi ≤ (range_from (lo, hi) m).1)
      × Within (range_from (lo, hi) m) m
unfolding range_from
range_from-Within lo hi [] = (omega arith, omega arith, tt)
range_from-Within lo hi ((k, c) ∷ m) =
    let (low, high, all) =
      range_from-Within (if ltb c.lsn_at_start lo then c.lsn_at_start else lo)
        (if ltb hi c.lsn_at_end then c.lsn_at_end else hi) m in
    (ground (arith, low), ground (arith, high), (ground (arith, low), ground (arith, high), all))

-- The range starts no later than any of the checkpoints and ends no earlier.
pub get_checkpoint_lsn_range-Within :
    (m : List (List ℕ × CheckpointFileInfo)) → Within (get_checkpoint_lsn_range m) m
unfolding get_checkpoint_lsn_range
get_checkpoint_lsn_range-Within [] = tt
get_checkpoint_lsn_range-Within (c ∷ m) = (range_from-Within (2 ^ 63 - 1) 0 (c ∷ m)).2
