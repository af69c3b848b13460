-- ===== src/Database/Covered.antt =====
-- stldb/Database.tcc: what load_containers leaves for each container.
use mathlib.Core.Bool.{true≢false}
use stldb.Prelude.{
  ℕ, ◌≤◌, ◌≡◌, ◌⊎◌, inl, inr, refl, sym, ap, ◌∙◌, true, false, Option, none, some, List, [], ◌∷◌,
  if◌then◌else◌, if-elim, arith, Bool-cases,
}
use stldb.Checkpoint.File.{CheckpointFileInfo}
use stldb.FileUtil.Names.{same_name}
use stldb.FileUtil.Files.{find}
use stldb.FileUtil.Current.{same_name_refl, same_name→eq}
use stldb.Database.Info.{put_lsn, lsn_of}
use stldb.Database.Load.{Loaded, later_end, count_checkpoint, count_missing}

-- The LSN that a container starts from: that of its current checkpoint, or 0.
abbrev pub start_of : Option CheckpointFileInfo → ℕ
start_of none = 0
start_of (some c) = c.lsn_at_start

-- The end that recovery is to reach is no earlier than the LSN.
abbrev pub Reaches : ℕ → Option ℕ → Type 0
Reaches lsn none = ⊥
Reaches lsn (some end) = lsn ≤ end

-- The end of the checkpoint, if there is one, is reached.
abbrev pub ReachesEnd : Option CheckpointFileInfo → Option ℕ → Type 0
ReachesEnd none end = Unit {0}
ReachesEnd (some c) end = Reaches c.lsn_at_end end

-- Recovery starts no later than the container's checkpoint and is to reach its end, and the history
-- map and container_lsn have its start.
pub record IsCovered {State : Type 0} (current : List (List ℕ × CheckpointFileInfo))
    (l : Loaded State) (name : List ℕ) : Type 0 where
  pub start : l.recovery_start_lsn ≤ start_of (find name current)
  pub end : ReachesEnd (find name current) l.recovery_end_lsn
  pub history : lsn_of name l.ckpt_history_map ≡ start_of (find name current)
  lsn : lsn_of name l.container_lsn ≡ start_of (find name current)

abbrev pub AreCovered :
    {State : Type 0} → List (List ℕ × CheckpointFileInfo) → Loaded State → List (List ℕ) → Type 0
AreCovered current l [] = Unit {0}
AreCovered current l (name ∷ names) = IsCovered current l name × AreCovered current l names

pub lsn_of-put_lsn :
    (name other : List ℕ) (lsn : ℕ) (m : List (List ℕ × ℕ))
    → lsn_of name (put_lsn other lsn m) ≡ (if same_name name other then lsn else lsn_of name m)
unfolding lsn_of put_lsn
lsn_of-put_lsn name other lsn [] = refl
lsn_of-put_lsn name other lsn ((k, l) ∷ m) = elim (Bool-cases (same_name other k)) [
  | inl e ↦ rw (e) (
      rw (same_name→eq other k e)
        (elim (Bool-cases (same_name name k)) [ inl r ↦ rw (r) refl | inr r ↦ rw (r) refl ]))
  | inr e ↦ elim (Bool-cases (same_name name k)) [
    | inl r ↦ rw (e) (rw (r, apart e r) refl)
    | inr r ↦ rw (e) (rw (r) (lsn_of-put_lsn name other lsn m))
  ]
]
  where
    apart : same_name other k ≡ false → same_name name k ≡ true → same_name name other ≡ false
    apart e r = elim (Bool-cases (same_name name other)) [
      | inr q ↦ q
      | inl q ↦
          let n : other ≡ k = sym (same_name→eq name other q) ∙ same_name→eq name k r in
          absurd (true≢false (sym (same_name_refl k) ∙ ap (λ j. same_name j k) (sym n) ∙ e))
    ]

-- A start that is put for a container, and what was put for others before.
put_lsn-start :
    (current : List (List ℕ × CheckpointFileInfo)) (name other : List ℕ) (lsn : ℕ)
    (m : List (List ℕ × ℕ))
    → start_of (find other current) ≡ lsn
    → (lsn_of name m ≡ start_of (find name current)) ⊎ (name ≡ other)
    → lsn_of name (put_lsn other lsn m) ≡ start_of (find name current)
put_lsn-start current name other lsn m v h =
    lsn_of-put_lsn name other lsn m
    ∙ if-elim (λ (x : ℕ). x ≡ start_of (find name current)) (same_name name other) lsn
        (lsn_of name m)
        (λ e. sym (ap (λ (n : List ℕ). start_of (find n current)) (same_name→eq name other e) ∙ v))
        λ e. elim h [
          | inl k ↦ k
          | inr k ↦ absurd (
              true≢false
                (sym (same_name_refl other) ∙ ap (λ (n : List ℕ). same_name n other) (sym k) ∙ e))
        ]

Reaches-later :
    (lsn new : ℕ) (end : Option ℕ) → Reaches lsn end → Reaches lsn (some (later_end new end))
Reaches-later lsn new none h = absurd h
Reaches-later lsn new (some e) h = ground (arith, h)

ReachesEnd-later :
    (o : Option CheckpointFileInfo) (new : ℕ) (end : Option ℕ)
    → ReachesEnd o end
    → ReachesEnd o (some (later_end new end))
ReachesEnd-later none new end h = tt
ReachesEnd-later (some c) new end h = Reaches-later c.lsn_at_end new end h

later_end-Reaches : (new : ℕ) (end : Option ℕ) → Reaches new (some (later_end new end))
later_end-Reaches new none = omega arith
later_end-Reaches new (some e) = ground arith

module _ {State : Type 0} (current : List (List ℕ × CheckpointFileInfo)) where
  -- Counting a container covers it, and keeps another one covered.
  pub count_checkpoint-IsCovered :
      (name other : List ℕ) (c : CheckpointFileInfo) (s : State) (l : Loaded State)
      → find other current ≡ some c
      → IsCovered current l name ⊎ (name ≡ other)
      → IsCovered current (count_checkpoint other c s l) name
  unfolding count_checkpoint
  count_checkpoint-IsCovered name other c s l e h =
      let v = ap start_of e in
      record {
        start = elim h [
          | inl k ↦ (let less = k.start in ground (arith, less))
          | inr k ↦ rw (k, e) (ground arith)
        ];
        end = elim h [
          | inl k ↦ ReachesEnd-later (find name current) c.lsn_at_end l.recovery_end_lsn k.end
          | inr k ↦ rw (k, e) (later_end-Reaches c.lsn_at_end l.recovery_end_lsn)
        ];
        history =
            put_lsn-start current name other c.lsn_at_start l.ckpt_history_map v
              (elim h [ inl k ↦ inl k.history | inr k ↦ inr k ]);
        lsn =
            put_lsn-start current name other c.lsn_at_start l.container_lsn v
              (elim h [ inl k ↦ inl k.lsn | inr k ↦ inr k ]);
      }

  pub count_missing-IsCovered :
      (name other : List ℕ) (l : Loaded State)
      → find other current ≡ none
      → IsCovered current l name ⊎ (name ≡ other)
      → IsCovered current (count_missing other l) name
  unfolding count_missing
  count_missing-IsCovered name other l e h =
      let v = ap start_of e in
      record {
        start = omega arith;
        end = elim h [ inl k ↦ k.end | inr k ↦ rw (k, e) tt ];
        history =
            put_lsn-start current name other 0 l.ckpt_history_map v
              (elim h [ inl k ↦ inl k.history | inr k ↦ inr k ]);
        lsn =
            put_lsn-start current name other 0 l.container_lsn v
              (elim h [ inl k ↦ inl k.lsn | inr k ↦ inr k ]);
      }
