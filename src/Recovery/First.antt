-- ===== src/Recovery/First.antt =====
-- stldb/recovery_manager.h: which log files recovery reads.
use stldb.Prelude.{
  ℕ, ◌≤◌, ◌<◌, ◌≡◌, refl, ap, ◌∙◌, Bool, ◌||◌, List, [], ◌∷◌, ◌++◌, arith, ltb, leb, Bool-cases,
  inl, inr, if◌then◌else◌,
}
use stldb.Recovery.{from_first_needed}

-- The numbers of the log files rise, from above this one.
abbrev pub Ascending : ℕ → List (ℕ × List ℕ) → Type 0
Ascending n [] = Unit {0}
Ascending n (f ∷ files) = (n < f.0) × Ascending f.0 files

-- Every number is at most this one.
abbrev pub AllUpTo : ℕ → List (ℕ × List ℕ) → Type 0
AllUpTo n [] = Unit {0}
AllUpTo n (f ∷ files) = (f.0 ≤ n) × AllUpTo n files

-- Of log files in the order of their numbers, the first of which is no later than the LSN to start
-- from, recovery reads a part to the end: its first file is no later than that LSN, every file
-- after it is later, and no file before it is later than its first.
pub from_first_needed-Ascending :
    (starting_lsn : ℕ) (f : ℕ × List ℕ) (files : List (ℕ × List ℕ))
    → Ascending f.0 files
    → f.0 ≤ starting_lsn
    → (skipped : List (ℕ × List ℕ)) × (g : ℕ × List ℕ) × (rest : List (ℕ × List ℕ))
      × (from_first_needed starting_lsn (f ∷ files) ≡ g ∷ rest)
      × (f ∷ files ≡ skipped ++ g ∷ rest)
      × (g.0 ≤ starting_lsn)
      × Ascending starting_lsn rest
      × AllUpTo g.0 skipped
      × (f.0 ≤ g.0)
unfolding from_first_needed
from_first_needed-Ascending starting_lsn f [] up h = ([], f, [], refl, refl, h, tt, tt, omega arith)
from_first_needed-Ascending starting_lsn f (g ∷ files) up h =
    elim (Bool-cases (leb starting_lsn f.0 || ltb starting_lsn g.0)) [
      | inl here ↦ (
        [],
        f,
        g ∷ files,
        ap chosen here,
        refl,
        h,
        (ground (arith, here, h, up.0), up.1),
        tt,
        omega arith,
      )
      | inr later ↦
          (let (skipped, k, rest, e, parts, low, above, below, first) =
              from_first_needed-Ascending starting_lsn g files up.1 (ground (arith, later)) in
            (
              f ∷ skipped,
              k,
              rest,
              ap chosen later ∙ e,
              ap (λ xs. f ∷ xs) parts,
              low,
              above,
              (omega (arith, up.0, first), below),
              omega (arith, up.0, first),
            ))
    ]
  where
    chosen : Bool → List (ℕ × List ℕ)
    chosen c = if c then f ∷ g ∷ files else from_first_needed starting_lsn (g ∷ files)
