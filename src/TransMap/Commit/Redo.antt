-- ===== src/TransMap/Commit/Redo.antt =====
-- map_ops.h: committing a transaction's operations and recovering what they logged agree, where
-- the transaction has one operation on each key.
use stldb.Prelude.{
  ℕ, ◌≡◌, ◌≢◌, refl, subst, sym, ◌∙◌, Option, none, some, List, [], ◌∷◌, ◌++◌, if◌then◌else◌, ok,
  ◌>>=◌, Bool-cases, Result-cases, inl, inr,
}
use stldb.TransMap.Rows.{Comparator, find, same_self}
use stldb.TransMap.Entry.{TransEntry}
use stldb.TransMap.Op.{
  TransMap, MapOp, op_key, LogRecord, commit_all, add_to_log, recover_op, recover_all,
}
use stldb.TransMap.Commit.Pending.{Pending, Redone, Pending-Redone}

module _ {K V : Type 0} ⦃c : Comparator K⦄ where
  -- The first operation on a key.
  abbrev pub op_at : K → List (MapOp K V) → Option (MapOp K V)
  op_at k [] = none
  op_at k (op ∷ ops) = if c.same (op_key op) k then some op else op_at k ops

  -- No two operations are on one key.
  abbrev pub Distinct : List (MapOp K V) → Type 0
  Distinct [] = Unit {0}
  Distinct (op ∷ ops) = (op_at (op_key op) ops ≡ none) × Distinct ops

  -- An entry with an operation is pending against the other map, and the others are equal.
  abbrev pub EntryAgrees :
      ℕ → Option (MapOp K V) → Option (TransEntry V) → Option (TransEntry V) → Type 0
  EntryAgrees t none before now = before ≡ now
  EntryAgrees t (some op) before now = Pending t op before now

  abbrev pub Agrees : ℕ → List (MapOp K V) → TransMap K V → TransMap K V → Type 0
  Agrees t ops b a = (j : K) → EntryAgrees t (op_at j ops) (find j b.rows) (find j a.rows)

  recover_all-append :
      (lsn : ℕ) (rs ss : List (LogRecord K V)) (m : TransMap K V)
      → recover_all lsn (rs ++ ss) m ≡ (recover_all lsn rs m >>= λ n. recover_all lsn ss n)
  unfolding recover_all
  recover_all-append lsn [] ss m = refl
  recover_all-append lsn (r ∷ rs) ss m = elim (Result-cases (recover_op lsn r m)) [
    | inl (n, e) ↦ rw e (recover_all-append lsn rs ss n)
    | inr (z, e) ↦ rw e
  ]

  -- The commit succeeds, so do the log and its recovery, and they give the same entries.
  pub record CommitsAsRedone (lsn : ℕ) (ops : List (MapOp K V)) (x a b a1 b1 : TransMap K V)
      (rs : List (LogRecord K V)) : Type 0 where
    pub commits : commit_all lsn ops a ≡ ok a1
    pub logs : add_to_log ops x ≡ ok rs
    pub recovers : recover_all lsn rs b ≡ ok b1
    pub freed : a1.freed ≡ b1.freed
    pub entries : (j : K) → find j a1.rows ≡ find j b1.rows

  pub Agrees-CommitsAsRedone :
      (t lsn : ℕ) (ops : List (MapOp K V)) (x a b : TransMap K V)
      → Distinct ops
      → Agrees t ops b a
      → ((j : K) → op_at j ops ≢ none → find j x.rows ≡ find j a.rows)
      → a.freed ≡ b.freed
      → (a1 : TransMap K V) × (b1 : TransMap K V) × (rs : List (LogRecord K V)) × CommitsAsRedone
          lsn ops x a b a1 b1 rs
  unfolding commit_all add_to_log recover_all
  Agrees-CommitsAsRedone t lsn [] x a b d h log f = (
    a,
    b,
    [],
    record { commits = refl; logs = refl; recovers = refl; freed = f; entries = λ j. sym (h j) },
  )
  Agrees-CommitsAsRedone t lsn (op ∷ ops) x a b d h log f =
      let (a1, b1, rs, r) = Pending-Redone t lsn x a b f op head (log (op_key op) first) in
      let (a2, b2, ss, q) =
        Agrees-CommitsAsRedone t lsn ops x a1 b1 d.1 (tail_agrees a1 b1 rs r) (tail_log a1 b1 rs r)
          r.freed in
      (
        a2,
        b2,
        rs ++ ss,
        record {
          commits = rw r.commits q.commits;
          logs = rw (r.logs, q.logs);
          recovers = rw (recover_all-append lsn rs ss b, r.recovers) q.recovers;
          freed = q.freed;
          entries = q.entries;
        },
      )
    where
      head : Pending t op (find (op_key op) b.rows) (find (op_key op) a.rows)
      head = rw (same_self (op_key op)) at (h (op_key op))

      first : op_at (op_key op) (op ∷ ops) ≢ none
      first e = cc (rw (same_self (op_key op)) at e)

      tail_agrees :
          (a1 b1 : TransMap K V) (rs : List (LogRecord K V))
          → Redone lsn op x a b a1 b1 rs
          → Agrees t ops b1 a1
      tail_agrees a1 b1 rs r j = elim (Bool-cases (c.same (op_key op) j)) [
        | inl hit ↦
            subst (λ z. EntryAgrees t (op_at z ops) (find z b1.rows) (find z a1.rows))
              ((c.same_iff (op_key op) j).0 hit) (rw d.0 (sym r.at_key))
        | inr miss ↦ rw (r.others j miss, r.others_redone j miss) (rw miss at (h j))
      ]

      tail_log :
          (a1 b1 : TransMap K V) (rs : List (LogRecord K V))
          → Redone lsn op x a b a1 b1 rs
          → (j : K) → op_at j ops ≢ none
          → find j x.rows ≡ find j a1.rows
      tail_log a1 b1 rs r j n = elim (Bool-cases (c.same (op_key op) j)) [
        | inl hit ↦
            absurd (n (subst (λ z. op_at z ops ≡ none) ((c.same_iff (op_key op) j).0 hit) d.0))
        | inr miss ↦ log j (λ e. n (rw miss at e)) ∙ sym (r.others j miss)
      ]
