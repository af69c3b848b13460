-- ===== src/TransMap/Iterator/Backward.antt =====
-- stldb/containers/trans_assoc_iterator.h: skip_backward, backward and operator--. A position is the
-- entries before it, the nearest one first, and the entries from it on.
use stldb.Prelude.{
  ℕ, ◌≡◌, refl, true, false, [], ◌∷◌, ◌++◌, ◌∙◌, if◌then◌else◌, Result, ok, throw, ◌>>=◌, undefined,
}
use stldb.TransMap.Entry.{TransEntry}
use stldb.TransMap.Iterator.{Iter, hidden, skip_forward, forward}

abbrev pub Position : Type 0 → Type 0 → Type 0
Position K V = Iter K V × Iter K V

module _ {K V : Type 0} where
  -- It reads the operation of the entry at the position also where that is end().
  unfoldable pub skip_backward : ℕ → Iter K V → Iter K V → Result (Position K V)
  skip_backward locker [] rest = ok ([], rest)
  skip_backward locker (b ∷ before) [] = throw undefined
  skip_backward locker (b ∷ before) ((k, e) ∷ rest) =
      let further = skip_backward locker before (b ∷ (k, e) ∷ rest) in
      if hidden locker e then further else ok (b ∷ before, (k, e) ∷ rest)

  -- -- _current_pos
  abbrev pub retreat : Position K V → Result (Position K V)
  retreat ([], rest) = throw undefined
  retreat (b ∷ before, rest) = ok (before, b ∷ rest)

  -- operator--
  unfoldable pub backward : ℕ → Iter K V → Iter K V → Result (Position K V)
  unfolding skip_backward
  backward locker before rest =
      skip_backward locker before rest >>= retreat >>= λ p. skip_backward locker p.0 p.1

  -- Entries that the iterator passes over.
  abbrev pub AreHidden : ℕ → Iter K V → Type 0
  AreHidden locker [] = Unit {0}
  AreHidden locker ((k, e) ∷ hs) = (hidden locker e ≡ true) × AreHidden locker hs

  -- The entries hs, the nearest one to rest first, and rest.
  abbrev pub with_passed : Iter K V → Iter K V → Iter K V
  with_passed [] rest = rest
  with_passed (h ∷ hs) rest = with_passed hs (h ∷ rest)

  skip_forward-with_passed :
      (locker : ℕ) (hs rest : Iter K V)
      → AreHidden locker hs
      → skip_forward locker (with_passed hs rest) ≡ skip_forward locker rest
  unfolding skip_forward
  skip_forward-with_passed locker [] rest a = refl
  skip_forward-with_passed locker ((k, e) ∷ hs) rest (h, a) =
      skip_forward-with_passed locker hs ((k, e) ∷ rest) a ∙ rw (h) refl

  stays :
      (locker : ℕ) (before rest : Iter K V) (k : K) (e : TransEntry V)
      → hidden locker e ≡ false
      → skip_backward locker before ((k, e) ∷ rest) ≡ ok (before, (k, e) ∷ rest)
  unfolding skip_backward
  stays locker [] rest k e s = refl
  stays locker (b ∷ before) rest k e s = rw (s) refl

  skips :
      (locker : ℕ) (hs before rest : Iter K V) (k j : K) (e h : TransEntry V)
      → hidden locker e ≡ false
      → hidden locker h ≡ true
      → AreHidden locker hs
      → skip_backward locker (hs ++ (k, e) ∷ before) ((j, h) ∷ rest)
        ≡ ok (before, (k, e) ∷ with_passed hs ((j, h) ∷ rest))
  unfolding skip_backward
  skips locker [] before rest k j e h s q a = rw (q) (stays locker before ((j, h) ∷ rest) k e s)
  skips locker ((i, g) ∷ hs) before rest k j e h s q (r, a) =
      rw (q) (skips locker hs before ((j, h) ∷ rest) k i e g s r a)

  -- Between two entries that the reader may see, with only entries between them that it may not,
  -- operator++ goes from the first to the second and operator-- from the second to the first.
  pub backward-forward :
      (locker : ℕ) (hs before rest : Iter K V) (k j : K) (e d : TransEntry V)
      → hidden locker e ≡ false
      → hidden locker d ≡ false
      → AreHidden locker hs
      → (forward locker ((k, e) ∷ with_passed hs ((j, d) ∷ rest)) ≡ (j, d) ∷ rest)
        × (backward locker (hs ++ (k, e) ∷ before) ((j, d) ∷ rest)
            ≡ ok (before, (k, e) ∷ with_passed hs ((j, d) ∷ rest)))
  unfolding forward backward skip_forward
  backward-forward locker hs before rest k j e d s t a = (
    rw (s) (skip_forward-with_passed locker hs ((j, d) ∷ rest) a ∙ rw (t) refl),
    rw (stays locker (hs ++ (k, e) ∷ before) rest j d t) (retreats hs a),
  )
    where
      retreats :
          (hs : Iter K V)
          → AreHidden locker hs
          → (retreat (hs ++ (k, e) ∷ before, (j, d) ∷ rest) >>= λ p. skip_backward locker p.0 p.1)
            ≡ ok (before, (k, e) ∷ with_passed hs ((j, d) ∷ rest))
      retreats [] a = stays locker before ((j, d) ∷ rest) k e s
      retreats ((i, h) ∷ hs) (q, a) = skips locker hs before ((j, d) ∷ rest) k i e h s q a
