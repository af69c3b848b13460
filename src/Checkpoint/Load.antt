-- ===== src/Checkpoint/Load.antt =====
-- stldb/checkpoint.h and the loop of load_checkpoint: what is read of a checkpoint file.
use stldb.Prelude.{
  ℕ, zero, suc, ◌+◌, ◌<◌, ◌≡◌, refl, sym, ap, ◌∙◌, Bool, true, false, some, List, [], ◌∷◌, ◌++◌,
  arith, ◌==◌, leb, length, Result, ok, ◌>>=◌, map_ok, if-elim, ==_refl, eq→==, inl, inr,
}
use stldb.Checkpoint.Iterator.{
  lower_bound, skip_free, CheckpointIfstream, CheckpointIterator, forward, seek, begin, end,
  load_from, load_checkpoint,
}
use stldb.Checkpoint.Skip.{
  Piece, free, entry, free_regions, entries, entries_before_last, IsLaid, FindsIn, misses,
  skip_free-miss, laid-le, skip_free-stops,
}

lt→not== : (a b : ℕ) → a < b → (a == b) ≡ false
lt→not== a b l = ground arith

module _ {T : Type 0} (f : CheckpointIfstream T) where
  lower_bound-past :
      (offset : ℕ) (ps : List (Piece T))
      → IsLaid f offset ps
      → misses f f.file_length (lower_bound f.file_length (free_regions offset ps)) ≡ true
  unfolding free_regions lower_bound
  lower_bound-past offset [] h = refl
  lower_bound-past offset (free s ∷ ps) h =
      if-elim (λ r. misses f f.file_length r ≡ true) (leb f.file_length offset) (some (offset, s))
        (lower_bound f.file_length (free_regions (offset + s) ps))
        (λ e. ground (arith, e, h.0, laid-le f (offset + s) ps h.1))
        (λ e. lower_bound-past (offset + s) ps h.1)
  lower_bound-past offset (entry s v ∷ ps) h = lower_bound-past (offset + s) ps h.2

  forward-at_end :
      (it : CheckpointIterator T)
      → skip_free f.file_length f.free_by_offset it.offset ≡ f.file_length
      → forward f it ≡ ok (record it { offset = f.file_length })
  unfolding forward
  forward-at_end it h = rw h (rw (==_refl f.file_length) refl)

  forward-at_entry :
      (it : CheckpointIterator T) (next s : ℕ) (v : T)
      → skip_free f.file_length f.free_by_offset it.offset ≡ next
      → next < f.file_length
      → f.read next ≡ ok (s, v)
      → forward f it ≡ ok (record { offset = next + s; current = v; current_loc = (next, s) })
  unfolding forward
  forward-at_entry it next s v h l e = rw h (rw (lt→not== next f.file_length l) (rw e refl))

  module _ (pieces : List (Piece T)) (laid : IsLaid f 0 pieces)
      (indexed : f.free_by_offset ≡ free_regions 0 pieces) where
    end_lem :
        end f ≡ ok (record { offset = f.file_length; current = f.blank; current_loc = (0, 0) })
    unfolding end seek
    end_lem =
        forward-at_end (record { offset = f.file_length; current = f.blank; current_loc = (0, 0) })
          (skip_free-miss f f.file_length f.file_length (
            ap (λ xs. misses f f.file_length (lower_bound f.file_length xs)) indexed
            ∙ lower_bound-past 0 pieces laid))

    -- The body of the loop, by its test.
    abbrev until_end : ℕ → CheckpointIterator T → Bool → Result (List (T × (ℕ × ℕ)))
    until_end n it true = ok []
    until_end n it false =
        map_ok (λ r. (it.current, it.current_loc) ∷ r) (forward f it >>= λ next. load_from f n next)

    load_from-at_end :
        (n : ℕ) (it : CheckpointIterator T)
        → it.offset ≡ f.file_length
        → load_from f (suc n) it ≡ ok []
    unfolding load_from
    load_from-at_end n it h =
        ap (λ e. e >>= λ last. until_end n it (it.offset == last.offset)) end_lem
        ∙ ap (until_end n it) (eq→== it.offset f.file_length h)

    load_from-at_entry :
        (n : ℕ) (it : CheckpointIterator T)
        → it.offset < f.file_length
        → load_from f (suc n) it
          ≡ map_ok
              (λ r. (it.current, it.current_loc) ∷ r)
              (forward f it >>= λ next. load_from f n next)
    unfolding load_from
    load_from-at_entry n it h =
        ap (λ e. e >>= λ last. until_end n it (it.offset == last.offset)) end_lem
        ∙ ap (until_end n it) (lt→not== it.offset f.file_length h)

    -- The loop from an entry, once the loop from the pieces after it is known.
    load_from-entry :
        (n next s : ℕ) (v : T) (left : List (Piece T))
        → IsLaid f next (entry s v ∷ left)
        → (forward f (record { offset = next + s; current = v; current_loc = (next, s) }) >>= λ it.
            load_from f n it)
          ≡ ok (entries_before_last (next + s) left)
        → load_from f (suc n) (record { offset = next + s; current = v; current_loc = (next, s) })
          ≡ ok (entries_before_last next (entry s v ∷ left))
    unfolding entries_before_last
    load_from-entry n next s v [] h e =
        load_from-at_end n (record { offset = next + s; current = v; current_loc = (next, s) }) h.2
    load_from-entry n next s v (p ∷ left) h e =
        load_from-at_entry n (record { offset = next + s; current = v; current_loc = (next, s) })
          (omega (arith, laid-le f (next + s) (p ∷ left) h.2))
        ∙ ap (map_ok (λ r. (v, (next, s)) ∷ r)) e

    load_from-entries :
        (n offset : ℕ) (ps : List (Piece T)) (it : CheckpointIterator T)
        → length ps < n
        → it.offset ≡ offset
        → IsLaid f offset ps
        → FindsIn f offset ps
        → (forward f it >>= λ next. load_from f n next) ≡ ok (entries_before_last offset ps)
    load_from-entries zero offset ps it l o h u = absurd (omega (arith, l))
    load_from-entries (suc n) offset ps it l o h u =
        elim (skip_free-stops f f.file_length offset ps (omega (arith, laid-le f offset ps h)) h
          u) [
            | inr r ↦
                (let skips = ap (skip_free f.file_length f.free_by_offset) o ∙ r.skips in
                  ap (λ x. x >>= load_from f (suc n)) (forward-at_end it skips)
                  ∙ load_from-at_end n (record it { offset = f.file_length }) refl
                  ∙ ap ok (sym r.rest))
            | inl r ↦
                (let skips = ap (skip_free f.file_length f.free_by_offset) o ∙ r.skips in
                  let inside : r.next < f.file_length =
                    omega (arith, r.laid.0, laid-le f (r.next + r.size) r.left r.laid.2) in
                  let later =
                    load_from-entries n (r.next + r.size) r.left
                      (record {
                        offset = r.next + r.size;
                        current = r.value;
                        current_loc = (r.next, r.size);
                      })
                      (omega (arith, r.shorter, l)) refl r.laid.2 r.finds in
                  ap (λ x. x >>= load_from f (suc n))
                    (forward-at_entry it r.next r.size r.value skips inside r.laid.1)
                  ∙ load_from-entry n r.next r.size r.value r.left r.laid later
                  ∙ ap ok (sym r.rest))
          ]

    -- load_checkpoint of a file that the pieces fill, with the map of its free regions, inserts its entries in
    -- the order of the file, each with its location, but not an entry that ends at the end of the file.
    pub load_checkpoint-entries_before_last : load_checkpoint f ≡ ok (entries_before_last 0 pieces)
    unfolding load_checkpoint begin seek
    load_checkpoint-entries_before_last =
        load_from-entries (suc f.file_length) 0 pieces
          (record { offset = 0; current = f.blank; current_loc = (0, 0) })
          (omega (arith, laid-le f 0 pieces laid)) refl laid (λ k l. ap (lower_bound k) indexed)

  entries_before_last-entries :
      (offset : ℕ) (ps : List (Piece T)) (s : ℕ)
      → entries_before_last offset (ps ++ free s ∷ []) ≡ entries offset ps
  unfolding entries_before_last entries
  entries_before_last-entries offset [] s = refl
  entries_before_last-entries offset (free t ∷ ps) s = entries_before_last-entries (offset + t) ps s
  entries_before_last-entries offset (entry t v ∷ []) s = refl
  entries_before_last-entries offset (entry t v ∷ p ∷ ps) s =
      ap (λ r. (v, (offset, t)) ∷ r) (entries_before_last-entries (offset + t) (p ∷ ps) s)

  -- load_checkpoint of a file that ends in a free region inserts every entry, with its location.
  pub load_checkpoint-entries :
      (ps : List (Piece T)) (s : ℕ)
      → IsLaid f 0 (ps ++ free s ∷ [])
      → f.free_by_offset ≡ free_regions 0 (ps ++ free s ∷ [])
      → load_checkpoint f ≡ ok (entries 0 ps)
  load_checkpoint-entries ps s laid indexed =
      load_checkpoint-entries_before_last (ps ++ free s ∷ []) laid indexed
      ∙ ap ok (entries_before_last-entries 0 ps s)
