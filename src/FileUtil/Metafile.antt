-- ===== src/FileUtil/Metafile.antt =====
-- src/db_file_util.cpp, get_current_metafile: the metafile of a container with the latest checkpoint.
use mathlib.Core.Bool.{true≢false}
use mathlib.Core.Option.{some-injective, none-ne-some}
use stldb.Prelude.{
  ℕ, ◌≤◌, ◌<◌, ◌≡◌, refl, sym, ◌∙◌, subst, Bool, true, false, ◌&&◌, Option, none, some, List, [],
  ◌∷◌, arith, ◌==◌, ltb, if◌then◌else◌, ltb→lt, ltb-false→le, inl, inr, ◌⊎◌, if-elim,
}
use stldb.Checkpoint.File.{CheckpointFileInfo}
use stldb.FileUtil.Files.{DirectoryEntry, is_meta}

-- The name starts with that of the container and a dot.
unfoldable pub is_dotted : List ℕ → List ℕ → Bool
is_dotted [] [] = false
is_dotted [] (d ∷ ds) = d == 46
is_dotted (c ∷ cs) [] = false
is_dotted (c ∷ cs) (d ∷ ds) = c == d && is_dotted cs ds

module _ (extension : List ℕ → List ℕ) (container_name : List ℕ) where
  abbrev pub is_metafile : DirectoryEntry → Bool
  is_metafile e = is_meta extension e && is_dotted container_name e.filename

  -- The loop; none where the contents of a metafile are invalid, which get_checkpoint_file_info throws for.
  unfoldable metafile_from : Option (List ℕ) → ℕ → List DirectoryEntry → Option (Option (List ℕ))
  unfolding is_dotted
  metafile_from result startlsn [] = some result
  metafile_from result startlsn (e ∷ es) =
      let later = metafile_from result startlsn es in
      if is_metafile e
      then elim e.metafile [
        | none ↦ none
        | some i ↦
            let taken = metafile_from (some e.filename) i.lsn_at_start es in
            if ltb startlsn i.lsn_at_start then taken else later
      ]
      else later

  -- get_current_metafile, of a directory or none: the name of the file, or the empty path
  unfoldable pub get_current_metafile : Option (List DirectoryEntry) → Option (Option (List ℕ))
  unfolding metafile_from
  get_current_metafile none = some none
  get_current_metafile (some es) = metafile_from none 0 es

  -- No metafile of the container has a checkpoint that started after this LSN.
  abbrev pub NoneAfter : ℕ → List DirectoryEntry → Type 0
  NoneAfter m [] = Unit {0}
  NoneAfter m (e ∷ es) =
      (is_metafile e ≡ true → (i : CheckpointFileInfo) → e.metafile ≡ some i → i.lsn_at_start ≤ m)
      × NoneAfter m es

  -- A metafile of the container has the name, and this LSN.
  abbrev pub HasMetafile : List ℕ → ℕ → List DirectoryEntry → Type 0
  HasMetafile name m [] = ⊥
  HasMetafile name m (e ∷ es) =
      ((is_metafile e ≡ true)
        × (e.filename ≡ name)
        × (i : CheckpointFileInfo) × (e.metafile ≡ some i)
        × (i.lsn_at_start ≡ m))
      ⊎ HasMetafile name m es

  -- The contents of a metafile of the container are invalid.
  abbrev pub HasInvalid : List DirectoryEntry → Type 0
  HasInvalid [] = ⊥
  HasInvalid (e ∷ es) = ((is_metafile e ≡ true) × (e.metafile ≡ none)) ⊎ HasInvalid es

  -- What is found of the files after the first ones: the latest, or what was found so far, which started at the LSN.
  IsCurrent : Option (List ℕ) → ℕ → List DirectoryEntry → Option (Option (List ℕ)) → Type 0
  IsCurrent result startlsn es none = HasInvalid es
  IsCurrent result startlsn es (some r) =
      (m : ℕ) × (startlsn ≤ m)
      × NoneAfter m es
      × (((r ≡ result) × (m ≡ startlsn))
          ⊎ ((name : List ℕ) × (r ≡ some name) × HasMetafile name m es × (startlsn < m)))

  -- A file that is no metafile of the container, or one of an earlier checkpoint.
  IsCurrent-earlier :
      (result : Option (List ℕ)) (startlsn : ℕ) (e : DirectoryEntry) (es : List DirectoryEntry)
      (r : Option (Option (List ℕ)))
      → (is_metafile e ≡ true
          → (i : CheckpointFileInfo) → e.metafile ≡ some i
          → i.lsn_at_start ≤ startlsn)
      → IsCurrent result startlsn es r
      → IsCurrent result startlsn (e ∷ es) r
  unfolding IsCurrent
  IsCurrent-earlier result startlsn e es none l h = inr h
  IsCurrent-earlier result startlsn e es (some r) l (m, le, after, found) = (
    m,
    le,
    (λ q i s. omega (arith, l q i s), after),
    elim found [ inl same ↦ inl same | inr (name, is, has, more) ↦ inr (name, is, inr has, more) ],
  )

  -- A metafile of the container with a later checkpoint.
  IsCurrent-later :
      (result : Option (List ℕ)) (startlsn : ℕ) (e : DirectoryEntry) (es : List DirectoryEntry)
      (i : CheckpointFileInfo) (r : Option (Option (List ℕ)))
      → is_metafile e ≡ true
      → e.metafile ≡ some i
      → startlsn < i.lsn_at_start
      → IsCurrent (some e.filename) i.lsn_at_start es r
      → IsCurrent result startlsn (e ∷ es) r
  unfolding IsCurrent
  IsCurrent-later result startlsn e es i none t s l h = inr h
  IsCurrent-later result startlsn e es i (some r) t s l (m, le, after, found) = (
    m,
    omega arith,
    (
      λ q j s'.
          subst (λ (z : CheckpointFileInfo). z.lsn_at_start ≤ m) (some-injective i j (sym s ∙ s'))
            le,
      after,
    ),
    elim found [
      | inl same ↦
          inr (e.filename, same.0, inl (t, refl, i, s, sym same.1), omega (arith, l, same.1))
      | inr (name, is, has, more) ↦ inr (name, is, inr has, omega (arith, l, more))
    ],
  )

  metafile_from-IsCurrent :
      (result : Option (List ℕ)) (startlsn : ℕ) (es : List DirectoryEntry)
      → IsCurrent result startlsn es (metafile_from result startlsn es)
  unfolding metafile_from IsCurrent
  metafile_from-IsCurrent result startlsn [] = (startlsn, omega arith, tt, inl (refl, refl))
  metafile_from-IsCurrent result startlsn (e ∷ es) =
      let later = metafile_from-IsCurrent result startlsn es in
      if-elim (IsCurrent result startlsn (e ∷ es)) (is_metafile e) (read e.metafile)
        (metafile_from result startlsn es)
        (λ t.
          at_metafile (λ i. metafile_from-IsCurrent (some e.filename) i.lsn_at_start es) later t
            e.metafile refl)
        (λ t.
          IsCurrent-earlier result startlsn e es (metafile_from result startlsn es)
            (λ q. absurd (true≢false (sym q ∙ t))) later)
    where
      choose : CheckpointFileInfo → Option (Option (List ℕ))
      choose i =
          if ltb startlsn i.lsn_at_start
          then metafile_from (some e.filename) i.lsn_at_start es
          else metafile_from result startlsn es

      read : Option CheckpointFileInfo → Option (Option (List ℕ))
      read none = none
      read (some i) = choose i

      at_metafile :
          ((i : CheckpointFileInfo)
            → IsCurrent
                (some e.filename)
                i.lsn_at_start
                es
                (metafile_from (some e.filename) i.lsn_at_start es))
          → IsCurrent result startlsn es (metafile_from result startlsn es)
          → is_metafile e ≡ true
          → (mf : Option CheckpointFileInfo) → e.metafile ≡ mf
          → IsCurrent result startlsn (e ∷ es) (read mf)
      at_metafile taken later t none q = inl (t, q)
      at_metafile taken later t (some i) q =
          if-elim (IsCurrent result startlsn (e ∷ es)) (ltb startlsn i.lsn_at_start)
            (metafile_from (some e.filename) i.lsn_at_start es) (metafile_from result startlsn es)
            (λ l.
              IsCurrent-later result startlsn e es i
                (metafile_from (some e.filename) i.lsn_at_start es) t q
                (ltb→lt startlsn i.lsn_at_start l) (taken i))
            (λ l.
              IsCurrent-earlier result startlsn e es (metafile_from result startlsn es)
                (λ u j s.
                  subst (λ (z : CheckpointFileInfo). z.lsn_at_start ≤ startlsn)
                    (some-injective i j (sym q ∙ s)) (ltb-false→le startlsn i.lsn_at_start l))
                later)

  -- The name found is that of a metafile of the container, of a checkpoint that started at an LSN above 0; no
  -- metafile of the container has a later one, and where no name is found, none has one that started above 0. The call
  -- throws only where the contents of such a metafile are invalid.
  abbrev pub IsNewest : List DirectoryEntry → Option (Option (List ℕ)) → Type 0
  IsNewest es none = HasInvalid es
  IsNewest es (some none) = NoneAfter 0 es
  IsNewest es (some (some name)) = (m : ℕ) × (0 < m) × HasMetafile name m es × NoneAfter m es

  IsCurrent-IsNewest :
      (es : List DirectoryEntry) (r : Option (Option (List ℕ)))
      → IsCurrent none 0 es r
      → IsNewest es r
  unfolding IsCurrent
  IsCurrent-IsNewest es none h = h
  IsCurrent-IsNewest es (some none) (m, le, after, inl same) =
      subst (λ z. NoneAfter z es) same.1 after
  IsCurrent-IsNewest es (some none) (m, le, after, inr (name, is, has, more)) =
      absurd (none-ne-some name is)
  IsCurrent-IsNewest es (some (some n)) (m, le, after, inl same) =
      absurd (none-ne-some n (sym same.0))
  IsCurrent-IsNewest es (some (some n)) (m, le, after, inr (name, is, has, more)) =
      (m, more, subst (λ z. HasMetafile z m es) (sym (some-injective n name is)) has, after)

  -- Of any directory, what get_current_metafile returns is the metafile of the container with the latest
  -- checkpoint, among those that started at an LSN above 0.
  pub get_current_metafile-IsNewest :
      (es : List DirectoryEntry) → IsNewest es (get_current_metafile (some es))
  unfolding get_current_metafile
  get_current_metafile-IsNewest es =
      IsCurrent-IsNewest es (metafile_from none 0 es) (metafile_from-IsCurrent none 0 es)
