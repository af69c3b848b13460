-- ===== src/Checkpoint/Session.antt =====
-- stldb/checkpoint.h and src/checkpoint.cpp: the calls between the opening of a checkpoint file and its
-- commit, in any order.
use mathlib.Core.Option
use mathlib.Core.Option.{some-injective}
use stldb.Prelude.{
  ℕ, ◌+◌, ◌≤◌, ◌<◌, ◌≡◌, refl, sym, ap, ◌∙◌, subst, Bool, true, false, some, List, [], ◌∷◌, arith,
  length, Result, ok, throw, ◌>>=◌, ok-injective,
}
use stldb.Checkpoint.Regions.{within, is_free}
use stldb.Checkpoint.File.{CheckpointOfstream, allocate, add_free_region, add_free_regions, clear}
use stldb.Checkpoint.Extend.{IsValid}
use stldb.Checkpoint.Allocate.{IsAllocated, allocate-IsAllocated}
use stldb.Checkpoint.Write.{write, write_entry, HoldsEntry, HoldsEntry-ext, write-HoldsEntry}

-- The calls made so far, and the entries that they wrote: write, the three that add free space, and clear.
pub data Session (c : CheckpointOfstream) (file : ℕ → ℕ)
    : CheckpointOfstream → (ℕ → ℕ) → List ((ℕ × ℕ) × List ℕ) → Type 0 where
  opened : Session c file c file []
  wrote :
      {c' c'' : CheckpointOfstream} {file' file'' : ℕ → ℕ} {written : List ((ℕ × ℕ) × List ℕ)}
      → (good : Bool) (image : List ℕ) (space : ℕ × ℕ) → Session c file c' file' written
      → write_entry good image (c', file') ≡ some (ok (c'', file'', space))
      → Session c file c'' file'' ((space, image) ∷ written)
  freed :
      {c' : CheckpointOfstream} {file' : ℕ → ℕ} {written : List ((ℕ × ℕ) × List ℕ)}
      → (space : ℕ × ℕ) → Session c file c' file' written
      → Session c file (add_free_region space c') file' written
  freed_all :
      {c' : CheckpointOfstream} {file' : ℕ → ℕ} {written : List ((ℕ × ℕ) × List ℕ)}
      → (spaces : List (ℕ × ℕ)) → Session c file c' file' written
      → Session c file (add_free_regions spaces c') file' written
  cleared :
      {c' : CheckpointOfstream} {file' : ℕ → ℕ} {written : List ((ℕ × ℕ) × List ℕ)}
      → Session c file c' file' written
      → Session c file (clear c') file' written

-- The byte is in use.
abbrev IsUsed : CheckpointOfstream → ℕ → Type 0
IsUsed c x = (x < c.info.file_length) × (is_free x c.free_by_offset ≡ false)

-- The entry stands in the file, in space that is in use.
pub record IsStored (c : CheckpointOfstream) (file : ℕ → ℕ) (space : ℕ × ℕ) (image : List ℕ)
    : Type 0 where
  holds : HoldsEntry space.0 space.1 image file
  pub room : length image + 8 ≤ space.1
  pub used : (x : ℕ) → within space.0 space.1 x ≡ true → IsUsed c x

abbrev AreStored : CheckpointOfstream → (ℕ → ℕ) → List ((ℕ × ℕ) × List ℕ) → Type 0
AreStored c file [] = Unit {0}
AreStored c file ((space, image) ∷ written) = IsStored c file space image × AreStored c file written

-- From one state to a later one, what is in use stays in use and keeps its bytes.
pub record Keeps (c : CheckpointOfstream) (file : ℕ → ℕ) (c' : CheckpointOfstream) (file' : ℕ → ℕ)
    : Type 0 where
  pub used : (x : ℕ) → IsUsed c x → IsUsed c' x
  pub same : (x : ℕ) → IsUsed c x → file' x ≡ file x

IsStored-Keeps :
    (c : CheckpointOfstream) (file : ℕ → ℕ) (c' : CheckpointOfstream) (file' : ℕ → ℕ)
    (space : ℕ × ℕ) (image : List ℕ)
    → Keeps c file c' file'
    → IsStored c file space image
    → IsStored c' file' space image
IsStored-Keeps c file c' file' space image k s = record {
  holds =
      HoldsEntry-ext space.0 space.1 space.1 image file file' s.room (λ x w. k.same x (s.used x w))
        s.holds;
  room = s.room;
  used = λ x w. k.used x (s.used x w);
}

AreStored-Keeps :
    (c : CheckpointOfstream) (file : ℕ → ℕ) (c' : CheckpointOfstream) (file' : ℕ → ℕ)
    (written : List ((ℕ × ℕ) × List ℕ))
    → Keeps c file c' file'
    → AreStored c file written
    → AreStored c' file' written
AreStored-Keeps c file c' file' [] k s = tt
AreStored-Keeps c file c' file' ((space, image) ∷ written) k s = (
  IsStored-Keeps c file c' file' space image k s.0,
  AreStored-Keeps c file c' file' written k s.1,
)

-- A write keeps what is in use, and stores its entry.
record Stores (c : CheckpointOfstream) (file : ℕ → ℕ) (c' : CheckpointOfstream) (file' : ℕ → ℕ)
    (space : ℕ × ℕ) (image : List ℕ) : Type 0 where
  valid : IsValid c'
  keeps : Keeps c file c' file'
  stored : IsStored c' file' space image

allocated-Stores :
    (good : Bool) (image : List ℕ) (c : CheckpointOfstream) (file file' : ℕ → ℕ)
    (r : CheckpointOfstream × ℕ × ℕ)
    → IsAllocated (length image) c r
    → write good r.1 r.2 image file ≡ ok file'
    → Stores c file r.0 file' (r.1, r.2) image
allocated-Stores good image c file file' r a e =
    let (holds, outside) = write-HoldsEntry good r.1 r.2 image file file' e a.room in
    record {
      valid = a.valid;
      keeps = record {
        used = λ x u. ground (arith, a.bytes x, u, a.longer);
        same = λ x u. outside x (ground (arith, a.were_free x, u));
      };
      stored = record {
        holds = holds;
        room = a.room;
        used = λ x w. ground (arith, a.bytes x, a.inside, w);
      };
    }

write_entry-Stores :
    (good : Bool) (image : List ℕ) (c : CheckpointOfstream) (file : ℕ → ℕ) (c' : CheckpointOfstream)
    (file' : ℕ → ℕ) (space : ℕ × ℕ)
    → IsValid c
    → write_entry good image (c, file) ≡ some (ok (c', file', space))
    → Stores c file c' file' space image
unfolding write_entry
write_entry-Stores good image c file c' file' space h e =
    from_call (allocate-IsAllocated (length image) c h)
  where
    placed :
        CheckpointOfstream × ℕ × ℕ
        → Result (ℕ → ℕ)
        → Result (CheckpointOfstream × (ℕ → ℕ) × (ℕ × ℕ))
    placed r w = w >>= λ g. ok (r.0, g, (r.1, r.2))

    from_write :
        (r : CheckpointOfstream × ℕ × ℕ) (w : Result (ℕ → ℕ))
        → write good r.1 r.2 image file ≡ w
        → IsAllocated (length image) c r
        → placed r w ≡ ok (c', file', space)
        → Stores c file c' file' space image
    from_write r (throw x) q a e = cc
    from_write r (ok g) q a e =
        subst (λ z. Stores c file z.0 z.1 z.2 image) (ok-injective e)
          (allocated-Stores good image c file g r a q)

    from_call :
        (r : CheckpointOfstream × ℕ × ℕ) × (allocate (length image) c ≡ some r)
          × IsAllocated (length image) c r
        → Stores c file c' file' space image
    from_call (r, q, a) = from_write r (write good r.1 r.2 image file) refl a (
        some-injective _ _
          (sym (ap (Option.map (λ r. placed r (write good r.1 r.2 image file))) q) ∙ e))

-- The file is valid, what was in use when it was opened is as it was, and every entry written is in place.
pub record IsIntact (c : CheckpointOfstream) (file : ℕ → ℕ) (c' : CheckpointOfstream)
    (file' : ℕ → ℕ) (written : List ((ℕ × ℕ) × List ℕ)) : Type 0 where
  pub valid : IsValid c'
  keeps : Keeps c file c' file'
  pub stored : AreStored c' file' written

IsIntact-Keeps :
    (c : CheckpointOfstream) (file : ℕ → ℕ) (c' c'' : CheckpointOfstream) (file' file'' : ℕ → ℕ)
    (written : List ((ℕ × ℕ) × List ℕ))
    → IsValid c''
    → Keeps c' file' c'' file''
    → IsIntact c file c' file' written
    → IsIntact c file c'' file'' written
IsIntact-Keeps c file c' c'' file' file'' written v k i = record {
  valid = v;
  keeps = record {
    used = λ x u. k.used x (i.keeps.used x u);
    same = λ x u. k.same x (i.keeps.used x u) ∙ i.keeps.same x u;
  };
  stored = AreStored-Keeps c' file' c'' file'' written k i.stored;
}

-- From a valid file, whatever the calls before the commit: no write changes a byte that was in use when
-- the file was opened, and every entry written stands in the file, header and image, in space that is in use.
pub session-IsIntact :
    (c : CheckpointOfstream) (file : ℕ → ℕ) (c' : CheckpointOfstream) (file' : ℕ → ℕ)
    (written : List ((ℕ × ℕ) × List ℕ))
    → IsValid c
    → Session c file c' file' written
    → IsIntact c file c' file' written
unfolding add_free_region add_free_regions clear
session-IsIntact c file _ _ _ h opened = record {
  valid = h;
  keeps = record { used = λ x u. u; same = λ x u. refl };
  stored = tt;
}
session-IsIntact c file _ _ _ h (wrote {c'} {c''} {file'} {file''} {written} good image space s e) =
    let i = session-IsIntact c file c' file' written h s in
    let w = write_entry-Stores good image c' file' c'' file'' space i.valid e in
    let j = IsIntact-Keeps c file c' c'' file' file'' written w.valid w.keeps i in
    record { valid = j.valid; keeps = j.keeps; stored = (w.stored, j.stored) }
session-IsIntact c file _ _ _ h (freed {c'} {file'} {written} space s) =
    let i = session-IsIntact c file c' file' written h s in
    IsIntact-Keeps c file c' (add_free_region space c') file' file' written
      (record { apart = i.valid.apart; agree = i.valid.agree })
      (record { used = λ x u. u; same = λ x u. refl }) i
session-IsIntact c file _ _ _ h (freed_all {c'} {file'} {written} spaces s) =
    let i = session-IsIntact c file c' file' written h s in
    IsIntact-Keeps c file c' (add_free_regions spaces c') file' file' written
      (record { apart = i.valid.apart; agree = i.valid.agree })
      (record { used = λ x u. u; same = λ x u. refl }) i
session-IsIntact c file _ _ _ h (cleared {c'} {file'} {written} s) =
    let i = session-IsIntact c file c' file' written h s in
    IsIntact-Keeps c file c' (clear c') file' file' written
      (record { apart = i.valid.apart; agree = i.valid.agree })
      (record { used = λ x u. u; same = λ x u. refl }) i
