-- ===== src/Checkpoint/Write.antt =====
-- stldb/checkpoint.h and src/checkpoint.cpp: the writes to a checkpoint file, which is a byte for each
-- offset. A serialized image is its bytes; whether the stream is good after the write is an argument.
use mathlib.Core.Option
use stldb.Prelude.{
  ℕ, zero, suc, ◌+◌, ◌/◌, ◌≤◌, ◌≡◌, refl, sym, ap, ◌∙◌, subst, ok-injective, Bool, true, false, not,
  Option, List, [], ◌∷◌, arith, ◌==◌, length, ==_refl, if◌then◌else◌, Result, ok, throw, io_failure,
  ◌>>=◌,
}
use stldb.Logging.Bytes.{le_bytes}
use stldb.Checkpoint.Regions.{within}
use stldb.Checkpoint.File.{CheckpointOfstream, allocate, size_t_size}

-- The bytes of the file after a write at an offset.
unfoldable pub write_at : ℕ → List ℕ → (ℕ → ℕ) → ℕ → ℕ
write_at o [] file x = file x
write_at o (b ∷ bs) file x = let later = write_at (o + 1) bs file x in if x == o then b else later

-- write(offset, length, image)
unfoldable pub write : Bool → ℕ → ℕ → List ℕ → (ℕ → ℕ) → Result (ℕ → ℕ)
unfolding write_at le_bytes
write good offset length image file =
    let file' =
      write_at (offset + size_t_size) image (write_at offset (le_bytes size_t_size length) file) in
    if not good then throw io_failure else ok file'

-- write(obj), for the image of the object; `none` is the abort() of allocate.
unfoldable pub write_entry :
    Bool
    → List ℕ
    → CheckpointOfstream × (ℕ → ℕ)
    → Option (Result (CheckpointOfstream × (ℕ → ℕ) × (ℕ × ℕ)))
unfolding allocate write
write_entry good image (c, file) =
    Option.map (λ r. write good r.1 r.2 image file >>= λ file'. ok (r.0, file', (r.1, r.2)))
      (allocate (length image) c)

-- The bytes from an offset on.
unfoldable pub read_at : ℕ → ℕ → (ℕ → ℕ) → List ℕ
read_at zero o file = []
read_at (suc n) o file = file o ∷ read_at n (o + 1) file

write_at-outside :
    (o : ℕ) (bs : List ℕ) (file : ℕ → ℕ) (x : ℕ)
    → within o (length bs) x ≡ false
    → write_at o bs file x ≡ file x
unfolding write_at
write_at-outside o [] file x h = refl
write_at-outside o (b ∷ bs) file x h =
    ground (arith, write_at-outside (o + 1) bs file x (ground (arith, h)), h)

read_at-ext :
    (n o : ℕ) (f g : ℕ → ℕ)
    → ((x : ℕ) → within o n x ≡ true → f x ≡ g x)
    → read_at n o f ≡ read_at n o g
unfolding read_at
read_at-ext zero o f g h = refl
read_at-ext (suc n) o f g h =
    rw (h o (ground arith))
      (ap (λ r. g o ∷ r) (read_at-ext n (o + 1) f g (λ x w. h x (ground (arith, w)))))

read_at-write_at :
    (o : ℕ) (bs : List ℕ) (file : ℕ → ℕ) → read_at (length bs) o (write_at o bs file) ≡ bs
unfolding read_at write_at
read_at-write_at o [] file = refl
read_at-write_at o (b ∷ bs) file = rw (==_refl o) (
    ap (λ r. b ∷ r)
      (read_at-ext (length bs) (o + 1) (write_at o (b ∷ bs) file) (write_at (o + 1) bs file)
          (λ x w. ground (arith, w))
        ∙ read_at-write_at (o + 1) bs file))

length-le_bytes : (n x : ℕ) → length (le_bytes n x) ≡ n
unfolding le_bytes
length-le_bytes zero x = refl
length-le_bytes (suc n) x = ap suc (length-le_bytes n (x / 256))

-- The header, the length in eight bytes, and the image after it stand in the file.
pub record HoldsEntry (o n : ℕ) (image : List ℕ) (file : ℕ → ℕ) : Type 0 where
  pub header : read_at 8 o file ≡ le_bytes 8 n
  body : read_at (length image) (o + 8) file ≡ image

pub HoldsEntry-ext :
    (o n m : ℕ) (image : List ℕ) (f g : ℕ → ℕ)
    → length image + 8 ≤ m
    → ((x : ℕ) → within o m x ≡ true → g x ≡ f x)
    → HoldsEntry o n image f
    → HoldsEntry o n image g
HoldsEntry-ext o n m image f g l same h = record {
  header = read_at-ext 8 o g f (λ x w. same x (ground (arith, w, l))) ∙ h.header;
  body = read_at-ext (length image) (o + 8) g f (λ x w. same x (ground (arith, w, l))) ∙ h.body;
}

-- A write changes no byte outside the region, and leaves the header and the image in it.
pub write-HoldsEntry :
    (good : Bool) (o n : ℕ) (image : List ℕ) (file file' : ℕ → ℕ)
    → write good o n image file ≡ ok file'
    → length image + 8 ≤ n
    → HoldsEntry o n image file' × ((x : ℕ) → within o n x ≡ false → file' x ≡ file x)
unfolding write
write-HoldsEntry false o n image file file' e l = cc
write-HoldsEntry true o n image file file' e l =
    let written = write_at o (le_bytes 8 n) file in
    let same : (x : ℕ) → file' x ≡ write_at (o + 8) image written x =
      λ x. ap (λ f. f x) (sym (ok-injective e)) in
    (
      record {
        header =
            read_at-ext 8 o file' written
              (λ x w. same x ∙ write_at-outside (o + 8) image written x (ground (arith, w)))
            ∙ subst (λ k. read_at k o written ≡ le_bytes 8 n) (length-le_bytes 8 n)
                (read_at-write_at o (le_bytes 8 n) file);
        body =
            read_at-ext (length image) (o + 8) file' (write_at (o + 8) image written)
              (λ x w. same x)
            ∙ read_at-write_at (o + 8) image written;
      },
      λ x w.
          same x
          ∙ write_at-outside (o + 8) image written x (ground (arith, w, l))
          ∙ write_at-outside o (le_bytes 8 n) file x (ground (arith, w, l, length-le_bytes 8 n)),
    )
