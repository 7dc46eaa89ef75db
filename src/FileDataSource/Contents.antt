-- ===== src/FileDataSource/Contents.antt =====
-- A file as a data source against the memory image that it holds.
use rt11fs.Base.{
  ℕ, ◌+◌, ◌≤◌, ◌≡◌, refl, ap, ap₂, ◌∙◌, inl, inr, List, true, false, not, length, take, drop, ◌==◌,
  Bool-cases, length-take, length-drop, arith,
}
use rt11fs.Base.{eio, Status, ok, err}
use rt11fs.Base.Int.{ℤ, pos, ◌+ℤ◌, pos-+ℤ, eq_ℤ, ltb_ℤ}
use rt11fs.Base.Memory.{splice}
use rt11fs.Block.Sectors.{memory_write_lem}
use rt11fs.DataSource.{out_of_bounds, ReadsInFull, memory_read, memory_write}
use rt11fs.FileDataSource.{Descriptor, all_read, read_at, file_read, file_write, file_source}

-- The descriptor of a regular file with `contents` and the file offset `offset`, on a system that
-- transfers as many bytes as there are and as was asked for.
pub record IsRegular {S : Type 0} (fd : Descriptor S) (contents : S → List ℕ) (offset : S → ℕ)
    : Type 0 where
  pub seeks :
      (s : S) (n : ℕ)
      → (t : S) × (fd.lseek s (pos n) ≡ (ok (pos n), t))
        × (contents t ≡ contents s)
        × (offset t ≡ n)
  pub reads :
      (s : S) (n : ℕ)
      → (t : S) × (fd.read s n ≡ (ok (take n (drop (offset s) (contents s))), t))
        × (contents t ≡ contents s)
  pub writes :
      (s : S) (buffer : List ℕ)
      → offset s + length buffer ≤ length (contents s)
      → (t : S) × (fd.write s buffer ≡ (ok (length buffer), t))
        × (contents t ≡ splice (contents s) (offset s) buffer)

-- Whatever the operating system does, a read of a file that does not fail gives all the bytes that
-- were asked for.
pub file_source-ReadsInFull : {S : Type 0} (fd : Descriptor S) → ReadsInFull (file_source fd)
unfolding file_read
file_source-ReadsInFull {S} fd s s' n at bytes h = sought (fd.lseek s at) h
  where
    got : (r : Status (List ℕ) × S) → all_read fd n r ≡ (ok bytes, s') → length bytes ≡ n
    got (err e, t) h = let k : err e ≡ ok bytes = ap (λ p. p.0) h in cc
    got (ok xfer, t) h = elim (Bool-cases (length xfer == n)) [
      | inl e ↦
          let k : (ok xfer, t) ≡ (ok bytes, s') = (rw e at h) in
          let same : ok xfer ≡ ok bytes = ap (λ p. p.0) k in
          let size : length xfer ≡ length bytes = cc in ground arith
      | inr e ↦
          let k : (err eio, t) ≡ (ok bytes, s') = (rw e at h) in
          let same : err eio ≡ ok bytes = ap (λ p. p.0) k in cc
    ]

    sought : (r : Status ℤ × S) → read_at fd n at r ≡ (ok bytes, s') → length bytes ≡ n
    sought (err e, t) h = let k : err e ≡ ok bytes = ap (λ p. p.0) h in cc
    sought (ok seek, t) h = elim (Bool-cases (eq_ℤ seek at)) [
      | inl e ↦ got (fd.read t n) (rw e at h)
      | inr e ↦
          let k : (err eio, t) ≡ (ok bytes, s') = (rw e at h) in
          let same : err eio ≡ ok bytes = ap (λ p. p.0) k in cc
    ]

module _ {S : Type 0} (fd : Descriptor S) (contents : S → List ℕ) (offset : S → ℕ) where
  read_lem :
      (regular : IsRegular fd contents offset) (s : S) (at n : ℕ)
      → 1 ≤ n
      → (t : S) × (file_read fd s n (pos at) ≡ ((memory_read (contents s) n (pos at)).0, t))
        × (contents t ≡ contents s)
  unfolding file_read memory_read
  read_lem regular s at n h =
      let (t1, sought, same, there) = regular.seeks s at in
      let (t2, got, kept) = regular.reads t1 n in
      let reached : eq_ℤ (pos at) (pos at) ≡ true = ground arith in
      let plain : ltb_ℤ (pos at) (pos 0) ≡ false = ground arith in
      let xfer : List ℕ = take n (drop at (contents s)) in
      let moved : take n (drop (offset t1) (contents t1)) ≡ xfer =
        ap₂ (λ i (c : List ℕ). take n (drop i c)) there same in
      let size : ltb_ℤ (pos (length (contents s))) (pos at +ℤ pos n) ≡ not (length xfer == n) =
        ground
          (arith, length-take n (drop at (contents s)), length-drop at (contents s), pos-+ℤ at n) in
      let test : out_of_bounds (contents s) n (pos at) ≡ not (length xfer == n) = rw plain size in
      elim (Bool-cases (length xfer == n)) [
        | inl e ↦ (t2, rw (sought, reached, got, moved, test, e) refl, kept ∙ same)
        | inr e ↦ (t2, rw (sought, reached, got, moved, test, e) refl, kept ∙ same)
      ]

  write_lem :
      (regular : IsRegular fd contents offset) (s : S) (at : ℕ) (buffer : List ℕ)
      → at + length buffer ≤ length (contents s)
      → (t : S) × (file_write fd s buffer (pos at)
          ≡ ((memory_write (contents s) buffer (pos at)).0, t))
        × (contents t ≡ (memory_write (contents s) buffer (pos at)).1)
  unfolding file_write
  write_lem regular s at buffer h =
      let (t1, sought, same, there) = regular.seeks s at in
      let fits : offset t1 + length buffer ≤ length (contents t1) =
        omega (arith, there, ap length same) in
      let (t2, put, left) = regular.writes t1 buffer fits in
      let reached : eq_ℤ (pos at) (pos at) ≡ true = ground arith in
      let all : (length buffer == length buffer) ≡ true = ground arith in
      let stored : memory_write (contents s) buffer (pos at)
          ≡ (ok (length buffer), splice (contents s) at buffer) =
        memory_write_lem (contents s) buffer at h in
      (
        t2,
        rw (sought, reached, put, all, stored) refl,
        rw stored (left ∙ ap₂ (λ (c : List ℕ) i. splice c i buffer) same there),
      )

-- On the descriptor of a regular file, a read of one byte or more gives what it would give of a
-- memory image with the contents of the file, the error behind the end included, and leaves the
-- contents; a write that stays within the file returns what it would for the memory image, and
-- leaves the contents that the image would have.
pub file_source-memory_source :
    {S : Type 0} (fd : Descriptor S) (contents : S → List ℕ) (offset : S → ℕ)
    (regular : IsRegular fd contents offset) (s : S) (at n : ℕ) (buffer : List ℕ)
    → 1 ≤ n
    → at + length buffer ≤ length (contents s)
    → ((t : S) × (file_read fd s n (pos at) ≡ ((memory_read (contents s) n (pos at)).0, t))
        × (contents t ≡ contents s))
      × ((t : S) × (file_write fd s buffer (pos at)
            ≡ ((memory_write (contents s) buffer (pos at)).0, t))
          × (contents t ≡ (memory_write (contents s) buffer (pos at)).1))
file_source-memory_source fd contents offset regular s at n buffer some_bytes fits = (
  read_lem fd contents offset regular s at n some_bytes,
  write_lem fd contents offset regular s at buffer fits,
)
