-- ===== src/Directory/Totals.antt =====
-- What `statfs` counts, and which entry `findLargestFreeBlock` finds.
use rt11fs.Base.{
  ℕ, zero, suc, ◌+◌, ◌*◌, ◌/◌, ◌≤◌, ◌<◌, bit_and, ◌≡◌, refl, ap, ◌∙◌, ◌⊎◌, inl, inr, List, [], ◌∷◌,
  Bool, true, false, not, ◌&&◌, length, ◌==◌, arith, Bool-cases, if◌then◌else◌,
}
use rt11fs.Base.{done, then_do}
use rt11fs.Base.Int.{ℤ, pos, ◌≤ℤ◌, neg_part, negsuc, ltb_ℤ, leb_ℤ, ◌-ℤ◌, ◌*ℤ◌}
use rt11fs.Block.{Block}
use rt11fs.Block.Words.{word_at, extract_word_lem}
use rt11fs.DirConst.{e_mpty, e_eos}
use rt11fs.DirPtr.{DirPtr, is_valid, fuel_of}
use rt11fs.Directory.Scan.{
  StatVfs, Usage, count_entry, count_from, statfs, start_scan, largest_from,
  find_largest_free_block,
}
use rt11fs.Directory.View.{Seg, IsDirectory, pointers, field, has_bit, IsWalk}
use rt11fs.Directory.Walk.{start, new_dir_ptr_lem, in_block, start-IsWalk, pointers-fuel}
use rt11fs.Directory.Lookup.{field_lem, has_status-IsTest}

abbrev pub count_if : (DirPtr → Bool) → List DirPtr → ℕ
count_if f [] = 0
count_if f (q ∷ qs) = (if f q then 1 else 0) + count_if f qs

abbrev pub sectors_if : Block → (DirPtr → Bool) → List DirPtr → ℕ
sectors_if b f [] = 0
sectors_if b f (q ∷ qs) = (if f q then field b q 8 else 0) + sectors_if b f qs

-- Free space, as `statfs` tests it: any entry with the bit.
abbrev pub is_free : Block → DirPtr → Bool
is_free b q = not (bit_and (field b q 0) e_mpty == 0)

-- A file, permanent or not: neither free space nor an end marker.
abbrev pub is_used : Block → DirPtr → Bool
is_used b q = not (is_free b q) && (bit_and (field b q 0) e_eos == 0)

abbrev pub add_usage : Usage → Block → List DirPtr → Usage
add_usage u b qs = record {
  used_inodes = u.used_inodes + count_if (is_used b) qs;
  used_blocks = u.used_blocks + sectors_if b (λ q. not (is_free b q)) qs;
  free_blocks = u.free_blocks + sectors_if b (is_free b) qs;
}

count_entry_lem :
    (b : Block) (q : DirPtr) (qs : List DirPtr) (u : Usage)
    → add_usage (count_entry (field b q 0) (field b q 8) u) b qs ≡ add_usage u b (q ∷ qs)
unfolding count_entry
count_entry_lem b q qs u = ground arith

count_from-IsWalk :
    (b : Block) (fuel : ℕ) (p : DirPtr) (qs : List DirPtr) (u : Usage)
    → IsWalk b p qs
    → length qs < fuel
    → count_from fuel p u b ≡ done (add_usage u b qs) b
unfolding count_from
count_from-IsWalk b zero p qs u w h = absurd (omega arith)
count_from-IsWalk b (suc fuel) p [] u (q, step, out) h =
    rw (step, then_do, out) (ap (λ (x : Usage). done x b) (same u))
  where
    same : (u : Usage) → u ≡ add_usage u b []
    same u = ground arith
count_from-IsWalk b (suc fuel) p (q ∷ qs) u (step, valid, entry, w) h =
    rw
      (
        step,
        then_do,
        valid,
        field_lem b q 0 entry (omega arith),
        then_do,
        field_lem b q 8 entry (omega arith),
        then_do,
      )
      (count_from-IsWalk b fuel q qs (count_entry (field b q 0) (field b q 8) u) w (omega arith)
        ∙ ap (λ (x : Usage). done x b) (count_entry_lem b q qs u))

-- Every sector that an entry names is free or in use.
sectors_if-split :
    (b : Block) (f : DirPtr → Bool) (qs : List DirPtr)
    → sectors_if b f qs + sectors_if b (λ q. not (f q)) qs ≡ sectors_if b (λ _. true) qs
sectors_if-split b f [] = omega arith
sectors_if-split b f (q ∷ qs) = ground (arith, sectors_if-split b f qs)

-- The record that `statfs` fills from what it counted.
abbrev reported : ℕ → Block → Usage → StatVfs
reported volume_sectors b u =
    let inodes : ℤ = (pos (1014 / (14 + word_at b.bytes 6)) -ℤ pos 1) *ℤ word_at b.bytes 0 in
    record {
      f_bsize = 512;
      f_namemax = 10;
      f_blocks = pos volume_sectors -ℤ pos (6 + word_at b.bytes 0 * 2);
      f_bfree = u.free_blocks;
      f_files = inodes;
      f_ffree = inodes -ℤ pos u.used_inodes;
    }

-- For a directory whose bytes are in order, `statfs` reports as free exactly the sectors of the free
-- entries, and as used nodes exactly the files; with the sectors that are in use, the free ones are
-- all sectors that the entries name. It changes nothing.
pub statfs-totals :
    (b : Block) (e : ℕ) (segs : List Seg) (volume_sectors : ℕ)
    → IsDirectory b e segs
    → (st : StatVfs) × (statfs volume_sectors b ≡ done st b)
      × (st.f_bfree ≡ sectors_if b (is_free b) (pointers b e segs))
      × (st.f_ffree ≡ st.f_files -ℤ pos (count_if (is_used b) (pointers b e segs)))
      × (st.f_bfree + sectors_if b (λ q. not (is_free b q)) (pointers b e segs)
          ≡ sectors_if b (λ _. true) (pointers b e segs))
unfolding statfs start_scan fuel_of
statfs-totals b e segs volume_sectors d =
    let size = in_block b e segs d in
    let none_yet : Usage = record { used_inodes = 0; used_blocks = 0; free_blocks = 0 } in
    let u : Usage = add_usage none_yet b (pointers b e segs) in
    (
      reported volume_sectors b u,
      rw
          (
            extract_word_lem b 0 (omega arith) d.bytes,
            then_do,
            extract_word_lem b 6 (omega arith) d.bytes,
            then_do,
            new_dir_ptr_lem b e segs d,
            then_do,
            count_from-IsWalk b (suc (length b.bytes)) (start b e) (pointers b e segs) none_yet
                (start-IsWalk b e segs d) (pointers-fuel b e segs d),
            then_do,
          )
          refl,
      omega arith,
      ap (λ n. (reported volume_sectors b u).f_files -ℤ pos n) (omega arith),
      omega (arith, sectors_if-split b (is_free b) (pointers b e segs)),
    )

-- No free entry is longer than `n` sectors.
abbrev pub NoneLonger : Block → ℤ → List DirPtr → Type 0
NoneLonger b n [] = Unit {0}
NoneLonger b n (q ∷ qs) =
    ((has_bit b e_mpty q ≡ false) ⊎ (pos (field b q 8) ≤ℤ n)) × NoneLonger b n qs

-- `q` is one of the entries, it is free, and it has `n` sectors.
abbrev pub IsFreeOf : Block → ℤ → DirPtr → List DirPtr → Type 0
IsFreeOf b n q [] = ⊥
IsFreeOf b n q (r ∷ qs) =
    ((q ≡ r) × (has_bit b e_mpty r ≡ true) × (n ≡ pos (field b r 8))) ⊎ IsFreeOf b n q qs

-- The loop of `findLargestFreeBlock` keeps what it has, or finds a longer free entry; none behind is
-- longer than what it ends with.
largest_from-IsWalk :
    (b : Block) (fuel : ℕ) (p : DirPtr) (qs : List DirPtr) (n : ℤ) (at : DirPtr)
    → IsWalk b p qs
    → length qs < fuel
    → (m : ℤ) × (q : DirPtr) × (last : DirPtr) × (largest_from fuel p n at b ≡ done (m, q, last) b)
      × (is_valid last ≡ false)
      × (n ≤ℤ m)
      × NoneLonger b m qs
      × (((m ≡ n) × (q ≡ at)) ⊎ IsFreeOf b m q qs)
unfolding largest_from
largest_from-IsWalk b zero p qs n at w h = absurd (omega arith)
largest_from-IsWalk b (suc fuel) p [] n at (q, step, out) h =
    (n, at, q, rw (step, then_do, out) refl, out, omega arith, tt, inl (refl, refl))
largest_from-IsWalk b (suc fuel) p (q ∷ qs) n at (step, valid, entry, w) h =
    let status = has_status-IsTest b e_mpty q entry in
    let len = field_lem b q 8 entry (omega arith) in
    elim (Bool-cases (has_bit b e_mpty q)) [
      | inr m ↦
          let (k, r, last, run, out, up, all, which) =
            largest_from-IsWalk b fuel q qs n at w (omega arith) in
          (
            k,
            r,
            last,
            rw (step, then_do, valid, status, then_do, m) run,
            out,
            up,
            (inl m, all),
            later which,
          )
      | inl f ↦ elim (Bool-cases (ltb_ℤ n (pos (field b q 8)))) [
        | inl longer ↦
            let (k, r, last, run, out, up, all, which) =
              largest_from-IsWalk b fuel q qs (pos (field b q 8)) q w (omega arith) in
            (
              k,
              r,
              last,
              rw (step, then_do, valid, status, then_do, f, len, then_do, longer) run,
              out,
              ground arith,
              (inr up, all),
              elim which [ inl (e, s) ↦ inr (inl (s, f, e)) | inr found ↦ inr (inr found) ],
            )
        | inr shorter ↦
            let (k, r, last, run, out, up, all, which) =
              largest_from-IsWalk b fuel q qs n at w (omega arith) in
            (
              k,
              r,
              last,
              rw (step, then_do, valid, status, then_do, f, len, then_do, shorter) run,
              out,
              up,
              (inr (ground arith), all),
              later which,
            )
      ]
    ]
  where
    later :
        {k : ℤ} {r : DirPtr}
        → ((k ≡ n) × (r ≡ at)) ⊎ IsFreeOf b k r qs
        → ((k ≡ n) × (r ≡ at)) ⊎ IsFreeOf b k r (q ∷ qs)
    later (inl same) = inl same
    later (inr found) = inr (inr found)

-- What `findLargestFreeBlock` gives: a free entry with sectors of which no free entry has more, or a
-- pointer out of the directory when no free entry has any.
abbrev pub IsLargest : Block → List DirPtr → DirPtr → Type 0
IsLargest b qs q =
    ((n : ℕ) × (1 ≤ n) × IsFreeOf b (pos n) q qs × NoneLonger b (pos n) qs)
    ⊎ ((is_valid q ≡ false) × NoneLonger b (pos 0) qs)

NoneLonger-mono :
    (b : Block) (m n : ℤ) (qs : List DirPtr) → m ≤ℤ n → NoneLonger b m qs → NoneLonger b n qs
NoneLonger-mono b m n [] h all = tt
NoneLonger-mono b m n (q ∷ qs) h (inl f, all) = (inl f, NoneLonger-mono b m n qs h all)
NoneLonger-mono b m n (q ∷ qs) h (inr le, all) = (inr (omega arith), NoneLonger-mono b m n qs h all)

-- The last line of `findLargestFreeBlock`.
chosen :
    (b : Block) (qs : List DirPtr) (m : ℤ) (q last : DirPtr)
    → is_valid last ≡ false
    → NoneLonger b m qs
    → (m ≡ negsuc 0) ⊎ IsFreeOf b m q qs
    → IsLargest b qs (if leb_ℤ m (pos 0) then last else q)
chosen b qs (negsuc n) q last out all which =
    let none_free : leb_ℤ (negsuc n) (pos 0) ≡ true = ground arith in
    rw none_free (inr (out, NoneLonger-mono b (negsuc n) (pos 0) qs (omega arith) all))
chosen b qs (pos n) q last out all (inl e) = absurd (omega (arith, ap neg_part e))
chosen b qs (pos n) q last out all (inr found) = elim (Bool-cases (leb_ℤ (pos n) (pos 0))) [
  | inl none_free ↦
      rw none_free (inr (out, NoneLonger-mono b (pos n) (pos 0) qs (ground arith) all))
  | inr some_free ↦ rw some_free (inl (n, ground arith, found, all))
]

-- In a directory whose bytes are in order, `findLargestFreeBlock` gives a free entry with at least one
-- sector of which no free entry has more, or a pointer out of the directory when every free entry is
-- empty. It changes nothing.
pub find_largest_free_block-IsLargest :
    (b : Block) (e : ℕ) (segs : List Seg)
    → IsDirectory b e segs
    → (q : DirPtr) × (find_largest_free_block b ≡ done q b) × IsLargest b (pointers b e segs) q
unfolding find_largest_free_block start_scan fuel_of
find_largest_free_block-IsLargest b e segs d =
    let (m, q, last, run, out, up, all, which) =
      largest_from-IsWalk b (suc (length b.bytes)) (start b e) (pointers b e segs) (negsuc 0)
        (start b e) (start-IsWalk b e segs d) (pointers-fuel b e segs d) in
    (
      if leb_ℤ m (pos 0) then last else q,
      rw (new_dir_ptr_lem b e segs d, then_do, new_dir_ptr_lem b e segs d, then_do, run, then_do)
          refl,
      chosen b (pointers b e segs) m q last out all
          (elim which [ inl (none_yet, _) ↦ inl none_yet | inr f ↦ inr f ]),
    )
