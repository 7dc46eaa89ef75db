-- ===== src/BlockCache/Access.antt =====
-- The use of one sector: what `getBlock` finds, and what the block pointer then names.
use rt11fs.Base.{
  ℕ, ◌+◌, ◌-◌, ◌*◌, ◌≤◌, ◌<◌, ◌≡◌, refl, sym, ap, ◌∙◌, ◌⊎◌, inl, inr, List, [], ◌∷◌, true, false,
  Option, none, some, length, get_elem?, ◌==◌, arith, Bool-cases, if_intro, if◌then◌else◌,
}
use rt11fs.Base.{out_of_range, Outcome, Action, done, throw}
use rt11fs.Base.Int.{ℤ, pos, pos_part, neg_part, ◌+ℤ◌, pos-+ℤ, eq_ℤ, leb_ℤ}
use rt11fs.DataSource.{memory_source}
use rt11fs.Block.{Block, new_block, add_ref, release}
use rt11fs.BlockCache.{Shelf, get_from, behind, run_at}
use rt11fs.BlockCache.Order.{Above}
use rt11fs.BlockCache.View.{start, within, view, IsHeld, IsCoherent, pass}
use rt11fs.BlockCache.Coherence.{sector_of, read_sector}

-- The block that a pointer names.
abbrev pub block_at : ℤ → List Block → Option Block
block_at bp [] = none
block_at bp (b ∷ rest) = if eq_ℤ b.sector bp then some b else block_at bp rest

-- The sectors from `low` to `high` are in no block of several sectors.
abbrev pub Singles : ℕ → ℕ → List Block → Type 0
Singles low high [] = Unit {0}
Singles low high (b ∷ bs) =
    ((b.count ≡ 1) ⊎ ((pos_part b.sector + b.count ≤ low) ⊎ (high ≤ pos_part b.sector)))
    × Singles low high bs

abbrev pub IsFound : List ℕ → ℕ → ℕ → ℕ → Outcome (Shelf (List ℕ)) (Unit {0}) → Type 0
IsFound image low high s r =
    (bs : List Block) × (b : Block) × (r ≡ done tt (record { shelf = bs; source = image }))
    × (block_at (pos s) bs ≡ some b)
    × (b.count ≡ 1)
    × Singles low high bs

behind-IsFound :
    (image : List ℕ) (low high s : ℕ) (b : Block) (r : Outcome (Shelf (List ℕ)) (Unit {0}))
    → eq_ℤ b.sector (pos s) ≡ false
    → (b.count ≡ 1) ⊎ ((pos_part b.sector + b.count ≤ low) ⊎ (high ≤ pos_part b.sector))
    → IsFound image low high s r
    → IsFound image low high s (behind b r)
behind-IsFound image low high s b r other single (bs, d, q, at, one, singles) =
    (b ∷ bs, d, rw q refl, rw other at, one, (single, singles))

pub get_from-IsFound :
    (image : List ℕ) (l low high s : ℕ) (bs : List Block)
    → l ≤ s
    → low ≤ s
    → s < high
    → (s + 1) * 512 ≤ length image
    → Above (pos l) bs
    → IsCoherent image bs
    → Singles low high bs
    → IsFound image low high s (get_from memory_source (pos s) 1 bs image)
unfolding get_from add_ref new_block rt11fs.Base.Memory.slice
get_from-IsFound image l low high s [] h ge lt fits a c o =
    let same : eq_ℤ (pos s) (pos s) ≡ true = ground arith in
    (
      sector_of image s ∷ [],
      sector_of image s,
      rw (read_sector image s fits) refl,
      rw same refl,
      refl,
      (inl refl, tt),
    )
get_from-IsFound image l low high s (b ∷ bs) h ge lt fits a c o =
    let P : Outcome (Shelf (List ℕ)) (Unit {0}) → Type 0 = IsFound image low high s in
    let (_, _, above) = pass image l b bs c.0 a in
    let ends : b.sector +ℤ pos b.count ≡ pos (pos_part b.sector + b.count) =
      ap (λ z. z +ℤ pos b.count) c.0.at ∙ pos-+ℤ (pos_part b.sector) b.count in
    let same : eq_ℤ (pos s) (pos s) ≡ true = ground arith in
    if_intro P (eq_ℤ b.sector (pos s))
      (λ here.
        if_intro P (b.count == 1)
          (λ one. (
            add_ref b ∷ bs,
            add_ref b,
            refl,
            rw here refl,
            ground arith,
            (inl (ground arith), o.1),
          ))
          (λ many. absurd (ground (arith, o.0))))
      (λ other.
        if_intro P (leb_ℤ (b.sector +ℤ pos b.count) (pos s))
          (λ k. behind-IsFound image low high s b _ other o.0 (
            get_from-IsFound image (pos_part b.sector + b.count) low high s bs
              (ground (arith, ap pos_part ends)) ge lt fits above c.1 o.1))
          (λ before.
            if_intro P (leb_ℤ (pos s +ℤ pos 1) b.sector)
              (λ k. (
                sector_of image s ∷ b ∷ bs,
                sector_of image s,
                rw (read_sector image s fits) refl,
                rw same refl,
                refl,
                (inl refl, o),
              ))
              (λ after. absurd (
                ground (
                  arith,
                  o.0,
                  ap pos_part ends,
                  ap neg_part ends,
                  ap neg_part c.0.at,
                  ap pos_part (pos-+ℤ s 1),
                  ap neg_part (pos-+ℤ s 1),
                )))))

-- The block that a pointer names begins there, at or after the first of the list.
pub block_at-low :
    (image : List ℕ) (l s : ℕ) (bs : List Block) (b : Block)
    → Above (pos l) bs
    → IsCoherent image bs
    → block_at (pos s) bs ≡ some b
    → (l ≤ s) × (b.sector ≡ pos s) × IsHeld image b
block_at-low image l s [] b a c h = cc
block_at-low image l s (d ∷ bs) b a c h =
    let (le, _, above) = pass image l d bs c.0 a in
    elim (Bool-cases (eq_ℤ d.sector (pos s))) [
      | inl e ↦
          let h' : some d ≡ some b = (rw e at h) in
          let here : d ≡ b = cc in
          let at : pos_part d.sector ≡ s = ground (arith, ap neg_part c.0.at) in
          (omega arith, rw (sym here) (c.0.at ∙ ap pos at), rw (sym here) c.0)
      | inr e ↦
          let h' : block_at (pos s) bs ≡ some b = (rw e at h) in
          let (more, at, held) =
            block_at-low image (pos_part d.sector + d.count) s bs b above c.1 h' in
          (omega arith, at, held)
    ]

-- The users see the bytes of the block.
pub block_at-view :
    (image : List ℕ) (l s i : ℕ) (bs : List Block) (b : Block)
    → Above (pos l) bs
    → IsCoherent image bs
    → block_at (pos s) bs ≡ some b
    → i < length b.bytes
    → view image bs (s * 512 + i) ≡ get_elem? b.bytes i
block_at-view image l s i [] b a c h lt = cc
block_at-view image l s i (d ∷ bs) b a c h lt =
    let (le, ends, above) = pass image l d bs c.0 a in
    elim (Bool-cases (eq_ℤ d.sector (pos s))) [
      | inl e ↦
          let h' : some d ≡ some b = (rw e at h) in
          let here : d ≡ b = cc in
          let at : pos_part d.sector ≡ s = ground (arith, ap neg_part c.0.at) in
          let same : length b.bytes ≡ length d.bytes =
            ap (λ (t : Block). length t.bytes) (sym here) in
          let inside : within d (s * 512 + i) ≡ true = ground arith in
          let off : s * 512 + i - start d ≡ i = omega arith in
          rw (inside, off) (ap (λ (t : Block). get_elem? t.bytes i) here)
      | inr e ↦
          let h' : block_at (pos s) bs ≡ some b = (rw e at h) in
          let (more, _, _) = block_at-low image (pos_part d.sector + d.count) s bs b above c.1 h' in
          let outside : within d (s * 512 + i) ≡ false = ground arith in
          rw outside (block_at-view image (pos_part d.sector + d.count) s i bs b above c.1 h' lt)
    ]

-- A use of the block that leaves it as it is.
pub run_at_same :
    {A : Type 0} (bp : ℤ) (m : Action Block A) (b : Block) (bs : List Block) (a : A)
    → block_at bp bs ≡ some b
    → m b ≡ done a b
    → run_at bp m bs ≡ done a bs
unfolding run_at
run_at_same bp m b [] a h same = cc
run_at_same bp m b (d ∷ rest) a h same = elim (Bool-cases (eq_ℤ d.sector bp)) [
  | inl e ↦
      let h' : some d ≡ some b = (rw e at h) in
      let here : d ≡ b = cc in let run : m d ≡ done a d = rw here same in rw (e, run) refl
  | inr e ↦
      let h' : block_at bp rest ≡ some b = (rw e at h) in
      rw (e, run_at_same bp m b rest a h' same) refl
]

pub run_at_throws :
    {A : Type 0} (bp : ℤ) (m : Action Block A) (b : Block) (bs : List Block)
    → block_at bp bs ≡ some b
    → m b ≡ throw out_of_range b
    → run_at bp m bs ≡ throw out_of_range bs
unfolding run_at
run_at_throws bp m b [] h same = cc
run_at_throws bp m b (d ∷ rest) h same = elim (Bool-cases (eq_ℤ d.sector bp)) [
  | inl e ↦
      let h' : some d ≡ some b = (rw e at h) in
      let here : d ≡ b = cc in
      let run : m d ≡ throw out_of_range d = rw here same in rw (e, run) refl
  | inr e ↦
      let h' : block_at bp rest ≡ some b = (rw e at h) in
      rw (e, run_at_throws bp m b rest h' same) refl
]

-- What `putBlock` leaves of the blocks of the cache.
abbrev pub IsPut : List ℕ → ℤ → ℕ → ℕ → List Block → Outcome (List Block) (Unit {0}) → Type 0
IsPut image from low high bs r =
    (bs' : List Block) × (r ≡ done tt bs')
    × Above from bs'
    × IsCoherent image bs'
    × Singles low high bs'
    × ((x : ℕ) → view image bs' x ≡ view image bs x)

pub run_at-IsPut :
    (image : List ℕ) (from : ℤ) (low high : ℕ) (bp : ℤ) (bs : List Block) (b : Block)
    → Above from bs
    → IsCoherent image bs
    → Singles low high bs
    → block_at bp bs ≡ some b
    → IsPut image from low high bs (run_at bp (λ d. done tt (release d)) bs)
unfolding run_at release
run_at-IsPut image from low high bp [] b a c o h = cc
run_at-IsPut image from low high bp (d ∷ bs) b a c o h = elim (Bool-cases (eq_ℤ d.sector bp)) [
  | inl e ↦ (
    release d ∷ bs,
    rw e refl,
    a,
    (record { at = c.0.at; sized = c.0.sized; fits = c.0.fits; clean = c.0.clean }, c.1),
    o,
    λ x. refl,
  )
  | inr e ↦
      let h' : block_at bp bs ≡ some b = (rw e at h) in
      let (bs', q, a', c', o', seen) =
        run_at-IsPut image (d.sector +ℤ pos d.count) low high bp bs b a.2 c.1 o.1 h' in
      (
        d ∷ bs',
        rw (e, q) refl,
        (a.0, a.1, a'),
        (c.0, c'),
        (o.0, o'),
        λ x.
            ap (λ (t : Option ℕ). if within d x then get_elem? d.bytes (x - start d) else t)
              (seen x),
      )
]
