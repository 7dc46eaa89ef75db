-- ===== src/BlockCache/Change.antt =====
-- A change of the bytes of the block that a pointer names, as the users of the cache see it.
use rt11fs.Base.{
  ℕ, ◌+◌, ◌-◌, ◌*◌, ◌≤◌, ◌<◌, ◌≡◌, refl, sym, ap, ◌∙◌, inl, inr, List, [], ◌∷◌, true, false, ◌&&◌,
  Option, some, length, take, drop, length-take, length-drop, get_elem?, get_elem?-take,
  get_elem?-drop, ltb, leb, arith, Bool-cases, if◌then◌else◌,
}
use rt11fs.Base.{Outcome, Action, done}
use rt11fs.Base.Int.{ℤ, pos, pos_part, neg_part, ◌+ℤ◌, pos-+ℤ, eq_ℤ}
use rt11fs.Base.Memory.{splice, get_elem?-splice, length-splice}
use rt11fs.Block.{Block}
use rt11fs.BlockCache.{run_at}
use rt11fs.BlockCache.Order.{Above}
use rt11fs.BlockCache.View.{start, within, view, IsCoherent, pass}
use rt11fs.BlockCache.Access.{block_at, Singles, block_at-low}

-- `ys` in the place of what stands from `at` on.
abbrev pub over : (ℕ → Option ℕ) → ℕ → List ℕ → ℕ → Option ℕ
over f at ys x = if leb at x && ltb x (at + length ys) then get_elem? ys (x - at) else f x

abbrev pub changed : Block → List ℕ → Block
changed b out = record b { bytes = out; dirty = true }

view-changed :
    (image : List ℕ) (d : Block) (bs : List Block) (out : List ℕ) (s x : ℕ)
    → length out ≡ length d.bytes
    → pos_part d.sector ≡ s
    → view image (changed d out ∷ bs) x ≡ over (view image (d ∷ bs)) (s * 512) out x
view-changed image d bs out s x same at = elim (Bool-cases (within (changed d out) x)) [
  | inl e ↦
      let inside : (leb (s * 512) x && ltb x (s * 512 + length out)) ≡ true = ground arith in
      let off : x - start d ≡ x - s * 512 = omega arith in rw (e, inside) (ap (get_elem? out) off)
  | inr e ↦
      let outside : (leb (s * 512) x && ltb x (s * 512 + length out)) ≡ false = ground arith in
      let before : within d x ≡ false = ground arith in rw (e, outside, before) refl
]

abbrev pub IsChanged :
    List ℕ → ℤ → ℕ → ℕ → ℕ → List Block → List ℕ → Outcome (List Block) (Unit {0}) → Type 0
IsChanged image from low high s bs out r =
    (bs' : List Block) × (b' : Block) × (r ≡ done tt bs')
    × Above from bs'
    × IsCoherent image bs'
    × Singles low high bs'
    × (block_at (pos s) bs' ≡ some b')
    × ((x : ℕ) → view image bs' x ≡ over (view image bs) (s * 512) out x)

pub run_at-IsChanged :
    (image : List ℕ) (l low high s : ℕ) (m : Action Block (Unit {0})) (bs : List Block) (b : Block)
    (out : List ℕ)
    → Above (pos l) bs
    → IsCoherent image bs
    → Singles low high bs
    → block_at (pos s) bs ≡ some b
    → length out ≡ length b.bytes
    → m b ≡ done tt (changed b out)
    → IsChanged image (pos l) low high s bs out (run_at (pos s) m bs)
unfolding run_at
run_at-IsChanged image l low high s m [] b out a c o h size run = cc
run_at-IsChanged image l low high s m (d ∷ bs) b out a c o h size run =
    let (le, ends, above) = pass image l d bs c.0 a in
    elim (Bool-cases (eq_ℤ d.sector (pos s))) [
      | inl e ↦
          let h' : some d ≡ some b = (rw e at h) in
          let here : d ≡ b = cc in
          let run' : m d ≡ done tt (changed d out) = rw here run in
          let same : length out ≡ length d.bytes =
            size ∙ ap (λ (t : Block). length t.bytes) (sym here) in
          let at : pos_part d.sector ≡ s = ground (arith, ap neg_part c.0.at) in
          (
            changed d out ∷ bs,
            changed d out,
            rw (e, run') refl,
            a,
            (
              record {
                at = c.0.at;
                sized = same ∙ c.0.sized;
                fits = omega (arith, c.0.fits);
                clean = inl refl;
              },
              c.1,
            ),
            o,
            rw e refl,
            λ x. view-changed image d bs out s x same at,
          )
      | inr e ↦
          let h' : block_at (pos s) bs ≡ some b = (rw e at h) in
          let (more, _, held) =
            block_at-low image (pos_part d.sector + d.count) s bs b above c.1 h' in
          let (bs', b', q, a', c', o', at', seen) =
            run_at-IsChanged image (pos_part d.sector + d.count) low high s m bs b out above c.1 o.1
              h' size run in
          let ends' : d.sector +ℤ pos d.count ≡ pos (pos_part d.sector + d.count) =
            ap (λ z. z +ℤ pos d.count) c.0.at ∙ pos-+ℤ (pos_part d.sector) d.count in
          (
            d ∷ bs',
            b',
            rw (e, q) refl,
            (a.0, a.1, rw ends' a'),
            (c.0, c'),
            (o.0, o'),
            rw e at',
            λ x. elim (Bool-cases (within d x)) [
              | inl i ↦
                  let outside : (leb (s * 512) x && ltb x (s * 512 + length out)) ≡ false =
                    ground arith in
                  rw (i, outside) refl
              | inr i ↦ rw i (seen x)
            ],
          )
    ]

-- A change of a part of a sector.
pub over-splice :
    (f : ℕ → Option ℕ) (at d : ℕ) (bytes ys : List ℕ) (x : ℕ)
    → d + length ys ≤ length bytes
    → ((i : ℕ) → i < length bytes → f (at + i) ≡ get_elem? bytes i)
    → over f at (splice bytes d ys) x ≡ over f (at + d) ys x
over-splice f at d bytes ys x fits same =
    let size = length-splice bytes d ys fits in
    let elem = get_elem?-splice bytes d ys (x - at) fits in
    elim (Bool-cases (leb (at + d) x && ltb x (at + d + length ys))) [
      | inl e ↦
          let whole : (leb at x && ltb x (at + length (splice bytes d ys))) ≡ true =
            ground (arith, size) in
          let part : (leb d (x - at) && ltb (x - at) (d + length ys)) ≡ true = ground arith in
          let off : x - at - d ≡ x - (at + d) = omega arith in
          rw (e, whole) (elem ∙ rw part (ap (get_elem? ys) off))
      | inr e ↦ elim (Bool-cases (leb at x && ltb x (at + length (splice bytes d ys)))) [
        | inr o ↦ rw (e, o) refl
        | inl i ↦
            let part : (leb d (x - at) && ltb (x - at) (d + length ys)) ≡ false = ground arith in
            let off : at + (x - at) ≡ x = ground arith in
            rw (e, i) (elem ∙ rw part (sym (same (x - at) (ground (arith, size))) ∙ ap f off))
      ]
    ]

-- A change in two parts, the second behind the first.
pub over-over :
    (f : ℕ → Option ℕ) (at n : ℕ) (ys : List ℕ) (x : ℕ)
    → n ≤ length ys
    → over (over f at (take n ys)) (at + n) (drop n ys) x ≡ over f at ys x
over-over f at n ys x le =
    let t = length-take n ys in
    let r = length-drop n ys in
    let et = get_elem?-take n ys (x - at) in
    let er = get_elem?-drop n ys (x - (at + n)) in
    elim (Bool-cases (leb (at + n) x && ltb x (at + n + length (drop n ys)))) [
      | inl e ↦
          let all : (leb at x && ltb x (at + length ys)) ≡ true = ground (arith, r) in
          let off : n + (x - (at + n)) ≡ x - at = ground arith in
          rw (e, all) (er ∙ ap (get_elem? ys) off)
      | inr e ↦ elim (Bool-cases (leb at x && ltb x (at + length (take n ys)))) [
        | inl i ↦
            let all : (leb at x && ltb x (at + length ys)) ≡ true = ground (arith, t) in
            let low : ltb (x - at) n ≡ true = ground (arith, t) in rw (e, i, all) (et ∙ rw low refl)
        | inr o ↦
            let none_of : (leb at x && ltb x (at + length ys)) ≡ false = ground (arith, t, r) in
            rw (e, o, none_of) refl
      ]
    ]
