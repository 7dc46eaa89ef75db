-- ===== src/DataSource.antt =====
-- fslib/DataSource.h, fslib/MemoryDataSource.cpp: the store under the cache. The interface is a
-- record, over the state `D` of the store; what a call does to the store is part of its result.
use rt11fs.Base.{
  ℕ, ◌≡◌, refl, sym, ap, arith, length-take, length-drop, List, Bool, true, false, ◌||◌, length,
  take, drop, replicate, if◌then◌else◌,
}
use rt11fs.Base.{eio, Status, ok, err}
use rt11fs.Base.Int.{ℤ, pos, pos_part, ◌+ℤ◌, +ℤ_parts, ltb_ℤ}
use rt11fs.Base.Memory.{splice}

-- `ok` is a result that is not negative, with the bytes read; `err` is a negated errno.
pub record DataSource (D : Type 0) : Type 0 where
  pub stat : D → Status ℕ × D
  pub read : D → ℕ → ℤ → Status (List ℕ) × D
  pub write : D → List ℕ → ℤ → Status ℕ × D

-- `offset < 0 || offset + bytes > memory.size()`
abbrev pub out_of_bounds : List ℕ → ℕ → ℤ → Bool
out_of_bounds memory bytes offset =
    ltb_ℤ offset (pos 0) || ltb_ℤ (pos (length memory)) (offset +ℤ pos bytes)

unfoldable pub memory_stat : List ℕ → Status ℕ × List ℕ
memory_stat memory = (ok (length memory), memory)

unfoldable pub memory_read : List ℕ → ℕ → ℤ → Status (List ℕ) × List ℕ
memory_read memory bytes offset =
    if out_of_bounds memory bytes offset
    then (err eio, memory)
    else (ok (take bytes (drop (pos_part offset) memory)), memory)

unfoldable pub memory_write : List ℕ → List ℕ → ℤ → Status ℕ × List ℕ
memory_write memory buffer offset =
    if out_of_bounds memory (length buffer) offset
    then (err eio, memory)
    else (ok (length buffer), splice memory (pos_part offset) buffer)

abbrev pub memory_source : DataSource (List ℕ)
memory_source = record { stat = memory_stat; read = memory_read; write = memory_write }

-- A new source of so many zero bytes.
unfoldable pub new_memory : ℕ → List ℕ
new_memory bytes = replicate bytes 0

-- A read that does not fail gives all the bytes asked for.
abbrev pub ReadsInFull : {D : Type 0} → DataSource D → Type 0
ReadsInFull {D} ds =
    (d d' : D) (n : ℕ) (at : ℤ) (bytes : List ℕ)
    → ds.read d n at ≡ (ok bytes, d')
    → length bytes ≡ n

pub memory_source-ReadsInFull : ReadsInFull memory_source
unfolding memory_read
memory_source-ReadsInFull d d' n at bytes h = by_case (out_of_bounds d n at) refl h
  where
    by_case :
        (bad : Bool)
        → out_of_bounds d n at ≡ bad
        → ◌≡◌ {A = Status (List ℕ) × List ℕ}
            (if bad then (err eio, d) else (ok (take n (drop (pos_part at) d)), d))
            (ok bytes, d')
        → length bytes ≡ n
    by_case true e h = let k : err eio ≡ ok bytes = ap (λ p. p.0) h in cc
    by_case false e h =
        let k : ok (take n (drop (pos_part at) d)) ≡ ok bytes = ap (λ p. p.0) h in
        let same : take n (drop (pos_part at) d) ≡ bytes = cc in
        let k2 : length bytes ≡ length (take n (drop (pos_part at) d)) = ap length (sym same) in
        ground (
          arith,
          length-take n (drop (pos_part at) d),
          length-drop (pos_part at) d,
          +ℤ_parts at (pos n),
        )
