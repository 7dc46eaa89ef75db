-- ===== src/FileSystem/Lsdir/Rows.antt =====
-- The rows of `lsdir` against the entries of a directory whose bytes are in order.
use rt11fs.Base.{
  ℕ, zero, suc, ◌<◌, ◌≡◌, refl, inl, inr, List, [], ◌∷◌, true, length, arith, Option, none, some,
  Option-cases,
}
use rt11fs.Base.{done, throw, then_do, pure, of_option, out_of_range}
use rt11fs.Base.Int.{pos_part}
use rt11fs.Base.Text.{Text}
use rt11fs.Block.{Block}
use rt11fs.DirConst.{e_mpty}
use rt11fs.DirPtr.{DirPtr, is_valid, fuel_of}
use rt11fs.DirPtr.Moves.{IsEntry}
use rt11fs.FileName.{print_name}
use rt11fs.Directory.Scan.{start_scan}
use rt11fs.Directory.View.{Seg, IsDirectory, pointers, field, has_bit, IsWalk}
use rt11fs.Directory.Lookup.{field_lem, has_status-IsTest}
use rt11fs.Directory.Walk.{start, new_dir_ptr_lem, start-IsWalk, pointers-fuel}
use rt11fs.Directory.Names.{name_at, ent_of, ent_at, get_ent_at_lem}
use rt11fs.FileSystem.Lsdir.{Row, row_of, row_at, rows_from, lsdir}

-- The row of an entry with its printed name.
abbrev pub named_row : Block → DirPtr → Text → Row
named_row b q name = row_of q (field b q 0) (ent_of b q name) (has_bit b e_mpty q) (field b q 12)

abbrev pub with_row : Block → DirPtr → Option Text → Option (List Row) → Option (List Row)
with_row b q (some name) (some rows) = some (named_row b q name ∷ rows)
with_row b q name rows = none

-- The rows of the entries, in order; none if a name cannot be printed.
abbrev pub all_rows : Block → List DirPtr → Option (List Row)
all_rows b [] = some []
all_rows b (q ∷ qs) = with_row b q (print_name (name_at b q)) (all_rows b qs)

row_at_lem :
    (b : Block) (q : DirPtr) (name : Text)
    → IsEntry b q (pos_part q.segbase)
    → is_valid q ≡ true
    → print_name (name_at b q) ≡ some name
    → row_at q b ≡ done (named_row b q name) b
unfolding row_at
row_at_lem b q name e valid printed =
    let f0 = field_lem b q 0 e (omega arith) in
    let f12 = field_lem b q 12 e (omega arith) in
    let free = has_status-IsTest b e_mpty q e in
    rw
      (
        f0,
        then_do,
        get_ent_at_lem b q e valid,
        printed,
        ent_at,
        then_do,
        free,
        then_do,
        f12,
        then_do,
      )
      refl

row_at_throws :
    (b : Block) (q : DirPtr)
    → IsEntry b q (pos_part q.segbase)
    → is_valid q ≡ true
    → print_name (name_at b q) ≡ none
    → row_at q b ≡ throw out_of_range b
unfolding row_at
row_at_throws b q e valid unprinted =
    let f0 = field_lem b q 0 e (omega arith) in
    rw (f0, then_do, get_ent_at_lem b q e valid, unprinted, ent_at, then_do) refl

prepend :
    (b : Block) (q : DirPtr) (name : Text) (o : Option (List Row))
    → then_do (of_option o out_of_range b) (λ rows. pure (named_row b q name ∷ rows))
      ≡ of_option (with_row b q (some name) o) out_of_range b
prepend b q name (some rows) = refl
prepend b q name none = refl

rows_from-IsWalk :
    (b : Block) (fuel : ℕ) (p : DirPtr) (qs : List DirPtr)
    → IsWalk b p qs
    → length qs < fuel
    → rows_from fuel p b ≡ of_option (all_rows b qs) out_of_range b
unfolding rows_from
rows_from-IsWalk b zero p qs w h = absurd (omega arith)
rows_from-IsWalk b (suc fuel) p [] (q, step, out) h = rw (step, then_do, out) refl
rows_from-IsWalk b (suc fuel) p (q ∷ qs) (step, valid, entry, w) h =
    elim (Option-cases (print_name (name_at b q))) [
      | inl unprinted ↦
          rw (step, then_do, valid, row_at_throws b q entry valid unprinted, then_do, unprinted)
            refl
      | inr (name, printed) ↦
          rw
            (
              step,
              then_do,
              valid,
              row_at_lem b q name entry valid printed,
              then_do,
              rows_from-IsWalk b fuel q qs w (omega arith),
              printed,
            )
            (prepend b q name (all_rows b qs))
    ]

-- In a directory whose bytes are in order, `lsdir` prints one row for each entry of each segment, the
-- end markers among them, in order, or throws if one of their names cannot be printed.
lsdir-all_rows :
    (b : Block) (e : ℕ) (segs : List Seg)
    → IsDirectory b e segs
    → lsdir b ≡ of_option (all_rows b (pointers b e segs)) out_of_range b
unfolding lsdir start_scan fuel_of
lsdir-all_rows b e segs d =
    rw (new_dir_ptr_lem b e segs d, then_do)
      (rows_from-IsWalk b (suc (length b.bytes)) (start b e) (pointers b e segs)
        (start-IsWalk b e segs d) (pointers-fuel b e segs d))
