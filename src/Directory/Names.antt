-- ===== src/Directory/Names.antt =====
-- The names that a directory lists.
use rt11fs.Base.{
  ℕ, zero, suc, ◌≤◌, ◌<◌, bit_and, ◌≡◌, refl, inl, inr, List, [], ◌∷◌, Bool, true, false, not,
  length, ◌==◌, arith, Option, none, some, Bool-cases, Option-cases, ◌∙◌, ◌*◌, if◌then◌else◌,
}
use rt11fs.Base.{then_do, pure, fail, of_option, out_of_range, Action, ◌>>=◌}
use rt11fs.Base.Int.{pos_part}
use rt11fs.Base.Text.{Text}
use rt11fs.Block.{Block}
use rt11fs.DirConst.{Rad50Name, status_word}
use rt11fs.DirPtr.{DirPtr, is_valid, after_end, get_word, fuel_of}
use rt11fs.DirPtr.Moves.{IsEntry}
use rt11fs.DirTime.{dir_time_to_time}
use mathlib.Core.Option
use rt11fs.FileName.{print_name}
use rt11fs.Directory.Scan.{
  no_time, DirEnt, scan_for, scan, get_ent_at, move_next_filtered, list_names,
}
use rt11fs.Directory.View.{Seg, IsDirectory, pointers, field, IsWalk}
use rt11fs.Directory.Lookup.{IsTest, field_lem}
use rt11fs.Directory.Walk.{start, start-IsWalk, pointers-fuel}

-- The three words of the name of an entry.
abbrev pub name_at : Block → DirPtr → Rad50Name
name_at b q = record { first = field b q 2; second = field b q 4; extension = field b q 6 }

-- An entry with any of the bits of the mask.
abbrev pub has_any : Block → ℕ → DirPtr → Bool
has_any b mask q = not (bit_and (field b q 0) mask == 0)

abbrev pub with_name : Option Text → Option (List Text) → Option (List Text)
with_name (some name) (some names) = some (name ∷ names)
with_name name names = none

-- The names of the entries with any of the bits, in order; none if one of them cannot be printed.
abbrev pub names_of : Block → ℕ → List DirPtr → Option (List Text)
names_of b mask [] = some []
names_of b mask (q ∷ qs) =
    let rest = names_of b mask qs in
    if has_any b mask q then with_name (print_name (name_at b q)) rest else rest

valid-after_end : (q : DirPtr) → is_valid q ≡ true → after_end q ≡ false
valid-after_end q h = ground arith

-- What `getEnt` reads of an entry whose name it can print.
abbrev pub ent_of : Block → DirPtr → Text → DirEnt
ent_of b q name = record {
  status = field b q 0;
  rad50_name = name_at b q;
  name = name;
  length_in_bytes = field b q 8 * 512;
  sector0 = q.datasec;
  create_tm = Option.get_or (dir_time_to_time (field b q 12)) no_time;
}

abbrev pub ent_at : Block → DirPtr → Option Text → Action Block (Option DirEnt)
ent_at b q (some name) = pure (some (ent_of b q name))
ent_at b q none = fail out_of_range

pub get_ent_at_lem :
    (b : Block) (q : DirPtr)
    → IsEntry b q (pos_part q.segbase)
    → is_valid q ≡ true
    → get_ent_at q b ≡ ent_at b q (print_name (name_at b q)) b
unfolding get_ent_at
get_ent_at_lem b q e valid =
    let f0 = field_lem b q 0 e (omega arith) in
    let f2 = field_lem b q 2 e (omega arith) in
    let f4 = field_lem b q 4 e (omega arith) in
    let f6 = field_lem b q 6 e (omega arith) in
    let f8 = field_lem b q 8 e (omega arith) in
    let f12 = field_lem b q 12 e (omega arith) in
    let t = valid-after_end q valid in
    elim (Option-cases (print_name (name_at b q))) [
      | inr (name, printed) ↦
          rw
            (
              t, f2, then_do, f4, then_do, f6, then_do, printed, of_option, then_do, f0, then_do,
              f8, then_do, f12, then_do,
            )
            refl
      | inl unprinted ↦
          rw (t, f2, then_do, f4, then_do, f6, then_do, unprinted, of_option, then_do) refl
    ]

-- The test of `moveNextFiltered`.
abbrev filtered : ℕ → DirPtr → Action Block Bool
filtered mask q = get_word q status_word >>= λ status. pure (not (bit_and status mask == 0))

filtered-IsTest : (b : Block) (mask : ℕ) → IsTest b (filtered mask) (has_any b mask)
filtered-IsTest b mask q e = rw (field_lem b q 0 e (omega arith)) refl

-- A round of the loop, once it has the next entry.
abbrev body : ℕ → ℕ → DirPtr → Action Block (List Text)
body fuel mask q = elim (is_valid q) [
  | false ↦ pure []
  | true ↦ get_ent_at q >>= λ ent. elim ent [
    | none ↦ list_names fuel mask q
    | some e ↦ list_names fuel mask q >>= λ names. pure (e.name ∷ names)
  ]
]

list_names_step :
    (fuel mask : ℕ) (p : DirPtr) (b : Block)
    → list_names (suc fuel) mask p b
      ≡ then_do (scan_for (suc (length b.bytes)) (filtered mask) p b) (body fuel mask)
unfolding list_names move_next_filtered scan fuel_of
list_names_step fuel mask p b = refl

prepend :
    (name : Text) (o : Option (List Text)) (b : Block)
    → then_do (of_option o out_of_range b) (λ names. pure (name ∷ names))
      ≡ of_option (with_name (some name) o) out_of_range b
prepend name (some names) b = refl
prepend name none b = refl

-- The round of an entry that is listed, with what the rounds behind it give.
list_hit :
    (b : Block) (mask fuel : ℕ) (q : DirPtr) (o : Option (List Text))
    → is_valid q ≡ true
    → IsEntry b q (pos_part q.segbase)
    → then_do (scan_for (suc (length b.bytes)) (filtered mask) q b) (body fuel mask)
      ≡ of_option o out_of_range b
    → body (suc fuel) mask q b ≡ of_option (with_name (print_name (name_at b q)) o) out_of_range b
list_hit b mask fuel q o valid entry rest =
    let later : list_names (suc fuel) mask q b ≡ of_option o out_of_range b =
      list_names_step fuel mask q b ∙ rest in
    elim (Option-cases (print_name (name_at b q))) [
      | inr (name, printed) ↦
          rw (body, valid, get_ent_at_lem b q entry valid, printed, ent_at, then_do, later)
            (prepend name o b)
      | inl unprinted ↦
          rw (body, valid, get_ent_at_lem b q entry valid, unprinted, ent_at, then_do) refl
    ]

list_from-IsWalk :
    (b : Block) (mask fuel k : ℕ) (p : DirPtr) (qs : List DirPtr)
    → IsWalk b p qs
    → length qs ≤ fuel
    → length qs < k
    → length qs ≤ length b.bytes
    → then_do (scan_for k (filtered mask) p b) (body fuel mask)
      ≡ of_option (names_of b mask qs) out_of_range b
unfolding scan_for
list_from-IsWalk b mask fuel zero p qs w h h' all = absurd (omega arith)
list_from-IsWalk b mask fuel (suc k) p [] (q, step, out) h h' all =
    rw (step, then_do, out, then_do, body, out) refl
list_from-IsWalk b mask zero (suc k) p (q ∷ qs) w h h' all = absurd (omega arith)
list_from-IsWalk b mask (suc fuel) (suc k) p (q ∷ qs) (step, valid, entry, w) h h' all =
    let t = filtered-IsTest b mask q entry in
    elim (Bool-cases (has_any b mask q)) [
      | inr miss ↦
          rw (step, then_do, valid, t, then_do, miss)
            (list_from-IsWalk b mask (suc fuel) k q qs w (omega arith) (omega arith) (omega arith))
      | inl hit ↦
          rw (step, then_do, valid, t, then_do, hit)
            (list_hit b mask fuel q (names_of b mask qs) valid entry (
              list_from-IsWalk b mask fuel (suc (length b.bytes)) q qs w (omega arith) (omega arith)
                (omega arith)))
    ]

pub list_names_lem :
    (b : Block) (e mask : ℕ) (segs : List Seg)
    → IsDirectory b e segs
    → list_names (suc (length b.bytes)) mask (start b e) b
      ≡ of_option (names_of b mask (pointers b e segs)) out_of_range b
list_names_lem b e mask segs d =
    let few = pointers-fuel b e segs d in
    list_names_step (length b.bytes) mask (start b e) b
    ∙ list_from-IsWalk b mask (length b.bytes) (suc (length b.bytes)) (start b e)
        (pointers b e segs) (start-IsWalk b e segs d) (omega arith) few (omega arith)
