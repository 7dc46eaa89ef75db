-- ===== src/Directory/Lookup.antt =====
-- What the look-ups find in a directory whose bytes are in order.
use rt11fs.Base.{
  ℕ, zero, suc, ◌≤◌, ◌<◌, ◌≡◌, refl, ap, inl, inr, List, [], ◌∷◌, Bool, true, false, not, ◌&&◌,
  length, ◌==◌, arith, Option, none, some, Bool-cases, if◌then◌else◌,
}
use rt11fs.Base.{done, then_do, Status, ok, err, enoent, Action}
use rt11fs.Base.Int.{pos_part}
use rt11fs.Base.Text.{Text}
use rt11fs.Block.{Block}
use rt11fs.DirConst.{e_mpty, e_eos, Rad50Name}
use rt11fs.DirPtr.{DirPtr, is_valid, has_status, get_word, fuel_of}
use rt11fs.DirPtr.Moves.{IsEntry, get_word_lem}
use rt11fs.FileName.{parse_filename}
use rt11fs.Directory.Scan.{
  scan_for, scan, has_name, is_other_than, get_dir_pointer_named, start_scan,
}
use rt11fs.Directory.View.{Seg, IsDirectory, pointers, field, has_bit, is_named, is_file_of, IsWalk}
use rt11fs.Directory.Walk.{start, new_dir_ptr_lem, start-IsWalk, pointers-fuel}

-- The first of the entries that passes.
abbrev pub first_match : (DirPtr → Bool) → List DirPtr → Option DirPtr
first_match f [] = none
first_match f (q ∷ qs) = if f q then some q else first_match f qs

-- What a loop stops at: the entry, or a pointer out of the directory if there is none.
abbrev pub IsHit : Option DirPtr → DirPtr → Type 0
IsHit (some r) q = (q ≡ r) × (is_valid q ≡ true)
IsHit none q = is_valid q ≡ false

-- A test on an entry that changes nothing.
abbrev pub IsTest : Block → (DirPtr → Action Block Bool) → (DirPtr → Bool) → Type 0
IsTest b found f = (q : DirPtr) → IsEntry b q (pos_part q.segbase) → found q b ≡ done (f q) b

-- The loop of a scan stops at the first entry that passes its test.
pub scan_for-IsWalk :
    (b : Block) (found : DirPtr → Action Block Bool) (f : DirPtr → Bool) (fuel : ℕ) (p : DirPtr)
    (qs : List DirPtr)
    → IsTest b found f
    → IsWalk b p qs
    → length qs < fuel
    → (q : DirPtr) × (scan_for fuel found p b ≡ done q b) × IsHit (first_match f qs) q
unfolding scan_for
scan_for-IsWalk b found f zero p qs t w h = absurd (omega arith)
scan_for-IsWalk b found f (suc fuel) p [] t (q, step, out) h =
    (q, rw (step, then_do, out) refl, out)
scan_for-IsWalk b found f (suc fuel) p (q ∷ qs) t (step, valid, entry, w) h =
    elim (Bool-cases (f q)) [
      | inl hit ↦ (q, rw (step, then_do, valid, t q entry, then_do, hit) refl, rw hit (refl, valid))
      | inr miss ↦
          let (r, run, out) = scan_for-IsWalk b found f fuel q qs t w (omega arith) in
          (r, rw (step, then_do, valid, t q entry, then_do, miss) run, rw miss out)
    ]

pub field_lem :
    (b : Block) (q : DirPtr) (d : ℕ)
    → IsEntry b q (pos_part q.segbase)
    → d ≤ 12
    → get_word q d b ≡ done (field b q d) b
field_lem b q d e h = get_word_lem b q (pos_part q.segbase) d e h

pub has_status-IsTest : (b : Block) (mask : ℕ) → IsTest b (λ q. has_status q mask) (has_bit b mask)
unfolding has_status
has_status-IsTest b mask q e = rw (field_lem b q 0 e (omega arith)) refl

has_name-IsTest : (b : Block) (name : Rad50Name) → IsTest b (has_name name) (is_named b name)
unfolding has_name
has_name-IsTest b name q e =
    let f2 = field_lem b q 2 e (omega arith) in
    let f4 = field_lem b q 4 e (omega arith) in
    let f6 = field_lem b q 6 e (omega arith) in
    elim (Bool-cases (name.first == field b q 2)) [
      | inr m ↦ rw (f2, then_do, m) refl
      | inl h ↦ elim (Bool-cases (name.second == field b q 4)) [
        | inr m ↦ rw (f2, then_do, h, f4, then_do, m) refl
        | inl h' ↦ elim (Bool-cases (name.extension == field b q 6)) [
          | inr m ↦ rw (f2, then_do, h, f4, then_do, h', f6, then_do, m) refl
          | inl h'' ↦ rw (f2, then_do, h, f4, then_do, h', f6, then_do, h'') refl
        ]
      ]
    ]

is_other_than-IsTest :
    (b : Block) (mask : ℕ) (masks : List ℕ) (found : DirPtr → Action Block Bool) (f : DirPtr → Bool)
    → IsTest b (is_other_than masks found) f
    → IsTest b (is_other_than (mask ∷ masks) found) (λ q. not (has_bit b mask q) && f q)
unfolding is_other_than
is_other_than-IsTest b mask masks found f t q e = elim (Bool-cases (has_bit b mask q)) [
  | inl h ↦ rw (has_status-IsTest b mask q e, then_do, h) refl
  | inr m ↦ rw (has_status-IsTest b mask q e, then_do, m) (t q e)
]

-- What a look-up by name gives for the entry that was found.
abbrev pub named_result : Option DirPtr → Status DirPtr
named_result (some q) = ok q
named_result none = err enoent

hit_result :
    (o : Option DirPtr) (q : DirPtr)
    → IsHit o q
    → (if is_valid q then ok q else err enoent) ≡ named_result o
hit_result (some r) q (same, valid) = rw valid (ap ok same)
hit_result none q out = rw out refl

-- In a directory whose bytes are in order, a look-up of a name that can be parsed gives the first
-- entry in the order of the segments that is a file of that name, or ENOENT if there is none, and
-- changes nothing.
pub get_dir_pointer_named-first_match :
    (b : Block) (e : ℕ) (segs : List Seg) (name : Text) (rad50 : Rad50Name)
    → IsDirectory b e segs
    → parse_filename name ≡ some rad50
    → get_dir_pointer_named name b
      ≡ done (named_result (first_match (is_file_of b rad50) (pointers b e segs))) b
unfolding get_dir_pointer_named start_scan scan fuel_of is_other_than
get_dir_pointer_named-first_match b e segs name rad50 d parsed =
    let found = is_other_than (e_mpty ∷ e_eos ∷ []) (has_name rad50) in
    let t : IsTest b found (is_file_of b rad50) = is_other_than-IsTest b e_mpty (e_eos ∷ []) _ _ (
      is_other_than-IsTest b e_eos [] (has_name rad50) (is_named b rad50)
        (has_name-IsTest b rad50)) in
    let (q, run, hit) =
      scan_for-IsWalk b found (is_file_of b rad50) (suc (length b.bytes)) (start b e)
        (pointers b e segs) t (start-IsWalk b e segs d) (pointers-fuel b e segs d) in
    rw (parsed, get_dir_pointer_named, new_dir_ptr_lem b e segs d, then_do, run)
      (ap (λ r. done r b) (hit_result (first_match (is_file_of b rad50) (pointers b e segs)) q hit))
