-- ===== src/Directory/Invariant.antt =====
-- What the operations of the directory keep of its block: the scans change nothing, the changes of
-- entries keep the sector of the block, its number of sectors and the size of its data.
pub mod Edits
pub mod Space
pub mod Sessions
pub mod Volume
use rt11fs.Base.{
  ℕ, zero, suc, ◌≡◌, bit_and, List, [], ◌∷◌, Option, none, some, ◌==◌, Bool, true, false, not, inl,
  inr, Bool-cases, Option-cases,
}
use rt11fs.Base.{Keeps, keeps_rules, Keeps-bind, Action, loop_until, ok, err, pure}
use rt11fs.Base.Int.{ℤ, pos, ltb_ℤ}
use rt11fs.Base.Text.{Text}
use rt11fs.Block.{Block}
use rt11fs.Block.Invariant.{extract_word-Keeps}
use rt11fs.DirConst.{Rad50Name, e_mpty}
use rt11fs.DirPtr.{DirPtr, is_valid, after_end, get_word, has_status, next}
use rt11fs.DirPtr.Invariant.{
  reads_rules, get_word-Keeps, has_status-Keeps, next-Keeps, fuel_of-Keeps,
}
use rt11fs.FileName.{parse_filename, print_name}
use rt11fs.Directory.Scan.{
  start_scan, scan_for, scan, word_is, has_name, is_other_than, get_dir_pointer,
  get_dir_pointer_named, get_ent_at, get_ent, move_next_filtered, list_names, count_entry, Usage,
  count_from, statfs, largest_from, find_largest_free_block,
}

module _ {P : Block → Type 0} where
  pub start_scan-Keeps : Keeps P start_scan
  unfolding start_scan
  start_scan-Keeps = search reads_rules

  scan_for-Keeps :
      (fuel : ℕ) (found : DirPtr → Action Block Bool) (p : DirPtr)
      → ((q : DirPtr) → Keeps P (found q))
      → Keeps P (scan_for fuel found p)
  unfolding scan_for
  scan_for-Keeps zero found p k = search keeps_rules
  scan_for-Keeps (suc fuel) found p k = Keeps-bind _ _ (next-Keeps p) λ q.
      elim (Bool-cases (is_valid q)) [
        | inr e ↦ rw e (search keeps_rules)
        | inl e ↦ rw e (
            Keeps-bind (found q) _ (k q) λ hit. elim (Bool-cases hit) [
              | inl e' ↦ rw e' (search keeps_rules)
              | inr e' ↦ rw e' (scan_for-Keeps fuel found q k)
            ])
      ]

  scan-Keeps :
      (found : DirPtr → Action Block Bool) (p : DirPtr)
      → ((q : DirPtr) → Keeps P (found q))
      → Keeps P (scan found p)
  unfolding scan
  scan-Keeps found p k = Keeps-bind _ _ fuel_of-Keeps (λ fuel. scan_for-Keeps fuel found p k)

  word_is-Keeps :
      (p : DirPtr) (i v : ℕ) (rest : Action Block Bool)
      → Keeps P rest
      → Keeps P (word_is p i v rest)
  word_is-Keeps p i v rest k =
      Keeps-bind _ _ (get_word-Keeps p i)
        λ w. elim (Bool-cases (v == w)) [ inl e ↦ rw e k | inr e ↦ rw e (search keeps_rules) ]

  has_name-Keeps : (name : Rad50Name) (p : DirPtr) → Keeps P (has_name name p)
  unfolding has_name
  has_name-Keeps name p =
      word_is-Keeps p _ name.first _
        (word_is-Keeps p _ name.second _ (word_is-Keeps p _ name.extension _ (search keeps_rules)))

  is_other_than-Keeps :
      (masks : List ℕ) (found : DirPtr → Action Block Bool) (p : DirPtr)
      → Keeps P (found p)
      → Keeps P (is_other_than masks found p)
  unfolding is_other_than
  is_other_than-Keeps [] found p k = k
  is_other_than-Keeps (mask ∷ masks) found p k = Keeps-bind _ _ (has_status-Keeps p mask) λ b.
      elim (Bool-cases b) [
        | inl e ↦ rw e (search keeps_rules)
        | inr e ↦ rw e (is_other_than-Keeps masks found p k)
      ]

  pub get_dir_pointer-Keeps : (name : Rad50Name) → Keeps P (get_dir_pointer name)
  unfolding get_dir_pointer
  get_dir_pointer-Keeps name =
      search (keeps_rules, start_scan-Keeps, scan-Keeps, is_other_than-Keeps, has_name-Keeps) depth
        8

  pub get_dir_pointer_named-Keeps : (name : Text) → Keeps P (get_dir_pointer_named name)
  unfolding get_dir_pointer_named
  get_dir_pointer_named-Keeps name = elim (Option-cases (parse_filename name)) [
    | inl e ↦ rw (get_dir_pointer_named, e) (search keeps_rules)
    | inr (rad50, e) ↦
        rw (get_dir_pointer_named, e)
          (search (keeps_rules, start_scan-Keeps, scan-Keeps, is_other_than-Keeps, has_name-Keeps)
            depth 8)
  ]

  pub get_ent_at-Keeps : (p : DirPtr) → Keeps P (get_ent_at p)
  unfolding get_ent_at
  get_ent_at-Keeps p = search (keeps_rules, get_word-Keeps) depth 12

  pub get_ent-Keeps : (name : Text) → Keeps P (get_ent name)
  unfolding get_ent
  get_ent-Keeps name = elim (Option-cases (parse_filename name)) [
    | inl e ↦ rw (get_ent, e) (search keeps_rules)
    | inr (rad50, e) ↦
        rw (get_ent, e) (search (keeps_rules, get_dir_pointer-Keeps, get_ent_at-Keeps))
  ]

  move_next_filtered-Keeps : (p : DirPtr) (mask : ℕ) → Keeps P (move_next_filtered p mask)
  unfolding move_next_filtered
  move_next_filtered-Keeps p mask = scan-Keeps _ p (λ q. search (keeps_rules, get_word-Keeps))

  pub list_names-Keeps : (fuel mask : ℕ) (p : DirPtr) → Keeps P (list_names fuel mask p)
  unfolding list_names
  list_names-Keeps zero mask p = search keeps_rules
  list_names-Keeps (suc fuel) mask p = Keeps-bind _ _ (move_next_filtered-Keeps p mask) λ q.
      elim (Bool-cases (is_valid q)) [
        | inr e ↦ rw e (search keeps_rules)
        | inl e ↦ rw e (
            Keeps-bind _ _ (get_ent_at-Keeps q) λ ent. elim (Option-cases ent) [
              | inl e' ↦ rw e' (list_names-Keeps fuel mask q)
              | inr (x, e') ↦ rw e' (search (keeps_rules, list_names-Keeps fuel))
            ])
      ]

  count_from-Keeps : (fuel : ℕ) (p : DirPtr) (u : Usage) → Keeps P (count_from fuel p u)
  unfolding count_from
  count_from-Keeps zero p u = search keeps_rules
  count_from-Keeps (suc fuel) p u = Keeps-bind _ _ (next-Keeps p) λ q.
      elim (Bool-cases (is_valid q)) [
        | inr e ↦ rw e (search keeps_rules)
        | inl e ↦ rw e (search (keeps_rules, get_word-Keeps, count_from-Keeps fuel))
      ]

  pub statfs-Keeps : (volume_sectors : ℕ) → Keeps P (statfs volume_sectors)
  unfolding statfs
  statfs-Keeps volume_sectors = search (reads_rules, start_scan-Keeps, count_from-Keeps) depth 12

  largest_from-Keeps :
      (fuel : ℕ) (p : DirPtr) (largest : ℤ) (at : DirPtr) → Keeps P (largest_from fuel p largest at)
  unfolding largest_from
  largest_from-Keeps zero p largest at = search keeps_rules
  largest_from-Keeps (suc fuel) p largest at = Keeps-bind _ _ (next-Keeps p) λ q.
      elim (Bool-cases (is_valid q)) [
        | inr e ↦ rw e (search keeps_rules)
        | inl e ↦ rw e (
            Keeps-bind _ _ (has_status-Keeps q e_mpty) λ free. elim (Bool-cases free) [
              | inr e' ↦ rw e' (largest_from-Keeps fuel q largest at)
              | inl e' ↦ rw e' (
                  Keeps-bind _ _ (get_word-Keeps q _) λ len.
                    elim (Bool-cases (ltb_ℤ largest (pos len))) [
                      | inl e'' ↦ rw e'' (largest_from-Keeps fuel q (pos len) q)
                      | inr e'' ↦ rw e'' (largest_from-Keeps fuel q largest at)
                    ])
            ])
      ]

  pub find_largest_free_block-Keeps : Keeps P find_largest_free_block
  unfolding find_largest_free_block
  find_largest_free_block-Keeps =
      search (reads_rules, start_scan-Keeps, largest_from-Keeps) depth 12

pub ruleset scans_rules = (
  reads_rules, start_scan-Keeps, get_dir_pointer-Keeps, get_dir_pointer_named-Keeps, get_ent-Keeps,
  list_names-Keeps, statfs-Keeps, find_largest_free_block-Keeps,
)
