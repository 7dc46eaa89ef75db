-- ===== src/DirPtr/Invariant.antt =====
-- What the operations of directory pointers keep of the directory block.
use rt11fs.Base.{ℕ, zero, suc, ◌≡◌, bit_and, ◌==◌, true, false, inl, inr, Bool-cases, not, ◌||◌}
use rt11fs.Base.{assert, Keeps, keeps_rules, Keeps-bind, Action, loop_until}
use rt11fs.Base.Int.{ℤ, pos, eq_ℤ}
use rt11fs.Block.{Block}
use rt11fs.Block.Invariant.{
  HasShape, get_byte-Keeps, extract_word-Keeps, set_byte-Keeps, set_word-Keeps,
}
use rt11fs.DirConst.{e_eos}
use rt11fs.DirPtr.{
  DirPtr, set_segment, new_dir_ptr, get_word, set_byte_of, set_word_of, set_segment_word,
  has_status, start_segment, step_entry, next, find_segment, find_eos, fuel_of, last_before, prev,
}

module _ {P : Block → Type 0} where
  pub new_dir_ptr-Keeps : Keeps P new_dir_ptr
  unfolding new_dir_ptr
  new_dir_ptr-Keeps = search (keeps_rules, extract_word-Keeps)

  pub get_word-Keeps : (p : DirPtr) (i : ℕ) → Keeps P (get_word p i)
  unfolding get_word
  get_word-Keeps p i = search (keeps_rules, extract_word-Keeps)

  pub has_status-Keeps : (p : DirPtr) (mask : ℕ) → Keeps P (has_status p mask)
  unfolding has_status
  has_status-Keeps p mask = search (keeps_rules, get_word-Keeps)

  start_segment-Keeps : (p : DirPtr) → Keeps P (start_segment p)
  unfolding start_segment
  start_segment-Keeps p = search (keeps_rules, extract_word-Keeps)

  step_entry-Keeps : (p : DirPtr) (status : ℕ) → Keeps P (step_entry p status)
  unfolding step_entry
  step_entry-Keeps p status =
      search (keeps_rules, extract_word-Keeps, get_word-Keeps, start_segment-Keeps)

  pub next-Keeps : (p : DirPtr) → Keeps P (next p)
  unfolding next
  next-Keeps p =
      search
        (keeps_rules, extract_word-Keeps, get_word-Keeps, start_segment-Keeps, step_entry-Keeps)
        depth 8

  pub fuel_of-Keeps : Keeps P fuel_of
  unfolding fuel_of
  fuel_of-Keeps = record { at = λ b h. h }

  find_segment-Keeps : (fuel : ℕ) (goal : ℤ) (p : DirPtr) → Keeps P (find_segment fuel goal p)
  unfolding find_segment
  find_segment-Keeps zero goal p = search keeps_rules
  find_segment-Keeps (suc fuel) goal p = Keeps-bind _ _ (extract_word-Keeps _) λ following.
      Keeps-bind (assert (not (following == 0) || eq_ℤ goal (pos 0))) _ (search keeps_rules) λ _.
        elim (Bool-cases (eq_ℤ (pos following) goal)) [
          | inl e ↦ rw e (search keeps_rules)
          | inr e ↦ rw e (find_segment-Keeps fuel goal (set_segment (pos following) p))
        ]

  find_eos-Keeps : (fuel : ℕ) (p : DirPtr) → Keeps P (find_eos fuel p)
  unfolding find_eos
  find_eos-Keeps zero p = search keeps_rules
  find_eos-Keeps (suc fuel) p = Keeps-bind _ _ (get_word-Keeps p _) λ status.
      elim (Bool-cases (bit_and status e_eos == 0)) [
        | inl e ↦ rw e (search (keeps_rules, next-Keeps, find_eos-Keeps fuel))
        | inr e ↦ rw e (search keeps_rules)
      ]

  last_before-Keeps : (goal : ℤ) (p : DirPtr) → Keeps P (last_before goal p)
  unfolding last_before
  last_before-Keeps goal p =
      search (keeps_rules, fuel_of-Keeps, find_segment-Keeps, start_segment-Keeps, find_eos-Keeps)
        depth 8

  pub prev-Keeps : (p : DirPtr) → Keeps P (prev p)
  unfolding prev
  prev-Keeps p = search (keeps_rules, get_word-Keeps, last_before-Keeps) depth 8

pub ruleset reads_rules = (
  keeps_rules, extract_word-Keeps, get_word-Keeps, has_status-Keeps, next-Keeps, prev-Keeps,
  fuel_of-Keeps, new_dir_ptr-Keeps,
)

module _ {sector : ℤ} {count size : ℕ} where
  pub set_byte_of-Keeps :
      (p : DirPtr) (i v : ℕ) → Keeps (HasShape sector count size) (set_byte_of p i v)
  unfolding set_byte_of
  set_byte_of-Keeps p i v = search set_byte-Keeps

  pub set_word_of-Keeps :
      (p : DirPtr) (i v : ℕ) → Keeps (HasShape sector count size) (set_word_of p i v)
  unfolding set_word_of
  set_word_of-Keeps p i v = search set_word-Keeps

  pub set_segment_word-Keeps :
      (p : DirPtr) (i v : ℕ) → Keeps (HasShape sector count size) (set_segment_word p i v)
  unfolding set_segment_word
  set_segment_word-Keeps p i v = search set_word-Keeps

pub ruleset writes_rules =
    (set_byte-Keeps, set_word-Keeps, set_byte_of-Keeps, set_word_of-Keeps, set_segment_word-Keeps)
