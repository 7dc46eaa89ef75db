-- ===== src/Directory/Invariant/Edits.antt =====
-- The changes of the directory, with the tracker beside the block.
use rt11fs.Base.{ℕ, zero, suc, Bool, false, inl, inr, Bool-cases, if◌then◌else◌}
use rt11fs.Base.{
  fail, undefined, Keeps, keeps_rules, Keeps-if, Keeps-get_state, Keeps-put_state, Keeps-bind,
  Keeps-or_return, Action, Outcome, done, throw, Status, state_of, loop_until, pure,
}
use rt11fs.Base.Int.{ℤ, pos, leb_ℤ, ◌-ℤ◌}
use rt11fs.Block.{Block}
use rt11fs.Block.Invariant.{HasShape, extract_word-Keeps, copy_within_block-Keeps}
use rt11fs.DirConst.{e_eos}
use rt11fs.DirPtr.{DirPtr, after_end}
use rt11fs.DirPtr.Invariant.{
  reads_rules, writes_rules, next-Keeps, prev-Keeps, has_status-Keeps, fuel_of-Keeps,
  get_word-Keeps,
}
use rt11fs.DirChangeTracker.{
  Editing, with_tracker, on_block, begin_transaction, move_dir_entry, end_transaction,
}
use rt11fs.Directory.Invariant.{start_scan-Keeps}
use rt11fs.Directory.Segment.{
  advance_to_end_of_segment, track_moves, move_entries_within_segment, max_entries_per_segment,
  move_entry_across_segments, clear_name, clear_rest, make_empty_entry, last_entry_from,
  write_new_segment, allocate_new_segment, next_or_new, spill_last_entry, insert_empty_at,
}

module _ {P : Block → Type 0} where
  loop_until-Keeps :
      {A : Type 0} (fuel : ℕ) (test : A → Action Block Bool) (step : A → Action Block A) (x : A)
      → ((a : A) → Keeps P (test a))
      → ((a : A) → Keeps P (step a))
      → Keeps P (loop_until fuel test step x)
  unfolding loop_until
  loop_until-Keeps zero test step x kt ks = search keeps_rules
  loop_until-Keeps (suc fuel) test step x kt ks = Keeps-bind (test x) _ (kt x) λ stop.
      elim (Bool-cases stop) [
        | inl e ↦ rw e (search keeps_rules)
        | inr e ↦ rw e (Keeps-bind (step x) _ (ks x) λ y. loop_until-Keeps fuel test step y kt ks)
      ]

  pub advance_to_end_of_segment-Keeps : (p : DirPtr) → Keeps P (advance_to_end_of_segment p)
  unfolding advance_to_end_of_segment
  advance_to_end_of_segment-Keeps p =
      Keeps-bind _ _ fuel_of-Keeps
        λ fuel. loop_until-Keeps fuel _ _ p (λ q. has_status-Keeps q e_eos) next-Keeps

  last_entry_from-Keeps : (fuel : ℕ) (p : DirPtr) → Keeps P (last_entry_from fuel p)
  unfolding last_entry_from
  last_entry_from-Keeps zero p = search keeps_rules
  last_entry_from-Keeps (suc fuel) p = Keeps-bind _ _ (next-Keeps p) λ q.
      elim (Bool-cases (after_end q)) [
        | inl e ↦ rw e (search keeps_rules)
        | inr e ↦ rw e (last_entry_from-Keeps fuel q)
      ]

-- The shape of the block, whatever the tracker.
abbrev pub BlockShape : ℤ → ℕ → ℕ → Editing → Type 0
BlockShape sector count size s = HasShape sector count size s.block

module _ {sector : ℤ} {count size : ℕ} where
  pub on_block-Keeps :
      {A : Type 0} (m : Action Block A)
      → Keeps (HasShape sector count size) m
      → Keeps (BlockShape sector count size) (on_block m)
  on_block-Keeps {A} m k = record { at = λ s h. step s (m s.block) (k.at s.block h) }
    where
      step :
          (s : Editing) (o : Outcome Block A)
          → HasShape sector count size (state_of o)
          → HasShape sector count size (state_of (with_tracker s.tracker o)).block
      step s (done a b) h = h
      step s (throw e b) h = h

  begin_transaction-Keeps : Keeps (BlockShape sector count size) begin_transaction
  unfolding begin_transaction
  begin_transaction-Keeps = record {
    at = λ s h. elim (Bool-cases s.tracker.in_transaction) [ inl e ↦ rw e h | inr e ↦ rw e h ];
  }

  end_transaction-Keeps : Keeps (BlockShape sector count size) end_transaction
  unfolding end_transaction
  end_transaction-Keeps = record {
    at = λ s h. elim (Bool-cases s.tracker.in_transaction) [ inl e ↦ rw e h | inr e ↦ rw e h ];
  }

  move_dir_entry-Keeps :
      (src dst : DirPtr) → Keeps (BlockShape sector count size) (move_dir_entry src dst)
  unfolding move_dir_entry
  move_dir_entry-Keeps src dst =
      search (Keeps-get_state, Keeps-put_state, keeps_rules, on_block-Keeps, has_status-Keeps) depth
        8

  track_moves-Keeps :
      (left : ℕ) (s d : DirPtr) → Keeps (BlockShape sector count size) (track_moves left s d)
  unfolding track_moves
  track_moves-Keeps zero s d = search keeps_rules
  track_moves-Keeps (suc left) s d =
      search (keeps_rules, move_dir_entry-Keeps, on_block-Keeps, next-Keeps, track_moves-Keeps left)
        depth 8

  pub move_entries_within_segment-Keeps :
      (entry_size : ℕ) (src dst : DirPtr) (n : ℕ)
      → Keeps (BlockShape sector count size) (move_entries_within_segment entry_size src dst n)
  unfolding move_entries_within_segment
  move_entries_within_segment-Keeps entry_size src dst n =
      search
        (
          keeps_rules, begin_transaction-Keeps, track_moves-Keeps, end_transaction-Keeps,
          on_block-Keeps, copy_within_block-Keeps,
        )
        depth 12

  pub move_entry_across_segments-Keeps :
      (entry_size : ℕ) (src dst : DirPtr)
      → Keeps (BlockShape sector count size) (move_entry_across_segments entry_size src dst)
  unfolding move_entry_across_segments
  move_entry_across_segments-Keeps entry_size src dst =
      search
        (
          keeps_rules, begin_transaction-Keeps, move_dir_entry-Keeps, end_transaction-Keeps,
          on_block-Keeps, copy_within_block-Keeps,
        )
        depth 12

  pub clear_name-Keeps : (p : DirPtr) → Keeps (HasShape sector count size) (clear_name p)
  unfolding clear_name
  clear_name-Keeps p = search (keeps_rules, writes_rules)

  pub clear_rest-Keeps : (p : DirPtr) → Keeps (HasShape sector count size) (clear_rest p)
  unfolding clear_rest
  clear_rest-Keeps p = search (keeps_rules, writes_rules)

  pub make_empty_entry-Keeps :
      (p : DirPtr) → Keeps (HasShape sector count size) (make_empty_entry p)
  unfolding make_empty_entry
  make_empty_entry-Keeps p = search (keeps_rules, writes_rules, clear_name-Keeps, clear_rest-Keeps)

  write_new_segment-Keeps :
      (header : ℤ) (segs : ℕ) (data_sector : ℤ)
      → Keeps (HasShape sector count size) (write_new_segment header segs data_sector)
  unfolding write_new_segment
  write_new_segment-Keeps header segs data_sector =
      search (keeps_rules, writes_rules, extract_word-Keeps) depth 20

  allocate_new_segment-Keeps : Keeps (HasShape sector count size) allocate_new_segment
  unfolding allocate_new_segment
  allocate_new_segment-Keeps =
      search
        (
          reads_rules, writes_rules, start_scan-Keeps, last_entry_from-Keeps,
          write_new_segment-Keeps,
        )
        depth 20

  next_or_new-Keeps : (eos : DirPtr) → Keeps (BlockShape sector count size) (next_or_new eos)
  unfolding next_or_new
  next_or_new-Keeps eos =
      search (keeps_rules, on_block-Keeps, next-Keeps, allocate_new_segment-Keeps) depth 12

  spill_last_entry-Keeps :
      (insert : DirPtr → Action Editing (Status (Unit {0}))) (entry_size : ℕ) (p : DirPtr)
      → ((q : DirPtr) → Keeps (BlockShape sector count size) (insert q))
      → Keeps (BlockShape sector count size) (spill_last_entry insert entry_size p)
  unfolding spill_last_entry
  spill_last_entry-Keeps insert entry_size p k =
      search
        (
          keeps_rules, on_block-Keeps, advance_to_end_of_segment-Keeps, next_or_new-Keeps,
          prev-Keeps, get_word-Keeps, writes_rules, clear_name-Keeps,
          move_entry_across_segments-Keeps, k,
        )
        depth 24

pub ruleset shifts_rules = (
  keeps_rules, reads_rules, on_block-Keeps, advance_to_end_of_segment-Keeps,
  move_entries_within_segment-Keeps, make_empty_entry-Keeps,
)

module _ {sector : ℤ} {count size : ℕ} where
  pub insert_empty_at-Keeps :
      (fuel entry_size : ℕ) (p : DirPtr)
      → Keeps (BlockShape sector count size) (insert_empty_at fuel entry_size p)
  unfolding insert_empty_at
  insert_empty_at-Keeps zero entry_size p = search keeps_rules
  insert_empty_at-Keeps (suc fuel) entry_size p =
      Keeps-bind _ _ (on_block-Keeps _ (advance_to_end_of_segment-Keeps p)) λ eos.
        elim (Bool-cases
          (leb_ℤ (pos (max_entries_per_segment entry_size) -ℤ pos 1) (pos eos.index))) [
            | inl e ↦ rw e (
                Keeps-or_return _ _
                  (Keeps-or_return _ _
                    (spill_last_entry-Keeps (insert_empty_at fuel entry_size) entry_size p
                      (insert_empty_at-Keeps fuel entry_size))
                    (λ _. search shifts_rules depth 16))
                  λ end. search shifts_rules depth 16)
            | inr e ↦ rw e (search shifts_rules depth 16)
          ]
