-- ===== src/Directory/Invariant/Space.antt =====
-- Free space that is carved, joined, taken and given back, and the entries that are made: what these
-- changes keep.
use rt11fs.Base.{ℕ, zero, suc, false, inl, inr, Bool-cases, if◌then◌else◌}
use rt11fs.Base.{fail, undefined, Keeps, keeps_rules, Keeps-if, Keeps-bind, Keeps-or_return, pure}
use rt11fs.Base.Int.{ℤ}
use rt11fs.DataSource.{DataSource}
use rt11fs.Block.{Block}
use rt11fs.Block.Invariant.{HasShape}
use rt11fs.DirConst.{Rad50Name, status_word, e_tent, e_mpty}
use rt11fs.DirPtr.{DirPtr, set_word_of, after_end, before_start, prev, has_status}
use rt11fs.DirPtr.Invariant.{
  writes_rules, next-Keeps, prev-Keeps, has_status-Keeps, fuel_of-Keeps, get_word-Keeps,
}
use rt11fs.DirTime.{Tm, Stamp, time_to_dir_time}
use rt11fs.DirChangeTracker.{on_block}
use rt11fs.Directory.Invariant.Edits.{
  BlockShape, on_block-Keeps, shifts_rules, insert_empty_at-Keeps,
}
use rt11fs.Directory.Segment.{delete_empty_at}
use rt11fs.Directory.Space.{
  insert_empty, carve_free_block, first_free, join_free, coalesce_neighboring_free_blocks,
  shrink_entry, grow_in_place, has_room_behind,
}
use rt11fs.Directory.Operations.{set_name, create_at, make_entry_permanent}

module _ {P : Block → Type 0} where
  first_free-Keeps : (fuel : ℕ) (p : DirPtr) → Keeps P (first_free fuel p)
  unfolding first_free
  first_free-Keeps zero p = search keeps_rules
  first_free-Keeps (suc fuel) p = Keeps-bind _ _ (prev-Keeps p) λ q.
      elim (Bool-cases (before_start q)) [
        | inl e ↦ rw e (search keeps_rules)
        | inr e ↦ rw e (
            Keeps-bind _ _ (has_status-Keeps q e_mpty) λ free. elim (Bool-cases free) [
              | inl e' ↦ rw e' (first_free-Keeps fuel q)
              | inr e' ↦ rw e' (search keeps_rules)
            ])
      ]

module _ {sector : ℤ} {count size : ℕ} where
  insert_empty-Keeps :
      (entry_size : ℕ) (p : DirPtr)
      → Keeps (BlockShape sector count size) (insert_empty entry_size p)
  unfolding insert_empty
  insert_empty-Keeps entry_size p =
      search (keeps_rules, on_block-Keeps, fuel_of-Keeps, insert_empty_at-Keeps)

  delete_empty_at-Keeps :
      (entry_size : ℕ) (p : DirPtr)
      → Keeps (BlockShape sector count size) (delete_empty_at entry_size p)
  unfolding delete_empty_at
  delete_empty_at-Keeps entry_size p = search (shifts_rules) depth 16

  pub carve_free_block-Keeps :
      (entry_size : ℕ) (p : DirPtr) (n : ℤ)
      → Keeps (BlockShape sector count size) (carve_free_block entry_size p n)
  unfolding carve_free_block
  carve_free_block-Keeps entry_size p n =
      search (shifts_rules, writes_rules, insert_empty-Keeps) depth 16

  join_free-Keeps :
      (fuel entry_size : ℕ) (p : DirPtr)
      → Keeps (BlockShape sector count size) (join_free fuel entry_size p)
  unfolding join_free
  join_free-Keeps zero entry_size p = search keeps_rules
  join_free-Keeps (suc fuel) entry_size p = Keeps-bind _ _ (on_block-Keeps _ (next-Keeps p)) λ q.
      elim (Bool-cases (after_end q)) [
        | inl e ↦ rw e (search keeps_rules)
        | inr e ↦ rw e (
            Keeps-bind _ _ (on_block-Keeps _ (has_status-Keeps q e_mpty)) λ free.
              elim (Bool-cases free) [
                | inr e' ↦ rw e' (search keeps_rules)
                | inl e' ↦ rw e' (
                    search (shifts_rules, writes_rules, delete_empty_at-Keeps, join_free-Keeps fuel)
                      depth 16)
              ])
      ]

  pub coalesce-Keeps :
      (entry_size : ℕ) (p : DirPtr)
      → Keeps (BlockShape sector count size) (coalesce_neighboring_free_blocks entry_size p)
  unfolding coalesce_neighboring_free_blocks
  coalesce-Keeps entry_size p = search (shifts_rules, first_free-Keeps, join_free-Keeps) depth 12

  pub shrink_entry-Keeps :
      (entry_size : ℕ) (p : DirPtr) (n : ℕ)
      → Keeps (BlockShape sector count size) (shrink_entry entry_size p n)
  unfolding shrink_entry
  shrink_entry-Keeps entry_size p n =
      search (shifts_rules, writes_rules, insert_empty-Keeps) depth 16

  pub grow_in_place-Keeps :
      {D : Type 0} (ds : DataSource D) (entry_size : ℕ) (p q : DirPtr) (n : ℤ)
      → Keeps (BlockShape sector count size) (grow_in_place ds entry_size p q n)
  unfolding grow_in_place
  grow_in_place-Keeps ds entry_size p q n =
      search (shifts_rules, writes_rules, delete_empty_at-Keeps) depth 16

  pub set_name-Keeps :
      (p : DirPtr) (name : Rad50Name) → Keeps (HasShape sector count size) (set_name p name)
  unfolding set_name
  set_name-Keeps p name = search (keeps_rules, writes_rules)

  pub make_entry_permanent-Keeps :
      (p : DirPtr) → Keeps (HasShape sector count size) (make_entry_permanent p)
  unfolding make_entry_permanent
  make_entry_permanent-Keeps p = search (keeps_rules, has_status-Keeps, writes_rules)

  stamp-Keeps :
      (stamp : Stamp)
      → Keeps {A = ℕ} (BlockShape sector count size) (elim stamp [
        | Stamp.invalid ↦ pure 0
        | Stamp.stamp w ↦ pure w
        | Stamp.negative_shift ↦ fail undefined
      ])
  stamp-Keeps Stamp.invalid = search keeps_rules
  stamp-Keeps (Stamp.stamp w) = search keeps_rules
  stamp-Keeps Stamp.negative_shift = search keeps_rules

  pub create_at-Keeps :
      (entry_size : ℕ) (name : Rad50Name) (now : Tm) (p : DirPtr)
      → Keeps (BlockShape sector count size) (create_at entry_size name now p)
  unfolding create_at
  create_at-Keeps entry_size name now p =
      Keeps-bind (on_block (prev p)) _ (search shifts_rules) λ before.
        Keeps-bind (if before_start before then pure false else on_block (has_status before e_tent))
          _ (search shifts_rules)
          λ crowded.
            Keeps-or_return _ _
              (Keeps-if crowded _ _ (search (shifts_rules, carve_free_block-Keeps) depth 16)
                (search keeps_rules))
              λ place. Keeps-or_return _ _ (insert_empty-Keeps entry_size place) λ _.
                Keeps-bind (on_block (set_word_of place status_word e_tent)) _
                  (search (shifts_rules, writes_rules))
                  λ _.
                    Keeps-bind (on_block (set_name place name)) _
                      (search (shifts_rules, set_name-Keeps))
                      λ _.
                        Keeps-bind _ _ (stamp-Keeps (time_to_dir_time now))
                          λ w. search (shifts_rules, writes_rules)

pub has_room_behind-Keeps :
    {D : Type 0} (ds : DataSource D) {P : Block → Type 0} (p q : DirPtr) (n : ℤ)
    → Keeps P (has_room_behind ds p q n)
unfolding has_room_behind
has_room_behind-Keeps ds p q n = Keeps-bind _ _ (has_status-Keeps q e_mpty) λ free.
    elim (Bool-cases free) [
      | inr e ↦ rw e (search keeps_rules)
      | inl e ↦ rw e (search (keeps_rules, get_word-Keeps))
    ]
