-- ===== src/Directory/Invariant/Sessions.antt =====
-- Edits of the directory in the cache, and the tracker and the pointer that an operation works with:
-- what they keep of the blocks of the cache.
use rt11fs.Base.{ℕ, inl, inr, List, [], ◌∷◌, length, Bool-cases}
use rt11fs.Base.{Keeps, Outcome, done, throw, Action, state_of, get_state}
use rt11fs.Base.Int.{ℤ, pos, ◌+ℤ◌, eq_ℤ}
use rt11fs.Block.{Block}
use rt11fs.Block.Invariant.{HasShape}
use rt11fs.BlockCache.{Cache}
use rt11fs.BlockCache.Invariant.{IsLaidOut, IsWellFormed, KeepsShape, same_shape, IsLaidOut-again}
use rt11fs.DirPtr.{DirPtr}
use rt11fs.DirChangeTracker.{Tracker, Editing, new_tracker, on_block}
use rt11fs.Directory.Space.{
  Session, edit, edit_at, edited, kept, session_with, session_of, on_cache, set_dirp,
}
use rt11fs.Directory.Operations.{
  Pointed, pointed_with, pointed_end, on_pointed, tracked_at, tracked, session_end,
}
use rt11fs.Directory.Invariant.Edits.{BlockShape, on_block-Keeps}

-- An edit that changes neither the place nor the size of the block.
abbrev pub KeepsBlock : {A : Type 0} → Action Editing A → Type 0
KeepsBlock m = (sector : ℤ) (count size : ℕ) → Keeps (BlockShape sector count size) m

abbrev pub HasCache : {D : Type 0} → Session D → Type 0
HasCache s = IsWellFormed s.cache

edit_at-IsLaidOut :
    {A : Type 0} (low bp : ℤ) (m : Action Editing A) (bs : List Block) (t : Tracker)
    → KeepsBlock m
    → IsLaidOut low bs
    → IsLaidOut low (state_of (edit_at bp m bs t)).0
unfolding edit_at
edit_at-IsLaidOut low bp m [] t k h = h
edit_at-IsLaidOut {A} low bp m (b ∷ rest) t k h = elim (Bool-cases (eq_ℤ b.sector bp)) [
  | inl e ↦ rw e (
      here (m (record { block = b; tracker = t })) (
        (k b.sector b.count (length b.bytes)).at (record { block = b; tracker = t })
          (same_shape b)))
  | inr e ↦ rw e (
      there (edit_at bp m rest t)
        (edit_at-IsLaidOut (b.sector +ℤ pos b.count) bp m rest t k (h.0.2, h.1.1)))
]
  where
    here :
        (o : Outcome Editing A)
        → HasShape b.sector b.count (length b.bytes) (state_of o).block
        → IsLaidOut low (state_of (edited rest o)).0
    here (done a s) shape = IsLaidOut-again low b s.block rest shape h
    here (throw e s) shape = IsLaidOut-again low b s.block rest shape h

    there :
        (o : Outcome (List Block × Tracker) A)
        → IsLaidOut (b.sector +ℤ pos b.count) (state_of o).0
        → IsLaidOut low (state_of (kept b o)).0
    there (done a (bs, t')) (above, all) = ((h.0.0, h.0.1, above), (h.1.0, all))
    there (throw e (bs, t')) (above, all) = ((h.0.0, h.0.1, above), (h.1.0, all))

-- The cache that a caller's pointer comes with.
abbrev pub PointsInto : {D : Type 0} → Pointed D → Type 0
PointsInto p = IsWellFormed p.cache

module _ {D : Type 0} where
  pub edit-Keeps :
      {A : Type 0} (bp : ℤ) (m : Action Editing A)
      → KeepsBlock m
      → Keeps (HasCache {D = D}) (edit bp m)
  unfolding edit
  edit-Keeps {A} bp m k = record {
    at = λ s (low, h). (
      low,
      step s low (edit_at bp m s.cache.blocks s.tracker)
          (edit_at-IsLaidOut low bp m s.cache.blocks s.tracker k h),
    );
  }
    where
      step :
          (s : Session D) (low : ℤ) (o : Outcome (List Block × Tracker) A)
          → IsLaidOut low (state_of o).0
          → IsLaidOut low (state_of (session_with s o)).cache.blocks
      step s low (done a (bs, t)) h = h
      step s low (throw e (bs, t)) h = h

  pub look-Keeps :
      {A : Type 0} (bp : ℤ) (m : Action Block A)
      → KeepsShape m
      → Keeps (HasCache {D = D}) (edit bp (on_block m))
  look-Keeps bp m k =
      edit-Keeps bp (on_block m) (λ sector count size. on_block-Keeps m (k sector count size))

  pub on_cache-Keeps :
      {A : Type 0} (m : Action (Cache D) A)
      → Keeps IsWellFormed m
      → Keeps (HasCache {D = D}) (on_cache m)
  on_cache-Keeps {A} m k = record { at = λ s h. step s (m s.cache) (k.at s.cache h) }
    where
      step :
          (s : Session D) (o : Outcome (Cache D) A)
          → IsWellFormed (state_of o)
          → HasCache (state_of (session_of s o))
      step s (done a c) h = h
      step s (throw e c) h = h

  pub set_dirp-Keeps : (p : DirPtr) → Keeps (HasCache {D = D}) (set_dirp p)
  set_dirp-Keeps p = record { at = λ s h. h }

  pub tracked-Keeps :
      {A : Type 0} (p : DirPtr) (m : Action (Session D) A)
      → Keeps (HasCache {D = D}) m
      → Keeps IsWellFormed (tracked p m)
  tracked-Keeps {A} p m k = record { at = λ c h. step (m (begun c)) (k.at (begun c) h) }
    where
      begun : Cache D → Session D
      begun c = record { cache = c; tracker = new_tracker; dirp = p }

      step :
          (o : Outcome (Session D) A)
          → HasCache (state_of o)
          → IsWellFormed (state_of (session_end o))
      step (done a s) h = h
      step (throw e s) h = h

  pub on_pointed-Keeps :
      {A : Type 0} (m : Action (Cache D) A)
      → Keeps IsWellFormed m
      → Keeps (PointsInto {D = D}) (on_pointed m)
  on_pointed-Keeps {A} m k = record { at = λ p h. step p (m p.cache) (k.at p.cache h) }
    where
      step :
          (p : Pointed D) (o : Outcome (Cache D) A)
          → IsWellFormed (state_of o)
          → PointsInto (state_of (pointed_with p o))
      step p (done a c) h = h
      step p (throw e c) h = h

  pub get_pointed-Keeps : Keeps (PointsInto {D = D}) get_state
  get_pointed-Keeps = record { at = λ p h. h }

  pub tracked_at-Keeps :
      {A : Type 0} (m : Action (Session D) A)
      → Keeps (HasCache {D = D}) m
      → Keeps (PointsInto {D = D}) (tracked_at m)
  tracked_at-Keeps {A} m k = record { at = λ p h. step (m (begun p)) (k.at (begun p) h) }
    where
      begun : Pointed D → Session D
      begun p = record { cache = p.cache; tracker = new_tracker; dirp = p.dirp }

      step :
          (o : Outcome (Session D) A)
          → HasCache (state_of o)
          → PointsInto (state_of (pointed_end o))
      step (done a s) h = h
      step (throw e s) h = h
