-- ===== src/FileSystem/Listing.antt =====
-- What `readdir` hands to FUSE, over the directory block in the cache.
use rt11fs.Base.{
  ℕ, suc, ◌≡◌, refl, inl, inr, List, [], ◌∷◌, length, Option, none, some, Option-cases,
}
use rt11fs.Base.{einval, ok, err, Status, done, throw, then_do, out_of_range, Action}
use rt11fs.Base.Text.{Text}
use rt11fs.DataSource.{DataSource}
use rt11fs.Block.{Block}
use rt11fs.BlockCache.{with_block}
use rt11fs.BlockCache.Access.{block_at, run_at_same, run_at_throws}
use rt11fs.DirConst.{e_perm}
use rt11fs.DirPtr.{fuel_of}
use rt11fs.Directory.Scan.{start_scan, list_names}
use rt11fs.Directory.Operations.{Directory}
use rt11fs.Directory.View.{Seg, IsDirectory, pointers}
use rt11fs.Directory.Walk.{start, new_dir_ptr_lem}
use rt11fs.Directory.Names.{names_of, list_names_lem}
use rt11fs.OpenFileTable.{Files, on_cache}
use rt11fs.FileSystem.{readdir, slash, caught}

module _ {D : Type 0} (ds : DataSource D) (dir : Directory) (f : Files D) (b : Block)
    (here : block_at dir.dirblk f.cache.blocks ≡ some b) where
  on_directory_same :
      {A : Type 0} (m : Action Block A) (a : A)
      → m b ≡ done a b
      → on_cache (with_block dir.dirblk m) f ≡ done a f
  unfolding with_block
  on_directory_same m a same = rw (run_at_same dir.dirblk m b f.cache.blocks a here same) refl

  on_directory_throws :
      {A : Type 0} (m : Action Block A)
      → m b ≡ throw out_of_range b
      → on_cache (with_block dir.dirblk m) f ≡ throw out_of_range f
  unfolding with_block
  on_directory_throws m same = rw (run_at_throws dir.dirblk m b f.cache.blocks here same) refl

-- What `readdir` gives for the names.
abbrev pub listing : Option (List Text) → Status (List Text)
listing (some names) = ok names
listing none = err einval

-- When the block of the directory is in the cache and its bytes are in order, `readdir` of the root
-- gives the printed names of the permanent files in the order of the segments, or EINVAL if one of
-- them cannot be printed, and changes nothing.
pub readdir-names_of :
    {D : Type 0} (ds : DataSource D) (dir : Directory) (f : Files D) (b : Block) (e : ℕ)
    (segs : List Seg)
    → block_at dir.dirblk f.cache.blocks ≡ some b
    → IsDirectory b e segs
    → readdir ds dir (slash ∷ []) f ≡ done (listing (names_of b e_perm (pointers b e segs))) f
unfolding readdir start_scan fuel_of
readdir-names_of ds dir f b e segs here d =
    let begin =
      on_directory_same ds dir f b here start_scan (start b e) (new_dir_ptr_lem b e segs d) in
    let fuel = on_directory_same ds dir f b here fuel_of (suc (length b.bytes)) refl in
    let run = list_names_lem b e e_perm segs d in
    elim (Option-cases (names_of b e_perm (pointers b e segs))) [
      | inl none_printed ↦
          let thrown =
            on_directory_throws ds dir f b here
              (list_names (suc (length b.bytes)) e_perm (start b e)) (rw none_printed at run) in
          rw (begin, then_do, fuel, then_do, thrown, then_do, caught, none_printed) refl
      | inr (names, printed) ↦
          let listed =
            on_directory_same ds dir f b here (list_names (suc (length b.bytes)) e_perm (start b e))
              names (rw printed at run) in
          rw (begin, then_do, fuel, then_do, listed, then_do, printed) refl
    ]
