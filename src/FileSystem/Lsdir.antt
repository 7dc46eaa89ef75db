-- ===== src/FileSystem/Lsdir.antt =====
-- `lsdir` of fslib/FileSystem.cpp: the rows that it prints. How a row is laid out is left out.
pub mod Rows
use rt11fs.Base.{
  ℕ, zero, suc, ◌*◌, ◌/◌, ◌+◌, ◌^◌, bit_and, Option, none, some, List, [], ◌∷◌, Bool, true, false,
  not, ◌==◌, if◌then◌else◌,
}
use rt11fs.Base.{no_fuel, Action, pure, fail, ◌>>=◌}
use rt11fs.Base.Int.{ℤ, pos, ◌-ℤ◌}
use mathlib.Core.Option
use rt11fs.Base.Text.{Text}
use rt11fs.Block.{Block, sector_size}
use rt11fs.DirConst.{
  e_tent, e_mpty, e_perm, e_eos, e_read, e_prot, e_pre, status_word, creation_date_word,
}
use rt11fs.DirPtr.{DirPtr, is_valid, get_word, has_status, next, fuel_of}
use rt11fs.Directory.Scan.{DirEnt, no_time, get_ent_at, start_scan}

pub record ListedDate : Type 0 where
  pub year : ℕ
  pub month : ℤ
  pub day : ℕ

-- One line: `<FREE>` is a name `none`, a date that is not set `none`.
pub record Row : Type 0 where
  pub segment : ℤ
  pub index : ℕ
  pub name : Option Text
  pub sectors : ℕ
  pub sector0 : ℤ
  pub date : Option ListedDate
  pub tentative : Bool
  pub empty : Bool
  pub permanent : Bool
  pub end_of_segment : Bool
  pub read_only : Bool
  pub protected_file : Bool
  pub has_prefix : Bool

-- `DirEnt {}`
abbrev no_entry : DirEnt
no_entry = record {
  status = 0;
  rad50_name = record { first = 0; second = 0; extension = 0 };
  name = [];
  length_in_bytes = 0;
  sector0 = pos 0;
  create_tm = no_time;
}

unfoldable pub listed_date : ℕ → Option ListedDate
listed_date date =
    if date == 0
    then none
    else (let age = bit_and (date / 2 ^ 14) 0x03 in
        let month = bit_and (date / 2 ^ 9) 0x0f in
        let day = bit_and (date / 2 ^ 4) 0x1f in
        let year = bit_and date 0x1f in
        some (record { year = year + (1972 + 32 * age); month = pos month -ℤ pos 1; day = day }))

abbrev pub is_set : ℕ → ℕ → Bool
is_set status mask = not (bit_and status mask == 0)

unfoldable pub row_of : DirPtr → ℕ → DirEnt → Bool → ℕ → Row
unfolding listed_date
row_of p status ent free date = record {
  segment = p.segment;
  index = p.index;
  name = if free then none else some ent.name;
  sectors = ent.length_in_bytes / sector_size;
  sector0 = ent.sector0;
  date = listed_date date;
  tentative = is_set status e_tent;
  empty = is_set status e_mpty;
  permanent = is_set status e_perm;
  end_of_segment = is_set status e_eos;
  read_only = is_set status e_read;
  protected_file = is_set status e_prot;
  has_prefix = is_set status e_pre;
}

-- One round of the loop.
unfoldable pub row_at : DirPtr → Action Block Row
row_at p = do
  status ← get_word p status_word
  ent ← get_ent_at p
  free ← has_status p e_mpty
  date ← get_word p creation_date_word
  pure (row_of p status (Option.get_or ent no_entry) free date)

unfoldable pub rows_from : ℕ → DirPtr → Action Block (List Row)
rows_from zero p = fail no_fuel
rows_from (suc fuel) p = next p >>= λ q. elim (is_valid q) [
  | false ↦ pure []
  | true ↦ row_at q >>= λ row. rows_from fuel q >>= λ rows. pure (row ∷ rows)
]

unfoldable pub lsdir : Action Block (List Row)
unfolding rows_from
lsdir = do dirp ← start_scan; fuel ← fuel_of; rows_from fuel dirp
