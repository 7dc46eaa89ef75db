-- ===== src/FileDataSource.antt =====
-- fslib/FileDataSource.h and fslib/FileDataSource.cpp: a data source on an open file. The calls of
-- the operating system on its descriptor are a parameter, over the state `S` of the system.
pub mod Contents
use rt11fs.Base.{ℕ, List, length, ◌==◌, if◌then◌else◌}
use rt11fs.Base.{eio, Status, ok, err}
use rt11fs.Base.Int.{ℤ, eq_ℤ}
use rt11fs.DataSource.{DataSource}

-- fstat, lseek from the start of the file, read and write: the size, the offset reached, the bytes
-- read and the number of bytes written; `err` is the errno of a call that gives -1.
pub record Descriptor (S : Type 0) : Type 0 where
  pub fstat : S → Status ℕ × S
  pub lseek : S → ℤ → Status ℤ × S
  pub read : S → ℕ → Status (List ℕ) × S
  pub write : S → List ℕ → Status ℕ × S

module _ {S : Type 0} (fd : Descriptor S) where
  unfoldable pub file_stat : S → Status ℕ × S
  file_stat s = fd.fstat s

  abbrev pub all_read : ℕ → Status (List ℕ) × S → Status (List ℕ) × S
  all_read bytes (err e, s) = (err e, s)
  all_read bytes (ok xfer, s) = if length xfer == bytes then (ok xfer, s) else (err eio, s)

  abbrev pub read_at : ℕ → ℤ → Status ℤ × S → Status (List ℕ) × S
  read_at bytes offset (err e, s) = (err e, s)
  read_at bytes offset (ok seek, s) =
      if eq_ℤ seek offset then all_read bytes (fd.read s bytes) else (err eio, s)

  unfoldable pub file_read : S → ℕ → ℤ → Status (List ℕ) × S
  file_read s bytes offset = read_at bytes offset (fd.lseek s offset)

  abbrev pub all_written : ℕ → Status ℕ × S → Status ℕ × S
  all_written bytes (err e, s) = (err e, s)
  all_written bytes (ok xfer, s) = if xfer == bytes then (ok xfer, s) else (err eio, s)

  abbrev pub write_at : List ℕ → ℤ → Status ℤ × S → Status ℕ × S
  write_at buffer offset (err e, s) = (err e, s)
  write_at buffer offset (ok seek, s) =
      if eq_ℤ seek offset then all_written (length buffer) (fd.write s buffer) else (err eio, s)

  unfoldable pub file_write : S → List ℕ → ℤ → Status ℕ × S
  file_write s buffer offset = write_at buffer offset (fd.lseek s offset)

  abbrev pub file_source : DataSource S
  file_source = record { stat = file_stat; read = file_read; write = file_write }
