-- ===== src/Directory.antt =====
-- fslib/Directory.h and fslib/Directory.cpp: the directory of a volume. `Scan` reads it, `Segment`
-- and `Space` change entries and segments, `Operations` holds what the other classes call.
pub mod Scan
pub mod Segment
pub mod Space
pub mod Operations
pub mod View
pub mod Walk
pub mod Lookup
pub mod Totals
pub mod Names
pub mod Invariant
pub mod Lengths
pub mod Carve
pub mod Transfer
pub mod Resize
pub mod Truncate
pub mod Empty
pub mod Shift
pub mod Insert
pub mod Inserted
pub mod Refinement
