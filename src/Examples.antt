-- ===== src/Examples.antt =====
-- The theorems at concrete inputs.
mod Codes
mod Blocks
mod Tables
mod Directories
mod Caches
mod OpenFiles
mod Volumes
