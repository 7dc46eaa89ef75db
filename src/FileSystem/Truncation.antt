-- ===== src/FileSystem/Truncation.antt =====
-- `ftruncate` of an open file: from the call of FUSE down to the bytes of the directory.
use rt11fs.DataSource.{DataSource}
use rt11fs.Block.{Block}
use rt11fs.Directory.Operations.{Directory}
