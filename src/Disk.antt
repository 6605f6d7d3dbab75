-- ===== src/Disk.antt =====
-- What the code sees of one file: what it leads to when it is read, and how a write ends.
use cofiswarm_dispatch.Prelude.{Text}

pub data File : Type 0 where
  missing unreadable : File
  bytes : Text → File

-- A write of the whole file succeeds, or fails and leaves some file behind.
pub data Write : Type 0 where
  wrote : Write
  failed : File → Write

pub data Outcome : Type 0 where
  ok err : Outcome

-- `writeFile`.
unfoldable pub write_file : Write → Text → File × Outcome
write_file wrote b = (bytes b, ok)
write_file (failed left) b = (left, err)
