-- ===== src/Status.antt =====
-- LevelDB/include/leveldb/status.h and LevelDB/util/status.cc: the outcome of an operation. The
-- message is the text that the code and the two parts of the source's message make.
use leveldb_windows.Base.{Bool, true, false}
use Prim.Native.String.{String}

pub data Status : Type 0 where
  ok_status : Status
  not_found corruption not_supported invalid_argument io_error : String → Status

abbrev pub ok : Status → Bool
ok ok_status = true
ok _ = false
