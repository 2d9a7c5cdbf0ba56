-- ===== src/Crc32c/Runs.antt =====
-- Masking at concrete values.
use leveldb_windows.Base.{◌≡◌, arith}
use leveldb_windows.Crc32c.{mask, unmask}
use leveldb_windows.Crc32c.Mask.{unmask-mask}

unmask-mask_example : unmask (mask 0xdeadbeef) ≡ 0xdeadbeef
unmask-mask_example = unmask-mask 0xdeadbeef (omega arith)
