-- ===== src/Crc32c.antt =====
-- LevelDB/util/crc32c.h: the interface of the checksum, and the masking of stored checksums.
pub mod Mask
mod Runs
use leveldb_windows.Base.{ℕ, ◌+◌, ◌-◌, ◌*◌, ◌/◌, ◌%◌, ◌^◌, ◌≡◌, Bytes, ◌++◌, [], IsU32, bit_or}

-- `Extend` of the checksum's module.
pub record Checksum : Type 0 where
  pub extend : ℕ → Bytes → ℕ

-- What the header promises of it.
pub record IsChecksum (c : Checksum) : Type 0 where
  pub word : (crc : ℕ) (bytes : Bytes) → IsU32 (c.extend crc bytes)
  pub concat :
      (crc : ℕ) (a bytes : Bytes) → c.extend (c.extend crc a) bytes ≡ c.extend crc (a ++ bytes)

abbrev pub checksum_value : Checksum → Bytes → ℕ
checksum_value c bytes = c.extend 0 bytes

abbrev pub mask_delta : ℕ
mask_delta = 0xa282ead8

pub mask : ℕ → ℕ
mask crc = (bit_or (crc / 2 ^ 15) (crc * 2 ^ 17 % 2 ^ 32) + mask_delta) % 2 ^ 32

pub unmask : ℕ → ℕ
unmask masked_crc =
    let rot = (masked_crc + (2 ^ 32 - mask_delta)) % 2 ^ 32 in
    bit_or (rot / 2 ^ 17) (rot * 2 ^ 15 % 2 ^ 32)
