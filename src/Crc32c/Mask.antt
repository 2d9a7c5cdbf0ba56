-- ===== src/Crc32c/Mask.antt =====
-- LevelDB/util/crc32c.h: Mask and Unmask.
use leveldb_windows.Base.{ℕ, ◌+◌, ◌-◌, ◌*◌, ◌/◌, ◌%◌, ◌^◌, ◌<◌, ◌≡◌, ◌∙◌, arith, IsU32, bit_or}
use leveldb_windows.Base.Bits.{bit_or_shifted}
use leveldb_windows.Crc32c.{mask, unmask, mask_delta}

pub mask-IsU32 : (crc : ℕ) → IsU32 (mask crc)
unfolding mask
mask-IsU32 crc = omega arith

-- A rotation by 15 to the right exchanges the low 15 bits and the high 17.
rotate_right :
    (crc : ℕ)
    → IsU32 crc
    → bit_or (crc / 2 ^ 15) (crc * 2 ^ 17 % 2 ^ 32) ≡ crc / 2 ^ 15 + crc % 2 ^ 15 * 2 ^ 17
rotate_right crc h =
    let e : crc * 2 ^ 17 % 2 ^ 32 ≡ crc % 2 ^ 15 * 2 ^ 17 = omega arith in
    rw e (bit_or_shifted 17 (crc / 2 ^ 15) (crc % 2 ^ 15) (omega arith))

rotate_left :
    (a b : ℕ)
    → a < 2 ^ 17
    → b < 2 ^ 15
    → bit_or ((a + b * 2 ^ 17) / 2 ^ 17) ((a + b * 2 ^ 17) * 2 ^ 15 % 2 ^ 32) ≡ b + a * 2 ^ 15
rotate_left a b ha hb =
    let high : (a + b * 2 ^ 17) / 2 ^ 17 ≡ b = omega arith in
    let low : (a + b * 2 ^ 17) * 2 ^ 15 % 2 ^ 32 ≡ a * 2 ^ 15 = omega arith in
    rw (high, low) (bit_or_shifted 15 b a hb)

-- `Unmask` gives back every 32-bit checksum that `Mask` was given.
pub unmask-mask : (crc : ℕ) → IsU32 crc → unmask (mask crc) ≡ crc
unfolding mask unmask
unmask-mask crc h =
    let a = crc / 2 ^ 15 in
    let b = crc % 2 ^ 15 in
    let back : ((a + b * 2 ^ 17 + mask_delta) % 2 ^ 32 + (2 ^ 32 - mask_delta)) % 2 ^ 32
        ≡ a + b * 2 ^ 17 =
      omega arith in
    rw (rotate_right crc h, back) (rotate_left a b (omega arith) (omega arith) ∙ omega arith)
