-- ===== src/WriteBatch.antt =====
-- LevelDB/include/leveldb/write_batch.h and LevelDB/db/write_batch.cc: a batch of updates in one
-- byte string, which is a sequence number, a count, and the records.
pub mod Layout
pub mod Iterate
pub mod Total
mod Runs
use leveldb_windows.Base.{
  ℕ, zero, suc, ◌+◌, ◌-◌, ◌%◌, ◌^◌, Option, none, some, List, [], ◌∷◌, ◌++◌, Bytes, length, take,
  drop, replicate, ltb, ◌==◌, if◌then◌else◌,
}
use leveldb_windows.Status.{Status, ok_status, corruption}
use leveldb_windows.Coding.{
  encode_fixed32, encode_fixed64, decode_fixed32, decode_fixed64, put_length_prefixed_slice,
  get_length_prefixed_slice,
}

abbrev pub header : ℕ
header = 12

pub record WriteBatch : Type 0 where
  pub rep : Bytes

-- `WriteBatch::Handler`: what its two methods do to the handler's state.
pub record Handler {ℓ} (S : Type ℓ) : Type ℓ where
  pub on_put : Bytes → Bytes → S → S
  pub on_delete : Bytes → S → S

-- The bytes from 8 on, and writes over them in place. An `int` is its word of 32 bits, in two's
-- complement; `set_count` takes the low 32 bits of its argument, as the conversion to `uint32_t` does.
pub count : WriteBatch → ℕ
count b = decode_fixed32 (drop 8 b.rep)

pub set_count : WriteBatch → ℕ → WriteBatch
set_count b n = record { rep = take 8 b.rep ++ (encode_fixed32 n ++ drop 12 b.rep) }

pub sequence : WriteBatch → ℕ
sequence b = decode_fixed64 b.rep

pub set_sequence : WriteBatch → ℕ → WriteBatch
set_sequence b seq = record { rep = encode_fixed64 seq ++ drop 8 b.rep }

-- `rep_.clear(); rep_.resize(kHeader);`
pub clear : WriteBatch → WriteBatch
clear b = record { rep = replicate header 0 }

pub new_write_batch : WriteBatch
unfolding clear
new_write_batch = clear (record { rep = [] })

pub put : WriteBatch → Bytes → Bytes → WriteBatch
put b key value =
    let counted = set_count b (count b + 1) in
    record {
      rep =
          put_length_prefixed_slice (put_length_prefixed_slice (counted.rep ++ (1 ∷ [])) key) value;
    }

pub delete : WriteBatch → Bytes → WriteBatch
delete b key =
    let counted = set_count b (count b + 1) in
    record { rep = put_length_prefixed_slice (counted.rep ++ (0 ∷ [])) key }

pub set_contents : WriteBatch → Bytes → WriteBatch
set_contents b contents = record { rep = contents }

pub append : WriteBatch → WriteBatch → WriteBatch
append dst src =
    let counted = set_count dst (count dst + count src) in
    record { rep = counted.rep ++ drop header src.rep }

module _ {ℓ} {S : Type ℓ} (handler : Handler S) (expected : ℕ) where
  -- The `while` loop with the test behind it; `found` is the word of an `int`. Each round takes a byte of the input at least, so the
  -- length of the input is fuel enough; `none` is fuel that ran out.
  iterate_loop : ℕ → Bytes → ℕ → S → Option (S × Status)
  iterate_loop fuel [] found s =
      some (s, if found == expected then ok_status else corruption "WriteBatch has wrong count")
  iterate_loop zero (tag ∷ input) found s = none
  iterate_loop (suc fuel) (tag ∷ input) found s =
      let bad_put : Option (S × Status) = some (s, corruption "bad WriteBatch Put") in
      let put_round : Option (S × Status) = elim (get_length_prefixed_slice input) [
        | none ↦ bad_put
        | some (key, behind) ↦ elim (get_length_prefixed_slice behind) [
          | none ↦ bad_put
          | some (value, rest) ↦
              iterate_loop fuel rest ((found + 1) % 2 ^ 32) (handler.on_put key value s)
        ]
      ] in
      let delete_round : Option (S × Status) = elim (get_length_prefixed_slice input) [
        | none ↦ some (s, corruption "bad WriteBatch Delete")
        | some (key, rest) ↦ iterate_loop fuel rest ((found + 1) % 2 ^ 32) (handler.on_delete key s)
      ] in
      if tag == 1
      then put_round
      else if tag == 0
      then delete_round
      else some (s, corruption "unknown WriteBatch tag")

pub iterate {ℓ} : {S : Type ℓ} → Handler S → WriteBatch → S → Option (S × Status)
iterate handler b s =
    let input = drop header b.rep in
    let run = iterate_loop handler (count b) (length input) input 0 s in
    if ltb (length b.rep) header
    then some (s, corruption "malformed WriteBatch (too small)")
    else run
