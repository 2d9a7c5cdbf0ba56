-- ===== src/Log/Reader/Rounds.antt =====
-- LevelDB/db/log_reader.cc: the loop that fills the reader's buffer.
use leveldb_windows.Base.{
  ℕ, suc, ◌<◌, ◌≡◌, refl, arith, Bool, true, false, Option, some, Bytes, length, ltb, ltb→lt,
  if◌then◌else◌,
}
use leveldb_windows.Crc32c.{Checksum}
use leveldb_windows.Log.Reader.{
  SequentialFile, Reader, refill_buffer, eof_type, clear_buffer, check_physical_record,
  read_physical_loop, read_physical_record,
}

abbrev pub Answers : {A : Type 0} → Option A → Type 0
Answers {A} o = (a : A) × (o ≡ some a)

choose_end :
    {A : Type 0} (short at_eof good : Bool) (a b d : A) (again : Option A)
    → (short ≡ true → at_eof ≡ false → good ≡ true → Answers again)
    → Answers
        (if short then (if at_eof then some a else (if good then again else some b)) else some d)
choose_end false at_eof good a b d again h = (d, refl)
choose_end true true good a b d again h = (a, refl)
choose_end true false false a b d again h = (b, refl)
choose_end true false true a b d again h = h refl refl refl

module _ {F : Type 0} (env : SequentialFile F) where
  -- After a read that did not fail, a short buffer is the end of the file.
  short_is_last :
      (r : Reader F)
      → (refill_buffer env r).0 ≡ true
      → length (refill_buffer env r).1.buffer < 7
      → (refill_buffer env r).1.eof ≡ true
  unfolding refill_buffer
  short_is_last r good short = ground arith

module _ {F : Type 0} (env : SequentialFile F) (c : Checksum) where
  last_round_Answers :
      (fuel : ℕ) (r : Reader F) (result : Bytes)
      → (length r.buffer < 7 → r.eof ≡ true)
      → Answers (read_physical_loop env c (suc fuel) r result)
  unfolding read_physical_loop
  last_round_Answers fuel r result last =
      choose_end (ltb (length r.buffer) 7) r.eof ((refill_buffer env r).0)
        (eof_type, result, clear_buffer r) (eof_type, result, (refill_buffer env r).1)
        (check_physical_record c r result)
        (read_physical_loop env c fuel (refill_buffer env r).1 result)
        (λ short more good. absurd (cc (last (ltb→lt (length r.buffer) 7 short), more)))

  -- Reading a physical record ends, whatever the file answers.
  pub read_physical_record-Answers :
      (r : Reader F) (result : Bytes) → Answers (read_physical_record env c r result)
  unfolding read_physical_record read_physical_loop
  read_physical_record-Answers r result =
      choose_end (ltb (length r.buffer) 7) r.eof ((refill_buffer env r).0)
        (eof_type, result, clear_buffer r) (eof_type, result, (refill_buffer env r).1)
        (check_physical_record c r result)
        (read_physical_loop env c 2 (refill_buffer env r).1 result)
        (λ short more good.
          last_round_Answers 1 (refill_buffer env r).1 result (short_is_last env r good))
