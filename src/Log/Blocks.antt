-- ===== src/Log/Blocks.antt =====
-- LevelDB/db/log_writer.cc: the fragments of a record and the blocks that they go to.
use leveldb_windows.Base.{
  ℕ, zero, suc, ◌+◌, ◌-◌, ◌≤◌, ◌<◌, ◌≡◌, refl, ap, ◌∙◌, arith, Bool, true, false, Option, some,
  Bytes, length, take, drop, length-take, length-drop, ◌==◌, if◌then◌else◌, ltb→lt,
}
use leveldb_windows.Status.{Status}
use leveldb_windows.Crc32c.{Checksum}
use leveldb_windows.Log.{
  WritableFile, RecordType, Writer, emit_physical_record, switch_block, fragment_length,
  fragment_type, add_fragments, add_record,
}

-- The writer stands inside a block, or at its end.
abbrev pub InBlock : {F : Type 0} → Writer F → Type 0
InBlock w = w.block_offset ≤ 32768

fragment_length-fits :
    (o left : ℕ)
    → o + 7 ≤ 32768
    → (o + (7 + fragment_length o left) ≤ 32768) × (fragment_length o left ≤ left)
unfolding fragment_length
fragment_length-fits o left h = ground arith

-- A fragment that is not the last one fills its block.
fragment_length-fills :
    (o left : ℕ)
    → o + 7 ≤ 32768
    → 0 < left - fragment_length o left
    → o + (7 + fragment_length o left) ≡ 32768
unfolding fragment_length
fragment_length-fills o left h = ground arith

-- In an empty block, a fragment takes a byte of what is left.
fragment_length-falls :
    (left : ℕ) → 0 < left - fragment_length 0 left → left - fragment_length 0 left < left
unfolding fragment_length
fragment_length-falls left h = ground arith

module _ {F : Type 0} (env : WritableFile F) where
  -- A header fits behind the offset that a switch leaves.
  switch_block-room : (w : Writer F) → (switch_block env w).block_offset + 7 ≤ 32768
  unfolding switch_block
  switch_block-room w = ground arith

  switch_block_full :
      (w : Writer F) → w.block_offset ≡ 32768 → (switch_block env w).block_offset ≡ 0
  unfolding switch_block
  switch_block_full w h = ground arith

-- The loop has ended, and the writer stands in its block.
abbrev pub Ends : {F : Type 0} → Option (Status × Writer F) → Type 0
Ends {F} o = (s : Status) × ((w : Writer F) × ((o ≡ some (s, w)) × InBlock w))

choose :
    {F : Type 0} (good goes_on : Bool) (more : Option (Status × Writer F)) (e : Status × Writer F)
    → InBlock e.1
    → (goes_on ≡ true → Ends more)
    → Ends (if good then (if goes_on then more else some e) else some e)
choose false goes_on more e i h = (e.0, (e.1, (refl, i)))
choose true false more e i h = (e.0, (e.1, (refl, i)))
choose true true more e i h = h refl

module _ {F : Type 0} (env : WritableFile F) (c : Checksum) where
  -- Where a round leaves the writer.
  offset_behind :
      (w : Writer F) (t : RecordType) (left : Bytes)
      → let o = (switch_block env w).block_offset in
        let n = fragment_length o (length left) in
        (emit_physical_record env c (switch_block env w) t (take n left)).1.block_offset
        ≡ o + (7 + n)
  unfolding emit_physical_record
  offset_behind w t left =
      let o = (switch_block env w).block_offset in
      let n = fragment_length o (length left) in
      omega (
        arith,
        length-take n left,
        (fragment_length-fits o (length left) (switch_block-room env w)).1,
      )

  round-Ends :
      (fuel : ℕ) (w : Writer F) (begin : Bool) (left : Bytes)
      → ((next : Writer F) (rest : Bytes)
          → next.block_offset ≡ 32768
          → length rest
            ≡ length left - fragment_length (switch_block env w).block_offset (length left)
          → 0 < length rest
          → Ends (add_fragments env c fuel next false rest))
      → Ends (add_fragments env c (suc fuel) w begin left)
  unfolding add_fragments
  round-Ends fuel w begin left more =
      let o = (switch_block env w).block_offset in
      let n = fragment_length o (length left) in
      let room = switch_block-room env w in
      let behind = offset_behind w (fragment_type begin (length left == n)) left in
      choose _ _ _ _ (rw behind ((fragment_length-fits o (length left) room).0)) (λ goes_on.
        let h : 0 < length left - n = ltb→lt 0 (length left - n) goes_on in
        more _ (drop n left) (behind ∙ fragment_length-fills o (length left) room h)
          (length-drop n left) (rw (length-drop n left) h))

  full_block_Ends :
      (fuel : ℕ) (w : Writer F) (begin : Bool) (left : Bytes)
      → w.block_offset ≡ 32768
      → length left < fuel
      → Ends (add_fragments env c fuel w begin left)
  full_block_Ends zero w begin left full h = absurd (omega arith)
  full_block_Ends (suc fuel) w begin left full h =
      round-Ends fuel w begin left (λ next rest at_end shorter some_left.
        let e : length rest ≡ length left - fragment_length 0 (length left) =
          shorter
          ∙ ap (λ o. length left - fragment_length o (length left))
              (switch_block_full env w full) in
        full_block_Ends fuel next false rest at_end
          (omega (arith, e, fragment_length-falls (length left) (rw (← e) some_left))))

  -- Adding a record ends, whatever the file answers and wherever the writer stands, and leaves the
  -- writer within its block.
  pub add_record-Ends : (w : Writer F) (slice : Bytes) → Ends (add_record env c w slice)
  unfolding add_record
  add_record-Ends w slice =
      round-Ends (suc (length slice)) w true slice (λ next rest at_end shorter some_left.
        full_block_Ends (suc (length slice)) next false rest at_end (omega (arith, shorter)))
