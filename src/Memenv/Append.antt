-- ===== src/Memenv/Append.antt =====
-- LevelDB/helpers/memenv/memenv.cc: the loop of FileState::Append.
use leveldb_windows.Base.{
  ℕ, zero, suc, ◌+◌, ◌*◌, ◌/◌, ◌%◌, ◌≤◌, ◌<◌, ◌≡◌, refl, sym, ap, ◌∙◌, arith, List, [], ◌∷◌, ◌++◌,
  append-nil, append_assoc, Bytes, length, length-append, length-take, length-drop, take, drop,
  take-append-drop, All, All-append, lt→ltb, ◌==◌, if◌then◌else◌, Bool-cases, inl, inr,
}
use leveldb_windows.Base.Cut.{take_within}
use leveldb_windows.Memenv.{FileState, write_at, append_round, append_loop, append}
use leveldb_windows.Memenv.Contents.{
  flat, contents, IsBlock, IsFile, length-flat, write_last-IsBlock, flat-write_last, take-write_at,
}

flat-append :
    (blocks : List Bytes) (block : Bytes) → flat (blocks ++ (block ∷ [])) ≡ flat blocks ++ block
flat-append [] block = append-nil block
flat-append (b ∷ blocks) block =
    ap (λ s. b ++ s) (flat-append blocks block) ∙ sym (append_assoc b (flat blocks) block)

module _ (memory : Bytes) (memory_block : IsBlock memory) where
  abbrev opened : FileState → List Bytes
  opened f = if f.size % 8192 == 0 then f.blocks ++ (memory ∷ []) else f.blocks

  -- Before the copy there is a last block with room, and the contents are those of the file.
  opened_lem :
      (f : FileState)
      → IsFile f
      → All IsBlock (opened f)
        × (length (opened f) ≡ suc (f.size / 8192))
        × (take f.size (flat (opened f)) ≡ contents f)
  opened_lem f v = elim (Bool-cases (f.size % 8192 == 0)) [
    | inl full ↦
        let at_end : f.size % 8192 ≡ 0 = ground arith in
        rw full (
          All-append IsBlock f.blocks (memory ∷ []) v.whole (memory_block, tt),
          omega (arith, length-append f.blocks (memory ∷ []), v.enough, v.no_more),
          rw (flat-append f.blocks memory) (
              take_within f.size (flat f.blocks) memory
                (omega (arith, length-flat f.blocks v.whole, v.enough))),
        )
    | inr within ↦
        let inside : 0 < f.size % 8192 = ground arith in
        rw within (v.whole, omega (arith, v.enough, v.no_more), refl)
  ]

  abbrev taken : FileState → Bytes → ℕ
  taken f src = (append_round memory f src).1

  taken_lem :
      (f : FileState) (src : Bytes)
      → (taken f src ≤ length src)
        × (f.size % 8192 + taken f src ≤ 8192)
        × (0 < length src → 0 < taken f src)
  unfolding append_round
  taken_lem f src = ground arith

  append_round_lem :
      (f : FileState) (src : Bytes)
      → IsFile f
      → 0 < length src
      → IsFile (append_round memory f src).0
        × (contents (append_round memory f src).0 ≡ contents f ++ take (taken f src) src)
  unfolding append_round
  append_round_lem f src v some_left =
      let o = f.size % 8192 in
      let n = taken f src in
      let part = take n src in
      let (w, count, same) = opened_lem f v in
      let (fits, room, takes) = taken_lem f src in
      let e : length part ≡ n = omega (arith, length-take n src) in
      let kept = write_last-IsBlock o part (opened f) w (omega arith) in
      let place : f.size / 8192 * 8192 + o ≡ f.size = omega arith in
      let written = flat-write_last o part (f.size / 8192) (opened f) w count in
      let longer =
        take-write_at f.size part (flat (opened f)) (omega (arith, length-flat (opened f) w)) in
      (
        record {
          whole = kept.0;
          enough = omega (arith, kept.1);
          no_more = omega (arith, kept.1, takes some_left);
        },
        ap (λ s. take (f.size + n) s) (written ∙ ap (λ p. write_at p part (flat (opened f))) place)
            ∙ ap (λ m. take (f.size + m) (write_at f.size part (flat (opened f)))) (sym e)
            ∙ longer
            ∙ ap (λ s. s ++ part) same,
      )

  append_loop_lem :
      (fuel : ℕ) (f : FileState) (src : Bytes)
      → IsFile f
      → length src ≤ fuel
      → IsFile (append_loop memory fuel f src)
        × (contents (append_loop memory fuel f src) ≡ contents f ++ src)
  unfolding append_loop
  append_loop_lem zero f [] v h = (v, sym (append-nil (contents f)))
  append_loop_lem zero f (b ∷ src) v h = absurd (omega arith)
  append_loop_lem (suc fuel) f [] v h = (v, sym (append-nil (contents f)))
  append_loop_lem (suc fuel) f (b ∷ src) v h =
      let (kept, grown) = append_round_lem f (b ∷ src) v (omega arith) in
      let n = taken f (b ∷ src) in
      let takes = (taken_lem f (b ∷ src)).2 (omega arith) in
      let rest =
        append_loop_lem fuel (append_round memory f (b ∷ src)).0 (drop n (b ∷ src)) kept
          (omega (arith, length-drop n (b ∷ src))) in
      rw (lt→ltb 0 (suc (length src)) (omega arith)) (
        rest.0,
        rest.1
            ∙ ap (λ s. s ++ drop n (b ∷ src)) grown
            ∙ append_assoc (contents f) (take n (b ∷ src)) (drop n (b ∷ src))
            ∙ ap (λ s. contents f ++ s) (take-append-drop n (b ∷ src)),
      )

  -- An append adds the whole string at the end of what the file holds, and the blocks stay in order:
  -- all whole, and as many as the size needs. The file had that form before.
  pub contents-append :
      (f : FileState) (src : Bytes)
      → IsFile f
      → IsFile (append memory f src) × (contents (append memory f src) ≡ contents f ++ src)
  unfolding append
  contents-append f src v = append_loop_lem (length src) f src v (omega arith)
