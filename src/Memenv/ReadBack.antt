-- ===== src/Memenv/ReadBack.antt =====
-- LevelDB/helpers/memenv/memenv.cc: FileState::Read and the contents of the file.
use leveldb_windows.Base.{
  ℕ, zero, suc, ◌+◌, ◌-◌, ◌*◌, ◌/◌, ◌%◌, ◌≤◌, ◌<◌, ◌≡◌, refl, sym, ap, ◌∙◌, arith, false, List, [],
  ◌∷◌, ◌++◌, ◌⊎◌, append-nil, Bytes, length, length-take, length-drop, take, drop, take_all,
  drop_join, get_or, All, ltb, lt→ltb, leb, ◌==◌, if◌then◌else◌, Bool-cases, inl, inr,
}
use leveldb_windows.Base.Cut.{
  take_within, drop_within, take_past, drop_past, take-take, drop-take, drop_add,
}
use leveldb_windows.Status.{Status, io_error}
use leveldb_windows.Memenv.{FileState, copy_loop, read}
use leveldb_windows.Memenv.Contents.{flat, contents, IsBlock, IsFile}

-- From a place in a block: the rest of the block, and the blocks behind it.
drop-flat :
    (blocks : List Bytes) (block o : ℕ)
    → All IsBlock blocks
    → block < length blocks
    → o ≤ 8192
    → drop (block * 8192 + o) (flat blocks)
      ≡ drop o (get_or blocks block []) ++ flat (drop (suc block) blocks)
drop-flat [] block o w h k = absurd (omega arith)
drop-flat (b ∷ blocks) zero o w h k =
    let e : zero * 8192 + o ≡ o = omega arith in
    rw e (drop_within o b (flat blocks) (omega (arith, w.0)))
drop-flat (b ∷ blocks) (suc block) o w h k =
    let e : suc block * 8192 + o ≡ length b + (block * 8192 + o) = omega (arith, w.0) in
    rw (e, drop_past (block * 8192 + o) b (flat blocks))
      (drop-flat blocks block o w.1 (omega arith) k)

block_left :
    (blocks : List Bytes) (block o : ℕ)
    → All IsBlock blocks
    → block < length blocks
    → length (drop o (get_or blocks block [])) ≡ 8192 - o
block_left [] block o w h = absurd (omega arith)
block_left (b ∷ blocks) zero o w h = omega (arith, length-drop o b, w.0)
block_left (b ∷ blocks) (suc block) o w h = block_left blocks block o w.1 (omega arith)

take_min : (n m : ℕ) (bytes : Bytes) → take n (take m bytes) ≡ take (if ltb m n then m else n) bytes
take_min n m bytes = elim (Bool-cases (ltb m n)) [
  | inl short ↦ rw short (take_all n (take m bytes) (ground (arith, length-take m bytes)))
  | inr long ↦ rw long (take-take n m bytes (ground arith))
]

copy_loop_none :
    (fuel : ℕ) (blocks : List Bytes) (block o : ℕ) → copy_loop fuel blocks block o 0 ≡ []
unfolding copy_loop
copy_loop_none zero blocks block o = refl
copy_loop_none (suc fuel) blocks block o = refl

copy_loop_lem :
    (fuel : ℕ) (blocks : List Bytes) (block o n : ℕ)
    → All IsBlock blocks
    → o < 8192
    → block * 8192 + o + n ≤ length blocks * 8192
    → n ≤ fuel
    → copy_loop fuel blocks block o n ≡ take n (drop (block * 8192 + o) (flat blocks))
unfolding copy_loop
copy_loop_lem zero blocks block o zero w k h enough = refl
copy_loop_lem zero blocks block o (suc n) w k h enough = absurd (omega arith)
copy_loop_lem (suc fuel) blocks block o zero w k h enough = refl
copy_loop_lem (suc fuel) blocks block o (suc n) w k h enough =
    let A = drop o (get_or blocks block []) in
    let B = flat (drop (suc block) blocks) in
    let here : block < length blocks = omega arith in
    let cut = drop-flat blocks block o w here (omega arith) in
    let size = block_left blocks block o w here in
    rw (lt→ltb 0 (suc n) (omega arith)) (elim (Bool-cases (ltb (suc n) (8192 - o))) [
      | inl last ↦
          let none_left : suc n - suc n ≡ 0 = omega arith in
          rw (last, none_left, cut, copy_loop_none fuel blocks (block + 1) 0, append-nil)
            (sym (take_within (suc n) A B (ground arith)))
      | inr more ↦
          let m = suc n - (8192 - o) in
          let long : 8192 - o ≤ suc n = ground arith in
          let parts : suc n ≡ length A + m = omega arith in
          let next : (block + 1) * 8192 + 0 ≡ block * 8192 + o + (8192 - o) = omega arith in
          let behind : drop ((block + 1) * 8192 + 0) (flat blocks) ≡ B =
            rw (next, drop_add (block * 8192 + o) (8192 - o) (flat blocks), cut)
              (drop_join (8192 - o) A B size) in
          let rest : copy_loop fuel blocks (block + 1) 0 m ≡ take m B =
            copy_loop_lem fuel blocks (block + 1) 0 m w (omega arith) (omega arith) (omega arith)
            ∙ ap (λ s. take m s) behind in
          rw (more, cut, rest, take_all (8192 - o) A (omega arith))
            (sym (ap (λ j. take j (A ++ B)) parts ∙ take_past m A B))
    ])

copied :
    (f : FileState) (offset m : ℕ)
    → IsFile f
    → offset ≤ f.size
    → m ≤ f.size - offset
    → if◌then◌else◌ {A = Bytes ⊎ Status} (m == 0) (inl []) (
        if leb m (8192 - offset % 8192)
        then inl (take m (drop (offset % 8192) (get_or f.blocks (offset / 8192) [])))
        else inl (copy_loop m f.blocks (offset / 8192) (offset % 8192) m))
      ≡ inl (take m (drop offset (flat f.blocks)))
copied f offset zero v inside h = refl
copied f offset (suc m) v inside h =
    let o = offset % 8192 in
    let block = offset / 8192 in
    let some_left : (suc m == 0) ≡ false = ground arith in
    let here : block < length f.blocks = omega (arith, v.enough) in
    let place : block * 8192 + o ≡ offset = omega arith in
    let place_cut =
      ap (λ p. drop p (flat f.blocks)) (sym place)
      ∙ drop-flat f.blocks block o v.whole here (omega arith) in
    rw some_left (elim (Bool-cases (leb (suc m) (8192 - o))) [
      | inl one_block ↦
          rw (one_block, place_cut)
            (ap inl (
              sym (
                take_within (suc m) (drop o (get_or f.blocks block []))
                  (flat (drop (suc block) f.blocks))
                  (ground (arith, block_left f.blocks block o v.whole here)))))
      | inr more ↦ rw more (
          ap inl (
            copy_loop_lem (suc m) f.blocks block o (suc m) v.whole (omega arith)
              (omega (arith, v.enough)) (omega arith)
            ∙ ap (λ p. take (suc m) (drop p (flat f.blocks))) place))
    ])

-- A read fails exactly where the offset is past the size. Otherwise it returns the bytes of the
-- contents from the offset on, as many as were asked for or as there are.
pub read_lem :
    (f : FileState) (offset n : ℕ)
    → IsFile f
    → read f offset n ≡ (
        if ltb f.size offset
        then inr (io_error "Offset greater than file size.")
        else inl (take n (drop offset (contents f))))
unfolding read
read_lem f offset n v = elim (Bool-cases (ltb f.size offset)) [
  | inl past ↦ rw past refl
  | inr inside ↦ rw inside (
      copied f offset (if ltb (f.size - offset) n then f.size - offset else n) v (ground arith)
        (ground arith)
      ∙ ap inl (
          sym (take_min n (f.size - offset) (drop offset (flat f.blocks)))
          ∙ ap (λ s. take n s) (sym (drop-take offset f.size (flat f.blocks)))))
]
