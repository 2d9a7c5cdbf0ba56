-- ===== src/Memenv/Contents.antt =====
-- LevelDB/helpers/memenv/memenv.cc: the blocks of a file and its contents.
use leveldb_windows.Base.{
  ℕ, suc, ◌+◌, ◌-◌, ◌*◌, ◌≤◌, ◌<◌, ◌≡◌, refl, sym, ap, ◌∙◌, arith, List, [], ◌∷◌, ◌++◌, append-nil,
  append_assoc, Bytes, length, length-append, length-take, length-drop, take, drop, take-append,
  All,
}
use leveldb_windows.Base.Cut.{take_past, drop_past}
use leveldb_windows.Memenv.{FileState, write_at, write_last}

-- The bytes of the blocks, one block after the other.
abbrev pub flat : List Bytes → Bytes
flat [] = []
flat (block ∷ blocks) = block ++ flat blocks

-- What a file holds, as a string.
abbrev pub contents : FileState → Bytes
contents f = take f.size (flat f.blocks)

abbrev pub IsBlock : Bytes → Type 0
IsBlock block = length block ≡ 8192

-- Every block is whole, and there are as many as the size needs.
pub record IsFile (f : FileState) : Type 0 where
  pub whole : All IsBlock f.blocks
  pub enough : f.size ≤ length f.blocks * 8192
  pub no_more : length f.blocks * 8192 < f.size + 8192

pub length-flat :
    (blocks : List Bytes) → All IsBlock blocks → length (flat blocks) ≡ length blocks * 8192
length-flat [] w = omega arith
length-flat (block ∷ blocks) w =
    omega (arith, w.0, length-append block (flat blocks), length-flat blocks w.1)

write_at_past :
    (p : ℕ) (src block rest : Bytes)
    → write_at (length block + p) src (block ++ rest) ≡ block ++ write_at p src rest
unfolding write_at
write_at_past p src block rest =
    let e : length block + p + length src ≡ length block + (p + length src) = omega arith in
    rw (take_past p block rest, e, drop_past (p + length src) block rest)
      (append_assoc block (take p rest) _)

length-write_at :
    (o : ℕ) (src block : Bytes)
    → o + length src ≤ length block
    → length (write_at o src block) ≡ length block
unfolding write_at
length-write_at o src block h = omega (
  arith,
  length-append (take o block) (src ++ drop (o + length src) block),
  length-append src (drop (o + length src) block),
  length-take o block,
  length-drop (o + length src) block,
)

pub write_last-IsBlock :
    (o : ℕ) (src : Bytes) (blocks : List Bytes)
    → All IsBlock blocks
    → o + length src ≤ 8192
    → All IsBlock (write_last o src blocks) × (length (write_last o src blocks) ≡ length blocks)
unfolding write_last
write_last-IsBlock o src [] w h = (tt, refl)
write_last-IsBlock o src (block ∷ []) w h =
    ((length-write_at o src block (omega (arith, w.0)) ∙ w.0, tt), refl)
write_last-IsBlock o src (block ∷ next ∷ blocks) w h =
    let rest = write_last-IsBlock o src (next ∷ blocks) w.1 h in ((w.0, rest.0), ap suc rest.1)

-- A write into the last block is a write into the flat string.
pub flat-write_last :
    (o : ℕ) (src : Bytes) (k : ℕ) (blocks : List Bytes)
    → All IsBlock blocks
    → length blocks ≡ suc k
    → flat (write_last o src blocks) ≡ write_at (k * 8192 + o) src (flat blocks)
unfolding write_last
flat-write_last o src k [] w h = absurd (omega arith)
flat-write_last o src k (block ∷ []) w h =
    let e : k * 8192 + o ≡ o = omega arith in rw (e, append-nil, append-nil)
flat-write_last o src k (block ∷ next ∷ blocks) w h =
    let e : k * 8192 + o ≡ length block + ((k - 1) * 8192 + o) = omega (arith, w.0) in
    rw e (
      ap (λ bytes. block ++ bytes) (flat-write_last o src (k - 1) (next ∷ blocks) w.1 (omega arith))
      ∙ sym (write_at_past ((k - 1) * 8192 + o) src block (flat (next ∷ blocks))))

-- A write at the end of a prefix makes the prefix longer by what was written.
pub take-write_at :
    (p : ℕ) (src bytes : Bytes)
    → p ≤ length bytes
    → take (p + length src) (write_at p src bytes) ≡ take p bytes ++ src
unfolding write_at
take-write_at p src bytes h =
    let e : length (take p bytes) ≡ p = omega (arith, length-take p bytes) in
    let past : take (length (take p bytes) + length src)
          (take p bytes ++ (src ++ drop (p + length src) bytes))
        ≡ take p bytes ++ take (length src) (src ++ drop (p + length src) bytes) =
      take_past (length src) (take p bytes) (src ++ drop (p + length src) bytes) in
    rw e at past ∙ ap (λ s. take p bytes ++ s) (take-append src (drop (p + length src) bytes))
