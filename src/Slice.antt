-- ===== src/Slice.antt =====
-- LevelDB/include/leveldb/slice.h: three-way comparison and prefixes of byte strings.
pub mod Lex
use leveldb_windows.Base.{
  ℕ, zero, suc, ◌≡◌, Bool, true, false, ◌&&◌, [], ◌∷◌, Bytes, length, ltb, leb, ◌==◌, min,
  if◌then◌else◌,
}
use Prim.Native.Nat.{compare, Ordering}

-- The C library's comparison of the first `n` bytes as unsigned values. Both operands have them.
unfoldable pub memcmp : ℕ → Bytes → Bytes → Ordering
memcmp zero a b = Ordering.eq
memcmp (suc n) (x ∷ a) (y ∷ b) =
    let rest = memcmp n a b in
    elim (compare x y) [
      | Ordering.lt ↦ Ordering.lt
      | Ordering.eq ↦ rest
      | Ordering.gt ↦ Ordering.gt
    ]
memcmp (suc n) _ _ = Ordering.eq

-- The sign of the source's `int`.
unfoldable pub slice_compare : Bytes → Bytes → Ordering
unfolding memcmp
slice_compare a b =
    let min_len = if ltb (length a) (length b) then length a else length b in
    elim (memcmp min_len a b) [
      | Ordering.lt ↦ Ordering.lt
      | Ordering.eq ↦
          if ltb (length a) (length b)
          then Ordering.lt
          else if ltb (length b) (length a)
          then Ordering.gt
          else Ordering.eq
      | Ordering.gt ↦ Ordering.gt
    ]

abbrev is_equal : Ordering → Bool
is_equal Ordering.eq = true
is_equal _ = false

unfoldable pub starts_with : Bytes → Bytes → Bool
unfolding memcmp
starts_with s x = leb (length x) (length s) && is_equal (memcmp (length x) s x)

unfoldable pub slice_eq : Bytes → Bytes → Bool
unfolding memcmp
slice_eq x y = (length x == length y) && is_equal (memcmp (length x) x y)
