-- ===== src/Comparator.antt =====
-- LevelDB/include/leveldb/comparator.h and LevelDB/util/comparator.cc: the interface of an order on
-- keys, with the laws that the database relies on, and the byte-wise order.
pub mod Shorten
pub mod Order
use leveldb_windows.Base.{
  ℕ, zero, suc, ◌+◌, ◌≡◌, Bool, true, false, ◌&&◌, [], ◌∷◌, Bytes, length, get_or, set, take, ltb,
  leb, ◌==◌, min, if◌then◌else◌, IsByte, All,
}
use leveldb_windows.Slice.{slice_compare}
use leveldb_windows.Slice.Lex.{flip}
use Prim.Native.Nat.{Ordering, lt, eq, gt}

-- `Compare` is the sign of its result; the other two return what they leave in their string.
pub record Comparator : Type 0 where
  pub compare_keys : Bytes → Bytes → Ordering
  pub find_shortest_separator : Bytes → Bytes → Bytes
  pub find_short_successor : Bytes → Bytes

-- A total order up to the equivalence that `Compare` itself defines, and what the comments of the
-- interface promise of the two shortening functions.
pub record IsOrder (c : Comparator) : Type 0 where
  pub flipped : (a b : Bytes) → c.compare_keys b a ≡ flip (c.compare_keys a b)
  pub lt_trans :
      (x y z : Bytes) → c.compare_keys x y ≡ lt → c.compare_keys y z ≡ lt → c.compare_keys x z ≡ lt
  pub eq_lt : (x y z : Bytes) → c.compare_keys x y ≡ eq → c.compare_keys x z ≡ c.compare_keys y z

-- `while ((diff_index < min_length) && ((*start)[diff_index] == limit[diff_index])) diff_index++`,
-- on the strings from `diff_index` on.
unfoldable pub diff_index : Bytes → Bytes → ℕ
diff_index [] limit = 0
diff_index (x ∷ start) [] = 0
diff_index (x ∷ start) (y ∷ limit) =
    let rest = diff_index start limit in if x == y then suc rest else 0

unfoldable pub find_shortest_separator : Bytes → Bytes → Bytes
unfolding diff_index
find_shortest_separator start limit =
    let min_length = min (length start) (length limit) in
    let at = diff_index start limit in
    let diff_byte = get_or start at 0 in
    if leb min_length at
    then start
    else if ltb diff_byte 255 && ltb (diff_byte + 1) (get_or limit at 0)
    then take (at + 1) (set start at (diff_byte + 1))
    else start

-- The loop over `i`: the bytes before the first that is not 0xff stay.
unfoldable pub find_short_successor : Bytes → Bytes
find_short_successor [] = []
find_short_successor (byte ∷ key) =
    let rest = find_short_successor key in if byte == 255 then byte ∷ rest else (byte + 1) ∷ []

abbrev pub bytewise_comparator : Comparator
bytewise_comparator = record {
  compare_keys = slice_compare;
  find_shortest_separator = find_shortest_separator;
  find_short_successor = find_short_successor;
}
