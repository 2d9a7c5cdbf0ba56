-- ===== src/DbFormat/Runs.antt =====
-- Internal keys and comparators at concrete input.
use leveldb_windows.Base.{
  ◌+◌, ◌*◌, ◌≡◌, ◌≢◌, ◌<◌, ◌≤◌, ◌↔◌, refl, arith, some, [], ◌∷◌, Bytes, length,
}
use leveldb_windows.Slice.{slice_compare}
use leveldb_windows.Slice.Lex.{lex, slice_compare-lex}
use leveldb_windows.Comparator.{IsOrder, bytewise_comparator, find_shortest_separator}
use leveldb_windows.Comparator.Shorten.{bytewise-IsOrder, separator_between}
use leveldb_windows.Coding.{encode_fixed64}
use leveldb_windows.DbFormat.{
  ParsedInternalKey, type_value, type_deletion, parse_internal_key, append_internal_key,
  internal_compare, internal_key_comparator, internal_shortest_separator, extract_user_key,
  new_lookup_key, lookup_internal_key, pack_sequence_and_type,
}
use leveldb_windows.DbFormat.Keys.{internal_key, parse_internal_key-append_internal_key}
use leveldb_windows.DbFormat.InternalOrder.{
  internal-IsOrder, newest_first, lookup_splits, internal_separator_between,
}
use Prim.Native.Nat.{lt, eq, gt}

abbrev a_key : ParsedInternalKey
a_key = record { user_key = b'a' ∷ b'b' ∷ []; sequence = 5; type = type_value }

abbrev old_key : ParsedInternalKey
old_key = record { user_key = b'a' ∷ b'b' ∷ []; sequence = 4; type = type_deletion }

slice_compare-lex_example : slice_compare (1 ∷ 2 ∷ []) (1 ∷ 3 ∷ []) ≡ lex (1 ∷ 2 ∷ []) (1 ∷ 3 ∷ [])
slice_compare-lex_example = slice_compare-lex (1 ∷ 2 ∷ []) (1 ∷ 3 ∷ [])

abc_below : lex (b'a' ∷ b'b' ∷ b'c' ∷ []) (b'a' ∷ b'z' ∷ []) ≡ lt
unfolding lex
abc_below = refl

separator_run :
    find_shortest_separator (b'a' ∷ b'b' ∷ b'c' ∷ []) (b'a' ∷ b'z' ∷ []) ≡ b'a' ∷ b'c' ∷ []
unfolding find_shortest_separator
separator_run = refl

separator_between_example :
    (lex
        (b'a' ∷ b'b' ∷ b'c' ∷ [])
        (find_shortest_separator (b'a' ∷ b'b' ∷ b'c' ∷ []) (b'a' ∷ b'z' ∷ []))
      ≢ gt)
    × (lex (find_shortest_separator (b'a' ∷ b'b' ∷ b'c' ∷ []) (b'a' ∷ b'z' ∷ [])) (b'a' ∷ b'z' ∷ [])
        ≡ lt)
    × (length (find_shortest_separator (b'a' ∷ b'b' ∷ b'c' ∷ []) (b'a' ∷ b'z' ∷ [])) ≤ 3)
separator_between_example = separator_between (b'a' ∷ b'b' ∷ b'c' ∷ []) (b'a' ∷ b'z' ∷ []) abc_below

parse_internal_key-append_internal_key_example :
    parse_internal_key (append_internal_key [] a_key) ≡ some a_key
parse_internal_key-append_internal_key_example =
    parse_internal_key-append_internal_key a_key (omega arith)

internal-IsOrder_example : IsOrder (internal_key_comparator bytewise_comparator)
internal-IsOrder_example = internal-IsOrder bytewise_comparator bytewise-IsOrder

same_user : slice_compare (b'a' ∷ b'b' ∷ []) (b'a' ∷ b'b' ∷ []) ≡ eq
unfolding slice_compare
same_user = refl

newest_first_example :
    (internal_compare bytewise_comparator (internal_key a_key) (internal_key old_key) ≡ lt)
    ↔ (4 * 256 + 0 < 5 * 256 + 1)
newest_first_example =
    newest_first bytewise_comparator bytewise-IsOrder a_key old_key (omega arith) (omega arith)
      same_user

lookup_splits_example :
    (internal_compare bytewise_comparator
        (internal_key a_key)
        (lookup_internal_key (new_lookup_key (b'a' ∷ b'b' ∷ []) 3))
      ≡ lt)
    ↔ (3 < 5)
lookup_splits_example =
    lookup_splits bytewise_comparator bytewise-IsOrder a_key 3 (omega arith) (omega arith)

abbrev low : Bytes
low = internal_key (record { user_key = b'a' ∷ b'b' ∷ b'c' ∷ []; sequence = 5; type = type_value })

abbrev high : Bytes
high = internal_key (record { user_key = b'a' ∷ b'z' ∷ []; sequence = 5; type = type_value })

users_ordered : slice_compare (extract_user_key low) (extract_user_key high) ≡ lt
unfolding extract_user_key slice_compare pack_sequence_and_type encode_fixed64
users_ordered = refl

separator_below :
    slice_compare
      (find_shortest_separator (extract_user_key low) (extract_user_key high))
      (extract_user_key high)
    ≡ lt
unfolding extract_user_key slice_compare pack_sequence_and_type encode_fixed64
    find_shortest_separator
separator_below = refl

internal_separator_between_example :
    (internal_compare bytewise_comparator low
        (internal_shortest_separator bytewise_comparator low high)
      ≢ gt)
    × (internal_compare bytewise_comparator
          (internal_shortest_separator bytewise_comparator low high)
          high
        ≡ lt)
internal_separator_between_example =
    internal_separator_between bytewise_comparator bytewise-IsOrder low high users_ordered
      separator_below
