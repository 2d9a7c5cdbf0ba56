-- ===== src/Entries.antt =====
-- The entries that the tables and memtables hold, as an internal iterator goes through them
-- (LevelDB/db/dbformat.h): their order, and what a reader at a sequence number finds of a user key.
pub mod Newest
pub mod Samples
use leveldb_windows.Base.{
  ℕ, ◌≡◌, ◌≢◌, ◌<◌, Bool, true, false, ◌&&◌, Option, none, some, List, [], ◌∷◌, Bytes, All, leb,
  if◌then◌else◌,
}
use leveldb_windows.Comparator.{Comparator}
use leveldb_windows.DbFormat.{
  ParsedInternalKey, ValueType, type_value, type_deletion, parse_internal_key,
}
use Prim.Native.Nat.{Ordering, lt, eq, gt}

-- An internal key and its value.
abbrev pub Entry : Type 0
Entry = Bytes × Bytes

abbrev pub is_eq : Ordering → Bool
is_eq Ordering.eq = true
is_eq _ = false

-- The value that a found entry gives to its reader.
abbrev pub value_of : Option (ValueType × Bytes) → Option Bytes
value_of none = none
value_of (some (type_deletion, v)) = none
value_of (some (type_value, v)) = some v

module _ (user : Comparator) where
  -- Whether a reader of the key at the sequence number sees the entry.
  abbrev pub sees : ℕ → Bytes → ParsedInternalKey → Bool
  sees sequence key p = is_eq (user.compare_keys p.user_key key) && leb p.sequence sequence

  -- An entry with this key and value, or what comes behind it.
  abbrev pub seen_or :
      ℕ
      → Bytes
      → Option ParsedInternalKey
      → Bytes
      → Option (ValueType × Bytes)
      → Option (ValueType × Bytes)
  seen_or sequence key none value rest = rest
  seen_or sequence key (some p) value rest =
      if sees sequence key p then some (p.type, value) else rest

  -- The first entry that the reader sees, which is the newest one where the entries are in order.
  unfoldable pub newest : ℕ → Bytes → List Entry → Option (ValueType × Bytes)
  newest sequence key [] = none
  newest sequence key (e ∷ entries) =
      seen_or sequence key (parse_internal_key e.0) e.1 (newest sequence key entries)

  -- The second key may stand behind the first: a later user key, or the same with a smaller number.
  abbrev pub Follows : Option ParsedInternalKey → Option ParsedInternalKey → Type 0
  Follows none q = Unit {0}
  Follows (some p) none = Unit {0}
  Follows (some p) (some q) =
      (user.compare_keys p.user_key q.user_key ≢ gt)
      × (user.compare_keys p.user_key q.user_key ≡ eq → q.sequence < p.sequence)

  abbrev pub InOrder : List Entry → Type 0
  InOrder [] = Unit {0}
  InOrder (e ∷ entries) =
      All (λ d. Follows (parse_internal_key e.0) (parse_internal_key d.0)) entries × InOrder entries
