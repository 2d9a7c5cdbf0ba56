-- ===== src/Entries/Samples.antt =====
-- Some entries in order, for runs: a deleted key with an old value behind it, and two keys with values.
use leveldb_windows.Base.{◌≡◌, refl, arith, some, List, [], ◌∷◌}
use leveldb_windows.Comparator.{Comparator, bytewise_comparator}
use leveldb_windows.Slice.{slice_compare}
use leveldb_windows.Coding.{encode_fixed64, decode_fixed64, decode_fixed32}
use leveldb_windows.DbFormat.{
  ParsedInternalKey, type_value, type_deletion, parse_internal_key, trailer, pack_sequence_and_type,
}
use leveldb_windows.DbFormat.Keys.{internal_key}
use leveldb_windows.Entries.{Entry, InOrder}

abbrev pub user : Comparator
user = bytewise_comparator

abbrev pub deleted_key : ParsedInternalKey
deleted_key = record { user_key = b'a' ∷ []; sequence = 9; type = type_deletion }

abbrev pub old_key : ParsedInternalKey
old_key = record { user_key = b'a' ∷ []; sequence = 5; type = type_value }

abbrev pub first_key : ParsedInternalKey
first_key = record { user_key = b'c' ∷ []; sequence = 7; type = type_value }

abbrev pub last_key : ParsedInternalKey
last_key = record { user_key = b'd' ∷ []; sequence = 2; type = type_value }

abbrev pub entries : List Entry
entries =
    (internal_key deleted_key, [])
    ∷ (internal_key old_key, 1 ∷ [])
    ∷ (internal_key first_key, 2 ∷ [])
    ∷ (internal_key last_key, 3 ∷ [])
    ∷ []

pub parse_deleted : parse_internal_key (internal_key deleted_key) ≡ some deleted_key
unfolding parse_internal_key trailer decode_fixed64 decode_fixed32 encode_fixed64
    pack_sequence_and_type
parse_deleted = refl

pub parse_old : parse_internal_key (internal_key old_key) ≡ some old_key
unfolding parse_internal_key trailer decode_fixed64 decode_fixed32 encode_fixed64
    pack_sequence_and_type
parse_old = refl

pub parse_first : parse_internal_key (internal_key first_key) ≡ some first_key
unfolding parse_internal_key trailer decode_fixed64 decode_fixed32 encode_fixed64
    pack_sequence_and_type
parse_first = refl

pub parse_last : parse_internal_key (internal_key last_key) ≡ some last_key
unfolding parse_internal_key trailer decode_fixed64 decode_fixed32 encode_fixed64
    pack_sequence_and_type
parse_last = refl

pub entries-InOrder : InOrder user entries
unfolding parse_internal_key trailer decode_fixed64 decode_fixed32 encode_fixed64
    pack_sequence_and_type slice_compare
entries-InOrder = ground arith
