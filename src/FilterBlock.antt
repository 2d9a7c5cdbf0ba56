-- ===== src/FilterBlock.antt =====
-- LevelDB/table/filter_block.h and LevelDB/table/filter_block.cc: the block of a table that holds its
-- filters. A builder's `keys_` and `start_` are kept as in the source, flattened.
pub mod Layout
mod Runs
use leveldb_windows.Base.{
  ℕ, zero, suc, ◌+◌, ◌-◌, ◌*◌, ◌/◌, ◌%◌, ◌^◌, Bool, true, false, ◌&&◌, List, [], ◌∷◌, ◌++◌, Bytes,
  length, take, drop, get_or, ltb, leb, ◌==◌, if◌then◌else◌,
}
use leveldb_windows.Coding.{put_fixed32, decode_fixed32}
use leveldb_windows.Bloom.{FilterPolicy}

abbrev pub filter_base_lg : ℕ
filter_base_lg = 11

abbrev pub filter_base : ℕ
filter_base = 2 ^ filter_base_lg

pub record FilterBlockBuilder : Type 0 where
  pub keys : Bytes
  pub start : List ℕ
  pub result : Bytes
  pub filter_offsets : List ℕ

pub new_builder : FilterBlockBuilder
new_builder = record { keys = []; start = []; result = []; filter_offsets = [] }

-- `tmp_keys_`: the key at each start, up to the next one; the last start closes the last key.
pub list_of_keys : Bytes → List ℕ → List Bytes
list_of_keys keys [] = []
list_of_keys keys (base ∷ []) = []
list_of_keys keys (base ∷ next ∷ start) =
    take (next - base) (drop base keys) ∷ list_of_keys keys (next ∷ start)

-- An offset is stored in a `uint32_t`.
abbrev pub push_offset : List ℕ → ℕ → List ℕ
push_offset offsets offset = offsets ++ (offset % 2 ^ 32 ∷ [])

pub put_offsets : Bytes → List ℕ → Bytes
put_offsets dst [] = dst
put_offsets dst (offset ∷ offsets) = put_offsets (put_fixed32 dst offset) offsets

module _ (policy : FilterPolicy) where
  pub generate_filter : FilterBlockBuilder → FilterBlockBuilder
  generate_filter b =
      let offsets = push_offset b.filter_offsets (length b.result) in
      let tmp_keys = list_of_keys b.keys (b.start ++ (length b.keys ∷ [])) in
      if length b.start == 0 then record b { filter_offsets = offsets } else record {
        keys = [];
        start = [];
        result = policy.create_filter tmp_keys b.result;
        filter_offsets = offsets;
      }

  -- The loop of `StartBlock`, on the filters that are missing.
  pub generate_filters : ℕ → FilterBlockBuilder → FilterBlockBuilder
  generate_filters zero b = b
  generate_filters (suc missing) b = generate_filters missing (generate_filter b)

  pub start_block : FilterBlockBuilder → ℕ → FilterBlockBuilder
  start_block b block_offset =
      generate_filters (block_offset / filter_base - length b.filter_offsets) b

  -- The string that is returned; it is the builder's `result_` too.
  pub finish : FilterBlockBuilder → Bytes
  finish b =
      let closed = if length b.start == 0 then b else generate_filter b in
      let array_offset = length closed.result % 2 ^ 32 in
      put_fixed32 (put_offsets closed.result closed.filter_offsets) array_offset
      ++ (filter_base_lg ∷ [])

pub add_key : FilterBlockBuilder → Bytes → FilterBlockBuilder
add_key b key = record b { start = b.start ++ (length b.keys ∷ []); keys = b.keys ++ key }

-- `data_` is the whole contents and `offset_` the place of the array in it.
pub record FilterBlockReader : Type 0 where
  pub contents : Bytes
  pub offset : ℕ
  pub num : ℕ
  pub base_lg : ℕ

-- A `char` has a sign, which a `size_t` takes over.
abbrev pub size_of_char : ℕ → ℕ
size_of_char c = if ltb c 128 then c else c + (2 ^ 64 - 256)

-- The null pointers of the early returns are place 0; no offset is read then.
pub new_reader : Bytes → FilterBlockReader
new_reader contents =
    let n = length contents in
    let base_lg = size_of_char (get_or contents (n - 1) 0) in
    let last_word = decode_fixed32 (drop (n - 5) contents) in
    if ltb n 5
    then record { contents = contents; offset = 0; num = 0; base_lg = 0 }
    else (if ltb (n - 5) last_word
        then record { contents = contents; offset = 0; num = 0; base_lg = base_lg }
        else record {
          contents = contents;
          offset = last_word;
          num = (n - 5 - last_word) / 4;
          base_lg = base_lg;
        })

-- The source shifts by `base_lg_`, which is meant to be less than 64.
pub key_may_match : FilterPolicy → FilterBlockReader → ℕ → Bytes → Bool
key_may_match policy r block_offset key =
    let index = block_offset / 2 ^ r.base_lg in
    let start = decode_fixed32 (drop (r.offset + index * 4) r.contents) in
    let limit = decode_fixed32 (drop (r.offset + index * 4 + 4) r.contents) in
    if ltb index r.num
    then (if leb start limit && leb limit r.offset
        then policy.key_may_match key (take (limit - start) (drop start r.contents))
        else (if start == limit then false else true))
    else true
