-- ===== src/FilterBlock/Runs.antt =====
-- A filter block at concrete values, with a policy that matches the first key.
use leveldb_windows.Base.{◌≡◌, arith, true, [], ◌∷◌, ◌++◌, length}
use leveldb_windows.Bloom.{FilterPolicy}
use leveldb_windows.FilterBlock.{FilterBlockBuilder, generate_filter, finish, new_reader}
use leveldb_windows.FilterBlock.Layout.{closed, new_reader-finish}

abbrev policy : FilterPolicy
policy = record { create_filter = λ keys dst. dst ++ (42 ∷ []); key_may_match = λ key bytes. true }

abbrev builder : FilterBlockBuilder
builder = record {
  keys = b'a' ∷ b'b' ∷ [];
  start = 0 ∷ 1 ∷ [];
  result = 42 ∷ [];
  filter_offsets = 0 ∷ 1 ∷ [];
}

new_reader-finish_example : new_reader (finish policy builder) ≡ record {
  contents = finish policy builder;
  offset = length (closed policy builder).result;
  num = length (closed policy builder).filter_offsets;
  base_lg = 11;
}
unfolding generate_filter
new_reader-finish_example = new_reader-finish policy builder (omega arith)
