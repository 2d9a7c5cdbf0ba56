-- ===== src/FilterBlock/Layout.antt =====
-- What a finished block holds, as its reader finds it.
use leveldb_windows.Base.{
  ℕ, ◌+◌, ◌-◌, ◌*◌, ◌/◌, ◌%◌, ◌^◌, ◌≤◌, ◌<◌, ◌≡◌, refl, ◌∙◌, arith, false, List, [], ◌∷◌, ◌++◌,
  append_assoc, Bytes, length, length-append, drop, drop_join, get_or, ltb, ◌==◌, if◌then◌else◌,
}
use leveldb_windows.Coding.{put_fixed32, encode_fixed32, decode_fixed32}
use leveldb_windows.Coding.Fixed.{decode_fixed32-encode_fixed32, length-encode_fixed32}
use leveldb_windows.Bloom.{FilterPolicy}
use leveldb_windows.FilterBlock.{
  FilterBlockBuilder, generate_filter, put_offsets, finish, new_reader, size_of_char,
}

length-put_offsets :
    (dst : Bytes) (offsets : List ℕ)
    → length (put_offsets dst offsets) ≡ length dst + length offsets * 4
unfolding put_offsets put_fixed32
length-put_offsets dst [] = omega arith
length-put_offsets dst (offset ∷ offsets) = omega (
  arith,
  length-put_offsets (put_fixed32 dst offset) offsets,
  length-append dst (encode_fixed32 offset),
  length-encode_fixed32 offset,
)

get_or_last : (xs : Bytes) (a d : ℕ) → get_or (xs ++ (a ∷ [])) (length xs) d ≡ a
get_or_last [] a d = refl
get_or_last (x ∷ xs) a d = get_or_last xs a d

add_less_less : (a b c : ℕ) → c ≤ b → a + b - c ≡ a + (b - c)
add_less_less a b c h = omega arith

add_less_self : (a b : ℕ) → a + b - b ≡ a
add_less_self a b = omega arith

not_short : (a : ℕ) → ltb (a + 5) 5 ≡ false
not_short a = ground arith

not_above : (a b : ℕ) → b ≤ a → ltb a b ≡ false
not_above a b h = ground arith

-- A string that ends with a word and one byte, as the reader takes it apart.
module _ (front : Bytes) (word base : ℕ) (small : word < 2 ^ 32) where
  abbrev whole : Bytes
  whole = (front ++ encode_fixed32 word) ++ (base ∷ [])

  length-whole : length whole ≡ length front + 5
  length-whole = omega (
    arith,
    length-append (front ++ encode_fixed32 word) (base ∷ []),
    length-append front (encode_fixed32 word),
    length-encode_fixed32 word,
  )

  word_read : decode_fixed32 (drop (length front) whole) ≡ word
  word_read = rw (append_assoc front (encode_fixed32 word) (base ∷ [])) (
      rw (drop_join (length front) front (encode_fixed32 word ++ (base ∷ [])) refl)
        (decode_fixed32-encode_fixed32 word (base ∷ []) small))

  length-before : length (front ++ encode_fixed32 word) ≡ length front + 4
  length-before =
      omega (arith, length-append front (encode_fixed32 word), length-encode_fixed32 word)

  base_read : get_or whole (length front + 4) 0 ≡ base
  base_read = rw (← length-before) (get_or_last (front ++ encode_fixed32 word) base 0)

  new_reader-whole :
      word ≤ length front
      → new_reader whole ≡ record {
        contents = whole;
        offset = word;
        num = (length front - word) / 4;
        base_lg = size_of_char base;
      }
  unfolding new_reader
  new_reader-whole inside =
      rw
        (
          length-whole,
          add_less_less (length front) 5 1 (omega arith),
          add_less_self (length front) 5,
          base_read,
          word_read,
          not_short (length front),
          not_above (length front) word inside,
        )
        refl

new_reader-put_offsets :
    (result : Bytes) (offsets : List ℕ)
    → length result < 2 ^ 32
    → let contents =
        (put_offsets result offsets ++ encode_fixed32 (length result % 2 ^ 32)) ++ (11 ∷ []) in
      new_reader contents
      ≡ record { contents = contents; offset = length result; num = length offsets; base_lg = 11 }
new_reader-put_offsets result offsets small =
    let front = put_offsets result offsets in
    let fits : length result % 2 ^ 32 ≡ length result = omega arith in
    let entries : (length front - length result) / 4 ≡ length offsets =
      omega (arith, length-put_offsets result offsets) in
    rw fits (
      new_reader-whole front (length result) 11 small
        (omega (arith, length-put_offsets result offsets))
      ∙ rw entries refl)

module _ (policy : FilterPolicy) (b : FilterBlockBuilder) where
  -- The builder once the filter of the last keys is made.
  abbrev pub closed : FilterBlockBuilder
  closed = if length b.start == 0 then b else generate_filter policy b

  -- When the filters take less than 4 GB, a finished block is read with one filter for each offset
  -- that the builder kept, with the array of offsets directly behind the filters, and with the
  -- builder's base.
  pub new_reader-finish :
      length closed.result < 2 ^ 32
      → new_reader (finish policy b) ≡ record {
        contents = finish policy b;
        offset = length closed.result;
        num = length closed.filter_offsets;
        base_lg = 11;
      }
  unfolding finish put_fixed32
  new_reader-finish small = new_reader-put_offsets closed.result closed.filter_offsets small
