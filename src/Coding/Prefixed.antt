-- ===== src/Coding/Prefixed.antt =====
-- Length-prefixed strings.
use leveldb_windows.Base.{
  ℕ, ◌≤◌, ◌%◌, ◌^◌, ◌≡◌, arith, some, ◌++◌, Bytes, IsU32, IsByte, All, length, append_assoc,
  take-append, drop-append, length-append, take, drop, leb, true, take-append-drop, sym, Option,
  Option-cases, none, inl, inr, if◌then◌else◌, ◌∙◌, ap, length-take,
}
use mathlib.Core.Path.{ap₂}
use leveldb_windows.Coding.{
  encode_varint32, put_varint32, put_length_prefixed_slice, get_varint32, get_length_prefixed_slice,
}
use leveldb_windows.Coding.Decode.{get_varint32-encode_varint32, get_varint32-Reads}

-- The appended text does not depend on what stands before it.
pub put_length_prefixed_slice-append :
    (dst value : Bytes)
    → IsU32 (length value)
    → put_length_prefixed_slice dst value ≡ dst ++ (encode_varint32 (length value) ++ value)
unfolding put_length_prefixed_slice put_varint32
put_length_prefixed_slice-append dst value h =
    let e : length value % 2 ^ 32 ≡ length value = omega arith in rw (e, append_assoc)

-- A string that is written with its length is read back, whatever follows it.
pub get_length_prefixed_slice-encode :
    (value rest : Bytes)
    → IsU32 (length value)
    → get_length_prefixed_slice (encode_varint32 (length value) ++ (value ++ rest))
      ≡ some (value, rest)
unfolding get_length_prefixed_slice
get_length_prefixed_slice-encode value rest h =
    let fits : leb (length value) (length (value ++ rest)) ≡ true =
      ground (arith, length-append value rest) in
    rw (
      get_varint32-encode_varint32 (length value) (value ++ rest) h,
      fits,
      take-append value rest,
      drop-append value rest,
    )

cut_cases :
    (len : ℕ) (p value rest : Bytes)
    → if◌then◌else◌ {A = Option (Bytes × Bytes)}
        (leb len (length p))
        (some (take len p, drop len p))
        none
      ≡ some (value, rest)
    → (len ≤ length p) × (take len p ≡ value) × (drop len p ≡ rest)
cut_cases len p value rest e = ground arith

slice_cases :
    (input value rest : Bytes)
    → get_length_prefixed_slice input ≡ some (value, rest)
    → (len : ℕ) × (p : Bytes) × (get_varint32 input ≡ some (len, p))
      × (len ≤ length p)
      × (take len p ≡ value)
      × (drop len p ≡ rest)
unfolding get_length_prefixed_slice
slice_cases input value rest e = elim (Option-cases (get_varint32 input)) [
  | inl bad ↦ absurd (cc (rw bad at e))
  | inr ((len, p), read) ↦
      let (fits, front_part, back_part) = cut_cases len p value rest (rw read at e) in
      (len, p, read, fits, front_part, back_part)
]

-- On any bytes the read fails, or splits the input into a prefix of 1 to 5 bytes, the string, and
-- the rest.
pub get_length_prefixed_slice_splits :
    (input value rest : Bytes)
    → All IsByte input
    → get_length_prefixed_slice input ≡ some (value, rest)
    → (front : Bytes) × (input ≡ front ++ (value ++ rest))
      × (1 ≤ length front)
      × (length front ≤ 5)
      × IsU32 (length value)
get_length_prefixed_slice_splits input value rest h e =
    let (len, p, read, fits, front_part, back_part) = slice_cases input value rest e in
    let r = get_varint32-Reads input len p h read in
    let whole : value ++ rest ≡ p = sym (ap₂ ◌++◌ front_part back_part) ∙ take-append-drop len p in
    (
      r.front,
      rw whole r.splits,
      r.some_byte,
      r.few_bytes,
      omega (arith, r.in_word, ap length front_part, length-take len p),
    )
