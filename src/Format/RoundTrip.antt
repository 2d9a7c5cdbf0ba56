-- ===== src/Format/RoundTrip.antt =====
-- LevelDB/table/format.cc: handles and footers written and read.
use leveldb_windows.Base.{
  ℕ, ◌-◌, ◌≤◌, ◌≡◌, refl, sym, ap, ◌∙◌, arith, inl, some, [], ◌++◌, append_assoc, Bytes, IsU64,
  length, length-append, length-replicate, take_all, drop, drop_join, replicate,
}
use leveldb_windows.Coding.{
  encode_varint64, encode_fixed32, put_varint64, put_fixed32, decode_fixed32,
}
use leveldb_windows.Coding.Varint.{encode_varint64-groups, length-groups}
use leveldb_windows.Coding.Decode.{get_varint64-encode_varint64}
use leveldb_windows.Coding.Fixed.{length-encode_fixed32}
use leveldb_windows.Format.{
  BlockHandle, Footer, encode_handle, decode_handle, encode_footer, decode_footer,
}

abbrev pub HandleFits : BlockHandle → Type 0
HandleFits h = IsU64 h.offset × IsU64 h.size

abbrev handle_bytes : BlockHandle → Bytes
handle_bytes h = encode_varint64 h.offset ++ encode_varint64 h.size

encode_handle-bytes : (h : BlockHandle) (dst : Bytes) → encode_handle h dst ≡ dst ++ handle_bytes h
unfolding encode_handle put_varint64
encode_handle-bytes h dst = append_assoc dst _ _

decode_handle-bytes :
    (h : BlockHandle) (rest : Bytes)
    → HandleFits h
    → decode_handle (handle_bytes h ++ rest) ≡ some (h, rest)
unfolding decode_handle
decode_handle-bytes h rest (ho, hs) =
    rw append_assoc (
      simp
        (get_varint64-encode_varint64 h.offset _ ho, get_varint64-encode_varint64 h.size rest hs))

-- A handle that is appended to a string is read back from there, and what follows it is left.
pub decode_handle-encode_handle :
    (h : BlockHandle) (rest : Bytes)
    → HandleFits h
    → decode_handle (encode_handle h [] ++ rest) ≡ some (h, rest)
decode_handle-encode_handle h rest fits = rw encode_handle-bytes (decode_handle-bytes h rest fits)

length-handle_bytes : (h : BlockHandle) → HandleFits h → length (handle_bytes h) ≤ 20
length-handle_bytes h (ho, hs) =
    rw (encode_varint64-groups h.offset ho, encode_varint64-groups h.size hs)
      (rw length-append (omega (arith, length-groups 9 h.offset, length-groups 9 h.size)))

module _ (f : Footer) (hm : HandleFits f.metaindex_handle) (hi : HandleFits f.index_handle) where
  abbrev handles : Bytes
  handles = handle_bytes f.metaindex_handle ++ handle_bytes f.index_handle

  abbrev padding : Bytes
  padding = replicate (40 - length handles) 0

  length-handles : length handles ≤ 40
  length-handles = rw length-append (
      omega
        (arith, length-handle_bytes f.metaindex_handle hm, length-handle_bytes f.index_handle hi))

  abbrev magic_bytes : Bytes
  magic_bytes = encode_fixed32 0x8b80fb57 ++ encode_fixed32 0xdb477524

  encode_footer-bytes : encode_footer f [] ≡ (handles ++ padding) ++ magic_bytes
  unfolding encode_footer put_fixed32
  encode_footer-bytes =
      rw (encode_handle-bytes f.metaindex_handle [], encode_handle-bytes f.index_handle)
        (rw (take_all 40 handles length-handles) (append_assoc (handles ++ padding) _ _))

  length-padded : length (handles ++ padding) ≡ 40
  length-padded = omega (
    arith,
    length-append handles padding,
    length-replicate {A = ℕ} (40 - length handles) 0,
    length-handles,
  )

  -- A footer takes exactly 48 bytes.
  pub length-encode_footer : length (encode_footer f []) ≡ 48
  length-encode_footer = rw encode_footer-bytes (
      omega (
        arith,
        length-append (handles ++ padding) magic_bytes,
        length-append (encode_fixed32 0x8b80fb57) (encode_fixed32 0xdb477524),
        length-encode_fixed32 0x8b80fb57,
        length-encode_fixed32 0xdb477524,
        length-padded,
      ))

  magic_behind :
      (rest : Bytes) → drop 40 (((handles ++ padding) ++ magic_bytes) ++ rest) ≡ magic_bytes ++ rest
  magic_behind rest =
      rw (append_assoc (handles ++ padding) magic_bytes rest)
        (drop_join 40 (handles ++ padding) _ length-padded)

  read_low : (rest : Bytes) → decode_fixed32 (magic_bytes ++ rest) ≡ 0x8b80fb57
  unfolding decode_fixed32 encode_fixed32
  read_low rest = refl

  read_high : (rest : Bytes) → decode_fixed32 (drop 4 (magic_bytes ++ rest)) ≡ 0xdb477524
  unfolding decode_fixed32 encode_fixed32
  read_high rest = refl

  whole_bytes :
      (rest : Bytes)
      → ((handles ++ padding) ++ magic_bytes) ++ rest
        ≡ handle_bytes f.metaindex_handle
          ++ (handle_bytes f.index_handle ++ (padding ++ (magic_bytes ++ rest)))
  whole_bytes rest = simp append_assoc

  footer_behind : (rest : Bytes) → drop 48 (((handles ++ padding) ++ magic_bytes) ++ rest) ≡ rest
  footer_behind rest =
      drop_join 48 ((handles ++ padding) ++ magic_bytes) rest
        (ap length (sym encode_footer-bytes) ∙ length-encode_footer)

  -- A footer that is written to an empty string is read back, whatever follows it, and the input
  -- behind it is left.
  pub decode_footer-encode_footer :
      (rest : Bytes) → decode_footer (encode_footer f [] ++ rest) ≡ inl (f, rest)
  unfolding decode_footer
  decode_footer-encode_footer rest =
      rw
        (
          encode_footer-bytes,
          magic_behind rest,
          read_low rest,
          read_high rest,
          footer_behind rest,
          whole_bytes rest,
        )
        (rw
          (decode_handle-bytes f.metaindex_handle
            (handle_bytes f.index_handle ++ (padding ++ (magic_bytes ++ rest))) hm)
          (rw (decode_handle-bytes f.index_handle (padding ++ (magic_bytes ++ rest)) hi) refl))
