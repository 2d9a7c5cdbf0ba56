-- ===== src/Format/Runs.antt =====
-- Handles and footers at concrete values.
use leveldb_windows.Base.{◌+◌, ◌≡◌, arith, inl, [], ◌∷◌, ◌++◌, ◌^◌}
use leveldb_windows.Format.{BlockHandle, Footer, encode_footer, decode_footer}
use leveldb_windows.Format.RoundTrip.{HandleFits, decode_footer-encode_footer}

abbrev metaindex : BlockHandle
metaindex = record { offset = 2 ^ 40; size = 300 }

abbrev index : BlockHandle
index = record { offset = 2 ^ 40 + 305; size = 17 }

metaindex-HandleFits : HandleFits metaindex
metaindex-HandleFits = (omega arith, omega arith)

index-HandleFits : HandleFits index
index-HandleFits = (omega arith, omega arith)

abbrev footer : Footer
footer = record { metaindex_handle = metaindex; index_handle = index }

decode_footer-encode_footer_example :
    decode_footer (encode_footer footer [] ++ (1 ∷ 2 ∷ [])) ≡ inl (footer, 1 ∷ 2 ∷ [])
decode_footer-encode_footer_example =
    decode_footer-encode_footer footer metaindex-HandleFits index-HandleFits (1 ∷ 2 ∷ [])
