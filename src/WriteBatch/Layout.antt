-- ===== src/WriteBatch/Layout.antt =====
-- LevelDB/db/write_batch.cc: the updates that a batch holds, and the operations on them.
use leveldb_windows.Base.{
  ℕ, ◌+◌, ◌<◌, ◌≡◌, refl, sym, ap, ◌∙◌, arith, List, [], ◌∷◌, ◌++◌, append_assoc, append-nil, Bytes,
  IsU32, IsU64, length, take, drop, All,
}
use mathlib.Core.Path.{ap₂}
use leveldb_windows.Coding.{encode_fixed32, encode_fixed64, encode_varint32}
use leveldb_windows.Coding.Fixed.{decode_fixed32-encode_fixed32, decode_fixed64-encode_fixed64}
use leveldb_windows.Coding.Prefixed.{put_length_prefixed_slice-append}
use leveldb_windows.WriteBatch.{
  WriteBatch, count, set_count, sequence, set_sequence, new_write_batch, put, delete, append,
}

-- One update, as a client asks for it.
pub data Update : Type 0 where
  assign : Bytes → Bytes → Update
  remove : Bytes → Update

abbrev pub prefixed : Bytes → Bytes
prefixed s = encode_varint32 (length s) ++ s

-- A record of the format that the comment at the head of the source gives.
abbrev pub encode_update : Update → Bytes
encode_update (assign key value) = 1 ∷ (prefixed key ++ prefixed value)
encode_update (remove key) = 0 ∷ prefixed key

abbrev pub encode_updates : List Update → Bytes
encode_updates [] = []
encode_updates (u ∷ us) = encode_update u ++ encode_updates us

-- The batch with number `seq`, the count `n` and the updates `us`.
abbrev pub layout : ℕ → ℕ → List Update → Bytes
layout seq n us = encode_fixed64 seq ++ (encode_fixed32 n ++ encode_updates us)

abbrev pub Fits : Update → Type 0
Fits (assign key value) = IsU32 (length key) × IsU32 (length value)
Fits (remove key) = IsU32 (length key)

abbrev pub apply_update : WriteBatch → Update → WriteBatch
apply_update b (assign key value) = put b key value
apply_update b (remove key) = delete b key

pub encode_updates-append :
    (us vs : List Update) → encode_updates (us ++ vs) ≡ encode_updates us ++ encode_updates vs
encode_updates-append [] vs = refl
encode_updates-append (u ∷ us) vs =
    rw (encode_updates-append us vs) (sym (append_assoc (encode_update u) _ _))

module _ (seq n : ℕ) (us : List Update) where
  drop_number : drop 8 (layout seq n us) ≡ encode_fixed32 n ++ encode_updates us
  drop_number = unfold encode_fixed64 in refl

  pub drop_header : drop 12 (layout seq n us) ≡ encode_updates us
  drop_header = unfold encode_fixed64 encode_fixed32 in refl

  take_number : take 8 (layout seq n us) ≡ encode_fixed64 seq
  take_number = unfold encode_fixed64 in refl

  pub count-layout : IsU32 n → count (record { rep = layout seq n us }) ≡ n
  unfolding count
  count-layout h = rw drop_number (decode_fixed32-encode_fixed32 n (encode_updates us) h)

  -- The number that was set is read back, and setting it keeps the count and the updates.
  pub sequence-layout : IsU64 seq → sequence (record { rep = layout seq n us }) ≡ seq
  unfolding sequence
  sequence-layout h = decode_fixed64-encode_fixed64 seq _ h

  set_count-layout :
      (m : ℕ) → set_count (record { rep = layout seq n us }) m ≡ record { rep = layout seq m us }
  unfolding set_count
  set_count-layout m = rw (take_number, drop_header)

  pub set_sequence-layout :
      (s : ℕ) → set_sequence (record { rep = layout seq n us }) s ≡ record { rep = layout s n us }
  unfolding set_sequence
  set_sequence-layout s = rw drop_number

  put-layout :
      (key value : Bytes)
      → IsU32 n
      → Fits (assign key value)
      → put (record { rep = layout seq n us }) key value
        ≡ record { rep = layout seq (n + 1) (us ++ (assign key value ∷ [])) }
  unfolding put
  put-layout key value h (hk, hv) =
      rw
        (
          count-layout h,
          set_count-layout (n + 1),
          put_length_prefixed_slice-append (layout seq (n + 1) us ++ (1 ∷ [])) key hk,
        )
        (rw (put_length_prefixed_slice-append _ value hv)
          (simp (encode_updates-append, append_assoc, append-nil)))

  delete-layout :
      (key : Bytes)
      → IsU32 n
      → IsU32 (length key)
      → delete (record { rep = layout seq n us }) key
        ≡ record { rep = layout seq (n + 1) (us ++ (remove key ∷ [])) }
  unfolding delete
  delete-layout key h hk =
      rw
        (
          count-layout h,
          set_count-layout (n + 1),
          put_length_prefixed_slice-append (layout seq (n + 1) us ++ (0 ∷ [])) key hk,
        )
        (simp (encode_updates-append, append_assoc, append-nil))

-- `Put` and `Delete` append one update and count it.
pub apply_update-layout :
    (seq n : ℕ) (us : List Update) (u : Update)
    → IsU32 n
    → Fits u
    → apply_update (record { rep = layout seq n us }) u
      ≡ record { rep = layout seq (n + 1) (us ++ (u ∷ [])) }
apply_update-layout seq n us (assign key value) h fits = put-layout seq n us key value h fits
apply_update-layout seq n us (remove key) h fits = delete-layout seq n us key h fits

abbrev pub apply_updates : WriteBatch → List Update → WriteBatch
apply_updates b [] = b
apply_updates b (u ∷ us) = apply_updates (apply_update b u) us

apply_updates-layout :
    (seq n : ℕ) (us vs : List Update)
    → n + length vs < 4294967296
    → All Fits vs
    → apply_updates (record { rep = layout seq n us }) vs
      ≡ record { rep = layout seq (n + length vs) (us ++ vs) }
apply_updates-layout seq n us [] h fits =
    rw append-nil (ap (λ (m : ℕ). record { rep = layout seq m us }) (omega arith))
apply_updates-layout seq n us (v ∷ vs) h fits =
    rw (apply_update-layout seq n us v (omega arith) fits.0) (
      apply_updates-layout seq (n + 1) (us ++ (v ∷ [])) vs (omega arith) fits.1
      ∙ ap₂ (λ (m : ℕ) (ws : List Update). record { rep = layout seq m ws }) (omega arith)
          (append_assoc us (v ∷ []) vs))

-- The updates that are made on a new batch are what it holds, in their order, with their number.
pub new_write_batch-updates :
    (us : List Update)
    → IsU32 (length us)
    → All Fits us
    → apply_updates new_write_batch us ≡ record { rep = layout 0 (length us) us }
new_write_batch-updates us h fits =
    let start : new_write_batch ≡ record { rep = layout 0 0 [] } =
      unfold new_write_batch encode_fixed64 encode_fixed32 in refl in
    rw start (
      apply_updates-layout 0 0 [] us (omega arith) fits
      ∙ ap (λ (m : ℕ). record { rep = layout 0 m us }) (omega arith))

-- `Append` adds the updates of the second batch behind those of the first, whose number it keeps, and
-- adds the two counts, where their sum is below 2^32.
pub append-layout :
    (seq n seq' m : ℕ) (us vs : List Update)
    → n + m < 4294967296
    → append (record { rep = layout seq n us }) (record { rep = layout seq' m vs })
      ≡ record { rep = layout seq (n + m) (us ++ vs) }
unfolding append
append-layout seq n seq' m us vs h =
    rw
      (
        count-layout seq n us (omega arith),
        count-layout seq' m vs (omega arith),
        set_count-layout seq n us (n + m),
        drop_header seq' m vs,
        encode_updates-append us vs,
      )
      (simp append_assoc)
