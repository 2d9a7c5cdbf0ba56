-- ===== src/WriteBatch/Iterate.antt =====
-- LevelDB/db/write_batch.cc: WriteBatch::Iterate on the updates of a batch.
use leveldb_windows.Base.{
  ℕ, zero, suc, ◌+◌, ◌%◌, ◌^◌, ◌<◌, ◌≤◌, ◌≡◌, refl, ap, ◌∙◌, arith, some, Option, ==_iff, List, [],
  ◌∷◌, ◌++◌, append_assoc, Bytes, IsU32, length, length-append, All, ltb, ◌==◌, if◌then◌else◌,
  false,
}
use leveldb_windows.Status.{Status, ok_status, corruption}
use leveldb_windows.Coding.{encode_fixed32, encode_fixed64}
use leveldb_windows.Coding.Fixed.{length-encode_fixed32, length-encode_fixed64}
use leveldb_windows.Coding.Prefixed.{get_length_prefixed_slice-encode}
use leveldb_windows.WriteBatch.{Handler, iterate_loop, iterate, header, new_write_batch}
use leveldb_windows.WriteBatch.Layout.{
  Update, assign, remove, prefixed, encode_update, encode_updates, layout, Fits, count-layout,
  drop_header, apply_updates, new_write_batch-updates,
}

module _ {ℓ} {S : Type ℓ} (handler : Handler S) where
  -- The calls that a handler should see.
  abbrev pub handle : Update → S → S
  handle (assign key value) s = handler.on_put key value s
  handle (remove key) s = handler.on_delete key s

  abbrev pub handle_all : List Update → S → S
  handle_all [] s = s
  handle_all (u ∷ us) s = handle_all us (handle u s)

  -- One round takes one update.
  iterate_loop_step :
      (expected fuel : ℕ) (u : Update) (input : Bytes) (found : ℕ) (s : S)
      → Fits u
      → iterate_loop handler expected (suc fuel) (encode_update u ++ input) found s
        ≡ iterate_loop handler expected fuel input ((found + 1) % 2 ^ 32) (handle u s)
  unfolding iterate_loop
  iterate_loop_step expected fuel (assign key value) input found s (hk, hv) = simp (
    append_assoc,
    get_length_prefixed_slice-encode key _ hk,
    get_length_prefixed_slice-encode value input hv,
  )
  iterate_loop_step expected fuel (remove key) input found s h =
      simp (append_assoc, get_length_prefixed_slice-encode key input h)

  abbrev pub closing : ℕ → ℕ → Status
  closing found expected =
      if found == expected then ok_status else corruption "WriteBatch has wrong count"

  iterate_loop_end :
      (expected fuel found : ℕ) (s : S)
      → iterate_loop handler expected fuel [] found s ≡ some (s, closing found expected)
  unfolding iterate_loop
  iterate_loop_end expected zero found s = refl
  iterate_loop_end expected (suc fuel) found s = refl

  update_takes :
      (u : Update) (input : Bytes) → suc (length input) ≤ length (encode_update u ++ input)
  update_takes (assign key value) input =
      omega (arith, length-append (prefixed key ++ prefixed value) input)
  update_takes (remove key) input = omega (arith, length-append (prefixed key) input)

  iterate_loop-updates :
      (expected : ℕ) (us : List Update) (fuel found : ℕ) (s : S)
      → All Fits us
      → found + length us < 4294967296
      → length (encode_updates us) ≤ fuel
      → iterate_loop handler expected fuel (encode_updates us) found s
        ≡ some (handle_all us s, closing (found + length us) expected)
  iterate_loop-updates expected [] fuel found s fits small h =
      iterate_loop_end expected fuel found s
      ∙ ap (λ (m : ℕ). some (s, closing m expected)) (omega arith)
  iterate_loop-updates expected (u ∷ us) zero found s fits small h =
      absurd (omega (arith, update_takes u (encode_updates us)))
  iterate_loop-updates expected (u ∷ us) (suc fuel) found s fits small h =
      iterate_loop_step expected fuel u (encode_updates us) found s fits.0
      ∙ iterate_loop-updates expected us fuel ((found + 1) % 2 ^ 32) (handle u s) fits.1
          (omega arith) (omega (arith, update_takes u (encode_updates us)))
      ∙ ap (λ (m : ℕ). some (handle_all us (handle u s), closing m expected)) (omega arith)

  iterate_counted :
      (seq n : ℕ) (us : List Update) (s : S)
      → IsU32 n
      → IsU32 (length us)
      → All Fits us
      → iterate handler (record { rep = layout seq n us }) s
        ≡ some (handle_all us s, closing (length us) n)
  unfolding iterate
  iterate_counted seq n us s h few fits =
      let long : ltb (length (layout seq n us)) header ≡ false = ground (
        arith,
        length-append (encode_fixed64 seq) (encode_fixed32 n ++ encode_updates us),
        length-append (encode_fixed32 n) (encode_updates us),
        length-encode_fixed64 seq,
        length-encode_fixed32 n,
      ) in
      rw (long, count-layout seq n us h, drop_header seq n us)
        (iterate_loop-updates n us (length (encode_updates us)) 0 s fits (omega arith) (omega arith)
          ∙ ap (λ (m : ℕ). some (handle_all us s, closing m n)) (omega arith))

  -- A batch with fewer than 2^31 updates, with keys and values shorter than 2^32, and with any count
  -- below 2^32 calls the handler for each update in turn; the status is OK where the count is the
  -- number of the updates, and is corruption otherwise.
  pub iterate-layout :
      (seq n : ℕ) (us : List Update) (s : S)
      → IsU32 n
      → length us < 2 ^ 31
      → All Fits us
      → iterate handler (record { rep = layout seq n us }) s
        ≡ some (handle_all us s, closing (length us) n)
  iterate-layout seq n us s h few fits = iterate_counted seq n us s h (omega arith) fits

  -- Fewer than 2^32 updates that are made on a new batch, with keys and values shorter than 2^32, are
  -- those that its handler sees, in their order, and the status is OK. The counters, which are of type
  -- `int`, are their words of 32 bits.
  pub iterate-new_write_batch :
      (us : List Update) (s : S)
      → IsU32 (length us)
      → All Fits us
      → iterate handler (apply_updates new_write_batch us) s ≡ some (handle_all us s, ok_status)
  iterate-new_write_batch us s h fits =
      rw (new_write_batch-updates us h fits) (iterate_counted 0 (length us) us s h h fits ∙ counted)
    where
      counted :
          ◌≡◌ {A = Option (S × Status)}
            (some (handle_all us s, closing (length us) (length us)))
            (some (handle_all us s, ok_status))
      counted = rw ((==_iff (length us) (length us)).1 refl)
