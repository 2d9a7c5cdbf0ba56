-- ===== src/WriteBatch/Total.antt =====
-- LevelDB/db/write_batch.cc: the end of WriteBatch::Iterate.
use leveldb_windows.Base.{
  ℕ, zero, suc, ◌+◌, ◌%◌, ◌^◌, ◌≤◌, ◌<◌, ◌≡◌, refl, arith, some, [], ◌∷◌, ◌++◌, Bytes, IsByte,
  length, length-append, drop, All, All-drop, All-append_right, ltb, ◌==◌, true, false,
  Option-cases, Bool-cases, inl, inr, ap,
}
use leveldb_windows.Status.{Status, corruption}
use leveldb_windows.Coding.{get_length_prefixed_slice}
use leveldb_windows.Coding.Prefixed.{get_length_prefixed_slice_splits}
use leveldb_windows.WriteBatch.{WriteBatch, Handler, count, iterate_loop, iterate, header}

-- What a successful read leaves is shorter, and of bytes.
slice_rest :
    (input value rest : Bytes)
    → All IsByte input
    → get_length_prefixed_slice input ≡ some (value, rest)
    → (length rest < length input) × All IsByte rest
slice_rest input value rest h e =
    let (front, splits, one, five, fits) = get_length_prefixed_slice_splits input value rest h e in
    (
      omega
          (arith, ap length splits, length-append front (value ++ rest), length-append value rest),
      All-append_right IsByte value rest
          (All-append_right IsByte front (value ++ rest) (rw splits at h)),
    )

module _ {ℓ} {S : Type ℓ} (handler : Handler S) (expected : ℕ) where
  abbrev Ends : ℕ → Bytes → ℕ → S → Type ℓ
  Ends fuel input found s =
      (r : S × Status) × (iterate_loop handler expected fuel input found s ≡ some r)

  put-Ends :
      (fuel tag : ℕ) (input : Bytes) (found : ℕ) (s : S)
      → All IsByte input
      → (tag == 1) ≡ true
      → ((rest : Bytes) (s' : S)
          → length rest < length input
          → All IsByte rest
          → Ends fuel rest ((found + 1) % 2 ^ 32) s')
      → Ends (suc fuel) (tag ∷ input) found s
  unfolding iterate_loop
  put-Ends fuel tag input found s h is_put next =
      elim (Option-cases (get_length_prefixed_slice input)) [
        | inl bad ↦ ((s, corruption "bad WriteBatch Put"), rw (is_put, bad))
        | inr ((key, behind), read) ↦
            let (shorter, bytes) = slice_rest input key behind h read in
            elim (Option-cases (get_length_prefixed_slice behind)) [
              | inl bad ↦ ((s, corruption "bad WriteBatch Put"), rw (is_put, read, bad))
              | inr ((value, rest), read') ↦
                  let (shorter', bytes') = slice_rest behind value rest bytes read' in
                  let (r, e) = next rest (handler.on_put key value s) (omega arith) bytes' in
                  (r, rw (is_put, read, read') e)
            ]
      ]

  delete-Ends :
      (fuel tag : ℕ) (input : Bytes) (found : ℕ) (s : S)
      → All IsByte input
      → (tag == 1) ≡ false
      → (tag == 0) ≡ true
      → ((rest : Bytes) (s' : S)
          → length rest < length input
          → All IsByte rest
          → Ends fuel rest ((found + 1) % 2 ^ 32) s')
      → Ends (suc fuel) (tag ∷ input) found s
  unfolding iterate_loop
  delete-Ends fuel tag input found s h not_put is_delete next =
      elim (Option-cases (get_length_prefixed_slice input)) [
        | inl bad ↦ ((s, corruption "bad WriteBatch Delete"), rw (not_put, is_delete, bad))
        | inr ((key, rest), read) ↦
            let (shorter, bytes) = slice_rest input key rest h read in
            let (r, e) = next rest (handler.on_delete key s) shorter bytes in
            (r, rw (not_put, is_delete, read) e)
      ]

  unknown-Ends :
      (fuel tag : ℕ) (input : Bytes) (found : ℕ) (s : S)
      → (tag == 1) ≡ false
      → (tag == 0) ≡ false
      → Ends (suc fuel) (tag ∷ input) found s
  unfolding iterate_loop
  unknown-Ends fuel tag input found s not_put not_delete =
      ((s, corruption "unknown WriteBatch tag"), rw (not_put, not_delete))

  iterate_loop-Ends :
      (fuel : ℕ) (input : Bytes) (found : ℕ) (s : S)
      → All IsByte input
      → length input ≤ fuel
      → Ends fuel input found s
  iterate_loop-Ends zero [] found s h le = unfold iterate_loop in (_, refl)
  iterate_loop-Ends (suc fuel) [] found s h le = unfold iterate_loop in (_, refl)
  iterate_loop-Ends zero (tag ∷ input) found s h le = absurd (omega arith)
  iterate_loop-Ends (suc fuel) (tag ∷ input) found s h le =
      let next : (rest : Bytes) (s' : S)
          → length rest < length input
          → All IsByte rest
          → Ends fuel rest ((found + 1) % 2 ^ 32) s' =
        λ rest s' shorter bytes.
          iterate_loop-Ends fuel rest ((found + 1) % 2 ^ 32) s' bytes (omega arith) in
      elim (Bool-cases (tag == 1)) [
        | inl is_put ↦ put-Ends fuel tag input found s h.1 is_put next
        | inr not_put ↦ elim (Bool-cases (tag == 0)) [
          | inl is_delete ↦ delete-Ends fuel tag input found s h.1 not_put is_delete next
          | inr not_delete ↦ unknown-Ends fuel tag input found s not_put not_delete
        ]
      ]

-- On a batch of any bytes, well formed or not, `Iterate` ends with a state and a status.
pub iterate_ends {ℓ} :
    {S : Type ℓ} (handler : Handler S) (b : WriteBatch) (s : S)
    → All IsByte b.rep
    → (r : S × Status) × (iterate handler b s ≡ some r)
unfolding iterate
iterate_ends handler b s h = elim (Bool-cases (ltb (length b.rep) header)) [
  | inl short ↦ ((s, corruption "malformed WriteBatch (too small)"), rw short)
  | inr long ↦
      let input = drop header b.rep in
      let (r, e) =
        iterate_loop-Ends handler (count b) (length input) input 0 s
          (All-drop IsByte header b.rep h) (omega arith) in
      (r, rw long e)
]
