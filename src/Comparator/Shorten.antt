-- ===== src/Comparator/Shorten.antt =====
-- LevelDB/util/comparator.cc: the byte-wise order and its two shortening functions.
use leveldb_windows.Base.{
  ℕ, suc, ◌≤◌, ◌≡◌, ◌≢◌, sym, ap, ◌∙◌, arith, false, [], ◌∷◌, Bytes, length, ◌==◌, Bool-cases, inl,
  inr,
}
use leveldb_windows.Slice.{slice_compare}
use leveldb_windows.Slice.Lex.{
  lex, slice_compare-lex, lex-flip, lex_refl, eq_of_lex, lex_trans, lex_cons_eq,
}
use leveldb_windows.Comparator.{
  IsOrder, bytewise_comparator, find_shortest_separator, find_short_successor,
}
use Prim.Native.Nat.{lt, gt}

-- The byte-wise comparator is a total order on byte strings.
pub bytewise-IsOrder : IsOrder bytewise_comparator
bytewise-IsOrder = record {
  flipped = λ a b. rw slice_compare-lex (rw slice_compare-lex (lex-flip a b));
  lt_trans = λ x y z p q.
      rw slice_compare-lex
        (lex_trans x y z (rw slice_compare-lex at p) (rw slice_compare-lex at q));
  eq_lt =
      λ x y z e. ap (λ (s : Bytes). slice_compare s z) (eq_of_lex x y (rw slice_compare-lex at e));
}

separator_step :
    (x : ℕ) (start limit : Bytes)
    → find_shortest_separator (x ∷ start) (x ∷ limit) ≡ x ∷ find_shortest_separator start limit
unfolding find_shortest_separator
separator_step x start limit = ground arith

separator_nil : (limit : Bytes) → find_shortest_separator [] limit ≡ []
unfolding find_shortest_separator
separator_nil limit = ground arith

-- Where the first bytes differ, the separator is decided by them.
separator_differs :
    (x y : ℕ) (start limit : Bytes)
    → (x == y) ≡ false
    → lex (x ∷ start) (y ∷ limit) ≡ lt
    → (lex (x ∷ start) (find_shortest_separator (x ∷ start) (y ∷ limit)) ≢ gt)
      × (lex (find_shortest_separator (x ∷ start) (y ∷ limit)) (y ∷ limit) ≡ lt)
      × (length (find_shortest_separator (x ∷ start) (y ∷ limit)) ≤ suc (length start))
unfolding find_shortest_separator lex
separator_differs x y start limit d h = ground (arith, lex_refl start)

-- Of `start < limit` the separator is in `[start, limit)`, and it is no longer than `start`.
pub separator_between :
    (start limit : Bytes)
    → lex start limit ≡ lt
    → (lex start (find_shortest_separator start limit) ≢ gt)
      × (lex (find_shortest_separator start limit) limit ≡ lt)
      × (length (find_shortest_separator start limit) ≤ length start)
separator_between [] limit h = rw separator_nil (λ e. cc (lex_refl [], e), h, omega arith)
separator_between (x ∷ start) [] h = unfold lex in cc
separator_between (x ∷ start) (y ∷ limit) h = elim (Bool-cases (x == y)) [
  | inl same ↦
      let e : x ≡ y = ground arith in
      let below : lex start limit ≡ lt = sym (lex_cons_eq x start limit) ∙ rw (← e) at h in
      let (above, under, short) = separator_between start limit below in
      rw (← e, separator_step x start limit)
        (rw lex_cons_eq above, rw lex_cons_eq under, omega (arith, short))
  | inr differ ↦ separator_differs x y start limit differ h
]

-- The successor is not less than the key, and no longer.
successor_above :
    (key : Bytes)
    → (lex key (find_short_successor key) ≢ gt) × (length (find_short_successor key) ≤ length key)
unfolding find_short_successor lex
successor_above [] = ground arith
successor_above (x ∷ key) = ground (arith, successor_above key)
