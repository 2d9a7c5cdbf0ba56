-- ===== src/Slice/Lex.antt =====
-- LevelDB/include/leveldb/slice.h: the comparison and the lexicographic order.
use leveldb_windows.Base.{
  ℕ, ◌≡◌, refl, ◌↔◌, arith, true, [], ◌∷◌, ◌++◌, Bytes, length, ◌≤◌, drop, length-append,
  append-nil,
}
use leveldb_windows.Slice.{memcmp, slice_compare, starts_with, slice_eq}
use Prim.Native.Nat.{compare, Ordering, lt, eq, gt}

-- The order on byte strings by itself.
unfoldable pub lex : Bytes → Bytes → Ordering
lex [] [] = eq
lex [] (y ∷ b) = lt
lex (x ∷ a) [] = gt
lex (x ∷ a) (y ∷ b) = let rest = lex a b in elim (compare x y) [ lt ↦ lt | eq ↦ rest | gt ↦ gt ]

abbrev pub flip : Ordering → Ordering
flip lt = gt
flip eq = eq
flip gt = lt

pub lex_cons_eq : (x : ℕ) (a b : Bytes) → lex (x ∷ a) (x ∷ b) ≡ lex a b
unfolding lex
lex_cons_eq x a b = ground arith

-- `Slice::compare` is the lexicographic order.
pub slice_compare-lex : (a b : Bytes) → slice_compare a b ≡ lex a b
unfolding slice_compare lex
slice_compare-lex [] [] = refl
slice_compare-lex [] (y ∷ b) = ground arith
slice_compare-lex (x ∷ a) [] = ground arith
slice_compare-lex (x ∷ a) (y ∷ b) = ground (arith, slice_compare-lex a b)

pub lex-flip : (a b : Bytes) → lex b a ≡ flip (lex a b)
unfolding lex
lex-flip [] [] = refl
lex-flip [] (y ∷ b) = refl
lex-flip (x ∷ a) [] = refl
lex-flip (x ∷ a) (y ∷ b) = ground (arith, lex-flip a b)

pub lex_refl : (a : Bytes) → lex a a ≡ eq
unfolding lex
lex_refl [] = refl
lex_refl (x ∷ a) = ground (arith, lex_refl a)

pub eq_of_lex : (a b : Bytes) → lex a b ≡ eq → a ≡ b
unfolding lex
eq_of_lex [] [] h = refl
eq_of_lex [] (y ∷ b) h = cc
eq_of_lex (x ∷ a) [] h = cc
eq_of_lex (x ∷ a) (y ∷ b) h = ground (arith, eq_of_lex a b)

pub lex_trans : (a b c : Bytes) → lex a b ≡ lt → lex b c ≡ lt → lex a c ≡ lt
unfolding lex
lex_trans [] [] c p q = cc
lex_trans [] (y ∷ b) [] p q = cc
lex_trans [] (y ∷ b) (z ∷ c) p q = refl
lex_trans (x ∷ a) [] c p q = cc
lex_trans (x ∷ a) (y ∷ b) [] p q = cc
lex_trans (x ∷ a) (y ∷ b) (z ∷ c) p q = ground (arith, lex_trans a b c)

prefix_of_memcmp :
    (s x : Bytes) → length x ≤ length s → memcmp (length x) s x ≡ eq → s ≡ x ++ drop (length x) s
unfolding memcmp
prefix_of_memcmp s [] h e = refl
prefix_of_memcmp [] (y ∷ x) h e = absurd (omega arith)
prefix_of_memcmp (z ∷ s) (y ∷ x) h e = ground (arith, prefix_of_memcmp s x)

memcmp-append : (x rest : Bytes) → memcmp (length x) (x ++ rest) x ≡ eq
unfolding memcmp
memcmp-append [] rest = refl
memcmp-append (y ∷ x) rest = ground (arith, memcmp-append x rest)

-- `starts_with` accepts exactly the strings that are the prefix with something behind it.
pub starts_with_iff : (s x : Bytes) → (starts_with s x ≡ true) ↔ ((rest : Bytes) × (s ≡ x ++ rest))
unfolding starts_with
starts_with_iff s x = (
  λ h. (drop (length x) s, ground (arith, prefix_of_memcmp s x)),
  λ found. rw found.1 (ground (arith, memcmp-append x found.0, length-append x found.0)),
)

memcmp_whole : (x y : Bytes) → length x ≡ length y → memcmp (length x) x y ≡ eq → x ≡ y
unfolding memcmp
memcmp_whole [] [] h e = refl
memcmp_whole [] (z ∷ y) h e = absurd (omega arith)
memcmp_whole (w ∷ x) [] h e = absurd (omega arith)
memcmp_whole (w ∷ x) (z ∷ y) h e = ground (arith, memcmp_whole x y)

-- `operator==` holds exactly of equal strings.
pub slice_eq_iff : (x y : Bytes) → (slice_eq x y ≡ true) ↔ (x ≡ y)
unfolding slice_eq
slice_eq_iff x y = (
  λ h. ground (arith, memcmp_whole x y),
  λ e. rw (← e) (ground (arith, rw append-nil at (memcmp-append x []))),
)
