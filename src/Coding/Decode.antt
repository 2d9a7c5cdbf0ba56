-- ===== src/Coding/Decode.antt =====
-- LevelDB/util/coding.cc: the readers of varints.
use leveldb_windows.Base.{
  ℕ, zero, suc, ◌+◌, ◌*◌, ◌/◌, ◌%◌, ◌^◌, ◌≤◌, ◌<◌, ◌≡◌, refl, ap, arith, some, [], ◌∷◌, ◌++◌, Bytes,
  IsByte, IsU32, IsU64, All, length, bit_or, bit_and, leb, ◌==◌, true, false, Bool-cases, inl, inr,
  ◌∙◌, ◌-◌, ◌⊎◌, sym,
}
use leveldb_windows.Base.Bits.{
  bit_and_low7, bit_and_bit7, bit_or_shifted, bit_or-lt-pow, zero-bit_or, pow2_pos,
}
use leveldb_windows.Coding.{
  encode_varint32, encode_varint64, get_varint_loop, get_varint32_ptr, get_varint32,
  get_varint32_ptr_fallback, get_varint64,
}
use leveldb_windows.Coding.Varint.{
  groups, groups_head, encode_varint32-groups, encode_varint64-groups,
}
use native.Mathlib.Nat.{div-add-mod}
use native.Mathlib.Numerals.{towards_suc}

next_group : (s : ℕ) → 2 ^ (s + 7) ≡ 2 ^ s * 128
next_group s = simp towards_suc (omega arith)

-- One round on a last byte, and on a byte with the top bit set over the group `g`.
last_round :
    (width last w acc shift : ℕ) (rest : Bytes)
    → w < 128
    → shift ≤ last
    → acc < 2 ^ shift
    → acc + w * 2 ^ shift < 2 ^ width
    → get_varint_loop width last (w ∷ rest) acc shift ≡ some (acc + w * 2 ^ shift, rest)
unfolding get_varint_loop
last_round width last w acc shift rest hw hs ha fits =
    let whole : w * 2 ^ shift % 2 ^ width ≡ w * 2 ^ shift = grind arith in
    rw whole (ground (arith, bit_and_bit7 w, bit_or_shifted shift acc w ha))

inner_round :
    (width last g acc shift : ℕ) (rest : Bytes)
    → g < 128
    → shift ≤ last
    → acc < 2 ^ shift
    → acc + g * 2 ^ shift < 2 ^ width
    → get_varint_loop width last ((g + 128) ∷ rest) acc shift
      ≡ get_varint_loop width last rest (acc + g * 2 ^ shift) (shift + 7)
unfolding get_varint_loop
inner_round width last g acc shift rest hg hs ha fits =
    let group : bit_and (g + 128) 127 ≡ g = omega (arith, bit_and_low7 (g + 128)) in
    let whole : g * 2 ^ shift % 2 ^ width ≡ g * 2 ^ shift = grind arith in
    let in_range : leb shift last ≡ true = ground arith in
    let top : (bit_and (g + 128) 128 == 0) ≡ false = ground (arith, bit_and_bit7 (g + 128)) in
    rw (group, whole, in_range, top, bit_or_shifted shift acc g ha)

-- The low group of a number and the higher groups, each at its weight.
regroup : (p v : ℕ) → v % 128 * p + v / 128 * (p * 128) ≡ v * p
regroup p v = omega (arith, ap (λ (t : ℕ). p * t) (div-add-mod v 128))

split_group : (s v : ℕ) → v * 2 ^ s ≡ v % 128 * 2 ^ s + v / 128 * 2 ^ (s + 7)
split_group s v = rw next_group (sym (regroup (2 ^ s) v))

group_fits : (s acc g : ℕ) → acc < 2 ^ s → g < 128 → acc + g * 2 ^ s < 2 ^ (s + 7)
group_fits s acc g ha hg = rw next_group (grind arith)

-- `v` is what is still to be read, from bit `shift` on.
get_varint_loop-groups :
    (width last k v acc shift : ℕ) (rest : Bytes)
    → v < 128 ^ suc k
    → shift + 7 * k ≤ last
    → acc < 2 ^ shift
    → acc + v * 2 ^ shift < 2 ^ width
    → get_varint_loop width last (groups k v ++ rest) acc shift ≡ some (acc + v * 2 ^ shift, rest)
unfolding groups
get_varint_loop-groups width last zero v acc shift rest hv hs ha fits =
    last_round width last v acc shift rest hv (omega arith) ha fits
get_varint_loop-groups width last (suc k) v acc shift rest hv hs ha fits = ground (
  arith,
  last_round width last v acc shift rest,
  split_group shift v,
  group_fits shift acc (v % 128),
  inner_round width last (v % 128) acc shift (groups k (v / 128) ++ rest),
  get_varint_loop-groups width last k (v / 128) (acc + v % 128 * 2 ^ shift) (shift + 7) rest
      (omega arith),
)

-- The inline test of `GetVarint32Ptr` is the first round of the loop.
first_round : (b : ℕ) → IsByte b → bit_or 0 (b * 2 ^ 0 % 2 ^ 32) ≡ b
first_round b h = omega (arith, zero-bit_or (b * 2 ^ 0 % 2 ^ 32))

get_varint32_ptr-first :
    (b : ℕ) (p : Bytes) → IsByte b → get_varint32_ptr (b ∷ p) ≡ get_varint32_ptr_fallback (b ∷ p)
unfolding get_varint32_ptr
get_varint32_ptr-first b p h = elim (Bool-cases (bit_and b 128 == 0)) [
  | inl last ↦ rw (last, first_round b h)
  | inr more ↦ rw more
]

pub get_varint32_ptr-fallback :
    (p : Bytes) → All IsByte p → get_varint32_ptr p ≡ get_varint32_ptr_fallback p
get_varint32_ptr-fallback [] h = unfold get_varint32_ptr in refl
get_varint32_ptr-fallback (b ∷ p) h = get_varint32_ptr-first b p h.0

get_varint32_ptr-groups :
    (v : ℕ) (rest : Bytes)
    → IsU32 v
    → get_varint32_ptr (groups 4 v ++ rest) ≡ get_varint32_ptr_fallback (groups 4 v ++ rest)
get_varint32_ptr-groups v rest h =
    let (b, t, e, hb) = groups_head 4 v (omega arith) in
    rw e (get_varint32_ptr-first b (t ++ rest) hb)

-- `GetVarint32` reads back what `PutVarint32` wrote, and leaves what follows.
pub get_varint32-encode_varint32 :
    (v : ℕ) (rest : Bytes) → IsU32 v → get_varint32 (encode_varint32 v ++ rest) ≡ some (v, rest)
unfolding get_varint32
get_varint32-encode_varint32 v rest h = rw (encode_varint32-groups v h) (
    get_varint32_ptr-groups v rest h
    ∙ get_varint_loop-groups 32 28 4 v 0 0 rest (omega arith) (omega arith) (omega arith)
        (omega arith)
    ∙ ap (λ (x : ℕ). some (x, rest)) (omega arith))

-- `GetVarint64` reads back any number below 2^64 that `EncodeVarint64` wrote, and leaves what follows.
pub get_varint64-encode_varint64 :
    (v : ℕ) (rest : Bytes) → IsU64 v → get_varint64 (encode_varint64 v ++ rest) ≡ some (v, rest)
unfolding get_varint64
get_varint64-encode_varint64 v rest h = rw (encode_varint64-groups v h) (
    get_varint_loop-groups 64 63 9 v 0 0 rest (omega arith) (omega arith) (omega arith)
      (omega arith)
    ∙ ap (λ (x : ℕ). some (x, rest)) (omega arith))

-- A read that succeeds takes a prefix, of at least one byte and at most `most`, and its value fits.
pub record Reads (width most : ℕ) (p : Bytes) (v : ℕ) (rest : Bytes) : Type 0 where
  pub front : Bytes
  pub splits : p ≡ front ++ rest
  pub some_byte : 1 ≤ length front
  pub few_bytes : length front ≤ most
  pub in_word : v < 2 ^ width

-- One round that leads to a result: it ends here, or goes on.
round_cases :
    (width last b : ℕ) (p : Bytes) (acc shift v : ℕ) (rest : Bytes)
    → get_varint_loop width last (b ∷ p) acc shift ≡ some (v, rest)
    → (shift ≤ last)
      × (((bit_or acc (b * 2 ^ shift % 2 ^ width) ≡ v) × (p ≡ rest))
          ⊎ (get_varint_loop width last p
                (bit_or acc (bit_and b 127 * 2 ^ shift % 2 ^ width))
                (shift + 7)
              ≡ some (v, rest)))
unfolding get_varint_loop
round_cases width last b p acc shift v rest e = ground arith

wrap-lt : (width x : ℕ) → x % 2 ^ width < 2 ^ width
wrap-lt width x = omega (arith, pow2_pos width)

get_varint_loop-Reads :
    (width last : ℕ) (p : Bytes) (acc shift : ℕ) (v : ℕ) (rest : Bytes) (j n : ℕ)
    → acc < 2 ^ width
    → shift ≡ 7 * j
    → last ≡ 7 * n
    → get_varint_loop width last p acc shift ≡ some (v, rest)
    → (j ≤ n) × Reads width (suc n - j) p v rest
get_varint_loop-Reads width last [] acc shift v rest j n ha hs hl e = unfold get_varint_loop in cc
get_varint_loop-Reads width last (b ∷ p) acc shift v rest j n ha hs hl e =
    let (in_range, next) = round_cases width last b p acc shift v rest e in
    elim next [
      | inl (value, same) ↦ (
        omega arith,
        record {
          front = b ∷ [];
          splits = ap (λ (q : Bytes). b ∷ q) same;
          some_byte = omega arith;
          few_bytes = omega arith;
          in_word =
              rw (← value)
                (bit_or-lt-pow width acc (b * 2 ^ shift % 2 ^ width) ha (wrap-lt width _));
        },
      )
      | inr later ↦
          let (j_lt, r) =
            get_varint_loop-Reads width last p (bit_or acc (bit_and b 127 * 2 ^ shift % 2 ^ width))
              (shift + 7) v rest (j + 1) n (bit_or-lt-pow width acc _ ha (wrap-lt width _))
              (omega arith) hl later in
          (
            omega arith,
            record {
              front = b ∷ r.front;
              splits = ap (λ (q : Bytes). b ∷ q) r.splits;
              some_byte = omega arith;
              few_bytes = omega (arith, r.few_bytes);
              in_word = r.in_word;
            },
          )
    ]

-- On any bytes `GetVarint64` fails, or takes 1 to 10 bytes of the input and returns a 64-bit number.
pub get_varint64-Reads :
    (p : Bytes) (v : ℕ) (rest : Bytes) → get_varint64 p ≡ some (v, rest) → Reads 64 10 p v rest
unfolding get_varint64
get_varint64-Reads p v rest e =
    (get_varint_loop-Reads 64 63 p 0 0 v rest 0 9 (omega arith) (omega arith) (omega arith) e).1

-- On any bytes `GetVarint32` fails, or takes 1 to 5 bytes of the input and returns a 32-bit number.
pub get_varint32-Reads :
    (p : Bytes) (v : ℕ) (rest : Bytes)
    → All IsByte p
    → get_varint32 p ≡ some (v, rest)
    → Reads 32 5 p v rest
unfolding get_varint32
get_varint32-Reads p v rest h e =
    let e' : get_varint32_ptr_fallback p ≡ some (v, rest) =
      sym (get_varint32_ptr-fallback p h) ∙ e in
    (get_varint_loop-Reads 32 28 p 0 0 v rest 0 4 (omega arith) (omega arith) (omega arith) e').1
