-- ===== src/Cache/Buckets.antt =====
-- LevelDB/util/cache.cc: the buckets of the hash table and the handles in them.
use leveldb_windows.Base.{
  ℕ, zero, suc, ◌+◌, ◌-◌, ◌/◌, ◌<◌, ◌≤◌, ◌≡◌, ◌≢◌, refl, sym, ◌∙◌, ap, arith, Option, none, some,
  List, [], ◌∷◌, Bytes, All, length, length-set, get_or, set, replicate, ◌==◌, ==_iff,
  if◌then◌else◌, Bool-cases, inl, inr, bit_and,
}
use leveldb_windows.Base.Bits.{bit_and_step, bit_and-zero}
use leveldb_windows.Cache.{Handle, Chain, matches, find_in, bucket_of, push_handle, move_chain}
use leveldb_windows.Cache.Chains.{matches_eq, AreApart, find_in_apart}

mask_le : (n a b : ℕ) → b ≤ n → bit_and a b ≤ b
mask_le zero a zero h = omega (arith, bit_and-zero a)
mask_le zero a (suc b) h = absurd (omega arith)
mask_le (suc n) a zero h = omega (arith, bit_and-zero a)
mask_le (suc n) a (suc b) h =
    omega (arith, bit_and_step a (suc b), mask_le n (a / 2) (suc b / 2) (omega arith))

pub bucket_of_lt : (n hash : ℕ) → 0 < n → bucket_of n hash < n
unfolding bucket_of
bucket_of_lt n hash h = omega (arith, mask_le (n - 1) hash (n - 1) (omega arith))

pub get_or-set :
    (chains : List Chain) (i j : ℕ) (c : Chain)
    → i < length chains
    → get_or (set chains i c) j [] ≡ (if i == j then c else get_or chains j [])
get_or-set [] i j c h = absurd (omega arith)
get_or-set (d ∷ chains) zero zero c h = refl
get_or-set (d ∷ chains) zero (suc j) c h = ground arith
get_or-set (d ∷ chains) (suc i) zero c h = ground arith
get_or-set (d ∷ chains) (suc i) (suc j) c h =
    let rest = get_or-set chains i j c (omega arith) in ground arith

pub get_or-replicate : (n j : ℕ) → get_or {A = Chain} (replicate n []) j [] ≡ []
get_or-replicate zero j = refl
get_or-replicate (suc n) zero = refl
get_or-replicate (suc n) (suc j) = get_or-replicate n j

abbrev pub InBucket : ℕ → ℕ → Handle → Type 0
InBucket n i h = bucket_of n h.hash ≡ i

-- The chains from the bucket `i` on hold the handles of their buckets, no two with one key.
abbrev pub ArePlaced : ℕ → ℕ → List Chain → Type 0
ArePlaced n i [] = Unit {0}
ArePlaced n i (c ∷ chains) = All (InBucket n i) c × AreApart c × ArePlaced n (suc i) chains

pub placed_at :
    (n i j : ℕ) (chains : List Chain)
    → ArePlaced n i chains
    → All (InBucket n (i + j)) (get_or chains j []) × AreApart (get_or chains j [])
placed_at n i j [] p = (tt, tt)
placed_at n i zero (c ∷ chains) p = let e : i + 0 ≡ i = omega arith in rw e (p.0, p.1)
placed_at n i (suc j) (c ∷ chains) p =
    let e : i + suc j ≡ suc i + j = omega arith in rw e (placed_at n (suc i) j chains p.2)

pub ArePlaced-set :
    (n i j : ℕ) (c : Chain) (chains : List Chain)
    → All (InBucket n (i + j)) c
    → AreApart c
    → ArePlaced n i chains
    → ArePlaced n i (set chains j c)
ArePlaced-set n i j c [] inside apart p = tt
ArePlaced-set n i zero c (d ∷ chains) inside apart p =
    let e : i ≡ i + 0 = omega arith in (rw e inside, apart, p.2)
ArePlaced-set n i (suc j) c (d ∷ chains) inside apart p =
    let e : suc i + j ≡ i + suc j = omega arith in
    (p.0, p.1, ArePlaced-set n (suc i) j c chains (rw e inside) apart p.2)

-- What is found for a key among chains for `n` buckets.
abbrev pub look : ℕ → List Chain → Bytes → ℕ → Option Handle
look n chains k hs = find_in k hs (get_or chains (bucket_of n hs) [])

abbrev pub first_of : Option Handle → Option Handle → Option Handle
first_of (some h) o = some h
first_of none o = o

pub find_in_elsewhere :
    (n i : ℕ) (k : Bytes) (hs : ℕ) (c : Chain)
    → All (InBucket n i) c
    → bucket_of n hs ≢ i
    → find_in k hs c ≡ none
unfolding find_in
find_in_elsewhere n i k hs [] inside far = refl
find_in_elsewhere n i k hs (h ∷ c) inside far =
    let rest = find_in_elsewhere n i k hs c inside.1 far in
    elim (Bool-cases (matches k hs h)) [
      | inr no' ↦ rw (no', rest)
      | inl here ↦ absurd (far (ap (bucket_of n) (sym (matches_eq k hs h here).0) ∙ inside.0))
    ]

module _ (n : ℕ) (pos : 0 < n) where
  pub look-push_handle :
      (chains : List Chain) (h : Handle) (k : Bytes) (hs : ℕ)
      → length chains ≡ n
      → look n (push_handle n chains h) k hs
        ≡ (if matches k hs h then some h else look n chains k hs)
  unfolding push_handle find_in
  look-push_handle chains h k hs size =
      let i = bucket_of n h.hash in
      let inside : i < length chains = omega (arith, bucket_of_lt n h.hash pos, size) in
      let got = get_or-set chains i (bucket_of n hs) (h ∷ get_or chains i []) inside in
      elim (Bool-cases (i == bucket_of n hs)) [
        | inl same ↦ rw (got, same) (rw ((==_iff i (bucket_of n hs)).0 same))
        | inr other ↦ elim (Bool-cases (matches k hs h)) [
          | inr no' ↦ rw (got, other, no')
          | inl here ↦
              let clash =
                (==_iff i (bucket_of n hs)).1 (ap (bucket_of n) (matches_eq k hs h here).0) in
              absurd (cc)
        ]
      ]

  pub length-push :
      (chains : List Chain) (h : Handle) → length (push_handle n chains h) ≡ length chains
  unfolding push_handle
  length-push chains h =
      length-set chains (bucket_of n h.hash) (h ∷ get_or chains (bucket_of n h.hash) [])

  pub length-move_chain :
      (c : Chain) (chains : List Chain) → length (move_chain n c chains) ≡ length chains
  unfolding move_chain
  length-move_chain [] chains = refl
  length-move_chain (h ∷ c) chains =
      length-move_chain c (push_handle n chains h) ∙ length-push chains h

  -- A chain that is moved is found there, in front of what was there.
  pub look-move_chain :
      (c : Chain) (chains : List Chain) (k : Bytes) (hs : ℕ)
      → AreApart c
      → length chains ≡ n
      → look n (move_chain n c chains) k hs ≡ first_of (find_in k hs c) (look n chains k hs)
  unfolding move_chain find_in
  look-move_chain [] chains k hs apart size = refl
  look-move_chain (h ∷ c) chains k hs apart size =
      let pushed = push_handle n chains h in
      let rest = look-move_chain c pushed k hs apart.1 (length-push chains h ∙ size) in
      let one = look-push_handle chains h k hs size in
      elim (Bool-cases (matches k hs h)) [
        | inr no' ↦ rw no' (rest ∙ ap (first_of (find_in k hs c)) (rw no' at one))
        | inl here ↦ rw here (
            rest
            ∙ ap (λ (o : Option Handle). first_of o (look n pushed k hs))
                (find_in_apart h k hs c here apart.0)
            ∙ (rw here at one))
      ]
