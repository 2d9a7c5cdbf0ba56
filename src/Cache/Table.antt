-- ===== src/Cache/Table.antt =====
-- LevelDB/util/cache.cc: Resize, Insert and Remove of the hash table, seen as a map.
use leveldb_windows.Base.{
  ℕ, zero, suc, ◌^◌, ◌%◌, ◌+◌, ◌-◌, ◌*◌, ◌<◌, ◌≤◌, ◌≡◌, refl, ◌∙◌, ap, arith, true, Option, none,
  some, List, [], ◌∷◌, Bytes, All, length, length-set, length-replicate, set, replicate, ltb, ◌==◌,
  ==_iff, if◌then◌else◌, Bool-cases, Option-cases, inl, inr,
}
use leveldb_windows.Cache.{
  Handle, Chain, HandleTable, matches, find_in, put_in, cut_from, bucket_of, double_until,
  move_buckets, resize, chain_of, lookup_handle, insert_handle, remove_handle, new_handle_table,
}
use leveldb_windows.Slice.{slice_eq}
use leveldb_windows.Slice.Lex.{slice_eq_iff}
use leveldb_windows.Cache.Chains.{
  matches_eq, same_key, AreApart, AreApart-put_in, AreApart-cut_from, All-cut_from, find_in-put_in,
  find_in-cut_from,
}
use leveldb_windows.Cache.Buckets.{
  bucket_of_lt, get_or-set, get_or-replicate, InBucket, ArePlaced, placed_at, ArePlaced-set, look,
  first_of,
}
use leveldb_windows.Cache.Moves.{
  find_all, find_all-eq, look-move_buckets, length-move_buckets, IsNew, move_buckets-ArePlaced,
}
use mathlib.Core.Path.{subst}

pub record IsMap (t : HandleTable) : Type 0 where
  pub some_buckets : 0 < t.num_buckets
  pub sized : length t.buckets ≡ t.num_buckets
  pub placed : ArePlaced t.num_buckets 0 t.buckets

-- While there are fewer buckets than handles, doubling does not wrap.
doubled : (n elems : ℕ) → n < elems → elems ≤ 2 ^ 31 → n * 2 % 2 ^ 32 ≡ n * 2
doubled n elems h small = omega arith

pub double_until_ge : (fuel elems n : ℕ) → elems ≤ 2 ^ 31 → 0 < n → n ≤ double_until fuel elems n
unfolding double_until
double_until_ge zero elems n small h = omega arith
double_until_ge (suc fuel) elems n small h = elim (Bool-cases (ltb n elems)) [
  | inl fewer ↦
      let below : n < elems = ground (arith, fewer) in
      let rest = double_until_ge fuel elems (n * 2) small (omega arith) in
      rw (fewer, doubled n elems below small) (omega (arith, rest))
  | inr enough ↦ rw enough (omega arith)
]

-- The fuel is enough: in the end there is a bucket for each handle.
pub double_until_enough :
    (fuel elems n : ℕ)
    → elems ≤ 2 ^ 31
    → 0 < n
    → elems ≤ n + fuel
    → elems ≤ double_until fuel elems n
unfolding double_until
double_until_enough zero elems n small h k = omega arith
double_until_enough (suc fuel) elems n small h k = elim (Bool-cases (ltb n elems)) [
  | inl fewer ↦
      let below : n < elems = ground (arith, fewer) in
      rw (fewer, doubled n elems below small)
        (double_until_enough fuel elems (n * 2) small (omega arith) (omega arith))
  | inr large ↦ rw large (ground arith)
]

empty_chains : (n i m : ℕ) → ArePlaced n i (replicate m [])
empty_chains n i zero = tt
empty_chains n i (suc m) = (tt, tt, empty_chains n (suc i) m)

nothing_there : (n m : ℕ) (k : Bytes) (hs : ℕ) → look n (replicate m []) k hs ≡ none
unfolding find_in
nothing_there n m k hs = rw (get_or-replicate m (bucket_of n hs)) refl

handles-IsNew : (n m : ℕ) (pos : 0 < n) (c : Chain) → All (IsNew n pos (replicate m [])) c
handles-IsNew n m pos [] = tt
handles-IsNew n m pos (h ∷ c) = (nothing_there n m h.key h.hash, handles-IsNew n m pos c)

chains-IsNew :
    (n m : ℕ) (pos : 0 < n) (chains : List Chain)
    → All (λ d. All (IsNew n pos (replicate m [])) d) chains
chains-IsNew n m pos [] = tt
chains-IsNew n m pos (c ∷ chains) = (handles-IsNew n m pos c, chains-IsNew n m pos chains)

first_none : (o : Option Handle) → first_of o none ≡ o
first_none none = refl
first_none (some h) = refl

-- A table with more buckets finds the same, and is a map again.
resize_lem :
    (t : HandleTable) (k : Bytes) (hs : ℕ)
    → t.elems ≤ 2 ^ 31
    → IsMap t
    → IsMap (resize t) × (lookup_handle (resize t) k hs ≡ lookup_handle t k hs)
unfolding resize lookup_handle
resize_lem t k hs small m =
    let n = double_until t.elems t.elems 4 in
    let pos : 0 < n = omega (arith, double_until_ge t.elems t.elems 4 small (omega arith)) in
    let size = length-replicate {A = Chain} n [] in
    (
      record {
        some_buckets = pos;
        sized = length-move_buckets n pos t.buckets (replicate n []) ∙ size;
        placed =
            move_buckets-ArePlaced n pos t.num_buckets 0 t.buckets (replicate n []) size m.placed
              (chains-IsNew n n pos t.buckets) (empty_chains n 0 n);
      },
      look-move_buckets n pos t.num_buckets 0 t.buckets (replicate n []) k hs m.placed size
          ∙ ap (first_of (find_all k hs t.buckets)) (nothing_there n n k hs)
          ∙ first_none (find_all k hs t.buckets)
          ∙ find_all-eq t.num_buckets 0 (bucket_of t.num_buckets hs) k hs t.buckets m.placed
              (omega arith),
    )

-- A table with another chain in the bucket of a hash.
module _ (t : HandleTable) (elems hash : ℕ) (chain : Chain) (m : IsMap t) where
  abbrev with_chain : HandleTable
  with_chain = record t {
    elems = elems;
    buckets = set t.buckets (bucket_of t.num_buckets hash) chain;
  }

  with_chain-IsMap :
      All (InBucket t.num_buckets (bucket_of t.num_buckets hash)) chain
      → AreApart chain
      → IsMap with_chain
  with_chain-IsMap inside apart =
      let i = bucket_of t.num_buckets hash in
      let e : i ≡ 0 + i = omega arith in
      record {
        some_buckets = m.some_buckets;
        sized = length-set t.buckets i chain ∙ m.sized;
        placed =
            ArePlaced-set t.num_buckets 0 i chain t.buckets
              (subst (λ (j : ℕ). All (InBucket t.num_buckets j) chain) e inside) apart m.placed;
      }

  -- A key is looked up in the new chain where it is of that bucket.
  lookup-with_chain :
      (k : Bytes) (hs : ℕ)
      → lookup_handle with_chain k hs ≡ (
          if bucket_of t.num_buckets hash == bucket_of t.num_buckets hs
          then find_in k hs chain
          else lookup_handle t k hs)
  unfolding lookup_handle
  lookup-with_chain k hs =
      let i = bucket_of t.num_buckets hash in
      let inside : i < length t.buckets =
        omega (arith, bucket_of_lt t.num_buckets hash m.some_buckets, m.sized) in
      rw (get_or-set t.buckets i (bucket_of t.num_buckets hs) chain inside)
        (elim (Bool-cases (i == bucket_of t.num_buckets hs)) [
          | inl same ↦ rw same
          | inr other ↦ rw other
        ])

chain_here :
    (t : HandleTable) (hash : ℕ)
    → IsMap t
    → All (InBucket t.num_buckets (bucket_of t.num_buckets hash)) (chain_of t hash)
      × AreApart (chain_of t hash)
chain_here t hash m =
    let i = bucket_of t.num_buckets hash in
    let (inside, apart) = placed_at t.num_buckets 0 i t.buckets m.placed in
    let e : 0 + i ≡ i = omega arith in
    (subst (λ (j : ℕ). All (InBucket t.num_buckets j) (chain_of t hash)) e inside, apart)

All-put_in_bucket :
    (n i : ℕ) (h : Handle) (chain : Chain)
    → InBucket n i h
    → All (InBucket n i) chain
    → All (InBucket n i) (put_in h chain)
unfolding put_in
All-put_in_bucket n i h [] here all = (here, tt)
All-put_in_bucket n i h (g ∷ chain) here all = elim (Bool-cases (matches h.key h.hash g)) [
  | inl same ↦ rw (same, put_in) (here, all.1)
  | inr other ↦ rw (other, put_in) (all.0, All-put_in_bucket n i h chain here all.1)
]

-- The table with a handle put into its chain.
put_lem :
    (t : HandleTable) (elems : ℕ) (h : Handle) (k : Bytes) (hs : ℕ) (m : IsMap t)
    → IsMap (with_chain t elems h.hash (put_in h (chain_of t h.hash)) m)
      × (lookup_handle (with_chain t elems h.hash (put_in h (chain_of t h.hash)) m) k hs
          ≡ (if matches k hs h then some h else lookup_handle t k hs))
unfolding lookup_handle
put_lem t elems h k hs m =
    let (inside, apart) = chain_here t h.hash m in
    let i = bucket_of t.num_buckets h.hash in
    let put = put_in h (chain_of t h.hash) in
    (
      with_chain-IsMap t elems h.hash put m
          (All-put_in_bucket t.num_buckets i h (chain_of t h.hash) refl inside)
          (AreApart-put_in h (chain_of t h.hash) apart),
      lookup-with_chain t elems h.hash put m k hs
          ∙ elim (Bool-cases (i == bucket_of t.num_buckets hs)) [
            | inl same ↦ rw same (
                find_in-put_in h (chain_of t h.hash) k hs
                ∙ rw ((==_iff i (bucket_of t.num_buckets hs)).0 same))
            | inr other ↦ elim (Bool-cases (matches k hs h)) [
              | inr no' ↦ rw (other, no')
              | inl here ↦
                  let clash =
                    (==_iff i (bucket_of t.num_buckets hs)).1
                      (ap (bucket_of t.num_buckets) (matches_eq k hs h here).0) in
                  absurd (cc)
            ]
          ],
    )

-- On a table that is a map of less than 2^31 handles, an insertion leaves a map in which the key of
-- the handle leads to it and every other key to what it led to before, whether the table grows or not;
-- it returns what the key led to.
pub insert_handle_lem :
    (t : HandleTable) (h : Handle) (k : Bytes) (hs : ℕ)
    → t.elems < 2 ^ 31
    → IsMap t
    → IsMap (insert_handle t h).1
      × (lookup_handle (insert_handle t h).1 k hs
          ≡ (if matches k hs h then some h else lookup_handle t k hs))
      × ((insert_handle t h).0 ≡ lookup_handle t h.key h.hash)
unfolding insert_handle
insert_handle_lem t h k hs small m = elim (Option-cases (lookup_handle t h.key h.hash)) [
  | inr (old, e) ↦
      let (map', found) = put_lem t t.elems h k hs m in rw (e, insert_handle) (map', found, refl)
  | inl e ↦
      let n = (t.elems + 1) % 2 ^ 32 in
      let counted = with_chain t n h.hash (put_in h (chain_of t h.hash)) m in
      let (map', found) = put_lem t n h k hs m in
      let (map'', same) = resize_lem counted k hs (omega arith) map' in
      elim (Bool-cases (ltb t.num_buckets n)) [
        | inl grows ↦ rw (e, grows, insert_handle) (map'', same ∙ found, refl)
        | inr fits ↦ rw (e, fits, insert_handle) (map', found, refl)
      ]
]

abbrev lookup_of : HandleTable → Bytes × ℕ → Option Handle
lookup_of t (key, hash) = lookup_handle t key hash

same_parts :
    (key : Bytes) (hash : ℕ) (k : Bytes) (hs : ℕ)
    → same_key key hash k hs ≡ true
    → Path (Bytes × ℕ) (k, hs) (key, hash)
same_parts key hash k hs asked =
    let hashes : (hash == hs) ≡ true = ground arith in
    let keys : slice_eq k key ≡ true = ground arith in
    rw ((==_iff hash hs).0 hashes, (slice_eq_iff k key).0 keys)

same_hash :
    (key : Bytes) (hash : ℕ) (k : Bytes) (hs : ℕ) → same_key key hash k hs ≡ true → hash ≡ hs
same_hash key hash k hs asked =
    let hashes : (hash == hs) ≡ true = ground arith in (==_iff hash hs).0 hashes

-- The table with a handle cut out of its chain.
cut_lem :
    (t : HandleTable) (elems : ℕ) (key : Bytes) (hash : ℕ) (k : Bytes) (hs : ℕ) (m : IsMap t)
    → IsMap (with_chain t elems hash (cut_from key hash (chain_of t hash)) m)
      × (lookup_handle (with_chain t elems hash (cut_from key hash (chain_of t hash)) m) k hs
          ≡ (if same_key key hash k hs then none else lookup_handle t k hs))
unfolding lookup_handle
cut_lem t elems key hash k hs m =
    let (inside, apart) = chain_here t hash m in
    let i = bucket_of t.num_buckets hash in
    let chain = chain_of t hash in
    let cut = cut_from key hash chain in
    (
      with_chain-IsMap t elems hash cut m
          (All-cut_from (InBucket t.num_buckets i) key hash chain inside)
          (AreApart-cut_from key hash chain apart),
      lookup-with_chain t elems hash cut m k hs
          ∙ elim (Bool-cases (i == bucket_of t.num_buckets hs)) [
            | inl same ↦ rw same (
                find_in-cut_from key hash chain k hs apart
                ∙ rw ((==_iff i (bucket_of t.num_buckets hs)).0 same))
            | inr other ↦ elim (Bool-cases (same_key key hash k hs)) [
              | inr no' ↦ rw (other, no')
              | inl asked ↦
                  let clash =
                    (==_iff i (bucket_of t.num_buckets hs)).1
                      (ap (bucket_of t.num_buckets) (same_hash key hash k hs asked)) in
                  absurd (cc)
            ]
          ],
    )

-- On a table that is a map, a removal leaves a map in which the key leads to nothing and every other
-- key to what it led to before; it returns what the key led to.
pub remove_handle_lem :
    (t : HandleTable) (key : Bytes) (hash : ℕ) (k : Bytes) (hs : ℕ)
    → IsMap t
    → IsMap (remove_handle t key hash).1
      × (lookup_handle (remove_handle t key hash).1 k hs
          ≡ (if same_key key hash k hs then none else lookup_handle t k hs))
      × ((remove_handle t key hash).0 ≡ lookup_handle t key hash)
unfolding remove_handle
remove_handle_lem t key hash k hs m = elim (Option-cases (lookup_handle t key hash)) [
  | inr (result, e) ↦
      let (map', gone) = cut_lem t ((t.elems + (2 ^ 32 - 1)) % 2 ^ 32) key hash k hs m in
      rw (e, remove_handle) (map', gone, refl)
  | inl e ↦
      rw (e, remove_handle)
        (
          m,
          elim (Bool-cases (same_key key hash k hs)) [
            | inr other ↦ rw other
            | inl asked ↦ rw asked (ap (lookup_of t) (same_parts key hash k hs asked) ∙ e)
          ],
          refl,
        )
]

-- The table that the constructor leaves is a map, of four empty buckets.
pub new_handle_table-IsMap : IsMap new_handle_table
unfolding new_handle_table resize double_until move_buckets
new_handle_table-IsMap = record {
  some_buckets = omega arith;
  sized = refl;
  placed = (tt, tt, (tt, tt, (tt, tt, (tt, tt, tt))));
}
