-- ===== src/Cache/Moves.antt =====
-- LevelDB/util/cache.cc, HandleTable::Resize: the move of the handles to other buckets.
use leveldb_windows.Base.{
  ℕ, zero, suc, ◌+◌, ◌<◌, ◌≡◌, refl, ◌∙◌, ap, arith, false, Option, none, some, List, [], ◌∷◌,
  Bytes, All, length, get_or, Bool-cases, inl, inr,
}
use leveldb_windows.Cache.{
  Handle, Chain, matches, find_in, bucket_of, push_handle, move_chain, move_buckets,
}
use leveldb_windows.Cache.Chains.{matches_sym, AreApart}
use leveldb_windows.Cache.Buckets.{
  InBucket, ArePlaced, placed_at, ArePlaced-set, look, first_of, find_in_elsewhere,
  look-push_handle, length-push, length-move_chain, look-move_chain,
}

-- What is found in some of the chains.
abbrev pub find_all : Bytes → ℕ → List Chain → Option Handle
find_all k hs [] = none
find_all k hs (c ∷ chains) = first_of (find_all k hs chains) (find_in k hs c)

find_all_before :
    (n i : ℕ) (k : Bytes) (hs : ℕ) (chains : List Chain)
    → ArePlaced n i chains
    → bucket_of n hs < i
    → find_all k hs chains ≡ none
find_all_before n i k hs [] p h = refl
find_all_before n i k hs (c ∷ chains) p h =
    rw
      (
        find_all_before n (suc i) k hs chains p.2 (omega arith),
        find_in_elsewhere n i k hs c p.0 (λ e. omega (arith, e)),
      )
      refl

-- It is what is found in the bucket.
pub find_all-eq :
    (n i j : ℕ) (k : Bytes) (hs : ℕ) (chains : List Chain)
    → ArePlaced n i chains
    → bucket_of n hs ≡ i + j
    → find_all k hs chains ≡ find_in k hs (get_or chains j [])
unfolding find_in
find_all-eq n i j k hs [] p e = refl
find_all-eq n i zero k hs (c ∷ chains) p e =
    rw (find_all_before n (suc i) k hs chains p.2 (omega arith)) refl
find_all-eq n i (suc j) k hs (c ∷ chains) p e =
    rw
      (
        find_in_elsewhere n i k hs c p.0 (λ f. omega (arith, f)),
        find_all-eq n (suc i) j k hs chains p.2 (omega arith),
      )
      (last_none (find_in k hs (get_or chains j [])))
  where
    last_none : (o : Option Handle) → first_of o none ≡ o
    last_none none = refl
    last_none (some h) = refl

first_of_assoc : (a b c : Option Handle) → first_of a (first_of b c) ≡ first_of (first_of a b) c
first_of_assoc (some h) b c = refl
first_of_assoc none b c = refl

find_none-All :
    (key : Bytes) (hash : ℕ) (c : Chain)
    → find_in key hash c ≡ none
    → All (λ g. matches key hash g ≡ false) c
unfolding find_in
find_none-All key hash [] e = tt
find_none-All key hash (h ∷ c) e = elim (Bool-cases (matches key hash h)) [
  | inl here ↦ let f = rw here at e in absurd (cc)
  | inr no' ↦ (no', find_none-All key hash c (rw no' at e))
]

module _ (n : ℕ) (pos : 0 < n) where
  -- Everything that is moved is found.
  pub look-move_buckets :
      (m i : ℕ) (chains new_list : List Chain) (k : Bytes) (hs : ℕ)
      → ArePlaced m i chains
      → length new_list ≡ n
      → look n (move_buckets n chains new_list) k hs
        ≡ first_of (find_all k hs chains) (look n new_list k hs)
  unfolding move_buckets
  look-move_buckets m i [] new_list k hs p size = refl
  look-move_buckets m i (c ∷ chains) new_list k hs p size =
      look-move_buckets m (suc i) chains (move_chain n c new_list) k hs p.2
        (length-move_chain n pos c new_list ∙ size)
      ∙ ap (first_of (find_all k hs chains)) (look-move_chain n pos c new_list k hs p.1 size)
      ∙ first_of_assoc (find_all k hs chains) (find_in k hs c) (look n new_list k hs)

  pub length-move_buckets :
      (chains new_list : List Chain) → length (move_buckets n chains new_list) ≡ length new_list
  unfolding move_buckets
  length-move_buckets [] new_list = refl
  length-move_buckets (c ∷ chains) new_list =
      length-move_buckets chains (move_chain n c new_list) ∙ length-move_chain n pos c new_list

  -- The handles to move are not there yet.
  abbrev pub IsNew : List Chain → Handle → Type 0
  IsNew new_list h = look n new_list h.key h.hash ≡ none

  push-ArePlaced :
      (new_list : List Chain) (h : Handle)
      → ArePlaced n 0 new_list
      → IsNew new_list h
      → ArePlaced n 0 (push_handle n new_list h)
  unfolding push_handle
  push-ArePlaced new_list h p fresh =
      let i = bucket_of n h.hash in
      let (inside, apart) = placed_at n 0 i new_list p in
      let e : i ≡ 0 + i = omega arith in
      ArePlaced-set n 0 i (h ∷ get_or new_list i []) new_list (e, inside)
        (find_none-All h.key h.hash (get_or new_list i []) fresh, apart) p

  push-IsNew :
      (new_list : List Chain) (h : Handle) (c : Chain)
      → length new_list ≡ n
      → All (λ g. matches h.key h.hash g ≡ false) c
      → All (IsNew new_list) c
      → All (IsNew (push_handle n new_list h)) c
  push-IsNew new_list h [] size apart fresh = tt
  push-IsNew new_list h (g ∷ c) size apart fresh = (
    rw (look-push_handle n pos new_list h g.key g.hash size, matches_sym h g apart.0, fresh.0) refl,
    push-IsNew new_list h c size apart.1 fresh.1,
  )

  move_chain-ArePlaced :
      (c : Chain) (new_list : List Chain)
      → length new_list ≡ n
      → AreApart c
      → All (IsNew new_list) c
      → ArePlaced n 0 new_list
      → ArePlaced n 0 (move_chain n c new_list)
  unfolding move_chain
  move_chain-ArePlaced [] new_list size apart fresh p = p
  move_chain-ArePlaced (h ∷ c) new_list size apart fresh p =
      move_chain-ArePlaced c (push_handle n new_list h) (length-push n pos new_list h ∙ size)
        apart.1 (push-IsNew new_list h c size apart.0 fresh.1) (push-ArePlaced new_list h p fresh.0)

  -- A chain of another bucket is as new as before.
  chain-IsNew :
      (m i j : ℕ) (c d : Chain) (new_list : List Chain)
      → length new_list ≡ n
      → i < j
      → All (InBucket m i) c
      → AreApart c
      → All (InBucket m j) d
      → All (IsNew new_list) d
      → All (IsNew (move_chain n c new_list)) d
  chain-IsNew m i j c [] new_list size less inside apart elsewhere fresh = tt
  chain-IsNew m i j c (g ∷ d) new_list size less inside apart elsewhere fresh = (
    look-move_chain n pos c new_list g.key g.hash apart size
        ∙ rw (find_in_elsewhere m i g.key g.hash c inside (λ e. omega (arith, e, elsewhere.0)))
            fresh.0,
    chain-IsNew m i j c d new_list size less inside apart elsewhere.1 fresh.1,
  )

  chains-IsNew :
      (m i j : ℕ) (c : Chain) (chains new_list : List Chain)
      → length new_list ≡ n
      → i < j
      → All (InBucket m i) c
      → AreApart c
      → ArePlaced m j chains
      → All (λ d. All (IsNew new_list) d) chains
      → All (λ d. All (IsNew (move_chain n c new_list)) d) chains
  chains-IsNew m i j c [] new_list size less inside apart p fresh = tt
  chains-IsNew m i j c (d ∷ chains) new_list size less inside apart p fresh = (
    chain-IsNew m i j c d new_list size less inside apart p.0 fresh.0,
    chains-IsNew m i (suc j) c chains new_list size (omega arith) inside apart p.2 fresh.1,
  )

  pub move_buckets-ArePlaced :
      (m i : ℕ) (chains new_list : List Chain)
      → length new_list ≡ n
      → ArePlaced m i chains
      → All (λ d. All (IsNew new_list) d) chains
      → ArePlaced n 0 new_list
      → ArePlaced n 0 (move_buckets n chains new_list)
  unfolding move_buckets
  move_buckets-ArePlaced m i [] new_list size p fresh q = q
  move_buckets-ArePlaced m i (c ∷ chains) new_list size p fresh q =
      move_buckets-ArePlaced m (suc i) chains (move_chain n c new_list)
        (length-move_chain n pos c new_list ∙ size) p.2
        (chains-IsNew m i (suc i) c chains new_list size (omega arith) p.0 p.1 p.2 fresh.1)
        (move_chain-ArePlaced c new_list size p.1 fresh.0 q)
