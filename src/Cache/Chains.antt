-- ===== src/Cache/Chains.antt =====
-- LevelDB/util/cache.cc: one chain of the hash table, as HandleTable::FindPointer walks it.
use leveldb_windows.Base.{
  ℕ, ◌≡◌, refl, sym, ◌∙◌, arith, Bool, true, false, ◌&&◌, none, some, [], ◌∷◌, Bytes, All, ◌==◌,
  ==_iff, if◌then◌else◌, Bool-cases, inl, inr,
}
use leveldb_windows.Slice.{slice_eq}
use leveldb_windows.Slice.Lex.{slice_eq_iff}
use leveldb_windows.Cache.{Handle, Chain, matches, find_in, put_in, cut_from}

abbrev pub same_key : Bytes → ℕ → Bytes → ℕ → Bool
same_key key hash k hs = hash == hs && slice_eq k key

-- A handle that matches has the key and the hash.
pub matches_eq :
    (key : Bytes) (hash : ℕ) (h : Handle)
    → matches key hash h ≡ true
    → (h.hash ≡ hash) × (key ≡ h.key)
matches_eq key hash h m =
    let hashes : (h.hash == hash) ≡ true = ground arith in
    let keys : slice_eq key h.key ≡ true = ground arith in
    ((==_iff h.hash hash).0 hashes, (slice_eq_iff key h.key).0 keys)

pub matches_self : (h : Handle) → matches h.key h.hash h ≡ true
matches_self h = rw ((==_iff h.hash h.hash).1 refl, (slice_eq_iff h.key h.key).1 refl)

-- Two handles that match the same match one another.
pub matches_both :
    (k : Bytes) (hs : ℕ) (g h : Handle)
    → matches k hs g ≡ true
    → matches k hs h ≡ true
    → matches g.key g.hash h ≡ true
matches_both k hs g h m n =
    let (e, f) = matches_eq k hs g m in
    let (e', f') = matches_eq k hs h n in
    rw ((==_iff h.hash g.hash).1 (e' ∙ sym e), (slice_eq_iff g.key h.key).1 (sym f ∙ f'))

pub matches_alike :
    (k : Bytes) (hs : ℕ) (key : Bytes) (hash : ℕ) (h : Handle)
    → matches key hash h ≡ true
    → matches k hs h ≡ same_key key hash k hs
matches_alike k hs key hash h m = let (e, f) = matches_eq key hash h m in rw (e, f)

-- Another handle in the place of the one with its key, or at the end.
pub find_in-put_in :
    (new : Handle) (chain : Chain) (k : Bytes) (hs : ℕ)
    → find_in k hs (put_in new chain) ≡ (if matches k hs new then some new else find_in k hs chain)
unfolding find_in put_in
find_in-put_in new [] k hs = refl
find_in-put_in new (h ∷ chain) k hs =
    let rest = find_in-put_in new chain k hs in
    elim (Bool-cases (matches new.key new.hash h)) [
      | inl same ↦
          let alike = matches_alike k hs new.key new.hash h same in rw (same, alike) (ground arith)
      | inr other ↦ elim (Bool-cases (matches k hs h)) [
        | inr no' ↦ rw (other, no') rest
        | inl here ↦ elim (Bool-cases (matches k hs new)) [
          | inr far ↦ rw (other, here, far)
          | inl both ↦ let clash = matches_both k hs new h both here in absurd (cc)
        ]
      ]
    ]

-- No two handles of a chain match.
abbrev pub AreApart : Chain → Type 0
AreApart [] = Unit {0}
AreApart (h ∷ chain) = All (λ g. matches h.key h.hash g ≡ false) chain × AreApart chain

pub find_in_apart :
    (h : Handle) (k : Bytes) (hs : ℕ) (chain : Chain)
    → matches k hs h ≡ true
    → All (λ g. matches h.key h.hash g ≡ false) chain
    → find_in k hs chain ≡ none
unfolding find_in
find_in_apart h k hs [] m apart = refl
find_in_apart h k hs (g ∷ chain) m apart =
    let rest = find_in_apart h k hs chain m apart.1 in
    elim (Bool-cases (matches k hs g)) [
      | inr no' ↦ rw (no', rest)
      | inl both ↦ let clash = matches_both k hs h g m both in let far = apart.0 in absurd (cc)
    ]

same_key_matches :
    (key : Bytes) (hash : ℕ) (k : Bytes) (hs : ℕ) (h : Handle)
    → same_key key hash k hs ≡ true
    → matches k hs h ≡ true
    → matches key hash h ≡ true
same_key_matches key hash k hs h asked here =
    let hashes : (hash == hs) ≡ true = ground arith in
    let keys : slice_eq k key ≡ true = ground arith in
    rw ((==_iff hash hs).0 hashes, sym ((slice_eq_iff k key).0 keys)) here

pub find_in-cut_from :
    (key : Bytes) (hash : ℕ) (chain : Chain) (k : Bytes) (hs : ℕ)
    → AreApart chain
    → find_in k hs (cut_from key hash chain)
      ≡ (if same_key key hash k hs then none else find_in k hs chain)
unfolding find_in cut_from
find_in-cut_from key hash [] k hs apart = ground arith
find_in-cut_from key hash (h ∷ chain) k hs apart =
    let rest = find_in-cut_from key hash chain k hs apart.1 in
    elim (Bool-cases (matches key hash h)) [
      | inl same ↦
          let alike = matches_alike k hs key hash h same in
          elim (Bool-cases (same_key key hash k hs)) [
            | inl asked ↦ rw (same, asked) (find_in_apart h k hs chain (alike ∙ asked) apart.0)
            | inr other ↦ let no' : matches k hs h ≡ false = alike ∙ other in rw (same, other, no')
          ]
      | inr far ↦ elim (Bool-cases (matches k hs h)) [
        | inr no' ↦ rw (far, no') rest
        | inl here ↦ elim (Bool-cases (same_key key hash k hs)) [
          | inr other ↦ rw (far, other, here)
          | inl asked ↦ let clash = same_key_matches key hash k hs h asked here in absurd (cc)
        ]
      ]
    ]

-- The order of the two handles does not matter.
pub matches_sym : (g h : Handle) → matches g.key g.hash h ≡ false → matches h.key h.hash g ≡ false
matches_sym g h far = elim (Bool-cases (matches h.key h.hash g)) [
  | inr no' ↦ no'
  | inl here ↦ let clash = matches_both h.key h.hash g h here (matches_self h) in absurd (cc)
]

All-put_in :
    (x new : Handle) (chain : Chain)
    → matches x.key x.hash new ≡ false
    → All (λ g. matches x.key x.hash g ≡ false) chain
    → All (λ g. matches x.key x.hash g ≡ false) (put_in new chain)
unfolding put_in
All-put_in x new [] far all = (far, tt)
All-put_in x new (h ∷ chain) far all = elim (Bool-cases (matches new.key new.hash h)) [
  | inl same ↦ rw (same, put_in) (far, all.1)
  | inr other ↦ rw (other, put_in) (all.0, All-put_in x new chain far all.1)
]

-- A handle in the place of another with its key is as far from the rest.
all_alike :
    (new h : Handle) (chain : Chain)
    → matches new.key new.hash h ≡ true
    → All (λ g. matches h.key h.hash g ≡ false) chain
    → All (λ g. matches new.key new.hash g ≡ false) chain
all_alike new h [] same all = tt
all_alike new h (g ∷ chain) same all =
    let (e, f) = matches_eq new.key new.hash h same in
    (rw (f, ← e) all.0, all_alike new h chain same all.1)

pub AreApart-put_in : (new : Handle) (chain : Chain) → AreApart chain → AreApart (put_in new chain)
unfolding put_in
AreApart-put_in new [] apart = (tt, tt)
AreApart-put_in new (h ∷ chain) apart = elim (Bool-cases (matches new.key new.hash h)) [
  | inl same ↦ rw (same, put_in) (all_alike new h chain same apart.0, apart.1)
  | inr other ↦
      rw (other, put_in)
        (
          All-put_in h new chain (matches_sym new h other) apart.0,
          AreApart-put_in new chain apart.1,
        )
]

pub All-cut_from {κ} :
    (P : Handle → Type κ) (key : Bytes) (hash : ℕ) (chain : Chain)
    → All P chain
    → All P (cut_from key hash chain)
unfolding cut_from
All-cut_from P key hash [] all = tt
All-cut_from P key hash (h ∷ chain) all = elim (Bool-cases (matches key hash h)) [
  | inl same ↦ rw (same, cut_from) all.1
  | inr other ↦ rw (other, cut_from) (all.0, All-cut_from P key hash chain all.1)
]

pub AreApart-cut_from :
    (key : Bytes) (hash : ℕ) (chain : Chain) → AreApart chain → AreApart (cut_from key hash chain)
unfolding cut_from
AreApart-cut_from key hash [] apart = tt
AreApart-cut_from key hash (h ∷ chain) apart = elim (Bool-cases (matches key hash h)) [
  | inl same ↦ rw (same, cut_from) apart.1
  | inr other ↦
      rw (other, cut_from)
        (
          All-cut_from (λ g. matches h.key h.hash g ≡ false) key hash chain apart.0,
          AreApart-cut_from key hash chain apart.1,
        )
]
