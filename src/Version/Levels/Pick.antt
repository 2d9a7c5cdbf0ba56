-- ===== src/Version/Levels/Pick.antt =====
-- LevelDB/db/version_set.cc, Version::PickLevelForMemTableOutput: the level and the files above it.
use leveldb_windows.Base.{
  ℕ, zero, suc, ◌^◌, drop, length, sym, ◌∙◌, ◌||◌, ◌+◌, ◌≤◌, ◌<◌, ◌≡◌, refl, arith, Bool, true,
  false, Option, none, some, List, [], ◌∷◌, ◌⊎◌, All, Bytes, ltb, if◌then◌else◌, Bool-cases, inl,
  inr,
}
use leveldb_windows.Comparator.{Comparator, IsOrder}
use leveldb_windows.DbFormat.{extract_user_key}
use leveldb_windows.VersionEdit.{FileMetaData}
use leveldb_windows.Version.{after_file, before_file, some_file_meets, some_file_overlaps_range}
use leveldb_windows.Version.Overlap.{IsDisjoint, HasKeys, some_file_overlaps_range_eq}
use Prim.Native.Nat.{lt, gt}
use leveldb_windows.Version.Inputs.Closed.{meeting, overlapping_inputs_above}
use leveldb_windows.Version.Levels.{
  Levels, level_files, overlap_in_level, too_many_bytes, push_down, pick_level_for_mem_table_output,
  max_mem_compact_level, max_grand_parent_overlap_bytes, total_file_size,
}

-- `n`, and the numbers below it.
abbrev pub down_from : ℕ → List ℕ
down_from zero = 0 ∷ []
down_from (suc n) = suc n ∷ down_from n

-- What the levels from the first on hold.
abbrev pub IsLevel : Comparator → List FileMetaData → Type 0
IsLevel user files = IsDisjoint user files × All HasKeys files × (length files < 2 ^ 31)

-- The file ends before the range of user keys, or begins behind it.
abbrev pub Misses : Comparator → Bytes → Bytes → FileMetaData → Type 0
Misses user smallest largest f =
    (user.compare_keys smallest (extract_user_key f.largest) ≡ gt)
    ⊎ (user.compare_keys largest (extract_user_key f.smallest) ≡ lt)

deeper_files-IsLevel :
    (user : Comparator) (deeper : Levels) (l : ℕ)
    → All (IsLevel user) deeper
    → IsLevel user (level_files deeper l)
deeper_files-IsLevel user [] l sorted = (tt, tt, omega arith)
deeper_files-IsLevel user (files ∷ deeper) zero sorted = sorted.0
deeper_files-IsLevel user (files ∷ deeper) (suc l) sorted =
    deeper_files-IsLevel user deeper l sorted.1

level_files-IsLevel :
    (user : Comparator) (levels : Levels) (l : ℕ)
    → All (IsLevel user) (drop 1 levels)
    → IsLevel user (level_files levels (suc l))
level_files-IsLevel user [] l sorted = (tt, tt, omega arith)
level_files-IsLevel user (files ∷ deeper) l sorted = deeper_files-IsLevel user deeper l sorted

-- The scan of all files that finds none.
some_file_meets-Misses :
    (user : Comparator) (smallest largest : Bytes) (files : List FileMetaData)
    → some_file_meets user files (some smallest) (some largest) ≡ false
    → All (Misses user smallest largest) files
unfolding some_file_meets
some_file_meets-Misses user smallest largest [] none_meet = tt
some_file_meets-Misses user smallest largest (f ∷ files) none_meet =
    elim (Bool-cases (after_file user (some smallest) f || before_file user (some largest) f)) [
      | inr within ↦ let h = rw within at none_meet in absurd (cc h)
      | inl misses ↦
          let h = rw misses at none_meet in
          (ground (arith, misses), some_file_meets-Misses user smallest largest files h)
    ]

module _ (user : Comparator) (order : IsOrder user) (levels : Levels)
    (smallest largest : Bytes) where
  abbrev Free : ℕ → Type 0
  Free level = overlap_in_level user levels level (some smallest) (some largest) ≡ false

  -- The level is at most `bound`, and no level from `from` up to it meets the range.
  abbrev Picks : ℕ → ℕ → Option ℕ → Type 0
  Picks from bound o =
      (level : ℕ) × ((o ≡ some level)
        × (from ≤ level)
        × (level ≤ bound)
        × ((l : ℕ) → from < l → l ≤ level → Free l))

  stay : (from bound : ℕ) → from ≤ bound → Picks from bound (some from)
  stay from bound h = (from, (refl, (omega arith), h, λ l p q. absurd (omega arith)))

  descend :
      (from bound bound' : ℕ) (o : Option ℕ)
      → bound' ≤ bound
      → Free (from + 1)
      → Picks (from + 1) bound' o
      → Picks from bound o
  descend from bound bound' o lower free (level, (e, above, below, rest)) = (
    level,
    (
      e,
      omega arith,
      omega arith,
      λ l p q. elim (Bool-cases (ltb (from + 1) l)) [
        | inl later ↦ rest l (ground arith) q
        | inr first ↦ (let same : l ≡ from + 1 = ground arith in rw same free)
      ],
    ),
  )

  too_many_bytes_total :
      (level : ℕ) → (b : Bool) × (too_many_bytes user levels level smallest largest ≡ some b)
  unfolding too_many_bytes total_file_size
  too_many_bytes_total level =
      let files = level_files levels (level + 2) in
      let overlaps = meeting user (some smallest) (some largest) files in
      let found =
        overlapping_inputs_above user order (level + 2) files (some smallest) (some largest)
          (omega arith) in
      (ltb max_grand_parent_overlap_bytes (total_file_size overlaps), rw (found, too_many_bytes))

  settle :
      (over within : Bool) (heavy : Option Bool) (from : ℕ) (next : Option ℕ)
      (P : Option ℕ → Type 0)
      → ((b : Bool) × (heavy ≡ some b))
      → P (some from)
      → (over ≡ false → P next)
      → P (
          if over
          then some from
          else (if within
              then (elim heavy [ none ↦ none | some b ↦ if b then some from else next ])
              else next))
  settle true within heavy from next P total here down = here
  settle false false heavy from next P total here down = down refl
  settle false true none from next P (b, e) here down = absurd (cc e)
  settle false true (some true) from next P total here down = here
  settle false true (some false) from next P total here down = down refl

  push_down-Picks :
      (rounds from : ℕ)
      → Picks from (from + rounds) (push_down user rounds levels from smallest largest)
  unfolding push_down
  push_down-Picks zero from = stay from (from + 0) (omega arith)
  push_down-Picks (suc rounds) from =
      settle _ _ _ from _ (Picks from (from + suc rounds)) (too_many_bytes_total from)
        (stay from (from + suc rounds) (omega arith))
        (λ free.
          descend from (from + suc rounds) (from + 1 + rounds) _ (omega arith) free
            (push_down-Picks rounds (from + 1)))

  abbrev Missed : ℕ → Type 0
  Missed l = All (Misses user smallest largest) (level_files levels l)

  All-Missed : (n : ℕ) → ((l : ℕ) → l ≤ n → Missed l) → All Missed (down_from n)
  All-Missed zero missed = (missed 0 (omega arith), tt)
  All-Missed (suc n) missed =
      (missed (suc n) (omega arith), All-Missed n (λ l h. missed l (omega arith)))

  Free-zero :
      Free 0 → some_file_meets user (level_files levels 0) (some smallest) (some largest) ≡ false
  unfolding overlap_in_level some_file_overlaps_range
  Free-zero free = free

  Free-suc :
      (l : ℕ)
      → Free (suc l)
      → some_file_overlaps_range user true
          (level_files levels (suc l))
          (some smallest)
          (some largest)
        ≡ false
  unfolding overlap_in_level
  Free-suc l free = let above : ltb 0 (suc l) ≡ true = ground arith in rw above at free

  scanned :
      (files : List FileMetaData)
      → some_file_overlaps_range user false files (some smallest) (some largest)
        ≡ some_file_meets user files (some smallest) (some largest)
  unfolding some_file_overlaps_range
  scanned files = refl

  -- A level that no search finds an overlap in has no file that meets the range.
  Free-Misses : (l : ℕ) → All (IsLevel user) (drop 1 levels) → Free l → Missed l
  Free-Misses zero sorted free =
      some_file_meets-Misses user smallest largest (level_files levels 0) (Free-zero free)
  Free-Misses (suc l) sorted free =
      let (disjoint, keys, few) = level_files-IsLevel user levels l sorted in
      let files = level_files levels (suc l) in
      some_file_meets-Misses user smallest largest files (
        sym (scanned files)
        ∙ sym (
            some_file_overlaps_range_eq user order files (some smallest) (some largest) disjoint
              keys few)
        ∙ Free-suc l free)

  -- The level for a memtable's output is found and is at most 2. Unless it is level 0, each file of
  -- each level from it down to the zeroth ends before the output's range or begins behind it. The
  -- levels from the first on hold fewer than 2^31 disjoint files in order, with internal keys for
  -- bounds.
  pub pick_level_for_mem_table_output_lem :
      All (IsLevel user) (drop 1 levels)
      → (level : ℕ) × ((pick_level_for_mem_table_output user levels smallest largest ≡ some level)
          × (level ≤ max_mem_compact_level)
          × ((level ≡ 0)
              ⊎ All
                  (λ l. All (Misses user smallest largest) (level_files levels l))
                  (down_from level)))
  unfolding pick_level_for_mem_table_output
  pick_level_for_mem_table_output_lem sorted =
      elim (Bool-cases (overlap_in_level user levels 0 (some smallest) (some largest))) [
        | inl meets ↦ (0, (rw meets, omega arith, inl refl))
        | inr free ↦
            (let (level, (e, above, below, rest)) = push_down-Picks 2 0 in
              (
                level,
                (
                  rw free e,
                  omega arith,
                  inr (
                      All-Missed level (λ l q. elim (Bool-cases (ltb 0 l)) [
                        | inl later ↦ Free-Misses l sorted (rest l (ground arith) q)
                        | inr first ↦
                            (let same : l ≡ 0 = ground arith in rw same (Free-Misses 0 sorted free))
                      ])),
                ),
              ))
      ]
