-- ===== src/Compaction/BaseLevel.antt =====
-- LevelDB/db/version_set.cc, Compaction::IsBaseLevelForKey and the places that it remembers.
use leveldb_windows.Base.{
  ℕ, zero, suc, ◌+◌, ◌≡◌, ◌≢◌, refl, sym, ◌∙◌, arith, ◌≤◌, Bool, true, false, not, ◌||◌, some, List,
  [], ◌∷◌, ◌++◌, Bytes, length, take, drop, All, All-append, Bool-cases, inl, inr,
}
use leveldb_windows.Base.Cut.{take_add}
use leveldb_windows.Comparator.{Comparator, IsOrder}
use leveldb_windows.DbFormat.{extract_user_key}
use leveldb_windows.VersionEdit.{FileMetaData}
use leveldb_windows.Version.{after_file, some_file_meets}
use leveldb_windows.Version.Overlap.{IsDisjoint, IsDisjoint-All, none_meet}
use leveldb_windows.Version.Levels.{Levels}
use leveldb_windows.Compaction.{Compaction, advance, base_levels, is_base_level_for_key}
use Prim.Native.Nat.{gt}

module _ (user : Comparator) where
  -- The files before the place end before the key.
  abbrev pub IsPassed : List FileMetaData → Bytes → ℕ → Type 0
  IsPassed files key ptr = All (λ f. after_file user (some key) f ≡ true) (take ptr files)

  abbrev pub Ready : Levels → List ℕ → Bytes → Type 0
  Ready [] ptrs key = Unit {0}
  Ready (files ∷ levels) [] key = ⊥
  Ready (files ∷ levels) (ptr ∷ ptrs) key =
      IsDisjoint user files × IsPassed files key ptr × Ready levels ptrs key

  -- Whether the range of some file holds the key.
  abbrev pub holds_key : Levels → Bytes → Bool
  holds_key [] key = false
  holds_key (files ∷ levels) key =
      some_file_meets user files (some key) (some key) || holds_key levels key

  -- The places that a compaction remembers for the levels below its output are ready for the key.
  abbrev pub IsReady : Compaction → Bytes → Type 0
  IsReady c key =
      (suc (suc c.level) ≤ length c.level_ptrs)
      × Ready (drop (suc (suc c.level)) c.input_levels) (drop (suc (suc c.level)) c.level_ptrs) key

  meets-drop :
      (files : List FileMetaData) (key : Bytes) (ptr : ℕ)
      → IsPassed files key ptr
      → some_file_meets user files (some key) (some key)
        ≡ some_file_meets user (drop ptr files) (some key) (some key)
  unfolding some_file_meets
  meets-drop files key zero p = refl
  meets-drop [] key (suc ptr) p = refl
  meets-drop (f ∷ files) key (suc ptr) p = rw (p.0) (meets-drop files key ptr p.1)

  IsDisjoint-drop :
      (ptr : ℕ) (files : List FileMetaData)
      → IsDisjoint user files
      → IsDisjoint user (drop ptr files)
  IsDisjoint-drop zero files d = d
  IsDisjoint-drop (suc ptr) [] d = tt
  IsDisjoint-drop (suc ptr) (f ∷ files) d = IsDisjoint-drop ptr files d.2

  -- The place moves over files that end before the key.
  advance_passes :
      (files : List FileMetaData) (key : Bytes) (ptr : ℕ)
      → (n : ℕ) × (((advance user files key ptr).1 ≡ ptr + n) × IsPassed files key n)
  unfolding advance
  advance_passes [] key ptr = (0, (omega arith, tt))
  advance_passes (f ∷ files) key ptr = elim (Bool-cases (after_file user (some key) f)) [
    | inl after ↦
        let (n, (e, p)) = advance_passes files key (ptr + 1) in
        (suc n, (rw after (e ∙ omega arith), (after, p)))
    | inr stops ↦ (0, (rw stops (omega arith), tt))
  ]

within_front : (n : ℕ) (xs ys : List ℕ) → n ≤ length xs → n ≤ length (take n xs ++ ys)
within_front zero xs ys h = omega arith
within_front (suc n) [] ys h = absurd (omega arith)
within_front (suc n) (x ∷ xs) ys h = let rest = within_front n xs ys (omega arith) in omega arith

drop_front : (n : ℕ) (xs ys : List ℕ) → n ≤ length xs → drop n (take n xs ++ ys) ≡ ys
drop_front zero xs ys h = refl
drop_front (suc n) [] ys h = absurd (omega arith)
drop_front (suc n) (x ∷ xs) ys h = drop_front n xs ys (omega arith)

module _ (user : Comparator) (order : IsOrder user) where
  user_later :
      (key later bound : Bytes)
      → user.compare_keys key later ≢ gt
      → user.compare_keys key bound ≡ gt
      → user.compare_keys later bound ≡ gt
  user_later key later bound h k = ground (
    arith,
    order.lt_trans bound key later,
    order.eq_lt key later bound,
    order.flipped bound key,
    order.flipped bound later,
    order.flipped key later,
    order.flipped key bound,
    order.flipped later key,
    order.flipped later bound,
  )

  advance-meets :
      (files : List FileMetaData) (key : Bytes) (ptr : ℕ)
      → IsDisjoint user files
      → (advance user files key ptr).0 ≡ some_file_meets user files (some key) (some key)
  unfolding advance some_file_meets
  advance-meets [] key ptr d = refl
  advance-meets (f ∷ files) key ptr d = ground (
    arith,
    advance-meets files key (ptr + 1) d.2,
    none_meet user order f files (some key) (some key)
        (IsDisjoint-All user order f files d.0 d.1 d.2).1,
  )

  base_levels_lem :
      (levels : Levels) (ptrs : List ℕ) (key : Bytes)
      → Ready user levels ptrs key
      → ((base_levels user levels ptrs key).0 ≡ not (holds_key user levels key))
        × Ready user levels (base_levels user levels ptrs key).1 key
  unfolding base_levels
  base_levels_lem [] ptrs key r = (refl, tt)
  base_levels_lem (files ∷ levels) [] key r = absurd r
  base_levels_lem (files ∷ levels) (ptr ∷ ptrs) key r =
      let rest = base_levels_lem levels ptrs key r.2 in
      let held =
        advance-meets (drop ptr files) key ptr (IsDisjoint-drop user ptr files r.0)
        ∙ sym (meets-drop user files key ptr r.1) in
      let (n, (e, more)) = advance_passes user (drop ptr files) key ptr in
      let passed : IsPassed user files key (advance user (drop ptr files) key ptr).1 =
        rw (e, take_add ptr n files)
          (All-append (λ f. after_file user (some key) f ≡ true) (take ptr files)
            (take n (drop ptr files)) r.1 more) in
      elim (Bool-cases (some_file_meets user files (some key) (some key))) [
        | inl meets ↦ rw (held, meets) (refl, (r.0, passed, r.2))
        | inr free ↦ rw (held, free) (rest.0, (r.0, passed, rest.1))
      ]

  later_passed :
      (key later : Bytes) (files : List FileMetaData)
      → user.compare_keys key later ≢ gt
      → All (λ f. after_file user (some key) f ≡ true) files
      → All (λ f. after_file user (some later) f ≡ true) files
  later_passed key later [] h p = tt
  later_passed key later (f ∷ files) h p =
      let past = user_later key later (extract_user_key f.largest) h in
      (ground (arith, past), later_passed key later files h p.1)

  -- Places that are ready for a key are ready for a later one.
  later_places :
      (levels : Levels) (ptrs : List ℕ) (key later : Bytes)
      → user.compare_keys key later ≢ gt
      → Ready user levels ptrs key
      → Ready user levels ptrs later
  later_places [] ptrs key later h r = tt
  later_places (files ∷ levels) [] key later h r = absurd r
  later_places (files ∷ levels) (ptr ∷ ptrs) key later h r =
      (r.0, later_passed key later (take ptr files) h r.1, later_places levels ptrs key later h r.2)

  -- When the files of each level below the output are disjoint and in order, and no file before the
  -- places remembered reaches the key, a compaction calls its output
  -- level the base level of the key exactly when no file of a level below the output has a range that
  -- holds the key; and the places remembered then are ready in this sense for every key that is not
  -- before this one.
  pub is_base_level_for_key_lem :
      (c : Compaction) (key : Bytes)
      → IsReady user c key
      → ((is_base_level_for_key user c key).0
          ≡ not (holds_key user (drop (suc (suc c.level)) c.input_levels) key))
        × ((later : Bytes)
            → user.compare_keys key later ≢ gt
            → IsReady user (is_base_level_for_key user c key).1 later)
  unfolding is_base_level_for_key
  is_base_level_for_key_lem c key (enough, r) =
      let first = suc (suc c.level) in
      let answer = base_levels_lem (drop first c.input_levels) (drop first c.level_ptrs) key r in
      let ptrs = (base_levels user (drop first c.input_levels) (drop first c.level_ptrs) key).1 in
      (
        answer.0,
        λ later h. (
          within_front first c.level_ptrs ptrs enough,
          rw (drop_front first c.level_ptrs ptrs enough)
              (later_places (drop first c.input_levels) ptrs key later h answer.1),
        ),
      )
