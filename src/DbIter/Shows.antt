-- ===== src/DbIter/Shows.antt =====
-- LevelDB/db/db_iter.cc: Next and SeekToFirst, and what they show of the entries.
use leveldb_windows.Base.{
  ℕ, ◌≡◌, ◌⊎◌, refl, sym, ◌∙◌, arith, Bool, true, false, Option, none, some, List, [], ◌∷◌, Bytes,
  All, if◌then◌else◌, Option-cases, inl, inr,
}
use leveldb_windows.Comparator.{Comparator, IsOrder}
use leveldb_windows.Comparator.Order.{le_lt_trans, compare_self}
use leveldb_windows.Status.{Status}
use leveldb_windows.DbFormat.{ParsedInternalKey, parse_internal_key}
use leveldb_windows.Cursor.{contents, rewind, is_at}
use leveldb_windows.Entries.{Entry, newest, value_of, Follows, InOrder}
use leveldb_windows.Entries.Newest.{newest_corrupt, extract-parse}
use leveldb_windows.DbIter.{
  DbIter, forward, key, value, next_entry, seek_to_first_entry, find_next_user_entry,
  find_next_loop, corrupted_key, judge_parsed, Round, yields, passes, corrupt, hides,
}
use leveldb_windows.DbIter.Forward.{
  Past, NotBefore, Stops, Stops-behind, find_next_loop-Stops, newest_other, Follows-NotBefore,
}
use Prim.Native.Nat.{lt}
use mathlib.Core.Path.{subst}

Round-cases :
    (j : Round) → (j ≡ yields) ⊎ ((j ≡ passes) ⊎ ((j ≡ corrupt) ⊎ ((u : Bytes) × (j ≡ hides u))))
Round-cases yields = inl refl
Round-cases passes = inr (inl refl)
Round-cases corrupt = inr (inr (inl refl))
Round-cases (hides u) = inr (inr (inr (u, refl)))

-- The iterator on an entry, going forward.
abbrev pub at_entry : DbIter → List Entry → Entry → List Entry → DbIter
at_entry it before e rest = record it {
  iter = record { before = before; rest = e ∷ rest };
  direction = forward;
}

abbrev pub Any : Bytes → Type 0
Any w = Unit {0}

module _ (user : Comparator) (sequence : ℕ) where
  -- The iterator shows the first user key in `P` that has a value among the entries, with its newest
  -- value, or it is not valid and there is none.
  abbrev pub Shows : (Bytes → Type 0) → List Entry → DbIter → Type 0
  Shows P entries it =
      ((it.is_valid ≡ false)
        × ((w : Bytes) → P w → value_of (newest user sequence w entries) ≡ none))
      ⊎ ((it.is_valid ≡ true)
          × P (key it)
          × (value_of (newest user sequence (key it) entries) ≡ some (value it))
          × ((w : Bytes)
              → P w
              → user.compare_keys w (key it) ≡ lt
              → value_of (newest user sequence w entries) ≡ none))

  Stops-Shows :
      (P : Bytes → Type 0) (entries rest : List Entry) (it : DbIter)
      → it.direction ≡ forward
      → it.is_valid ≡ is_at it.iter.rest
      → it.iter.rest ≡ rest
      → Stops user sequence P entries rest
      → Shows P entries it
  unfolding key value
  Stops-Shows P entries [] it ahead ok place s = inl (rw (ok, place), s)
  Stops-Shows P entries (d ∷ rest) it ahead ok place (p, (good, (h, (found, between)))) =
      let shown : key it ≡ p.user_key = rw (ahead, place) (extract-parse d.0 p good) in
      let read : value it ≡ d.1 = rw (ahead, place) in
      inr (rw (ok, place), rw shown h, rw (shown, found, read), rw shown between)

module _ (user : Comparator) where
  rewind-InOrder :
      (before entries : List Entry) → InOrder user (rewind before entries) → InOrder user entries
  rewind-InOrder [] entries h = h
  rewind-InOrder (d ∷ before) entries h = (rewind-InOrder before (d ∷ entries) h).1

  abbrev Precedes : List Entry → Entry → Type 0
  Precedes entries b =
      All (λ d. Follows user (parse_internal_key b.0) (parse_internal_key d.0)) entries

  without_first :
      (d : Entry) (entries before : List Entry)
      → All (Precedes (d ∷ entries)) before
      → All (Precedes entries) before
  without_first d entries [] h = tt
  without_first d entries (b ∷ before) h = (h.0.1, without_first d entries before h.1)

  -- The entries behind precede those ahead.
  before-Precedes :
      (before entries : List Entry)
      → InOrder user (rewind before entries)
      → All (Precedes entries) before
  before-Precedes [] entries h = tt
  before-Precedes (d ∷ before) entries h = (
    (rewind-InOrder before (d ∷ entries) h).0,
    without_first d entries before (before-Precedes before (d ∷ entries) h),
  )

  abbrev IsLow : Bytes → Option ParsedInternalKey → Type 0
  IsLow w none = Unit {0}
  IsLow w (some q) = user.compare_keys q.user_key w ≡ lt

module _ (user : Comparator) (order : IsOrder user) (sequence : ℕ) where
  Follows-IsLow :
      (w : Bytes) (p : ParsedInternalKey) (o : Option ParsedInternalKey)
      → Follows user o (some p)
      → user.compare_keys p.user_key w ≡ lt
      → IsLow user w o
  Follows-IsLow w p none h less = tt
  Follows-IsLow w p (some q) h less = le_lt_trans user order q.user_key p.user_key w h.0 less

  newest_low :
      (w : Bytes) (d : Entry) (entries : List Entry)
      → IsLow user w (parse_internal_key d.0)
      → newest user sequence w (d ∷ entries) ≡ newest user sequence w entries
  newest_low w d entries low = elim (Option-cases (parse_internal_key d.0)) [
    | inl bad ↦ newest_corrupt user sequence w d entries bad
    | inr (q, good) ↦
        newest_other user order sequence w d entries q good (subst (IsLow user w) good low)
  ]

  -- The entries behind do not show a key past all of theirs.
  newest-rewind :
      (w : Bytes) (before entries : List Entry)
      → All (λ b. IsLow user w (parse_internal_key b.0)) before
      → newest user sequence w (rewind before entries) ≡ newest user sequence w entries
  newest-rewind w [] entries h = refl
  newest-rewind w (d ∷ before) entries h =
      newest-rewind w before (d ∷ entries) h.1 ∙ newest_low w d entries h.0

  All-IsLow :
      (w : Bytes) (e : Entry) (p : ParsedInternalKey) (rest before : List Entry)
      → parse_internal_key e.0 ≡ some p
      → user.compare_keys p.user_key w ≡ lt
      → All (Precedes user (e ∷ rest)) before
      → All (λ b. IsLow user w (parse_internal_key b.0)) before
  All-IsLow w e p rest [] good less h = tt
  All-IsLow w e p rest (b ∷ before) good less h = (
    Follows-IsLow w p (parse_internal_key b.0)
        (subst (Follows user (parse_internal_key b.0)) good h.0.0) less,
    All-IsLow w e p rest before good less h.1,
  )

  find_next_loop-contents :
      (skipping : Bool) (skip : Bytes) (reported : Status) (before entries : List Entry)
      → contents (find_next_loop user sequence skipping skip reported before entries).0
        ≡ rewind before entries
  unfolding find_next_loop
  find_next_loop-contents skipping skip reported before [] = refl
  find_next_loop-contents skipping skip reported before (e ∷ entries) =
      let j = judge_parsed user sequence skipping skip (parse_internal_key e.0) in
      elim (Round-cases j) [
        | inl stop ↦ rw (stop, find_next_loop)
        | inr (inl pass) ↦
            rw (pass, find_next_loop)
              (find_next_loop-contents skipping skip reported (e ∷ before) entries)
        | inr (inr (inl bad)) ↦
            rw (bad, find_next_loop)
              (find_next_loop-contents skipping skip corrupted_key (e ∷ before) entries)
        | inr (inr (inr (u, hide))) ↦
            rw (hide, find_next_loop) (find_next_loop-contents true u reported (e ∷ before) entries)
      ]

  -- From a place on the entry of a key, in entries in order, a forward move shows the first later
  -- user key that has a value for the reader, and its newest value; it ends where no later key has
  -- one. The entries under the iterator stay the same.
  pub next_entry-Shows :
      (it : DbIter) (before rest : List Entry) (e : Entry) (p : ParsedInternalKey)
      → InOrder user (rewind before (e ∷ rest))
      → parse_internal_key e.0 ≡ some p
      → Shows user sequence
          (Past user true p.user_key)
          (rewind before (e ∷ rest))
          (next_entry user sequence (at_entry it before e rest))
        × (contents (next_entry user sequence (at_entry it before e rest)).iter
            ≡ rewind before (e ∷ rest))
  unfolding next_entry find_next_user_entry
  next_entry-Shows it before rest e p sorted good =
      let here = rewind-InOrder user before (e ∷ rest) sorted in
      let follows =
        subst (λ o. All (λ d. Follows user o (parse_internal_key d.0)) rest) good here.0 in
      let stops =
        find_next_loop-Stops user order sequence true p.user_key it.status_field before (e ∷ rest)
          here
          (
            subst (NotBefore user true p.user_key) (sym good)
                (λ on h. ground (arith, compare_self user order p.user_key)),
            Follows-NotBefore user order sequence p rest follows,
          ) in
      let same = λ (w : Bytes) (h : Past user true p.user_key w).
        newest-rewind w before (e ∷ rest) (
          All-IsLow w e p rest before good (h refl)
            (before-Precedes user before (e ∷ rest) sorted)) in
      let place = find_next_loop user sequence true p.user_key it.status_field before (e ∷ rest) in
      let all =
        Stops-behind user sequence (Past user true p.user_key) (Past user true p.user_key)
          (e ∷ rest) (rewind before (e ∷ rest)) place.0.rest (λ w h. inr (h, same w h))
          (λ w h. (h, same w h)) stops in
      rw (extract-parse e.0 p good) (
        Stops-Shows user sequence (Past user true p.user_key) (rewind before (e ∷ rest))
            place.0.rest
            (find_next_user_entry user sequence true p.user_key
              (record (at_entry it before e rest) { saved_key = p.user_key }))
            refl refl refl all,
        find_next_loop-contents true p.user_key it.status_field before (e ∷ rest),
      )

  unskipped : (skip : Bytes) (o : Option ParsedInternalKey) → NotBefore user false skip o
  unskipped skip none = tt
  unskipped skip (some q) = λ on. cc

  all_unskipped :
      (skip : Bytes) (entries : List Entry)
      → All (λ d. NotBefore user false skip (parse_internal_key d.0)) entries
  all_unskipped skip [] = tt
  all_unskipped skip (d ∷ entries) =
      (unskipped skip (parse_internal_key d.0), all_unskipped skip entries)

  none_there : (w : Bytes) → value_of (newest user sequence w []) ≡ none
  unfolding newest
  none_there w = refl

  abbrev placed : DbIter → List Entry → DbIter
  placed it entries = record it {
    iter = record { before = []; rest = entries };
    direction = forward;
    saved_value = [];
  }

  abbrev started : DbIter → List Entry → DbIter
  started it entries =
      if is_at entries
      then find_next_user_entry user sequence false it.saved_key (placed it entries)
      else record (placed it entries) { is_valid = false }

  started-Shows :
      (it : DbIter) (entries : List Entry)
      → InOrder user entries
      → Shows user sequence Any entries (started it entries)
        × (contents (started it entries).iter ≡ entries)
  unfolding find_next_user_entry
  started-Shows it [] sorted = (inl (refl, λ w h. none_there w), refl)
  started-Shows it (d ∷ entries) sorted =
      let place =
        find_next_loop user sequence false it.saved_key it.status_field [] (d ∷ entries) in
      let stops =
        find_next_loop-Stops user order sequence false it.saved_key it.status_field [] (d ∷ entries)
          sorted (all_unskipped it.saved_key (d ∷ entries)) in
      let all =
        Stops-behind user sequence Any (Past user false it.saved_key) (d ∷ entries) (d ∷ entries)
          place.0.rest (λ w h. inr (λ on. cc, refl)) (λ w h. (tt, refl)) stops in
      (
        Stops-Shows user sequence Any (d ∷ entries) place.0.rest (started it (d ∷ entries)) refl
            refl refl all,
        find_next_loop-contents false it.saved_key it.status_field [] (d ∷ entries),
      )

  -- Over entries in order, a move to the first entry shows the first user key of all that has a value
  -- for the reader, and its newest value; it is not valid where no key has one. The entries under the
  -- iterator stay the same.
  pub seek_to_first_entry-Shows :
      (it : DbIter)
      → InOrder user (contents it.iter)
      → Shows user sequence Any (contents it.iter) (seek_to_first_entry user sequence it)
        × (contents (seek_to_first_entry user sequence it).iter ≡ contents it.iter)
  unfolding seek_to_first_entry
  seek_to_first_entry-Shows it sorted = started-Shows it (contents it.iter) sorted
