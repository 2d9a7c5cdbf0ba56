-- ===== src/DbIter/Forward.antt =====
-- LevelDB/db/db_iter.cc: FindNextUserEntry over entries in order.
use leveldb_windows.Base.{
  ℕ, ◌≡◌, ◌≢◌, ◌⊎◌, refl, ◌∙◌, ap, arith, Bool, true, false, ◌&&◌, not, Option, none, some, List,
  [], ◌∷◌, Bytes, All, leb, Option-cases, Bool-cases, inl, inr, is_gt,
}
use leveldb_windows.Comparator.{Comparator, IsOrder}
use leveldb_windows.Comparator.Order.{le_lt_trans, compare_self}
use leveldb_windows.Status.{Status}
use leveldb_windows.DbFormat.{
  ParsedInternalKey, ValueType, type_value, type_deletion, parse_internal_key,
}
use leveldb_windows.Entries.{Entry, newest, value_of, Follows, InOrder}
use leveldb_windows.Entries.Newest.{newest_corrupt, newest_parsed, newest_before}
use leveldb_windows.DbIter.{find_next_loop, corrupted_key}
use Prim.Native.Nat.{Ordering, lt, eq, gt}
use mathlib.Core.Path.{subst}

pub ValueType-cases : (t : ValueType) → (t ≡ type_deletion) ⊎ (t ≡ type_value)
ValueType-cases type_deletion = inl refl
ValueType-cases type_value = inr refl

order_cases : (o : Ordering) → (o ≡ lt) ⊎ ((o ≡ eq) ⊎ (o ≡ gt))
order_cases Ordering.lt = inl refl
order_cases Ordering.eq = inr (inl refl)
order_cases Ordering.gt = inr (inr refl)

module _ (user : Comparator) where
  -- The user keys behind the one to skip.
  abbrev pub Past : Bool → Bytes → Bytes → Type 0
  Past skipping skip w = skipping ≡ true → user.compare_keys skip w ≡ lt

  abbrev pub NotBefore : Bool → Bytes → Option ParsedInternalKey → Type 0
  NotBefore skipping skip none = Unit {0}
  NotBefore skipping skip (some p) = skipping ≡ true → user.compare_keys skip p.user_key ≢ gt

module _ (user : Comparator) (sequence : ℕ) where
  -- The scan of the entries for the keys in `P` stopped in front of `rest`: at the newest entry of the
  -- first such key with a value, or at the end where none has one.
  abbrev pub Stops : (Bytes → Type 0) → List Entry → List Entry → Type 0
  Stops P entries [] = (w : Bytes) → P w → value_of (newest user sequence w entries) ≡ none
  Stops P entries (d ∷ rest) =
      (p : ParsedInternalKey) × ((parse_internal_key d.0 ≡ some p)
        × (P p.user_key
            × ((newest user sequence p.user_key entries ≡ some (type_value, d.1))
                × ((w : Bytes)
                    → P w
                    → user.compare_keys w p.user_key ≡ lt
                    → value_of (newest user sequence w entries) ≡ none))))

  -- An entry in front that shows nothing to the keys in `P`, where the scan behind it is for `Q`.
  pub Stops-behind :
      (P Q : Bytes → Type 0) (entries front rest : List Entry)
      → ((w : Bytes)
          → P w
          → (value_of (newest user sequence w front) ≡ none)
            ⊎ (Q w × (newest user sequence w front ≡ newest user sequence w entries)))
      → ((w : Bytes) → Q w → P w × (newest user sequence w front ≡ newest user sequence w entries))
      → Stops Q entries rest
      → Stops P front rest
  Stops-behind P Q entries front [] down up s =
      λ w h. elim (down w h) [ inl gone ↦ gone | inr (k, same) ↦ rw same (s w k) ]
  Stops-behind P Q entries front (d ∷ rest) down up (p, (good, (k, (found, between)))) =
      let (h, same) = up p.user_key k in
      (
        p,
        (
          good,
          (
            h,
            (
              same ∙ found,
              λ w below less. elim (down w below) [
                | inl gone ↦ gone
                | inr (m, e) ↦ rw e (between w m less)
              ],
            ),
          ),
        ),
      )

module _ (user : Comparator) (order : IsOrder user) (sequence : ℕ) where
  pub keeps :
      (p : ParsedInternalKey) (o : Option ParsedInternalKey)
      → Follows user (some p) o
      → NotBefore user true p.user_key o
  keeps p none h = tt
  keeps p (some q) h = λ on. h.0

  -- An entry that no reader at the number sees.
  newest_unseen :
      (w : Bytes) (e : Entry) (entries : List Entry) (p : ParsedInternalKey)
      → parse_internal_key e.0 ≡ some p
      → leb p.sequence sequence ≡ false
      → newest user sequence w (e ∷ entries) ≡ newest user sequence w entries
  newest_unseen w e entries p good late =
      rw (newest_parsed user sequence w e entries p good) (ground (arith))

  pub newest_other :
      (w : Bytes) (e : Entry) (entries : List Entry) (p : ParsedInternalKey)
      → parse_internal_key e.0 ≡ some p
      → user.compare_keys p.user_key w ≡ lt
      → newest user sequence w (e ∷ entries) ≡ newest user sequence w entries
  newest_other w e entries p good less =
      rw (newest_parsed user sequence w e entries p good) (ground (arith))

  newest_found :
      (w : Bytes) (e : Entry) (entries : List Entry) (p : ParsedInternalKey)
      → parse_internal_key e.0 ≡ some p
      → leb p.sequence sequence ≡ true
      → user.compare_keys p.user_key w ≡ eq
      → newest user sequence w (e ∷ entries) ≡ some (p.type, e.1)
  newest_found w e entries p good early same =
      rw (newest_parsed user sequence w e entries p good) (ground (arith))

  -- A deletion hides its key, and the scan goes on behind it.
  hides_key :
      (skipping : Bool) (skip : Bytes) (e : Entry) (entries rest : List Entry)
      (p : ParsedInternalKey)
      → InOrder user (e ∷ entries)
      → NotBefore user skipping skip (some p)
      → parse_internal_key e.0 ≡ some p
      → leb p.sequence sequence ≡ true
      → p.type ≡ type_deletion
      → Stops user sequence (Past user true p.user_key) entries rest
      → Stops user sequence (Past user skipping skip) (e ∷ entries) rest
  hides_key skipping skip e entries rest p sorted behind good early deleted s =
      Stops-behind user sequence (Past user skipping skip) (Past user true p.user_key) entries
        (e ∷ entries) rest
        (λ w h. elim (order_cases (user.compare_keys p.user_key w)) [
          | inl less ↦ inr (λ _. less, newest_other w e entries p good less)
          | inr (inl same) ↦ inl (rw (newest_found w e entries p good early same, deleted))
          | inr (inr more) ↦ inl (
              rw (
                newest_before user order sequence w e entries p sorted good
                  (ground (arith, order.flipped p.user_key w))))
        ])
        (λ w h. (
          λ on. le_lt_trans user order skip p.user_key w (behind on) (h refl),
          newest_other w e entries p good (h refl),
        ))
        s

  -- A value that the scan stops at.
  yields_value :
      (skipping : Bool) (skip : Bytes) (e : Entry) (entries : List Entry) (p : ParsedInternalKey)
      → InOrder user (e ∷ entries)
      → parse_internal_key e.0 ≡ some p
      → leb p.sequence sequence ≡ true
      → p.type ≡ type_value
      → Past user skipping skip p.user_key
      → Stops user sequence (Past user skipping skip) (e ∷ entries) (e ∷ entries)
  yields_value skipping skip e entries p sorted good early shown past = (
    p,
    (
      good,
      (
        past,
        (
          newest_found p.user_key e entries p good early (compare_self user order p.user_key)
              ∙ ap (λ t. some (t, e.1)) shown,
          λ w h less. rw (newest_before user order sequence w e entries p sorted good less),
        ),
      ),
    ),
  )

  -- An entry of the key to skip, or of one before it.
  passes_key :
      (skipping : Bool) (skip : Bytes) (e : Entry) (entries rest : List Entry)
      (p : ParsedInternalKey)
      → parse_internal_key e.0 ≡ some p
      → skipping ≡ true
      → user.compare_keys p.user_key skip ≢ gt
      → Stops user sequence (Past user skipping skip) entries rest
      → Stops user sequence (Past user skipping skip) (e ∷ entries) rest
  passes_key skipping skip e entries rest p good on below s =
      let other = λ (w : Bytes) (h : Past user skipping skip w).
        newest_other w e entries p good (le_lt_trans user order p.user_key skip w below (h on)) in
      Stops-behind user sequence (Past user skipping skip) (Past user skipping skip) entries
        (e ∷ entries) rest (λ w h. inr (h, other w h)) (λ w h. (h, other w h)) s

  pub Follows-NotBefore :
      (p : ParsedInternalKey) (entries : List Entry)
      → All (λ d. Follows user (some p) (parse_internal_key d.0)) entries
      → All (λ d. NotBefore user true p.user_key (parse_internal_key d.0)) entries
  Follows-NotBefore p [] h = tt
  Follows-NotBefore p (d ∷ entries) h =
      (keeps p (parse_internal_key d.0) h.0, Follows-NotBefore p entries h.1)

  pub find_next_loop-Stops :
      (skipping : Bool) (skip : Bytes) (reported : Status) (before entries : List Entry)
      → InOrder user entries
      → All (λ d. NotBefore user skipping skip (parse_internal_key d.0)) entries
      → Stops user sequence
          (Past user skipping skip)
          entries
          (find_next_loop user sequence skipping skip reported before entries).0.rest
  unfolding find_next_loop newest
  find_next_loop-Stops skipping skip reported before [] sorted behind = λ w h. refl
  find_next_loop-Stops skipping skip reported before (e ∷ entries) sorted behind =
      elim (Option-cases (parse_internal_key e.0)) [
        | inl bad ↦
            rw (bad, find_next_loop)
              (Stops-behind user sequence (Past user skipping skip) (Past user skipping skip)
                entries (e ∷ entries)
                (find_next_loop user sequence skipping skip corrupted_key (e ∷ before)
                  entries).0.rest
                (λ w h. inr (h, newest_corrupt user sequence w e entries bad))
                (λ w h. (h, newest_corrupt user sequence w e entries bad))
                (find_next_loop-Stops skipping skip corrupted_key (e ∷ before) entries sorted.1
                  behind.1))
        | inr (p, good) ↦
            let not_before : NotBefore user skipping skip (some p) =
              subst (NotBefore user skipping skip) good behind.0 in
            let skipped =
              find_next_loop-Stops skipping skip reported (e ∷ before) entries sorted.1 behind.1 in
            elim (Bool-cases (leb p.sequence sequence)) [
              | inr late ↦
                  rw (good, late, find_next_loop)
                    (Stops-behind user sequence (Past user skipping skip) (Past user skipping skip)
                      entries (e ∷ entries)
                      (find_next_loop user sequence skipping skip reported (e ∷ before)
                        entries).0.rest
                      (λ w h. inr (h, newest_unseen w e entries p good late))
                      (λ w h. (h, newest_unseen w e entries p good late)) skipped)
              | inl early ↦ elim (ValueType-cases p.type) [
                | inl deleted ↦
                    rw (good, early, deleted, find_next_loop)
                      (hides_key skipping skip e entries
                        (find_next_loop user sequence true p.user_key reported (e ∷ before)
                          entries).0.rest
                        p sorted not_before good early deleted
                        (find_next_loop-Stops true p.user_key reported (e ∷ before) entries sorted.1
                          (Follows-NotBefore p entries (
                            subst (λ o. All (λ d. Follows user o (parse_internal_key d.0)) entries)
                              good sorted.0))))
                | inr shown ↦
                    elim (Bool-cases
                      (skipping && not (is_gt (user.compare_keys p.user_key skip)))) [
                        | inl hidden ↦
                            rw (good, early, shown, hidden, find_next_loop)
                              (passes_key skipping skip e entries
                                (find_next_loop user sequence skipping skip reported (e ∷ before)
                                  entries).0.rest
                                p good (ground arith) (ground arith) skipped)
                        | inr open' ↦
                            rw (good, early, shown, open', find_next_loop)
                              (yields_value skipping skip e entries p sorted good early shown (λ on.
                                ground (arith, on, order.flipped skip p.user_key, not_before on)))
                      ]
              ]
            ]
      ]
