-- ===== src/WriteQueue/Write.antt =====
-- What a write of the writer at the front does to the log, the numbers and the queue.
use leveldb_windows.Base.{
  ℕ, ◌+◌, ◌%◌, ◌^◌, ◌<◌, ◌≤◌, ◌≡◌, ◌≢◌, refl, ◌∙◌, ap, arith, Bool, true, false, Bool-cases, inl,
  inr, widen_int, widen_int_small, Option, none, some, List, [], ◌∷◌, ◌++◌, length, length-append,
  map, All, ◌==◌, ==_iff, if◌then◌else◌,
}
use leveldb_windows.Status.{Status, ok_status, ok}
use leveldb_windows.WriteBatch.{WriteBatch, count, set_sequence}
use leveldb_windows.WriteBatch.Layout.{Update, layout, count-layout, set_sequence-layout}
use leveldb_windows.WriteQueue.{
  Writer, Grouped, own, grouped_batch, build_loop, build_batch_group, pop_through, byte_size,
  max_group_size, Sinks, Db, commit, write_front, record_background_error,
}
use leveldb_windows.WriteQueue.Group.{
  Request, batch_of, updates_or, writer_of, all_updates, last_id, MayJoin, Holds,
  build_loop-Grouping,
}
use mathlib.Core.Path.{subst}

abbrev pub IsNot : ℕ → Request → Type 0
IsNot id r = r.id ≢ id

abbrev pub AreDistinct : List Request → Type 0
AreDistinct [] = Unit {0}
AreDistinct (r ∷ requests) = All (IsNot r.id) requests × AreDistinct requests

last_id-IsNot :
    (id : ℕ) (r : Request) (group left : List Request)
    → All (IsNot id) (r ∷ group ++ left)
    → last_id r.id group ≢ id
last_id-IsNot id r [] left h = h.0
last_id-IsNot id r (g ∷ group) left h = last_id-IsNot id g group left h.1

abbrev pub ids : List Request → List ℕ
ids requests = map (λ r. r.id) requests

-- The writers of the group leave the queue, and no others.
pop_group :
    (first : Request) (group left : List Request)
    → AreDistinct (first ∷ group ++ left)
    → pop_through (last_id first.id group) (map writer_of (first ∷ group ++ left))
      ≡ (ids (first ∷ group), map writer_of left)
unfolding pop_through
pop_group first [] left h = rw ((==_iff first.id first.id).1 refl)
pop_group first (g ∷ group) left h =
    let apart = last_id-IsNot first.id g group left h.0 in
    let other : (first.id == last_id g.id group) ≡ false = ground (arith, apart) in
    rw (other, pop_group g group left h.1)

updates_or_mono :
    (updates : Option (List Update)) (us vs : List Update)
    → length us ≤ length vs
    → length (updates_or updates us) ≤ length (updates_or updates vs)
updates_or_mono none us vs h = h
updates_or_mono (some ws) us vs h = omega (arith, length-append ws us, length-append ws vs)

length-all_updates :
    (group left : List Request) → length (all_updates group) ≤ length (all_updates (group ++ left))
length-all_updates [] left = omega arith
length-all_updates (r ∷ group) left =
    updates_or_mono r.updates (all_updates group) (all_updates (group ++ left))
      (length-all_updates group left)

-- How a write of some updates goes through the log and the memtable: its status, whether the sync
-- failed, and the state behind it. What fails ends it, and what succeeds is followed by the next step.
pub data Commits {S : Type 0} (sinks : Sinks S) (sync : Bool) (updates : WriteBatch) (s : S)
    : Status → Bool → S → Type 0 where
  not_logged :
      (e : Status) (logged : S)
      → sinks.add_record updates.rep s ≡ (e, logged)
      → ok e ≡ false
      → Commits sinks sync updates s e false logged
  not_synced :
      (logged : Status × S) (e : Status) (synced : S)
      → sinks.add_record updates.rep s ≡ logged
      → ok logged.0 ≡ true
      → sync ≡ true
      → sinks.sync_log logged.1 ≡ (e, synced)
      → ok e ≡ false
      → Commits sinks sync updates s e true synced
  inserted_synced :
      (logged synced : Status × S) (e : Status) (inserted : S)
      → sinks.add_record updates.rep s ≡ logged
      → ok logged.0 ≡ true
      → sync ≡ true
      → sinks.sync_log logged.1 ≡ synced
      → ok synced.0 ≡ true
      → sinks.insert_into updates synced.1 ≡ (e, inserted)
      → Commits sinks sync updates s e false inserted
  inserted_unsynced :
      (logged : Status × S) (e : Status) (inserted : S)
      → sinks.add_record updates.rep s ≡ logged
      → ok logged.0 ≡ true
      → sync ≡ false
      → sinks.insert_into updates logged.1 ≡ (e, inserted)
      → Commits sinks sync updates s e false inserted

module _ {S : Type 0} (sinks : Sinks S) where
  abbrev CommitsTo : Bool → WriteBatch → S → Status × Bool × S → Type 0
  CommitsTo sync updates s (reported, sync_error, s') =
      Commits sinks sync updates s reported sync_error s'

  commit-Commits :
      (sync : Bool) (updates : WriteBatch) (s : S)
      → CommitsTo sync updates s (commit sinks sync updates s)
  unfolding commit
  commit-Commits sync updates s =
      let logged = sinks.add_record updates.rep s in
      let synced = sinks.sync_log logged.1 in
      elim (Bool-cases (ok logged.0)) [
        | inr failed ↦ rw failed (not_logged logged.0 logged.1 refl failed)
        | inl good ↦ elim (Bool-cases sync) [
          | inr unasked ↦ rw (good, unasked) (inserted_unsynced logged _ _ refl good refl refl)
          | inl asked ↦ elim (Bool-cases (ok synced.0)) [
            | inr failed ↦
                rw (good, asked, failed)
                  (not_synced logged synced.0 synced.1 refl good refl refl failed)
            | inl done ↦
                rw (good, asked, done)
                  (inserted_synced logged synced _ _ refl good refl refl done refl)
          ]
        ]
      ]

module _ {S : Type 0} (sinks : Sinks S) where
  -- The batch of the updates, numbered from the next number on.
  abbrev pub numbered : Db S → List Update → WriteBatch
  numbered db us = record { rep = layout (db.last_sequence + 1) (length us) us }

  abbrev written_together :
      Bool → Db S → List Update → List ℕ → List Writer → Status × List ℕ × Db S
  written_together sync db us done left =
      let (status, sync_error, s) = commit sinks sync (numbered db us) db.sinks in
      let recorded = if sync_error then record_background_error status db else db in
      (
        status,
        done,
        record recorded { last_sequence = db.last_sequence + length us; writers = left; sinks = s },
      )

  -- The rest of the write, once the group is chosen.
  abbrev after : Bool → Db S → List Writer → Grouped × ℕ → Status × List ℕ × Db S
  after sync db queue run =
      let updates = set_sequence (grouped_batch run.0) (db.last_sequence + 1) in
      let (status, sync_error, s) = commit sinks sync updates db.sinks in
      let recorded = if sync_error then record_background_error status db else db in
      (
        status,
        (pop_through run.1 queue).0,
        record recorded {
          last_sequence = (db.last_sequence + widen_int (count updates)) % 2 ^ 64;
          writers = (pop_through run.1 queue).1;
          sinks = s;
        },
      )

  after_group :
      (sync : Bool) (us : List Update) (db : Db S) (id : ℕ) (run : Grouped × ℕ)
      (requests group left : List Request)
      → requests ≡ group ++ left
      → Holds run.0 (us ++ all_updates group)
      → run.1 ≡ last_id id group
      → AreDistinct (record { id = id; updates = some us; sync = sync } ∷ requests)
      → length us + length (all_updates requests) < 2 ^ 31
      → db.last_sequence + (length us + length (all_updates requests)) < 2 ^ 64
      → after sync db
          (map writer_of (record { id = id; updates = some us; sync = sync } ∷ requests))
          run
        ≡ written_together sync db (us ++ all_updates group) (id ∷ ids group) (map writer_of left)
  after_group sync us db id run requests group left splits holds ends distinct small below =
      let first : Request = record { id = id; updates = some us; sync = sync } in
      let all = us ++ all_updates group in
      let apart = subst (λ (rs : List Request). AreDistinct (first ∷ rs)) splits distinct in
      let popped : pop_through run.1 (map writer_of (first ∷ requests))
          ≡ (id ∷ ids group, map writer_of left) =
        ap (λ (n : ℕ). pop_through n (map writer_of (first ∷ requests))) ends
        ∙ ap (λ (rs : List Request). pop_through (last_id id group) (map writer_of (first ∷ rs)))
            splits
        ∙ pop_group first group left apart in
      let fewer : length all ≤ length us + length (all_updates requests) = omega (
        arith,
        length-append us (all_updates group),
        length-all_updates group left,
        ap (λ (rs : List Request). length (all_updates rs)) splits,
      ) in
      let fits : length all < 4294967296 = omega (arith, fewer) in
      let advanced : (db.last_sequence + widen_int (length all)) % 2 ^ 64
          ≡ db.last_sequence + length all =
        rw (widen_int_small (length all) (omega (arith, fewer))) (omega (arith, fewer)) in
      rw
        (
          holds,
          popped,
          set_sequence-layout 0 (length all) all (db.last_sequence + 1),
          count-layout (db.last_sequence + 1) (length all) all fits,
          advanced,
        )
        refl

  -- What a write of the updates `us` with the requests behind it leaves: `group` of them, a beginning of
  -- the queue, have been written with it, and `left` of them are on the queue.
  pub record Written (id : ℕ) (us : List Update) (sync : Bool) (requests : List Request) (db : Db S)
      (result : Status × List ℕ × Db S) : Type 0 where
    pub group : List Request
    pub left : List Request
    pub sync_error : Bool
    pub state : S
    pub splits : requests ≡ group ++ left
    pub joined : All (MayJoin sync) group
    pub commits :
        Commits sinks sync
          (numbered db (us ++ all_updates group))
          db.sinks
          result.0
          sync_error
          state
    pub done : result.1 ≡ id ∷ ids group
    pub leaves :
        result.2 ≡ record (if sync_error then record_background_error result.0 db else db) {
          last_sequence = db.last_sequence + length (us ++ all_updates group);
          writers = map writer_of left;
          sinks = state;
        }

  -- A write with a batch, for which there is room, takes a beginning of the queue, in which no sync
  -- write stands behind a first write that is none. It logs the updates of all of these writers in
  -- one record, in the order of the queue and numbered from the next number on; where the log has
  -- taken it, syncs the log if that is asked for; and where that succeeds, inserts the updates into the
  -- memtable. Its status is that of the step it ended with, and a sync that fails is the background
  -- error where there was none. It advances the last number by the number of the updates, and takes
  -- exactly these writers off the queue. The writers are distinct, the updates fewer than 2^31, and
  -- their numbers below 2^64.
  pub write_front-Written :
      (id : ℕ) (us : List Update) (sync : Bool) (requests : List Request) (db : Db S)
      → AreDistinct (record { id = id; updates = some us; sync = sync } ∷ requests)
      → length us + length (all_updates requests) < 2 ^ 31
      → db.last_sequence + (length us + length (all_updates requests)) < 2 ^ 64
      → Written id us sync requests db (
          write_front sinks ok_status
            (writer_of (record { id = id; updates = some us; sync = sync }))
            (map writer_of requests)
            db)
  unfolding write_front build_batch_group
  write_front-Written id us sync requests db distinct small below =
      let size = byte_size (batch_of us) in
      let run =
        build_loop sync (max_group_size size) size (own (batch_of us)) id
          (map writer_of requests) in
      let g =
        build_loop-Grouping sync (max_group_size size) size (own (batch_of us)) us id requests refl
          (omega arith) in
      let updates = numbered db (us ++ all_updates g.group) in
      let committed = commit sinks sync updates db.sinks in
      rw
        (after_group sync us db id run requests g.group g.left g.splits g.holds g.ends distinct
          small below)
        (record {
          group = g.group;
          left = g.left;
          sync_error = committed.1;
          state = committed.2;
          splits = g.splits;
          joined = g.joined;
          commits = commit-Commits sinks sync updates db.sinks;
          done = refl;
          leaves = refl;
        })
