-- ===== src/WriteQueue/Group.antt =====
-- LevelDB/db/db_impl.cc, DBImpl::BuildBatchGroup: the writers of a group and its batch.
use leveldb_windows.Base.{
  ℕ, ◌+◌, ◌<◌, ◌≡◌, refl, sym, ◌∙◌, ap, arith, Bool, false, not, ◌&&◌, Option, none, some, List, [],
  ◌∷◌, ◌++◌, length, length-append, map, All, ltb, if◌then◌else◌, Bool-cases, inl, inr,
  append_assoc, append-nil,
}
use leveldb_windows.WriteBatch.{WriteBatch, new_write_batch}
use leveldb_windows.WriteBatch.Layout.{Update, layout, append-layout, new_write_batch-updates}
use leveldb_windows.WriteQueue.{
  Writer, Grouped, own, temporary, grouped_batch, append_batch, build_loop, byte_size,
}

-- What a client asks for: its updates, or only that earlier writes be done.
pub record Request : Type 0 where
  pub id : ℕ
  pub updates : Option (List Update)
  pub sync : Bool

abbrev pub batch_of : List Update → WriteBatch
batch_of us = record { rep = layout 0 (length us) us }

abbrev pub batch_for : Option (List Update) → Option WriteBatch
batch_for none = none
batch_for (some us) = some (batch_of us)

abbrev pub writer_of : Request → Writer
writer_of r = record { id = r.id; batch = batch_for r.updates; sync = r.sync }

abbrev pub updates_or : Option (List Update) → List Update → List Update
updates_or none rest = rest
updates_or (some us) rest = us ++ rest

abbrev pub all_updates : List Request → List Update
all_updates [] = []
all_updates (r ∷ requests) = updates_or r.updates (all_updates requests)

abbrev pub last_id : ℕ → List Request → ℕ
last_id last [] = last
last_id last (r ∷ requests) = last_id r.id requests

-- A group without a sync write behind a first write that is none.
abbrev pub MayJoin : Bool → Request → Type 0
MayJoin first_sync r = (r.sync && not first_sync) ≡ false

-- The batch of the group holds the updates.
abbrev pub Holds : Grouped → List Update → Type 0
Holds g us = grouped_batch g ≡ batch_of us

pub record Grouping (first_sync : Bool) (us : List Update) (last : ℕ) (requests : List Request)
    (result : Grouped × ℕ) : Type 0 where
  pub group : List Request
  pub left : List Request
  pub splits : requests ≡ group ++ left
  pub holds : Holds result.0 (us ++ all_updates group)
  pub ends : result.1 ≡ last_id last group
  pub joined : All (MayJoin first_sync) group

append_batch-Holds :
    (g : Grouped) (us vs : List Update)
    → Holds g us
    → length us + length vs < 4294967296
    → Holds (append_batch g (batch_of vs)) (us ++ vs)
unfolding append_batch
append_batch-Holds (own first) us vs h small =
    let start : new_write_batch ≡ batch_of [] = new_write_batch-updates [] (omega arith) tt in
    let sum : length us + length vs ≡ length (us ++ vs) = sym (length-append us vs) in
    rw (h, start, append-layout 0 0 0 (length us) [] us (omega arith))
      (let zero_first : 0 + length us ≡ length us = omega arith in
        rw (zero_first) (
          append-layout 0 (length us) 0 (length vs) us vs small
          ∙ ap (λ (n : ℕ). record { rep = layout 0 n (us ++ vs) }) sum))
append_batch-Holds (temporary result) us vs h small = rw h (
    append-layout 0 (length us) 0 (length vs) us vs small
    ∙ ap (λ (n : ℕ). record { rep = layout 0 n (us ++ vs) }) (sym (length-append us vs)))

stop_here :
    (first_sync : Bool) (us : List Update) (last : ℕ) (requests : List Request) (result : Grouped)
    → Holds result us
    → Grouping first_sync us last requests (result, last)
stop_here first_sync us last requests result h = record {
  group = [];
  left = requests;
  splits = refl;
  holds = h ∙ ap batch_of (sym (append-nil us));
  ends = refl;
  joined = tt;
}

-- A request in front of a group.
join_front :
    (first_sync : Bool) (us vs : List Update) (last id : ℕ) (updates : Option (List Update))
    (sync : Bool) (requests : List Request) (result : Grouped × ℕ)
    → (sync && not first_sync) ≡ false
    → ((rest : List Update) → vs ++ rest ≡ us ++ updates_or updates rest)
    → Grouping first_sync vs id requests result
    → Grouping first_sync us last
        (record { id = id; updates = updates; sync = sync } ∷ requests)
        result
join_front first_sync us vs last id updates sync requests result joins more g = record {
  group = record { id = id; updates = updates; sync = sync } ∷ g.group;
  left = g.left;
  splits =
      ap (λ (rs : List Request). record { id = id; updates = updates; sync = sync } ∷ rs) g.splits;
  holds = g.holds ∙ ap batch_of (more (all_updates g.group));
  ends = g.ends;
  joined = (joins, g.joined);
}

joined_round :
    (first_sync : Bool) (max_size size : ℕ) (result : Grouped) (us : List Update) (last id : ℕ)
    (updates : Option (List Update)) (sync : Bool) (requests : List Request)
    → (sync && not first_sync) ≡ false
    → Holds result us
    → length us + length (updates_or updates (all_updates requests)) < 4294967296
    → ((size' : ℕ) (result' : Grouped) (vs : List Update)
        → Holds result' vs
        → length vs + length (all_updates requests) < 4294967296
        → Grouping first_sync vs id requests
            (build_loop first_sync max_size size' result' id (map writer_of requests)))
    → Grouping first_sync us last
        (record { id = id; updates = updates; sync = sync } ∷ requests)
        (elim (batch_for updates) as (λ b. Grouped × ℕ) [
          | none ↦ build_loop first_sync max_size size result id (map writer_of requests)
          | some b ↦
              if ltb max_size (size + byte_size b)
              then (result, last)
              else build_loop first_sync max_size
                  (size + byte_size b)
                  (append_batch result b)
                  id
                  (map writer_of requests)
        ])
joined_round first_sync max_size size result us last id none sync requests joins h small go =
    join_front first_sync us us last id none sync requests
      (build_loop first_sync max_size size result id (map writer_of requests)) joins (λ rest. refl)
      (go size result us h small)
joined_round first_sync max_size size result us last id (some vs) sync requests joins h small go =
    let more : length (vs ++ all_updates requests) ≡ length vs + length (all_updates requests) =
      length-append vs (all_updates requests) in
    let grown : length (us ++ vs) ≡ length us + length vs = length-append us vs in
    elim (Bool-cases (ltb max_size (size + byte_size (batch_of vs)))) [
      | inl full ↦ rw full (
          stop_here first_sync us last
            (record { id = id; updates = some vs; sync = sync } ∷ requests) result h)
      | inr room ↦ rw room (
          join_front first_sync us (us ++ vs) last id (some vs) sync requests
            (build_loop first_sync max_size (size + byte_size (batch_of vs))
              (append_batch result (batch_of vs)) id (map writer_of requests))
            joins (λ rest. append_assoc us vs rest)
            (go (size + byte_size (batch_of vs)) (append_batch result (batch_of vs)) (us ++ vs)
              (append_batch-Holds result us vs h (omega arith)) (omega arith)))
    ]

-- The loop takes a beginning of the queue.
pub build_loop-Grouping :
    (first_sync : Bool) (max_size size : ℕ) (result : Grouped) (us : List Update) (last : ℕ)
    (requests : List Request)
    → Holds result us
    → length us + length (all_updates requests) < 4294967296
    → Grouping first_sync us last requests
        (build_loop first_sync max_size size result last (map writer_of requests))
unfolding build_loop
build_loop-Grouping first_sync max_size size result us last [] h small =
    stop_here first_sync us last [] result h
build_loop-Grouping first_sync max_size size result us last (r ∷ requests) h small =
    elim (Bool-cases (r.sync && not first_sync)) [
      | inl alone ↦ rw alone (stop_here first_sync us last (r ∷ requests) result h)
      | inr joins ↦ rw joins (
          joined_round first_sync max_size size result us last r.id r.updates r.sync requests joins
            h small
            (λ size' result' us'.
              build_loop-Grouping first_sync max_size size' result' us' r.id requests))
    ]
