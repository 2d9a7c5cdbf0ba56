-- ===== src/Cache.antt =====
-- LevelDB/util/cache.cc: the hash table of handles. A handle is a record with a number for its address,
-- and a chain, which the source links by `next_hash`, is the list of its handles.
pub mod Chains
pub mod Buckets
pub mod Moves
pub mod Table
mod Runs
use leveldb_windows.Base.{
  ℕ, zero, suc, ◌+◌, ◌-◌, ◌*◌, ◌/◌, ◌^◌, ◌%◌, Bool, true, false, not, ◌&&◌, ◌||◌, Option, none,
  some, List, [], ◌∷◌, ◌++◌, Bytes, length, get_or, set, replicate, ltb, leb, ◌==◌, if◌then◌else◌,
  bit_and,
}
use leveldb_windows.Slice.{slice_eq}

-- The parts of an `LRUHandle` that do not change.
pub record Handle : Type 0 where
  pub id : ℕ
  pub key : Bytes
  pub hash : ℕ
  pub value : ℕ
  pub charge : ℕ

abbrev pub Chain : Type 0
Chain = List Handle

-- `HandleTable`: `list_` holds a chain for each bucket.
pub record HandleTable : Type 0 where
  pub num_buckets : ℕ
  pub elems : ℕ
  pub buckets : List Chain

abbrev pub matches : Bytes → ℕ → Handle → Bool
matches key hash h = h.hash == hash && slice_eq key h.key

-- The walk of `FindPointer` along a chain: the handle at the pointer, the chain with another handle
-- written there, and the chain without it.
pub find_in : Bytes → ℕ → Chain → Option Handle
find_in key hash [] = none
find_in key hash (h ∷ chain) =
    let rest = find_in key hash chain in if matches key hash h then some h else rest

pub put_in : Handle → Chain → Chain
put_in new [] = new ∷ []
put_in new (h ∷ chain) =
    let rest = put_in new chain in if matches new.key new.hash h then new ∷ chain else h ∷ rest

pub cut_from : Bytes → ℕ → Chain → Chain
cut_from key hash [] = []
cut_from key hash (h ∷ chain) =
    let rest = cut_from key hash chain in if matches key hash h then chain else h ∷ rest

-- `hash & (length_ - 1)`
pub bucket_of : ℕ → ℕ → ℕ
bucket_of num_buckets hash = bit_and hash (num_buckets - 1)

-- The loop that doubles the number of buckets, on fuel.
pub double_until : ℕ → ℕ → ℕ → ℕ
double_until zero elems new_length = new_length
double_until (suc fuel) elems new_length =
    let more = double_until fuel elems (new_length * 2 % 2 ^ 32) in
    if ltb new_length elems then more else new_length

pub push_handle : ℕ → List Chain → Handle → List Chain
push_handle new_length new_list h =
    let i = bucket_of new_length h.hash in set new_list i (h ∷ get_or new_list i [])

pub move_chain : ℕ → Chain → List Chain → List Chain
move_chain new_length [] new_list = new_list
move_chain new_length (h ∷ chain) new_list =
    move_chain new_length chain (push_handle new_length new_list h)

pub move_buckets : ℕ → List Chain → List Chain → List Chain
move_buckets new_length [] new_list = new_list
move_buckets new_length (chain ∷ buckets) new_list =
    move_buckets new_length buckets (move_chain new_length chain new_list)

pub resize : HandleTable → HandleTable
resize t =
    let new_length = double_until t.elems t.elems 4 in
    record t {
      num_buckets = new_length;
      buckets = move_buckets new_length t.buckets (replicate new_length []);
    }

pub new_handle_table : HandleTable
unfolding resize
new_handle_table = resize (record { num_buckets = 0; elems = 0; buckets = [] })

abbrev pub chain_of : HandleTable → ℕ → Chain
chain_of t hash = get_or t.buckets (bucket_of t.num_buckets hash) []

pub lookup_handle : HandleTable → Bytes → ℕ → Option Handle
lookup_handle t key hash = find_in key hash (chain_of t hash)

abbrev with_chain : HandleTable → ℕ → Chain → HandleTable
with_chain t hash chain = record t { buckets = set t.buckets (bucket_of t.num_buckets hash) chain }

-- The old handle, and the table.
pub insert_handle : HandleTable → Handle → Option Handle × HandleTable
insert_handle t h =
    let put = with_chain t h.hash (put_in h (chain_of t h.hash)) in
    let counted = record put { elems = (t.elems + 1) % 2 ^ 32 } in
    elim (lookup_handle t h.key h.hash) [
      | some old ↦ (some old, put)
      | none ↦ (none, if ltb t.num_buckets counted.elems then resize counted else counted)
    ]

pub remove_handle : HandleTable → Bytes → ℕ → Option Handle × HandleTable
remove_handle t key hash = elim (lookup_handle t key hash) [
  | none ↦ (none, t)
  | some result ↦ (
    some result,
    record (with_chain t hash (cut_from key hash (chain_of t hash))) {
      elems = (t.elems + (2 ^ 32 - 1)) % 2 ^ 32;
    },
  )
]
