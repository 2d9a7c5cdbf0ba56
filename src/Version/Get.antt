-- ===== src/Version/Get.antt =====
-- LevelDB/db/version_set.cc: the files that a read of a key looks into, newest first, what it takes
-- from each, and the statistics that it leaves. The table cache is a parameter.
pub mod Candidates
use leveldb_windows.Base.{
  ℕ, zero, suc, ◌+◌, ◌-◌, ◌*◌, Bool, true, false, not, ◌&&◌, Option, none, some, List, [], ◌∷◌,
  ◌++◌, Bytes, map, length, get_or, ltb, leb, ◌==◌, is_lt, is_gt, if◌then◌else◌,
}
use leveldb_windows.Comparator.{Comparator}
use leveldb_windows.DbFormat.{
  ParsedInternalKey, ValueType, type_value, type_deletion, extract_user_key, parse_internal_key,
  LookupKey, lookup_internal_key, lookup_user_key,
}
use leveldb_windows.Status.{Status, ok_status, not_found, corruption, ok}
use leveldb_windows.VersionEdit.{FileMetaData, num_levels}
use leveldb_windows.Version.{no_file, find_file}
use leveldb_windows.Version.Levels.{Levels, level_files}
use Prim.Native.Nat.{Ordering}

-- `TableCache::Get` on a file's number and size: its status, and the entry that it hands to the
-- callback, if there is one.
pub record TableCache : Type 0 where
  pub table_get : ℕ → ℕ → Bytes → Status × Option (Bytes × Bytes)

pub data SaverState : Type 0 where
  state_not_found state_deleted state_corrupt : SaverState
  state_found : Bytes → SaverState

pub record GetStats : Type 0 where
  pub seek_file : Option (ℕ × FileMetaData)

abbrev pub no_stats : GetStats
no_stats = record { seek_file = none }

-- The parts of a version that reads and statistics change; a file of the version stands in a level.
pub record Version : Type 0 where
  pub levels : Levels
  pub file_to_compact : Option (ℕ × FileMetaData)

-- `std::sort` by `NewestFirst`, on files of different numbers.
pub insert_newest : FileMetaData → List FileMetaData → List FileMetaData
insert_newest f [] = f ∷ []
insert_newest f (g ∷ files) =
    let rest = insert_newest f files in if ltb g.number f.number then f ∷ (g ∷ files) else g ∷ rest

pub sort_newest : List FileMetaData → List FileMetaData
sort_newest [] = []
sort_newest (f ∷ files) = insert_newest f (sort_newest files)

module _ (user : Comparator) where
  -- The files of level 0 whose user keys span the key.
  pub spanning : List FileMetaData → Bytes → List FileMetaData
  spanning [] user_key = []
  spanning (f ∷ files) user_key =
      let rest = spanning files user_key in
      if not (is_lt (user.compare_keys user_key (extract_user_key f.smallest)))
        && not (is_gt (user.compare_keys user_key (extract_user_key f.largest)))
      then f ∷ rest
      else rest

  -- The file of a level above 0 that may hold the key.
  pub candidate_above : List FileMetaData → Bytes → Bytes → List FileMetaData
  candidate_above files user_key internal_key =
      let index = find_file user files internal_key in
      let f = get_or files index no_file in
      if leb (length files) index
      then []
      else (if is_lt (user.compare_keys user_key (extract_user_key f.smallest)) then [] else f ∷ [])

  abbrev pub in_level : ℕ → List FileMetaData → List (ℕ × FileMetaData)
  in_level level files = map (λ f. (level, f)) files

  -- The levels from `level` on.
  pub candidates_from : ℕ → ℕ → Levels → Bytes → Bytes → List (ℕ × FileMetaData)
  candidates_from zero level levels user_key internal_key = []
  candidates_from (suc rounds) level levels user_key internal_key =
      in_level level (candidate_above (level_files levels level) user_key internal_key)
      ++ candidates_from rounds (level + 1) levels user_key internal_key

  pub candidates : Levels → Bytes → Bytes → List (ℕ × FileMetaData)
  candidates levels user_key internal_key =
      in_level 0 (sort_newest (spanning (level_files levels 0) user_key))
      ++ candidates_from (num_levels - 1) 1 levels user_key internal_key

  -- `SaveValue`; the value is kept in the state.
  pub save_value : Bytes → SaverState → Bytes × Bytes → SaverState
  save_value user_key state (ikey, v) = elim (parse_internal_key ikey) [
    | none ↦ state_corrupt
    | some parsed ↦ elim (user.compare_keys parsed.user_key user_key) [
      | Ordering.eq ↦ elim parsed.type [
        | type_value ↦ state_found v
        | type_deletion ↦ state_deleted
      ]
      | _ ↦ state
    ]
  ]

  -- The loops of `Get` over the files, with the file that was read last; the value is beside the
  -- status where the key is found. The message on a corrupted key is without the key's bytes.
  pub get_loop :
      TableCache
      → Bytes
      → Bytes
      → List (ℕ × FileMetaData)
      → Option (ℕ × FileMetaData)
      → GetStats
      → Status × Option Bytes × GetStats
  get_loop cache user_key ikey [] last stats = (not_found "", none, stats)
  get_loop cache user_key ikey (file ∷ files) last stats =
      let charged : GetStats = elim last [
        | none ↦ stats
        | some read ↦ elim stats.seek_file [
          | none ↦ record { seek_file = some read }
          | some f ↦ stats
        ]
      ] in
      let answer = cache.table_get file.1.number file.1.file_size ikey in
      let rest = get_loop cache user_key ikey files (some file) charged in
      let state : SaverState = elim answer.1 [
        | none ↦ state_not_found
        | some entry ↦ save_value user_key state_not_found entry
      ] in
      if ok answer.0
      then elim state [
        | state_not_found ↦ rest
        | state_found v ↦ (answer.0, some v, charged)
        | state_deleted ↦ (not_found "", none, charged)
        | state_corrupt ↦ (corruption "corrupted key for ", none, charged)
      ]
      else (answer.0, none, charged)

  pub get : TableCache → Levels → LookupKey → Status × Option Bytes × GetStats
  get cache levels k =
      get_loop cache (lookup_user_key k) (lookup_internal_key k)
        (candidates levels (lookup_user_key k) (lookup_internal_key k)) none no_stats

-- `f->allowed_seeks--`; the number is signed in the source, and only its test against 0 is read.
pub charge_file : FileMetaData → FileMetaData
charge_file f = record f { allowed_seeks = f.allowed_seeks - 1 }

pub charge_number : ℕ → List FileMetaData → List FileMetaData
charge_number number [] = []
charge_number number (f ∷ files) =
    (if f.number == number then charge_file f else f) ∷ charge_number number files

pub charge_level : ℕ → ℕ → Levels → Levels
charge_level level number [] = []
charge_level zero number (files ∷ levels) = charge_number number files ∷ levels
charge_level (suc level) number (files ∷ levels) = files ∷ charge_level level number levels

-- The file as it stands in the version; the statistics refer to it.
pub current_file : FileMetaData → List FileMetaData → FileMetaData
current_file f [] = f
current_file f (g ∷ files) = if g.number == f.number then g else current_file f files

-- The Boolean is what the source returns.
pub update_stats : Version → GetStats → Bool × Version
update_stats v stats = elim stats.seek_file [
  | none ↦ (false, v)
  | some (level, f) ↦
      (let charged = record v { levels = charge_level level f.number v.levels } in
        let f' = charge_file (current_file f (level_files v.levels level)) in
        elim v.file_to_compact [
          | some g ↦ (false, charged)
          | none ↦
              if f'.allowed_seeks == 0
              then (true, record charged { file_to_compact = some (level, f') })
              else (false, charged)
        ])
]

-- The callback remembers the first file and stops at the second.
pub sample_stats : List (ℕ × FileMetaData) → Option GetStats
sample_stats [] = none
sample_stats (file ∷ []) = none
sample_stats (file ∷ other ∷ files) = some (record { seek_file = some file })

pub record_read_sample : Comparator → Version → Bytes → Bool × Version
record_read_sample user v internal_key = elim (parse_internal_key internal_key) [
  | none ↦ (false, v)
  | some ikey ↦ elim (sample_stats (candidates user v.levels ikey.user_key internal_key)) [
    | none ↦ (false, v)
    | some stats ↦ update_stats v stats
  ]
]
