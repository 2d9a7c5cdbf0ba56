-- ===== src/VersionEdit/Lists.antt =====
-- The lists of an edit, and the fields that may be absent.
use leveldb_windows.Base.{
  ℕ, zero, suc, ◌≡◌, refl, arith, Bool, true, false, List, [], ◌∷◌, ◌++◌, append_assoc, append-nil,
  Bytes, All, ◌^◌,
}
use leveldb_windows.VersionEdit.{
  VersionEdit, FileMetaData, new_file, insert_pair, pair_lt, set_compact_pointer, add_file,
  decode_loop, Outcome, decoded,
}
use leveldb_windows.Coding.{get_varint32}
use leveldb_windows.VersionEdit.Encode.{
  pointer_chunk, deleted_chunk, file_chunk, chunks, optional, KeyFits, DeletedFits, FileFits,
}
use leveldb_windows.VersionEdit.Fields.{
  Decodes, Decodes-compact_pointer, Decodes-deleted_file, Decodes-new_file,
}

-- A list of pairs in increasing order, as a `std::set` holds it.
abbrev pub AllAbove : ℕ × ℕ → List (ℕ × ℕ) → Type 0
AllAbove p [] = Unit
AllAbove p (q ∷ s) = (pair_lt p q ≡ true) × AllAbove p s

abbrev pub IsIncreasing : List (ℕ × ℕ) → Type 0
IsIncreasing [] = Unit
IsIncreasing (p ∷ s) = AllAbove p s × IsIncreasing s

-- A file that has not been read from yet, as the edit makes it.
abbrev pub IsFresh : ℕ × FileMetaData → Type 0
IsFresh (level, f) = (f.refs ≡ 0) × (f.allowed_seeks ≡ 2 ^ 30)

-- A chunk that may be absent.
pub Decodes-optional {ℓ} :
    {A : Type ℓ} (has : Bool) (v default : A) (chunk : A → Bytes) (edit : A → Bool → VersionEdit)
    (rest : Bytes) (r : Outcome)
    → (has ≡ false → v ≡ default)
    → (Decodes rest (edit v true) r → Decodes (chunk v ++ rest) (edit default false) r)
    → Decodes rest (edit v has) r
    → Decodes (optional has (chunk v) ++ rest) (edit default false) r
Decodes-optional true v default chunk edit rest r same step later = step later
Decodes-optional false v default chunk edit rest r same step later = rw (same refl) at later

pub Decodes-compact_pointers :
    (l : List (ℕ × Bytes)) (rest : Bytes) (e : VersionEdit) (r : Outcome)
    → All KeyFits l
    → Decodes rest (record e { compact_pointers = e.compact_pointers ++ l }) r
    → Decodes (chunks pointer_chunk l ++ rest) e r
Decodes-compact_pointers [] rest e r h later = rw append-nil at later
Decodes-compact_pointers ((level, key) ∷ l) rest e r h later = rw append_assoc (
    Decodes-compact_pointer (chunks pointer_chunk l ++ rest) e r level key h.0 (
      Decodes-compact_pointers l rest (set_compact_pointer e level key) r h.1
        (rw append_assoc later)))

pub Decodes-new_files :
    (l : List (ℕ × FileMetaData)) (rest : Bytes) (e : VersionEdit) (r : Outcome)
    → All FileFits l
    → All IsFresh l
    → Decodes rest (record e { new_files = e.new_files ++ l }) r
    → Decodes (chunks file_chunk l ++ rest) e r
Decodes-new_files [] rest e r h fresh later = rw append-nil at later
Decodes-new_files ((level, f) ∷ l) rest e r h fresh later =
    let same : new_file f.number f.file_size f.smallest f.largest ≡ f = ground arith in
    rw append_assoc (
      Decodes-new_file (chunks file_chunk l ++ rest) e r level f h.0 (
        rw same
          (Decodes-new_files l rest (add_file e level f) r h.1 fresh.1 (rw append_assoc later))))

AllAbove-at : (q p : ℕ × ℕ) (s t : List (ℕ × ℕ)) → AllAbove q (s ++ (p ∷ t)) → pair_lt q p ≡ true
AllAbove-at q p [] t h = h.0
AllAbove-at q p (o ∷ s) t h = AllAbove-at q p s t h.1

pair_lt_asym : (q p : ℕ × ℕ) → pair_lt q p ≡ true → pair_lt p q ≡ false
pair_lt_asym (a, b) (c, d) h = ground arith

-- A pair above all members is inserted at the end.
insert_pair-last :
    (s : List (ℕ × ℕ)) (p : ℕ × ℕ) (t : List (ℕ × ℕ))
    → IsIncreasing (s ++ (p ∷ t))
    → insert_pair p s ≡ s ++ (p ∷ [])
unfolding insert_pair
insert_pair-last [] p t h = refl
insert_pair-last (q ∷ s) p t h =
    let above : pair_lt q p ≡ true = AllAbove-at q p s t h.0 in
    rw (pair_lt_asym q p above, above, insert_pair-last s p t h.1)

pub Decodes-deleted_files :
    (l : List (ℕ × ℕ)) (rest : Bytes) (e : VersionEdit) (r : Outcome)
    → All DeletedFits l
    → IsIncreasing (e.deleted_files ++ l)
    → Decodes rest (record e { deleted_files = e.deleted_files ++ l }) r
    → Decodes (chunks deleted_chunk l ++ rest) e r
Decodes-deleted_files [] rest e r h order later = rw append-nil at later
Decodes-deleted_files ((level, number) ∷ l) rest e r h order later =
    let last : insert_pair (level, number) e.deleted_files
        ≡ e.deleted_files ++ ((level, number) ∷ []) =
      insert_pair-last e.deleted_files (level, number) l order in
    rw append_assoc (
      Decodes-deleted_file (chunks deleted_chunk l ++ rest) e r level number h.0 (
        rw last (
          Decodes-deleted_files l rest
            (record e { deleted_files = e.deleted_files ++ ((level, number) ∷ []) }) r h.1
            (rw append_assoc order) (rw append_assoc later))))

pub Decodes-nil : (e : VersionEdit) → Decodes [] e (decoded e)
unfolding decode_loop get_varint32
Decodes-nil e zero h = absurd (omega arith)
Decodes-nil e (suc fuel) h = refl
