-- ===== src/Version/Inputs/Closed.antt =====
-- LevelDB/db/version_set.cc, Version::GetOverlappingInputs: its passes and its result.
use leveldb_windows.Base.{
  ℕ, zero, suc, ◌+◌, ◌≤◌, ◌<◌, ◌≡◌, refl, sym, ap, ◌∙◌, arith, Bool, true, false, ◌&&◌, ◌||◌,
  Option, none, some, List, [], ◌∷◌, ◌++◌, append_assoc, append-nil, Bytes, length, All,
  if◌then◌else◌, ◌==◌,
}
use leveldb_windows.Comparator.{Comparator, IsOrder}
use leveldb_windows.VersionEdit.{FileMetaData}
use leveldb_windows.Version.Inputs.{
  Pass, finished, widened, file_start, file_limit, is_below, is_above, pass_over, passes,
  overlapping_inputs,
}
use Prim.Native.Nat.{eq}

branch :
    (P : Pass → Type 0) (b : Bool) (x y : Pass)
    → (b ≡ true → P x)
    → (b ≡ false → P y)
    → P (if b then x else y)
branch P true x y h k = h refl
branch P false x y h k = k refl

and_parts : (a b : Bool) → (a && b) ≡ true → (a ≡ true) × (b ≡ true)
and_parts true b h = (refl, h)
and_parts false b h = cc

abbrev to_nat : Bool → ℕ
to_nat true = 1
to_nat false = 0

module _ (user : Comparator) where
  -- The files that meet the range.
  abbrev pub meeting : Option Bytes → Option Bytes → List FileMetaData → List FileMetaData
  meeting begin end [] = []
  meeting begin end (f ∷ files) =
      let rest = meeting begin end files in
      if is_below user begin (file_limit f) || is_above user end (file_start f)
      then rest
      else f ∷ rest

  -- The file does not reach beyond the range.
  abbrev pub Inside : Option Bytes → Option Bytes → FileMetaData → Type 0
  Inside begin end f =
      (is_below user begin (file_start f) ≡ false) × (is_above user end (file_limit f) ≡ false)

  -- The bounds of files that lie outside the range.
  spread : Option Bytes → Option Bytes → List FileMetaData → ℕ
  spread begin end [] = 0
  spread begin end (f ∷ files) =
      to_nat (is_below user begin (file_start f))
      + to_nat (is_above user end (file_limit f))
      + spread begin end files

  spread-le :
      (begin end : Option Bytes) (files : List FileMetaData)
      → spread begin end files ≤ length files + length files
  unfolding spread
  spread-le begin end [] = omega arith
  spread-le begin end (f ∷ files) = ground (arith, spread-le begin end files)

  -- The first range contains the second.
  abbrev pub Wider : Option Bytes → Option Bytes → Option Bytes → Option Bytes → Type 0
  Wider begin' end' begin end =
      ((key : Bytes) → is_below user begin' key ≡ true → is_below user begin key ≡ true)
      × ((key : Bytes) → is_above user end' key ≡ true → is_above user end key ≡ true)

  abbrev Passed :
      Bool → Option Bytes → Option Bytes → List FileMetaData → List FileMetaData → Pass → Type 0
  Passed level_zero begin end inputs files (finished found) =
      (found ≡ inputs ++ meeting begin end files)
      × (level_zero ≡ true → All (Inside begin end) (meeting begin end files))
  Passed level_zero begin end inputs files (widened begin' end') =
      (level_zero ≡ true)
      × Wider begin' end' begin end
      × (spread begin' end' files < spread begin end files)

module _ (user : Comparator) (order : IsOrder user) where
  below_trans :
      (begin : Option Bytes) (start key : Bytes)
      → is_below user begin start ≡ true
      → is_below user (some start) key ≡ true
      → is_below user begin key ≡ true
  below_trans none start key p q = cc
  below_trans (some b) start key p q = ground (arith, order.lt_trans key start b)

  above_trans :
      (end : Option Bytes) (limit key : Bytes)
      → is_above user end limit ≡ true
      → is_above user (some limit) key ≡ true
      → is_above user end key ≡ true
  above_trans none limit key p q = cc
  above_trans (some e) limit key p q = ground (
    arith,
    order.lt_trans e limit key,
    order.flipped e limit,
    order.flipped limit key,
    order.flipped e key,
  )

  itself : (key : Bytes) → user.compare_keys key key ≡ eq
  itself key = ground (arith, order.flipped key key)

  spread_mono :
      (begin' end' begin end : Option Bytes) (files : List FileMetaData)
      → Wider user begin' end' begin end
      → spread user begin' end' files ≤ spread user begin end files
  unfolding spread
  spread_mono begin' end' begin end [] w = omega arith
  spread_mono begin' end' begin end (f ∷ files) w =
      ground
        (arith, w.0 (file_start f), w.1 (file_limit f), spread_mono begin' end' begin end files w)

  start-Wider :
      (begin end : Option Bytes) (start : Bytes)
      → is_below user begin start ≡ true
      → Wider user (some start) end begin end
  start-Wider begin end start h = (λ key q. below_trans begin start key h q, λ key q. q)

  limit-Wider :
      (begin end : Option Bytes) (limit : Bytes)
      → is_above user end limit ≡ true
      → Wider user begin (some limit) begin end
  limit-Wider begin end limit h = (λ key q. q, λ key q. above_trans end limit key h q)

  skipped-Passed :
      (r : Pass) (level_zero : Bool) (begin end : Option Bytes) (f : FileMetaData)
      (inputs files : List FileMetaData)
      → (is_below user begin (file_limit f) || is_above user end (file_start f)) ≡ true
      → Passed user level_zero begin end inputs files r
      → Passed user level_zero begin end inputs (f ∷ files) r
  unfolding spread
  skipped-Passed (finished found) level_zero begin end f inputs files out p = rw out p
  skipped-Passed (widened begin' end') level_zero begin end f inputs files out p =
      (p.0, p.1, ground (arith, p.2, p.1.0 (file_start f), p.1.1 (file_limit f)))

  pushed-Passed :
      (r : Pass) (level_zero : Bool) (begin end : Option Bytes) (f : FileMetaData)
      (inputs files : List FileMetaData)
      → (is_below user begin (file_limit f) || is_above user end (file_start f)) ≡ false
      → (level_zero ≡ true → Inside user begin end f)
      → Passed user level_zero begin end (inputs ++ (f ∷ [])) files r
      → Passed user level_zero begin end inputs (f ∷ files) r
  unfolding spread
  pushed-Passed (finished found) level_zero begin end f inputs files out inside p =
      rw out
        (p.0 ∙ append_assoc inputs (f ∷ []) (meeting user begin end files), λ z. (inside z, p.1 z))
  pushed-Passed (widened begin' end') level_zero begin end f inputs files out inside p =
      (p.0, p.1, ground (arith, p.2, p.1.0 (file_start f), p.1.1 (file_limit f)))

  start_widens :
      (begin end : Option Bytes) (f : FileMetaData) (inputs files : List FileMetaData)
      → is_below user begin (file_start f) ≡ true
      → Passed user true begin end inputs (f ∷ files) (widened (some (file_start f)) end)
  unfolding spread
  start_widens begin end f inputs files below =
      let w = start-Wider begin end (file_start f) below in
      (
        refl,
        w,
        ground (
          arith,
          below,
          itself (file_start f),
          spread_mono (some (file_start f)) end begin end files w,
        ),
      )

  limit_widens :
      (begin end : Option Bytes) (f : FileMetaData) (inputs files : List FileMetaData)
      → is_above user end (file_limit f) ≡ true
      → Passed user true begin end inputs (f ∷ files) (widened begin (some (file_limit f)))
  unfolding spread
  limit_widens begin end f inputs files above =
      let w = limit-Wider begin end (file_limit f) above in
      (
        refl,
        w,
        ground (
          arith,
          above,
          itself (file_limit f),
          spread_mono begin (some (file_limit f)) begin end files w,
        ),
      )

  pass_over-Passed :
      (level_zero : Bool) (begin end : Option Bytes) (inputs files : List FileMetaData)
      → Passed user level_zero begin end inputs files
          (pass_over user level_zero begin end inputs files)
  unfolding pass_over
  pass_over-Passed level_zero begin end inputs [] = (sym (append-nil inputs), λ z. tt)
  pass_over-Passed level_zero begin end inputs (f ∷ files) =
      let P = Passed user level_zero begin end inputs (f ∷ files) in
      let skipped = pass_over user level_zero begin end inputs files in
      let rest = pass_over-Passed level_zero begin end inputs files in
      let pushed = pass_over user level_zero begin end (inputs ++ (f ∷ [])) files in
      branch P (is_below user begin (file_limit f)) skipped _
        (λ before. skipped-Passed skipped level_zero begin end f inputs files (rw before) rest)
        λ reaches.
          branch P (is_above user end (file_start f)) skipped _
            (λ behind.
              skipped-Passed skipped level_zero begin end f inputs files (rw (reaches, behind))
                rest)
            λ starts.
              branch P (level_zero && is_below user begin (file_start f)) _ _
                (λ both.
                  let (zeroth, below) = and_parts level_zero _ both in
                  rw zeroth (start_widens begin end f inputs files below))
                λ no_start.
                  branch P (level_zero && is_above user end (file_limit f)) _ pushed
                    (λ both.
                      let (zeroth, above) = and_parts level_zero _ both in
                      rw zeroth (limit_widens begin end f inputs files above))
                    λ no_limit.
                      pushed-Passed pushed level_zero begin end f inputs files
                        (rw (reaches, starts))
                        (λ zeroth. (rw zeroth at no_start, rw zeroth at no_limit))
                        (pass_over-Passed level_zero begin end (inputs ++ (f ∷ [])) files)

  -- What the search answers: the files that meet a range, and at level 0 lie inside it.
  abbrev pub Answers :
      Bool → Option Bytes → Option Bytes → List FileMetaData → Option (List FileMetaData) → Type 0
  Answers level_zero begin end files o =
      (begin' : Option Bytes) × ((end' : Option Bytes) × (Wider user begin' end' begin end
          × (o ≡ some (meeting user begin' end' files))
          × (level_zero ≡ true → All (Inside user begin' end') (meeting user begin' end' files))
          × (level_zero ≡ false → (begin' ≡ begin) × (end' ≡ end))))

  passes-Answers :
      (fuel : ℕ) (level_zero : Bool) (files : List FileMetaData) (begin end : Option Bytes)
      → spread user begin end files < fuel
      → Answers level_zero begin end files (passes user fuel level_zero files begin end)
  unfolding passes
  passes-Answers zero level_zero files begin end h = absurd (omega arith)
  passes-Answers (suc fuel) level_zero files begin end h =
      ends (pass_over user level_zero begin end [] files)
        (pass_over-Passed level_zero begin end [] files)
        (λ begin' end' small. passes-Answers fuel level_zero files begin' end' (omega arith))
    where
      ends :
          (r : Pass)
          → Passed user level_zero begin end [] files r
          → ((begin' end' : Option Bytes)
              → spread user begin' end' files < spread user begin end files
              → Answers level_zero begin' end' files
                  (passes user fuel level_zero files begin' end'))
          → Answers level_zero begin end files (elim r [
            | finished inputs ↦ some inputs
            | widened begin' end' ↦ passes user fuel level_zero files begin' end'
          ])
      ends (finished inputs) p again =
          (begin, (end, ((λ key q. q, λ key q. q), ap some p.0, p.1, λ z. (refl, refl))))
      ends (widened begin' end') p again =
          let (b, (e, (w, found, inside, same))) = again begin' end' p.2 in
          (
            b,
            (
              e,
              (
                (λ key q. p.1.0 key (w.0 key q), λ key q. p.1.1 key (w.1 key q)),
                found,
                inside,
                λ z. absurd (cc (p.0, z)),
              ),
            ),
          )

  pub overlapping_inputs-Answers :
      (level : ℕ) (files : List FileMetaData) (begin end : Option Bytes)
      → Answers (level == 0) begin end files (overlapping_inputs user level files begin end)
  unfolding overlapping_inputs
  overlapping_inputs-Answers level files begin end =
      passes-Answers (suc (length files + length files)) (level == 0) files begin end
        (omega (arith, spread-le user begin end files))

  -- In level 0 the search for the files that meet a range always ends, though it starts again each
  -- time that a file widens the range. It answers, in their order, all files that meet a range which
  -- contains the one asked for, and none of these files reaches beyond that range.
  pub overlapping_inputs_closed :
      (files : List FileMetaData) (begin end : Option Bytes)
      → (begin' : Option Bytes) × ((end' : Option Bytes) × (Wider user begin' end' begin end
            × (overlapping_inputs user 0 files begin end ≡ some (meeting user begin' end' files))
            × All (Inside user begin' end') (meeting user begin' end' files)))
  overlapping_inputs_closed files begin end =
      let (b, (e, (w, found, inside, same))) = overlapping_inputs-Answers 0 files begin end in
      (b, (e, (w, found, inside refl)))

  -- In a level above 0 it answers the files that meet the range asked for.
  pub overlapping_inputs_above :
      (level : ℕ) (files : List FileMetaData) (begin end : Option Bytes)
      → 0 < level
      → overlapping_inputs user level files begin end ≡ some (meeting user begin end files)
  overlapping_inputs_above level files begin end above =
      let (b, (e, (w, found, inside, same))) = overlapping_inputs-Answers level files begin end in
      let kept = same (ground arith) in rw (kept.0, kept.1) at found
