-- ===== src/Segments.antt =====
-- The choice of WAL segments: flashbackSelectWAL, flashbackSelectWALPrecise and flashbackSelectPDUWAL
-- of internal/service/flashback_wal.go. The sizes of files are not negative and their sum stays
-- below 2 ^ 63. `sort.Slice` is an insertion sort on names; names are not repeated in a list.
pub mod Budget
pub mod Newest
mod Tests
use db_flashback.Base.{
  ℕ, ◌+◌, max, Bool, true, false, not, ◌&&◌, ◌||◌, List, [], ◌∷◌, ◌++◌, ltb, ◌==◌, if◌then◌else◌,
}
use db_flashback.Change.{Text}
use db_flashback.Sql.Words.{is_blank, same_text, trim_space, text_before}
use db_flashback.Time.{Time, is_zero}

-- The field `Source`.
pub data Source : Type 0 where
  live archive cloud : Source

-- `flashbackWALFile`
pub record WalFile : Type 0 where
  pub name : Text
  pub size : ℕ
  pub modification : Time
  pub source : Source

abbrev pub insert_file : WalFile → List WalFile → List WalFile
insert_file f [] = f ∷ []
insert_file f (g ∷ files) =
    let rest = insert_file f files in
    if text_before g.name f.name then g ∷ rest else f ∷ (g ∷ files)

unfoldable pub sort_files : List WalFile → List WalFile
sort_files [] = []
sort_files (f ∷ files) = insert_file f (sort_files files)

abbrev is_live_file : WalFile → Bool
is_live_file f = elim f.source [ live ↦ true | _ ↦ false ]

abbrev is_archive_file : WalFile → Bool
is_archive_file f = elim f.source [ archive ↦ true | _ ↦ false ]

-- The last of the names, from `name`.
abbrev last_name : (WalFile → Bool) → Text → List WalFile → Text
last_name p name [] = name
last_name p name (f ∷ files) =
    last_name p (if p f && (is_blank name || text_before name f.name) then f.name else name) files

abbrev any_file : WalFile → Bool
any_file f = true

-- `flashbackInferCurrentWALName`
unfoldable pub infer_current : List WalFile → Text
infer_current files =
    let name = last_name is_live_file [] files in
    if is_blank name then last_name any_file [] files else name

abbrev after_current : Text → WalFile → Bool
after_current current f = not (is_blank current) && text_before current f.name

abbrev past_end : Time → WalFile → Bool
past_end to f = not (is_zero to) && (is_archive_file f && ltb to f.modification)

-- The candidates.
abbrev candidates : Text → Time → List WalFile → List WalFile
candidates current to [] = []
candidates current to (f ∷ files) =
    let rest = candidates current to files in
    if after_current current f || past_end to f then rest else f ∷ rest

-- A segment that was written before the window.
abbrev is_early : Text → Time → WalFile → Bool
is_early current from f =
    not (not (is_blank current) && (same_text f.name current && is_live_file f))
    && (not (is_zero f.modification) && ltb f.modification from)

-- `cands[prev:]` with the last early segment: `rest` is what starts at the last one so far.
abbrev from_last_early : Text → Time → List WalFile → List WalFile → List WalFile
from_last_early current from rest [] = rest
from_last_early current from rest (f ∷ files) =
    from_last_early current from (if is_early current from f then f ∷ files else rest) files

abbrev started : Text → Time → List WalFile → List WalFile
started current from cands =
    if is_zero from then cands else from_last_early current from cands cands

-- The loop from the newest segment back: the bytes and the segments kept, and `truncated`.
pub record Kept : Type 0 where
  pub keep : ℕ
  pub files : List WalFile
  pub truncated : Bool

abbrev pub keep_file : ℕ → WalFile → Kept → Kept
keep_file max f k =
    if k.truncated
    then k
    else if ltb max (k.keep + f.size) && ltb 0 k.keep
    then record k { truncated = true }
    else record { keep = k.keep + f.size; files = f ∷ k.files; truncated = false }

unfoldable pub keep_newest : ℕ → List WalFile → Kept
keep_newest max [] = record { keep = 0; files = []; truncated = false }
keep_newest max (f ∷ files) = keep_file max f (keep_newest max files)

abbrev pub total_size : List WalFile → ℕ
total_size [] = 0
total_size (f ∷ files) = f.size + total_size files

-- `picked`, `total` and `truncated`.
pub record Picked : Type 0 where
  pub picked : List WalFile
  pub total : ℕ
  pub truncated : Bool

-- What is common to both selections: the limit, and the sum.
unfoldable pub pick_within : ℕ → List WalFile → Picked
unfolding keep_newest
pick_within max cands =
    let k = keep_newest max cands in
    if max == 0
    then record { picked = cands; total = total_size cands; truncated = false }
    else record { picked = k.files; total = total_size k.files; truncated = k.truncated }

abbrev or_inferred : Text → List WalFile → Text
or_inferred current files = if is_blank (trim_space current) then infer_current files else current

-- `flashbackSelectWAL`
unfoldable pub select_wal : List WalFile → Time → Time → ℕ → Text → Picked
unfolding sort_files infer_current pick_within trim_space
select_wal files from to max current =
    let sorted = sort_files files in
    let name = or_inferred current sorted in
    pick_within max (started name from (candidates name to sorted))

-- `flashbackSelectPDUWAL`
unfoldable pub select_pdu_wal : List WalFile → ℕ → Picked
unfolding sort_files pick_within
select_pdu_wal files max = pick_within max (sort_files files)

abbrev pub has_name : Text → List WalFile → Bool
has_name name [] = false
has_name name (f ∷ files) = same_text f.name name || has_name name files

-- The loop of the checkpoint: `extra` and `found`.
abbrev pub checkpoint_loop : Text → Text → Text → Bool → List WalFile → List WalFile × Bool
checkpoint_loop current checkpoint first found [] = ([], found)
checkpoint_loop current checkpoint first found (f ∷ files) =
    let found' = found || same_text f.name checkpoint in
    let rest = checkpoint_loop current checkpoint first found' files in
    if after_current current f
    then ([], found)
    else if not (text_before f.name first)
    then ([], found')
    else if found'
    then (f ∷ rest.0, rest.1)
    else rest

abbrev pub no_files : List WalFile → Bool
no_files [] = true
no_files (f ∷ files) = false

abbrev first_name : List WalFile → Text
first_name [] = []
first_name (f ∷ files) = f.name

abbrev pub add_extra : ℕ → Picked → List WalFile × Bool → Picked × Bool
add_extra max p (extra, found) =
    if not found
    then (p, false)
    else if not (max == 0) && ltb max (p.total + total_size extra)
    then (record p { truncated = true }, false)
    else (record p { picked = extra ++ p.picked; total = p.total + total_size extra }, true)

abbrev pub with_checkpoint : ℕ → Picked → Text → List WalFile × Bool → Picked × Bool
with_checkpoint max p name extra =
    if is_blank name || no_files p.picked
    then (p, false)
    else if has_name name p.picked
    then (p, true)
    else add_extra max p extra

-- `flashbackSelectWALPrecise`: the selection and `ok`.
unfoldable pub select_wal_precise : List WalFile → Time → Time → ℕ → Text → Text → Picked × Bool
unfolding select_wal sort_files trim_space
select_wal_precise files from to max current checkpoint =
    let p = select_wal files from to max current in
    let name = trim_space checkpoint in
    with_checkpoint max p name
      (checkpoint_loop current name (first_name p.picked) false (sort_files files))
