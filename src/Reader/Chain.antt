-- ===== src/Reader/Chain.antt =====
-- Records laid out on WAL pages, read back whole.
pub mod Walk
pub mod Pages
use db_flashback.Base.{
  ℕ, ◌-◌, ◌*◌, ◌≤◌, ◌<◌, ◌≡◌, ◌≢◌, ◌⊎◌, true, false, not, List, [], ◌∷◌, ◌++◌, ◌==◌, length,
  replicate, All,
}
use db_flashback.Bytes.{Bytes, u16, u32, has}
use db_flashback.Change.{Change}
use db_flashback.Reader.Framing.{page_body}
use db_flashback.Reader.{Decoder, Core, max_align, is_xlog_switch, looks_like_wal_magic, emit_take}

-- A record of the stream: its length word is its length, of 24 bytes to a megabyte, and it is no
-- switch to another segment.
pub record IsRecord (rec : Bytes) : Type 0 where
  pub at_least : 24 ≤ length rec
  pub at_most : length rec ≤ 1024 * 1024
  pub length_word : u32 rec 0 ≡ length rec
  pub no_switch : is_xlog_switch rec ≡ false

-- The zeros up to the next multiple of eight.
abbrev pub padding : ℕ → Bytes
padding n = replicate (max_align n - n) 0

-- Records one after the other, each padded.
abbrev pub lay : List Bytes → Bytes → Bytes
lay [] tail = tail
lay (rec ∷ recs) tail = rec ++ (padding (length rec) ++ lay recs tail)

-- The end of a page: nothing more, or the front `seen` of a record that goes on with `rest`. Its
-- header of 24 bytes is on the page.
pub data Tail (seen rest : Bytes) : Bytes → Type 0 where
  ended :
      {tail : Bytes}
      → seen ≡ []
      → rest ≡ []
      → (length tail < 24) ⊎ (u32 tail 0 < 24)
      → Tail seen rest tail
  begun :
      {tail : Bytes}
      → tail ≡ seen
      → IsRecord (seen ++ rest)
      → 24 ≤ length seen
      → rest ≢ []
      → Tail seen rest tail

-- A page with a known magic, whose header says that `rem` bytes of a record go on.
pub record IsPage (page : Bytes) (rem : ℕ) (body : Bytes) : Type 0 where
  pub known_magic : looks_like_wal_magic (u16 page 0) ≡ true
  pub goes_on : has (u16 page 2) 0x0001 ≡ not (rem == 0)
  pub rem_len : rem ≢ 0 → u32 page 16 ≡ rem
  pub body_is : page_body page ≡ body

-- Pages that hold records, from the point where `seen` of a record has been read and `rest` has
-- not (both empty: no record is open), and the records that the pages complete.
pub data Chain : Bytes → Bytes → List Bytes → List Bytes → Type 0 where
  over :
      {seen rest : Bytes} {pages recs : List Bytes}
      → pages ≡ []
      → recs ≡ []
      → Chain seen rest pages recs
  fresh :
      {seen rest seen' rest' page : Bytes} {pages all recs' : List Bytes} (recs : List Bytes)
      (tail : Bytes)
      → seen ≡ []
      → rest ≡ []
      → IsPage page 0 (lay recs tail)
      → All IsRecord recs
      → Tail seen' rest' tail
      → Chain seen' rest' pages recs'
      → all ≡ recs ++ recs'
      → Chain seen rest (page ∷ pages) all
  closes :
      {seen rest seen' rest' page : Bytes} {pages all recs' : List Bytes} (recs : List Bytes)
      (tail : Bytes)
      → IsRecord (seen ++ rest)
      → rest ≢ []
      → IsPage page (length rest) (rest ++ (padding (length rest) ++ lay recs tail))
      → All IsRecord recs
      → Tail seen' rest' tail
      → Chain seen' rest' pages recs'
      → all ≡ (seen ++ rest) ∷ (recs ++ recs')
      → Chain seen rest (page ∷ pages) all
  middle :
      {seen rest : Bytes} {page chunk rest' : Bytes} {pages recs : List Bytes}
      → rest ≡ chunk ++ rest'
      → chunk ≢ []
      → rest' ≢ []
      → IsPage page (length rest) chunk
      → Chain (seen ++ chunk) rest' pages recs
      → Chain seen rest (page ∷ pages) recs

module _ {S : Type 0} (dec : Decoder S) where
  -- The records handed to `emit` one after the other.
  unfoldable pub emit_all : Core S → List Bytes → Core S × List Change
  emit_all p [] = (p, [])
  emit_all p (rec ∷ recs) =
      let (q, out) = emit_take dec p rec in let (s, more) = emit_all q recs in (s, out ++ more)
