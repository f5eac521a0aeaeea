-- ===== src/Heap/Window.antt =====
-- The record decoder is one that the reader can rely on: the time window of a whole directory.
use db_flashback.Base.{
  ℕ, bit_and, ◌≡◌, refl, ◌≢◌, ◌⊎◌, inl, inr, true, false, Option, none, some, List, [], ltb, ◌==◌,
  ==_iff, Bool-cases, Option-cases, length, All,
}
use db_flashback.Bytes.{Bytes, byte, u32}
use db_flashback.Change.{Change}
use db_flashback.Commit.Window.{InWindow}
use db_flashback.Dict.{Dictionary}
use db_flashback.Fpw.{Codecs}
use db_flashback.Heap.Dispatch.{decode_heap_record, decode_xact, after, record_decoder}
use db_flashback.Heap.Decode.{Step}
use db_flashback.Heap.Holds.{Holds, if-P}
use db_flashback.Time.{Time}
use db_flashback.Heap.World.{Catalog, World}
use db_flashback.Reader.Dir.Window.{walk_dir-InWindow}
use db_flashback.Reader.Dir.{Callback, walk_dir}
use db_flashback.Reader.Window.{IsQuiet}
use db_flashback.Reader.{Reader, is_commit, is_abort}
use db_flashback.Tuple.{Printer}

module _ {K : Type 0} (pr : Printer) (codecs : Codecs) (cat : Catalog K) (dict : Dictionary)
    (dboid : ℕ) where
  decode_xact-quiet :
      (w : World K) (xid info : ℕ)
      → is_commit (bit_and info 0x70) ≡ false
      → (decode_xact pr codecs cat dict dboid w xid info).1 ≡ []
  unfolding decode_xact
  decode_xact-quiet w xid info h = elim (Option-cases w.catalog) [
    | inl e ↦ rw e refl
    | inr (k, e) ↦ elim (Bool-cases (is_abort (bit_and info 0x70))) [
      | inl a ↦ rw e (rw (h, a) refl)
      | inr a ↦ rw e (rw (h, a) refl)
    ]
  ]

  -- A record of the transaction manager that is no commit gives no change, so the decoder keeps
  -- what the reader asks of its decoders.
  decode_heap_record-quiet :
      (w : World K) (rec : Bytes)
      → byte rec 17 ≡ 1
      → is_commit (bit_and (byte rec 16) 0x70) ≡ false
      → Holds
          (λ (r : World K × List Change). r.1 ≡ [])
          (decode_heap_record pr codecs cat dict dboid w rec)
  unfolding decode_heap_record
  decode_heap_record-quiet w rec x h =
      let P = Holds (λ (r : World K × List Change). r.1 ≡ []) in
      let xact : (byte rec 17 == 1) ≡ true = (==_iff _ _).1 x in
      rw xact (if-P P (ltb (length rec) 24) refl (decode_xact-quiet w (u32 rec 4) (byte rec 16) h))

  after-quiet :
      (o : Step K)
      → Holds (λ (r : World K × List Change). r.1 ≡ []) o
      → (after pr codecs cat dict dboid o).1 ≡ []
  after-quiet none h = refl
  after-quiet (some (w, out)) h = h

  pub record_decoder-IsQuiet : IsQuiet (record_decoder pr codecs cat dict dboid)
  record_decoder-IsQuiet = record { quiet = quiet }
    where
      quiet :
          (s : Option (World K)) (rec : Bytes)
          → byte rec 17 ≡ 1
          → is_commit (bit_and (byte rec 16) 0x70) ≡ false
          → ((record_decoder pr codecs cat dict dboid).decode s rec).1 ≡ []
      quiet none rec x h = refl
      quiet (some w) rec x h =
          after-quiet (decode_heap_record pr codecs cat dict dboid w rec)
            (decode_heap_record-quiet w rec x h)

  -- The record decoder fills the reader's interface: with a bound of the time window set, every
  -- change that it gives for a directory of any segments, through the reader and the transaction
  -- buffer, carries a commit time in the window.
  pub walk_dir-record_decoder :
      (from to : Time) (f : Callback) (segments : List (Option (List Bytes)))
      (r : Reader (Option (World K))) (flush_all : Option (World K) → List Change)
      → (from ≢ 0) ⊎ (to ≢ 0)
      → r.core.time_from ≡ from
      → r.core.time_to ≡ to
      → All
          (InWindow from to)
          (walk_dir (record_decoder pr codecs cat dict dboid) f r flush_all segments)
  walk_dir-record_decoder from to f segments r flush_all h e e' =
      walk_dir-InWindow (record_decoder pr codecs cat dict dboid) record_decoder-IsQuiet f from to
        segments r flush_all h e e'
