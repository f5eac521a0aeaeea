-- ===== src/Heap/Dispatch.antt =====
-- `flashbackDecodeHeapRecord` of internal/service/flashback_walparse.go: one WAL record.
use db_flashback.Base.{
  ℕ, ◌+◌, bit_and, not, ◌&&◌, Option, none, some, List, [], ◌∷◌, ltb, ◌==◌, if◌then◌else◌, length,
  drop,
}
use db_flashback.Bytes.{Bytes, byte, u32}
use db_flashback.Change.{Change}
use db_flashback.Dict.{Relation, Dictionary, toast_owner}
use db_flashback.Fpw.{Codecs}
use db_flashback.Heap.Apply.{apply_catalog_heap}
use db_flashback.Heap.Decode.{heap_op, Step, hand_out, user_heap}
use db_flashback.Heap.Ingest.{ingest_toast_record}
use db_flashback.Heap.Stats.{note_rels}
use db_flashback.Heap.World.{
  Catalog, World, catalog_decoder, truncated_rel, cache_wanted_fpw, pick_block,
}
use db_flashback.Heap.{decode_heap_truncate}
use db_flashback.Reader.{Decoder, is_commit, is_abort}
use db_flashback.Record.{◌>>=◌, BlockData, Body, split_xlog_body}
use db_flashback.Toast.{ToastCache}
use db_flashback.Tuple.{Printer}

-- The id of the top transaction, where the record names one.
abbrev pub top_or : ℕ → ℕ → ℕ
top_or top xid = if top == 0 then xid else top

abbrev pub one_change : Change → List Change
one_change c = c ∷ []

-- The main data of a truncation: the whole body where it cannot be split or has none.
abbrev pub truncate_main_data : Bytes → Option Body → Bytes
truncate_main_data bytes none = bytes
truncate_main_data bytes (some body) = if length body.main == 0 then bytes else body.main

abbrev pub top_of : Option Body → ℕ
top_of none = 0
top_of (some body) = body.top

module _ {K : Type 0} (pr : Printer) (codecs : Codecs) (cat : Catalog K) (dict : Dictionary)
    (dboid : ℕ) where
  -- Commits and aborts reach the catalog.
  unfoldable pub decode_xact : World K → ℕ → ℕ → World K × List Change
  decode_xact w xid info = elim w.catalog [
    | none ↦ (w, [])
    | some k ↦
        let op = bit_and info 0x70 in
        if is_commit op
        then (record w { catalog = some (cat.flush_xid k xid).0 }, (cat.flush_xid k xid).1)
        else if is_abort op
        then (record w { catalog = some (cat.discard_xid k xid) }, [])
        else (w, [])
  ]

  abbrev pub count_truncate : World K → World K
  count_truncate w = record w {
    stats = record w.stats {
      truncate_seen = w.stats.truncate_seen + 1;
      matched = w.stats.matched + 1;
    };
  }

  -- A truncation.
  unfoldable pub decode_truncate : World K → ℕ → Bytes → World K × List Change
  unfolding split_xlog_body decode_heap_truncate truncated_rel
  decode_truncate w xid bytes =
      let body = split_xlog_body bytes in
      hand_out (count_truncate w) (
        decode_heap_truncate (truncated_rel cat dict w.catalog) one_change
          (top_or (top_of body) xid) dboid (truncate_main_data bytes body))

  -- The chunks of all blocks whose table is the side table of a wanted one.
  unfoldable pub ingest_blocks :
      Option ToastCache → ℕ → ℕ → List BlockData → Bytes → Option (Option ToastCache)
  unfolding ingest_toast_record toast_owner
  ingest_blocks toast rmid info [] main = some toast
  ingest_blocks toast rmid info (b ∷ blocks) main = elim (toast_owner dict b.rel_node) [
    | none ↦ ingest_blocks toast rmid info blocks main
    | some owner ↦ do
      toast ← ingest_toast_record pr codecs toast owner rmid (heap_op info) info b main
      ingest_blocks toast rmid info blocks main
  ]

  abbrev pub match_user : World K → ℕ → ℕ → ℕ → Relation → BlockData → Bytes → Step K
  match_user w xid rmid info rel blk main =
      user_heap pr codecs (record w { stats = record w.stats { matched = w.stats.matched + 1 } })
        xid rmid info rel blk main

  abbrev pub match_catalog :
      Option K → Option Relation → World K → ℕ → ℕ → ℕ → Relation → BlockData → Bytes → Step K
  match_catalog none r w xid rmid info rel blk main = match_user w xid rmid info rel blk main
  match_catalog (some k) none w xid rmid info rel blk main = match_user w xid rmid info rel blk main
  match_catalog (some k) (some r) w xid rmid info rel blk main = do
    w ← apply_catalog_heap cat pr codecs w k xid rmid info rel blk main
    some (w, [])

  -- The block that names a known table: its row belongs to the catalog or to the user.
  unfoldable pub decode_block : World K → ℕ → ℕ → ℕ → Option (Relation × BlockData) → Bytes → Step K
  unfolding user_heap apply_catalog_heap
  decode_block w xid rmid info none main = some (w, [])
  decode_block w xid rmid info (some (rel, blk)) main =
      match_catalog w.catalog (catalog_decoder cat dict w.catalog blk.rel_node) w xid rmid info rel
        blk main

  abbrev pub count_heap : World K → List BlockData → World K
  count_heap w blocks = record w {
    stats = note_rels (record w.stats { heap = w.stats.heap + 1 }) blocks;
  }

  -- A record whose body was split.
  unfoldable pub decode_body : World K → ℕ → ℕ → ℕ → Body → Step K
  unfolding ingest_blocks decode_block cache_wanted_fpw pick_block note_rels
  decode_body w xid rmid info body =
      let w1 = if rmid == 0 then w else count_heap w body.blocks in
      let w2 = cache_wanted_fpw cat dict codecs body.blocks w1 in
      let step : Step K = do
        toast ← ingest_blocks w2.toast rmid info body.blocks body.main
        decode_block (record w2 { toast = toast }) (top_or body.top xid) rmid info
            (pick_block cat dict dboid w2.catalog body.blocks) body.main
      in if rmid == 0 then some (w2, []) else step

  abbrev pub count_split_fail : World K → ℕ → World K
  count_split_fail w rmid =
      if rmid == 0
      then w
      else record w { stats = record w.stats { split_fail = w.stats.split_fail + 1 } }

  -- `flashbackDecodeHeapRecord`
  unfoldable pub decode_heap_record : World K → Bytes → Step K
  unfolding decode_xact decode_truncate decode_body split_xlog_body
  decode_heap_record w rec =
      let xid = u32 rec 4 in
      let info = byte rec 16 in
      let rmid = byte rec 17 in
      let split : Step K = elim (split_xlog_body (drop 24 rec)) [
        | none ↦ some (count_split_fail w rmid, [])
        | some body ↦ decode_body w xid rmid info body
      ] in
      if ltb (length rec) 24
      then some (w, [])
      else if rmid == 1
      then some (decode_xact w xid info)
      else if not (rmid == 10) && (not (rmid == 9) && not (rmid == 0))
      then some (w, [])
      else if (rmid == 10) && (heap_op info == 0x30)
      then some (decode_truncate w xid (drop 24 rec))
      else split

  -- What a step leaves: a decoder that has panicked stays so.
  abbrev pub after : Step K → Option (World K) × List Change
  after none = (none, [])
  after (some (w, out)) = (some w, out)

  abbrev flush_catalog_of : World K → ℕ → Option K → Option (World K) × List Change
  flush_catalog_of w xid none = (some w, [])
  flush_catalog_of w xid (some k) =
      (some (record w { catalog = some (cat.flush_xid k xid).0 }), (cat.flush_xid k xid).1)

  abbrev discard_catalog_of : World K → ℕ → Option K → World K
  discard_catalog_of w xid none = w
  discard_catalog_of w xid (some k) = record w { catalog = some (cat.discard_xid k xid) }

  -- What the reader calls.
  abbrev pub record_decoder : Decoder (Option (World K))
  record_decoder = record {
    decode = λ s rec. elim s [ none ↦ (none, []) | some w ↦ after (decode_heap_record w rec) ];
    flush_xid = λ s xid. elim s [ none ↦ (none, []) | some w ↦ flush_catalog_of w xid w.catalog ];
    discard_xid =
        λ s xid. elim s [ none ↦ none | some w ↦ some (discard_catalog_of w xid w.catalog) ];
  }
