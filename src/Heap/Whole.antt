-- ===== src/Heap/Whole.antt =====
-- The record decoder as a whole: what each change is, in every branch.
use db_flashback.Base.{
  ℕ, ◌+◌, ◌≡◌, refl, ◌∙◌, subst, ◌≢◌, not, ◌&&◌, Option, none, some, [], ltb, ◌==◌, if◌then◌else◌,
  ==_ne, length, drop,
}
use db_flashback.Bytes.{Bytes, byte, u32}
use db_flashback.Dict.{Relation, Dictionary}
use db_flashback.Fpw.{Codecs}
use db_flashback.Heap.Apply.{apply_catalog_heap}
use db_flashback.Heap.Counted.{note_rels-decoded, cache_wanted_fpw-decoded}
use db_flashback.Heap.Decode.{heap_op}
use db_flashback.Heap.Dispatch.{
  decode_heap_record, decode_body, decode_block, decode_truncate, match_catalog, match_user,
  count_heap, count_truncate, count_split_fail, ingest_blocks, top_or, top_of, one_change,
  truncate_main_data,
}
use db_flashback.Heap.Holds.{Holds, if-P, Holds-bind, Holds-then}
use db_flashback.Heap.Kept.{Keeps, apply_catalog_heap-Keeps}
use db_flashback.Heap.Sound.{IsSound, hand_out-IsSound, quiet-IsSound, user_heap-IsSound}
use db_flashback.Heap.Truncated.{decode_heap_truncate-All}
use db_flashback.Heap.World.{
  Catalog, World, catalog_decoder, truncated_rel, cache_wanted_fpw, pick_block,
}
use db_flashback.Heap.{decode_heap_truncate}
use db_flashback.Record.{BlockData, Body, split_xlog_body}
use db_flashback.Tuple.{Printer}

-- The transaction of a record: the top one where the record names it.
abbrev pub record_xid : Bytes → ℕ
record_xid rec = top_or (top_of (split_xlog_body (drop 24 rec))) (u32 rec 4)

module _ {K : Type 0} (pr : Printer) (codecs : Codecs) (cat : Catalog K) (dict : Dictionary)
    (dboid : ℕ) where
  match_user-IsSound :
      (w : World K) (xid rmid info : ℕ) (rel : Relation) (blk : BlockData) (main : Bytes)
      → Holds
          (IsSound xid w.stats.decoded)
          (match_user pr codecs cat dict dboid w xid rmid info rel blk main)
  match_user-IsSound w xid rmid info rel blk main =
      user_heap-IsSound pr codecs
        (record w { stats = record w.stats { matched = w.stats.matched + 1 } }) xid rmid info rel
        blk main

  match_catalog-IsSound :
      (c : Option K) (r : Option Relation) (w : World K) (xid rmid info : ℕ) (rel : Relation)
      (blk : BlockData) (main : Bytes)
      → Holds
          (IsSound xid w.stats.decoded)
          (match_catalog pr codecs cat dict dboid c r w xid rmid info rel blk main)
  match_catalog-IsSound none r w xid rmid info rel blk main =
      match_user-IsSound w xid rmid info rel blk main
  match_catalog-IsSound (some k) none w xid rmid info rel blk main =
      match_user-IsSound w xid rmid info rel blk main
  match_catalog-IsSound (some k) (some r) w xid rmid info rel blk main =
      Holds-then (Keeps cat w.stats.decoded) (IsSound xid w.stats.decoded)
        (apply_catalog_heap cat pr codecs w k xid rmid info rel blk main) _
        (apply_catalog_heap-Keeps cat pr codecs w k xid rmid info rel blk main)
        (λ w' e. quiet-IsSound w' xid w.stats.decoded e)

  decode_block-IsSound :
      (w : World K) (xid rmid info : ℕ) (found : Option (Relation × BlockData)) (main : Bytes)
      → Holds
          (IsSound xid w.stats.decoded)
          (decode_block pr codecs cat dict dboid w xid rmid info found main)
  unfolding decode_block
  decode_block-IsSound w xid rmid info none main = quiet-IsSound w xid w.stats.decoded refl
  decode_block-IsSound w xid rmid info (some (rel, blk)) main =
      match_catalog-IsSound w.catalog (catalog_decoder cat dict w.catalog blk.rel_node) w xid rmid
        info rel blk main

  decode_body-IsSound :
      (w : World K) (xid rmid info : ℕ) (body : Body)
      → Holds
          (IsSound (top_or body.top xid) w.stats.decoded)
          (decode_body pr codecs cat dict dboid w xid rmid info body)
  unfolding decode_body
  decode_body-IsSound w xid rmid info body =
      let id = top_or body.top xid in
      let S = IsSound id w.stats.decoded in
      let w1 = if rmid == 0 then w else count_heap pr codecs cat dict dboid w body.blocks in
      let w2 = cache_wanted_fpw cat dict codecs body.blocks w1 in
      let first : w1.stats.decoded ≡ w.stats.decoded =
        if-P (λ (v : World K). v.stats.decoded ≡ w.stats.decoded) (rmid == 0) refl
          (note_rels-decoded body.blocks (record w.stats { heap = w.stats.heap + 1 })) in
      let same : w2.stats.decoded ≡ w.stats.decoded =
        cache_wanted_fpw-decoded cat dict codecs body.blocks w1 ∙ first in
      if-P (Holds S) (rmid == 0) (quiet-IsSound w2 id w.stats.decoded same) (
        Holds-bind S
          (ingest_blocks pr codecs cat dict dboid w2.toast rmid info body.blocks body.main) _
          (λ toast.
            subst
              (λ n. Holds (IsSound id n) (
                decode_block pr codecs cat dict dboid (record w2 { toast = toast }) id rmid info
                  (pick_block cat dict dboid w2.catalog body.blocks) body.main))
              same
              (decode_block-IsSound (record w2 { toast = toast }) id rmid info
                (pick_block cat dict dboid w2.catalog body.blocks) body.main)))

  decode_truncate-IsSound :
      (w : World K) (xid : ℕ) (bytes : Bytes)
      → IsSound
          (top_or (top_of (split_xlog_body bytes)) xid)
          w.stats.decoded
          (decode_truncate pr codecs cat dict dboid w xid bytes)
  unfolding decode_truncate
  decode_truncate-IsSound w xid bytes =
      let body = split_xlog_body bytes in
      let id = top_or (top_of body) xid in
      hand_out-IsSound (count_truncate pr codecs cat dict dboid w) id
        (decode_heap_truncate (truncated_rel cat dict w.catalog) one_change id dboid
          (truncate_main_data bytes body))
        (decode_heap_truncate-All (truncated_rel cat dict w.catalog) id dboid
          (truncate_main_data bytes body))

  -- A record that is no commit or abort hands out only changes of its own transaction (the top one
  -- where it names it), an insert with its new row, a delete or update with its old row, and no
  -- others than these and truncations; the counter of decoded changes grows by their number. This
  -- is so in every branch in which the decoder does not panic, for records of any bytes.
  pub decode_heap_record-IsSound :
      (w : World K) (rec : Bytes)
      → byte rec 17 ≢ 1
      → Holds
          (IsSound (record_xid rec) w.stats.decoded)
          (decode_heap_record pr codecs cat dict dboid w rec)
  unfolding decode_heap_record
  decode_heap_record-IsSound w rec no_xact =
      let xid = u32 rec 4 in
      let info = byte rec 16 in
      let rmid = byte rec 17 in
      let S = IsSound (record_xid rec) w.stats.decoded in
      let nothing : Holds S (some (w, [])) =
        quiet-IsSound w (record_xid rec) w.stats.decoded refl in
      rw (==_ne rmid 1 no_xact) (
        if-P (Holds S) (ltb (length rec) 24) nothing (
          if-P (Holds S) (not (rmid == 10) && (not (rmid == 9) && not (rmid == 0))) nothing (
            if-P (Holds S) ((rmid == 10) && (heap_op info == 0x30))
              (decode_truncate-IsSound w xid (drop 24 rec))
              (split_case (split_xlog_body (drop 24 rec)) refl))))
    where
      split_case :
          (o : Option Body)
          → split_xlog_body (drop 24 rec) ≡ o
          → Holds (IsSound (top_or (top_of o) (u32 rec 4)) w.stats.decoded) (elim o [
            | none ↦ some (count_split_fail pr codecs cat dict dboid w (byte rec 17), [])
            | some body ↦
                decode_body pr codecs cat dict dboid w (u32 rec 4) (byte rec 17) (byte rec 16) body
          ])
      split_case none e =
          if-P (λ (v : World K). IsSound (u32 rec 4) w.stats.decoded (v, [])) (byte rec 17 == 0)
            (quiet-IsSound w (u32 rec 4) w.stats.decoded refl)
            (quiet-IsSound w (u32 rec 4) w.stats.decoded refl)
      split_case (some body) e = decode_body-IsSound w (u32 rec 4) (byte rec 17) (byte rec 16) body
