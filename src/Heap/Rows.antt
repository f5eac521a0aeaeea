-- ===== src/Heap/Rows.antt =====
-- The row images of one heap record, `flashbackDecodeHeapRecord` and `flashbackApplyCatalogHeap` of
-- internal/service/flashback_walparse.go: from the record's data, the page image in the record,
-- the page cache, or the replica key. The empty row is none at all, and `none` is a panic.
use db_flashback.Base.{
  ℕ, ◌+◌, ◌*◌, ◌^◌, ◌&&◌, Option, none, some, [], ◌∷◌, ltb, if◌then◌else◌, length, drop,
}
use db_flashback.Bytes.{Bytes, byte, u16, has}
use db_flashback.Change.{Row}
use db_flashback.Dict.{Relation, relation_pk_only}
use db_flashback.Fpw.Cache.{FpwCache, get}
use db_flashback.Fpw.{Codecs}
use db_flashback.Heap.{skip_update_prefix_suffix, tuple_from_page}
use db_flashback.Record.{BlockData, rebuild_fpw}
use db_flashback.Toast.{ToastCache}
use db_flashback.Tuple.{Printer, decode_heap_tuple, decode_xlog_tuple}

-- `if len(vals) == 0 { vals = … }`
abbrev pub or_row : Option Row → Option Row → Option Row
or_row none next = none
or_row (some []) next = next
or_row (some (v ∷ row)) next = some (v ∷ row)

-- `flashbackFPWKey`
abbrev pub fpw_key : ℕ → ℕ → ℕ
fpw_key rel_node blkno = rel_node * 2 ^ 32 + blkno

-- `rel.toast`
abbrev pub toast_of : Option ToastCache → Relation → Option ToastCache
toast_of toast rel = if rel.has_toast then toast else none

-- `main[4:6]`, where the whole struct of `size` bytes is there.
abbrev pub old_offset : ℕ → Bytes → ℕ
old_offset size main = if ltb (length main) size then 0 else u16 main 4

abbrev pub flags_of : ℕ → Bytes → ℕ
flags_of size main = if ltb (length main) size then 0 else byte main 7

-- The page of a block in the cache; without a cache there is none.
abbrev pub cached_page : Option FpwCache → Relation → BlockData → Bytes
cached_page none rel blk = []
cached_page (some fpw) rel blk = get fpw (fpw_key rel.rel_node blk.blkno)

module _ (pr : Printer) (codecs : Codecs) (cache : Option ToastCache) (rel : Relation)
    (blk : BlockData) where
  unfoldable pub xlog_row : Bytes → Option Row
  xlog_row raw = decode_xlog_tuple pr codecs (toast_of cache rel) rel.columns raw

  unfoldable pub page_row : Bytes → ℕ → Option Row
  page_row page offnum =
      decode_heap_tuple pr codecs (toast_of cache rel) rel.columns (tuple_from_page page offnum)

  -- The row of the replica key.
  unfoldable pub key_row : Bytes → Option Row
  key_row raw = decode_xlog_tuple pr codecs (toast_of cache rel) (relation_pk_only rel).columns raw

  -- The row that a delete removes.
  unfoldable pub deleted_row : Option FpwCache → Bytes → Option Row
  unfolding xlog_row page_row key_row
  deleted_row fpw main =
      let offnum = old_offset 8 main in
      let flags = flags_of 8 main in
      let more = ltb 8 (length main) in
      or_row (if has flags 0x02 && more then xlog_row (drop 8 main) else some []) (
        or_row (page_row (rebuild_fpw codecs blk) offnum) (
          or_row (if ltb 0 offnum then page_row (cached_page fpw rel blk) offnum else some [])
            (if has flags 0x04 && more then key_row (drop 8 main) else some [])))

  -- The row that an update writes.
  unfoldable pub updated_row : Bytes → Option Row
  unfolding xlog_row
  updated_row main =
      let raw =
        if ltb (length main) 14
        then blk.block_bytes
        else skip_update_prefix_suffix blk.block_bytes (byte main 7) in
      xlog_row raw

  -- The row that an update replaces.
  unfoldable pub replaced_row : Option FpwCache → Bytes → Option Row
  unfolding xlog_row page_row key_row
  replaced_row fpw main =
      let old_off = u16 main 4 in
      let flags = byte main 7 in
      if ltb (length main) 14
      then some []
      else or_row (if has flags 0x04 then xlog_row (drop 14 main) else some []) (
          or_row (page_row (rebuild_fpw codecs blk) old_off) (
            or_row (page_row (cached_page fpw rel blk) old_off)
              (if has flags 0x08 then key_row (drop 14 main) else some [])))
