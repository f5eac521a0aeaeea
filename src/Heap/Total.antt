-- ===== src/Heap/Total.antt =====
-- Without a cache of out-of-line values no payload of a negative size is made: rows of chunks, which
-- have no values of their own out of line, are always taken in.
use db_flashback.Base.{
  ℕ, zero, suc, ◌+◌, ◌*◌, ◌≡◌, refl, inl, inr, Bool, true, false, not, ◌&&◌, ◌||◌, Option, none,
  some, List, [], ◌∷◌, ◌++◌, ltb, leb, ◌==◌, if◌then◌else◌, Option-cases, length, drop, replicate,
}
use db_flashback.Bytes.{Bytes, byte, u16, has, slice}
use db_flashback.Change.{Row}
use db_flashback.Dict.{Column, is_varlena, Relation, Dictionary, toast_owner}
use db_flashback.Fpw.{Codecs}
use db_flashback.Heap.Dispatch.{ingest_blocks}
use db_flashback.Heap.Decode.{heap_op}
use db_flashback.Heap.Ingest.{chunk_row, chunk_rows, ingest_toast_record, toast_chunk_columns}
use db_flashback.Heap.Multi.{multi_loop, multi_rows, multi_tuple, keep_row}
use db_flashback.Heap.World.{Catalog}
use db_flashback.Reader.{max_align}
use db_flashback.Record.{◌>>=◌, BlockData}
use db_flashback.Toast.{ℤ, pos, negsuc, ToastCache, ToastPtr, parse_toast_ptr}
use db_flashback.Datum.{align_pointer, read_varlena}
use db_flashback.Tuple.{
  Printer, Round, goes, breaks, is_null_at, after_datum, print_varlena, resolve_toast, read_datum,
  read_by_length, read_unsized, attr_round, attr_loop, decode_heap_tuple, decode_xlog_tuple,
}

abbrev pub IsSome {ℓ} : {A : Type ℓ} → Option A → Type ℓ
IsSome {A = A} o = (a : A) × (o ≡ some a)

if-IsSome {ℓ} :
    {A : Type ℓ} (b : Bool) (x y : Option A) → IsSome x → IsSome y → IsSome (if b then x else y)
if-IsSome true x y p q = p
if-IsSome false x y p q = q

bind-IsSome {ℓ κ} :
    {A : Type ℓ} {B : Type κ} (o : Option A) (f : A → Option B)
    → IsSome o
    → ((a : A) → IsSome (f a))
    → IsSome (o >>= f)
bind-IsSome none f (a, e) q = absurd cc
bind-IsSome (some b) f p q = q b

module _ (pr : Printer) (codecs : Codecs) where
  read_unsized-IsSome : (b : Bytes) (col : Column) → IsSome (read_unsized pr codecs none b col)
  unfolding read_unsized
  read_unsized-IsSome b col = plain (parse_toast_ptr b)
    where
      plain :
          (p : Option ToastPtr)
          → IsSome (elim p [
            | some p ↦ resolve_toast pr codecs p none col 18
            | none ↦ some (print_varlena (λ raw. pr.varlena raw col) (read_varlena b))
          ])
      plain none = (_, refl)
      plain (some p) = unfold resolve_toast in (_, refl)

  read_by_length-IsSome :
      (len : ℤ) (b : Bytes) (col : Column) → IsSome (read_by_length pr codecs len none b col)
  unfolding read_by_length
  read_by_length-IsSome (pos zero) b col =
      if-IsSome col.dropped _ _ (_, refl) (read_unsized-IsSome b col)
  read_by_length-IsSome (pos (suc n)) b col = (_, refl)
  read_by_length-IsSome (negsuc n) b col =
      if-IsSome col.dropped _ _ (_, refl) (read_unsized-IsSome b col)

  read_datum-IsSome : (b : Bytes) (col : Column) → IsSome (read_datum pr codecs none b col)
  unfolding read_datum
  read_datum-IsSome b col = read_by_length-IsSome col.typlen b col

  attr_round-IsSome :
      (raw bits : Bytes) (i off : ℕ) (out : Row) (col : Column)
      → IsSome (attr_round pr codecs none raw bits i off out col)
  unfolding attr_round
  attr_round-IsSome raw bits i off out col =
      let off' = align_pointer raw off (is_varlena col) col.typalign in
      if-IsSome (is_null_at bits i) _ _ (_, refl)
        (if-IsSome (leb (length raw) off') _ _ (_, refl)
          (bind-IsSome _ _ (read_datum-IsSome (drop off' raw) col)
            (λ d. (after_datum col off' out d, refl))))

  attr_loop-after :
      (col : Column) (cols : List Column) (raw bits : Bytes) (i off : ℕ) (out : Row) (r : Round)
      → attr_round pr codecs none raw bits i off out col ≡ some r
      → ((i off : ℕ) (out : Row) → IsSome (attr_loop pr codecs none raw bits i off out cols))
      → IsSome (attr_loop pr codecs none raw bits i off out (col ∷ cols))
  unfolding attr_loop
  attr_loop-after col cols raw bits i off out (breaks out') e later = (out', rw (attr_loop, e) refl)
  attr_loop-after col cols raw bits i off out (goes off' out') e later =
      let (row, e') = later (suc i) off' out' in (row, rw (attr_loop, e) e')

  attr_loop-IsSome :
      (cols : List Column) (raw bits : Bytes) (i off : ℕ) (out : Row)
      → IsSome (attr_loop pr codecs none raw bits i off out cols)
  unfolding attr_loop
  attr_loop-IsSome [] raw bits i off out = (_, refl)
  attr_loop-IsSome (col ∷ cols) raw bits i off out =
      let (r, e) = attr_round-IsSome raw bits i off out col in
      attr_loop-after col cols raw bits i off out r e (attr_loop-IsSome cols raw bits)

  decode_heap_tuple-IsSome :
      (cols : List Column) (raw : Bytes) → IsSome (decode_heap_tuple pr codecs none cols raw)
  unfolding decode_heap_tuple
  decode_heap_tuple-IsSome cols raw =
      let hoff = byte raw 22 in
      let off : ℕ = if ltb hoff 23 || ltb (length raw) hoff then 24 else hoff in
      if-IsSome (ltb (length raw) 23) _ _ (_, refl)
        (if-IsSome (ltb (length raw) off) _ _ (_, refl) (attr_loop-IsSome cols raw _ 0 off []))

  decode_xlog_tuple-IsSome :
      (cols : List Column) (raw : Bytes) → IsSome (decode_xlog_tuple pr codecs none cols raw)
  unfolding decode_xlog_tuple
  decode_xlog_tuple-IsSome cols raw =
      let full =
        replicate 18 0 ++ (slice raw 0 2 ++ (slice raw 2 4 ++ (slice raw 4 5 ++ drop 5 raw))) in
      if-IsSome (ltb (length raw) 5) _ _ (_, refl) (decode_heap_tuple-IsSome cols full)

  multi_loop-IsSome :
      (n : ℕ) (cols : List Column) (b : Bytes) → IsSome (multi_loop pr codecs none cols n b)
  unfolding multi_loop
  multi_loop-IsSome zero cols b = (_, refl)
  multi_loop-IsSome (suc n) cols b =
      let next = max_align (8 + u16 b 0) in
      let later =
        if-IsSome (ltb (length b) next) _ _ (_, refl) (multi_loop-IsSome n cols (drop next b)) in
      if-IsSome (ltb (length b) 8) _ _ (_, refl)
        (if-IsSome (ltb (length b) (8 + u16 b 0)) _ _ (_, refl)
          (bind-IsSome _ _ (decode_heap_tuple-IsSome cols (multi_tuple b))
            (λ row. bind-IsSome _ _ later (λ rows. (keep_row row rows, refl)))))

  multi_rows-IsSome :
      (cols : List Column) (bytes main : Bytes) (info : ℕ)
      → IsSome (multi_rows pr codecs none cols bytes main info)
  unfolding multi_rows
  multi_rows-IsSome cols bytes main info =
      let n = u16 main 1 in
      let hdr_off : ℕ = if has info 0x80 then 3 else 3 + n * 2 in
      if-IsSome (ltb (length main) 3) _ _ (_, refl)
        (if-IsSome ((n == 0) || ltb 10000 n) _ _ (_, refl)
          (if-IsSome (not (has (byte main 0) 8)) _ _ (multi_loop-IsSome n cols bytes) (
            if-IsSome (ltb (length main) hdr_off) _ _ (_, refl)
              (multi_loop-IsSome n cols (drop hdr_off main)))))

  chunk_row-IsSome : (raw : Bytes) → IsSome (chunk_row pr codecs raw)
  chunk_row-IsSome raw =
      bind-IsSome _ _ (decode_xlog_tuple-IsSome toast_chunk_columns raw)
        (λ row. (keep_row row [], refl))

  chunk_rows-IsSome :
      (rmid op info : ℕ) (blk : BlockData) (main : Bytes)
      → IsSome (chunk_rows pr codecs rmid op info blk main)
  unfolding chunk_rows
  chunk_rows-IsSome rmid op info blk main =
      if-IsSome ((rmid == 9) && (op == 0x50)) _ _
        (multi_rows-IsSome toast_chunk_columns blk.block_bytes main info)
        (if-IsSome ((rmid == 10) && (op == 0x00)) _ _ (chunk_row-IsSome blk.block_bytes) (
          if-IsSome ((rmid == 10) && ((op == 0x20) || (op == 0x40))) _ _ (chunk_row-IsSome _)
            (_, refl)))

  -- Taking in chunks of out-of-line values never makes a payload of a negative size.
  pub ingest_toast_record-IsSome :
      (toast : Option ToastCache) (owner : Relation) (rmid op info : ℕ) (blk : BlockData)
      (main : Bytes)
      → IsSome (ingest_toast_record pr codecs toast owner rmid op info blk main)
  unfolding ingest_toast_record
  ingest_toast_record-IsSome none owner rmid op info blk main = (_, refl)
  ingest_toast_record-IsSome (some c) owner rmid op info blk main =
      bind-IsSome _ _ (chunk_rows-IsSome rmid op info blk main) (λ rows. (_, refl))

  pub ingest_blocks-IsSome :
      {K : Type 0} (cat : Catalog K) (dict : Dictionary) (dboid : ℕ) (toast : Option ToastCache)
      (rmid info : ℕ) (blocks : List BlockData) (main : Bytes)
      → IsSome (ingest_blocks pr codecs cat dict dboid toast rmid info blocks main)
  unfolding ingest_blocks
  ingest_blocks-IsSome cat dict dboid toast rmid info [] main = (_, refl)
  ingest_blocks-IsSome cat dict dboid toast rmid info (b ∷ blocks) main =
      elim (Option-cases (toast_owner dict b.rel_node)) [
        | inl e ↦
            let (t, e') = ingest_blocks-IsSome cat dict dboid toast rmid info blocks main in
            (t, rw (ingest_blocks, e) e')
        | inr (owner, e) ↦
            let (t, e') = ingest_toast_record-IsSome toast owner rmid (heap_op info) info b main in
            let (t', e'') = ingest_blocks-IsSome cat dict dboid t rmid info blocks main in
            (t', rw (ingest_blocks, e) (rw e' e''))
      ]
