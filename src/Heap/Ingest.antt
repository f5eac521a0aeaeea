-- ===== src/Heap/Ingest.antt =====
-- Chunks of out-of-line values in heap records, `flashbackIngestToastRecord` and what it calls in
-- internal/service/flashback_toast.go. The source tests the length before it reads a byte by its
-- index, so that none of these reads is out of range. `none` is the panic of `make` on a negative
-- size.
use db_flashback.Base.{
  ℕ, zero, suc, ◌+◌, ◌-◌, ◌*◌, ◌/◌, ◌%◌, ◌^◌, Bool, false, ◌&&◌, ◌||◌, Option, none, some, List, [],
  ◌∷◌, ◌++◌, ltb, leb, ◌==◌, if◌then◌else◌, length, drop,
}
use db_flashback.Bytes.{Bytes, byte}
use db_flashback.Change.{Text, Row}
use db_flashback.Datum.{align_int}
use db_flashback.Dict.{Column, Relation, row_get, null_text}
use db_flashback.Fpw.{Codecs}
use db_flashback.Heap.Multi.{multi_rows, keep_row}
use db_flashback.Heap.{skip_update_prefix_suffix}
use db_flashback.Record.{◌>>=◌, BlockData}
use db_flashback.Sql.Words.{text, is_blank, same_text, has_prefix, trim_space}
use db_flashback.Toast.{ℤ, pos, negsuc, ToastCache, put}
use db_flashback.Tuple.{Printer, decode_xlog_tuple}

abbrev is_digit : ℕ → Bool
is_digit c = leb 48 c && leb c 57

abbrev digits_from : ℕ → Text → Option ℕ
digits_from n [] = some n
digits_from n (c ∷ v) =
    let rest = digits_from (n * 10 + (c - 48)) v in if is_digit c then rest else none

-- The number that decimal digits spell, at least one.
unfoldable pub read_digits : Text → Option ℕ
read_digits [] = none
read_digits (c ∷ v) = digits_from 0 (c ∷ v)

abbrev below : ℕ → Option ℕ → Option ℕ
below bound none = none
below bound (some n) = if ltb n bound then some n else none

-- `strconv.ParseUint(s, 10, 32)`; `none` is an error.
unfoldable pub parse_uint32 : Text → Option ℕ
unfolding read_digits
parse_uint32 v = below (2 ^ 32) (read_digits v)

abbrev negated : Option ℕ → Option ℤ
negated none = none
negated (some zero) = some (pos 0)
negated (some (suc n)) = some (negsuc n)

abbrev unsigned : Option ℕ → Option ℤ
unsigned none = none
unsigned (some n) = some (pos n)

-- `strconv.ParseInt(s, 10, 32)`
unfoldable pub parse_int32 : Text → Option ℤ
unfolding read_digits
parse_int32 [] = none
parse_int32 (c ∷ v) =
    if c == 45
    then negated (below (2 ^ 31 + 1) (read_digits v))
    else if c == 43
    then unsigned (below (2 ^ 31) (read_digits v))
    else unsigned (below (2 ^ 31) (read_digits (c ∷ v)))

abbrev hex_digit : ℕ → Option ℕ
hex_digit c =
    if is_digit c
    then some (c - 48)
    else if leb 97 c && leb c 102
    then some (c - 87)
    else if leb 65 c && leb c 70
    then some (c - 55)
    else none

-- `hex.DecodeString`
unfoldable pub decode_hex : Text → Option Bytes
decode_hex [] = some []
decode_hex (c ∷ []) = none
decode_hex (c ∷ (d ∷ v)) = do
  high ← hex_digit c
  low ← hex_digit d
  rest ← decode_hex v
  some ((high * 16 + low) ∷ rest)

-- The bytes of a code point in UTF-8.
abbrev utf8_of : ℕ → Bytes
utf8_of c =
    if ltb c 0x80
    then c ∷ []
    else if ltb c 0x800
    then (0xc0 + c / 64) ∷ ((0x80 + c % 64) ∷ [])
    else if ltb c 0x10000
    then (0xe0 + c / 4096) ∷ ((0x80 + c / 64 % 64) ∷ ((0x80 + c % 64) ∷ []))
    else (0xf0 + c / 262144)
      ∷ ((0x80 + c / 4096 % 64) ∷ ((0x80 + c / 64 % 64) ∷ ((0x80 + c % 64) ∷ [])))

-- `[]byte(s)`
unfoldable pub utf8 : Text → Bytes
utf8 [] = []
utf8 (c ∷ v) = utf8_of c ++ utf8 v

-- `strings.TrimPrefix(v, p)`
abbrev pub trim_prefix : Text → Text → Text
trim_prefix p v = if has_prefix v p then drop (length p) v else v

-- `flashbackByteaFromDecoded`
unfoldable pub bytea_from_decoded : Text → Option Bytes
unfolding decode_hex utf8
bytea_from_decoded v =
    let s = trim_prefix (text "\\RAW:") (trim_space v) in
    if is_blank v || same_text v null_text
    then none
    else if has_prefix s (text "\\x") || has_prefix s (text "\\\\x")
    then decode_hex (trim_prefix (text "\\x") (trim_prefix (text "\\\\x") s))
    else some (utf8 s)

abbrev put_bytes : ToastCache → ℕ → ℕ → ℤ → Option Bytes → ToastCache
put_bytes c toast_oid id seq none = c
put_bytes c toast_oid id seq (some raw) = put c toast_oid id seq raw

abbrev put_numbered : ToastCache → ℕ → Option ℕ → Option ℤ → Text → ToastCache
put_numbered c toast_oid none seq v = c
put_numbered c toast_oid (some id) none v = c
put_numbered c toast_oid (some id) (some (negsuc n)) v = c
put_numbered c toast_oid (some id) (some (pos seq)) v =
    if id == 0 then c else put_bytes c toast_oid id (pos seq) (bytea_from_decoded v)

-- `flashbackToastPutDecoded`
unfoldable pub toast_put_decoded : ToastCache → ℕ → Row → ToastCache
unfolding parse_uint32 parse_int32
toast_put_decoded c toast_oid [] = c
toast_put_decoded c toast_oid (v ∷ row) =
    put_numbered c toast_oid (parse_uint32 (row_get (text "chunk_id") (v ∷ row)))
      (parse_int32 (row_get (text "chunk_seq") (v ∷ row))) (row_get (text "chunk_data") (v ∷ row))

unfoldable pub put_rows : ToastCache → ℕ → List Row → ToastCache
unfolding toast_put_decoded
put_rows c toast_oid [] = c
put_rows c toast_oid (row ∷ rows) = put_rows (toast_put_decoded c toast_oid row) toast_oid rows

abbrev chunk_column : Text → ℕ → Text → ℤ → Column
chunk_column name att_num type_name typlen = record {
  name = name;
  att_num = att_num;
  type_name = type_name;
  type_oid = 0;
  typlen = typlen;
  typalign = align_int;
  not_null = false;
  is_pk = false;
  dropped = false;
}

-- The columns of `flashbackToastChunkRel`.
abbrev pub toast_chunk_columns : List Column
toast_chunk_columns =
    chunk_column (text "chunk_id") 1 (text "oid") (pos 4)
    ∷ (chunk_column (text "chunk_seq") 2 (text "int4") (pos 4)
        ∷ (chunk_column (text "chunk_data") 3 (text "bytea") (negsuc 0) ∷ []))

-- `owner.ToastOID`, or `owner.ToastNode` where it is 0.
abbrev pub toast_id : Relation → ℕ
toast_id owner = if owner.toast_oid == 0 then owner.toast_node else owner.toast_oid

module _ (pr : Printer) (codecs : Codecs) where
  abbrev pub chunk_row : Bytes → Option (List Row)
  chunk_row raw = do
    row ← decode_xlog_tuple pr codecs none toast_chunk_columns raw
    some (keep_row row [])

  -- The rows of chunks in a record, by resource manager and operation.
  unfoldable pub chunk_rows : ℕ → ℕ → ℕ → BlockData → Bytes → Option (List Row)
  chunk_rows rmid op info blk main =
      let raw =
        if ltb (length main) 14
        then blk.block_bytes
        else skip_update_prefix_suffix blk.block_bytes (byte main 7) in
      if (rmid == 9) && (op == 0x50)
      then multi_rows pr codecs none toast_chunk_columns blk.block_bytes main info
      else if (rmid == 10) && (op == 0x00)
      then chunk_row blk.block_bytes
      else if (rmid == 10) && ((op == 0x20) || (op == 0x40))
      then chunk_row raw
      else some []

  -- `flashbackIngestToastRecord`; nothing is decoded without a cache.
  unfoldable pub ingest_toast_record :
      Option ToastCache → Relation → ℕ → ℕ → ℕ → BlockData → Bytes → Option (Option ToastCache)
  unfolding chunk_rows put_rows
  ingest_toast_record none owner rmid op info blk main = some none
  ingest_toast_record (some c) owner rmid op info blk main = do
    rows ← chunk_rows rmid op info blk main
    some (some (put_rows c (toast_id owner) rows))
