-- ===== src/Toast.antt =====
-- Out-of-line values (TOAST), internal/service/flashback_toast.go: the chunks read so far, by value
-- and sequence number, and the pointers that stand for them in a row.
pub mod History
pub mod Pointer
mod Tests
use db_flashback.Base.{
  ℕ, zero, suc, ◌+◌, ◌-◌, ◌*◌, ◌/◌, ◌%◌, ◌^◌, max, not, ◌&&◌, ◌||◌, Option, none, some, List, [],
  ◌∷◌, ◌++◌, ltb, leb, ◌==◌, if◌then◌else◌, length, drop, lookup, insert,
}
use db_flashback.Bytes.{Bytes, byte, u32}
use db_flashback.Fpw.Pglz.{pglz_decompress}
use db_flashback.Fpw.{Codecs, result_bytes, decompress_fpw}

-- Go's `int` and `int32`.
pub data ℤ : Type 0 where
  pos : ℕ → ℤ
  negsuc : ℕ → ℤ

-- `int32(w)` of an unsigned word.
abbrev pub to_int32 : ℕ → ℤ
to_int32 w = if ltb w (2 ^ 31) then pos w else negsuc (2 ^ 32 - w - 1)

abbrev pub Chunks : Type 0
Chunks = List (ℕ × Bytes)

-- `flashbackToastCache` without its lock, which every call holds to its end.
pub record ToastCache : Type 0 where
  pub chunks : List (ℕ × Chunks)

abbrev pub new_toast_cache : ToastCache
new_toast_cache = record { chunks = [] }

-- `flashbackToastKey`: the id of the value takes the low 32 bits.
abbrev pub toast_key : ℕ → ℕ → ℕ
toast_key toast_oid value_id = toast_oid * 2 ^ 32 + value_id

abbrev pub chunks_or_nil : Option Chunks → Chunks
chunks_or_nil none = []
chunks_or_nil (some parts) = parts

-- `c.chunks[k]`, nil for a missing key.
unfoldable pub parts_of : ToastCache → ℕ → Chunks
parts_of c k = chunks_or_nil (lookup k c.chunks)

-- `put`
unfoldable pub put : ToastCache → ℕ → ℕ → ℤ → Bytes → ToastCache
unfolding parts_of
put c toast_oid value_id (negsuc n) bytes = c
put c toast_oid value_id (pos seq) bytes =
    let k = toast_key toast_oid value_id in
    if value_id == 0
    then c
    else record { chunks = insert k (insert seq bytes (parts_of c k)) c.chunks }

-- The greatest key. Without any it is 0, where the source has −1 and returns before.
unfoldable pub max_seq : Chunks → ℕ
max_seq [] = 0
max_seq ((seq, bytes) ∷ parts) = max seq (max_seq parts)

-- `for i := 0; i <= max; i++`, with `n` rounds left.
unfoldable pub gather : ℕ → ℕ → Chunks → Bytes → Option Bytes
gather zero i parts out = some out
gather (suc n) i parts out = elim (lookup i parts) [
  | none ↦ none
  | some bytes ↦ gather n (suc i) parts (out ++ bytes)
]

abbrev pub gather_all : Chunks → Option Bytes
gather_all [] = none
gather_all (part ∷ parts) = gather (suc (max_seq (part ∷ parts))) 0 (part ∷ parts) []

-- `get`
unfoldable pub get_value : ToastCache → ℕ → ℕ → Option Bytes
unfolding parts_of gather max_seq
get_value c toast_oid value_id =
    if value_id == 0 then none else gather_all (parts_of c (toast_key toast_oid value_id))

-- `flashbackToastPtr`
pub record ToastPtr : Type 0 where
  pub raw_size : ℤ
  pub ext_size : ℕ
  pub compress : ℕ
  pub value_id : ℕ
  pub toast_rel : ℕ

-- The pointer that the bytes hold, whether or not it is valid. The mask of 30 bits is a remainder.
abbrev pub pointer_fields : Bytes → ToastPtr
pointer_fields b = record {
  raw_size = to_int32 (u32 b 2);
  ext_size = u32 b 6 % 2 ^ 30;
  compress = u32 b 6 / 2 ^ 30;
  value_id = u32 b 10;
  toast_rel = u32 b 14;
}

-- `flashbackParseToastPtr`; the flag of the source is `some`.
unfoldable pub parse_toast_ptr : Bytes → Option ToastPtr
parse_toast_ptr b =
    if ltb (length b) 18 || not (byte b 0 == 1)
    then none
    else if u32 b 10 == 0
    then none
    else some (pointer_fields b)

-- What `flashbackToastPayload` does: a payload, `nil, false`, or the panic of `make` on a negative
-- length.
pub data Payload : Type 0 where
  payload : Bytes → Payload
  no_payload : Payload
  panics : Payload

-- `return raw, len(raw) > 0` where the bytes do not decompress to the length wanted.
abbrev pub unpacked_or : Bytes → Option Bytes → Payload
unpacked_or raw none = payload raw
unpacked_or raw (some dest) = payload dest

-- `toastCompressLZ4` or the default.
abbrev pub unpack : Codecs → ℕ → Bytes → ℕ → Option Bytes
unpack codecs compress raw want =
    if compress == 1
    then decompress_fpw codecs 0x08 raw want
    else result_bytes (pglz_decompress raw want)

-- The chunks hold a value with its header of four bytes, or without.
abbrev pub plain_payload : Bytes → Payload
plain_payload raw =
    if leb 4 (length raw) && (u32 raw 0 / 4 == length raw)
    then payload (drop 4 raw)
    else payload raw

-- `flashbackToastPayload`
unfoldable pub toast_payload : Codecs → ToastPtr → Bytes → Payload
toast_payload codecs p [] = no_payload
toast_payload codecs p (x ∷ xs) = elim p.raw_size [
  | pos size ↦
      let want : ℕ = if leb 4 size then size - 4 else size in
      if not (p.compress == 0) || (ltb 0 p.ext_size && ltb (p.ext_size + 4) size)
      then unpacked_or (x ∷ xs) (unpack codecs p.compress (x ∷ xs) want)
      else plain_payload (x ∷ xs)
  | negsuc n ↦ if not (p.compress == 0) then panics else plain_payload (x ∷ xs)
]
