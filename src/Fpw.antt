-- ===== src/Fpw.antt =====
-- Full-page images: internal/service/flashback_fpw.go, and the page cache of
-- internal/service/flashback_walparse.go.
pub mod Pglz
pub mod Hole
pub mod Cache
mod Tests
use db_flashback.Base.{
  ℕ, ◌+◌, ◌-◌, ◌||◌, Option, none, some, [], ◌++◌, ltb, leb, ◌==◌, if◌then◌else◌, length, take,
  drop, replicate,
}
use db_flashback.Bytes.{Bytes, has}
use db_flashback.Fpw.Pglz.{Result, ok, pglz_decompress}

-- The packages github.com/pierrec/lz4 and github.com/klauspost/compress/zstd: the bytes that
-- `UncompressBlock` writes into a buffer of a size, and those that `DecodeAll` returns.
pub record Codecs : Type 0 where
  pub lz4 : Bytes → ℕ → Option Bytes
  pub zstd : Bytes → Option Bytes

-- The bytes of a successful call that fill the buffer.
abbrev pub filling : ℕ → Option Bytes → Option Bytes
filling want none = none
filling want (some out) = if length out == want then some out else none

abbrev pub result_bytes : Result → Option Bytes
result_bytes (ok out) = some out
result_bytes _ = none

-- `flashbackDecompressFPW` into a buffer of `want` bytes; `none` is an error.
unfoldable pub decompress_fpw : Codecs → ℕ → Bytes → ℕ → Option Bytes
decompress_fpw codecs bimg src want =
    if length src == 0 || want == 0
    then none
    else if has bimg 0x04
    then result_bytes (pglz_decompress src want)
    else if has bimg 0x08
    then filling want (codecs.lz4 src want)
    else if has bimg 0x10
    then filling want (codecs.zstd src)
    else none

abbrev pub page_size : ℕ
page_size = 8192

-- `make([]byte, n)` with `copy(page, xs)`.
unfoldable pub fitted : ℕ → Bytes → Bytes
fitted n xs = take n xs ++ replicate (n - length xs) 0

-- `flashbackInsertPageHole`; the empty list is nil.
unfoldable pub insert_page_hole : Bytes → ℕ → ℕ → Bytes
unfolding fitted
insert_page_hole packed hole_off hole_len =
    if hole_len == 0
    then (if leb page_size (length packed) then take page_size packed else fitted page_size packed)
    else if ltb page_size (hole_off + hole_len)
    then []
    else if ltb (length packed) hole_off
    then []
    else take hole_off packed
      ++ (replicate hole_len 0 ++ fitted (page_size - (hole_off + hole_len)) (drop hole_off packed))
