-- ===== src/Record/RoundTrip.antt =====
-- A record body as it is laid out is split into what it was made of: flashbackSplitXLogBody of
-- internal/service/flashback_walparse.go.
use db_flashback.Base.{
  ℕ, suc, ◌+◌, ◌-◌, ◌^◌, ◌≤◌, ◌<◌, ◌≡◌, refl, ap, ◌∙◌, inl, inr, true, not, Option, none, some,
  List, [], ◌∷◌, ◌++◌, append_assoc, arith, ltb, ◌==◌, if◌then◌else◌, ==_ne, Bool-cases, length,
  All, length-append,
}
use db_flashback.Bytes.{Bytes, u32, le16, le32, u32-le32}
use db_flashback.Record.Encode.{
  Image, Block, IsBlock, image_of, node_of, lay_header, lay_headers, metas_of, last_of, cut-append,
  read_headers-blocks,
}
use db_flashback.Record.{
  ◌>>=◌, BlockData, RelNode, Meta, Headers, read_headers, cut_if, read_blocks, no_rel,
  split_xlog_body,
}

abbrev lay_origin : Option ℕ → Bytes
lay_origin none = []
lay_origin (some o) = 253 ∷ le16 o

abbrev lay_top : Option ℕ → Bytes
lay_top none = []
lay_top (some x) = 252 ∷ le32 x

abbrev lay_main : Bytes → Bytes
lay_main main = if ltb (length main) 256 then 255 ∷ (length main ∷ []) else 254 ∷ le32 (length main)

abbrev pub top_xid_of : ℕ → Option ℕ → ℕ
top_xid_of top none = top
top_xid_of top (some x) = x

abbrev found : List Meta → ℕ → Bytes → Bytes → Option Headers
found metas top main payload =
    some (record { metas = metas; top_xid = top; main_len = length main; payload = payload })

read_headers-main :
    (n : ℕ) (metas : List Meta) (last : RelNode) (top : ℕ) (main payload : Bytes)
    → length main < 2 ^ 32
    → read_headers (suc n) metas last top (lay_main main ++ payload) ≡ found metas top main payload
unfolding read_headers
read_headers-main n metas last top main payload h = elim (Bool-cases (ltb (length main) 256)) [
  | inl short ↦ rw (short, cut-append (length main ∷ []) payload {n = 1} refl) refl
  | inr long ↦
      rw (long, cut-append (le32 (length main)) payload {n = 4} refl)
        (rw (u32-le32 (length main) [] h) refl)
]

read_headers-top :
    (n : ℕ) (metas : List Meta) (last : RelNode) (top : ℕ) (x : Option ℕ) (main payload : Bytes)
    → length main < 2 ^ 32
    → top_xid_of 0 x < 2 ^ 32
    → read_headers (suc (suc n)) metas last top (lay_top x ++ (lay_main main ++ payload))
      ≡ found metas (top_xid_of top x) main payload
unfolding read_headers
read_headers-top n metas last top none main payload h k =
    read_headers-main (suc n) metas last top main payload h
read_headers-top n metas last top (some x) main payload h k =
    ap (λ o. o >>= λ p. read_headers (suc n) metas last (u32 p.0 0) p.1)
      (cut-append (le32 x) (lay_main main ++ payload) {n = 4} refl)
    ∙ ap (λ t. read_headers (suc n) metas last t (lay_main main ++ payload)) (u32-le32 x [] k)
    ∙ read_headers-main n metas last x main payload h

read_headers-origin :
    (n : ℕ) (metas : List Meta) (last : RelNode) (top : ℕ) (o x : Option ℕ) (main payload : Bytes)
    → length main < 2 ^ 32
    → top_xid_of 0 x < 2 ^ 32
    → read_headers
        (suc (suc (suc n)))
        metas
        last
        top
        (lay_origin o ++ (lay_top x ++ (lay_main main ++ payload)))
      ≡ found metas (top_xid_of top x) main payload
unfolding read_headers
read_headers-origin n metas last top none x main payload h k =
    read_headers-top (suc n) metas last top x main payload h k
read_headers-origin n metas last top (some o) x main payload h k =
    ap (λ r. r >>= λ p. read_headers (suc (suc n)) metas last top p.1)
      (cut-append (le16 o) (lay_top x ++ (lay_main main ++ payload)) {n = 2} refl)
    ∙ read_headers-top n metas last top x main payload h k

abbrev bytes_of : Option Image → Bytes
bytes_of none = []
bytes_of (some i) = i.bytes

abbrev pub block_of : RelNode → Block → BlockData
block_of last b =
    let i = image_of b.image in
    let r = node_of last b.node in
    record {
      rel_node = r.rel;
      db_node = r.db;
      spc_node = r.spc;
      blkno = b.blk;
      block_bytes = b.block_bytes;
      image = bytes_of b.image;
      hole_off = i.hole_off;
      hole_len = i.hole_len;
      bimg_info = i.info;
      compressed = i.packed;
    }

-- The blocks, where one without a relation has that of the block before.
abbrev pub blocks_of : RelNode → List Block → List BlockData
blocks_of last [] = []
blocks_of last (b ∷ blocks) = block_of last b ∷ blocks_of (node_of last b.node) blocks

abbrev pub lay_data : List Block → Bytes
lay_data [] = []
lay_data (b ∷ blocks) = bytes_of b.image ++ (b.block_bytes ++ lay_data blocks)

cut_if-append :
    (xs rest : Bytes) → cut_if (not (length xs == 0)) (length xs) (xs ++ rest) ≡ some (xs, rest)
cut_if-append [] rest = refl
cut_if-append (x ∷ xs) rest =
    rw (cut_if, ==_ne (suc (length xs)) 0 (omega arith))
      (cut-append (x ∷ xs) rest {n = suc (length xs)} refl)

cut_if-main : (xs rest : Bytes) → cut_if true (length xs) (xs ++ rest) ≡ some (xs, rest)
cut_if-main [] rest = refl
cut_if-main (x ∷ xs) rest =
    rw (cut_if, ==_ne (suc (length xs)) 0 (omega arith))
      (cut-append (x ∷ xs) rest {n = suc (length xs)} refl)

cut_if-image :
    (image : Option Image) (rest : Bytes)
    → cut_if (image_of image).present (image_of image).len (bytes_of image ++ rest)
      ≡ some (bytes_of image, rest)
cut_if-image none rest = refl
cut_if-image (some i) rest = cut_if-main i.bytes rest

read_blocks-lay_data :
    (last : RelNode) (blocks : List Block) (rest : Bytes)
    → All IsBlock blocks
    → read_blocks (metas_of last blocks) (lay_data blocks ++ rest)
      ≡ some (blocks_of last blocks, rest)
unfolding read_blocks
read_blocks-lay_data last [] rest a = refl
read_blocks-lay_data last (b ∷ blocks) rest a =
    let later = lay_data blocks ++ rest in
    let apart : lay_data (b ∷ blocks) ++ rest ≡ bytes_of b.image ++ (b.block_bytes ++ later) =
      append_assoc (bytes_of b.image) (b.block_bytes ++ lay_data blocks) rest
      ∙ ap (λ (t : Bytes). bytes_of b.image ++ t)
          (append_assoc b.block_bytes (lay_data blocks) rest) in
    ap (read_blocks (metas_of last (b ∷ blocks))) apart
    ∙ rw (cut_if-image b.image (b.block_bytes ++ later)) (
        rw (a.0.data_flag) (
          rw (cut_if-append b.block_bytes later)
            (rw (read_blocks-lay_data (node_of last b.node) blocks rest a.1) refl)))

length-lay_headers : (blocks : List Block) → length blocks ≤ length (lay_headers blocks)
length-lay_headers [] = omega arith
length-lay_headers (b ∷ blocks) =
    omega (arith, length-lay_headers blocks, length-append (lay_header b) (lay_headers blocks))

length-lay_main : (main : Bytes) → 2 ≤ length (lay_main main)
length-lay_main main = elim (Bool-cases (ltb (length main) 256)) [
  | inl short ↦ rw short (omega arith)
  | inr long ↦ rw long (omega arith)
]

-- There are rounds enough for the headers, two more and that of the main data.
length-laid :
    (blocks : List Block) (o x m d main tail : Bytes)
    → 2 ≤ length m
    → 0 < length main
    → length blocks + 3 ≤ length (lay_headers blocks ++ (o ++ (x ++ (m ++ (d ++ (main ++ tail))))))
length-laid blocks o x m d main tail h k = omega (
  arith,
  length-lay_headers blocks,
  length-append (lay_headers blocks) (o ++ (x ++ (m ++ (d ++ (main ++ tail))))),
  length-append o (x ++ (m ++ (d ++ (main ++ tail)))),
  length-append x (m ++ (d ++ (main ++ tail))),
  length-append m (d ++ (main ++ tail)),
  length-append d (main ++ tail),
  length-append main tail,
)

abbrev pub lay_body : List Block → Option ℕ → Option ℕ → Bytes → Bytes → Bytes
lay_body blocks origin top main tail =
    lay_headers blocks
    ++ (lay_origin origin
        ++ (lay_top top ++ (lay_main main ++ (lay_data blocks ++ (main ++ tail)))))

-- A record body with main data is split into its blocks, its main data and its top transaction,
-- whatever follows, where it is laid out as PostgreSQL does: the header of each block, with the
-- image header and the relation that its flags announce, then the origin and the top transaction
-- if there are any, the header of the main data, and the images and data of the blocks, with every
-- number small enough for its field.
pub split_xlog_body-lay_body :
    (blocks : List Block) (origin top : Option ℕ) (main tail : Bytes)
    → All IsBlock blocks
    → 0 < length main
    → length main < 2 ^ 32
    → top_xid_of 0 top < 2 ^ 32
    → split_xlog_body (lay_body blocks origin top main tail)
      ≡ some (record { blocks = blocks_of no_rel blocks; main = main; top = top_xid_of 0 top })
unfolding split_xlog_body
split_xlog_body-lay_body blocks origin top main tail a pos h k =
    let body = lay_body blocks origin top main tail in
    let enough : length blocks + 3 ≤ length body =
      length-laid blocks (lay_origin origin) (lay_top top) (lay_main main) (lay_data blocks) main
        tail (length-lay_main main) pos in
    let n = length body - length blocks - 3 in
    let headers : read_headers (length body) [] no_rel 0 body
        ≡ found (metas_of no_rel blocks) (top_xid_of 0 top) main
            (lay_data blocks ++ (main ++ tail)) =
      read_headers-blocks (length body) (suc (suc (suc n))) blocks [] no_rel 0 _ (omega arith) a
      ∙ read_headers-origin n (metas_of no_rel blocks) (last_of no_rel blocks) 0 origin top main
          (lay_data blocks ++ (main ++ tail)) h k in
    ap
      (λ o. o >>= λ f. read_blocks f.metas f.payload >>= λ p. cut_if true f.main_len p.1 >>= λ q.
        some (record { blocks = p.0; main = q.0; top = f.top_xid }))
      headers
    ∙ rw (read_blocks-lay_data no_rel blocks (main ++ tail) a) (rw (cut_if-main main tail) refl)
