-- ===== src/Record.antt =====
-- The body of a WAL record, internal/service/flashback_walparse.go: block headers, images, block
-- data and main data. `b` is what the position `i` of the source has not passed.
pub mod Encode
pub mod RoundTrip
mod Tests
use db_flashback.Base.{
  ℕ, zero, suc, ◌-◌, Bool, true, false, not, ◌&&◌, Option, none, some, List, [], ◌∷◌, ◌++◌, ltb,
  ◌==◌, if◌then◌else◌, length, take, drop,
}
use db_flashback.Bytes.{Bytes, byte, u16, u32, has}
use db_flashback.Fpw.{Codecs, decompress_fpw, page_size, insert_page_hole}

-- A bind on `Option`: an early `return nil, nil, 0, false`.
infixl 5 ◌>>=◌
abbrev pub ◌>>=◌ {ℓ κ} : {A : Type ℓ} {B : Type κ} → Option A → (A → Option B) → Option B
none >>= f = none
some a >>= f = f a

-- `xlogBlockData`
pub record BlockData : Type 0 where
  pub rel_node : ℕ
  pub db_node : ℕ
  pub spc_node : ℕ
  pub blkno : ℕ
  pub block_bytes : Bytes
  pub image : Bytes
  pub hole_off : ℕ
  pub hole_len : ℕ
  pub bimg_info : ℕ
  pub compressed : Bool

-- The relation of the last header, `last`.
pub record RelNode : Type 0 where
  pub spc : ℕ
  pub db : ℕ
  pub rel : ℕ

-- `meta`
pub record Meta : Type 0 where
  pub flags : ℕ
  pub bimg : ℕ
  pub data_len : ℕ
  pub img_len : ℕ
  pub img_hole_off : ℕ
  pub img_hole_len : ℕ
  pub node : RelNode
  pub blk : ℕ
  pub packed : Bool
  pub has_image : Bool

-- The next `n` bytes, if they are there.
abbrev pub cut : ℕ → Bytes → Option (Bytes × Bytes)
cut n b = if ltb (length b) n then none else some (take n b, drop n b)

-- The image header of a block: `imgLen`, `holeOff`, `bimg`, and the length of the hole.
pub record ImageHeader : Type 0 where
  pub len : ℕ
  pub hole_off : ℕ
  pub hole_len : ℕ
  pub info : ℕ
  pub packed : Bool
  pub present : Bool

abbrev pub no_image : ImageHeader
no_image = record { len = 0; hole_off = 0; hole_len = 0; info = 0; packed = false; present = false }

abbrev pub image_header : Bytes → ℕ → ImageHeader
image_header head hole = record {
  len = u16 head 0;
  hole_off = u16 head 2;
  hole_len = hole;
  info = byte head 4;
  packed = has (byte head 4) 0x1c;
  present = true;
}

-- A compressed image with a hole gives the length of the hole; a plain one leaves out the rest of
-- a page.
unfoldable pub read_hole : Bytes → Bytes → Option (ImageHeader × Bytes)
read_hole head b =
    if has (byte head 4) 0x1c && has (byte head 4) 0x01
    then (do (hole, b) ← cut 2 b; some (image_header head (u16 hole 0), b))
    else if has (byte head 4) 0x1c
    then some (image_header head 0, b)
    else some (image_header head (page_size - u16 head 0), b)

unfoldable pub read_image_header : ℕ → Bytes → Option (ImageHeader × Bytes)
unfolding read_hole
read_image_header flags b =
    if has flags 0x10 then (do (head, b) ← cut 5 b; read_hole head b) else some (no_image, b)

-- The relation, or the one of the block before, and the block number.
unfoldable pub read_node : ℕ → RelNode → Bytes → Option ((RelNode × ℕ) × Bytes)
read_node flags last b =
    if not (has flags 0x80)
    then (do
      (head, b) ← cut 16 b
      some ((record { spc = u32 head 0; db = u32 head 4; rel = u32 head 8 }, u32 head 12), b))
    else (do (head, b) ← cut 4 b; some ((last, u32 head 0), b))

-- A block header behind its id.
unfoldable pub read_meta : RelNode → Bytes → Option (Meta × Bytes)
unfolding read_image_header read_node
read_meta last b = do
  (head, b) ← cut 3 b
  (image, b) ← read_image_header (byte head 0) b
  ((node, blk), b) ← read_node (byte head 0) last b
  some (
    record {
      flags = byte head 0;
      bimg = image.info;
      data_len = u16 head 1;
      img_len = image.len;
      img_hole_off = image.hole_off;
      img_hole_len = image.hole_len;
      node = node;
      blk = blk;
      packed = image.packed;
      has_image = image.present;
    },
    b,
  )

-- What the header loop has found when it reaches `payload`.
pub record Headers : Type 0 where
  pub metas : List Meta
  pub top_xid : ℕ
  pub main_len : ℕ
  pub payload : Bytes

-- `for i < len(body)`, with `metas` in order. Each round takes at least the byte of the id.
unfoldable pub read_headers : ℕ → List Meta → RelNode → ℕ → Bytes → Option Headers
read_headers fuel metas last top [] =
    some (record { metas = metas; top_xid = top; main_len = 0; payload = [] })
read_headers zero metas last top (id ∷ b) = none
read_headers (suc fuel) metas last top (id ∷ b) =
    let after_origin : Option Headers = do (head, b) ← cut 2 b; read_headers fuel metas last top b
    in let after_top : Option Headers = do
      (head, b) ← cut 4 b
      read_headers fuel metas last (u32 head 0) b
      in let after_block : Option Headers = do
        (m, b) ← read_meta last b
        read_headers fuel (metas ++ (m ∷ [])) m.node top b
        in if id == 255
          then (do
            (head, b) ← cut 1 b
            some (record { metas = metas; top_xid = top; main_len = byte head 0; payload = b }))
          else if id == 254
          then (do
            (head, b) ← cut 4 b
            some (record { metas = metas; top_xid = top; main_len = u32 head 0; payload = b }))
          else if id == 253
          then after_origin
          else if id == 252
          then after_top
          else if ltb 32 id
          then none
          else after_block

-- `if want && n > 0 { … rest[:n] … }`
abbrev pub cut_if : Bool → ℕ → Bytes → Option (Bytes × Bytes)
cut_if want n b = if want && not (n == 0) then cut n b else some ([], b)

-- The loop over the headers behind `payload`.
unfoldable pub read_blocks : List Meta → Bytes → Option (List BlockData × Bytes)
read_blocks [] rest = some ([], rest)
read_blocks (m ∷ ms) rest = do
  (image, rest) ← cut_if m.has_image m.img_len rest
  (block_bytes, rest) ← cut_if (has m.flags 0x20) m.data_len rest
  (blocks, rest) ← read_blocks ms rest
  some (
    record {
      rel_node = m.node.rel;
      db_node = m.node.db;
      spc_node = m.node.spc;
      blkno = m.blk;
      block_bytes = block_bytes;
      image = image;
      hole_off = m.img_hole_off;
      hole_len = m.img_hole_len;
      bimg_info = m.bimg;
      compressed = m.packed;
    }
        ∷ blocks,
    rest,
  )

-- The results of `flashbackSplitXLogBody`.
pub record Body : Type 0 where
  pub blocks : List BlockData
  pub main : Bytes
  pub top : ℕ

abbrev pub no_rel : RelNode
no_rel = record { spc = 0; db = 0; rel = 0 }

-- `flashbackSplitXLogBody`
unfoldable pub split_xlog_body : Bytes → Option Body
unfolding read_headers read_blocks
split_xlog_body body = do
  h ← read_headers (length body) [] no_rel 0 body
  (blocks, rest) ← read_blocks h.metas h.payload
  (main, rest) ← cut_if true h.main_len rest
  some (record { blocks = blocks; main = main; top = h.top_xid })

-- `flashbackRebuildFPW`; the empty list is nil.
unfoldable pub rebuild_fpw : Codecs → BlockData → Bytes
rebuild_fpw codecs b =
    let want = page_size - b.hole_len in
    let unpacked : Bytes = elim (decompress_fpw codecs b.bimg_info b.image want) [
      | none ↦ []
      | some raw ↦ insert_page_hole raw b.hole_off b.hole_len
    ] in
    if length b.image == 0
    then []
    else if not b.compressed
    then insert_page_hole b.image b.hole_off b.hole_len
    else if want == 0
    then []
    else unpacked

-- `flashbackXactMainData`: the main data of a commit or abort, or the whole body.
unfoldable pub xact_main_data : Bytes → Bytes
xact_main_data rec =
    let body = drop 24 rec in
    if ltb (length rec) 24
    then []
    else if length body == 0
    then []
    else elim (split_xlog_body body) [
      | none ↦ body
      | some s ↦ if length s.main == 0 then body else s.main
    ]
