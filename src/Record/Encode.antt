-- ===== src/Record/Encode.antt =====
-- Record bodies as PostgreSQL lays them out (XLogRecordAssemble), read back: block headers, the
-- origin, the top transaction, the header of the main data, then images, block data and main data.
use db_flashback.Base.{
  ℕ, zero, suc, ◌+◌, ◌-◌, ◌^◌, ◌<◌, ◌≡◌, refl, ap, ◌∙◌, inl, inr, Bool, true, false, not, ◌&&◌,
  Option, none, some, List, [], ◌∷◌, ◌++◌, append-nil, append_assoc, arith, ltb, ◌==◌,
  if◌then◌else◌, le→ltb, ==_ne, Bool-cases, length, All, length-append, take-append, drop-append,
}
use db_flashback.Bytes.{Bytes, u16, u32, has, le16, le32, u16-le16, u32-le32}
use db_flashback.Fpw.{page_size}
use db_flashback.Record.{
  ◌>>=◌, RelNode, Meta, cut, ImageHeader, no_image, read_hole, read_image_header, read_node,
  read_meta, Headers, read_headers,
}

-- An image and its header; `hole` is written only for a compressed image with a hole.
pub record Image : Type 0 where
  pub bytes : Bytes
  pub hole_off : ℕ
  pub info : ℕ
  pub hole : ℕ

-- A block: its flags, the relation unless it is that of the block before, an image or none.
pub record Block : Type 0 where
  pub id : ℕ
  pub flags : ℕ
  pub node : Option RelNode
  pub blk : ℕ
  pub image : Option Image
  pub block_bytes : Bytes

abbrev packed_hole : Image → Bool
packed_hole i = has i.info 0x1c && has i.info 0x01

abbrev lay_image : Option Image → Bytes
lay_image none = []
lay_image (some i) =
    (le16 (length i.bytes) ++ (le16 i.hole_off ++ (i.info ∷ [])))
    ++ (if packed_hole i then le16 i.hole else [])

abbrev lay_node : Option RelNode → ℕ → Bytes
lay_node none blk = le32 blk
lay_node (some r) blk = le32 r.spc ++ (le32 r.db ++ (le32 r.rel ++ le32 blk))

abbrev pub lay_header : Block → Bytes
lay_header b =
    (b.flags ∷ le16 (length b.block_bytes)) ++ (lay_image b.image ++ lay_node b.node b.blk)

-- The length of the hole: written, none, or what a plain image leaves of a page.
abbrev hole_of : Image → ℕ
hole_of i =
    if packed_hole i then i.hole else if has i.info 0x1c then 0 else page_size - length i.bytes

abbrev pub image_of : Option Image → ImageHeader
image_of none = no_image
image_of (some i) = record {
  len = length i.bytes;
  hole_off = i.hole_off;
  hole_len = hole_of i;
  info = i.info;
  packed = has i.info 0x1c;
  present = true;
}

abbrev pub is_some {ℓ} : {A : Type ℓ} → Option A → Bool
is_some none = false
is_some (some a) = true

abbrev pub node_of : RelNode → Option RelNode → RelNode
node_of last none = last
node_of last (some r) = r

abbrev IsImage : Option Image → Type 0
IsImage none = Unit
IsImage (some i) = (length i.bytes < 2 ^ 16) × (i.hole_off < 2 ^ 16) × (i.hole < 2 ^ 16)

abbrev IsNode : Option RelNode → Type 0
IsNode none = Unit
IsNode (some r) = (r.spc < 2 ^ 32) × (r.db < 2 ^ 32) × (r.rel < 2 ^ 32)

-- The flags say what there is, and every number fits its field.
pub record IsBlock (b : Block) : Type 0 where
  pub id_small : b.id < 33
  pub image_flag : has b.flags 0x10 ≡ is_some b.image
  pub data_flag : has b.flags 0x20 ≡ not (length b.block_bytes == 0)
  pub same_flag : has b.flags 0x80 ≡ not (is_some b.node)
  pub data_small : length b.block_bytes < 2 ^ 16
  pub blk_small : b.blk < 2 ^ 32
  pub image_small : IsImage b.image
  pub node_small : IsNode b.node

pub cut-append : (xs ys : Bytes) {n : ℕ} → n ≡ length xs → cut n (xs ++ ys) ≡ some (xs, ys)
cut-append xs ys {n} e =
    let enough : ltb (length (xs ++ ys)) n ≡ false =
      le→ltb _ _ (omega (arith, length-append xs ys)) in
    rw (enough, take-append xs ys e, drop-append xs ys e) refl

-- The fixed part of the header of an image.
abbrev image_head : Image → Bytes
image_head i = le16 (length i.bytes) ++ (le16 i.hole_off ++ (i.info ∷ []))

hole_of-read :
    (i : Image) (rest : Bytes)
    → IsImage (some i)
    → read_hole (image_head i) ((if packed_hole i then le16 i.hole else []) ++ rest)
      ≡ some (image_of (some i), rest)
unfolding read_hole
hole_of-read i rest (h, k, l) =
    let len : u16 (image_head i) 0 ≡ length i.bytes = u16-le16 (length i.bytes) _ h in
    let off : u16 (image_head i) 2 ≡ i.hole_off = unfold u16 in omega arith in
    elim (Bool-cases (has i.info 0x1c)) [
      | inl packed ↦ elim (Bool-cases (has i.info 0x01)) [
        | inl holed ↦
            rw (packed, holed, cut-append (le16 i.hole) rest {n = 2} refl)
              (rw (u16-le16 i.hole [] l, len, off) refl)
        | inr whole ↦ rw (packed, whole) (rw (len, off) refl)
      ]
      | inr plain ↦ rw (plain) (rw (len, off) refl)
    ]

image_of-read :
    (flags : ℕ) (image : Option Image) (rest : Bytes)
    → has flags 0x10 ≡ is_some image
    → IsImage image
    → read_image_header flags (lay_image image ++ rest) ≡ some (image_of image, rest)
unfolding read_image_header
image_of-read flags none rest e s = rw e refl
image_of-read flags (some i) rest e s =
    rw
      (
        e,
        cut-append (image_head i) ((if packed_hole i then le16 i.hole else []) ++ rest) {n = 5}
            refl,
      )
      (hole_of-read i rest s)

node_of-read :
    (flags : ℕ) (last : RelNode) (node : Option RelNode) (blk : ℕ) (rest : Bytes)
    → has flags 0x80 ≡ not (is_some node)
    → IsNode node
    → blk < 2 ^ 32
    → read_node flags last (lay_node node blk ++ rest) ≡ some ((node_of last node, blk), rest)
unfolding read_node
node_of-read flags last none blk rest e s h =
    rw (e, cut-append (le32 blk) rest {n = 4} refl) (rw (u32-le32 blk [] h) refl)
node_of-read flags last (some r) blk rest e (h, k, l) m =
    let words : Bytes = le32 r.spc ++ (le32 r.db ++ (le32 r.rel ++ le32 blk)) in
    let spc : u32 words 0 ≡ r.spc = u32-le32 r.spc _ h in
    let db : u32 words 4 ≡ r.db = unfold u32 in omega arith in
    let rel : u32 words 8 ≡ r.rel = unfold u32 in omega arith in
    let at : u32 words 12 ≡ blk = unfold u32 in omega arith in
    rw (e, cut-append words rest {n = 16} refl) (rw (spc, db, rel, at) refl)

abbrev pub meta_of : RelNode → Block → Meta
meta_of last b =
    let i = image_of b.image in
    record {
      flags = b.flags;
      bimg = i.info;
      data_len = length b.block_bytes;
      img_len = i.len;
      img_hole_off = i.hole_off;
      img_hole_len = i.hole_len;
      node = node_of last b.node;
      blk = b.blk;
      packed = i.packed;
      has_image = i.present;
    }

meta_of-read :
    (last : RelNode) (b : Block) (rest : Bytes)
    → IsBlock b
    → read_meta last (lay_header b ++ rest) ≡ some (meta_of last b, rest)
unfolding read_meta
meta_of-read last b rest h =
    let head : Bytes = b.flags ∷ le16 (length b.block_bytes) in
    let apart : lay_header b ++ rest
        ≡ head ++ (lay_image b.image ++ (lay_node b.node b.blk ++ rest)) =
      ap (λ (t : Bytes). head ++ t)
        (append_assoc (lay_image b.image) (lay_node b.node b.blk) rest) in
    let size : u16 head 1 ≡ length b.block_bytes =
      let s = h.data_small in unfold u16 in omega arith in
    ap (read_meta last) apart
    ∙ rw (cut-append head (lay_image b.image ++ (lay_node b.node b.blk ++ rest)) {n = 3} refl) (
        rw
          (
            image_of-read b.flags b.image (lay_node b.node b.blk ++ rest) h.image_flag
                h.image_small,
            node_of-read b.flags last b.node b.blk rest h.same_flag h.node_small h.blk_small,
            size,
          )
          refl)

abbrev pub lay_headers : List Block → Bytes
lay_headers [] = []
lay_headers (b ∷ blocks) = b.id ∷ (lay_header b ++ lay_headers blocks)

abbrev pub metas_of : RelNode → List Block → List Meta
metas_of last [] = []
metas_of last (b ∷ blocks) = meta_of last b ∷ metas_of (node_of last b.node) blocks

abbrev pub last_of : RelNode → List Block → RelNode
last_of last [] = last
last_of last (b ∷ blocks) = last_of (node_of last b.node) blocks

-- What follows the header of a block.
abbrev next_header : ℕ → List Meta → ℕ → Meta × Bytes → Option Headers
next_header n metas top (m, b) = read_headers n (metas ++ (m ∷ [])) m.node top b

read_headers-block :
    (n : ℕ) (metas : List Meta) (last : RelNode) (top id : ℕ) (b : Bytes)
    → id < 33
    → read_headers (suc n) metas last top (id ∷ b) ≡ (read_meta last b >>= next_header n metas top)
unfolding read_headers
read_headers-block n metas last top id b h =
    let below : ltb 32 id ≡ false = le→ltb _ _ (omega arith) in
    rw
      (
        ==_ne id 255 (omega arith),
        ==_ne id 254 (omega arith),
        ==_ne id 253 (omega arith),
        ==_ne id 252 (omega arith),
        below,
      )
      refl

-- Each header takes a round.
pub read_headers-blocks :
    (m n : ℕ) (blocks : List Block) (metas : List Meta) (last : RelNode) (top : ℕ) (rest : Bytes)
    → m ≡ length blocks + n
    → All IsBlock blocks
    → read_headers m metas last top (lay_headers blocks ++ rest)
      ≡ read_headers n (metas ++ metas_of last blocks) (last_of last blocks) top rest
read_headers-blocks m n [] metas last top rest e a =
    let same : m ≡ n = omega arith in rw (append-nil metas, same) refl
read_headers-blocks zero n (b ∷ blocks) metas last top rest e a = absurd (omega arith)
read_headers-blocks (suc m) n (b ∷ blocks) metas last top rest e a =
    let more = lay_headers blocks ++ rest in
    let read : read_meta last ((lay_header b ++ lay_headers blocks) ++ rest)
        ≡ some (meta_of last b, more) =
      ap (read_meta last) (append_assoc (lay_header b) (lay_headers blocks) rest)
      ∙ meta_of-read last b more a.0 in
    read_headers-block m metas last top b.id _ a.0.id_small
    ∙ ap (λ o. o >>= next_header m metas top) read
    ∙ read_headers-blocks m n blocks (metas ++ (meta_of last b ∷ [])) (node_of last b.node) top rest
        (omega arith) a.1
    ∙ ap (λ ms. read_headers n ms (last_of last (b ∷ blocks)) top rest)
        (append_assoc metas (meta_of last b ∷ []) (metas_of (node_of last b.node) blocks))
