-- ===== src/Heap/Known.antt =====
-- Records whose first block belongs to a known user table of the wanted database: what the table's
-- part of the decoder gives is what the record gives.
use db_flashback.Base.{
  ℕ, ◌+◌, ◌≤◌, ◌≡◌, refl, ◌∙◌, inl, inr, true, false, Option, none, some, List, ◌∷◌, ltb, ◌==◌,
  le→ltb, Option-cases, length, drop,
}
use db_flashback.Bytes.{Bytes, byte, u32}
use db_flashback.Change.{Change}
use db_flashback.Dict.{Relation, Dictionary}
use db_flashback.Fpw.{Codecs}
use db_flashback.Heap.Decode.{heap_op, user_heap}
use db_flashback.Heap.Dispatch.{
  decode_heap_record, decode_body, decode_block, match_catalog, match_user, count_heap, top_or,
}
use db_flashback.Heap.Total.{ingest_blocks-IsSome}
use db_flashback.Heap.World.{
  Catalog, World, catalog_decoder, cache_wanted_fpw, lookup_rel, in_database, pick_block,
}
use db_flashback.Record.{BlockData, Body, split_xlog_body}
use db_flashback.Tuple.{Printer}

module _ {K : Type 0} (cat : Catalog K) (dict : Dictionary) (dboid : ℕ) (w : World K) (rec : Bytes)
    (body : Body) (blk : BlockData) (rel : Relation) where
  -- A whole heap record that splits, whose first block is one of the wanted database and of a table
  -- that the dictionary or the catalog knows as a user table.
  pub record IsOfTable (blocks : List BlockData) : Type 0 where
    pub whole : 24 ≤ length rec
    pub heap : byte rec 17 ≡ 10
    pub splits : split_xlog_body (drop 24 rec) ≡ some body
    pub first : body.blocks ≡ blk ∷ blocks
    pub wanted : in_database dboid blk ≡ true
    pub known : lookup_rel cat dict w.catalog blk.rel_node ≡ some rel
    pub user : catalog_decoder cat dict w.catalog blk.rel_node ≡ none

module _ {K : Type 0} (pr : Printer) (codecs : Codecs) (cat : Catalog K) (dict : Dictionary)
    (dboid : ℕ) where
  cache_wanted_fpw-catalog :
      (blocks : List BlockData) (w : World K)
      → (cache_wanted_fpw cat dict codecs blocks w).catalog ≡ w.catalog
  unfolding cache_wanted_fpw
  cache_wanted_fpw-catalog blocks w = elim (Option-cases w.fpw) [
    | inl e ↦ rw e refl
    | inr (c, e) ↦ rw e refl
  ]

  -- The first block of a record, of the wanted database and a known table, is the one decoded.
  pick_block-first :
      (k : Option K) (b : BlockData) (blocks : List BlockData) (rel : Relation)
      → in_database dboid b ≡ true
      → lookup_rel cat dict k b.rel_node ≡ some rel
      → pick_block cat dict dboid k (b ∷ blocks) ≡ some (rel, b)
  unfolding pick_block
  pick_block-first k b blocks rel here known = rw (here, known) refl

  match_catalog-none :
      (k : Option K) (w : World K) (xid info : ℕ) (rel : Relation) (blk : BlockData) (main : Bytes)
      → match_catalog pr codecs cat dict dboid k none w xid 10 info rel blk main
        ≡ match_user pr codecs cat dict dboid w xid 10 info rel blk main
  match_catalog-none none w xid info rel blk main = refl
  match_catalog-none (some k) w xid info rel blk main = refl

  decode_block-user :
      (w : World K) (xid info : ℕ) (rel : Relation) (blk : BlockData) (main : Bytes)
      (out : List Change)
      → catalog_decoder cat dict w.catalog blk.rel_node ≡ none
      → ((v : World K)
          → (v' : World K) × (user_heap pr codecs v xid 10 info rel blk main ≡ some (v', out)))
      → (w' : World K) × (decode_block pr codecs cat dict dboid w xid 10 info (some (rel, blk)) main
          ≡ some (w', out))
  unfolding decode_block
  decode_block-user w xid info rel blk main out user gives =
      let (w', e) = gives (record w { stats = record w.stats { matched = w.stats.matched + 1 } }) in
      (w', rw user (match_catalog-none w.catalog w xid info rel blk main ∙ e))

  decode_body-user :
      (w : World K) (xid info : ℕ) (body : Body) (blk : BlockData) (blocks : List BlockData)
      (rel : Relation) (out : List Change)
      → body.blocks ≡ blk ∷ blocks
      → in_database dboid blk ≡ true
      → lookup_rel cat dict w.catalog blk.rel_node ≡ some rel
      → catalog_decoder cat dict w.catalog blk.rel_node ≡ none
      → ((v : World K)
          → (v' : World K) × (user_heap pr codecs v (top_or body.top xid) 10 info rel blk body.main
              ≡ some (v', out)))
      → (w' : World K) × (decode_body pr codecs cat dict dboid w xid 10 info body ≡ some (w', out))
  unfolding decode_body
  decode_body-user w xid info body blk blocks rel out first here known user gives =
      let w1 = count_heap pr codecs cat dict dboid w body.blocks in
      let w2 = cache_wanted_fpw cat dict codecs body.blocks w1 in
      let same : w2.catalog ≡ w.catalog = cache_wanted_fpw-catalog body.blocks w1 in
      let (toast, taken) =
        ingest_blocks-IsSome pr codecs cat dict dboid w2.toast 10 info body.blocks body.main in
      let picked : pick_block cat dict dboid w2.catalog body.blocks ≡ some (rel, blk) =
        rw (same, first) (pick_block-first w.catalog blk blocks rel here known) in
      let user' : catalog_decoder cat dict w2.catalog blk.rel_node ≡ none = rw same user in
      let (w', e) =
        decode_block-user (record w2 { toast = toast }) (top_or body.top xid) info rel blk body.main
          out user' gives in
      (w', rw (taken, picked) e)

  pub decode_heap_record-user :
      (w : World K) (rec : Bytes) (body : Body) (blk : BlockData) (blocks : List BlockData)
      (rel : Relation) (out : List Change)
      → IsOfTable cat dict dboid w rec body blk rel blocks
      → (heap_op (byte rec 16) == 0x30) ≡ false
      → ((v : World K)
          → (v' : World K) × (user_heap pr codecs v
                (top_or body.top (u32 rec 4))
                10
                (byte rec 16)
                rel
                blk
                body.main
              ≡ some (v', out)))
      → (w' : World K) × (decode_heap_record pr codecs cat dict dboid w rec ≡ some (w', out))
  unfolding decode_heap_record
  decode_heap_record-user w rec body blk blocks rel out h op gives =
      let size : ltb (length rec) 24 ≡ false = le→ltb _ _ h.whole in
      let (w', e) =
        decode_body-user w (u32 rec 4) (byte rec 16) body blk blocks rel out h.first h.wanted
          h.known h.user gives in
      (w', rw (size, h.heap, op) (rw (h.splits, h.heap) e))
