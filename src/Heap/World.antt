-- ===== src/Heap/World.antt =====
-- What the record decoder of internal/service/flashback_walparse.go reads and writes besides the
-- record: the dictionary with its cache of out-of-line values and its catalog, the page cache and
-- the counters. The dictionary and the counters are not nil.
use db_flashback.Base.{
  ℕ, ◌+◌, Bool, true, false, not, ◌||◌, Option, none, some, List, [], ◌∷◌, ◌==◌, if◌then◌else◌,
  length, lookup,
}
use db_flashback.Change.{Row, Op, Change}
use db_flashback.Dict.{Relation, Dictionary, toast_owner}
use db_flashback.Fpw.Cache.{FpwCache, set}
use db_flashback.Fpw.{Codecs, page_size}
use db_flashback.Heap.Rows.{fpw_key}
use db_flashback.Heap.Stats.{Stats}
use db_flashback.Record.{BlockData, rebuild_fpw}
use db_flashback.Toast.{ToastCache}

-- What is called on `flashbackCatalog`: the decoders of catalog tables and of user tables, the
-- change of a catalog row, and the end of a transaction.
pub record Catalog (K : Type 0) : Type 0 where
  pub decoder : K → ℕ → Option Relation
  pub user_relation : K → ℕ → Option Relation
  pub apply : K → ℕ → Relation → Op → Row → Row → K
  pub flush_xid : K → ℕ → K × List Change
  pub discard_xid : K → ℕ → K

pub record World (K : Type 0) : Type 0 where
  pub toast : Option ToastCache
  pub catalog : Option K
  pub fpw : Option FpwCache
  pub stats : Stats

abbrev pub first_some {ℓ} : {A : Type ℓ} → Option A → Option A → Option A
first_some none next = next
first_some (some a) next = some a

abbrev pub not_missing : Option Relation → Option Relation
not_missing none = none
not_missing (some rel) = if rel.missing then none else some rel

abbrev pub is_there {ℓ} : {A : Type ℓ} → Option A → Bool
is_there none = false
is_there (some a) = true

-- A block of the wanted database, or of no database.
abbrev pub in_database : ℕ → BlockData → Bool
in_database dboid b = (dboid == 0) || ((b.db_node == 0) || (b.db_node == dboid))

module _ {K : Type 0} (cat : Catalog K) (dict : Dictionary) where
  -- `dict.Catalog.decoder(…)`, nothing without a catalog.
  abbrev pub catalog_decoder : Option K → ℕ → Option Relation
  catalog_decoder none rel_node = none
  catalog_decoder (some k) rel_node = cat.decoder k rel_node

  abbrev pub user_table : Option K → ℕ → Option Relation
  user_table none rel_node = none
  user_table (some k) rel_node = cat.user_relation k rel_node

  -- `lookupRel`
  unfoldable pub lookup_rel : Option K → ℕ → Option Relation
  unfolding lookup
  lookup_rel k rel_node =
      first_some (not_missing (lookup rel_node dict.by_rel_node))
        (first_some (catalog_decoder k rel_node) (user_table k rel_node))

  -- The lookup of a truncated table.
  unfoldable pub truncated_rel : Option K → ℕ → Option Relation
  unfolding lookup
  truncated_rel k rel_id = first_some (lookup rel_id dict.by_rel_node) (user_table k rel_id)

  -- `flashbackWantFPW`
  unfoldable pub want_fpw : Option K → ℕ → Bool
  unfolding lookup
  want_fpw k rel_node =
      is_there (lookup rel_node dict.by_rel_node)
      || (is_there (toast_owner dict rel_node) || is_there (catalog_decoder k rel_node))

  -- The counting of a page that is kept.
  abbrev pub count_fpw : BlockData → Stats → Stats
  count_fpw b s = record s {
    fpw = s.fpw + 1;
    fpw_decompress = s.fpw_decompress + (if b.compressed then 1 else 0);
  }

  -- One round of `flashbackCacheWantedFPW`.
  unfoldable pub cache_block : Codecs → Option K → BlockData → FpwCache → Stats → FpwCache × Stats
  unfolding want_fpw
  cache_block codecs k b c s =
      let page = rebuild_fpw codecs b in
      if not (want_fpw k b.rel_node)
      then (c, s)
      else if not (length page == page_size)
      then (c, s)
      else (set c (fpw_key b.rel_node b.blkno) page, count_fpw b s)

  unfoldable pub cache_blocks :
      Codecs → Option K → List BlockData → FpwCache → Stats → FpwCache × Stats
  unfolding cache_block
  cache_blocks codecs k [] c s = (c, s)
  cache_blocks codecs k (b ∷ blocks) c s =
      let (c, s) = cache_block codecs k b c s in cache_blocks codecs k blocks c s

  -- `flashbackCacheWantedFPW`
  unfoldable pub cache_wanted_fpw : Codecs → List BlockData → World K → World K
  unfolding cache_blocks
  cache_wanted_fpw codecs blocks w = elim w.fpw [
    | none ↦ w
    | some c ↦
        let (c', s) = cache_blocks codecs w.catalog blocks c w.stats in
        record w { fpw = some c'; stats = s }
  ]

  -- The first block whose table is known, of those that pass the test.
  unfoldable pub first_known :
      (BlockData → Bool) → Option K → List BlockData → Option (Relation × BlockData)
  unfolding lookup_rel
  first_known test k [] = none
  first_known test k (b ∷ blocks) =
      let later = first_known test k blocks in
      if test b
      then elim (lookup_rel k b.rel_node) [ none ↦ later | some rel ↦ some (rel, b) ]
      else later

  -- `rel` and `blk`: first among the blocks of the database, then among all.
  unfoldable pub pick_block : ℕ → Option K → List BlockData → Option (Relation × BlockData)
  unfolding first_known
  pick_block dboid k blocks =
      first_some (first_known (in_database dboid) k blocks) (first_known (λ b. true) k blocks)
