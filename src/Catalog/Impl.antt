-- ===== src/Catalog/Impl.antt =====
-- User tables by the node of their data, and what the record decoder calls on the catalog,
-- internal/service/flashback_catalog.go.
use db_flashback.Base.{
  ℕ, Bool, false, ◌||◌, Option, none, some, List, [], ◌∷◌, ◌++◌, map, ltb, ◌==◌, if◌then◌else◌,
  lookup, remove, keys,
}
use db_flashback.Catalog.Rows.{apply, typed}
use db_flashback.Catalog.Values.{or_text}
use db_flashback.Catalog.{
  Class, Attr, Mut, CatalogState, text_or_nil, list_or_nil, number_or_zero, attrs_of,
}
use db_flashback.Change.{Text, Change}
use db_flashback.Datum.{Typalign, align_char, align_short, align_int, align_other}
use db_flashback.Dict.{Column, Relation}
use db_flashback.Heap.World.{Catalog}
use db_flashback.Sql.Words.{text, is_blank, same_text}
use db_flashback.Txn.{sort_xids}

-- The alignments that `flashbackAlign` tells apart.
abbrev pub typalign_of : Text → Typalign
typalign_of v =
    if same_text v (text "c")
    then align_char
    else if same_text v (text "s")
    then align_short
    else if same_text v (text "i")
    then align_int
    else align_other

-- `sort.Ints` of the numbers of the columns.
abbrev insert_attr : ℕ × Attr → List (ℕ × Attr) → List (ℕ × Attr)
insert_attr a [] = a ∷ []
insert_attr a (b ∷ bs) = if ltb b.0 a.0 then b ∷ insert_attr a bs else a ∷ (b ∷ bs)

unfoldable pub sort_attrs : List (ℕ × Attr) → List (ℕ × Attr)
sort_attrs [] = []
sort_attrs (a ∷ attrs) = insert_attr a (sort_attrs attrs)

-- A column that has no type name gets what is missing from its type.
abbrev pub column_of : CatalogState → Attr → Column
column_of c a =
    let b = if is_blank a.type_name then typed a (lookup a.type_oid c.types) else a in
    record {
      name = b.name;
      att_num = b.att_num;
      type_name = b.type_name;
      type_oid = b.type_oid;
      typlen = b.typlen;
      typalign = typalign_of b.align;
      not_null = b.not_null;
      is_pk = false;
      dropped = b.dropped;
    }

abbrev pub is_table : Class → Bool
is_table cl = same_text cl.kind (text "r") || (same_text cl.kind (text "p") || is_blank cl.kind)

abbrev pub table_of : CatalogState → Class → List Column → Relation
table_of c cl columns = record {
  schema = or_text (text_or_nil (lookup cl.namespace c.namespaces)) (text "public");
  name = cl.name;
  oid = cl.oid;
  rel_node = cl.rel_node;
  toast_node = 0;
  toast_oid = 0;
  db_oid = 0;
  pk_cols = [];
  columns = columns;
  missing = false;
  has_toast = false;
}

abbrev pub with_columns : CatalogState → Class → List Column → Option Relation
with_columns c cl [] = none
with_columns c cl (col ∷ cols) = some (table_of c cl (col ∷ cols))

abbrev pub table_at : CatalogState → ℕ → Option Relation
table_at c oid = elim (lookup oid c.classes) [
  | none ↦ none
  | some cl ↦
      if is_table cl
      then with_columns c cl (map (λ a. column_of c a.1) (sort_attrs (attrs_of c oid)))
      else none
]

-- `userRelation`
unfoldable pub user_relation : CatalogState → ℕ → Option Relation
unfolding lookup sort_attrs
user_relation c rel_node =
    let oid = number_or_zero (lookup rel_node c.node_to_oid) in
    if rel_node == 0 then none else if oid == 0 then none else table_at c oid

-- `discardXID`
unfoldable pub discard_xid : CatalogState → ℕ → CatalogState
unfolding remove
discard_xid c xid = record c { pending = remove xid c.pending }

-- `ddl` makes the statements of the changes of a transaction, `flashbackSynthesizeDDL`.
module _ (ddl : CatalogState → ℕ → List Mut → List Change) where
  -- `flushXID`
  unfoldable pub flush_xid : CatalogState → ℕ → CatalogState × List Change
  unfolding lookup discard_xid
  flush_xid c xid =
      let after = discard_xid c xid in (after, ddl after xid (list_or_nil (lookup xid c.pending)))

  abbrev flush_each : CatalogState → List ℕ → List Change → CatalogState × List Change
  flush_each c [] out = (c, out)
  flush_each c (xid ∷ xids) out = let (c, more) = flush_xid c xid in flush_each c xids (out ++ more)

  -- `flushAll`
  unfoldable pub flush_all : CatalogState → CatalogState × List Change
  unfolding flush_xid sort_xids
  flush_all c = flush_each c (sort_xids (keys c.pending)) []

  -- The catalog as the record decoder calls it.
  abbrev pub tracked : Catalog CatalogState
  tracked = record {
    decoder = λ c rel_node. lookup rel_node c.by_node;
    user_relation = user_relation;
    apply = apply;
    flush_xid = flush_xid;
    discard_xid = discard_xid;
  }
