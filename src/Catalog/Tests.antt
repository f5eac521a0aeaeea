-- ===== src/Catalog/Tests.antt =====
-- A table made by two rows of the catalog, and the theorems on the catalog at it.
use db_flashback.Base.{ℕ, ◌≡◌, refl, false, Option, none, some, List, [], ◌∷◌, lookup}
use db_flashback.Catalog.Impl.{user_relation, discard_xid}
use db_flashback.Catalog.Rows.{apply}
use db_flashback.Catalog.Values.{parse_u32}
use db_flashback.Catalog.Steps.{row, discarded, here, next, user_relation-Reach}
use db_flashback.Catalog.{Mut, CatalogState}
use db_flashback.Change.{Text, Row, Change, op_insert}
use db_flashback.Dict.{Relation}
use db_flashback.Heap.Holds.{Holds}
use db_flashback.Sql.Words.{text}

abbrev empty : CatalogState
empty = record {
  by_node = [];
  namespaces = [];
  types = [];
  classes = [];
  attrs = [];
  node_to_oid = [];
  graveyard_class = [];
  graveyard_attrs = [];
  primary_keys = [];
  defaults = [];
  pending = [];
}

abbrev catalog_table : Text → Relation
catalog_table name = record {
  schema = text "pg_catalog";
  name = name;
  oid = 1259;
  rel_node = 1259;
  toast_node = 0;
  toast_oid = 0;
  db_oid = 5;
  pk_cols = [];
  columns = [];
  missing = false;
  has_toast = false;
}

abbrev class_row : Row
class_row =
    (text "oid", text "700")
    ∷ ((text "relname", text "t")
        ∷ ((text "relkind", text "r") ∷ ((text "relfilenode", text "800") ∷ [])))

abbrev attr_row : Row
attr_row =
    (text "attrelid", text "700") ∷ ((text "attnum", text "1") ∷ ((text "attname", text "a") ∷ []))

abbrev with_class : CatalogState
with_class = apply empty 7 (catalog_table (text "pg_class")) op_insert [] class_row

abbrev with_attr : CatalogState
with_attr = apply with_class 7 (catalog_table (text "pg_attribute")) op_insert [] attr_row

abbrev no_statements : CatalogState → ℕ → List Mut → List Change
no_statements c xid muts = []

abbrev name_of : Option Relation → Text
name_of none = []
name_of (some rel) = rel.name

-- The table is found at the node of its row.
found : name_of (user_relation with_attr 800) ≡ text "t"
unfolding user_relation apply parse_u32
found = refl

user_relation-Reach_example :
    Holds (λ (rel : Relation). rel.rel_node ≡ 800) (user_relation (discard_xid with_attr 7) 800)
user_relation-Reach_example =
    user_relation-Reach no_statements empty (discard_xid with_attr 7) 800
      (λ node oid e. unfold lookup in absurd cc)
      (next
        (next (next here (row empty 7 (catalog_table (text "pg_class")) op_insert [] class_row))
          (row with_class 7 (catalog_table (text "pg_attribute")) op_insert [] attr_row))
        (discarded with_attr 7))
