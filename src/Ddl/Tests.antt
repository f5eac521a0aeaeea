-- ===== src/Ddl/Tests.antt =====
-- Statements of small transactions of the catalog.
use db_flashback.Base.{ℕ, ◌≡◌, refl, List, [], ◌∷◌, All}
use db_flashback.Catalog.Values.{parse_u32, parse_int}
use db_flashback.Catalog.{Mut, CatalogState}
use db_flashback.Change.{Text, Row, Op, Change, op_insert, op_update, op_delete}
use db_flashback.Ddl.Statements.{unless, synthesize_ddl}
use db_flashback.Ddl.Table.{catalog_qual, format_create_table}
use db_flashback.Ddl.Undo.{Answered, synthesize_ddl-Answered}
use db_flashback.Sql.Clause.{qualified}
use db_flashback.Sql.Words.{text}

abbrev empty_catalog : CatalogState
empty_catalog = record {
  by_node = [];
  namespaces = (2200, text "public") ∷ [];
  types = [];
  classes = [];
  attrs = [];
  node_to_oid = [];
  graveyard_class = [];
  graveyard_attrs = [];
  primary_keys = [];
  defaults = [];
  pending = [];
}

abbrev table_row : Text → Row
table_row name =
    (text "oid", text "700")
    ∷ ((text "relname", name)
        ∷ ((text "relkind", text "r") ∷ ((text "relnamespace", text "2200") ∷ [])))

abbrev column_row : Row
column_row =
    (text "attrelid", text "700") ∷ ((text "attnum", text "1") ∷ ((text "attname", text "a") ∷ []))

abbrev mut : Text → Op → Row → Row → Mut
mut rel op old new = record {
  xid = 7;
  rel = rel;
  op = op;
  old_row = old;
  new_row = new;
  rel_node = 0;
}

abbrev created_table : List Mut
created_table =
    mut (text "pg_class") op_insert [] (table_row (text "t"))
    ∷ (mut (text "pg_attribute") op_insert [] column_row ∷ [])

abbrev renamed_table : List Mut
renamed_table = mut (text "pg_class") op_update (table_row (text "t")) (table_row (text "u")) ∷ []

abbrev dropped_table : List Mut
dropped_table = mut (text "pg_class") op_delete (table_row (text "t")) [] ∷ []

abbrev same : ℕ → ℕ
same n = n

abbrev redos : List Change → List Text
redos [] = []
redos (c ∷ cs) = c.ddl_redo ∷ redos cs

abbrev undos : List Change → List Text
undos [] = []
undos (c ∷ cs) = c.ddl_undo ∷ undos cs

create_redo :
    redos (synthesize_ddl same empty_catalog 7 created_table)
    ≡ text "CREATE TABLE \"public\".\"t\" (\"a\" text);" ∷ []
unfolding synthesize_ddl parse_u32 parse_int unless catalog_qual format_create_table
create_redo = refl

rename_undo :
    undos (synthesize_ddl same empty_catalog 7 renamed_table)
    ≡ text "ALTER TABLE \"public\".\"u\" RENAME TO \"t\";" ∷ []
unfolding synthesize_ddl parse_u32 unless qualified catalog_qual
rename_undo = refl

drop_without_columns : undos (synthesize_ddl same empty_catalog 7 dropped_table) ≡ [] ∷ []
unfolding synthesize_ddl parse_u32 unless catalog_qual format_create_table
drop_without_columns = refl

synthesize_ddl-Answered_example :
    All (Answered 7) (synthesize_ddl same empty_catalog 7 created_table)
synthesize_ddl-Answered_example = synthesize_ddl-Answered same empty_catalog 7 created_table
