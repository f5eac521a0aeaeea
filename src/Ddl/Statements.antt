-- ===== src/Ddl/Statements.antt =====
-- The statements of the tables that a transaction changed: the loops behind the first one of
-- flashbackSynthesizeDDL of internal/service/flashback_ddl.go.
use db_flashback.Base.{
  ℕ, Bool, not, ◌&&◌, ◌||◌, List, [], ◌∷◌, ◌++◌, map, ◌==◌, if◌then◌else◌, mem, lookup,
}
use db_flashback.Catalog.Rows.{is_catalog_rel_name}
use db_flashback.Catalog.Values.{u32_field, show_number}
use db_flashback.Catalog.{Attr, Mut, CatalogState, list_or_nil}
use db_flashback.Change.{Text, Row, Op, Change, blank_change, op_create, op_drop, op_alter}
use db_flashback.Ddl.Table.{
  catalog_qual, new_columns, ddl_type_name, column_definition, format_create_table,
}
use db_flashback.Ddl.{Added, new_column, renamed, Seen, nothing_seen, see_all}
use db_flashback.Sql.Clause.{quote_ident, qualified, join_risk}
use db_flashback.Sql.Words.{text, is_blank, same_text, has_prefix, contains, trim_space}

-- `uniqueU32`
abbrev pub unique : List ℕ → List ℕ → List ℕ
unique seen [] = []
unique seen (v ∷ vs) =
    let skipped = unique seen vs in
    let kept = unique (v ∷ seen) vs in if mem v seen then skipped else v ∷ kept

abbrev pub row_of : ℕ → List (ℕ × Row) → Row
row_of oid rows = list_or_nil (lookup oid rows)

-- No name, or one of a side table or a temporary schema.
abbrev pub no_table : Text → Bool
no_table table = is_blank table || is_catalog_rel_name table

-- `flashbackIsSystemNamespace`
abbrev pub is_system_namespace : (ℕ → ℕ) → Text → Bool
is_system_namespace to_lower name =
    let n = map to_lower (trim_space name) in
    same_text n (text "pg_catalog")
    || (same_text n (text "information_schema")
        || (has_prefix n (text "pg_toast") || has_prefix n (text "pg_temp")))

-- A change of a table by statements.
abbrev pub ddl_change : ℕ → Text → Text → Op → Text → Text → Text → Change
ddl_change xid schema table op redo undo risk = record blank_change {
  xid = xid;
  schema = schema;
  table = table;
  op = op;
  ddl_redo = redo;
  ddl_undo = undo;
  ddl_risk = risk;
}

abbrev pub drop_table_sql : Text → Text → Text
drop_table_sql schema table = text "DROP TABLE IF EXISTS " ++ (qualified schema table ++ text ";")

abbrev pub alter_sql : Text → Text → Text → Text
alter_sql schema table what =
    text "ALTER TABLE " ++ (qualified schema table ++ (text " " ++ (what ++ text ";")))

abbrev pub rename_to : Text → Text
rename_to name = text "RENAME TO " ++ quote_ident name

abbrev pub rename_column : Text → Text → Text
rename_column old new =
    text "RENAME COLUMN " ++ (quote_ident old ++ (text " TO " ++ quote_ident new))

abbrev pub drop_column_sql : Text → Text
drop_column_sql name = text "DROP COLUMN IF EXISTS " ++ quote_ident name

abbrev pub rename_schema_sql : Text → Text → Text
rename_schema_sql old new =
    text "ALTER SCHEMA "
    ++ (quote_ident old ++ (text " RENAME TO " ++ (quote_ident new ++ text ";")))

-- The first pair that names a table.
abbrev pub or_qual : Text × Text → Text × Text → Text × Text
or_qual (schema, []) next = next
or_qual (schema, c ∷ table) next = (schema, c ∷ table)

-- `if b { continue }`
unfoldable pub unless : Bool → List Change → List Change
unless b cs = if b then [] else cs

-- The changes of a loop over a list.
abbrev pub each {ℓ} : {A : Type ℓ} → (A → List Change) → List A → List Change
each f [] = []
each f (a ∷ items) = f a ++ each f items

module _ (to_lower : ℕ → ℕ) (cat : CatalogState) (xid : ℕ) (s : Seen) where
  unfoldable pub created_change : ℕ → List Change
  unfolding lookup
  created_change oid =
      let row = row_of oid s.class_new in
      let (schema, table) = catalog_qual cat row oid in
      let (stmt, risk) =
        format_create_table to_lower cat schema table oid
          (new_columns (list_or_nil (lookup oid s.added_cols))) in
      unless (no_table table) (
        record (ddl_change xid schema table op_create stmt (drop_table_sql schema table) risk) {
          rel_node = u32_field (text "relfilenode") row;
        }
        ∷ [])

  -- A table of which only the number is known.
  abbrev pub unnamed_change : ℕ → Change
  unnamed_change oid =
      ddl_change xid (text "pg_catalog") (text "oid_" ++ show_number oid) op_drop
        (text "-- DROP TABLE oid=" ++ (show_number oid ++ text " (缺名称)")) []
        (text "缺旧行图像，无法还原 CREATE TABLE")

  abbrev pub dropped_named : Text → Text → Text × Text → Change
  dropped_named schema table (create, risk) =
      if is_blank create || not (contains create (text "("))
      then ddl_change xid schema table op_drop (drop_table_sql schema table) []
          (join_risk risk (text "缺旧行图像，无法还原完整 CREATE TABLE"))
      else ddl_change xid schema table op_drop (drop_table_sql schema table) create risk

  unfoldable pub dropped_change : ℕ → List Change
  unfolding lookup
  dropped_change oid =
      let row = row_of oid s.class_old in
      let (schema, table) = catalog_qual cat row oid in
      let named = u32_field (text "oid") row in
      let create =
        format_create_table to_lower cat schema table oid
          (list_or_nil (lookup oid s.dropped_cols)) in
      if is_blank table && not (named == 0)
      then unnamed_change named ∷ []
      else unless (no_table table) (dropped_named schema table create ∷ [])

  unfoldable pub renamed_change : ℕ × (Text × Text) → List Change
  unfolding lookup
  renamed_change (oid, (old, new)) =
      let schema = (catalog_qual cat (row_of oid s.class_new) oid).0 in
      unless (mem oid s.created || mem oid s.dropped) (
        ddl_change xid schema new op_alter (alter_sql schema old (rename_to new))
          (alter_sql schema new (rename_to old)) []
        ∷ [])

  abbrev pub hidden : Text → Bool
  hidden name = is_blank name || contains name (text "pg.dropped")

  unfoldable pub added_change : Text → Text → Added → List Change
  added_change schema table (renamed old new) =
      ddl_change xid schema table op_alter (alter_sql schema table (rename_column old new))
        (alter_sql schema table (rename_column new old)) []
      ∷ []
  added_change schema table (new_column a) =
      let def = column_definition to_lower a (ddl_type_name to_lower a.type_name) in
      unless (a.dropped || hidden a.name) (
        ddl_change xid schema table op_alter (alter_sql schema table (text "ADD COLUMN " ++ def))
          (alter_sql schema table (drop_column_sql a.name)) []
        ∷ [])

  unfoldable pub added_changes : ℕ × List Added → List Change
  unfolding lookup added_change
  added_changes (oid, added) =
      let (schema, table) =
        or_qual (catalog_qual cat (row_of oid s.class_new) oid) (catalog_qual cat [] oid) in
      unless (mem oid s.created) (unless (no_table table) (each (added_change schema table) added))

  unfoldable pub dropped_column_change : Text → Text → Attr → List Change
  dropped_column_change schema table a =
      let def = column_definition to_lower a (ddl_type_name to_lower a.type_name) in
      let undo : Text = alter_sql schema table (text "ADD COLUMN " ++ def) in
      let no_type = is_blank a.type_name in
      unless (hidden a.name) (
        ddl_change xid schema table op_alter (alter_sql schema table (drop_column_sql a.name))
          (if no_type then [] else undo) (if no_type then text "缺旧列类型，无法还原 ADD COLUMN" else [])
        ∷ [])

  unfoldable pub dropped_columns_change : ℕ × List Attr → List Change
  unfolding lookup dropped_column_change
  dropped_columns_change (oid, cols) =
      let (schema, table) =
        or_qual (catalog_qual cat (row_of oid s.class_new) oid)
          (or_qual (catalog_qual cat (row_of oid s.class_old) oid) (catalog_qual cat [] oid)) in
      unless (mem oid s.dropped)
        (unless (no_table table) (each (dropped_column_change schema table) cols))

  unfoldable pub ns_renamed_change : ℕ × (Text × Text) → List Change
  ns_renamed_change (oid, (old, new)) =
      unless (is_system_namespace to_lower old || is_system_namespace to_lower new) (
        ddl_change xid new [] op_alter (rename_schema_sql old new) (rename_schema_sql new old) []
        ∷ [])

  -- The changes in the order of the loops.
  unfoldable pub all_changes : List Change
  unfolding created_change dropped_change renamed_change added_changes dropped_columns_change
      ns_renamed_change
  all_changes =
      each created_change (unique [] s.created)
      ++ (each dropped_change (unique [] s.dropped)
          ++ (each renamed_change s.renames
              ++ (each added_changes s.added_cols
                  ++ (each dropped_columns_change s.dropped_cols
                      ++ each ns_renamed_change s.ns_renames))))

-- `flashbackSynthesizeDDL`
unfoldable pub synthesize_ddl : (ℕ → ℕ) → CatalogState → ℕ → List Mut → List Change
unfolding see_all all_changes
synthesize_ddl to_lower cat xid [] = []
synthesize_ddl to_lower cat xid (m ∷ muts) =
    all_changes to_lower cat xid (see_all cat (m ∷ muts) nothing_seen)
