-- ===== src/Ddl/Reverse.antt =====
-- Statements on tables and which one takes another back, for those that flashbackSynthesizeDDL of
-- internal/service/flashback_ddl.go makes.
use db_flashback.Base.{
  ℕ, ◌≡◌, refl, ◌⊎◌, inl, inr, false, List, [], ◌∷◌, ◌++◌, append_assoc, if◌then◌else◌,
}
use db_flashback.Catalog.{CatalogState, Attr}
use db_flashback.Change.{Text, Op, Change, op_create, op_drop, op_alter}
use db_flashback.Ddl.Table.{create_table, format_create_table, table_columns, column_definition}
use db_flashback.Sql.Clause.{quote_ident, qualified}
use db_flashback.Sql.Words.{text, is_blank}

-- A statement on a table, after its schema and its name, or on a schema. `body` is the list of
-- columns and keys, `rest` what stands behind the name of a column.
pub data Statement : Type 0 where
  table_create : (schema table body : Text) → Statement
  table_drop : (schema table body : Text) → Statement
  add_column drop_column : (schema table name rest : Text) → Statement
  rename_table : (schema old new : Text) → Statement
  rename_column : (schema table old new : Text) → Statement
  rename_schema : (old new : Text) → Statement

abbrev alter : Text → Text → Text → Text
alter schema table what =
    text "ALTER TABLE " ++ (qualified schema table ++ (text " " ++ (what ++ text ";")))

-- Dropping does not say what is dropped.
abbrev pub print : Statement → Text
print (table_create schema table body) =
    text "CREATE TABLE " ++ (qualified schema table ++ (text " (" ++ (body ++ text ");")))
print (table_drop schema table body) =
    text "DROP TABLE IF EXISTS " ++ (qualified schema table ++ text ";")
print (add_column schema table name rest) =
    alter schema table (text "ADD COLUMN " ++ (quote_ident name ++ (text " " ++ rest)))
print (drop_column schema table name rest) =
    alter schema table (text "DROP COLUMN IF EXISTS " ++ quote_ident name)
print (rename_table schema old new) = alter schema old (text "RENAME TO " ++ quote_ident new)
print (rename_column schema table old new) =
    alter schema table
      (text "RENAME COLUMN " ++ (quote_ident old ++ (text " TO " ++ quote_ident new)))
print (rename_schema old new) =
    text "ALTER SCHEMA "
    ++ (quote_ident old ++ (text " RENAME TO " ++ (quote_ident new ++ text ";")))

-- The statement that takes another back.
abbrev pub inverse : Statement → Statement
inverse (table_create schema table body) = table_drop schema table body
inverse (table_drop schema table body) = table_create schema table body
inverse (add_column schema table name rest) = drop_column schema table name rest
inverse (drop_column schema table name rest) = add_column schema table name rest
inverse (rename_table schema old new) = rename_table schema new old
inverse (rename_column schema table old new) = rename_column schema table new old
inverse (rename_schema old new) = rename_schema new old

-- The operation, and the schema and the table under which the statement is reported.
abbrev pub op_of : Statement → Op
op_of (table_create schema table body) = op_create
op_of (table_drop schema table body) = op_drop
op_of d = op_alter

abbrev pub subject : Statement → Text × Text
subject (table_create schema table body) = (schema, table)
subject (table_drop schema table body) = (schema, table)
subject (add_column schema table name rest) = (schema, table)
subject (drop_column schema table name rest) = (schema, table)
subject (rename_table schema old new) = (schema, new)
subject (rename_column schema table old new) = (schema, table)
subject (rename_schema old new) = (new, [])

-- The statements of a change: one and its inverse; none to undo it, and a risk; or, for a table
-- without columns, none to create it, a risk, and one that drops it.
pub data Answer (c : Change) : Type 0 where
  taken_back :
      (d : Statement)
      → c.op ≡ op_of d
      → subject d ≡ (c.schema, c.table)
      → c.ddl_redo ≡ print d
      → c.ddl_undo ≡ print (inverse d)
      → Answer c
  given_up : c.ddl_undo ≡ [] → is_blank c.ddl_risk ≡ false → Answer c
  no_columns :
      c.op ≡ op_create
      → c.ddl_redo ≡ []
      → is_blank c.ddl_risk ≡ false
      → c.ddl_undo ≡ print (table_drop c.schema c.table [])
      → Answer c

-- What creates a table, if it has columns, and the risk if it has none.
abbrev pub Creates : Text → Text → Text × Text → Type 0
Creates schema table p =
    ((p.0 ≡ []) × (is_blank p.1 ≡ false))
    ⊎ ((body : Text) × (p.0 ≡ print (table_create schema table body)))

create_table-Creates :
    (to_lower : ℕ → ℕ) (cat : CatalogState) (schema table : Text) (oid : ℕ) (cols : List (ℕ × Attr))
    → Creates schema table (create_table to_lower cat schema table oid cols)
create_table-Creates to_lower cat schema table oid [] = inl (refl, refl)
create_table-Creates to_lower cat schema table oid (col ∷ cols) = inr (_, refl)

pub format_create_table-Creates :
    (to_lower : ℕ → ℕ) (cat : CatalogState) (schema table : Text) (oid : ℕ) (extra : List Attr)
    → Creates schema table (format_create_table to_lower cat schema table oid extra)
unfolding format_create_table
format_create_table-Creates to_lower cat schema table oid extra =
    create_table-Creates to_lower cat schema table oid (table_columns cat oid extra)

-- The column as it is added.
pub column_definition_lem :
    (to_lower : ℕ → ℕ) (a : Attr) (typ : Text)
    → column_definition to_lower a typ
      ≡ quote_ident a.name ++ (text " " ++ (typ ++ (if a.not_null then text " NOT NULL" else [])))
unfolding column_definition
column_definition_lem to_lower a typ =
    append_assoc (quote_ident a.name) (text " " ++ typ)
      (if a.not_null then text " NOT NULL" else [])
