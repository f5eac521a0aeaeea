-- ===== src/Ddl/Table.antt =====
-- Names and definitions of tables for statements: flashbackCatalogQual, flashbackFormatCreateTable
-- and what they call in internal/service/flashback_ddl.go. `to_lower` is `unicode.ToLower`.
use db_flashback.Base.{
  ℕ, Bool, true, false, not, ◌&&◌, ◌||◌, Option, none, some, List, [], ◌∷◌, ◌++◌, map, ◌==◌,
  if◌then◌else◌, lookup, insert,
}
use db_flashback.Catalog.Impl.{sort_attrs}
use db_flashback.Catalog.Values.{trimmed_field, u32_field, or_text}
use db_flashback.Catalog.{Class, Attr, CatalogState, text_or_nil, list_or_nil}
use db_flashback.Change.{Text, Row}
use db_flashback.Ddl.{Added, new_column, renamed}
use db_flashback.Sql.Clause.{quote_ident, qualified}
use db_flashback.Sql.Words.{text, is_blank, contains, join, trim_space}

-- The class, alive or buried.
abbrev class_of : CatalogState → ℕ → Option Class
class_of cat oid = elim (lookup oid cat.classes) [
  | some cl ↦ some cl
  | none ↦ lookup oid cat.graveyard_class
]

abbrev namespace_name : CatalogState → ℕ → Text
namespace_name cat n = text_or_nil (lookup n cat.namespaces)

abbrev from_class : CatalogState → Option Class → Text → Text → Text × Text
from_class cat none schema table = (schema, table)
from_class cat (some cl) schema table =
    (or_text schema (namespace_name cat cl.namespace), or_text table cl.name)

abbrev or_public : Text × Text → Text × Text
or_public (schema, table) = (or_text schema (text "public"), table)

-- `flashbackCatalogQual`: the schema and the name.
unfoldable pub catalog_qual : CatalogState → Row → ℕ → Text × Text
unfolding lookup
catalog_qual cat row oid =
    let nsp = u32_field (text "relnamespace") row in
    or_public (
      from_class cat (class_of cat oid) (if nsp == 0 then [] else namespace_name cat nsp)
        (trimmed_field (text "relname") row))

-- `flashbackCatalogDefault`
unfoldable pub catalog_default : CatalogState → ℕ → ℕ → Text → Text
unfolding lookup trim_space
catalog_default cat oid attnum own =
    or_text (trim_space own)
      (trim_space (text_or_nil (lookup attnum (list_or_nil (lookup oid cat.defaults)))))

abbrev is_live : Attr → Bool
is_live a = not a.dropped && not (is_blank a.name)

abbrev live_columns : List (ℕ × Attr) → List (ℕ × Attr)
live_columns [] = []
live_columns ((n, a) ∷ attrs) =
    let rest = live_columns attrs in
    if is_live a && not (contains a.name (text "pg.dropped")) then (n, a) ∷ rest else rest

-- The loop over `extra`.
unfoldable pub with_extra : List Attr → List (ℕ × Attr) → List (ℕ × Attr)
unfolding insert
with_extra [] cols = cols
with_extra (a ∷ extra) cols =
    with_extra extra (if not (a.att_num == 0) && is_live a then insert a.att_num a cols else cols)

abbrev or_buried : List (ℕ × Attr) → List (ℕ × Attr) → List (ℕ × Attr)
or_buried [] buried = buried
or_buried (a ∷ attrs) buried = a ∷ attrs

-- The columns that are set on a table.
unfoldable pub table_columns : CatalogState → ℕ → List Attr → List (ℕ × Attr)
unfolding lookup with_extra sort_attrs contains
table_columns cat oid extra =
    let src =
      or_buried (list_or_nil (lookup oid cat.attrs))
        (list_or_nil (lookup oid cat.graveyard_attrs)) in
    sort_attrs (with_extra extra (live_columns src))

-- The new columns among those added.
abbrev pub new_columns : List Added → List Attr
new_columns [] = []
new_columns (new_column a ∷ added) = a ∷ new_columns added
new_columns (renamed old new ∷ added) = new_columns added

abbrev primary_key : CatalogState → ℕ → List Text
primary_key cat oid = list_or_nil (lookup oid cat.primary_keys)

abbrev key_part : List Text → List Text
key_part [] = []
key_part (k ∷ ks) =
    (text "PRIMARY KEY (" ++ (join (text ", ") (map quote_ident (k ∷ ks)) ++ text ")")) ∷ []

module _ (to_lower : ℕ → ℕ) where
  -- `flashbackDDLTypeName`
  unfoldable pub ddl_type_name : Text → Text
  unfolding trim_space
  ddl_type_name typ = trim_space (map to_lower typ)

  -- `"name" type NOT NULL`
  unfoldable pub column_definition : Attr → Text → Text
  unfolding ddl_type_name
  column_definition a typ =
      (quote_ident a.name ++ (text " " ++ typ)) ++ (if a.not_null then text " NOT NULL" else [])

  abbrev default_part : Text → Text
  default_part [] = []
  default_part (c ∷ v) = text " DEFAULT " ++ (c ∷ v)

  abbrev column_parts : CatalogState → ℕ → List (ℕ × Attr) → List Text
  column_parts cat oid [] = []
  column_parts cat oid ((n, a) ∷ cols) =
      (column_definition a (or_text (ddl_type_name a.type_name) (text "text"))
        ++ default_part (catalog_default cat oid n a.default_text))
      ∷ column_parts cat oid cols

  abbrev has_default : CatalogState → ℕ → List (ℕ × Attr) → Bool
  has_default cat oid [] = false
  has_default cat oid ((n, a) ∷ cols) =
      not (is_blank (catalog_default cat oid a.att_num a.default_text)) || has_default cat oid cols

  -- `pks == nil`: no entry.
  abbrev no_keys : Option (List Text) → Bool
  no_keys none = true
  no_keys (some ks) = false

  abbrev create_risk : CatalogState → ℕ → List (ℕ × Attr) → Text
  create_risk cat oid cols =
      if no_keys (lookup oid cat.primary_keys)
        && (is_blank (catalog_default cat oid 0 []) && not (has_default cat oid cols))
      then text "未还原主键/索引/默认值/约束"
      else text "未还原二级索引/检查约束/外键"

  abbrev pub create_table : CatalogState → Text → Text → ℕ → List (ℕ × Attr) → Text × Text
  create_table cat schema table oid [] = ([], text "无列定义")
  create_table cat schema table oid (col ∷ cols) = (
    text "CREATE TABLE "
        ++ (qualified schema table
            ++ (text " ("
                ++ (join (text ", ")
                      (column_parts cat oid (col ∷ cols) ++ key_part (primary_key cat oid))
                    ++ text ");"))),
    create_risk cat oid (col ∷ cols),
  )

  -- `flashbackFormatCreateTable`: the statement and its risk.
  unfoldable pub format_create_table : CatalogState → Text → Text → ℕ → List Attr → Text × Text
  unfolding table_columns catalog_default column_definition qualified join
  format_create_table cat schema table oid extra =
      create_table cat schema table oid (table_columns cat oid extra)
