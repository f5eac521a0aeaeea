-- ===== src/Catalog/Enrich.antt =====
-- `enrichOld` of internal/service/flashback_catalog.go: old rows, of which the log may hold no more
-- than the key, are filled from what is known of the table or column.
use db_flashback.Base.{
  ℕ, Bool, true, false, not, Option, none, some, [], ◌∷◌, ◌==◌, if◌then◌else◌, lookup,
}
use db_flashback.Catalog.Values.{
  u32_field, int_field, fill_field, show_number, show_int, or_number, or_int, is_zero_int,
}
use db_flashback.Catalog.{Class, Attr, CatalogState, attrs_of}
use db_flashback.Change.{Text, Row, Op, op_update, op_delete}
use db_flashback.Dict.{row_get, row_put}
use db_flashback.Sql.Words.{text, is_blank, same_text, trim_space}
use db_flashback.Toast.{ℤ, pos, negsuc}

abbrev pub class_name : Text
class_name = text "pg_class"

abbrev pub attr_name : Text
attr_name = text "pg_attribute"

-- The old row, or the new one where it is empty.
abbrev pub old_or_new : Row → Row → Row
old_or_new [] new = new
old_or_new (v ∷ old) new = v ∷ old

-- The first of the rows whose field is not 0.
abbrev first_u32 : Text → Row → Row → ℕ
first_u32 name old new =
    or_number (u32_field name old)
      (or_number (u32_field name (old_or_new old new)) (u32_field name new))

abbrev first_int : Text → Row → Row → ℤ
first_int name old new =
    or_int (int_field name old) (or_int (int_field name (old_or_new old new)) (int_field name new))

abbrev not_zero : ℕ → Bool
not_zero n = not (n == 0)

abbrev not_blank : Text → Bool
not_blank v = not (is_blank v)

unfoldable pub fill_class : ℕ → Class → Row → Row
unfolding row_put row_get trim_space show_number
fill_class oid cl out =
    let out = fill_field (text "oid") true (show_number oid) out in
    let out = fill_field (text "relname") (not_blank cl.name) cl.name out in
    let out =
      fill_field (text "relnamespace") (not_zero cl.namespace) (show_number cl.namespace) out in
    let out = fill_field (text "relkind") (not_blank cl.kind) cl.kind out in
    fill_field (text "relfilenode") (not_zero cl.rel_node) (show_number cl.rel_node) out

unfoldable pub fill_attr : ℕ → ℤ → Attr → Row → Row
unfolding row_put row_get trim_space show_number show_int
fill_attr relid attnum a out =
    let out = fill_field (text "attrelid") true (show_number relid) out in
    let out = fill_field (text "attnum") true (show_int attnum) out in
    let out = fill_field (text "attname") (not_blank a.name) a.name out in
    let out = fill_field (text "atttypid") (not_zero a.type_oid) (show_number a.type_oid) out in
    let out = fill_field (text "attlen") (not (is_zero_int a.typlen)) (show_int a.typlen) out in
    fill_field (text "attalign") (not_blank a.align) a.align out

-- `c.attrs[relid][attnum]`; no column has a negative number.
abbrev attr_of : CatalogState → ℕ → ℤ → Option Attr
attr_of c relid (pos n) = lookup n (attrs_of c relid)
attr_of c relid (negsuc n) = none

unfoldable pub enrich_class : CatalogState → Row → Row → Row
unfolding fill_class
enrich_class c old new =
    let oid = first_u32 (text "oid") old new in
    elim (lookup oid c.classes) [ none ↦ old | some cl ↦ fill_class oid cl old ]

unfoldable pub enrich_attr : CatalogState → Row → Row → Row
unfolding fill_attr
enrich_attr c old new =
    let relid = first_u32 (text "attrelid") old new in
    let attnum = first_int (text "attnum") old new in
    elim (attr_of c relid attnum) [ none ↦ old | some a ↦ fill_attr relid attnum a old ]

abbrev has_old : Op → Bool
has_old op_update = true
has_old op_delete = true
has_old op = false

-- `enrichOld`
unfoldable pub enrich_old : CatalogState → Text → Op → Row → Row → Row
unfolding enrich_class enrich_attr
enrich_old c rel op old new =
    if not (has_old op)
    then old
    else if same_text rel class_name
    then enrich_class c old new
    else if same_text rel attr_name
    then enrich_attr c old new
    else old
