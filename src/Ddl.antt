-- ===== src/Ddl.antt =====
-- What the catalog rows of a transaction say about tables: the first loop of
-- flashbackSynthesizeDDL of internal/service/flashback_ddl.go. Where the source visits a map, the
-- order of the list stands for any order. Names hold no NUL, so a renamed column is the pair that
-- the source joins with one.
pub mod Table
pub mod Statements
pub mod Reverse
pub mod Undo
mod Tests
use db_flashback.Base.{
  ℕ, suc, Bool, true, false, not, ◌&&◌, List, [], ◌∷◌, ◌++◌, ◌==◌, if◌then◌else◌, lookup, insert,
}
use db_flashback.Catalog.Enrich.{class_name, attr_name}
use db_flashback.Catalog.Rows.{is_user_relkind, is_catalog_rel_name, new_attr, typed}
use db_flashback.Catalog.Values.{trimmed_field, u32_field, int_field, parse_bool}
use db_flashback.Catalog.{Attr, Mut, CatalogState, is_delete, list_or_nil}
use db_flashback.Change.{Text, Row, Op, op_insert, op_update, op_delete}
use db_flashback.Dict.{row_get}
use db_flashback.Sql.Words.{text, is_blank, same_text, contains, trim_space}
use db_flashback.Toast.{ℤ, pos, negsuc}

-- An entry of `addedCols`: a new column, or an old and a new name.
pub data Added : Type 0 where
  new_column : Attr → Added
  renamed : Text → Text → Added

-- The variables of the loop.
pub record Seen : Type 0 where
  pub created : List ℕ
  pub dropped : List ℕ
  pub renames : List (ℕ × (Text × Text))
  pub ns_renames : List (ℕ × (Text × Text))
  pub added_cols : List (ℕ × List Added)
  pub dropped_cols : List (ℕ × List Attr)
  pub class_old : List (ℕ × Row)
  pub class_new : List (ℕ × Row)

abbrev pub nothing_seen : Seen
nothing_seen = record {
  created = [];
  dropped = [];
  renames = [];
  ns_renames = [];
  added_cols = [];
  dropped_cols = [];
  class_old = [];
  class_new = [];
}

-- `pickRow`
abbrev pub pick_row : Op → Row → Row → Row
pick_row op_delete old new = old
pick_row op old [] = old
pick_row op old (v ∷ new) = v ∷ new

-- A number that is not positive counts as none.
abbrev pub or_none : ℤ → ℕ
or_none (pos n) = n
or_none (negsuc n) = 0

-- `flashbackAttrFromRow`
unfoldable pub attr_from_row : CatalogState → Row → Attr
unfolding lookup row_get parse_bool
attr_from_row cat row =
    let a : Attr =
      record (new_attr (u32_field (text "attrelid") row)
        (or_none (int_field (text "attnum") row))) {
          name = trimmed_field (text "attname") row;
          type_oid = u32_field (text "atttypid") row;
          typlen = int_field (text "attlen") row;
          align = trimmed_field (text "attalign") row;
          not_null = parse_bool (row_get (text "attnotnull") row);
          dropped = parse_bool (row_get (text "attisdropped") row);
        } in
    typed a (lookup a.type_oid cat.types)

-- `m[k] = append(m[k], a)`
abbrev pub append_at {ℓ} : {A : Type ℓ} → ℕ → A → List (ℕ × List A) → List (ℕ × List A)
append_at k a m = insert k (list_or_nil (lookup k m) ++ (a ∷ [])) m

abbrev pub differ : Text → Text → Bool
differ old new = not (is_blank old) && (not (is_blank new) && not (same_text old new))

-- `m.old != nil`: only an insert has no old row, and `m.new != nil`.
abbrev keep_rows : Mut → ℕ → Seen → Seen
keep_rows m oid s =
    let has_old : Bool = elim m.op [ op_insert ↦ false | _ ↦ true ] in
    record s {
      class_old = if has_old then insert oid m.old_row s.class_old else s.class_old;
      class_new = elim m.new_row [ [] ↦ s.class_new | v ∷ row ↦ insert oid (v ∷ row) s.class_new ];
    }

abbrev rename_table : Mut → ℕ → Seen → Seen
rename_table m oid s =
    let old = trimmed_field (text "relname") m.old_row in
    let new = trimmed_field (text "relname") m.new_row in
    if differ old new && (not (is_catalog_rel_name old) && not (is_catalog_rel_name new))
    then record s { renames = insert oid (old, new) s.renames }
    else s

abbrev class_op : Op → Mut → ℕ → Seen → Seen
class_op op_insert m oid s = record s { created = s.created ++ (oid ∷ []) }
class_op op_delete m oid s = record s { dropped = s.dropped ++ (oid ∷ []) }
class_op op_update m oid s = rename_table m oid s
class_op op m oid s = s

unfoldable pub see_class : Mut → Seen → Seen
unfolding insert
see_class m s =
    let row = pick_row m.op m.old_row m.new_row in
    let oid = u32_field (text "oid") row in
    let s' = keep_rows m oid s in
    if oid == 0
    then s
    else if not (is_user_relkind (trimmed_field (text "relkind") row))
    then s'
    else class_op m.op m oid s'

abbrev see_ns_update : Mut → Seen → Seen
see_ns_update m s =
    let oid = u32_field (text "oid") m.new_row in
    let old = trimmed_field (text "nspname") m.old_row in
    let new = trimmed_field (text "nspname") m.new_row in
    if not (oid == 0) && differ old new
    then record s { ns_renames = insert oid (old, new) s.ns_renames }
    else s

unfoldable pub see_namespace : Mut → Seen → Seen
unfolding insert
see_namespace m s = elim m.op [ op_update ↦ see_ns_update m s | _ ↦ s ]

abbrev drop_column : CatalogState → Mut → ℕ → Seen → Seen
drop_column cat m relid s = record s {
  dropped_cols = append_at relid (attr_from_row cat m.old_row) s.dropped_cols;
}

abbrev update_column : CatalogState → Mut → ℕ → Seen → Seen
update_column cat m relid s =
    let was = parse_bool (row_get (text "attisdropped") m.old_row) in
    let now = parse_bool (row_get (text "attisdropped") m.new_row) in
    let old = trimmed_field (text "attname") m.old_row in
    let new = trimmed_field (text "attname") m.new_row in
    if not was && now
    then drop_column cat m relid s
    else if differ old new
        && (not (contains new (text "pg.dropped")) && not (contains old (text "pg.dropped")))
    then record s { added_cols = append_at relid (renamed old new) s.added_cols }
    else s

abbrev insert_column : Attr → ℕ → Seen → Seen
insert_column a relid s =
    if a.dropped then s else record s { added_cols = append_at relid (new_column a) s.added_cols }

abbrev attr_op : CatalogState → Op → Mut → ℕ → Attr → Bool → Seen → Seen
attr_op cat op_insert m relid a gone s = insert_column a relid s
attr_op cat op_update m relid a gone s = update_column cat m relid s
attr_op cat op_delete m relid a gone s = if gone then s else drop_column cat m relid s
attr_op cat op m relid a gone s = s

abbrev numbered_attr : CatalogState → ℤ → Mut → ℕ → Row → Seen → Seen
numbered_attr cat (pos (suc n)) m relid row s =
    attr_op cat m.op m relid (attr_from_row cat row)
      (parse_bool (row_get (text "attisdropped") row)) s
numbered_attr cat n m relid row s = s

unfoldable pub see_attr : CatalogState → Mut → Seen → Seen
unfolding attr_from_row lookup insert contains
see_attr cat m s =
    let row = pick_row m.op m.old_row m.new_row in
    let relid = u32_field (text "attrelid") row in
    if relid == 0 then s else numbered_attr cat (int_field (text "attnum") row) m relid row s

unfoldable pub see : CatalogState → Mut → Seen → Seen
unfolding see_class see_namespace see_attr
see cat m s =
    if same_text m.rel class_name
    then see_class m s
    else if same_text m.rel (text "pg_namespace")
    then see_namespace m s
    else if same_text m.rel attr_name
    then see_attr cat m s
    else s

-- `for _, m := range muts`
unfoldable pub see_all : CatalogState → List Mut → Seen → Seen
unfolding see
see_all cat [] s = s
see_all cat (m ∷ muts) s = see_all cat muts (see cat m s)
