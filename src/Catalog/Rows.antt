-- ===== src/Catalog/Rows.antt =====
-- Changes of catalog rows: `apply`, `applyClass` and `applyAttr` of
-- internal/service/flashback_catalog.go.
use db_flashback.Base.{
  ℕ, suc, Bool, false, not, ◌&&◌, ◌||◌, Option, none, some, List, [], ◌∷◌, ◌++◌, map, ◌==◌,
  if◌then◌else◌, lookup, insert, remove,
}
use db_flashback.Catalog.Enrich.{class_name, attr_name, enrich_old}
use db_flashback.Catalog.Values.{
  trimmed_field, u32_field, int_field, parse_int, parse_bool, or_number, or_text, is_zero_int,
}
use db_flashback.Catalog.{
  Class, Attr, Mut, CatalogState, is_delete, list_or_nil, changed_row, attrs_of,
}
use db_flashback.Change.{Text, Row, Op}
use db_flashback.Dict.{Relation, row_get}
use db_flashback.Sql.Words.{text, is_blank, same_text, has_prefix, trim_space, lower}
use db_flashback.Toast.{ℤ, pos}

-- `flashbackIsUserRelkind`
abbrev pub is_user_relkind : Text → Bool
is_user_relkind kind =
    let k = trim_space kind in is_blank k || (same_text k (text "r") || same_text k (text "p"))

-- `flashbackIsCatalogRelName`: no letter outside ASCII has one of these as its lower case.
abbrev pub is_catalog_rel_name : Text → Bool
is_catalog_rel_name name =
    let n = map lower (trim_space name) in
    has_prefix n (text "pg_toast") || has_prefix n (text "pg_temp")

abbrev pub new_class : ℕ → Class
new_class oid = record { oid = oid; namespace = 0; rel_node = 0; name = []; kind = [] }

abbrev pub class_or_new : ℕ → Option Class → Class
class_or_new oid none = new_class oid
class_or_new oid (some cl) = cl

-- The class after the row, at its node.
abbrev pub class_after : Class → Row → ℕ → Class
class_after cl row node = record {
  oid = cl.oid;
  namespace = or_number (u32_field (text "relnamespace") row) cl.namespace;
  rel_node = node;
  name = or_text (trimmed_field (text "relname") row) cl.name;
  kind = or_text (trimmed_field (text "relkind") row) cl.kind;
}

-- Entries that lead to the class of a deleted row.
abbrev pub unlink : Option Class → List (ℕ × ℕ) → List (ℕ × ℕ)
unlink none m = m
unlink (some cl) m = if cl.rel_node == 0 then m else remove cl.rel_node m

abbrev bury {ℓ} : {A : Type ℓ} → ℕ → Option A → List (ℕ × A) → List (ℕ × A)
bury k none m = m
bury k (some a) m = insert k a m

unfoldable pub delete_class : CatalogState → ℕ → CatalogState
unfolding lookup insert remove
delete_class c oid = record c {
  graveyard_class = bury oid (lookup oid c.classes) c.graveyard_class;
  node_to_oid = unlink (lookup oid c.classes) c.node_to_oid;
  graveyard_attrs = bury oid (lookup oid c.attrs) c.graveyard_attrs;
  classes = remove oid c.classes;
  attrs = remove oid c.attrs;
}

-- The links before the one of the class is set: a link from another node goes.
abbrev pub moved : Class → ℕ → List (ℕ × ℕ) → List (ℕ × ℕ)
moved cl node m =
    if not (cl.rel_node == 0) && not (cl.rel_node == node) then remove cl.rel_node m else m

unfoldable pub write_class : CatalogState → ℕ → Row → CatalogState
unfolding lookup insert remove
write_class c oid row =
    let cl = class_or_new oid (lookup oid c.classes) in
    let node = or_number (u32_field (text "relfilenode") row) oid in
    record c {
      classes = insert oid (class_after cl row node) c.classes;
      node_to_oid = insert node oid (moved cl node c.node_to_oid);
    }

-- `applyClass`
unfoldable pub apply_class : CatalogState → Op → Row → Row → CatalogState
unfolding delete_class write_class
apply_class c op old new =
    let row = changed_row op old new in
    let oid = u32_field (text "oid") row in
    let kind = trimmed_field (text "relkind") row in
    if oid == 0
    then c
    else if is_delete op
    then delete_class c oid
    else if not (is_blank kind) && not (is_user_relkind kind)
    then c
    else if is_catalog_rel_name (trimmed_field (text "relname") row)
    then c
    else write_class c oid row

abbrev pub new_attr : ℕ → ℕ → Attr
new_attr relid attnum = record {
  rel_id = relid;
  att_num = attnum;
  name = [];
  type_oid = 0;
  typlen = pos 0;
  align = [];
  not_null = false;
  dropped = false;
  type_name = [];
  default_text = [];
}

abbrev attr_or_new : ℕ → ℕ → Option Attr → Attr
attr_or_new relid attnum none = new_attr relid attnum
attr_or_new relid attnum (some a) = a

-- What a type gives to a column that has no length or alignment yet.
abbrev pub typed : Attr → Option Attr → Attr
typed a none = a
typed a (some t) = record a {
  type_name = t.type_name;
  typlen = if is_zero_int a.typlen then t.typlen else a.typlen;
  align = or_text a.align t.align;
}

abbrev with_type : CatalogState → ℕ → Attr → Attr
with_type c v a = if v == 0 then a else typed (record a { type_oid = v }) (lookup v c.types)

-- The column after the row.
unfoldable pub attr_after : CatalogState → Attr → Row → Attr
unfolding lookup trim_space parse_int parse_bool
attr_after c a row =
    let named = record a { name = or_text (trimmed_field (text "attname") row) a.name } in
    let b = with_type c (u32_field (text "atttypid") row) named in
    let len = row_get (text "attlen") row in
    record b {
      typlen = if is_blank len then b.typlen else parse_int len;
      align = or_text (trimmed_field (text "attalign") row) b.align;
      not_null = parse_bool (row_get (text "attnotnull") row);
      dropped = parse_bool (row_get (text "attisdropped") row);
    }

abbrev write_attr : CatalogState → ℕ → ℕ → Op → Row → CatalogState
write_attr c relid attnum op row =
    let columns = attrs_of c relid in
    let a = attr_or_new relid attnum (lookup attnum columns) in
    record c {
      attrs =
          insert relid
            (if is_delete op
              then remove attnum columns
              else insert attnum (attr_after c a row) columns)
            c.attrs;
    }

abbrev pub numbered : CatalogState → ℕ → ℤ → Op → Row → CatalogState
numbered c relid (pos (suc n)) op row = if relid == 0 then c else write_attr c relid (suc n) op row
numbered c relid attnum op row = c

-- `applyAttr`
unfoldable pub apply_attr : CatalogState → Op → Row → Row → CatalogState
unfolding attr_after lookup insert remove
apply_attr c op old new =
    let row = changed_row op old new in
    numbered c (u32_field (text "attrelid") row) (int_field (text "attnum") row) op row

unfoldable pub apply_namespace : CatalogState → Op → Row → Row → CatalogState
unfolding insert remove
apply_namespace c op old new =
    let row = changed_row op old new in
    let oid = u32_field (text "oid") row in
    let name = trimmed_field (text "nspname") row in
    if oid == 0
    then c
    else if is_delete op
    then record c { namespaces = remove oid c.namespaces }
    else if is_blank name
    then c
    else record c { namespaces = insert oid name c.namespaces }

abbrev type_of_row : ℕ → Row → Attr
type_of_row oid row = record (new_attr 0 0) {
  type_oid = oid;
  type_name = trimmed_field (text "typname") row;
  typlen = int_field (text "typlen") row;
  align = trimmed_field (text "typalign") row;
}

unfoldable pub apply_type : CatalogState → Op → Row → Row → CatalogState
unfolding insert remove
apply_type c op old new =
    let row = changed_row op old new in
    let oid = u32_field (text "oid") row in
    if oid == 0
    then c
    else if is_delete op
    then record c { types = remove oid c.types }
    else record c { types = insert oid (type_of_row oid row) c.types }

-- `c.pending[xid] = append(c.pending[xid], …)`
unfoldable pub stage : CatalogState → Mut → CatalogState
unfolding lookup insert
stage c m = record c {
  pending = insert m.xid (list_or_nil (lookup m.xid c.pending) ++ (m ∷ [])) c.pending;
}

-- `apply`
unfoldable pub apply : CatalogState → ℕ → Relation → Op → Row → Row → CatalogState
unfolding enrich_old stage apply_namespace apply_type apply_class apply_attr
apply c xid rel op old new =
    let name = rel.name in
    let full = enrich_old c name op old new in
    let m : Mut = record {
      xid = xid;
      rel = name;
      op = op;
      old_row = full;
      new_row = new;
      rel_node = rel.rel_node;
    } in
    let c = stage c m in
    if same_text name (text "pg_namespace")
    then apply_namespace c op full new
    else if same_text name (text "pg_type")
    then apply_type c op full new
    else if same_text name class_name
    then apply_class c op full new
    else if same_text name attr_name
    then apply_attr c op full new
    else c
