-- ===== src/Catalog.antt =====
-- `flashbackCatalog` of internal/service/flashback_catalog.go: tables, columns, schemas and types as
-- the changes of catalog rows leave them, and the changes of each transaction that is not over.
pub mod Values
pub mod Enrich
pub mod Rows
pub mod Impl
pub mod Links
pub mod Steps
mod Tests
use db_flashback.Base.{ℕ, Bool, true, false, Option, none, some, List, [], if◌then◌else◌, lookup}
use db_flashback.Change.{Text, Row, Op, op_delete}
use db_flashback.Dict.{Relation}
use db_flashback.Toast.{ℤ, pos}

-- `flashbackCatalogClass`
pub record Class : Type 0 where
  pub oid : ℕ
  pub namespace : ℕ
  pub rel_node : ℕ
  pub name : Text
  pub kind : Text

-- `flashbackCatalogAttr`; a type is one as well.
pub record Attr : Type 0 where
  pub rel_id : ℕ
  pub att_num : ℕ
  pub name : Text
  pub type_oid : ℕ
  pub typlen : ℤ
  pub align : Text
  pub not_null : Bool
  pub dropped : Bool
  pub type_name : Text
  pub default_text : Text

-- `flashbackCatalogMut`
pub record Mut : Type 0 where
  pub xid : ℕ
  pub rel : Text
  pub op : Op
  pub old_row : Row
  pub new_row : Row
  pub rel_node : ℕ

-- `flashbackCatalog`, without the four tables that `by_node` holds as well.
pub record CatalogState : Type 0 where
  pub by_node : List (ℕ × Relation)
  pub namespaces : List (ℕ × Text)
  pub types : List (ℕ × Attr)
  pub classes : List (ℕ × Class)
  pub attrs : List (ℕ × List (ℕ × Attr))
  pub node_to_oid : List (ℕ × ℕ)
  pub graveyard_class : List (ℕ × Class)
  pub graveyard_attrs : List (ℕ × List (ℕ × Attr))
  pub primary_keys : List (ℕ × List Text)
  pub defaults : List (ℕ × List (ℕ × Text))
  pub pending : List (ℕ × List Mut)

abbrev pub is_delete : Op → Bool
is_delete op_delete = true
is_delete op = false

-- `m[k]` where the zero value is an empty text, list, or 0.
abbrev pub text_or_nil : Option Text → Text
text_or_nil none = []
text_or_nil (some v) = v

abbrev pub list_or_nil {ℓ} : {A : Type ℓ} → Option (List A) → List A
list_or_nil none = []
list_or_nil (some xs) = xs

abbrev pub number_or_zero : Option ℕ → ℕ
number_or_zero none = 0
number_or_zero (some n) = n

-- The row that a change is about.
abbrev pub changed_row : Op → Row → Row → Row
changed_row op old new = if is_delete op then old else new

-- `c.attrs[relid]`
abbrev pub attrs_of : CatalogState → ℕ → List (ℕ × Attr)
attrs_of c relid = list_or_nil (lookup relid c.attrs)
