-- ===== src/Dict.antt =====
-- Tables and columns as the decoder knows them, internal/service/flashback_dict.go, and rows.
use db_flashback.Base.{
  ℕ, Bool, true, false, not, ◌&&◌, ◌||◌, Option, none, some, List, [], ◌∷◌, ◌==◌, if◌then◌else◌,
}
use db_flashback.Change.{Text, Row}
use db_flashback.Datum.{Typalign}
use db_flashback.Sql.Words.{same_text, text}
use db_flashback.Toast.{ℤ, pos, negsuc}

-- `flashbackColumn`, as far as rows are cut by it; what the printing of a value needs besides is
-- the printer's.
pub record Column : Type 0 where
  pub name : Text
  pub att_num : ℕ
  pub type_name : Text
  pub type_oid : ℕ
  pub typlen : ℤ
  pub typalign : Typalign
  pub not_null : Bool
  pub is_pk : Bool
  pub dropped : Bool

-- `flashbackRelation`; `has_toast` is whether `toast` is set, which is the dictionary's cache.
pub record Relation : Type 0 where
  pub schema : Text
  pub name : Text
  pub oid : ℕ
  pub rel_node : ℕ
  pub toast_node : ℕ
  pub toast_oid : ℕ
  pub db_oid : ℕ
  pub pk_cols : List Text
  pub columns : List Column
  pub missing : Bool
  pub has_toast : Bool

-- `col.Typlen < 0`
abbrev pub is_varlena : Column → Bool
is_varlena c = elim c.typlen [ pos n ↦ false | negsuc n ↦ true ]

-- The text of a null value.
abbrev pub null_text : Text
null_text = text "\\N"

-- `out[name] = v`
unfoldable pub row_put : Text → Text → Row → Row
row_put name v [] = (name, v) ∷ []
row_put name v ((other, w) ∷ row) =
    let rest = row_put name v row in
    if same_text other name then (other, v) ∷ row else (other, w) ∷ rest

-- `row[name]`, the empty text for a missing key.
unfoldable pub row_get : Text → Row → Text
row_get name [] = []
row_get name ((other, v) ∷ row) = if same_text other name then v else row_get name row

abbrev pub pk_columns : List Column → List Column
pk_columns [] = []
pk_columns (c ∷ cs) = let rest = pk_columns cs in if c.is_pk then c ∷ rest else rest

abbrev pub or_columns : List Column → List Column → List Column
or_columns [] all = all
or_columns (c ∷ cs) all = c ∷ cs

-- `flashbackRelationPKOnly`: all columns where none is of the key.
unfoldable pub relation_pk_only : Relation → Relation
relation_pk_only rel = record rel { columns = or_columns (pk_columns rel.columns) rel.columns }

-- `flashbackDictionary`, as far as it does not change; a Go map is visited in the order of the list.
pub record Dictionary : Type 0 where
  pub by_rel_node : List (ℕ × Relation)
  pub wanted : List Relation

abbrev owns_toast : ℕ → Relation → Bool
owns_toast rel_node rel =
    not rel.missing && ((rel.toast_node == rel_node) || (rel.toast_oid == rel_node))

unfoldable pub first_owner : ℕ → List Relation → Option Relation
first_owner rel_node [] = none
first_owner rel_node (rel ∷ rels) =
    if owns_toast rel_node rel then some rel else first_owner rel_node rels

-- `toastOwner`
unfoldable pub toast_owner : Dictionary → ℕ → Option Relation
unfolding first_owner
toast_owner dict rel_node = if rel_node == 0 then none else first_owner rel_node dict.wanted
