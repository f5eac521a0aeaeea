-- ===== src/Change.antt =====
-- `flashbackChange` of internal/service/flashback_sql.go: one decoded change. A text is the list
-- of its code points, a row the entries of its column map.
use db_flashback.Base.{ℕ, Bool, false, List, []}
use db_flashback.Time.{Time}

abbrev pub Text : Type 0
Text = List ℕ

abbrev pub Row : Type 0
Row = List (Text × Text)

-- The values of the field `Op` that the program switches on, and any other text.
pub data Op : Type 0 where
  op_insert op_update op_delete op_create op_drop op_alter op_truncate : Op
  op_other : Text → Op

pub record Change : Type 0 where
  pub xid : ℕ
  pub xid64 : ℕ
  pub ts : Time
  pub schema : Text
  pub table : Text
  pub op : Op
  pub old_row : Row
  pub new_row : Row
  pub pk_cols : List Text
  pub no_pk : Bool
  pub rel_node : ℕ
  pub ddl_redo : Text
  pub ddl_undo : Text
  pub ddl_risk : Text
  pub mysql : Bool
  pub block : ℕ
  pub offnum : ℕ
  pub new_block : ℕ
  pub new_off : ℕ

-- `flashbackChange{}`, from which the literals of the source start.
abbrev pub blank_change : Change
blank_change = record {
  xid = 0;
  xid64 = 0;
  ts = 0;
  schema = [];
  table = [];
  op = op_other [];
  old_row = [];
  new_row = [];
  pk_cols = [];
  no_pk = false;
  rel_node = 0;
  ddl_redo = [];
  ddl_undo = [];
  ddl_risk = [];
  mysql = false;
  block = 0;
  offnum = 0;
  new_block = 0;
  new_off = 0;
}
