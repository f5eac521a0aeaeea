-- ===== src/Sql/Reverse.antt =====
-- Undo as the redo of the reverse change.
use db_flashback.Base.{
  ℕ, ◌≡◌, refl, ◌⊎◌, inl, inr, Bool, true, false, not, [], ◌==◌, if◌then◌else◌, Bool-cases,
}
use db_flashback.Change.{
  Text, Row, Change, Op, op_insert, op_update, op_delete, op_create, op_drop, op_alter, op_truncate,
  op_other,
}
use db_flashback.Sql.Clause.{ident, where_ident, append_ctid, ctid_of, ctid_literal, join_risk}
use db_flashback.Sql.Statement.{
  undo_insert, redo_delete, update_where, or_else, undo_op, redo_op, undo_sql, redo_sql,
}
use db_flashback.Sql.Words.{text, is_blank}

abbrev pub reverse_op : Op → Op
reverse_op op_insert = op_delete
reverse_op op_delete = op_insert
reverse_op op = op

-- The change that takes a row back: the rows and the texts of a definition change sides, and the
-- row stands where the change left it.
abbrev pub reverse : Change → Change
reverse ch = record ch {
  op = reverse_op ch.op;
  old_row = ch.new_row;
  new_row = ch.old_row;
  ddl_redo = ch.ddl_undo;
  ddl_undo = ch.ddl_redo;
  block = if ch.new_off == 0 then ch.block else ch.new_block;
  offnum = if ch.new_off == 0 then ch.offnum else ch.new_off;
}

is_blank-ctid_literal : (block off : ℕ) → is_blank (ctid_literal block off) ≡ (off == 0)
unfolding ctid_literal
is_blank-ctid_literal block off = elim (Bool-cases (off == 0)) [
  | inl none_there ↦ rw none_there refl
  | inr there ↦ rw there refl
]

ctid_literal-if :
    (z : Bool) (new_block new_off block off : ℕ)
    → (if not z then ctid_literal new_block new_off else ctid_literal block off)
      ≡ ctid_literal (if z then block else new_block) (if z then off else new_off)
ctid_literal-if true new_block new_off block off = refl
ctid_literal-if false new_block new_off block off = refl

ctid_of-reverse : (ch : Change) → ctid_of ch true ≡ ctid_of (reverse ch) false
unfolding ctid_of
ctid_of-reverse ch =
    rw (is_blank-ctid_literal ch.new_block ch.new_off)
      (ctid_literal-if (ch.new_off == 0) ch.new_block ch.new_off ch.block ch.offnum)

append_ctid-reverse :
    (cond risk : Text) (ch : Change)
    → append_ctid cond risk ch true ≡ append_ctid cond risk (reverse ch) false
unfolding append_ctid
append_ctid-reverse cond risk ch = rw (ctid_of-reverse ch) refl

if-0 :
    (b : Bool) (r r' : Text) (p : Text × Text)
    → (if b then ([], r) else p).0 ≡ (if b then ([], r') else p).0
if-0 true r r' p = refl
if-0 false r r' p = refl

undo_insert-reverse : (ch : Change) → (undo_insert ch).0 ≡ (redo_delete (reverse ch)).0
unfolding undo_insert redo_delete
undo_insert-reverse ch =
    let (cond, risk) = where_ident ch.pk_cols ch.new_row (ident ch.mysql) in
    let risk' : Text = if ch.no_pk then join_risk risk (text "无主键，DELETE 使用全列等值") else risk in
    rw (append_ctid-reverse cond risk' ch) (search if-0)

update_where-reverse :
    (ch : Change) (vals : Row) → update_where ch vals true ≡ update_where (reverse ch) vals false
unfolding update_where
update_where-reverse ch vals = append_ctid-reverse _ _ ch

if-if-0 :
    (a b : Bool) (r r' r'' : Text) (p : Text × Text)
    → ((if a then ([], r) else if b then ([], r') else p).0 ≡ [])
      ⊎ ((if a then ([], r) else if b then ([], r') else p).0 ≡ (if a then ([], r'') else p).0)
if-if-0 true b r r' r'' p = inl refl
if-if-0 false true r r' r'' p = inl refl
if-if-0 false false r r' r'' p = inr refl

undo_update :
    (ch : Change)
    → ((undo_op op_update ch).0 ≡ [])
      ⊎ ((undo_op op_update ch).0 ≡ (redo_op op_update (reverse ch)).0)
unfolding undo_op redo_op
undo_update ch = rw (update_where-reverse ch (or_else ch.new_row ch.old_row)) (search if-if-0)

undo_op-reverse :
    (op : Op) (ch : Change)
    → ((undo_op op ch).0 ≡ []) ⊎ ((undo_op op ch).0 ≡ (redo_op (reverse_op op) (reverse ch)).0)
undo_op-reverse op_insert ch = inr (unfold undo_op redo_op in search undo_insert-reverse)
undo_op-reverse op_delete ch = inr (unfold undo_op redo_op in search if-0)
undo_op-reverse op_update ch = undo_update ch
undo_op-reverse op_create ch = inr (unfold undo_op redo_op in refl)
undo_op-reverse op_drop ch = inr (unfold undo_op redo_op in refl)
undo_op-reverse op_alter ch = inr (unfold undo_op redo_op in refl)
undo_op-reverse op_truncate ch = inr (unfold undo_op redo_op in refl)
undo_op-reverse (op_other name) ch = inl (unfold undo_op in refl)

-- The undo statement of any change is the redo statement of the change that takes it back, or
-- there is none.
pub undo_sql-reverse :
    (ch : Change) → ((undo_sql ch).0 ≡ []) ⊎ ((undo_sql ch).0 ≡ (redo_sql (reverse ch)).0)
undo_sql-reverse ch = undo_op-reverse ch.op ch
