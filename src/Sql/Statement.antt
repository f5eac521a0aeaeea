-- ===== src/Sql/Statement.antt =====
-- Undo and redo statements.
use db_flashback.Base.{Bool, true, false, ◌||◌, List, [], ◌∷◌, ◌++◌, if◌then◌else◌}
use db_flashback.Change.{Text, Row, Change, Op, op_insert, op_update, op_delete, op_other}
use db_flashback.Sql.Clause.{
  ident, qual, sorted_keys, where_ident, append_ctid, set_clause, insert_sql, join_risk,
}
use db_flashback.Sql.Words.{text, is_blank}

abbrev pub is_nil {ℓ} : {A : Type ℓ} → List A → Bool
is_nil [] = true
is_nil (x ∷ xs) = false

-- `DELETE FROM … WHERE …;`
abbrev pub delete_sql : Change → Text → Text
delete_sql ch cond =
    text "DELETE FROM "
    ++ (qual ch.mysql ch.schema ch.table ++ (text " WHERE " ++ (cond ++ text ";")))

-- `UPDATE … SET … WHERE …;`
abbrev pub update_sql : Change → Text → Text → Text
update_sql ch set cond =
    text "UPDATE "
    ++ (qual ch.mysql ch.schema ch.table
        ++ (text " SET " ++ (set ++ (text " WHERE " ++ (cond ++ text ";")))))

-- The undo of an insert.
unfoldable pub undo_insert : Change → Text × Text
unfolding where_ident append_ctid qual
undo_insert ch =
    let (cond, risk) = where_ident ch.pk_cols ch.new_row (ident ch.mysql) in
    let risk' : Text = if ch.no_pk then join_risk risk (text "无主键，DELETE 使用全列等值") else risk in
    let (cond', risk'') = append_ctid cond risk' ch true in
    if is_blank cond then ([], text "INSERT 无法生成 DELETE：缺少新行值") else (delete_sql ch cond', risk'')

-- The redo of a delete.
unfoldable pub redo_delete : Change → Text × Text
unfolding where_ident append_ctid qual
redo_delete ch =
    let (cond, risk) = where_ident ch.pk_cols ch.old_row (ident ch.mysql) in
    let risk' : Text = if ch.no_pk then join_risk risk (text "无主键，DELETE 使用全列等值") else risk in
    let (cond', risk'') = append_ctid cond risk' ch false in
    if is_blank cond then ([], text "DELETE 无法生成 WHERE") else (delete_sql ch cond', risk'')

-- The `WHERE` of an update, over all columns where there is no primary key.
unfoldable pub update_where : Change → Row → Bool → Text × Text
unfolding where_ident append_ctid sorted_keys
update_where ch vals new_side =
    let pk : List Text = if is_nil ch.pk_cols then sorted_keys vals else ch.pk_cols in
    let risk : Text = if is_nil ch.pk_cols then text "无主键，UPDATE WHERE 使用全列等值" else [] in
    let (cond, risk') = where_ident pk vals (ident ch.mysql) in
    append_ctid cond (join_risk risk risk') ch new_side

-- `whereSrc` and `src`: the first row, or the second where it is empty.
abbrev pub or_else : Row → Row → Row
or_else [] row = row
or_else (entry ∷ rest) row = entry ∷ rest

-- `flashbackUndoSQL`: the statement and the risk. `Op` is in capitals.
unfoldable pub undo_op : Op → Change → Text × Text
unfolding undo_insert update_where insert_sql set_clause
undo_op op_insert ch = undo_insert ch
undo_op op_delete ch =
    if is_nil ch.old_row
    then (
      [],
      (if ch.mysql
          then text "DELETE 无法生成 INSERT：binlog 未包含旧行（需要 binlog_row_image=FULL）"
          else text "DELETE 无法生成 INSERT：WAL 未包含旧行（需要 REPLICA IDENTITY FULL 或 FPW）"),
    )
    else (insert_sql ch.schema ch.table ch.old_row (ident ch.mysql) ch.mysql, [])
undo_op op_update ch =
    let (cond, risk) = update_where ch (or_else ch.new_row ch.old_row) true in
    let set = set_clause ch.old_row (ident ch.mysql) in
    if is_nil ch.old_row
    then (
      [],
      (if ch.mysql
          then text "UPDATE 无法生成逆向 UPDATE：binlog 未包含旧行（需要 binlog_row_image=FULL）"
          else text "UPDATE 无法生成逆向 UPDATE：WAL 未包含旧行"),
    )
    else if is_blank set || is_blank cond
    then ([], text "UPDATE 无法生成 SET/WHERE")
    else (update_sql ch set cond, risk)
undo_op (op_other name) ch = ([], text "未知操作 " ++ name)
undo_op _ ch = (ch.ddl_undo, ch.ddl_risk)

abbrev pub undo_sql : Change → Text × Text
undo_sql ch = undo_op ch.op ch

-- `flashbackRedoSQL`
unfoldable pub redo_op : Op → Change → Text × Text
unfolding redo_delete update_where insert_sql set_clause
redo_op op_insert ch =
    if is_nil ch.new_row
    then ([], text "INSERT 缺少新行")
    else (insert_sql ch.schema ch.table ch.new_row (ident ch.mysql) ch.mysql, [])
redo_op op_delete ch = redo_delete ch
redo_op op_update ch =
    let (cond, risk) = update_where ch (or_else ch.old_row ch.new_row) false in
    if is_nil ch.new_row
    then ([], text "UPDATE 缺少新行")
    else (update_sql ch (set_clause ch.new_row (ident ch.mysql)) cond, risk)
redo_op (op_other name) ch = ([], text "未知操作 " ++ name)
redo_op _ ch = (ch.ddl_redo, ch.ddl_risk)

abbrev pub redo_sql : Change → Text × Text
redo_sql ch = redo_op ch.op ch
