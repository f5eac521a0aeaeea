-- ===== src/Sql/Tests.antt =====
-- The theorems on statements at small inputs, and statements as the program prints them.
use db_flashback.Base.{◌≡◌, refl, ◌⊎◌, true, some, [], ◌∷◌, ◌++◌}
use db_flashback.Change.{Change, blank_change, op_update, op_insert}
use db_flashback.Sql.Clause.{is_null, quote_literal, ident}
use db_flashback.Sql.Quote.{read_quoted, read_quoted-ident, read_quoted-quote_literal}
use db_flashback.Sql.Reverse.{reverse, undo_sql-reverse}
use db_flashback.Sql.Statement.{undo_op, redo_op, undo_sql, redo_sql}
use db_flashback.Sql.Words.{text}

abbrev rename : Change
rename = record blank_change {
  schema = text "s";
  table = text "t";
  op = op_update;
  old_row = (text "id", text "7") ∷ ((text "name", text "O'Hara") ∷ []);
  new_row = (text "id", text "7") ∷ ((text "name", text "\\N") ∷ []);
  pk_cols = text "id" ∷ [];
}

undo_rename :
    (undo_sql rename).0
    ≡ text "UPDATE \"s\".\"t\" SET \"id\" = '7', \"name\" = 'O''Hara' WHERE \"id\" = '7';"
undo_rename = unfold undo_op in refl

redo_insert :
    (redo_sql (record rename { op = op_insert })).0
    ≡ text "INSERT INTO \"s\".\"t\" (\"id\", \"name\") VALUES ('7', NULL);"
redo_insert = unfold redo_op in refl

-- A row without a primary key that an update has moved.
undo_no_key :
    (undo_sql (record rename {
      pk_cols = [];
      no_pk = true;
      block = 3;
      offnum = 2;
      new_block = 40;
      new_off = 11;
    })).0
    ≡ text
        "UPDATE \"s\".\"t\" SET \"id\" = '7', \"name\" = 'O''Hara' WHERE \"id\" = '7' AND \"name\" IS NULL AND ctid = '(40,11)';"
undo_no_key = unfold undo_op in refl

undo_sql-reverse_example :
    ((undo_sql rename).0 ≡ []) ⊎ ((undo_sql rename).0 ≡ (redo_sql (reverse rename)).0)
undo_sql-reverse_example = undo_sql-reverse rename

read_quoted-ident_example :
    read_quoted 96 (ident true (text "a`b") ++ text ".c") ≡ some (text "a`b", text ".c")
read_quoted-ident_example = read_quoted-ident true (text "a`b") (text ".c") refl

read_quoted-quote_literal_example :
    read_quoted 39 (quote_literal (text "O'Hara") ++ text ";") ≡ some (text "O'Hara", text ";")
read_quoted-quote_literal_example =
    read_quoted-quote_literal (text "O'Hara") (text ";") (unfold is_null in refl) refl refl

-- A text that spells the word is written as the null value, and one with the mark verbatim.
null_word : quote_literal (text "Null") ≡ text "NULL"
null_word = unfold quote_literal in refl

marked_value : quote_literal (text "\\RAW:0; DROP TABLE t") ≡ text "0; DROP TABLE t"
marked_value = unfold quote_literal in refl
