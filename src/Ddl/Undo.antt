-- ===== src/Ddl/Undo.antt =====
-- What every statement of a transaction carries: flashbackSynthesizeDDL of
-- internal/service/flashback_ddl.go.
use db_flashback.Base.{
  ℕ, ◌≡◌, refl, ap, inl, inr, Bool, true, false, not, ◌&&◌, List, [], ◌∷◌, ◌++◌, ◌==◌,
  if◌then◌else◌, Bool-cases, All,
}
use db_flashback.Catalog.{Attr, Mut, CatalogState}
use db_flashback.Catalog.Values.{u32_field}
use db_flashback.Change.{Text, Op, Change, op_create, op_drop, op_alter}
use db_flashback.Ddl.Statements.{
  ddl_change, alter_sql, drop_table_sql, drop_column_sql, created_change, dropped_change,
  renamed_change, added_change, added_changes, dropped_column_change, dropped_columns_change,
  ns_renamed_change, unless, each, row_of, unique, dropped_named, all_changes, synthesize_ddl,
}
use db_flashback.Ddl.Table.{catalog_qual, ddl_type_name, column_definition}
use db_flashback.Ddl.Reverse.{
  table_create, table_drop, add_column, drop_column, rename_table, rename_column, rename_schema,
  Answer, taken_back, given_up, no_columns, Creates, format_create_table-Creates,
  column_definition_lem,
}
use db_flashback.Ddl.{Added, new_column, renamed, Seen, nothing_seen, see_all}
use db_flashback.Reader.Window.{All-append}
use db_flashback.Sql.Clause.{join_risk}
use db_flashback.Sql.Words.{text, is_blank, contains, trim_space}

abbrev is_ddl : Op → Bool
is_ddl op_create = true
is_ddl op_drop = true
is_ddl op_alter = true
is_ddl op = false

-- A change by statements in the transaction, with what takes it back or a risk.
pub record Answered (xid : ℕ) (c : Change) : Type 0 where
  pub same_xid : c.xid ≡ xid
  pub by_statements : is_ddl c.op ≡ true
  pub no_old : c.old_row ≡ []
  pub no_new : c.new_row ≡ []
  pub answer : Answer c

unless-All : (P : Change → Type 0) (b : Bool) (cs : List Change) → All P cs → All P (unless b cs)
unfolding unless
unless-All P true cs h = tt
unless-All P false cs h = h

unless-one : (P : Change → Type 0) (b : Bool) (c : Change) → P c → All P (unless b (c ∷ []))
unless-one P b c h = unless-All P b (c ∷ []) (h, tt)

if-holds {ℓ} :
    {A : Type ℓ} (P : A → Type 0) (b : Bool) (x y : A) → P x → P y → P (if b then x else y)
if-holds P true x y h k = h
if-holds P false x y h k = k

each-All {ℓ} :
    {A : Type ℓ} (P : Change → Type 0) (f : A → List Change) (xs : List A)
    → ((a : A) → All P (f a))
    → All P (each f xs)
each-All P f [] h = tt
each-All P f (x ∷ xs) h = All-append P (f x) (each f xs) (h x) (each-All P f xs h)

blank-append : (xs ys : Text) → is_blank ys ≡ false → is_blank (xs ++ ys) ≡ false
blank-append [] ys h = h
blank-append (x ∷ xs) ys h = refl

-- A risk that is not all spaces makes the joined risk not empty.
join_risk-is_blank :
    (a b : Text) → is_blank (trim_space b) ≡ false → is_blank (join_risk a b) ≡ false
unfolding join_risk
join_risk-is_blank a b h = elim (Bool-cases (is_blank (trim_space a))) [
  | inl e ↦ rw (e) h
  | inr e ↦ rw (e, h) (blank-append (trim_space a) (text "；" ++ trim_space b) refl)
]

module _ (to_lower : ℕ → ℕ) (cat : CatalogState) (xid : ℕ) (s : Seen) where
  answered :
      (schema table : Text) (op : Op) (redo undo risk : Text)
      → is_ddl op ≡ true
      → Answer (ddl_change xid schema table op redo undo risk)
      → Answered xid (ddl_change xid schema table op redo undo risk)
  answered schema table op redo undo risk h a = record {
    same_xid = refl;
    by_statements = h;
    no_old = refl;
    no_new = refl;
    answer = a;
  }

  created_answer :
      (schema table : Text) (p : Text × Text) (node : ℕ)
      → Creates schema table p
      → Answered xid
          (record (ddl_change xid schema table op_create p.0 (drop_table_sql schema table) p.1) {
            rel_node = node;
          })
  created_answer schema table p node (inl (none_there, risky)) = record {
    same_xid = refl;
    by_statements = refl;
    no_old = refl;
    no_new = refl;
    answer = no_columns refl none_there risky refl;
  }
  created_answer schema table p node (inr (body, e)) = record {
    same_xid = refl;
    by_statements = refl;
    no_old = refl;
    no_new = refl;
    answer = taken_back (table_create schema table body) refl refl e refl;
  }

  created_change-Answered : (oid : ℕ) → All (Answered xid) (created_change to_lower cat xid s oid)
  unfolding created_change
  created_change-Answered oid =
      unless-one _ _ _ (created_answer _ _ _ _ (format_create_table-Creates to_lower cat _ _ oid _))

  no_create :
      (schema table redo risk : Text)
      → Answered xid (
          ddl_change xid schema table op_drop redo []
            (join_risk risk (text "缺旧行图像，无法还原完整 CREATE TABLE")))
  unfolding trim_space
  no_create schema table redo risk =
      answered _ _ _ _ _ _ refl
        (given_up refl (join_risk-is_blank risk (text "缺旧行图像，无法还原完整 CREATE TABLE") refl))

  dropped_named-Answered :
      (schema table : Text) (create : Text × Text)
      → Creates schema table create
      → Answered xid (dropped_named to_lower cat xid s schema table create)
  dropped_named-Answered schema table ([], risk) h = no_create schema table _ risk
  dropped_named-Answered schema table (c ∷ create, risk) (inl (e, risky)) = absurd cc
  dropped_named-Answered schema table (c ∷ create, risk) (inr (body, e)) =
      if-holds (Answered xid) (not (contains (c ∷ create) (text "("))) _ _
        (no_create schema table _ risk)
        (answered _ _ _ _ _ _ refl (taken_back (table_drop schema table body) refl refl refl e))

  dropped_change-Answered : (oid : ℕ) → All (Answered xid) (dropped_change to_lower cat xid s oid)
  unfolding dropped_change
  dropped_change-Answered oid =
      let row = row_of oid s.class_old in
      if-holds (All (Answered xid))
        (is_blank (catalog_qual cat row oid).1 && not (u32_field (text "oid") row == 0)) _ _
        (answered _ _ _ _ _ _ refl (given_up refl refl), tt)
        (unless-one _ _ _
          (dropped_named-Answered _ _ _ (format_create_table-Creates to_lower cat _ _ oid _)))

  renamed_change-Answered :
      (r : ℕ × (Text × Text)) → All (Answered xid) (renamed_change to_lower cat xid s r)
  unfolding renamed_change
  renamed_change-Answered (oid, (old, new)) =
      unless-one _ _ _
        (answered _ _ _ _ _ _ refl (taken_back (rename_table _ old new) refl refl refl refl))

  added_change-Answered :
      (schema table : Text) (a : Added)
      → All (Answered xid) (added_change to_lower cat xid s schema table a)
  unfolding added_change
  added_change-Answered schema table (renamed old new) = (
    answered _ _ _ _ _ _ refl (taken_back (rename_column schema table old new) refl refl refl refl),
    tt,
  )
  added_change-Answered schema table (new_column a) =
      let typ = ddl_type_name to_lower a.type_name in
      unless-one _ _ _ (
        answered _ _ _ _ _ _ refl (
          taken_back
            (add_column schema table a.name (typ ++ (if a.not_null then text " NOT NULL" else [])))
            refl refl
            (ap (λ (def : Text). alter_sql schema table (text "ADD COLUMN " ++ def))
              (column_definition_lem to_lower a typ))
            refl))

  added_changes-Answered :
      (r : ℕ × List Added) → All (Answered xid) (added_changes to_lower cat xid s r)
  unfolding added_changes
  added_changes-Answered (oid, added) =
      unless-All (Answered xid) _ _ (
        unless-All (Answered xid) _ _ (each-All (Answered xid) _ added (added_change-Answered _ _)))

  -- By whether the type of the column is not known.
  dropped_column_answer :
      (schema table : Text) (a : Attr) (typ : Text) (no_type : Bool)
      → Answered xid (
          ddl_change xid schema table op_alter
            (alter_sql schema table (drop_column_sql a.name))
            (if no_type
              then []
              else alter_sql schema table (text "ADD COLUMN " ++ column_definition to_lower a typ))
            (if no_type then text "缺旧列类型，无法还原 ADD COLUMN" else []))
  dropped_column_answer schema table a typ true = answered _ _ _ _ _ _ refl (given_up refl refl)
  dropped_column_answer schema table a typ false = answered _ _ _ _ _ _ refl (
      taken_back
        (drop_column schema table a.name (typ ++ (if a.not_null then text " NOT NULL" else [])))
        refl refl refl
        (ap (λ (def : Text). alter_sql schema table (text "ADD COLUMN " ++ def))
          (column_definition_lem to_lower a typ)))

  dropped_column_change-Answered :
      (schema table : Text) (a : Attr)
      → All (Answered xid) (dropped_column_change to_lower cat xid s schema table a)
  unfolding dropped_column_change
  dropped_column_change-Answered schema table a =
      unless-one _ _ _ (dropped_column_answer schema table a _ (is_blank a.type_name))

  dropped_columns_change-Answered :
      (r : ℕ × List Attr) → All (Answered xid) (dropped_columns_change to_lower cat xid s r)
  unfolding dropped_columns_change
  dropped_columns_change-Answered (oid, cols) = unless-All (Answered xid) _ _ (
      unless-All (Answered xid) _ _
        (each-All (Answered xid) _ cols (dropped_column_change-Answered _ _)))

  ns_renamed_change-Answered :
      (r : ℕ × (Text × Text)) → All (Answered xid) (ns_renamed_change to_lower cat xid s r)
  unfolding ns_renamed_change
  ns_renamed_change-Answered (oid, (old, new)) =
      unless-one _ _ _
        (answered _ _ _ _ _ _ refl (taken_back (rename_schema old new) refl refl refl refl))

  all_changes-Answered : All (Answered xid) (all_changes to_lower cat xid s)
  unfolding all_changes
  all_changes-Answered =
      All-append (Answered xid) _ _
        (each-All (Answered xid) _ (unique [] s.created) created_change-Answered)
        (All-append (Answered xid) _ _
          (each-All (Answered xid) _ (unique [] s.dropped) dropped_change-Answered)
          (All-append (Answered xid) _ _
            (each-All (Answered xid) _ s.renames renamed_change-Answered)
            (All-append (Answered xid) _ _
              (each-All (Answered xid) _ s.added_cols added_changes-Answered)
              (All-append (Answered xid) _ _
                (each-All (Answered xid) _ s.dropped_cols dropped_columns_change-Answered)
                (each-All (Answered xid) _ s.ns_renames ns_renamed_change-Answered)))))

-- Every change that the catalog rows of a transaction give is one of the transaction, by
-- statements and not by rows, a CREATE, a DROP or an ALTER. Either it does one statement on its
-- table or schema and undoes it by the inverse: a table dropped for one created and the other way
-- round, a column dropped for one added and the other way round, names given back; or it has no
-- statement to undo it and a risk; or it creates a table without columns by no statement, with a
-- risk, and undoes that by dropping it.
pub synthesize_ddl-Answered :
    (to_lower : ℕ → ℕ) (cat : CatalogState) (xid : ℕ) (muts : List Mut)
    → All (Answered xid) (synthesize_ddl to_lower cat xid muts)
unfolding synthesize_ddl
synthesize_ddl-Answered to_lower cat xid [] = tt
synthesize_ddl-Answered to_lower cat xid (m ∷ muts) =
    all_changes-Answered to_lower cat xid (see_all cat (m ∷ muts) nothing_seen)
