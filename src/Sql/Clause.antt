-- ===== src/Sql/Clause.antt =====
-- Names, literals and the clauses of a statement.
use db_flashback.Base.{
  ℕ, Bool, not, ◌&&◌, ◌||◌, Option, none, some, List, [], ◌∷◌, ◌++◌, ltb, ◌==◌, if◌then◌else◌,
  length, drop,
}
use db_flashback.Change.{Text, Row, Change}
use db_flashback.Sql.Words.{
  text, same_text, is_blank, has_prefix, contains, doubled, join, trim_space, is_null_word, decimal,
  sort_texts,
}

-- `flashbackIsDroppedColName`
unfoldable pub is_dropped_col_name : Text → Bool
unfolding contains
is_dropped_col_name name = contains name (text "pg.dropped")

-- A name between quote characters, with those inside doubled.
unfoldable pub quoted : ℕ → Text → Text
unfolding doubled
quoted q name = q ∷ (doubled q name ++ (q ∷ []))

-- `flashbackQuoteIdent`
abbrev pub quote_ident : Text → Text
quote_ident name = quoted 34 name

-- `v == "\N" || strings.EqualFold(v, "NULL")`
unfoldable pub is_null : Text → Bool
unfolding is_null_word
is_null v = same_text v (text "\\N") || is_null_word v

-- `flashbackQuoteLiteral`
unfoldable pub quote_literal : Text → Text
unfolding is_null quoted
quote_literal v =
    if is_null v
    then text "NULL"
    else if has_prefix v (text "\\RAW:")
    then drop 5 v
    else quoted 39 v

-- `flashbackChange.ident`
abbrev pub ident : Bool → Text → Text
ident mysql name = if mysql then quoted 96 name else quote_ident name

-- `flashbackQualified`
unfoldable pub qualified : Text → Text → Text
unfolding trim_space quoted
qualified schema table =
    quote_ident (if is_blank (trim_space schema) then text "public" else schema)
    ++ (text "." ++ quote_ident table)

-- `flashbackChange.qual`
unfoldable pub qual : Bool → Text → Text → Text
unfolding qualified
qual mysql schema table =
    if not mysql
    then qualified schema table
    else if is_blank (trim_space schema)
    then ident mysql table
    else ident mysql schema ++ (text "." ++ ident mysql table)

-- `vals[c]`
unfoldable pub column : Text → Row → Option Text
column c [] = none
column c ((name, v) ∷ row) = if same_text name c then some v else column c row

abbrev pub value_or_blank : Option Text → Text
value_or_blank none = []
value_or_blank (some v) = v

abbrev pub names : Row → List Text
names [] = []
names ((name, v) ∷ row) = name ∷ names row

-- `flashbackSortedKeys`
unfoldable pub sorted_keys : Row → List Text
unfolding sort_texts
sorted_keys vals = sort_texts (names vals)

abbrev pub compare_to : Text → Option Text → Text
compare_to name none = name ++ text " IS NULL"
compare_to name (some v) =
    if is_null v then name ++ text " IS NULL" else name ++ (text " = " ++ quote_literal v)

-- The loop of `flashbackWhereIdent`.
unfoldable pub where_parts : List Text → Row → (Text → Text) → List Text
unfolding is_dropped_col_name column quote_literal
where_parts [] vals id = []
where_parts (c ∷ cols) vals id =
    let parts = where_parts cols vals id in
    if is_dropped_col_name c then parts else compare_to (id c) (column c vals) ∷ parts

-- `flashbackWhereIdent`: the clause and the risk.
unfoldable pub where_ident : List Text → Row → (Text → Text) → Text × Text
unfolding where_parts sorted_keys join
where_ident cols vals id =
    let cols' : List Text = elim cols [ [] ↦ sorted_keys vals | c ∷ cs ↦ c ∷ cs ] in
    if length cols' == 0 then ([], text "无可用 WHERE 列") else (
      join (text " AND ") (where_parts cols' vals id),
      if ltb 4 (length cols') then text "WHERE 使用多列等值，请人工核对" else [],
    )

-- `flashbackCTIDLiteral`
unfoldable pub ctid_literal : ℕ → ℕ → Text
unfolding decimal
ctid_literal block off =
    if off == 0
    then []
    else text "'(" ++ (decimal block ++ (text "," ++ (decimal off ++ text ")'")))

-- `joinRisk`
unfoldable pub join_risk : Text → Text → Text
unfolding trim_space
join_risk a b =
    if is_blank (trim_space a)
    then trim_space b
    else if is_blank (trim_space b)
    then trim_space a
    else trim_space a ++ (text "；" ++ trim_space b)

-- `lit` of `flashbackAppendCTID`
unfoldable pub ctid_of : Change → Bool → Text
unfolding ctid_literal
ctid_of ch new_side =
    if new_side && not (is_blank (ctid_literal ch.new_block ch.new_off))
    then ctid_literal ch.new_block ch.new_off
    else ctid_literal ch.block ch.offnum

-- `flashbackAppendCTID`
unfoldable pub append_ctid : Text → Text → Change → Bool → Text × Text
unfolding ctid_of join_risk
append_ctid cond risk ch new_side =
    if ch.mysql || (not ch.no_pk || (is_blank (ctid_of ch new_side) || is_blank cond))
    then (cond, risk)
    else (
      cond ++ (text " AND ctid = " ++ ctid_of ch new_side),
      join_risk risk (text "ctid 为变更当时值，VACUUM 后可能失效"),
    )

-- The loop of `flashbackSetClauseIdent` over the sorted keys, without columns to skip.
unfoldable pub set_parts : List Text → Row → (Text → Text) → List Text
unfolding is_dropped_col_name column quote_literal
set_parts [] vals id = []
set_parts (k ∷ ks) vals id =
    let parts = set_parts ks vals id in
    if is_dropped_col_name k
    then parts
    else (id k ++ (text " = " ++ quote_literal (value_or_blank (column k vals)))) ∷ parts

-- `flashbackSetClauseIdent` with a nil `skip`, as both callers have it.
unfoldable pub set_clause : Row → (Text → Text) → Text
unfolding set_parts sorted_keys join
set_clause vals id = join (text ", ") (set_parts (sorted_keys vals) vals id)

-- The loop of `flashbackInsertSQLIdent`: names and literals.
unfoldable pub insert_lists : List Text → Row → (Text → Text) → List Text × List Text
unfolding is_dropped_col_name column quote_literal
insert_lists [] vals id = ([], [])
insert_lists (k ∷ ks) vals id =
    let (cols, lits) = insert_lists ks vals id in
    if is_dropped_col_name k
    then (cols, lits)
    else (id k ∷ cols, quote_literal (value_or_blank (column k vals)) ∷ lits)

-- `flashbackInsertSQLIdent`
unfoldable pub insert_sql : Text → Text → Row → (Text → Text) → Bool → Text
unfolding insert_lists sorted_keys qual join
insert_sql schema table vals id mysql =
    let (cols, lits) = insert_lists (sorted_keys vals) vals id in
    text "INSERT INTO "
    ++ (qual mysql schema table
        ++ (text " ("
            ++ (join (text ", ") cols
                ++ (text ") VALUES (" ++ (join (text ", ") lits ++ text ");")))))
