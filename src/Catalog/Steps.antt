-- ===== src/Catalog/Steps.antt =====
-- Histories of the catalog: rows, ends of transactions, in any order.
use db_flashback.Base.{
  ℕ, zero, suc, ◌≡◌, inl, inr, not, ◌&&◌, some, List, [], ◌∷◌, ◌==◌, ==_iff, Bool-cases,
  Option-cases, lookup,
}
use db_flashback.Catalog.Enrich.{enrich_old, class_name, attr_name}
use db_flashback.Catalog.Impl.{
  user_relation, table_at, with_columns, is_table, discard_xid, flush_xid,
}
use db_flashback.Catalog.Links.{
  LinksAgree, delete_class-LinksAgree, write_class-LinksAgree, if-LinksAgree,
}
use db_flashback.Catalog.Rows.{
  apply, apply_class, apply_attr, apply_namespace, apply_type, stage, is_user_relkind,
  is_catalog_rel_name, numbered,
}
use db_flashback.Catalog.Values.{u32_field, int_field, trimmed_field}
use db_flashback.Catalog.{Class, Mut, CatalogState, is_delete, changed_row}
use db_flashback.Change.{Row, Op, Change}
use db_flashback.Dict.{Column, Relation}
use db_flashback.Heap.Holds.{Holds, if-P}
use db_flashback.Sql.Words.{text, is_blank, same_text}
use db_flashback.Toast.{ℤ, pos, negsuc}

abbrev Agrees : CatalogState → Type 0
Agrees c = LinksAgree c.node_to_oid c.classes

apply_class-Agrees :
    (c : CatalogState) (op : Op) (old new : Row) → Agrees c → Agrees (apply_class c op old new)
unfolding apply_class
apply_class-Agrees c op old new h =
    let row = changed_row op old new in
    let oid = u32_field (text "oid") row in
    let kind = trimmed_field (text "relkind") row in
    elim (Bool-cases (oid == 0)) [
      | inl none_named ↦ rw none_named h
      | inr named ↦ rw named (
          if-LinksAgree (is_delete op) _ _ (delete_class-LinksAgree c oid h) (
            if-LinksAgree (not (is_blank kind) && not (is_user_relkind kind)) _ _ h (
              if-LinksAgree (is_catalog_rel_name (trimmed_field (text "relname") row)) _ _ h
                (write_class-LinksAgree c oid row (λ z. let is = (==_iff oid 0).1 z in cc) h))))
    ]

numbered-Agrees :
    (c : CatalogState) (relid : ℕ) (n : ℤ) (op : Op) (row : Row)
    → Agrees c
    → Agrees (numbered c relid n op row)
numbered-Agrees c relid (pos zero) op row h = h
numbered-Agrees c relid (pos (suc n)) op row h = if-LinksAgree (relid == 0) _ _ h h
numbered-Agrees c relid (negsuc n) op row h = h

apply-Agrees :
    (c : CatalogState) (xid : ℕ) (rel : Relation) (op : Op) (old new : Row)
    → Agrees c
    → Agrees (apply c xid rel op old new)
unfolding apply stage apply_namespace apply_type apply_attr
apply-Agrees c xid rel op old new h =
    let name = rel.name in
    let full = enrich_old c name op old new in
    let m : Mut = record {
      xid = xid;
      rel = name;
      op = op;
      old_row = full;
      new_row = new;
      rel_node = rel.rel_node;
    } in
    let d = stage c m in
    let row = changed_row op full new in
    let relid = u32_field (text "attrelid") row in
    if-LinksAgree (same_text name (text "pg_namespace")) _ _
      (if-LinksAgree (u32_field (text "oid") row == 0) _ _ h (
        if-LinksAgree (is_delete op) _ _ h
          (if-LinksAgree (is_blank (trimmed_field (text "nspname") row)) _ _ h h)))
      (if-LinksAgree (same_text name (text "pg_type")) _ _
        (if-LinksAgree (u32_field (text "oid") row == 0) _ _ h
          (if-LinksAgree (is_delete op) _ _ h h))
        (if-LinksAgree (same_text name class_name) _ _ (apply_class-Agrees d op full new h) (
          if-LinksAgree (same_text name attr_name) _ _
            (numbered-Agrees d relid (int_field (text "attnum") row) op row h) h)))

-- What the reader and the record decoder do to a catalog.
pub data Step (ddl : CatalogState → ℕ → List Mut → List Change)
    : CatalogState → CatalogState → Type 0 where
  row :
      (c : CatalogState) (xid : ℕ) (rel : Relation) (op : Op) (old new : Row)
      → Step ddl c (apply c xid rel op old new)
  discarded : (c : CatalogState) (xid : ℕ) → Step ddl c (discard_xid c xid)
  flushed : (c : CatalogState) (xid : ℕ) → Step ddl c (flush_xid ddl c xid).0

pub data Reach (ddl : CatalogState → ℕ → List Mut → List Change) (c : CatalogState)
    : CatalogState → Type 0 where
  here : Reach ddl c c
  next : {d e : CatalogState} → Reach ddl c d → Step ddl d e → Reach ddl c e

Step-Agrees :
    {ddl : CatalogState → ℕ → List Mut → List Change} {c d : CatalogState}
    → Step ddl c d
    → Agrees c
    → Agrees d
unfolding discard_xid flush_xid
Step-Agrees (row c xid rel op old new) h = apply-Agrees c xid rel op old new h
Step-Agrees (discarded c xid) h = h
Step-Agrees (flushed c xid) h = h

Reach-Agrees :
    {ddl : CatalogState → ℕ → List Mut → List Change} {c d : CatalogState}
    → Agrees c
    → Reach ddl c d
    → Agrees d
Reach-Agrees h here = h
Reach-Agrees h (next r s) = Step-Agrees s (Reach-Agrees h r)

-- The table of a class has its data at the class's node.
with_columns-at :
    (c : CatalogState) (cl : Class) (node : ℕ) (cols : List Column)
    → cl.rel_node ≡ node
    → Holds (λ (rel : Relation). rel.rel_node ≡ node) (with_columns c cl cols)
with_columns-at c cl node [] e = tt
with_columns-at c cl node (col ∷ cols) e = e

table_at-Agrees :
    (c : CatalogState) (node oid : ℕ)
    → Agrees c
    → lookup node c.node_to_oid ≡ some oid
    → Holds (λ (rel : Relation). rel.rel_node ≡ node) (table_at c oid)
table_at-Agrees c node oid h e =
    let (nz, (cl, found, at)) = h node oid e in
    rw (table_at, found)
      (if-P (Holds (λ (rel : Relation). rel.rel_node ≡ node)) (is_table cl)
        (with_columns-at c cl node _ at) tt)

-- From a catalog whose links agree, such as an empty one, and after any rows, aborts and commits in
-- any order: a table that the catalog gives for a node is the one that has its data there.
pub user_relation-Reach :
    (ddl : CatalogState → ℕ → List Mut → List Change) (c d : CatalogState) (node : ℕ)
    → LinksAgree c.node_to_oid c.classes
    → Reach ddl c d
    → Holds (λ (rel : Relation). rel.rel_node ≡ node) (user_relation d node)
unfolding user_relation
user_relation-Reach ddl c d node h r =
    let P = Holds (λ (rel : Relation). rel.rel_node ≡ node) in
    elim (Option-cases (lookup node d.node_to_oid)) [
      | inl e ↦ rw e (if-P P (node == 0) tt tt)
      | inr (oid, e) ↦ rw e (
          if-P P (node == 0) tt
            (if-P P (oid == 0) tt (table_at-Agrees d node oid (Reach-Agrees h r) e)))
    ]
