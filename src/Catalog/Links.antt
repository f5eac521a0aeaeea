-- ===== src/Catalog/Links.antt =====
-- The links from nodes to tables lead to tables at that node, whatever rows the log brings.
use db_flashback.Base.{
  ℕ, zero, suc, ◌≡◌, refl, sym, ap, ◌∙◌, subst, ◌≢◌, ◌⊎◌, inl, inr, Bool, true, false, not, ◌&&◌,
  Option, none, some, List, arith, ◌==◌, if◌then◌else◌, ==_iff, ==_ne, Bool-cases, lookup, insert,
  remove, lookup-insert, lookup-remove,
}
use db_flashback.Catalog.Values.{or_number, u32_field}
use db_flashback.Sql.Words.{text}
use db_flashback.Catalog.Rows.{class_or_new, class_after, delete_class, write_class, unlink, moved}
use db_flashback.Catalog.{Class, CatalogState}
use db_flashback.Change.{Row}

-- Each link from a node leads to a class that is there and has its data at the node.
abbrev pub LinksAgree : List (ℕ × ℕ) → List (ℕ × Class) → Type 0
LinksAgree links classes =
    (node oid : ℕ)
    → lookup node links ≡ some oid
    → (node ≢ 0) × ((cl : Class) × (lookup oid classes ≡ some cl) × (cl.rel_node ≡ node))

-- A link that is left was there, and is not the one removed.
lookup-removed :
    (n node other : ℕ) (links : List (ℕ × ℕ))
    → lookup node (remove n links) ≡ some other
    → (lookup node links ≡ some other) × (n ≢ node)
lookup-removed n node other links e =
    let cases : (if n == node then none else lookup node links) ≡ some other =
      sym (lookup-remove n node links) ∙ e in
    elim (Bool-cases (n == node)) [
      | inl hit ↦ let no : none ≡ some other = rw hit at cases in absurd cc
      | inr miss ↦ (rw miss at cases, λ same. let hit = (==_iff n node).1 same in absurd cc)
    ]

lookup-kept :
    (b : Bool) (n node other : ℕ) (links : List (ℕ × ℕ))
    → lookup node (if b then links else remove n links) ≡ some other
    → (lookup node links ≡ some other) × ((b ≡ true) ⊎ (n ≢ node))
lookup-kept true n node other links e = (e, inl refl)
lookup-kept false n node other links e =
    let (there, apart) = lookup-removed n node other links e in (there, inr apart)

lookup-cut :
    (b : Bool) (n node other : ℕ) (links : List (ℕ × ℕ))
    → lookup node (if b then remove n links else links) ≡ some other
    → (lookup node links ≡ some other) × ((b ≡ false) ⊎ (n ≢ node))
lookup-cut true n node other links e =
    let (there, apart) = lookup-removed n node other links e in (there, inr apart)
lookup-cut false n node other links e = (e, inl refl)

-- A link that a delete leaves does not lead to the class's node.
unlink-kept :
    (o : Option Class) (links : List (ℕ × ℕ)) (node other : ℕ)
    → lookup node (unlink o links) ≡ some other
    → (lookup node links ≡ some other)
      × (node ≢ 0 → (cl : Class) → o ≡ some cl → cl.rel_node ≢ node)
unlink-kept none links node other e = (e, λ nz cl no same. absurd cc)
unlink-kept (some k) links node other e =
    let (there, why) = lookup-kept (k.rel_node == 0) k.rel_node node other links e in
    (
      there,
      λ nz cl is same.
          let one : k ≡ cl = cc in
          let at : k.rel_node ≡ node = ap (λ (c : Class). c.rel_node) one ∙ same in
          elim why [ inl z ↦ nz (sym at ∙ (==_iff _ _).0 z) | inr apart ↦ apart at ],
    )

pub delete_class-LinksAgree :
    (c : CatalogState) (oid : ℕ)
    → LinksAgree c.node_to_oid c.classes
    → LinksAgree (delete_class c oid).node_to_oid (delete_class c oid).classes
unfolding delete_class
delete_class-LinksAgree c oid h node other e =
    let (there, apart) = unlink-kept (lookup oid c.classes) c.node_to_oid node other e in
    let (nz, (cl, found, at)) = h node other there in
    elim (Bool-cases (oid == other)) [
      | inl same ↦
          let one : oid ≡ other = (==_iff _ _).0 same in
          absurd (apart nz cl (ap (λ k. lookup k c.classes) one ∙ found) at)
      | inr other_class ↦ (nz, (cl, lookup-remove oid other c.classes ∙ rw other_class found, at))
    ]

or_number_nz : (a b : ℕ) → b ≢ 0 → or_number a b ≢ 0
or_number_nz zero b h = h
or_number_nz (suc a) b h = rw (==_ne (suc a) 0 (omega arith)) (omega arith)

pub write_class-LinksAgree :
    (c : CatalogState) (oid : ℕ) (row : Row)
    → oid ≢ 0
    → LinksAgree c.node_to_oid c.classes
    → LinksAgree (write_class c oid row).node_to_oid (write_class c oid row).classes
unfolding write_class
write_class-LinksAgree c oid row nz h node other e = elim (Bool-cases (to == node)) [
  | inl hit ↦
      let here : to ≡ node = (==_iff _ _).0 hit in
      let one : some oid ≡ some other = rw hit at (sym (lookup-insert to node oid links) ∙ e) in
      let same : (oid == other) ≡ true = (==_iff _ _).1 cc in
      (
        subst (λ n. n ≢ 0) here (or_number_nz (u32_field (text "relfilenode") row) oid nz),
        (
          class_after before row to,
          lookup-insert oid other (class_after before row to) c.classes ∙ rw same refl,
          here,
        ),
      )
  | inr miss ↦ elsewhere miss (rw miss at (sym (lookup-insert to node oid links) ∙ e))
]
  where
    before : Class
    before = class_or_new oid (lookup oid c.classes)

    to : ℕ
    to = or_number (u32_field (text "relfilenode") row) oid

    links : List (ℕ × ℕ)
    links = moved before to c.node_to_oid

    elsewhere :
        (to == node) ≡ false
        → lookup node links ≡ some other
        → (node ≢ 0)
          × ((cl : Class) × (lookup other (insert oid (class_after before row to) c.classes)
                ≡ some cl)
              × (cl.rel_node ≡ node))
    elsewhere miss left =
        let leaves = not (before.rel_node == 0) && not (before.rel_node == to) in
        let (there, why) = lookup-cut leaves before.rel_node node other c.node_to_oid left in
        let (nzn, (cl, found, at)) = h node other there in
        elim (Bool-cases (oid == other)) [
          | inl same ↦
              let one : oid ≡ other = (==_iff _ _).0 same in
              let it : before ≡ cl =
                ap (λ k. class_or_new oid (lookup k c.classes)) one ∙ ap (class_or_new oid) found in
              let here : before.rel_node ≡ node = ap (λ (k : Class). k.rel_node) it ∙ at in
              let goes : leaves ≡ true =
                rw
                  (
                    here,
                    ==_ne node 0 nzn,
                    ==_ne node to (λ q. let hit = (==_iff to node).1 (sym q) in cc),
                  )
                  refl in
              elim why [
                | inl stays ↦ let no : true ≡ false = sym goes ∙ stays in absurd cc
                | inr apart ↦ absurd (apart here)
              ]
          | inr apart ↦ (
            nzn,
            (
              cl,
              lookup-insert oid other (class_after before row to) c.classes ∙ rw apart found,
              at,
            ),
          )
        ]

pub if-LinksAgree :
    (b : Bool) (c d : CatalogState)
    → LinksAgree c.node_to_oid c.classes
    → LinksAgree d.node_to_oid d.classes
    → LinksAgree (if b then c else d).node_to_oid (if b then c else d).classes
if-LinksAgree true c d x y = x
if-LinksAgree false c d x y = y
