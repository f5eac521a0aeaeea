-- ===== src/Perm/Known.antt =====
-- A permission is one on a known page, and operating includes viewing.
use db_flashback.Base.{
  ◌≡◌, refl, ap, ◌∙◌, inl, inr, Bool, true, false, ◌&&◌, ◌||◌, Option, List, [], ◌∷◌, map, ◌==◌,
  if◌then◌else◌, ==_iff, Bool-cases, Option-cases,
}
use db_flashback.Change.{Text, Row}
use db_flashback.Dict.{row_get, row_put}
use db_flashback.Perm.{
  page_catalog, perm_view, perm_operate, is_one_of, known_page, level_of, is_level, normalize_onto,
  is_admin, has_page_level, parse_stored_perms, effective_perms, has_page_perm,
}
use db_flashback.Sql.Words.{is_blank, same_text, trim_space}

same_text→≡ : (v w : Text) → same_text v w ≡ true → v ≡ w
same_text→≡ [] [] h = refl
same_text→≡ [] (y ∷ ys) h = absurd cc
same_text→≡ (x ∷ xs) [] h = absurd cc
same_text→≡ (x ∷ xs) (y ∷ ys) h = elim (Bool-cases (x == y)) [
  | inl e ↦
      let tails : same_text xs ys ≡ true = rw e at h in
      let heads : x ≡ y = (==_iff x y).0 e in
      let rest : xs ≡ ys = same_text→≡ xs ys tails in rw (heads, rest) refl
  | inr e ↦ let no : false ≡ true = rw e at h in absurd cc
]

-- A page that is not known has no level.
row_get-row_put :
    (page key v : Text) (row : Row)
    → same_text key page ≡ false
    → row_get page (row_put key v row) ≡ row_get page row
unfolding row_get row_put
row_get-row_put page key v [] h = rw h refl
row_get-row_put page key v ((other, w) ∷ row) h = elim (Bool-cases (same_text other key)) [
  | inl e ↦
      let same : other ≡ key = same_text→≡ other key e in
      let apart : same_text other page ≡ false = ap (λ k. same_text k page) same ∙ h in
      rw e (rw apart refl)
  | inr e ↦ rw e (rw (row_get-row_put page key v row h) refl)
]

normalize_onto-unknown :
    (page : Text) (out perms : Row)
    → known_page page ≡ false
    → row_get page (normalize_onto out perms) ≡ row_get page out
unfolding normalize_onto
normalize_onto-unknown page out [] h = refl
normalize_onto-unknown page out ((k, v) ∷ perms) h =
    let key = trim_space k in
    let level = level_of v in
    elim (Bool-cases (known_page key)) [
      | inr unknown ↦ rw (normalize_onto, unknown) (normalize_onto-unknown page out perms h)
      | inl known ↦ elim (Bool-cases (is_level level)) [
        | inr no_level ↦
            rw (normalize_onto, known, no_level) (normalize_onto-unknown page out perms h)
        | inl fine ↦
            rw (normalize_onto, known, fine)
              (normalize_onto-unknown page (row_put key level out) perms h
                ∙ row_get-row_put page key level out (other_page key known))
      ]
    ]
  where
    other_page : (key : Text) → known_page key ≡ true → same_text key page ≡ false
    other_page key known = elim (Bool-cases (same_text key page)) [
      | inl e ↦
          let same : known_page key ≡ known_page page = ap known_page (same_text→≡ key page e) in
          absurd cc
      | inr e ↦ e
    ]

admin-unknown :
    (page : Text) (pages : List Text)
    → is_one_of page pages ≡ false
    → row_get page (map (λ p. (p, perm_operate)) pages) ≡ []
unfolding row_get
admin-unknown page [] h = refl
admin-unknown page (p ∷ pages) h = elim (Bool-cases (same_text p page)) [
  | inl e ↦ let no : true ≡ false = rw e at h in absurd cc
  | inr e ↦ rw e (admin-unknown page pages (rw e at h))
]

module _ (unmarshal : Text → Option Row) where
  stored-unknown :
      (raw page : Text)
      → known_page page ≡ false
      → row_get page (parse_stored_perms unmarshal raw) ≡ []
  unfolding parse_stored_perms row_get
  stored-unknown raw page h = elim (Bool-cases (is_blank (trim_space raw))) [
    | inl e ↦ rw e refl
    | inr e ↦ elim (Option-cases (unmarshal (trim_space raw))) [
      | inl bad ↦ rw (e, bad) refl
      | inr (perms, read) ↦ rw (e, read) (normalize_onto-unknown page [] perms h)
    ]
  ]

  effective-unknown :
      (name raw page : Text)
      → known_page page ≡ false
      → row_get page (effective_perms unmarshal name raw) ≡ []
  unfolding effective_perms
  effective-unknown name raw page h = elim (Bool-cases (is_admin name)) [
    | inl e ↦ rw e (unfold known_page in admin-unknown page page_catalog h)
    | inr e ↦ rw e (stored-unknown raw page h)
  ]

no_level_needed : (need : Text) → has_page_level [] need ≡ false
unfolding has_page_level level_of
no_level_needed need = elim (Bool-cases (same_text (level_of need) perm_view)) [
  | inl e ↦ rw (has_page_level, e) refl
  | inr e ↦ elim (Bool-cases (same_text (level_of need) perm_operate)) [
    | inl f ↦ rw (has_page_level, e, f) refl
    | inr f ↦ rw (has_page_level, e, f) refl
  ]
]

if-or : (a b c d : Bool) → (if a then c || d else b && d) ≡ true → (c || d) ≡ true
if-or true b c d h = h
if-or false true c true h = or_true c
  where
    or_true : (c : Bool) → (c || true) ≡ true
    or_true true = refl
    or_true false = refl
if-or false true c false h = absurd cc
if-or false false c d h = absurd cc

level-view :
    (level need : Text) → has_page_level level need ≡ true → has_page_level level perm_view ≡ true
unfolding has_page_level level_of
level-view level need h =
    if-or (same_text (level_of need) perm_view) (same_text (level_of need) perm_operate)
      (same_text (level_of level) perm_view) (same_text (level_of level) perm_operate) h

-- A permission that a user has on a page is on a page of the console, and whoever may do anything
-- on a page may view it: for administrators and others, whatever is stored.
pub has_page_perm_safe :
    (unmarshal : Text → Option Row) (name raw page need : Text)
    → has_page_perm unmarshal name raw page need ≡ true
    → (known_page page ≡ true) × (has_page_perm unmarshal name raw page perm_view ≡ true)
unfolding has_page_perm
has_page_perm_safe unmarshal name raw page need h = (
  elim (Bool-cases (known_page page)) [
    | inl e ↦ e
    | inr e ↦
        let no : has_page_level [] need ≡ true =
          rw (effective-unknown unmarshal name raw page e) at h in
        let not_so = no_level_needed need in absurd cc
  ],
  level-view (row_get page (effective_perms unmarshal name raw)) need h,
)
