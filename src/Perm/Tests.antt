-- ===== src/Perm/Tests.antt =====
-- A user who may operate on the tasks.
use db_flashback.Base.{◌≡◌, refl, true, Option, some, [], ◌∷◌}
use db_flashback.Change.{Text, Row}
use db_flashback.Perm.Known.{has_page_perm_safe}
use db_flashback.Perm.{perm_view, perm_operate, known_page, has_page_perm}
use db_flashback.Sql.Words.{text}

abbrev stored : Text → Option Row
stored raw = some ((text " tasks ", text "Operate") ∷ ((text "nowhere", text "view") ∷ []))

has_page_perm_safe_example :
    (known_page (text "tasks") ≡ true)
    × (has_page_perm stored (text "ann") (text "{}") (text "tasks") perm_view ≡ true)
unfolding has_page_perm
has_page_perm_safe_example =
    has_page_perm_safe stored (text "ann") (text "{}") (text "tasks") perm_operate refl
