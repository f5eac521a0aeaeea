-- ===== src/Perm.antt =====
-- Permissions of users on the pages of the console, internal/service/flashback_perm.go. The JSON
-- package is a parameter.
pub mod Known
mod Tests
use db_flashback.Base.{
  ℕ, Bool, false, not, ◌&&◌, ◌||◌, Option, none, some, List, [], ◌∷◌, map, ◌==◌, if◌then◌else◌,
}
use db_flashback.Change.{Text, Row}
use db_flashback.Dict.{row_get, row_put}
use db_flashback.Sql.Words.{text, is_blank, same_text, trim_space, lower}

-- The keys of `FlashbackPageCatalog`.
abbrev pub page_catalog : List Text
page_catalog =
    text "dashboard"
    ∷ (text "tasks" ∷ (text "history" ∷ (text "instances" ∷ (text "ops" ∷ (text "tools" ∷ [])))))

abbrev pub perm_view : Text
perm_view = text "view"

abbrev pub perm_operate : Text
perm_operate = text "operate"

abbrev pub is_one_of : Text → List Text → Bool
is_one_of key [] = false
is_one_of key (page ∷ pages) = same_text page key || is_one_of key pages

-- `flashbackKnownPage`
unfoldable pub known_page : Text → Bool
known_page key = is_one_of key page_catalog

-- `unicode.ToLower`, as far as it gives a letter of ASCII.
abbrev pub small_letter : ℕ → ℕ
small_letter c = if c == 0x130 then 105 else if c == 0x212a then 107 else lower c

-- `strings.ToLower(strings.TrimSpace(v))`
unfoldable pub level_of : Text → Text
unfolding trim_space
level_of v = map small_letter (trim_space v)

abbrev pub is_level : Text → Bool
is_level v = same_text v perm_view || same_text v perm_operate

-- The loop of `normalizePerms` over the entries that are left, onto those kept.
unfoldable pub normalize_onto : Row → Row → Row
unfolding known_page level_of row_put
normalize_onto out [] = out
normalize_onto out ((k, v) ∷ perms) =
    let page = trim_space k in
    let level = level_of v in
    normalize_onto
      (if not (known_page page)
        then out
        else if not (is_level level)
        then out
        else row_put page level out)
      perms

-- `normalizePerms`
unfoldable pub normalize_perms : Row → Row
unfolding normalize_onto
normalize_perms perms = normalize_onto [] perms

-- `adminPerms`
abbrev pub admin_perms : Row
admin_perms = map (λ page. (page, perm_operate)) page_catalog

-- `flashbackIsAdmin`: no letter outside ASCII folds to one of these.
unfoldable pub is_admin : Text → Bool
unfolding trim_space
is_admin name = same_text (map lower (trim_space name)) (text "admin")

-- `hasPageLevel`
unfoldable pub has_page_level : Text → Text → Bool
unfolding level_of
has_page_level level need =
    let need = level_of need in
    let level = level_of level in
    if same_text need perm_view
    then is_level level
    else same_text need perm_operate && same_text level perm_operate

abbrev entries : Option Row → Row
entries none = []
entries (some perms) = normalize_perms perms

-- `json.Unmarshal` of an object of texts; `none` is an error.
module _ (unmarshal : Text → Option Row) where
  -- `parseStoredPerms`
  unfoldable pub parse_stored_perms : Text → Row
  unfolding normalize_perms
  parse_stored_perms raw =
      let trimmed = trim_space raw in if is_blank trimmed then [] else entries (unmarshal trimmed)

  -- `effectivePerms`
  unfoldable pub effective_perms : Text → Text → Row
  unfolding parse_stored_perms is_admin
  effective_perms name raw = if is_admin name then admin_perms else parse_stored_perms raw

  -- `HasPagePerm`
  unfoldable pub has_page_perm : Text → Text → Text → Text → Bool
  unfolding effective_perms has_page_level row_get
  has_page_perm name raw page need = has_page_level (row_get page (effective_perms name raw)) need
