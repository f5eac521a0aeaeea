-- ===== src/Fpw/Cache.antt =====
-- `flashbackFPWCache` of internal/service/flashback_walparse.go: a bounded cache that evicts the
-- page stored first. `c.keys` is the order of insertion; the map keeps that order here as well.
pub mod Laws
use db_flashback.Base.{
  ℕ, max, not, ◌&&◌, Option, none, some, List, [], ◌∷◌, ◌++◌, leb, ◌==◌, if◌then◌else◌, length,
  lookup, insert, remove,
}
use db_flashback.Bytes.{Bytes}

pub record FpwCache : Type 0 where
  pub max : ℕ
  pub order : List ℕ
  pub pages : List (ℕ × Bytes)

-- `flashbackNewFPWCache`; 512 is `flashbackDefaultFPWPages`.
unfoldable pub new_fpw_cache : ℕ → FpwCache
new_fpw_cache max = record { max = if max == 0 then 512 else max; order = []; pages = [] }

abbrev pub page_or_nil : Option Bytes → Bytes
page_or_nil none = []
page_or_nil (some page) = page

-- `Get`; the empty list is nil.
unfoldable pub get : FpwCache → ℕ → Bytes
get c k = page_or_nil (lookup k c.pages)

-- `c.keys[0]`, `c.keys[1:]` and the `delete` of an eviction.
unfoldable pub evict : FpwCache → FpwCache
evict c = elim c.order [
  | [] ↦ c
  | old ∷ rest ↦ record c { order = rest; pages = remove old c.pages }
]

-- `Set` of a new key.
unfoldable pub store : FpwCache → ℕ → Bytes → FpwCache
unfolding evict
store c k page =
    let full = not (c.max == 0) && leb c.max (length c.pages) && not (length c.order == 0) in
    let c' = if full then evict c else c in
    record c' { order = c'.order ++ (k ∷ []); pages = insert k page c'.pages }

-- `Set`
unfoldable pub set : FpwCache → ℕ → Bytes → FpwCache
unfolding store
set c k page = if length page == 0 then c else elim (lookup k c.pages) [
  | none ↦ store c k page
  | some old ↦ record c { pages = insert k page c.pages }
]

-- `Len`
unfoldable pub len : FpwCache → ℕ
len c = length c.pages
