-- ===== src/Base/Maps.antt =====
-- A Go map with number keys as an association list. A write keeps at most one entry for a key,
-- and a read of a missing key gives `none` (in Go the zero value).
use Prim.Native.Nat.{ℕ}
use mathlib.Core.Path.{◌≡◌, refl}
use mathlib.Core.Bool.{Bool, true, false, ◌||◌}
use mathlib.Core.List.{List, [], ◌∷◌, ◌++◌}
use mathlib.Core.Option.{Option, none, some}
use native.Mathlib.Omega.{arith}
use db_flashback.Base.Tests.{◌==◌, if◌then◌else◌}

abbrev pub mem : ℕ → List ℕ → Bool
mem x [] = false
mem x (y ∷ ys) = y == x || mem x ys

module _ {ℓ} {V : Type ℓ} where
  -- `m[k]`
  unfoldable pub lookup : ℕ → List (ℕ × V) → Option V
  lookup k [] = none
  lookup k ((old, a) ∷ rest) = if old == k then some a else lookup k rest

  -- `m[k] = v`
  unfoldable pub insert : ℕ → V → List (ℕ × V) → List (ℕ × V)
  insert k v [] = (k, v) ∷ []
  insert k v ((old, a) ∷ rest) = if old == k then (k, v) ∷ rest else (old, a) ∷ insert k v rest

  -- `delete(m, k)`
  unfoldable pub remove : ℕ → List (ℕ × V) → List (ℕ × V)
  remove k [] = []
  remove k ((j, w) ∷ m) = if j == k then remove k m else (j, w) ∷ remove k m

  abbrev pub keys : List (ℕ × V) → List ℕ
  keys [] = []
  keys ((j, w) ∷ m) = j ∷ keys m

  pub lookup-insert :
      (key seen : ℕ) (new : V) (entries : List (ℕ × V))
      → lookup seen (insert key new entries)
        ≡ (if key == seen then some new else lookup seen entries)
  unfolding lookup insert
  lookup-insert key seen new [] = refl
  lookup-insert key seen new (entry ∷ entries) = ground (arith, lookup-insert key seen new entries)

  pub lookup-remove :
      (k j : ℕ) (m : List (ℕ × V)) → lookup j (remove k m) ≡ (if k == j then none else lookup j m)
  unfolding lookup remove
  lookup-remove k j [] = ground arith
  lookup-remove k j ((i, w) ∷ m) = ground (arith, lookup-remove k j m)

  -- No key stands twice.
  abbrev pub NoRepeat : List (ℕ × V) → Type 0
  NoRepeat [] = Unit
  NoRepeat ((j, w) ∷ m) = (mem j (keys m) ≡ false) × NoRepeat m

  pub lookup-mem : (k : ℕ) (m : List (ℕ × V)) → mem k (keys m) ≡ false → lookup k m ≡ none
  unfolding lookup
  lookup-mem k [] h = refl
  lookup-mem k ((j, w) ∷ m) h = ground (arith, lookup-mem k m)

  pub mem-lookup : (k : ℕ) (m : List (ℕ × V)) → lookup k m ≡ none → mem k (keys m) ≡ false
  unfolding lookup
  mem-lookup k [] h = refl
  mem-lookup k ((j, w) ∷ m) h = ground (arith, mem-lookup k m)

  -- A new key goes to the end, an old one stays in its place.
  pub insert_new :
      (k : ℕ) (v : V) (m : List (ℕ × V))
      → mem k (keys m) ≡ false
      → insert k v m ≡ m ++ ((k, v) ∷ [])
  unfolding insert
  insert_new k v [] h = refl
  insert_new k v ((j, w) ∷ m) h = ground (arith, insert_new k v m)

  pub keys-insert_old :
      (k : ℕ) (v : V) (m : List (ℕ × V)) → mem k (keys m) ≡ true → keys (insert k v m) ≡ keys m
  unfolding insert
  keys-insert_old k v [] h = cc
  keys-insert_old k v ((j, w) ∷ m) h = ground (arith, keys-insert_old k v m)

  pub remove_absent : (k : ℕ) (m : List (ℕ × V)) → mem k (keys m) ≡ false → remove k m ≡ m
  unfolding remove
  remove_absent k [] h = refl
  remove_absent k ((j, w) ∷ m) h = ground (arith, remove_absent k m)
