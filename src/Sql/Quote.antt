-- ===== src/Sql/Quote.antt =====
-- Quoted names and literals as a SQL lexer reads them back.
use db_flashback.Base.{
  ℕ, ◌≡◌, refl, sym, ap, inl, inr, Bool, true, false, Option, none, some, [], ◌∷◌, ◌++◌,
  append_assoc, ◌==◌, if◌then◌else◌, ==_iff, ==_refl, Bool-cases,
}
use db_flashback.Change.{Text}
use db_flashback.Sql.Clause.{quoted, is_null, quote_literal, ident}
use db_flashback.Sql.Words.{text, has_prefix, doubled}

abbrev pub read_on : ℕ → Option (Text × Text) → Option (Text × Text)
read_on x none = none
read_on x (some (v, rest)) = some (x ∷ v, rest)

-- Inside quotes; `seen` when the last character was a quote that may be the closing one. The
-- result is what the token stands for and what follows it.
unfoldable pub read_inside : ℕ → Bool → Text → Option (Text × Text)
read_inside q false [] = none
read_inside q true [] = some ([], [])
read_inside q seen (x ∷ v) =
    let closed = read_inside q true v in
    let inside = read_inside q false v in
    if seen
    then (if x == q then read_on q inside else some ([], x ∷ v))
    else (if x == q then closed else read_on x inside)

-- A token between quotes, where a doubled quote stands for one.
unfoldable pub read_quoted : ℕ → Text → Option (Text × Text)
unfolding read_inside
read_quoted q [] = none
read_quoted q (x ∷ v) = if x == q then read_inside q false v else none

abbrev pub starts_with : ℕ → Text → Bool
starts_with q [] = false
starts_with q (x ∷ v) = x == q

read_inside-doubled :
    (q : ℕ) (v rest : Text)
    → starts_with q rest ≡ false
    → read_inside q false (doubled q v ++ (q ∷ rest)) ≡ some (v, rest)
unfolding read_inside doubled
read_inside-doubled q [] [] h = rw (==_refl q) refl
read_inside-doubled q [] (y ∷ rest) h = rw (==_refl q, h) refl
read_inside-doubled q (x ∷ v) rest h = elim (Bool-cases (x == q)) [
  | inl e ↦
      rw (e, ==_refl q, read_inside-doubled q v rest h)
        (ap (λ k. some (k ∷ v, rest)) (sym ((==_iff x q).0 e)))
  | inr ne ↦ rw (ne, ne, read_inside-doubled q v rest h) refl
]

read_quoted-quoted :
    (q : ℕ) (v rest : Text)
    → starts_with q rest ≡ false
    → read_quoted q (quoted q v ++ rest) ≡ some (v, rest)
unfolding read_quoted quoted
read_quoted-quoted q v rest h =
    rw (==_refl q, append_assoc (doubled q v) (q ∷ []) rest) (read_inside-doubled q v rest h)

-- A quoted name is read back whole, whatever characters it has and whatever follows that is not
-- the quote character: for PostgreSQL between double quotes, for MySQL between backticks.
pub read_quoted-ident :
    (mysql : Bool) (name rest : Text)
    → starts_with (if mysql then 96 else 34) rest ≡ false
    → read_quoted (if mysql then 96 else 34) (ident mysql name ++ rest) ≡ some (name, rest)
read_quoted-ident true name rest h = read_quoted-quoted 96 name rest h
read_quoted-ident false name rest h = read_quoted-quoted 34 name rest h

-- A literal is read back whole by the rules of standard_conforming_strings, whatever characters
-- it has and whatever follows that is not an apostrophe, if the value is not one of the spellings
-- of NULL and does not begin with the mark of a raw value.
pub read_quoted-quote_literal :
    (v rest : Text)
    → is_null v ≡ false
    → has_prefix v (text "\\RAW:") ≡ false
    → starts_with 39 rest ≡ false
    → read_quoted 39 (quote_literal v ++ rest) ≡ some (v, rest)
unfolding quote_literal
read_quoted-quote_literal v rest plain marked h =
    rw (plain, marked) (read_quoted-quoted 39 v rest h)
