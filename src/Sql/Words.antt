-- ===== src/Sql/Words.antt =====
-- What internal/service/flashback_sql.go uses of Go's `strings` and `fmt`, on lists of code points.
use Prim.Native.Char.{code}
use Prim.Native.String.{String}
use db_flashback.Base.{
  ℕ, zero, suc, ◌+◌, ◌/◌, ◌%◌, Bool, true, false, ◌&&◌, ◌||◌, List, [], ◌∷◌, ◌++◌, map, ltb, leb,
  ◌==◌, if◌then◌else◌,
}
use db_flashback.Change.{Text}

-- The code points of a string literal.
abbrev pub text : String → Text
text String.[] = []
text (String.◌∷◌ letter letters) = code letter ∷ text letters

abbrev pub same_text : Text → Text → Bool
same_text [] [] = true
same_text [] (y ∷ ys) = false
same_text (x ∷ xs) [] = false
same_text (x ∷ xs) (y ∷ ys) = (x == y) && same_text xs ys

abbrev pub is_blank : Text → Bool
is_blank [] = true
is_blank (x ∷ xs) = false

-- `strings.HasPrefix(v, p)`
abbrev pub has_prefix : Text → Text → Bool
has_prefix v [] = true
has_prefix [] (x ∷ p) = false
has_prefix (y ∷ v) (x ∷ p) = (y == x) && has_prefix v p

-- `strings.Contains(v, p)`
unfoldable pub contains : Text → Text → Bool
contains [] p = is_blank p
contains (y ∷ v) p = has_prefix (y ∷ v) p || contains v p

-- `strings.ReplaceAll(v, "q", "qq")` for one character.
unfoldable pub doubled : ℕ → Text → Text
doubled q [] = []
doubled q (x ∷ v) = if x == q then q ∷ (q ∷ doubled q v) else x ∷ doubled q v

-- `strings.Join(parts, sep)`
unfoldable pub join : Text → List Text → Text
join sep [] = []
join sep (part ∷ []) = part
join sep (part ∷ (next ∷ parts)) = part ++ (sep ++ join sep (next ∷ parts))

-- `unicode.IsSpace`
unfoldable pub is_space : ℕ → Bool
is_space c =
    (leb 9 c && leb c 13)
    || ((c == 32)
        || ((c == 0x85)
            || ((c == 0xa0)
                || ((c == 0x1680)
                    || ((leb 0x2000 c && leb c 0x200a)
                        || ((c == 0x2028)
                            || ((c == 0x2029)
                                || ((c == 0x202f) || ((c == 0x205f) || (c == 0x3000))))))))))

unfoldable pub trim_left : Text → Text
unfolding is_space
trim_left [] = []
trim_left (c ∷ v) = if is_space c then trim_left v else c ∷ v

unfoldable pub trim_right : Text → Text
unfolding is_space
trim_right [] = []
trim_right (c ∷ v) = let rest = trim_right v in if is_blank rest && is_space c then [] else c ∷ rest

-- `strings.TrimSpace`
unfoldable pub trim_space : Text → Text
unfolding trim_left trim_right
trim_space v = trim_right (trim_left v)

abbrev pub lower : ℕ → ℕ
lower c = if leb 65 c && leb c 90 then c + 32 else c

-- `strings.EqualFold(v, "NULL")`: no letter outside ASCII folds to one of these.
unfoldable pub is_null_word : Text → Bool
is_null_word v = same_text (map lower v) (text "null")

unfoldable pub decimal_loop : ℕ → ℕ → Text → Text
decimal_loop zero n out = out
decimal_loop (suc fuel) n out =
    let more = decimal_loop fuel (n / 10) ((48 + n % 10) ∷ out) in
    if ltb n 10 then (48 + n % 10) ∷ out else more

-- `%d` of a word of at most 32 bits, which has at most ten digits.
unfoldable pub decimal : ℕ → Text
unfolding decimal_loop
decimal n = decimal_loop 10 n []

-- The order of texts: that of UTF-8 is that of the code points.
abbrev pub text_before : Text → Text → Bool
text_before v [] = false
text_before [] (y ∷ ys) = true
text_before (x ∷ xs) (y ∷ ys) = ltb x y || ((x == y) && text_before xs ys)

unfoldable pub insert_text : Text → List Text → List Text
insert_text v [] = v ∷ []
insert_text v (w ∷ ws) = if text_before w v then w ∷ insert_text v ws else v ∷ (w ∷ ws)

-- `sort.Strings`
unfoldable pub sort_texts : List Text → List Text
unfolding insert_text
sort_texts [] = []
sort_texts (v ∷ vs) = insert_text v (sort_texts vs)
