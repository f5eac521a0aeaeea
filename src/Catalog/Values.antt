-- ===== src/Catalog/Values.antt =====
-- Numbers and marks in the texts of catalog rows, internal/service/flashback_catalog.go.
use db_flashback.Base.{
  ℕ, zero, suc, ◌+◌, ◌-◌, ◌*◌, ◌^◌, min, Bool, true, false, not, ◌&&◌, ◌||◌, [], ◌∷◌, map, ltb, leb,
  ◌==◌, if◌then◌else◌,
}
use db_flashback.Change.{Text, Row}
use db_flashback.Dict.{null_text, row_get, row_put}
use db_flashback.Sql.Words.{text, is_blank, same_text, trim_space, lower, decimal_loop}
use db_flashback.Toast.{ℤ, pos, negsuc}

-- The loop of `strconv.ParseUint`: it stops at the first character that is no digit, with 0, and
-- where the number exceeds the greatest one, with that one.
unfoldable pub uint_loop : ℕ → ℕ → Text → ℕ
uint_loop most n [] = n
uint_loop most n (c ∷ v) =
    let next = n * 10 + (c - 48) in
    let rest = uint_loop most next v in
    if not (leb 48 c && leb c 57) then 0 else if ltb most next then most else rest

-- No value, in the words of the decoder.
abbrev pub no_value : Text → Bool
no_value v = is_blank v || same_text v null_text

-- `flashbackParseU32`
unfoldable pub parse_u32 : Text → ℕ
unfolding uint_loop trim_space
parse_u32 v =
    let trimmed = trim_space v in if no_value trimmed then 0 else uint_loop (2 ^ 32 - 1) 0 trimmed

abbrev pub minus : ℕ → ℤ
minus zero = pos 0
minus (suc n) = negsuc n

-- `strconv.Atoi`, whose error is not looked at.
unfoldable pub atoi : Text → ℤ
unfolding uint_loop
atoi [] = pos 0
atoi (c ∷ v) =
    let most = 2 ^ 64 - 1 in
    if c == 45
    then minus (min (2 ^ 63) (uint_loop most 0 v))
    else if c == 43
    then pos (min (2 ^ 63 - 1) (uint_loop most 0 v))
    else pos (min (2 ^ 63 - 1) (uint_loop most 0 (c ∷ v)))

-- `flashbackParseInt`
unfoldable pub parse_int : Text → ℤ
unfolding atoi trim_space
parse_int v = let trimmed = trim_space v in if no_value trimmed then pos 0 else atoi trimmed

-- `flashbackParseBool`: no letter outside ASCII has one of these as its lower case.
unfoldable pub parse_bool : Text → Bool
unfolding trim_space
parse_bool v =
    let small = map lower (trim_space v) in
    same_text small (text "t") || (same_text small (text "true") || same_text small (text "1"))

-- `strconv.FormatUint` and `strconv.Itoa`: a word of 64 bits has at most twenty digits.
unfoldable pub show_number : ℕ → Text
unfolding decimal_loop
show_number n = decimal_loop 20 n []

unfoldable pub show_int : ℤ → Text
unfolding show_number
show_int (pos n) = show_number n
show_int (negsuc n) = 45 ∷ show_number (suc n)

abbrev pub is_zero_int : ℤ → Bool
is_zero_int (pos zero) = true
is_zero_int n = false

abbrev pub or_number : ℕ → ℕ → ℕ
or_number a b = if a == 0 then b else a

abbrev pub or_int : ℤ → ℤ → ℤ
or_int a b = if is_zero_int a then b else a

abbrev pub or_text : Text → Text → Text
or_text a b = if is_blank a then b else a

-- `strings.TrimSpace(row[name])`
abbrev pub trimmed_field : Text → Row → Text
trimmed_field name row = trim_space (row_get name row)

-- `flashbackParseU32(row[name])`
abbrev pub u32_field : Text → Row → ℕ
u32_field name row = parse_u32 (row_get name row)

abbrev pub int_field : Text → Row → ℤ
int_field name row = parse_int (row_get name row)

-- A field that is blank gets a value, if there is one.
abbrev pub fill_field : Text → Bool → Text → Row → Row
fill_field name there v row =
    if is_blank (trimmed_field name row) && there then row_put name v row else row
