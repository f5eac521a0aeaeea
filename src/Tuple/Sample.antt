-- ===== src/Tuple/Sample.antt =====
-- A row of a table with a text, an optional text and a number, which the tests read.
use db_flashback.Base.{
  ◌+◌, ◌%◌, refl, true, false, Option, none, some, List, [], ◌∷◌, map, arith, take,
}
use db_flashback.Bytes.{Bytes}
use db_flashback.Datum.{align_int}
use db_flashback.Dict.{Column}
use db_flashback.Fpw.{Codecs}
use db_flashback.Sql.Words.{text}
use db_flashback.Toast.{pos, negsuc, ToastCache}
use db_flashback.Tuple.Layout.{Stored, Cell, AllRead}
use db_flashback.Tuple.Laid.{AllPlain, of_length, short_header, long_header, AllPlain-AllRead}
use db_flashback.Tuple.{Printer}

-- The first byte of a number in decimal as one digit, and texts as they are.
abbrev pub digits : Printer
digits = record {
  fixed = λ raw col. some (map (λ b. 48 + b % 10) (take 1 raw));
  varlena = λ raw col. some raw;
  hex = λ raw. raw;
}

abbrev pub no_codecs : Codecs
no_codecs = record { lz4 = λ src want. none; zstd = λ src. none }

abbrev pub id_column : Column
id_column = record {
  name = text "id";
  att_num = 1;
  type_name = text "int4";
  type_oid = 23;
  typlen = pos 4;
  typalign = align_int;
  not_null = true;
  is_pk = true;
  dropped = false;
}

abbrev pub name_column : Column
name_column = record {
  name = text "name";
  att_num = 2;
  type_name = text "text";
  type_oid = 25;
  typlen = negsuc 0;
  typalign = align_int;
  not_null = false;
  is_pk = false;
  dropped = false;
}

abbrev pub note_column : Column
note_column = record name_column { name = text "note"; att_num = 3 }

abbrev pub seven : Stored
seven = record { bytes = 7 ∷ (0 ∷ (0 ∷ (0 ∷ []))); shown = text "7"; short = false }

abbrev pub hi : Stored
hi = record { bytes = 7 ∷ text "hi"; shown = text "hi"; short = true }

abbrev pub cells : List Cell
cells = (name_column, some hi) ∷ ((note_column, none) ∷ ((id_column, some seven) ∷ []))

-- The second of three values is null, and three bytes of padding make the data begin at 28.
abbrev pub bitmap : Bytes
bitmap = 5 ∷ []

abbrev pub pad : Bytes
pad = 0 ∷ (0 ∷ (0 ∷ (0 ∷ [])))

pub cells-AllPlain : AllPlain digits cells
cells-AllPlain =
    (short_header 0 refl refl (omega arith) refl, (of_length 3 refl refl refl refl, tt))

-- The same text behind a header of four bytes.
abbrev pub long_cells : List Cell
long_cells =
    (
      name_column,
      some (record { bytes = 24 ∷ (0 ∷ (0 ∷ (0 ∷ text "hi"))); shown = text "hi"; short = false }),
    )
    ∷ ((note_column, none) ∷ ((id_column, some seven) ∷ []))

pub long_cells-AllPlain : AllPlain digits long_cells
long_cells-AllPlain = (
  long_header {v = text "hi"} 0 refl refl (omega arith) refl,
  (of_length 3 refl refl refl refl, tt),
)

pub cells-AllRead : (toast : Option ToastCache) → AllRead digits no_codecs toast cells
cells-AllRead toast = AllPlain-AllRead digits no_codecs toast cells cells-AllPlain
