-- ===== src/Tuple/Layout.antt =====
-- The values of a row as PostgreSQL lays them out (heap_fill_tuple), read back column by column.
use db_flashback.Base.{
  ℕ, zero, suc, ◌+◌, ◌-◌, ◌<◌, ◌≡◌, refl, sym, ap, ◌∙◌, Bool, true, false, not, ◌&&◌, Option, none,
  some, List, [], ◌∷◌, ◌++◌, append_assoc, arith, ltb, leb, ◌==◌, if◌then◌else◌, lt→ltb, lt→leb,
  length, drop, replicate, length-append, length-replicate, drop-append,
}
use db_flashback.Bytes.{Bytes, byte, byte-append, byte-append_left}
use db_flashback.Change.{Text, Row}
use db_flashback.Datum.Varlena.{align_off_lem}
use db_flashback.Datum.{Typalign, align_off, align_pointer}
use db_flashback.Dict.{Column, is_varlena, null_text}
use db_flashback.Fpw.{Codecs}
use db_flashback.Toast.{ToastCache}
use db_flashback.Tuple.{
  Printer, got, read_datum, put_column, goes, is_null_at, attr_round, attr_loop,
}

-- A value that is not null: its bytes with their header, the text they stand for, and whether it
-- has the header of one byte, which needs no alignment.
pub record Stored : Type 0 where
  pub bytes : Bytes
  pub shown : Text
  pub short : Bool

abbrev pub Cell : Type 0
Cell = Column × Option Stored

-- The zeros in front of a value.
abbrev pub gap : ℕ → Column → Stored → ℕ
gap off col s = if s.short then 0 else align_off off col.typalign - off

abbrev pub place : ℕ → Column → Stored → ℕ
place off col s = off + gap off col s

-- The data of a row from an offset on. A null value takes no room.
abbrev pub lay_cells : ℕ → List Cell → Bytes
lay_cells off [] = []
lay_cells off ((col, none) ∷ cells) = lay_cells off cells
lay_cells off ((col, some s) ∷ cells) =
    replicate (gap off col s) 0 ++ (s.bytes ++ lay_cells (place off col s + length s.bytes) cells)

abbrev pub columns_of : List Cell → List Column
columns_of [] = []
columns_of ((col, value) ∷ cells) = col ∷ columns_of cells

-- The row that the cells stand for, behind the columns before.
abbrev pub shown_row : Row → List Cell → Row
shown_row out [] = out
shown_row out ((col, none) ∷ cells) = shown_row (put_column col null_text out) cells
shown_row out ((col, some s) ∷ cells) = shown_row (put_column col s.shown out) cells

-- The bitmap has a 0 for exactly the null values.
abbrev pub NullsAt : Bytes → ℕ → List Cell → Type 0
NullsAt bits i [] = Unit
NullsAt bits i ((col, none) ∷ cells) = (is_null_at bits i ≡ true) × NullsAt bits (suc i) cells
NullsAt bits i ((col, some s) ∷ cells) = (is_null_at bits i ≡ false) × NullsAt bits (suc i) cells

module _ (pr : Printer) (codecs : Codecs) where
  -- A value reads as its text, whatever follows it.
  pub record Reads (toast : Option ToastCache) (col : Column) (s : Stored) : Type 0 where
    pub reads :
        (rest : Bytes)
        → read_datum pr codecs toast (s.bytes ++ rest) col ≡ some (got s.shown (length s.bytes))
    pub some_bytes : 0 < length s.bytes
    pub anywhere : s.short ≡ true → (is_varlena col ≡ true) × ((byte s.bytes 0 == 0) ≡ false)

  abbrev pub AllRead : Option ToastCache → List Cell → Type 0
  AllRead toast [] = Unit
  AllRead toast ((col, none) ∷ cells) = AllRead toast cells
  AllRead toast ((col, some s) ∷ cells) = Reads toast col s × AllRead toast cells

pub if_same {ℓ} : {A : Type ℓ} (b : Bool) (x : A) → (if b then x else x) ≡ x
if_same true x = refl
if_same false x = refl

and_false : (a b : Bool) → (a && (b && false)) ≡ false
and_false true true = refl
and_false true false = refl
and_false false b = refl

align_pointer-short :
    (front bytes more : Bytes) (off : ℕ) (v : Bool) (t : Typalign)
    → off ≡ length front
    → 0 < length bytes
    → v ≡ true
    → (byte bytes 0 == 0) ≡ false
    → align_pointer (front ++ (bytes ++ more)) off v t ≡ off
unfolding align_pointer
align_pointer-short front bytes more off v t e n hv h =
    let inside : ltb off (length (front ++ (bytes ++ more))) ≡ true =
      lt→ltb _ _ (omega (arith, length-append front (bytes ++ more), length-append bytes more)) in
    let first : byte (front ++ (bytes ++ more)) off ≡ byte bytes 0 =
      byte-append front (bytes ++ more) 0 (omega arith) ∙ byte-append_left bytes more 0 n in
    rw (hv, inside, first, h) refl

align_pointer-aligned :
    (front bytes more : Bytes) (off g : ℕ) (v : Bool) (t : Typalign)
    → off ≡ length front
    → g ≡ align_off off t - off
    → align_pointer (front ++ (replicate g 0 ++ (bytes ++ more))) off v t ≡ off + g
unfolding align_pointer
align_pointer-aligned front bytes more off zero v t e h =
    let up = align_off_lem off t in
    let same : align_off off t ≡ off + 0 = omega (arith, up.0) in
    let here : off ≡ off + 0 = omega arith in
    rw same (
      ap
        (λ k.
          if v
            && (ltb off (length (front ++ (bytes ++ more)))
                && not (byte (front ++ (bytes ++ more)) off == 0))
          then k
          else off + 0)
        here
      ∙ if_same _ _)
align_pointer-aligned front bytes more off (suc g) v t e h =
    let body = 0 ∷ (replicate g 0 ++ (bytes ++ more)) in
    let first : byte (front ++ body) off ≡ 0 = byte-append front body 0 (omega arith) in
    let up = align_off_lem off t in
    rw (first, and_false v (ltb off (length (front ++ body)))) (omega (arith, up.0))

-- Where the value is found: at its place.
align_pointer-place :
    (front bytes more : Bytes) (off : ℕ) (v short : Bool) (t : Typalign)
    → off ≡ length front
    → 0 < length bytes
    → (short ≡ true → (v ≡ true) × ((byte bytes 0 == 0) ≡ false))
    → align_pointer
        (front ++ (replicate (if short then 0 else align_off off t - off) 0 ++ (bytes ++ more)))
        off
        v
        t
      ≡ off + (if short then 0 else align_off off t - off)
align_pointer-place front bytes more off v true t e n anywhere =
    let here : off ≡ off + 0 = omega arith in
    align_pointer-short front bytes more off v t e n (anywhere refl).0 (anywhere refl).1 ∙ here
align_pointer-place front bytes more off v false t e n anywhere =
    align_pointer-aligned front bytes more off (align_off off t - off) v t e refl

module _ (pr : Printer) (codecs : Codecs) (toast : Option ToastCache) (bits tail : Bytes) where
  attr_round-none :
      (raw : Bytes) (i off : ℕ) (out : Row) (col : Column)
      → is_null_at bits i ≡ true
      → attr_round pr codecs toast raw bits i off out col
        ≡ some (goes off (put_column col null_text out))
  unfolding attr_round
  attr_round-none raw i off out col h = rw h refl

  attr_round-some :
      (front more raw : Bytes) (i off : ℕ) (out : Row) (col : Column) (s : Stored)
      → raw ≡ front ++ (replicate (gap off col s) 0 ++ (s.bytes ++ more))
      → off ≡ length front
      → is_null_at bits i ≡ false
      → Reads pr codecs toast col s
      → attr_round pr codecs toast raw bits i off out col
        ≡ some (goes (place off col s + length s.bytes) (put_column col s.shown out))
  unfolding attr_round read_datum
  attr_round-some front more raw i off out col s whole e h r =
      let at : align_pointer raw off (is_varlena col) col.typalign ≡ place off col s =
        ap (λ b. align_pointer b off (is_varlena col) col.typalign) whole
        ∙ align_pointer-place front s.bytes more off (is_varlena col) s.short col.typalign e
            r.some_bytes r.anywhere in
      let pad : Bytes = replicate (gap off col s) 0 in
      let size = length-replicate {A = ℕ} (gap off col s) 0 in
      let inside : leb (length raw) (place off col s) ≡ false = lt→leb _ _ (
        omega (
          arith,
          ap length whole,
          r.some_bytes,
          size,
          length-append front (pad ++ (s.bytes ++ more)),
          length-append pad (s.bytes ++ more),
          length-append s.bytes more,
        )) in
      let found : drop (place off col s) raw ≡ s.bytes ++ more =
        ap (drop (place off col s)) (whole ∙ sym (append_assoc front pad (s.bytes ++ more)))
        ∙ drop-append (front ++ pad) (s.bytes ++ more)
            (omega (arith, size, length-append front pad)) in
      rw (h, at, inside, found, r.reads more) refl

  pub attr_loop-lay_cells :
      (cells : List Cell) (front raw : Bytes) (i off : ℕ) (out : Row)
      → raw ≡ front ++ (lay_cells off cells ++ tail)
      → off ≡ length front
      → NullsAt bits i cells
      → AllRead pr codecs toast cells
      → attr_loop pr codecs toast raw bits i off out (columns_of cells) ≡ some (shown_row out cells)
  unfolding attr_loop
  attr_loop-lay_cells [] front raw i off out whole e n a = refl
  attr_loop-lay_cells ((col, none) ∷ cells) front raw i off out whole e n a =
      rw (attr_loop, attr_round-none raw i off out col n.0)
        (attr_loop-lay_cells cells front raw (suc i) off (put_column col null_text out) whole e n.1
          a)
  attr_loop-lay_cells ((col, some s) ∷ cells) front raw i off out whole e n a =
      let pad : Bytes = replicate (gap off col s) 0 in
      let later = lay_cells (place off col s + length s.bytes) cells in
      let apart : raw ≡ front ++ (pad ++ (s.bytes ++ (later ++ tail))) =
        whole ∙ simp append_assoc in
      let moved : raw ≡ (front ++ (pad ++ s.bytes)) ++ (later ++ tail) =
        apart ∙ simp append_assoc in
      rw (attr_loop, attr_round-some front (later ++ tail) raw i off out col s apart e n.0 a.0)
        (attr_loop-lay_cells cells (front ++ (pad ++ s.bytes)) raw (suc i)
          (place off col s + length s.bytes) (put_column col s.shown out) moved
          (omega (
            arith,
            length-append front (pad ++ s.bytes),
            length-append pad s.bytes,
            length-replicate {A = ℕ} (gap off col s) 0,
          ))
          n.1 a.1)
