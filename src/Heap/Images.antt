-- ===== src/Heap/Images.antt =====
-- Row images of changes: that they are there, and that a multi insert gives no change without one.
use db_flashback.Base.{
  ℕ, zero, suc, ◌+◌, ◌*◌, ◌≡◌, refl, ◌≢◌, not, ◌||◌, Option, List, [], ◌∷◌, map, ltb, ◌==◌,
  if◌then◌else◌, length, drop, All,
}
use db_flashback.Bytes.{Bytes, byte, u16, has}
use db_flashback.Change.{Text, Row, Change, Op, op_insert, op_update, op_delete, op_truncate}
use db_flashback.Dict.{Column, Relation}
use db_flashback.Fpw.{Codecs}
use db_flashback.Heap.Holds.{Holds, if-P, Holds-bind, Holds-then}
use db_flashback.Heap.Multi.{multi_loop, multi_rows, multi_change, keep_row}
use db_flashback.Reader.{max_align}
use db_flashback.Toast.{ToastCache}
use db_flashback.Tuple.{Printer}

-- The row images without which a change of this kind cannot be undone.
abbrev HasImage : Op → Row → Row → Type 0
HasImage op_insert old new = new ≢ []
HasImage op_delete old new = old ≢ []
HasImage op_update old new = old ≢ []
HasImage op_truncate old new = Unit
HasImage _ old new = ⊥

-- A change of transaction `xid` that has its image.
abbrev pub IsImage : ℕ → Change → Type 0
IsImage xid c = (c.xid ≡ xid) × HasImage c.op c.old_row c.new_row

abbrev pub AreFilled : List Row → Type 0
AreFilled rows = All (λ (r : Row). r ≢ []) rows

pub some_row : (v : Text × Text) (row : Row) → (v ∷ row) ≢ []
some_row v row e = cc

module _ (pr : Printer) (codecs : Codecs) (toast : Option ToastCache) where
  keep_row-All : (row : Row) (rows : List Row) → AreFilled rows → AreFilled (keep_row row rows)
  keep_row-All [] rows a = a
  keep_row-All (v ∷ row) rows a = (some_row v row, a)

  multi_loop-All :
      (n : ℕ) (cols : List Column) (b : Bytes)
      → Holds AreFilled (multi_loop pr codecs toast cols n b)
  unfolding multi_loop
  multi_loop-All zero cols b = tt
  multi_loop-All (suc n) cols b =
      let P = Holds AreFilled in
      let next = max_align (8 + u16 b 0) in
      let later = if-P P (ltb (length b) next) tt (multi_loop-All n cols (drop next b)) in
      if-P P (ltb (length b) 8) tt (
        if-P P (ltb (length b) (8 + u16 b 0)) tt (
          Holds-bind AreFilled _ _
            (λ row. Holds-then AreFilled AreFilled _ _ later (λ rows a. keep_row-All row rows a))))

  pub multi_rows-All :
      (cols : List Column) (bytes main : Bytes) (info : ℕ)
      → Holds AreFilled (multi_rows pr codecs toast cols bytes main info)
  unfolding multi_rows
  multi_rows-All cols bytes main info =
      let P = Holds AreFilled in
      let n = u16 main 1 in
      let hdr_off = if has info 0x80 then 3 else 3 + n * 2 in
      if-P P (ltb (length main) 3) tt (
        if-P P ((n == 0) || ltb 10000 n) tt (
          if-P P (not (has (byte main 0) 8)) (multi_loop-All n cols bytes)
            (if-P P (ltb (length main) hdr_off) tt (multi_loop-All n cols (drop hdr_off main)))))

pub multi_change-All :
    (xid : ℕ) (rel : Relation) (rows : List Row)
    → AreFilled rows
    → All (IsImage xid) (map (multi_change xid rel) rows)
multi_change-All xid rel [] a = tt
multi_change-All xid rel (row ∷ rows) a = ((refl, a.0), multi_change-All xid rel rows a.1)
