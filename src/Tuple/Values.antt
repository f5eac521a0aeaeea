-- ===== src/Tuple/Values.antt =====
-- The values that a row is made of: of fixed length, with a header of one byte or of four, and
-- pointers to out-of-line values.
use db_flashback.Base.{
  ℕ, suc, ◌+◌, ◌*◌, ◌%◌, ◌^◌, ◌<◌, ◌≡◌, refl, sym, ap, ◌∙◌, ◌≢◌, inl, inr, true, false, Option,
  none, some, [], ◌∷◌, ◌++◌, arith, ltb, le→ltb, ==_ne, Bool-cases, length, length-append,
  take-append,
}
use db_flashback.Bytes.{Bytes, le32}
use db_flashback.Change.{Text}
use db_flashback.Datum.Varlena.{long_varlena, read_varlena-short_varlena, read_varlena-long_varlena}
use db_flashback.Dict.{Column}
use db_flashback.Fpw.{Codecs}
use db_flashback.Toast.Pointer.{toast_pointer, parse_toast_ptr-toast_pointer}
use db_flashback.Toast.{
  pos, negsuc, ToastCache, parse_toast_ptr, get_value, payload, toast_payload, ToastPtr,
}
use db_flashback.Tuple.Layout.{Reads}
use db_flashback.Tuple.{
  Printer, read_datum, resolve_toast, read_by_length, read_unsized, read_fixed,
}

no_pointer : (h : ℕ) (b : Bytes) → h ≢ 1 → parse_toast_ptr (h ∷ b) ≡ none
unfolding parse_toast_ptr
no_pointer h b e = elim (Bool-cases (ltb (length (h ∷ b)) 18)) [
  | inl short ↦ rw short refl
  | inr long ↦ rw (long, ==_ne h 1 e) refl
]

abbrev pub toast_fields : ℕ → ℕ → ℕ → ℕ → ℕ → ToastPtr
toast_fields size ext compress id rel = record {
  raw_size = pos size;
  ext_size = ext;
  compress = compress;
  value_id = id;
  toast_rel = rel;
}

module _ (pr : Printer) (codecs : Codecs) (toast : Option ToastCache) (col : Column) where
  read_datum-fixed :
      (n : ℕ) (b : Bytes)
      → col.typlen ≡ pos (suc n)
      → col.dropped ≡ false
      → read_datum pr codecs toast b col ≡ some (read_fixed (λ raw. pr.fixed raw col) (suc n) b)
  unfolding read_datum
  read_datum-fixed n b len live =
      let at : read_by_length pr codecs (pos (suc n)) toast b col
          ≡ some (read_fixed (λ raw. pr.fixed raw col) (suc n) b) =
        rw live refl in
      ap (λ t. read_by_length pr codecs t toast b col) len ∙ at

  read_datum-varying :
      (n : ℕ) (b : Bytes)
      → col.typlen ≡ negsuc n
      → col.dropped ≡ false
      → read_datum pr codecs toast b col ≡ read_unsized pr codecs toast b col
  unfolding read_datum
  read_datum-varying n b len live =
      let at : read_by_length pr codecs (negsuc n) toast b col
          ≡ read_unsized pr codecs toast b col =
        rw live refl in
      ap (λ t. read_by_length pr codecs t toast b col) len ∙ at

  -- A value of a type of fixed length.
  pub fixed-Reads :
      (v : Bytes) (shown : Text) (n : ℕ)
      → col.typlen ≡ pos (suc n)
      → col.dropped ≡ false
      → length v ≡ suc n
      → pr.fixed v col ≡ some shown
      → Reads pr codecs toast col (record { bytes = v; shown = shown; short = false })
  unfolding read_datum
  fixed-Reads v shown n len live size e = record {
    reads = λ rest.
        let enough : ltb (length (v ++ rest)) (suc n) ≡ false =
          le→ltb _ _ (omega (arith, length-append v rest)) in
        read_datum-fixed n (v ++ rest) len live
        ∙ rw (enough, take-append v rest {n = suc n} (sym size), e, size) refl;
    some_bytes = omega arith;
    anywhere = λ no. cc;
  }

  module _ (len : ℕ) (varying : col.typlen ≡ negsuc len) (live : col.dropped ≡ false) where
    -- A value behind a header of one byte.
    pub short-Reads :
        (v : Bytes) (shown : Text)
        → length v < 126
        → pr.varlena v col ≡ some shown
        → Reads pr codecs toast col
            (record { bytes = (2 * (length v + 1) + 1) ∷ v; shown = shown; short = true })
    unfolding read_datum
    short-Reads v shown small e = record {
      reads = λ rest.
          let x = 2 * (length v + 1) + 1 in
          let plain : parse_toast_ptr (x ∷ (v ++ rest)) ≡ none =
            no_pointer x (v ++ rest) (omega arith) in
          read_datum-varying len _ varying live
          ∙ rw (read_unsized, plain, read_varlena-short_varlena v rest small, e) refl;
      some_bytes = omega arith;
      anywhere = λ yes. (rw varying refl, ==_ne (2 * (length v + 1) + 1) 0 (omega arith));
    }

    -- A value behind a header of four bytes.
    pub long-Reads :
        (v : Bytes) (shown : Text)
        → length v + 4 < 2 ^ 30
        → pr.varlena v col ≡ some shown
        → Reads pr codecs toast col
            (record { bytes = le32 (4 * (length v + 4)) ++ v; shown = shown; short = false })
    unfolding read_datum
    long-Reads v shown small e = record {
      reads = λ rest.
          let w = 4 * (length v + 4) in
          let plain : parse_toast_ptr (long_varlena v rest) ≡ none =
            no_pointer (w % 256) _ (omega arith) in
          read_datum-varying len _ varying live
          ∙ rw (read_unsized, plain, read_varlena-long_varlena v rest small, e) refl;
      some_bytes = omega arith;
      anywhere = λ no. cc;
    }

    -- A pointer whose chunks are all there reads as the value that they make.
    pub pointer-Reads :
        (cache : ToastCache) (tag size ext compress id rel : ℕ) (raw value : Bytes) (shown : Text)
        → size < 2 ^ 31
        → ext < 2 ^ 30
        → compress < 4
        → 0 < id
        → id < 2 ^ 32
        → rel < 2 ^ 32
        → toast ≡ some cache
        → get_value cache rel id ≡ some raw
        → toast_payload codecs (toast_fields size ext compress id rel) raw ≡ payload value
        → pr.varlena value col ≡ some shown
        → Reads pr codecs toast col (record {
          bytes = toast_pointer tag size ext compress id rel [];
          shown = shown;
          short = true;
        })
    unfolding read_datum
    pointer-Reads cache tag size ext compress id rel raw value shown hs he hc nz hi hr t g p e =
        record {
          reads = λ rest.
              let read =
                parse_toast_ptr-toast_pointer tag size ext compress id rel rest hs he hc nz hi hr in
              read_datum-varying len _ varying live
              ∙ rw (read_unsized, read, t) (rw (resolve_toast, g, p, e) refl);
          some_bytes = omega arith;
          anywhere = λ yes. (rw varying refl, refl);
        }
