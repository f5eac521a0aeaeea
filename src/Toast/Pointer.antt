-- ===== src/Toast/Pointer.antt =====
-- Pointers as PostgreSQL writes them (varattrib_1b_e with varatt_external), read back.
use db_flashback.Base.{
  ℕ, ◌+◌, ◌*◌, ◌/◌, ◌%◌, ◌^◌, ◌<◌, ◌≡◌, refl, ◌∙◌, some, [], ◌∷◌, ◌++◌, arith, lt→ltb, ==_ne,
}
use db_flashback.Bytes.{Bytes, u32, le32, u32-le32, u32-append}
use db_flashback.Toast.{pos, parse_toast_ptr}

-- The header, the tag, va_rawsize, va_extinfo, va_valueid and va_toastrelid, then anything.
abbrev pub toast_pointer : ℕ → ℕ → ℕ → ℕ → ℕ → ℕ → Bytes → Bytes
toast_pointer tag size ext compress id rel rest =
    1 ∷ (tag ∷ (le32 size ++ (le32 (ext + 2 ^ 30 * compress) ++ (le32 id ++ (le32 rel ++ rest)))))

-- A pointer that PostgreSQL writes is read back field by field, whatever follows it.
pub parse_toast_ptr-toast_pointer :
    (tag size ext compress id rel : ℕ) (rest : Bytes)
    → size < 2 ^ 31
    → ext < 2 ^ 30
    → compress < 4
    → 0 < id
    → id < 2 ^ 32
    → rel < 2 ^ 32
    → parse_toast_ptr (toast_pointer tag size ext compress id rel rest)
      ≡ some (record {
        raw_size = pos size;
        ext_size = ext;
        compress = compress;
        value_id = id;
        toast_rel = rel;
      })
unfolding parse_toast_ptr
parse_toast_ptr-toast_pointer tag size ext compress id rel rest hs he hc nz hi hr =
    rw (read_size, read_info, read_id, read_rel)
      (rw (==_ne id 0 (omega arith), lt→ltb size (2 ^ 31) hs, low, high) (ground arith))
  where
    all : Bytes
    all = toast_pointer tag size ext compress id rel rest

    info : ℕ
    info = ext + 2 ^ 30 * compress

    read_size : u32 all 2 ≡ size
    read_size = u32-append (1 ∷ (tag ∷ [])) _ refl ∙ u32-le32 size _ (omega arith)

    read_info : u32 all 6 ≡ info
    read_info = u32-append (1 ∷ (tag ∷ le32 size)) _ refl ∙ u32-le32 info _ (omega arith)

    read_id : u32 all 10 ≡ id
    read_id = u32-append (1 ∷ (tag ∷ (le32 size ++ le32 info))) _ refl ∙ u32-le32 id _ (omega arith)

    read_rel : u32 all 14 ≡ rel
    read_rel =
        u32-append (1 ∷ (tag ∷ (le32 size ++ (le32 info ++ le32 id)))) _ refl
        ∙ u32-le32 rel _ (omega arith)

    low : info % 2 ^ 30 ≡ ext
    low = omega arith

    high : info / 2 ^ 30 ≡ compress
    high = omega arith
