-- ===== src/Fpw/Tests.antt =====
-- The theorems on full-page images at small inputs.
use db_flashback.Base.{
  ℕ, ◌+◌, ◌≡◌, refl, ◌≢◌, ◌⊎◌, inr, true, false, some, List, [], ◌∷◌, ◌++◌, arith, length, take,
  drop, replicate, length-replicate, mem,
}
use db_flashback.Bytes.{Bytes}
use db_flashback.Fpw.Cache.Laws.{IsValid, is_full, set-IsValid, get-set}
use db_flashback.Fpw.Cache.{FpwCache, get, set}
use db_flashback.Fpw.Hole.{length-insert_page_hole, insert_page_hole-cut, length-decompress_fpw}
use db_flashback.Fpw.Pglz.RoundTrip.{pglz_decompress-encode}
use db_flashback.Fpw.Pglz.Tokens.{Token, literal, match, encode, expand_all}
use db_flashback.Fpw.Pglz.Total.{pglz_decompress_total}
use db_flashback.Fpw.Pglz.{Error, ok, err, pglz_decompress}
use db_flashback.Fpw.{Codecs, decompress_fpw, page_size, insert_page_hole}

abbrev group : List Token
group = literal 65 ∷ (literal 66 ∷ (match 20 2 ∷ []))

pglz_decompress-encode_example :
    pglz_decompress (encode (group ∷ [])) (length (expand_all (group ∷ []) []))
    ≡ ok (expand_all (group ∷ []) [])
pglz_decompress-encode_example = pglz_decompress-encode group [] (omega arith)

pglz_decompress_total_example :
    ((out : Bytes) × (pglz_decompress (1 ∷ (0 ∷ [])) 4 ≡ ok out) × (length out ≡ 4))
    ⊎ ((e : Error) × (pglz_decompress (1 ∷ (0 ∷ [])) 4 ≡ err e))
pglz_decompress_total_example = pglz_decompress_total (1 ∷ (0 ∷ [])) 4

length-insert_page_hole_example :
    (insert_page_hole (1 ∷ (2 ∷ [])) 1 8190 ≡ [])
    ⊎ (length (insert_page_hole (1 ∷ (2 ∷ [])) 1 8190) ≡ page_size)
length-insert_page_hole_example = length-insert_page_hole (1 ∷ (2 ∷ [])) 1 8190

-- A page of zeros, its hole from 24 on.
insert_page_hole-cut_example :
    insert_page_hole (take 24 (replicate 8192 0) ++ drop (24 + 100) (replicate 8192 0)) 24 100
    ≡ replicate 8192 0
insert_page_hole-cut_example =
    insert_page_hole-cut (replicate 8192 0) 24 100 (length-replicate {A = ℕ} 8192 0) (omega arith)
      refl

abbrev echo_codecs : Codecs
echo_codecs = record { lz4 = λ src n. some src; zstd = λ src. some src }

length-decompress_fpw_example : length {A = ℕ} (7 ∷ (8 ∷ [])) ≡ 2
length-decompress_fpw_example = length-decompress_fpw echo_codecs 0x08 (7 ∷ (8 ∷ [])) 2 echoed
  where
    echoed : decompress_fpw echo_codecs 0x08 (7 ∷ (8 ∷ [])) 2 ≡ some (7 ∷ (8 ∷ []))
    echoed = unfold decompress_fpw in refl

abbrev two_pages : FpwCache
two_pages = record { max = 2; order = 5 ∷ (6 ∷ []); pages = (5, 1 ∷ []) ∷ ((6, 2 ∷ []) ∷ []) }

two_pages-IsValid : IsValid two_pages
two_pages-IsValid = record {
  ordered = refl;
  distinct = (refl, (refl, tt));
  bounded = inr (omega arith);
}

set-IsValid_example :
    IsValid (set two_pages 7 (3 ∷ []))
    × ((set two_pages 7 (3 ∷ [])).pages ≡ (6, 2 ∷ []) ∷ ((7, 3 ∷ []) ∷ []))
    × ((set two_pages 7 (3 ∷ [])).max ≡ 2)
set-IsValid_example = set-IsValid two_pages 7 (3 ∷ []) two_pages-IsValid (λ e. cc)

get-set_example :
    (get (set two_pages 6 (3 ∷ [])) 6 ≡ 3 ∷ [])
    × (◌≢◌ {A = ℕ} 6 5
        → (mem 6 (5 ∷ (6 ∷ [])) ≡ true) ⊎ (is_full 2 two_pages.pages ≡ false)
        → get (set two_pages 6 (3 ∷ [])) 5 ≡ get two_pages 5)
get-set_example = get-set two_pages 6 5 (3 ∷ []) two_pages-IsValid (λ e. cc)
