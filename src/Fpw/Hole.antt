-- ===== src/Fpw/Hole.antt =====
-- Pages rebuilt around the hole that PostgreSQL leaves out.
use db_flashback.Base.{
  ℕ, ◌+◌, ◌-◌, ◌≤◌, ◌≡◌, refl, sym, ap, ◌∙◌, subst, ◌⊎◌, inl, inr, ◌||◌, Option, none, some, [],
  ◌++◌, append-nil, arith, ltb, leb, ◌==◌, leb→le, le→ltb, ==_iff, Bool-cases, length, take, drop,
  replicate, length-append, take-append-drop, length-take, length-drop, length-replicate,
  take-append, drop-append, take_all, drop-drop,
}
use db_flashback.Bytes.{Bytes, slice, has}
use db_flashback.Fpw.Pglz.Total.{pglz_decompress_total}
use db_flashback.Fpw.Pglz.{pglz_decompress}
use db_flashback.Fpw.{
  Codecs, filling, result_bytes, decompress_fpw, page_size, fitted, insert_page_hole,
}

length-fitted : (n : ℕ) (xs : Bytes) → length (fitted n xs) ≡ n
unfolding fitted
length-fitted n xs = omega (
  arith,
  length-append (take n xs) (replicate (n - length xs) 0),
  length-take n xs,
  length-replicate {A = ℕ} (n - length xs) 0,
)

fitted_all : (n : ℕ) (xs : Bytes) → length xs ≡ n → fitted n xs ≡ xs
unfolding fitted
fitted_all n xs e =
    let none_left : n - length xs ≡ 0 = omega arith in
    rw (take_all n xs (omega arith), none_left) (append-nil xs)

length_with_hole :
    (packed : Bytes) (off len : ℕ)
    → off + len ≤ page_size
    → off ≤ length packed
    → length
        (take off packed ++ (replicate len 0 ++ fitted (page_size - (off + len)) (drop off packed)))
      ≡ page_size
length_with_hole packed off len h k =
    let tail = fitted (page_size - (off + len)) (drop off packed) in
    omega (
      arith,
      length-append (take off packed) (replicate len 0 ++ tail),
      length-append (replicate len 0) tail,
      length-take off packed,
      length-replicate {A = ℕ} len 0,
      length-fitted (page_size - (off + len)) (drop off packed),
    )

-- What comes back is nil or one page.
pub length-insert_page_hole :
    (packed : Bytes) (off len : ℕ)
    → (insert_page_hole packed off len ≡ [])
      ⊎ (length (insert_page_hole packed off len) ≡ page_size)
unfolding insert_page_hole
length-insert_page_hole packed off len = elim (Bool-cases (len == 0)) [
  | inl z ↦ elim (Bool-cases (leb page_size (length packed))) [
    | inl e ↦ inr (
        rw (z, e) (omega (arith, leb→le page_size (length packed) e, length-take page_size packed)))
    | inr e ↦ inr (rw (z, e) (length-fitted page_size packed))
  ]
  | inr z ↦ elim (Bool-cases (ltb page_size (off + len))) [
    | inl e ↦ inl (rw (z, e) refl)
    | inr e ↦ elim (Bool-cases (ltb (length packed) off)) [
      | inl f ↦ inl (rw (z, e, f) refl)
      | inr f ↦ inr (rw (z, e, f) (length_with_hole packed off len (ground arith) (ground arith)))
    ]
  ]
]

-- A page is its ends around its hole.
page_parts :
    (page : Bytes) (off len : ℕ)
    → slice page off (off + len) ≡ replicate len 0
    → take off page ++ (replicate len 0 ++ drop (off + len) page) ≡ page
page_parts page off len e =
    let width : off + len - off ≡ len = omega arith in
    ap (λ m. take off page ++ (m ++ drop (off + len) page))
      (sym e ∙ ap (λ w. take w (drop off page)) width)
    ∙ ap (λ d. take off page ++ (take len (drop off page) ++ d)) (sym (drop-drop off len page refl))
    ∙ ap (◌++◌ (take off page)) (take-append-drop len (drop off page))
    ∙ take-append-drop off page

-- A page whose hole is zero is rebuilt from its two ends.
pub insert_page_hole-cut :
    (page : Bytes) (off len : ℕ)
    → length page ≡ page_size
    → off + len ≤ page_size
    → slice page off (off + len) ≡ replicate len 0
    → insert_page_hole (take off page ++ drop (off + len) page) off len ≡ page
unfolding insert_page_hole
insert_page_hole-cut page off len h fit zero_hole = elim (Bool-cases (len == 0)) [
  | inl z ↦
      let e : len ≡ 0 = (==_iff len 0).0 z in
      let e' : off + len ≡ off = omega arith in
      let whole : take off page ++ drop (off + len) page ≡ page =
        ap (λ k. take off page ++ drop k page) e' ∙ take-append-drop off page in
      rw (z, whole, h) (take_all page_size page (omega arith))
  | inr z ↦
      rw
        (z, le→ltb page_size (off + len) fit, le→ltb (length packed) off (omega (arith, size, cut)))
        (rw
          (
            front,
            back,
            fitted_all (page_size - (off + len)) (drop (off + len) page)
                (omega (arith, length-drop (off + len) page)),
          )
          (page_parts page off len zero_hole))
]
  where
    packed : Bytes
    packed = take off page ++ drop (off + len) page

    cut : off ≡ length (take off page)
    cut = omega (arith, length-take off page)

    size : length packed ≡ length (take off page) + length (drop (off + len) page)
    size = length-append (take off page) (drop (off + len) page)

    front : take off packed ≡ take off page
    front = take-append (take off page) (drop (off + len) page) cut

    back : drop off packed ≡ drop (off + len) page
    back = drop-append (take off page) (drop (off + len) page) cut

-- An image that has the size asked for, if there is one.
abbrev Filled : ℕ → Option Bytes → Type 0
Filled want none = Unit
Filled want (some out) = length out ≡ want

filling-Filled : (want : ℕ) (o : Option Bytes) → Filled want (filling want o)
filling-Filled want none = tt
filling-Filled want (some x) = elim (Bool-cases (length x == want)) [
  | inl f ↦ rw f ((==_iff _ _).0 f)
  | inr f ↦ rw f tt
]

pglz-Filled : (src : Bytes) (want : ℕ) → Filled want (result_bytes (pglz_decompress src want))
pglz-Filled src want = elim (pglz_decompress_total src want) [
  | inl (out, e, l) ↦ rw e l
  | inr (e, f) ↦ rw f tt
]

decompress_fpw-Filled :
    (codecs : Codecs) (bimg : ℕ) (src : Bytes) (want : ℕ)
    → Filled want (decompress_fpw codecs bimg src want)
unfolding decompress_fpw
decompress_fpw-Filled codecs bimg src want = elim (Bool-cases (length src == 0 || want == 0)) [
  | inl a ↦ rw a tt
  | inr a ↦ elim (Bool-cases (has bimg 0x04)) [
    | inl b ↦ rw (a, b) (pglz-Filled src want)
    | inr b ↦ elim (Bool-cases (has bimg 0x08)) [
      | inl c ↦ rw (a, b, c) (filling-Filled want (codecs.lz4 src want))
      | inr c ↦ elim (Bool-cases (has bimg 0x10)) [
        | inl d ↦ rw (a, b, c, d) (filling-Filled want (codecs.zstd src))
        | inr d ↦ rw (a, b, c, d) tt
      ]
    ]
  ]
]

-- Whatever the outside decompressors return, a decompressed image fills its buffer exactly.
pub length-decompress_fpw :
    (codecs : Codecs) (bimg : ℕ) (src : Bytes) (want : ℕ) {out : Bytes}
    → decompress_fpw codecs bimg src want ≡ some out
    → length out ≡ want
length-decompress_fpw codecs bimg src want e =
    subst (Filled want) e (decompress_fpw-Filled codecs bimg src want)
