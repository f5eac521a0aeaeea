-- ===== src/Heap/Page.antt =====
-- Tuples found on a page by their line pointers (ItemIdData: 15 bits of offset, 2 of flags, 15 of
-- length).
use db_flashback.Base.{
  ℕ, suc, ◌+◌, ◌-◌, ◌*◌, ◌/◌, ◌%◌, ◌^◌, ◌≤◌, ◌<◌, ◌≡◌, refl, ◌⊎◌, inl, inr, Bool, true, false, not,
  ◌||◌, [], arith, ltb, ◌==◌, if◌then◌else◌, le→ltb, ==_ne, Bool-cases, length, drop, length-take,
  length-drop,
}
use db_flashback.Bytes.{Bytes, u32, slice}
use db_flashback.Heap.{item_tuple, tuple_from_page}

abbrev pub line_pointer : ℕ → ℕ → ℕ → ℕ
line_pointer off flags len = off + 2 ^ 15 * flags + 2 ^ 17 * len

item_tuple-line_pointer :
    (page : Bytes) (off len : ℕ)
    → off < 2 ^ 15
    → len < 2 ^ 15
    → 23 ≤ len
    → off + len ≤ length page
    → item_tuple page (line_pointer off 1 len) ≡ slice page off (off + len)
unfolding item_tuple
item_tuple-line_pointer page off len ho hl h fits =
    rw (low, mid, high) (rw (le→ltb len 23 h, le→ltb (length page) (off + len) fits) refl)
  where
    low : line_pointer off 1 len % 2 ^ 15 ≡ off
    low = omega arith

    mid : line_pointer off 1 len / 2 ^ 15 % 4 ≡ 1
    mid = omega arith

    high : line_pointer off 1 len / 2 ^ 17 % 2 ^ 15 ≡ len
    high = omega arith

-- The tuple of a normal line pointer inside the page is the bytes that the pointer spans.
pub tuple_from_page-line_pointer :
    (page : Bytes) (k off len : ℕ)
    → 24 + k * 4 + 4 ≤ length page
    → u32 page (24 + k * 4) ≡ line_pointer off 1 len
    → off < 2 ^ 15
    → len < 2 ^ 15
    → 23 ≤ len
    → off + len ≤ length page
    → tuple_from_page page (suc k) ≡ slice page off (off + len)
unfolding tuple_from_page
tuple_from_page-line_pointer page k off len there item ho hl h fits =
    rw
      (
        le→ltb (length page) 24 (omega arith),
        (let back : suc k - 1 ≡ k = omega arith in back),
        ==_ne (suc k) 0 (omega arith),
        le→ltb (length page) (24 + k * 4 + 4) there,
        item,
      )
      (item_tuple-line_pointer page off len ho hl h fits)

-- Nil, or at least a tuple header that is not longer than the page.
abbrev pub IsTuple : Bytes → Bytes → Type 0
IsTuple page tuple = (tuple ≡ []) ⊎ ((23 ≤ length tuple) × (length tuple ≤ length page))

IsTuple-if :
    (page : Bytes) (t : Bool) (b : Bytes) → IsTuple page b → IsTuple page (if t then [] else b)
IsTuple-if page true b h = inl refl
IsTuple-if page false b h = h

length-slice :
    (page : Bytes) (off len : ℕ)
    → 23 ≤ len
    → off + len ≤ length page
    → (23 ≤ length (slice page off (off + len)))
      × (length (slice page off (off + len)) ≤ length page)
length-slice page off len h fits =
    let taken = length-take (off + len - off) (drop off page) in
    let left = length-drop off page in (omega (arith, taken, left), omega (arith, taken, left))

ltb-false : (a b : ℕ) → ltb a b ≡ false → b ≤ a
ltb-false a b h = ground arith

item_tuple-IsTuple : (page : Bytes) (item : ℕ) → IsTuple page (item_tuple page item)
unfolding item_tuple
item_tuple-IsTuple page item =
    let off = item % 2 ^ 15 in
    let len = item / 2 ^ 17 % 2 ^ 15 in
    elim (Bool-cases (not (item / 2 ^ 15 % 4 == 1) || ltb len 23)) [
      | inl refused ↦ rw refused (inl refl)
      | inr header ↦ elim (Bool-cases (ltb (length page) (off + len))) [
        | inl outside ↦ rw (header, outside) (inl refl)
        | inr inside ↦
            rw (header, inside)
              (inr (
                length-slice page off len (ltb-false len 23 (ground arith))
                  (ltb-false (length page) (off + len) inside)))
      ]
    ]

-- Whatever the line pointer holds, the result is nil or at least a tuple header, and it is not
-- longer than the page.
pub tuple_from_page-IsTuple :
    (page : Bytes) (offnum : ℕ) → IsTuple page (tuple_from_page page offnum)
unfolding tuple_from_page
tuple_from_page-IsTuple page offnum = IsTuple-if page (ltb (length page) 24 || (offnum == 0)) _ (
    IsTuple-if page (ltb (length page) (24 + (offnum - 1) * 4 + 4)) _
      (item_tuple-IsTuple page (u32 page (24 + (offnum - 1) * 4))))
