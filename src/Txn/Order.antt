-- ===== src/Txn/Order.antt =====
-- Sorted lists of ids, and `sort.Slice` on ids.
use db_flashback.Base.{
  ℕ, ◌+◌, ◌≤◌, ◌≡◌, refl, inl, inr, List, [], ◌∷◌, arith, leb, ◌==◌, if◌then◌else◌, leb→le,
  Bool-cases, All,
}
use db_flashback.Txn.{insert_xid, sort_xids}

-- Each number is at most all that follow.
abbrev pub Ascending : List ℕ → Type 0
Ascending [] = Unit
Ascending (x ∷ xs) = All (λ y. x ≤ y) xs × Ascending xs

abbrev pub times : ℕ → List ℕ → ℕ
times x [] = 0
times x (y ∷ ys) = (if y == x then 1 else 0) + times x ys

insert_xid-All :
    (n x : ℕ) (xs : List ℕ) → n ≤ x → All (λ y. n ≤ y) xs → All (λ y. n ≤ y) (insert_xid x xs)
unfolding insert_xid
insert_xid-All n x [] h a = (h, tt)
insert_xid-All n x (y ∷ ys) h a = elim (Bool-cases (leb x y)) [
  | inl e ↦ rw e (h, a)
  | inr e ↦ rw e (a.0, insert_xid-All n x ys h a.1)
]

pub All-weaken : (n m : ℕ) (xs : List ℕ) → n ≤ m → All (λ y. m ≤ y) xs → All (λ y. n ≤ y) xs
All-weaken n m [] h a = tt
All-weaken n m (x ∷ xs) h a = (omega (arith, a.0), All-weaken n m xs h a.1)

insert_xid-Ascending : (x : ℕ) (xs : List ℕ) → Ascending xs → Ascending (insert_xid x xs)
unfolding insert_xid
insert_xid-Ascending x [] h = (tt, tt)
insert_xid-Ascending x (y ∷ ys) h = elim (Bool-cases (leb x y)) [
  | inl e ↦ rw e ((leb→le x y e, All-weaken x y ys (leb→le x y e) h.0), h)
  | inr e ↦ rw e (insert_xid-All y x ys (ground arith) h.0, insert_xid-Ascending x ys h.1)
]

pub sort_xids-Ascending : (xs : List ℕ) → Ascending (sort_xids xs)
unfolding sort_xids
sort_xids-Ascending [] = tt
sort_xids-Ascending (x ∷ xs) = insert_xid-Ascending x (sort_xids xs) (sort_xids-Ascending xs)

times-insert_xid : (k x : ℕ) (xs : List ℕ) → times k (insert_xid x xs) ≡ times k (x ∷ xs)
unfolding insert_xid
times-insert_xid k x [] = refl
times-insert_xid k x (y ∷ ys) = ground (arith, times-insert_xid k x ys)

pub times-sort_xids : (k : ℕ) (xs : List ℕ) → times k (sort_xids xs) ≡ times k xs
unfolding sort_xids
times-sort_xids k [] = refl
times-sort_xids k (x ∷ xs) =
    omega (arith, times-insert_xid k x (sort_xids xs), times-sort_xids k xs)
