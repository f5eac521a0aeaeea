-- ===== src/Txn/Dump.antt =====
-- What the end of the input hands out: `dumpAll`.
use db_flashback.Base.{
  ℕ, ◌≤◌, ◌≡◌, refl, sym, ap, ◌∙◌, subst, ◌≢◌, inl, inr, false, not, ◌&&◌, none, List, [], ◌∷◌,
  ◌++◌, map, append-nil, append_assoc, arith, ◌==◌, if◌then◌else◌, Bool-cases, All, mem, lookup,
  remove, keys,
}
use db_flashback.Change.{Change}
use db_flashback.Txn.Trace.{
  live, pending_of-after, pending_of-remove, pending_of-add, pending_of-discard, flush_ids-discard,
  Event, added, aborted, committed, after,
}
use db_flashback.Commit.{Commit}
use db_flashback.Txn.Order.{Ascending, times, All-weaken, sort_xids-Ascending, times-sort_xids}
use db_flashback.Txn.{TxnBuf, pending_of, add, discard, flush, sort_xids, dump_ids, dump_all}

-- The changes of one transaction, in order.
abbrev pub of_xid : ℕ → List Change → List Change
of_xid x [] = []
of_xid x (c ∷ cs) = if c.xid == x then c ∷ of_xid x cs else of_xid x cs

abbrev pub xids_of : List Change → List ℕ
xids_of = map (λ (c : Change). c.xid)

abbrev AllOf : ℕ → List Change → Type 0
AllOf x = All (λ (c : Change). c.xid ≡ x)

-- Every change is kept under its own transaction.
abbrev pub IsKeyed : TxnBuf → Type 0
IsKeyed b = (x : ℕ) → AllOf x (pending_of b x)

AllOf-append : (x : ℕ) (xs ys : List Change) → AllOf x xs → AllOf x ys → AllOf x (xs ++ ys)
AllOf-append x [] ys a b = b
AllOf-append x (c ∷ cs) ys a b = (a.0, AllOf-append x cs ys a.1 b)

add-IsKeyed : (b : TxnBuf) (c : Change) → IsKeyed b → IsKeyed (add b c)
add-IsKeyed b c k x =
    rw (pending_of-add b c x) (elim (Bool-cases (not (c.xid == 0) && c.xid == x)) [
      | inl e ↦ rw e (AllOf-append x (pending_of b x) (c ∷ []) (k x) (ground arith, tt))
      | inr e ↦ rw e (k x)
    ])

remove-IsKeyed :
    (b : TxnBuf) (y : ℕ) → IsKeyed b → IsKeyed (record b { pending = remove y b.pending })
remove-IsKeyed b y k x =
    rw (pending_of-remove b y x)
      (elim (Bool-cases (y == x)) [ inl e ↦ rw e tt | inr e ↦ rw e (k x) ])

discard-IsKeyed : (b : TxnBuf) (ids : List ℕ) → IsKeyed b → IsKeyed (discard b ids)
unfolding discard
discard-IsKeyed b [] k = k
discard-IsKeyed b (y ∷ ids) k =
    discard-IsKeyed (record b { pending = remove y b.pending }) ids (remove-IsKeyed b y k)

-- The order of the output, and of the ids.
abbrev dump_list : TxnBuf → List ℕ → List Change
dump_list b [] = []
dump_list b (y ∷ ids) = pending_of b y ++ dump_list (record b { pending = remove y b.pending }) ids

dump_ids-dump_list :
    (b : TxnBuf) (ids : List ℕ) (out : List Change)
    → (dump_ids b ids out).1 ≡ out ++ dump_list b ids
unfolding dump_ids
dump_ids-dump_list b [] out = sym (append-nil out)
dump_ids-dump_list b (y ∷ ids) out =
    dump_ids-dump_list (record b { pending = remove y b.pending }) ids (out ++ pending_of b y)
    ∙ append_assoc out _ _

-- A run of changes of one transaction before changes of later ones.
xids_of-Ascending :
    (x : ℕ) (cs ds : List Change)
    → AllOf x cs
    → All (λ y. x ≤ y) (xids_of ds)
    → Ascending (xids_of ds)
    → All (λ y. x ≤ y) (xids_of (cs ++ ds)) × Ascending (xids_of (cs ++ ds))
xids_of-Ascending x [] ds a l s = (l, s)
xids_of-Ascending x (c ∷ cs) ds a l s =
    let (l', s') = xids_of-Ascending x cs ds a.1 l s in
    ((omega (arith, a.0), l'), (All-weaken c.xid x _ (omega (arith, a.0)) l', s'))

dump_list-Ascending :
    (n : ℕ) (b : TxnBuf) (ids : List ℕ)
    → IsKeyed b
    → All (λ y. n ≤ y) ids
    → Ascending ids
    → All (λ y. n ≤ y) (xids_of (dump_list b ids)) × Ascending (xids_of (dump_list b ids))
dump_list-Ascending n b [] k l s = (tt, tt)
dump_list-Ascending n b (y ∷ ids) k l s =
    let b' = record b { pending = remove y b.pending } in
    let (l', s') = dump_list-Ascending y b' ids (remove-IsKeyed b y k) s.0 s.1 in
    let (l'', s'') = xids_of-Ascending y (pending_of b y) (dump_list b' ids) (k y) l' s' in
    (All-weaken n y _ l.0 l'', s'')

of_xid-append : (x : ℕ) (cs ds : List Change) → of_xid x (cs ++ ds) ≡ of_xid x cs ++ of_xid x ds
of_xid-append x [] ds = refl
of_xid-append x (c ∷ cs) ds = ground (arith, of_xid-append x cs ds)

of_xid_own : (x : ℕ) (cs : List Change) → AllOf x cs → of_xid x cs ≡ cs
of_xid_own x [] a = refl
of_xid_own x (c ∷ cs) a = ground (arith, of_xid_own x cs a.1)

of_xid_other : (x y : ℕ) (cs : List Change) → x ≢ y → AllOf y cs → of_xid x cs ≡ []
of_xid_other x y [] n a = refl
of_xid_other x y (c ∷ cs) n a = ground (arith, of_xid_other x y cs n a.1)

mem-times : (x : ℕ) (ys : List ℕ) → mem x ys ≡ not (times x ys == 0)
mem-times x [] = refl
mem-times x (y ∷ ys) = ground (arith, mem-times x ys)

lookup-times : (k : ℕ) (m : List (ℕ × List Change)) → times k (keys m) ≡ 0 → lookup k m ≡ none
unfolding lookup
lookup-times k [] h = refl
lookup-times k ((j, w) ∷ m) h = ground (arith, lookup-times k m)

-- An id that is not among the sorted keys has nothing pending.
pending_of-sort_xids :
    (b : TxnBuf) (x : ℕ) → mem x (sort_xids (keys b.pending)) ≡ false → pending_of b x ≡ []
unfolding pending_of
pending_of-sort_xids b x h = ground (
  arith,
  mem-times x (sort_xids (keys b.pending)),
  times-sort_xids x (keys b.pending),
  lookup-times x b.pending,
)

of_xid-dump_list :
    (x : ℕ) (b : TxnBuf) (ids : List ℕ)
    → IsKeyed b
    → of_xid x (dump_list b ids) ≡ (if mem x ids then pending_of b x else [])
of_xid-dump_list x b [] k = refl
of_xid-dump_list x b (y ∷ ids) k =
    let b' = record b { pending = remove y b.pending } in
    of_xid-append x (pending_of b y) (dump_list b' ids)
    ∙ ground (
      arith,
      of_xid_own x (pending_of b x) (k x),
      λ (n : x ≢ y). of_xid_other x y (pending_of b y) n (k y),
      of_xid-dump_list x b' ids (remove-IsKeyed b y k),
      pending_of-remove b y x,
      append-nil (pending_of b x),
    )

flush-IsKeyed : (b : TxnBuf) (cmt : Commit) (xid : ℕ) → IsKeyed b → IsKeyed (flush b cmt xid).0
unfolding flush
flush-IsKeyed b cmt xid k =
    subst IsKeyed (sym (flush_ids-discard b cmt.time (xid ∷ cmt.sub_xids) []))
      (discard-IsKeyed b (xid ∷ cmt.sub_xids) k)

after-IsKeyed : (es : List Event) → IsKeyed (after es)
unfolding after
after-IsKeyed [] = λ x. unfold pending_of lookup in tt
after-IsKeyed (added c ∷ es) = add-IsKeyed (after es) c (after-IsKeyed es)
after-IsKeyed (aborted ids ∷ es) = discard-IsKeyed (after es) ids (after-IsKeyed es)
after-IsKeyed (committed cmt xid ∷ es) = flush-IsKeyed (after es) cmt xid (after-IsKeyed es)

dump_ids-discard :
    (b : TxnBuf) (ids : List ℕ) (out : List Change) → (dump_ids b ids out).0 ≡ discard b ids
unfolding dump_ids discard
dump_ids-discard b [] out = refl
dump_ids-discard b (y ∷ ids) out =
    dump_ids-discard (record b { pending = remove y b.pending }) ids (out ++ pending_of b y)

zero_All : (xs : List ℕ) → All (λ y. 0 ≤ y) xs
zero_All [] = tt
zero_All (x ∷ xs) = (omega arith, zero_All xs)

-- After any history the final dump hands out, of each transaction, exactly the changes that it made
-- since it last ended, unstamped and in order, with the transactions in ascending order of their
-- ids, and leaves nothing pending.
pub dump_all-after :
    (es : List Event) (x : ℕ)
    → (of_xid x (dump_all (after es)).1 ≡ live x es)
      × Ascending (xids_of (dump_all (after es)).1)
      × (pending_of (dump_all (after es)).0 x ≡ [])
dump_all-after es x = (
  ap (of_xid x) out ∙ of_xid-dump_list x b ids k ∙ whole,
  subst (λ cs. Ascending (xids_of cs)) (sym out)
      (dump_list-Ascending 0 b ids k (zero_All ids) (sort_xids-Ascending (keys b.pending))).1,
  ap (λ b'. pending_of b' x) left ∙ pending_of-discard b ids x ∙ gone,
)
  where
    b : TxnBuf
    b = after es

    ids : List ℕ
    ids = sort_xids (keys b.pending)

    k : IsKeyed b
    k = after-IsKeyed es

    out : (dump_all b).1 ≡ dump_list b ids
    out = unfold dump_all in dump_ids-dump_list b ids []

    left : (dump_all b).0 ≡ discard b ids
    left = unfold dump_all in dump_ids-discard b ids []

    whole : (if mem x ids then pending_of b x else []) ≡ live x es
    whole = ground (arith, pending_of-after es x, pending_of-sort_xids b x)

    gone : (if mem x ids then [] else pending_of b x) ≡ []
    gone = ground (arith, pending_of-sort_xids b x)
