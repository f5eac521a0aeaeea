-- ===== src/Txn/Trace.antt =====
-- The buffer against the history of the events that it has seen.
use db_flashback.Base.{
  ℕ, ◌≡◌, refl, sym, ap, ◌∙◌, false, not, ◌&&◌, List, [], ◌∷◌, ◌++◌, map, append-nil, append_assoc,
  arith, ◌==◌, if◌then◌else◌, mem, lookup, remove, lookup-insert, lookup-remove,
}
use db_flashback.Change.{Change}
use db_flashback.Commit.{Commit}
use db_flashback.Time.{Time}
use db_flashback.Txn.{TxnBuf, new_txn_buf, pending_of, add, discard, stamp, flush_ids, flush}

-- What happens to the buffer.
pub data Event : Type 0 where
  added : Change → Event
  aborted : List ℕ → Event
  committed : Commit → ℕ → Event

abbrev pub apply_event : TxnBuf → Event → TxnBuf
apply_event b (added c) = add b c
apply_event b (aborted ids) = discard b ids
apply_event b (committed cmt xid) = (flush b cmt xid).0

-- The buffer after a history, whose newest event stands first.
unfoldable pub after : List Event → TxnBuf
after [] = new_txn_buf
after (e ∷ es) = apply_event (after es) e

-- The specification: the changes that a transaction has made since it last ended, oldest first.
-- A change of transaction 0 is never kept.
abbrev pub live : ℕ → List Event → List Change
live x [] = []
live x (added c ∷ es) = if not (c.xid == 0) && c.xid == x then live x es ++ (c ∷ []) else live x es
live x (aborted ids ∷ es) = if mem x ids then [] else live x es
live x (committed cmt xid ∷ es) = if mem x (xid ∷ cmt.sub_xids) then [] else live x es

pub pending_of-add :
    (b : TxnBuf) (c : Change) (x : ℕ)
    → pending_of (add b c) x
      ≡ (if not (c.xid == 0) && c.xid == x then pending_of b x ++ (c ∷ []) else pending_of b x)
unfolding pending_of add
pending_of-add b c x =
    ground (arith, lookup-insert c.xid x (pending_of b c.xid ++ (c ∷ [])) b.pending)

pub pending_of-remove :
    (b : TxnBuf) (y x : ℕ)
    → pending_of (record b { pending = remove y b.pending }) x
      ≡ (if y == x then [] else pending_of b x)
unfolding pending_of
pending_of-remove b y x = ground (arith, lookup-remove y x b.pending)

pub pending_of-discard :
    (b : TxnBuf) (ids : List ℕ) (x : ℕ)
    → pending_of (discard b ids) x ≡ (if mem x ids then [] else pending_of b x)
unfolding discard
pending_of-discard b [] x = refl
pending_of-discard b (y ∷ ids) x = ground (
  arith,
  pending_of-discard (record b { pending = remove y b.pending }) ids x,
  pending_of-remove b y x,
)

-- A flush leaves the buffer that a discard of the same ids leaves.
pub flush_ids-discard :
    (b : TxnBuf) (t : Time) (ids : List ℕ) (out : List Change)
    → (flush_ids b t ids out).0 ≡ discard b ids
unfolding flush_ids discard
flush_ids-discard b t [] out = refl
flush_ids-discard b t (y ∷ ids) out =
    flush_ids-discard (record b { pending = remove y b.pending }) t ids
      (out ++ map (stamp t) (pending_of b y))

pending_of-flush :
    (b : TxnBuf) (cmt : Commit) (xid x : ℕ)
    → pending_of (flush b cmt xid).0 x ≡ pending_of (discard b (xid ∷ cmt.sub_xids)) x
unfolding flush
pending_of-flush b cmt xid x =
    ap (λ b'. pending_of b' x) (flush_ids-discard b cmt.time (xid ∷ cmt.sub_xids) [])

-- After any history the buffer holds, for each transaction, exactly the changes that it made since
-- it last committed or aborted, in order.
pub pending_of-after : (es : List Event) (x : ℕ) → pending_of (after es) x ≡ live x es
unfolding after
pending_of-after [] x = unfold pending_of lookup in refl
pending_of-after (added c ∷ es) x = rw (pending_of-add (after es) c x, pending_of-after es x) refl
pending_of-after (aborted ids ∷ es) x =
    rw (pending_of-discard (after es) ids x, pending_of-after es x) refl
pending_of-after (committed cmt xid ∷ es) x =
    rw
      (
        pending_of-flush (after es) cmt xid x,
        pending_of-discard (after es) (xid ∷ cmt.sub_xids) x,
        pending_of-after es x,
      )
      refl

-- No id twice.
abbrev pub Distinct : List ℕ → Type 0
Distinct [] = Unit
Distinct (x ∷ xs) = (mem x xs ≡ false) × Distinct xs

-- What a history leaves pending for each of some transactions, stamped, one after the other.
abbrev pub live_all : Time → List ℕ → List Event → List Change
live_all t [] es = []
live_all t (id ∷ ids) es = map (stamp t) (live id es) ++ live_all t ids es

abbrev gather : TxnBuf → Time → List ℕ → List Change
gather b t [] = []
gather b t (id ∷ ids) = map (stamp t) (pending_of b id) ++ gather b t ids

gather-remove :
    (b : TxnBuf) (t : Time) (y : ℕ) (ids : List ℕ)
    → mem y ids ≡ false
    → gather (record b { pending = remove y b.pending }) t ids ≡ gather b t ids
gather-remove b t y [] h = refl
gather-remove b t y (id ∷ ids) h = ground (arith, pending_of-remove b y id, gather-remove b t y ids)

flush_ids-gather :
    (b : TxnBuf) (t : Time) (ids : List ℕ) (out : List Change)
    → Distinct ids
    → (flush_ids b t ids out).1 ≡ out ++ gather b t ids
unfolding flush_ids
flush_ids-gather b t [] out h = sym (append-nil out)
flush_ids-gather b t (y ∷ ids) out h =
    flush_ids-gather (record b { pending = remove y b.pending }) t ids
      (out ++ map (stamp t) (pending_of b y)) h.1
    ∙ rw (gather-remove b t y ids h.0) (append_assoc out _ _)

gather-live :
    (es : List Event) (t : Time) (ids : List ℕ) → gather (after es) t ids ≡ live_all t ids es
gather-live es t [] = refl
gather-live es t (id ∷ ids) = rw (pending_of-after es id, gather-live es t ids) refl

-- After any history a commit hands out, for the transaction and then for each of its distinct
-- subtransactions, exactly the changes made since that one last ended, in order and stamped with
-- the commit time.
pub flush-after :
    (es : List Event) (cmt : Commit) (xid : ℕ)
    → Distinct (xid ∷ cmt.sub_xids)
    → (flush (after es) cmt xid).1 ≡ live_all cmt.time (xid ∷ cmt.sub_xids) es
unfolding flush
flush-after es cmt xid h =
    flush_ids-gather (after es) cmt.time (xid ∷ cmt.sub_xids) [] h
    ∙ gather-live es cmt.time (xid ∷ cmt.sub_xids)
