-- ===== src/Txn.antt =====
-- `flashbackTxnBuf` of internal/service/flashback_xact.go: the decoded changes of the transactions
-- that have not ended, by transaction id. The parser never holds a nil buffer when it reads a
-- record (`emit` makes one), and a nil map reads as the empty one.
pub mod Trace
pub mod Order
pub mod Dump
mod Tests
use db_flashback.Base.{
  ℕ, none, some, List, [], ◌∷◌, ◌++◌, map, leb, ◌==◌, if◌then◌else◌, lookup, insert, remove, keys,
}
use db_flashback.Change.{Change}
use db_flashback.Commit.{Commit}
use db_flashback.Time.{Time}

pub record TxnBuf : Type 0 where
  pub pending : List (ℕ × List Change)

-- `flashbackNewTxnBuf`
abbrev pub new_txn_buf : TxnBuf
new_txn_buf = record { pending = [] }

-- `b.pending[id]`, nil for a missing key.
unfoldable pub pending_of : TxnBuf → ℕ → List Change
pending_of b id = elim (lookup id b.pending) [ none ↦ [] | some cs ↦ cs ]

-- `add`
unfoldable pub add : TxnBuf → Change → TxnBuf
add b c =
    if c.xid == 0
    then b
    else record b { pending = insert c.xid (pending_of b c.xid ++ (c ∷ [])) b.pending }

-- `discard`
unfoldable pub discard : TxnBuf → List ℕ → TxnBuf
discard b [] = b
discard b (x ∷ xs) = discard (record b { pending = remove x b.pending }) xs

-- `ch.TS = cmt.Time`
abbrev pub stamp : Time → Change → Change
stamp t c = record c { ts = t }

-- The loop of `flush` over the ids that are left.
unfoldable pub flush_ids : TxnBuf → Time → List ℕ → List Change → TxnBuf × List Change
flush_ids b t [] out = (b, out)
flush_ids b t (id ∷ ids) out =
    flush_ids (record b { pending = remove id b.pending }) t ids
      (out ++ map (stamp t) (pending_of b id))

-- `flush`
unfoldable pub flush : TxnBuf → Commit → ℕ → TxnBuf × List Change
unfolding flush_ids
flush b cmt xid = flush_ids b cmt.time (xid ∷ cmt.sub_xids) []

-- `sort.Slice(xids, …)` by `<`.
unfoldable pub insert_xid : ℕ → List ℕ → List ℕ
insert_xid x [] = x ∷ []
insert_xid x (y ∷ ys) = if leb x y then x ∷ (y ∷ ys) else y ∷ insert_xid x ys

unfoldable pub sort_xids : List ℕ → List ℕ
unfolding insert_xid
sort_xids [] = []
sort_xids (x ∷ xs) = insert_xid x (sort_xids xs)

-- The loop of `dumpAll` over the sorted ids.
unfoldable pub dump_ids : TxnBuf → List ℕ → List Change → TxnBuf × List Change
dump_ids b [] out = (b, out)
dump_ids b (x ∷ xs) out =
    dump_ids (record b { pending = remove x b.pending }) xs (out ++ pending_of b x)

-- `dumpAll`
unfoldable pub dump_all : TxnBuf → TxnBuf × List Change
unfolding dump_ids sort_xids
dump_all b = dump_ids b (sort_xids (keys b.pending)) []
