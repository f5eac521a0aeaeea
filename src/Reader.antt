-- ===== src/Reader.antt =====
-- `flashbackWALParser` of internal/service/flashback_walparse.go: pages to records, records to
-- committed changes. The counters kept here are those that the parser itself writes; those of the
-- record decoder belong to the decoder's state. `st` and `txn` are not nil, as in
-- `flashbackWalkWALDir`.
pub mod Framing
pub mod Emit
pub mod Rule
pub mod Bound
pub mod Window
pub mod Chain
pub mod Short
pub mod Dir
mod Tests
use db_flashback.Base.{
  ℕ, ◌+◌, ◌-◌, ◌*◌, ◌/◌, bit_and, Bool, true, false, not, ◌&&◌, ◌||◌, List, [], ◌∷◌, ◌++◌, map, ltb,
  leb, ◌==◌, if◌then◌else◌, length, take, mem,
}
use db_flashback.Bytes.{Bytes, byte, u16, u32, has}
use db_flashback.Change.{Change}
use db_flashback.Commit.{Commit, parse_commit, filter_commit_time}
use db_flashback.Record.{xact_main_data}
use db_flashback.Time.{Time, is_zero}
use db_flashback.Txn.{TxnBuf, add, discard, flush, dump_all, stamp}

-- What the parser calls on a record: `flashbackDecodeHeapRecord`, and `flushXID` and `discardXID`
-- of the catalog (nothing where there is no catalog). `S` is the state behind them: the
-- dictionary, the page cache and the counters.
pub record Decoder (S : Type 0) : Type 0 where
  pub decode : S → Bytes → S × List Change
  pub flush_xid : S → ℕ → S × List Change
  pub discard_xid : S → ℕ → S

-- The fields that handling a record reads and writes.
pub record Core (S : Type 0) : Type 0 where
  pub decoder_state : S
  pub max_changes : ℕ
  pub emitted : ℕ
  pub txn : TxnBuf
  pub time_from : Time
  pub time_to : Time
  pub past_end : Bool
  pub records : ℕ
  pub checkpoints : ℕ
  pub change_trunc : Bool

-- The fields that cutting pages into records reads and writes.
pub record Reader (S : Type 0) : Type 0 where
  pub core : Core S
  pub cont : Bytes
  pub cont_need : ℕ
  pub pad_skip : ℕ
  pub pages : ℕ
  pub magic : ℕ
  pub magic_skip : ℕ

-- `flashbackMaxAlign` of a length.
abbrev pub max_align : ℕ → ℕ
max_align n = (n + 7) / 8 * 8

-- `flashbackIsXLogSwitch`
abbrev pub is_xlog_switch : Bytes → Bool
is_xlog_switch rec =
    if ltb (length rec) 18 then false else byte rec 17 == 0 && bit_and (byte rec 16) 0xf0 == 0x40

-- `flashbackIsXLogCheckpoint`
abbrev pub is_xlog_checkpoint : Bytes → Bool
is_xlog_checkpoint rec =
    if ltb (length rec) 18
    then false
    else if not (byte rec 17 == 0)
    then false
    else bit_and (byte rec 16) 0xf0 == 0x00 || bit_and (byte rec 16) 0xf0 == 0x10

-- The keys of `flashbackPageMagics`.
abbrev pub page_magics : List ℕ
page_magics = 0xd097 ∷ 0xd106 ∷ 0xd10d ∷ 0xd110 ∷ 0xd111 ∷ 0xd113 ∷ 0xd116 ∷ 0xd118 ∷ 0xd121 ∷ []

-- `flashbackLooksLikeWALMagic`
abbrev pub looks_like_wal_magic : ℕ → Bool
looks_like_wal_magic magic =
    if mem magic page_magics then true else leb 0xd090 magic && leb magic 0xd200

-- `if out[i].TS.IsZero() { out[i].TS = cmt.Time }`
abbrev pub stamp_unset : Time → Change → Change
stamp_unset t c = if is_zero c.ts then stamp t c else c

abbrev pub is_commit : ℕ → Bool
is_commit op = op == 0x00 || op == 0x30

abbrev pub is_abort : ℕ → Bool
is_abort op = op == 0x20 || op == 0x40

-- `for _, c := range … { p.txn.add(c) }`
abbrev pub add_all : TxnBuf → List Change → TxnBuf
add_all b [] = b
add_all b (c ∷ cs) = add_all (add b c) cs

module _ {S : Type 0} where
  -- `take`
  unfoldable pub take_changes : Core S → List Change → Core S × List Change
  take_changes p ch =
      let left = p.max_changes - p.emitted in
      if length ch == 0
      then (p, [])
      else if p.max_changes == 0
      then (record p { emitted = p.emitted + length ch }, ch)
      else if left == 0
      then (record p { change_trunc = true }, [])
      else if ltb left (length ch)
      then (
        record p { change_trunc = true; emitted = p.emitted + length (take left ch) },
        take left ch,
      )
      else (record p { emitted = p.emitted + length ch }, ch)

  -- `flushPending`
  unfoldable pub flush_pending : Core S → Core S × List Change
  unfolding take_changes
  flush_pending p = let (txn, out) = dump_all p.txn in take_changes (record p { txn = txn }) out

module _ {S : Type 0} (dec : Decoder S) where
  -- `ddl = append(ddl, p.dict.Catalog.flushXID(id)...)` for the subtransactions.
  unfoldable pub flush_catalog : S → List ℕ → List Change → S × List Change
  flush_catalog s [] ddl = (s, ddl)
  flush_catalog s (id ∷ ids) ddl =
      let (s', out) = dec.flush_xid s id in flush_catalog s' ids (ddl ++ out)

  unfoldable pub discard_catalog : S → List ℕ → S
  discard_catalog s [] = s
  discard_catalog s (id ∷ ids) = discard_catalog (dec.discard_xid s id) ids

  -- `case xlogXactCommit, xlogXactCommitPrepared`
  unfoldable pub handle_commit : Core S → Bytes → ℕ → Commit → Core S × List Change
  unfolding flush_catalog
  handle_commit p rec xid cmt =
      let (s, ddl) = dec.decode p.decoder_state rec in
      let (s', ddl') = flush_catalog s cmt.sub_xids ddl in
      let (txn, rows) = flush p.txn cmt xid in
      let out = map (stamp_unset cmt.time) (rows ++ ddl') in
      let late = not (is_zero p.time_to) && (not (is_zero cmt.time) && ltb p.time_to cmt.time) in
      (
        record p { decoder_state = s'; txn = txn; past_end = p.past_end || late },
        filter_commit_time out p.time_from p.time_to,
      )

  -- `case xlogXactAbort, xlogXactAbortPrepared`
  unfoldable pub handle_abort : Core S → ℕ → Commit → Core S × List Change
  unfolding discard_catalog
  handle_abort p xid cmt =
      let ids = xid ∷ cmt.sub_xids in
      (
        record p { txn = discard p.txn ids; decoder_state = discard_catalog p.decoder_state ids },
        [],
      )

  -- `handleXact`
  unfoldable pub handle_xact : Core S → Bytes → ℕ → ℕ → Core S × List Change
  unfolding handle_commit handle_abort
  handle_xact p rec xid info =
      let op = bit_and info 0x70 in
      let cmt = parse_commit info (xact_main_data rec) (op == 0x30 || op == 0x40) in
      let (s, out) = dec.decode p.decoder_state rec in
      if is_commit op
      then handle_commit p rec xid cmt
      else if is_abort op
      then handle_abort p xid cmt
      else (record p { decoder_state = s }, out)

  -- `emit`
  unfoldable pub emit : Core S → Bytes → Core S × List Change
  unfolding handle_xact
  emit p rec =
      let p1 = record p { records = p.records + 1 } in
      let p2 = record p1 {
        checkpoints = p1.checkpoints + (if is_xlog_checkpoint rec then 1 else 0);
      } in
      let (s, cs) = dec.decode p2.decoder_state rec in
      if p.past_end || ltb (length rec) 24
      then (p1, [])
      else if byte rec 17 == 1
      then handle_xact p2 rec (u32 rec 4) (byte rec 16)
      else (record p2 { decoder_state = s; txn = add_all p2.txn cs }, [])

  -- `p.take(p.emit(rec))`
  unfoldable pub emit_take : Core S → Bytes → Core S × List Change
  unfolding emit take_changes
  emit_take p rec = let (p', out) = emit p rec in take_changes p' out
