-- ===== src/Reader/Tests.antt =====
-- Runs of the reader on two small pages, and its theorems at them.
use db_flashback.Base.{
  ℕ, ◌+◌, ◌*◌, ◌^◌, ◌≤◌, max, ◌≡◌, refl, inl, false, [], ◌∷◌, ◌++◌, arith, ◌==◌, if◌then◌else◌,
  length, replicate, lookup, insert, remove,
}
use db_flashback.Bytes.{Bytes, byte, u16, u32, u64, le32, le64}
use db_flashback.Change.{Change, blank_change, op_insert}
use db_flashback.Commit.{parse_commit, filter_commit_time}
use db_flashback.Reader.Bound.{feed_pages_bound}
use db_flashback.Reader.Chain.Pages.{feed_pages-Chain}
use db_flashback.Reader.Chain.Walk.{at}
use db_flashback.Reader.Chain.{IsRecord, ended, begun, Chain, over, fresh, closes, emit_all}
use db_flashback.Reader.Emit.{Unlimited}
use db_flashback.Reader.Framing.{feed_pages}
use db_flashback.Reader.Short.{feed_pages_short_header}
use db_flashback.Reader.{Decoder, Core, Reader, emit_take}
use db_flashback.Record.{xact_main_data, split_xlog_body}
use db_flashback.Time.{pg_timestamp}
use db_flashback.Txn.{new_txn_buf, pending_of, add, flush}

-- A decoder that turns each heap record into one change and counts them.
abbrev counting : Decoder ℕ
counting = record {
  decode = λ s rec.
      if byte rec 17 == 10
      then (s + 1, record blank_change { xid = u32 rec 4; op = op_insert } ∷ [])
      else (s, []);
  flush_xid = λ s xid. (s, []);
  discard_xid = λ s xid. s;
}

-- A heap record of transaction 7, and its commit with the time one second after the epoch.
abbrev insert_rec : Bytes
insert_rec = le32 32 ++ (le32 7 ++ (replicate 8 0 ++ (0 ∷ (10 ∷ replicate 14 0))))

abbrev commit_front : Bytes
commit_front = le32 34 ++ (le32 7 ++ (replicate 8 0 ++ (0 ∷ (1 ∷ replicate 6 0))))

abbrev commit_rest : Bytes
commit_rest = 255 ∷ (8 ∷ le64 1000000)

abbrev header : ℕ → ℕ → Bytes
header info rem = 0x13 ∷ (0xd1 ∷ (info ∷ (0 ∷ (replicate 12 0 ++ (le32 rem ++ replicate 4 0)))))

abbrev first_page : Bytes
first_page = header 0 0 ++ (insert_rec ++ commit_front)

abbrev second_page : Bytes
second_page = header 1 10 ++ (commit_rest ++ replicate 6 0)

abbrev start_core : ℕ → ℕ → Core ℕ
start_core max from = record {
  decoder_state = 0;
  max_changes = max;
  emitted = 0;
  txn = new_txn_buf;
  time_from = from;
  time_to = 0;
  past_end = false;
  records = 0;
  checkpoints = 0;
  change_trunc = false;
}

abbrev start : ℕ → ℕ → Reader ℕ
start max from = record {
  core = start_core max from;
  cont = [];
  cont_need = 0;
  pad_skip = 0;
  pages = 0;
  magic = 0;
  magic_skip = 0;
}

abbrev committed_row : Change
committed_row = record blank_change { xid = 7; op = op_insert; ts = 63082281601 * 10 ^ 9 }

-- The insert comes out when its commit has been read, stamped with the commit time.
run_two_pages :
    (feed_pages counting (start 0 0) (first_page ∷ (second_page ∷ []))).1 ≡ committed_row ∷ []
unfolding feed_pages emit_take parse_commit xact_main_data split_xlog_body u32 u16 u64 add flush
    pending_of lookup insert remove pg_timestamp filter_commit_time
run_two_pages = refl

insert_rec-IsRecord : IsRecord insert_rec
unfolding u32
insert_rec-IsRecord = record {
  at_least = omega arith;
  at_most = omega arith;
  length_word = refl;
  no_switch = refl;
}

commit-IsRecord : IsRecord (commit_front ++ commit_rest)
unfolding u32
commit-IsRecord = record {
  at_least = omega arith;
  at_most = omega arith;
  length_word = refl;
  no_switch = refl;
}

two_pages :
    Chain [] []
      (first_page ∷ (second_page ∷ []))
      (insert_rec ∷ ((commit_front ++ commit_rest) ∷ []))
unfolding u32 u16
two_pages =
    fresh {seen' = commit_front} {rest' = commit_rest} (insert_rec ∷ []) commit_front refl refl
      (record {
        known_magic = refl;
        goes_on = refl;
        rem_len = λ n. absurd (n refl);
        body_is = refl;
      })
      (insert_rec-IsRecord, tt) (begun refl commit-IsRecord (omega arith) (λ e. cc))
      (closes {seen' = []} {rest' = []} [] [] commit-IsRecord (λ e. cc)
        (record { known_magic = refl; goes_on = refl; rem_len = λ n. refl; body_is = refl }) tt
        (ended refl refl (inl (omega arith))) (over refl refl) refl)
      refl

unlimited : Unlimited (start_core 0 0)
unlimited = record { no_max = refl; no_end = refl; reading = refl }

feed_pages-Chain_example :
    ((feed_pages counting
        (at (start 0 0) (start_core 0 0) [] [])
        (first_page ∷ (second_page ∷ []))).1
      ≡ (emit_all counting (start_core 0 0) (insert_rec ∷ ((commit_front ++ commit_rest) ∷ []))).1)
    × ((feed_pages counting
          (at (start 0 0) (start_core 0 0) [] [])
          (first_page ∷ (second_page ∷ []))).0.core
        ≡ (emit_all counting
            (start_core 0 0)
            (insert_rec ∷ ((commit_front ++ commit_rest) ∷ []))).0)
feed_pages-Chain_example =
    feed_pages-Chain counting two_pages (start 0 0) (start_core 0 0) unlimited

feed_pages_bound_example :
    ((feed_pages counting (start 5 0) (first_page ∷ (second_page ∷ []))).0.core.emitted
      ≡ 0 + length (feed_pages counting (start 5 0) (first_page ∷ (second_page ∷ []))).1)
    × (0 + length (feed_pages counting (start 5 0) (first_page ∷ (second_page ∷ []))).1 ≤ 5)
feed_pages_bound_example =
    feed_pages_bound counting (first_page ∷ (second_page ∷ [])) (start 5 0) (omega arith)
      (omega arith)

-- The same commit with the page ending inside its header.
abbrev short_front : Bytes
short_front = le32 34 ++ (le32 7 ++ replicate 8 0)

abbrev long_rest : Bytes
long_rest = 0 ∷ (1 ∷ (replicate 6 0 ++ commit_rest))

abbrev short_page : Bytes
short_page = header 0 0 ++ (insert_rec ++ short_front)

abbrev after_short : Bytes
after_short = header 1 18 ++ (long_rest ++ replicate 6 0)

short_page_run : (feed_pages counting (start 0 0) (short_page ∷ (after_short ∷ []))).1 ≡ []
unfolding feed_pages emit_take u32 u16 add pending_of lookup insert
short_page_run = refl

feed_pages_short_header_example :
    (feed_pages counting
      (at (start 0 0) (start_core 0 0) [] [])
      (short_page ∷ (after_short ∷ []))).1
    ≡ (emit_all counting (start_core 0 0) (insert_rec ∷ [])).1
unfolding u32 u16
feed_pages_short_header_example =
    feed_pages_short_header counting (start 0 0) (start_core 0 0) short_page after_short short_front
      long_rest (insert_rec ∷ []) [] [] unlimited (insert_rec-IsRecord, tt) tt
      (record {
        at_least = omega arith;
        at_most = omega arith;
        length_word = refl;
        no_switch = refl;
      })
      (omega arith) (λ e. cc)
      (record {
        known_magic = refl;
        goes_on = refl;
        rem_len = λ n. absurd (n refl);
        body_is = refl;
      })
      (record { known_magic = refl; goes_on = refl; rem_len = λ n. refl; body_is = refl })
      (ended refl refl (inl (omega arith)))
