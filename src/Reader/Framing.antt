-- ===== src/Reader/Framing.antt =====
-- `feedFile` and the walk over the segments of internal/service/flashback_walparse.go: pages to
-- records.
use db_flashback.Base.{
  ℕ, zero, suc, ◌+◌, ◌-◌, ◌*◌, min, Bool, true, false, not, ◌&&◌, ◌||◌, List, [], ◌∷◌, ◌++◌, ltb,
  leb, ◌==◌, if◌then◌else◌, length, take, drop,
}
use db_flashback.Bytes.{Bytes, u16, u32, has}
use db_flashback.Change.{Change}
use db_flashback.Reader.{
  Decoder, Core, Reader, max_align, is_xlog_switch, looks_like_wal_magic, emit_take,
}

-- Where a piece of the input leaves the reader: its state, the changes handed out, and whether
-- the file is done.
pub record Outcome (S : Type 0) : Type 0 where
  pub reader : Reader S
  pub changes : List Change
  pub stop : Bool

module _ {S : Type 0} where
  -- More changes in front.
  abbrev pub after_changes : List Change → Outcome S → Outcome S
  after_changes cs o = record o { changes = cs ++ o.changes }

  abbrev pub done : Reader S → Outcome S
  done r = record { reader = r; changes = []; stop = false }

  abbrev pub drop_cont : Reader S → Reader S
  drop_cont r = if r.cont_need == 0 then r else record r { cont = []; cont_need = 0 }

  abbrev pub count_page : Reader S → Bytes → Reader S
  count_page r page = record r {
    pages = r.pages + 1;
    magic = (if r.magic == 0 && not (u16 page 0 == 0) then u16 page 0 else r.magic);
  }

  -- `p.maxChanges > 0 && p.emitted >= p.maxChanges`
  abbrev pub is_full : Core S → Bool
  is_full p = not (p.max_changes == 0) && leb p.max_changes p.emitted

abbrev pub page_body : Bytes → Bytes
page_body page = drop (if has (u16 page 2) 0x0002 then 40 else 24) page

module _ {S : Type 0} (dec : Decoder S) where
  -- `for len(body) >= flashbackSizeOfXLogRecord`. Each round takes at least 24 bytes.
  unfoldable pub walk : ℕ → Reader S → Bytes → Outcome S
  walk zero r body = done r
  walk (suc fuel) r body =
      let tot = u32 body 0 in
      let aligned = max_align tot in
      let rec = take tot body in
      let (core, out) = emit_take dec r.core rec in
      let r' = record r { core = core } in
      let more = after_changes out (walk fuel r' (drop aligned body)) in
      if ltb (length body) 24
      then done r
      else if ltb tot 24 || ltb (1024 * 1024) tot
      then done r
      else if ltb (length body) tot
      then done (record r { cont = body; cont_need = tot })
      else if is_xlog_switch rec
      then record { reader = r'; changes = out; stop = true }
      else if ltb (length body) aligned
      then record {
        reader = record r' { pad_skip = aligned - length body };
        changes = out;
        stop = false;
      }
      else more

  abbrev pub walk_body : Reader S → Bytes → Outcome S
  walk_body r body = walk (length body) r body

  -- Behind the rest of a record that began on an earlier page.
  unfoldable pub skip_rest : ℕ → Reader S → Bytes → Outcome S
  unfolding walk
  skip_rest rem r body =
      let skip = max_align rem in
      if ltb (length body) rem
      then done r
      else if ltb (length body) skip
      then done (record r { pad_skip = skip - length body })
      else walk_body (record r { pad_skip = 0 }) (drop skip body)

  -- The record that began on an earlier page is whole.
  unfoldable pub complete : ℕ → Reader S → Bytes → Outcome S
  unfolding skip_rest
  complete rem r body =
      let rec = take r.cont_need r.cont in
      let (core, out) = emit_take dec r.core rec in
      let r' = record r { core = core; cont = []; cont_need = 0 } in
      if is_xlog_switch rec
      then record { reader = r'; changes = out; stop = true }
      else after_changes out (skip_rest rem r' body)

  -- `if info&xlpFirstContRecord != 0`
  unfoldable pub continue_record : ℕ → Reader S → Bytes → Outcome S
  unfolding complete
  continue_record rem r body =
      let n = min rem (length body) in
      let r' = record r { cont = r.cont ++ take n body } in
      if r.cont_need == 0 || n == 0
      then skip_rest rem r body
      else if leb r.cont_need (length r'.cont)
      then complete rem r' body
      else skip_rest rem r' body

  -- The `else` branch: no record goes on.
  unfoldable pub fresh_page : Reader S → Bytes → Outcome S
  unfolding walk
  fresh_page r body =
      if r.pad_skip == 0
      then walk_body (drop_cont r) body
      else if leb (length body) r.pad_skip
      then done (record r { pad_skip = r.pad_skip - length body })
      else walk_body (drop_cont (record r { pad_skip = 0 })) (drop r.pad_skip body)

  -- One page that has been read.
  unfoldable pub feed_page : Reader S → Bytes → Outcome S
  unfolding continue_record fresh_page
  feed_page r page =
      let r' = count_page r page in
      if not (looks_like_wal_magic (u16 page 0))
      then done (record r' { magic_skip = r'.magic_skip + 1 })
      else if has (u16 page 2) 0x0001
      then continue_record (u32 page 16) r' (page_body page)
      else fresh_page r' (page_body page)

  -- The `for` of `feedFile` over the pages of a file.
  unfoldable pub feed_pages : Reader S → List Bytes → Reader S × List Change
  unfolding feed_page
  feed_pages r [] =
      if r.core.past_end
      then (r, [])
      else if is_full r.core
      then (record r { core = record (r.core) { change_trunc = true } }, [])
      else (r, [])
  feed_pages r (page ∷ pages) =
      let o = feed_page r page in
      let (r', out) = feed_pages o.reader pages in
      if r.core.past_end
      then (r, [])
      else if is_full r.core
      then (record r { core = record (r.core) { change_trunc = true } }, [])
      else if o.stop
      then (o.reader, o.changes)
      else (r', o.changes ++ out)
