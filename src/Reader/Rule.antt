-- ===== src/Reader/Rule.antt =====
-- One induction for the whole of `feedFile`: what holds of each record handled holds of the pages.
use db_flashback.Base.{
  ℕ, zero, suc, ◌*◌, min, inl, inr, Bool, true, false, not, ◌||◌, List, [], ◌∷◌, ◌++◌, ltb, leb,
  ◌==◌, if◌then◌else◌, Bool-cases, length, take, drop,
}
use db_flashback.Bytes.{Bytes, u16, u32, has}
use db_flashback.Change.{Change}
use db_flashback.Reader.Framing.{
  Outcome, walk, walk_body, skip_rest, complete, continue_record, drop_cont, fresh_page, count_page,
  page_body, feed_page, is_full, feed_pages,
}
use db_flashback.Reader.{
  Decoder, Core, Reader, max_align, is_xlog_switch, looks_like_wal_magic, emit_take,
}

-- A chain of three tests, each of whose results is as wanted.
if-if-if {ℓ κ} :
    {A : Type ℓ} (P : A → Type κ) (x y z : Bool) {a b c d : A}
    → P a
    → P b
    → P c
    → P d
    → P (if x then a else if y then b else if z then c else d)
if-if-if P true y z ha hb hc hd = ha
if-if-if P false true z ha hb hc hd = hb
if-if-if P false false true ha hb hc hd = hc
if-if-if P false false false ha hb hc hd = hd

-- A relation between the state before, the changes handed out and the state after, that holds of
-- each record and composes.
pub record IsRule {S : Type 0} (dec : Decoder S) (R : Core S → List Change → Core S → Type 0)
    : Type 0 where
  pub none_out : (p : Core S) → R p [] p
  pub truncated : (p : Core S) → R p [] (record p { change_trunc = true })
  pub one : (p : Core S) (rec : Bytes) → R p (emit_take dec p rec).1 (emit_take dec p rec).0
  pub then_on : (p q s : Core S) (a b : List Change) → R p a q → R q b s → R p (a ++ b) s

module _ {S : Type 0} (dec : Decoder S) (R : Core S → List Change → Core S → Type 0)
    (h : IsRule dec R) where
  abbrev Obeys : Core S → Outcome S → Type 0
  Obeys p o = R p o.changes o.reader.core

  walk-Obeys : (fuel : ℕ) (r : Reader S) (body : Bytes) → Obeys r.core (walk dec fuel r body)
  unfolding walk
  walk-Obeys zero r body = h.none_out r.core
  walk-Obeys (suc fuel) r body =
      let tot = u32 body 0 in
      let rec = take tot body in
      let core = (emit_take dec r.core rec).0 in
      let out = (emit_take dec r.core rec).1 in
      let step = h.one r.core rec in
      let more =
        h.then_on r.core core _ out _ step
          (walk-Obeys fuel (record r { core = core }) (drop (max_align tot) body)) in
      elim (Bool-cases (ltb (length body) 24)) [
        | inl a ↦ rw a (h.none_out r.core)
        | inr a ↦ elim (Bool-cases (ltb tot 24 || ltb (1024 * 1024) tot)) [
          | inl b ↦ rw (a, b) (h.none_out r.core)
          | inr b ↦ elim (Bool-cases (ltb (length body) tot)) [
            | inl c ↦ rw (a, b, c) (h.none_out r.core)
            | inr c ↦ elim (Bool-cases (is_xlog_switch rec)) [
              | inl d ↦ rw (a, b, c, d) step
              | inr d ↦ elim (Bool-cases (ltb (length body) (max_align tot))) [
                | inl e ↦ rw (a, b, c, d, e) step
                | inr e ↦ rw (a, b, c, d, e) more
              ]
            ]
          ]
        ]
      ]

  skip_rest-Obeys :
      (rem : ℕ) (r : Reader S) (body : Bytes) → Obeys r.core (skip_rest dec rem r body)
  unfolding skip_rest
  skip_rest-Obeys rem r body = elim (Bool-cases (ltb (length body) rem)) [
    | inl a ↦ rw a (h.none_out r.core)
    | inr a ↦ elim (Bool-cases (ltb (length body) (max_align rem))) [
      | inl b ↦ rw (a, b) (h.none_out r.core)
      | inr b ↦ rw (a, b) (walk-Obeys _ (record r { pad_skip = 0 }) (drop (max_align rem) body))
    ]
  ]

  complete-Obeys : (rem : ℕ) (r : Reader S) (body : Bytes) → Obeys r.core (complete dec rem r body)
  unfolding complete
  complete-Obeys rem r body =
      let rec = take r.cont_need r.cont in
      let core = (emit_take dec r.core rec).0 in
      let r' = record r { core = core; cont = []; cont_need = 0 } in
      elim (Bool-cases (is_xlog_switch rec)) [
        | inl a ↦ rw a (h.one r.core rec)
        | inr a ↦
            rw a (h.then_on r.core core _ _ _ (h.one r.core rec) (skip_rest-Obeys rem r' body))
      ]

  continue_record-Obeys :
      (rem : ℕ) (r : Reader S) (body : Bytes) → Obeys r.core (continue_record dec rem r body)
  unfolding continue_record
  continue_record-Obeys rem r body =
      let n = min rem (length body) in
      let r' = record r { cont = r.cont ++ take n body } in
      elim (Bool-cases (r.cont_need == 0 || n == 0)) [
        | inl a ↦ rw a (skip_rest-Obeys rem r body)
        | inr a ↦ elim (Bool-cases (leb r.cont_need (length r'.cont))) [
          | inl b ↦ rw (a, b) (complete-Obeys rem r' body)
          | inr b ↦ rw (a, b) (skip_rest-Obeys rem r' body)
        ]
      ]

  drop_cont-walk : (r : Reader S) (body : Bytes) → Obeys r.core (walk_body dec (drop_cont r) body)
  drop_cont-walk r body = elim (Bool-cases (r.cont_need == 0)) [
    | inl a ↦ rw a (walk-Obeys _ r body)
    | inr a ↦ rw a (walk-Obeys _ (record r { cont = []; cont_need = 0 }) body)
  ]

  fresh_page-Obeys : (r : Reader S) (body : Bytes) → Obeys r.core (fresh_page dec r body)
  unfolding fresh_page
  fresh_page-Obeys r body = elim (Bool-cases (r.pad_skip == 0)) [
    | inl a ↦ rw a (drop_cont-walk r body)
    | inr a ↦ elim (Bool-cases (leb (length body) r.pad_skip)) [
      | inl b ↦ rw (a, b) (h.none_out r.core)
      | inr b ↦ rw (a, b) (drop_cont-walk (record r { pad_skip = 0 }) (drop r.pad_skip body))
    ]
  ]

  feed_page-Obeys : (r : Reader S) (page : Bytes) → Obeys r.core (feed_page dec r page)
  unfolding feed_page
  feed_page-Obeys r page = elim (Bool-cases (not (looks_like_wal_magic (u16 page 0)))) [
    | inl a ↦ rw a (h.none_out r.core)
    | inr a ↦ elim (Bool-cases (has (u16 page 2) 0x0001)) [
      | inl b ↦ rw (a, b) (continue_record-Obeys (u32 page 16) (count_page r page) (page_body page))
      | inr b ↦ rw (a, b) (fresh_page-Obeys (count_page r page) (page_body page))
    ]
  ]

  pub feed_pages-Obeys :
      (pages : List Bytes) (r : Reader S)
      → R r.core (feed_pages dec r pages).1 (feed_pages dec r pages).0.core
  unfolding feed_pages
  feed_pages-Obeys [] r =
      if-if-if {A = Reader S × List Change} (λ t. R r.core t.1 t.0.core) r.core.past_end
        (is_full r.core) true {d = (r, [])} (h.none_out r.core) (h.truncated r.core)
        (h.none_out r.core) (h.none_out r.core)
  feed_pages-Obeys (page ∷ pages) r =
      let o = feed_page dec r page in
      let step = feed_page-Obeys r page in
      let more =
        h.then_on r.core o.reader.core _ o.changes _ step (feed_pages-Obeys pages o.reader) in
      if-if-if {A = Reader S × List Change} (λ t. R r.core t.1 t.0.core) r.core.past_end
        (is_full r.core) o.stop (h.none_out r.core) (h.truncated r.core) step more
