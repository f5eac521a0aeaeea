-- ===== src/Record/Tests.antt =====
-- A record body of two blocks of one table, split.
use db_flashback.Base.{◌≡◌, refl, none, some, [], ◌∷◌, arith}
use db_flashback.Record.Encode.{Block}
use db_flashback.Record.RoundTrip.{lay_body, blocks_of, split_xlog_body-lay_body}
use db_flashback.Record.{no_rel, split_xlog_body}

-- An image that leaves out the rest of its page, with two bytes of data.
abbrev first_block : Block
first_block = record {
  id = 0;
  flags = 0x30;
  node = some (record { spc = 1663; db = 5; rel = 16384 });
  blk = 7;
  image = some (record { bytes = 1 ∷ (2 ∷ []); hole_off = 2; info = 0x01; hole = 0 });
  block_bytes = 10 ∷ (11 ∷ []);
}

-- The next block of the same table, with one byte.
abbrev second_block : Block
second_block = record {
  id = 1;
  flags = 0xa0;
  node = none;
  blk = 8;
  image = none;
  block_bytes = 12 ∷ [];
}

split_xlog_body-lay_body_example :
    split_xlog_body
      (lay_body (first_block ∷ (second_block ∷ [])) none (some 9) (20 ∷ (21 ∷ (22 ∷ []))) [])
    ≡ some (record {
      blocks = blocks_of no_rel (first_block ∷ (second_block ∷ []));
      main = 20 ∷ (21 ∷ (22 ∷ []));
      top = 9;
    })
split_xlog_body-lay_body_example =
    split_xlog_body-lay_body (first_block ∷ (second_block ∷ [])) none (some 9)
      (20 ∷ (21 ∷ (22 ∷ []))) []
      (
        record {
          id_small = omega arith;
          image_flag = refl;
          data_flag = refl;
          same_flag = refl;
          data_small = omega arith;
          blk_small = omega arith;
          image_small = (omega arith, omega arith, omega arith);
          node_small = (omega arith, omega arith, omega arith);
        },
        (
          record {
            id_small = omega arith;
            image_flag = refl;
            data_flag = refl;
            same_flag = refl;
            data_small = omega arith;
            blk_small = omega arith;
            image_small = tt;
            node_small = tt;
          },
          tt,
        ),
      )
      (omega arith) (omega arith) (omega arith)
