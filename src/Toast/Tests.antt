-- ===== src/Toast/Tests.antt =====
-- The theorems on out-of-line values at small inputs.
use db_flashback.Base.{ℕ, zero, suc, ◌≡◌, refl, none, some, List, [], ◌∷◌, arith, get_elem?}
use db_flashback.Toast.History.{Write, after_writes, latest, get_value-after_writes, get_value-gap}
use db_flashback.Toast.Pointer.{toast_pointer, parse_toast_ptr-toast_pointer}
use db_flashback.Toast.{pos, get_value, parse_toast_ptr}

-- Value 9 of relation 5 in two chunks, the second first, beside a chunk of relation 6.
abbrev writes : List Write
writes =
    record {
      toast_oid = 5;
      value_id = 9;
      seq = pos 0;
      chunk = 65 ∷ [];
      oid_small = omega arith;
      id_small = omega arith;
    }
    ∷ (record {
      toast_oid = 6;
      value_id = 9;
      seq = pos 0;
      chunk = 90 ∷ [];
      oid_small = omega arith;
      id_small = omega arith;
    }
        ∷ (record {
          toast_oid = 5;
          value_id = 9;
          seq = pos 1;
          chunk = 66 ∷ [];
          oid_small = omega arith;
          id_small = omega arith;
        }
            ∷ []))

two_chunks : (i : ℕ) → latest 5 9 i writes ≡ get_elem? ((65 ∷ []) ∷ ((66 ∷ []) ∷ [])) i
unfolding latest
two_chunks zero = refl
two_chunks (suc zero) = refl
two_chunks (suc (suc i)) = ground arith

get_value-after_writes_example : get_value (after_writes writes) 5 9 ≡ some (65 ∷ (66 ∷ []))
get_value-after_writes_example =
    get_value-after_writes writes 5 9 (65 ∷ []) ((66 ∷ []) ∷ []) (omega arith) (omega arith)
      two_chunks

-- Only the second chunk of value 9 of relation 5.
abbrev torn : List Write
torn =
    record {
      toast_oid = 5;
      value_id = 9;
      seq = pos 1;
      chunk = 66 ∷ [];
      oid_small = omega arith;
      id_small = omega arith;
    }
    ∷ []

get_value-gap_example : get_value (after_writes torn) 5 9 ≡ none
get_value-gap_example =
    get_value-gap torn 5 9 0 1 (66 ∷ []) (omega arith) (omega arith) (omega arith)
      (unfold latest in refl) (unfold latest in refl)

parse_toast_ptr-toast_pointer_example :
    parse_toast_ptr (toast_pointer 18 300 296 1 70000 16390 (7 ∷ []))
    ≡ some (record {
      raw_size = pos 300;
      ext_size = 296;
      compress = 1;
      value_id = 70000;
      toast_rel = 16390;
    })
parse_toast_ptr-toast_pointer_example =
    parse_toast_ptr-toast_pointer 18 300 296 1 70000 16390 (7 ∷ []) (omega arith) (omega arith)
      (omega arith) (omega arith) (omega arith) (omega arith)
