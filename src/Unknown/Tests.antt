-- ===== src/Unknown/Tests.antt =====
-- Concrete runs of generator/golang/extension/unknown, against the protocol `tape`.
use thriftgo.Prelude.{ℕ, ◌<◌, ◌≤◌, ◌≡◌, ◌≢◌, refl, true, some, List, [], ◌∷◌, ◌++◌, arith, length}
use thriftgo.Prelude.Ints.{pos, negsuc}
use thriftgo.Go.Outcome.{ok, err, panic, stuck}
use thriftgo.Unknown.Types.{Kind, type_id, foreign, invalid_data_length}
use thriftgo.Unknown.Protocol.{Protocol}
use thriftgo.Unknown.Value.{
  Value, nil, cons, empty, entry, stop, member, type_of, calls, encode, written, announced, IsValue,
  depth,
}
use thriftgo.Unknown.Binary.Format.{
  bool_bytes, byte_bytes, i16_bytes, i32_bytes, i64_bytes, field_bytes, list_bytes, map_bytes,
  string_bytes,
}
use thriftgo.Unknown.Binary.Words.{be_bytes}
use thriftgo.Unknown.Binary.Write.{write_i64, write_field_begin, write_map_begin, write_string}
use thriftgo.Unknown.Binary.Read.{Slice, read_i64, read_field_begin, read_map_begin, read_string}
use thriftgo.Unknown.Binary.RoundTrip.{
  ReadsBack, read_i64-write_i64, read_field_begin-write_field_begin, read_map_begin-write_map_begin,
  read_string-write_string,
}
use thriftgo.Unknown.Binary.Overrun.{announcing, read_string_sizes}
use thriftgo.Unknown.Write.{write, fields_write}
use thriftgo.Unknown.Write.Complete.{write-encode}
use thriftgo.Unknown.Write.Fields.{FieldList, encode_fields, calls_fields, fields_write-encode}
use thriftgo.Unknown.Write.Ends.{write_total, fields_write_total}
use thriftgo.Unknown.Read.{read, fields_append, max_nesting_depth}
use thriftgo.Unknown.Read.Appends.{Appends}
use thriftgo.Unknown.Read.Fields.{fields_append-encode, fields_write-fields_append}
use thriftgo.Unknown.Read.Errors.{read-i32_error_lost}
use thriftgo.Unknown.Tape.{Tape, tape, tape-Accepts, tape-Supplies}

-- {1: -2, 2: ["hi"], 3: {7: true}} as a struct.
abbrev sample : Value
sample = Value.struct (
    member (pos 1) (Value.i32 (negsuc 1)) (
      member (pos 2) (Value.list (type_id Kind.string) (cons (Value.string (104 ∷ 105 ∷ [])) nil)) (
        member (pos 3)
          (Value.map (type_id Kind.i16) (type_id Kind.bool)
            (entry (Value.i16 (pos 7)) (Value.bool true) empty))
          stop)))

abbrev kept : FieldList
kept = (pos 9, Value.i64 (pos 5)) ∷ []

read_i64-write_i64_example :
    ReadsBack
      (write_i64 (negsuc 1))
      read_i64
      (negsuc 1)
      8
      (0 ∷ 0 ∷ 0 ∷ 0 ∷ 0 ∷ 0 ∷ 0 ∷ 0 ∷ 9 ∷ [])
      []
read_i64-write_i64_example =
    read_i64-write_i64 (negsuc 1) (0 ∷ 0 ∷ 0 ∷ 0 ∷ 0 ∷ 0 ∷ 0 ∷ 0 ∷ 9 ∷ []) [] (omega arith)
      (omega arith)

read_field_begin-write_field_begin_example :
    ReadsBack
      (write_field_begin "f" (pos 8) (negsuc 0))
      read_field_begin
      (pos 8, negsuc 0)
      3
      (0 ∷ 0 ∷ 0 ∷ [])
      []
read_field_begin-write_field_begin_example =
    read_field_begin-write_field_begin "f" (pos 8) (negsuc 0) (0 ∷ 0 ∷ 0 ∷ []) [] (omega arith)
      (omega arith) refl (omega arith)

read_map_begin-write_map_begin_example :
    ReadsBack
      (write_map_begin (pos 8) (pos 11) (pos 300))
      read_map_begin
      (pos 8, pos 11, pos 300)
      6
      (0 ∷ 0 ∷ 0 ∷ 0 ∷ 0 ∷ 0 ∷ 0 ∷ [])
      []
read_map_begin-write_map_begin_example =
    read_map_begin-write_map_begin (pos 8) (pos 11) 300 (0 ∷ 0 ∷ 0 ∷ 0 ∷ 0 ∷ 0 ∷ 0 ∷ []) []
      (omega arith) (omega arith) (omega arith) (omega arith)

read_string-write_string_example :
    ReadsBack
      (write_string (104 ∷ 105 ∷ []))
      read_string
      (104 ∷ 105 ∷ [])
      6
      (0 ∷ 0 ∷ 0 ∷ 0 ∷ 0 ∷ 0 ∷ 1 ∷ [])
      []
read_string-write_string_example =
    read_string-write_string (104 ∷ 105 ∷ []) (0 ∷ 0 ∷ 0 ∷ 0 ∷ 0 ∷ 0 ∷ 1 ∷ []) [] (omega arith)
      (omega arith)

-- Five bytes are announced, and three follow: the first two tests let the size pass, and the read
-- panics or not by what the slice has spare.
read_string_sizes_example :
    (7 < 5 → read_string (announcing 5 (1 ∷ 2 ∷ 3 ∷ []) []) ≡ err invalid_data_length)
    × (5 ≤ 3 → read_string (announcing 5 (1 ∷ 2 ∷ 3 ∷ []) []) ≡ ok (1 ∷ 2 ∷ 3 ∷ [], 9))
    × (5 ≤ 7 → 3 < 5 → read_string (announcing 5 (1 ∷ 2 ∷ 3 ∷ []) []) ≡ panic)
    × (5 ≤ 7 → 5 ≤ 3 → read_string (announcing 5 (1 ∷ 2 ∷ 3 ∷ []) []) ≡ ok (1 ∷ 2 ∷ 3 ∷ [], 9))
read_string_sizes_example = read_string_sizes 5 (1 ∷ 2 ∷ 3 ∷ []) [] (omega arith)

sample-IsValue : IsValue sample
unfolding IsValue
sample-IsValue = (
  omega arith,
  omega arith,
  (
    omega arith,
    (omega arith, omega arith, (refl, omega arith, tt)),
    (omega arith, (omega arith, omega arith, omega arith, (refl, refl, omega arith, tt, tt)), tt),
  ),
)

write-encode_example :
    write tape 100 (type_of sample) (record { bytes = encode sample ++ 9 ∷ []; spare = [] }) []
    ≡ (ok (length (encode sample)), written sample)
unfolding encode bool_bytes byte_bytes i16_bytes i32_bytes field_bytes list_bytes map_bytes
    string_bytes be_bytes
write-encode_example =
    write-encode tape sample 100 (9 ∷ []) [] [] (written sample) sample-IsValue (omega arith)
      (tape-Accepts (written sample) [])

write_total_example :
    (write tape 5 (pos 12) (record { bytes = 11 ∷ 0 ∷ 1 ∷ []; spare = [] }) []).0 ≢ stuck
write_total_example =
    write_total tape 5 (pos 12) (record { bytes = 11 ∷ 0 ∷ 1 ∷ []; spare = [] }) [] (omega arith)

fields_write_total_example :
    (fields_write tape 4 (record { bytes = 11 ∷ 0 ∷ 1 ∷ []; spare = [] }) []).0 ≢ stuck
fields_write_total_example =
    fields_write_total tape 4 (record { bytes = 11 ∷ 0 ∷ 1 ∷ []; spare = [] }) [] (omega arith)

fields_write-encode_example :
    fields_write tape 100 (record { bytes = encode_fields kept; spare = 7 ∷ [] }) []
    ≡ (ok tt, calls_fields [] kept)
unfolding encode i64_bytes byte_bytes i16_bytes field_bytes be_bytes encode_fields IsValue
fields_write-encode_example =
    fields_write-encode tape kept 100 (7 ∷ []) [] (calls_fields [] kept)
      (omega arith, omega arith, tt) (omega arith) (tape-Accepts (calls_fields [] kept) [])

fields_append-encode_example :
    (spare : List ℕ) × (fields_append tape 100 max_nesting_depth "f"
        (type_of sample)
        (pos 4)
        (record { bytes = encode_fields kept; spare = [] })
        (announced sample)
      ≡ (
        ok tt,
        record {
          bytes = encode_fields kept ++ (field_bytes (type_of sample) (pos 4) ++ encode sample);
          spare = spare;
        },
        [],
      ))
unfolding encode bool_bytes byte_bytes i16_bytes i32_bytes field_bytes list_bytes map_bytes
    string_bytes be_bytes depth calls
fields_append-encode_example =
    fields_append-encode tape sample (pos 4) "f" 100 max_nesting_depth
      (record { bytes = encode_fields kept; spare = [] }) (announced sample) [] sample-IsValue
      (omega arith) (omega arith) (tape-Supplies (announced sample) [])

fields_write-fields_append_example :
    (after : Slice) × (fields_append tape 100 max_nesting_depth "f"
        (type_of sample)
        (pos 4)
        (record { bytes = encode_fields kept; spare = [] })
        (announced sample)
      ≡ (ok tt, after, []))
    × (fields_write tape 100 after [] ≡ (ok tt, calls_fields [] (kept ++ (pos 4, sample) ∷ [])))
unfolding encode bool_bytes byte_bytes i16_bytes i32_bytes i64_bytes field_bytes list_bytes
    map_bytes string_bytes be_bytes depth encode_fields IsValue calls
fields_write-fields_append_example =
    fields_write-fields_append tape tape kept sample (pos 4) "f" 100 max_nesting_depth []
      (announced sample) [] [] (calls_fields [] (kept ++ (pos 4, sample) ∷ []))
      (omega arith, omega arith, tt) sample-IsValue (omega arith) (omega arith) (omega arith)
      (tape-Supplies (announced sample) [])
      (tape-Accepts (calls_fields [] (kept ++ (pos 4, sample) ∷ [])) [])

-- A protocol whose ReadI32 fails.
abbrev failing : Protocol Tape
failing = record tape { read_i32 = λ s. (pos 0, some (foreign 2), s) }

read-i32_error_lost_example :
    Appends (read failing 1 1 (type_id Kind.i32)) [] (i32_bytes (pos 0)) []
read-i32_error_lost_example = read-i32_error_lost failing 1 0 (pos 0) (foreign 2) [] [] refl
