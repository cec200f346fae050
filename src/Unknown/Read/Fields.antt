-- ===== src/Unknown/Read/Fields.antt =====
-- `Fields.Append` keeps a field, and `Fields.Write` gives it back.
use thriftgo.Prelude.{
  ℕ, ◌<◌, ◌≤◌, ◌≡◌, refl, sym, ap, List, [], ◌∷◌, ◌++◌, arith, append-nil, length, drop,
  length-append, take-length-append, String,
}
use thriftgo.Prelude.Ints.{ℤ, Fits}
use thriftgo.Go.Outcome.{ok}
use thriftgo.Unknown.Types.{m16}
use thriftgo.Unknown.Binary.Format.{field_bytes, length-field_bytes}
use thriftgo.Unknown.Binary.Puts.{write_field_begin-Puts}
use thriftgo.Unknown.Binary.Read.{Slice}
use thriftgo.Unknown.Protocol.{Protocol}
use thriftgo.Unknown.Value.{Value, type_of, kind, IsValue, encode, depth, announced, type_id-Fits}
use thriftgo.Unknown.Write.{fields_write}
use thriftgo.Unknown.Write.Accepts.{Accepts}
use thriftgo.Unknown.Write.Fields.{
  FieldList, AreFields, AreFields-append, encode_fields-append, encode_fields, calls_fields,
  fields_write-encode,
}
use thriftgo.Unknown.Read.{Cursor, fields_append}
use thriftgo.Unknown.Read.Supplies.{Supplies}
use thriftgo.Unknown.Read.Appends.{Appends-then, advance-Appends}
use thriftgo.Unknown.Read.Complete.{read-Appends}

module _ {S : Type 0} (iprot : Protocol S) where
  -- Where the protocol supplies a valid value that is nested no deeper than the limit, Append
  -- keeps what the slice held, puts the header of the field and the bytes of the value behind it,
  -- and ends without an error, with more fuel than the value has bytes.
  pub fields_append-encode :
      (v : Value) (id : ℤ) (name : String) (fuel max_depth : ℕ) (fs : Slice) (s s' : S)
      → IsValue v
      → length (encode v) < fuel
      → depth v ≤ max_depth
      → Supplies iprot s (announced v) s'
      → (spare : List ℕ) × (fields_append iprot fuel max_depth name (type_of v) id fs s ≡ (
        ok tt,
        record { bytes = fs.bytes ++ (field_bytes (type_of v) id ++ encode v); spare = spare },
        s',
      ))
  unfolding fields_append
  fields_append-encode v id name fuel max_depth fs s s' i h k acc =
      let step =
        Appends-then
          (advance-Appends s (sym (length-field_bytes (type_of v) id))
            (write_field_begin-Puts name (type_of v) id (type_id-Fits (kind v))))
          (read-Appends iprot v fuel max_depth s s' i h k acc) in
      let begin : Cursor S = record {
        buf = fs.bytes ++ fs.spare;
        offset = length fs.bytes;
        prot = s;
      } in
      let (c, r, g) = step.at begin (omega (arith, length-append fs.bytes fs.spare)) refl in
      (drop c.offset c.buf, rw (r, g.text, g.prot) (rw (take-length-append fs.bytes fs.spare)))

-- The bytes of the fields that were kept before, and of one more.
encode_fields-one_more :
    (fields : FieldList) (id : ℤ) (v : Value)
    → encode_fields (fields ++ (id, v) ∷ [])
      ≡ encode_fields fields ++ (field_bytes (type_of v) id ++ encode v)
unfolding encode_fields
encode_fields-one_more fields id v = simp (encode_fields-append, append-nil)

module _ {S T : Type 0} (iprot : Protocol S) (oprot : Protocol T) where
  -- A field with an int16 id and a valid value, nested no deeper than the limit, that Append takes
  -- from one protocol behind the bytes of valid fields, Write gives to another: where that one
  -- accepts the calls of all these fields, the new one last, neither ends with an error and Write
  -- makes these calls in order. The fuel is more than the number of all the bytes.
  pub fields_write-fields_append :
      (fields : FieldList) (v : Value) (id : ℤ) (name : String) (fuel max_depth : ℕ)
      (spare : List ℕ) (s s' : S) (t t' : T)
      → AreFields fields
      → IsValue v
      → Fits m16 id
      → length (encode_fields (fields ++ (id, v) ∷ [])) < fuel
      → depth v ≤ max_depth
      → Supplies iprot s (announced v) s'
      → Accepts oprot t (calls_fields [] (fields ++ (id, v) ∷ [])) t'
      → (kept : Slice) × (fields_append iprot fuel max_depth name
            (type_of v)
            id
            (record { bytes = encode_fields fields; spare = spare })
            s
          ≡ (ok tt, kept, s'))
        × (fields_write oprot fuel kept t ≡ (ok tt, t'))
  fields_write-fields_append fields v id name fuel max_depth spare s s' t t' i j k h d acc acc' =
      let all = encode_fields-one_more fields id v in
      let n = ap length all in
      let short : length (encode v) < fuel = omega (
        arith,
        n,
        length-append (encode_fields fields) (field_bytes (type_of v) id ++ encode v),
        length-append (field_bytes (type_of v) id) (encode v),
      ) in
      let (rest, r) =
        fields_append-encode iprot v id name fuel max_depth
          (record { bytes = encode_fields fields; spare = spare }) s s' j short d acc in
      (
        record {
          bytes = encode_fields fields ++ (field_bytes (type_of v) id ++ encode v);
          spare = rest;
        },
        r,
        rw (← all) (
            fields_write-encode oprot (fields ++ (id, v) ∷ []) fuel rest t t'
              (AreFields-append fields ((id, v) ∷ []) i (k, j, tt)) h acc'),
      )
