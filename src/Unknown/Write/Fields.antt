-- ===== src/Unknown/Write/Fields.antt =====
-- `Fields.Write` on the bytes of unknown fields makes the calls that hand them over, in order.
use thriftgo.Prelude.{
  ℕ, zero, suc, ◌+◌, ◌<◌, ◌≤◌, ◌≡◌, refl, List, [], ◌∷◌, ◌++◌, arith, append_assoc, length,
  length-append, length-drop, ap, ltb-true, ltb-false,
}
use thriftgo.Prelude.Ints.{ℤ, Fits}
use thriftgo.Go.Outcome.{ok}
use thriftgo.Go.Exec.{Runs, Runs-bind, Runs-wrapping, Runs-pure, Runs-end}
use thriftgo.Unknown.Types.{m16}
use thriftgo.Unknown.Binary.Format.{field_bytes, length-field_bytes}
use thriftgo.Unknown.Binary.Read.{Slice}
use thriftgo.Unknown.Binary.Gets.{read_field_begin-Gets}
use thriftgo.Unknown.Protocol.{Protocol, act-Runs}
use thriftgo.Unknown.Value.{
  Value, type_of, kind, IsValue, encode, Event, calls, type_id-ne-stop, type_id-Fits,
}
use thriftgo.Unknown.Write.{write, write_member, fields_loop, fields_write}
use thriftgo.Unknown.Write.Accepts.{Accepts, Accepts-append}
use thriftgo.Unknown.Write.Cursor.{At, At-start, At-skip}
use thriftgo.Unknown.Write.Steps.{At-offset, closing, header}
use thriftgo.Unknown.Write.Complete.{write-encode}

-- Unknown fields in the order in which they were read, each with its id.
abbrev pub FieldList : Type 0
FieldList = List (ℤ × Value)

abbrev pub AreFields : FieldList → Type 0
AreFields [] = Unit
AreFields ((id, v) ∷ fs) = Fits m16 id × IsValue v × AreFields fs

unfoldable pub encode_fields : FieldList → List ℕ
encode_fields [] = []
encode_fields ((id, v) ∷ fs) = field_bytes (type_of v) id ++ (encode v ++ encode_fields fs)

-- `start` is the call at the start of each struct, as for `calls`.
unfoldable pub calls_fields : List Event → FieldList → List Event
calls_fields start [] = []
calls_fields start ((id, v) ∷ fs) =
    Event.field_begin (type_of v) id ∷ (calls start v ++ (Event.field_end ∷ calls_fields start fs))

pub AreFields-append : (xs ys : FieldList) → AreFields xs → AreFields ys → AreFields (xs ++ ys)
AreFields-append [] ys h k = k
AreFields-append ((id, v) ∷ xs) ys (h, i, j) k = (h, i, AreFields-append xs ys j k)

pub encode_fields-append :
    (xs ys : FieldList) → encode_fields (xs ++ ys) ≡ encode_fields xs ++ encode_fields ys
unfolding encode_fields
encode_fields-append [] ys = refl
encode_fields-append ((id, v) ∷ xs) ys = simp (encode_fields-append xs ys, append_assoc)

module _ {S : Type 0} (oprot : Protocol S) where
  fields_loop-encode :
      (fields : FieldList) (rounds fuel : ℕ) (fs : Slice) (offset : ℕ) (spare : List ℕ) (s s' : S)
      → AreFields fields
      → length (encode_fields fields) < rounds
      → length (encode_fields fields) < fuel
      → At fs offset (encode_fields fields) spare
      → Accepts oprot s (calls_fields [] fields) s'
      → Runs (fields_loop oprot rounds fuel fs offset) s tt s'
  unfolding fields_loop encode_fields calls_fields write_member
  fields_loop-encode fields zero fuel fs offset spare s s' i g h at acc = elim g [ ]
  fields_loop-encode [] (suc r) fuel fs offset spare s s' i g h at acc =
      let end : length fs.bytes ≤ offset =
        omega (arith, at.inside, length-drop offset fs.bytes, ap length at.here) in
      rw (fields_loop, ltb-false offset (length fs.bytes) end) (Runs-end acc (Runs-pure tt s))
  fields_loop-encode ((id, v) ∷ fields) (suc r) fuel fs offset spare s s' (i, j, k) g h at
        (s₁, a, acc) =
      let (m, p, (s₂, b, q)) =
        Accepts-append oprot (calls [] v) (Event.field_end ∷ calls_fields [] fields) s₁ s' acc in
      let head = field_bytes (type_of v) id in
      let at₂ = At-skip head at in
      let at₃ = At-skip (encode v) at₂ in
      let n = length-append head (encode v ++ encode_fields fields) in
      let n' = length-append (encode v) (encode_fields fields) in
      let size = length-field_bytes (type_of v) id in
      let more : offset < length fs.bytes =
        omega (arith, at.inside, length-drop offset fs.bytes, ap length at.here, n, size) in
      rw (fields_loop, ltb-true offset (length fs.bytes) more)
        (Runs-bind _ _
          (header _ (encode v ++ encode_fields fields) s at (
            read_field_begin-Gets (type_of v) id (type_id-Fits (kind v)) i
              (type_id-ne-stop (kind v))))
          (Runs-bind _ _
            (Runs-bind _ _ (Runs-wrapping _ _ (act-Runs _ a)) (
              Runs-bind _ _
                (Runs-wrapping _ _ (
                  At-offset (write oprot fuel (type_of v)) at₂ (record {
                    runs =
                        write-encode oprot v fuel (encode_fields fields) spare s₁ m j
                          (omega (arith, n, n', size)) p;
                  })))
                (closing _ _ _ at₃ b refl)))
            (fields_loop-encode fields r fuel fs (offset + length head + length (encode v)) spare s₂
              s' k (omega (arith, n, n', size)) (omega (arith, n, n', size)) at₃ q)))

  -- On the bytes of valid unknown fields, whatever the capacity behind them holds, Fields.Write
  -- makes the calls of the fields in order and ends without an error, where the protocol accepts
  -- these calls and the fuel is more than the number of the bytes.
  pub fields_write-encode :
      (fields : FieldList) (fuel : ℕ) (spare : List ℕ) (s s' : S)
      → AreFields fields
      → length (encode_fields fields) < fuel
      → Accepts oprot s (calls_fields [] fields) s'
      → fields_write oprot fuel (record { bytes = encode_fields fields; spare = spare }) s
        ≡ (ok tt, s')
  unfolding fields_write
  fields_write-encode fields fuel spare s s' i h acc =
      (fields_loop-encode fields fuel fuel _ 0 spare s s' i h h (At-start _ spare) acc).runs
