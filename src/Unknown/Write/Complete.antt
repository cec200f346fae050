-- ===== src/Unknown/Write/Complete.antt =====
-- `write` on the bytes of a value makes the calls that hand the value over, and counts its bytes.
use thriftgo.Prelude.{
  ℕ, zero, suc, ◌+◌, ◌<◌, ◌≡◌, refl, sym, ap, none, List, [], ◌∷◌, ◌++◌, arith, append_assoc, ◌∙◌,
  length, length-append, String,
}
use native.Mathlib.Nat.{add-zero}
use Prim.Native.Nat.add
use thriftgo.Prelude.Ints.{ℤ}
use thriftgo.Go.Outcome.{ok}
use thriftgo.Go.Exec.{Runs, Runs-pure, Runs-bind, Runs-wrapping, Runs-result, Runs-end}
use thriftgo.Unknown.Types.{t_stop}
use thriftgo.Unknown.Binary.Format.{
  field_bytes, list_bytes, map_bytes, length-byte_bytes, length-field_bytes, length-list_bytes,
  length-map_bytes,
}
use thriftgo.Unknown.Binary.Read.{
  Slice, read_byte, read_i16, read_i32, read_i64, read_double, read_bool, read_string,
  read_list_begin, read_set_begin, read_map_begin,
}
use thriftgo.Unknown.Binary.Gets.{
  read_byte-Gets, read_i16-Gets, read_i32-Gets, read_i64-Gets, read_double-Gets, read_bool-Gets,
  read_string-Gets, read_field_begin-Gets, read_stop-Gets, read_list_begin-Gets,
  read_set_begin-Gets, read_map_begin-Gets,
}
use thriftgo.Unknown.Protocol.{Protocol, act-Runs}
use thriftgo.Unknown.Value.{
  Value, Values, nil, cons, Entries, empty, entry, Members, stop, member, type_of, kind,
  count_values, count_entries, IsValue, AreValues, AreEntries, AreMembers, encode, encode_values,
  encode_entries, encode_members, Event, calls, calls_values, calls_entries, calls_members, written,
  kind_of-type_id, type_id-ne-stop, type_id-Fits,
}
use thriftgo.Unknown.Write.{
  write, write_kind, write_elems, write_entries, write_members, write_member,
}
use thriftgo.Unknown.Write.Accepts.{Accepts, Accepts-append}
use thriftgo.Unknown.Write.Cursor.{At, At-start, At-skip}
use thriftgo.Unknown.Write.Steps.{
  At-offset, write_scalar-Runs, lift-Runs, closing, header, At-items,
}

module _ {S : Type 0} (oprot : Protocol S) where
  write-write_kind :
      (v : Value) (t : ℤ) (f : ℕ) (fs : Slice) {s s' : S} {n : ℕ}
      → type_of v ≡ t
      → Runs (write_kind oprot f (write oprot f) (kind v) fs) s n s'
      → Runs (write oprot (suc f) t fs) s n s'
  unfolding write
  write-write_kind v t f fs e r =
      rw (← e) (record { runs = rw (write, kind_of-type_id (kind v)) r.runs })

  mutual
    unfolding write_kind write_elems write_entries write_members write_member encode calls IsValue

    kind-encode :
        (v : Value) (f : ℕ) (rest spare : List ℕ) (s s' : S)
        → IsValue v
        → length (encode v) < suc f
        → Accepts oprot s (written v) s'
        → Runs
            (write_kind oprot f
              (write oprot f)
              (kind v)
              (record { bytes = encode v ++ rest; spare = spare }))
            s
            (length (encode v))
            s'
    kind-encode (Value.bool b) f rest spare s s' i h (s₁, a, e) =
        write_scalar-Runs read_bool oprot.write_bool rest spare (read_bool-Gets b)
          (a ∙ ap (λ x. (none, x)) e)
    kind-encode (Value.byte z) f rest spare s s' i h (s₁, a, e) =
        write_scalar-Runs read_byte oprot.write_byte rest spare (read_byte-Gets z i)
          (a ∙ ap (λ x. (none, x)) e)
    kind-encode (Value.i16 z) f rest spare s s' i h (s₁, a, e) =
        write_scalar-Runs read_i16 oprot.write_i16 rest spare (read_i16-Gets z i)
          (a ∙ ap (λ x. (none, x)) e)
    kind-encode (Value.i32 z) f rest spare s s' i h (s₁, a, e) =
        write_scalar-Runs read_i32 oprot.write_i32 rest spare (read_i32-Gets z i)
          (a ∙ ap (λ x. (none, x)) e)
    kind-encode (Value.i64 z) f rest spare s s' i h (s₁, a, e) =
        write_scalar-Runs read_i64 oprot.write_i64 rest spare (read_i64-Gets z i)
          (a ∙ ap (λ x. (none, x)) e)
    kind-encode (Value.double z) f rest spare s s' i h (s₁, a, e) =
        write_scalar-Runs read_double oprot.write_double rest spare (read_double-Gets z i)
          (a ∙ ap (λ x. (none, x)) e)
    kind-encode (Value.string z) f rest spare s s' i h (s₁, a, e) =
        write_scalar-Runs read_string oprot.write_string rest spare (read_string-Gets z i)
          (a ∙ ap (λ x. (none, x)) e)
    kind-encode (Value.set t vs) f rest spare s s' (i, j, k) h (s₁, a, b) =
        let head = list_bytes t (count_values vs) in
        let (m, p, (s₂, q, e)) =
          Accepts-append oprot (calls_values [] vs) (Event.set_end ∷ []) s₁ s' b in
        let n = length-append head (encode_values vs) in
        let size = length-list_bytes t (count_values vs) in
        let at = At-items head (encode_values vs) rest spare in
        Runs-result (sym n) (
          rw append_assoc (
            Runs-bind _ _
              (lift-Runs read_set_begin _ (encode_values vs ++ rest) spare s
                (read_set_begin-Gets t (count_values vs) i j))
              (Runs-bind _ _ (Runs-wrapping _ _ (act-Runs _ a)) (
                Runs-bind _ _
                  (elems-encode vs _ t f _ (length head) rest spare s₁ m k (omega (arith, n, size))
                    at p)
                  (closing _ _ _ (At-skip (encode_values vs) at) q e)))))
    kind-encode (Value.list t vs) f rest spare s s' (i, j, k) h (s₁, a, b) =
        let head = list_bytes t (count_values vs) in
        let (m, p, (s₂, q, e)) =
          Accepts-append oprot (calls_values [] vs) (Event.list_end ∷ []) s₁ s' b in
        let n = length-append head (encode_values vs) in
        let size = length-list_bytes t (count_values vs) in
        let at = At-items head (encode_values vs) rest spare in
        Runs-result (sym n) (
          rw append_assoc (
            Runs-bind _ _
              (lift-Runs read_list_begin _ (encode_values vs ++ rest) spare s
                (read_list_begin-Gets t (count_values vs) i j))
              (Runs-bind _ _ (act-Runs _ a) (
                Runs-bind _ _
                  (elems-encode vs _ t f _ (length head) rest spare s₁ m k (omega (arith, n, size))
                    at p)
                  (closing _ _ _ (At-skip (encode_values vs) at) q e)))))
    kind-encode (Value.map x y es) f rest spare s s' (i, j, k, l) h (s₁, a, b) =
        let head = map_bytes x y (count_entries es) in
        let (m, p, (s₂, q, e)) =
          Accepts-append oprot (calls_entries [] es) (Event.map_end ∷ []) s₁ s' b in
        let n = length-append head (encode_entries es) in
        let size = length-map_bytes x y (count_entries es) in
        let at = At-items head (encode_entries es) rest spare in
        Runs-result (sym n) (
          rw append_assoc (
            Runs-bind _ _
              (lift-Runs read_map_begin _ (encode_entries es ++ rest) spare s
                (read_map_begin-Gets x y (count_entries es) i j k))
              (Runs-bind _ _ (Runs-wrapping _ _ (act-Runs _ a)) (
                Runs-bind _ _
                  (entries-encode es x y f _ (length head) rest spare s₁ m l
                    (omega (arith, n, size)) at p)
                  (closing _ _ _ (At-skip (encode_entries es) at) q e)))))
    kind-encode (Value.struct ms) f rest spare s s' i h b =
        let (m, p, (s₂, q, e)) =
          Accepts-append oprot (calls_members [] ms) (Event.struct_end ∷ []) s s' b in
        let at = At-start (encode_members ms ++ rest) spare in
        Runs-result (add.zero (length (encode_members ms))) (
          Runs-bind _ _ (record { runs = refl })
            (Runs-bind _ _ (members-encode ms f f _ 0 rest spare s m i h h at p)
              (closing _ _ _ (At-skip (encode_members ms) at) q e)))

    elems-encode :
        (vs : Values) (msg : String) (t : ℤ) (f : ℕ) (fs : Slice) (offset : ℕ) (rest spare : List ℕ)
        (s s' : S)
        → AreValues t vs
        → length (encode_values vs) < f
        → At fs offset (encode_values vs ++ rest) spare
        → Accepts oprot s (calls_values [] vs) s'
        → Runs
            (write_elems msg (write oprot f) t (count_values vs) fs offset)
            s
            (offset + length (encode_values vs))
            s'
    elems-encode nil msg t f fs offset rest spare s s' i h at acc =
        Runs-end acc (Runs-result (sym (add-zero offset)) (Runs-pure offset s))
    elems-encode (cons v vs) msg t zero fs offset rest spare s s' i h at acc = elim h [ ]
    elems-encode (cons v vs) msg t (suc f) fs offset rest spare s s' (e, i, j) h at acc =
        let (m, p, q) = Accepts-append oprot (calls [] v) (calls_values [] vs) s s' acc in
        let tail = encode_values vs ++ rest in
        let at' : At fs offset (encode v ++ tail) spare = rw (← append_assoc) at in
        let n = length-append (encode v) (encode_values vs) in
        Runs-result (omega (arith, n)) (
          Runs-bind _ _
            (Runs-wrapping _ _ (
              At-offset (write oprot (suc f) t) at' (
                write-write_kind v t f _ e
                  (kind-encode v f tail spare s m i (omega (arith, n)) p))))
            (elems-encode vs msg t (suc f) fs (offset + length (encode v)) rest spare m s' j
              (omega (arith, n)) (At-skip (encode v) at') q))

    entries-encode :
        (es : Entries) (x y : ℤ) (f : ℕ) (fs : Slice) (offset : ℕ) (rest spare : List ℕ) (s s' : S)
        → AreEntries x y es
        → length (encode_entries es) < f
        → At fs offset (encode_entries es ++ rest) spare
        → Accepts oprot s (calls_entries [] es) s'
        → Runs
            (write_entries (write oprot f) x y (count_entries es) fs offset)
            s
            (offset + length (encode_entries es))
            s'
    entries-encode empty x y f fs offset rest spare s s' i h at acc =
        Runs-end acc (Runs-result (sym (add-zero offset)) (Runs-pure offset s))
    entries-encode (entry k v es) x y zero fs offset rest spare s s' i h at acc = elim h [ ]
    entries-encode (entry k v es) x y (suc f) fs offset rest spare s s' (d, e, i, j, l) h at acc =
        let (m, p, acc') =
          Accepts-append oprot (calls [] k) (calls [] v ++ calls_entries [] es) s s' acc in
        let (m', q, r) = Accepts-append oprot (calls [] v) (calls_entries [] es) m s' acc' in
        let tail = encode_entries es ++ rest in
        let at₁ : At fs offset (encode k ++ (encode v ++ tail)) spare =
          rw
            (
              ← append_assoc (encode v) (encode_entries es) rest,
              ← append_assoc (encode k) (encode v ++ encode_entries es) rest,
            )
            at in
        let at₂ = At-skip (encode k) at₁ in
        let n = length-append (encode k) (encode v ++ encode_entries es) in
        let n' = length-append (encode v) (encode_entries es) in
        Runs-result (omega (arith, n, n')) (
          Runs-bind _ _
            (Runs-wrapping _ _ (
              At-offset (write oprot (suc f) x) at₁ (
                write-write_kind k x f _ d
                  (kind-encode k f (encode v ++ tail) spare s m i (omega (arith, n)) p))))
            (Runs-bind _ _
              (Runs-wrapping _ _ (
                At-offset (write oprot (suc f) y) at₂ (
                  write-write_kind v y f _ e
                    (kind-encode v f tail spare m m' j (omega (arith, n, n')) q))))
              (entries-encode es x y (suc f) fs (offset + length (encode k) + length (encode v))
                rest spare m' s' l (omega (arith, n, n')) (At-skip (encode v) at₂) r)))

    members-encode :
        (ms : Members) (rounds f : ℕ) (fs : Slice) (offset : ℕ) (rest spare : List ℕ) (s s' : S)
        → AreMembers ms
        → length (encode_members ms) < suc rounds
        → length (encode_members ms) < suc f
        → At fs offset (encode_members ms ++ rest) spare
        → Accepts oprot s (calls_members [] ms) s'
        → Runs
            (write_members oprot rounds (write oprot f) fs offset)
            s
            (offset + length (encode_members ms))
            s'
    members-encode stop zero f fs offset rest spare s s' i g h at acc =
        absurd (omega (arith, length-byte_bytes t_stop))
    members-encode stop (suc r) f fs offset rest spare s s' i g h at (s₁, a, e) =
        Runs-bind _ _ (header _ rest s at read_stop-Gets)
          (Runs-end e (Runs-bind _ _ (Runs-wrapping _ _ (act-Runs _ a)) (Runs-pure _ s₁)))
    members-encode (member id v ms) zero f fs offset rest spare s s' i g h at acc = absurd (
        omega (
          arith,
          length-field_bytes (type_of v) id,
          length-append (field_bytes (type_of v) id) (encode v ++ encode_members ms),
        ))
    members-encode (member id v ms) (suc r) zero fs offset rest spare s s' i g h at acc = absurd (
        omega (
          arith,
          length-field_bytes (type_of v) id,
          length-append (field_bytes (type_of v) id) (encode v ++ encode_members ms),
        ))
    members-encode (member id v ms) (suc r) (suc f) fs offset rest spare s s' (i, j, k) g h at
          (s₁, a, acc) =
        let (m, p, (s₂, b, q)) =
          Accepts-append oprot (calls [] v) (Event.field_end ∷ calls_members [] ms) s₁ s' acc in
        let head = field_bytes (type_of v) id in
        let tail = encode_members ms ++ rest in
        let at₁ : At fs offset (head ++ (encode v ++ tail)) spare =
          rw
            (
              ← append_assoc (encode v) (encode_members ms) rest,
              ← append_assoc head (encode v ++ encode_members ms) rest,
            )
            at in
        let at₂ = At-skip head at₁ in
        let at₃ = At-skip (encode v) at₂ in
        let n = length-append head (encode v ++ encode_members ms) in
        let n' = length-append (encode v) (encode_members ms) in
        let size = length-field_bytes (type_of v) id in
        let total : offset + length head + length (encode v) + length (encode_members ms)
            ≡ offset + length (head ++ (encode v ++ encode_members ms)) =
          omega (arith, n, n') in
        Runs-result total (
          Runs-bind _ _
            (header _ (encode v ++ tail) s at₁ (
              read_field_begin-Gets (type_of v) id (type_id-Fits (kind v)) i
                (type_id-ne-stop (kind v))))
            (rw (type_id-ne-stop (kind v)) (
              Runs-bind _ _
                (Runs-bind _ _ (Runs-wrapping _ _ (act-Runs _ a)) (
                  Runs-bind _ _
                    (Runs-wrapping _ _ (
                      At-offset (write oprot (suc f) (type_of v)) at₂ (
                        write-write_kind v (type_of v) f _ refl
                          (kind-encode v f tail spare s₁ m j (omega (arith, n, n', size)) p))))
                    (closing _ _ _ at₃ b refl)))
                (members-encode ms r (suc f) fs (offset + length head + length (encode v)) rest
                  spare s₂ s' k (omega (arith, n, n', size)) (omega (arith, n, n', size)) at₃ q))))

  -- Where the protocol accepts the calls of a valid value, write makes them on the bytes of the
  -- value, whatever follows these, and returns their number, with more fuel than there are such
  -- bytes.
  pub write-encode :
      (v : Value) (fuel : ℕ) (rest spare : List ℕ) (s s' : S)
      → IsValue v
      → length (encode v) < fuel
      → Accepts oprot s (written v) s'
      → write oprot fuel (type_of v) (record { bytes = encode v ++ rest; spare = spare }) s
        ≡ (ok (length (encode v)), s')
  write-encode v zero rest spare s s' i h acc = elim h [ ]
  write-encode v (suc f) rest spare s s' i h acc =
      (write-write_kind v (type_of v) f _ refl (kind-encode v f rest spare s s' i h acc)).runs
