-- ===== src/Unknown/Read/Complete.antt =====
-- `read` on a protocol that supplies a value puts the bytes of the value into the buffer.
use thriftgo.Prelude.{
  ℕ, zero, suc, ◌<◌, ◌≤◌, ◌≡◌, refl, sym, subst, none, List, [], ◌∷◌, ◌++◌, arith, append-nil,
  length, length-append, String, Bool, true, false, ◌∙◌, append_assoc,
}
use thriftgo.Prelude.Ints.{ℤ}
use thriftgo.Go.Exec.{Exec, wrapping, ◌>>◌}
use thriftgo.Unknown.Types.{t_stop, Error}
use thriftgo.Unknown.Binary.Format.{
  field_bytes, list_bytes, map_bytes, length-byte_bytes, length-i16_bytes, length-i32_bytes,
  length-i64_bytes, length-double_bytes, length-bool_bytes, length-field_bytes, length-list_bytes,
  length-map_bytes, length-string_bytes,
}
use thriftgo.Unknown.Binary.Length.{bool_length}
use thriftgo.Unknown.Binary.Write.{write_nothing}
use thriftgo.Unknown.Binary.Puts.{
  write_nothing-Puts, write_byte-Puts, write_i16-Puts, write_i32-Puts, write_i64-Puts,
  write_double-Puts, write_bool-Puts, write_field_stop-Puts, write_field_begin-Puts,
  write_list_begin-Puts, write_set_begin-Puts, write_map_begin-Puts, write_string-Puts,
}
use thriftgo.Unknown.Protocol.{Protocol, Acting}
use thriftgo.Unknown.Value.{
  Value, Values, nil, cons, Entries, empty, entry, Members, stop, member, type_of, kind,
  count_values, count_entries, IsValue, AreValues, AreEntries, AreMembers, encode, encode_values,
  encode_entries, encode_members, depth, depth_values, depth_entries, depth_members, Event, calls,
  calls_values, calls_entries, calls_members, announced, kind_of-type_id, type_id-ne-stop,
  type_id-Fits, depth-pos,
}
use thriftgo.Unknown.Read.{
  Cursor, advance, tell, read, read_kind, read_elems, read_entries, read_members, read_member,
}
use thriftgo.Unknown.Read.Supplies.{Supplies, Supplies-append}
use thriftgo.Unknown.Read.Appends.{
  Appends, Appends-pure, Appends-then, Appends-wrapping, tell-Appends, query-Appends,
  advance-Appends, read_scalar-Appends,
}

module _ {S : Type 0} {m : Exec (Cursor S) Error (Unit {0})} where
  Appends-to : {s s₁ s' : S} {bs : List ℕ} → s₁ ≡ s' → Appends m s bs s₁ → Appends m s bs s'
  Appends-to {s} {bs} e p = subst (λ x. Appends m s bs x) e p

  Appends-bytes : {s s' : S} {bs cs : List ℕ} → bs ≡ cs → Appends m s bs s' → Appends m s cs s'
  Appends-bytes {s} {s'} e p = subst (λ x. Appends m s x s') e p

abbrev start : List Event
start = Event.struct_begin ∷ []

bool_lengths : (b : Bool) → bool_length b ≡ 1
bool_lengths true = refl
bool_lengths false = refl

module _ {S : Type 0} (iprot : Protocol S) where
  -- The end of a container, which puts nothing.
  ending :
      {s s₁ s' : S} (g : Error → Error) (f : Acting S)
      → f s ≡ (none, s₁)
      → s₁ ≡ s'
      → Appends (wrapping g (tell f) >> advance 0 write_nothing) s [] s'
  ending {s₁ = t} g f a e = Appends-to e (
      Appends-then (Appends-wrapping g (tell-Appends f a))
        (advance-Appends t refl write_nothing-Puts))

  read-read_kind :
      (v : Value) (t : ℤ) (fuel d : ℕ) {s s' : S} {bs : List ℕ}
      → type_of v ≡ t
      → Appends (read_kind iprot fuel (read iprot fuel d) (kind v)) s bs s'
      → Appends (read iprot fuel (suc d) t) s bs s'
  unfolding read
  read-read_kind v t fuel d e r = rw (← e) (rw (read, kind_of-type_id (kind v)) r)

  mutual
    unfolding read_kind read_elems read_entries read_members read_member encode calls IsValue depth

    kind-supplied :
        (v : Value) (fuel d : ℕ) (s s' : S)
        → IsValue v
        → length (encode v) < fuel
        → depth v ≤ suc d
        → Supplies iprot s (announced v) s'
        → Appends (read_kind iprot fuel (read iprot fuel d) (kind v)) s (encode v) s'
    kind-supplied (Value.bool b) fuel d s s' i h k (s₁, a, e) = Appends-to e (
        read_scalar-Appends _ _ _ a (bool_lengths b ∙ sym (length-bool_bytes b))
          (write_bool-Puts b))
    kind-supplied (Value.byte z) fuel d s s' i h k (s₁, a, e) =
        Appends-to e (read_scalar-Appends _ _ _ a (sym (length-byte_bytes z)) (write_byte-Puts z))
    kind-supplied (Value.i16 z) fuel d s s' i h k (s₁, a, e) =
        Appends-to e (read_scalar-Appends _ _ _ a (sym (length-i16_bytes z)) (write_i16-Puts z))
    kind-supplied (Value.i32 z) fuel d s s' i h k (s₁, a, e) =
        Appends-to e (read_scalar-Appends _ _ _ a (sym (length-i32_bytes z)) (write_i32-Puts z))
    kind-supplied (Value.i64 z) fuel d s s' i h k (s₁, a, e) =
        Appends-to e (read_scalar-Appends _ _ _ a (sym (length-i64_bytes z)) (write_i64-Puts z))
    kind-supplied (Value.double z) fuel d s s' i h k (s₁, a, e) =
        Appends-to e
          (read_scalar-Appends _ _ _ a (sym (length-double_bytes z)) (write_double-Puts z))
    kind-supplied (Value.string z) fuel d s s' i h k (s₁, a, e) =
        Appends-to e
          (read_scalar-Appends _ _ _ a (sym (length-string_bytes z)) (write_string-Puts z i))
    kind-supplied (Value.set t vs) fuel d s s' (i, j, l) h k (s₁, a, b) =
        let (m, p, (s₂, q, e)) =
          Supplies-append iprot (calls_values start vs) (Event.set_end ∷ []) s₁ s' b in
        let head = list_bytes t (count_values vs) in
        query-Appends _ _ _ a (
          Appends-then
            (advance-Appends s₁ (sym (length-list_bytes t (count_values vs)))
              (write_set_begin-Puts t (count_values vs) i j))
            (Appends-bytes (append-nil (encode_values vs)) (
              Appends-then
                (elems-supplied vs _ t fuel d s₁ m l
                  (omega (arith, length-append head (encode_values vs))) (omega arith) p)
                (ending _ _ q e))))
    kind-supplied (Value.list t vs) fuel d s s' (i, j, l) h k (s₁, a, b) =
        let (m, p, (s₂, q, e)) =
          Supplies-append iprot (calls_values start vs) (Event.list_end ∷ []) s₁ s' b in
        let head = list_bytes t (count_values vs) in
        query-Appends _ _ _ a (
          Appends-then
            (advance-Appends s₁ (sym (length-list_bytes t (count_values vs)))
              (write_list_begin-Puts t (count_values vs) i j))
            (Appends-bytes (append-nil (encode_values vs)) (
              Appends-then
                (elems-supplied vs _ t fuel d s₁ m l
                  (omega (arith, length-append head (encode_values vs))) (omega arith) p)
                (ending _ _ q e))))
    kind-supplied (Value.map x y es) fuel d s s' (i, j, n, l) h k (s₁, a, b) =
        let (m, p, (s₂, q, e)) =
          Supplies-append iprot (calls_entries start es) (Event.map_end ∷ []) s₁ s' b in
        let head = map_bytes x y (count_entries es) in
        query-Appends _ _ _ a (
          Appends-then
            (advance-Appends s₁ (sym (length-map_bytes x y (count_entries es)))
              (write_map_begin-Puts x y (count_entries es) i j n))
            (Appends-bytes (append-nil (encode_entries es)) (
              Appends-then
                (entries-supplied es x y fuel d s₁ m l
                  (omega (arith, length-append head (encode_entries es))) (omega arith) p)
                (ending _ _ q e))))
    kind-supplied (Value.struct ms) fuel d s s' i h k (s₁, (name, a), b) =
        let (m, p, (s₂, q, e)) =
          Supplies-append iprot (calls_members start ms) (Event.struct_end ∷ []) s₁ s' b in
        query-Appends _ _ _ a (
          Appends-then (advance-Appends s₁ refl write_nothing-Puts) (
            Appends-bytes (append-nil (encode_members ms)) (
              Appends-then (members-supplied ms fuel fuel d s₁ m i h h (omega arith) p)
                (ending _ _ q e))))

    elems-supplied :
        (vs : Values) (msg : String) (t : ℤ) (fuel d : ℕ) (s s' : S)
        → AreValues t vs
        → length (encode_values vs) < fuel
        → depth_values vs ≤ d
        → Supplies iprot s (calls_values start vs) s'
        → Appends (read_elems msg (read iprot fuel d) t (count_values vs)) s (encode_values vs) s'
    elems-supplied nil msg t fuel d s s' i h k acc = Appends-to acc (Appends-pure s)
    elems-supplied (cons v vs) msg t fuel zero s s' i h k acc = absurd (omega (arith, depth-pos v))
    elems-supplied (cons v vs) msg t fuel (suc d) s s' (e, i, j) h k acc =
        let (m, p, q) = Supplies-append iprot (calls start v) (calls_values start vs) s s' acc in
        let n = length-append (encode v) (encode_values vs) in
        Appends-then
          (Appends-wrapping _ (
            read-read_kind v t fuel d e
              (kind-supplied v fuel d s m i (omega (arith, n)) (omega arith) p)))
          (elems-supplied vs msg t fuel (suc d) m s' j (omega (arith, n)) (omega arith) q)

    entries-supplied :
        (es : Entries) (x y : ℤ) (fuel d : ℕ) (s s' : S)
        → AreEntries x y es
        → length (encode_entries es) < fuel
        → depth_entries es ≤ d
        → Supplies iprot s (calls_entries start es) s'
        → Appends (read_entries (read iprot fuel d) x y (count_entries es)) s (encode_entries es) s'
    entries-supplied empty x y fuel d s s' i h k acc = Appends-to acc (Appends-pure s)
    entries-supplied (entry a b es) x y fuel zero s s' i h k acc =
        absurd (omega (arith, depth-pos a))
    entries-supplied (entry a b es) x y fuel (suc d) s s' (e, f, i, j, l) h k acc =
        let (m, p, acc') =
          Supplies-append iprot (calls start a) (calls start b ++ calls_entries start es) s s'
            acc in
        let (m', q, r) = Supplies-append iprot (calls start b) (calls_entries start es) m s' acc' in
        let n = length-append (encode a) (encode b ++ encode_entries es) in
        let n' = length-append (encode b) (encode_entries es) in
        Appends-then
          (Appends-wrapping _ (
            read-read_kind a x fuel d e
              (kind-supplied a fuel d s m i (omega (arith, n)) (omega arith) p)))
          (Appends-then
            (Appends-wrapping _ (
              read-read_kind b y fuel d f
                (kind-supplied b fuel d m m' j (omega (arith, n, n')) (omega arith) q)))
            (entries-supplied es x y fuel (suc d) m' s' l (omega (arith, n, n')) (omega arith) r))

    members-supplied :
        (ms : Members) (rounds fuel d : ℕ) (s s' : S)
        → AreMembers ms
        → length (encode_members ms) < rounds
        → length (encode_members ms) < fuel
        → depth_members ms ≤ d
        → Supplies iprot s (calls_members start ms) s'
        → Appends (read_members iprot rounds (read iprot fuel d)) s (encode_members ms) s'
    members-supplied stop zero fuel d s s' i g h k acc = elim g [ ]
    members-supplied stop (suc r) fuel d s s' i g h k (s₁, (name, id, a), e) =
        query-Appends _ _ _ a
          (Appends-to e (advance-Appends s₁ (sym (length-byte_bytes t_stop)) write_field_stop-Puts))
    members-supplied (member id v ms) zero fuel d s s' i g h k acc = elim g [ ]
    members-supplied (member id v ms) (suc r) fuel zero s s' i g h k acc =
        absurd (omega (arith, depth-pos v))
    members-supplied (member id v ms) (suc r) fuel (suc d) s s' (i, j, l) g h k
          (s₁, (name, a), acc) =
        let (m, p, (s₂, b, q)) =
          Supplies-append iprot (calls start v) (Event.field_end ∷ calls_members start ms) s₁ s'
            acc in
        let head = field_bytes (type_of v) id in
        let n = length-append head (encode v ++ encode_members ms) in
        let n' = length-append (encode v) (encode_members ms) in
        let size = length-field_bytes (type_of v) id in
        let whole : (head ++ (encode v ++ [])) ++ encode_members ms
            ≡ head ++ (encode v ++ encode_members ms) =
          rw (append-nil (encode v)) (append_assoc head (encode v) (encode_members ms)) in
        query-Appends _ _ _ a (
          rw (type_id-ne-stop (kind v)) (
            Appends-bytes whole (
              Appends-then
                (Appends-then
                  (advance-Appends s₁ (sym size)
                    (write_field_begin-Puts name (type_of v) id (type_id-Fits (kind v))))
                  (Appends-then
                    (Appends-wrapping _ (
                      read-read_kind v (type_of v) fuel d refl
                        (kind-supplied v fuel d s₁ m j (omega (arith, n, n')) (omega arith) p)))
                    (ending _ _ b refl)))
                (members-supplied ms r fuel (suc d) s₂ s' l (omega (arith, n, n', size))
                  (omega (arith, n, n')) (omega arith) q))))

  -- A value that is nested no deeper than the limit, as the protocol supplies it.
  pub read-Appends :
      (v : Value) (fuel max_depth : ℕ) (s s' : S)
      → IsValue v
      → length (encode v) < fuel
      → depth v ≤ max_depth
      → Supplies iprot s (announced v) s'
      → Appends (read iprot fuel max_depth (type_of v)) s (encode v) s'
  read-Appends v fuel zero s s' i h k acc = absurd (omega (arith, depth-pos v))
  read-Appends v fuel (suc d) s s' i h k acc =
      read-read_kind v (type_of v) fuel d refl (kind-supplied v fuel d s s' i h k acc)
