-- ===== src/Unknown/Write/Ends.antt =====
-- `write` ends: on any bytes, with any protocol, the fuel that their number gives is enough.
use thriftgo.Prelude.{
  ℕ, zero, suc, ◌+◌, ◌<◌, ◌≤◌, ◌≡◌, refl, Option, none, some, Bool-cases, Option-cases, inl, inr,
  arith, String, length, ltb, ◌≢◌,
}
use thriftgo.Prelude.Ints.{ℤ, eq_ℤ, rounds}
use thriftgo.Go.Outcome.{stuck, Good, Good-weaken, Good-not_stuck}
use thriftgo.Go.Exec.{Exec, pure, lift, wrapping, ◌>>=◌, ◌>>◌}
use thriftgo.Go.Ends.{Ends, Ends-pure, Ends-fail, Ends-lift, Ends-wrapping, Ends-weaken, Ends-bind}
use thriftgo.Unknown.Types.{Kind, kind_of, t_stop, Error}
use thriftgo.Unknown.Binary.Read.{
  Slice, Reader, slice_from, read_byte, read_i16, read_i32, read_i64, read_double, read_bool,
  read_string, read_field_begin,
}
use thriftgo.Unknown.Binary.Counts.{
  Takes, slice_from-Good, read_byte-Good, read_i16-Good, read_i32-Good, read_i64-Good,
  read_double-Good, read_bool-Good, read_string-Good, read_field_begin-Good, read_list_begin-Good,
  read_set_begin-Good, read_map_begin-Good,
}
use thriftgo.Unknown.Protocol.{Protocol, Acting, act, outcome_of}
use thriftgo.Unknown.Write.{
  write, write_kind, write_scalar, write_elems, write_entries, write_members, write_member,
  read_end, fields_loop, fields_write, Nested,
}

outcome_of-Good : (e : Option Error) → Good (λ _. Unit {0}) (outcome_of tt e)
outcome_of-Good none = tt
outcome_of-Good (some e) = tt

module _ {S : Type 0} where
  act-Ends : (w : Acting S) → Ends (λ _. Unit {0}) (act w)
  unfolding act
  act-Ends w = record { at = λ s. outcome_of-Good (w s).0 }

  write_scalar-Ends :
      {A : Type 0} (read : Reader A) (w : A → Acting S) (fs : Slice)
      → Good (λ r. 1 ≤ r.1) (read fs)
      → Ends (λ l. 1 ≤ l) (write_scalar read w fs)
  unfolding write_scalar
  write_scalar-Ends read w fs g =
      Ends-bind {P = λ r. 1 ≤ r.1} _ _ (Ends-lift _ g)
        λ r h. Ends-bind {P = λ _. Unit {0}} _ _ (act-Ends _) λ u _. Ends-pure _ h

  read_end-Ends :
      (msg : String) (fs : Slice) (offset : ℕ)
      → Ends (λ l. offset ≤ l) (read_end {S = S} msg fs offset)
  unfolding read_end
  read_end-Ends msg fs offset =
      Ends-bind {P = λ r. length r.bytes + offset ≡ length fs.bytes} _ _
        (Ends-lift _ (slice_from-Good offset fs))
        λ r h.
          Ends-bind {P = λ _. Unit {0}} _ _ (record { at = λ s. tt })
            λ u _. Ends-pure _ (omega arith)

  -- A call on a nested value at an offset: it ends, and takes a byte at least.
  nested-Ends :
      (f : Error → Error) (nested : Slice → Exec S Error ℕ) (fs : Slice) (offset : ℕ)
      → ((r : Slice) → length r.bytes + offset ≡ length fs.bytes → Ends (λ l. 1 ≤ l) (nested r))
      → Ends (λ l. 1 ≤ l) (wrapping f (lift (slice_from offset fs) >>= nested))
  nested-Ends f nested fs offset h = Ends-wrapping f _ (
      Ends-bind {P = λ r. length r.bytes + offset ≡ length fs.bytes} _ _
        (Ends-lift _ (slice_from-Good offset fs)) h)

  -- The end of a container.
  closing-Ends :
      (msg : String) (f : Error → Error) (w : Acting S) (fs : Slice) (offset : ℕ)
      → 1 ≤ offset
      → Ends (λ l. 1 ≤ l) (read_end msg fs offset >>= λ offset'. wrapping f (act w) >> pure offset')
  closing-Ends msg f w fs offset h =
      Ends-bind {P = λ l. offset ≤ l} _ _ (read_end-Ends msg fs offset) λ o k.
        Ends-bind {P = λ _. Unit {0}} _ _ (Ends-wrapping f _ (act-Ends w))
          λ u _. Ends-pure _ (omega arith)

  -- `nested` ends on every slice with fewer than `n` bytes.
  EndsBelow : ℕ → Nested S → Type 0
  EndsBelow n nested = (t : ℤ) (fs : Slice) → length fs.bytes < n → Ends (λ l. 1 ≤ l) (nested t fs)

  module _ (nested : Nested S) (fs : Slice) (h : EndsBelow (length fs.bytes) nested) where
    -- Behind a byte at least, the rest of the slice is shorter.
    rest-Ends :
        (t : ℤ) (offset : ℕ)
        → 1 ≤ offset
        → (r : Slice) → length r.bytes + offset ≡ length fs.bytes
        → Ends (λ l. 1 ≤ l) (nested t r)
    unfolding EndsBelow
    rest-Ends t offset k r e = h t r (omega arith)

    write_elems-Ends :
        (msg : String) (t : ℤ) (n offset : ℕ)
        → 1 ≤ offset
        → Ends (λ l. 1 ≤ l) (write_elems msg nested t n fs offset)
    unfolding write_elems
    write_elems-Ends msg t zero offset k = Ends-pure _ k
    write_elems-Ends msg t (suc n) offset k =
        Ends-bind {P = λ l. 1 ≤ l} _ _ (nested-Ends _ (nested t) fs offset (rest-Ends t offset k))
          λ l _. write_elems-Ends msg t n (offset + l) (omega arith)

    write_entries-Ends :
        (x y : ℤ) (n offset : ℕ)
        → 1 ≤ offset
        → Ends (λ l. 1 ≤ l) (write_entries nested x y n fs offset)
    unfolding write_entries
    write_entries-Ends x y zero offset k = Ends-pure _ k
    write_entries-Ends x y (suc n) offset k =
        Ends-bind {P = λ l. 1 ≤ l} _ _ (nested-Ends _ (nested x) fs offset (rest-Ends x offset k))
          λ l _.
            Ends-bind {P = λ l. 1 ≤ l} _ _
              (nested-Ends _ (nested y) fs (offset + l) (rest-Ends y (offset + l) (omega arith)))
              λ m _. write_entries-Ends x y n (offset + l + m) (omega arith)

  -- The header of a field at an offset.
  header-Ends :
      (f : Error → Error) (fs : Slice) (offset : ℕ)
      → Ends
          (λ h. (1 ≤ h.1) × (offset + h.1 ≤ length fs.bytes))
          (wrapping f (lift {S = S} (slice_from offset fs) >>= λ r. lift (read_field_begin r)))
  header-Ends f fs offset = Ends-wrapping f _ (
      Ends-bind {P = λ r. length r.bytes + offset ≡ length fs.bytes} _ _
        (Ends-lift _ (slice_from-Good offset fs))
        λ r e.
          Ends-weaken (Ends-lift _ (read_field_begin-Good r)) (λ q k. (k.0, omega (arith, k.1))))

module _ {S : Type 0} (oprot : Protocol S) where
  module _ (nested : Nested S) (fs : Slice) (h : EndsBelow (length fs.bytes) nested) where
    write_member-Ends :
        (t id : ℤ) (offset : ℕ)
        → 1 ≤ offset
        → Ends (λ l. offset + 1 ≤ l) (write_member oprot nested t id fs offset)
    unfolding write_member
    write_member-Ends t id offset k =
        Ends-bind {P = λ _. Unit {0}} _ _ (Ends-wrapping _ _ (act-Ends _)) λ u _.
          Ends-bind {P = λ l. 1 ≤ l} _ _
            (nested-Ends _ (nested t) fs offset (rest-Ends nested fs h t offset k))
            λ l j. Ends-bind {P = λ o. offset + l ≤ o} _ _ (read_end-Ends _ fs (offset + l)) λ o i.
              Ends-bind {P = λ _. Unit {0}} _ _ (Ends-wrapping _ _ (act-Ends _))
                λ v _. Ends-pure _ (omega arith)

    -- Each round takes a byte at least, so that the rounds left are enough for the bytes left.
    write_members-Ends :
        (rounds offset : ℕ)
        → 1 ≤ rounds
        → length fs.bytes < offset + rounds
        → Ends (λ l. 1 ≤ l) (write_members oprot rounds nested fs offset)
    unfolding write_members
    write_members-Ends zero offset i k = elim i [ ]
    write_members-Ends (suc r) offset i k =
        Ends-bind {P = λ h. (1 ≤ h.1) × (offset + h.1 ≤ length fs.bytes)} _ _
          (header-Ends _ fs offset)
          λ q b. elim (Bool-cases (eq_ℤ q.0.0 t_stop)) [
            | inl e ↦ rw e (
                Ends-bind {P = λ _. Unit {0}} _ _ (Ends-wrapping _ _ (act-Ends _))
                  λ u _. Ends-pure _ (omega (arith, b.0)))
            | inr e ↦ rw e (
                Ends-bind {P = λ l. offset + q.1 + 1 ≤ l} _ _
                  (write_member-Ends q.0.0 q.0.1 (offset + q.1) (omega (arith, b.0)))
                  λ o j. write_members-Ends r o (omega (arith, b.0, b.1)) (omega (arith, b.0, b.1)))
          ]

    write_kind-Ends :
        (fuel : ℕ) (k : Kind)
        → length fs.bytes < fuel
        → Ends (λ l. 1 ≤ l) (write_kind oprot fuel nested k fs)
    unfolding write_kind
    write_kind-Ends fuel Kind.bool b =
        write_scalar-Ends read_bool oprot.write_bool fs
          (Good-weaken (Takes 1 fs) _ _ (read_bool-Good fs) (λ r g. omega (arith, g.0)))
    write_kind-Ends fuel Kind.byte b =
        write_scalar-Ends read_byte oprot.write_byte fs
          (Good-weaken (Takes 1 fs) _ _ (read_byte-Good fs) (λ r g. omega (arith, g.0)))
    write_kind-Ends fuel Kind.i16 b =
        write_scalar-Ends read_i16 oprot.write_i16 fs
          (Good-weaken (Takes 2 fs) _ _ (read_i16-Good fs) (λ r g. omega (arith, g.0)))
    write_kind-Ends fuel Kind.i32 b =
        write_scalar-Ends read_i32 oprot.write_i32 fs
          (Good-weaken (Takes 4 fs) _ _ (read_i32-Good fs) (λ r g. omega (arith, g.0)))
    write_kind-Ends fuel Kind.i64 b =
        write_scalar-Ends read_i64 oprot.write_i64 fs
          (Good-weaken (Takes 8 fs) _ _ (read_i64-Good fs) (λ r g. omega (arith, g.0)))
    write_kind-Ends fuel Kind.double b =
        write_scalar-Ends read_double oprot.write_double fs
          (Good-weaken (Takes 8 fs) _ _ (read_double-Good fs) (λ r g. omega (arith, g.0)))
    write_kind-Ends fuel Kind.string b =
        write_scalar-Ends read_string oprot.write_string fs
          (Good-weaken (λ r. 4 ≤ r.1) _ _ (read_string-Good fs) (λ r g. omega arith))
    write_kind-Ends fuel Kind.set b =
        Ends-bind {P = Takes 5 fs} _ _ (Ends-wrapping _ _ (Ends-lift _ (read_set_begin-Good fs)))
          λ q g. Ends-bind {P = λ _. Unit {0}} _ _ (Ends-wrapping _ _ (act-Ends _)) λ u _.
            Ends-bind {P = λ l. 1 ≤ l} _ _
              (write_elems-Ends nested fs h _ q.0.0 (rounds q.0.1) q.1 (omega (arith, g.0)))
              λ o j. closing-Ends _ _ _ fs o j
    write_kind-Ends fuel Kind.list b =
        Ends-bind {P = Takes 5 fs} _ _ (Ends-wrapping _ _ (Ends-lift _ (read_list_begin-Good fs)))
          λ q g. Ends-bind {P = λ _. Unit {0}} _ _ (act-Ends _) λ u _.
            Ends-bind {P = λ l. 1 ≤ l} _ _
              (write_elems-Ends nested fs h _ q.0.0 (rounds q.0.1) q.1 (omega (arith, g.0)))
              λ o j. closing-Ends _ _ _ fs o j
    write_kind-Ends fuel Kind.map b =
        Ends-bind {P = Takes 6 fs} _ _ (Ends-wrapping _ _ (Ends-lift _ (read_map_begin-Good fs)))
          λ q g. Ends-bind {P = λ _. Unit {0}} _ _ (Ends-wrapping _ _ (act-Ends _)) λ u _.
            Ends-bind {P = λ l. 1 ≤ l} _ _
              (write_entries-Ends nested fs h q.0.0 q.0.1 (rounds q.0.2) q.1 (omega (arith, g.0)))
              λ o j. closing-Ends _ _ _ fs o j
    write_kind-Ends fuel Kind.struct b =
        Ends-bind {P = λ r. r.1 ≡ 0} _ _ (record { at = λ s. refl })
          λ q e.
            Ends-bind {P = λ l. 1 ≤ l} _ _
              (write_members-Ends fuel q.1 (omega arith) (omega (arith, e)))
              λ o j. closing-Ends _ _ _ fs o j

  write-Ends :
      (fuel : ℕ) (t : ℤ) (fs : Slice)
      → length fs.bytes + 1 < fuel
      → Ends (λ l. 1 ≤ l) (write oprot fuel t fs)
  unfolding write EndsBelow
  write-Ends zero t fs h = elim h [ ]
  write-Ends (suc f) t fs h = elim (Option-cases (kind_of t)) [
    | inl e ↦ rw (write, e) (Ends-fail _)
    | inr (k, e) ↦
        rw (write, e)
          (write_kind-Ends (write oprot f) fs (λ t' r below. write-Ends f t' r (omega arith)) f k
            (omega arith))
  ]

  fields_loop-Ends :
      (rounds fuel : ℕ) (fs : Slice) (offset : ℕ)
      → 1 ≤ rounds
      → length fs.bytes < offset + rounds
      → length fs.bytes < fuel
      → Ends (λ _. Unit {0}) (fields_loop oprot rounds fuel fs offset)
  unfolding fields_loop EndsBelow
  fields_loop-Ends zero fuel fs offset i h k = elim i [ ]
  fields_loop-Ends (suc r) fuel fs offset i h k = elim (Bool-cases (ltb offset (length fs.bytes))) [
    | inl more ↦
        rw (fields_loop, more)
          (Ends-bind {P = λ q. (1 ≤ q.1) × (offset + q.1 ≤ length fs.bytes)} _ _
            (header-Ends _ fs offset)
            λ q b.
              Ends-bind {P = λ l. offset + q.1 + 1 ≤ l} _ _
                (write_member-Ends (write oprot fuel) fs
                  (λ t s below. write-Ends fuel t s (omega arith)) q.0.0 q.0.1 (offset + q.1)
                  (omega (arith, b.0)))
                λ o j.
                  fields_loop-Ends r fuel fs o (omega (arith, b.0, b.1)) (omega (arith, b.0, b.1))
                    k)
    | inr end ↦ rw (fields_loop, end) (Ends-pure _ tt)
  ]

  -- `write` never runs out of fuel: two more than the number of bytes is enough, whatever the bytes,
  -- the type and the protocol are.
  pub write_total :
      (fuel : ℕ) (t : ℤ) (fs : Slice) (s : S)
      → length fs.bytes + 1 < fuel
      → (write oprot fuel t fs s).0 ≢ stuck
  write_total fuel t fs s h = Good-not_stuck (λ l. 1 ≤ l) _ ((write-Ends fuel t fs h).at s)

  -- `Fields.Write` ends on all bytes and with every protocol, whatever it answers: one more than the
  -- number of bytes is fuel enough.
  pub fields_write_total :
      (fuel : ℕ) (fs : Slice) (s : S)
      → length fs.bytes < fuel
      → (fields_write oprot fuel fs s).0 ≢ stuck
  unfolding fields_write
  fields_write_total fuel fs s h =
      Good-not_stuck (λ _. Unit {0}) _
        ((fields_loop-Ends fuel fuel fs 0 (omega arith) (omega arith) h).at s)
