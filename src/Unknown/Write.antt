-- ===== src/Unknown/Write.antt =====
-- `write` and `Fields.Write` of generator/golang/extension/unknown/unknown.go: bytes that were kept
-- are decoded and handed to a protocol.
pub mod Accepts
pub mod Cursor
pub mod Steps
pub mod Complete
pub mod Fields
pub mod Ends
use thriftgo.Prelude.{
  ℕ, zero, suc, ◌+◌, Bool, true, false, Option, none, some, List, [], ◌∷◌, String, ltb, length,
}
use thriftgo.Prelude.Ints.{ℤ, pos, negsuc, eq_ℤ, rounds}
use thriftgo.Go.Outcome.{Outcome, ok, err, panic, stuck, map_err}
use thriftgo.Go.Exec.{Exec, pure, fail, lift, no_fuel, wrapping, ◌>>=◌, ◌>>◌}
use thriftgo.Unknown.Types.{Kind, kind_of, t_stop, Error, unknown_type, wrap}
use thriftgo.Unknown.Binary.Read.{
  Slice, Reader, slice_from, read_byte, read_i16, read_i32, read_i64, read_double, read_bool,
  read_string, read_field_begin, read_list_begin, read_set_begin, read_map_begin, read_nothing,
}
use thriftgo.Unknown.Protocol.{Protocol, Acting, act}

-- How `write` calls itself on a nested value of a type, at `fs[offset:]`.
abbrev pub Nested : Type 0 → Type 0
Nested S = ℤ → Slice → Exec S Error ℕ

module _ {S : Type 0} where
  -- `v, l, err := Binary.ReadX(fs); oprot.WriteX(ctx, v)`
  pub write_scalar : {A : Type 0} → Reader A → (A → Acting S) → Slice → Exec S Error ℕ
  write_scalar read w fs = do (v, l) ← lift (read fs); act (w v); pure l

  -- The loop over the elements of a set or a list, from `offset`, with the rounds left.
  pub write_elems : String → Nested S → ℤ → ℕ → Slice → ℕ → Exec S Error ℕ
  write_elems msg nested t zero fs offset = pure offset
  write_elems msg nested t (suc n) fs offset =
      wrapping (wrap msg) (lift (slice_from offset fs) >>= nested t) >>= λ l.
      write_elems msg nested t n fs (offset + l)

  pub write_entries : Nested S → ℤ → ℤ → ℕ → Slice → ℕ → Exec S Error ℕ
  write_entries nested kt vt zero fs offset = pure offset
  write_entries nested kt vt (suc n) fs offset =
      wrapping (wrap "write map key error") (lift (slice_from offset fs) >>= nested kt) >>= λ l.
      wrapping (wrap "write map value error") (lift (slice_from (offset + l) fs) >>= nested vt)
      >>= λ k. write_entries nested kt vt n fs (offset + l + k)

  -- `l, err = Binary.ReadXEnd(fs[offset:]); offset += l`
  pub read_end : String → Slice → ℕ → Exec S Error ℕ
  read_end msg fs offset = do
    rest ← lift (slice_from offset fs)
    (u, l) ← wrapping (wrap msg) (lift (read_nothing rest))
    pure (offset + l)

module _ {S : Type 0} (oprot : Protocol S) where
  -- One field of a struct behind its header: the value, the end, and the new offset.
  pub write_member : Nested S → ℤ → ℤ → Slice → ℕ → Exec S Error ℕ
  write_member nested t id fs offset = do
    wrapping (wrap "write field begin error") (act (oprot.write_field_begin "" t id))
    l ← wrapping (wrap "write struct field error") (lift (slice_from offset fs) >>= nested t)
    offset' ← read_end "read field end error" fs (offset + l)
    wrapping (wrap "write field end error") (act oprot.write_field_end)
    pure offset'

  -- The `for` loop over the fields of a struct, which ends at a stop; the first argument is fuel.
  pub write_members : ℕ → Nested S → Slice → ℕ → Exec S Error ℕ
  write_members zero nested fs offset = no_fuel
  write_members (suc fuel) nested fs offset =
      wrapping (wrap "read field begin error")
        (lift (slice_from offset fs) >>= λ r. lift (read_field_begin r))
      >>= λ h. elim (eq_ℤ h.0.0 t_stop) [
        | true ↦
            wrapping (wrap "write field stop error") (act oprot.write_field_stop)
            >> pure (offset + h.1)
        | false ↦ write_member nested h.0.0 h.0.1 fs (offset + h.1) >>= write_members fuel nested fs
      ]

  -- The cases of `switch fieldType`.
  pub write_kind : ℕ → Nested S → Kind → Slice → Exec S Error ℕ
  write_kind fuel nested Kind.bool fs = write_scalar read_bool oprot.write_bool fs
  write_kind fuel nested Kind.byte fs = write_scalar read_byte oprot.write_byte fs
  write_kind fuel nested Kind.i16 fs = write_scalar read_i16 oprot.write_i16 fs
  write_kind fuel nested Kind.i32 fs = write_scalar read_i32 oprot.write_i32 fs
  write_kind fuel nested Kind.i64 fs = write_scalar read_i64 oprot.write_i64 fs
  write_kind fuel nested Kind.double fs = write_scalar read_double oprot.write_double fs
  write_kind fuel nested Kind.string fs = write_scalar read_string oprot.write_string fs
  write_kind fuel nested Kind.set fs = do
    (h, l) ← wrapping (wrap "read set begin error") (lift (read_set_begin fs))
    wrapping (wrap "write set begin error") (act (oprot.write_set_begin h.0 h.1))
    offset ← write_elems "write set elem error" nested h.0 (rounds h.1) fs l
    offset' ← read_end "read set end error" fs offset
    wrapping (wrap "write set end error") (act oprot.write_set_end)
    pure offset'
  write_kind fuel nested Kind.list fs = do
    (h, l) ← wrapping (wrap "read list begin error") (lift (read_list_begin fs))
    act (oprot.write_list_begin h.0 h.1)
    offset ← write_elems "write list elem error" nested h.0 (rounds h.1) fs l
    offset' ← read_end "read list end error" fs offset
    wrapping (wrap "write list end error") (act oprot.write_list_end)
    pure offset'
  write_kind fuel nested Kind.map fs = do
    (h, l) ← wrapping (wrap "read map begin error") (lift (read_map_begin fs))
    wrapping (wrap "write map begin error") (act (oprot.write_map_begin h.0 h.1 h.2))
    offset ← write_entries nested h.0 h.1 (rounds h.2) fs l
    offset' ← read_end "read map end error" fs offset
    wrapping (wrap "write map end error") (act oprot.write_map_end)
    pure offset'
  write_kind fuel nested Kind.struct fs = do
    (u, l) ← wrapping (wrap "read struct begin error") (lift (read_nothing fs))
    offset ← write_members fuel nested fs l
    offset' ← read_end "read struct end error" fs offset
    wrapping (wrap "write struct end error") (act oprot.write_struct_end)
    pure offset'

  -- The fuel bounds the nesting and the fields of one struct; `Write.Ends` shows how much is enough.
  pub write : ℕ → ℤ → Slice → Exec S Error ℕ
  write zero t fs = no_fuel
  write (suc fuel) t fs = elim (kind_of t) [
    | none ↦ fail (unknown_type t)
    | some k ↦ write_kind fuel (write fuel) k fs
  ]

  -- The loop of `Fields.Write`, `for offset < len(rbuf)`: the rounds, and the fuel of each `write`.
  pub fields_loop : ℕ → ℕ → Slice → ℕ → Exec S Error (Unit {0})
  fields_loop zero fuel fs offset = no_fuel
  fields_loop (suc rounds) fuel fs offset = elim (ltb offset (length fs.bytes)) [
    | false ↦ pure tt
    | true ↦
        wrapping (wrap "read field begin error")
          (lift (slice_from offset fs) >>= λ r. lift (read_field_begin r))
        >>= λ h.
            write_member (write fuel) h.0.0 h.0.1 fs (offset + h.1) >>= fields_loop rounds fuel fs
  ]

  pub fields_write : ℕ → Slice → Exec S Error (Unit {0})
  fields_write fuel fs = fields_loop fuel fuel fs 0
