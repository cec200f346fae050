-- ===== src/Unknown/Read.antt =====
-- `read`, `ensureBytesLen` and `Fields.Append` of generator/golang/extension/unknown/unknown.go: a
-- field that the program does not know is taken from a protocol and kept as bytes.
pub mod Supplies
pub mod Appends
pub mod Complete
pub mod Fields
pub mod Errors
use thriftgo.Prelude.{
  ℕ, zero, suc, ◌+◌, ◌*◌, Bool, true, false, Option, none, some, List, [], ◌∷◌, ◌++◌, String, ltb,
  leb, if◌then◌else◌, length, take, drop, replicate,
}
use thriftgo.Prelude.Ints.{ℤ, pos, eq_ℤ, rounds}
use thriftgo.Go.Outcome
use thriftgo.Go.Outcome.{Outcome, ok, err, panic, stuck}
use thriftgo.Go.Exec.{Exec, pure, fail, lift, no_fuel, wrapping, ◌>>=◌, ◌>>◌}
use thriftgo.Unknown.Types.{Kind, kind_of, t_stop, Error, exceed_depth_limit, unknown_type, wrap}
use thriftgo.Unknown.Binary.Length.{
  struct_begin_length, struct_end_length, byte_length, i16_length, i32_length, i64_length,
  double_length, field_begin_length, field_end_length, field_stop_length, map_begin_length,
  map_end_length, list_begin_length, list_end_length, set_begin_length, set_end_length, bool_length,
  string_length,
}
use thriftgo.Unknown.Binary.Write.{
  Writer, copy, write_from, write_struct_begin, write_struct_end, write_field_begin,
  write_field_end, write_field_stop, write_map_begin, write_map_end, write_list_begin,
  write_list_end, write_set_begin, write_set_end, write_bool, write_byte, write_i16, write_i32,
  write_i64, write_double, write_string,
}
use thriftgo.Unknown.Binary.Read.{Slice}
use thriftgo.Unknown.Protocol.{Protocol, Returning, Acting, outcome_of}

-- The variables `*buf` and `offset`, and the protocol. The buffer is as long as its capacity: it is
-- made so, or comes from `fs[:cap(fs)]`.
pub record Cursor (S : Type 0) : Type 0 where
  pub buf : List ℕ
  pub offset : ℕ
  pub prot : S

-- A new buffer of twice the size that is needed, with the first `offset` bytes of the old one.
pub ensure_bytes_len : List ℕ → ℕ → ℕ → Outcome Error (List ℕ)
unfolding copy
ensure_bytes_len buf offset l =
    if ltb (length buf) (offset + l)
    then if leb offset (length buf)
      then ok (copy (replicate ((offset + l) * 2) 0) (take offset buf))
      else panic
    else ok buf

-- How `read` calls itself, one level down.
abbrev pub Nested : Type 0 → Type 0
Nested S = ℤ → Exec (Cursor S) Error (Unit {0})

module _ {S : Type 0} where
  abbrev pub put_back : Cursor S → Outcome Error (ℕ × List ℕ) → Outcome Error (Unit {0}) × Cursor S
  put_back c (ok (n, buf)) = (ok tt, record c { buf = buf; offset = c.offset + n })
  put_back c (err e) = (err e, c)
  put_back c panic = (panic, c)
  put_back c stuck = (stuck, c)

  -- `ensureBytesLen(buf, offset, l); offset += w((*buf)[offset:])`
  pub advance : ℕ → Writer → Exec (Cursor S) Error (Unit {0})
  advance l w c =
      put_back c (Outcome.◌>>=◌ (ensure_bytes_len c.buf c.offset l) (write_from c.offset w))

  -- A method of the protocol is called, and its error is not looked at.
  pub ask : {A : Type 0} → Returning S A → Exec (Cursor S) Error (A × Option Error)
  ask f c = let (a, e, s') = f c.prot in (ok (a, e), record c { prot = s' })

  -- `v, err := iprot.ReadX(ctx); if err != nil { return offset, err }`
  pub query : {A : Type 0} → Returning S A → Exec (Cursor S) Error A
  query f c = let (a, e, s') = f c.prot in (outcome_of a e, record c { prot = s' })

  pub tell : Acting S → Exec (Cursor S) Error (Unit {0})
  tell f c = let (e, s') = f c.prot in (outcome_of tt e, record c { prot = s' })

  -- The cases of the scalar types write what was read and end in `return offset, nil`.
  pub read_scalar :
      {A : Type 0} → Returning S A → (A → ℕ) → (A → Writer) → Exec (Cursor S) Error (Unit {0})
  read_scalar f len w = do (v, e) ← ask f; advance (len v) (w v)

  pub read_elems : String → Nested S → ℤ → ℕ → Exec (Cursor S) Error (Unit {0})
  read_elems msg nested t zero = pure tt
  read_elems msg nested t (suc n) = wrapping (wrap msg) (nested t) >> read_elems msg nested t n

  pub read_entries : Nested S → ℤ → ℤ → ℕ → Exec (Cursor S) Error (Unit {0})
  read_entries nested kt vt zero = pure tt
  read_entries nested kt vt (suc n) =
      wrapping (wrap "read map key error") (nested kt)
      >> (wrapping (wrap "read map value error") (nested vt) >> read_entries nested kt vt n)

module _ {S : Type 0} (iprot : Protocol S) where
  -- One field of a struct behind its header: the header is kept, then the value.
  pub read_member : Nested S → String → ℤ → ℤ → Exec (Cursor S) Error (Unit {0})
  read_member nested name t id = do
    advance (field_begin_length name t id) (write_field_begin name t id)
    wrapping (wrap "read struct field error") (nested t)
    wrapping (wrap "read field end error") (tell iprot.read_field_end)
    advance field_end_length write_field_end

  -- The `for` loop over the fields of a struct, which ends at a stop; the first argument is fuel.
  pub read_members : ℕ → Nested S → Exec (Cursor S) Error (Unit {0})
  read_members zero nested = no_fuel
  read_members (suc fuel) nested =
      wrapping (wrap "read field begin error") (query iprot.read_field_begin) >>= λ h.
      elim (eq_ℤ h.1 t_stop) [
        | true ↦ advance field_stop_length write_field_stop
        | false ↦ read_member nested h.0 h.1 h.2 >> read_members fuel nested
      ]

  -- The cases of `switch fieldType`.
  pub read_kind : ℕ → Nested S → Kind → Exec (Cursor S) Error (Unit {0})
  read_kind fuel nested Kind.bool = read_scalar iprot.read_bool bool_length write_bool
  read_kind fuel nested Kind.byte = read_scalar iprot.read_byte byte_length write_byte
  read_kind fuel nested Kind.i16 = read_scalar iprot.read_i16 i16_length write_i16
  read_kind fuel nested Kind.i32 = read_scalar iprot.read_i32 i32_length write_i32
  read_kind fuel nested Kind.i64 = read_scalar iprot.read_i64 i64_length write_i64
  read_kind fuel nested Kind.double = read_scalar iprot.read_double double_length write_double
  read_kind fuel nested Kind.string = read_scalar iprot.read_string string_length write_string
  read_kind fuel nested Kind.set = do
    h ← wrapping (wrap "read set begin error") (query iprot.read_set_begin)
    advance (set_begin_length h.0 h.1) (write_set_begin h.0 h.1)
    read_elems "read set elem error" nested h.0 (rounds h.1)
    wrapping (wrap "read set end error") (tell iprot.read_set_end)
    advance set_end_length write_set_end
  read_kind fuel nested Kind.list = do
    h ← wrapping (wrap "read list begin error") (query iprot.read_list_begin)
    advance (list_begin_length h.0 h.1) (write_list_begin h.0 h.1)
    read_elems "read list elem error" nested h.0 (rounds h.1)
    wrapping (wrap "read list end error") (tell iprot.read_list_end)
    advance list_end_length write_list_end
  read_kind fuel nested Kind.map = do
    h ← wrapping (wrap "read map begin error") (query iprot.read_map_begin)
    advance (map_begin_length h.0 h.1 h.2) (write_map_begin h.0 h.1 h.2)
    read_entries nested h.0 h.1 (rounds h.2)
    wrapping (wrap "read map end error") (tell iprot.read_map_end)
    advance map_end_length write_map_end
  read_kind fuel nested Kind.struct = do
    name ← wrapping (wrap "read struct begin error") (query iprot.read_struct_begin)
    advance (struct_begin_length name) (write_struct_begin name)
    read_members fuel nested
    wrapping (wrap "read struct end error") (tell iprot.read_struct_end)
    advance struct_end_length write_struct_end

  -- `maxDepth <= 0` is the first test. The first argument is fuel for the fields of a struct.
  pub read : ℕ → ℕ → ℤ → Exec (Cursor S) Error (Unit {0})
  read fuel zero t = fail exceed_depth_limit
  read fuel (suc depth) t = elim (kind_of t) [
    | none ↦ fail (unknown_type t)
    | some k ↦ read_kind fuel (read fuel depth) k
  ]

  -- `Fields.Append`, once the protocol is converted: the buffer is all that the slice can hold, and
  -- the slice keeps what was written, also beside an error.
  pub fields_append : ℕ → ℕ → String → ℤ → ℤ → Slice → S → Outcome Error (Unit {0}) × Slice × S
  fields_append fuel max_depth name field_type id fs s =
      let (r, c) =
        (advance (field_begin_length name field_type id) (write_field_begin name field_type id)
            >> read fuel max_depth field_type)
          (record { buf = fs.bytes ++ fs.spare; offset = length fs.bytes; prot = s }) in
      (r, record { bytes = take c.offset c.buf; spare = drop c.offset c.buf }, c.prot)

-- `maxNestingDepth`, until SetNestingDepthLimit is called.
abbrev pub max_nesting_depth : ℕ
max_nesting_depth = 64
