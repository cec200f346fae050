-- ===== src/Unknown/Binary/Write.antt =====
-- The `Write...` methods of binary.go: they write at the start of a slice and return the number of
-- bytes. A slice that is too short is a panic.
use thriftgo.Prelude.{
  ℕ, ◌+◌, Bool, true, false, List, [], ◌∷◌, ◌++◌, String, leb, if◌then◌else◌, length, take, drop,
}
use thriftgo.Prelude.Ints.{ℤ, pos, unsigned, wrap_int}
use thriftgo.Go.Outcome.{Outcome, ok, panic, ◌>>=◌}
use thriftgo.Unknown.Types.{m8, m16, m32, m64, t_stop, Error}
use thriftgo.Unknown.Binary.Words.{be_bytes}

-- The count that is returned, with the slice after the writes.
abbrev pub Writer : Type 0
Writer = List ℕ → Outcome Error (ℕ × List ℕ)

-- `buf[0] = b`, PutUint16, PutUint32 and PutUint64 check that the slice is long enough.
unfoldable pub put : List ℕ → List ℕ → Outcome Error (List ℕ)
put bs buf = if leb (length bs) (length buf) then ok (bs ++ drop (length bs) buf) else panic

-- The builtin `copy(dst, src)`: as many bytes as both have.
unfoldable pub copy : List ℕ → List ℕ → List ℕ
copy dst src = take (length dst) src ++ drop (length src) dst

-- A write through `buf[off:]`.
unfoldable pub write_from : ℕ → Writer → Writer
write_from off w buf =
    if leb off (length buf)
    then (do (n, tail) ← w (drop off buf); ok (n, take off buf ++ tail))
    else panic

-- `w₁(buf) + w₂(buf[off:])`
unfoldable pub then_from : Writer → ℕ → Writer → Writer
then_from w₁ off w₂ buf = do
  (n, buf₁) ← w₁ buf
  (k, buf₂) ← write_from off w₂ buf₁
  ok (n + k, buf₂)

abbrev pub write_nothing : Writer
write_nothing buf = ok (0, buf)

abbrev pub write_struct_begin : String → Writer
write_struct_begin name = write_nothing

abbrev pub write_struct_end : Writer
write_struct_end = write_nothing

abbrev pub write_field_end : Writer
write_field_end = write_nothing

abbrev pub write_map_end : Writer
write_map_end = write_nothing

abbrev pub write_list_end : Writer
write_list_end = write_nothing

abbrev pub write_set_end : Writer
write_set_end = write_nothing

unfoldable pub write_byte : ℤ → Writer
unfolding put
write_byte value buf = do buf' ← put (unsigned m8 value ∷ []) buf; ok (1, buf')

unfoldable pub write_i16 : ℤ → Writer
unfolding put be_bytes
write_i16 value buf = do buf' ← put (be_bytes 2 (unsigned m16 value)) buf; ok (2, buf')

unfoldable pub write_i32 : ℤ → Writer
unfolding put be_bytes
write_i32 value buf = do buf' ← put (be_bytes 4 (unsigned m32 value)) buf; ok (4, buf')

unfoldable pub write_i64 : ℤ → Writer
unfolding put be_bytes
write_i64 value buf = do buf' ← put (be_bytes 8 (unsigned m64 value)) buf; ok (8, buf')

-- `value` is `math.Float64bits` of the double; WriteI64 of its bits writes these 8 bytes.
unfoldable pub write_double : ℕ → Writer
unfolding put be_bytes
write_double value buf = do buf' ← put (be_bytes 8 value) buf; ok (8, buf')

unfoldable pub write_bool : Bool → Writer
unfolding write_byte
write_bool true = write_byte (pos 1)
write_bool false = write_byte (pos 0)

unfoldable pub write_field_begin : String → ℤ → ℤ → Writer
unfolding then_from write_from write_byte write_i16
write_field_begin name type_id id = then_from (write_byte (wrap_int m8 type_id)) 1 (write_i16 id)

unfoldable pub write_field_stop : Writer
unfolding write_byte
write_field_stop = write_byte t_stop

unfoldable pub write_map_begin : ℤ → ℤ → ℤ → Writer
unfolding then_from write_from write_byte write_i32
write_map_begin key_type value_type size =
    then_from
      (then_from (write_byte (wrap_int m8 key_type)) 1 (write_byte (wrap_int m8 value_type))) 2
      (write_i32 (wrap_int m32 size))

unfoldable pub write_list_begin : ℤ → ℤ → Writer
unfolding then_from write_from write_byte write_i32
write_list_begin elem_type size =
    then_from (write_byte (wrap_int m8 elem_type)) 1 (write_i32 (wrap_int m32 size))

unfoldable pub write_set_begin : ℤ → ℤ → Writer
unfolding then_from write_from write_byte write_i32
write_set_begin elem_type size =
    then_from (write_byte (wrap_int m8 elem_type)) 1 (write_i32 (wrap_int m32 size))

-- `l := w₁(buf)`, then `w₂` through `buf[l:]`, and `l` and its count in all.
unfoldable pub then_after : Writer → Writer → Writer
then_after w₁ w₂ buf = do (l, buf₁) ← w₁ buf; (k, buf₂) ← write_from l w₂ buf₁; ok (l + k, buf₂)

-- `copy(dst, value)`, which counts for `len(value)`.
unfoldable pub copy_in : List ℕ → Writer
unfolding copy
copy_in value dst = ok (length value, copy dst value)

unfoldable pub write_string : List ℕ → Writer
unfolding then_after write_from write_i32 copy_in
write_string value = then_after (write_i32 (wrap_int m32 (pos (length value)))) (copy_in value)

unfoldable pub write_binary : List ℕ → Writer
unfolding then_after write_from write_i32 copy_in
write_binary value = then_after (write_i32 (wrap_int m32 (pos (length value)))) (copy_in value)
