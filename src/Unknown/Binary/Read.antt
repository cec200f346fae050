-- ===== src/Unknown/Binary/Read.antt =====
-- The `Read...` methods of binary.go. A slice has its bytes and, behind them, the bytes up to its
-- capacity, which a reslice can reach. The results are a value and the number of bytes that were
-- read; the name of a struct or a field, which the methods leave empty, is left out.
use thriftgo.Prelude.{
  ℕ, ◌+◌, Bool, List, [], ◌∷◌, ◌++◌, ltb, leb, if◌then◌else◌, length, take, drop,
}
use thriftgo.Prelude.Ints.{ℤ, pos, negsuc, eq_ℤ, signed}
use thriftgo.Go.Outcome.{Outcome, ok, err, panic, ◌>>=◌}
use thriftgo.Unknown.Types.{m8, m16, m32, m64, t_stop, Error, invalid_data_length}
use thriftgo.Unknown.Binary.Words.{be_word}

pub record Slice : Type 0 where
  pub bytes : List ℕ
  pub spare : List ℕ

abbrev pub Reader : Type 0 → Type 0
Reader A = Slice → Outcome Error (A × ℕ)

-- `buf[off:]`
unfoldable pub slice_from : ℕ → Slice → Outcome Error Slice
slice_from off buf =
    if leb off (length buf.bytes) then ok (record buf { bytes = drop off buf.bytes }) else panic

-- `buf[low:high]`, whose upper bound is the capacity.
unfoldable pub slice_between : ℕ → ℕ → Slice → Outcome Error (List ℕ)
slice_between low size buf =
    if leb (low + size) (length (buf.bytes ++ buf.spare))
    then ok (take size (drop low (buf.bytes ++ buf.spare)))
    else panic

unfoldable pub first_byte : List ℕ → Outcome Error (ℤ × ℕ)
first_byte [] = err invalid_data_length
first_byte (b ∷ bs) = ok (signed m8 b, 1)

unfoldable pub read_byte : Reader ℤ
unfolding first_byte
read_byte buf = first_byte buf.bytes

unfoldable pub read_i16 : Reader ℤ
unfolding be_word
read_i16 buf =
    if ltb (length buf.bytes) 2
    then err invalid_data_length
    else ok (signed m16 (be_word 0 (take 2 buf.bytes)), 2)

unfoldable pub read_i32 : Reader ℤ
unfolding be_word
read_i32 buf =
    if ltb (length buf.bytes) 4
    then err invalid_data_length
    else ok (signed m32 (be_word 0 (take 4 buf.bytes)), 4)

unfoldable pub read_i64 : Reader ℤ
unfolding be_word
read_i64 buf =
    if ltb (length buf.bytes) 8
    then err invalid_data_length
    else ok (signed m64 (be_word 0 (take 8 buf.bytes)), 8)

-- The 64 bits of the double.
unfoldable pub read_double : Reader ℕ
unfolding be_word
read_double buf =
    if ltb (length buf.bytes) 8
    then err invalid_data_length
    else ok (be_word 0 (take 8 buf.bytes), 8)

unfoldable pub read_bool : Reader Bool
unfolding read_byte
read_bool buf = do (b, l) ← read_byte buf; ok (eq_ℤ b (pos 1), l)

-- `size < 0 || int(size) > len(buf)` is tested against the whole slice, and the slice expression
-- starts `length` bytes on.
unfoldable pub read_sized : Slice → ℕ → ℤ → Outcome Error (List ℕ × ℕ)
unfolding slice_between
read_sized buf l (negsuc n) = err invalid_data_length
read_sized buf l (pos size) =
    if ltb (length buf.bytes) size
    then err invalid_data_length
    else (do value ← slice_between l size buf; ok (value, l + size))

unfoldable pub read_string : Reader (List ℕ)
read_string buf = do (size, l) ← read_i32 buf; read_sized buf l size

unfoldable pub read_binary : Reader (List ℕ)
read_binary buf = do (size, l) ← read_i32 buf; read_sized buf l size

-- The id is read only if the type is no stop.
unfoldable pub read_field_begin : Reader (ℤ × ℤ)
read_field_begin buf = do
  (type_id, l) ← read_byte buf
  if eq_ℤ type_id t_stop
      then ok ((type_id, pos 0), l)
      else (do rest ← slice_from l buf; (id, k) ← read_i16 rest; ok ((type_id, id), l + k))

-- `if size32 < 0 { err = InvalidDataLength }`
unfoldable pub checked_size {ℓ} : {A : Type ℓ} → ℤ → A → Outcome Error A
checked_size (pos n) a = ok a
checked_size (negsuc n) a = err invalid_data_length

unfoldable pub read_list_begin : Reader (ℤ × ℤ)
read_list_begin buf = do
  (elem_type, l) ← read_byte buf
  rest ← slice_from l buf
  (size, k) ← read_i32 rest
  checked_size size ((elem_type, size), l + k)

unfoldable pub read_set_begin : Reader (ℤ × ℤ)
read_set_begin buf = do
  (elem_type, l) ← read_byte buf
  rest ← slice_from l buf
  (size, k) ← read_i32 rest
  checked_size size ((elem_type, size), l + k)

unfoldable pub read_map_begin : Reader (ℤ × ℤ × ℤ)
read_map_begin buf = do
  (key_type, l) ← read_byte buf
  rest ← slice_from l buf
  (value_type, k) ← read_byte rest
  rest' ← slice_from (l + k) buf
  (size, n) ← read_i32 rest'
  checked_size size ((key_type, value_type, size), l + k + n)

-- ReadStructBegin and the `Read...End` methods read nothing.
abbrev pub read_nothing : Reader (Unit {0})
read_nothing buf = ok (tt, 0)
