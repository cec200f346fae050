-- ===== src/Unknown/Binary/Length.antt =====
-- The `...Length` methods of binary.go: how many bytes a value takes.
use thriftgo.Prelude.{ℕ, ◌+◌, Bool, true, false, List, String, length}
use thriftgo.Prelude.Ints.{ℤ, pos, wrap_int}
use thriftgo.Unknown.Types.{m8, m32, t_stop}

abbrev pub struct_begin_length : String → ℕ
struct_begin_length name = 0

abbrev pub struct_end_length : ℕ
struct_end_length = 0

abbrev pub byte_length : ℤ → ℕ
byte_length value = 1

abbrev pub i16_length : ℤ → ℕ
i16_length value = 2

abbrev pub i32_length : ℤ → ℕ
i32_length value = 4

abbrev pub i64_length : ℤ → ℕ
i64_length value = 8

-- A double is given by its 64 bits, `math.Float64bits(value)`.
abbrev pub double_length : ℕ → ℕ
double_length value = 8

abbrev pub field_begin_length : String → ℤ → ℤ → ℕ
field_begin_length name type_id id = byte_length (wrap_int m8 type_id) + i16_length id

abbrev pub field_end_length : ℕ
field_end_length = 0

abbrev pub field_stop_length : ℕ
field_stop_length = byte_length t_stop

abbrev pub map_begin_length : ℤ → ℤ → ℤ → ℕ
map_begin_length key_type value_type size =
    byte_length (wrap_int m8 key_type)
    + byte_length (wrap_int m8 value_type)
    + i32_length (wrap_int m32 size)

abbrev pub map_end_length : ℕ
map_end_length = 0

abbrev pub list_begin_length : ℤ → ℤ → ℕ
list_begin_length elem_type size =
    byte_length (wrap_int m8 elem_type) + i32_length (wrap_int m32 size)

abbrev pub list_end_length : ℕ
list_end_length = 0

abbrev pub set_begin_length : ℤ → ℤ → ℕ
set_begin_length elem_type size =
    byte_length (wrap_int m8 elem_type) + i32_length (wrap_int m32 size)

abbrev pub set_end_length : ℕ
set_end_length = 0

abbrev pub bool_length : Bool → ℕ
bool_length true = byte_length (pos 1)
bool_length false = byte_length (pos 0)

abbrev pub string_length : List ℕ → ℕ
string_length value = i32_length (wrap_int m32 (pos (length value))) + length value

abbrev pub binary_length : List ℕ → ℕ
binary_length value = i32_length (wrap_int m32 (pos (length value))) + length value
