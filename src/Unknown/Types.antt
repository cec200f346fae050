-- ===== src/Unknown/Types.antt =====
-- The type ids and the errors of generator/golang/extension/unknown.
use thriftgo.Prelude.{ℕ, Option, none, some, if◌then◌else◌, String}
use thriftgo.Prelude.Ints.{ℤ, pos, eq_ℤ}

-- The sizes of the machine integers, as numbers of values.
abbrev pub m8 : ℕ
m8 = 256

abbrev pub m16 : ℕ
m16 = 65536

abbrev pub m32 : ℕ
m32 = 4294967296

abbrev pub m64 : ℕ
m64 = 18446744073709551616

abbrev pub t_stop : ℤ
t_stop = pos 0

-- The types that `read` and `write` have a case for.
pub data Kind : Type 0 where
  bool byte double i16 i32 i64 string struct map set list : Kind

-- TBool, TByte, TDouble, TI16, TI32, TI64, TString, TStruct, TMap, TSet, TList
abbrev pub type_id : Kind → ℤ
type_id bool = pos 2
type_id byte = pos 3
type_id double = pos 4
type_id i16 = pos 6
type_id i32 = pos 8
type_id i64 = pos 10
type_id string = pos 11
type_id struct = pos 12
type_id map = pos 13
type_id set = pos 14
type_id list = pos 15

-- `switch fieldType`: the case that is taken, `none` for the default.
unfoldable pub kind_of : ℤ → Option Kind
kind_of t =
    if eq_ℤ t (type_id bool)
    then some bool
    else if eq_ℤ t (type_id byte)
    then some byte
    else if eq_ℤ t (type_id i16)
    then some i16
    else if eq_ℤ t (type_id i32)
    then some i32
    else if eq_ℤ t (type_id i64)
    then some i64
    else if eq_ℤ t (type_id double)
    then some double
    else if eq_ℤ t (type_id string)
    then some string
    else if eq_ℤ t (type_id set)
    then some set
    else if eq_ℤ t (type_id list)
    then some list
    else if eq_ℤ t (type_id map)
    then some map
    else if eq_ℤ t (type_id struct)
    then some struct
    else none

-- `wrap s e` is `fmt.Errorf(s + ": %w", e)`, and `foreign` an error of the protocol that is read or
-- written, which is not part of the repository.
pub data Error : Type 0 where
  invalid_data_length : Error
  exceed_depth_limit : Error
  unknown_type : ℤ → Error
  foreign : ℕ → Error
  wrap : String → Error → Error
