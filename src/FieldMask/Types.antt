-- ===== src/FieldMask/Types.antt =====
-- fieldmask/utils.go: the type of a mask for a Thrift type.
use thriftgo.Prelude.{ℕ, zero, suc, none, some, List, [], ◌∷◌, if◌then◌else◌, map}
use thriftgo.Prelude.Names.{contains}
use thriftgo.Prelude.Bytes.{Bytes, codes, bytes_eq}
use thriftgo.Go.Outcome.{ok, panic, stuck, ◌>>=◌}
use thriftgo.Reflection.Descriptors.{
  TypeDescriptor, nil, type_descriptor, World, Result, get_name, get_key_type,
}
use thriftgo.Reflection.Types.{
  is_basic, is_list, is_map, is_struct, is_enum, is_typedef, type_typedef,
}
use thriftgo.FieldMask.Storage.{
  FieldMaskType, ft_invalid, ft_scalar, ft_list, ft_struct, ft_str_map, ft_int_map,
}

unfoldable pub int_names : List Bytes
int_names = map codes ("i8" ∷ "i16" ∷ "i32" ∷ "i64" ∷ "byte" ∷ [])

unfoldable pub str_names : List Bytes
str_names = map codes ("string" ∷ "binary" ∷ [])

module _ (w : World) where
  -- The loop of unwrapDesc through typedefs, on fuel; a typedef of itself goes on without end.
  unfoldable pub unwrap_loop : ℕ → TypeDescriptor → Result TypeDescriptor
  unwrap_loop zero desc = stuck
  unwrap_loop (suc fuel) desc = is_typedef w desc >>= λ b.
      if b
      then type_typedef w desc
        >>= (λ o. elim o [ none ↦ panic | some td ↦ unwrap_loop fuel td.type ])
      else ok desc

  unfoldable pub unwrap_desc : ℕ → TypeDescriptor → Result TypeDescriptor
  unwrap_desc fuel nil = ok nil
  unwrap_desc fuel (type_descriptor filepath name k v extra) =
      unwrap_loop fuel (type_descriptor filepath name k v extra)

  -- The type of a mask for a map, by its key type.
  unfoldable pub key_ft : TypeDescriptor → Result FieldMaskType
  key_ft kt = is_enum w kt >>= λ enum.
      if enum
      then ok ft_int_map
      else get_name kt >>= λ name. ok (
          if contains name int_names
          then ft_int_map
          else if contains name str_names
          then ft_str_map
          else ft_scalar)

  unfoldable pub switch_ft : ℕ → TypeDescriptor → Result FieldMaskType
  switch_ft fuel t = unwrap_desc fuel t >>= λ desc. is_basic desc >>= λ basic.
      if basic
      then ok ft_scalar
      else is_list desc >>= λ list.
          if list
          then ok ft_list
          else is_map desc >>= λ keyed.
              if keyed
              then get_key_type desc >>= unwrap_desc fuel >>= key_ft
              else is_struct w desc >>= λ struct.
                  if struct
                  then ok ft_struct
                  else is_enum w desc >>= λ enum. ok (if enum then ft_scalar else ft_invalid)
