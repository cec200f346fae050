-- ===== src/FieldMask/Pick.antt =====
-- fieldmask/mask.go: the indexes and the keys of a path, between brackets or braces.
pub mod Ends
use thriftgo.Prelude.{
  ℕ, zero, suc, ◌^◌, ◌≡◌, Option, none, some, List, [], ◌∷◌, ◌++◌, Bool, true, false, not, ◌||◌,
  if◌then◌else◌, length,
}
use thriftgo.Prelude.Ints.{ℤ, pos, wrap_int}
use thriftgo.Prelude.Bytes.{Bytes}
use thriftgo.Go.Outcome.{Outcome, ok, err, panic, stuck, ◌>>=◌, map_err}
use thriftgo.Reflection.Descriptors.{
  TypeDescriptor, nil, type_descriptor, FieldDescriptor, StructDescriptor, World, get_value_type,
  get_key_type,
}
use thriftgo.Reflection.Files.{get_field_by_name, get_field_by_id}
use thriftgo.Reflection.Types.{type_struct, is_list, is_map}
use thriftgo.FieldMask.Path.{
  PathType, lit_str, lit_int, quoted, root, field, index_l, index_r, map_l, map_r, elem, any, eof,
  PathToken, Result, PathIterator, new_path_iter, left_path, has_next, next,
}
use thriftgo.FieldMask.Storage.{
  FieldMaskType, ft_invalid, ft_scalar, ft_list, ft_struct, ft_str_map, ft_int_map, FieldMask,
  no_mask, mask, reset_fields, reset_ints, reset_strs, field_child, put_field, int_child, put_int,
  str_child, put_str, all_child, put_all, nil_ints, nil_strs, no_fields,
}

-- `*` for the elements, or the keys: their masks are reset, and the mask covers all.
unfoldable pub settle_ints : FieldMask → Result FieldMask
settle_ints no_mask = panic
settle_ints (mask is_all black typ a fd ints strs) =
    ok (mask true black typ a fd (reset_ints ints) strs)

unfoldable pub settle_keys : FieldMask → Result FieldMask
settle_keys no_mask = panic
settle_keys (mask is_all black typ a fd ints strs) =
    ok (mask true black typ a fd (reset_ints ints) (reset_strs strs))

-- What the loop over the indexes, or the keys, in brackets leaves.
pub record Picked : Type 0 where
  pub cur : FieldMask
  pub covers : Bool
  pub ids : List ℤ
  pub strs : List Bytes
  pub rest : PathIterator

-- A token between brackets, and how the loop goes on behind it.
unfoldable pub int_token :
    (FieldMask → Bool → List ℤ → PathIterator → Result Picked)
    → FieldMask
    → Bool
    → Bool
    → List ℤ
    → PathType
    → PathToken
    → PathIterator
    → Result Picked
int_token again cur covers empty ids eof tok it = err "isn't integer"
int_token again cur covers empty ids index_r tok it =
    if empty
    then err "empty index set"
    else ok (record { cur = cur; covers = covers; ids = ids; strs = []; rest = it })
int_token again cur covers empty ids elem tok it = again cur covers ids it
int_token again cur covers empty ids any tok it =
    settle_ints cur >>= λ settled. again settled true ids it
int_token again cur covers empty ids lit_int tok it =
    if covers
    then err "id conflicts with previously settled '*'"
    else again cur covers (ids ++ pos tok.number ∷ []) it
int_token again cur covers empty ids typ tok it =
    if covers then err "id conflicts with previously settled '*'" else err "isn't literal"

-- A token between braces, and how the loop goes on behind it.
unfoldable pub key_token :
    (FieldMask → Bool → List ℤ → List Bytes → PathIterator → Result Picked)
    → Bool
    → Bool
    → FieldMask
    → Bool
    → Bool
    → List ℤ
    → List Bytes
    → PathType
    → PathToken
    → PathIterator
    → Result Picked
key_token again is_int is_str cur covers empty ids strs eof tok it = err "EOF"
key_token again is_int is_str cur covers empty ids strs map_r tok it =
    if empty
    then err "empty key set"
    else ok (record { cur = cur; covers = covers; ids = ids; strs = strs; rest = it })
key_token again is_int is_str cur covers empty ids strs elem tok it = again cur covers ids strs it
key_token again is_int is_str cur covers empty ids strs any tok it =
    settle_keys cur >>= λ settled. again settled true ids strs it
key_token again is_int is_str cur covers empty ids strs lit_int tok it =
    if covers
    then err "key conflicts with previous settled '*'"
    else if is_int
    then again cur covers (ids ++ pos tok.number ∷ []) strs it
    else err "expect string but got integer"
key_token again is_int is_str cur covers empty ids strs quoted tok it =
    if covers
    then err "key conflicts with previous settled '*'"
    else if is_str
    then again cur covers ids (strs ++ tok.text ∷ []) it
    else err "expect integer but got string"
key_token again is_int is_str cur covers empty ids strs typ tok it =
    if covers
    then err "key conflicts with previous settled '*'"
    else err "expect integer or string or '*' as key"

module _ (unquote : Bytes → Option Bytes) where
  -- The loop over the indexes between brackets, on fuel; the path may end without a bracket.
  unfoldable pub pick_ints : ℕ → FieldMask → Bool → Bool → List ℤ → PathIterator → Result Picked
  pick_ints zero cur covers empty ids it = stuck
  pick_ints (suc fuel) cur covers empty ids it =
      if has_next it
      then next unquote it >>= (λ t.
        int_token (λ c b l q. pick_ints fuel c b false l q) cur covers empty ids t.0.typ t.0 t.1)
      else ok (record { cur = cur; covers = covers; ids = ids; strs = []; rest = it })

  -- The loop over the keys between braces, on fuel; the path may end without a brace.
  unfoldable pub pick_keys :
      ℕ → Bool → Bool → FieldMask → Bool → Bool → List ℤ → List Bytes → PathIterator → Result Picked
  pick_keys zero is_int is_str cur covers empty ids strs it = stuck
  pick_keys (suc fuel) is_int is_str cur covers empty ids strs it =
      if has_next it
      then next unquote it >>= (λ t.
        key_token (λ c b l k q. pick_keys fuel is_int is_str c b false l k q) is_int is_str cur
          covers empty ids strs t.0.typ t.0 t.1)
      else ok (record { cur = cur; covers = covers; ids = ids; strs = strs; rest = it })
