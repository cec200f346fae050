-- ===== src/FieldMask/Build.antt =====
-- fieldmask/mask.go: adding a path to a mask.
pub mod Answers
pub mod Kept
pub mod Enters
pub mod Ends
pub mod Root
pub mod Mode
use thriftgo.Prelude.{
  ℕ, zero, suc, ◌^◌, ◌≡◌, Option, none, some, List, [], ◌∷◌, ◌++◌, Bool, true, false, not, ◌||◌,
  if◌then◌else◌, length,
}
use thriftgo.Prelude.Ints.{ℤ, pos, wrap_int}
use thriftgo.Prelude.Bytes.{Bytes}
use thriftgo.Go.Outcome.{Outcome, ok, err, panic, stuck, ◌>>=◌, map_err}
use thriftgo.Reflection.Descriptors.{
  TypeDescriptor, nil, type_descriptor, FieldDescriptor, StructDescriptor, World, get_value_type,
  get_key_type,
}
use thriftgo.Reflection.Files.{get_field_by_name, get_field_by_id}
use thriftgo.Reflection.Types.{type_struct, is_list, is_map}
use thriftgo.FieldMask.Path.{
  PathType, lit_str, lit_int, quoted, root, field, index_l, index_r, map_l, map_r, elem, any, eof,
  PathToken, Result, PathIterator, new_path_iter, left_path, has_next, next,
}
use thriftgo.FieldMask.Storage.{
  FieldMaskType, ft_invalid, ft_scalar, ft_list, ft_struct, ft_str_map, ft_int_map, FieldMask,
  no_mask, mask, reset_fields, reset_ints, reset_strs, field_child, put_field, int_child, put_int,
  str_child, put_str, all_child, put_all, nil_ints, nil_strs, no_fields,
}
use thriftgo.FieldMask.Query.{all, type}
use thriftgo.FieldMask.Pick.{Picked, pick_ints, pick_keys}
use thriftgo.FieldMask.Types.{unwrap_desc, switch_ft}

unfoldable pub set_type : FieldMaskType → FieldMask → Result FieldMask
set_type ft no_mask = panic
set_type ft (mask is_all black typ a fd ints strs) = ok (mask is_all black ft a fd ints strs)

unfoldable pub set_is_all : FieldMask → Result FieldMask
set_is_all no_mask = panic
set_is_all (mask is_all black typ a fd ints strs) = ok (mask true black typ a fd ints strs)

-- `.*`: the masks of the fields are reset, and the mask covers all.
unfoldable pub settle_fields : FieldMask → Result FieldMask
settle_fields no_mask = panic
settle_fields (mask is_all black typ a fd ints strs) =
    ok (mask true black typ a (reset_fields fd) ints strs)

abbrev Loop : Type 0
Loop = FieldMask → PathIterator → TypeDescriptor → Result FieldMask

unfoldable pub valid_ft : FieldMaskType → Result FieldMaskType
valid_ft ft_invalid = err "unspported type for fieldmask"
valid_ft ft = ok ft

-- The path goes on behind `*`, in the mask of all elements.
unfoldable pub enter_all :
    Loop → FieldMaskType → FieldMask → PathIterator → TypeDescriptor → Result FieldMask
enter_all loop ft cur it desc =
    all_child ft cur >>= λ child. loop child it desc >>= λ done. put_all done cur

module _ (w : World) (typedefs : ℕ) (unquote : Bytes → Option Bytes) where
  -- The first lines of addPath, up to the loop.
  unfoldable pub enter_path : Loop → FieldMask → Bytes → TypeDescriptor → Result FieldMask
  enter_path loop cur path desc = unwrap_desc w typedefs desc >>= λ d. elim d [
    | nil ↦ err "nil descriptor"
    | type_descriptor filepath name k v extra ↦
        loop cur (new_path_iter path) (type_descriptor filepath name k v extra)
  ]

  unfoldable pub each_int :
      Loop → FieldMaskType → Bytes → TypeDescriptor → List ℤ → FieldMask → Result FieldMask
  each_int loop ft path et [] cur = ok cur
  each_int loop ft path et (id ∷ ids) cur = int_child id ft cur >>= λ child.
      enter_path loop child path et >>= λ done.
      put_int id done cur >>= λ after. each_int loop ft path et ids after

  unfoldable pub each_str :
      Loop → FieldMaskType → Bytes → TypeDescriptor → List Bytes → FieldMask → Result FieldMask
  each_str loop ft path et [] cur = ok cur
  each_str loop ft path et (id ∷ ids) cur = str_child id ft cur >>= λ child.
      enter_path loop child path et >>= λ done.
      put_str id done cur >>= λ after. each_str loop ft path et ids after

  -- The path goes on in the mask of a field.
  unfoldable pub enter_field : Loop → FieldMask → PathIterator → FieldDescriptor → Result FieldMask
  enter_field loop cur it f = unwrap_desc w typedefs f.type >>= λ d. elim d [
    | nil ↦ err "nil type descriptor"
    | type_descriptor filepath name k v extra ↦ switch_ft w typedefs f.type >>= λ ft.
        field_child f.id ft cur >>= λ child.
        loop child it (type_descriptor filepath name k v extra) >>= λ done. put_field f.id done cur
  ]

  -- `.*`: the type of the mask is that of the first field, and the descriptor stays that of the struct.
  unfoldable pub any_field :
      Loop → FieldMask → PathIterator → TypeDescriptor → List FieldDescriptor → Result FieldMask
  any_field loop cur it desc [] = err "doesn't have children fields"
  any_field loop cur it desc (f ∷ fs) = elim f.type [
    | nil ↦ err "doesn't have children fields"
    | type_descriptor filepath name k v extra ↦
        switch_ft w typedefs (type_descriptor filepath name k v extra) >>= λ ft.
        enter_all loop ft cur it desc
  ]

  abbrev pub found_field :
      Loop → FieldMask → PathIterator → Option FieldDescriptor → Result FieldMask
  found_field loop cur it none = err "field doesn't exist"
  found_field loop cur it (some f) = enter_field loop cur it f

  -- What follows a dot: a name, an id or `*`.
  unfoldable pub field_token :
      Loop
      → FieldMask
      → TypeDescriptor
      → StructDescriptor
      → PathType
      → PathToken
      → PathIterator
      → Result FieldMask
  field_token loop cur desc st eof tok it = err "isn't field-name or field-id"
  field_token loop cur desc st lit_int tok it =
      if all cur
      then err "field conflicts with previously settled '*'"
      else found_field loop cur it (get_field_by_id (some st) (wrap_int (2 ^ 32) (pos tok.number)))
  field_token loop cur desc st lit_str tok it =
      if all cur
      then err "field conflicts with previously settled '*'"
      else found_field loop cur it (get_field_by_name (some st) tok.text)
  field_token loop cur desc st any tok it =
      if all cur
      then err "field conflicts with previously settled '*'"
      else settle_fields cur >>= λ settled. any_field loop settled it desc st.fields
  field_token loop cur desc st typ tok it =
      if all cur
      then err "field conflicts with previously settled '*'"
      else err "isn't field-name or field-id"

  unfoldable pub field_step : Loop → FieldMask → PathIterator → TypeDescriptor → Result FieldMask
  field_step loop cur it desc = map_err (λ e. "isn't STRUCT") (type_struct w desc) >>= λ st.
      type cur >>= λ typ. elim typ [
        | ft_struct ↦ next unquote it >>= λ t. field_token loop cur desc st t.0.typ t.0 t.1
        | _ ↦ err "expect STRUCT"
      ]

  -- The descriptor of the elements, and the type of their masks.
  unfoldable pub element_desc : TypeDescriptor → Result TypeDescriptor
  element_desc desc = get_value_type desc >>= unwrap_desc w typedefs >>= λ et. elim et [
    | nil ↦ err "nil element descriptor"
    | type_descriptor filepath name k v extra ↦ ok (type_descriptor filepath name k v extra)
  ]

  unfoldable pub element_ft : TypeDescriptor → Result FieldMaskType
  element_ft et = switch_ft w typedefs et >>= valid_ft

  unfoldable pub index_step : Loop → FieldMask → PathIterator → TypeDescriptor → Result FieldMask
  index_step loop cur it desc = is_list desc >>= λ list.
      if list
      then type cur >>= (λ typ. elim typ [
        | ft_list ↦ element_desc desc >>= λ et. element_ft et >>= λ ft.
            pick_ints unquote (suc (length (left_path it))) cur (all cur) true [] it >>= λ p.
            if p.covers
            then enter_all loop ft p.cur p.rest et
            else each_int loop ft (left_path p.rest) et p.ids p.cur
        | _ ↦ err "expect LIST or SET"
      ])
      else err "isn't LIST or SET"

  unfoldable pub map_keys :
      Loop
      → Bool
      → Bool
      → FieldMask
      → PathIterator
      → TypeDescriptor
      → TypeDescriptor
      → Result FieldMask
  map_keys loop is_int is_str cur it et nil = err "nil key descriptor"
  map_keys loop is_int is_str cur it et (type_descriptor filepath name k v extra) =
      element_ft et >>= λ ft.
      pick_keys unquote (suc (length (left_path it))) is_int is_str cur (all cur) true [] [] it
      >>= λ p.
          if p.covers
          then enter_all loop ft p.cur p.rest et
          else if is_int
          then each_int loop ft (left_path p.rest) et p.ids p.cur
          else if is_str
          then each_str loop ft (left_path p.rest) et p.strs p.cur
          else err "unexpected path"

  unfoldable pub map_body :
      Loop → Bool → Bool → FieldMask → PathIterator → TypeDescriptor → Result FieldMask
  map_body loop is_int is_str cur it desc = element_desc desc >>= λ et.
      get_key_type desc >>= λ kt. map_keys loop is_int is_str cur it et kt

  unfoldable pub map_step : Loop → FieldMask → PathIterator → TypeDescriptor → Result FieldMask
  map_step loop cur it desc = is_map desc >>= λ keyed.
      if keyed
      then type cur >>= (λ typ. elim typ [
        | ft_int_map ↦ map_body loop true false cur it desc
        | ft_str_map ↦ map_body loop false true cur it desc
        | ft_scalar ↦ map_body loop false false cur it desc
        | _ ↦ err "expect MAP"
      ])
      else err "isn't MAP"

  unfoldable pub path_token :
      Loop → FieldMask → TypeDescriptor → PathType → PathIterator → Result FieldMask
  path_token loop cur desc root it =
      switch_ft w typedefs desc >>= λ ft. set_type ft cur >>= λ typed. loop typed it desc
  path_token loop cur desc field it = field_step loop cur it desc
  path_token loop cur desc index_l it = index_step loop cur it desc
  path_token loop cur desc map_l it = map_step loop cur it desc
  path_token loop cur desc eof it = err "EOF"
  path_token loop cur desc typ it = err "unexpected token"

  -- The loop of addPath over the tokens, on fuel.
  unfoldable pub add_loop : ℕ → FieldMask → PathIterator → TypeDescriptor → Result FieldMask
  add_loop zero cur it desc = stuck
  add_loop (suc fuel) cur it desc =
      if has_next it
      then next unquote it >>= (λ t. path_token (add_loop fuel) cur desc t.0.typ t.1)
      else set_is_all cur

  unfoldable pub add_path : ℕ → FieldMask → Bytes → TypeDescriptor → Result FieldMask
  add_path fuel cur path desc = enter_path (add_loop fuel) cur path desc

  unfoldable pub init : ℕ → FieldMask → TypeDescriptor → List Bytes → Result FieldMask
  init fuel self desc [] = ok self
  init fuel self desc (path ∷ paths) =
      add_path fuel self path desc >>= λ added. init fuel added desc paths

  unfoldable pub new_field_mask : ℕ → Bool → TypeDescriptor → List Bytes → Result FieldMask
  new_field_mask fuel black_list_mode desc paths =
      init fuel (mask false black_list_mode ft_invalid no_mask no_fields nil_ints nil_strs) desc
        paths
