-- ===== src/FieldMask/Tests.antt =====
-- Runs of the masks on the types of a small file.
use thriftgo.Prelude.{
  ℕ, ◌≡◌, ◌≢◌, ◌<◌, refl, sym, ◌∙◌, ap, subst, Option, none, some, List, [], ◌∷◌, take, drop, Bool,
  true, false, length, ◌-◌, not, Bool-cases, List-cases, inl, inr, arith,
}
use thriftgo.Prelude.Ints.{ℤ, pos}
use thriftgo.Prelude.Names.{eq_ℤ_iff}
use thriftgo.Prelude.Bytes.{Bytes, codes}
use thriftgo.Go.Outcome.{ok, err, panic, stuck, ◌>>=◌, Good, Answers}
use thriftgo.Reflection.Alias.{is_basic_name, is_container_name, basic_map, container_map}
use thriftgo.Reflection.Descriptors.{
  Dict, dict_get, or_empty, uuid_key, TypeDescriptor, nil, type_descriptor, World, get_global,
  get_name,
}
use thriftgo.Reflection.Files.{lookup_fd, get_include_fd}
use thriftgo.Reflection.Types.{
  is_basic, is_container, is_builtin, is_typedef, type_typedef, included, found, file_of, is_list,
  is_map,
}
use thriftgo.Reflection.Tests.{world, main_path, plain}
use thriftgo.FieldMask.Path.{Result, PathToken, PathIterator, new_path_iter, next, has_next}
use thriftgo.FieldMask.Path.Advance.{Told, next-Advance}
use thriftgo.FieldMask.Storage.{
  FieldMask, no_mask, mask, ft_list, ft_struct, ft_scalar, ft_invalid, no_fields, nil_ints,
  made_ints, int_entry, nil_strs, made_strs, str_entry, int_get, str_get, reset_ints, reset_strs,
  int_put, put_int, exist, if_exists, if_not_exist, new_field_mask_of, int_slot, int_child,
}
use thriftgo.FieldMask.Storage.Uniform.{Uniform}
use thriftgo.FieldMask.Build.Mode.{new_field_mask-Uniform}
use mathlib.Core.List.{Memᴰ}
use mathlib.Core.List.Memᴰ.{head, tail}
use thriftgo.FieldMask.Query.{field, int, str, ret}
use thriftgo.FieldMask.Types.{unwrap_desc, unwrap_loop, switch_ft}
use thriftgo.FieldMask.Build.{new_field_mask, add_path}
use thriftgo.FieldMask.Build.Ends.{add_path-ends}
use thriftgo.FieldMask.Build.{set_is_all}
use thriftgo.FieldMask.Transfer.{
  FieldMaskTransfer, transfer, Transfers, end, child, is_any, retype, empty_mask, transfer_from,
}
use thriftgo.FieldMask.Transfer.Finds.{Once, here, later, transfer_from-Int}
use thriftgo.FieldMask.Build.Root.{new_field_mask-root}

-- The text between the quotes, where there are no escapes.
abbrev plain_unquote : Bytes → Option Bytes
plain_unquote s = some (take (length s - 2) (drop 1 s))

-- No file is registered.
abbrev bare : World
bare = record { default_global = record { global_fd = [] }; global_map = [] }

lookup_fd-bare : (extra : Dict Bytes) (path : Bytes) → lookup_fd (get_global bare extra) path ≡ none
unfolding get_global lookup_fd
lookup_fd-bare extra path = elim (List-cases (or_empty (dict_get uuid_key extra))) [
  | inl e ↦ rw (e, get_global) refl
  | inr (b, uuid, e) ↦ rw (e, get_global) refl
]

is_typedef-bare :
    (path name : Bytes) (k v : TypeDescriptor) (extra : Dict Bytes)
    → is_typedef bare (type_descriptor path name k v extra) ≡ ok false
unfolding is_typedef type_typedef included found is_builtin is_container is_basic get_name file_of
    get_include_fd
is_typedef-bare path name k v extra = elim (Bool-cases (is_container_name name)) [
  | inl e ↦ rw e refl
  | inr e ↦ elim (Bool-cases (is_basic_name name)) [
    | inl b ↦ rw (e, b) refl
    | inr b ↦ rw (e, b) (rw (lookup_fd-bare extra path) refl)
  ]
]

unwrap_desc-bare : (td : TypeDescriptor) → Answers (unwrap_desc bare 1 td)
unfolding unwrap_desc unwrap_loop
unwrap_desc-bare nil = tt
unwrap_desc-bare (type_descriptor path name k v extra) = rw (is_typedef-bare path name k v extra) tt

-- list<i32>
abbrev numbers : TypeDescriptor
numbers = type_descriptor main_path (codes "list") nil (plain main_path (codes "i32")) []

abbrev blank : FieldMask
blank = mask false false ft_invalid no_mask no_fields nil_ints nil_strs

add_path-ends_example : add_path bare 1 plain_unquote 7 blank (codes "$[1,2]") numbers ≢ stuck
add_path-ends_example =
    add_path-ends bare 1 7 plain_unquote blank (codes "$[1,2]") numbers unwrap_desc-bare
      (omega arith)

-- The literal behind the point.
next-Advance_example :
    Told plain_unquote
      (record { pos = 2; src = codes "$.items" })
      (next plain_unquote (record { pos = 2; src = codes "$.items" }))
unfolding has_next
next-Advance_example = next-Advance plain_unquote (record { pos = 2; src = codes "$.items" }) refl

abbrev one : FieldMask
one = mask true false ft_scalar no_mask no_fields nil_ints nil_strs

short_paths : (path : Bytes) → Memᴰ path (codes "$[1,2]" ∷ codes "$[3]" ∷ []) → length path < 7
short_paths path (head e) = subst (λ x. length x < 7) (sym e) (omega arith)
short_paths path (tail (head e)) = subst (λ x. length x < 7) (sym e) (omega arith)
short_paths path (tail (tail k)) = elim k [ ]

new_field_mask-Uniform_example :
    Good
      (Uniform true)
      (new_field_mask bare 1 plain_unquote 7 true numbers (codes "$[1,2]" ∷ codes "$[3]" ∷ []))
new_field_mask-Uniform_example =
    new_field_mask-Uniform bare 1 7 plain_unquote true numbers (codes "$[1,2]" ∷ codes "$[3]" ∷ [])
      unwrap_desc-bare short_paths

new_field_mask-root_example :
    (m : FieldMask) × (new_field_mask bare 1 plain_unquote 2 true numbers (codes "$" ∷ []) ≡ ok m)
    × ((i : ℤ) (s : Bytes)
        → (field m i ≡ ok (no_mask, false))
          × (int m i ≡ ok (no_mask, false))
          × (str m s ≡ ok (no_mask, false)))
unfolding unwrap_desc unwrap_loop switch_ft is_typedef type_typedef included found is_builtin
    is_container is_basic get_name file_of get_include_fd lookup_fd get_global is_list is_map
    is_container_name is_basic_name basic_map container_map
new_field_mask-root_example =
    new_field_mask-root bare 1 0 plain_unquote true numbers numbers ft_list refl refl (λ e. cc)

-- The keys "1" and "2" in JSON.
abbrev digit_key : Bytes → Result ℤ
digit_key path = elim path [ [] ↦ err "no number" | c ∷ s ↦ ok (pos (c - 48)) ]

abbrev text_key : Bytes → Result Bytes
text_key path = ok path

abbrev scalar_child : Bytes → FieldMaskTransfer
scalar_child path = transfer path ft_scalar false end

abbrev two_children : Transfers
two_children = child (scalar_child (codes "1")) (child (scalar_child (codes "2")) end)

abbrev two_masks : FieldMask
two_masks =
    mask false false ft_list no_mask no_fields
      (int_entry (pos 1) one (int_entry (pos 2) one made_ints)) nil_strs

transferred :
    transfer_from digit_key digit_key text_key empty_mask
      (transfer (codes "\"$\"") ft_list false two_children)
    ≡ ok two_masks
unfolding transfer_from retype is_any int_child put_int if_not_exist new_field_mask_of int_slot
    int_put set_is_all
transferred = refl

one_not_two : ◌≡◌ {A = Result ℤ} (ok (pos 1)) (ok (pos 2)) → ⊥
one_not_two h =
    let same : ◌≡◌ {A = ℤ} (pos 1) (pos 2) = cc in ground (arith, (eq_ℤ_iff (pos 1) (pos 2)).1 same)

child_two : Once digit_key digit_key text_key (pos 2) (scalar_child (codes "2")) two_children
unfolding is_any
child_two =
    later
      (record {
        not_any = refl;
        apart = λ id k e.
            let same : ◌≡◌ {A = Result ℤ} (ok (pos 1)) (ok (pos 2)) = k ∙ ap (λ z. ok z) (sym e) in
            one_not_two same;
      })
      (here refl refl tt)

transfer_from-Int_example :
    (d : FieldMask) × (transfer_from digit_key digit_key text_key
        (new_field_mask_of ft_scalar false)
        (scalar_child (codes "2"))
      ≡ ok d)
    × (int two_masks (pos 2) ≡ ret false (if_exists d))
transfer_from-Int_example =
    transfer_from-Int digit_key digit_key text_key (codes "\"$\"") false two_children (pos 2)
      (scalar_child (codes "2")) two_masks child_two transferred

abbrev node_type : TypeDescriptor
node_type = plain main_path (codes "Node")

-- A black list with `$.items[1].id` and then `$.items`: the field is not refused.
abbrev parent_and_child : Result Bool
parent_and_child =
    new_field_mask world 3 plain_unquote 20 true node_type
      (codes "$.items[1].id" ∷ codes "$.items" ∷ [])
    >>= λ m. field m (pos 1) >>= λ r. ok r.1

-- A quoted string that strconv.Unquote refuses.
abbrev unterminated : Result FieldMask
unterminated = new_field_mask world 3 (λ s. none) 20 false node_type (codes "$\"a" ∷ [])

runs : (parent_and_child ≡ ok true) × (unterminated ≡ panic)
unfolding thriftgo.Prelude.Bytes.split thriftgo.Prelude.Bytes.last_piece
    thriftgo.Prelude.Bytes.trim_suffix thriftgo.Reflection.Alias.basic_map
    thriftgo.Reflection.Alias.container_map thriftgo.Reflection.Alias.is_basic_name
    thriftgo.Reflection.Alias.is_container_name thriftgo.Reflection.Alias.parse_alias
    thriftgo.Reflection.Descriptors.get_global thriftgo.Reflection.Descriptors.get_name
    thriftgo.Reflection.Descriptors.get_key_type thriftgo.Reflection.Descriptors.get_value_type
    thriftgo.Reflection.Files.first_with thriftgo.Reflection.Files.named
    thriftgo.Reflection.Files.lookup_fd thriftgo.Reflection.Files.get_include_fd
    thriftgo.Reflection.Files.descend thriftgo.Reflection.Files.get_descriptor
    thriftgo.Reflection.Files.get_struct_descriptor thriftgo.Reflection.Files.get_typedef_descriptor
    thriftgo.Reflection.Files.get_enum_descriptor thriftgo.Reflection.Files.get_field_by_name
    thriftgo.Reflection.Files.get_field_by_id thriftgo.Reflection.Types.is_basic
    thriftgo.Reflection.Types.is_container thriftgo.Reflection.Types.is_map
    thriftgo.Reflection.Types.is_list thriftgo.Reflection.Types.is_builtin
    thriftgo.Reflection.Types.file_of thriftgo.Reflection.Types.struct_like
    thriftgo.Reflection.Types.type_struct thriftgo.Reflection.Types.included
    thriftgo.Reflection.Types.type_enum thriftgo.Reflection.Types.type_typedef
    thriftgo.Reflection.Types.found_struct thriftgo.Reflection.Types.found
    thriftgo.Reflection.Types.is_struct thriftgo.Reflection.Types.is_enum
    thriftgo.Reflection.Types.is_typedef thriftgo.FieldMask.Path.atoi
    thriftgo.FieldMask.Path.new_path_token thriftgo.FieldMask.Path.new_path_iter
    thriftgo.FieldMask.Path.left_path thriftgo.FieldMask.Path.has_next
    thriftgo.FieldMask.Path.separators thriftgo.FieldMask.Path.lit_scan thriftgo.FieldMask.Path.lit
    thriftgo.FieldMask.Path.str_scan thriftgo.FieldMask.Path.str thriftgo.FieldMask.Path.next_lit
    thriftgo.FieldMask.Path.next_str thriftgo.FieldMask.Path.next
    thriftgo.FieldMask.Storage.new_field_mask_of thriftgo.FieldMask.Storage.assign
    thriftgo.FieldMask.Storage.if_not_exist thriftgo.FieldMask.Storage.int_slot
    thriftgo.FieldMask.Storage.int_put thriftgo.FieldMask.Storage.in_head
    thriftgo.FieldMask.Storage.make_field_mask_map thriftgo.FieldMask.Storage.field_slot
    thriftgo.FieldMask.Storage.field_put thriftgo.FieldMask.Storage.exist
    thriftgo.FieldMask.Storage.field_get thriftgo.FieldMask.Storage.field_child
    thriftgo.FieldMask.Storage.put_field thriftgo.FieldMask.Storage.int_child
    thriftgo.FieldMask.Storage.put_int thriftgo.FieldMask.Storage.reset
    thriftgo.FieldMask.Query.has_child thriftgo.FieldMask.Query.ret thriftgo.FieldMask.Query.answer
    thriftgo.FieldMask.Query.field thriftgo.FieldMask.Query.all thriftgo.FieldMask.Query.type
    thriftgo.FieldMask.Types.unwrap_loop thriftgo.FieldMask.Types.unwrap_desc
    thriftgo.FieldMask.Types.key_ft thriftgo.FieldMask.Types.switch_ft
    thriftgo.FieldMask.Pick.settle_ints thriftgo.FieldMask.Pick.int_token
    thriftgo.FieldMask.Pick.pick_ints thriftgo.FieldMask.Build.set_type
    thriftgo.FieldMask.Build.set_is_all thriftgo.FieldMask.Build.valid_ft
    thriftgo.FieldMask.Build.enter_all thriftgo.FieldMask.Build.enter_path
    thriftgo.FieldMask.Build.each_int thriftgo.FieldMask.Build.enter_field
    thriftgo.FieldMask.Build.field_token thriftgo.FieldMask.Build.field_step
    thriftgo.FieldMask.Build.element_desc thriftgo.FieldMask.Build.element_ft
    thriftgo.FieldMask.Build.index_step thriftgo.FieldMask.Build.path_token
    thriftgo.FieldMask.Build.add_loop thriftgo.FieldMask.Build.add_path
    thriftgo.FieldMask.Build.init thriftgo.FieldMask.Build.new_field_mask
runs = (refl, refl)
