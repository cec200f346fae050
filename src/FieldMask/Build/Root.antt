-- ===== src/FieldMask/Build/Root.antt =====
-- The mask of the path `$`.
use thriftgo.Prelude.{ℕ, suc, ◌≡◌, ◌≢◌, refl, Option, [], ◌∷◌, Bool, true, false, not}
use thriftgo.Prelude.Ints.{ℤ}
use thriftgo.Prelude.Bytes.{Bytes, codes}
use thriftgo.Go.Outcome.{ok}
use thriftgo.Reflection.Descriptors.{TypeDescriptor, nil, type_descriptor, World, get_name}
use thriftgo.Reflection.Types.{is_basic}
use thriftgo.FieldMask.Path.{Result, new_path_iter, left_path, has_next, next, new_path_token}
use thriftgo.FieldMask.Storage.{
  FieldMaskType, ft_invalid, ft_scalar, ft_list, ft_struct, ft_str_map, ft_int_map, FieldMask,
  no_mask, mask, no_fields, nil_ints, nil_strs, exist, field_get, int_get, str_get,
}
use thriftgo.FieldMask.Query.{answer, field, int, str, has_child, fields_of, ints_of, strs_of}
use thriftgo.FieldMask.Types.{unwrap_desc, switch_ft}
use thriftgo.FieldMask.Build.{
  set_type, set_is_all, enter_path, path_token, add_loop, add_path, init, new_field_mask,
}

abbrev settled : Bool → FieldMaskType → FieldMask
settled black ft = mask true black ft no_mask no_fields nil_ints nil_strs

switch_ft-nil : (w : World) (n : ℕ) (ft : FieldMaskType) → switch_ft w n nil ≢ ok ft
unfolding switch_ft unwrap_desc is_basic get_name
switch_ft-nil w n ft h = cc

new_field_mask-settled :
    (w : World) (typedefs fuel : ℕ) (unquote : Bytes → Option Bytes) (black : Bool)
    (desc d : TypeDescriptor) (ft : FieldMaskType)
    → unwrap_desc w typedefs desc ≡ ok d
    → switch_ft w typedefs d ≡ ok ft
    → new_field_mask w typedefs unquote (suc (suc fuel)) black desc (codes "$" ∷ [])
      ≡ ok (settled black ft)
unfolding new_field_mask init add_path enter_path add_loop path_token next has_next new_path_iter
    left_path new_path_token set_type set_is_all
new_field_mask-settled w typedefs fuel unquote black desc nil ft h k =
    let never : ⊥ = switch_ft-nil w typedefs ft k in elim never [ ]
new_field_mask-settled w typedefs fuel unquote black desc
      (type_descriptor filepath name key value extra) ft h k =
    rw h (rw k refl)

settled-answer :
    (child : FieldMask → Result FieldMask) (black : Bool) (ft : FieldMaskType)
    → ft ≢ ft_invalid
    → answer child (settled black ft) ≡ ok (no_mask, not black)
unfolding answer has_child exist
settled-answer child true ft_invalid n = elim (n refl) [ ]
settled-answer child false ft_invalid n = elim (n refl) [ ]
settled-answer child true ft_scalar n = refl
settled-answer child false ft_scalar n = refl
settled-answer child true ft_list n = refl
settled-answer child false ft_list n = refl
settled-answer child true ft_struct n = refl
settled-answer child false ft_struct n = refl
settled-answer child true ft_str_map n = refl
settled-answer child false ft_str_map n = refl
settled-answer child true ft_int_map n = refl
settled-answer child false ft_int_map n = refl

-- NewFieldMask with the path `$`, for a type that has masks: of a white list every field, index and
-- key passes, of a black list none, and neither hands on a child mask. Two rounds are enough.
pub new_field_mask-root :
    (w : World) (typedefs fuel : ℕ) (unquote : Bytes → Option Bytes) (black : Bool)
    (desc d : TypeDescriptor) (ft : FieldMaskType)
    → unwrap_desc w typedefs desc ≡ ok d
    → switch_ft w typedefs d ≡ ok ft
    → ft ≢ ft_invalid
    → (m : FieldMask) × (new_field_mask w typedefs unquote
          (suc (suc fuel))
          black
          desc
          (codes "$" ∷ [])
        ≡ ok m)
      × ((i : ℤ) (s : Bytes)
          → (field m i ≡ ok (no_mask, not black))
            × (int m i ≡ ok (no_mask, not black))
            × (str m s ≡ ok (no_mask, not black)))
unfolding field int str
new_field_mask-root w typedefs fuel unquote black desc d ft h k n = (
  settled black ft,
  new_field_mask-settled w typedefs fuel unquote black desc d ft h k,
  (λ i s. (
    settled-answer (λ m. field_get i (fields_of m)) black ft n,
    settled-answer (λ m. ok (int_get i (ints_of m))) black ft n,
    settled-answer (λ m. ok (str_get s (strs_of m))) black ft n,
  )),
)
