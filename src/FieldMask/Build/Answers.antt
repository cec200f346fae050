-- ===== src/FieldMask/Build/Answers.antt =====
-- The single steps of adding a path are answered: none of them loops.
use thriftgo.Prelude.{Bool}
use thriftgo.Prelude.Ints.{ℤ, pos, negsuc}
use thriftgo.Prelude.Bytes.{Bytes}
use thriftgo.Go.Outcome.{Good-if, Answers, Answers-bind}
use thriftgo.Reflection.Descriptors.{
  TypeDescriptor, nil, type_descriptor, World, get_value_type, get_key_type, get_name,
}
use thriftgo.Reflection.Types.{is_enum}
use thriftgo.Reflection.Types.Answers.{is_enum-Answers}
use thriftgo.FieldMask.Path.{Result}
use thriftgo.FieldMask.Storage.{
  FieldMaskType, ft_invalid, ft_scalar, ft_list, ft_struct, ft_str_map, ft_int_map, FieldMask,
  no_mask, mask, FieldMap, no_fields, field_map, IntMap, StrMap, field_child, put_field, int_child,
  put_int, str_child, put_str, all_child, put_all, in_head, field_slot, field_put,
  make_field_mask_map,
}
use thriftgo.FieldMask.Query.{type}
use thriftgo.FieldMask.Types.{key_ft}
use thriftgo.FieldMask.Pick.{settle_ints, settle_keys}
use thriftgo.FieldMask.Build.{set_type, set_is_all, settle_fields, valid_ft}

pub in_head-Answers : (k : ℤ) → Answers (in_head k)
unfolding in_head
in_head-Answers (pos n) = tt
in_head-Answers (negsuc n) = tt

field_slot-Answers : (k : ℤ) (f : FieldMap) → Answers (field_slot k f)
unfolding field_slot
field_slot-Answers k no_fields = tt
field_slot-Answers k (field_map head tail) =
    Answers-bind (in_head k) _ (in_head-Answers k) (λ h. tt)

field_put-Answers : (k : ℤ) (m : FieldMask) (f : FieldMap) → Answers (field_put k m f)
unfolding field_put
field_put-Answers k m no_fields = tt
field_put-Answers k m (field_map head tail) =
    Answers-bind (in_head k) _ (in_head-Answers k) (λ h. tt)

pub field_child-Answers :
    (f : ℤ) (ft : FieldMaskType) (m : FieldMask) → Answers (field_child f ft m)
unfolding field_child
field_child-Answers f ft no_mask = tt
field_child-Answers f ft (mask is_all black typ a no_fields ints strs) =
    Answers-bind (field_slot f make_field_mask_map) _ (field_slot-Answers f make_field_mask_map)
      (λ m. tt)
field_child-Answers f ft (mask is_all black typ a (field_map head tail) ints strs) =
    Answers-bind (field_slot f (field_map head tail)) _ (field_slot-Answers f (field_map head tail))
      (λ m. tt)

pub put_field-Answers : (f : ℤ) (d m : FieldMask) → Answers (put_field f d m)
unfolding put_field
put_field-Answers f d no_mask = tt
put_field-Answers f d (mask is_all black typ a no_fields ints strs) =
    Answers-bind (field_put f d make_field_mask_map) _ (field_put-Answers f d make_field_mask_map)
      (λ m. tt)
put_field-Answers f d (mask is_all black typ a (field_map head tail) ints strs) =
    Answers-bind (field_put f d (field_map head tail)) _
      (field_put-Answers f d (field_map head tail)) (λ m. tt)

-- The other changes of one mask panic on nil and succeed otherwise.
mask-Answers :
    {A : Type 0} (f : FieldMask → Result A)
    → Answers (f no_mask)
    → ((is_all black : Bool) (typ : FieldMaskType) (a : FieldMask) (fd : FieldMap) (ints : IntMap)
          (strs : StrMap)
        → Answers (f (mask is_all black typ a fd ints strs)))
    → (m : FieldMask) → Answers (f m)
mask-Answers f n k no_mask = n
mask-Answers f n k (mask is_all black typ a fd ints strs) = k is_all black typ a fd ints strs

pub int_child-Answers : (v : ℤ) (ft : FieldMaskType) (m : FieldMask) → Answers (int_child v ft m)
unfolding int_child
int_child-Answers v ft = mask-Answers (int_child v ft) tt (λ i b t a f x y. tt)

pub put_int-Answers : (v : ℤ) (d m : FieldMask) → Answers (put_int v d m)
unfolding put_int
put_int-Answers v d = mask-Answers (put_int v d) tt (λ i b t a f x y. tt)

pub str_child-Answers :
    (v : Bytes) (ft : FieldMaskType) (m : FieldMask) → Answers (str_child v ft m)
unfolding str_child
str_child-Answers v ft = mask-Answers (str_child v ft) tt (λ i b t a f x y. tt)

pub put_str-Answers : (v : Bytes) (d m : FieldMask) → Answers (put_str v d m)
unfolding put_str
put_str-Answers v d = mask-Answers (put_str v d) tt (λ i b t a f x y. tt)

pub all_child-Answers : (ft : FieldMaskType) (m : FieldMask) → Answers (all_child ft m)
unfolding all_child
all_child-Answers ft = mask-Answers (all_child ft) tt (λ i b t a f x y. tt)

pub put_all-Answers : (d m : FieldMask) → Answers (put_all d m)
unfolding put_all
put_all-Answers d = mask-Answers (put_all d) tt (λ i b t a f x y. tt)

pub set_type-Answers : (ft : FieldMaskType) (m : FieldMask) → Answers (set_type ft m)
unfolding set_type
set_type-Answers ft = mask-Answers (set_type ft) tt (λ i b t a f x y. tt)

pub set_is_all-Answers : (m : FieldMask) → Answers (set_is_all m)
unfolding set_is_all
set_is_all-Answers = mask-Answers set_is_all tt (λ i b t a f x y. tt)

pub settle_ints-Answers : (m : FieldMask) → Answers (settle_ints m)
unfolding settle_ints
settle_ints-Answers = mask-Answers settle_ints tt (λ i b t a f x y. tt)

pub settle_keys-Answers : (m : FieldMask) → Answers (settle_keys m)
unfolding settle_keys
settle_keys-Answers = mask-Answers settle_keys tt (λ i b t a f x y. tt)

pub settle_fields-Answers : (m : FieldMask) → Answers (settle_fields m)
unfolding settle_fields
settle_fields-Answers = mask-Answers settle_fields tt (λ i b t a f x y. tt)

pub type-Answers : (m : FieldMask) → Answers (type m)
unfolding type
type-Answers = mask-Answers type tt (λ i b t a f x y. tt)

pub get_value_type-Answers : (td : TypeDescriptor) → Answers (get_value_type td)
unfolding get_value_type
get_value_type-Answers nil = tt
get_value_type-Answers (type_descriptor filepath name k v extra) = tt

pub get_key_type-Answers : (td : TypeDescriptor) → Answers (get_key_type td)
unfolding get_key_type
get_key_type-Answers nil = tt
get_key_type-Answers (type_descriptor filepath name k v extra) = tt

pub get_name-Answers : (td : TypeDescriptor) → Answers (get_name td)
unfolding get_name
get_name-Answers nil = tt
get_name-Answers (type_descriptor filepath name k v extra) = tt

pub valid_ft-Answers : (ft : FieldMaskType) → Answers (valid_ft ft)
unfolding valid_ft
valid_ft-Answers ft_invalid = tt
valid_ft-Answers ft_scalar = tt
valid_ft-Answers ft_list = tt
valid_ft-Answers ft_struct = tt
valid_ft-Answers ft_str_map = tt
valid_ft-Answers ft_int_map = tt

pub key_ft-Answers : (w : World) (kt : TypeDescriptor) → Answers (key_ft w kt)
unfolding key_ft
key_ft-Answers w kt =
    Answers-bind (is_enum w kt) _ (is_enum-Answers w kt)
      (λ b. Good-if _ _ _ b tt (Answers-bind (get_name kt) _ (get_name-Answers kt) (λ n. tt)))
