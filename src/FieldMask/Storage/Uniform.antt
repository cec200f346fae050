-- ===== src/FieldMask/Storage/Uniform.antt =====
-- The mode of a mask, white list or black list, is that of all masks in it.
use thriftgo.Prelude.{◌≡◌, refl, Bool, true, false, if◌then◌else◌, Bool-cases, inl, inr}
use thriftgo.Prelude.Names.{int_eq}
use thriftgo.Prelude.Ints.{ℤ}
use thriftgo.Prelude.Bytes.{Bytes, bytes_eq}
use thriftgo.Go.Outcome.{Good, Good-bind}
use thriftgo.FieldMask.Build.Answers.{in_head-Answers}
use thriftgo.FieldMask.Storage.{
  FieldMaskType, ft_invalid, ft_scalar, ft_list, ft_struct, ft_str_map, ft_int_map, FieldMask,
  no_mask, mask, FieldMap, no_fields, field_map, IntMap, nil_ints, made_ints, int_entry, StrMap,
  nil_strs, made_strs, str_entry, new_field_mask_of, assign, if_not_exist, int_slot, int_put,
  str_slot, str_put, in_head, field_slot, field_put, reset, reset_fields, reset_ints, reset_strs,
}

unfoldable mutual
  pub Uniform : Bool → FieldMask → Type 0
  Uniform b no_mask = Unit
  Uniform b (mask is_all black typ a fd ints strs) =
      (black ≡ b) × Uniform b a × UniformFields b fd × UniformInts b ints × UniformStrs b strs

  pub UniformFields : Bool → FieldMap → Type 0
  UniformFields b no_fields = Unit
  UniformFields b (field_map head tail) = UniformInts b head × UniformInts b tail

  pub UniformInts : Bool → IntMap → Type 0
  UniformInts b nil_ints = Unit
  UniformInts b made_ints = Unit
  UniformInts b (int_entry k m t) = Uniform b m × UniformInts b t

  pub UniformStrs : Bool → StrMap → Type 0
  UniformStrs b nil_strs = Unit
  UniformStrs b made_strs = Unit
  UniformStrs b (str_entry k m t) = Uniform b m × UniformStrs b t

mutual
  unfolding Uniform reset

  pub reset-Uniform : (b : Bool) (m : FieldMask) → Uniform b m → Uniform b (reset m)
  reset-Uniform b no_mask h = tt
  reset-Uniform b (mask is_all black typ a fd ints strs) h = (
    h.0,
    h.1,
    reset_fields-Uniform b fd h.2,
    reset_ints-Uniform b ints h.3,
    reset_strs-Uniform b strs h.4,
  )

  pub reset_fields-Uniform :
      (b : Bool) (f : FieldMap) → UniformFields b f → UniformFields b (reset_fields f)
  reset_fields-Uniform b no_fields h = tt
  reset_fields-Uniform b (field_map head tail) h =
      (reset_ints-Uniform b head h.0, reset_ints-Uniform b tail h.1)

  pub reset_ints-Uniform : (b : Bool) (t : IntMap) → UniformInts b t → UniformInts b (reset_ints t)
  reset_ints-Uniform b nil_ints h = tt
  reset_ints-Uniform b made_ints h = tt
  reset_ints-Uniform b (int_entry k m t) h = (reset-Uniform b m h.0, reset_ints-Uniform b t h.1)

  pub reset_strs-Uniform : (b : Bool) (t : StrMap) → UniformStrs b t → UniformStrs b (reset_strs t)
  reset_strs-Uniform b nil_strs h = tt
  reset_strs-Uniform b made_strs h = tt
  reset_strs-Uniform b (str_entry k m t) h = (reset-Uniform b m h.0, reset_strs-Uniform b t h.1)

module _ (b : Bool) where
  pub if_not_exist-Uniform :
      (ft : FieldMaskType) (m : FieldMask) → Uniform b m → Uniform b (if_not_exist ft b m)
  unfolding Uniform if_not_exist new_field_mask_of assign
  if_not_exist-Uniform ft no_mask h = (refl, tt, tt, tt, tt)
  if_not_exist-Uniform ft (mask is_all black ft_invalid a fd ints strs) h =
      (refl, h.1, h.2, h.3, h.4)
  if_not_exist-Uniform ft (mask is_all black ft_scalar a fd ints strs) h = h
  if_not_exist-Uniform ft (mask is_all black ft_list a fd ints strs) h = h
  if_not_exist-Uniform ft (mask is_all black ft_struct a fd ints strs) h = h
  if_not_exist-Uniform ft (mask is_all black ft_str_map a fd ints strs) h = h
  if_not_exist-Uniform ft (mask is_all black ft_int_map a fd ints strs) h = h

  pub int_slot-Uniform : (k : ℤ) (t : IntMap) → UniformInts b t → Uniform b (int_slot k t)
  unfolding Uniform int_slot
  int_slot-Uniform k nil_ints h = tt
  int_slot-Uniform k made_ints h = tt
  int_slot-Uniform k (int_entry j m t) h = elim (Bool-cases (int_eq.same k j)) [
    | inl e ↦ rw e h.0
    | inr e ↦ rw e (int_slot-Uniform k t h.1)
  ]

  pub int_put-Uniform :
      (k : ℤ) (m : FieldMask) (t : IntMap)
      → Uniform b m
      → UniformInts b t
      → UniformInts b (int_put k m t)
  unfolding Uniform int_put
  int_put-Uniform k m nil_ints p h = (p, tt)
  int_put-Uniform k m made_ints p h = (p, tt)
  int_put-Uniform k m (int_entry j n t) p h = elim (Bool-cases (int_eq.same k j)) [
    | inl e ↦ rw e (p, h.1)
    | inr e ↦ rw e (h.0, int_put-Uniform k m t p h.1)
  ]

  pub str_slot-Uniform : (k : Bytes) (t : StrMap) → UniformStrs b t → Uniform b (str_slot k t)
  unfolding Uniform str_slot
  str_slot-Uniform k nil_strs h = tt
  str_slot-Uniform k made_strs h = tt
  str_slot-Uniform k (str_entry j m t) h = elim (Bool-cases (bytes_eq.same k j)) [
    | inl e ↦ rw e h.0
    | inr e ↦ rw e (str_slot-Uniform k t h.1)
  ]

  pub str_put-Uniform :
      (k : Bytes) (m : FieldMask) (t : StrMap)
      → Uniform b m
      → UniformStrs b t
      → UniformStrs b (str_put k m t)
  unfolding Uniform str_put
  str_put-Uniform k m nil_strs p h = (p, tt)
  str_put-Uniform k m made_strs p h = (p, tt)
  str_put-Uniform k m (str_entry j n t) p h = elim (Bool-cases (bytes_eq.same k j)) [
    | inl e ↦ rw e (p, h.1)
    | inr e ↦ rw e (h.0, str_put-Uniform k m t p h.1)
  ]

  either : {A : Type 0} (P : A → Type 0) (x y : A) (h : Bool) → P x → P y → P (if h then x else y)
  either P x y true p q = p
  either P x y false p q = q

  pub field_slot-Uniform :
      (k : ℤ) (f : FieldMap) → UniformFields b f → Good (Uniform b) (field_slot k f)
  unfolding Uniform field_slot
  field_slot-Uniform k no_fields h = tt
  field_slot-Uniform k (field_map head tail) h =
      Good-bind (λ x. Unit) (Uniform b) (in_head k) _ (in_head-Answers k)
        (λ c _.
          either (Uniform b) (int_slot k head) (int_slot k tail) c (int_slot-Uniform k head h.0)
            (int_slot-Uniform k tail h.1))

  pub field_put-Uniform :
      (k : ℤ) (m : FieldMask) (f : FieldMap)
      → Uniform b m
      → UniformFields b f
      → Good (UniformFields b) (field_put k m f)
  unfolding Uniform field_put
  field_put-Uniform k m no_fields p h = tt
  field_put-Uniform k m (field_map head tail) p h =
      Good-bind (λ x. Unit) (UniformFields b) (in_head k) _ (in_head-Answers k)
        (λ c _.
          either (UniformFields b) (field_map (int_put k m head) tail)
            (field_map head (int_put k m tail)) c (int_put-Uniform k m head p h.0, h.1)
            (h.0, int_put-Uniform k m tail p h.1))
