-- ===== src/FieldMask/Storage.antt =====
-- fieldmask/storage.go: a mask with the masks of its fields, its elements and its keys.
pub mod Uniform
use thriftgo.Prelude.{
  ℕ, ◌≡◌, ◌≢◌, refl, sym, ◌∙◌, subst, Bool, true, false, leb, if◌then◌else◌, Bool-cases, inl, inr,
  arith,
}
use thriftgo.Prelude.Names.{Equality, int_eq}
use thriftgo.Prelude.Ints.{ℤ, pos, negsuc}
use thriftgo.Prelude.Bytes.{Bytes, bytes_eq}
use thriftgo.Go.Outcome.{Outcome, ok, err, panic, stuck, ◌>>=◌}
use thriftgo.FieldMask.Path.{Result}

-- FieldMaskType
pub data FieldMaskType : Type 0 where
  ft_invalid : FieldMaskType
  ft_scalar : FieldMaskType
  ft_list : FieldMaskType
  ft_struct : FieldMaskType
  ft_str_map : FieldMaskType
  ft_int_map : FieldMaskType

-- `*FieldMask`, a pointer that is nil or points to a mask, which nothing else points to. A map is nil,
-- or made and then its entries. The array of the field ids up to 63 is a map too, of its slots that
-- are not nil.
mutual
  pub data FieldMask : Type 0 where
    no_mask : FieldMask
    mask :
        (is_all : Bool)
        → (is_black : Bool) → (typ : FieldMaskType) → (all : FieldMask) → (fd_mask : FieldMap)
        → (int_mask : IntMap) → (str_mask : StrMap) → FieldMask

  pub data FieldMap : Type 0 where
    no_fields : FieldMap
    field_map : (head : IntMap) → (tail : IntMap) → FieldMap

  pub data IntMap : Type 0 where
    nil_ints : IntMap
    made_ints : IntMap
    int_entry : ℤ → FieldMask → IntMap → IntMap

  pub data StrMap : Type 0 where
    nil_strs : StrMap
    made_strs : StrMap
    str_entry : Bytes → FieldMask → StrMap → StrMap

unfoldable pub new_field_mask_of : FieldMaskType → Bool → FieldMask
new_field_mask_of ft black = mask false black ft no_mask no_fields nil_ints nil_strs

unfoldable pub assign : FieldMaskType → Bool → FieldMask → FieldMask
assign ft black no_mask = no_mask
assign ft black (mask is_all is_black typ all fd ints strs) = mask false black ft all fd ints strs

-- The mask at a pointer, made new if it is nil and assigned again if its type was reset.
unfoldable pub if_not_exist : FieldMaskType → Bool → FieldMask → FieldMask
if_not_exist ft black no_mask = new_field_mask_of ft black
if_not_exist ft black (mask is_all is_black ft_invalid all fd ints strs) =
    assign ft black (mask is_all is_black ft_invalid all fd ints strs)
if_not_exist ft black m = m

unfoldable pub int_slot : ℤ → IntMap → FieldMask
int_slot k nil_ints = no_mask
int_slot k made_ints = no_mask
int_slot k (int_entry j m t) = let rest = int_slot k t in if int_eq.same k j then m else rest

unfoldable pub int_put : ℤ → FieldMask → IntMap → IntMap
int_put k m nil_ints = int_entry k m made_ints
int_put k m made_ints = int_entry k m made_ints
int_put k m (int_entry j n t) =
    let rest = int_put k m t in if int_eq.same k j then int_entry j m t else int_entry j n rest

unfoldable pub str_slot : Bytes → StrMap → FieldMask
str_slot k nil_strs = no_mask
str_slot k made_strs = no_mask
str_slot k (str_entry j m t) = let rest = str_slot k t in if bytes_eq.same k j then m else rest

unfoldable pub str_put : Bytes → FieldMask → StrMap → StrMap
str_put k m nil_strs = str_entry k m made_strs
str_put k m made_strs = str_entry k m made_strs
str_put k m (str_entry j n t) =
    let rest = str_put k m t in if bytes_eq.same k j then str_entry j m t else str_entry j n rest

-- An index of the array: a negative one panics, and one above 63 stands in the map.
unfoldable pub in_head : ℤ → Result Bool
in_head (pos n) = ok (leb n 63)
in_head (negsuc n) = panic

unfoldable pub make_field_mask_map : FieldMap
make_field_mask_map = field_map made_ints made_ints

unfoldable pub field_slot : ℤ → FieldMap → Result FieldMask
field_slot k no_fields = panic
field_slot k (field_map head tail) =
    in_head k >>= λ h. ok (if h then int_slot k head else int_slot k tail)

unfoldable pub field_put : ℤ → FieldMask → FieldMap → Result FieldMap
field_put k m no_fields = panic
field_put k m (field_map head tail) = in_head k >>= λ h.
    ok (if h then field_map (int_put k m head) tail else field_map head (int_put k m tail))

unfoldable pub exist : FieldMask → Bool
exist no_mask = false
exist (mask is_all is_black ft_invalid all fd ints strs) = false
exist (mask is_all is_black typ all fd ints strs) = true

abbrev pub if_exists : FieldMask → FieldMask
if_exists m = if exist m then m else no_mask

unfoldable pub int_get : ℤ → IntMap → FieldMask
int_get k t = if_exists (int_slot k t)

unfoldable pub str_get : Bytes → StrMap → FieldMask
str_get k t = if_exists (str_slot k t)

unfoldable pub field_get : ℤ → FieldMap → Result FieldMask
field_get k f = field_slot k f >>= λ m. ok (if_exists m)

-- `reset` leaves the mask of all elements, and the list mode, as they are.
unfoldable mutual
  pub reset : FieldMask → FieldMask
  reset no_mask = no_mask
  reset (mask is_all is_black typ all fd ints strs) =
      mask false is_black ft_invalid all (reset_fields fd) (reset_ints ints) (reset_strs strs)

  pub reset_fields : FieldMap → FieldMap
  reset_fields no_fields = no_fields
  reset_fields (field_map head tail) = field_map (reset_ints head) (reset_ints tail)

  pub reset_ints : IntMap → IntMap
  reset_ints nil_ints = nil_ints
  reset_ints made_ints = made_ints
  reset_ints (int_entry k m t) = int_entry k (reset m) (reset_ints t)

  pub reset_strs : StrMap → StrMap
  reset_strs nil_strs = nil_strs
  reset_strs made_strs = made_strs
  reset_strs (str_entry k m t) = str_entry k (reset m) (reset_strs t)

-- The child masks that setFieldID, setInt, setStr and setAll return, to be put back when they changed.
unfoldable pub field_child : ℤ → FieldMaskType → FieldMask → Result FieldMask
field_child f ft no_mask = panic
field_child f ft (mask is_all black typ all no_fields ints strs) =
    field_slot f make_field_mask_map >>= λ m. ok (if_not_exist ft black m)
field_child f ft (mask is_all black typ all (field_map head tail) ints strs) =
    field_slot f (field_map head tail) >>= λ m. ok (if_not_exist ft black m)

unfoldable pub put_field : ℤ → FieldMask → FieldMask → Result FieldMask
put_field f m no_mask = panic
put_field f m (mask is_all black typ all no_fields ints strs) =
    field_put f m make_field_mask_map >>= λ fd. ok (mask is_all black typ all fd ints strs)
put_field f m (mask is_all black typ all (field_map head tail) ints strs) =
    field_put f m (field_map head tail) >>= λ fd. ok (mask is_all black typ all fd ints strs)

unfoldable pub int_child : ℤ → FieldMaskType → FieldMask → Result FieldMask
int_child v ft no_mask = panic
int_child v ft (mask is_all black typ all fd ints strs) =
    ok (if_not_exist ft black (int_slot v ints))

unfoldable pub put_int : ℤ → FieldMask → FieldMask → Result FieldMask
put_int v m no_mask = panic
put_int v m (mask is_all black typ all fd ints strs) =
    ok (mask is_all black typ all fd (int_put v m ints) strs)

unfoldable pub str_child : Bytes → FieldMaskType → FieldMask → Result FieldMask
str_child v ft no_mask = panic
str_child v ft (mask is_all black typ all fd ints strs) =
    ok (if_not_exist ft black (str_slot v strs))

unfoldable pub put_str : Bytes → FieldMask → FieldMask → Result FieldMask
put_str v m no_mask = panic
put_str v m (mask is_all black typ all fd ints strs) =
    ok (mask is_all black typ all fd ints (str_put v m strs))

unfoldable pub all_child : FieldMaskType → FieldMask → Result FieldMask
all_child ft no_mask = panic
all_child ft (mask is_all black typ all fd ints strs) = ok (if_not_exist ft black all)

unfoldable pub put_all : FieldMask → FieldMask → Result FieldMask
put_all m no_mask = panic
put_all m (mask is_all black typ all fd ints strs) = ok (mask is_all black typ m fd ints strs)
