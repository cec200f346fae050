-- ===== src/FieldMask/Query.antt =====
-- fieldmask/mask.go: what a mask says of a field, an element or a key.
pub mod Put
use thriftgo.Prelude.{◌≡◌, Bool, true, false, not, ◌&&◌, ◌||◌, if◌then◌else◌}
use thriftgo.Prelude.Ints.{ℤ, pos, negsuc}
use thriftgo.Prelude.Bytes.{Bytes}
use thriftgo.Go.Outcome.{Outcome, ok, err, panic, stuck, ◌>>=◌}
use thriftgo.FieldMask.Path.{Result}
use thriftgo.FieldMask.Storage.{
  FieldMaskType, ft_invalid, ft_scalar, ft_list, ft_struct, ft_str_map, ft_int_map, FieldMask,
  no_mask, mask, FieldMap, no_fields, field_map, IntMap, nil_ints, made_ints, int_entry, StrMap,
  nil_strs, made_strs, str_entry, exist, field_get, int_get, str_get,
}

abbrev has_mask : FieldMask → Bool
has_mask no_mask = false
has_mask (mask is_all is_black typ all fd ints strs) = true

abbrev has_fields : FieldMap → Bool
has_fields no_fields = false
has_fields (field_map head tail) = true

abbrev has_ints : IntMap → Bool
has_ints nil_ints = false
has_ints made_ints = true
has_ints (int_entry k m t) = true

abbrev has_strs : StrMap → Bool
has_strs nil_strs = false
has_strs made_strs = true
has_strs (str_entry k m t) = true

unfoldable pub has_child : FieldMask → Result Bool
has_child no_mask = panic
has_child (mask is_all is_black typ all fd ints strs) = ok (
    exist (mask is_all is_black typ all fd ints strs)
    && (has_mask all || has_fields fd || has_ints ints || has_strs strs))

-- The answer for a child of a black list, or of a white one.
unfoldable pub ret : Bool → FieldMask → Result (FieldMask × Bool)
ret true no_mask = ok (no_mask, true)
ret true (mask is_all is_black typ all fd ints strs) =
    has_child (mask is_all is_black typ all fd ints strs) >>= λ c.
    ok (mask is_all is_black typ all fd ints strs, c)
ret false no_mask = ok (no_mask, false)
ret false (mask is_all is_black typ all fd ints strs) =
    ok (mask is_all is_black typ all fd ints strs, true)

-- The common part of Field, Int and Str: `child` is the entry of the id.
unfoldable pub answer : (FieldMask → Result FieldMask) → FieldMask → Result (FieldMask × Bool)
answer child no_mask = ok (no_mask, true)
answer child (mask is_all is_black ft_invalid all fd ints strs) = ok (no_mask, true)
answer child (mask true is_black typ all fd ints strs) =
    has_child (mask true is_black typ all fd ints strs) >>= λ c. ok (all, not is_black || c)
answer child (mask false is_black typ all fd ints strs) =
    child (mask false is_black typ all fd ints strs) >>= λ fm. ret is_black fm

abbrev pub fields_of : FieldMask → FieldMap
fields_of no_mask = no_fields
fields_of (mask is_all is_black typ all fd ints strs) = fd

abbrev pub ints_of : FieldMask → IntMap
ints_of no_mask = nil_ints
ints_of (mask is_all is_black typ all fd ints strs) = ints

abbrev pub strs_of : FieldMask → StrMap
strs_of no_mask = nil_strs
strs_of (mask is_all is_black typ all fd ints strs) = strs

unfoldable pub field : FieldMask → ℤ → Result (FieldMask × Bool)
field self id = answer (λ m. field_get id (fields_of m)) self

unfoldable pub int : FieldMask → ℤ → Result (FieldMask × Bool)
int self id = answer (λ m. ok (int_get id (ints_of m))) self

unfoldable pub str : FieldMask → Bytes → Result (FieldMask × Bool)
str self id = answer (λ m. ok (str_get id (strs_of m))) self

unfoldable pub all : FieldMask → Bool
all no_mask = true
all (mask is_all is_black ft_struct a fd ints strs) = is_all
all (mask is_all is_black ft_list a fd ints strs) = is_all
all (mask is_all is_black ft_int_map a fd ints strs) = is_all
all (mask is_all is_black ft_str_map a fd ints strs) = is_all
all (mask is_all is_black typ a fd ints strs) = true

-- IsBlack and Type read a field, which panics on nil.
unfoldable pub is_black : FieldMask → Result Bool
is_black no_mask = panic
is_black (mask is_all black typ a fd ints strs) = ok black

unfoldable pub type : FieldMask → Result FieldMaskType
type no_mask = panic
type (mask is_all black typ a fd ints strs) = ok typ
