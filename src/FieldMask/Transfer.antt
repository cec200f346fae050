-- ===== src/FieldMask/Transfer.antt =====
-- fieldmask/serdes.go: a mask from its transfer form.
pub mod Finds
use thriftgo.Prelude.{◌≡◌, List, [], ◌∷◌, Bool, true, false, if◌then◌else◌}
use thriftgo.Prelude.Ints.{ℤ}
use thriftgo.Prelude.Bytes.{Bytes, codes, bytes_eq}
use thriftgo.Go.Outcome.{Outcome, ok, err, panic, stuck, ◌>>=◌}
use thriftgo.FieldMask.Path.{Result}
use thriftgo.FieldMask.Storage.{
  FieldMaskType, ft_invalid, ft_scalar, ft_list, ft_struct, ft_str_map, ft_int_map, FieldMask,
  no_mask, mask, no_fields, nil_ints, nil_strs, field_child, put_field, int_child, put_int,
  str_child, put_str,
}
use thriftgo.FieldMask.Build.{set_is_all}

-- `path` is the JSON text of the key.
mutual
  pub data FieldMaskTransfer : Type 0 where
    transfer :
        (path : Bytes)
        → (type : FieldMaskType) → (is_black : Bool) → (children : Transfers) → FieldMaskTransfer

  pub data Transfers : Type 0 where
    end : Transfers
    child : FieldMaskTransfer → Transfers → Transfers

abbrev pub json_path_any : Bytes
json_path_any = codes "\"*\""

unfoldable pub is_any : Bytes → Bool
is_any path = bytes_eq.same path json_path_any

abbrev pub type_of : FieldMaskTransfer → FieldMaskType
type_of (transfer path type is_black children) = type

abbrev pub path_of : FieldMaskTransfer → Bytes
path_of (transfer path type is_black children) = path

-- `self.typ = s.Type; self.isBlack = s.IsBlack`
unfoldable pub retype : FieldMaskType → Bool → FieldMask → Result FieldMask
retype ft black no_mask = panic
retype ft black (mask is_all b typ a fd ints strs) = ok (mask is_all black ft a fd ints strs)

unfoldable pub set_all : FieldMask → FieldMask → Result FieldMask
set_all a no_mask = panic
set_all a (mask is_all black typ b fd ints strs) = ok (mask true black typ a fd ints strs)

abbrev pub empty_mask : FieldMask
empty_mask = mask false false ft_invalid no_mask no_fields nil_ints nil_strs

-- json.Unmarshal into a field id, an int and a string is a parameter: the key, or an error.
module _ (field_id : Bytes → Result ℤ) (int_key : Bytes → Result ℤ)
    (str_key : Bytes → Result Bytes) where
  unfoldable mutual
    pub transfer_from : FieldMask → FieldMaskTransfer → Result FieldMask
    transfer_from self (transfer path ft_invalid black children) = err "invalid fieldmask type"
    transfer_from self (transfer path ft_scalar black children) =
        let rest = scalar_from children in retype ft_scalar black self >>= rest
    transfer_from self (transfer path ft_list black children) =
        let rest = ints_from children in retype ft_list black self >>= rest true
    transfer_from self (transfer path ft_struct black children) =
        let rest = fields_from children in retype ft_struct black self >>= rest true
    transfer_from self (transfer path ft_str_map black children) =
        let rest = strs_from children in retype ft_str_map black self >>= rest true
    transfer_from self (transfer path ft_int_map black children) =
        let rest = ints_from children in retype ft_int_map black self >>= rest true

    pub scalar_from : Transfers → FieldMask → Result FieldMask
    scalar_from end self = set_is_all self
    scalar_from (child (transfer path type black cs) rest) self =
        let all = transfer_from empty_mask (transfer path type black cs) in
        if is_any path then all >>= (λ a. set_all a self) else err "expect * for the child"

    -- `first` is true before the first child: without children the mask covers all.
    pub ints_from : Transfers → Bool → FieldMask → Result FieldMask
    ints_from end first self = if first then set_is_all self else ok self
    ints_from (child (transfer path type black cs) rest) first self =
        let all = transfer_from empty_mask (transfer path type black cs) in
        let more = ints_from rest in
        let down : FieldMask → Result FieldMask =
          λ m. transfer_from m (transfer path type black cs) in
        if is_any path
        then all >>= (λ a. set_all a self)
        else int_key path >>= λ id. int_child id type self >>= λ next.
            down next >>= λ done. put_int id done self >>= λ after. more false after

    pub fields_from : Transfers → Bool → FieldMask → Result FieldMask
    fields_from end first self = if first then set_is_all self else ok self
    fields_from (child (transfer path type black cs) rest) first self =
        let all = transfer_from empty_mask (transfer path type black cs) in
        let more = fields_from rest in
        let down : FieldMask → Result FieldMask =
          λ m. transfer_from m (transfer path type black cs) in
        if is_any path
        then all >>= (λ a. set_all a self)
        else field_id path >>= λ id. field_child id type self >>= λ next.
            down next >>= λ done. put_field id done self >>= λ after. more false after

    pub strs_from : Transfers → Bool → FieldMask → Result FieldMask
    strs_from end first self = if first then set_is_all self else ok self
    strs_from (child (transfer path type black cs) rest) first self =
        let all = transfer_from empty_mask (transfer path type black cs) in
        let more = strs_from rest in
        let down : FieldMask → Result FieldMask =
          λ m. transfer_from m (transfer path type black cs) in
        if is_any path
        then all >>= (λ a. set_all a self)
        else str_key path >>= λ id. str_child id type self >>= λ next.
            down next >>= λ done. put_str id done self >>= λ after. more false after
