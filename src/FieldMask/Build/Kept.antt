-- ===== src/FieldMask/Build/Kept.antt =====
-- A property of masks that every step of adding a path keeps.
use thriftgo.Prelude.Ints.{ℤ}
use thriftgo.Prelude.Bytes.{Bytes}
use thriftgo.Go.Outcome.{Good}
use thriftgo.FieldMask.Storage.{
  FieldMaskType, FieldMask, field_child, put_field, int_child, put_int, str_child, put_str,
  all_child, put_all,
}
use thriftgo.FieldMask.Pick.{settle_ints, settle_keys}
use thriftgo.FieldMask.Build.{set_type, set_is_all, settle_fields}

pub record Kept (P : FieldMask → Type 0) : Type 0 where
  pub typed : (ft : FieldMaskType) (m : FieldMask) → P m → Good P (set_type ft m)
  pub covered : (m : FieldMask) → P m → Good P (set_is_all m)
  pub any_field : (m : FieldMask) → P m → Good P (settle_fields m)
  pub any_int : (m : FieldMask) → P m → Good P (settle_ints m)
  pub any_key : (m : FieldMask) → P m → Good P (settle_keys m)
  pub of_field : (f : ℤ) (ft : FieldMaskType) (m : FieldMask) → P m → Good P (field_child f ft m)
  pub with_field : (f : ℤ) (d m : FieldMask) → P d → P m → Good P (put_field f d m)
  pub of_int : (v : ℤ) (ft : FieldMaskType) (m : FieldMask) → P m → Good P (int_child v ft m)
  pub with_int : (v : ℤ) (d m : FieldMask) → P d → P m → Good P (put_int v d m)
  pub of_str : (v : Bytes) (ft : FieldMaskType) (m : FieldMask) → P m → Good P (str_child v ft m)
  pub with_str : (v : Bytes) (d m : FieldMask) → P d → P m → Good P (put_str v d m)
  pub of_all : (ft : FieldMaskType) (m : FieldMask) → P m → Good P (all_child ft m)
  pub with_all : (d m : FieldMask) → P d → P m → Good P (put_all d m)
