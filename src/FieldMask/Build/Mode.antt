-- ===== src/FieldMask/Build/Mode.antt =====
-- NewFieldMask gives all the masks of the tree the mode of its options.
use thriftgo.Prelude.{ℕ, ◌<◌, ◌≡◌, refl, sym, subst, Bool, Option, List, [], ◌∷◌, length}
use mathlib.Core.List.{Memᴰ}
use mathlib.Core.List.Memᴰ.{head, tail}
use thriftgo.Prelude.Ints.{ℤ}
use thriftgo.Prelude.Bytes.{Bytes}
use thriftgo.Go.Outcome.{Good, Good-bind, Answers}
use thriftgo.Reflection.Descriptors.{TypeDescriptor, World}
use thriftgo.FieldMask.Path.{Result}
use thriftgo.FieldMask.Storage.{
  FieldMaskType, FieldMask, no_mask, mask, FieldMap, IntMap, StrMap, no_fields, field_map,
  make_field_mask_map, field_slot, field_put, if_not_exist, int_slot, str_slot, field_child,
  put_field, int_child, put_int, str_child, put_str, all_child, put_all,
}
use thriftgo.FieldMask.Storage.Uniform.{
  Uniform, UniformFields, reset_fields-Uniform, reset_ints-Uniform, reset_strs-Uniform,
  if_not_exist-Uniform, int_slot-Uniform, int_put-Uniform, str_slot-Uniform, str_put-Uniform,
  field_slot-Uniform, field_put-Uniform,
}
use thriftgo.FieldMask.Types.{unwrap_desc}
use thriftgo.FieldMask.Pick.{settle_ints, settle_keys}
use thriftgo.FieldMask.Build.{set_type, set_is_all, settle_fields, add_path, init, new_field_mask}
use thriftgo.FieldMask.Build.Kept.{Kept}
use thriftgo.FieldMask.Build.Ends.{add_path-Good}

-- A child is made in the mode of its parent.
child-Uniform :
    (b black : Bool) (ft : FieldMaskType) (m : FieldMask)
    → black ≡ b
    → Uniform b m
    → Uniform b (if_not_exist ft black m)
child-Uniform b black ft m e h =
    subst (λ c. Uniform b (if_not_exist ft c m)) (sym e) (if_not_exist-Uniform b ft m h)

module _ (b : Bool) where
  field_child-Uniform :
      (f : ℤ) (ft : FieldMaskType) (m : FieldMask)
      → Uniform b m
      → Good (Uniform b) (field_child f ft m)
  unfolding Uniform field_child make_field_mask_map
  field_child-Uniform f ft no_mask h = tt
  field_child-Uniform f ft (mask is_all black typ a no_fields ints strs) h =
      Good-bind (Uniform b) (Uniform b) (field_slot f make_field_mask_map) _
        (field_slot-Uniform b f make_field_mask_map (tt, tt))
        (λ m p. child-Uniform b black ft m h.0 p)
  field_child-Uniform f ft (mask is_all black typ a (field_map low high) ints strs) h =
      Good-bind (Uniform b) (Uniform b) (field_slot f (field_map low high)) _
        (field_slot-Uniform b f (field_map low high) h.2) (λ m p. child-Uniform b black ft m h.0 p)

  put_field-Uniform :
      (f : ℤ) (d m : FieldMask) → Uniform b d → Uniform b m → Good (Uniform b) (put_field f d m)
  unfolding Uniform put_field make_field_mask_map
  put_field-Uniform f d no_mask p h = tt
  put_field-Uniform f d (mask is_all black typ a no_fields ints strs) p h =
      Good-bind (UniformFields b) (Uniform b) (field_put f d make_field_mask_map) _
        (field_put-Uniform b f d make_field_mask_map p (tt, tt)) (λ fd q. (h.0, h.1, q, h.3, h.4))
  put_field-Uniform f d (mask is_all black typ a (field_map low high) ints strs) p h =
      Good-bind (UniformFields b) (Uniform b) (field_put f d (field_map low high)) _
        (field_put-Uniform b f d (field_map low high) p h.2) (λ fd q. (h.0, h.1, q, h.3, h.4))

  -- A change of one mask that panics on nil.
  changed :
      (f : FieldMask → Result FieldMask)
      → Good (Uniform b) (f no_mask)
      → ((is_all black : Bool) (typ : FieldMaskType) (a : FieldMask) (fd : FieldMap) (ints : IntMap)
            (strs : StrMap)
          → Uniform b (mask is_all black typ a fd ints strs)
          → Good (Uniform b) (f (mask is_all black typ a fd ints strs)))
      → (m : FieldMask) → Uniform b m
      → Good (Uniform b) (f m)
  changed f n k no_mask h = n
  changed f n k (mask is_all black typ a fd ints strs) h = k is_all black typ a fd ints strs h

  Kept-Uniform : Kept (Uniform b)
  unfolding Uniform set_type set_is_all settle_fields settle_ints settle_keys int_child put_int
      str_child put_str all_child put_all
  Kept-Uniform = record {
    typed = λ ft. changed (set_type ft) tt (λ i c t a f x y h. h);
    covered = changed set_is_all tt (λ i c t a f x y h. h);
    any_field =
        changed settle_fields tt
          (λ i c t a f x y h. (h.0, h.1, reset_fields-Uniform b f h.2, h.3, h.4));
    any_int =
        changed settle_ints tt
          (λ i c t a f x y h. (h.0, h.1, h.2, reset_ints-Uniform b x h.3, h.4));
    any_key = changed settle_keys tt (λ i c t a f x y h.
        (h.0, h.1, h.2, reset_ints-Uniform b x h.3, reset_strs-Uniform b y h.4));
    of_field = field_child-Uniform;
    with_field = put_field-Uniform;
    of_int = λ v ft.
        changed (int_child v ft) tt
          (λ i c t a f x y h. child-Uniform b c ft (int_slot v x) h.0 (int_slot-Uniform b v x h.3));
    with_int = λ v d m p.
        changed (put_int v d) tt
          (λ i c t a f x y h. (h.0, h.1, h.2, int_put-Uniform b v d x p h.3, h.4)) m;
    of_str = λ v ft.
        changed (str_child v ft) tt
          (λ i c t a f x y h. child-Uniform b c ft (str_slot v y) h.0 (str_slot-Uniform b v y h.4));
    with_str = λ v d m p.
        changed (put_str v d) tt
          (λ i c t a f x y h. (h.0, h.1, h.2, h.3, str_put-Uniform b v d y p h.4)) m;
    of_all = λ ft. changed (all_child ft) tt (λ i c t a f x y h. child-Uniform b c ft a h.0 h.1);
    with_all = λ d m p. changed (put_all d) tt (λ i c t a f x y h. (h.0, p, h.2, h.3, h.4)) m;
  }

module _ (w : World) (typedefs : ℕ) (unquote : Bytes → Option Bytes) (fuel : ℕ)
    (desc : TypeDescriptor)
    (unwraps : (td : TypeDescriptor) → Answers (unwrap_desc w typedefs td)) where
  init-Uniform :
      (b : Bool) (self : FieldMask) (paths : List Bytes)
      → ((path : Bytes) → Memᴰ path paths → length path < fuel)
      → Uniform b self
      → Good (Uniform b) (init w typedefs unquote fuel self desc paths)
  unfolding init
  init-Uniform b self [] h p = p
  init-Uniform b self (path ∷ paths) h p =
      Good-bind (Uniform b) (Uniform b) (add_path w typedefs unquote fuel self path desc) _
        (add_path-Good w typedefs unquote (Uniform b) (Kept-Uniform b) fuel self path desc unwraps p
          (h path (head refl)))
        (λ added q. init-Uniform b added paths (λ x m. h x (tail m)) q)

-- NewFieldMask ends, with as much fuel as each path has bytes and one more, where unwrapping a type
-- does; and in the tree of masks that it returns, if it does not fail, every mask, however deep,
-- has the mode that the options say, black list or white list.
pub new_field_mask-Uniform :
    (w : World) (typedefs fuel : ℕ) (unquote : Bytes → Option Bytes) (black : Bool)
    (desc : TypeDescriptor) (paths : List Bytes)
    → ((td : TypeDescriptor) → Answers (unwrap_desc w typedefs td))
    → ((path : Bytes) → Memᴰ path paths → length path < fuel)
    → Good (Uniform black) (new_field_mask w typedefs unquote fuel black desc paths)
unfolding new_field_mask Uniform
new_field_mask-Uniform w typedefs fuel unquote black desc paths unwraps h =
    init-Uniform w typedefs unquote fuel desc unwraps black _ paths h (refl, tt, tt, tt, tt)
