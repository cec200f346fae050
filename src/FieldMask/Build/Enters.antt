-- ===== src/FieldMask/Build/Enters.antt =====
-- Going on with a path in a child mask ends, where the loop does on a path that is shorter.
use thriftgo.Prelude.{ℕ, ◌<◌, Option, none, some, List, [], ◌∷◌, length, String}
use thriftgo.Prelude.Ints.{ℤ}
use thriftgo.Prelude.Bytes.{Bytes}
use thriftgo.Go.Outcome.{err, ◌>>=◌, Good, Good-bind, Good-if, Answers, Answers-bind}
use thriftgo.Reflection.Descriptors.{
  TypeDescriptor, nil, type_descriptor, FieldDescriptor, World, get_key_type,
}
use thriftgo.Reflection.Types.{is_list, is_map, is_basic, is_struct, is_enum}
use thriftgo.Reflection.Types.Answers.{
  is_list-Answers, is_map-Good, is_basic-Answers, is_struct-Answers, is_enum-Answers,
}
use thriftgo.FieldMask.Path.{PathIterator, Result, new_path_iter, left_path}
use thriftgo.FieldMask.Storage.{
  FieldMaskType, ft_invalid, ft_scalar, ft_list, ft_struct, ft_str_map, ft_int_map, FieldMask,
  field_child, put_field, int_child, put_int, str_child, put_str, all_child,
}
use thriftgo.FieldMask.Types.{unwrap_desc, switch_ft}
use thriftgo.FieldMask.Build.{
  enter_all, enter_path, each_int, each_str, enter_field, any_field, found_field,
}
use thriftgo.FieldMask.Build.Answers.{get_key_type-Answers, key_ft-Answers}
use thriftgo.FieldMask.Build.Kept.{Kept}

pub enter-Good :
    {A : Type 0} (P : A → Type 0) (go : TypeDescriptor → Result A) (why : String)
    (d : TypeDescriptor)
    → ((td : TypeDescriptor) → Good P (go td))
    → Good {E = String} P (elim d [
      | nil ↦ err why
      | type_descriptor filepath name k v extra ↦ go (type_descriptor filepath name k v extra)
    ])
enter-Good P go why nil h = tt
enter-Good P go why (type_descriptor filepath name k v extra) h = h _

-- A choice by the type of a mask.
pub ft-Good :
    {A : Type 0} (P : A → Type 0) (invalid scalar list struct strs ints : Result A)
    (typ : FieldMaskType)
    → Good P invalid
    → Good P scalar
    → Good P list
    → Good P struct
    → Good P strs
    → Good P ints
    → Good {E = String} P (elim typ [
      | ft_invalid ↦ invalid
      | ft_scalar ↦ scalar
      | ft_list ↦ list
      | ft_struct ↦ struct
      | ft_str_map ↦ strs
      | ft_int_map ↦ ints
    ])
ft-Good P i s l t k n ft_invalid hi hs hl ht hk hn = hi
ft-Good P i s l t k n ft_scalar hi hs hl ht hk hn = hs
ft-Good P i s l t k n ft_list hi hs hl ht hk hn = hl
ft-Good P i s l t k n ft_struct hi hs hl ht hk hn = ht
ft-Good P i s l t k n ft_str_map hi hs hl ht hk hn = hk
ft-Good P i s l t k n ft_int_map hi hs hl ht hk hn = hn

module _ (w : World) (typedefs : ℕ) (unquote : Bytes → Option Bytes)
    (unwraps : (td : TypeDescriptor) → Answers (unwrap_desc w typedefs td)) where
  pub switch_ft-Answers : (td : TypeDescriptor) → Answers (switch_ft w typedefs td)
  unfolding switch_ft
  switch_ft-Answers td = Answers-bind (unwrap_desc w typedefs td) _ (unwraps td) (λ d.
      Answers-bind (is_basic d) _ (is_basic-Answers d) (λ basic. Good-if _ _ _ basic tt (
        Answers-bind (is_list d) _ (is_list-Answers d) (λ list. Good-if _ _ _ list tt (
          Answers-bind (is_map d) _ (is_map-Good d) (λ keyed.
            Good-if _ _ _ keyed
              (Answers-bind (get_key_type d >>= unwrap_desc w typedefs) _
                (Answers-bind (get_key_type d) _ (get_key_type-Answers d) unwraps)
                (key_ft-Answers w))
              (Answers-bind (is_struct w d) _ (is_struct-Answers w d) (λ struct.
                Good-if _ _ _ struct tt
                  (Answers-bind (is_enum w d) _ (is_enum-Answers w d) (λ enum. tt))))))))))

  module _ (P : FieldMask → Type 0) (kept : Kept P) (fuel : ℕ)
      (loop : FieldMask → PathIterator → TypeDescriptor → Result FieldMask)
      (good : (cur : FieldMask) (it : PathIterator) (td : TypeDescriptor)
        → P cur
        → length (left_path it) < fuel
        → Good P (loop cur it td)) where
    pub enter_all-Good :
        (ft : FieldMaskType) (cur : FieldMask) (it : PathIterator) (td : TypeDescriptor)
        → P cur
        → length (left_path it) < fuel
        → Good P (enter_all loop ft cur it td)
    unfolding enter_all
    enter_all-Good ft cur it td p h =
        Good-bind P P (all_child ft cur) _ (kept.of_all ft cur p) (λ child pc.
          Good-bind P P (loop child it td) _ (good child it td pc h)
            (λ done pd. kept.with_all done cur pd p))

    pub enter_path-Good :
        (cur : FieldMask) (path : Bytes) (td : TypeDescriptor)
        → P cur
        → length path < fuel
        → Good P (enter_path w typedefs unquote loop cur path td)
    unfolding enter_path new_path_iter left_path
    enter_path-Good cur path td p h =
        Good-bind (λ d. Unit) P (unwrap_desc w typedefs td) _ (unwraps td)
          (λ d _.
            enter-Good P (loop cur (new_path_iter path)) "nil descriptor" d
              (λ t. good cur (new_path_iter path) t p h))

    pub each_int-Good :
        (ft : FieldMaskType) (path : Bytes) (et : TypeDescriptor) (ids : List ℤ) (cur : FieldMask)
        → P cur
        → length path < fuel
        → Good P (each_int w typedefs unquote loop ft path et ids cur)
    unfolding each_int
    each_int-Good ft path et [] cur p h = p
    each_int-Good ft path et (id ∷ ids) cur p h =
        Good-bind P P (int_child id ft cur) _ (kept.of_int id ft cur p) (λ child pc.
          Good-bind P P (enter_path w typedefs unquote loop child path et) _
            (enter_path-Good child path et pc h)
            (λ done pd.
              Good-bind P P (put_int id done cur) _ (kept.with_int id done cur pd p)
                (λ after pa. each_int-Good ft path et ids after pa h)))

    pub each_str-Good :
        (ft : FieldMaskType) (path : Bytes) (et : TypeDescriptor) (ids : List Bytes)
        (cur : FieldMask)
        → P cur
        → length path < fuel
        → Good P (each_str w typedefs unquote loop ft path et ids cur)
    unfolding each_str
    each_str-Good ft path et [] cur p h = p
    each_str-Good ft path et (id ∷ ids) cur p h =
        Good-bind P P (str_child id ft cur) _ (kept.of_str id ft cur p) (λ child pc.
          Good-bind P P (enter_path w typedefs unquote loop child path et) _
            (enter_path-Good child path et pc h)
            (λ done pd.
              Good-bind P P (put_str id done cur) _ (kept.with_str id done cur pd p)
                (λ after pa. each_str-Good ft path et ids after pa h)))

    pub enter_field-Good :
        (cur : FieldMask) (it : PathIterator) (f : FieldDescriptor)
        → P cur
        → length (left_path it) < fuel
        → Good P (enter_field w typedefs unquote loop cur it f)
    unfolding enter_field
    enter_field-Good cur it f p h =
        Good-bind (λ d. Unit) P (unwrap_desc w typedefs f.type) _ (unwraps f.type)
          (λ d _.
            enter-Good P
              (λ t. switch_ft w typedefs f.type >>= λ ft. field_child f.id ft cur >>= λ child.
                loop child it t >>= λ done. put_field f.id done cur)
              "nil type descriptor" d
              (λ t.
                Good-bind (λ t1. Unit) P (switch_ft w typedefs f.type) _ (switch_ft-Answers f.type)
                  (λ ft _.
                    Good-bind P P (field_child f.id ft cur) _ (kept.of_field f.id ft cur p)
                      (λ child pc.
                        Good-bind P P (loop child it t) _ (good child it t pc h)
                          (λ done pd. kept.with_field f.id done cur pd p)))))

    pub any_field-Good :
        (cur : FieldMask) (it : PathIterator) (td : TypeDescriptor) (fs : List FieldDescriptor)
        → P cur
        → length (left_path it) < fuel
        → Good P (any_field w typedefs unquote loop cur it td fs)
    unfolding any_field
    any_field-Good cur it td [] p h = tt
    any_field-Good cur it td (f ∷ fs) p h =
        enter-Good P (λ t. switch_ft w typedefs t >>= λ ft. enter_all loop ft cur it td)
          "doesn't have children fields" f.type
          (λ t.
            Good-bind (λ t1. Unit) P (switch_ft w typedefs t) _ (switch_ft-Answers t)
              (λ ft _. enter_all-Good ft cur it td p h))

    pub found_field-Good :
        (cur : FieldMask) (it : PathIterator) (o : Option FieldDescriptor)
        → P cur
        → length (left_path it) < fuel
        → Good P (found_field w typedefs unquote loop cur it o)
    found_field-Good cur it none p h = tt
    found_field-Good cur it (some f) p h = enter_field-Good cur it f p h
