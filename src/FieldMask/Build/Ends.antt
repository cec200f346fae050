-- ===== src/FieldMask/Build/Ends.antt =====
-- Adding a path ends: each round takes a byte of the path, and what is added for an index or a key
-- goes on with the rest of it.
use thriftgo.Prelude.{
  ℕ, zero, suc, ◌^◌, ◌≤◌, ◌<◌, ◌≡◌, ◌≢◌, ◌⊎◌, Option, some, [], Bool, true, false, length,
  Bool-cases, inl, inr, arith,
}
use thriftgo.Prelude.Ints.{pos, wrap_int}
use thriftgo.Prelude.Bytes.{Bytes}
use thriftgo.Go.Outcome.{
  ok, stuck, ◌>>=◌, Good, Good-bind, Good-if, Good-not_stuck, Good-Answers, Answers, Answers-bind,
  map_err, Good-map_err,
}
use thriftgo.Reflection.Descriptors.{
  TypeDescriptor, nil, type_descriptor, StructDescriptor, World, get_value_type, get_key_type,
}
use thriftgo.Reflection.Files.{get_field_by_name, get_field_by_id}
use thriftgo.Reflection.Types.{type_struct, is_list, is_map}
use thriftgo.Reflection.Types.Answers.{type_struct-Good, is_list-Answers, is_map-Good}
use thriftgo.FieldMask.Path.{
  PathType, lit_str, lit_int, quoted, root, field, index_l, index_r, map_l, map_r, elem, any, eof,
  error, PathToken, PathIterator, Result, left_path, has_next, next,
}
use thriftgo.FieldMask.Path.Advance.{Moves, next-Moves, next-stays}
use thriftgo.FieldMask.Storage.{FieldMask}
use thriftgo.FieldMask.Query.{all, type}
use thriftgo.FieldMask.Types.{unwrap_desc, switch_ft}
use thriftgo.FieldMask.Pick.{pick_ints, pick_keys}
use thriftgo.FieldMask.Pick.Ends.{Within, pick_ints-Good, pick_keys-Good}
use thriftgo.FieldMask.Build.{
  set_type, settle_fields, valid_ft, field_token, field_step, element_desc, element_ft, index_step,
  map_keys, map_body, map_step, path_token, add_loop, add_path,
}
use thriftgo.FieldMask.Build.Answers.{
  set_type-Answers, set_is_all-Answers, settle_fields-Answers, settle_ints-Answers,
  settle_keys-Answers, type-Answers, get_value_type-Answers, get_key_type-Answers, valid_ft-Answers,
  field_child-Answers, put_field-Answers, int_child-Answers, put_int-Answers, str_child-Answers,
  put_str-Answers, all_child-Answers, put_all-Answers,
}
use thriftgo.FieldMask.Build.Kept.{Kept}
use thriftgo.FieldMask.Build.Enters.{
  enter-Good, ft-Good, switch_ft-Answers, enter_all-Good, enter_path-Good, each_int-Good,
  each_str-Good, any_field-Good, found_field-Good,
}

module _ (w : World) (typedefs : ℕ) (unquote : Bytes → Option Bytes)
    (unwraps : (td : TypeDescriptor) → Answers (unwrap_desc w typedefs td)) where
  module _ (P : FieldMask → Type 0) (kept : Kept P) (fuel : ℕ)
      (loop : FieldMask → PathIterator → TypeDescriptor → Result FieldMask)
      (good : (cur : FieldMask) (it : PathIterator) (td : TypeDescriptor)
        → P cur
        → length (left_path it) < fuel
        → Good P (loop cur it td)) where
    field_token-Good :
        (cur : FieldMask) (td : TypeDescriptor) (st : StructDescriptor) (typ : PathType)
        (tok : PathToken) (it : PathIterator)
        → P cur
        → length (left_path it) < fuel
        → Good P (field_token w typedefs unquote loop cur td st typ tok it)
    unfolding field_token
    field_token-Good cur td st eof tok it p h = tt
    field_token-Good cur td st lit_int tok it p h = Good-if _ _ _ (all cur) tt (
        found_field-Good w typedefs unquote unwraps P kept fuel loop good cur it
          (get_field_by_id (some st) (wrap_int (2 ^ 32) (pos tok.number))) p h)
    field_token-Good cur td st lit_str tok it p h = Good-if _ _ _ (all cur) tt (
        found_field-Good w typedefs unquote unwraps P kept fuel loop good cur it
          (get_field_by_name (some st) tok.text) p h)
    field_token-Good cur td st any tok it p h = Good-if _ _ _ (all cur) tt (
        Good-bind P P (settle_fields cur) _ (kept.any_field cur p) (λ settled ps.
          any_field-Good w typedefs unquote unwraps P kept fuel loop good settled it td st.fields ps
            h))
    field_token-Good cur td st quoted tok it p h = Good-if _ _ _ (all cur) tt tt
    field_token-Good cur td st root tok it p h = Good-if _ _ _ (all cur) tt tt
    field_token-Good cur td st field tok it p h = Good-if _ _ _ (all cur) tt tt
    field_token-Good cur td st index_l tok it p h = Good-if _ _ _ (all cur) tt tt
    field_token-Good cur td st index_r tok it p h = Good-if _ _ _ (all cur) tt tt
    field_token-Good cur td st map_l tok it p h = Good-if _ _ _ (all cur) tt tt
    field_token-Good cur td st map_r tok it p h = Good-if _ _ _ (all cur) tt tt
    field_token-Good cur td st elem tok it p h = Good-if _ _ _ (all cur) tt tt
    field_token-Good cur td st error tok it p h = Good-if _ _ _ (all cur) tt tt

    field_step-Good :
        (cur : FieldMask) (it : PathIterator) (td : TypeDescriptor)
        → P cur
        → length (left_path it) < fuel
        → Good P (field_step w typedefs unquote loop cur it td)
    unfolding field_step
    field_step-Good cur it td p h =
        Good-bind (λ s. Unit) P (map_err (λ e. "isn't STRUCT") (type_struct w td)) _
          (Good-map_err (λ s. Unit) _ (type_struct w td)
            (Good-Answers _ (type_struct w td) (type_struct-Good w td)))
          (λ st _.
            Good-bind (λ x. Unit) P (type cur) _ (type-Answers cur)
              (λ typ _.
                ft-Good P _ _ _ _ _ _ typ tt tt tt
                  (Good-bind (λ r. length (left_path r.1) ≤ length (left_path it)) P
                    (next unquote it) _ (next-stays unquote it)
                    (λ t k. field_token-Good cur td st t.0.typ t.0 t.1 p (omega arith)))
                  tt tt))

    element_desc-Answers : (td : TypeDescriptor) → Answers (element_desc w typedefs unquote td)
    unfolding element_desc
    element_desc-Answers td =
        Answers-bind (get_value_type td >>= unwrap_desc w typedefs) _
          (Answers-bind (get_value_type td) _ (get_value_type-Answers td) unwraps)
          (λ et. enter-Good (λ x. Unit) (λ t. ok t) "nil element descriptor" et (λ t. tt))

    element_ft-Answers : (td : TypeDescriptor) → Answers (element_ft w typedefs unquote td)
    unfolding element_ft
    element_ft-Answers td =
        Answers-bind (switch_ft w typedefs td) valid_ft
          (switch_ft-Answers w typedefs unquote unwraps td) valid_ft-Answers

    index_step-Good :
        (cur : FieldMask) (it : PathIterator) (td : TypeDescriptor)
        → P cur
        → length (left_path it) < fuel
        → Good P (index_step w typedefs unquote loop cur it td)
    unfolding index_step
    index_step-Good cur it td p h =
        Good-bind (λ x. Unit) P (is_list td) _ (is_list-Answers td)
          (λ list _.
            Good-if _ _ _ list
              (Good-bind (λ x. Unit) P (type cur) _ (type-Answers cur)
                (λ typ _.
                  ft-Good P _ _ _ _ _ _ typ tt tt
                    (Good-bind (λ x. Unit) P (element_desc w typedefs unquote td) _
                      (element_desc-Answers td)
                      (λ et _.
                        Good-bind (λ x. Unit) P (element_ft w typedefs unquote et) _
                          (element_ft-Answers et)
                          (λ ft _.
                            Good-bind (Within P it) P
                              (pick_ints unquote (suc (length (left_path it))) cur (all cur) true []
                                it)
                              _
                              (pick_ints-Good unquote P kept.any_int kept.any_key
                                (suc (length (left_path it))) cur (all cur) true [] it p
                                (omega arith))
                              (λ pk k.
                                Good-if _ _ _ pk.covers
                                  (enter_all-Good w typedefs unquote unwraps P kept fuel loop good
                                    ft pk.cur pk.rest et k.1 (let first = k.0 in omega arith))
                                  (each_int-Good w typedefs unquote unwraps P kept fuel loop good ft
                                    (left_path pk.rest) et pk.ids pk.cur k.1
                                    (let first = k.0 in omega arith))))))
                    tt tt tt))
              tt)

    map_keys-Good :
        (is_int is_str : Bool) (cur : FieldMask) (it : PathIterator) (et kt : TypeDescriptor)
        → P cur
        → length (left_path it) < fuel
        → Good P (map_keys w typedefs unquote loop is_int is_str cur it et kt)
    unfolding map_keys
    map_keys-Good is_int is_str cur it et nil p h = tt
    map_keys-Good is_int is_str cur it et (type_descriptor filepath name k v extra) p h =
        Good-bind (λ x. Unit) P (element_ft w typedefs unquote et) _ (element_ft-Answers et)
          (λ ft _.
            Good-bind (Within P it) P
              (pick_keys unquote (suc (length (left_path it))) is_int is_str cur (all cur) true []
                [] it)
              _
              (pick_keys-Good unquote P kept.any_int kept.any_key (suc (length (left_path it)))
                is_int is_str cur (all cur) true [] [] it p (omega arith))
              (λ pk k.
                Good-if _ _ _ pk.covers
                  (enter_all-Good w typedefs unquote unwraps P kept fuel loop good ft pk.cur pk.rest
                    et k.1 (let first = k.0 in omega arith))
                  (Good-if _ _ _ is_int
                    (each_int-Good w typedefs unquote unwraps P kept fuel loop good ft
                      (left_path pk.rest) et pk.ids pk.cur k.1 (let first = k.0 in omega arith))
                    (Good-if _ _ _ is_str
                      (each_str-Good w typedefs unquote unwraps P kept fuel loop good ft
                        (left_path pk.rest) et pk.strs pk.cur k.1 (let first = k.0 in omega arith))
                      tt))))

    map_body-Good :
        (is_int is_str : Bool) (cur : FieldMask) (it : PathIterator) (td : TypeDescriptor)
        → P cur
        → length (left_path it) < fuel
        → Good P (map_body w typedefs unquote loop is_int is_str cur it td)
    unfolding map_body
    map_body-Good is_int is_str cur it td p h =
        Good-bind (λ x. Unit) P (element_desc w typedefs unquote td) _ (element_desc-Answers td)
          (λ et _.
            Good-bind (λ x. Unit) P (get_key_type td) _ (get_key_type-Answers td)
              (λ kt _. map_keys-Good is_int is_str cur it et kt p h))

    map_step-Good :
        (cur : FieldMask) (it : PathIterator) (td : TypeDescriptor)
        → P cur
        → length (left_path it) < fuel
        → Good P (map_step w typedefs unquote loop cur it td)
    unfolding map_step
    map_step-Good cur it td p h =
        Good-bind (λ x. Unit) P (is_map td) _ (is_map-Good td)
          (λ keyed _.
            Good-if _ _ _ keyed
              (Good-bind (λ x. Unit) P (type cur) _ (type-Answers cur)
                (λ typ _.
                  ft-Good P _ _ _ _ _ _ typ tt (map_body-Good false false cur it td p h) tt tt
                    (map_body-Good false true cur it td p h)
                    (map_body-Good true false cur it td p h)))
              tt)

    path_token-Good :
        (cur : FieldMask) (td : TypeDescriptor) (typ : PathType) (it : PathIterator)
        → P cur
        → (typ ≡ lit_str) ⊎ (length (left_path it) < fuel)
        → Good P (path_token w typedefs unquote loop cur td typ it)
    unfolding path_token
    path_token-Good cur td root it p (inl never) = let absurd : ⊥ = cc in elim absurd [ ]
    path_token-Good cur td root it p (inr h) =
        Good-bind (λ x. Unit) P (switch_ft w typedefs td) _
          (switch_ft-Answers w typedefs unquote unwraps td)
          (λ ft _.
            Good-bind P P (set_type ft cur) _ (kept.typed ft cur p)
              (λ typed pt. good typed it td pt h))
    path_token-Good cur td field it p (inl never) = let absurd : ⊥ = cc in elim absurd [ ]
    path_token-Good cur td field it p (inr h) = field_step-Good cur it td p h
    path_token-Good cur td index_l it p (inl never) = let absurd : ⊥ = cc in elim absurd [ ]
    path_token-Good cur td index_l it p (inr h) = index_step-Good cur it td p h
    path_token-Good cur td map_l it p (inl never) = let absurd : ⊥ = cc in elim absurd [ ]
    path_token-Good cur td map_l it p (inr h) = map_step-Good cur it td p h
    path_token-Good cur td eof it p h = tt
    path_token-Good cur td lit_str it p h = tt
    path_token-Good cur td lit_int it p h = tt
    path_token-Good cur td quoted it p h = tt
    path_token-Good cur td index_r it p h = tt
    path_token-Good cur td map_r it p h = tt
    path_token-Good cur td elem it p h = tt
    path_token-Good cur td any it p h = tt
    path_token-Good cur td error it p h = tt

  add_loop-Good :
      (P : FieldMask → Type 0) (kept : Kept P) (fuel : ℕ) (cur : FieldMask) (it : PathIterator)
      (td : TypeDescriptor)
      → P cur
      → length (left_path it) < fuel
      → Good P (add_loop w typedefs unquote fuel cur it td)
  unfolding add_loop
  add_loop-Good P kept zero cur it td p h = let never : ⊥ = omega arith in elim never [ ]
  add_loop-Good P kept (suc fuel) cur it td p h = elim (Bool-cases (has_next it)) [
    | inr end ↦ rw end (kept.covered cur p)
    | inl more ↦ rw more (
        Good-bind (Moves it) P (next unquote it) _ (next-Moves unquote it more) (λ t m.
          path_token-Good P kept fuel (add_loop w typedefs unquote fuel)
            (λ c i d q k. add_loop-Good P kept fuel c i d q k) cur td t.0.typ t.1 p
            (elim m.shorter [ inl here ↦ inl here | inr less ↦ inr (omega arith) ])))
  ]

-- What every step keeps holds of the mask that a path was added to, and the adding ends.
pub add_path-Good :
    (w : World) (typedefs : ℕ) (unquote : Bytes → Option Bytes) (P : FieldMask → Type 0)
    → Kept P
    → (fuel : ℕ) (cur : FieldMask) (path : Bytes) (desc : TypeDescriptor)
    → ((td : TypeDescriptor) → Answers (unwrap_desc w typedefs td))
    → P cur
    → length path < fuel
    → Good P (add_path w typedefs unquote fuel cur path desc)
unfolding add_path
add_path-Good w typedefs unquote P kept fuel cur path desc unwraps p h =
    enter_path-Good w typedefs unquote unwraps P kept fuel (add_loop w typedefs unquote fuel)
      (add_loop-Good w typedefs unquote unwraps P kept fuel) cur path desc p h

-- No more is asked of a mask than that the steps are answered.
Kept-any : Kept (λ m. Unit)
Kept-any = record {
  typed = λ ft m p. set_type-Answers ft m;
  covered = λ m p. set_is_all-Answers m;
  any_field = λ m p. settle_fields-Answers m;
  any_int = λ m p. settle_ints-Answers m;
  any_key = λ m p. settle_keys-Answers m;
  of_field = λ f ft m p. field_child-Answers f ft m;
  with_field = λ f d m q p. put_field-Answers f d m;
  of_int = λ v ft m p. int_child-Answers v ft m;
  with_int = λ v d m q p. put_int-Answers v d m;
  of_str = λ v ft m p. str_child-Answers v ft m;
  with_str = λ v d m q p. put_str-Answers v d m;
  of_all = λ ft m p. all_child-Answers ft m;
  with_all = λ d m q p. put_all-Answers d m;
}

-- Adding a path to a mask ends, where unwrapping a type through its typedefs does: as many rounds
-- as the path has bytes, and one more, are enough for the loop and for all the calls of addPath that
-- are nested in it, whatever the path.
pub add_path-ends :
    (w : World) (typedefs fuel : ℕ) (unquote : Bytes → Option Bytes) (cur : FieldMask)
    (path : Bytes) (desc : TypeDescriptor)
    → ((td : TypeDescriptor) → Answers (unwrap_desc w typedefs td))
    → length path < fuel
    → add_path w typedefs unquote fuel cur path desc ≢ stuck
add_path-ends w typedefs fuel unquote cur path desc unwraps h =
    Good-not_stuck (λ m. Unit) (add_path w typedefs unquote fuel cur path desc)
      (add_path-Good w typedefs unquote (λ m. Unit) Kept-any fuel cur path desc unwraps tt h)
