-- ===== src/Semantic/Checker/Repairs.antt =====
-- What CheckUnions leaves behind, and its warnings.
use thriftgo.Prelude.{◌≡◌, refl, ap, Bool, true, false, none, List, [], ◌∷◌, ◌++◌, ◌&&◌, String}
use thriftgo.Semantic.Report.{Warning, union_requiredness}
use thriftgo.Semantic.Ast.{Requiredness, required, optional, by_default, Field, StructLike, Thrift}
use thriftgo.Semantic.Checker.{
  has_default, union_warning, check_members, check_union_list, check_unions,
}

and_false : (b : Bool) → b && false ≡ false
and_false true = refl
and_false false = refl

-- What a field of the union `u` declares, and the warning for it.
abbrev pub warnings_of : String → Requiredness → String → List Warning
warnings_of u required name = union_requiredness u name ∷ []
warnings_of u optional name = []
warnings_of u by_default name = []

module _ {Expr : Type 0} where
  abbrev pub member_warnings : String → List (Field Expr) → List Warning
  member_warnings u [] = []
  member_warnings u (f ∷ fs) = warnings_of u f.requiredness f.name ++ member_warnings u fs

  abbrev pub union_warnings : List (StructLike Expr) → List Warning
  union_warnings [] = []
  union_warnings (u ∷ us) = member_warnings u.name u.fields ++ union_warnings us

  abbrev pub repaired_fields : Bool → List (Field Expr) → List (Field Expr)
  repaired_fields fix [] = []
  repaired_fields true (f ∷ fs) = record f { requiredness = optional } ∷ repaired_fields true fs
  repaired_fields false (f ∷ fs) = f ∷ repaired_fields false fs

  abbrev pub repaired : Bool → List (StructLike Expr) → List (StructLike Expr)
  repaired fix [] = []
  repaired fix (u ∷ us) = record u { fields = repaired_fields fix u.fields } ∷ repaired fix us

  union_warning_lem :
      (u : String) (f : Field Expr) → union_warning u f ≡ warnings_of u f.requiredness f.name
  union_warning_lem u f =
      elim f.requiredness
        as (λ r.
          elim r [ required ↦ union_requiredness u f.name ∷ [] | _ ↦ [] ]
          ≡ warnings_of u r f.name) [ required ↦ refl | optional ↦ refl | by_default ↦ refl ]

  members_result :
      (fix : Bool) (file u : String) (fs : List (Field Expr))
      → check_members fix file u false fs ≡ ((member_warnings u fs, none), repaired_fields fix fs)
  unfolding check_members
  members_result fix file u [] = refl
  members_result true file u (f ∷ fs) =
      rw
        (
          and_false (has_default f),
          members_result true file u fs,
          union_warning_lem u f,
          check_members,
        )
        refl
  members_result false file u (f ∷ fs) =
      rw
        (
          and_false (has_default f),
          members_result false file u fs,
          union_warning_lem u f,
          check_members,
        )
        refl

  union_list_result :
      (fix : Bool) (file : String) (us : List (StructLike Expr))
      → check_union_list fix file us ≡ ((union_warnings us, none), repaired fix us)
  unfolding check_union_list
  union_list_result fix file [] = refl
  union_list_result fix file (u ∷ us) =
      rw (members_result fix file u.name u.fields, union_list_result fix file us, check_union_list)
        refl

  -- CheckUnions warns of each union field that is declared as required, in order, and returns no
  -- error. It changes nothing but the unions, where the repairs are asked for, and there it makes
  -- every field optional.
  pub check_unions-repaired :
      (fix : Bool) (t : Thrift Expr)
      → check_unions fix t
        ≡ ((union_warnings t.unions, none), record t { unions = repaired fix t.unions })
  unfolding check_unions
  check_unions-repaired fix t = rw (union_list_result fix t.filename t.unions, check_unions) refl

  untouched_fields : (fs : List (Field Expr)) → repaired_fields false fs ≡ fs
  untouched_fields [] = refl
  untouched_fields (f ∷ fs) = ap (λ l. f ∷ l) (untouched_fields fs)

  untouched : (us : List (StructLike Expr)) → repaired false us ≡ us
  untouched [] = refl
  untouched (u ∷ us) = rw (untouched_fields u.fields, untouched us) refl

  -- Where the repairs are not asked for, CheckUnions leaves the file as it is.
  pub check_unions-untouched : (t : Thrift Expr) → (check_unions false t).1 ≡ t
  check_unions-untouched t = rw (check_unions-repaired false t, untouched t.unions) refl
