-- ===== src/Semantic/Checker/Accepts.antt =====
-- The files on which CheckAll of semantic/checker.go returns no error.
pub mod Enums
pub mod Structs
pub mod Functions
use thriftgo.Prelude.{
  ◌≡◌, ◌≢◌, ◌↔◌, refl, Bool, true, false, Option, none, some, List, [], ◌∷◌, String, arith,
  Bool-cases, Option-cases, inl, inr, not, ◌&&◌,
}
use thriftgo.Prelude.Ints.{ℤ}
use thriftgo.Prelude.Names.{
  string_eq, int_eq, contains, Absent, Distinct, Fresh, Fresh-Distinct, contains-Absent,
  Absent-contains,
}
use thriftgo.Semantic.Report.{Fault, Report, after, after_iff, or_else, stop_or}
use thriftgo.Semantic.Ast.{Field, StructLike, Function, Service, Thrift, get_struct_likes}
use thriftgo.Semantic.Checker.{
  check_names, file_fault, global_names, check_globals, check_fields, check_struct_list,
  check_struct_likes, check_members, check_union_list, check_unions, is_empty, function_fault,
  check_function_list, check_service_list, check_functions, check_file, check_all,
}
use thriftgo.Semantic.Checker.Accepts.Enums.{AreEnums, check_enums-accepts}
use thriftgo.Semantic.Checker.Accepts.Structs.{
  AreStructs, check_globals-accepts, check_struct_likes-accepts, check_unions-accepts,
}
use thriftgo.Semantic.Checker.Accepts.Functions.{AreServices, check_functions-accepts}

module _ {Expr : Type 0} where
  -- A file that the checks let pass.
  abbrev pub IsAccepted : Thrift Expr → Type 0
  IsAccepted t =
      Distinct (global_names t)
      × AreEnums t.enums
      × AreStructs (get_struct_likes t)
      × AreServices t.services

  abbrev pub AreAccepted : List (Thrift Expr) → Type 0
  AreAccepted [] = Unit
  AreAccepted (t ∷ ts) = IsAccepted t × AreAccepted ts

  pub file_iff : (fix : Bool) (t : Thrift Expr) → ((check_file fix t).0.1 ≡ none) ↔ IsAccepted t
  unfolding check_file check_unions
  file_iff fix t = (
    (λ h.
        let (p, q) = (after_iff _ _).0 h in
        let (g, r) = (after_iff _ _).0 p in
        let (e, s) = (after_iff _ _).0 r in
        let (u, f) = (after_iff _ _).0 q in
        (
          (check_globals-accepts t).0 g,
          (check_enums-accepts t).0 e,
          (check_struct_likes-accepts t).0 s,
          (check_functions-accepts fix (check_unions fix t).1).0 f,
        )),
    (λ (g, e, s, f). (after_iff _ _).1 (
      (after_iff _ _).1 (
        (check_globals-accepts t).1 g,
        (after_iff _ _).1 ((check_enums-accepts t).1 e, (check_struct_likes-accepts t).1 s),
      ),
      (after_iff _ _).1
          (check_unions-accepts fix t, (check_functions-accepts fix (check_unions fix t).1).1 f),
    )),
  )

  -- CheckAll returns no error exactly if every file that the search hands over is accepted: distinct
  -- global names; enums with distinct names and distinct int32 numbers; structs, unions and
  -- exceptions with distinct field ids and field names; services with distinct function names whose
  -- oneway functions are void and throw nothing.
  pub check_all-accepts :
      (fix : Bool) (ts : List (Thrift Expr)) → ((check_all fix ts).0.1 ≡ none) ↔ AreAccepted ts
  unfolding check_all
  check_all-accepts fix [] = ((λ h. tt), (λ h. refl))
  check_all-accepts fix (t ∷ ts) = (
    (λ h.
        let (p, q) = (after_iff _ _).0 h in ((file_iff fix t).0 p, (check_all-accepts fix ts).0 q)),
    (λ (p, q). (after_iff _ _).1 ((file_iff fix t).1 p, (check_all-accepts fix ts).1 q)),
  )
