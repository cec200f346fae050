-- ===== src/Semantic/Checker/Accepts/Structs.antt =====
-- CheckGlobals, CheckStructLikes and CheckUnions: the files on which they return no error.
use thriftgo.Prelude.{
  ◌≡◌, ◌↔◌, refl, Bool, false, Option, none, some, List, [], ◌∷◌, String, arith, Bool-cases, inl,
  inr,
}
use thriftgo.Prelude.Ints.{ℤ}
use thriftgo.Prelude.Names.{
  string_eq, int_eq, contains, Distinct, Fresh, Fresh-Distinct, contains-Absent, Absent-contains,
}
use thriftgo.Semantic.Report.{after_iff}
use thriftgo.Semantic.Ast.{Field, StructLike, Thrift, get_struct_likes}
use thriftgo.Semantic.Checker.{
  check_names, file_fault, global_names, check_globals, check_fields, check_struct_list,
  check_struct_likes, check_members, check_union_list, check_unions,
}

names_iff : (ss seen : List String) → (check_names seen ss ≡ none) ↔ Fresh seen ss
unfolding check_names
names_iff [] seen = ((λ h. tt), (λ h. refl))
names_iff (s ∷ ss) seen = (
  (λ h. elim (Bool-cases (contains s seen)) [
    | inl old ↦ ground (arith, old, h)
    | inr new ↦ (contains-Absent s seen new, (names_iff ss (s ∷ seen)).0 (rw new at h))
  ]),
  (λ (a, f). rw (Absent-contains s seen a) ((names_iff ss (s ∷ seen)).1 f)),
)

file_fault_iff : (file : String) (o : Option String) → (file_fault file o ≡ none) ↔ (o ≡ none)
file_fault_iff file none = ((λ h. refl), (λ h. refl))
file_fault_iff file (some s) = ((λ h. ground (arith, h)), (λ h. ground (arith, h)))

module _ {Expr : Type 0} where
  -- CheckGlobals returns no error exactly if the names of the typedefs, the constants, the structs,
  -- unions and exceptions, and the services all differ from one another.
  pub check_globals-accepts :
      (t : Thrift Expr) → ((check_globals t).1 ≡ none) ↔ Distinct (global_names t)
  unfolding check_globals
  check_globals-accepts t = (
    (λ h.
        (Fresh-Distinct (global_names t)).0
          ((names_iff (global_names t) []).0 ((file_fault_iff t.filename _).0 h))),
    (λ d.
        (file_fault_iff t.filename _).1
          ((names_iff (global_names t) []).1 ((Fresh-Distinct (global_names t)).1 d))),
  )

  abbrev pub ids : List (Field Expr) → List ℤ
  ids [] = []
  ids (f ∷ fs) = f.id ∷ ids fs

  abbrev pub names : List (Field Expr) → List String
  names [] = []
  names (f ∷ fs) = f.name ∷ names fs

  abbrev pub AreStructs : List (StructLike Expr) → Type 0
  AreStructs [] = Unit
  AreStructs (s ∷ ss) = (Distinct (ids s.fields) × Distinct (names s.fields)) × AreStructs ss

  fields_iff :
      (file : String) (s : StructLike Expr) (fs : List (Field Expr)) (is : List ℤ)
      (ns : List String)
      → ((check_fields file s is ns fs).1 ≡ none) ↔ (Fresh is (ids fs) × Fresh ns (names fs))
  unfolding check_fields
  fields_iff file s [] is ns = ((λ h. (tt, tt)), (λ h. refl))
  fields_iff file s (f ∷ fs) is ns = (
    (λ h. elim (Bool-cases (contains f.id is)) [
      | inl old ↦ ground (arith, rw old at h)
      | inr new ↦
          let h' = rw new at h in
          elim (Bool-cases (contains f.name ns)) [
            | inl old ↦ ground (arith, rw old at h')
            | inr new' ↦
                let (p, q) = (fields_iff file s fs (f.id ∷ is) (f.name ∷ ns)).0 (rw new' at h') in
                ((contains-Absent f.id is new, p), (contains-Absent f.name ns new', q))
          ]
    ]),
    (λ (p, q).
        rw (Absent-contains f.id is p.0, Absent-contains f.name ns q.0)
          ((fields_iff file s fs (f.id ∷ is) (f.name ∷ ns)).1 (p.1, q.1))),
  )

  struct_list_iff :
      (file : String) (ss : List (StructLike Expr))
      → ((check_struct_list file ss).1 ≡ none) ↔ AreStructs ss
  unfolding check_struct_list
  struct_list_iff file [] = ((λ h. tt), (λ h. refl))
  struct_list_iff file (s ∷ ss) = (
    (λ h.
        let (p, q) = (after_iff _ _).0 h in
        let (a, b) = (fields_iff file s s.fields [] []).0 p in
        (
          ((Fresh-Distinct (ids s.fields)).0 a, (Fresh-Distinct (names s.fields)).0 b),
          (struct_list_iff file ss).0 q,
        )),
    (λ (p, q). (after_iff _ _).1 (
      (fields_iff file s s.fields [] []).1
          ((Fresh-Distinct (ids s.fields)).1 p.0, (Fresh-Distinct (names s.fields)).1 p.1),
      (struct_list_iff file ss).1 q,
    )),
  )

  -- CheckStructLikes returns no error exactly if in each struct, union and exception the field ids
  -- differ from one another, and so do the field names.
  pub check_struct_likes-accepts :
      (t : Thrift Expr) → ((check_struct_likes t).1 ≡ none) ↔ AreStructs (get_struct_likes t)
  unfolding check_struct_likes
  check_struct_likes-accepts t = struct_list_iff t.filename (get_struct_likes t)

  members_accept :
      (fix : Bool) (file u : String) (fs : List (Field Expr))
      → (check_members fix file u false fs).0.1 ≡ none
  unfolding check_members
  members_accept fix file u [] = refl
  members_accept fix file u (f ∷ fs) = ground (arith, members_accept fix file u fs)

  union_list_accept :
      (fix : Bool) (file : String) (us : List (StructLike Expr))
      → (check_union_list fix file us).0.1 ≡ none
  unfolding check_union_list
  union_list_accept fix file [] = refl
  union_list_accept fix file (u ∷ us) =
      (after_iff _ _).1 (members_accept fix file u.name u.fields, union_list_accept fix file us)

  -- CheckUnions returns an error on no file: two default values in a union go unnoticed.
  pub check_unions-accepts : (fix : Bool) (t : Thrift Expr) → (check_unions fix t).0.1 ≡ none
  unfolding check_unions
  check_unions-accepts fix t = union_list_accept fix t.filename t.unions
