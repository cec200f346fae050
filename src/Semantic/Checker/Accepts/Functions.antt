-- ===== src/Semantic/Checker/Accepts/Functions.antt =====
-- CheckFunctions returns no error on services that satisfy its conditions, and on no other.
use thriftgo.Prelude.{
  ◌≡◌, ◌↔◌, refl, Bool, true, false, Option, none, some, List, [], ◌∷◌, String, arith, Bool-cases,
  inl, inr, not, ◌&&◌, ◌||◌,
}
use thriftgo.Prelude.Names.{
  string_eq, int_eq, contains, Absent, Distinct, Fresh, Fresh-Distinct, contains-Absent,
  Absent-contains,
}
use thriftgo.Semantic.Report.{Fault, after, after_iff, stop_or, Checked}
use thriftgo.Semantic.Ast.{Field, Function, Service, Thrift}
use thriftgo.Semantic.Checker.{
  is_empty, function_fault, check_function, check_function_list, check_service_list,
  check_functions,
}

stop_iff :
    {A : Type 0} (o : Option Fault) (opt : Bool) (undone : A) (go : Checked A)
    → ((stop_or o (λ e. (([], some e), opt, undone)) go).0.1 ≡ none)
      ↔ ((o ≡ none) × (go.0.1 ≡ none))
stop_iff none opt undone go = ((λ h. (refl, h)), (λ h. h.1))
stop_iff (some e) opt undone go = ((λ h. ground (arith, h)), (λ h. ground (arith, h.0)))

module _ {Expr : Type 0} where
  abbrev pub function_names : List (Function Expr) → List String
  function_names [] = []
  function_names (f ∷ fs) = f.name ∷ function_names fs

  -- A oneway function returns nothing and throws nothing.
  abbrev pub IsFunction : Function Expr → Type 0
  IsFunction f = f.oneway ≡ true → (f.void ≡ true) × (f.throws ≡ [])

  abbrev pub AreFunctions : List (Function Expr) → Type 0
  AreFunctions [] = Unit
  AreFunctions (f ∷ fs) = IsFunction f × AreFunctions fs

  abbrev pub AreServices : List (Service Expr) → Type 0
  AreServices [] = Unit
  AreServices (s ∷ ss) =
      (Distinct (function_names s.functions) × AreFunctions s.functions) × AreServices ss

  no_throws : (f : List (Field Expr)) → is_empty f ≡ true → f ≡ []
  no_throws [] h = refl
  no_throws (x ∷ xs) h = ground (arith, h)

  oneway_iff :
      (f : Function Expr)
      → (f.oneway && not f.void ≡ false) × (f.oneway && not (is_empty f.throws) ≡ false)
        ↔ IsFunction f
  oneway_iff f = (
    (λ (p, q) o. (ground (arith, rw o at p), no_throws f.throws (ground (arith, rw o at q)))),
    (λ i. elim (Bool-cases f.oneway) [
      | inl o ↦ let (p, q) = i o in (rw (o, p) refl, rw (o, q) refl)
      | inr o ↦ (rw o refl, rw o refl)
    ]),
  )

  function_fault_iff :
      (file svc : String) (defined : List String) (f : Function Expr)
      → (function_fault file svc defined f ≡ none) ↔ (Absent f.name defined × IsFunction f)
  function_fault_iff file svc defined f = (
    (λ h. elim (Bool-cases (contains f.name defined)) [
      | inl old ↦ ground (arith, rw old at h)
      | inr new ↦ (
        contains-Absent f.name defined new,
        (oneway_iff f).0 (ground (arith, rw new at h), ground (arith, rw new at h)),
      )
    ]),
    (λ (a, i). let (p, q) = (oneway_iff f).1 i in rw (Absent-contains f.name defined a, p, q) refl),
  )

  -- What is returned where there is no error at the first function.
  abbrev go :
      Bool
      → String
      → String
      → Function Expr
      → List (Function Expr)
      → List String
      → Checked (List (Function Expr))
  go fix file svc f fs defined =
      let rest = check_function_list fix file svc (f.name ∷ defined) fs in
      let here = check_function fix svc f in
      (after (here.0, none) rest.0, here.1 || rest.1, here.2 ∷ rest.2)

  function_list_iff :
      (fix : Bool) (file svc : String) (fs : List (Function Expr)) (defined : List String)
      → ((check_function_list fix file svc defined fs).0.1 ≡ none)
        ↔ (Fresh defined (function_names fs) × AreFunctions fs)
  unfolding check_function_list
  function_list_iff fix file svc [] defined = ((λ h. (tt, tt)), (λ h. refl))
  function_list_iff fix file svc (f ∷ fs) defined = (
    (λ h.
        let (p, q) =
          (stop_iff (function_fault file svc defined f) false (f ∷ fs)
              (go fix file svc f fs defined)).0
            h in
        let (a, i) = (function_fault_iff file svc defined f).0 p in
        let (b, j) = (function_list_iff fix file svc fs (f.name ∷ defined)).0 q in
        ((a, b), (i, j))),
    (λ (a, i).
        (stop_iff (function_fault file svc defined f) false (f ∷ fs)
            (go fix file svc f fs defined)).1
          (
            (function_fault_iff file svc defined f).1 (a.0, i.0),
            (function_list_iff fix file svc fs (f.name ∷ defined)).1 (a.1, i.1),
          )),
  )

  service_list_iff :
      (fix : Bool) (file : String) (ss : List (Service Expr))
      → ((check_service_list fix file ss).0.1 ≡ none) ↔ AreServices ss
  unfolding check_service_list
  service_list_iff fix file [] = ((λ h. tt), (λ h. refl))
  service_list_iff fix file (s ∷ ss) = (
    (λ h.
        let (p, q) = (after_iff _ _).0 h in
        let (a, b) = (function_list_iff fix file s.name s.functions []).0 p in
        (
          ((Fresh-Distinct (function_names s.functions)).0 a, b),
          (service_list_iff fix file ss).0 q,
        )),
    (λ (p, q). (after_iff _ _).1 (
      (function_list_iff fix file s.name s.functions []).1
          ((Fresh-Distinct (function_names s.functions)).1 p.0, p.1),
      (service_list_iff fix file ss).1 q,
    )),
  )

  -- CheckFunctions returns no error exactly if in each service the functions have distinct names,
  -- and each oneway function is void and declares no exception.
  pub check_functions-accepts :
      (fix : Bool) (t : Thrift Expr) → ((check_functions fix t).0.1 ≡ none) ↔ AreServices t.services
  unfolding check_functions
  check_functions-accepts fix t = (
    (λ h. (service_list_iff fix t.filename t.services).0 ((after_iff _ _).0 h).0),
    (λ h. (after_iff _ _).1 ((service_list_iff fix t.filename t.services).1 h, refl)),
  )
