-- ===== src/Semantic/Checker.antt =====
-- semantic/checker.go: the five checks of a file, and CheckAll, which makes them on every file in
-- the order in which the search hands the files over. A check returns warnings and an error; two of
-- them also repair the fields that they look at.
pub mod Accepts
pub mod Repairs
use thriftgo.Prelude.{
  Bool, true, false, not, ◌&&◌, ◌||◌, Option, none, some, List, [], ◌∷◌, ◌++◌, map, String, leb,
  if◌then◌else◌,
}
use thriftgo.Prelude.Ints.{ℤ, pos, negsuc, eq_ℤ}
use thriftgo.Prelude.Names.{Equality, string_eq, int_eq, contains}
use thriftgo.Semantic.Report.{
  Fault, Warning, Report, Checked, after, or_else, later, stop_or, duplicated_global,
  duplicated_enum_value, duplicated_enum_number, enum_overflow, duplicated_field_id,
  duplicated_field_name, another_default, duplicated_function, oneway_not_void, oneway_throws,
  non_positive_field, union_requiredness, non_positive_argument, throw_requiredness,
  optional_argument,
}
use thriftgo.Semantic.Ast.{
  Requiredness, required, optional, by_default, Field, StructLike, EnumValue, Enum, Function,
  Service, Thrift, get_struct_likes,
}

-- `f.ID <= 0`
abbrev pub is_non_positive : ℤ → Bool
is_non_positive (pos n) = leb n 0
is_non_positive (negsuc n) = true

-- `!(v < math.MinInt32 || v > math.MaxInt32)`
abbrev pub is_int32 : ℤ → Bool
is_int32 (pos n) = leb n 2147483647
is_int32 (negsuc n) = leb n 2147483647

-- The map from a number to the name that had it last.
abbrev pub name_of : ℤ → List (ℤ × String) → Option String
name_of z [] = none
name_of z ((y, n) ∷ l) = let rest = name_of z l in if eq_ℤ z y then some n else rest

-- The argument of the `panic` in `check`, if one of the names is taken.
unfoldable pub check_names : List String → List String → Option String
check_names globals [] = none
check_names globals (s ∷ ss) =
    let rest = check_names (s ∷ globals) ss in if contains s globals then some s else rest

abbrev pub is_other_name : String → Option String → Option String
is_other_name name none = none
is_other_name name (some n) = if string_eq.same n name then none else some n

abbrev pub file_fault : String → Option String → Option Fault
file_fault file none = none
file_fault file (some s) = some (duplicated_global file s)

-- The second of two errors about a value replaces the first.
abbrev pub number_fault : String → String → EnumValue → Option String → Option Fault → Option Fault
number_fault file enum v none e = e
number_fault file enum v (some n) e = some (duplicated_enum_number file enum v.value n v.name)

abbrev pub enum_value_fault :
    String → String → List String → List (ℤ × String) → EnumValue → Option Fault
enum_value_fault file enum exist v2n v =
    or_else
      (number_fault file enum v (is_other_name v.name (name_of v.value v2n))
        (if contains v.name exist then some (duplicated_enum_value file enum v.name) else none))
      (if is_int32 v.value then none else some (enum_overflow file v.name v.value))

unfoldable pub check_enum_values :
    String → String → List String → List (ℤ × String) → List EnumValue → Option Fault
check_enum_values file enum exist v2n [] = none
check_enum_values file enum exist v2n (v ∷ vs) =
    or_else (enum_value_fault file enum exist v2n v)
      (check_enum_values file enum (v.name ∷ exist) ((v.value, v.name) ∷ v2n) vs)

unfoldable pub check_enum_list : String → List Enum → Option Fault
check_enum_list file [] = none
check_enum_list file (e ∷ es) =
    or_else (check_enum_values file e.name [] [] e.values) (check_enum_list file es)

abbrev pub is_empty : {A : Type 0} → List A → Bool
is_empty [] = true
is_empty (x ∷ xs) = false

-- The warning of `argOpt` comes last, and only where no error has ended the check.
abbrev pub last_warning : String → Bool → Report
last_warning file opt = ((if opt then optional_argument file ∷ [] else []), none)

module _ {Expr : Type 0} where
  abbrev pub global_names : Thrift Expr → List String
  global_names t =
      t.typedefs
      ++ (t.constants ++ (map (λ s. s.name) (get_struct_likes t) ++ map (λ s. s.name) t.services))

  unfoldable pub check_globals : Thrift Expr → Report
  check_globals t = ([], file_fault t.filename (check_names [] (global_names t)))

  unfoldable pub check_enums : Thrift Expr → Report
  check_enums t = ([], check_enum_list t.filename t.enums)

  abbrev pub field_warning : String → String → Field Expr → List Warning
  field_warning file s f =
      if is_non_positive f.id then non_positive_field file s f.name f.id ∷ [] else []

  unfoldable pub check_fields :
      String → StructLike Expr → List ℤ → List String → List (Field Expr) → Report
  check_fields file s ids names [] = ([], none)
  check_fields file s ids names (f ∷ fs) =
      let rest = check_fields file s (f.id ∷ ids) (f.name ∷ names) fs in
      if contains f.id ids
      then ([], some (duplicated_field_id file s.category s.name f.id))
      else if contains f.name names
      then ([], some (duplicated_field_name file s.category s.name f.name))
      else after (field_warning file s.name f, none) rest

  unfoldable pub check_struct_list : String → List (StructLike Expr) → Report
  check_struct_list file [] = ([], none)
  check_struct_list file (s ∷ ss) =
      after (check_fields file s [] [] s.fields) (check_struct_list file ss)

  unfoldable pub check_struct_likes : Thrift Expr → Report
  check_struct_likes t = check_struct_list t.filename (get_struct_likes t)

  abbrev pub has_default : Field Expr → Bool
  has_default f = elim f.default [ none ↦ false | some v ↦ true ]

  abbrev pub union_warning : String → Field Expr → List Warning
  union_warning u f = elim f.requiredness [ required ↦ union_requiredness u f.name ∷ [] | _ ↦ [] ]

  abbrev pub repair : Bool → Requiredness → Field Expr → Field Expr
  repair fix r f = if fix then record f { requiredness = r } else f

  -- The fields of a union: the report, and the fields as they are left. Nothing in the loop sets
  -- `hasDefault`.
  unfoldable pub check_members :
      Bool → String → String → Bool → List (Field Expr) → Report × List (Field Expr)
  check_members fix file u seen_default [] = (([], none), [])
  check_members fix file u seen_default (f ∷ fs) =
      let rest = check_members fix file u seen_default fs in
      if has_default f && seen_default
      then ((union_warning u f, some (another_default file u f.name)), f ∷ fs)
      else (after (union_warning u f, none) rest.0, repair fix optional f ∷ rest.1)

  unfoldable pub check_union_list :
      Bool → String → List (StructLike Expr) → Report × List (StructLike Expr)
  check_union_list fix file [] = (([], none), [])
  check_union_list fix file (u ∷ us) =
      let first = check_members fix file u.name false u.fields in
      let rest = check_union_list fix file us in
      (after first.0 rest.0, record u { fields = first.1 } ∷ later first.0 rest.1 us)

  unfoldable pub check_unions : Bool → Thrift Expr → Report × Thrift Expr
  check_unions fix t =
      let r = check_union_list fix t.filename t.unions in (r.0, record t { unions = r.1 })

  -- `argOpt` is a warning to come, which the last optional argument sets.
  abbrev pub argument_warning : String → String → Field Expr → List Warning
  argument_warning svc f a =
      if is_non_positive a.id then non_positive_argument svc f a.name a.id ∷ [] else []

  unfoldable pub check_arguments :
      Bool → String → String → List (Field Expr) → List Warning × Bool × List (Field Expr)
  check_arguments fix svc f [] = ([], false, [])
  check_arguments fix svc f (a ∷ more) =
      let (ws, opt, rest) = check_arguments fix svc f more in
      elim a.requiredness [
        | optional ↦ (argument_warning svc f a ++ ws, true, repair fix by_default a ∷ rest)
        | _ ↦ (argument_warning svc f a ++ ws, opt, a ∷ rest)
      ]

  unfoldable pub check_throws :
      Bool → String → String → List (Field Expr) → List Warning × List (Field Expr)
  check_throws fix svc f [] = ([], [])
  check_throws fix svc f (a ∷ more) =
      let (ws, rest) = check_throws fix svc f more in
      elim a.requiredness [
        | required ↦ (throw_requiredness svc f a.name ∷ ws, repair fix optional a ∷ rest)
        | by_default ↦ (ws, record a { requiredness = optional } ∷ rest)
        | optional ↦ (ws, a ∷ rest)
      ]

  -- The error that ends the check at a function, before its fields are looked at.
  abbrev pub function_fault : String → String → List String → Function Expr → Option Fault
  function_fault file svc defined f =
      if contains f.name defined
      then some (duplicated_function file svc f.name)
      else if f.oneway && not f.void
      then some (oneway_not_void file svc f.name)
      else if f.oneway && not (is_empty f.throws)
      then some (oneway_throws file svc f.name)
      else none

  unfoldable pub check_function :
      Bool → String → Function Expr → List Warning × Bool × Function Expr
  check_function fix svc f =
      let (ws, opt, args) = check_arguments fix svc f.name f.arguments in
      let (vs, throws) = check_throws fix svc f.name f.throws in
      (ws ++ vs, opt, record f { arguments = args; throws = throws })

  unfoldable pub check_function_list :
      Bool → String → String → List String → List (Function Expr) → Checked (List (Function Expr))
  check_function_list fix file svc defined [] = (([], none), false, [])
  check_function_list fix file svc defined (f ∷ fs) =
      let rest = check_function_list fix file svc (f.name ∷ defined) fs in
      let here = check_function fix svc f in
      stop_or (function_fault file svc defined f) (λ e. (([], some e), false, f ∷ fs))
        (after (here.0, none) rest.0, here.1 || rest.1, here.2 ∷ rest.2)

  unfoldable pub check_service_list :
      Bool → String → List (Service Expr) → Checked (List (Service Expr))
  check_service_list fix file [] = (([], none), false, [])
  check_service_list fix file (s ∷ ss) =
      let first = check_function_list fix file s.name [] s.functions in
      let rest = check_service_list fix file ss in
      (
        after first.0 rest.0,
        first.1 || rest.1,
        record s { functions = first.2 } ∷ later first.0 rest.2 ss,
      )

  unfoldable pub check_functions : Bool → Thrift Expr → Report × Thrift Expr
  check_functions fix t =
      let r = check_service_list fix t.filename t.services in
      (after r.0 (last_warning t.filename r.1), record t { services = r.2 })

  -- The body of CheckAll's outer loop: a check is made if no check before it returned an error.
  unfoldable pub check_file : Bool → Thrift Expr → Report × Thrift Expr
  check_file fix t =
      let before = after (check_globals t) (after (check_enums t) (check_struct_likes t)) in
      let (unions, t₁) = check_unions fix t in
      let (functions, t₂) = check_functions fix t₁ in
      (after before (after unions functions), later before (later unions t₂ t₁) t)

  pub check_all : Bool → List (Thrift Expr) → Report × List (Thrift Expr)
  check_all fix [] = (([], none), [])
  check_all fix (t ∷ ts) =
      let first = check_file fix t in
      let rest = check_all fix ts in (after first.0 rest.0, first.1 ∷ later first.0 rest.1 ts)
