-- ===== src/Semantic/Checker/Accepts/Enums.antt =====
-- CheckEnums returns no error on enums whose values have distinct names and distinct numbers within
-- an int32, and on no other.
use thriftgo.Prelude.{
  ◌≡◌, ◌≢◌, ◌↔◌, refl, sym, ◌∙◌, true, false, Option, none, some, List, [], ◌∷◌, String, arith,
  Bool-cases, Option-cases, inl, inr, if◌then◌else◌,
}
use thriftgo.Prelude.Ints.{ℤ, pos, negsuc, eq_ℤ, Fits}
use thriftgo.Prelude.Names.{
  string_eq, eq_ℤ_iff, contains, Absent, Distinct, Fresh, Fresh-Distinct, contains-Absent,
  Absent-contains,
}
use thriftgo.Semantic.Report.{Fault, or_else_iff, duplicated_enum_value, enum_overflow}
use thriftgo.Semantic.Ast.{EnumValue, Enum, Thrift}
use thriftgo.Semantic.Checker.{
  is_int32, name_of, is_other_name, number_fault, enum_value_fault, check_enum_values,
  check_enum_list, check_enums,
}

abbrev pub names : List EnumValue → List String
names [] = []
names (v ∷ vs) = v.name ∷ names vs

abbrev pub numbers : List EnumValue → List ℤ
numbers [] = []
numbers (v ∷ vs) = v.value ∷ numbers vs

abbrev pub AreInt32 : List EnumValue → Type 0
AreInt32 [] = Unit
AreInt32 (v ∷ vs) = Fits 4294967296 v.value × AreInt32 vs

-- What the map `v2n` holds once these values were seen, the last first.
abbrev pairs : List EnumValue → List (ℤ × String)
pairs [] = []
pairs (v ∷ vs) = (v.value, v.name) ∷ pairs vs

abbrev pub IsEnum : Enum → Type 0
IsEnum e = Distinct (names e.values) × Distinct (numbers e.values) × AreInt32 e.values

abbrev pub AreEnums : List Enum → Type 0
AreEnums [] = Unit
AreEnums (e ∷ es) = IsEnum e × AreEnums es

is_int32_iff : (z : ℤ) → (is_int32 z ≡ true) ↔ Fits 4294967296 z
is_int32_iff (pos n) = ground arith
is_int32_iff (negsuc n) = ground arith

name_of-none :
    (z : ℤ) (seen : List EnumValue) → name_of z (pairs seen) ≡ none → Absent z (numbers seen)
name_of-none z [] h = tt
name_of-none z (v ∷ seen) h = elim (Bool-cases (eq_ℤ z v.value)) [
  | inl same ↦ ground (arith, same, h)
  | inr other ↦ (
    (λ e. ground (arith, other, (eq_ℤ_iff z v.value).1 e)),
    name_of-none z seen (ground (arith, other, h)),
  )
]

Absent-name_of :
    (z : ℤ) (seen : List EnumValue) → Absent z (numbers seen) → name_of z (pairs seen) ≡ none
Absent-name_of z [] h = refl
Absent-name_of z (v ∷ seen) h = elim (Bool-cases (eq_ℤ z v.value)) [
  | inl same ↦ elim (h.0 ((eq_ℤ_iff z v.value).0 same)) [ ]
  | inr other ↦ rw other (Absent-name_of z seen h.1)
]

-- A name that was not seen is not the one that a number stands for.
name_of-other :
    (z : ℤ) (name n : String) (seen : List EnumValue)
    → Absent name (names seen)
    → name_of z (pairs seen) ≡ some n
    → string_eq.same n name ≡ false
name_of-other z name n [] a h = ground (arith, h)
name_of-other z name n (v ∷ seen) a h = elim (Bool-cases (eq_ℤ z v.value)) [
  | inl same ↦ elim (Bool-cases (string_eq.same n name)) [
    | inl e ↦
        let k : v.name ≡ n = ground (arith, same, h) in
        elim (a.0 (sym (k ∙ (string_eq.same_iff n name).0 e))) [ ]
    | inr e ↦ e
  ]
  | inr other ↦ name_of-other z name n seen a.1 (ground (arith, other, h))
]

module _ (file enum : String) where
  number_fault-some :
      (v : EnumValue) (o : Option String) (e : Fault) → number_fault file enum v o (some e) ≢ none
  number_fault-some v none e h = ground (arith, h)
  number_fault-some v (some n) e h = ground (arith, h)

  -- The first error of a value, once its name is new.
  new_name :
      (v : EnumValue) (seen : List EnumValue)
      → Absent v.name (names seen)
      → (number_fault file enum v (is_other_name v.name (name_of v.value (pairs seen))) none ≡ none)
        ↔ Absent v.value (numbers seen)
  new_name v seen a = (
    (λ h. elim (Option-cases (name_of v.value (pairs seen))) [
      | inl e ↦ name_of-none v.value seen e
      | inr (n, e) ↦ ground (arith, e, name_of-other v.value v.name n seen a e, h)
    ]),
    (λ h. rw (Absent-name_of v.value seen h) refl),
  )

  int32_fault_iff :
      (v : EnumValue)
      → ((if is_int32 v.value then none else some (enum_overflow file v.name v.value)) ≡ none)
        ↔ Fits 4294967296 v.value
  int32_fault_iff v = (
    (λ h. (is_int32_iff v.value).0 (ground (arith, h))),
    (λ h. rw ((is_int32_iff v.value).1 h) refl),
  )

  value_iff :
      (v : EnumValue) (seen : List EnumValue)
      → (enum_value_fault file enum (names seen) (pairs seen) v ≡ none)
        ↔ (Absent v.name (names seen) × Absent v.value (numbers seen) × Fits 4294967296 v.value)
  value_iff v seen = (
    (λ h. elim (Bool-cases (contains v.name (names seen))) [
      | inl old ↦
          elim (number_fault-some v _ (duplicated_enum_value file enum v.name)
            ((or_else_iff _ _).0 (rw old at h)).0) [ ]
      | inr new ↦
          let a = contains-Absent v.name (names seen) new in
          let (p, q) = (or_else_iff _ _).0 (rw new at h) in
          (a, (new_name v seen a).0 p, (int32_fault_iff v).0 q)
    ]),
    (λ (a, b, c).
        rw (Absent-contains v.name (names seen) a)
          ((or_else_iff _ _).1 ((new_name v seen a).1 b, (int32_fault_iff v).1 c))),
  )

  values_iff :
      (vs seen : List EnumValue)
      → (check_enum_values file enum (names seen) (pairs seen) vs ≡ none)
        ↔ (Fresh (names seen) (names vs) × Fresh (numbers seen) (numbers vs) × AreInt32 vs)
  unfolding check_enum_values
  values_iff [] seen = ((λ h. (tt, tt, tt)), (λ h. refl))
  values_iff (v ∷ vs) seen = (
    (λ h.
        let (p, q) = (or_else_iff _ _).0 h in
        let (a, b, c) = (value_iff v seen).0 p in
        let (a', b', c') = (values_iff vs (v ∷ seen)).0 q in ((a, a'), (b, b'), (c, c'))),
    (λ (a, b, c).
        (or_else_iff _ _).1
          ((value_iff v seen).1 (a.0, b.0, c.0), (values_iff vs (v ∷ seen)).1 (a.1, b.1, c.1))),
  )

  enum_iff :
      (vs : List EnumValue)
      → (check_enum_values file enum [] [] vs ≡ none)
        ↔ (Distinct (names vs) × Distinct (numbers vs) × AreInt32 vs)
  enum_iff vs = (
    (λ h.
        let (a, b, c) = (values_iff vs []).0 h in
        ((Fresh-Distinct (names vs)).0 a, (Fresh-Distinct (numbers vs)).0 b, c)),
    (λ (a, b, c).
        (values_iff vs []).1
          ((Fresh-Distinct (names vs)).1 a, (Fresh-Distinct (numbers vs)).1 b, c)),
  )

enum_list_iff : (file : String) (es : List Enum) → (check_enum_list file es ≡ none) ↔ AreEnums es
unfolding check_enum_list
enum_list_iff file [] = ((λ h. tt), (λ h. refl))
enum_list_iff file (e ∷ es) = (
  (λ h.
      let (p, q) = (or_else_iff _ _).0 h in
      ((enum_iff file e.name e.values).0 p, (enum_list_iff file es).0 q)),
  (λ (p, q).
      (or_else_iff _ _).1 ((enum_iff file e.name e.values).1 p, (enum_list_iff file es).1 q)),
)

-- CheckEnums returns no error exactly if in each enum the names differ from one another, the
-- numbers differ from one another, and each number is in the range of an int32.
pub check_enums-accepts :
    {Expr : Type 0} (t : Thrift Expr) → ((check_enums t).1 ≡ none) ↔ AreEnums t.enums
unfolding check_enums
check_enums-accepts t = enum_list_iff t.filename t.enums
