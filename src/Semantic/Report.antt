-- ===== src/Semantic/Report.antt =====
-- The warnings and errors of semantic/checker.go, and what comes of several steps that report them.
use thriftgo.Prelude.{Bool, Option, none, some, List, ◌++◌, String, ◌≡◌, ◌↔◌, refl, arith}
use thriftgo.Prelude.Ints.{ℤ}

-- The error messages, with what they quote. The name of the file comes first.
pub data Fault : Type 0 where
  duplicated_global : String → String → Fault
  duplicated_enum_value : String → String → String → Fault
  duplicated_enum_number : String → String → ℤ → String → String → Fault
  enum_overflow : String → String → ℤ → Fault
  duplicated_field_id : String → String → String → ℤ → Fault
  duplicated_field_name : String → String → String → String → Fault
  another_default : String → String → String → Fault
  duplicated_function : String → String → String → Fault
  oneway_not_void : String → String → String → Fault
  oneway_throws : String → String → String → Fault

pub data Warning : Type 0 where
  non_positive_field : String → String → String → ℤ → Warning
  union_requiredness : String → String → Warning
  non_positive_argument : String → String → String → ℤ → Warning
  throw_requiredness : String → String → String → Warning
  optional_argument : String → Warning

-- `(warns []string, err error)`
abbrev pub Report : Type 0
Report = List Warning × Option Fault

-- An error of an earlier step is kept, and the later steps are not made.
abbrev pub or_else {ℓ} : {A : Type ℓ} → Option A → Option A → Option A
or_else none y = y
or_else (some a) y = some a

-- A report of earlier steps, and of later ones that are made if there was no error.
abbrev pub after : Report → Report → Report
after (ws, some e) r = (ws, some e)
after (ws, none) r = (ws ++ r.0, r.1)

-- What later steps leave behind, and what they find if they are not made.
abbrev pub later {ℓ} : {A : Type ℓ} → Report → A → A → A
later (ws, none) done undone = done
later (ws, some e) done undone = undone

-- A step that is made unless there is an error already.
abbrev pub stop_or {ℓ} : {A : Type ℓ} → Option Fault → (Fault → A) → A → A
stop_or none stop go = go
stop_or (some e) stop go = stop e

-- The report, whether `argOpt` is set, and what was checked as it is left.
abbrev pub Checked : Type 0 → Type 0
Checked A = Report × Bool × A

pub after_iff : (r q : Report) → ((after r q).1 ≡ none) ↔ ((r.1 ≡ none) × (q.1 ≡ none))
after_iff (ws, none) q = ((λ h. (refl, h)), (λ h. h.1))
after_iff (ws, some e) q = ((λ h. (h, ground (arith, h))), (λ h. h.0))

pub or_else_iff {ℓ} :
    {A : Type ℓ} (x y : Option A) → (or_else x y ≡ none) ↔ ((x ≡ none) × (y ≡ none))
or_else_iff none y = ((λ h. (refl, h)), (λ h. h.1))
or_else_iff (some a) y = ((λ h. (h, ground (arith, h))), (λ h. h.0))
