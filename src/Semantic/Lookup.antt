-- ===== src/Semantic/Lookup.antt =====
-- The searches of parser/AST-extend.go for what a file declares under a name.
pub mod Finds
pub mod Preference
use thriftgo.Prelude.{Bool, true, false, Option, none, some, List, [], ◌∷◌, String}
use thriftgo.Prelude.Names.{string_eq}
use thriftgo.Semantic.Ast.{Field, StructLike, Enum, Service, Thrift}

-- The first element of the name; `none` stands for `nil, false`.
unfoldable pub first_named {ℓ} : {A : Type ℓ} → (A → String) → String → List A → Option A
first_named name_of name [] = none
first_named name_of name (x ∷ xs) =
    let rest = first_named name_of name xs in
    elim (string_eq.same (name_of x) name) [ true ↦ some x | false ↦ rest ]

pub record NamespaceDecl : Type 0 where
  pub language : String
  pub name : String

-- The loop of GetNamespace, with what was found for "*" so far.
pub namespace_from : String → Option String → List NamespaceDecl → Option String
namespace_from lang found [] = found
namespace_from lang found (n ∷ ns) =
    let general = namespace_from lang (some n.name) ns in
    let rest = namespace_from lang found ns in
    elim (string_eq.same n.language lang) [
      | true ↦ some n.name
      | false ↦ elim (string_eq.same n.language "*") [ true ↦ general | false ↦ rest ]
    ]

pub get_namespace : String → List NamespaceDecl → Option String
get_namespace lang ns = namespace_from lang none ns

module _ {Expr : Type 0} where
  unfoldable pub get_field : String → StructLike Expr → Option (Field Expr)
  get_field name s = first_named (λ f. f.name) name s.fields

  unfoldable pub get_service : String → Thrift Expr → Option (Service Expr)
  get_service name t = first_named (λ s. s.name) name t.services

  unfoldable pub get_struct : String → Thrift Expr → Option (StructLike Expr)
  get_struct name t = first_named (λ s. s.name) name t.structs

  unfoldable pub get_union : String → Thrift Expr → Option (StructLike Expr)
  get_union name t = first_named (λ s. s.name) name t.unions

  unfoldable pub get_exception : String → Thrift Expr → Option (StructLike Expr)
  get_exception name t = first_named (λ s. s.name) name t.exceptions

  unfoldable pub get_enum : String → Thrift Expr → Option Enum
  get_enum name t = first_named (λ e. e.name) name t.enums
