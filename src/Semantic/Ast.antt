-- ===== src/Semantic/Ast.antt =====
-- The parts of parser/AST.go that the checks of semantic/checker.go look at, and GetStructLikes of
-- parser/AST-extend.go. `Expr` stands for the constant values that fields have by default.
use thriftgo.Prelude.{Bool, Option, List, ◌++◌, String}
use thriftgo.Prelude.Ints.{ℤ}

pub data Requiredness : Type 0 where
  by_default required optional : Requiredness

pub record Field (Expr : Type 0) : Type 0 where
  pub id : ℤ
  pub name : String
  pub requiredness : Requiredness
  pub default : Option Expr

pub record StructLike (Expr : Type 0) : Type 0 where
  pub category : String
  pub name : String
  pub fields : List (Field Expr)

pub record EnumValue : Type 0 where
  pub name : String
  pub value : ℤ

pub record Enum : Type 0 where
  pub name : String
  pub values : List EnumValue

pub record Function (Expr : Type 0) : Type 0 where
  pub name : String
  pub oneway : Bool
  pub void : Bool
  pub arguments : List (Field Expr)
  pub throws : List (Field Expr)

pub record Service (Expr : Type 0) : Type 0 where
  pub name : String
  pub functions : List (Function Expr)

-- The typedefs and constants by the names that they declare.
pub record Thrift (Expr : Type 0) : Type 0 where
  pub filename : String
  pub typedefs : List String
  pub constants : List String
  pub enums : List Enum
  pub structs : List (StructLike Expr)
  pub unions : List (StructLike Expr)
  pub exceptions : List (StructLike Expr)
  pub services : List (Service Expr)

abbrev pub get_struct_likes : {Expr : Type 0} → Thrift Expr → List (StructLike Expr)
get_struct_likes t = t.structs ++ (t.unions ++ t.exceptions)
