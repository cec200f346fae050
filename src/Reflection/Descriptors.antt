-- ===== src/Reflection/Descriptors.antt =====
-- thrift_reflection/descriptor.go: the descriptors, as far as the lookups read them.
use thriftgo.Prelude.{ℕ, List, Option, none, some, [], ◌∷◌, if◌then◌else◌, String}
use thriftgo.Prelude.Ints.{ℤ}
use thriftgo.Prelude.Bytes.{Bytes, codes, bytes_eq}
use thriftgo.Go.Outcome.{Outcome, ok, panic}

-- A Go map with strings as keys: its entries, of which the first with a key counts.
abbrev pub Dict {ℓ} : Type ℓ → Type ℓ
Dict A = List (Bytes × A)

abbrev pub dict_get {ℓ} : {A : Type ℓ} → Bytes → Dict A → Option A
dict_get k [] = none
dict_get k ((j, a) ∷ m) = let rest = dict_get k m in if bytes_eq.same k j then some a else rest

-- The value of `m[k]`, which is empty on a missing key.
abbrev pub or_empty : Option Bytes → Bytes
or_empty none = []
or_empty (some s) = s

-- `*TypeDescriptor`: a pointer that is nil or points to a type.
pub data TypeDescriptor : Type 0 where
  nil : TypeDescriptor
  type_descriptor :
      (filepath : Bytes)
      → (name : Bytes) → (key_type : TypeDescriptor) → (value_type : TypeDescriptor)
      → (extra : Dict Bytes) → TypeDescriptor

pub record FieldDescriptor : Type 0 where
  pub name : Bytes
  pub type : TypeDescriptor
  pub requiredness : Bytes
  pub id : ℤ

-- `address` stands for the pointer, by which maps of Go tell structs apart.
pub record StructDescriptor : Type 0 where
  pub address : ℕ
  pub filepath : Bytes
  pub name : Bytes
  pub fields : List FieldDescriptor

pub record EnumDescriptor : Type 0 where
  pub name : Bytes

pub record TypedefDescriptor : Type 0 where
  pub alias : Bytes
  pub type : TypeDescriptor

pub record ConstDescriptor : Type 0 where
  pub name : Bytes
  pub type : TypeDescriptor

pub record MethodDescriptor : Type 0 where
  pub name : Bytes
  pub response : TypeDescriptor
  pub args : List FieldDescriptor

pub record ServiceDescriptor : Type 0 where
  pub filepath : Bytes
  pub name : Bytes
  pub methods : List MethodDescriptor
  pub extra : Dict Bytes
  pub base : Bytes

pub record FileDescriptor : Type 0 where
  pub filepath : Bytes
  pub includes : Dict Bytes
  pub services : List ServiceDescriptor
  pub structs : List StructDescriptor
  pub exceptions : List StructDescriptor
  pub enums : List EnumDescriptor
  pub typedefs : List TypedefDescriptor
  pub unions : List StructDescriptor
  pub consts : List ConstDescriptor
  pub extra : Dict Bytes

pub record GlobalDescriptor : Type 0 where
  pub global_fd : Dict FileDescriptor

-- The variables of the package: the default global descriptor, and the others by their id.
pub record World : Type 0 where
  pub default_global : GlobalDescriptor
  pub global_map : Dict GlobalDescriptor

abbrev pub uuid_key : Bytes
uuid_key = codes "global_descriptor_uuid"

unfoldable pub get_global : World → Dict Bytes → Option GlobalDescriptor
get_global w extra = elim (or_empty (dict_get uuid_key extra)) [
  | [] ↦ some w.default_global
  | b ∷ uuid ↦ dict_get (b ∷ uuid) w.global_map
]

-- The results of the lookups: an error is its text.
abbrev pub Result : Type 0 → Type 0
Result A = Outcome String A

-- A method called on a nil pointer whose fields it reads panics.
unfoldable pub get_name : TypeDescriptor → Result Bytes
get_name nil = panic
get_name (type_descriptor filepath name k v extra) = ok name

unfoldable pub get_key_type : TypeDescriptor → Result TypeDescriptor
get_key_type nil = panic
get_key_type (type_descriptor filepath name k v extra) = ok k

unfoldable pub get_value_type : TypeDescriptor → Result TypeDescriptor
get_value_type nil = panic
get_value_type (type_descriptor filepath name k v extra) = ok v
