-- ===== src/Reflection/Files.antt =====
-- thrift_reflection/descriptor-extend.go: the descriptors of a file by name.
pub mod Locate
pub mod Meaning
pub mod Registry
use thriftgo.Prelude.{
  ℕ, zero, suc, ◌≡◌, List, Option, none, some, Bool, true, false, [], ◌∷◌, if◌then◌else◌, length,
}
use thriftgo.Prelude.Names.{Equality, int_eq}
use thriftgo.Prelude.Ints.{ℤ}
use thriftgo.Prelude.Bytes.{Bytes, bytes_eq}
use thriftgo.Go.Outcome.{Outcome, ok, err, panic, stuck, ◌>>=◌}
use thriftgo.Reflection.Alias.{parse_alias}
use thriftgo.Reflection.Descriptors.{
  Dict, dict_get, or_empty, FieldDescriptor, StructDescriptor, EnumDescriptor, TypedefDescriptor,
  ConstDescriptor, MethodDescriptor, ServiceDescriptor, FileDescriptor, GlobalDescriptor, World,
  get_global, Result,
}

-- The loops of the lookups: the first element whose name it is.
unfoldable pub first_with {ℓ} : {A : Type ℓ} → (A → Bool) → List A → Option A
first_with test [] = none
first_with test (a ∷ l) = let rest = first_with test l in if test a then some a else rest

unfoldable pub named {ℓ} : {A : Type ℓ} → (A → Bytes) → Bytes → List A → Option A
named name_of name l = first_with (λ a. bytes_eq.same (name_of a) name) l

unfoldable pub lookup_fd : Option GlobalDescriptor → Bytes → Option FileDescriptor
lookup_fd none filepath = none
lookup_fd (some gd) filepath = dict_get filepath gd.global_fd

module _ (w : World) where
  unfoldable pub get_include_fd : Option FileDescriptor → Bytes → Option FileDescriptor
  get_include_fd none alias = none
  get_include_fd (some f) [] = some f
  get_include_fd (some f) (c ∷ alias) = elim (or_empty (dict_get (c ∷ alias) f.includes)) [
    | [] ↦ none
    | b ∷ path ↦ lookup_fd (get_global w f.extra) (b ∷ path)
  ]

  -- A round of the recursion of getDescriptor, which goes on in an included file.
  unfoldable pub descend :
      {A : Type 0}
      → (FileDescriptor → Bytes → Option A)
      → ℕ
      → Option FileDescriptor
      → Bytes
      → Result (Option A)
  descend look zero f name = stuck
  descend look (suc fuel) none name = ok none
  descend look (suc fuel) (some f) [] = ok none
  descend look (suc fuel) (some f) (c ∷ name) =
      let (prefix, real) = parse_alias (c ∷ name) in
      elim prefix [
        | [] ↦ ok (look f real)
        | b ∷ alias ↦ elim (get_include_fd (some f) (b ∷ alias)) [
          | none ↦ ok none
          | some g ↦ descend look fuel (some g) real
        ]
      ]

  unfoldable pub get_descriptor :
      {A : Type 0}
      → (FileDescriptor → Bytes → Option A)
      → Option FileDescriptor
      → Bytes
      → Result (Option A)
  get_descriptor look f name = descend look (suc (length name)) f name

  unfoldable pub get_struct_descriptor :
      Option FileDescriptor → Bytes → Result (Option StructDescriptor)
  get_struct_descriptor f name =
      get_descriptor (λ fd n. named (λ (s : StructDescriptor). s.name) n fd.structs) f name

  unfoldable pub get_typedef_descriptor :
      Option FileDescriptor → Bytes → Result (Option TypedefDescriptor)
  get_typedef_descriptor f name =
      get_descriptor (λ fd n. named (λ (t : TypedefDescriptor). t.alias) n fd.typedefs) f name

  unfoldable pub get_const_descriptor :
      Option FileDescriptor → Bytes → Result (Option ConstDescriptor)
  get_const_descriptor f name =
      get_descriptor (λ fd n. named (λ (c : ConstDescriptor). c.name) n fd.consts) f name

  unfoldable pub get_enum_descriptor :
      Option FileDescriptor → Bytes → Result (Option EnumDescriptor)
  get_enum_descriptor f name =
      get_descriptor (λ fd n. named (λ (e : EnumDescriptor). e.name) n fd.enums) f name

  unfoldable pub get_exception_descriptor :
      Option FileDescriptor → Bytes → Result (Option StructDescriptor)
  get_exception_descriptor f name =
      get_descriptor (λ fd n. named (λ (s : StructDescriptor). s.name) n fd.exceptions) f name

  unfoldable pub get_union_descriptor :
      Option FileDescriptor → Bytes → Result (Option StructDescriptor)
  get_union_descriptor f name =
      get_descriptor (λ fd n. named (λ (s : StructDescriptor). s.name) n fd.unions) f name

  unfoldable pub get_service_descriptor :
      Option FileDescriptor → Bytes → Result (Option ServiceDescriptor)
  get_service_descriptor f name =
      get_descriptor (λ fd n. named (λ (s : ServiceDescriptor). s.name) n fd.services) f name

-- The first method of that name, over the services in their order.
unfoldable pub method_among : Bytes → List ServiceDescriptor → Option MethodDescriptor
method_among method [] = none
method_among method (svc ∷ l) =
    let rest = method_among method l in
    elim (named (λ (m : MethodDescriptor). m.name) method svc.methods) [
      | some m ↦ some m
      | none ↦ rest
    ]

unfoldable pub get_method_descriptor :
    World → Option FileDescriptor → Bytes → Bytes → Result (Option MethodDescriptor)
get_method_descriptor w none service method = ok none
get_method_descriptor w (some f) [] method = ok (method_among method f.services)
get_method_descriptor w (some f) (c ∷ service) method =
    get_service_descriptor w (some f) (c ∷ service) >>= λ found. elim found [
      | none ↦ ok none
      | some svc ↦ ok (named (λ (m : MethodDescriptor). m.name) method svc.methods)
    ]

unfoldable pub get_field_by_name : Option StructDescriptor → Bytes → Option FieldDescriptor
get_field_by_name none name = none
get_field_by_name (some s) name = named (λ (f : FieldDescriptor). f.name) name s.fields

unfoldable pub get_field_by_id : Option StructDescriptor → ℤ → Option FieldDescriptor
get_field_by_id none id = none
get_field_by_id (some s) id = first_with (λ (f : FieldDescriptor). int_eq.same f.id id) s.fields
