-- ===== src/Reflection/Global.antt =====
-- thrift_reflection/descriptor_lookup.go: the lookups of a definition over all files.
pub mod Unique
use thriftgo.Prelude.{◌≡◌, List, Option, none, some, [], ◌∷◌}
use thriftgo.Prelude.Bytes.{Bytes}
use thriftgo.Go.Outcome.{Outcome, ok, err, panic, stuck, ◌>>=◌}
use thriftgo.Reflection.Descriptors.{
  Dict, StructDescriptor, EnumDescriptor, TypedefDescriptor, ConstDescriptor, MethodDescriptor,
  ServiceDescriptor, FileDescriptor, GlobalDescriptor, World, Result,
}
use thriftgo.Reflection.Files.{
  lookup_fd, get_struct_descriptor, get_exception_descriptor, get_union_descriptor,
  get_enum_descriptor, get_typedef_descriptor, get_const_descriptor, get_service_descriptor,
  get_method_descriptor,
}

module _ {A : Type 0} (look : Option FileDescriptor → Result (Option A)) where
  -- `for _, fd := range gd.globalFD`, in the order of the entries; Go leaves the order open.
  unfoldable pub over_files : Dict FileDescriptor → Result (Option A)
  over_files [] = ok none
  over_files ((path, fd) ∷ files) =
      let rest = over_files files in
      look (some fd) >>= λ val. elim val [ some a ↦ ok (some a) | none ↦ rest ]

  -- The common part of the lookups: in one file, or in all of them if the path is empty.
  unfoldable pub lookup_in : Option GlobalDescriptor → Bytes → Result (Option A)
  lookup_in none filepath = ok none
  lookup_in (some gd) [] = over_files gd.global_fd
  lookup_in (some gd) (c ∷ filepath) = look (lookup_fd (some gd) (c ∷ filepath))

module _ (w : World) (gd : Option GlobalDescriptor) where
  unfoldable pub lookup_enum : Bytes → Bytes → Result (Option EnumDescriptor)
  lookup_enum name filepath = lookup_in (λ fd. get_enum_descriptor w fd name) gd filepath

  unfoldable pub lookup_const : Bytes → Bytes → Result (Option ConstDescriptor)
  lookup_const name filepath = lookup_in (λ fd. get_const_descriptor w fd name) gd filepath

  unfoldable pub lookup_typedef : Bytes → Bytes → Result (Option TypedefDescriptor)
  lookup_typedef alias filepath = lookup_in (λ fd. get_typedef_descriptor w fd alias) gd filepath

  unfoldable pub lookup_struct : Bytes → Bytes → Result (Option StructDescriptor)
  lookup_struct name filepath = lookup_in (λ fd. get_struct_descriptor w fd name) gd filepath

  unfoldable pub lookup_union : Bytes → Bytes → Result (Option StructDescriptor)
  lookup_union name filepath = lookup_in (λ fd. get_union_descriptor w fd name) gd filepath

  unfoldable pub lookup_exception : Bytes → Bytes → Result (Option StructDescriptor)
  lookup_exception name filepath = lookup_in (λ fd. get_exception_descriptor w fd name) gd filepath

  unfoldable pub lookup_service : Bytes → Bytes → Result (Option ServiceDescriptor)
  lookup_service name filepath = lookup_in (λ fd. get_service_descriptor w fd name) gd filepath

  unfoldable pub lookup_method : Bytes → Bytes → Bytes → Result (Option MethodDescriptor)
  lookup_method method service filepath =
      lookup_in (λ fd. get_method_descriptor w fd service method) gd filepath
