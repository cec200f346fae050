-- ===== src/Reflection/Types.antt =====
-- thrift_reflection/descriptor-extend.go: what a type stands for.
pub mod Answers
use thriftgo.Prelude.{Option, none, some, Bool, true, false, ◌||◌, if◌then◌else◌, String}
use thriftgo.Prelude.Bytes.{Bytes, codes, bytes_eq}
use thriftgo.Go.Outcome.{ok, err, panic, stuck, ◌>>=◌}
use thriftgo.Reflection.Alias.{is_basic_name, is_container_name, parse_alias}
use thriftgo.Reflection.Descriptors.{
  TypeDescriptor, nil, type_descriptor, StructDescriptor, EnumDescriptor, TypedefDescriptor,
  FileDescriptor, World, get_global, get_name, Result,
}
use thriftgo.Reflection.Files.{
  lookup_fd, get_include_fd, get_struct_descriptor, get_exception_descriptor, get_union_descriptor,
  get_enum_descriptor, get_typedef_descriptor,
}

unfoldable pub is_basic : TypeDescriptor → Result Bool
is_basic td = get_name td >>= λ name. ok (is_basic_name name)

unfoldable pub is_container : TypeDescriptor → Result Bool
is_container td = get_name td >>= λ name. ok (is_container_name name)

unfoldable pub is_map : TypeDescriptor → Result Bool
is_map td = is_container td >>= λ c.
    if c then get_name td >>= (λ name. ok (bytes_eq.same name (codes "map"))) else ok false

unfoldable pub is_list : TypeDescriptor → Result Bool
is_list td = is_container td >>= λ c.
    if c
    then get_name td
      >>= (λ name. ok (bytes_eq.same name (codes "set") || bytes_eq.same name (codes "list")))
    else ok false

-- `td.IsContainer() || td.IsBasic()`
unfoldable pub is_builtin : TypeDescriptor → Result Bool
is_builtin td = is_container td >>= λ c. if c then ok true else is_basic td

-- `GetGlobalDescriptor(td).LookupFD(td.Filepath)`
unfoldable pub file_of : World → TypeDescriptor → Result (Option FileDescriptor)
file_of w nil = panic
file_of w (type_descriptor filepath name k v extra) = ok (lookup_fd (get_global w extra) filepath)

-- The common part of the lookups of a struct, a union and an exception, with the texts of their errors.
unfoldable pub struct_like :
    World
    → (Option FileDescriptor → Bytes → Result (Option StructDescriptor))
    → String
    → String
    → TypeDescriptor
    → Result StructDescriptor
struct_like w look builtin missing td = is_builtin td >>= λ b.
    if b
    then err builtin
    else file_of w td >>= λ fd. get_name td >>= λ name.
        look fd name >>= λ found. elim found [ some s ↦ ok s | none ↦ err missing ]

unfoldable pub type_exception : World → TypeDescriptor → Result StructDescriptor
type_exception w td =
    struct_like w (get_exception_descriptor w) "not exception" "exception not found" td

unfoldable pub type_union : World → TypeDescriptor → Result StructDescriptor
type_union w td = struct_like w (get_union_descriptor w) "not union" "union not found" td

unfoldable pub type_struct : World → TypeDescriptor → Result StructDescriptor
type_struct w td = struct_like w (get_struct_descriptor w) "not struct" "struct not found" td

-- The common part of the lookups of an enum and a typedef: the result may be a nil pointer.
unfoldable pub included :
    {A : Type 0}
    → World
    → (Option FileDescriptor → Bytes → Result (Option A))
    → String
    → String
    → TypeDescriptor
    → Result (Option A)
included w look builtin missing td = is_builtin td >>= λ b.
    if b
    then err builtin
    else get_name td >>= λ full. file_of w td >>= λ fd.
        let (alias, name) = parse_alias full in
        elim (get_include_fd w fd alias) [
          | none ↦ err missing
          | some target ↦ look (some target) name
        ]

unfoldable pub type_enum : World → TypeDescriptor → Result (Option EnumDescriptor)
type_enum w td = included w (get_enum_descriptor w) "not enum" "enum not found" td

unfoldable pub type_typedef : World → TypeDescriptor → Result (Option TypedefDescriptor)
type_typedef w td = included w (get_typedef_descriptor w) "not typedef" "typedef not found" td

-- `sd, err := ...; err == nil && sd != nil`
unfoldable pub found_struct : Result StructDescriptor → Result Bool
found_struct (ok s) = ok true
found_struct (err e) = ok false
found_struct panic = panic
found_struct stuck = stuck

unfoldable pub found : {A : Type 0} → Result (Option A) → Result Bool
found (ok (some a)) = ok true
found (ok none) = ok false
found (err e) = ok false
found panic = panic
found stuck = stuck

unfoldable pub is_exception : World → TypeDescriptor → Result Bool
is_exception w td = found_struct (type_exception w td)

unfoldable pub is_union : World → TypeDescriptor → Result Bool
is_union w td = found_struct (type_union w td)

unfoldable pub is_struct : World → TypeDescriptor → Result Bool
is_struct w td = found_struct (type_struct w td)

unfoldable pub is_enum : World → TypeDescriptor → Result Bool
is_enum w td = found (type_enum w td)

unfoldable pub is_typedef : World → TypeDescriptor → Result Bool
is_typedef w td = found (type_typedef w td)
