-- ===== src/Reflection/Types/Answers.antt =====
-- The questions about a type are answered: no lookup goes on without end.
use thriftgo.Prelude.{◌≡◌, Option, none, some, Bool-cases, inl, inr, String, refl}
use mathlib.Core.List.{Memᴰ}
use thriftgo.Prelude.Bytes.{Bytes}
use thriftgo.Go.Outcome.{
  ok, err, panic, stuck, ◌>>=◌, Good, Good-bind, Good-if, Good-Answers, Answers, Answers-bind,
}
use thriftgo.Reflection.Alias.{is_container_name, parse_alias}
use thriftgo.Reflection.Descriptors.{
  TypeDescriptor, nil, type_descriptor, StructDescriptor, FileDescriptor, World, Result, get_name,
}
use thriftgo.Reflection.Files.{get_struct_descriptor, get_enum_descriptor, get_include_fd}
use thriftgo.Reflection.Files.Locate.{get_descriptor-locate}
use thriftgo.Reflection.Files.Registry.{all_structs, get_struct_descriptor-mem}
use thriftgo.Reflection.Types.{
  is_struct, found_struct, type_struct, struct_like, is_builtin, is_basic, file_of, is_container,
  is_map, is_list, is_enum, type_enum, included, found,
}

pub is_builtin-Good : (td : TypeDescriptor) → Good (λ b. Unit) (is_builtin td)
unfolding is_builtin is_container is_basic get_name
is_builtin-Good nil = tt
is_builtin-Good (type_descriptor filepath name k v extra) =
    elim (Bool-cases (is_container_name name)) [ inl e ↦ rw e tt | inr e ↦ rw e tt ]

struct-found-Good :
    (w : World) (o : Option StructDescriptor) (missing : String)
    → ((s : StructDescriptor) → o ≡ some s → Memᴰ s (all_structs w))
    → Good {E = String}
        (λ s. Memᴰ s (all_structs w))
        (elim o [ some s ↦ ok s | none ↦ err missing ])
struct-found-Good w none missing h = tt
struct-found-Good w (some s) missing h = h s refl

named-Good :
    (w : World) (td : TypeDescriptor)
    → Good
        (λ s. Memᴰ s (all_structs w))
        (file_of w td >>= λ fd. get_name td >>= λ name. get_struct_descriptor w fd name >>= λ found.
          elim found [ some s ↦ ok s | none ↦ err "struct not found" ])
unfolding file_of get_name
named-Good w nil = tt
named-Good w (type_descriptor filepath name k v extra) =
    let (o, e, h) = get_struct_descriptor-mem w extra filepath name in
    rw e (struct-found-Good w o "struct not found" h)

-- GetStructDescriptor of a type ends, and what it returns is registered.
pub type_struct-Good :
    (w : World) (td : TypeDescriptor) → Good (λ s. Memᴰ s (all_structs w)) (type_struct w td)
unfolding type_struct struct_like
type_struct-Good w td =
    Good-bind (λ b. Unit) (λ s. Memᴰ s (all_structs w)) (is_builtin td) _ (is_builtin-Good td)
      (λ b _. Good-if _ _ _ b tt (named-Good w td))

pub is_container-Good : (td : TypeDescriptor) → Good (λ b. Unit) (is_container td)
unfolding is_container get_name
is_container-Good nil = tt
is_container-Good (type_descriptor filepath name k v extra) = tt

pub is_map-Good : (td : TypeDescriptor) → Good (λ b. Unit) (is_map td)
unfolding is_map is_container get_name
is_map-Good nil = tt
is_map-Good (type_descriptor filepath name k v extra) = Good-if _ _ _ (is_container_name name) tt tt

pub is_basic-Answers : (td : TypeDescriptor) → Answers (is_basic td)
unfolding is_basic get_name
is_basic-Answers nil = tt
is_basic-Answers (type_descriptor filepath name k v extra) = tt

pub is_list-Answers : (td : TypeDescriptor) → Answers (is_list td)
unfolding is_list is_container get_name
is_list-Answers nil = tt
is_list-Answers (type_descriptor filepath name k v extra) =
    Good-if _ _ _ (is_container_name name) tt tt

file_of-Answers : (w : World) (td : TypeDescriptor) → Answers (file_of w td)
unfolding file_of
file_of-Answers w nil = tt
file_of-Answers w (type_descriptor filepath name k v extra) = tt

get_name-Answers : (td : TypeDescriptor) → Answers (get_name td)
unfolding get_name
get_name-Answers nil = tt
get_name-Answers (type_descriptor filepath name k v extra) = tt

included-target :
    {A : Type 0} (look : Option FileDescriptor → Bytes → Result (Option A)) (missing : String)
    (name : Bytes) (target : Option FileDescriptor)
    → ((f : Option FileDescriptor) (n : Bytes) → Answers (look f n))
    → Answers {E = String} (elim target [ none ↦ err missing | some g ↦ look (some g) name ])
included-target look missing name none h = tt
included-target look missing name (some g) h = h (some g) name

included-Answers :
    {A : Type 0} (w : World) (look : Option FileDescriptor → Bytes → Result (Option A))
    (builtin missing : String) (td : TypeDescriptor)
    → ((f : Option FileDescriptor) (n : Bytes) → Answers (look f n))
    → Answers (included w look builtin missing td)
unfolding included
included-Answers w look builtin missing td h =
    Answers-bind (is_builtin td) _ (is_builtin-Good td) (λ b. Good-if _ _ _ b tt (
      Answers-bind (get_name td) _ (get_name-Answers td) (λ full.
        Answers-bind (file_of w td) _ (file_of-Answers w td) (λ fd.
          included-target look missing (parse_alias full).1
            (get_include_fd w fd (parse_alias full).0) h))))

found-Answers : {A : Type 0} (r : Result (Option A)) → Answers r → Answers (found r)
unfolding found
found-Answers (ok none) h = tt
found-Answers (ok (some a)) h = tt
found-Answers (err e) h = tt
found-Answers panic h = tt
found-Answers stuck h = h

get_enum_descriptor-Answers :
    (w : World) (f : Option FileDescriptor) (n : Bytes) → Answers (get_enum_descriptor w f n)
unfolding get_enum_descriptor
get_enum_descriptor-Answers w f n = rw (get_descriptor-locate w _ f n) tt

pub is_enum-Answers : (w : World) (td : TypeDescriptor) → Answers (is_enum w td)
unfolding is_enum type_enum
is_enum-Answers w td =
    found-Answers (included w (get_enum_descriptor w) "not enum" "enum not found" td) (
      included-Answers w (get_enum_descriptor w) "not enum" "enum not found" td
        (get_enum_descriptor-Answers w))

found_struct-Answers : (r : Result StructDescriptor) → Answers r → Answers (found_struct r)
unfolding found_struct
found_struct-Answers (ok s) h = tt
found_struct-Answers (err e) h = tt
found_struct-Answers panic h = tt
found_struct-Answers stuck h = h

pub is_struct-Answers : (w : World) (td : TypeDescriptor) → Answers (is_struct w td)
unfolding is_struct
is_struct-Answers w td =
    found_struct-Answers (type_struct w td)
      (Good-Answers (λ s. Memᴰ s (all_structs w)) (type_struct w td) (type_struct-Good w td))
