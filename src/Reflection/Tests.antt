-- ===== src/Reflection/Tests.antt =====
-- Two files, the first of which includes the second, and runs of the lookups on them.
use thriftgo.Prelude.{
  ◌≡◌, ◌≢◌, ◌<◌, length, refl, sym, subst, Option, none, some, List, [], ◌∷◌, true, String, inl,
  inr, arith,
}
use mathlib.Core.List.{Memᴰ}
use mathlib.Core.List.Memᴰ.{head, tail}
use thriftgo.Prelude.Ints.{pos}
use thriftgo.Prelude.Bytes.{Bytes, codes, split, last_piece, trim_suffix}
use thriftgo.Go.Outcome.{ok, stuck}
use thriftgo.Reflection.Alias.{
  parse_alias, is_basic_name, is_container_name, basic_map, container_map,
}
use thriftgo.Reflection.Descriptors.{
  TypeDescriptor, nil, type_descriptor, FieldDescriptor, StructDescriptor, MethodDescriptor,
  ServiceDescriptor, FileDescriptor, GlobalDescriptor, World, get_global, get_name, uuid_key,
}
use thriftgo.Reflection.Files.{
  named, first_with, lookup_fd, get_include_fd, get_descriptor, descend, get_struct_descriptor,
  get_service_descriptor, method_among,
}
use thriftgo.Reflection.Files.Meaning.{Means, get_descriptor-Means}
use thriftgo.Reflection.Services.{
  get_parent, get_all_methods, methods_from, get_method_by_name_from_all,
}
use thriftgo.Reflection.Services.Parents.{
  Ancestor, direct, beyond, get_all_methods-Ancestor, Parents, top, over, methods_of,
  get_all_methods-Parents, get_method_by_name_from_all-Parents, get_all_methods-returns,
}
use thriftgo.Reflection.Global.{lookup_in}
use thriftgo.Reflection.Global.Unique.{lookup_in_unique}
use thriftgo.Reflection.Types.{
  is_struct, found_struct, type_struct, struct_like, is_builtin, is_container, is_basic, is_map,
  file_of,
}
use thriftgo.Reflection.Included.{
  lookup_included_from_struct, from_struct, from_types, from_type, visited, field_types,
}
use thriftgo.Reflection.Included.Closed.{AllCovered, lookup_included-Covered}
use thriftgo.Reflection.Included.Ends.{lookup_included_from_struct-ends}
use thriftgo.Reflection.Included.Reached.{Reaches, lookup_included-Reaches}

abbrev pub plain : Bytes → Bytes → TypeDescriptor
plain path name = type_descriptor path name nil nil []

abbrev pub field : Bytes → TypeDescriptor → FieldDescriptor
field name type = record { name = name; type = type; requiredness = codes "Default"; id = pos 1 }

abbrev pub base_path : Bytes
base_path = codes "base.thrift"

abbrev pub main_path : Bytes
main_path = codes "main.thrift"

abbrev pub item : StructDescriptor
item = record {
  address = 1;
  filepath = base_path;
  name = codes "Item";
  fields = field (codes "id") (plain base_path (codes "i64")) ∷ [];
}

abbrev pub items : TypeDescriptor
items = type_descriptor main_path (codes "list") nil (plain main_path (codes "base.Item")) []

-- struct Node { next : Node, items : list<base.Item> }
abbrev pub node : StructDescriptor
node = record {
  address = 2;
  filepath = main_path;
  name = codes "Node";
  fields = field (codes "next") (plain main_path (codes "Node")) ∷ field (codes "items") items ∷ [];
}

abbrev pub method : Bytes → MethodDescriptor
method name = record { name = name; response = nil; args = [] }

abbrev pub base_service : ServiceDescriptor
base_service = record {
  filepath = base_path;
  name = codes "Base";
  methods = method (codes "ping") ∷ method (codes "stop") ∷ [];
  extra = [];
  base = [];
}

abbrev pub main_service : ServiceDescriptor
main_service = record {
  filepath = main_path;
  name = codes "Main";
  methods = method (codes "ping") ∷ [];
  extra = [];
  base = codes "base.Base";
}

abbrev pub base_file : FileDescriptor
base_file = record {
  filepath = base_path;
  includes = [];
  services = base_service ∷ [];
  structs = item ∷ [];
  exceptions = [];
  enums = [];
  typedefs = [];
  unions = [];
  consts = [];
  extra = [];
}

abbrev pub main_file : FileDescriptor
main_file = record {
  filepath = main_path;
  includes = (codes "base", base_path) ∷ [];
  services = main_service ∷ [];
  structs = node ∷ [];
  exceptions = [];
  enums = [];
  typedefs = [];
  unions = [];
  consts = [];
  extra = [];
}

abbrev pub registry : GlobalDescriptor
registry = record { global_fd = (main_path, main_file) ∷ (base_path, base_file) ∷ [] }

abbrev pub world : World
world = record { default_global = registry; global_map = [] }

abbrev struct_in : FileDescriptor → Bytes → Option StructDescriptor
struct_in fd n = named (λ (s : StructDescriptor). s.name) n fd.structs

-- The including file belongs to a registry of its own, and the common one is empty.
abbrev tagged_file : FileDescriptor
tagged_file = record main_file { extra = (uuid_key, codes "u1") ∷ [] }

abbrev tagged_world : World
tagged_world = record {
  default_global = record { global_fd = [] };
  global_map = (codes "u1", registry) ∷ [];
}

tagged_item :
    get_descriptor tagged_world struct_in (some tagged_file) (codes "base.Item") ≡ ok (some item)
unfolding get_descriptor descend parse_alias get_include_fd lookup_fd get_global named first_with
    split last_piece trim_suffix
tagged_item = refl

get_descriptor-Means_example :
    (o : Option StructDescriptor) × (get_descriptor tagged_world struct_in
        (some tagged_file)
        (codes "base.Item")
      ≡ ok o)
    × (descend tagged_world struct_in 2 (some tagged_file) (codes "base.Item") ≡ ok o)
    × Means tagged_world struct_in (some tagged_file) (codes "base.Item") o
get_descriptor-Means_example =
    get_descriptor-Means tagged_world struct_in (some tagged_file) (codes "base.Item") 0

extends_base : Parents world main_service (base_service ∷ [])
unfolding get_parent get_global lookup_fd get_service_descriptor get_descriptor descend parse_alias
    get_include_fd named first_with split last_piece trim_suffix
extends_base = over refl (top refl)

get_all_methods-Parents_example :
    get_all_methods world 2 main_service
    ≡ ok (method (codes "ping") ∷ method (codes "ping") ∷ method (codes "stop") ∷ [])
get_all_methods-Parents_example =
    get_all_methods-Parents world main_service (base_service ∷ []) 2 extends_base (omega arith)

get_method_by_name_from_all-Parents_example :
    get_method_by_name_from_all world 2 main_service (codes "stop")
    ≡ ok (some (method (codes "stop")))
unfolding method_among named first_with
get_method_by_name_from_all-Parents_example =
    get_method_by_name_from_all-Parents world main_service (base_service ∷ []) 2 (codes "stop")
      extends_base (omega arith)

get_all_methods-returns_example :
    (l : List ServiceDescriptor) × Parents world main_service l
    × (length l < 2)
    × (method (codes "ping") ∷ method (codes "ping") ∷ method (codes "stop") ∷ []
        ≡ methods_of (main_service ∷ l))
unfolding get_all_methods methods_from get_parent get_global lookup_fd get_service_descriptor
    get_descriptor descend parse_alias get_include_fd named first_with split last_piece trim_suffix
get_all_methods-returns_example =
    get_all_methods-returns world main_service 2
      (method (codes "ping") ∷ method (codes "ping") ∷ method (codes "stop") ∷ []) refl

-- service Left extends Right, and service Right extends Left
abbrev circular : String → String → ServiceDescriptor
circular name parent = record base_service { name = codes name; base = codes parent }

abbrev circle_world : World
circle_world = record {
  default_global = record {
    global_fd =
        (
          base_path,
          record base_file { services = circular "Left" "Right" ∷ circular "Right" "Left" ∷ [] },
        )
        ∷ [];
  };
  global_map = [];
}

round : Ancestor circle_world (circular "Right" "Left") (circular "Right" "Left")
unfolding get_parent get_global lookup_fd get_service_descriptor get_descriptor descend parse_alias
    get_include_fd named first_with split last_piece trim_suffix
round = beyond {p = circular "Left" "Right"} refl (direct refl)

up_left : Ancestor circle_world (circular "Left" "Right") (circular "Right" "Left")
unfolding get_parent get_global lookup_fd get_service_descriptor get_descriptor descend parse_alias
    get_include_fd named first_with split last_piece trim_suffix
up_left = direct refl

get_all_methods-Ancestor_example :
    (get_all_methods circle_world 1000 (circular "Left" "Right") ≡ stuck)
    × (get_method_by_name_from_all circle_world 1000 (circular "Left" "Right") (codes "ping")
        ≡ stuck)
get_all_methods-Ancestor_example =
    get_all_methods-Ancestor circle_world (circular "Left" "Right") (circular "Right" "Left") 1000
      (codes "ping") round (inr up_left)

lookup_in_unique_example :
    lookup_in (λ fd. get_struct_descriptor world fd (codes "Item")) (some registry) []
    ≡ ok (some item)
unfolding get_struct_descriptor get_descriptor descend parse_alias named first_with split last_piece
    trim_suffix
lookup_in_unique_example =
    lookup_in_unique (λ fd. get_struct_descriptor world fd (codes "Item")) item registry
      (base_path, base_file)
      (λ f m. elim m [
        | head e ↦ inl (
            subst (λ x. get_struct_descriptor world (some x.1) (codes "Item") ≡ ok none) (sym e)
              refl)
        | tail (head e) ↦ inr (
            subst (λ x. get_struct_descriptor world (some x.1) (codes "Item") ≡ ok (some item))
              (sym e) refl)
        | tail (tail k) ↦ elim k [ ]
      ])
      (tail (head refl)) refl

node_items : lookup_included_from_struct world (some registry) 4 node ≡ ok (item ∷ node ∷ [])
unfolding lookup_included_from_struct from_struct visited from_types from_type is_struct
    found_struct type_struct struct_like is_builtin is_container get_name is_container_name
    container_map is_basic is_basic_name basic_map file_of last_piece split trim_suffix parse_alias
    get_global descend first_with get_descriptor get_include_fd get_struct_descriptor lookup_fd
    named is_map
node_items = refl

lookup_included_from_struct-ends_example :
    lookup_included_from_struct world (some registry) 4 node ≢ stuck
lookup_included_from_struct-ends_example =
    lookup_included_from_struct-ends world (some registry) 4 node (omega arith)

lookup_included-Covered_example :
    (visited node (item ∷ node ∷ []) ≡ true)
    × ((s : StructDescriptor)
        → Memᴰ s (item ∷ node ∷ [])
        → AllCovered world (item ∷ node ∷ []) (field_types s.fields))
lookup_included-Covered_example =
    lookup_included-Covered world registry 4 node (item ∷ node ∷ []) node_items

lookup_included-Reaches_example : Reaches world node item
lookup_included-Reaches_example =
    lookup_included-Reaches world registry 4 node (item ∷ node ∷ []) node_items item (head refl)
