-- ===== src/Semantic/Tests.antt =====
-- Concrete runs of semantic/checker.go. Default values are texts here.
use mathlib.Core.List.{Memᴰ}
use thriftgo.Prelude.{◌≡◌, ◌↔◌, refl, true, false, none, some, List, [], ◌∷◌, String}
use thriftgo.Prelude.Ints.{pos, negsuc}
use thriftgo.Prelude.Names.{Distinct}
use thriftgo.Semantic.Report.{or_else, union_requiredness}
use thriftgo.Semantic.Lookup.{
  NamespaceDecl, first_named, get_namespace, get_struct, get_union, get_exception, get_service,
}
use thriftgo.Semantic.Lookup.Finds.{check_file-finds}
use thriftgo.Semantic.Lookup.Preference.{declared, last_general, get_namespace-or_else}
use thriftgo.Semantic.Ast.{
  Service, Field, StructLike, Function, Thrift, Requiredness, by_default, required, optional,
  get_struct_likes,
}
use thriftgo.Semantic.Checker.{
  global_names, check_globals, check_enums, check_struct_likes, check_unions, check_functions,
  check_all, check_names, check_enum_values, check_enum_list, check_fields, check_struct_list,
  check_members, check_union_list, check_arguments, check_throws, check_function,
  check_function_list, check_service_list, check_file,
}
use thriftgo.Semantic.Checker.Repairs.{check_unions-repaired, check_unions-untouched}
use thriftgo.Semantic.Checker.Accepts.{AreAccepted, check_all-accepts}
use thriftgo.Semantic.Checker.Accepts.Enums.{AreEnums, check_enums-accepts}
use thriftgo.Semantic.Checker.Accepts.Structs.{
  AreStructs, check_globals-accepts, check_struct_likes-accepts, check_unions-accepts,
}
use thriftgo.Semantic.Checker.Accepts.Functions.{AreServices, check_functions-accepts}

abbrev field : String → Field String
field name = record { id = pos 1; name = name; requiredness = by_default; default = some "0" }

abbrev choice : StructLike String
choice = record {
  category = "union";
  name = "Choice";
  fields = field "left" ∷ record (field "right") { id = negsuc 0 } ∷ [];
}

abbrev ping : Function String
ping = record {
  name = "ping";
  oneway = true;
  void = true;
  arguments = field "at" ∷ [];
  throws = [];
}

abbrev sample : Thrift String
sample = record {
  filename = "a.thrift";
  typedefs = "Id" ∷ [];
  constants = "zero" ∷ [];
  enums =
      record {
        name = "Level";
        values =
            record { name = "low"; value = pos 0 } ∷ record { name = "high"; value = pos 9 } ∷ [];
      }
      ∷ [];
  structs = [];
  unions = choice ∷ [];
  exceptions = [];
  services = record { name = "Echo"; functions = ping ∷ [] } ∷ [];
}

check_all-accepts_example : ((check_all true (sample ∷ [])).0.1 ≡ none) ↔ AreAccepted (sample ∷ [])
check_all-accepts_example = check_all-accepts true (sample ∷ [])

check_globals-accepts_example : ((check_globals sample).1 ≡ none) ↔ Distinct (global_names sample)
check_globals-accepts_example = check_globals-accepts sample

check_enums-accepts_example : ((check_enums sample).1 ≡ none) ↔ AreEnums sample.enums
check_enums-accepts_example = check_enums-accepts sample

check_struct_likes-accepts_example :
    ((check_struct_likes sample).1 ≡ none) ↔ AreStructs (get_struct_likes sample)
check_struct_likes-accepts_example = check_struct_likes-accepts sample

check_unions-accepts_example : (check_unions false sample).0.1 ≡ none
check_unions-accepts_example = check_unions-accepts false sample

check_functions-accepts_example :
    ((check_functions true sample).0.1 ≡ none) ↔ AreServices sample.services
check_functions-accepts_example = check_functions-accepts true sample

sample-IsAccepted : (check_file true sample).0.1 ≡ none
unfolding check_names check_enum_values check_enum_list check_globals check_enums check_fields
    check_struct_list check_struct_likes check_members check_union_list check_unions check_arguments
    check_throws check_function check_function_list check_service_list check_functions check_file
sample-IsAccepted = refl

check_file-finds_example :
    ((s : StructLike String) → Memᴰ s sample.structs → get_struct s.name sample ≡ some s)
    × ((s : StructLike String) → Memᴰ s sample.unions → get_union s.name sample ≡ some s)
    × ((s : StructLike String) → Memᴰ s sample.exceptions → get_exception s.name sample ≡ some s)
    × ((s : Service String) → Memᴰ s sample.services → get_service s.name sample ≡ some s)
check_file-finds_example = check_file-finds true sample sample-IsAccepted

abbrev declarations : List NamespaceDecl
declarations =
    record { language = "*"; name = "all" } ∷ record { language = "go"; name = "gopher" } ∷ []

get_namespace-or_else_example :
    get_namespace "go" declarations
    ≡ or_else
        (declared (first_named (λ n. n.language) "go" declarations))
        (last_general none declarations)
get_namespace-or_else_example = get_namespace-or_else "go" declarations

-- A union whose fields declare each of the three.
abbrev declared_fields : Requiredness → Requiredness → Requiredness → List (Field String)
declared_fields a b c =
    record (field "left") { requiredness = a }
    ∷ record (field "right") { requiredness = b }
    ∷ record (field "none") { requiredness = c }
    ∷ []

abbrev with_union : List (Field String) → Thrift String
with_union fields = record sample { unions = record choice { fields = fields } ∷ [] }

check_unions-repaired_example :
    check_unions true (with_union (declared_fields required optional by_default)) ≡ (
      (union_requiredness "Choice" "left" ∷ [], none),
      with_union (declared_fields optional optional optional),
    )
check_unions-repaired_example =
    check_unions-repaired true (with_union (declared_fields required optional by_default))

check_unions-untouched_example : (check_unions false sample).1 ≡ sample
check_unions-untouched_example = check_unions-untouched sample
