-- ===== src/Reflection/Services.antt =====
-- thrift_reflection/descriptor-extend.go: the methods of a service and of the services that it extends.
pub mod Parents
use thriftgo.Prelude.{ℕ, zero, suc, ◌≡◌, List, Option, none, some, [], ◌∷◌, ◌++◌}
use thriftgo.Prelude.Bytes.{Bytes, bytes_eq}
use thriftgo.Go.Outcome.{Outcome, ok, err, panic, stuck, ◌>>=◌}
use thriftgo.Reflection.Descriptors.{MethodDescriptor, ServiceDescriptor, World, get_global, Result}
use thriftgo.Reflection.Files.{named, lookup_fd, get_service_descriptor}

unfoldable pub get_method_by_name : ServiceDescriptor → Bytes → Option MethodDescriptor
get_method_by_name sd name = named (λ (m : MethodDescriptor). m.name) name sd.methods

unfoldable pub get_parent : World → ServiceDescriptor → Result (Option ServiceDescriptor)
get_parent w s = get_service_descriptor w (lookup_fd (get_global w s.extra) s.filepath) s.base

-- The loop of GetAllMethods over a service and its parents, on fuel.
unfoldable pub methods_from :
    World → ℕ → Option ServiceDescriptor → List MethodDescriptor → Result (List MethodDescriptor)
methods_from w fuel none all_methods = ok all_methods
methods_from w zero (some svc) all_methods = stuck
methods_from w (suc fuel) (some svc) all_methods =
    get_parent w svc >>= λ parent. methods_from w fuel parent (all_methods ++ svc.methods)

unfoldable pub get_all_methods : World → ℕ → ServiceDescriptor → Result (List MethodDescriptor)
get_all_methods w fuel s = methods_from w fuel (some s) []

unfoldable pub get_method_by_name_from_all :
    World → ℕ → ServiceDescriptor → Bytes → Result (Option MethodDescriptor)
get_method_by_name_from_all w fuel s name = get_all_methods w fuel s >>= λ all_methods.
    ok (named (λ (m : MethodDescriptor). m.name) name all_methods)
