-- ===== src/Reflection/Included.antt =====
-- thrift_reflection/descriptor_lookup.go: the structs that a struct, a type or a method includes.
pub mod Steps
pub mod Closed
pub mod Ends
pub mod Reached
use thriftgo.Prelude.{
  ℕ, zero, suc, ◌≡◌, Option, none, some, List, [], ◌∷◌, true, false, Bool, if◌then◌else◌, ◌==◌,
  ◌||◌, String,
}
use thriftgo.Go.Outcome.{Outcome, ok, err, panic, stuck, ◌>>=◌}
use thriftgo.Reflection.Descriptors.{
  TypeDescriptor, nil, type_descriptor, FieldDescriptor, StructDescriptor, MethodDescriptor, World,
  GlobalDescriptor, Result,
}
use thriftgo.Reflection.Types.{is_struct, type_struct, is_container, is_map}

-- `structMap[sd]`: the structs put into the map, by their pointers.
unfoldable pub visited : StructDescriptor → List StructDescriptor → Bool
visited sd [] = false
visited sd (s ∷ l) = sd.address == s.address || visited sd l

abbrev pub field_types : List FieldDescriptor → List TypeDescriptor
field_types [] = []
field_types (f ∷ fs) = f.type ∷ field_types fs

abbrev pub nil_global : String
nil_global = "global descriptor is nil"

module _ (w : World) where
  -- lookupIncludedStructsFromType, given what it calls on a struct.
  unfoldable pub from_type :
      (StructDescriptor → List StructDescriptor → Result (List StructDescriptor))
      → TypeDescriptor
      → List StructDescriptor
      → Result (List StructDescriptor)
  from_type visit nil seen = panic
  from_type visit (type_descriptor filepath name k v extra) seen =
      let td = type_descriptor filepath name k v extra in
      let value = from_type visit v seen in
      let key : List StructDescriptor → Result (List StructDescriptor) = from_type visit k in
      is_struct w td >>= λ struct.
      if struct
      then type_struct w td >>= (λ st. visit st seen)
      else is_container td >>= λ container.
          if container
          then value >>= (λ after. is_map td >>= λ m. if m then key after else ok after)
          else ok seen

  -- The loop over the types of fields.
  unfoldable pub from_types :
      (StructDescriptor → List StructDescriptor → Result (List StructDescriptor))
      → List TypeDescriptor
      → List StructDescriptor
      → Result (List StructDescriptor)
  from_types visit [] seen = ok seen
  from_types visit (td ∷ tds) seen = from_type visit td seen >>= λ after. from_types visit tds after

  -- lookupIncludedStructsFromStruct, on fuel.
  unfoldable pub from_struct :
      ℕ → StructDescriptor → List StructDescriptor → Result (List StructDescriptor)
  from_struct zero sd seen = stuck
  from_struct (suc fuel) sd seen =
      let go = from_types (from_struct fuel) (field_types sd.fields) (sd ∷ seen) in
      if visited sd seen then ok seen else go

  unfoldable pub lookup_included_from_struct :
      Option GlobalDescriptor → ℕ → StructDescriptor → Result (List StructDescriptor)
  lookup_included_from_struct none fuel sd = err nil_global
  lookup_included_from_struct (some gd) fuel sd = from_struct fuel sd []

  unfoldable pub lookup_included_from_type :
      Option GlobalDescriptor → ℕ → TypeDescriptor → Result (List StructDescriptor)
  lookup_included_from_type none fuel td = err nil_global
  lookup_included_from_type (some gd) fuel td = from_type (from_struct fuel) td []

  -- the response and the arguments, in this order
  unfoldable pub lookup_included_from_method :
      Option GlobalDescriptor → ℕ → MethodDescriptor → Result (List StructDescriptor)
  lookup_included_from_method none fuel method = err nil_global
  lookup_included_from_method (some gd) fuel method =
      from_types (from_struct fuel) (method.response ∷ field_types method.args) []
