-- ===== src/Reflection/Included/Reached.antt =====
-- The structs that are found are reached from the first: the search is sound.
use thriftgo.Prelude.{
  ℕ, zero, suc, ◌≡◌, ◌⊎◌, refl, sym, subst, List, some, [], ◌∷◌, Bool-cases, inl, inr, true,
}
use mathlib.Core.List.{Memᴰ}
use mathlib.Core.List.Memᴰ.{head, tail}
use thriftgo.Prelude.Bytes.{Bytes}
use thriftgo.Go.Outcome.{bind-ok, ok}
use thriftgo.Reflection.Descriptors.{
  Dict, TypeDescriptor, nil, type_descriptor, StructDescriptor, World, GlobalDescriptor, Result,
}
use thriftgo.Reflection.Types.{is_struct, type_struct, is_container, is_map}
use thriftgo.Reflection.Included.{
  from_type, from_types, field_types, from_struct, visited, lookup_included_from_struct,
}
use thriftgo.Reflection.Included.Steps.{steps-cases, ok-injective}

-- The type is the struct, or a container with it in its element or key type.
pub data Mentions (w : World) : TypeDescriptor → StructDescriptor → Type 0 where
  direct :
      {td : TypeDescriptor} {st : StructDescriptor} → type_struct w td ≡ ok st → Mentions w td st
  element :
      {filepath name : Bytes} {k v : TypeDescriptor} {extra : Dict Bytes} {st : StructDescriptor}
      → is_container (type_descriptor filepath name k v extra) ≡ ok true
      → Mentions w v st
      → Mentions w (type_descriptor filepath name k v extra) st
  key :
      {filepath name : Bytes} {k v : TypeDescriptor} {extra : Dict Bytes} {st : StructDescriptor}
      → is_map (type_descriptor filepath name k v extra) ≡ ok true
      → Mentions w k st
      → Mentions w (type_descriptor filepath name k v extra) st

-- A chain of structs, each the type of a field of the one before.
pub data Reaches (w : World) : StructDescriptor → StructDescriptor → Type 0 where
  self : {s : StructDescriptor} → Reaches w s s
  step :
      {s t u : StructDescriptor} {td : TypeDescriptor}
      → Reaches w s t
      → Memᴰ td (field_types t.fields)
      → Mentions w td u
      → Reaches w s u

module _ (w : World) (P : StructDescriptor → Type 0)
    (visit : StructDescriptor → List StructDescriptor → Result (List StructDescriptor))
    (good : (sd : StructDescriptor) (seen after : List StructDescriptor)
      → P sd
      → visit sd seen ≡ ok after
      → (s : StructDescriptor) → Memᴰ s after
      → Memᴰ s seen ⊎ P s) where
  from_type_sound :
      (td : TypeDescriptor) (seen after : List StructDescriptor)
      → ((st : StructDescriptor) → Mentions w td st → P st)
      → from_type w visit td seen ≡ ok after
      → (s : StructDescriptor) → Memᴰ s after
      → Memᴰ s seen ⊎ P s
  unfolding from_type is_struct
  from_type_sound nil seen after p h s m = let never : ⊥ = cc in elim never [ ]
  from_type_sound (type_descriptor filepath name k v extra) seen after p h s m =
      let td = type_descriptor filepath name k v extra in
      elim (steps-cases (type_struct w td) (λ st. visit st seen) (is_container td)
        (from_type w visit v seen) (is_map td) (from_type w visit k) seen after h) [
          | inl c ↦ good c.target seen after (p c.target (direct c.here)) c.called s m
          | inr (inl c) ↦ inl (subst (λ l. Memᴰ s l) (sym c.same) m)
          | inr (inr c) ↦
              let elements =
                from_type_sound v seen c.middle (λ st x. p st (element c.container x)) c.elements
                  s in
              elim c.keys [
                | inl (e, called) ↦
                    elim (from_type_sound k c.middle after (λ st x. p st (key e x)) called s m) [
                      | inl there ↦ elements there
                      | inr new ↦ inr new
                    ]
                | inr (_, same) ↦ elements (subst (λ l. Memᴰ s l) (sym same) m)
              ]
        ]

  from_types_sound :
      (tds : List TypeDescriptor) (seen after : List StructDescriptor)
      → ((td : TypeDescriptor) → Memᴰ td tds → (st : StructDescriptor) → Mentions w td st → P st)
      → from_types w visit tds seen ≡ ok after
      → (s : StructDescriptor) → Memᴰ s after
      → Memᴰ s seen ⊎ P s
  unfolding from_types
  from_types_sound [] seen after p h s m = inl (subst (λ l. Memᴰ s l) (sym (ok-injective h)) m)
  from_types_sound (td ∷ tds) seen after p h s m =
      let (mid, first, rest) = bind-ok (from_type w visit td seen) _ after h in
      elim (from_types_sound tds mid after (λ x k. p x (tail k)) rest s m) [
        | inl there ↦ from_type_sound td seen mid (p td (head refl)) first s there
        | inr new ↦ inr new
      ]

from_struct_sound :
    (w : World) (start : StructDescriptor) (fuel : ℕ) (sd : StructDescriptor)
    (seen after : List StructDescriptor)
    → Reaches w start sd
    → from_struct w fuel sd seen ≡ ok after
    → (s : StructDescriptor) → Memᴰ s after
    → Memᴰ s seen ⊎ Reaches w start s
unfolding from_struct
from_struct_sound w start zero sd seen after p h s m = let never : ⊥ = cc in elim never [ ]
from_struct_sound w start (suc fuel) sd seen after p h s m = elim (Bool-cases (visited sd seen)) [
  | inl old ↦ inl (subst (λ l. Memᴰ s l) (sym (ok-injective (rw old at h))) m)
  | inr new ↦
      elim (from_types_sound w (Reaches w start) (from_struct w fuel)
        (λ x l k. from_struct_sound w start fuel x l k) (field_types sd.fields) (sd ∷ seen) after
        (λ td k st x. step p k x) (rw new at h) s m) [
          | inl (head e) ↦ inr (subst (Reaches w start) (sym e) p)
          | inl (tail k) ↦ inl k
          | inr there ↦ inr there
        ]
]

-- Where LookupIncludedStructsFromStruct returns, each struct of its result is reached from the one
-- that it is asked for, by a chain of fields.
pub lookup_included-Reaches :
    (w : World) (gd : GlobalDescriptor) (fuel : ℕ) (sd : StructDescriptor)
    (r : List StructDescriptor)
    → lookup_included_from_struct w (some gd) fuel sd ≡ ok r
    → (s : StructDescriptor) → Memᴰ s r
    → Reaches w sd s
unfolding lookup_included_from_struct
lookup_included-Reaches w gd fuel sd r h s m =
    elim (from_struct_sound w sd fuel sd [] r self h s m) [
      | inl never ↦ elim never [ ]
      | inr there ↦ there
    ]
