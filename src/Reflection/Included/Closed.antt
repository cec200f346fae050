-- ===== src/Reflection/Included/Closed.antt =====
-- The structs that are found include no other struct: the search is complete.
use thriftgo.Prelude.{
  ℕ, zero, suc, ◌≡◌, ◌⊎◌, sym, ◌∙◌, subst, List, some, [], ◌∷◌, Bool-cases, inl, inr, arith, true,
}
use mathlib.Core.List.{Memᴰ}
use mathlib.Core.List.Memᴰ.{head, tail}
use thriftgo.Go.Outcome.{bind-ok, ok}
use thriftgo.Reflection.Descriptors.{
  TypeDescriptor, nil, type_descriptor, StructDescriptor, World, GlobalDescriptor, Result,
}
use thriftgo.Reflection.Types.{is_struct, type_struct, is_container, is_map}
use thriftgo.Reflection.Included.{
  visited, from_type, from_types, field_types, from_struct, lookup_included_from_struct,
}
use thriftgo.Reflection.Included.Steps.{
  steps-cases, ok-injective, not_both, type_struct-is_container,
}

module _ (w : World) where
  -- The structs of the type, and of the element and key types of a container, are among those seen.
  abbrev pub Covered : List StructDescriptor → TypeDescriptor → Type 0
  Covered r nil = Unit
  Covered r (type_descriptor filepath name k v extra) =
      let td = type_descriptor filepath name k v extra in
      ((st : StructDescriptor) → type_struct w td ≡ ok st → visited st r ≡ true)
      × (is_container td ≡ ok true → Covered r v × (is_map td ≡ ok true → Covered r k))

  abbrev pub AllCovered : List StructDescriptor → List TypeDescriptor → Type 0
  AllCovered r [] = Unit
  AllCovered r (td ∷ tds) = Covered r td × AllCovered r tds

  -- The second list has all structs of the first.
  pub record Grows (seen after : List StructDescriptor) : Type 0 where
    pub keeps : (s : StructDescriptor) → visited s seen ≡ true → visited s after ≡ true

  Covered-Grows :
      (td : TypeDescriptor) (r s : List StructDescriptor) → Grows r s → Covered r td → Covered s td
  Covered-Grows nil r s g c = tt
  Covered-Grows (type_descriptor filepath name k v extra) r s g c = (
    (λ st e. g.keeps st (c.0 st e)),
    (λ e. (Covered-Grows v r s g (c.1 e).0, (λ m. Covered-Grows k r s g ((c.1 e).1 m)))),
  )

  AllCovered-Grows :
      (tds : List TypeDescriptor) (r s : List StructDescriptor)
      → Grows r s
      → AllCovered r tds
      → AllCovered s tds
  AllCovered-Grows [] r s g c = tt
  AllCovered-Grows (td ∷ tds) r s g c = (Covered-Grows td r s g c.0, AllCovered-Grows tds r s g c.1)

  -- A struct of the second list that is not of the first has its fields covered by the second.
  record Closes (seen after : List StructDescriptor) : Type 0 where
    grows : Grows seen after
    closed :
        (s : StructDescriptor)
        → Memᴰ s after
        → Memᴰ s seen ⊎ AllCovered after (field_types s.fields)

  Closes-refl : (r : List StructDescriptor) → Closes r r
  Closes-refl r = record { grows = record { keeps = λ s h. h }; closed = λ s m. inl m }

  Closes-trans : (r s t : List StructDescriptor) → Closes r s → Closes s t → Closes r t
  Closes-trans r s t a b = record {
    grows = record { keeps = λ x h. b.grows.keeps x (a.grows.keeps x h) };
    closed = λ x m. elim (b.closed x m) [
      | inl k ↦ elim (a.closed x k) [
        | inl old ↦ inl old
        | inr c ↦ inr (AllCovered-Grows (field_types x.fields) s t b.grows c)
      ]
      | inr c ↦ inr c
    ];
  }

  module _ (visit : StructDescriptor → List StructDescriptor → Result (List StructDescriptor))
      (good : (sd : StructDescriptor) (seen after : List StructDescriptor)
        → visit sd seen ≡ ok after
        → Closes seen after × (visited sd after ≡ true)) where
    from_type-Closes :
        (td : TypeDescriptor) (seen after : List StructDescriptor)
        → from_type w visit td seen ≡ ok after
        → Closes seen after × Covered after td
    unfolding from_type is_struct
    from_type-Closes nil seen after h = let never : ⊥ = cc in elim never [ ]
    from_type-Closes (type_descriptor filepath name k v extra) seen after h =
        let td = type_descriptor filepath name k v extra in
        elim (steps-cases (type_struct w td) (λ st. visit st seen) (is_container td)
          (from_type w visit v seen) (is_map td) (from_type w visit k) seen after h) [
            | inl s ↦
                let (c, there) = good s.target seen after s.called in
                (
                  c,
                  (
                    (λ st e.
                        let same : s.target ≡ st = ok-injective (sym s.here ∙ e) in
                        subst (λ x. visited x after ≡ true) same there),
                    (λ e. elim (type_struct-is_container w td s.target s.here e) [ ]),
                  ),
                )
            | inr (inl s) ↦ (
              subst (λ r. Closes seen r) s.same (Closes-refl seen),
              (
                (λ st e. elim (s.none_there st e) [ ]),
                (λ e. let never : ⊥ = not_both (sym e ∙ s.no_container) in elim never [ ]),
              ),
            )
            | inr (inr s) ↦
                let (grown, covered) = from_type-Closes v seen s.middle s.elements in
                elim s.keys [
                  | inl (_, e) ↦
                      let (more, keyed) = from_type-Closes k s.middle after e in
                      (
                        Closes-trans seen s.middle after grown more,
                        (
                          (λ st e. elim (s.none_there st e) [ ]),
                          (λ _. (Covered-Grows v s.middle after more.grows covered, (λ _. keyed))),
                        ),
                      )
                  | inr (no_map, same) ↦ (
                    subst (λ r. Closes seen r) same grown,
                    (
                      (λ st e. elim (s.none_there st e) [ ]),
                      (λ _. (
                        subst (λ r. Covered r v) same covered,
                        (λ e. let never : ⊥ = not_both (sym e ∙ no_map) in elim never [ ]),
                      )),
                    ),
                  )
                ]
          ]

    from_types-Closes :
        (tds : List TypeDescriptor) (seen after : List StructDescriptor)
        → from_types w visit tds seen ≡ ok after
        → Closes seen after × AllCovered after tds
    unfolding from_types
    from_types-Closes [] seen after h =
        let same : seen ≡ after = cc in (subst (λ r. Closes seen r) same (Closes-refl seen), tt)
    from_types-Closes (td ∷ tds) seen after h =
        let (mid, first, rest) =
          bind-ok (from_type w visit td seen) (λ m. from_types w visit tds m) after h in
        let (a, c) = from_type-Closes td seen mid first in
        let (b, cs) = from_types-Closes tds mid after rest in
        (Closes-trans seen mid after a b, (Covered-Grows td mid after b.grows c, cs))

pub visited_self :
    (sd : StructDescriptor) (seen : List StructDescriptor) → visited sd (sd ∷ seen) ≡ true
unfolding visited
visited_self sd seen = ground arith

pub Grows-cons :
    (w : World) (sd : StructDescriptor) (seen : List StructDescriptor) → Grows w seen (sd ∷ seen)
unfolding visited
Grows-cons w sd seen = record { keeps = λ s h. ground (arith, h) }

from_struct-Closes :
    (w : World) (fuel : ℕ) (sd : StructDescriptor) (seen after : List StructDescriptor)
    → from_struct w fuel sd seen ≡ ok after
    → Closes w seen after × (visited sd after ≡ true)
unfolding from_struct
from_struct-Closes w zero sd seen after h = let never : ⊥ = cc in elim never [ ]
from_struct-Closes w (suc fuel) sd seen after h = elim (Bool-cases (visited sd seen)) [
  | inl old ↦
      let same : seen ≡ after = ok-injective (rw old at h) in
      (
        subst (λ r. Closes w seen r) same (Closes-refl w seen),
        subst (λ r. visited sd r ≡ true) same old,
      )
  | inr new ↦
      let (c, fields) =
        from_types-Closes w (from_struct w fuel) (from_struct-Closes w fuel) (field_types sd.fields)
          (sd ∷ seen) after (rw new at h) in
      (
        record {
          grows = record { keeps = λ s k. c.grows.keeps s ((Grows-cons w sd seen).keeps s k) };
          closed = λ s m. elim (c.closed s m) [
            | inl (head e) ↦
                inr (subst (λ x. AllCovered w after (field_types x.fields)) (sym e) fields)
            | inl (tail k) ↦ inl k
            | inr covered ↦ inr covered
          ];
        },
        c.grows.keeps sd (visited_self sd seen),
      )
]

-- Where LookupIncludedStructsFromStruct returns, its result has the struct that it is asked for,
-- and every struct that is the type of a field of one of the result, or the element or the key of
-- such a type, to any depth of containers.
pub lookup_included-Covered :
    (w : World) (gd : GlobalDescriptor) (fuel : ℕ) (sd : StructDescriptor)
    (r : List StructDescriptor)
    → lookup_included_from_struct w (some gd) fuel sd ≡ ok r
    → (visited sd r ≡ true)
      × ((s : StructDescriptor) → Memᴰ s r → AllCovered w r (field_types s.fields))
unfolding lookup_included_from_struct
lookup_included-Covered w gd fuel sd r h =
    let (c, there) = from_struct-Closes w fuel sd [] r h in
    (there, (λ s m. elim (c.closed s m) [ inl never ↦ elim never [ ] | inr covered ↦ covered ]))
