-- ===== src/Reflection/Included/Ends.antt =====
-- The search for the included structs ends: it visits each registered struct once.
use thriftgo.Prelude.{
  ℕ, zero, suc, ◌+◌, ◌<◌, ◌≤◌, ◌≡◌, ◌≢◌, refl, subst, List, Option, none, some, Bool, true, false,
  [], ◌∷◌, length, Bool-cases, inl, inr, arith, if◌then◌else◌,
}
use mathlib.Core.List.{Memᴰ}
use mathlib.Core.List.Memᴰ.{head, tail}
use thriftgo.Go.Outcome.{
  ok, err, panic, stuck, Good, Good-bind, Good-if, Good-weaken, Good-not_stuck,
}
use thriftgo.Reflection.Descriptors.{
  TypeDescriptor, nil, type_descriptor, StructDescriptor, World, GlobalDescriptor, Result,
}
use thriftgo.Reflection.Files.Registry.{all_structs}
use thriftgo.Reflection.Types.{is_struct, found_struct, type_struct, is_container, is_map}
use thriftgo.Reflection.Included.Steps.{steps}
use thriftgo.Reflection.Included.Closed.{Grows, Grows-cons, visited_self}
use thriftgo.Reflection.Types.Answers.{type_struct-Good, is_container-Good, is_map-Good}
use thriftgo.Reflection.Included.{
  visited, from_type, from_types, field_types, from_struct, lookup_included_from_struct,
}

Grows-trans : (w : World) (r s t : List StructDescriptor) → Grows w r s → Grows w s t → Grows w r t
Grows-trans w r s t g h = record { keeps = λ x k. h.keeps x (g.keeps x k) }

Grows-refl : (w : World) (r : List StructDescriptor) → Grows w r r
Grows-refl w r = record { keeps = λ x k. k }

steps-Good :
    (w : World) (all : List StructDescriptor) (r : Result StructDescriptor)
    (visit : StructDescriptor → Result (List StructDescriptor)) (c : Result Bool)
    (value : Result (List StructDescriptor)) (m : Result Bool)
    (key : List StructDescriptor → Result (List StructDescriptor)) (seen : List StructDescriptor)
    → Good (λ st. Memᴰ st all) r
    → ((st : StructDescriptor) → Memᴰ st all → Good (Grows w seen) (visit st))
    → Good (λ b. Unit) c
    → Good (Grows w seen) value
    → Good (λ b. Unit) m
    → ((mid : List StructDescriptor) → Grows w seen mid → Good (Grows w mid) (key mid))
    → Good (Grows w seen) (steps r visit c value m key seen seen)
unfolding found_struct
steps-Good w all (ok st) visit c value m key seen hr hv hc hl hm hk = hv st hr
steps-Good w all panic visit c value m key seen hr hv hc hl hm hk = tt
steps-Good w all stuck visit c value m key seen hr hv hc hl hm hk = elim hr [ ]
steps-Good w all (err e) visit c value m key seen hr hv hc hl hm hk =
    Good-bind (λ b. Unit) (Grows w seen) c _ hc
      (λ b _.
        Good-if _ _ _ b
          (Good-bind (Grows w seen) (Grows w seen) value _ hl (λ mid g.
            Good-bind (λ k. Unit) (Grows w seen) m _ hm
              (λ k _.
                Good-if _ _ _ k
                  (Good-weaken (Grows w mid) (Grows w seen) (key mid) (hk mid g)
                    (λ t h. Grows-trans w seen mid t g h))
                  g)))
          (Grows-refl w seen))

-- The structs of the list that are not seen yet.
abbrev unseen : List StructDescriptor → List StructDescriptor → ℕ
unseen [] seen = 0
unseen (u ∷ us) seen = let rest = unseen us seen in if visited u seen then rest else suc rest

unseen-length : (us seen : List StructDescriptor) → unseen us seen ≤ length us
unseen-length [] seen = omega arith
unseen-length (u ∷ us) seen = elim (Bool-cases (visited u seen)) [
  | inl e ↦ rw e (omega (arith, unseen-length us seen))
  | inr e ↦ rw e (omega (arith, unseen-length us seen))
]

unseen-Grows :
    (w : World) (us r s : List StructDescriptor) → Grows w r s → unseen us s ≤ unseen us r
unseen-Grows w [] r s g = omega arith
unseen-Grows w (u ∷ us) r s g = elim (Bool-cases (visited u r)) [
  | inl e ↦ rw (e, g.keeps u e) (unseen-Grows w us r s g)
  | inr e ↦ elim (Bool-cases (visited u s)) [
    | inl k ↦ rw (e, k) (omega (arith, unseen-Grows w us r s g))
    | inr k ↦ rw (e, k) (omega (arith, unseen-Grows w us r s g))
  ]
]

unseen-cons :
    (w : World) (us : List StructDescriptor) (sd : StructDescriptor) (seen : List StructDescriptor)
    → Memᴰ sd us
    → visited sd seen ≡ false
    → unseen us (sd ∷ seen) < unseen us seen
unseen-cons w [] sd seen m h = elim m [ ]
unseen-cons w (u ∷ us) sd seen (head same) h =
    let new : visited u seen ≡ false = subst (λ x. visited x seen ≡ false) same h in
    let old : visited u (sd ∷ seen) ≡ true =
      subst (λ x. visited x (sd ∷ seen) ≡ true) same (visited_self sd seen) in
    rw (new, old) (omega (arith, unseen-Grows w us seen (sd ∷ seen) (Grows-cons w sd seen)))
unseen-cons w (u ∷ us) sd seen (tail m) h = elim (Bool-cases (visited u seen)) [
  | inl e ↦ rw (e, (Grows-cons w sd seen).keeps u e) (unseen-cons w us sd seen m h)
  | inr e ↦ elim (Bool-cases (visited u (sd ∷ seen))) [
    | inl k ↦ rw (e, k) (omega (arith, unseen-cons w us sd seen m h))
    | inr k ↦ rw (e, k) (omega (arith, unseen-cons w us sd seen m h))
  ]
]

module _ (w : World) (fuel : ℕ) (all : List StructDescriptor)
    (visit : StructDescriptor → List StructDescriptor → Result (List StructDescriptor))
    (known : (td : TypeDescriptor) → Good (λ st. Memᴰ st all) (type_struct w td))
    (good : (sd : StructDescriptor) (seen : List StructDescriptor)
      → Memᴰ sd all
      → unseen all seen < fuel
      → Good (Grows w seen) (visit sd seen)) where
  from_type-Good :
      (td : TypeDescriptor) (seen : List StructDescriptor)
      → unseen all seen < fuel
      → Good (Grows w seen) (from_type w visit td seen)
  unfolding from_type is_struct
  from_type-Good nil seen h = tt
  from_type-Good (type_descriptor filepath name k v extra) seen h =
      let td = type_descriptor filepath name k v extra in
      steps-Good w all (type_struct w td) (λ st. visit st seen) (is_container td)
        (from_type w visit v seen) (is_map td) (from_type w visit k) seen (known td)
        (λ st m. good st seen m h) (is_container-Good td) (from_type-Good v seen h) (is_map-Good td)
        (λ mid g. from_type-Good k mid (let less = unseen-Grows w all seen mid g in omega arith))

  from_types-Good :
      (tds : List TypeDescriptor) (seen : List StructDescriptor)
      → unseen all seen < fuel
      → Good (Grows w seen) (from_types w visit tds seen)
  unfolding from_types
  from_types-Good [] seen h = Grows-refl w seen
  from_types-Good (td ∷ tds) seen h =
      Good-bind (Grows w seen) (Grows w seen) (from_type w visit td seen) _
        (from_type-Good td seen h)
        (λ mid g.
          Good-weaken (Grows w mid) (Grows w seen) (from_types w visit tds mid)
            (from_types-Good tds mid (let less = unseen-Grows w all seen mid g in omega arith))
            (λ t k. Grows-trans w seen mid t g k))

from_struct-Good :
    (w : World) (all : List StructDescriptor) (fuel : ℕ)
    → ((td : TypeDescriptor) → Good (λ st. Memᴰ st all) (type_struct w td))
    → (sd : StructDescriptor) (seen : List StructDescriptor) → Memᴰ sd all
    → unseen all seen < fuel
    → Good (Grows w seen) (from_struct w fuel sd seen)
unfolding from_struct
from_struct-Good w all zero known sd seen m h = let never : ⊥ = omega arith in elim never [ ]
from_struct-Good w all (suc fuel) known sd seen m h = elim (Bool-cases (visited sd seen)) [
  | inl old ↦ rw old (Grows-refl w seen)
  | inr new ↦ rw new (
      Good-weaken (Grows w (sd ∷ seen)) (Grows w seen) _
        (from_types-Good w fuel all (from_struct w fuel) known
          (λ st l k less. from_struct-Good w all fuel known st l k less) (field_types sd.fields)
          (sd ∷ seen) (omega (arith, unseen-cons w all sd seen m new)))
        (λ t g. Grows-trans w seen (sd ∷ seen) t (Grows-cons w sd seen) g))
]

-- LookupIncludedStructsFromStruct ends, however the structs refer to each other: nested calls for
-- each registered struct, and two more, are enough.
pub lookup_included_from_struct-ends :
    (w : World) (gd : Option GlobalDescriptor) (fuel : ℕ) (sd : StructDescriptor)
    → 2 + length (all_structs w) ≤ fuel
    → lookup_included_from_struct w gd fuel sd ≢ stuck
unfolding lookup_included_from_struct
lookup_included_from_struct-ends w none fuel sd h = λ e. cc
lookup_included_from_struct-ends w (some gd) fuel sd h =
    let all = sd ∷ all_structs w in
    Good-not_stuck (Grows w []) (from_struct w fuel sd []) (
      from_struct-Good w all fuel
        (λ td.
          Good-weaken (λ st. Memᴰ st (all_structs w)) (λ st. Memᴰ st all) (type_struct w td)
            (type_struct-Good w td) (λ st m. tail m))
        sd [] (head refl) (omega (arith, unseen-length all [])))
