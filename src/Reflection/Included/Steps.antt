-- ===== src/Reflection/Included/Steps.antt =====
-- The cases of one step of the search for included structs.
use thriftgo.Prelude.{◌≡◌, ◌≢◌, ◌⊎◌, refl, List, inl, inr, Bool, true, false, if◌then◌else◌}
use thriftgo.Go.Outcome.{ok, err, panic, stuck, ◌>>=◌}
use thriftgo.Reflection.Descriptors.{TypeDescriptor, StructDescriptor, World, Result}
use thriftgo.Reflection.Types.{found_struct, type_struct, struct_like, is_builtin, is_container}
use thriftgo.Reflection.Included.{}

-- What `if` a struct `then` visit it `else if` a container `then` the elements and the keys does.
module _ (r : Result StructDescriptor) (visit : StructDescriptor → Result (List StructDescriptor))
    (c : Result Bool) (value : Result (List StructDescriptor)) (m : Result Bool)
    (key : List StructDescriptor → Result (List StructDescriptor))
    (seen after : List StructDescriptor) where
  abbrev pub steps : Result (List StructDescriptor)
  steps = found_struct r >>= λ struct.
      if struct
      then r >>= visit
      else c >>= λ container.
          if container
          then value >>= (λ mid. m >>= λ keyed. if keyed then key mid else ok mid)
          else ok seen

  pub record Struct : Type 0 where
    pub target : StructDescriptor
    pub here : r ≡ ok target
    pub called : visit target ≡ ok after

  pub record Plain : Type 0 where
    pub none_there : (st : StructDescriptor) → r ≢ ok st
    pub no_container : c ≡ ok false
    pub same : seen ≡ after

  pub record Container : Type 0 where
    pub none_there : (st : StructDescriptor) → r ≢ ok st
    pub container : c ≡ ok true
    pub middle : List StructDescriptor
    pub elements : value ≡ ok middle
    pub keys : ((m ≡ ok true) × (key middle ≡ ok after)) ⊎ ((m ≡ ok false) × (middle ≡ after))

  abbrev pub Steps : Type 0
  Steps = Struct ⊎ Plain ⊎ Container

pub steps-cases :
    (r : Result StructDescriptor) (visit : StructDescriptor → Result (List StructDescriptor))
    (c : Result Bool) (value : Result (List StructDescriptor)) (m : Result Bool)
    (key : List StructDescriptor → Result (List StructDescriptor))
    (seen after : List StructDescriptor)
    → steps r visit c value m key seen after ≡ ok after
    → Steps r visit c value m key seen after
unfolding found_struct
steps-cases (ok st) visit c value m key seen after h =
    inl (record { target = st; here = refl; called = h })
steps-cases (err e) visit (ok false) value m key seen after h =
    inr (inl (record { none_there = λ st k. cc; no_container = refl; same = cc }))
steps-cases (err e) visit (ok true) (ok mid) (ok true) key seen after h = inr (
    inr (record {
      none_there = λ st k. cc;
      container = refl;
      middle = mid;
      elements = refl;
      keys = inl (refl, h);
    }))
steps-cases (err e) visit (ok true) (ok mid) (ok false) key seen after h = inr (
    inr (record {
      none_there = λ st k. cc;
      container = refl;
      middle = mid;
      elements = refl;
      keys = inr (refl, cc);
    }))
steps-cases (err e) visit (ok true) (ok mid) (err x) key seen after h =
    let never : ⊥ = cc in elim never [ ]
steps-cases (err e) visit (ok true) (ok mid) panic key seen after h =
    let never : ⊥ = cc in elim never [ ]
steps-cases (err e) visit (ok true) (ok mid) stuck key seen after h =
    let never : ⊥ = cc in elim never [ ]
steps-cases (err e) visit (ok true) (err x) m key seen after h =
    let never : ⊥ = cc in elim never [ ]
steps-cases (err e) visit (ok true) panic m key seen after h = let never : ⊥ = cc in elim never [ ]
steps-cases (err e) visit (ok true) stuck m key seen after h = let never : ⊥ = cc in elim never [ ]
steps-cases (err e) visit (err x) value m key seen after h = let never : ⊥ = cc in elim never [ ]
steps-cases (err e) visit panic value m key seen after h = let never : ⊥ = cc in elim never [ ]
steps-cases (err e) visit stuck value m key seen after h = let never : ⊥ = cc in elim never [ ]
steps-cases panic visit c value m key seen after h = let never : ⊥ = cc in elim never [ ]
steps-cases stuck visit c value m key seen after h = let never : ⊥ = cc in elim never [ ]

pub ok-injective : {A : Type 0} {a b : A} → ◌≡◌ {A = Result A} (ok a) (ok b) → a ≡ b
ok-injective h = cc

pub not_both : ◌≡◌ {A = Result Bool} (ok true) (ok false) → ⊥
not_both h = cc

-- A container is no struct.
pub type_struct-is_container :
    (w : World) (td : TypeDescriptor) (st : StructDescriptor)
    → type_struct w td ≡ ok st
    → is_container td ≢ ok true
unfolding type_struct struct_like is_builtin
type_struct-is_container w td st h e = let k = rw e at h in cc
