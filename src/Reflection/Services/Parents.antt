-- ===== src/Reflection/Services/Parents.antt =====
-- The methods of a service are those of the services that it extends, itself first.
use thriftgo.Prelude.{
  ℕ, zero, suc, ◌<◌, ◌≡◌, ◌≢◌, ◌⊎◌, refl, sym, subst, ◌∙◌, ap, List, Option, none, some, [], ◌∷◌,
  ◌++◌, length, append-nil, append_assoc, Bool-cases, inl, inr, arith, Bool,
}
use thriftgo.Prelude.Bytes.{Bytes, bytes_eq}
use thriftgo.Go.Outcome.{ok, err, panic, stuck, ◌>>=◌}
use thriftgo.Reflection.Descriptors.{MethodDescriptor, ServiceDescriptor, World, Result}
use thriftgo.Reflection.Files.{named, first_with, method_among}
use thriftgo.Reflection.Services.{
  get_parent, methods_from, get_all_methods, get_method_by_name_from_all,
}

-- The services that a service extends, the nearest first, up to one that extends none.
pub data Parents (w : World) : ServiceDescriptor → List ServiceDescriptor → Type 0 where
  top : {s : ServiceDescriptor} → get_parent w s ≡ ok none → Parents w s []
  over :
      {s p : ServiceDescriptor} {l : List ServiceDescriptor}
      → get_parent w s ≡ ok (some p)
      → Parents w p l
      → Parents w s (p ∷ l)

abbrev pub methods_of : List ServiceDescriptor → List MethodDescriptor
methods_of [] = []
methods_of (s ∷ l) = s.methods ++ methods_of l

methods_from-Parents :
    (w : World) (s : ServiceDescriptor) (l : List ServiceDescriptor) (fuel : ℕ)
    (acc : List MethodDescriptor)
    → Parents w s l
    → length l < fuel
    → methods_from w fuel (some s) acc ≡ ok (acc ++ methods_of (s ∷ l))
unfolding methods_from
methods_from-Parents w s l zero acc c h = let never : ⊥ = omega arith in elim never [ ]
methods_from-Parents w s [] (suc fuel) acc (top e) h =
    rw e (ap (λ m. ok (acc ++ m)) (sym (append-nil s.methods)))
methods_from-Parents w s (p ∷ l) (suc fuel) acc (over e c) h = rw e (
    methods_from-Parents w p l fuel (acc ++ s.methods) c (omega arith)
    ∙ ap ok (append_assoc acc s.methods (methods_of (p ∷ l))))

first_with-append :
    {A : Type 0} (test : A → Bool) (l k : List A) (o : Option A)
    → first_with test k ≡ o
    → first_with test (l ++ k) ≡ elim (first_with test l) [ some a ↦ some a | none ↦ o ]
unfolding first_with
first_with-append test [] k o h = h
first_with-append test (a ∷ l) k o h = elim (Bool-cases (test a)) [
  | inl e ↦ rw e refl
  | inr e ↦ rw e (first_with-append test l k o h)
]

named-methods_of :
    (name : Bytes) (l : List ServiceDescriptor)
    → named (λ (m : MethodDescriptor). m.name) name (methods_of l) ≡ method_among name l
unfolding named method_among first_with
named-methods_of name [] = refl
named-methods_of name (s ∷ l) =
    first_with-append (λ (m : MethodDescriptor). bytes_eq.same m.name name) s.methods (methods_of l)
      (method_among name l) (named-methods_of name l)

-- Where the parents of a service end, as many rounds as it has parents, and one more, are enough
-- for GetAllMethods: it returns the methods of the service and of its parents, the nearest first.
pub get_all_methods-Parents :
    (w : World) (s : ServiceDescriptor) (l : List ServiceDescriptor) (fuel : ℕ)
    → Parents w s l
    → length l < fuel
    → get_all_methods w fuel s ≡ ok (methods_of (s ∷ l))
unfolding get_all_methods
get_all_methods-Parents w s l fuel c h = methods_from-Parents w s l fuel [] c h

-- Where the parents of a service end, and with more rounds than it has parents,
-- GetMethodByNameFromAll finds the first method of that name in the nearest of the service and its
-- parents that has one, and none if none has.
pub get_method_by_name_from_all-Parents :
    (w : World) (s : ServiceDescriptor) (l : List ServiceDescriptor) (fuel : ℕ) (name : Bytes)
    → Parents w s l
    → length l < fuel
    → get_method_by_name_from_all w fuel s name ≡ ok (method_among name (s ∷ l))
unfolding get_method_by_name_from_all
get_method_by_name_from_all-Parents w s l fuel name c h =
    rw (get_all_methods-Parents w s l fuel c h) (ap ok (named-methods_of name (s ∷ l)))

parent-cases :
    (r : Result (Option ServiceDescriptor))
    → (r ≡ ok none)
      ⊎ ((p : ServiceDescriptor) × (r ≡ ok (some p)))
      ⊎ ((f : Option ServiceDescriptor → Result (List MethodDescriptor)) (a : List MethodDescriptor)
          → (r >>= f) ≢ ok a)
parent-cases (ok none) = inl refl
parent-cases (ok (some p)) = inr (inl (p, refl))
parent-cases (err e) = inr (inr (λ f a k. cc))
parent-cases panic = inr (inr (λ f a k. cc))
parent-cases stuck = inr (inr (λ f a k. cc))

methods_from-returns :
    (w : World) (fuel : ℕ) (s : ServiceDescriptor) (acc ms : List MethodDescriptor)
    → methods_from w fuel (some s) acc ≡ ok ms
    → (l : List ServiceDescriptor) × Parents w s l × (length l < fuel)
unfolding methods_from
methods_from-returns w zero s acc ms h = let never : ⊥ = cc in elim never [ ]
methods_from-returns w (suc fuel) s acc ms h = elim (parent-cases (get_parent w s)) [
  | inl e ↦ ([], top e, omega arith)
  | inr (inl (p, e)) ↦
      let (l, c, shorter) = methods_from-returns w fuel p (acc ++ s.methods) ms (rw e at h) in
      (p ∷ l, over e c, omega arith)
  | inr (inr never) ↦ elim (never _ ms h) [ ]
]

-- Where GetAllMethods returns a list within a number of rounds, the parents of the service end, they
-- are fewer than the rounds, and the list is that of the methods of the service and its parents.
pub get_all_methods-returns :
    (w : World) (s : ServiceDescriptor) (fuel : ℕ) (ms : List MethodDescriptor)
    → get_all_methods w fuel s ≡ ok ms
    → (l : List ServiceDescriptor) × Parents w s l × (length l < fuel) × (ms ≡ methods_of (s ∷ l))
unfolding get_all_methods
get_all_methods-returns w s fuel ms h =
    let (l, c, shorter) = methods_from-returns w fuel s [] ms h in
    let whole = get_all_methods-Parents w s l fuel c shorter in (l, c, shorter, cc)

-- The services above a service: its parent, the parent of that, and so on.
pub data Ancestor (w : World) : ServiceDescriptor → ServiceDescriptor → Type 0 where
  direct : {s p : ServiceDescriptor} → get_parent w s ≡ ok (some p) → Ancestor w s p
  beyond :
      {s p a : ServiceDescriptor} → get_parent w s ≡ ok (some p) → Ancestor w p a → Ancestor w s a

methods_from-Ancestor :
    (w : World) (fuel : ℕ) (s a : ServiceDescriptor) (acc : List MethodDescriptor)
    → Ancestor w s a
    → Ancestor w a a
    → methods_from w fuel (some s) acc ≡ stuck
unfolding methods_from
methods_from-Ancestor w zero s a acc up circle = refl
methods_from-Ancestor w (suc fuel) s a acc (direct e) circle =
    rw e (methods_from-Ancestor w fuel a a (acc ++ s.methods) circle circle)
methods_from-Ancestor w (suc fuel) s a acc (beyond {p = p} e up) circle =
    rw e (methods_from-Ancestor w fuel p a (acc ++ s.methods) up circle)

-- For a service that is among its own parents, or that has such a service among its parents,
-- GetAllMethods and GetMethodByNameFromAll do not end: no number of rounds is enough.
pub get_all_methods-Ancestor :
    (w : World) (s a : ServiceDescriptor) (fuel : ℕ) (name : Bytes)
    → Ancestor w a a
    → (s ≡ a) ⊎ Ancestor w s a
    → (get_all_methods w fuel s ≡ stuck) × (get_method_by_name_from_all w fuel s name ≡ stuck)
unfolding get_all_methods get_method_by_name_from_all
get_all_methods-Ancestor w s a fuel name circle above =
    let up : Ancestor w s a = elim above [
      | inl same ↦ subst (λ x. Ancestor w x a) (sym same) circle
      | inr far ↦ far
    ] in
    let endless = methods_from-Ancestor w fuel s a [] up circle in
    (endless, rw (endless, get_all_methods) refl)
