-- ===== src/Semantic/Lookup/Finds.antt =====
-- In a file that the checks accept, each declaration is found under its name.
use thriftgo.Prelude.{
  ◌≡◌, ◌≢◌, refl, sym, ap, subst, Bool, none, some, List, [], ◌∷◌, ◌++◌, map, String, Bool-cases,
  inl, inr, ◌∙◌,
}
use mathlib.Core.List.{Memᴰ}
use mathlib.Core.List.Memᴰ.{head, tail}
use thriftgo.Prelude.Names.{string_eq, Absent, Distinct}
use thriftgo.Semantic.Ast.{StructLike, Service, Thrift, get_struct_likes}
use thriftgo.Semantic.Checker.{check_file}
use thriftgo.Semantic.Checker.Accepts.{file_iff}
use thriftgo.Semantic.Lookup.{first_named, get_struct, get_union, get_exception, get_service}

module _ {ℓ} {A : Type ℓ} where
  Absent-left : (a : A) (xs ys : List A) → Absent a (xs ++ ys) → Absent a xs
  Absent-left a [] ys h = tt
  Absent-left a (x ∷ xs) ys h = (h.0, Absent-left a xs ys h.1)

  Distinct-left : (xs ys : List A) → Distinct (xs ++ ys) → Distinct xs
  Distinct-left [] ys h = tt
  Distinct-left (x ∷ xs) ys h = (Absent-left x xs ys h.0, Distinct-left xs ys h.1)

  Distinct-right : (xs ys : List A) → Distinct (xs ++ ys) → Distinct ys
  Distinct-right [] ys h = h
  Distinct-right (x ∷ xs) ys h = Distinct-right xs ys h.1

module _ {A : Type 0} (name : A → String) where
  names-append : (xs ys : List A) → map name (xs ++ ys) ≡ map name xs ++ map name ys
  names-append [] ys = refl
  names-append (x ∷ xs) ys = ap (λ l. name x ∷ l) (names-append xs ys)

  Absent-mem : (x : String) (a : A) (l : List A) → Memᴰ a l → Absent x (map name l) → x ≢ name a
  Absent-mem x a [] m h = elim m [ ]
  Absent-mem x a (y ∷ l) (head e) h = λ k. h.0 (k ∙ ap name e)
  Absent-mem x a (y ∷ l) (tail m) h = Absent-mem x a l m h.1

  first_named-mem :
      (a : A) (l : List A) → Memᴰ a l → Distinct (map name l) → first_named name (name a) l ≡ some a
  unfolding first_named
  first_named-mem a [] m h = elim m [ ]
  first_named-mem a (y ∷ l) (head e) h =
      rw ((string_eq.same_iff (name y) (name a)).1 (ap name (sym e)), first_named) (ap some (sym e))
  first_named-mem a (y ∷ l) (tail m) h = elim (Bool-cases (string_eq.same (name y) (name a))) [
    | inl k ↦ elim (Absent-mem (name y) a l m h.0 ((string_eq.same_iff (name y) (name a)).0 k)) [ ]
    | inr k ↦ rw (k, first_named) (first_named-mem a l m h.1)
  ]

module _ {Expr : Type 0} where
  -- Where the checks of a file return no error, GetStruct, GetUnion, GetException and GetService
  -- find each struct, union, exception and service of the file under its name.
  pub check_file-finds :
      (fix : Bool) (t : Thrift Expr)
      → (check_file fix t).0.1 ≡ none
      → ((s : StructLike Expr) → Memᴰ s t.structs → get_struct s.name t ≡ some s)
        × ((s : StructLike Expr) → Memᴰ s t.unions → get_union s.name t ≡ some s)
        × ((s : StructLike Expr) → Memᴰ s t.exceptions → get_exception s.name t ≡ some s)
        × ((s : Service Expr) → Memᴰ s t.services → get_service s.name t ≡ some s)
  unfolding get_struct get_union get_exception get_service
  check_file-finds fix t h =
      let all = ((file_iff fix t).0 h).0 in
      let rest = Distinct-right t.constants _ (Distinct-right t.typedefs _ all) in
      let likes =
        Distinct-left (map (λ s. s.name) (get_struct_likes t)) (map (λ s. s.name) t.services)
          rest in
      let parts =
        subst Distinct (names-append (λ s. s.name) t.structs (t.unions ++ t.exceptions)) likes in
      let others =
        subst Distinct (names-append (λ s. s.name) t.unions t.exceptions)
          (Distinct-right (map (λ s. s.name) t.structs) _ parts) in
      (
        (λ s m. first_named-mem (λ s. s.name) s t.structs m (Distinct-left _ _ parts)),
        (λ s m. first_named-mem (λ s. s.name) s t.unions m (Distinct-left _ _ others)),
        (λ s m.
            first_named-mem (λ s. s.name) s t.exceptions m
              (Distinct-right (map (λ s. s.name) t.unions) _ others)),
        (λ s m.
            first_named-mem (λ s. s.name) s t.services m
              (Distinct-right (map (λ s. s.name) (get_struct_likes t)) _ rest)),
      )
