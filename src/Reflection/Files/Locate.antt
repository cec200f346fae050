-- ===== src/Reflection/Files/Locate.antt =====
-- The recursion of getDescriptor takes two rounds: the name that ParseAlias returns has no dot.
use thriftgo.Prelude.{
  ℕ, suc, ◌≡◌, refl, ap, Option, none, some, false, [], ◌∷◌, length, List-cases, Option-cases, inl,
  inr, arith,
}
use thriftgo.Prelude.Bytes.{Bytes, has_byte}
use thriftgo.Go.Outcome.{ok}
use thriftgo.Reflection.Alias.{parse_alias, parse_alias-name, parse_alias-append, dot}
use thriftgo.Reflection.Descriptors.{FileDescriptor, World}
use thriftgo.Reflection.Files.{get_include_fd, descend, get_descriptor}

module _ (w : World) {A : Type 0} (look : FileDescriptor → Bytes → Option A) where
  -- The definition of that name in the file; the empty name has none.
  abbrev pub in_file : Option FileDescriptor → Bytes → Option A
  in_file none name = none
  in_file (some f) [] = none
  in_file (some f) (c ∷ name) = look f (c ∷ name)

  -- The definition that a name means in a file: what stands before the last dot is the alias of
  -- an include, and the name behind it is looked up in the included file.
  unfoldable pub locate : Option FileDescriptor → Bytes → Option A
  locate none name = none
  locate (some f) [] = none
  locate (some f) (c ∷ name) =
      let (alias, real) = parse_alias (c ∷ name) in
      elim alias [
        | [] ↦ look f real
        | b ∷ path ↦ in_file (get_include_fd w (some f) (b ∷ path)) real
      ]

  undotted : (name : Bytes) → has_byte dot name ≡ false → parse_alias name ≡ ([], name)
  undotted name h = elim (parse_alias-append name) [
    | inl (e, _) ↦ let never : ⊥ = ground (arith, e, h) in elim never [ ]
    | inr (_, e) ↦ e
  ]

  descend-undotted :
      (fuel : ℕ) (g : FileDescriptor) (name : Bytes)
      → has_byte dot name ≡ false
      → descend w look (suc fuel) (some g) name ≡ ok (in_file (some g) name)
  unfolding descend
  descend-undotted fuel g [] h = refl
  descend-undotted fuel g (c ∷ name) h =
      let plain = undotted (c ∷ name) h in
      rw (ap (λ p. p.0) plain, descend) (ap (λ p. ok (look g p.1)) plain)

  pub descend-locate :
      (fuel : ℕ) (f : Option FileDescriptor) (name : Bytes)
      → descend w look (suc (suc fuel)) f name ≡ ok (locate f name)
  unfolding descend locate
  descend-locate fuel none name = refl
  descend-locate fuel (some f) [] = refl
  descend-locate fuel (some f) (c ∷ name) = elim (List-cases (parse_alias (c ∷ name)).0) [
    | inl e ↦ rw (e, descend, locate) refl
    | inr (b, path, e) ↦ elim (Option-cases (get_include_fd w (some f) (b ∷ path))) [
      | inl missing ↦ rw (e, missing, descend, locate) refl
      | inr (g, found) ↦
          rw (e, found, locate, descend)
            (descend-undotted fuel g (parse_alias (c ∷ name)).1 (parse_alias-name (c ∷ name)))
    ]
  ]

-- getDescriptor ends after two rounds, whatever is included from where: it returns what the name
-- means by its last dot, for each kind of definition.
pub get_descriptor-locate :
    (w : World) {A : Type 0} (look : FileDescriptor → Bytes → Option A) (f : Option FileDescriptor)
    (name : Bytes)
    → get_descriptor w look f name ≡ ok (locate w look f name)
unfolding get_descriptor descend locate
get_descriptor-locate w look none [] = refl
get_descriptor-locate w look (some f) [] = refl
get_descriptor-locate w look f (c ∷ name) = descend-locate w look (length name) f (c ∷ name)
