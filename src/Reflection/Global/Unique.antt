-- ===== src/Reflection/Global/Unique.antt =====
-- A lookup over all files does not depend on their order where one definition has the name.
use thriftgo.Prelude.{◌≡◌, ◌⊎◌, refl, subst, Option, none, some, [], ◌∷◌, inl, inr}
use mathlib.Core.List.{Memᴰ}
use mathlib.Core.List.Memᴰ.{head, tail}
use thriftgo.Prelude.Bytes.{Bytes}
use thriftgo.Go.Outcome.{ok}
use thriftgo.Reflection.Descriptors.{Dict, FileDescriptor, GlobalDescriptor, Result}
use thriftgo.Reflection.Global.{over_files, lookup_in}

module _ {A : Type 0} (look : Option FileDescriptor → Result (Option A)) (a : A) where
  -- What the file has under the name, if anything, is `a`.
  abbrev pub AtMost : Bytes × FileDescriptor → Type 0
  AtMost file = (look (some file.1) ≡ ok none) ⊎ (look (some file.1) ≡ ok (some a))

  over_files_unique :
      (files : Dict FileDescriptor) (file : Bytes × FileDescriptor)
      → ((f : Bytes × FileDescriptor) → Memᴰ f files → AtMost f)
      → Memᴰ file files
      → look (some file.1) ≡ ok (some a)
      → over_files look files ≡ ok (some a)
  unfolding over_files
  over_files_unique [] file all m h = elim m [ ]
  over_files_unique ((p, fd) ∷ files) file all (head e) h =
      let here : look (some fd) ≡ ok (some a) = subst (λ f. look (some f.1) ≡ ok (some a)) e h in
      rw here refl
  over_files_unique ((p, fd) ∷ files) file all (tail m) h = elim (all (p, fd) (head refl)) [
    | inl missing ↦ rw missing (over_files_unique files file (λ f k. all f (tail k)) m h)
    | inr hit ↦ rw hit refl
  ]

-- A lookup without a path finds the one definition that the files have under the name, in
-- whatever order it goes over them.
pub lookup_in_unique :
    {A : Type 0} (look : Option FileDescriptor → Result (Option A)) (a : A) (gd : GlobalDescriptor)
    (file : Bytes × FileDescriptor)
    → ((f : Bytes × FileDescriptor) → Memᴰ f gd.global_fd → AtMost look a f)
    → Memᴰ file gd.global_fd
    → look (some file.1) ≡ ok (some a)
    → lookup_in look (some gd) [] ≡ ok (some a)
unfolding lookup_in
lookup_in_unique look a gd file all m h = over_files_unique look a gd.global_fd file all m h
