-- ===== src/Reflection/Files/Registry.antt =====
-- A struct that is found by its name is one of a registered file.
use thriftgo.Prelude.{
  ℕ, ◌≡◌, refl, sym, subst, List, Option, none, some, Bool, [], ◌∷◌, ◌++◌, List-cases, Bool-cases,
  inl, inr,
}
use mathlib.Core.List.{Memᴰ}
use mathlib.Core.List.Memᴰ.{head, tail}
use thriftgo.Prelude.Bytes.{Bytes, bytes_eq}
use thriftgo.Reflection.Alias.{parse_alias}
use thriftgo.Reflection.Descriptors.{
  Dict, dict_get, or_empty, uuid_key, StructDescriptor, FileDescriptor, GlobalDescriptor, World,
  get_global,
}
use thriftgo.Reflection.Files.{first_with, named, lookup_fd, get_include_fd, get_struct_descriptor}
use thriftgo.Reflection.Files.Locate.{in_file, locate, get_descriptor-locate}
use thriftgo.Go.Outcome.{ok}

module _ {A : Type 0} where
  Memᴰ-left : (a : A) (xs ys : List A) → Memᴰ a xs → Memᴰ a (xs ++ ys)
  Memᴰ-left a [] ys m = elim m [ ]
  Memᴰ-left a (x ∷ xs) ys (head e) = head e
  Memᴰ-left a (x ∷ xs) ys (tail m) = tail (Memᴰ-left a xs ys m)

  Memᴰ-right : (a : A) (xs ys : List A) → Memᴰ a ys → Memᴰ a (xs ++ ys)
  Memᴰ-right a [] ys m = m
  Memᴰ-right a (x ∷ xs) ys m = tail (Memᴰ-right a xs ys m)

  pub first_with-mem :
      (test : A → Bool) (l : List A) (a : A) → first_with test l ≡ some a → Memᴰ a l
  unfolding first_with
  first_with-mem test [] a h = let never : ⊥ = cc in elim never [ ]
  first_with-mem test (x ∷ l) a h = elim (Bool-cases (test x)) [
    | inl e ↦ let k = rw e at h in head (let same : a ≡ x = cc in same)
    | inr e ↦ tail (first_with-mem test l a (rw e at h))
  ]

abbrev pub file_structs : Dict FileDescriptor → List StructDescriptor
file_structs [] = []
file_structs ((path, fd) ∷ files) = fd.structs ++ file_structs files

abbrev pub global_structs : Dict GlobalDescriptor → List StructDescriptor
global_structs [] = []
global_structs ((uuid, gd) ∷ globals) = file_structs gd.global_fd ++ global_structs globals

-- The structs of all files of all global descriptors.
abbrev pub all_structs : World → List StructDescriptor
all_structs w = file_structs w.default_global.global_fd ++ global_structs w.global_map

record Within (fd : FileDescriptor) (l : List StructDescriptor) : Type 0 where
  within : (s : StructDescriptor) → Memᴰ s fd.structs → Memᴰ s l

dict_get-Within :
    (path : Bytes) (files : Dict FileDescriptor) (fd : FileDescriptor)
    → dict_get path files ≡ some fd
    → Within fd (file_structs files)
dict_get-Within path [] fd h = let never : ⊥ = cc in elim never [ ]
dict_get-Within path ((p, f) ∷ files) fd h = elim (Bool-cases (bytes_eq.same path p)) [
  | inl e ↦
      let k = rw e at h in
      let same : f ≡ fd = cc in
      record {
        within = λ s m.
            Memᴰ-left s f.structs (file_structs files) (subst (λ x. Memᴰ s x.structs) (sym same) m);
      }
  | inr e ↦
      let rest = dict_get-Within path files fd (rw e at h) in
      record { within = λ s m. Memᴰ-right s f.structs (file_structs files) (rest.within s m) }
]

dict_get-global :
    (uuid path : Bytes) (globals : Dict GlobalDescriptor) (fd : FileDescriptor)
    → lookup_fd (dict_get uuid globals) path ≡ some fd
    → Within fd (global_structs globals)
unfolding lookup_fd
dict_get-global uuid path [] fd h = let never : ⊥ = cc in elim never [ ]
dict_get-global uuid path ((u, gd) ∷ globals) fd h = elim (Bool-cases (bytes_eq.same uuid u)) [
  | inl e ↦
      let here = dict_get-Within path gd.global_fd fd (rw (e, lookup_fd) at h) in
      record {
        within = λ s m.
            Memᴰ-left s (file_structs gd.global_fd) (global_structs globals) (here.within s m);
      }
  | inr e ↦
      let rest = dict_get-global uuid path globals fd (rw (e, lookup_fd) at h) in
      record {
        within = λ s m.
            Memᴰ-right s (file_structs gd.global_fd) (global_structs globals) (rest.within s m);
      }
]

lookup_fd-Within :
    (w : World) (extra : Dict Bytes) (path : Bytes) (fd : FileDescriptor)
    → lookup_fd (get_global w extra) path ≡ some fd
    → Within fd (all_structs w)
unfolding get_global lookup_fd
lookup_fd-Within w extra path fd h =
    let default = file_structs w.default_global.global_fd in
    elim (List-cases (or_empty (dict_get uuid_key extra))) [
      | inl e ↦
          let here = dict_get-Within path w.default_global.global_fd fd (rw (e, get_global) at h) in
          record {
            within = λ s m. Memᴰ-left s default (global_structs w.global_map) (here.within s m);
          }
      | inr (b, uuid, e) ↦
          let there = dict_get-global (b ∷ uuid) path w.global_map fd (rw (e, get_global) at h) in
          record {
            within = λ s m. Memᴰ-right s default (global_structs w.global_map) (there.within s m);
          }
    ]

get_include_fd-Within :
    (w : World) (f : FileDescriptor) (c : ℕ) (alias : Bytes) (g : FileDescriptor)
    → get_include_fd w (some f) (c ∷ alias) ≡ some g
    → Within g (all_structs w)
unfolding get_include_fd
get_include_fd-Within w f c alias g h =
    elim (List-cases (or_empty (dict_get (c ∷ alias) f.includes))) [
      | inl e ↦ let k = rw (e, get_include_fd) at h in let never : ⊥ = cc in elim never [ ]
      | inr (b, path, e) ↦ lookup_fd-Within w f.extra (b ∷ path) g (rw (e, get_include_fd) at h)
    ]

abbrev struct_named : FileDescriptor → Bytes → Option StructDescriptor
struct_named fd n = named (λ (s : StructDescriptor). s.name) n fd.structs

named-Within :
    (w : World) (f : FileDescriptor) (name : Bytes) (s : StructDescriptor)
    → Within f (all_structs w)
    → struct_named f name ≡ some s
    → Memᴰ s (all_structs w)
unfolding named
named-Within w f name s i h =
    i.within s (first_with-mem (λ (x : StructDescriptor). bytes_eq.same x.name name) f.structs s h)

in_file-mem :
    (w : World) (f : Option FileDescriptor) (name : Bytes) (s : StructDescriptor)
    → ((g : FileDescriptor) → f ≡ some g → Within g (all_structs w))
    → in_file w struct_named f name ≡ some s
    → Memᴰ s (all_structs w)
in_file-mem w none name s i h = let never : ⊥ = cc in elim never [ ]
in_file-mem w (some f) [] s i h = let never : ⊥ = cc in elim never [ ]
in_file-mem w (some f) (c ∷ name) s i h = named-Within w f (c ∷ name) s (i f refl) h

locate-mem :
    (w : World) (f : Option FileDescriptor) (name : Bytes) (s : StructDescriptor)
    → ((g : FileDescriptor) → f ≡ some g → Within g (all_structs w))
    → locate w struct_named f name ≡ some s
    → Memᴰ s (all_structs w)
unfolding locate
locate-mem w none name s i h = let never : ⊥ = cc in elim never [ ]
locate-mem w (some f) [] s i h = let never : ⊥ = cc in elim never [ ]
locate-mem w (some f) (c ∷ name) s i h =
    let real = (parse_alias (c ∷ name)).1 in
    elim (List-cases (parse_alias (c ∷ name)).0) [
      | inl e ↦ named-Within w f real s (i f refl) (rw (e, locate) at h)
      | inr (b, alias, e) ↦
          in_file-mem w (get_include_fd w (some f) (b ∷ alias)) real s
            (get_include_fd-Within w f b alias) (rw (e, locate) at h)
    ]

-- GetStructDescriptor returns, without an error, a registered struct or none.
pub get_struct_descriptor-mem :
    (w : World) (extra : Dict Bytes) (path name : Bytes)
    → (o : Option StructDescriptor) × (get_struct_descriptor w
          (lookup_fd (get_global w extra) path)
          name
        ≡ ok o)
      × ((s : StructDescriptor) → o ≡ some s → Memᴰ s (all_structs w))
unfolding get_struct_descriptor
get_struct_descriptor-mem w extra path name =
    let f = lookup_fd (get_global w extra) path in
    (
      locate w struct_named f name,
      get_descriptor-locate w struct_named f name,
      (λ s e. locate-mem w f name s (lookup_fd-Within w extra path) e),
    )
