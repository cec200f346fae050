-- ===== src/Reflection/Files/Meaning.antt =====
-- What a name means in a file of thrift_reflection, told without ParseAlias and GetIncludeFD.
use thriftgo.Prelude.{
  ℕ, suc, ◌≡◌, ◌⊎◌, refl, sym, subst, ap, Option, none, some, false, [], ◌∷◌, ◌++◌, List-cases, inl,
  inr,
}
use thriftgo.Prelude.Bytes.{Bytes, has_byte}
use thriftgo.Go.Outcome.{ok}
use thriftgo.Reflection.Alias.{parse_alias, parse_alias-name, parse_alias-append, dot}
use thriftgo.Reflection.Descriptors.{
  dict_get, or_empty, uuid_key, FileDescriptor, GlobalDescriptor, World, get_global,
}
use thriftgo.Reflection.Files.{lookup_fd, get_include_fd, descend, get_descriptor}
use thriftgo.Reflection.Files.Locate.{in_file, locate, get_descriptor-locate, descend-locate}

-- An entry that is missing and an empty one are the same to the code.
abbrev pub IsBlank : Option Bytes → Type 0
IsBlank o = (o ≡ none) ⊎ (o ≡ some [])

module _ (w : World) (f : FileDescriptor) where
  -- The registry that a file belongs to: that of the uuid among its extra entries, if there is one,
  -- and the default one otherwise.
  pub data Registry : Option GlobalDescriptor → Type 0 where
    common : IsBlank (dict_get uuid_key f.extra) → Registry (some w.default_global)
    own :
        {b : ℕ} {uuid : Bytes}
        → dict_get uuid_key f.extra ≡ some (b ∷ uuid)
        → Registry (dict_get (b ∷ uuid) w.global_map)

  -- The file that an alias stands for: the one that the registry of the including file has under the
  -- path of the include.
  pub data Included (alias : Bytes) : Option FileDescriptor → Type 0 where
    unknown : IsBlank (dict_get alias f.includes) → Included alias none
    unregistered :
        {b : ℕ} {path : Bytes}
        → dict_get alias f.includes ≡ some (b ∷ path)
        → Registry none
        → Included alias none
    registered :
        {b : ℕ} {path : Bytes} {gd : GlobalDescriptor}
        → dict_get alias f.includes ≡ some (b ∷ path)
        → Registry (some gd)
        → Included alias (dict_get (b ∷ path) gd.global_fd)

  or_empty-IsBlank : (o : Option Bytes) → or_empty o ≡ [] → IsBlank o
  or_empty-IsBlank none h = inl refl
  or_empty-IsBlank (some []) h = inr refl
  or_empty-IsBlank (some (b ∷ s)) h = let never : ⊥ = cc in elim never [ ]

  some-or_empty : (o : Option Bytes) (b : ℕ) (s : Bytes) → or_empty o ≡ b ∷ s → o ≡ some (b ∷ s)
  some-or_empty none b s h = let never : ⊥ = cc in elim never [ ]
  some-or_empty (some t) b s h = ap some h

  get_global-Registry : Registry (get_global w f.extra)
  unfolding get_global
  get_global-Registry = elim (List-cases (or_empty (dict_get uuid_key f.extra))) [
    | inl e ↦ rw (e, get_global) (common (or_empty-IsBlank (dict_get uuid_key f.extra) e))
    | inr (b, uuid, e) ↦
        rw (e, get_global) (own (some-or_empty (dict_get uuid_key f.extra) b uuid e))
  ]

  lookup_fd-Included :
      (alias : Bytes) (b : ℕ) (path : Bytes) (g : Option GlobalDescriptor)
      → dict_get alias f.includes ≡ some (b ∷ path)
      → Registry g
      → Included alias (lookup_fd g (b ∷ path))
  unfolding lookup_fd
  lookup_fd-Included alias b path none e r = unregistered e r
  lookup_fd-Included alias b path (some gd) e r = registered e r

  get_include_fd-Included :
      (c : ℕ) (alias : Bytes) → Included (c ∷ alias) (get_include_fd w (some f) (c ∷ alias))
  unfolding get_include_fd
  get_include_fd-Included c alias =
      let entry = dict_get (c ∷ alias) f.includes in
      elim (List-cases (or_empty entry)) [
        | inl e ↦ rw (e, get_include_fd) (unknown (or_empty-IsBlank entry e))
        | inr (b, path, e) ↦
            rw (e, get_include_fd)
              (lookup_fd-Included (c ∷ alias) b path (get_global w f.extra)
                (some-or_empty entry b path e) get_global-Registry)
      ]

module _ (w : World) {A : Type 0} (look : FileDescriptor → Bytes → Option A) where
  -- The definition that a name means in a file.
  pub data Means : Option FileDescriptor → Bytes → Option A → Type 0 where
    no_file : {name : Bytes} → Means none name none
    no_name : {f : FileDescriptor} → Means (some f) [] none
    undotted :
        {f : FileDescriptor} {c : ℕ} {name : Bytes}
        → has_byte dot (c ∷ name) ≡ false
        → Means (some f) (c ∷ name) (look f (c ∷ name))
    -- a dot at the front, and no other
    no_alias :
        {f : FileDescriptor} {real : Bytes}
        → has_byte dot real ≡ false
        → Means (some f) (dot ∷ real) (look f real)
    not_included :
        {f : FileDescriptor} (b : ℕ) (alias real : Bytes)
        → has_byte dot real ≡ false
        → Included w f (b ∷ alias) none
        → Means (some f) (b ∷ alias ++ dot ∷ real) none
    -- a dot at the end
    unnamed :
        {f g : FileDescriptor} (b : ℕ) (alias : Bytes)
        → Included w f (b ∷ alias) (some g)
        → Means (some f) (b ∷ alias ++ dot ∷ []) none
    included :
        {f g : FileDescriptor} (b c : ℕ) (alias real : Bytes)
        → has_byte dot (c ∷ real) ≡ false
        → Included w f (b ∷ alias) (some g)
        → Means (some f) (b ∷ alias ++ dot ∷ c ∷ real) (look g (c ∷ real))

  in_file-Means :
      (f : FileDescriptor) (b : ℕ) (alias real : Bytes) (g : Option FileDescriptor)
      → has_byte dot real ≡ false
      → Included w f (b ∷ alias) g
      → Means (some f) (b ∷ alias ++ dot ∷ real) (in_file w look g real)
  in_file-Means f b alias real none h i = not_included b alias real h i
  in_file-Means f b alias [] (some g) h i = unnamed b alias i
  in_file-Means f b alias (c ∷ real) (some g) h i = included b c alias real h i

  dotted-Means :
      (f : FileDescriptor) (alias real : Bytes)
      → has_byte dot real ≡ false
      → Means (some f) (alias ++ dot ∷ real) (elim alias [
        | [] ↦ look f real
        | b ∷ path ↦ in_file w look (get_include_fd w (some f) (b ∷ path)) real
      ])
  dotted-Means f [] real h = no_alias h
  dotted-Means f (b ∷ path) real h =
      in_file-Means f b path real (get_include_fd w (some f) (b ∷ path)) h
        (get_include_fd-Included w f b path)

  locate-Means : (f : Option FileDescriptor) (name : Bytes) → Means f name (locate w look f name)
  unfolding locate
  locate-Means none name = no_file
  locate-Means (some f) [] = no_name
  locate-Means (some f) (c ∷ name) = elim (parse_alias-append (c ∷ name)) [
    | inl (h, e) ↦
        subst (λ n. Means (some f) n (locate w look (some f) (c ∷ name))) (sym e)
          (dotted-Means f (parse_alias (c ∷ name)).0 (parse_alias (c ∷ name)).1
            (parse_alias-name (c ∷ name)))
    | inr (h, e) ↦ rw (ap (λ p. p.0) e, locate) (rw (ap (λ p. p.1) e) (undotted h))
  ]

  -- getDescriptor ends, and two rounds are enough, whatever is included from where. It returns what
  -- the name means in the file. Of no file, and for an empty name, that is nothing. What stands before
  -- the last dot is an alias: the rest is looked up in the file that the registry of the including
  -- file has under the path of that include, and there is nothing if there is no such file, or no
  -- rest. A name without a dot, or with none but a first one, is looked up in the file itself.
  pub get_descriptor-Means :
      (f : Option FileDescriptor) (name : Bytes) (fuel : ℕ)
      → (o : Option A) × (get_descriptor w look f name ≡ ok o)
        × (descend w look (suc (suc fuel)) f name ≡ ok o)
        × Means f name o
  get_descriptor-Means f name fuel = (
    locate w look f name,
    get_descriptor-locate w look f name,
    descend-locate w look fuel f name,
    locate-Means f name,
  )
