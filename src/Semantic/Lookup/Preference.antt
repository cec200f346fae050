-- ===== src/Semantic/Lookup/Preference.antt =====
-- GetNamespace prefers the language to "*".
use thriftgo.Prelude.{
  ◌≡◌, refl, Option, none, some, List, [], ◌∷◌, String, if◌then◌else◌, Bool-cases, inl, inr,
}
use thriftgo.Prelude.Names.{string_eq}
use thriftgo.Semantic.Report.{or_else}
use thriftgo.Semantic.Lookup.{NamespaceDecl, first_named, namespace_from, get_namespace}

abbrev pub declared : Option NamespaceDecl → Option String
declared none = none
declared (some n) = some n.name

-- The name of the last declaration for "*", or else what was found before.
abbrev pub last_general : Option String → List NamespaceDecl → Option String
last_general found [] = found
last_general found (n ∷ ns) =
    last_general (if string_eq.same n.language "*" then some n.name else found) ns

from-or_else :
    (lang : String) (ns : List NamespaceDecl) (found : Option String)
    → namespace_from lang found ns
      ≡ or_else (declared (first_named (λ n. n.language) lang ns)) (last_general found ns)
unfolding namespace_from first_named
from-or_else lang [] found = refl
from-or_else lang (n ∷ ns) found = elim (Bool-cases (string_eq.same n.language lang)) [
  | inl e ↦ rw (e, namespace_from, first_named) refl
  | inr e ↦ elim (Bool-cases (string_eq.same n.language "*")) [
    | inl g ↦ rw (e, g, namespace_from, first_named) (from-or_else lang ns (some n.name))
    | inr g ↦ rw (e, g, namespace_from, first_named) (from-or_else lang ns found)
  ]
]

-- GetNamespace returns the name of the first declaration for the language; if there is none, that
-- of the last declaration for "*"; and otherwise nothing.
pub get_namespace-or_else :
    (lang : String) (ns : List NamespaceDecl)
    → get_namespace lang ns
      ≡ or_else (declared (first_named (λ n. n.language) lang ns)) (last_general none ns)
unfolding get_namespace
get_namespace-or_else lang ns = from-or_else lang ns none
