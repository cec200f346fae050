-- ===== src/Namespace/Maps.antt =====
-- Go's map[string]string, the entry that was set last first.
use thriftgo.Prelude.{
  if◌then◌else◌, ◌≡◌, ◌≢◌, refl, true, Option, none, some, List, [], ◌∷◌, String, Bool-cases, inl,
  inr,
}
use thriftgo.Prelude.Names.{string_eq}

abbrev pub Table : Type 0
Table = List (String × String)

-- `v, exist := m[k]`
unfoldable pub lookup : String → Table → Option String
lookup k [] = none
lookup k ((j, v) ∷ m) = let rest = lookup k m in if string_eq.same k j then some v else rest

-- `m[k] = v`
abbrev pub set : String → String → Table → Table
set k v m = (k, v) ∷ m

-- The value of `m[k]`, which is empty on a missing key.
abbrev pub or_empty : Option String → String
or_empty none = ""
or_empty (some v) = v

pub lookup-set : (k v : String) (m : Table) → lookup k (set k v m) ≡ some v
unfolding lookup
lookup-set k v m = let e : string_eq.same k k ≡ true = (string_eq.same_iff k k).1 refl in rw e refl

pub lookup-set_other : (k j v : String) (m : Table) → k ≢ j → lookup k (set j v m) ≡ lookup k m
unfolding lookup
lookup-set_other k j v m n = elim (Bool-cases (string_eq.same k j)) [
  | inl e ↦ elim (n ((string_eq.same_iff k j).0 e)) [ ]
  | inr e ↦ rw e refl
]
