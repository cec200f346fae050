-- ===== src/Namespace.antt =====
-- pkg/namespace/namespace.go: names for ids, without collisions.
pub mod Maps
pub mod Keeps
pub mod Search
mod Tests
use Prim.Native.String.{◌++◌ as ◌<>◌}
use thriftgo.Prelude.{
  ℕ, zero, suc, Bool, true, false, Option, none, some, List, [], ◌∷◌, ◌++◌, String, if◌then◌else◌,
}
use thriftgo.Prelude.Names.{string_eq}
use thriftgo.Go.Outcome.{Outcome, ok, panic}
use thriftgo.Namespace.Maps.{Table, lookup, set, or_empty}

pub record Namespace : Type 0 where
  pub name2id : Table
  pub id2name : Table
  pub rename : String → ℕ → String

-- `strings.Repeat("_", cnt)`
abbrev pub underscores : ℕ → String
underscores zero = ""
underscores (suc n) = "_" <> underscores n

pub underscore_suffix : String → ℕ → String
underscore_suffix name cnt = name <> underscores cnt

pub new_namespace : (String → ℕ → String) → Namespace
new_namespace rename = record { name2id = []; id2name = []; rename = rename }

-- The two assignments with which Reserve and Add end.
pub enter : String → String → Namespace → Namespace
enter name id ns = record ns { name2id = set name id ns.name2id; id2name = set id name ns.id2name }

pub reserve : String → String → Namespace → Bool × Namespace
unfolding enter
reserve name id ns = elim (lookup name ns.name2id) [
  | some cur ↦ (false, ns)
  | none ↦ (true, enter name id ns)
]

-- The error of the panic is left out.
pub must_reserve : String → String → Namespace → Outcome String Namespace
must_reserve name id ns = let (done, ns') = reserve name id ns in if done then ok ns' else panic

pub get : String → Namespace → String
get id ns = or_empty (lookup id ns.id2name)

pub id_of : String → Namespace → String
id_of name ns = or_empty (lookup name ns.name2id)

-- The loop of Add, from the candidate `res`; the first argument is fuel.
pub free_name : ℕ → Namespace → String → String → ℕ → String → Option String
free_name zero ns name id cnt res = none
free_name (suc fuel) ns name id cnt res =
    let next = free_name fuel ns name id (suc cnt) (ns.rename name (suc cnt)) in
    elim (lookup res ns.name2id) [
      | none ↦ some res
      | some cur ↦ if string_eq.same cur id then some res else next
    ]

-- `none` if the fuel does not suffice.
pub add : ℕ → String → String → Namespace → Option (String × Namespace)
add fuel name id ns = elim (free_name fuel ns name id 0 name) [
  | none ↦ none
  | some res ↦ some (res, enter res id ns)
]
