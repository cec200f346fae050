-- ===== src/Namespace/Tests.antt =====
-- Concrete runs of pkg/namespace/namespace.go.
use Prim.Native.String.{len}
use text.Mathlib.TextPositions.{len-append}
use thriftgo.Prelude.{
  ℕ, zero, suc, ◌+◌, ap, arith, ◌≡◌, refl, inl, true, false, none, some, [], ◌∷◌, String,
}
use thriftgo.Namespace.{
  Namespace, new_namespace, enter, free_name, add, reserve, get, id_of, underscore_suffix,
  underscores,
}
use thriftgo.Namespace.Search.{candidate, add-returns}
use thriftgo.Namespace.Maps.{lookup}
use thriftgo.Namespace.Keeps.{
  IsNamespace, Kept, new_namespace-IsNamespace, reserve-IsNamespace, enter-IsNamespace,
}

-- "a" is the name of id "1".
abbrev one : Namespace
one = record { name2id = ("a", "1") ∷ []; id2name = ("1", "a") ∷ []; rename = underscore_suffix }

-- "a" is taken, and id "2" is given "a_".
abbrev two : Namespace
two = record {
  name2id = ("a_", "2") ∷ ("a", "1") ∷ [];
  id2name = ("2", "a_") ∷ ("1", "a") ∷ [];
  rename = underscore_suffix;
}

one-IsNamespace : IsNamespace one
unfolding new_namespace enter lookup
one-IsNamespace =
    enter-IsNamespace "a" "1" (new_namespace underscore_suffix)
      (new_namespace-IsNamespace underscore_suffix) (inl refl)

length-underscores : (n : ℕ) → len (underscores n) ≡ n
length-underscores zero = refl
length-underscores (suc n) = omega (arith, len-append "_" (underscores n), length-underscores n)

length-candidate : (i : ℕ) → len (candidate one "a" i) ≡ 1 + i
unfolding underscore_suffix
length-candidate zero = refl
length-candidate (suc i) =
    omega (arith, len-append "a" (underscores (suc i)), length-underscores (suc i))

candidates_differ : (i j : ℕ) → candidate one "a" i ≡ candidate one "a" j → i ≡ j
candidates_differ i j e = omega (arith, length-candidate i, length-candidate j, ap len e)

add-returns_example :
    (result : String) × (ns' : Namespace) × (add 2 "a" "2" one ≡ some (result, ns'))
    × Kept "2" one result ns'
add-returns_example = add-returns 2 "a" "2" one candidates_differ (omega arith) one-IsNamespace

add_example : add 2 "a" "2" one ≡ some ("a_", two)
unfolding add free_name lookup underscore_suffix enter
add_example = refl

reserve-IsNamespace_example :
    ((cur : String) → lookup "b" one.name2id ≡ some cur → reserve "b" "3" one ≡ (false, one))
    × (lookup "b" one.name2id ≡ none
        → (ns' : Namespace) × (reserve "b" "3" one ≡ (true, ns'))
          × IsNamespace ns'
          × (get "3" ns' ≡ "b")
          × (id_of "b" ns' ≡ "3"))
reserve-IsNamespace_example = reserve-IsNamespace "b" "3" one one-IsNamespace
