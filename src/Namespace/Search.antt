-- ===== src/Namespace/Search.antt =====
-- The search of Add ends: it passes over a candidate only if the candidate is in the map.
use thriftgo.Prelude.{
  ℕ, zero, suc, ◌+◌, ◌<◌, ◌≤◌, ◌≡◌, ◌≢◌, refl, sym, ◌∙◌, ap, subst, true, false, none, some, List,
  [], ◌∷◌, String, arith, Bool-cases, Option-cases, inl, inr, length,
}
use thriftgo.Prelude.Names.{string_eq, contains}
use thriftgo.Namespace.{Namespace, free_name, add, enter}
use thriftgo.Namespace.Maps.{Table, lookup}
use thriftgo.Namespace.Keeps.{IsNamespace, Kept, add-IsNamespace}

abbrev keys : Table → List String
keys [] = []
keys ((k, v) ∷ m) = k ∷ keys m

length-keys : (m : Table) → length (keys m) ≡ length m
length-keys [] = refl
length-keys (p ∷ m) = ap suc (length-keys m)

lookup-contains : (k v : String) (m : Table) → lookup k m ≡ some v → contains k (keys m) ≡ true
unfolding lookup
lookup-contains k v [] h = ground (arith, h)
lookup-contains k v ((j, w) ∷ m) h = elim (Bool-cases (string_eq.same k j)) [
  | inl e ↦ rw e refl
  | inr e ↦ rw e (lookup-contains k v m (rw e at h))
]

abbrev without : String → List String → List String
without k [] = []
without k (j ∷ l) =
    let rest = without k l in elim (string_eq.same k j) [ true ↦ rest | false ↦ j ∷ rest ]

without-same :
    (k j : String) (l : List String) → string_eq.same k j ≡ true → without k (j ∷ l) ≡ without k l
without-same k j l e = rw (e, without) refl

without-other :
    (k j : String) (l : List String)
    → string_eq.same k j ≡ false
    → without k (j ∷ l) ≡ j ∷ without k l
without-other k j l e = rw (e, without) refl

length-without_le : (k : String) (l : List String) → length (without k l) ≤ length l
length-without_le k [] = omega arith
length-without_le k (j ∷ l) = elim (Bool-cases (string_eq.same k j)) [
  | inl e ↦ omega (arith, length-without_le k l, ap length (without-same k j l e))
  | inr e ↦ omega (arith, length-without_le k l, ap length (without-other k j l e))
]

length-without :
    (k : String) (l : List String) → contains k l ≡ true → length (without k l) < length l
length-without k [] h = ground (arith, h)
length-without k (j ∷ l) h = elim (Bool-cases (string_eq.same k j)) [
  | inl e ↦ omega (arith, length-without_le k l, ap length (without-same k j l e))
  | inr e ↦
      let rest : contains k l ≡ true = ground (arith, e, h) in
      omega (arith, length-without k l rest, ap length (without-other k j l e))
]

contains-without :
    (x k : String) (l : List String) → x ≢ k → contains x l ≡ true → contains x (without k l) ≡ true
contains-without x k [] n h = h
contains-without x k (j ∷ l) n h = elim (Bool-cases (string_eq.same k j)) [
  | inl e ↦
      let other : string_eq.same x j ≡ false = elim (Bool-cases (string_eq.same x j)) [
        | inl y ↦ elim (n ((string_eq.same_iff x j).0 y ∙ sym ((string_eq.same_iff k j).0 e))) [ ]
        | inr y ↦ y
      ] in
      let rest : contains x l ≡ true = ground (arith, other, h) in
      subst (λ m. contains x m ≡ true) (sym (without-same k j l e)) (contains-without x k l n rest)
  | inr e ↦
      subst (λ m. contains x m ≡ true) (sym (without-other k j l e))
        (elim (Bool-cases (string_eq.same x j)) [
          | inl y ↦ rw y refl
          | inr y ↦
              let rest : contains x l ≡ true = ground (arith, y, h) in
              rw y (contains-without x k l n rest)
        ])
]

-- Different candidates that are all in a list are no more than its length.
pigeons :
    (c : ℕ → String)
    → ((i j : ℕ) → c i ≡ c j → i ≡ j)
    → (n first : ℕ) (l : List String) → ((i : ℕ) → i < n → contains (c (first + i)) l ≡ true)
    → n ≤ length l
pigeons c inj zero first l h = omega arith
pigeons c inj (suc n) first l h =
    let same : first + 0 ≡ first = omega arith in
    let here : contains (c first) l ≡ true =
      subst (λ y. contains (c y) l ≡ true) same (h 0 (omega arith)) in
    let shorter = length-without (c first) l here in
    let rest : n ≤ length (without (c first) l) =
      pigeons c inj n (suc first) (without (c first) l) (λ i k.
        contains-without (c (suc first + i)) (c first) l
          (λ e. let bad : suc first + i ≡ first = inj (suc first + i) first e in omega (arith, bad))
          (let step : first + suc i ≡ suc first + i = omega arith in
            subst (λ y. contains (c y) l ≡ true) step (h (suc i) (omega (arith, k))))) in
    omega (arith, shorter, rest)

-- The names that Add tries, in order.
abbrev pub candidate : Namespace → String → ℕ → String
candidate ns name zero = name
candidate ns name (suc k) = ns.rename name (suc k)

from_step :
    {fuel : ℕ} (ns : Namespace) (name : String) (cnt : ℕ)
    → contains (candidate ns name cnt) (keys ns.name2id) ≡ true
    → ((i : ℕ) → i < fuel → contains (candidate ns name (suc cnt + i)) (keys ns.name2id) ≡ true)
    → (i : ℕ) → i < suc fuel
    → contains (candidate ns name (cnt + i)) (keys ns.name2id) ≡ true
from_step ns name cnt here later zero k =
    let step : cnt ≡ cnt + 0 = omega arith in
    subst (λ y. contains (candidate ns name y) (keys ns.name2id) ≡ true) step here
from_step ns name cnt here later (suc i) k =
    let step : suc cnt + i ≡ cnt + suc i = omega arith in
    subst (λ y. contains (candidate ns name y) (keys ns.name2id) ≡ true) step
      (later i (omega (arith, k)))

all_taken :
    (fuel : ℕ) (ns : Namespace) (name id : String) (cnt : ℕ)
    → free_name fuel ns name id cnt (candidate ns name cnt) ≡ none
    → (i : ℕ) → i < fuel
    → contains (candidate ns name (cnt + i)) (keys ns.name2id) ≡ true
unfolding free_name
all_taken zero ns name id cnt h i k = elim k [ ]
all_taken (suc fuel) ns name id cnt h i k =
    elim (Option-cases (lookup (candidate ns name cnt) ns.name2id)) [
      | inl e ↦ ground (arith, rw (e, free_name) at h)
      | inr (cur, e) ↦
          let h' = rw (e, free_name) at h in
          elim (Bool-cases (string_eq.same cur id)) [
            | inl mine ↦ ground (arith, rw mine at h')
            | inr yours ↦
                from_step ns name cnt (lookup-contains (candidate ns name cnt) cur ns.name2id e)
                  (all_taken fuel ns name id (suc cnt) (rw yours at h')) i k
          ]
    ]

-- Where the two maps agree, and with a rename function that gives different names for different
-- counts, none of them the name itself, Add returns: one round more than the map has entries is
-- fuel enough. The two maps go on to agree, the id has the name that is returned, that name leads
-- back to the id, and every other id keeps its name.
pub add-returns :
    (fuel : ℕ) (name id : String) (ns : Namespace)
    → ((i j : ℕ) → candidate ns name i ≡ candidate ns name j → i ≡ j)
    → length ns.name2id < fuel
    → IsNamespace ns
    → (result : String) × (ns' : Namespace) × (add fuel name id ns ≡ some (result, ns'))
      × Kept id ns result ns'
unfolding add
add-returns fuel name id ns inj k i = elim (Option-cases (free_name fuel ns name id 0 name)) [
  | inl e ↦
      let many =
        pigeons (candidate ns name) inj fuel 0 (keys ns.name2id) (all_taken fuel ns name id 0 e) in
      let never : ⊥ = omega (arith, many, length-keys ns.name2id, k) in elim never [ ]
  | inr (r, e) ↦
      let made : add fuel name id ns ≡ some (r, enter r id ns) = rw (e, add) refl in
      (r, enter r id ns, made, add-IsNamespace fuel name id r ns (enter r id ns) i made)
]
