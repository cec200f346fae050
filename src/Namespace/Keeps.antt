-- ===== src/Namespace/Keeps.antt =====
-- The two maps of a namespace agree, and go on to: the name of an id leads back to the id.
use thriftgo.Prelude.{
  ℕ, zero, suc, ◌≡◌, ◌≢◌, refl, sym, ◌∙◌, ap, ◌⊎◌, true, false, none, some, String, arith,
  Bool-cases, Option-cases, inl, inr, subst,
}
use thriftgo.Prelude.Names.{string_eq}
use thriftgo.Namespace.{Namespace, enter, reserve, free_name, add, get, id_of, new_namespace}
use thriftgo.Namespace.Maps.{lookup, set, or_empty, lookup-set, lookup-set_other}

abbrev pub IsNamespace : Namespace → Type 0
IsNamespace ns =
    (id name : String) → lookup id ns.id2name ≡ some name → lookup name ns.name2id ≡ some id

-- `name` may be entered for `id`: nobody has it, or `id` does.
abbrev pub IsFree : String → String → Namespace → Type 0
IsFree name id ns = (lookup name ns.name2id ≡ none) ⊎ (lookup name ns.name2id ≡ some id)

some_injective : {a b : String} → some a ≡ some b → a ≡ b
some_injective h = ap or_empty h

taken :
    (name id other : String) (ns : Namespace)
    → IsFree name id ns
    → lookup name ns.name2id ≡ some other
    → other ≡ id
taken name id other ns (inl e) h = ground (arith, e, h)
taken name id other ns (inr e) h = some_injective (sym h ∙ e)

pub enter-IsNamespace :
    (name id : String) (ns : Namespace)
    → IsNamespace ns
    → IsFree name id ns
    → IsNamespace (enter name id ns)
unfolding enter
enter-IsNamespace name id ns i free x n h = elim (Bool-cases (string_eq.same x id)) [
  | inl e ↦
      let same : x ≡ id = (string_eq.same_iff x id).0 e in
      let here : n ≡ name = some_injective (
        sym h
        ∙ (ap (λ y. lookup y (set id name ns.id2name)) same ∙ lookup-set id name ns.id2name)) in
      ap (λ y. lookup y (set name id ns.name2id)) here
      ∙ (lookup-set name id ns.name2id ∙ ap some (sym same))
  | inr e ↦
      let other : x ≢ id = λ k. ground (arith, e, (string_eq.same_iff x id).1 k) in
      let before : lookup n ns.name2id ≡ some x =
        i x n (sym (lookup-set_other x id name ns.id2name other) ∙ h) in
      lookup-set_other n name id ns.name2id
        (λ k. other (taken name id x ns free (ap (λ y. lookup y ns.name2id) (sym k) ∙ before)))
      ∙ before
]

-- The names that the search of Add returns are free.
pub free_name-IsFree :
    (fuel : ℕ) (ns : Namespace) (name id : String) (cnt : ℕ) (res result : String)
    → free_name fuel ns name id cnt res ≡ some result
    → IsFree result id ns
unfolding free_name
free_name-IsFree zero ns name id cnt res result h = ground (arith, h)
free_name-IsFree (suc fuel) ns name id cnt res result h =
    elim (Option-cases (lookup res ns.name2id)) [
      | inl e ↦
          let same : res ≡ result = some_injective (rw (e, free_name) at h) in
          inl (ap (λ y. lookup y ns.name2id) (sym same) ∙ e)
      | inr (cur, e) ↦
          let h' = rw (e, free_name) at h in
          elim (Bool-cases (string_eq.same cur id)) [
            | inl mine ↦
                let same : res ≡ result = some_injective (rw mine at h') in
                inr (
                  ap (λ y. lookup y ns.name2id) (sym same)
                  ∙ (e ∙ ap some ((string_eq.same_iff cur id).0 mine)))
            | inr yours ↦
                free_name-IsFree fuel ns name id (suc cnt) (ns.rename name (suc cnt)) result
                  (rw yours at h')
          ]
    ]

-- What Add promises of the name that it returns and of the namespace that it leaves.
abbrev pub Kept : String → Namespace → String → Namespace → Type 0
unfolding get id_of
Kept id ns result ns' =
    IsNamespace ns'
    × (get id ns' ≡ result)
    × (id_of result ns' ≡ id)
    × ((other : String) → other ≢ id → get other ns' ≡ get other ns)

pair_injective : {A : Type 0} {x y : A} → some x ≡ some y → x ≡ y
pair_injective {x} h = ap (λ o. elim o [ none ↦ x | some z ↦ z ]) h

-- A call of Add that ends keeps the two maps in agreement. Afterwards the id has the name that Add returned, that name
-- leads back to the id, and every other id has the name that it had before.
pub add-IsNamespace :
    (fuel : ℕ) (name id result : String) (ns ns' : Namespace)
    → IsNamespace ns
    → add fuel name id ns ≡ some (result, ns')
    → Kept id ns result ns'
unfolding add get id_of enter
add-IsNamespace fuel name id result ns ns' i h =
    elim (Option-cases (free_name fuel ns name id 0 name)) [
      | inl e ↦ ground (arith, rw (e, add) at h)
      | inr (r, e) ↦
          let here : (r, enter r id ns) ≡ (result, ns') = pair_injective (rw (e, add) at h) in
          subst (λ p. Kept id ns p.0 p.1) here
            (
              enter-IsNamespace r id ns i (free_name-IsFree fuel ns name id 0 name r e),
              ap or_empty (lookup-set id r ns.id2name),
              ap or_empty (lookup-set r id ns.name2id),
              λ other n. ap or_empty (lookup-set_other other id r ns.id2name n),
            )
    ]

-- Where the two maps agree, Reserve refuses a name that some id has, and changes nothing then.
-- Otherwise the two maps go on to agree, and the name and the id lead to each other.
pub reserve-IsNamespace :
    (name id : String) (ns : Namespace)
    → IsNamespace ns
    → ((cur : String) → lookup name ns.name2id ≡ some cur → reserve name id ns ≡ (false, ns))
      × (lookup name ns.name2id ≡ none
          → (ns' : Namespace) × (reserve name id ns ≡ (true, ns'))
            × IsNamespace ns'
            × (get id ns' ≡ name)
            × (id_of name ns' ≡ id))
unfolding reserve get id_of enter
reserve-IsNamespace name id ns i = (
  (λ cur e. rw (e, reserve) refl),
  (λ e. (
    enter name id ns,
    rw (e, reserve) refl,
    enter-IsNamespace name id ns i (inl e),
    ap or_empty (lookup-set id name ns.id2name),
    ap or_empty (lookup-set name id ns.name2id),
  )),
)

pub new_namespace-IsNamespace : (rename : String → ℕ → String) → IsNamespace (new_namespace rename)
unfolding new_namespace lookup
new_namespace-IsNamespace rename id name h = ground (arith, h)
