-- ===== src/Align/Reorder.antt =====
-- What reorderFields of align.go leaves of the fields, and the sizes that it returns.
use mathlib.Core.List.{Permᴰ}
use mathlib.Core.List.Permᴰ.{nil, cons, swap, trans}
use mathlib.Core.List.Permᴰ as Perms
use thriftgo.Prelude.{
  ℕ, ◌<◌, ◌==◌, ◌≡◌, refl, sym, subst, Bool, some, List, [], ◌∷◌, Bool-cases, inl, inr, arith,
}
use thriftgo.Go.Outcome.{ok}
use thriftgo.Align.{
  Category, SizeDiff, field_size, field_sizes, sorted, struct_size, reorder_fields,
}
use thriftgo.Align.Bounds.{ArePositive}
use thriftgo.Align.Layout.{struct_size-Layout}

module _ {Field : Type 0} (category : Field → Category) (redirect : Field → Bool)
    (sort : (Field → Field → Bool) → List Field → List Field) where
  abbrev sizes : List Field → List ℕ
  sizes = field_sizes category redirect sort

  ArePositive-sizes : {l k : List Field} → Permᴰ l k → ArePositive (sizes k) → ArePositive (sizes l)
  ArePositive-sizes nil p = tt
  ArePositive-sizes (cons e d) p =
      (subst (λ f. 0 < field_size category redirect sort f) (sym e) p.0, ArePositive-sizes d p.1)
  ArePositive-sizes (swap e h) p = (
    subst (λ f. 0 < field_size category redirect sort f) (sym e) p.1.0,
    (subst (λ f. 0 < field_size category redirect sort f) (sym h) p.0, p.1.1),
  )
  ArePositive-sizes (trans c d) p = ArePositive-sizes c (ArePositive-sizes d p)

  struct_size-sizes :
      (f : Field) (fs l : List Field)
      → Permᴰ l (f ∷ fs)
      → ArePositive (sizes (f ∷ fs))
      → (n : ℕ) × (struct_size (sizes l) ≡ ok n)
  struct_size-sizes f fs [] d p =
      let never : ⊥ = (let e = Perms.length-eq d in cc) in elim never [ ]
  struct_size-sizes f fs (g ∷ gs) d p =
      let q = ArePositive-sizes d p in
      let whole = struct_size-Layout (field_size category redirect sort g) (sizes gs) q in
      (whole.0, whole.1)

  -- Where sort.Slice permutes, and each field of the struct has a size, reorderFields returns sizes
  -- and loses no field: the one size is that of the struct with the fields as they were given, the
  -- other that of the struct with the fields as they are left, and the order is another only if the
  -- sizes differ.
  pub reorder_fields-sizes :
      ((test : Field → Field → Bool) (l : List Field) → Permᴰ (sort test l) l)
      → (f : Field) (fs : List Field) → ArePositive (field_sizes category redirect sort (f ∷ fs))
      → (d : SizeDiff) × (gs : List Field) × (reorder_fields category redirect sort (f ∷ fs)
          ≡ ok (some d, gs))
        × Permᴰ gs (f ∷ fs)
        × (struct_size (field_sizes category redirect sort (f ∷ fs)) ≡ ok d.original)
        × (struct_size (field_sizes category redirect sort gs) ≡ ok d.arranged)
        × (d.original ≡ d.arranged → gs ≡ f ∷ fs)
  unfolding reorder_fields
  reorder_fields-sizes permutes f fs p =
      let other = sorted category redirect sort (f ∷ fs) in
      let permuted = permutes _ (f ∷ fs) in
      let (n, e) = struct_size-sizes f fs (f ∷ fs) (Perms.refl (f ∷ fs)) p in
      let (m, h) = struct_size-sizes f fs other permuted p in
      elim (Bool-cases (n == m)) [
        | inl same ↦
            let equal : n ≡ m = ground (arith, same) in
            (
              record { original = n; arranged = m },
              f ∷ fs,
              rw (e, h, same, reorder_fields) refl,
              Perms.refl (f ∷ fs),
              e,
              subst (λ x. struct_size (sizes (f ∷ fs)) ≡ ok x) equal e,
              λ k. refl,
            )
        | inr apart ↦ (
          record { original = n; arranged = m },
          other,
          rw (e, h, apart, reorder_fields) refl,
          permuted,
          e,
          h,
          (λ k. let never : ⊥ = ground (arith, apart, k) in elim never [ ]),
        )
      ]
