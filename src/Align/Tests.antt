-- ===== src/Align/Tests.antt =====
-- Concrete runs of generator/golang/align.go.
use thriftgo.Prelude.{
  Bool, false, some, List, Bool-cases, inl, inr, if◌then◌else◌, ℕ, ◌*◌, ◌+◌, ◌<◌, ◌≤◌, ◌≡◌, refl,
  [], ◌∷◌, arith,
}
use thriftgo.Go.Outcome.{ok}
use mathlib.Core.List.{Permᴰ}
use mathlib.Core.List.Permᴰ.{cons, swap, trans}
use mathlib.Core.List.Permᴰ as Perms
use thriftgo.Align.{
  Category, SizeDiff, bool, i64, field_sizes, struct_size, add_all, add, padded, reorder_fields,
}
use thriftgo.Align.Reorder.{reorder_fields-sizes}
use thriftgo.Align.Bounds.{sum}
use thriftgo.Align.Layout.{Layout, struct_size-Layout}

struct_size-Layout_example :
    (n : ℕ) × (struct_size (8 ∷ 1 ∷ 4 ∷ []) ≡ ok n)
    × Layout 0 0 (8 ∷ 1 ∷ 4 ∷ []) n
    × (sum (8 ∷ 1 ∷ 4 ∷ []) ≤ n)
    × (n < 2 * sum (8 ∷ 1 ∷ 4 ∷ []) + 8)
struct_size-Layout_example = struct_size-Layout 8 (1 ∷ 4 ∷ []) (omega arith)

-- A four-byte field lies at offset 9, behind a word and a byte: Go would put it at 12, and the two
-- fields of four bytes and of one byte behind it would make this struct one of 24 bytes.
packed_example : struct_size (8 ∷ 1 ∷ 4 ∷ 2 ∷ 1 ∷ []) ≡ ok 16
unfolding struct_size add_all add padded
packed_example = refl

-- A sort that could stand for sort.Slice.
unfoldable insert_by : {A : Type 0} → (A → A → Bool) → A → List A → List A
insert_by test x [] = x ∷ []
insert_by test x (y ∷ l) = let rest = insert_by test x l in if test x y then x ∷ y ∷ l else y ∷ rest

unfoldable sort_by : {A : Type 0} → (A → A → Bool) → List A → List A
sort_by test [] = []
sort_by test (x ∷ l) = insert_by test x (sort_by test l)

insert_by-Permᴰ :
    {A : Type 0} (test : A → A → Bool) (x : A) (l : List A) → Permᴰ (insert_by test x l) (x ∷ l)
unfolding insert_by
insert_by-Permᴰ test x [] = Perms.refl (x ∷ [])
insert_by-Permᴰ test x (y ∷ l) = elim (Bool-cases (test x y)) [
  | inl e ↦ rw e (Perms.refl (x ∷ y ∷ l))
  | inr e ↦ rw e (trans (cons refl (insert_by-Permᴰ test x l)) (swap refl refl))
]

sort_by-Permᴰ : {A : Type 0} (test : A → A → Bool) (l : List A) → Permᴰ (sort_by test l) l
unfolding sort_by
sort_by-Permᴰ test [] = Perms.refl []
sort_by-Permᴰ test (x ∷ l) =
    trans (insert_by-Permᴰ test x (sort_by test l)) (cons refl (sort_by-Permᴰ test l))

-- The fields are their categories, and none of them is redirected.
abbrev flags : List Category
flags = i64 ∷ bool ∷ []

reorder_fields-sizes_example :
    (d : SizeDiff) × (gs : List Category) × (reorder_fields
        (λ c. c)
        (λ c. false)
        sort_by
        (bool ∷ flags)
      ≡ ok (some d, gs))
    × Permᴰ gs (bool ∷ flags)
    × (struct_size (field_sizes (λ c. c) (λ c. false) sort_by (bool ∷ flags)) ≡ ok d.original)
    × (struct_size (field_sizes (λ c. c) (λ c. false) sort_by gs) ≡ ok d.arranged)
    × (d.original ≡ d.arranged → gs ≡ bool ∷ flags)
reorder_fields-sizes_example =
    reorder_fields-sizes (λ c. c) (λ c. false) sort_by sort_by-Permᴰ bool flags (omega arith)

flags_moved :
    reorder_fields (λ c. c) (λ c. false) sort_by (bool ∷ flags)
    ≡ ok (some (record { original = 24; arranged = 16 }), i64 ∷ bool ∷ bool ∷ [])
unfolding reorder_fields struct_size add_all add padded sort_by insert_by
flags_moved = refl
